-- ===== src/Storage/Wal/Files/Present.antt =====
-- Whether the files that a log writes to are there, after an interrupted pass over the log too.
use stripe_sql.Prelude.{
  ℕ, ◌≡◌, refl, sym, ap₂, subst, arith, Option, none, some, Bool, true, false, ◌&&◌, List, [], ◌∷◌,
  inl, inr, if◌then◌else◌, Bool-cases, ==_refl, ==_iff,
}
use stripe_sql.Storage.Wal.Entry.{WalEntry}
use stripe_sql.Storage.Wal.Files.{
  File, FileName, Files, name_eq, entry_name, Change, create, remove, write, entry_change,
  change_file, torn, tear, is_open,
}
use stripe_sql.Storage.Wal.Files.Replay.{effect, IsIn}

abbrev pub is_write : Change → Bool
is_write create = false
is_write remove = false
is_write (write addr len bytes) = true

abbrev pub is_remove : Change → Bool
is_remove create = false
is_remove remove = true
is_remove (write addr len bytes) = false

-- The log writes to `name` before it creates or removes it.
unfoldable pub needs : List WalEntry → FileName → Bool
needs [] name = false
needs (e ∷ es) name =
    let rest = needs es name in
    if name_eq name (entry_name e) then is_write (entry_change e) else rest

unfoldable pub removes : List WalEntry → FileName → Bool
removes [] name = false
removes (e ∷ es) name =
    let rest = removes es name in
    if name_eq name (entry_name e) && is_remove (entry_change e) then true else rest

-- No file that a log writes to before it creates it is removed by the log.
abbrev pub IsRepeatable : List WalEntry → Type 0
IsRepeatable es = (name : FileName) → needs es name ≡ true → removes es name ≡ false

-- Each write finds its file.
unfoldable pub opens : List WalEntry → Files → Bool
opens [] files = true
opens (e ∷ es) files =
    let rest = opens es (effect e files) in is_open (entry_change e) (files (entry_name e)) && rest

abbrev pub is_present : Option File → Bool
is_present none = false
is_present (some file) = true

-- The files that a log writes to and has not created are there.
abbrev pub HasNeeded : List WalEntry → Files → Type 0
HasNeeded es files = (name : FileName) → needs es name ≡ true → is_present (files name) ≡ true

and-left : (a b : Bool) → (a && b) ≡ true → a ≡ true
and-left a b h = ground (arith, h)

and-right : (a b : Bool) → (a && b) ≡ true → b ≡ true
and-right a b h = ground (arith, h)

name_eq_refl : (name : FileName) → name_eq name name ≡ true
unfolding name_eq
name_eq_refl [] = refl
name_eq_refl (x ∷ xs) = rw (==_refl x) (name_eq_refl xs)

name_eq_sound : (m n : FileName) → name_eq m n ≡ true → m ≡ n
unfolding name_eq
name_eq_sound [] [] h = refl
name_eq_sound [] (y ∷ ys) h = ground (arith, h)
name_eq_sound (x ∷ xs) [] h = ground (arith, h)
name_eq_sound (x ∷ xs) (y ∷ ys) h =
    ap₂ ◌∷◌ ((==_iff x y).0 (and-left _ _ h)) (name_eq_sound xs ys (and-right _ _ h))

is_open-present :
    (c : Change) (f : Option File) → is_open c f ≡ true → is_write c ≡ true → is_present f ≡ true
is_open-present create f h w = ground (arith, w)
is_open-present remove f h w = ground (arith, w)
is_open-present (write addr len bytes) none h w = ground (arith, h)
is_open-present (write addr len bytes) (some f) h w = refl

present-is_open :
    (c : Change) (f : Option File) → (is_write c ≡ true → is_present f ≡ true) → is_open c f ≡ true
present-is_open create f h = refl
present-is_open remove f h = refl
present-is_open (write addr len bytes) none h = ground (arith, h refl)
present-is_open (write addr len bytes) (some f) h = refl

change_file-present :
    (c : Change) (f : Option File)
    → is_remove c ≡ false
    → is_present f ≡ true
    → is_present (change_file c f) ≡ true
change_file-present create f r h = refl
change_file-present remove f r h = ground (arith, r)
change_file-present (write addr len bytes) none r h = ground (arith, h)
change_file-present (write addr len bytes) (some f) r h = refl

torn-present :
    (k : ℕ) (c : Change) (f : Option File) → is_present f ≡ true → is_present (torn k c f) ≡ true
torn-present k create f h = refl
torn-present k remove f h = h
torn-present k (write addr len bytes) none h = ground (arith, h)
torn-present k (write addr len bytes) (some f) h = refl

-- A file that is there after a change in one place is there after it in another.
change_file-again :
    (c : Change) (f g : Option File)
    → (is_write c ≡ true → is_present g ≡ true)
    → is_present (change_file c f) ≡ true
    → is_present (change_file c g) ≡ true
change_file-again create f g w h = refl
change_file-again remove f g w h = h
change_file-again (write addr len bytes) f none w h = ground (arith, w refl)
change_file-again (write addr len bytes) f (some g) w h = refl

-- A log whose writes find their files has the ones it needs.
pub opens-HasNeeded :
    (es : List WalEntry) (files : Files) → opens es files ≡ true → HasNeeded es files
unfolding opens needs
opens-HasNeeded [] files h name n = ground (arith, n)
opens-HasNeeded (e ∷ es) files h name n = elim (Bool-cases (name_eq name (entry_name e))) [
  | inl x ↦
      subst (λ m. is_present (files m) ≡ true) (sym (name_eq_sound name (entry_name e) x))
        (is_open-present (entry_change e) (files (entry_name e)) (and-left _ _ h)
          (ground (arith, x, n)))
  | inr x ↦ ground (
    arith,
    x,
    opens-HasNeeded es (effect e files)
        (and-right (is_open (entry_change e) (files (entry_name e))) (opens es (effect e files)) h)
        name (ground (arith, x, n)),
  )
]

HasNeeded-next :
    (e : WalEntry) (es : List WalEntry) (f g : Files)
    → opens es (effect e f) ≡ true
    → HasNeeded (e ∷ es) g
    → HasNeeded es (effect e g)
unfolding needs
HasNeeded-next e es f g h v name n = elim (Bool-cases (name_eq name (entry_name e))) [
  | inl x ↦ rw x (
      change_file-again (entry_change e) (f name) (g name) (λ w. v name (rw x w))
        (ground (arith, x, opens-HasNeeded es (effect e f) h name n)))
  | inr x ↦ rw x (v name (rw x n))
]

-- The writes of a log find their files wherever the needed ones are there.
pub opens-again :
    (es : List WalEntry) (f g : Files) → opens es f ≡ true → HasNeeded es g → opens es g ≡ true
unfolding opens needs
opens-again [] f g h v = refl
opens-again (e ∷ es) f g h v =
    rw
      (present-is_open (entry_change e) (g (entry_name e))
        (λ w. v (entry_name e) (rw (name_eq_refl (entry_name e)) w)))
      (opens-again es (effect e f) (effect e g) (and-right _ _ h)
        (HasNeeded-next e es f g (and-right _ _ h) v))

kept :
    (es : List WalEntry) (e : WalEntry) (name : FileName)
    → IsIn e es
    → removes es name ≡ false
    → name_eq name (entry_name e) ≡ true
    → is_remove (entry_change e) ≡ false
unfolding removes
kept [] e name m r x = elim m [ ]
kept (d ∷ es) e name (inl same) r x =
    subst (λ a. is_remove (entry_change a) ≡ false) (sym same)
      (head (subst (λ a. name_eq name (entry_name a) ≡ true) same x))
  where
    head : name_eq name (entry_name d) ≡ true → is_remove (entry_change d) ≡ false
    head y = ground (arith, r, y)
kept (d ∷ es) e name (inr m) r x = kept es e name m (ground (arith, r)) x

-- An entry of a repeatable log leaves the files that the log needs, whole or torn.
pub HasNeeded-effect :
    (es : List WalEntry) (e : WalEntry) (files : Files)
    → IsRepeatable es
    → IsIn e es
    → HasNeeded es files
    → HasNeeded es (effect e files)
HasNeeded-effect es e files r m v name n = elim (Bool-cases (name_eq name (entry_name e))) [
  | inl x ↦
      rw x (
        change_file-present (entry_change e) (files name) (kept es e name m (r name n) x)
          (v name n))
  | inr x ↦ rw x (v name n)
]

pub HasNeeded-tear :
    (es : List WalEntry) (e : WalEntry) (k : ℕ) (files : Files)
    → HasNeeded es files
    → HasNeeded es (tear k (entry_name e) (entry_change e) files)
HasNeeded-tear es e k files v name n = elim (Bool-cases (name_eq name (entry_name e))) [
  | inl x ↦ rw x (torn-present k (entry_change e) (files name) (v name n))
  | inr x ↦ rw x (v name n)
]
