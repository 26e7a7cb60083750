-- ===== src/Storage/Wal/Files/Replay.antt =====
-- Why a log can be applied again: what an entry did to a file, whole or torn, the entry overwrites.
use stripe_sql.Prelude.{
  ℕ, ◌≡◌, refl, sym, ap, fun_ext, arith, Option, none, some, true, false, List, [], ◌∷◌, ◌⊎◌, inl,
  inr, ltb, if◌then◌else◌, Bool-cases,
}
use stripe_sql.Storage.Bytes.{Buffer}
use stripe_sql.Storage.Wal.Entry.{WalEntry}
use stripe_sql.Storage.Wal.Files.{
  File, FileName, Files, name_eq, entry_name, Change, create, remove, write, entry_change,
  overwrite, change_file, change, torn, tear,
}

some-inj : {a b : File} → some a ≡ some b → a ≡ b
some-inj {a} {b} e = ap (λ o. elim o [ none ↦ a | some f ↦ f ]) e

overwrite-congr :
    (addr len addr' len' : ℕ) (bytes bytes' : Buffer) (f g : File)
    → overwrite f addr len bytes ≡ overwrite g addr len bytes
    → overwrite (overwrite f addr' len' bytes') addr len bytes
      ≡ overwrite (overwrite g addr' len' bytes') addr len bytes
overwrite-congr addr len addr' len' bytes bytes' f g e =
    fun_ext (λ j. ground (arith, ap (λ h. h j) e))

overwrite-torn :
    (k addr len : ℕ) (bytes : Buffer) (f : File)
    → overwrite (overwrite f addr (if ltb k len then k else len) bytes) addr len bytes
      ≡ overwrite f addr len bytes
overwrite-torn k addr len bytes f = fun_ext (λ j. ground arith)

-- Where a change makes two files equal, it still does after both went through another change.
change_file-congr :
    (c d : Change) (f g : Option File)
    → change_file c f ≡ change_file c g
    → change_file c (change_file d f) ≡ change_file c (change_file d g)
change_file-congr create d f g e = refl
change_file-congr remove d f g e = refl
change_file-congr (write addr len bytes) create f g e = refl
change_file-congr (write addr len bytes) remove f g e = refl
change_file-congr (write addr len bytes) (write addr' len' bytes') none none e = refl
change_file-congr (write addr len bytes) (write addr' len' bytes') none (some g) e =
    ground (arith, e)
change_file-congr (write addr len bytes) (write addr' len' bytes') (some f) none e =
    ground (arith, e)
change_file-congr (write addr len bytes) (write addr' len' bytes') (some f) (some g) e =
    ap some (overwrite-congr addr len addr' len' bytes bytes' f g (some-inj e))

change_file-torn :
    (k : ℕ) (c : Change) (f : Option File) → change_file c (torn k c f) ≡ change_file c f
change_file-torn k create f = refl
change_file-torn k remove f = refl
change_file-torn k (write addr len bytes) none = refl
change_file-torn k (write addr len bytes) (some f) = ap some (overwrite-torn k addr len bytes f)

change_file-twice :
    (c : Change) (f : Option File) → change_file c (change_file c f) ≡ change_file c f
change_file-twice create f = refl
change_file-twice remove f = refl
change_file-twice (write addr len bytes) none = refl
change_file-twice (write addr len bytes) (some f) = ap some (fun_ext (λ j. ground arith))

-- What an entry does when nothing fails, and what the entries of a log do.
abbrev pub effect : WalEntry → Files → Files
effect e files = change (entry_name e) (entry_change e) files

unfoldable pub redo : List WalEntry → Files → Files
redo [] files = files
redo (e ∷ es) files = redo es (effect e files)

abbrev pub IsIn : WalEntry → List WalEntry → Type 0
IsIn e [] = ⊥
IsIn e (d ∷ es) = (e ≡ d) ⊎ IsIn e es

change-at :
    (name other : FileName) (c : Change) (files : Files)
    → change name c files other
      ≡ (if name_eq other name then change_file c (files other) else files other)
change-at name other c files = refl

change-congr :
    (n m : FileName) (c d : Change) (f g : Files)
    → change n c f ≡ change n c g
    → change n c (change m d f) ≡ change n c (change m d g)
change-congr n m c d f g e = fun_ext (λ other. elim (Bool-cases (name_eq other n)) [
  | inl x ↦ elim (Bool-cases (name_eq other m)) [
    | inl y ↦ rw x (rw y (change_file-congr c d (f other) (g other) (both other x)))
    | inr y ↦ rw x (rw y (both other x))
  ]
  | inr x ↦ rw x (ap (λ v. if name_eq other m then change_file d v else v) (neither other x))
])
  where
    both :
        (other : FileName)
        → name_eq other n ≡ true
        → change_file c (f other) ≡ change_file c (g other)
    both other x = ground (arith, ap (λ h. h other) e, x)

    neither : (other : FileName) → name_eq other n ≡ false → f other ≡ g other
    neither other x = ground (arith, ap (λ h. h other) e, x)

change-twice : (n : FileName) (c : Change) (f : Files) → change n c (change n c f) ≡ change n c f
change-twice n c f = fun_ext (λ other. elim (Bool-cases (name_eq other n)) [
  | inl x ↦ rw x (change_file-twice c (f other))
  | inr x ↦ rw x refl
])

change-tear :
    (k : ℕ) (n : FileName) (c : Change) (f : Files) → change n c (tear k n c f) ≡ change n c f
change-tear k n c f = fun_ext (λ other. elim (Bool-cases (name_eq other n)) [
  | inl x ↦ rw x (change_file-torn k c (f other))
  | inr x ↦ rw x refl
])

-- Files that an entry of the log makes equal, the log makes equal.
redo-congr :
    (es : List WalEntry) (e : WalEntry) (f g : Files)
    → IsIn e es
    → effect e f ≡ effect e g
    → redo es f ≡ redo es g
unfolding redo
redo-congr [] e f g m h = elim m [ ]
redo-congr (d ∷ es) e f g (inl same) h = ap (redo es) (rw (sym same) h)
redo-congr (d ∷ es) e f g (inr m) h =
    redo-congr es e (effect d f) (effect d g) m
      (change-congr (entry_name e) (entry_name d) (entry_change e) (entry_change d) f g h)

-- However much of one of its entries was applied before, the log leaves the same files.
pub redo-effect :
    (es : List WalEntry) (e : WalEntry) (files : Files)
    → IsIn e es
    → redo es (effect e files) ≡ redo es files
redo-effect es e files m =
    redo-congr es e (effect e files) files m (change-twice (entry_name e) (entry_change e) files)

pub redo-tear :
    (es : List WalEntry) (e : WalEntry) (k : ℕ) (files : Files)
    → IsIn e es
    → redo es (tear k (entry_name e) (entry_change e) files) ≡ redo es files
redo-tear es e k files m =
    redo-congr es e _ files m (change-tear k (entry_name e) (entry_change e) files)
