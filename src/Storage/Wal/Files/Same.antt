-- ===== src/Storage/Wal/Files/Same.antt =====
-- Entries that a log does not tell apart do the same to the files.
use stripe_sql.Prelude.{
  ℕ, zero, suc, ◌+◌, ◌-◌, ◌<◌, ◌≡◌, refl, sym, ap, ap₂, ◌∙◌, fun_ext, arith, Option, none, some,
  ◌&&◌, inl, inr, List, [], ◌∷◌, ◌==◌, if◌then◌else◌, Bool-cases,
}
use stripe_sql.Storage.Bytes.{Buffer}
use stripe_sql.Storage.Wal.Entry.{WalEntry, object_type, wal_file_create, wal_file_remove}
use stripe_sql.Storage.Wal.Entry.RoundTrip.{SameEntry}
use stripe_sql.Storage.Wal.Files.{
  File, FileName, Files, name_eq, c_string, entry_name, Change, create, remove, write, entry_change,
  change_file, is_open,
}
use stripe_sql.Storage.Wal.Files.Replay.{effect, redo}
use stripe_sql.Storage.Wal.Files.Present.{is_write, is_remove, needs, removes, opens, IsRepeatable}

c_string-ext :
    (fuel : ℕ) (a b : Buffer) (i : ℕ)
    → ((k : ℕ) → k < i + fuel → a k ≡ b k)
    → c_string fuel a i ≡ c_string fuel b i
unfolding c_string
c_string-ext zero a b i h = refl
c_string-ext (suc fuel) a b i h =
    ap₂ (λ x rest. if x == 0 then [] else x ∷ rest) (h i (omega arith))
      (c_string-ext fuel a b (i + 1) (λ k lt. h k (omega (arith, lt))))

asked : ℕ → ℕ → ℕ → Buffer → Change
asked type addr len bytes =
    if type == wal_file_create
    then create
    else if type == wal_file_remove
    then remove
    else write addr len bytes

entry_change-asked :
    (e : WalEntry) → entry_change e ≡ asked (object_type e.magic) e.addr e.payload_len e.payload
unfolding entry_change asked
entry_change-asked e = refl

-- Only the first `len` bytes of a payload count.
change_file-payload :
    (type addr len : ℕ) (p q : Buffer) (f : Option File)
    → ((k : ℕ) → k < len → p k ≡ q k)
    → (change_file (asked type addr len p) f ≡ change_file (asked type addr len q) f)
      × (is_open (asked type addr len p) f ≡ is_open (asked type addr len q) f)
unfolding asked
change_file-payload type addr len p q f h = elim (Bool-cases (type == 6)) [
  | inl x ↦ rw x (refl, refl)
  | inr x ↦ elim (Bool-cases (type == 7)) [
    | inl y ↦ rw x (rw y (refl, refl))
    | inr y ↦ rw x (rw y (written_same f))
  ]
]
  where
    written_same :
        (g : Option File)
        → (change_file (write addr len p) g ≡ change_file (write addr len q) g)
          × (is_open (write addr len p) g ≡ is_open (write addr len q) g)
    written_same none = (refl, refl)
    written_same (some g) = (ap some (fun_ext (λ j. ground (arith, h (j - addr)))), refl)

asked-kinds :
    (type addr len : ℕ) (p q : Buffer)
    → (is_write (asked type addr len p) ≡ is_write (asked type addr len q))
      × (is_remove (asked type addr len p) ≡ is_remove (asked type addr len q))
unfolding asked
asked-kinds type addr len p q = elim (Bool-cases (type == 6)) [
  | inl x ↦ rw x (refl, refl)
  | inr x ↦ elim (Bool-cases (type == 7)) [
    | inl y ↦ rw x (rw y (refl, refl))
    | inr y ↦ rw x (rw y (refl, refl))
  ]
]

module _ (a b : WalEntry) (same : SameEntry a b) where
  entry_name-same : entry_name a ≡ entry_name b
  unfolding entry_name
  entry_name-same = c_string-ext 260 a.file_name b.file_name 0 (λ k h. same.file_name k h)

  -- The change of `a`, with the payload of `a` and all else of `b`.
  entry_change-same : entry_change a ≡ asked (object_type b.magic) b.addr b.payload_len a.payload
  entry_change-same =
      entry_change-asked a
      ∙ ap (λ m. asked (object_type m) a.addr a.payload_len a.payload) same.magic
      ∙ ap₂ (λ ad len. asked (object_type b.magic) ad len a.payload) same.addr same.payload_len

  file-same :
      (f : Option File)
      → (change_file (entry_change a) f ≡ change_file (entry_change b) f)
        × (is_open (entry_change a) f ≡ is_open (entry_change b) f)
  file-same f =
      let s =
        change_file-payload (object_type b.magic) b.addr b.payload_len a.payload b.payload f
          same.payload in
      (
        ap (λ c. change_file c f) entry_change-same
            ∙ s.0
            ∙ sym (ap (λ c. change_file c f) (entry_change-asked b)),
        ap (λ c. is_open c f) entry_change-same
            ∙ s.1
            ∙ sym (ap (λ c. is_open c f) (entry_change-asked b)),
      )

  pub effect-same : (files : Files) → effect a files ≡ effect b files
  effect-same files = fun_ext (λ other.
      ap₂ (λ n f. if name_eq other n then f else files other) entry_name-same
        (file-same (files other)).0)

  pub is_open-same :
      (files : Files)
      → is_open (entry_change a) (files (entry_name a))
        ≡ is_open (entry_change b) (files (entry_name b))
  is_open-same files =
      ap (λ n. is_open (entry_change a) (files n)) entry_name-same
      ∙ (file-same (files (entry_name b))).1

  pub kinds-same :
      (is_write (entry_change a) ≡ is_write (entry_change b))
      × (is_remove (entry_change a) ≡ is_remove (entry_change b))
  kinds-same =
      let s = asked-kinds (object_type b.magic) b.addr b.payload_len a.payload b.payload in
      (
        ap is_write entry_change-same ∙ s.0 ∙ sym (ap is_write (entry_change-asked b)),
        ap is_remove entry_change-same ∙ s.1 ∙ sym (ap is_remove (entry_change-asked b)),
      )

-- Logs whose entries are told apart nowhere.
abbrev pub AreSame : List WalEntry → List WalEntry → Type 0
AreSame [] [] = Unit
AreSame (a ∷ ds) (b ∷ es) = SameEntry a b × AreSame ds es
AreSame ds es = ⊥

pub redo-same :
    (ds es : List WalEntry) (files : Files) → AreSame ds es → redo ds files ≡ redo es files
unfolding redo
redo-same [] [] files s = refl
redo-same [] (b ∷ es) files s = elim s [ ]
redo-same (a ∷ ds) [] files s = elim s [ ]
redo-same (a ∷ ds) (b ∷ es) files (s, ss) =
    ap (redo ds) (effect-same a b s files) ∙ redo-same ds es (effect b files) ss

pub opens-same :
    (ds es : List WalEntry) (files : Files) → AreSame ds es → opens ds files ≡ opens es files
unfolding opens
opens-same [] [] files s = refl
opens-same [] (b ∷ es) files s = elim s [ ]
opens-same (a ∷ ds) [] files s = elim s [ ]
opens-same (a ∷ ds) (b ∷ es) files (s, ss) =
    ap₂ ◌&&◌ (is_open-same a b s files)
      (ap (opens ds) (effect-same a b s files) ∙ opens-same ds es (effect b files) ss)

needs-same :
    (ds es : List WalEntry) (name : FileName) → AreSame ds es → needs ds name ≡ needs es name
unfolding needs
needs-same [] [] name s = refl
needs-same [] (b ∷ es) name s = elim s [ ]
needs-same (a ∷ ds) [] name s = elim s [ ]
needs-same (a ∷ ds) (b ∷ es) name (s, ss) =
    rw (entry_name-same a b s) (rw (kinds-same a b s).0 (rw (needs-same ds es name ss) refl))

removes-same :
    (ds es : List WalEntry) (name : FileName) → AreSame ds es → removes ds name ≡ removes es name
unfolding removes
removes-same [] [] name s = refl
removes-same [] (b ∷ es) name s = elim s [ ]
removes-same (a ∷ ds) [] name s = elim s [ ]
removes-same (a ∷ ds) (b ∷ es) name (s, ss) =
    rw (entry_name-same a b s) (rw (kinds-same a b s).1 (rw (removes-same ds es name ss) refl))

pub IsRepeatable-same : (ds es : List WalEntry) → AreSame ds es → IsRepeatable es → IsRepeatable ds
IsRepeatable-same ds es s r name n =
    removes-same ds es name s ∙ r name (sym (needs-same ds es name s) ∙ n)
