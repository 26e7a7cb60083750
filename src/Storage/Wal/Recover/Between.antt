-- ===== src/Storage/Wal/Recover/Between.antt =====
-- What an interrupted pass over the log leaves, to be made good by a full one.
use stripe_sql.Prelude.{
  ℕ, zero, suc, ◌+◌, ◌≡◌, ◌≢◌, fun_ext, refl, sym, ap, ◌∙◌, subst, arith, Option, none, some, Bool,
  true, false, ◌||◌, if◌then◌else◌, List, [], ◌∷◌, inl, inr, Bool-cases, Option-cases,
}
use stripe_sql.Storage.Wal.Entry.{WalEntry}
use stripe_sql.Storage.Wal.Files.{
  Files, entry_name, entry_change, Outcome, done, not_opened, failed, is_open, apply_entry,
}
use stripe_sql.Storage.Wal.Files.Replay.{effect, redo, IsIn, redo-effect, redo-tear}
use stripe_sql.Storage.Wal.Files.Present.{IsRepeatable, HasNeeded, HasNeeded-effect, HasNeeded-tear}
use stripe_sql.Storage.Wal.Log.{LogFile, read_entry}
use stripe_sql.Storage.Wal.Recover.{Applied, changes_files, left_in, verify_loop, apply_loop}

-- A pass over a log whose entries can all be read: the second loop as it should go.
apply_read : Outcome → Option WalEntry → Files → Bool × Files
unfolding apply_entry
apply_read outcome none files = (false, files)
apply_read outcome (some e) files = apply_entry outcome e files

abbrev read_changes : Option WalEntry → Bool
read_changes none = false
read_changes (some e) = changes_files e

unfoldable pub pass_loop : ℕ → (ℕ → Outcome) → LogFile → ℕ → Bool → Files → Applied
unfolding apply_read
pass_loop zero io log i changed files = record { finished = true; changed = changed; files = files }
pass_loop (suc rounds) io log i changed files =
    let (applied, files') = apply_read (io i) (read_entry true log i) files in
    let rest =
      pass_loop rounds io log (i + 1) (changed || read_changes (read_entry true log i)) files' in
    if applied then rest else record { finished = false; changed = changed; files = files' }

verify_loop-none :
    (rounds : ℕ) (log : LogFile) (trans_id i : ℕ)
    → read_entry true log i ≡ none
    → verify_loop (suc rounds) (λ _. true) log trans_id i ≢ true
unfolding verify_loop
verify_loop-none rounds log trans_id i x v = ground (arith, x, v)

verify_loop-rest :
    (rounds : ℕ) (log : LogFile) (trans_id i : ℕ) (e : WalEntry)
    → read_entry true log i ≡ some e
    → verify_loop (suc rounds) (λ _. true) log trans_id i ≡ true
    → verify_loop rounds (λ _. true) log trans_id (i + 1) ≡ true
unfolding verify_loop
verify_loop-rest rounds log trans_id i e x v = ground (arith, x, v)

-- A round, once the entry is known.
abbrev round : Bool × Files → Bool → (Files → Applied) → Applied
round (applied, files) changed rest =
    if applied then rest files else record { finished = false; changed = changed; files = files }

apply_loop-round :
    (rounds : ℕ) (io : ℕ → Outcome) (rereads : ℕ → Bool) (held : WalEntry) (log : LogFile) (i : ℕ)
    (changed : Bool) (files : Files) (e : WalEntry)
    → left_in held (read_entry (rereads i) log i) ≡ e
    → apply_loop (suc rounds) io rereads held log i changed files
      ≡ round
          (apply_entry (io i) e files)
          changed
          (apply_loop rounds io rereads e log (i + 1) (changed || changes_files e))
unfolding apply_loop
apply_loop-round rounds io rereads held log i changed files e x =
    ap
      (λ d.
        round (apply_entry (io i) d files) changed
          (apply_loop rounds io rereads d log (i + 1) (changed || changes_files d)))
      x

pass_loop-round :
    (rounds : ℕ) (io : ℕ → Outcome) (log : LogFile) (i : ℕ) (changed : Bool) (files : Files)
    (e : WalEntry)
    → read_entry true log i ≡ some e
    → pass_loop (suc rounds) io log i changed files
      ≡ round
          (apply_entry (io i) e files)
          changed
          (pass_loop rounds io log (i + 1) (changed || changes_files e))
unfolding pass_loop
pass_loop-round rounds io log i changed files e x =
    ap
      (λ o.
        round (apply_read (io i) o files) changed
          (pass_loop rounds io log (i + 1) (changed || read_changes o)))
      x

-- The second loop is such a pass over a log that the first loop has accepted, if its reads succeed.
pub apply_loop-pass_loop :
    (rounds : ℕ) (io : ℕ → Outcome) (rereads : ℕ → Bool) (held : WalEntry) (log : LogFile)
    (trans_id i : ℕ) (changed : Bool) (files : Files)
    → ((j : ℕ) → rereads j ≡ true)
    → verify_loop rounds (λ _. true) log trans_id i ≡ true
    → apply_loop rounds io rereads held log i changed files
      ≡ pass_loop rounds io log i changed files
apply_loop-pass_loop zero io rereads held log trans_id i changed files r v =
    unfold apply_loop pass_loop in refl
apply_loop-pass_loop (suc rounds) io rereads held log trans_id i changed files r v =
    elim (Option-cases (read_entry true log i)) [
      | inl x ↦ absurd (verify_loop-none rounds log trans_id i x v)
      | inr (e, x) ↦
          apply_loop-round rounds io rereads held log i changed files e
            (ap (λ b. left_in held (read_entry b log i)) (r i) ∙ ap (left_in held) x)
          ∙ ap (round (apply_entry (io i) e files) changed) (
              fun_ext (λ now.
                apply_loop-pass_loop rounds io rereads e log trans_id (i + 1)
                  (changed || changes_files e) now r
                  (verify_loop-rest rounds log trans_id i e x v)))
          ∙ sym (pass_loop-round rounds io log i changed files e x)
    ]

-- The entries that the loops read.
abbrev prepend : Option WalEntry → List WalEntry → List WalEntry
prepend none es = es
prepend (some e) es = e ∷ es

unfoldable pub entries_from : ℕ → LogFile → ℕ → List WalEntry
entries_from zero log i = []
entries_from (suc rounds) log i = prepend (read_entry true log i) (entries_from rounds log (i + 1))

pub entries_from-some :
    (rounds : ℕ) (log : LogFile) (i : ℕ) (e : WalEntry)
    → read_entry true log i ≡ some e
    → entries_from (suc rounds) log i ≡ e ∷ entries_from rounds log (i + 1)
unfolding entries_from
entries_from-some rounds log i e x = ap (λ o. prepend o (entries_from rounds log (i + 1))) x

-- The disk as an interrupted pass over the entries `es` may leave it: a full pass makes it what
-- it would have become, and the files which that needs are there.
abbrev pub IsBetween : List WalEntry → Files → Files → Type 0
IsBetween es files now = (redo es now ≡ redo es files) × HasNeeded es now

apply_entry-IsBetween :
    (outcome : Outcome) (es : List WalEntry) (e : WalEntry) (files now : Files)
    → IsRepeatable es
    → IsIn e es
    → IsBetween es files now
    → IsBetween es files (apply_entry outcome e now).1
unfolding apply_entry
apply_entry-IsBetween done es e files now r m (same, v) =
    elim (Bool-cases (is_open (entry_change e) (now (entry_name e)))) [
      | inl x ↦ rw x (redo-effect es e now m ∙ same, HasNeeded-effect es e now r m v)
      | inr x ↦ rw x (same, v)
    ]
apply_entry-IsBetween not_opened es e files now r m b =
    elim (Bool-cases (is_open (entry_change e) (now (entry_name e)))) [
      | inl x ↦ rw x b
      | inr x ↦ rw x b
    ]
apply_entry-IsBetween (failed k) es e files now r m (same, v) =
    elim (Bool-cases (is_open (entry_change e) (now (entry_name e)))) [
      | inl x ↦ rw x (redo-tear es e k now m ∙ same, HasNeeded-tear es e k now v)
      | inr x ↦ rw x (same, v)
    ]

-- A pass whose entries all belong to the log.
pub pass_loop-IsBetween :
    (rounds : ℕ) (io : ℕ → Outcome) (log : LogFile) (i : ℕ) (changed : Bool) (es : List WalEntry)
    (files now : Files)
    → IsRepeatable es
    → ((e : WalEntry) → IsIn e (entries_from rounds log i) → IsIn e es)
    → IsBetween es files now
    → IsBetween es files (pass_loop rounds io log i changed now).files
unfolding pass_loop entries_from
pass_loop-IsBetween zero io log i changed es files now r sub b = b
pass_loop-IsBetween (suc rounds) io log i changed es files now r sub b =
    elim (Option-cases (read_entry true log i)) [
      | inl x ↦ rw x b
      | inr (e, x) ↦ rw x (elim (Bool-cases (apply_entry (io i) e now).0) [
        | inl y ↦ rw y (
            pass_loop-IsBetween rounds io log (i + 1) (changed || changes_files e) es files
              (apply_entry (io i) e now).1 r (λ d m. sub d (within e d x (inr m))) (step e x))
        | inr y ↦ rw y (step e x)
      ])
    ]
  where
    within :
        (e d : WalEntry)
        → read_entry true log i ≡ some e
        → IsIn d (e ∷ entries_from rounds log (i + 1))
        → IsIn d (entries_from (suc rounds) log i)
    within e d x m = subst (IsIn d) (sym (entries_from-some rounds log i e x)) m

    step :
        (e : WalEntry)
        → read_entry true log i ≡ some e
        → IsBetween es files (apply_entry (io i) e now).1
    step e x = apply_entry-IsBetween (io i) es e files now r (sub e (within e e x (inl refl))) b

pub apply_entry-true :
    (outcome : Outcome) (e : WalEntry) (files : Files)
    → (apply_entry outcome e files).0 ≡ true
    → (is_open (entry_change e) (files (entry_name e)) ≡ true)
      × ((apply_entry outcome e files).1 ≡ effect e files)
unfolding apply_entry
apply_entry-true done e files h =
    elim (Bool-cases (is_open (entry_change e) (files (entry_name e)))) [
      | inl x ↦ (x, rw x refl)
      | inr x ↦ ground (arith, x, h)
    ]
apply_entry-true not_opened e files h = ground (arith, h)
apply_entry-true (failed k) e files h = ground (arith, h)

pub apply_entry-done :
    (e : WalEntry) (files : Files)
    → is_open (entry_change e) (files (entry_name e)) ≡ true
    → apply_entry done e files ≡ (true, effect e files)
unfolding apply_entry
apply_entry-done e files x = rw x refl
