-- ===== src/Storage/Wal/Recover/Passes.antt =====
-- The two loops of `executeCommit`: what a pass over the log leaves when it fails and when it does not.
use stripe_sql.Prelude.{
  ℕ, zero, suc, ◌+◌, ◌≡◌, refl, sym, ap, ◌∙◌, subst, arith, none, some, Bool, true, false, ◌||◌,
  List, ◌∷◌, inl, inr, Bool-cases, Option-cases,
}
use stripe_sql.Storage.Wal.Entry.{WalEntry}
use stripe_sql.Storage.Wal.Files.{Files, Outcome, done, apply_entry}
use stripe_sql.Storage.Wal.Files.Replay.{redo}
use stripe_sql.Storage.Wal.Files.Present.{opens}
use stripe_sql.Storage.Wal.Log.{LogFile, read_entry}
use stripe_sql.Storage.Wal.Recover.{verify_loop, Applied, changes_files}
use stripe_sql.Storage.Wal.Recover.Between.{
  entries_from, entries_from-some, pass_loop, apply_entry-true, apply_entry-done,
}

module _ (rounds : ℕ) (io : ℕ → Outcome) (log : LogFile) (i : ℕ) (changed : Bool)
    (files : Files) where
  pass_loop-none :
      read_entry true log i ≡ none
      → (pass_loop (suc rounds) io log i changed files).finished ≡ false
  unfolding pass_loop
  pass_loop-none x = rw x refl

  pass_loop-fails :
      (e : WalEntry)
      → read_entry true log i ≡ some e
      → (apply_entry (io i) e files).0 ≡ false
      → (pass_loop (suc rounds) io log i changed files).finished ≡ false
  unfolding pass_loop
  pass_loop-fails e x y = rw x (rw y refl)

  pass_loop-goes_on :
      (e : WalEntry)
      → read_entry true log i ≡ some e
      → (apply_entry (io i) e files).0 ≡ true
      → pass_loop (suc rounds) io log i changed files
        ≡ pass_loop rounds io log
            (i + 1)
            (changed || changes_files e)
            (apply_entry (io i) e files).1
  unfolding pass_loop
  pass_loop-goes_on e x y = rw x (rw y refl)

-- A pass that gets to its end has redone the log.
pub pass_loop-finished :
    (rounds : ℕ) (io : ℕ → Outcome) (log : LogFile) (i : ℕ) (changed : Bool) (files : Files)
    → (pass_loop rounds io log i changed files).finished ≡ true
    → (opens (entries_from rounds log i) files ≡ true)
      × ((pass_loop rounds io log i changed files).files ≡ redo (entries_from rounds log i) files)
unfolding pass_loop entries_from opens redo
pass_loop-finished zero io log i changed files h = (refl, refl)
pass_loop-finished (suc rounds) io log i changed files h =
    elim (Option-cases (read_entry true log i)) [
      | inl x ↦ ground (arith, h, pass_loop-none rounds io log i changed files x)
      | inr (e, x) ↦ elim (Bool-cases (apply_entry (io i) e files).0) [
        | inl y ↦ go_on e x y (
            pass_loop-finished rounds io log (i + 1) (changed || changes_files e)
              (apply_entry (io i) e files).1)
        | inr y ↦ ground (arith, h, pass_loop-fails rounds io log i changed files e x y)
      ]
    ]
  where
    Finished : List WalEntry → Applied → Type 0
    Finished es out = (opens es files ≡ true) × (out.files ≡ redo es files)

    go_on :
        (e : WalEntry)
        → read_entry true log i ≡ some e
        → (apply_entry (io i) e files).0 ≡ true
        → ((pass_loop rounds io log
                (i + 1)
                (changed || changes_files e)
                (apply_entry (io i) e files).1).finished
              ≡ true
            → (opens (entries_from rounds log (i + 1)) (apply_entry (io i) e files).1 ≡ true)
              × ((pass_loop rounds io log
                    (i + 1)
                    (changed || changes_files e)
                    (apply_entry (io i) e files).1).files
                  ≡ redo (entries_from rounds log (i + 1)) (apply_entry (io i) e files).1))
        → Finished (entries_from (suc rounds) log i) (pass_loop (suc rounds) io log i changed files)
    go_on e x y again =
        let (is_opened, effected) = apply_entry-true (io i) e files y in
        let step = pass_loop-goes_on rounds io log i changed files e x y in
        let (opened, redone) = again (ap (λ out. out.finished) (sym step) ∙ h) in
        subst (λ es. Finished es (pass_loop (suc rounds) io log i changed files))
          (sym (entries_from-some rounds log i e x))
          (
            rw is_opened
                (subst (λ f. opens (entries_from rounds log (i + 1)) f ≡ true) effected opened),
            ap (λ out. out.files) step
                ∙ redone
                ∙ ap (redo (entries_from rounds log (i + 1))) effected,
          )

-- A pass in which nothing fails gets there where the writes find their files.
pub pass_loop-finishes :
    (rounds : ℕ) (log : LogFile) (trans_id i : ℕ) (changed : Bool) (files : Files)
    → verify_loop rounds (λ _. true) log trans_id i ≡ true
    → opens (entries_from rounds log i) files ≡ true
    → (pass_loop rounds (λ _. done) log i changed files).finished ≡ true
unfolding opens verify_loop pass_loop entries_from
pass_loop-finishes zero log trans_id i changed files h o = refl
pass_loop-finishes (suc rounds) log trans_id i changed files h o =
    elim (Option-cases (read_entry true log i)) [
      | inl x ↦ ground (arith, h, x)
      | inr (e, x) ↦
          go_on e x (subst (λ es. opens es files ≡ true) (entries_from-some rounds log i e x) o) (
            pass_loop-finishes rounds log trans_id (i + 1) (changed || changes_files e)
              (apply_entry done e files).1 (ground (arith, x, h)))
    ]
  where
    go_on :
        (e : WalEntry)
        → read_entry true log i ≡ some e
        → opens (e ∷ entries_from rounds log (i + 1)) files ≡ true
        → (opens (entries_from rounds log (i + 1)) (apply_entry done e files).1 ≡ true
            → (pass_loop rounds
                (λ _. done)
                log
                (i + 1)
                (changed || changes_files e)
                (apply_entry done e files).1).finished
              ≡ true)
        → (pass_loop (suc rounds) (λ _. done) log i changed files).finished ≡ true
    go_on e x opened again =
        let whole = apply_entry-done e files (ground (arith, opened)) in
        ap (λ out. out.finished)
          (pass_loop-goes_on rounds (λ _. done) log i changed files e x (ap (λ r. r.0) whole))
        ∙ again (
            subst (λ r. opens (entries_from rounds log (i + 1)) r.1 ≡ true) (sym whole)
              (ground (arith, opened)))
