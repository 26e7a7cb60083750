-- ===== src/Storage/Tree/Choose.antt =====
-- Choosing where to split a page: `chooseSplit` of src/storage_engine/bplus.c.
pub mod Room
pub mod Judge
pub mod Best
use stripe_sql.Prelude.{
  ℕ, zero, suc, ◌+◌, ◌-◌, ◌^◌, Bool, true, false, not, ◌&&◌, ◌||◌, ltb, leb, ◌==◌, if◌then◌else◌,
}
use stripe_sql.Prelude.Word.{u32, sub32}
use stripe_sql.Storage.Page.Data.{SlottedPage, sp_record_bytes, sp_used_bytes}

-- What the search holds: the best difference so far, what it has written through the two pointers,
-- and what it returns.
pub record Choice : Type 0 where
  pub best : ℕ
  pub keep : ℕ
  pub in_upper : Bool
  pub found : Bool

-- A round of the inner loop: the first `keep` records stay, which take `below` bytes.
unfoldable pub try_split : SlottedPage → Bool → ℕ → ℕ → ℕ → ℕ → Bool → Choice → Choice
try_split p has_record pos needed below keep in_upper s =
    let extra = if has_record then needed else 0 in
    let lower = u32 (below + (if in_upper then 0 else extra)) in
    let upper = u32 (sub32 (sp_used_bytes p) below + (if in_upper then extra else 0)) in
    let difference = if ltb upper lower then sub32 lower upper else sub32 upper lower in
    if not has_record && in_upper
    then s
    else if has_record && (if in_upper then ltb pos keep else ltb keep pos)
    then s
    else if lower == 0 || upper == 0 || ltb p.arr_cap lower || ltb p.arr_cap upper
    then s
    else if ltb difference s.best
    then record { best = difference; keep = keep; in_upper = in_upper; found = true }
    else s

-- The outer loop, from `keep` on. A round for each value up to the number of records is enough.
unfoldable pub keep_loop : ℕ → SlottedPage → Bool → ℕ → ℕ → ℕ → ℕ → Choice → Choice
keep_loop zero p has_record pos needed below keep s = s
keep_loop (suc fuel) p has_record pos needed below keep s =
    let staying = try_split p has_record pos needed below keep false s in
    let tried = try_split p has_record pos needed below keep true staying in
    let next =
      if ltb keep p.num_records
      then u32 (below + sp_record_bytes p (p.slots keep).size (p.slots keep).len)
      else below in
    let rest = keep_loop fuel p has_record pos needed next (u32 (keep + 1)) tried in
    if leb keep p.num_records then rest else s

-- `keep_out` and `upper_out` are what the caller's variables hold before.
unfoldable pub choose_split : SlottedPage → Bool → ℕ → ℕ → ℕ → Bool → Choice
choose_split p has_record pos needed keep_out upper_out =
    keep_loop (p.num_records + 1) p has_record pos needed 0 0
      (record { best = 2 ^ 32 - 1; keep = keep_out; in_upper = upper_out; found = false })
