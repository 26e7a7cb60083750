-- ===== src/Storage/Page/Search.antt =====
-- Finding a key among a page's slots: `searchSlotArray`, `SPSearch`, `SPPosition` and `SPRead`.
use stripe_sql.Prelude.{
  ℕ, zero, suc, ◌+◌, ◌-◌, ◌/◌, Option, none, some, Bool, true, false, ◌||◌, Array, Ordering, ltb,
  leb, if◌then◌else◌,
}
use stripe_sql.Storage.Ordering.{OrderingKey, compare_ordering_keys}
use stripe_sql.Storage.Page.Data.{SpRecord, SpSlot, SlottedPage}

-- `compareOrderingKeys(a, b) < 0`
abbrev pub is_lt : Ordering → Bool
is_lt Ordering.lt = true
is_lt Ordering.eq = false
is_lt Ordering.gt = false

-- `compareOrderingKeys(a, b) != 0`
abbrev pub is_ne : Ordering → Bool
is_ne Ordering.eq = false
is_ne Ordering.lt = true
is_ne Ordering.gt = true

-- The `while` loop. Each round narrows [lo, hi), so `hi - lo` rounds are enough.
unfoldable pub search_loop : ℕ → Array SpSlot → OrderingKey → ℕ → ℕ → ℕ
search_loop zero slots key lo hi = lo
search_loop (suc fuel) slots key lo hi =
    let mid = lo + (hi - lo) / 2 in
    let upper = search_loop fuel slots key (mid + 1) hi in
    let lower = search_loop fuel slots key lo mid in
    if ltb lo hi
    then (if is_lt (compare_ordering_keys (slots mid).id key) then upper else lower)
    else lo

unfoldable pub search_slot_array : SlottedPage → OrderingKey → ℕ
unfolding search_loop
search_slot_array p key = search_loop p.num_records p.slots key 0 p.num_records

-- The test of `SPDelete`, `SPRead` and `SPSearch` that the slot at `index` is not the key's.
unfoldable pub is_missing : SlottedPage → OrderingKey → ℕ → Bool
is_missing p key index =
    leb p.num_records index || is_ne (compare_ordering_keys (p.slots index).id key)

-- `none` is -1.
unfoldable pub sp_search : SlottedPage → OrderingKey → Option ℕ
unfolding search_slot_array is_missing
sp_search p key =
    let index = search_slot_array p key in if is_missing p key index then none else some index

unfoldable pub sp_position : SlottedPage → OrderingKey → ℕ
unfolding search_slot_array
sp_position p key = search_slot_array p key

-- `none` is the record with a null pointer. The initialiser leaves the size zero.
unfoldable pub sp_read : SlottedPage → OrderingKey → Option SpRecord
unfolding search_slot_array is_missing
sp_read p key =
    let index = search_slot_array p key in
    let s = p.slots index in
    if is_missing p key index
    then none
    else some (record { entries = λ j. p.entries (s.ptr + j); len = s.len; size = 0 })
