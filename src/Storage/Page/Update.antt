-- ===== src/Storage/Page/Update.antt =====
-- `SPUpdate`.
pub mod Replace
pub mod Contents
use stripe_sql.Prelude.{ℕ, zero, suc, ◌+◌, Bool, true, false, ◌||◌, put, ltb, if◌then◌else◌}
use stripe_sql.Prelude.Word.{u32, sub32}
use stripe_sql.Storage.Ordering.{OrderingKey}
use stripe_sql.Storage.Page.Data.{SpRecord, SlottedPage}
use stripe_sql.Storage.Page.Search.{search_slot_array, is_missing}

-- One round of the loop: entry `i` of the record replaces the entry at `ptr + i`, and both counts
-- follow its size. A smaller entry makes `change` wrap, and the additions wrap back.
unfoldable pub update_entry : SlottedPage → ℕ → SpRecord → ℕ → SlottedPage
update_entry p index r i =
    let s = p.slots index in
    let change = sub32 (r.entries i).size (p.entries (s.ptr + i)).size in
    record p {
      slots = put p.slots index (record s { size = u32 (s.size + change) });
      used_data = u32 (p.used_data + change);
      entries = put p.entries (s.ptr + i) (r.entries i);
    }

unfoldable pub update_loop : ℕ → SlottedPage → ℕ → SpRecord → ℕ → SlottedPage
unfolding update_entry
update_loop zero p index r i = p
update_loop (suc rounds) p index r i = update_loop rounds (update_entry p index r i) index r (i + 1)

unfoldable pub sp_update : SlottedPage → OrderingKey → SpRecord → SlottedPage × Bool
unfolding search_slot_array is_missing update_loop
sp_update p key r =
    let index = search_slot_array p key in
    if is_missing p key index || ltb (p.slots index).len r.len
    then (p, false)
    else (update_loop r.len p index r 0, true)
