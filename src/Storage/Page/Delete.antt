-- ===== src/Storage/Page/Delete.antt =====
-- `SPDelete`.
pub mod Cells
pub mod Keeps
pub mod Contents
use stripe_sql.Prelude.{
  ℕ, zero, suc, ◌+◌, ◌-◌, Bool, true, false, ◌&&◌, none, not, Array, put, ltb, leb, ◌==◌,
  if◌then◌else◌,
}
use stripe_sql.Prelude.Word.{sub32}
use stripe_sql.Storage.Ordering.{OrderingKey}
use stripe_sql.Storage.Page.Data.{Entry, SpSlot, SlottedPage, blank_entry, update_key_bounds}
use stripe_sql.Storage.Page.Search.{search_slot_array, is_missing}

-- `for (i = target; ...; i++) array[i] = array[i+1]`
unfoldable pub shift_l_loop : ℕ → Array SpSlot → ℕ → Array SpSlot
shift_l_loop zero array i = array
shift_l_loop (suc rounds) array i = shift_l_loop rounds (put array i (array (i + 1))) (i + 1)

-- `target > len - 1` changes nothing.
unfoldable pub shift_slot_array_l : Array SpSlot → ℕ → ℕ → Array SpSlot
unfolding shift_l_loop
shift_slot_array_l array target len =
    if ltb len (target + 1) then array else shift_l_loop (len - 1 - target) array target

-- `for (i = ptr; ...; i++) entries[i] = entries[i + len]`
unfoldable pub compact_loop : ℕ → Array Entry → ℕ → ℕ → Array Entry
compact_loop zero entries i len = entries
compact_loop (suc rounds) entries i len =
    compact_loop rounds (put entries i (entries (i + len))) (i + 1) len

-- Frees the data of the entries in [ptr, ptr + len).
unfoldable pub free_entries : Array Entry → ℕ → ℕ → Array Entry
free_entries entries ptr len j =
    if leb ptr j && ltb j (ptr + len) then record (entries j) { bytes = none } else entries j

-- Clears the cells in [from, to).
unfoldable pub clear_entries : Array Entry → ℕ → ℕ → Array Entry
clear_entries entries from to j = if leb from j && ltb j to then blank_entry else entries j

-- Any slot that pointed after the deleted record is rebased.
unfoldable pub rebase_slots : Array SpSlot → ℕ → ℕ → SpSlot → Array SpSlot
rebase_slots slots num_records index deleted i =
    let s = slots i in
    if ltb i num_records && not (i == index) && ltb deleted.ptr s.ptr
    then record s { ptr = sub32 s.ptr deleted.len }
    else s

-- `SPDelete` once it has found the key at `index`: the record and its entries are taken out.
unfoldable pub without_record : SlottedPage → ℕ → SlottedPage
unfolding free_entries compact_loop clear_entries rebase_slots shift_slot_array_l
without_record p index =
    let deleted = p.slots index in
    let freed = free_entries p.entries deleted.ptr deleted.len in
    let moves = p.num_entries - deleted.len - deleted.ptr in
    let compacted = compact_loop moves freed deleted.ptr deleted.len in
    let left = sub32 p.num_entries deleted.len in
    record p {
      used_data = sub32 p.used_data deleted.size;
      entries = clear_entries compacted left p.num_entries;
      num_entries = left;
      slots =
          shift_slot_array_l (rebase_slots p.slots p.num_records index deleted) index p.num_records;
      num_records = sub32 p.num_records 1;
    }

unfoldable pub remove_record : SlottedPage → ℕ → SlottedPage
unfolding without_record update_key_bounds
remove_record p index = update_key_bounds (without_record p index)

unfoldable pub sp_delete : SlottedPage → OrderingKey → SlottedPage × Bool
unfolding search_slot_array is_missing remove_record
sp_delete p key =
    let index = search_slot_array p key in
    if is_missing p key index then (p, false) else (remove_record p index, true)
