-- ===== src/Storage/Page/Insert.antt =====
-- `SPInsert`.
pub mod Cells
pub mod Grow
pub mod Keeps
pub mod Contents
use stripe_sql.Prelude.{
  ℕ, zero, suc, ◌+◌, ◌-◌, ◌*◌, ◌/◌, Bool, true, false, ◌&&◌, Array, put, ltb, leb, if◌then◌else◌,
}
use stripe_sql.Prelude.Word.{u32}
use stripe_sql.Storage.Ordering.{OrderingKey}
use stripe_sql.Storage.Page.Data.{
  Entry, SpRecord, SpSlot, SlottedPage, blank_entry, blank_slot, sp_has_room, update_key_bounds,
}
use stripe_sql.Storage.Page.Search.{search_slot_array}

-- `for (i = start + rounds; i > start; i--) array[i] = array[i-1]`
unfoldable pub shift_r_loop : ℕ → Array SpSlot → ℕ → Array SpSlot
shift_r_loop zero array start = array
shift_r_loop (suc rounds) array start =
    shift_r_loop rounds (put array (start + suc rounds) (array (start + rounds))) start

unfoldable pub shift_slot_array_r : Array SpSlot → ℕ → ℕ → Array SpSlot
unfolding shift_r_loop
shift_slot_array_r array start len =
    if ltb len start then array else shift_r_loop (len - 1 - start) array start

-- `for (...) entries[count++] = source[i++]`, for `rounds` rounds.
unfoldable pub append_loop : ℕ → Array Entry → ℕ → Array Entry → ℕ → Array Entry
append_loop zero source i entries count = entries
append_loop (suc rounds) source i entries count =
    append_loop rounds source (i + 1) (put entries count (source i)) (count + 1)

-- The new size of an array that has to hold more than `n` cells: n * 1.5 + 1, rounded down.
abbrev pub grown : ℕ → ℕ
grown n = n * 3 / 2 + 1

unfoldable pub grow_slots : SlottedPage → SlottedPage
grow_slots p =
    let new_max = grown p.max_slots in
    if leb p.max_slots p.num_records
    then record p {
      slots = λ j. if leb p.max_slots j && ltb j new_max then blank_slot else p.slots j;
      max_slots = new_max;
    }
    else p

unfoldable pub grow_entries : SlottedPage → ℕ → SlottedPage
grow_entries p len =
    let new_max = grown (u32 (p.num_entries + len)) in
    if ltb p.max_entries (u32 (p.num_entries + len))
    then record p {
      entries = λ j. if leb p.max_entries j && ltb j new_max then blank_entry else p.entries j;
      max_entries = new_max;
    }
    else p

-- The rest of `SPInsert`, once the arrays are large enough: the slot and the entries are put in.
unfoldable pub with_record : SlottedPage → OrderingKey → SpRecord → SlottedPage
unfolding shift_slot_array_r append_loop search_slot_array
with_record p key r =
    let index = search_slot_array p key in
    let slot : SpSlot = record { id = key; ptr = p.num_entries; len = r.len; size = r.size } in
    record p {
      slots = put (shift_slot_array_r p.slots index (p.num_records + 1)) index slot;
      num_records = u32 (p.num_records + 1);
      entries = append_loop r.len r.entries 0 p.entries p.num_entries;
      num_entries = u32 (p.num_entries + r.len);
      used_data = u32 (p.used_data + r.size);
    }

unfoldable pub place_record : SlottedPage → OrderingKey → SpRecord → SlottedPage
unfolding with_record update_key_bounds
place_record p key r = update_key_bounds (with_record p key r)

unfoldable pub sp_insert : SlottedPage → OrderingKey → SpRecord → SlottedPage × Bool
unfolding sp_has_room grow_slots grow_entries place_record
sp_insert p key r =
    if sp_has_room p r.size r.len
    then (place_record (grow_entries (grow_slots p) r.len) key r, true)
    else (p, false)
