-- ===== src/Storage/Page/Split.antt =====
-- `SPSplit`.
pub mod Gather
pub mod Rounds
pub mod Records
pub mod Divided
use stripe_sql.Prelude.{ℕ, zero, suc, ◌+◌, ◌-◌, ◌&&◌, Array, put, copy, ltb, leb, if◌then◌else◌}
use stripe_sql.Prelude.Word.{u32}
use stripe_sql.Storage.Page.Data.{
  Entry, SpSlot, SlottedPage, blank_entry, blank_slot, update_key_bounds,
}

-- What the loop changes: the array that gathers the entries that stay, with the two counts for
-- it, the slots of the page, and the upper page.
pub record Splitting : Type 0 where
  pub kept : Array Entry
  pub kept_entries : ℕ
  pub kept_data : ℕ
  pub slots : Array SpSlot
  pub upper : SlottedPage

-- `movedEntries += p->slots[i].len`, for `rounds` rounds from `i` on.
unfoldable pub moved_entries : ℕ → Array SpSlot → ℕ → ℕ → ℕ
moved_entries zero slots i sum = sum
moved_entries (suc rounds) slots i sum =
    moved_entries rounds slots (i + 1) (u32 (sum + (slots i).len))

unfoldable pub reserve : SlottedPage → ℕ → ℕ → SlottedPage
reserve upper moved_slots moved =
    let more_slots = ltb upper.max_slots moved_slots in
    let more_entries = ltb upper.max_entries moved in
    record upper {
      slots = λ j.
          if more_slots && leb upper.max_slots j && ltb j moved_slots
          then blank_slot
          else upper.slots j;
      max_slots = if more_slots then moved_slots else upper.max_slots;
      entries = λ j.
          if more_entries && leb upper.max_entries j && ltb j moved
          then blank_entry
          else upper.entries j;
      max_entries = if more_entries then moved else upper.max_entries;
    }

-- `i < index`: the record stays.
unfoldable pub keep_record : Array Entry → ℕ → Splitting → Splitting
keep_record entries i s =
    let slot = s.slots i in
    record s {
      kept = copy s.kept s.kept_entries entries slot.ptr slot.len;
      slots = put s.slots i (record slot { ptr = s.kept_entries });
      kept_entries = u32 (s.kept_entries + slot.len);
      kept_data = u32 (s.kept_data + slot.size);
    }

-- The record moves to the upper page.
unfoldable pub move_record : Array Entry → ℕ → Splitting → Splitting
move_record entries i s =
    let slot = s.slots i in
    let u = s.upper in
    record s {
      slots = put s.slots i blank_slot;
      upper = record u {
        slots = put u.slots u.num_records (record slot { ptr = u.num_entries });
        num_records = u32 (u.num_records + 1);
        entries = copy u.entries u.num_entries entries slot.ptr slot.len;
        num_entries = u32 (u.num_entries + slot.len);
        used_data = u32 (u.used_data + slot.size);
      };
    }

unfoldable pub split_loop : ℕ → Array Entry → ℕ → ℕ → Splitting → Splitting
unfolding keep_record move_record
split_loop zero entries index i s = s
split_loop (suc rounds) entries index i s =
    split_loop rounds entries index (i + 1)
      (if ltb i index then keep_record entries i s else move_record entries i s)

-- The page that keeps the lower records, and the upper page.
unfoldable pub sp_split : SlottedPage → SlottedPage → ℕ → SlottedPage × SlottedPage
unfolding moved_entries reserve split_loop update_key_bounds
sp_split p upper at =
    let total = p.num_records in
    let index = if ltb total at then total else at in
    let moved = moved_entries (total - index) p.slots index 0 in
    let start : Splitting = record {
      kept = λ _. blank_entry;
      kept_entries = 0;
      kept_data = 0;
      slots = p.slots;
      upper = reserve upper (total - index) moved;
    } in
    let done = split_loop total p.entries index 0 start in
    (
      update_key_bounds (record p {
        entries = done.kept;
        slots = done.slots;
        num_records = index;
        num_entries = done.kept_entries;
        used_data = done.kept_data;
      }),
      update_key_bounds done.upper,
    )
