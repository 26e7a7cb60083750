-- ===== src/Storage/Page/Data.antt =====
-- A slotted page in memory, and how full it is (page.h and the first part of page.c).
use stripe_sql.Prelude.{ℕ, ◌+◌, ◌-◌, ◌*◌, Option, none, List, Bool, Array, leb, ◌==◌, if◌then◌else◌}
use stripe_sql.Prelude.Word.{u32}
use stripe_sql.Storage.Ordering.{OrderingKey, zero_key}

pub data Datatype : Type 0 where
  t_int t_string t_date t_time : Datatype

-- `bytes` is what `data` points at, and `none` is the null pointer.
pub record Entry : Type 0 where
  pub bytes : Option (List ℕ)
  pub size : ℕ
  pub type : Datatype

-- A record as a caller passes it: `len` entries from the first on, `size` bytes in all.
pub record SpRecord : Type 0 where
  pub entries : Array Entry
  pub len : ℕ
  pub size : ℕ

pub record SpSlot : Type 0 where
  pub id : OrderingKey
  pub ptr : ℕ
  pub len : ℕ
  pub size : ℕ

-- The fields of the header and the two arrays. `max_slots` and `max_entries` are the numbers of
-- cells that the arrays have been given.
pub record SlottedPage : Type 0 where
  pub min_key : OrderingKey
  pub max_key : OrderingKey
  pub used_data : ℕ
  pub num_records : ℕ
  pub num_entries : ℕ
  pub arr_cap : ℕ
  pub max_entries : ℕ
  pub max_slots : ℕ
  pub key_size : ℕ
  pub entries : Array Entry
  pub slots : Array SpSlot

abbrev pub blank_entry : Entry
blank_entry = record { bytes = none; size = 0; type = Datatype.t_int }

abbrev pub blank_slot : SpSlot
blank_slot = record { id = zero_key; ptr = 0; len = 0; size = 0 }

unfoldable pub make_spage : ℕ → ℕ → ℕ → ℕ → SlottedPage
make_spage num_slots num_entries capacity key_size = record {
  min_key = zero_key;
  max_key = zero_key;
  used_data = 0;
  num_records = 0;
  num_entries = 0;
  arr_cap = capacity;
  max_entries = num_entries;
  max_slots = num_slots;
  key_size = key_size;
  entries = λ _. blank_entry;
  slots = λ _. blank_slot;
}

-- SP_SLOT_DISK_SIZE
abbrev pub sp_slot_disk_size : ℕ → ℕ
sp_slot_disk_size key_size = key_size + 12

unfoldable pub sp_record_bytes : SlottedPage → ℕ → ℕ → ℕ
sp_record_bytes p size num_entries = u32 (sp_slot_disk_size p.key_size + 6 * num_entries + size)

unfoldable pub sp_used_bytes : SlottedPage → ℕ
sp_used_bytes p =
    u32 (p.num_records * sp_slot_disk_size p.key_size + 6 * p.num_entries + p.used_data)

unfoldable pub sp_fits : SlottedPage → Bool
unfolding sp_used_bytes
sp_fits p = leb (sp_used_bytes p) p.arr_cap

unfoldable pub sp_has_room : SlottedPage → ℕ → ℕ → Bool
unfolding sp_used_bytes sp_record_bytes
sp_has_room p size num_entries =
    leb (u32 (sp_used_bytes p + sp_record_bytes p size num_entries)) p.arr_cap

unfoldable pub update_key_bounds : SlottedPage → SlottedPage
update_key_bounds p =
    if p.num_records == 0
    then record p { min_key = zero_key; max_key = zero_key }
    else record p { min_key = (p.slots 0).id; max_key = (p.slots (p.num_records - 1)).id }
