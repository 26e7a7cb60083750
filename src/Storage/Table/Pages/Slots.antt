-- ===== src/Storage/Table/Pages/Slots.antt =====
-- The slots of a page are read back.
use stripe_sql.Prelude.{ℕ, ◌+◌, ◌^◌, ◌<◌, ◌≤◌, ◌≡◌, inl, inr, refl, ◌∙◌, subst, arith}
use stripe_sql.Storage.Bytes.{Buffer, write_uint_bytewise}
use stripe_sql.Storage.Bytes.RoundTrip.{write_uint-frame}
use stripe_sql.Storage.Ordering.{OrderingType, OrderingKey, ordering_key_disk_size}
use stripe_sql.Storage.Page.Data.{SpSlot, sp_slot_disk_size}
use stripe_sql.Storage.Table.Cells.{IsCodec, Keeps, Keeps-Agree}
use stripe_sql.Storage.Table.Keys.{write_ordering_key, read_ordering_key, read_uint}
use stripe_sql.Storage.Table.Keys.RoundTrip.{Agree, read_uint-write, read_uint-Agree}
use stripe_sql.Storage.Table.Keys.Back.{
  IsStored, stored, read_ordering_key-write, write_ordering_key-below, write_ordering_key-above,
  read_ordering_key-Agree,
}
use stripe_sql.Storage.Table.Pages.{put_slot, get_slot}

-- Writing a word that has 32 bits and reading it from a later buffer.
pub uint_back :
    (buf later : Buffer) (p v : ℕ)
    → v < 2 ^ 32
    → Keeps (p + 4) (write_uint_bytewise buf p v) later
    → read_uint later p ≡ v
uint_back buf later p v h k =
    read_uint-Agree later (write_uint_bytewise buf p v) p
      (Keeps-Agree p 4 (p + 4) (write_uint_bytewise buf p v) later (omega arith) k)
    ∙ read_uint-write buf p v h

pub key_back :
    (type : OrderingType) (buf later : Buffer) (p : ℕ) (k : OrderingKey)
    → IsStored type k
    → Keeps (p + ordering_key_disk_size type) (write_ordering_key buf p k type) later
    → read_ordering_key later p type ≡ stored type k
key_back type buf later p k h keeps =
    read_ordering_key-Agree later (write_ordering_key buf p k type) p type (
      Keeps-Agree p (ordering_key_disk_size type) (p + ordering_key_disk_size type)
        (write_ordering_key buf p k type) later (omega arith) keeps)
    ∙ read_ordering_key-write buf p type k h

Keeps-uint : (buf : Buffer) (p v q : ℕ) → q ≤ p → Keeps q buf (write_uint_bytewise buf p v)
Keeps-uint buf p v q l j u = write_uint-frame buf p v j (inl (omega (arith, l, u)))

pub record SlotFits (type : OrderingType) (s : SpSlot) : Type 0 where
  pub id : IsStored type s.id
  pub ptr : s.ptr < 2 ^ 32
  pub len : s.len < 2 ^ 32
  pub size : s.size < 2 ^ 32

abbrev pub stored_slot : OrderingType → SpSlot → SpSlot
stored_slot type s = record s { id = stored type s.id }

-- The buffers of a slot's fields, one after another.
module _ (type : OrderingType) (buf : Buffer) (p : ℕ) (s : SpSlot) where
  abbrev fields : ℕ
  fields = p + ordering_key_disk_size type

  abbrev b1 : Buffer
  b1 = write_ordering_key buf p s.id type

  abbrev b2 : Buffer
  b2 = write_uint_bytewise b1 fields s.len

  abbrev b3 : Buffer
  b3 = write_uint_bytewise b2 (fields + 4) s.size

  put_slot-below : Keeps p buf (put_slot type buf p s)
  unfolding put_slot
  put_slot-below j l =
      Keeps-uint b3 (fields + 8) s.ptr p (omega arith) j l
      ∙ Keeps-uint b2 (fields + 4) s.size p (omega arith) j l
      ∙ Keeps-uint b1 fields s.len p (omega arith) j l
      ∙ write_ordering_key-below buf p type s.id j l

  put_slot-above :
      (j : ℕ)
      → p + sp_slot_disk_size (ordering_key_disk_size type) ≤ j
      → put_slot type buf p s j ≡ buf j
  unfolding put_slot
  put_slot-above j l =
      write_uint-frame b3 (fields + 8) s.ptr j (inr (omega (arith, l)))
      ∙ write_uint-frame b2 (fields + 4) s.size j (inr (omega (arith, l)))
      ∙ write_uint-frame b1 fields s.len j (inr (omega (arith, l)))
      ∙ write_ordering_key-above buf p type s.id j (omega (arith, l))

  get_slot-put_slot : SlotFits type s → get_slot type (put_slot type buf p s) p ≡ stored_slot type s
  unfolding put_slot get_slot
  get_slot-put_slot h =
      rw
        (
          key_back type buf (put_slot type buf p s) p s.id h.id (λ j l.
              Keeps-uint b3 (fields + 8) s.ptr fields (omega arith) j l
              ∙ Keeps-uint b2 (fields + 4) s.size fields (omega arith) j l
              ∙ Keeps-uint b1 fields s.len fields (omega arith) j l),
          uint_back b3 (put_slot type buf p s) (fields + 8) s.ptr h.ptr (λ j l. refl),
          uint_back b1 (put_slot type buf p s) fields s.len h.len (λ j l.
              Keeps-uint b3 (fields + 8) s.ptr (fields + 4) (omega arith) j l
              ∙ Keeps-uint b2 (fields + 4) s.size (fields + 4) (omega arith) j l),
          uint_back b2 (put_slot type buf p s) (fields + 4) s.size h.size
              (λ j l. Keeps-uint b3 (fields + 8) s.ptr (fields + 4 + 4) (omega arith) j l),
        )
        refl

get_slot-Agree :
    (type : OrderingType) (a b : Buffer) (p : ℕ)
    → Agree p (sp_slot_disk_size (ordering_key_disk_size type)) a b
    → get_slot type a p ≡ get_slot type b p
unfolding get_slot
get_slot-Agree type a b p h =
    rw
      (
        read_ordering_key-Agree a b p type (λ k l. h k (omega (arith, l))),
        read_uint-Agree a b (p + ordering_key_disk_size type + 8) (word 8 (omega arith)),
        read_uint-Agree a b (p + ordering_key_disk_size type + 4) (word 4 (omega arith)),
        first,
      )
      refl
  where
    word : (d : ℕ) → d + 4 ≤ 12 → Agree (p + ordering_key_disk_size type + d) 4 a b
    word d u k l =
        subst (λ i. a i ≡ b i) (omega arith)
          (h (ordering_key_disk_size type + d + k) (omega (arith, u, l)))

    first :
        read_uint a (p + ordering_key_disk_size type)
        ≡ read_uint b (p + ordering_key_disk_size type)
    first = read_uint-Agree a b (p + ordering_key_disk_size type) (λ k l.
        subst (λ i. a i ≡ b i) (omega arith)
          (h (ordering_key_disk_size type + k) (omega (arith, l))))

pub slot-IsCodec :
    (type : OrderingType)
    → IsCodec
        (sp_slot_disk_size (ordering_key_disk_size type))
        (put_slot type)
        (get_slot type)
        (SlotFits type)
        (stored_slot type)
slot-IsCodec type = record {
  below = put_slot-below type;
  above = put_slot-above type;
  reads_back = get_slot-put_slot type;
  local = get_slot-Agree type;
}
