-- ===== src/Storage/Tree/Choose/Room.antt =====
-- The bytes that the records of a page take, and the ways to split it.
use stripe_sql.Prelude.{
  ℕ, zero, suc, ◌+◌, ◌-◌, ◌*◌, ◌^◌, ◌<◌, ◌≤◌, ◌≡◌, inl, inr, ap, arith, Bool, true, false, not,
  ◌&&◌, ◌==◌, if◌then◌else◌, Bool-cases,
}
use stripe_sql.Prelude.Word.{u32}
use stripe_sql.Storage.Ordering.{OrderingType}
use stripe_sql.Storage.Page.Data.{SlottedPage, sp_record_bytes}
use stripe_sql.Storage.Page.Valid.{IsValid, total, used_bytes}
use stripe_sql.Storage.Tree.Choose.{Choice}

-- The bytes that the first `n` records take.
unfoldable pub room : SlottedPage → ℕ → ℕ
room p n =
    n * (p.key_size + 12) + 6 * total (λ i. (p.slots i).len) n + total (λ i. (p.slots i).size) n

abbrev pub lower_bytes : SlottedPage → Bool → ℕ → ℕ → Bool → ℕ
lower_bytes p has_record needed keep in_upper =
    room p keep + (if has_record && not in_upper then needed else 0)

abbrev pub upper_bytes : SlottedPage → Bool → ℕ → ℕ → Bool → ℕ
upper_bytes p has_record needed keep in_upper =
    room p p.num_records - room p keep + (if has_record && in_upper then needed else 0)

abbrev pub imbalance : SlottedPage → Bool → ℕ → ℕ → Bool → ℕ
imbalance p has_record needed keep in_upper =
    (lower_bytes p has_record needed keep in_upper - upper_bytes p has_record needed keep in_upper)
    + (upper_bytes p has_record needed keep in_upper
        - lower_bytes p has_record needed keep in_upper)

-- The page can be split so: the record, if there is one, goes to the page where its index is, neither
-- page is empty, and both are within the capacity.
pub record IsSplit (p : SlottedPage) (has_record : Bool) (pos needed keep : ℕ) (in_upper : Bool)
    : Type 0 where
  pub within : keep ≤ p.num_records
  pub placed :
      if has_record then (if in_upper then keep ≤ pos else pos ≤ keep) else in_upper ≡ false
  pub lower_filled : 0 < lower_bytes p has_record needed keep in_upper
  pub upper_filled : 0 < upper_bytes p has_record needed keep in_upper
  pub lower_fits : lower_bytes p has_record needed keep in_upper ≤ p.arr_cap
  pub upper_fits : upper_bytes p has_record needed keep in_upper ≤ p.arr_cap

-- A split was found if there is one, and none is more even.
pub record IsBest (p : SlottedPage) (has_record : Bool) (pos needed : ℕ) (s : Choice) : Type 0 where
  pub real : s.found ≡ true → IsSplit p has_record pos needed s.keep s.in_upper
  pub least :
      (keep : ℕ) (in_upper : Bool)
      → IsSplit p has_record pos needed keep in_upper
      → (s.found ≡ true)
        × (imbalance p has_record needed s.keep s.in_upper
            ≤ imbalance p has_record needed keep in_upper)

suc_plus : (n : ℕ) → suc n ≡ n + 1
suc_plus n = omega arith

records_below : (n k : ℕ) (rest : ℕ) → n * (k + 12) + rest < 2 ^ 31 → n < 2 ^ 31
records_below zero k rest h = omega arith
records_below (suc n) k rest h = omega (arith, h, records_below n k rest (omega (arith, h)))

module _ (p : SlottedPage) where
  pub room-suc :
      (n : ℕ)
      → room p (suc n) ≡ room p n + (p.key_size + 12 + 6 * (p.slots n).len + (p.slots n).size)
  unfolding room total
  room-suc n = omega arith

  pub room-monotone : (n m : ℕ) → n ≤ m → room p n ≤ room p m
  room-monotone n zero h = ground (arith, h)
  room-monotone n (suc m) h = elim (Bool-cases (n == suc m)) [
    | inl x ↦ ground (arith, x)
    | inr x ↦ omega (arith, room-suc m, room-monotone n m (ground (arith, x, h)))
  ]

  pub room-zero : room p 0 ≡ 0
  unfolding room total
  room-zero = omega arith

module _ (type : OrderingType) (p : SlottedPage) (v : IsValid type p) where
  pub room-whole : room p p.num_records ≡ used_bytes p
  unfolding room
  room-whole = omega (arith, v.accounted.lengths, v.accounted.sizes)

  pub few_records : p.num_records < 2 ^ 31
  few_records =
      records_below p.num_records p.key_size (6 * p.num_entries + p.used_data)
        (omega (arith, v.small))

  pub room_next :
      (keep : ℕ)
      → keep < p.num_records
      → u32 (room p keep + sp_record_bytes p (p.slots keep).size (p.slots keep).len)
        ≡ room p (keep + 1)
  unfolding sp_record_bytes
  room_next keep h = omega (
    arith,
    h,
    room-suc p keep,
    ap (room p) (suc_plus keep),
    room-monotone p (keep + 1) p.num_records (omega (arith, h)),
    room-whole,
    v.small,
  )
