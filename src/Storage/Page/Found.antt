-- ===== src/Storage/Page/Found.antt =====
-- What the searches of a valid page find.
use stripe_sql.Prelude.{
  ℕ, zero, suc, ◌+◌, ◌-◌, ◌/◌, ◌<◌, ◌≤◌, ◌≡◌, ◌≢◌, ◌⊎◌, inl, inr, Array, arith, compare, ltb, slice,
  sym, slice-ext, ◌&&◌, ◌==◌, ap, ◌∙◌, List, Option, none, some, true, false, Bool-cases, ltb→lt,
  ltb→le,
}
use stripe_sql.Storage.Ordering.{OrderingType, OrderingKey, compare_ordering_keys}
use stripe_sql.Storage.Ordering.Code.{KeyOf, key_code, compare-code}
use stripe_sql.Storage.Page.Data.{Entry, SpSlot, SlottedPage, update_key_bounds}
use stripe_sql.Storage.Page.Search.{
  is_lt, is_ne, search_loop, search_slot_array, is_missing, sp_search, sp_read,
}
use stripe_sql.Storage.Page.Valid.{IsOrdered, IsValid, SameRecords}

-- `r` parts the first `n` slots into keys below `key` and keys not below it.
pub record Splits (slots : Array SpSlot) (key : OrderingKey) (n r : ℕ) : Type 0 where
  pub within : r ≤ n
  pub below : (i : ℕ) → i < r → key_code (slots i).id < key_code key
  pub above : (i : ℕ) → r ≤ i → i < n → key_code key ≤ key_code (slots i).id

pub record IsNarrowed (slots : Array SpSlot) (key : OrderingKey) (n lo hi : ℕ) : Type 0 where
  pub in_order : lo ≤ hi
  pub within : hi ≤ n
  pub below : (i : ℕ) → i < lo → key_code (slots i).id < key_code key
  pub above : (i : ℕ) → hi ≤ i → i < n → key_code key ≤ key_code (slots i).id

module _ (t : OrderingType) (slots : Array SpSlot) (key : OrderingKey) (n : ℕ)
    (o : IsOrdered t slots n) (k : KeyOf t key) where
  is_lt-code :
      (i : ℕ)
      → i < n
      → is_lt (compare_ordering_keys (slots i).id key) ≡ ltb (key_code (slots i).id) (key_code key)
  is_lt-code i h = ground (arith, compare-code t (slots i).id key (o.keys i h) k)

  sorted_le : (i j : ℕ) → i ≤ j → j < n → key_code (slots i).id ≤ key_code (slots j).id
  sorted_le i j h lt = elim (Bool-cases (ltb i j)) [
    | inl less ↦ omega (arith, o.sorted i j (ltb→lt i j less) lt)
    | inr not_less ↦ let same : i ≡ j = omega (arith, ltb→le i j not_less) in rw same (omega arith)
  ]

  module _ (lo hi : ℕ) (inv : IsNarrowed slots key n lo hi) (open_range : lo < hi) where
    abbrev mid : ℕ
    mid = lo + (hi - lo) / 2

    upper-IsNarrowed : key_code (slots mid).id < key_code key → IsNarrowed slots key n (mid + 1) hi
    upper-IsNarrowed c = record {
      in_order = omega arith;
      within = inv.within;
      below = λ i h. ground (arith, sorted_le i mid (omega arith), c);
      above = inv.above;
    }

    lower-IsNarrowed : key_code key ≤ key_code (slots mid).id → IsNarrowed slots key n lo mid
    lower-IsNarrowed c = record {
      in_order = omega arith;
      within = omega arith;
      below = inv.below;
      above = λ i h lt. omega (arith, sorted_le mid i h lt, c);
    }

  stopped-Splits : (lo hi : ℕ) → hi ≤ lo → IsNarrowed slots key n lo hi → Splits slots key n lo
  stopped-Splits lo hi h inv = record {
    within = omega arith;
    below = inv.below;
    above = λ i p lt. inv.above i (omega arith) lt;
  }

  pub search_loop-Splits :
      (fuel lo hi : ℕ)
      → hi - lo ≤ fuel
      → IsNarrowed slots key n lo hi
      → Splits slots key n (search_loop fuel slots key lo hi)
  unfolding search_loop
  search_loop-Splits zero lo hi f inv = stopped-Splits lo hi (omega arith) inv
  search_loop-Splits (suc fuel) lo hi f inv = elim (Bool-cases (ltb lo hi)) [
    | inr closed ↦ rw closed (stopped-Splits lo hi (ltb→le lo hi closed) inv)
    | inl range ↦
        let r : lo < hi = ltb→lt lo hi range in
        rw (range, is_lt-code (lo + (hi - lo) / 2) (omega arith))
          (elim (Bool-cases (ltb (key_code (slots (lo + (hi - lo) / 2)).id) (key_code key))) [
            | inl less ↦ rw less (
                search_loop-Splits fuel (lo + (hi - lo) / 2 + 1) hi (omega arith)
                  (upper-IsNarrowed lo hi inv r (ltb→lt _ _ less)))
            | inr not_less ↦ rw not_less (
                search_loop-Splits fuel lo (lo + (hi - lo) / 2) (omega arith)
                  (lower-IsNarrowed lo hi inv r (ltb→le _ _ not_less)))
          ])
  ]

module _ (t : OrderingType) (p : SlottedPage) (key : OrderingKey)
    (o : IsOrdered t p.slots p.num_records) (k : KeyOf t key) where
  -- The binary search ends at the place of the key.
  pub search_slot_array-Splits : Splits p.slots key p.num_records (search_slot_array p key)
  unfolding search_slot_array
  search_slot_array-Splits =
      search_loop-Splits t p.slots key p.num_records o k p.num_records 0 p.num_records (omega arith)
        (record {
          in_order = omega arith;
          within = omega arith;
          below = λ i h. absurd (omega arith);
          above = λ i h lt. absurd (omega arith);
        })

  is_missing-code :
      (i : ℕ)
      → i < p.num_records
      → is_missing p key i ≡ is_ne (compare (key_code (p.slots i).id) (key_code key))
  unfolding is_missing
  is_missing-code i h = ground (arith, compare-code t (p.slots i).id key (o.keys i h) k)

  -- Where the keys of a page stop being less than `key`, the page has the key or lacks it.
  pub find_key :
      ((i : ℕ) × (i < p.num_records) × (key_code (p.slots i).id ≡ key_code key))
      ⊎ ((i : ℕ) → i < p.num_records → key_code (p.slots i).id ≢ key_code key)
  find_key = elim (Bool-cases (ltb r n && (key_code (p.slots r).id == key_code key))) [
    | inl here ↦ inl (r, ground (arith, here), ground (arith, here))
    | inr gone ↦ inr (λ i h e. absurd (lacks i h e gone))
  ]
    where
      n : ℕ
      n = p.num_records

      r : ℕ
      r = search_slot_array p key

      lacks :
          (i : ℕ)
          → i < n
          → key_code (p.slots i).id ≡ key_code key
          → (ltb r n && (key_code (p.slots r).id == key_code key)) ≡ false
          → ⊥
      lacks i h e gone = ground (
        arith,
        gone,
        search_slot_array-Splits.below i,
        search_slot_array-Splits.above r,
        o.sorted r i,
      )

  pub search-found :
      (i : ℕ)
      → i < p.num_records
      → key_code (p.slots i).id ≡ key_code key
      → search_slot_array p key ≡ i
  search-found i h e = ground (
    arith,
    search_slot_array-Splits.below i,
    search_slot_array-Splits.above (search_slot_array p key),
    o.sorted (search_slot_array p key) i,
  )

  pub is_missing-found :
      (i : ℕ)
      → i < p.num_records
      → key_code (p.slots i).id ≡ key_code key
      → is_missing p key i ≡ false
  is_missing-found i h e = ground (arith, is_missing-code i h)

  pub is_missing-lacking :
      ((i : ℕ) → i < p.num_records → key_code (p.slots i).id ≢ key_code key)
      → is_missing p key (search_slot_array p key) ≡ true
  is_missing-lacking gone = elim (Bool-cases (ltb (search_slot_array p key) p.num_records)) [
    | inr out ↦ unfold is_missing in ground (arith, out)
    | inl within ↦
        ground
          (arith, within, is_missing-code (search_slot_array p key), gone (search_slot_array p key))
  ]

-- The record that a page holds under a key: the entries that `SPRead` points at.
unfoldable pub contents : SlottedPage → OrderingKey → Option (List Entry)
contents p key = elim (sp_read p key) [ none ↦ none | some r ↦ some (slice r.entries 0 r.len) ]

-- The entries of the record at slot `i`.
abbrev pub record_at : SlottedPage → ℕ → List Entry
record_at p i = slice p.entries (p.slots i).ptr (p.slots i).len

module _ (t : OrderingType) (p : SlottedPage) (key : OrderingKey)
    (o : IsOrdered t p.slots p.num_records) (k : KeyOf t key) where
  pub contents-found :
      (i : ℕ)
      → i < p.num_records
      → key_code (p.slots i).id ≡ key_code key
      → contents p key ≡ some (record_at p i)
  unfolding contents sp_read
  contents-found i h e =
      rw (contents, search-found t p key o k i h e, is_missing-found t p key o k i h e)
        (ap some (
          slice-ext _ p.entries 0 (p.slots i).ptr (p.slots i).len
            (λ j _. ap (λ x. p.entries ((p.slots i).ptr + x)) (omega arith))))

  pub contents-lacking :
      ((i : ℕ) → i < p.num_records → key_code (p.slots i).id ≢ key_code key) → contents p key ≡ none
  unfolding contents sp_read
  contents-lacking gone = rw (contents, is_missing-lacking t p key o k gone)

  -- `SPSearch` returns the index of the key's slot, and -1 exactly where no slot has it.
  pub sp_search-found :
      (i : ℕ)
      → i < p.num_records
      → key_code (p.slots i).id ≡ key_code key
      → sp_search p key ≡ some i
  unfolding sp_search
  sp_search-found i h e = rw (search-found t p key o k i h e, is_missing-found t p key o k i h e)

  pub sp_search-lacking :
      ((i : ℕ) → i < p.num_records → key_code (p.slots i).id ≢ key_code key)
      → sp_search p key ≡ none
  unfolding sp_search
  sp_search-lacking gone = rw (is_missing-lacking t p key o k gone)

-- The bounds are not looked at.
pub contents-update_key_bounds :
    (p : SlottedPage) (key : OrderingKey) → contents (update_key_bounds p) key ≡ contents p key
unfolding contents sp_read update_key_bounds
contents-update_key_bounds p key = elim (Bool-cases (p.num_records == 0)) [
  | inl e ↦ rw e
  | inr e ↦ rw e
]

-- A page that holds the records of another at the same places has the same contents.
pub contents-same :
    (t : OrderingType) (p q : SlottedPage) (key : OrderingKey)
    → IsValid t p
    → IsValid t q
    → SameRecords p q
    → KeyOf t key
    → contents q key ≡ contents p key
contents-same t p q key v w s k = elim (find_key t p key v.ordered k) [
  | inl (i, h, e) ↦
      contents-found t q key w.ordered k i (omega (arith, s.count, h))
        (ap key_code (ap (λ (x : SpSlot). x.id) (s.slots i h)) ∙ e)
      ∙ ap some (same_record i h)
      ∙ sym (contents-found t p key v.ordered k i h e)
  | inr gone ↦
      contents-lacking t q key w.ordered k
        (λ i h. rw (s.slots i (omega (arith, s.count, h))) (gone i (omega (arith, s.count, h))))
      ∙ sym (contents-lacking t p key v.ordered k gone)
]
  where
    same_record : (i : ℕ) → i < p.num_records → record_at q i ≡ record_at p i
    same_record i h = rw (s.slots i h) (
        slice-ext q.entries p.entries (p.slots i).ptr (p.slots i).ptr (p.slots i).len
          (λ j lt. s.entries ((p.slots i).ptr + j) (omega (arith, v.laid_out.inside i h))))
