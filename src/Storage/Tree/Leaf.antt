-- ===== src/Storage/Tree/Leaf.antt =====
-- `findPageInLeaf` finds the page of a leaf that is for the key.
use stripe_sql.Prelude.{
  ℕ, zero, suc, ◌+◌, ◌-◌, ◌/◌, ◌≤◌, ◌≡◌, refl, sym, ap, subst, arith, Array, Bool-cases, inl, inr,
  ◌==◌, ==_iff, if◌then◌else◌,
}
use stripe_sql.Storage.Ordering.{OrderingType, OrderingKey}
use stripe_sql.Storage.Ordering.Code.{KeyOf, key_code}
use stripe_sql.Storage.Page.Data.{SpSlot}
use stripe_sql.Storage.Page.Search.{search_loop}
use stripe_sql.Storage.Page.Valid.{IsOrdered}
use stripe_sql.Storage.Page.Found.{Splits, search_loop-Splits}
use stripe_sql.Storage.Cache.{Node}
use stripe_sql.Storage.Tree.{page_loop, find_page_in_leaf}
use stripe_sql.Storage.Tree.Shape.{look_up, leaf_ranges, AreKeys}

-- The keys of a node as the slots of a page, which are searched in the same way.
abbrev pub as_slots : Node → Array SpSlot
as_slots n i = record { id = n.keys i; ptr = 0; len = 0; size = 0 }

page_loop-search_loop :
    (fuel : ℕ) (n : Node) (key : OrderingKey) (lo hi : ℕ)
    → page_loop fuel n key lo hi ≡ search_loop fuel (as_slots n) key lo hi
unfolding page_loop search_loop
page_loop-search_loop zero n key lo hi = refl
page_loop-search_loop (suc fuel) n key lo hi =
    rw
      (
        page_loop-search_loop fuel n key (lo + (hi - lo) / 2 + 1) hi,
        page_loop-search_loop fuel n key lo (lo + (hi - lo) / 2),
      )
      refl

module _ (type : OrderingType) (n : Node) (low : ℕ) (v : AreKeys type n n.child_count)
    (key : OrderingKey) (k : KeyOf type key) where
  ordered : IsOrdered type (as_slots n) n.child_count
  ordered = record { keys = v.keys; sorted = v.sorted }

  -- The number of pages filed under a key below the one sought.
  pub find_page_in_leaf-Splits : Splits (as_slots n) key n.child_count (find_page_in_leaf n key)
  unfolding find_page_in_leaf
  find_page_in_leaf-Splits =
      subst (Splits (as_slots n) key n.child_count)
        (sym (page_loop-search_loop n.child_count n key 0 n.child_count))
        (search_loop-Splits type (as_slots n) key n.child_count ordered k n.child_count 0
          n.child_count (omega arith)
          (record {
            in_order = omega arith;
            within = omega arith;
            below = λ i h. absurd (omega (arith, h));
            above = λ i h l. absurd (omega (arith, h, l));
          }))

  abbrev place : ℕ
  place = find_page_in_leaf n key

  look_up-leaf_ranges :
      (m i start : ℕ)
      → start ≤ key_code key
      → i ≤ place
      → i + m ≡ n.child_count
      → look_up (key_code key) (leaf_ranges n start i m)
        ≡ (if place == n.child_count then 0 else n.children place)
  look_up-leaf_ranges zero i start s l e = ground (arith, s, l, e, find_page_in_leaf-Splits.within)
  look_up-leaf_ranges (suc m) i start s l e = elim (Bool-cases (i == place)) [
    | inl x ↦ ground (
      arith,
      s,
      e,
      x,
      find_page_in_leaf-Splits.above i (ground (arith, x)) (omega (arith, e)),
      ap n.children ((==_iff i place).0 x),
    )
    | inr x ↦ ground (
      arith,
      find_page_in_leaf-Splits.below i (ground (arith, l, x)),
      look_up-leaf_ranges m (i + 1) (key_code (n.keys i) + 1)
          (omega (arith, find_page_in_leaf-Splits.below i (ground (arith, l, x))))
          (ground (arith, l, x)) (omega (arith, e)),
    )
  ]

  -- The search of a leaf finds what the list of its ranges says.
  pub find_page_in_leaf-look_up :
      low ≤ key_code key
      → look_up (key_code key) (leaf_ranges n low 0 n.child_count) ≡ (
          if find_page_in_leaf n key == n.child_count
          then 0
          else n.children (find_page_in_leaf n key))
  find_page_in_leaf-look_up s =
      look_up-leaf_ranges n.child_count 0 low s (omega arith) (omega arith)
