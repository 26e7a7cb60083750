-- ===== src/Storage/Tree/Insert/Filed.antt =====
-- `insertPageIntoChildren` files a page in its place among the pages of a leaf.
use stripe_sql.Prelude.{
  ℕ, zero, suc, ◌+◌, ◌≤◌, ◌<◌, ◌≡◌, ◌≢◌, ◌⊎◌, refl, arith, ltb, ◌==◌, if◌then◌else◌, if-both, true,
  false, Bool-cases, inl, inr, ltb→lt, ltb→le, some, none,
}
use stripe_sql.Storage.Ordering.{OrderingType, OrderingKey, compare_ordering_keys}
use stripe_sql.Storage.Ordering.Code.{KeyOf, key_code, compare-code}
use stripe_sql.Storage.Cache.{Node}
use stripe_sql.Storage.Table.{max_children}
use stripe_sql.Storage.Tree.{is_gt}
use stripe_sql.Storage.Tree.Shape.{AreKeys}
use stripe_sql.Storage.Tree.Insert.{Filing, file_between, file_last, file_loop}
use stripe_sql.Storage.Tree.Insert.Shift.{
  inserted, put-shift_key_array_r, put-shift_address_array_r,
}

-- The page stands at `place`, behind the pages with lower keys and in front of those with higher ones.
-- What stood last before has its key passed on.
pub record IsFiled (n : Node) (key : OrderingKey) (page place : ℕ) (f : Filing) : Type 0 where
  pub within : place ≤ n.child_count
  pub below : (i : ℕ) → i < place → key_code (n.keys i) < key_code key
  pub above : (i : ℕ) → place ≤ i → i < n.child_count → key_code key < key_code (n.keys i)
  pub count : f.node.child_count ≡ n.child_count + 1
  pub keys : (j : ℕ) → j ≤ n.child_count → f.node.keys j ≡ inserted n.keys place key j
  pub children : (j : ℕ) → j ≤ n.child_count → f.node.children j ≡ inserted n.children place page j
  pub raised : f.raised ≡ (if place == n.child_count then some key else none)
  pub highest : f.node.max_key ≡ (if place == n.child_count then key else n.max_key)

module _ (type : OrderingType) (n : Node) (key : OrderingKey) (page : ℕ)
    (v : AreKeys type n n.child_count) (k : KeyOf type key)
    (fresh : (i : ℕ) → i < n.child_count → key_code (n.keys i) ≢ key_code key)
    (room : n.child_count < max_children) where
  gt-code :
      (i : ℕ)
      → i < n.child_count
      → is_gt (compare_ordering_keys (n.keys i) key) ≡ ltb (key_code key) (key_code (n.keys i))
  gt-code i l = ground (arith, compare-code type (n.keys i) key (v.keys i l) k)

  file_last-IsFiled :
      ((i : ℕ) → i < n.child_count → key_code (n.keys i) < key_code key)
      → IsFiled n key page n.child_count (file_last n key page)
  file_last-IsFiled below = record {
    within = omega arith;
    below = below;
    above = λ i l m. absurd (omega (arith, l, m));
    count = refl;
    keys = λ j l. ground (arith, l);
    children = λ j l. ground (arith, l);
    raised = ground arith;
    highest = ground arith;
  }

  file_between-IsFiled :
      (i : ℕ)
      → i < n.child_count
      → ((j : ℕ) → j < i → key_code (n.keys j) < key_code key)
      → key_code key < key_code (n.keys i)
      → IsFiled n key page i (file_between n key page i)
  file_between-IsFiled i l below next = record {
    within = omega (arith, l);
    below = below;
    above = λ j h m. above j h m (Bool-cases (ltb i j));
    count = refl;
    keys = λ j h.
        put-shift_key_array_r n.keys i max_children key (omega (arith, l, room)) j
          (omega (arith, h, room));
    children = λ j h.
        put-shift_address_array_r n.children i max_children page (omega (arith, l, room)) j
          (omega (arith, h, room));
    raised = ground (arith, l);
    highest = ground (arith, l);
  }
    where
      above :
          (j : ℕ)
          → i ≤ j
          → j < n.child_count
          → (ltb i j ≡ true) ⊎ (ltb i j ≡ false)
          → key_code key < key_code (n.keys j)
      above j h m (inl less) = omega (arith, next, v.sorted i j (ltb→lt i j less) m)
      above j h m (inr same) = let e : j ≡ i = omega (arith, h, ltb→le i j same) in rw e next

  pub file_loop-IsFiled :
      (fuel i : ℕ)
      → i + fuel ≡ n.child_count
      → ((j : ℕ) → j < i → key_code (n.keys j) < key_code key)
      → (place : ℕ) × IsFiled n key page place (file_loop fuel n key page i)
  unfolding file_loop
  file_loop-IsFiled zero i e below =
      (n.child_count, file_last-IsFiled (λ j l. below j (omega (arith, e, l))))
  file_loop-IsFiled (suc fuel) i e below =
      let more : ltb i n.child_count ≡ true = ground (arith, e) in
      rw more (
        if-both (λ f. (place : ℕ) × IsFiled n key page place f)
          (is_gt (compare_ordering_keys (n.keys i) key))
          (λ above. (
            i,
            file_between-IsFiled i (omega (arith, e)) below
                (ground (arith, above, gt-code i (omega (arith, e)))),
          ))
          (λ not_above. file_loop-IsFiled fuel (i + 1) (omega (arith, e)) (λ j l.
            elim (Bool-cases (j == i)) [
              | inl same ↦
                  ground (
                    arith,
                    same,
                    not_above,
                    gt-code i (omega (arith, e)),
                    fresh i (omega (arith, e)),
                  )
              | inr other ↦ below j (ground (arith, l, other))
            ])))
