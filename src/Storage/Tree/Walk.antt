-- ===== src/Storage/Tree/Walk.antt =====
-- The walk from the root of a tree to a leaf, described apart from the loops of `findLeaf`, and that these
-- follow it on any tree.
use stripe_sql.Prelude.{
  ℕ, zero, suc, ◌+◌, ◌-◌, ◌<◌, ◌≤◌, ◌≡◌, ◌⊎◌, inl, inr, refl, sym, subst, arith, ltb, ◌==◌, ==_iff,
  ◌&&◌, if-both, Bool-cases, true, false, Option, some, none, Option-cases,
}
use stripe_sql.Storage.Ordering.{OrderingKey, compare_ordering_keys}
use stripe_sql.Storage.Cache.{Node}
use stripe_sql.Storage.Tree.Found.{positive_not_zero}
use stripe_sql.Storage.Tree.{Nodes, is_gt, child_loop, descend}

module _ (nodes : Nodes) (key : OrderingKey) where
  -- The key is above the one beside child `i`.
  abbrev pub IsAbove : Node → ℕ → Type 0
  IsAbove n i = is_gt (compare_ordering_keys key (n.keys i)) ≡ true

  -- Child `c` is the first whose key is not below the key, or the last.
  pub record IsUnder (n : Node) (c : ℕ) : Type 0 where
    inside : c < n.child_count
    below : (i : ℕ) → i < c → IsAbove n i
    first : (c + 1 ≡ n.child_count) ⊎ (is_gt (compare_ordering_keys key (n.keys c)) ≡ false)

  child_loop-IsUnder :
      (fuel : ℕ) (n : Node) (i : ℕ)
      → n.child_count ≤ i + fuel
      → i < n.child_count
      → ((j : ℕ) → j < i → IsAbove n j)
      → IsUnder n (child_loop fuel n key i)
  unfolding child_loop
  child_loop-IsUnder zero n i h l before = absurd (omega (arith, h, l))
  child_loop-IsUnder (suc fuel) n i h l before =
      if-both (IsUnder n)
        (ltb i (n.child_count - 1) && is_gt (compare_ordering_keys key (n.keys i)))
        (λ goes. child_loop-IsUnder fuel n (i + 1) (omega (arith, h)) (ground (arith, goes)) (λ j m.
          elim (Bool-cases (j == i)) [
            | inl e ↦ ground (arith, goes, e)
            | inr e ↦ before j (ground (arith, m, e))
          ]))
        (λ stops. record { inside = l; below = before; first = ground (arith, stops, l) })

  child_loop_unique :
      (fuel : ℕ) (n : Node) (c i : ℕ)
      → IsUnder n c
      → n.child_count ≤ i + fuel
      → i ≤ c
      → child_loop fuel n key i ≡ c
  unfolding child_loop
  child_loop_unique zero n c i u h l = absurd (omega (arith, h, l, u.inside))
  child_loop_unique (suc fuel) n c i u h l =
      if-both (λ r. r ≡ c)
        (ltb i (n.child_count - 1) && is_gt (compare_ordering_keys key (n.keys i)))
        (λ goes.
          child_loop_unique fuel n c (i + 1) u (omega (arith, h)) (elim (Bool-cases (i == c)) [
            | inl e ↦ ground (arith, goes, e, u.first)
            | inr e ↦ ground (arith, l, e)
          ]))
        (λ stops. elim (Bool-cases (ltb i c)) [
          | inl e ↦ ground (arith, stops, e, u.inside, u.below i (ground (arith, e)))
          | inr e ↦ ground (arith, l, e)
        ])

  -- The walk from a node down to a leaf in some number of rounds. It comes to the leaf and where that
  -- stands, or to `none` where an inner node has no child or the child that the key belongs under cannot
  -- be read.
  pub data Walk : ℕ → ℕ → Node → Option (ℕ × Node) → Type 0 where
    leaf : {addr : ℕ} → {n : Node} → n.is_leaf ≡ true → Walk 0 addr n (some (addr, n))
    childless : {addr : ℕ} → {n : Node} → n.is_leaf ≡ false → n.child_count ≡ 0 → Walk 1 addr n none
    unread :
        {addr c : ℕ}
        → {n : Node} → n.is_leaf ≡ false
        → IsUnder n c
        → nodes (n.children c) ≡ none
        → Walk 1 addr n none
    down :
        {k addr c : ℕ}
        → {n m : Node} → {end : Option (ℕ × Node)} → n.is_leaf ≡ false
        → IsUnder n c
        → nodes (n.children c) ≡ some m
        → Walk k (n.children c) m end
        → Walk (suc k) addr n end

  -- How the code holds the end of a walk: the address 0 is a failure.
  abbrev pub Holds : Option (ℕ × Node) → ℕ × Node → Type 0
  Holds none found = found.0 ≡ 0
  Holds (some end) found = found ≡ end

  abbrev pub Ends : Option (ℕ × Node) → Option (ℕ × Node) → Type 0
  Ends result end = (found : ℕ × Node) × (result ≡ some found) × Holds end found

  descend-down :
      (fuel addr c : ℕ) (n m : Node)
      → n.is_leaf ≡ false
      → 0 < n.child_count
      → child_loop n.child_count n key 0 ≡ c
      → nodes (n.children c) ≡ some m
      → descend (suc fuel) nodes key addr n ≡ descend fuel nodes key (n.children c) m
  unfolding descend
  descend-down fuel addr c n m e pos chosen r =
      subst (λ x. descend (suc fuel) nodes key addr n ≡ descend fuel nodes key (n.children x) m)
        chosen
        (rw
          (
            subst (λ x. nodes (n.children x) ≡ some m) (sym chosen) r,
            e,
            positive_not_zero n.child_count pos,
          )
          refl)

  -- With a round for each step of a walk, the loop ends as the walk does.
  pub descend-Ends :
      {k addr : ℕ}
      → {n : Node} → {end : Option (ℕ × Node)} → (fuel : ℕ) → Walk k addr n end
      → k ≤ fuel
      → Ends (descend fuel nodes key addr n) end
  unfolding descend
  descend-Ends zero (Walk.leaf {addr = addr} {n = n} e) l = ((addr, n), rw e refl, refl)
  descend-Ends (suc fuel) (Walk.leaf {addr = addr} {n = n} e) l = ((addr, n), rw e refl, refl)
  descend-Ends zero (Walk.childless e z) l = absurd (omega (arith, l))
  descend-Ends zero (Walk.unread e u r) l = absurd (omega (arith, l))
  descend-Ends zero (Walk.down e u r w) l = absurd (omega (arith, l))
  descend-Ends (suc fuel) (Walk.childless {n = n} e z) l =
      ((0, n), rw (e, (==_iff n.child_count 0).1 z) refl, refl)
  descend-Ends (suc fuel) (Walk.unread {c = c} {n = n} e u r) l = (
    (0, n),
    rw
        (
          child_loop_unique n.child_count n c 0 u (omega arith) (omega arith),
          r,
          e,
          positive_not_zero n.child_count (omega (arith, u.inside)),
        )
        refl,
    refl,
  )
  descend-Ends (suc fuel) (Walk.down {addr = addr} {c = c} {n = n} {m = m} {end = end} e u r w) l =
      subst (λ x. Ends x end)
        (sym (
          descend-down fuel addr c n m e (omega (arith, u.inside))
            (child_loop_unique n.child_count n c 0 u (omega arith) (omega arith)) r))
        (descend-Ends fuel w (omega (arith, l)))

  -- What the loop returns is the end of a walk that takes no more rounds than it had.
  abbrev pub Walked : ℕ → ℕ → Node → ℕ × Node → Type 0
  Walked fuel addr n found =
      (k : ℕ) × (end : Option (ℕ × Node)) × Walk k addr n end × (k ≤ fuel) × Holds end found

  pub descend-Walked :
      (fuel addr : ℕ) (n : Node) (found : ℕ × Node)
      → descend fuel nodes key addr n ≡ some found
      → Walked fuel addr n found
  unfolding descend
  descend-Walked zero addr n found =
      if-both (λ r. r ≡ some found → Walked 0 addr n found) n.is_leaf
        (λ leaf e. (0, some (addr, n), Walk.leaf leaf, omega arith, ground (arith, e)))
        (λ inner e. absurd (ground (arith, e)))
  descend-Walked (suc fuel) addr n found =
      let c = child_loop n.child_count n key 0 in
      if-both (λ r. r ≡ some found → Walked (suc fuel) addr n found) n.is_leaf
        (λ leaf e. (0, some (addr, n), Walk.leaf leaf, omega arith, ground (arith, e)))
        (λ inner.
          if-both (λ r. r ≡ some found → Walked (suc fuel) addr n found) (n.child_count == 0)
            (λ empty e. (
              1,
              none,
              Walk.childless inner (ground (arith, empty)),
              omega arith,
              ground (arith, e),
            ))
            (λ some_child.
              let u : IsUnder n (child_loop n.child_count n key 0) =
                child_loop-IsUnder n.child_count n 0 (omega arith) (ground (arith, some_child))
                  (λ j l. absurd (omega (arith, l))) in
              elim (Option-cases (nodes (n.children c))) [
                | inl r ↦
                    rw r (λ e. (1, none, Walk.unread inner u r, omega arith, ground (arith, e)))
                | inr (m, r) ↦ rw r (λ e.
                    let (k, end, w, l, h) = descend-Walked fuel (n.children c) m found e in
                    (suc k, end, Walk.down inner u r w, omega (arith, l), h))
              ]))
