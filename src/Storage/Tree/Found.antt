-- ===== src/Storage/Tree/Found.antt =====
-- `findPage` finds the page that a well-formed tree has for the key.
use stripe_sql.Prelude.{
  ℕ, zero, suc, ◌+◌, ◌-◌, ◌<◌, ◌≤◌, ◌≡◌, ◌≢◌, refl, sym, ap, ◌∙◌, subst, arith, Bool-cases, inl,
  inr, ltb, ◌==◌, ==_iff, true, false, ◌&&◌, List, ◌++◌, Option, some,
}
use stripe_sql.Storage.Ordering.{
  OrderingType, OrderingKey, of_ulong, of_double, of_string, key_type, compare_ordering_keys,
}
use stripe_sql.Storage.Ordering.Code.{KeyOf, key_code, compare-code}
use stripe_sql.Storage.Cache.{Node}
use stripe_sql.Storage.Table.{type_code}
use stripe_sql.Storage.Tree.{
  Nodes, is_gt, child_loop, descend, find_leaf, page_at, find_page_and_leaf, find_page,
}
use stripe_sql.Storage.Tree.Shape.{
  Range, look_up, leaf_ranges, AreKeys, AreFrom, AreUpTo, AreChildren, IsTree, AreChildren-AreFrom,
  look_up-below, look_up-above,
}
use stripe_sql.Storage.Tree.Leaf.{find_page_in_leaf-look_up}

same_node :
    (nodes : Nodes) (addr : ℕ) (a b : Node) → nodes addr ≡ some a → nodes addr ≡ some b → a ≡ b
same_node nodes addr a b e f = grind (arith, e, f)

key_type-KeyOf : (t : OrderingType) (key : OrderingKey) → KeyOf t key → key_type key ≡ t
key_type-KeyOf OrderingType.ulong (of_ulong n) h = refl
key_type-KeyOf OrderingType.double (of_double n) h = refl
key_type-KeyOf OrderingType.string (of_string s) h = refl
key_type-KeyOf t key h = ground arith

pub positive_not_zero : (n : ℕ) → 0 < n → (n == 0) ≡ false
positive_not_zero n h = ground (arith, h)

module _ (nodes : Nodes) (type : OrderingType) (key : OrderingKey) (k : KeyOf type key) where
  gt-code :
      (n : Node) (m i : ℕ)
      → AreKeys type n m
      → i < m
      → is_gt (compare_ordering_keys key (n.keys i)) ≡ ltb (key_code (n.keys i)) (key_code key)
  gt-code n m i v l = ground (arith, compare-code type key (n.keys i) k (v.keys i l))

  -- What the search comes to under the list of ranges: the child's own list, and it is for the key.
  module _ (T : ℕ → ℕ → List Range → Type 0) (n : Node)
      (v : AreKeys type n (n.child_count - 1)) where
    abbrev Chosen : ℕ → List Range → Type 0
    Chosen c rs =
        (low : ℕ) × (own : List Range) × T (n.children c) low own
        × (low ≤ key_code key)
        × (look_up (key_code key) rs ≡ look_up (key_code key) own)

    child_loop-stops :
        (fuel i : ℕ)
        → (ltb i (n.child_count - 1) && is_gt (compare_ordering_keys key (n.keys i))) ≡ false
        → child_loop fuel n key i ≡ i
    unfolding child_loop
    child_loop-stops zero i h = refl
    child_loop-stops (suc fuel) i h = rw h refl

    child_loop-goes :
        (fuel i : ℕ)
        → (ltb i (n.child_count - 1) && is_gt (compare_ordering_keys key (n.keys i))) ≡ true
        → child_loop (suc fuel) n key i ≡ child_loop fuel n key (i + 1)
    unfolding child_loop
    child_loop-goes fuel i h = rw h refl

    -- The key is not above the key beside child `i`: it is for that child.
    here :
        (i low : ℕ) (own rest : List Range)
        → T (n.children i) low own
        → low ≤ key_code key
        → AreFrom (key_code (n.keys i) + 1) rest
        → key_code key ≤ key_code (n.keys i)
        → Chosen i (own ++ rest)
    here i low own rest t s f l = (
      low,
      own,
      t,
      s,
      look_up-above (key_code key) own rest (key_code (n.keys i) + 1) f (omega (arith, l)),
    )

    behind :
        (c i : ℕ) (own rest : List Range)
        → AreUpTo (key_code (n.keys i)) own
        → key_code (n.keys i) < key_code key
        → Chosen c rest
        → Chosen c (own ++ rest)
    behind c i own rest u l (low, list, t, s, e) =
        (low, list, t, s, look_up-below (key_code key) own rest (key_code (n.keys i)) u l ∙ e)

    child_loop-Chosen :
        (fuel i m low : ℕ) (rs : List Range)
        → AreChildren n T i m low rs
        → i + m ≡ n.child_count
        → m ≤ fuel
        → low ≤ key_code key
        → Chosen (child_loop fuel n key i) rs
    child_loop-Chosen fuel i m low rs (AreChildren.last t f) e l s =
        subst (λ c. Chosen c rs) (sym (child_loop-stops fuel i (ground (arith, e))))
          (low, rs, t, s, refl)
    child_loop-Chosen zero i m low rs (AreChildren.child t f u le others) e l s =
        absurd (omega (arith, l))
    child_loop-Chosen (suc fuel) i m low _
          (AreChildren.child {k = k'} {rs = own} {rest = rest} t f u le others) e l s =
        elim (Bool-cases (ltb (key_code (n.keys i)) (key_code key))) [
          | inl x ↦
              subst (λ c. Chosen c (own ++ rest))
                (sym (
                  child_loop-goes fuel i
                    (ground (arith, e, x, gt-code n (n.child_count - 1) i v (omega (arith, e))))))
                (behind (child_loop fuel n key (i + 1)) i own rest u (ground (arith, x)) (
                  child_loop-Chosen fuel (i + 1) (suc k') (key_code (n.keys i) + 1) rest others
                    (omega (arith, e)) (omega (arith, l)) (ground (arith, x))))
          | inr x ↦
              subst (λ c. Chosen c (own ++ rest))
                (sym (
                  child_loop-stops (suc fuel) i
                    (ground (arith, x, gt-code n (n.child_count - 1) i v (omega (arith, e))))))
                (here i low own rest t s (AreChildren-AreFrom n T others) (ground (arith, x)))
        ]

  -- What the search for the leaf comes to: a leaf whose own ranges decide.
  record Reached (rs : List Range) (found : ℕ × Node) : Type 0 where
    low : ℕ
    real : found.0 ≢ 0
    keys : AreKeys type found.1 found.1.child_count
    from : low ≤ key_code key
    same :
        look_up (key_code key) rs
        ≡ look_up (key_code key) (leaf_ranges found.1 low 0 found.1.child_count)

  descend-leaf :
      (fuel addr : ℕ) (n : Node) → n.is_leaf ≡ true → descend fuel nodes key addr n ≡ some (addr, n)
  unfolding descend
  descend-leaf zero addr n e = rw e refl
  descend-leaf (suc fuel) addr n e = rw e refl

  descend-child :
      (fuel addr : ℕ) (n m : Node)
      → n.is_leaf ≡ false
      → 0 < n.child_count
      → nodes (n.children (child_loop n.child_count n key 0)) ≡ some m
      → descend (suc fuel) nodes key addr n
        ≡ descend fuel nodes key (n.children (child_loop n.child_count n key 0)) m
  unfolding descend
  descend-child fuel addr n m e pos r = rw (r, e, positive_not_zero n.child_count pos) refl

  root_node :
      (h addr low : ℕ) (rs : List Range)
      → IsTree nodes type h addr low rs
      → (m : Node) × (nodes addr ≡ some m)
  root_node zero addr low rs tree = (tree.0, tree.1)
  root_node (suc h) addr low rs tree = (tree.0, tree.1)

  abbrev Reaches : List Range → Option (ℕ × Node) → Type 0
  Reaches rs result = (found : ℕ × Node) × (result ≡ some found) × Reached rs found

  child-Reached :
      (found : ℕ × Node) (rs own : List Range)
      → look_up (key_code key) rs ≡ look_up (key_code key) own
      → Reached own found
      → Reached rs found
  child-Reached found rs own e r = record {
    low = r.low;
    real = r.real;
    keys = r.keys;
    from = r.from;
    same = e ∙ r.same;
  }

  descend-Reached :
      (fuel h addr low : ℕ) (n : Node) (rs : List Range)
      → nodes addr ≡ some n
      → IsTree nodes type h addr low rs
      → h ≤ fuel
      → low ≤ key_code key
      → Reaches rs (descend fuel nodes key addr n)
  descend-Reached fuel zero addr low n rs e (n', e', real, leaf, v, own) l s =
      let same : n' ≡ n = same_node nodes addr n' n e' e in
      (
        (addr, n),
        descend-leaf fuel addr n (subst (λ x. x.is_leaf ≡ true) same leaf),
        subst (λ x. Reached rs (addr, x)) same
            (record {
              low = low;
              real = real;
              keys = v;
              from = s;
              same = ap (look_up (key_code key)) own;
            }),
      )
  descend-Reached zero (suc h) addr low n rs e tree l s = absurd (omega (arith, l))
  descend-Reached (suc fuel) (suc h) addr low n rs e (n', e', inner, pos, v, children) l s =
      subst (λ x. Reaches rs (descend (suc fuel) nodes key addr x)) (same_node nodes addr n' n e' e)
        (let (low', own, tree, s', e'') =
            child_loop-Chosen (IsTree nodes type h) n' v n'.child_count 0 n'.child_count low rs
              children (omega arith) (omega arith) s in
          let (m, r) =
            root_node h (n'.children (child_loop n'.child_count n' key 0)) low' own tree in
          let (found, d, reached) =
            descend-Reached fuel h (n'.children (child_loop n'.child_count n' key 0)) low' m own r
              tree (omega (arith, l)) s' in
          (
            found,
            descend-child fuel addr n' m inner pos r ∙ d,
            child-Reached found rs own e'' reached,
          ))

  find_leaf-Reached :
      (fuel h root : ℕ) (rs : List Range) (blank : Node)
      → IsTree nodes type h root 0 rs
      → h ≤ fuel
      → Reaches rs (find_leaf fuel nodes type root key blank)
  unfolding find_leaf
  find_leaf-Reached fuel h root rs blank tree l =
      let (m, r) = root_node h root 0 rs tree in
      rw
        (
          r,
          (==_iff (type_code (key_type key)) (type_code type)).1
              (ap type_code (key_type-KeyOf type key k)),
        )
        (descend-Reached fuel h root 0 m rs r tree l (omega arith))

  page_at-look_up :
      (rs : List Range) (found : ℕ × Node) (leaf_out : ℕ)
      → Reached rs found
      → (page_at key leaf_out found).0 ≡ look_up (key_code key) rs
  unfolding page_at
  page_at-look_up rs found leaf_out reached = ground (
    arith,
    reached.real,
    reached.same,
    find_page_in_leaf-look_up type found.1 reached.low reached.keys key k reached.from,
  )

  -- In a well-formed tree `find_page` ends and finds the page whose range of keys the key is in, and 0 if
  -- it is in none, when the key is one of the table's type and there is a round for each level of the
  -- tree.
  pub find_page-look_up :
      (fuel h root : ℕ) (rs : List Range) (blank : Node)
      → IsTree nodes type h root 0 rs
      → h ≤ fuel
      → find_page fuel nodes type root key blank ≡ some (look_up (key_code key) rs)
  unfolding find_page find_page_and_leaf
  find_page-look_up fuel h root rs blank tree l =
      let (found, e, reached) = find_leaf-Reached fuel h root rs blank tree l in
      rw e (ap some (page_at-look_up rs found 0 reached))
