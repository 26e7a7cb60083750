-- ===== src/Storage/Tree/Sound.antt =====
-- What `findPageAndLeaf` gives on any tree, a damaged one included.
use stripe_sql.Prelude.{
  ℕ, zero, suc, ◌+◌, ◌-◌, ◌/◌, ◌<◌, ◌≤◌, ◌≡◌, ◌≢◌, ◌↔◌, inl, inr, refl, sym, ap, subst, arith, ltb,
  ◌==◌, ==_iff, if-both, false, Option, some, none, Option-cases,
}
use stripe_sql.Storage.Ordering.{OrderingType, OrderingKey, key_type, compare_ordering_keys}
use stripe_sql.Storage.Page.Search.{is_lt}
use stripe_sql.Storage.Cache.{Node}
use stripe_sql.Storage.Table.{type_code}
use stripe_sql.Storage.Tree.Walk.{Walk, Holds, Ends, descend-Ends, descend-Walked}
use stripe_sql.Storage.Tree.{
  Nodes, find_leaf, page_loop, find_page_in_leaf, page_at, find_page_and_leaf,
}

page_loop-bounded :
    (fuel : ℕ) (leaf : Node) (key : OrderingKey) (lo hi : ℕ)
    → lo ≤ hi
    → page_loop fuel leaf key lo hi ≤ hi
unfolding page_loop
page_loop-bounded zero leaf key lo hi h = h
page_loop-bounded (suc fuel) leaf key lo hi h =
    if-both (λ r. r ≤ hi) (ltb lo hi)
      (λ less.
        if-both (λ r. r ≤ hi) (is_lt (compare_ordering_keys (leaf.keys (lo + (hi - lo) / 2)) key))
          (λ _. page_loop-bounded fuel leaf key (lo + (hi - lo) / 2 + 1) hi (ground (arith, less)))
          (λ _.
            omega
              (arith, h, page_loop-bounded fuel leaf key lo (lo + (hi - lo) / 2) (omega arith))))
      (λ _. h)

find_page_in_leaf-bounded :
    (leaf : Node) (key : OrderingKey) → find_page_in_leaf leaf key ≤ leaf.child_count
unfolding find_page_in_leaf
find_page_in_leaf-bounded leaf key =
    page_loop-bounded leaf.child_count leaf key 0 leaf.child_count (omega arith)

module _ (nodes : Nodes) (key : OrderingKey) where
  -- The walk of the whole search, from the root that has been read, where the key is of the table's type.
  pub data Search (type : OrderingType) (root : ℕ) : ℕ → Option (ℕ × Node) → Type 0 where
    other_type : (type_code (key_type key) ≢ type_code type) → Search type root 0 none
    no_root :
        type_code (key_type key) ≡ type_code type → nodes root ≡ none → Search type root 0 none
    from_root :
        {k : ℕ}
        → {n : Node} → {end : Option (ℕ × Node)} → type_code (key_type key) ≡ type_code type
        → nodes root ≡ some n
        → Walk nodes key k root n end
        → Search type root k end

  -- What the caller has then. No leaf, the address 0, or a key above every page's: no page, and the
  -- caller's leaf is untouched.
  pub data IsAnswer (leaf_out : ℕ) : Option (ℕ × Node) → ℕ × ℕ → Type 0 where
    no_leaf : IsAnswer leaf_out none (0, leaf_out)
    at_zero : {leaf : Node} → IsAnswer leaf_out (some (0, leaf)) (0, leaf_out)
    above :
        {addr : ℕ}
        → {leaf : Node} → find_page_in_leaf leaf key ≡ leaf.child_count
        → IsAnswer leaf_out (some (addr, leaf)) (0, leaf_out)
    page :
        {addr : ℕ}
        → {leaf : Node} → addr ≢ 0
        → find_page_in_leaf leaf key < leaf.child_count
        → IsAnswer leaf_out (some (addr, leaf)) (leaf.children (find_page_in_leaf leaf key), addr)

  page_at-IsAnswer :
      (leaf_out : ℕ) (end : Option (ℕ × Node)) (found : ℕ × Node)
      → Holds nodes key end found
      → IsAnswer leaf_out end (page_at key leaf_out found)
  unfolding page_at
  page_at-IsAnswer leaf_out none (addr, leaf) h = rw ((==_iff addr 0).1 h) IsAnswer.no_leaf
  page_at-IsAnswer leaf_out (some end) found h =
      subst (λ x. IsAnswer leaf_out (some end) (page_at key leaf_out x)) (sym h)
        (if-both (IsAnswer leaf_out (some end)) (end.0 == 0)
          (λ z.
            subst (λ x. IsAnswer leaf_out (some (x, end.1)) (0, leaf_out))
              (sym ((==_iff end.0 0).0 z)) IsAnswer.at_zero)
          (λ real.
            if-both (IsAnswer leaf_out (some end))
              (find_page_in_leaf end.1 key == end.1.child_count)
              (λ e. IsAnswer.above (ground (arith, e)))
              (λ e.
                IsAnswer.page (λ z. ground (arith, real, z))
                  (ground (arith, e, find_page_in_leaf-bounded end.1 key)))))

  answer_unique :
      {leaf_out : ℕ}
      → {end : Option (ℕ × Node)} → {answer : ℕ × ℕ} → (found : ℕ × Node)
      → Holds nodes key end found
      → IsAnswer leaf_out end answer
      → page_at key leaf_out found ≡ answer
  unfolding page_at
  answer_unique found h IsAnswer.no_leaf = ground (arith, h)
  answer_unique found h IsAnswer.at_zero = ground (arith, h)
  answer_unique found h (IsAnswer.above e) = ground (arith, h, e)
  answer_unique found h (IsAnswer.page real e) = ground (arith, h, e, real)

  find_leaf-Ends :
      {k root : ℕ}
      → {type : OrderingType} → {end : Option (ℕ × Node)} → (fuel : ℕ) (blank : Node)
      → Search type root k end
      → k ≤ fuel
      → Ends nodes key (find_leaf fuel nodes type root key blank) end
  unfolding find_leaf
  find_leaf-Ends {type = type} fuel blank (Search.other_type other) l =
      let differ : (type_code (key_type key) == type_code type) ≡ false = ground (arith, other) in
      ((0, blank), rw differ refl, refl)
  find_leaf-Ends {type = type} fuel blank (Search.no_root same r) l =
      ((0, blank), rw ((==_iff (type_code (key_type key)) (type_code type)).1 same, r) refl, refl)
  find_leaf-Ends {type = type} fuel blank (Search.from_root same r w) l =
      rw ((==_iff (type_code (key_type key)) (type_code type)).1 same, r)
        (descend-Ends nodes key fuel w l)

  abbrev Searched : ℕ → OrderingType → ℕ → ℕ × Node → Type 0
  Searched fuel type root found =
      (k : ℕ) × (end : Option (ℕ × Node)) × Search type root k end
      × (k ≤ fuel)
      × Holds nodes key end found

  find_leaf-Searched :
      (fuel : ℕ) (type : OrderingType) (root : ℕ) (blank : Node) (found : ℕ × Node)
      → find_leaf fuel nodes type root key blank ≡ some found
      → Searched fuel type root found
  unfolding find_leaf
  find_leaf-Searched fuel type root blank found =
      if-both (λ r. r ≡ some found → Searched fuel type root found)
        (type_code (key_type key) == type_code type)
        (λ same. elim (Option-cases (nodes root)) [
          | inl r ↦ rw r (λ e. (
            0,
            none,
            Search.no_root ((==_iff (type_code (key_type key)) (type_code type)).0 same) r,
            omega arith,
            ground (arith, e),
          ))
          | inr (n, r) ↦ rw r (λ e.
              let (k, end, w, l, h) = descend-Walked nodes key fuel root n found e in
              (
                k,
                end,
                Search.from_root ((==_iff (type_code (key_type key)) (type_code type)).0 same) r w,
                l,
                h,
              ))
        ])
        (λ other e. (
          0,
          none,
          Search.other_type (λ same. ground (arith, other, same)),
          omega arith,
          ground (arith, e),
        ))

  -- On any tree, whichever nodes cannot be read and wherever the children point, `find_page_and_leaf`
  -- returns an answer within a number of rounds exactly if the walk from the root down to a leaf, each
  -- time through the child that the key belongs under, ends within as many steps, and the answer is the
  -- one for its end: 0, with the caller's leaf untouched, where the key's type is another, where the
  -- root or a node on the way cannot be read or has no child, where the leaf stands at 0 and where the
  -- search in it is at the end; or else the page that this search finds, with the leaf's address.
  pub find_page_and_leaf-Search :
      (fuel : ℕ) (type : OrderingType) (root : ℕ) (blank : Node) (leaf_out : ℕ) (answer : ℕ × ℕ)
      → (find_page_and_leaf fuel nodes type root key blank leaf_out ≡ some answer) ↔ (
          (k : ℕ) × (end : Option (ℕ × Node)) × Search type root k end
          × (k ≤ fuel)
          × IsAnswer leaf_out end answer)
  unfolding find_page_and_leaf
  find_page_and_leaf-Search fuel type root blank leaf_out answer = (
    elim (Option-cases (find_leaf fuel nodes type root key blank)) [
      | inl r ↦ rw r (λ e. absurd (ground (arith, e)))
      | inr (found, r) ↦ rw r (λ e.
          let (k, end, s, l, h) = find_leaf-Searched fuel type root blank found r in
          (
            k,
            end,
            s,
            l,
            subst (IsAnswer leaf_out end) (ground (arith, e))
                (page_at-IsAnswer leaf_out end found h),
          ))
    ],
    λ (k, end, s, l, a).
        let (found, r, h) = find_leaf-Ends fuel blank s l in
        rw r (ap some (answer_unique found h a)),
  )
