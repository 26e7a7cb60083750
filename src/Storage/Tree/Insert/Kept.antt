-- ===== src/Storage/Tree/Insert/Kept.antt =====
-- A leaf stays well-formed when a page is filed, and its search finds that page for the keys up to its own.
use stripe_sql.Prelude.{
  ℕ, ◌+◌, ◌-◌, ◌≤◌, ◌<◌, ◌≡◌, ◌≢◌, subst, arith, ltb, leb, ◌==◌, if◌then◌else◌, if-both, ◌&&◌, ◌||◌,
  Bool,
}
use stripe_sql.Storage.Ordering.{OrderingType, OrderingKey}
use stripe_sql.Storage.Ordering.Code.{KeyOf, key_code}
use stripe_sql.Storage.Page.Found.{Splits}
use stripe_sql.Storage.Cache.{Node}
use stripe_sql.Storage.Table.{max_children}
use stripe_sql.Storage.Tree.{find_page_in_leaf}
use stripe_sql.Storage.Tree.Shape.{AreKeys}
use stripe_sql.Storage.Tree.Leaf.{as_slots, find_page_in_leaf-Splits}
use stripe_sql.Storage.Tree.Insert.{Filing, insert_page_into_children}
use stripe_sql.Storage.Tree.Insert.Filed.{IsFiled, file_loop-IsFiled}

-- The page that the search of a leaf finds, and 0 if it finds none.
abbrev pub page_of : Node → OrderingKey → ℕ
page_of n key =
    if find_page_in_leaf n key == n.child_count then 0 else n.children (find_page_in_leaf n key)

-- The filing takes the sought key over: it is not above the new key, and no page's key is between.
abbrev pub takes_over : Node → OrderingKey → OrderingKey → Bool
takes_over n key sought =
    leb (key_code sought) (key_code key)
    && (find_page_in_leaf n sought == n.child_count
        || ltb (key_code key) (key_code (n.keys (find_page_in_leaf n sought))))

Splits-unique :
    (n : Node) (sought : OrderingKey) (count a b : ℕ)
    → Splits (as_slots n) sought count a
    → Splits (as_slots n) sought count b
    → a ≡ b
Splits-unique n sought count a b s t =
    ground (arith, s.within, t.within, s.below b, t.above b, t.below a, s.above a)

module _ (type : OrderingType) (n : Node) (key : OrderingKey) (page : ℕ)
    (v : AreKeys type n n.child_count) (k : KeyOf type key) where
  module _ (place : ℕ) (f : Filing) (d : IsFiled n key page place f) where
    abbrev filed : Node
    filed = f.node

    filed-AreKeys : AreKeys type filed filed.child_count
    filed-AreKeys = record { keys = key_at; sorted = order }
      where
        key_at : (j : ℕ) → j < filed.child_count → KeyOf type (filed.keys j)
        key_at j l = rw (d.keys j (omega (arith, l, d.count))) (
            if-both (KeyOf type) (ltb j place) (λ less. v.keys j (ground (arith, less, d.within)))
              (λ more.
                if-both (KeyOf type) (j == place) (λ _. k)
                  (λ other. v.keys (j - 1) (ground (arith, l, d.count, more, other)))))

        order :
            (i j : ℕ)
            → i < j
            → j < filed.child_count
            → key_code (filed.keys i) < key_code (filed.keys j)
        order i j l m =
            rw (d.keys i (omega (arith, l, m, d.count)), d.keys j (omega (arith, m, d.count)))
              (ground (
                arith,
                l,
                m,
                d.count,
                d.within,
                v.sorted i j l,
                v.sorted i (j - 1),
                v.sorted (i - 1) (j - 1),
                d.below i,
                d.above (j - 1),
              ))

    module _ (sought : OrderingKey) (s : KeyOf type sought) where
      abbrev before : ℕ
      before = find_page_in_leaf n sought

      old : Splits (as_slots n) sought n.child_count before
      old = find_page_in_leaf-Splits type n 0 v sought s

      new : Splits (as_slots filed) sought filed.child_count (find_page_in_leaf filed sought)
      new = find_page_in_leaf-Splits type filed 0 filed-AreKeys sought s

      -- The number of pages below the sought key after the filing.
      abbrev after : ℕ
      after = if leb (key_code sought) (key_code key) then before else before + 1

      up_to_key : key_code sought ≤ key_code key → before ≤ place
      up_to_key l = ground (arith, l, d.within, old.within, old.below place, d.above place)

      over_key : key_code key < key_code sought → place ≤ before
      over_key l = ground (arith, l, d.within, old.within, old.above before, d.below before)

      moved : Splits (as_slots filed) sought filed.child_count after
      moved = record { within = ground (arith, d.count, old.within); below = under; above = over }
        where
          under : (i : ℕ) → i < after → key_code (filed.keys i) < key_code sought
          under i l = rw (d.keys i (ground (arith, l, old.within))) (
              ground (
                arith,
                l,
                old.within,
                d.within,
                up_to_key,
                over_key,
                old.below i,
                old.below (i - 1),
                d.below i,
              ))

          over :
              (i : ℕ)
              → after ≤ i
              → i < filed.child_count
              → key_code sought ≤ key_code (filed.keys i)
          over i l m = rw (d.keys i (omega (arith, m, d.count))) (
              ground (
                arith,
                l,
                m,
                d.count,
                old.within,
                d.within,
                up_to_key,
                over_key,
                old.above i,
                old.above (i - 1),
                d.above (i - 1),
              ))

      filed-page_of :
          page_of filed sought ≡ (if takes_over n key sought then page else page_of n sought)
      filed-page_of = ground (
        arith,
        Splits-unique filed sought filed.child_count (find_page_in_leaf filed sought) after new
            moved,
        d.count,
        d.within,
        old.within,
        up_to_key,
        over_key,
        d.children after,
        d.above before,
        d.below before,
      )

  -- Filing a page in a well-formed leaf that has room, under a key that no page is filed under, keeps the
  -- leaf well-formed with one page more, and its search then finds the page for the keys up to that key
  -- and above the one before it, and for each other key what it found before.
  pub insert_page_into_children-page_of :
      ((i : ℕ) → i < n.child_count → key_code (n.keys i) ≢ key_code key)
      → n.child_count < max_children
      → AreKeys type (insert_page_into_children n key page).node (n.child_count + 1)
        × ((insert_page_into_children n key page).node.child_count ≡ n.child_count + 1)
        × ((sought : OrderingKey)
            → KeyOf type sought
            → page_of (insert_page_into_children n key page).node sought
              ≡ (if takes_over n key sought then page else page_of n sought))
  unfolding insert_page_into_children
  insert_page_into_children-page_of fresh room =
      let (place, d) =
        file_loop-IsFiled type n key page v k fresh room n.child_count 0 (omega arith)
          (λ j l. absurd (omega (arith, l))) in
      let f : Filing = insert_page_into_children n key page in
      (
        subst (AreKeys type f.node) d.count (filed-AreKeys place f d),
        d.count,
        (λ sought s. filed-page_of place f d sought s),
      )
