-- ===== src/Tests/TreeTests.antt =====
-- The search of the B+ tree (bplus.c), the filing of a page and the choice of a split on concrete inputs.
use stripe_sql.Prelude.{
  ℕ, ◌+◌, ◌*◌, ◌<◌, ◌≡◌, ◌↔◌, ◌≤◌, [], ◌∷◌, refl, Option, some, none, true, false, List, ◌++◌, Bool,
  ◌==◌, if◌then◌else◌, arith,
}
use stripe_sql.Storage.Ordering.{
  OrderingType, OrderingKey, of_ulong, zero_key, compare_ordering_keys,
}
use stripe_sql.Storage.Table.{type_code}
use stripe_sql.Storage.Ordering.Code.{KeyOf, key_code}
use stripe_sql.Storage.Cache.{Node}
use stripe_sql.Storage.Tree.{
  Nodes, find_page, find_page_and_leaf, find_leaf, page_at, descend, child_loop, find_page_in_leaf,
  page_loop,
}
use stripe_sql.Storage.Tree.Shape.{Range, AreKeys, AreChildren, IsTree, leaf_ranges}
use stripe_sql.Storage.Tree.Found.{find_page-look_up}
use stripe_sql.Storage.Tree.Sound.{Search, IsAnswer, find_page_and_leaf-Search}
use stripe_sql.Storage.Tree.Choose.{choose_split, keep_loop, try_split}
use stripe_sql.Storage.Tree.Choose.Room.{IsBest}
use stripe_sql.Storage.Tree.Choose.Best.{choose_split-IsBest}
use stripe_sql.Storage.Tree.Insert.{
  insert_page_into_children, file_loop, shift_key_array_r, shift_address_array_r, shift_right,
}
use stripe_sql.Storage.Tree.Insert.Kept.{page_of, takes_over, insert_page_into_children-page_of}
use stripe_sql.Storage.Page.Data.{
  Datatype, SpRecord, SlottedPage, make_spage, sp_used_bytes, sp_record_bytes,
}
use stripe_sql.Storage.Page.Insert.{sp_insert}
use stripe_sql.Storage.Page.Valid.{IsValid}
use stripe_sql.Storage.Page.Insert.Keeps.{sp_insert-IsValid}
use stripe_sql.Storage.Page.Empty.{make_spage-IsValid}

-- A node whose keys are 10, 20 and so on after `base`, with children from `first` on.
abbrev node_of : Bool → ℕ → ℕ → ℕ → Node
node_of is_leaf base first count = record {
  children = λ i. first + i;
  keys = λ i. of_ulong (base + 10 * (i + 1));
  parent = 0;
  next = 0;
  prev = 0;
  child_count = count;
  max_key = zero_key;
  is_leaf = is_leaf;
}

-- Leaf 2 has the pages 40 and 41, up to the keys 10 and 20; leaf 3 has the pages 50 to 52, up to 50.
abbrev two_leaves : Nodes
two_leaves addr =
    if addr == 1
    then some (node_of false 10 2 2)
    else if addr == 2
    then some (node_of true 0 40 2)
    else if addr == 3
    then some (node_of true 20 50 3)
    else none

abbrev ranges : List Range
ranges = leaf_ranges (node_of true 0 40 2) 0 0 2 ++ leaf_ranges (node_of true 20 50 3) 21 0 3

node_of-AreKeys :
    (is_leaf : Bool) (base first count k : ℕ)
    → base < 1000
    → k < 1000
    → AreKeys OrderingType.ulong (node_of is_leaf base first count) k
unfolding key_code
node_of-AreKeys is_leaf base first count k b h = record {
  keys = λ i l. omega (arith, b, h, l);
  sorted = λ i j l m. omega (arith, l);
}

two_leaves-IsTree : IsTree two_leaves OrderingType.ulong 1 1 0 ranges
unfolding key_code
two_leaves-IsTree = (
  node_of false 10 2 2,
  refl,
  refl,
  omega arith,
  node_of-AreKeys false 10 2 2 1 (omega arith) (omega arith),
  AreChildren.child
      (
        node_of true 0 40 2,
        refl,
        (λ e. omega (arith, e)),
        refl,
        node_of-AreKeys true 0 40 2 2 (omega arith) (omega arith),
        refl,
      )
      (omega arith, (omega arith, tt)) (omega arith, (omega arith, tt)) (omega arith)
      (AreChildren.last
        (
          node_of true 20 50 3,
          refl,
          (λ e. omega (arith, e)),
          refl,
          node_of-AreKeys true 20 50 3 3 (omega arith) (omega arith),
          refl,
        )
        (omega arith, (omega arith, (omega arith, tt)))),
)

find_page-look_up_example :
    find_page 1 two_leaves OrderingType.ulong 1 (of_ulong 35) (node_of true 0 0 0) ≡ some 51
unfolding key_code
find_page-look_up_example =
    find_page-look_up two_leaves OrderingType.ulong (of_ulong 35) (omega arith) 1 1 1 ranges
      (node_of true 0 0 0) two_leaves-IsTree (omega arith)

above_every_key :
    find_page 1 two_leaves OrderingType.ulong 1 (of_ulong 51) (node_of true 0 0 0) ≡ some 0
unfolding find_page find_page_and_leaf page_at find_leaf type_code descend child_loop
    compare_ordering_keys find_page_in_leaf page_loop
above_every_key = refl

-- A leaf that cannot be read.
abbrev one_unreadable : Nodes
one_unreadable addr = if addr == 3 then none else two_leaves addr

find_page_and_leaf-Search_example :
    (find_page_and_leaf 1 one_unreadable OrderingType.ulong 1 (of_ulong 35) (node_of true 0 0 0) 9
      ≡ some (0, 9))
    ↔ ((k : ℕ) × (end : Option (ℕ × Node)) × Search one_unreadable
          (of_ulong 35)
          OrderingType.ulong
          1
          k
          end
        × (k ≤ 1)
        × IsAnswer one_unreadable (of_ulong 35) 9 end (0, 9))
find_page_and_leaf-Search_example =
    find_page_and_leaf-Search one_unreadable (of_ulong 35) 1 OrderingType.ulong 1
      (node_of true 0 0 0) 9 (0, 9)

fails_below :
    find_page_and_leaf 1 one_unreadable OrderingType.ulong 1 (of_ulong 35) (node_of true 0 0 0) 9
    ≡ some (0, 9)
unfolding find_page_and_leaf find_leaf page_at type_code descend child_loop compare_ordering_keys
    find_page_in_leaf page_loop
fails_below = refl

-- An inner node whose children are itself: the search has not ended after ten rounds.
goes_round :
    find_page_and_leaf 10
      (λ _. some (node_of false 0 1 1))
      OrderingType.ulong
      1
      (of_ulong 35)
      (node_of true 0 0 0)
      9
    ≡ none
unfolding find_page_and_leaf find_leaf page_at type_code descend child_loop compare_ordering_keys
    find_page_in_leaf page_loop
goes_round = refl

-- Page 60 is filed under 35 in the leaf with the keys 30, 40 and 50.
insert_page_into_children-page_of_example :
    AreKeys OrderingType.ulong
      (insert_page_into_children (node_of true 20 50 3) (of_ulong 35) 60).node
      4
    × ((insert_page_into_children (node_of true 20 50 3) (of_ulong 35) 60).node.child_count ≡ 4)
    × ((sought : OrderingKey)
        → KeyOf OrderingType.ulong sought
        → page_of (insert_page_into_children (node_of true 20 50 3) (of_ulong 35) 60).node sought
          ≡ (if takes_over (node_of true 20 50 3) (of_ulong 35) sought
              then 60
              else page_of (node_of true 20 50 3) sought))
unfolding key_code
insert_page_into_children-page_of_example =
    insert_page_into_children-page_of OrderingType.ulong (node_of true 20 50 3) (of_ulong 35) 60
      (node_of-AreKeys true 20 50 3 3 (omega arith) (omega arith)) (omega arith)
      (λ i l e. omega (arith, l, e)) (omega arith)

files_between :
    page_of (insert_page_into_children (node_of true 20 50 3) (of_ulong 35) 60).node (of_ulong 33)
    ≡ 60
unfolding insert_page_into_children file_loop shift_key_array_r shift_address_array_r shift_right
    compare_ordering_keys find_page_in_leaf page_loop
files_between = refl

-- A page with one record of 34 bytes, where one of 30 bytes is about to go behind it.
abbrev row : SpRecord
row = record {
  entries = λ _. record { bytes = some (7 ∷ []); size = 1; type = Datatype.t_int };
  len = 2;
  size = 2;
}

abbrev one_row : SlottedPage
one_row = (sp_insert (make_spage 1 1 60 8) (of_ulong 7) row).0

one_row-IsValid : IsValid OrderingType.ulong one_row
one_row-IsValid =
    sp_insert-IsValid OrderingType.ulong (make_spage 1 1 60 8) (of_ulong 7) row
      (make_spage-IsValid OrderingType.ulong 1 1 60 8) (omega arith)
      (unfold make_spage in (λ i h. elim h [ ])) (unfold make_spage in (omega arith))
      (unfold make_spage in (omega arith))

choose_split-IsBest_example : IsBest one_row true 1 30 (choose_split one_row true 1 30 0 false)
choose_split-IsBest_example =
    choose_split-IsBest OrderingType.ulong one_row one_row-IsValid true 1 30 (omega arith) 0 false

chooses :
    choose_split one_row true 1 30 0 false
    ≡ record { best = 4; keep = 1; in_upper = true; found = true }
unfolding choose_split keep_loop try_split sp_used_bytes sp_record_bytes sp_insert make_spage
    compare_ordering_keys
chooses = refl
