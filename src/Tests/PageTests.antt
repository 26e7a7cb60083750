-- ===== src/Tests/PageTests.antt =====
-- Slotted pages on concrete inputs.
use stripe_sql.Prelude.{
  ℕ, zero, suc, ◌+◌, ◌<◌, ◌≡◌, ◌≢◌, ◌⊎◌, refl, arith, [], ◌∷◌, some, none, true, false,
  if◌then◌else◌, ◌==◌,
}
use stripe_sql.Storage.Ordering.{OrderingType, OrderingKey, of_ulong, compare_ordering_keys}
use stripe_sql.Storage.Ordering.Code.{KeyOf, key_code}
use stripe_sql.Storage.Page.Data.{Datatype, Entry, SpRecord, SlottedPage, make_spage}
use stripe_sql.Storage.Page.Search.{sp_read, search_slot_array}
use stripe_sql.Storage.Page.Insert.{sp_insert}
use stripe_sql.Storage.Page.Delete.{sp_delete}
use stripe_sql.Storage.Page.Valid.{IsValid, total}
use stripe_sql.Storage.Page.Found.{Splits, contents, search_slot_array-Splits}
use stripe_sql.Storage.Page.Insert.Keeps.{sp_insert-IsValid}
use stripe_sql.Storage.Page.Insert.Contents.{sp_insert-contents, record_entries}
use stripe_sql.Storage.Page.Delete.Keeps.{sp_delete-IsValid}
use stripe_sql.Storage.Page.Delete.Contents.{sp_delete-contents}
use stripe_sql.Storage.Page.Empty.{make_spage-IsValid}
use stripe_sql.Storage.Page.Update.{sp_update}
use stripe_sql.Storage.Page.Update.Contents.{sp_update-contents}
use stripe_sql.Storage.Page.Split.{sp_split}
use stripe_sql.Storage.Page.Split.Records.{IsDivided}
use stripe_sql.Storage.Page.Split.Divided.{sp_split-IsDivided}

abbrev number : ℕ → Entry
number n = record { bytes = some (n ∷ []); size = 1; type = Datatype.t_int }

-- A record of two entries.
abbrev row : ℕ → SpRecord
row n = record { entries = λ j. number (if j == 0 then n else n + n); len = 2; size = 2 }

abbrev key : ℕ → OrderingKey
key = of_ulong

abbrev empty : SlottedPage
empty = make_spage 1 1 4096 8

abbrev one_row : SlottedPage
one_row = (sp_insert empty (key 7) (row 7)).0

abbrev two_rows : SlottedPage
two_rows = (sp_insert one_row (key 3) (row 3)).0

reads_back : contents two_rows (key 3) ≡ some (number 3 ∷ number 6 ∷ [])
unfolding contents sp_read sp_insert make_spage compare_ordering_keys
reads_back = refl

deleted_first : contents (sp_delete two_rows (key 7)).0 (key 3) ≡ some (number 3 ∷ number 6 ∷ [])
unfolding contents sp_read sp_insert sp_delete make_spage compare_ordering_keys
deleted_first = refl

-- 20 bytes of slot, 12 of entry headers and 2 of data: a page of 68 bytes holds two rows.
third_row_is_refused :
    (sp_insert
      (sp_insert (sp_insert (make_spage 1 1 68 8) (key 7) (row 7)).0 (key 3) (row 3)).0
      (key 5)
      (row 5)).1
    ≡ false
unfolding sp_insert make_spage compare_ordering_keys
third_row_is_refused = refl

empty-IsValid : IsValid OrderingType.ulong empty
empty-IsValid = make_spage-IsValid OrderingType.ulong 1 1 4096 8

sp_insert-IsValid_example : IsValid OrderingType.ulong one_row
sp_insert-IsValid_example =
    sp_insert-IsValid OrderingType.ulong empty (key 7) (row 7) empty-IsValid (omega arith)
      (unfold make_spage in (λ i h. elim h [ ])) (unfold make_spage in (omega arith))
      (unfold make_spage in (omega arith))

one_row-IsValid : IsValid OrderingType.ulong one_row
one_row-IsValid = sp_insert-IsValid_example

sp_insert-contents_example :
    ((sp_insert empty (key 7) (row 7)).1 ≡ true)
    × ((sp_insert empty (key 7) (row 7)).1 ≡ true
        → (contents one_row (key 7) ≡ some (record_entries (row 7)))
          × ((other : OrderingKey)
              → KeyOf OrderingType.ulong other
              → other ≢ key 7
              → contents one_row other ≡ contents empty other))
    × ((sp_insert empty (key 7) (row 7)).1 ≡ false → one_row ≡ empty)
unfolding make_spage
sp_insert-contents_example =
    sp_insert-contents OrderingType.ulong empty (key 7) (row 7) empty-IsValid (omega arith)
      (λ i h. elim h [ ]) (omega arith) (omega arith)

sp_delete-IsValid_example : IsValid OrderingType.ulong (sp_delete one_row (key 7)).0
sp_delete-IsValid_example =
    sp_delete-IsValid OrderingType.ulong one_row (key 7) one_row-IsValid (omega arith)

sp_delete-contents_example :
    (contents (sp_delete one_row (key 7)).0 (key 7) ≡ none)
    × ((other : OrderingKey)
        → KeyOf OrderingType.ulong other
        → other ≢ key 7
        → contents (sp_delete one_row (key 7)).0 other ≡ contents one_row other)
    × ((contents one_row (key 7) ≡ none) × (sp_delete one_row (key 7) ≡ (one_row, false))
        ⊎ (contents one_row (key 7) ≢ none) × ((sp_delete one_row (key 7)).1 ≡ true))
sp_delete-contents_example =
    sp_delete-contents OrderingType.ulong one_row (key 7) one_row-IsValid (omega arith)

search_slot_array-Splits_example :
    Splits one_row.slots (key 9) one_row.num_records (search_slot_array one_row (key 9))
search_slot_array-Splits_example =
    search_slot_array-Splits OrderingType.ulong one_row (key 9) one_row-IsValid.ordered
      (omega arith)

lacks_three : (i : ℕ) → i < one_row.num_records → key_code (one_row.slots i).id ≢ key_code (key 3)
unfolding make_spage sp_insert compare_ordering_keys key_code
lacks_three zero h e = omega (arith, e)
lacks_three (suc i) h e = omega (arith, h)

two_rows-IsValid : IsValid OrderingType.ulong two_rows
two_rows-IsValid =
    sp_insert-IsValid OrderingType.ulong one_row (key 3) (row 3) one_row-IsValid (omega arith)
      lacks_three (unfold make_spage sp_insert in (omega arith))
      (unfold make_spage sp_insert in (omega arith))

-- The records of the keys 3 and 7 are divided.
sp_split-IsDivided_example :
    IsValid OrderingType.ulong (sp_split two_rows empty 1).0
    × IsValid OrderingType.ulong (sp_split two_rows empty 1).1
    × IsDivided two_rows 1 (sp_split two_rows empty 1).0 (sp_split two_rows empty 1).1
unfolding make_spage sp_insert
sp_split-IsDivided_example =
    sp_split-IsDivided OrderingType.ulong two_rows two_rows-IsValid empty empty-IsValid refl refl 1

moves_one : contents (sp_split two_rows empty 1).1 (key 7) ≡ some (number 7 ∷ number 14 ∷ [])
unfolding contents sp_read sp_insert make_spage compare_ordering_keys sp_split
moves_one = refl

-- The number 7 becomes 9, and the entry behind it stays.
abbrev one_entry : SpRecord
one_entry = record { entries = λ _. number 9; len = 1; size = 1 }

sp_update-contents_example :
    ((sp_update one_row (key 7) one_entry).1 ≡ true)
    × IsValid OrderingType.ulong (sp_update one_row (key 7) one_entry).0
    × (contents (sp_update one_row (key 7) one_entry).0 (key 7) ≡ some (number 9 ∷ number 14 ∷ []))
    × ((other : OrderingKey)
        → KeyOf OrderingType.ulong other
        → key_code other ≢ key_code (key 7)
        → contents (sp_update one_row (key 7) one_entry).0 other ≡ contents one_row other)
unfolding make_spage sp_insert total
sp_update-contents_example =
    sp_update-contents OrderingType.ulong one_row one_row-IsValid (key 7) (omega arith) 0
      (omega arith) refl one_entry (omega arith) refl (omega arith)
