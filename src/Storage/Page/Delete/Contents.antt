-- ===== src/Storage/Page/Delete/Contents.antt =====
-- What a page holds after `SPDelete`.
use stripe_sql.Prelude.{
  ℕ, suc, ◌+◌, ◌-◌, ◌<◌, ◌≤◌, ◌≡◌, ◌≢◌, refl, sym, true, false, ◌∙◌, ap, arith, ltb, if◌then◌else◌,
  inl, inr, slice-ext, ◌⊎◌, some, none,
}
use stripe_sql.Storage.Ordering.{OrderingType, OrderingKey}
use stripe_sql.Storage.Ordering.Code.{KeyOf, key_code, key_code-injective}
use stripe_sql.Storage.Page.Data.{SlottedPage}
use stripe_sql.Storage.Page.Delete.{without_record, remove_record, sp_delete}
use stripe_sql.Storage.Page.Valid.{IsValid, IsLaidOut}
use stripe_sql.Storage.Page.Found.{
  find_key, search-found, is_missing-found, is_missing-lacking, contents, contents-found,
  contents-lacking, contents-update_key_bounds, record_at,
}
use stripe_sql.Storage.Page.Delete.Cells.{apart_from}
use stripe_sql.Storage.Page.Delete.Keeps.{
  count-without_record, without_record-slot, without_record-entry, without_record-IsOrdered,
  laid_out,
}

module _ (t : OrderingType) (p : SlottedPage) (v : IsValid t p) (m index : ℕ)
    (count : p.num_records ≡ suc m) (here : index < suc m) where
  abbrev w : SlottedPage
  w = without_record p index

  -- Where the record at slot `i` is after the deletion.
  abbrev moved : ℕ → ℕ
  moved i = if ltb i index then i else i - 1

  moved-slot :
      (i : ℕ)
      → i < suc m
      → i ≢ index
      → ((w.slots (moved i)).id ≡ (p.slots i).id)
        × ((w.slots (moved i)).len ≡ (p.slots i).len)
        × ((w.slots (moved i)).ptr ≡ (
            if ltb (p.slots index).ptr (p.slots i).ptr
            then (p.slots i).ptr - (p.slots index).len
            else (p.slots i).ptr))
  moved-slot i h ne = ground (arith, here, without_record-slot t p v m index count here (moved i))

  moved-entry :
      (i j : ℕ)
      → i < suc m
      → i ≢ index
      → j < (p.slots i).len
      → w.entries (
          (if ltb (p.slots index).ptr (p.slots i).ptr
            then (p.slots i).ptr - (p.slots index).len
            else (p.slots i).ptr)
          + j)
        ≡ p.entries ((p.slots i).ptr + j)
  moved-entry i j h ne lt =
      let laid : IsLaidOut p.slots (suc m) p.num_entries = laid_out t p v m index count here in
      let back : (a b : ℕ) → b ≤ a → a - b + j + b ≡ a + j = λ a b le. omega arith in
      ground (
        arith,
        lt,
        apart_from t p.slots m index here p.num_entries laid i h ne,
        laid.inside i h,
        laid.inside index here,
        without_record-entry t p v m index count here ((p.slots i).ptr - (p.slots index).len + j),
        without_record-entry t p v m index count here ((p.slots i).ptr + j),
        back (p.slots i).ptr (p.slots index).len,
      )

  moved-record : (i : ℕ) → i < suc m → i ≢ index → record_at w (moved i) ≡ record_at p i
  moved-record i h ne =
      let (_, len, ptr) = moved-slot i h ne in
      rw (len, ptr)
        (slice-ext w.entries p.entries _ (p.slots i).ptr (p.slots i).len
          (λ j lt. moved-entry i j h ne lt))

  distinct : (i : ℕ) → i < suc m → i ≢ index → key_code (p.slots i).id ≢ key_code (p.slots index).id
  distinct i h ne = ground (arith, here, count, v.ordered.sorted i index, v.ordered.sorted index i)

  -- No slot that is left has the key of the one that is gone.
  left_id : (i : ℕ) → i < m → (w.slots i).id ≡ (p.slots (if ltb i index then i else i + 1)).id
  left_id i h = ground (arith, h, without_record-slot t p v m index count here i h)

  pub remove_record_self :
      (key : OrderingKey)
      → KeyOf t key
      → key_code (p.slots index).id ≡ key_code key
      → contents (remove_record p index) key ≡ none
  unfolding remove_record
  remove_record_self key k e =
      contents-update_key_bounds w key
      ∙ contents-lacking t w key (without_record-IsOrdered t p v m index count here) k
          (λ i h. gone i (omega (arith, count-without_record t p v m index count here, h)))
    where
      gone : (i : ℕ) → i < m → key_code (w.slots i).id ≢ key_code key
      gone i h =
          rw (left_id i h) (ground (arith, h, e, distinct (if ltb i index then i else i + 1)))

  pub remove_record_other :
      (other : OrderingKey)
      → KeyOf t other
      → key_code (p.slots index).id ≢ key_code other
      → contents (remove_record p index) other ≡ contents p other
  unfolding remove_record
  remove_record_other other o ne =
      contents-update_key_bounds w other ∙ elim (find_key t p other v.ordered o) [
        | inl (i, h, e) ↦
            let h' : i < suc m = omega (arith, h, count) in
            let apart : i ≢ index = (λ same. ne (rw same at e)) in
            contents-found t w other (without_record-IsOrdered t p v m index count here) o (moved i)
              (ground (arith, count-without_record t p v m index count here, h', here, apart))
              (ap key_code (moved-slot i h' apart).0 ∙ e)
            ∙ ap some (moved-record i h' apart)
            ∙ sym (contents-found t p other v.ordered o i h e)
        | inr gone ↦
            contents-lacking t w other (without_record-IsOrdered t p v m index count here) o (λ i h.
              still gone i (omega (arith, count-without_record t p v m index count here, h)))
            ∙ sym (contents-lacking t p other v.ordered o gone)
      ]
    where
      still :
          ((i : ℕ) → i < p.num_records → key_code (p.slots i).id ≢ key_code other)
          → (i : ℕ) → i < m
          → key_code (w.slots i).id ≢ key_code other
      still gone i h =
          rw (left_id i h) (gone (if ltb i index then i else i + 1) (ground (arith, h, count)))

-- `SPDelete` takes a record out exactly if the page has one under the key. Afterwards the page has
-- nothing under it, and under every other key what it had; if there was no record, the page is as
-- it was.
pub sp_delete-contents :
    (t : OrderingType) (p : SlottedPage) (key : OrderingKey)
    → IsValid t p
    → KeyOf t key
    → (contents (sp_delete p key).0 key ≡ none)
      × ((other : OrderingKey)
          → KeyOf t other
          → other ≢ key
          → contents (sp_delete p key).0 other ≡ contents p other)
      × ((contents p key ≡ none) × ((sp_delete p key) ≡ (p, false))
          ⊎ (contents p key ≢ none) × ((sp_delete p key).1 ≡ true))
unfolding sp_delete
sp_delete-contents t p key v k = elim (find_key t p key v.ordered k) [
  | inr gone ↦ rw (is_missing-lacking t p key v.ordered k gone) (
    contents-lacking t p key v.ordered k gone,
    (λ other o ne. refl),
    inl (contents-lacking t p key v.ordered k gone, refl),
  )
  | inl (i, h, e) ↦
      rw (search-found t p key v.ordered k i h e, is_missing-found t p key v.ordered k i h e)
        (
          remove_record_self t p v (p.num_records - 1) i (omega (arith, h)) (omega (arith, h)) key k
              e,
          (λ other o ne.
              remove_record_other t p v (p.num_records - 1) i (omega (arith, h)) (omega (arith, h))
                other o (λ same. ne (key_code-injective t other key o k (sym same ∙ e)))),
          inr ((λ z. cc (contents-found t p key v.ordered k i h e)), refl),
        )
]
