-- ===== src/Storage/Page/Insert/Contents.antt =====
-- What a page holds after `SPInsert`.
use stripe_sql.Prelude.{
  ℕ, ◌+◌, ◌-◌, ◌^◌, ◌<◌, ◌≡◌, ◌≢◌, refl, sym, true, false, ◌∙◌, ap, arith, ltb, leb, ==_refl,
  if◌then◌else◌, Bool-cases, inl, inr, slice, slice-ext, some, List,
}
use stripe_sql.Storage.Ordering.{OrderingType, OrderingKey}
use stripe_sql.Storage.Ordering.Code.{KeyOf, key_code, key_code-injective}
use stripe_sql.Storage.Page.Data.{Entry, SpRecord, SpSlot, SlottedPage, sp_has_room}
use stripe_sql.Storage.Page.Search.{search_slot_array}
use stripe_sql.Storage.Page.Insert.{grow_slots, grow_entries, with_record, place_record, sp_insert}
use stripe_sql.Storage.Page.Valid.{IsValid, used_bytes}
use stripe_sql.Storage.Page.Found.{
  find_key, contents, contents-found, contents-lacking, contents-update_key_bounds, contents-same,
  record_at,
}
use stripe_sql.Storage.Page.Insert.Cells.{inserted}
use stripe_sql.Storage.Page.Insert.Grow.{IsReady, grow-IsReady}
use stripe_sql.Storage.Page.Insert.Keeps.{
  Lacks, Lacks-same, record_bytes, has_room-le, new_slot, place-Splits, count-with_record,
  with_record-slot, with_record-entry, with_record-IsOrdered,
}

-- The entries of a record that a caller passes.
abbrev pub record_entries : SpRecord → List Entry
record_entries r = slice r.entries 0 r.len

module _ (t : OrderingType) (p : SlottedPage) (key : OrderingKey) (r : SpRecord) (v : IsValid t p)
    (k : KeyOf t key) (fresh : Lacks p key) (small : used_bytes p + record_bytes p r < 2 ^ 31) where
  abbrev w : SlottedPage
  w = with_record p key r

  abbrev index : ℕ
  index = search_slot_array p key

  at_index : w.slots index ≡ new_slot t p key r v k fresh small
  at_index =
      with_record-slot t p key r v k fresh small index
        (omega (arith, (place-Splits t p key r v k fresh small).within))
      ∙ ground (arith, ==_refl index)

  new_record : record_at w index ≡ record_entries r
  new_record = rw at_index (
      slice-ext w.entries r.entries p.num_entries 0 r.len (λ j h.
        with_record-entry t p key r v k fresh small (p.num_entries + j)
        ∙ ground (arith, h, ap r.entries (back j))))
    where
      back : (j : ℕ) → 0 + (p.num_entries + j - p.num_entries) ≡ 0 + j
      back j = omega arith

  -- The key has the record that was put in.
  pub place_record_self : contents (place_record p key r) key ≡ some (record_entries r)
  unfolding place_record
  place_record_self =
      contents-update_key_bounds w key
      ∙ contents-found t w key (with_record-IsOrdered t p key r v k fresh small) k index
          (omega (
            arith,
            count-with_record t p key r v k fresh small,
            (place-Splits t p key r v k fresh small).within,
          ))
          (ap (λ (x : SpSlot). key_code x.id) at_index)
      ∙ ap some new_record

  -- Where the record at slot `i` is after the insertion.
  abbrev moved : ℕ → ℕ
  moved i = if ltb i index then i else i + 1

  moved-slot : (i : ℕ) → i < p.num_records → w.slots (moved i) ≡ p.slots i
  moved-slot i h =
      with_record-slot t p key r v k fresh small (moved i) (ground (arith, h)) ∙ ground arith

  moved-record : (i : ℕ) → i < p.num_records → record_at w (moved i) ≡ record_at p i
  moved-record i h = rw (moved-slot i h) (
      slice-ext w.entries p.entries (p.slots i).ptr (p.slots i).ptr (p.slots i).len (λ j lt.
        with_record-entry t p key r v k fresh small ((p.slots i).ptr + j)
        ∙ ground (arith, v.laid_out.inside i h, lt)))

  -- Every other key has what it had.
  pub place_record_other :
      (other : OrderingKey)
      → KeyOf t other
      → other ≢ key
      → contents (place_record p key r) other ≡ contents p other
  unfolding place_record
  place_record_other other o ne =
      contents-update_key_bounds w other ∙ elim (find_key t p other v.ordered o) [
        | inl (i, h, e) ↦
            contents-found t w other (with_record-IsOrdered t p key r v k fresh small) o (moved i)
              (ground (arith, count-with_record t p key r v k fresh small, h))
              (ap (λ (x : SpSlot). key_code x.id) (moved-slot i h) ∙ e)
            ∙ ap some (moved-record i h)
            ∙ sym (contents-found t p other v.ordered o i h e)
        | inr gone ↦
            contents-lacking t w other (with_record-IsOrdered t p key r v k fresh small) o (λ i h.
              rw
                (with_record-slot t p key r v k fresh small i
                  (omega (arith, count-with_record t p key r v k fresh small, h)))
                (still gone i (omega (arith, count-with_record t p key r v k fresh small, h))))
            ∙ sym (contents-lacking t p other v.ordered o gone)
      ]
    where
      still :
          ((i : ℕ) → i < p.num_records → key_code (p.slots i).id ≢ key_code other)
          → (i : ℕ) → i < p.num_records + 1
          → key_code (inserted p.slots index (new_slot t p key r v k fresh small) i).id
            ≢ key_code other
      still gone i h e = ground (
        arith,
        e,
        gone i,
        gone (i - 1),
        λ (x : key_code other ≡ key_code key). ne (key_code-injective t other key o k x),
        (place-Splits t p key r v k fresh small).within,
      )

-- `SPInsert` puts a record in exactly if the bytes in use and the record's own fit in the page.
-- If it does, the page has the record under its key, and under every other key what it had; if it
-- does not, the page is as it was.
pub sp_insert-contents :
    (t : OrderingType) (p : SlottedPage) (key : OrderingKey) (r : SpRecord)
    → IsValid t p
    → KeyOf t key
    → Lacks p key
    → record_bytes p r < 2 ^ 31
    → p.arr_cap < 2 ^ 31
    → ((sp_insert p key r).1 ≡ leb (used_bytes p + record_bytes p r) p.arr_cap)
      × ((sp_insert p key r).1 ≡ true
          → (contents (sp_insert p key r).0 key ≡ some (record_entries r))
            × ((other : OrderingKey)
                → KeyOf t other
                → other ≢ key
                → contents (sp_insert p key r).0 other ≡ contents p other))
      × ((sp_insert p key r).1 ≡ false → (sp_insert p key r).0 ≡ p)
sp_insert-contents t p key r v k fresh f c = elim (Bool-cases (sp_has_room p r.size r.len)) [
  | inr full ↦
      unfold sp_insert in
      rw full (
        ground (arith, has_room-le p r v.small f, full),
        (λ e. absurd (ground (arith, e))),
        (λ _. refl),
      )
  | inl room ↦
      let q : SlottedPage = grow_entries (grow_slots p) r.len in
      let g : IsReady t p r.len q = grow-IsReady t p r.len v (omega (arith, v.small, f)) in
      let fits : used_bytes q + record_bytes q r < 2 ^ 31 =
        ground (arith, has_room-le p r v.small f, room, c, g.same_bytes, g.same_key_size) in
      let lacks : Lacks q key = Lacks-same p q key g.same fresh in
      unfold sp_insert in
      rw room (
        ground (arith, has_room-le p r v.small f, room),
        (λ _. (
          place_record_self t q key r g.valid k lacks fits,
          (λ other o ne.
              place_record_other t q key r g.valid k lacks fits other o ne
              ∙ contents-same t p q other v g.valid g.same o),
        )),
        (λ e. absurd (ground (arith, e))),
      )
]
