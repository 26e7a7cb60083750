-- ===== src/Storage/Page/Update/Contents.antt =====
-- What `SPUpdate` does to the records of a page.
use stripe_sql.Prelude.{
  ℕ, ◌+◌, ◌^◌, ◌≤◌, ◌<◌, ◌≡◌, ◌≢◌, inl, inr, refl, sym, ap, ◌∙◌, arith, slice, ltb, if◌then◌else◌,
  true, false, some,
}
use stripe_sql.Storage.Ordering.{OrderingType, OrderingKey}
use stripe_sql.Storage.Ordering.Code.{KeyOf, key_code}
use stripe_sql.Storage.Page.Data.{SpRecord, SlottedPage}
use stripe_sql.Storage.Page.Valid.{IsValid, total, used_bytes}
use stripe_sql.Storage.Page.Found.{
  search-found, is_missing-found, contents, contents-found, contents-lacking, find_key,
}
use stripe_sql.Storage.Page.Delete.Cells.{le-total}
use stripe_sql.Storage.Page.Update.{update_loop, sp_update}
use stripe_sql.Storage.Page.Update.Replace.{
  Replaced, update_loop-Replaced, Replaced-IsValid, slot_id, record_at-other, record_at-index,
}

-- A page in which the entries of one record have been replaced holds each other record as before.
contents-other :
    (type : OrderingType) (p : SlottedPage) (v : IsValid type p) (index : ℕ)
    (here : index < p.num_records) (r : SpRecord) (q : SlottedPage) (s : Replaced p index r r.len q)
    → IsValid type q
    → r.len ≤ (p.slots index).len
    → (other : OrderingKey) → KeyOf type other
    → key_code (p.slots index).id ≢ key_code other
    → contents q other ≡ contents p other
contents-other type p v index here r q s w fits other k d =
    elim (find_key type p other v.ordered k) [
      | inl (j, h, e) ↦
          contents-found type q other w.ordered k j (omega (arith, s.num_records, h))
            (ap key_code (slot_id type p v index here r q s j) ∙ e)
          ∙ ap some (
              record_at-other type p v index here r q s j h
                (λ same. d (ap (λ n. key_code (p.slots n).id) (sym same) ∙ e)) fits)
          ∙ sym (contents-found type p other v.ordered k j h e)
      | inr gone ↦
          contents-lacking type q other w.ordered k (λ j h.
            rw (slot_id type p v index here r q s j) (gone j (omega (arith, s.num_records, h))))
          ∙ sym (contents-lacking type p other v.ordered k gone)
    ]

module _ (type : OrderingType) (p : SlottedPage) (v : IsValid type p) (key : OrderingKey)
    (k : KeyOf type key) (index : ℕ) (here : index < p.num_records)
    (at_key : key_code (p.slots index).id ≡ key_code key) (r : SpRecord) where
  sp_update-found :
      r.len ≤ (p.slots index).len → sp_update p key r ≡ (update_loop r.len p index r 0, true)
  unfolding sp_update
  sp_update-found fits =
      let room : ltb (p.slots index).len r.len ≡ false = ground (arith, fits) in
      rw
        (
          search-found type p key v.ordered k index here at_key,
          is_missing-found type p key v.ordered k index here at_key,
          room,
        )
        refl

  -- Updating the record of a key in a well-formed page with no more entries than it has, where the size in
  -- its slot is the sum of those of its entries and the counts stay below 2 ^ 31 with the new entries
  -- added, succeeds and leaves the page well-formed. The record then has the new entries in front of those
  -- that it had behind them, and each other key its record as before.
  pub sp_update-contents :
      r.len ≤ (p.slots index).len
      → (p.slots index).size
        ≡ total (λ c. (p.entries ((p.slots index).ptr + c)).size) (p.slots index).len
      → used_bytes p + total (λ c. (r.entries c).size) r.len < 2 ^ 31
      → ((sp_update p key r).1 ≡ true)
        × IsValid type (sp_update p key r).0
        × (contents (sp_update p key r).0 key
            ≡ some (
                slice
                  (λ c. if ltb c r.len then r.entries c else p.entries ((p.slots index).ptr + c))
                  0
                  (p.slots index).len))
        × ((other : OrderingKey)
            → KeyOf type other
            → key_code other ≢ key_code key
            → contents (sp_update p key r).0 other ≡ contents p other)
  sp_update-contents fits sized small = rw (sp_update-found fits) (
    refl,
    w,
    contents-found type q key w.ordered k index (omega (arith, s.num_records, here))
          (ap key_code (slot_id type p v index here r q s index) ∙ at_key)
        ∙ ap some (record_at-index type p v index here r q s),
    (λ other l d.
        contents-other type p v index here r q s w fits other l (λ e. d (sym e ∙ at_key))),
  )
    where
      q : SlottedPage
      q = update_loop r.len p index r 0

      s : Replaced p index r r.len q
      s =
          update_loop-Replaced p index r fits sized
            (omega
              (arith, le-total (λ j. (p.slots j).size) p.num_records index here, v.accounted.sizes))
            (omega (arith, small))

      w : IsValid type q
      w = Replaced-IsValid type p v index here r q s small
