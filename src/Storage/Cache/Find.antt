-- ===== src/Storage/Cache/Find.antt =====
-- What probing finds in the table of the node cache.
use native.Mathlib.Nat.{mod-lt}
use stripe_sql.Prelude.{
  ℕ, ◌+◌, ◌%◌, ◌<◌, ◌≤◌, ◌≡◌, ◌≢◌, inl, inr, sym, ap, ◌∙◌, subst, arith, ltb, Bool-cases, ltb→lt,
  ltb→le,
}
use stripe_sql.Storage.Cache.{NodeCache, home_slot, find_slot}
use stripe_sql.Storage.Cache.Probe.{
  IsCache, addr_at, room, Reaches, Stops, First, find_loop-First, home-lt, distance,
}

module _ (c : NodeCache) (v : IsCache c) where
  -- `findSlot` comes to a slot of the table that is empty or has the address.
  pub find_slot-First :
      (addr d : ℕ)
      → d < c.slot_count
      → Stops c.slots addr ((home_slot c.slot_count addr + d) % c.slot_count)
      → First c.slots v.log_size c.slot_count v.power v.fits v.some_slots
          (find_slot c addr)
          addr
          (home_slot c.slot_count addr)
          d
  unfolding find_slot
  find_slot-First addr d h st =
      find_loop-First c.slots v.log_size c.slot_count v.power v.fits v.some_slots c.slot_count addr
        (home_slot c.slot_count addr) d h
        (home-lt c.slots v.log_size c.slot_count v.power v.fits v.some_slots addr) st

  pub empty_one : (e : ℕ) × (e < c.slot_count) × (addr_at c.slots e ≡ 0)
  empty_one = room c.slots c.slot_count (omega (arith, v.counted, v.bounded, v.half, v.some_slots))

  -- There is always a slot to stop at, and probing for a node comes to it.
  pub find_slot-Stops :
      (addr : ℕ)
      → (find_slot c addr < c.slot_count)
        × Stops c.slots addr (find_slot c addr)
        × Reaches c.slots c.slot_count (home_slot c.slot_count addr) (find_slot c addr)
  find_slot-Stops addr =
      let (e, lt, z) = empty_one in
      let (d, dl, at) =
        distance c.slots v.log_size c.slot_count v.power v.fits v.some_slots
          (home_slot c.slot_count addr) e
          (home-lt c.slots v.log_size c.slot_count v.power v.fits v.some_slots addr) lt in
      let (s, le, found, st, full) =
        find_slot-First addr d dl (inl (ap (addr_at c.slots) at ∙ z)) in
      (
        subst (λ i. i < c.slot_count) (sym found)
            (mod-lt (home_slot c.slot_count addr + s) v.some_slots),
        subst (Stops c.slots addr) (sym found) st,
        (s, omega (arith, le, dl), sym found, full),
      )

  -- The slot that has the address is the one that is found.
  pub find_slot-found :
      (i : ℕ) → i < c.slot_count → addr_at c.slots i ≢ 0 → find_slot c (addr_at c.slots i) ≡ i
  find_slot-found i h f =
      let (d, dl, at, full) = v.reach i h f in
      let (s, le, found, st, before) =
        find_slot-First (addr_at c.slots i) d dl (inr (ap (addr_at c.slots) at)) in
      found ∙ same d at full s le st
    where
      home : ℕ
      home = home_slot c.slot_count (addr_at c.slots i)

      same :
          (d : ℕ)
          → (home + d) % c.slot_count ≡ i
          → ((k : ℕ) → k < d → addr_at c.slots ((home + k) % c.slot_count) ≢ 0)
          → (s : ℕ) → s ≤ d
          → Stops c.slots (addr_at c.slots i) ((home + s) % c.slot_count)
          → (home + s) % c.slot_count ≡ i
      same d at full s le (inl z) = elim (Bool-cases (ltb s d)) [
        | inl x ↦ absurd (full s (ltb→lt s d x) z)
        | inr x ↦ ap (λ t. (home + t) % c.slot_count) (omega (arith, le, ltb→le s d x)) ∙ at
      ]
      same d at full s le (inr e) =
          sym (v.unique i ((home + s) % c.slot_count) h (mod-lt (home + s) v.some_slots) f (sym e))
