-- ===== src/Storage/Cache/Probe.antt =====
-- The table of the node cache when it is well-formed, and the loop of `findSlot` on it.
use native.Mathlib.Nat.{mod-add-mod, mod-lt, mod-eq_of_lt, add-mod_right}
use stripe_sql.Prelude.{
  ℕ, zero, suc, ◌+◌, ◌-◌, ◌*◌, ◌/◌, ◌%◌, ◌^◌, ◌<◌, ◌≤◌, ◌≡◌, ◌≢◌, ◌⊎◌, inl, inr, refl, sym, ap, ◌∙◌,
  subst, arith, Bool, true, false, ◌||◌, Array, ltb, ◌==◌, if◌then◌else◌, Bool-cases, ==_iff,
}
use stripe_sql.Prelude.Bits.{bit_and-mask}
use stripe_sql.Prelude.Word.{u32}
use stripe_sql.Storage.Cache.{NodeCacheSlot, NodeCache, wrapped, home_slot, find_loop}

abbrev pub addr_at : Array NodeCacheSlot → ℕ → ℕ
addr_at slots i = (slots i).addr

-- How many of the first `n` slots hold a node.
abbrev pub occupied : Array NodeCacheSlot → ℕ → ℕ
occupied slots zero = 0
occupied slots (suc n) = (if addr_at slots n == 0 then 0 else 1) + occupied slots n

pub room :
    (slots : Array NodeCacheSlot) (n : ℕ)
    → occupied slots n < n
    → (e : ℕ) × (e < n) × (addr_at slots e ≡ 0)
room slots zero h = absurd (omega (arith, h))
room slots (suc n) h = elim (Bool-cases (addr_at slots n == 0)) [
  | inl x ↦ (n, omega arith, (==_iff (addr_at slots n) 0).0 x)
  | inr x ↦ let (e, lt, z) = room slots n (ground (arith, h, x)) in (e, omega (arith, lt), z)
]

-- Probing from slot `p` passes only full slots before it comes to slot `i`.
abbrev pub Reaches : Array NodeCacheSlot → ℕ → ℕ → ℕ → Type 0
Reaches slots n p i =
    (d : ℕ) × (d < n) × ((p + d) % n ≡ i) × ((k : ℕ) → k < d → addr_at slots ((p + k) % n) ≢ 0)

-- The table: its size is a power of two, twice the nodes it may hold, each node is where probing
-- for it comes to, and no address is there twice.
pub record IsCache (c : NodeCache) : Type 0 where
  pub log_size : ℕ
  pub power : c.slot_count ≡ 2 ^ log_size
  pub fits : c.slot_count ≤ 2 ^ 31
  pub some_slots : 0 < c.slot_count
  pub half : 2 * c.max_nodes ≤ c.slot_count
  pub bounded : c.count ≤ c.max_nodes
  pub counted : c.count ≡ occupied c.slots c.slot_count
  pub reach :
      (i : ℕ)
      → i < c.slot_count
      → addr_at c.slots i ≢ 0
      → Reaches c.slots c.slot_count (home_slot c.slot_count (addr_at c.slots i)) i
  pub unique :
      (i j : ℕ)
      → i < c.slot_count
      → j < c.slot_count
      → addr_at c.slots i ≢ 0
      → addr_at c.slots i ≡ addr_at c.slots j
      → i ≡ j

-- Where the probing for `addr` stops.
abbrev pub Stops : Array NodeCacheSlot → ℕ → ℕ → Type 0
Stops slots addr i = (addr_at slots i ≡ 0) ⊎ (addr_at slots i ≡ addr)

module _ (slots : Array NodeCacheSlot) (k n : ℕ) (power : n ≡ 2 ^ k) (fits : n ≤ 2 ^ 31)
    (pos : 0 < n) where
  pub wrapped-mod : (x : ℕ) → wrapped n x ≡ x % n
  wrapped-mod x = subst (λ m. wrapped m x ≡ x % m) (sym power) (bit_and-mask k x)

  pub next : (p : ℕ) → p < n → wrapped n (u32 (p + 1)) ≡ (p + 1) % n
  next p h = wrapped-mod (u32 (p + 1)) ∙ ap (λ x. x % n) small
    where
      small : u32 (p + 1) ≡ p + 1
      small = omega (arith, h, fits)

  step_on : (p d : ℕ) → ((p + 1) % n + d) % n ≡ (p + suc d) % n
  step_on p d = mod-add-mod (p + 1) n d ∙ ap (λ x. x % n) (omega arith)

  at_start : (p : ℕ) → p < n → (p + 0) % n ≡ p
  at_start p h = ap (λ x. x % n) (omega arith) ∙ mod-eq_of_lt h

  is_stop : ℕ → ℕ → Bool
  is_stop addr p = (slots p).addr == 0 || (slots p).addr == addr

  is_stop-Stops : (addr p : ℕ) → is_stop addr p ≡ true → Stops slots addr p
  unfolding is_stop
  is_stop-Stops addr p h = elim (Bool-cases ((slots p).addr == 0)) [
    | inl x ↦ inl ((==_iff (slots p).addr 0).0 x)
    | inr x ↦ inr (ground (arith, h, x))
  ]

  Stops-is_stop : (addr p : ℕ) → Stops slots addr p → is_stop addr p ≡ true
  unfolding is_stop
  Stops-is_stop addr p (inl x) = ground (arith, x)
  Stops-is_stop addr p (inr x) = ground (arith, x)

  find_loop-here :
      (fuel addr p : ℕ) → is_stop addr p ≡ true → find_loop (suc fuel) slots n addr p ≡ p
  unfolding find_loop is_stop
  find_loop-here fuel addr p x = rw x refl

  find_loop-on :
      (fuel addr p : ℕ)
      → p < n
      → is_stop addr p ≡ false
      → find_loop (suc fuel) slots n addr p ≡ find_loop fuel slots n addr ((p + 1) % n)
  unfolding find_loop is_stop
  find_loop-on fuel addr p h x = rw x (ap (find_loop fuel slots n addr) (next p h))

  -- The probing stops at slot `s` places on, and passed only full slots before.
  abbrev pub First : ℕ → ℕ → ℕ → ℕ → Type 0
  First found addr p d =
      (s : ℕ) × (s ≤ d)
      × (found ≡ (p + s) % n)
      × Stops slots addr ((p + s) % n)
      × ((j : ℕ) → j < s → addr_at slots ((p + j) % n) ≢ 0)

  further :
      (found addr p d : ℕ)
      → p < n
      → is_stop addr p ≡ false
      → First found addr ((p + 1) % n) d
      → First found addr p (suc d)
  further found addr p d h x (s, le, e, st, full) =
      (suc s, omega (arith, le), e ∙ step_on p s, subst (Stops slots addr) (step_on p s) st, before)
    where
      before : (j : ℕ) → j < suc s → addr_at slots ((p + j) % n) ≢ 0
      before zero lt z =
          ground (
            arith,
            x,
            Stops-is_stop addr p (inl (subst (λ i. addr_at slots i ≡ 0) (at_start p h) z)),
          )
      before (suc j) lt z =
          full j (omega (arith, lt)) (subst (λ i. addr_at slots i ≡ 0) (sym (step_on p j)) z)

  -- If the slot `d` places on stops the probing, the loop stops there or before.
  pub find_loop-First :
      (fuel addr p d : ℕ)
      → d < fuel
      → p < n
      → Stops slots addr ((p + d) % n)
      → First (find_loop fuel slots n addr p) addr p d
  find_loop-First zero addr p d h l st = absurd (omega (arith, h))
  find_loop-First (suc fuel) addr p d h l st = elim (Bool-cases (is_stop addr p)) [
    | inl x ↦ (
      0,
      omega arith,
      find_loop-here fuel addr p x ∙ sym (at_start p l),
      subst (Stops slots addr) (sym (at_start p l)) (is_stop-Stops addr p x),
      λ j lt. absurd (omega (arith, lt)),
    )
    | inr x ↦
        subst (λ f. First f addr p d) (sym (find_loop-on fuel addr p l x))
          (later fuel d h x st
            (λ e hd s. find_loop-First fuel addr ((p + 1) % n) e hd (mod-lt (p + 1) pos) s))
  ]
    where
      later :
          (fuel d : ℕ)
          → d < suc fuel
          → is_stop addr p ≡ false
          → Stops slots addr ((p + d) % n)
          → ((e : ℕ)
              → e < fuel
              → Stops slots addr (((p + 1) % n + e) % n)
              → First (find_loop fuel slots n addr ((p + 1) % n)) addr ((p + 1) % n) e)
          → First (find_loop fuel slots n addr ((p + 1) % n)) addr p d
      later fuel zero h x st again =
          ground (arith, x, Stops-is_stop addr p (subst (Stops slots addr) (at_start p l) st))
      later fuel (suc e) h x st again =
          further (find_loop fuel slots n addr ((p + 1) % n)) addr p e l x
            (again e (omega (arith, h)) (subst (Stops slots addr) (sym (step_on p e)) st))

  pub home-lt : (addr : ℕ) → home_slot n addr < n
  unfolding home_slot
  home-lt addr =
      rw (wrapped-mod (addr * 0x9E3779B97F4A7C15 % 2 ^ 64 / 2 ^ 32))
        (mod-lt (addr * 0x9E3779B97F4A7C15 % 2 ^ 64 / 2 ^ 32) pos)

  -- From any slot, each slot is some places on.
  pub distance : (p e : ℕ) → p < n → e < n → (d : ℕ) × (d < n) × ((p + d) % n ≡ e)
  distance p e h l = elim (Bool-cases (ltb e p)) [
    | inl x ↦ (
      e + n - p,
      ground (arith, h, l, x),
      ap (λ t. t % n) (around x) ∙ add-mod_right e n ∙ mod-eq_of_lt l,
    )
    | inr x ↦ (e - p, ground (arith, l), ap (λ t. t % n) (ahead x) ∙ mod-eq_of_lt l)
  ]
    where
      around : ltb e p ≡ true → p + (e + n - p) ≡ e + n
      around x = ground (arith, h, x)

      ahead : ltb e p ≡ false → p + (e - p) ≡ e
      ahead x = ground (arith, x)
