-- ===== src/Storage/Cache/Gap.antt =====
-- A table with a hole in a run of full slots, and distances on the ring of slots.
use native.Mathlib.Nat.{mod-add-mod, mod-eq_of_lt, add-mod_right}
use stripe_sql.Prelude.{
  ℕ, ◌+◌, ◌-◌, ◌%◌, ◌<◌, ◌≤◌, ◌≡◌, ◌≢◌, ◌⊎◌, inl, inr, sym, ap, ◌∙◌, arith, Array, put, ltb, leb,
  if◌then◌else◌, Bool-cases, ltb→lt, ltb→le,
}
use stripe_sql.Storage.Cache.{NodeCacheSlot, no_slot, home_slot}
use stripe_sql.Storage.Cache.Probe.{addr_at, Reaches}

-- The table with the hole empty.
abbrev pub holed : Array NodeCacheSlot → ℕ → Array NodeCacheSlot
holed slots hole = put slots hole no_slot

-- Like `Reaches`, but probing may pass the hole.
abbrev pub Through : Array NodeCacheSlot → ℕ → ℕ → ℕ → ℕ → Type 0
Through slots n hole p i =
    (d : ℕ) × (d < n)
    × ((p + d) % n ≡ i)
    × ((k : ℕ) → k < d → (addr_at slots ((p + k) % n) ≢ 0) ⊎ ((p + k) % n ≡ hole))

-- The distance from slot `a` on to slot `b`.
abbrev pub ahead : ℕ → ℕ → ℕ → ℕ
ahead n a b = if leb a b then b - a else b + n - a

-- `slots` with its hole, when the loop has come `e` slots behind it.
pub record IsGap (slots : Array NodeCacheSlot) (n hole e : ℕ) : Type 0 where
  pub within : hole < n
  pub started : 0 < e
  pub full : (k : ℕ) → 0 < k → k < e → addr_at slots ((hole + k) % n) ≢ 0
  pub through :
      (i : ℕ)
      → i < n
      → i ≢ hole
      → addr_at slots i ≢ 0
      → Through slots n hole (home_slot n (addr_at slots i)) i
  pub strong :
      (k : ℕ)
      → 0 < k
      → k < e
      → Reaches (holed slots hole) n (home_slot n (addr_at slots ((hole + k) % n))) ((hole + k) % n)

pub mod_small :
    (n a x : ℕ) → a < n → x < n → (a + x) % n ≡ (if ltb (a + x) n then a + x else a + x - n)
mod_small n a x h l = elim (Bool-cases (ltb (a + x) n)) [
  | inl y ↦ rw y (mod-eq_of_lt (ltb→lt (a + x) n y))
  | inr y ↦ rw y (
      ap (λ t. t % n) (back_again (ltb→le (a + x) n y))
      ∙ add-mod_right (a + x - n) n
      ∙ mod-eq_of_lt (omega (arith, h, l, ltb→le (a + x) n y)))
]
  where
    back_again : n ≤ a + x → a + x ≡ a + x - n + n
    back_again le = omega (arith, le)

pub cancel : (n a x y : ℕ) → a < n → x < n → y < n → (a + x) % n ≡ (a + y) % n → x ≡ y
cancel n a x y h l m e = ground (arith, h, l, m, e, mod_small n a x h l, mod_small n a y h m)

pub ahead-lt : (n a b : ℕ) → a < n → b < n → ahead n a b < n
ahead-lt n a b h l = ground (arith, h, l)

pub ahead-mod : (n a b : ℕ) → a < n → b < n → (a + ahead n a b) % n ≡ b
ahead-mod n a b h l = mod_small n a (ahead n a b) h (ahead-lt n a b h l) ∙ ground (arith, h, l)

pub ahead_only : (n a b d : ℕ) → a < n → b < n → d < n → (a + d) % n ≡ b → d ≡ ahead n a b
ahead_only n a b d h l m e =
    cancel n a d (ahead n a b) h m (ahead-lt n a b h l) (e ∙ sym (ahead-mod n a b h l))

-- From the hole, what lies `m` further than a slot that is the hole.
pub from_hole : (n p k m hole : ℕ) → (p + k) % n ≡ hole → (hole + m) % n ≡ (p + (k + m)) % n
from_hole n p k m hole e =
    ap (λ t. (t + m) % n) (sym e) ∙ mod-add-mod (p + k) n m ∙ ap (λ t. t % n) (omega arith)
