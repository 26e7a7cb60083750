-- ===== src/Storage/Tree/Shape.antt =====
-- A well-formed B+ tree, and the keys that each of its pages is for, in their order.
use stripe_sql.Prelude.{
  ℕ, zero, suc, ◌+◌, ◌-◌, ◌<◌, ◌≤◌, ◌≡◌, ◌≢◌, refl, some, true, false, ◌&&◌, List, [], ◌∷◌, ◌++◌,
  leb, if◌then◌else◌, arith, ap,
}
use stripe_sql.Storage.Ordering.{OrderingType}
use stripe_sql.Storage.Ordering.Code.{KeyOf, key_code}
use stripe_sql.Storage.Cache.{Node}
use stripe_sql.Storage.Tree.{Nodes}

-- A page and the codes of the keys it is for, from `low` up to `bound`.
pub record Range : Type 0 where
  pub low : ℕ
  pub bound : ℕ
  pub page : ℕ

-- The page that is for the key with this code, and 0 if there is none.
abbrev pub look_up : ℕ → List Range → ℕ
look_up code [] = 0
look_up code (r ∷ rs) = if leb r.low code && leb code r.bound then r.page else look_up code rs

-- The ranges of `k` pages of a leaf from page `i` on.
abbrev pub leaf_ranges : Node → ℕ → ℕ → ℕ → List Range
leaf_ranges n low i zero = []
leaf_ranges n low i (suc k) =
    record { low = low; bound = key_code (n.keys i); page = n.children i }
    ∷ leaf_ranges n (key_code (n.keys i) + 1) (i + 1) k

-- The first `k` keys are of the table's type and in increasing order.
pub record AreKeys (type : OrderingType) (n : Node) (k : ℕ) : Type 0 where
  pub keys : (i : ℕ) → i < k → KeyOf type (n.keys i)
  pub sorted : (i j : ℕ) → i < j → j < k → key_code (n.keys i) < key_code (n.keys j)

abbrev pub AreFrom : ℕ → List Range → Type 0
AreFrom low [] = Unit
AreFrom low (r ∷ rs) = (low ≤ r.low) × AreFrom low rs

abbrev pub AreUpTo : ℕ → List Range → Type 0
AreUpTo bound [] = Unit
AreUpTo bound (r ∷ rs) = (r.bound ≤ bound) × AreUpTo bound rs

-- The `k` children from child `i` on are trees, each but the last within the key between it and the next.
pub data AreChildren (n : Node) (T : ℕ → ℕ → List Range → Type 0)
    : ℕ → ℕ → ℕ → List Range → Type 0 where
  last :
      {i low : ℕ} {rs : List Range}
      → T (n.children i) low rs
      → AreFrom low rs
      → AreChildren n T i 1 low rs
  child :
      {i k low : ℕ} {rs rest : List Range}
      → T (n.children i) low rs
      → AreFrom low rs
      → AreUpTo (key_code (n.keys i)) rs
      → low ≤ key_code (n.keys i) + 1
      → AreChildren n T (i + 1) (suc k) (key_code (n.keys i) + 1) rest
      → AreChildren n T i (suc (suc k)) low (rs ++ rest)

-- A tree of height `h` at the address, for keys from `low` on, with the ranges of its pages.
abbrev pub IsTree : Nodes → OrderingType → ℕ → ℕ → ℕ → List Range → Type 0
IsTree nodes type zero addr low rs =
    (n : Node) × (nodes addr ≡ some n)
    × (addr ≢ 0)
    × (n.is_leaf ≡ true)
    × AreKeys type n n.child_count
    × (rs ≡ leaf_ranges n low 0 n.child_count)
IsTree nodes type (suc h) addr low rs =
    (n : Node) × (nodes addr ≡ some n)
    × (n.is_leaf ≡ false)
    × (0 < n.child_count)
    × AreKeys type n (n.child_count - 1)
    × AreChildren n (IsTree nodes type h) 0 n.child_count low rs

pub look_up-below :
    (code : ℕ) (rs rest : List Range) (bound : ℕ)
    → AreUpTo bound rs
    → bound < code
    → look_up code (rs ++ rest) ≡ look_up code rest
look_up-below code [] rest bound u l = refl
look_up-below code (r ∷ rs) rest bound u l =
    ground (arith, u.0, l, look_up-below code rs rest bound u.1 l)

pub look_up-none :
    (code : ℕ) (rs : List Range) (low : ℕ) → AreFrom low rs → code < low → look_up code rs ≡ 0
look_up-none code [] low u l = refl
look_up-none code (r ∷ rs) low u l = ground (arith, u.0, l, look_up-none code rs low u.1 l)

pub look_up-above :
    (code : ℕ) (rs rest : List Range) (low : ℕ)
    → AreFrom low rest
    → code < low
    → look_up code (rs ++ rest) ≡ look_up code rs
look_up-above code [] rest low u l = look_up-none code rest low u l
look_up-above code (r ∷ rs) rest low u l =
    ap (λ x. if leb r.low code && leb code r.bound then r.page else x)
      (look_up-above code rs rest low u l)

pub AreFrom-append :
    (low high : ℕ) (rs rest : List Range)
    → low ≤ high
    → AreFrom low rs
    → AreFrom high rest
    → AreFrom low (rs ++ rest)
AreFrom-append low high [] [] l f g = tt
AreFrom-append low high [] (r ∷ rs) l f g =
    (omega (arith, g.0, l), AreFrom-append low high [] rs l f g.1)
AreFrom-append low high (r ∷ rs) rest l f g = (f.0, AreFrom-append low high rs rest l f.1 g)

pub AreChildren-AreFrom :
    (n : Node) (T : ℕ → ℕ → List Range → Type 0) {i m low : ℕ} {rs : List Range}
    → AreChildren n T i m low rs
    → AreFrom low rs
AreChildren-AreFrom n T (AreChildren.last t f) = f
AreChildren-AreFrom n T (AreChildren.child {i} {k} {low} {rs} {rest} t f u l others) =
    AreFrom-append low (key_code (n.keys i) + 1) rs rest l f (AreChildren-AreFrom n T others)
