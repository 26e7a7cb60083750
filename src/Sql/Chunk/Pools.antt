-- ===== src/Sql/Chunk/Pools.antt =====
-- What is written to a chunk is written within its arrays, and stays where it is.
use stripe_sql.Prelude.{
  ℕ, ◌+◌, ◌-◌, ◌≤◌, ◌<◌, ◌≡◌, refl, arith, slice, slice-put, subst, ltb, if◌then◌else◌, List, [],
  ◌∷◌, ◌++◌,
}
use stripe_sql.Value.{Value}
use stripe_sql.Sql.Lexer.Query.{grow_capacity}
use stripe_sql.Sql.Chunk.{
  ValueArray, write_value_array, Chunk, write_chunk, add_constant, add_dynamic,
}

-- Each of the arrays has as many cells as it is said to hold.
pub record IsChunk (c : Chunk) : Type 0 where
  pub code : c.count ≤ c.capacity
  pub constants : c.constants.count ≤ c.constants.capacity
  pub dynamics : c.dynamics.count ≤ c.dynamics.capacity

abbrev pub value_list : ValueArray → List Value
value_list a = slice a.values 0 a.count

grown :
    (capacity count : ℕ)
    → count ≤ capacity
    → count + 1 ≤ (if ltb capacity (count + 1) then grow_capacity capacity else capacity)
unfolding grow_capacity
grown capacity count h = ground (arith, h)

last_index : (n : ℕ) → n ≡ n + 1 - 1
last_index n = omega arith

-- A pool after a value has been added at `index`: it is within the pool and holds the value, and the values
-- that were there are still where they were.
pub record IsAdded (old new : ValueArray) (v : Value) (index : ℕ) : Type 0 where
  pub within : index < new.capacity
  pub room : new.count ≤ new.capacity
  pub values : value_list new ≡ value_list old ++ (v ∷ [])
  pub here : new.values index ≡ v
  pub kept : (i : ℕ) → i < old.count → new.values i ≡ old.values i

write_value_array-IsAdded :
    (a : ValueArray) (v : Value)
    → a.count ≤ a.capacity
    → IsAdded a (write_value_array a v) v a.count
unfolding write_value_array
write_value_array-IsAdded a v h = record {
  within = omega (arith, grown a.capacity a.count h);
  room = grown a.capacity a.count h;
  values = slice-put a.values a.count v;
  here = ground arith;
  kept = λ i l. ground (arith, l);
}

-- The two pools, the code and its lines.
pub record SameCode (c d : Chunk) : Type 0 where
  pub code : d.code ≡ c.code
  pub lines : d.lines ≡ c.lines
  pub count : d.count ≡ c.count

-- What the three functions do to a chunk.
abbrev pub KeepsPools : Chunk → Value → ℕ → ℕ → Type 0
KeepsPools c v byte line =
    (IsAdded c.constants (add_constant c v).0.constants v (add_constant c v).1
      × SameCode c (add_constant c v).0
      × ((add_constant c v).0.dynamics ≡ c.dynamics)
      × IsChunk (add_constant c v).0)
    × (IsAdded c.dynamics (add_dynamic c v).0.dynamics v (add_dynamic c v).1
        × SameCode c (add_dynamic c v).0
        × ((add_dynamic c v).0.constants ≡ c.constants)
        × IsChunk (add_dynamic c v).0)
    × ((slice (write_chunk c byte line).code 0 (c.count + 1)
          ≡ slice c.code 0 c.count ++ (byte ∷ []))
        × (slice (write_chunk c byte line).lines 0 (c.count + 1)
            ≡ slice c.lines 0 c.count ++ (line ∷ []))
        × ((write_chunk c byte line).count ≡ c.count + 1)
        × ((write_chunk c byte line).constants ≡ c.constants)
        × ((write_chunk c byte line).dynamics ≡ c.dynamics)
        × IsChunk (write_chunk c byte line))

-- On a chunk with no array over its capacity, `add_constant` and `add_dynamic` return the index of the value
-- in their pool, where the values that are there keep theirs, and `write_chunk` appends the byte and its
-- line. Each leaves the other arrays alone, and no array over its capacity.
pub add_constant-KeepsPools :
    (c : Chunk) (v : Value) (byte line : ℕ) → IsChunk c → KeepsPools c v byte line
unfolding add_constant add_dynamic write_chunk write_value_array
add_constant-KeepsPools c v byte line h = (
  (
    subst (IsAdded c.constants (write_value_array c.constants v) v) (last_index c.constants.count)
        (write_value_array-IsAdded c.constants v h.constants),
    record { code = refl; lines = refl; count = refl },
    refl,
    record {
      code = h.code;
      constants = grown c.constants.capacity c.constants.count h.constants;
      dynamics = h.dynamics;
    },
  ),
  (
    subst (IsAdded c.dynamics (write_value_array c.dynamics v) v) (last_index c.dynamics.count)
        (write_value_array-IsAdded c.dynamics v h.dynamics),
    record { code = refl; lines = refl; count = refl },
    refl,
    record {
      code = h.code;
      constants = h.constants;
      dynamics = grown c.dynamics.capacity c.dynamics.count h.dynamics;
    },
  ),
  (
    slice-put c.code c.count byte,
    slice-put c.lines c.count line,
    refl,
    refl,
    refl,
    record {
      code = grown c.capacity c.count h.code;
      constants = h.constants;
      dynamics = h.dynamics;
    },
  ),
)
