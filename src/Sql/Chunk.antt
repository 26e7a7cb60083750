-- ===== src/Sql/Chunk.antt =====
-- The code that the generator makes for the virtual machine (src/SQL_interpreter/chunk.c), and the array of
-- values of src/value.c that its pools are. A pointer that is NULL points at no cells.
pub mod Pools
use stripe_sql.Prelude.{ℕ, ◌+◌, ◌-◌, Array, put, ltb, if◌then◌else◌}
use stripe_sql.Value.{Value, null}
use stripe_sql.Sql.Lexer.Query.{grow_capacity}

pub record ValueArray : Type 0 where
  pub values : Array Value
  pub capacity : ℕ
  pub count : ℕ

abbrev pub init_value_array : ValueArray
init_value_array = record { values = λ _. null; capacity = 0; count = 0 }

unfoldable pub write_value_array : ValueArray → Value → ValueArray
write_value_array array v = record {
  values = put array.values array.count v;
  capacity =
      if ltb array.capacity (array.count + 1) then grow_capacity array.capacity else array.capacity;
  count = array.count + 1;
}

abbrev pub free_value_array : ValueArray → ValueArray
free_value_array array = init_value_array

pub record Chunk : Type 0 where
  pub code : Array ℕ
  pub capacity : ℕ
  pub count : ℕ
  pub lines : Array ℕ
  pub constants : ValueArray
  pub dynamics : ValueArray

abbrev pub init_chunk : Chunk
init_chunk = record {
  code = λ _. 0;
  capacity = 0;
  count = 0;
  lines = λ _. 0;
  constants = init_value_array;
  dynamics = init_value_array;
}

unfoldable pub write_chunk : Chunk → ℕ → ℕ → Chunk
write_chunk chunk byte line = record chunk {
  capacity =
      if ltb chunk.capacity (chunk.count + 1) then grow_capacity chunk.capacity else chunk.capacity;
  lines = put chunk.lines chunk.count line;
  code = put chunk.code chunk.count byte;
  count = chunk.count + 1;
}

-- The chunk, and the index of the value in its pool.
unfoldable pub add_constant : Chunk → Value → Chunk × ℕ
add_constant chunk v =
    let constants = write_value_array chunk.constants v in
    (record chunk { constants = constants }, constants.count - 1)

unfoldable pub add_dynamic : Chunk → Value → Chunk × ℕ
add_dynamic chunk v =
    let dynamics = write_value_array chunk.dynamics v in
    (record chunk { dynamics = dynamics }, dynamics.count - 1)

abbrev pub free_chunk : Chunk → Chunk
free_chunk chunk = init_chunk
