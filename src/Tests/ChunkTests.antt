-- ===== src/Tests/ChunkTests.antt =====
-- Chunks (chunk.c) on concrete inputs.
use stripe_sql.Prelude.{◌≡◌, refl, arith, true}
use stripe_sql.Value.{boolean, null}
use stripe_sql.Sql.Lexer.Query.{grow_capacity}
use stripe_sql.Sql.Chunk.{Chunk, init_chunk, write_chunk, write_value_array, add_constant}
use stripe_sql.Sql.Chunk.Pools.{IsChunk, KeepsPools, add_constant-KeepsPools}

-- A chunk with one instruction and one constant.
abbrev one_constant : Chunk
one_constant = (add_constant (write_chunk init_chunk 0 1) null).0

one_constant-IsChunk : IsChunk one_constant
unfolding write_chunk write_value_array add_constant grow_capacity
one_constant-IsChunk = record {
  code = omega arith;
  constants = omega arith;
  dynamics = omega arith;
}

add_constant-KeepsPools_example : KeepsPools one_constant (boolean true) 3 2
add_constant-KeepsPools_example =
    add_constant-KeepsPools one_constant (boolean true) 3 2 one_constant-IsChunk

second_constant : (add_constant one_constant (boolean true)).1 ≡ 1
unfolding write_chunk write_value_array add_constant
second_constant = refl
