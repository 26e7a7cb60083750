-- ===== src/Sql.antt =====
-- The front end of src/SQL_interpreter: the lexer, and the code for the virtual machine.
pub mod Token
pub mod Lexer
pub mod Chunk
