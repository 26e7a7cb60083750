-- ===== src/Tests.antt =====
-- Runs on concrete inputs, and each theorem at an input that meets its hypotheses.
mod BytesTests
mod OrderingTests
mod PageTests
mod WalTests
mod CacheTests
mod LexerTests
mod TreeTests
mod ChunkTests
mod TableTests
