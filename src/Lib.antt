-- ===== src/Lib.antt =====
-- StripeSQL is a relational database in C: a SQL front end (lexer, parser, bytecode generator and
-- virtual machine) over a storage engine (ordering keys, slotted pages, a B+ tree, table files, a
-- node cache and a write-ahead log). This library models the lexer, the chunks
-- of code and the storage engine without the changes to its trees and tables that are pending.
--
-- Prelude.antt has the shared notation: the native natural numbers with Boolean tests, C arrays
-- as functions from an index to the cell, and the laws of the bit operations that the code uses.
--
-- Storage/Bytes.antt is the byte encoding of src/storage_engine/file.c. A buffer is an array of
-- bytes and a pointer into it an index.
--
-- Value.antt is the tagged value of src/value.h. Storage/Ordering.antt is
-- src/storage_engine/ordering.c: `pk_to_ok` is pkToOk, `compare_ordering_keys` is
-- compareOrderingKeys, whose -1, 0 and 1 are `lt`, `eq` and `gt`. A double is its bit pattern.
-- Ordering/Code.antt gives each key a number that orders the keys of one type, so that the
-- proofs about pages and nodes are arithmetic. Ordering/Floating.antt has the number that a bit pattern
-- is, as a multiple of the smallest double.
--
-- Storage/Page.antt is src/storage_engine/page.c. Page/Data.antt has the structs (the header's
-- fields stand in the page itself) and the capacity tests; Page/Search.antt, Page/Insert.antt,
-- Page/Delete.antt, Page/Update.antt and Page/Split.antt have searchSlotArray with its readers,
-- SPInsert, SPDelete, SPUpdate and SPSplit. Counts are `uint32_t` and wrap at 2 ^ 32.
-- Page/Valid.antt has the invariant, Page/Found.antt what the searches find: `contents p k` is
-- the list of entries that SPRead points at. A text or entry that has been freed is the null
-- pointer; memory is otherwise not modelled, and a call is taken to get the memory it asks for.
-- The binary search runs on fuel, one round for each record, which is enough since each round
-- narrows the range.
--
-- Storage/Wal.antt is src/storage_engine/wal.c. Wal/Crc.antt is crc32c_compute, Wal/Entry.antt the
-- entry with buildEntry, serializeEntry and parseEntry, Wal/Files.antt the table directory and
-- applyEntry, Wal/Log.antt the manager with initManager, addLogEntry, markLogCommitted, readEntry,
-- checkSynced and checkCommitted, and Wal/Recover.antt executeCommit, resetLog and recover. The log
-- and the files are arrays of bytes with an end, the directory is a function from names to files,
-- and how each call of the operating system goes is an argument: a write that fails has put in as
-- many bytes as that argument says. `Answers` has these for a recovery, whether the log is opened and
-- whether each call that reads it succeeds among them, and the entry that the manager holds: where an
-- entry is not read again, that entry is applied, as in the code. `calm` answers let no call fail.
-- Bytes in the page cache that no sync made durable are not told apart from durable ones. ensureLogOpen
-- is not modelled. A crash is a recovery in which a call fails.
--
-- Storage/Cache.antt is src/storage_engine/cache.c, with the node of node.h. `& (slotCount - 1)` is
-- the native bit operation. The probing loops run on fuel, one round for each slot, which is enough
-- since a well-formed table has an empty slot; Cache/Probe.antt has that invariant. nodeCacheInit
-- doubles in at most 32 rounds, enough for up to 2 ^ 30 nodes. `held` is what nodeCacheGet gives.
--
-- Storage/Table.antt is the header of a table's file and the sizes in src/storage_engine/tableIO.c
-- and tableIO.h. Table/Keys.antt has the keys on disk, Table/Cells.antt the loops that write or read
-- one cell after another, Table/Pages.antt serializePage and the decoding part of readPage, and
-- Table/Nodes.antt serializeNode and the decoding part of readNode, from the bytes on: `decode_node` gives
-- what readNode returns and the node that it leaves. `serialize_node` has the memory that it gets its
-- buffer in as an argument, with the buffer at 0, and gives all of it back, what stands behind the buffer
-- included. The members of the union in an ordering key share their bytes, the lowest of a word first.
-- The sizes in the header are C's signed `int`: `is_above` is their test against the largest size.
--
-- Storage/Tree.antt is the search of the B+ tree in src/storage_engine/bplus.c: findLeaf, findPageInLeaf,
-- findPageAndLeaf and findPage. What readNode gives at an address is an argument. Tree/Shape.antt has the
-- well-formed trees, each with the list of its pages and of the keys each is for. The descent runs on fuel
-- and gives `none` where it has not ended then; the height of a well-formed tree is enough, the number of
-- children is for the loops in a node. Tree/Walk.antt and Tree/Sound.antt describe the descent in any
-- tree, a damaged one included, where it need not end. Tree/Choose.antt is
-- chooseSplit, and Tree/Insert.antt the shifts of arrays and insertPageIntoChildren, as the node that it
-- marks and the key that it goes on to propagate.
--
-- Sql/Token.antt and Sql/Lexer.antt are src/SQL_interpreter/lexer.h and lexer.c. The source is an
-- array of bytes that a NUL ends, and the pointers of the lexer are indices into it. Lexer/Keywords.antt
-- is identifierType, Lexer/Scan.antt the scanning functions up to scanToken, Lexer/Query.antt
-- addToken and lexQuery. Lexer/Words.antt has the keywords as a table, and Lexer/Grammar.antt what
-- the lexer should read, apart from the code. Each loop gets the fuel of the whole run, for which one
-- more than the length of the source is enough, since each round moves the lexer on.
--
-- Sql/Chunk.antt is src/SQL_interpreter/chunk.c with the array of values of src/value.c. What growing an
-- array leaves in its new cells is not looked at.
--
-- Not modelled: the rest of the B+ tree (creating a tree, inserting and deleting records, splitting
-- pages and nodes; bplus.c), the pending changes and commits of the table files
-- (the rest of tableIO.c), the scanner,
-- the rest of the SQL front end (src/SQL_interpreter), printing and the shell (main.c, debug.c).
pub mod Prelude
pub mod Value
pub mod Storage
pub mod Sql
pub mod Tests
