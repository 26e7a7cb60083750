-- ===== src/Storage/Wal/Files.antt =====
-- The files of the table directory, and what a log entry does to them (`applyEntry`).
pub mod Replay
pub mod Present
pub mod Same
use stripe_sql.Prelude.{
  ℕ, zero, suc, ◌+◌, ◌-◌, ◌<◌, Option, none, some, Bool, true, false, ◌&&◌, List, [], ◌∷◌, Array,
  ltb, leb, ◌==◌, if◌then◌else◌,
}
use stripe_sql.Storage.Bytes.{Buffer}
use stripe_sql.Storage.Wal.Entry.{
  WalEntry, object_type, wal_file_create, wal_file_remove, wal_file_name_len,
}

-- The byte at each offset, and `none` behind the end.
abbrev pub File : Type 0
File = ℕ → Option ℕ

abbrev pub FileName : Type 0
FileName = List ℕ

-- `none` is a file that is not there.
abbrev pub Files : Type 0
Files = FileName → Option File

unfoldable pub name_eq : FileName → FileName → Bool
name_eq [] [] = true
name_eq (x ∷ xs) (y ∷ ys) = x == y && name_eq xs ys
name_eq xs ys = false

-- The string in an array, up to its NUL, of at most `fuel` bytes.
unfoldable pub c_string : ℕ → Buffer → ℕ → FileName
c_string zero array i = []
c_string (suc fuel) array i =
    let rest = c_string fuel array (i + 1) in if array i == 0 then [] else array i ∷ rest

unfoldable pub entry_name : WalEntry → FileName
unfolding c_string
entry_name e = c_string wal_file_name_len e.file_name 0

-- What an entry asks for. A write is `len` bytes of a payload at an address.
pub data Change : Type 0 where
  create remove : Change
  write : (addr len : ℕ) → Buffer → Change

unfoldable pub entry_change : WalEntry → Change
entry_change e =
    if object_type e.magic == wal_file_create
    then create
    else if object_type e.magic == wal_file_remove
    then remove
    else write e.addr e.payload_len e.payload

abbrev pub is_none {ℓ} : {A : Type ℓ} → Option A → Bool
is_none none = true
is_none (some a) = false

-- Writing behind the end fills the gap with zeros; writing nothing does not extend the file.
abbrev pub overwrite : File → ℕ → ℕ → Buffer → File
overwrite file addr len bytes j =
    if leb addr j && ltb j (addr + len)
    then some (bytes (j - addr))
    else if ltb j addr && ltb 0 len && is_none (file j)
    then some 0
    else file j

-- A successful change of one file.
abbrev pub change_file : Change → Option File → Option File
change_file create file = some (λ _. none)
change_file remove file = none
change_file (write addr len bytes) none = none
change_file (write addr len bytes) (some file) = some (overwrite file addr len bytes)

abbrev pub change : FileName → Change → Files → Files
change name c files other = if name_eq other name then change_file c (files other) else files other

-- How the calls of the operating system go: all of them succeed, the file cannot be opened (or
-- removed), or a later call fails when that many bytes of the payload are in the file.
pub data Outcome : Type 0 where
  done not_opened : Outcome
  failed : ℕ → Outcome

-- What is left of a change that fails: a write has put in `k` bytes, a new file is there, and a
-- file that cannot be removed stays.
abbrev pub torn : ℕ → Change → Option File → Option File
torn k create file = change_file create file
torn k remove file = file
torn k (write addr len bytes) file =
    change_file (write addr (if ltb k len then k else len) bytes) file

abbrev pub tear : ℕ → FileName → Change → Files → Files
tear k name c files other = if name_eq other name then torn k c (files other) else files other

-- Whether `applyEntry` opens the file of a write: a missing one fails.
abbrev pub is_open : Change → Option File → Bool
is_open create file = true
is_open remove file = true
is_open (write addr len bytes) file = if is_none file then false else true

unfoldable pub apply_entry : Outcome → WalEntry → Files → Bool × Files
unfolding entry_name entry_change name_eq
apply_entry outcome e files =
    let name = entry_name e in
    let c = entry_change e in
    if is_open c (files name)
    then elim outcome [
      | done ↦ (true, change name c files)
      | not_opened ↦ (false, files)
      | failed k ↦ (false, tear k name c files)
    ]
    else (false, files)
