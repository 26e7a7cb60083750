-- ===== src/Storage/Wal/Log/Written.antt =====
-- What `addLogEntry` leaves in the log, and `readEntry` finds there.
use stripe_sql.Prelude.{
  ℕ, suc, ◌+◌, ◌*◌, ◌%◌, ◌^◌, ◌<◌, ◌≤◌, ◌≡◌, refl, sym, ap₂, ◌∙◌, subst, fun_ext, arith, Option,
  none, some, true, List, [], ◌∷◌, ◌++◌, length, leb, ◌==◌, if◌then◌else◌, length-append,
}
use stripe_sql.Storage.Bytes.{Buffer, read_uint_bytewise, read_ulong_bytewise, read_ushort_bytewise}
use stripe_sql.Storage.Wal.Crc.{crc32c_compute, crc32c_compute-ext}
use stripe_sql.Storage.Wal.Entry.{
  WalEntry, wal_entry_disk_size, entry_checksum_offset, build_entry, serialize_entry, parse_entry,
  read_fields, is_well_formed,
}
use stripe_sql.Storage.Wal.Entry.RoundTrip.{IsEntry, parse-serialize}
use stripe_sql.Storage.Wal.Log.{
  LogFile, WalManager, append, written, append_entry, add_log_entry, at_offset, read_entry,
}
use stripe_sql.Storage.Wal.Log.Marker.{read_uint-ext}

-- From entry `i` on, the bytes are those of the entries `es`.
abbrev pub Holds : Buffer → ℕ → List WalEntry → Type 0
Holds bytes i [] = Unit
Holds bytes i (e ∷ es) =
    ((k : ℕ) → k < wal_entry_disk_size → bytes (i * wal_entry_disk_size + k) ≡ serialize_entry e k)
    × Holds bytes (i + 1) es

-- The manager's log has the entries `es`, all of them whole, and nothing else.
pub record IsWritten (m : WalManager) (es : List WalEntry) (log : LogFile) : Type 0 where
  pub open_log : m.log ≡ some log
  pub counted : m.num_entries ≡ length es
  pub size : log.size ≡ length es * wal_entry_disk_size
  pub holds : Holds log.bytes 0 es

pub Holds-ext :
    (es : List WalEntry) (bytes bytes' : Buffer) (i : ℕ)
    → ((j : ℕ) → j < (i + length es) * wal_entry_disk_size → bytes' j ≡ bytes j)
    → Holds bytes i es
    → Holds bytes' i es
Holds-ext [] bytes bytes' i h v = v
Holds-ext (e ∷ es) bytes bytes' i h (here, there) = (
  λ k lt. h (i * 4378 + k) (omega (arith, lt)) ∙ here k lt,
  Holds-ext es bytes bytes' (i + 1) (λ j lt. h j (omega (arith, lt))) there,
)

Holds-append :
    (es : List WalEntry) (e : WalEntry) (bytes : Buffer) (i : ℕ)
    → Holds bytes i es
    → ((k : ℕ)
        → k < wal_entry_disk_size
        → bytes ((i + length es) * wal_entry_disk_size + k) ≡ serialize_entry e k)
    → Holds bytes i (es ++ e ∷ [])
Holds-append [] e bytes i v h =
    (λ k lt. subst (λ j. bytes (j * 4378 + k) ≡ serialize_entry e k) (plus_zero i) (h k lt), v)
  where
    plus_zero : (n : ℕ) → n + 0 ≡ n
    plus_zero n = omega arith
Holds-append (d ∷ es) e bytes i (here, there) h = (
  here,
  Holds-append es e bytes (i + 1) there (λ k lt.
      subst (λ j. bytes (j * 4378 + k) ≡ serialize_entry e k) (shifted i (length es)) (h k lt)),
)
  where
    shifted : (a b : ℕ) → a + suc b ≡ a + 1 + b
    shifted a b = omega arith

abbrev pub appended : WalManager → LogFile → WalEntry → WalManager
appended m log e = record m {
  entry = e;
  log = some (append log (serialize_entry e) wal_entry_disk_size);
  num_entries = m.num_entries + 1;
}

append_entry-room :
    (room : ℕ) (m : WalManager) (log : LogFile) (e : WalEntry)
    → wal_entry_disk_size ≤ room
    → m.num_entries + 1 < 2 ^ 32
    → append_entry room m log (some e) ≡ (true, appended m log e)
unfolding append_entry
append_entry-room room m log e r f = rw all_of_it (rw same_count refl)
  where
    all_of_it : written room 4378 ≡ 4378
    all_of_it = ground (arith, r)

    same_count : (m.num_entries + 1) % 2 ^ 32 ≡ m.num_entries + 1
    same_count = omega (arith, f)

append-IsWritten :
    (m : WalManager) (log : LogFile) (es : List WalEntry) (e : WalEntry)
    → IsWritten m es log
    → IsWritten
        (appended m log e)
        (es ++ e ∷ [])
        (append log (serialize_entry e) wal_entry_disk_size)
append-IsWritten m log es e w = record {
  open_log = refl;
  counted = omega (arith, w.counted, length-append es (e ∷ []));
  size = omega (arith, w.size, length-append es (e ∷ []));
  holds =
      Holds-append es e (append log (serialize_entry e) 4378).bytes 0
        (Holds-ext es log.bytes (append log (serialize_entry e) 4378).bytes 0
          (λ j lt. ground (arith, lt, w.size)) w.holds)
        (λ k lt. ground (arith, lt, w.size));
}

-- Where the log has room, `addLogEntry` writes the entry it built behind the others, whole.
pub add_log_entry-IsWritten :
    (room : ℕ) (m : WalManager) (file_name : List ℕ) (type addr : ℕ) (bytes : Buffer) (len : ℕ)
    (es : List WalEntry) (log : LogFile) (e : WalEntry)
    → IsWritten m es log
    → wal_entry_disk_size ≤ room
    → suc (length es) < 2 ^ 32
    → build_entry m.entry file_name type addr bytes len ≡ some e
    → (add_log_entry room m file_name type addr bytes len ≡ (true, appended m log e))
      × IsWritten
          (appended m log e)
          (es ++ e ∷ [])
          (append log (serialize_entry e) wal_entry_disk_size)
unfolding add_log_entry
add_log_entry-IsWritten room m file_name type addr bytes len es log e w r f b = (
  rw w.open_log (rw b (append_entry-room room m log e r (omega (arith, f, w.counted)))),
  append-IsWritten m log es e w,
)

-- The fields that are read from a buffer depend on the bytes of one entry.
read_ulong-ext :
    (a b : Buffer) (p : ℕ)
    → ((k : ℕ) → k < p + 8 → a k ≡ b k)
    → read_ulong_bytewise a p ≡ read_ulong_bytewise b p
unfolding read_ulong_bytewise
read_ulong-ext a b p h = rw (h p (omega arith)) (
    rw (h (p + 1) (omega arith)) (
      rw (h (p + 1 + 1) (omega arith)) (
        rw (h (p + 1 + 1 + 1) (omega arith)) (
          rw (h (p + 1 + 1 + 1 + 1) (omega arith)) (
            rw (h (p + 1 + 1 + 1 + 1 + 1) (omega arith)) (
              rw (h (p + 1 + 1 + 1 + 1 + 1 + 1) (omega arith))
                (rw (h (p + 1 + 1 + 1 + 1 + 1 + 1 + 1) (omega arith)) refl)))))))

read_ushort-ext :
    (a b : Buffer) (p : ℕ)
    → ((k : ℕ) → k < p + 2 → a k ≡ b k)
    → read_ushort_bytewise a p ≡ read_ushort_bytewise b p
unfolding read_ushort_bytewise
read_ushort-ext a b p h = rw (h p (omega arith)) (rw (h (p + 1) (omega arith)) refl)

abbrev fields : ℕ → ℕ → Buffer → ℕ → ℕ → Buffer → ℕ → WalEntry
fields magic trans_id file_name addr payload_len payload checksum = record {
  magic = magic;
  trans_id = trans_id;
  file_name = file_name;
  addr = addr;
  payload_len = payload_len;
  payload = payload;
  checksum = checksum;
}

read_fields-ext :
    (a b : Buffer) → ((k : ℕ) → k < wal_entry_disk_size → a k ≡ b k) → read_fields a ≡ read_fields b
unfolding read_fields
read_fields-ext a b h = rw (read_uint-ext a b 0 (λ k lt. h k (omega arith))) (
    rw (read_uint-ext a b 4 (λ k lt. h k (omega arith))) (
      rw (read_ulong-ext a b 268 (λ k lt. h k (omega arith))) (
        rw (read_ushort-ext a b 276 (λ k lt. h k (omega arith))) (
          rw (read_uint-ext a b 4374 (λ k lt. h k (omega arith))) (
            ap₂
              (λ file_name payload.
                fields (read_uint_bytewise b 0) (read_uint_bytewise b 4) file_name
                  (read_ulong_bytewise b 268) (read_ushort_bytewise b 276) payload
                  (read_uint_bytewise b 4374))
              (fun_ext (λ k. ground (arith, h (8 + k))))
              (fun_ext (λ k. ground (arith, h (278 + k)))))))))

abbrev judged : WalEntry → ℕ → Option WalEntry
judged e checksum =
    if is_well_formed e then (if e.checksum == checksum then some e else none) else none

parse_entry-judged :
    (buf : Buffer)
    → parse_entry buf ≡ judged (read_fields buf) (crc32c_compute 0 buf entry_checksum_offset)
unfolding parse_entry
parse_entry-judged buf = refl

parse_entry-ext :
    (a b : Buffer) → ((k : ℕ) → k < wal_entry_disk_size → a k ≡ b k) → parse_entry a ≡ parse_entry b
parse_entry-ext a b h =
    parse_entry-judged a
    ∙ ap₂ judged (read_fields-ext a b h)
        (crc32c_compute-ext 0 a b 4374 (λ k lt. h k (omega (arith, lt))))
    ∙ sym (parse_entry-judged b)

-- What an entry is when it is read back.
abbrev pub back : WalEntry → WalEntry
back e = read_fields (serialize_entry e)

-- `readEntry` gives each entry that was written.
pub read_entry-Holds :
    (log : LogFile) (i : ℕ) (e : WalEntry)
    → IsEntry e
    → (i + 1) * wal_entry_disk_size ≤ log.size
    → ((k : ℕ)
        → k < wal_entry_disk_size
        → log.bytes (i * wal_entry_disk_size + k) ≡ serialize_entry e k)
    → read_entry true log i ≡ some (back e)
unfolding read_entry
read_entry-Holds log i e v s h = rw within (
    parse_entry-ext (at_offset log.bytes (i * 4378)) (serialize_entry e) h
    ∙ (parse-serialize e v).0)
  where
    within : leb (i * 4378 + 4378) log.size ≡ true
    within = ground (arith, s)
