-- ===== src/Storage/Wal/Log/Committed.antt =====
-- Which logs count as committed.
use Prim.Native.Nat.{bit_or}
use stripe_sql.Prelude.{
  ℕ, ◌*◌, ◌^◌, ◌<◌, ◌≤◌, ◌≡◌, refl, sym, ap, ◌∙◌, subst, arith, Option, none, some, Bool, true,
  false, ◌&&◌, ◌||◌, inl, inr, List, length, get_or, copy, ltb, leb, ◌==◌, if◌then◌else◌,
  Bool-cases, Option-cases, ==_iff,
}
use stripe_sql.Prelude.Bits.{bit_or-byte}
use stripe_sql.Storage.Bytes.{
  Buffer, write_uint_bytewise, write_ulong_bytewise, write_ushort_bytewise, read_uint_bytewise,
}
use stripe_sql.Storage.Bytes.RoundTrip.{read_uint-write_uint}
use stripe_sql.Storage.Wal.Entry.{
  WalEntry, wal_magic, wal_entry_disk_size, zeros, build_entry, serialize_entry,
}
use stripe_sql.Storage.Wal.Log.{
  LogFile, WalManager, wal_commit_tag, wal_commit_disk_size, append, written, append_entry,
  add_log_entry, commit_marker, mark_log_committed, check_marker, check_committed,
}
use stripe_sql.Storage.Wal.Log.Marker.{
  check_committed-size, check_committed-append, check_marker-commit_marker,
}

magic_first : (e : WalEntry) → e.magic < 2 ^ 32 → read_uint_bytewise (serialize_entry e) 0 ≡ e.magic
unfolding serialize_entry read_uint_bytewise write_uint_bytewise write_ulong_bytewise
    write_ushort_bytewise
magic_first e h = read_uint-write_uint zeros 0 e.magic h

check_marker-entry :
    (e : WalEntry) (entries : ℕ)
    → e.magic < wal_commit_tag
    → check_marker (serialize_entry e) entries ≡ none
unfolding check_marker
check_marker-entry e entries h = rw (magic_first e (omega (arith, h))) (rw differs refl)
  where
    differs : (e.magic == wal_commit_tag) ≡ false
    differs = ground (arith, h)

check_committed-entry :
    (log : LogFile) (n put : ℕ) (e : WalEntry)
    → log.size ≡ n * wal_entry_disk_size
    → put ≤ wal_entry_disk_size
    → e.magic < wal_commit_tag
    → check_committed true (append log (serialize_entry e) put) ≡ none
check_committed-entry log n put e s p h = elim (Bool-cases (put == 16)) [
  | inl x ↦
      subst (λ k. check_committed true (append log (serialize_entry e) k) ≡ none)
        (sym ((==_iff put 16).0 x))
        (check_committed-append log (serialize_entry e) n s ∙ check_marker-entry e n h)
  | inr x ↦
      check_committed-size (append log (serialize_entry e) put) n put (omega (arith, s)) p
        (λ q. ground (arith, q, x))
]

written-le : (room n : ℕ) → written room n ≤ n
written-le room n = ground arith

magic-small : (type : ℕ) → type < 256 → bit_or wal_magic type < wal_commit_tag
magic-small type h = omega (arith, h, bit_or-byte 0x105498 type h)

build_entry-magic :
    (entry e : WalEntry) (file_name : List ℕ) (type addr : ℕ) (bytes : Buffer) (len : ℕ)
    → type < 256
    → build_entry entry file_name type addr bytes len ≡ some e
    → e.magic < wal_commit_tag
unfolding build_entry
build_entry-magic entry e file_name type addr bytes len h b =
    elim (Bool-cases (ltb 4096 len || leb 260 (length file_name))) [
      | inl x ↦ ground (arith, x, b)
      | inr x ↦ subst (λ k. k < wal_commit_tag) (ap magic_of (built x)) (magic-small type h)
    ]
  where
    magic_of : Option WalEntry → ℕ
    magic_of none = 0
    magic_of (some d) = d.magic

    built :
        (ltb 4096 len || leb 260 (length file_name)) ≡ false
        → some (record entry {
          magic = bit_or wal_magic type;
          file_name = λ i. get_or file_name i 0;
          addr = addr;
          payload_len = len;
          payload = copy entry.payload 0 bytes 0 len;
        })
          ≡ some e
    built x = sym (rw x refl) ∙ b

-- What a recovery finds in the manager's log.
abbrev pub committed_in : WalManager → Option (ℕ × ℕ)
committed_in m = elim m.log [ none ↦ none | some log ↦ check_committed true log ]

append_entry-uncommitted :
    (room : ℕ) (m : WalManager) (log : LogFile) (e : WalEntry) (n : ℕ)
    → log.size ≡ n * wal_entry_disk_size
    → e.magic < wal_commit_tag
    → committed_in (append_entry room m log (some e)).1 ≡ none
unfolding append_entry
append_entry-uncommitted room m log e n s h =
    elim (Bool-cases (written room wal_entry_disk_size == wal_entry_disk_size)) [
      | inl x ↦ rw x (
          check_committed-entry log n (written room wal_entry_disk_size) e s (written-le room 4378)
            h)
      | inr x ↦ rw x (
          check_committed-entry log n (written room wal_entry_disk_size) e s (written-le room 4378)
            h)
    ]

-- However much of an entry gets into the log behind whole entries, the log is not committed, nor is
-- it where the entry is refused.
pub add_log_entry-uncommitted :
    (room : ℕ) (m : WalManager) (file_name : List ℕ) (type addr : ℕ) (bytes : Buffer) (len n : ℕ)
    (log : LogFile)
    → m.log ≡ some log
    → log.size ≡ n * wal_entry_disk_size
    → type < 256
    → committed_in (add_log_entry room m file_name type addr bytes len).1 ≡ none
unfolding add_log_entry append_entry
add_log_entry-uncommitted room m file_name type addr bytes len n log l s t =
    rw l (elim (Option-cases (build_entry m.entry file_name type addr bytes len)) [
      | inl x ↦
          rw x (
            (check_committed-size log n 0 (omega (arith, s)) (omega arith)
              (λ q. ground (arith, q))))
      | inr (e, x) ↦ rw x (
          append_entry-uncommitted room m log e n s
            (build_entry-magic m.entry e file_name type addr bytes len t x))
    ])

-- The log is committed exactly when the first sync succeeded and the whole marker got into it, and
-- then with the manager's number of entries and transaction.
pub mark_log_committed-committed :
    (first_sync : Bool) (room : ℕ) (last_sync : Bool) (m : WalManager) (log : LogFile)
    → m.log ≡ some log
    → log.size ≡ m.num_entries * wal_entry_disk_size
    → m.num_entries < 2 ^ 32
    → m.trans_id < 2 ^ 32
    → committed_in (mark_log_committed first_sync room last_sync m).1 ≡ (
        if first_sync && leb wal_commit_disk_size room
        then some (m.num_entries, m.trans_id)
        else none)
unfolding mark_log_committed
mark_log_committed-committed false room last_sync m log l s nf tf = rw l (
    (check_committed-size log m.num_entries 0 (omega (arith, s)) (omega arith)
      (λ q. ground (arith, q))))
mark_log_committed-committed true room last_sync m log l s nf tf =
    rw l (elim (Bool-cases (leb 16 room)) [
      | inl x ↦ rw x (
          rw (all_of_it x) (
            check_committed-append log (commit_marker m.num_entries m.trans_id) m.num_entries s
            ∙ check_marker-commit_marker m.num_entries m.trans_id nf tf))
      | inr x ↦ rw x (
          rw (some_of_it x) (
            check_committed-size
              (append log (commit_marker m.num_entries m.trans_id) (written room 16)) m.num_entries
              (written room 16) (omega (arith, s)) (omega (arith, written-le room 16))
              (λ q. ground (arith, q, x))))
    ])
  where
    some_of_it : leb 16 room ≡ false → (written room 16 == 16) ≡ false
    some_of_it x = ground (arith, x)

    all_of_it : leb 16 room ≡ true → written room 16 ≡ 16
    all_of_it x = ground (arith, x)
