-- ===== src/Storage/Wal/Log/Marker.antt =====
-- The commit marker, and what `checkCommitted` makes of the bytes behind the entries.
use stripe_sql.Prelude.{
  ℕ, ◌+◌, ◌-◌, ◌*◌, ◌/◌, ◌%◌, ◌^◌, ◌<◌, ◌≤◌, ◌≡◌, ◌≢◌, refl, sym, ◌∙◌, arith, none, some, true,
  false, inl, inr, ltb, ◌==◌, Bool-cases, ==_refl,
}
use stripe_sql.Storage.Bytes.{Buffer, write_uint_bytewise, read_uint_bytewise}
use stripe_sql.Storage.Bytes.RoundTrip.{read_uint-write_uint, write_uint-frame}
use stripe_sql.Storage.Wal.Crc.{crc32c_compute, crc32c_compute-ext, crc32c_compute-lt}
use stripe_sql.Storage.Wal.Entry.{wal_entry_disk_size, zeros}
use stripe_sql.Storage.Wal.Log.{
  LogFile, wal_commit_tag, wal_commit_disk_size, append, commit_marker, at_offset, check_marker,
  check_committed,
}

-- A log that is not some entries and sixteen bytes more has no marker.
pub check_committed-size :
    (log : LogFile) (n put : ℕ)
    → log.size ≡ n * wal_entry_disk_size + put
    → put ≤ wal_entry_disk_size
    → put ≢ wal_commit_disk_size
    → check_committed true log ≡ none
unfolding check_committed
check_committed-size log n put s p d = elim (Bool-cases (ltb log.size 16)) [
  | inl x ↦ rw x refl
  | inr x ↦ rw x (elim (Bool-cases ((log.size - 16) % 4378 == 0)) [
    | inl y ↦ ground (arith, s, p, d, x, y)
    | inr y ↦ rw y refl
  ])
]

pub read_uint-ext :
    (a b : Buffer) (p : ℕ)
    → ((k : ℕ) → k < p + 4 → a k ≡ b k)
    → read_uint_bytewise a p ≡ read_uint_bytewise b p
unfolding read_uint_bytewise
read_uint-ext a b p h = rw (h p (omega arith)) (
    rw (h (p + 1) (omega arith)) (rw (h (p + 2) (omega arith)) (rw (h (p + 3) (omega arith)) refl)))

-- The last sixteen bytes after an append are the ones that were appended.
append-end :
    (log : LogFile) (buf : Buffer) (k : ℕ)
    → k < 16
    → at_offset (append log buf 16).bytes ((append log buf 16).size - 16) k ≡ buf k
append-end log buf k h = ground (arith, h)

check_marker-ext :
    (a b : Buffer) (entries : ℕ)
    → ((k : ℕ) → k < 16 → a k ≡ b k)
    → check_marker a entries ≡ check_marker b entries
unfolding check_marker
check_marker-ext a b entries h = rw (read_uint-ext a b 0 (λ k lt. h k (omega arith))) (
    rw (read_uint-ext a b 4 (λ k lt. h k (omega arith))) (
      rw (read_uint-ext a b 8 (λ k lt. h k (omega arith))) (
        rw (read_uint-ext a b 12 (λ k lt. h k (omega arith)))
          (rw (crc32c_compute-ext 0 a b 12 (λ k lt. h k (omega arith))) refl))))

-- Sixteen bytes behind `n` entries are looked at as a marker.
pub check_committed-append :
    (log : LogFile) (buf : Buffer) (n : ℕ)
    → log.size ≡ n * wal_entry_disk_size
    → check_committed true (append log buf 16) ≡ check_marker buf n
unfolding check_committed
check_committed-append log buf n s =
    rw (size_above (log.size))
      (rw no_rest (rw count (check_marker-ext _ buf n (append-end log buf))))
  where
    size_above : (a : ℕ) → ltb (a + 16) 16 ≡ false
    size_above a = ground arith

    no_rest : ((log.size + 16 - 16) % 4378 == 0) ≡ true
    no_rest = ground (arith, s)

    count : (log.size + 16 - 16) / 4378 ≡ n
    count = omega (arith, s)

module _ (num_entries trans_id : ℕ) (nf : num_entries < 2 ^ 32) (tf : trans_id < 2 ^ 32) where
  abbrev pub marker : Buffer
  marker = commit_marker num_entries trans_id

  tag_back : read_uint_bytewise marker 0 ≡ wal_commit_tag
  unfolding commit_marker read_uint_bytewise write_uint_bytewise
  tag_back = read_uint-write_uint zeros 0 wal_commit_tag (omega arith)

  count_back : read_uint_bytewise marker 4 ≡ num_entries
  unfolding commit_marker read_uint_bytewise write_uint_bytewise
  count_back = read_uint-write_uint zeros 4 num_entries nf

  trans_id_back : read_uint_bytewise marker 8 ≡ trans_id
  unfolding commit_marker read_uint_bytewise write_uint_bytewise
  trans_id_back = read_uint-write_uint zeros 8 trans_id tf

  checksum_back : read_uint_bytewise marker 12 ≡ crc32c_compute 0 marker 12
  unfolding commit_marker
  checksum_back =
      read_uint-write_uint fields 12 (crc32c_compute 0 fields 12) (crc32c_compute-lt 0 fields 12)
      ∙ sym (
          crc32c_compute-ext 0 marker fields 12
            (λ k h. write_uint-frame fields 12 (crc32c_compute 0 fields 12) k (inl h)))
    where
      fields : Buffer
      fields =
          write_uint_bytewise
            (write_uint_bytewise (write_uint_bytewise zeros 0 wal_commit_tag) 4 num_entries) 8
            trans_id

  pub check_marker-commit_marker : check_marker marker num_entries ≡ some (num_entries, trans_id)
  unfolding check_marker
  check_marker-commit_marker = rw tag_back (
      rw checksum_back (
        rw (==_refl (crc32c_compute 0 marker 12))
          (rw count_back (rw trans_id_back (rw fits refl)))))
    where
      fits : (num_entries == num_entries % 2 ^ 32) ≡ true
      fits = ground (arith, nf)
