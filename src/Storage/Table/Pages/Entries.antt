-- ===== src/Storage/Table/Pages/Entries.antt =====
-- The entries of a page are read back.
use stripe_sql.Prelude.{
  ℕ, zero, suc, ◌+◌, ◌-◌, ◌^◌, ◌<◌, ◌≤◌, ◌≡◌, ◌⊎◌, inl, inr, refl, sym, ap, ap₂, ◌∙◌, subst, arith,
  Array, put, slice, get_or, length, List, [], ◌∷◌, some, true, false, ltb, slice-ext, Bool-cases,
  ◌==◌, ==_iff,
}
use stripe_sql.Prelude.Word.{sub32}
use stripe_sql.Storage.Bytes.{Buffer, write_uint_bytewise}
use stripe_sql.Storage.Bytes.RoundTrip.{write_uint-frame}
use stripe_sql.Storage.Page.Data.{Datatype, Entry}
use stripe_sql.Storage.Table.Keys.{read_uint}
use stripe_sql.Storage.Table.Keys.RoundTrip.{read_uint-write, read_uint-Agree}
use stripe_sql.Storage.Table.Pages.{
  datatype_code, datatype_of_code, write_entry, write_entries, read_entries,
}

datatype_of_code-datatype_code : (type : Datatype) → datatype_of_code (datatype_code type) ≡ type
unfolding datatype_of_code datatype_code
datatype_of_code-datatype_code Datatype.t_int = refl
datatype_of_code-datatype_code Datatype.t_string = refl
datatype_of_code-datatype_code Datatype.t_date = refl
datatype_of_code-datatype_code Datatype.t_time = refl

slice-list :
    (buf : Buffer) (p n : ℕ) (s : List ℕ)
    → length s ≡ n
    → ((i : ℕ) → i < n → buf (p + i) ≡ get_or s i 0)
    → slice buf p n ≡ s
slice-list buf p zero [] l h = refl
slice-list buf p zero (c ∷ s) l h = absurd (omega (arith, l))
slice-list buf p (suc n) [] l h = absurd (omega (arith, l))
slice-list buf p (suc n) (c ∷ s) l h = ap₂ ◌∷◌ (ap buf (omega arith) ∙ h 0 (omega arith)) (
    slice-list buf (p + 1) n s (omega (arith, l))
      (λ i u. ap buf (omega arith) ∙ h (suc i) (omega (arith, u))))

-- An entry that holds the bytes its size tells of.
pub record IsHeld (e : Entry) : Type 0 where
  pub held : List ℕ
  pub bytes : e.bytes ≡ some held
  pub size : length held ≡ e.size
  pub fits : e.size < 2 ^ 16

-- What entries `i` to `i + n - 1` take on disk.
unfoldable pub entries_size : ℕ → Array Entry → ℕ → ℕ
entries_size zero entries i = 0
entries_size (suc n) entries i = (entries i).size + 6 + entries_size n entries (i + 1)

-- The array `m` with entries `i` to `i + n - 1` of `entries`.
unfoldable pub fill : ℕ → Array Entry → Array Entry → ℕ → Array Entry
fill zero entries m i = m
fill (suc n) entries m i = fill n entries (put m i (entries i)) (i + 1)

module _ (page_size : ℕ) where
  module _ (buf : Buffer) (offset : ℕ) (e : Entry) (v : IsHeld e)
      (room : offset + (e.size + 6) ≤ page_size) where
    abbrev top : ℕ
    top = page_size - offset

    -- The buffer before the data, up to which the size is written.
    abbrev tagged : Buffer
    tagged = put (put buf (top - 1) (datatype_code e.type)) (top - 1 - 1) b'\\'

    abbrev sized : Buffer
    sized = write_uint_bytewise tagged (top - 1 - 5) e.size

    entry_code : write_entry buf page_size offset e (top - 1) ≡ datatype_code e.type
    unfolding write_entry
    entry_code = ground (
      arith,
      room,
      write_uint-frame tagged (top - 1 - 5) e.size (top - 1) (inr (omega (arith, room))),
    )

    entry_size : read_uint (write_entry buf page_size offset e) (top - 6) ≡ e.size
    unfolding write_entry
    entry_size =
        read_uint-Agree (write_entry buf page_size offset e) sized (top - 6)
          (λ k l. ground (arith, room, l))
        ∙ ap (read_uint sized) (omega (arith, room))
        ∙ read_uint-write tagged (top - 1 - 5) e.size (omega (arith, v.fits))

    entry_bytes : slice (write_entry buf page_size offset e) (top - 6 - e.size) e.size ≡ v.held
    unfolding write_entry
    entry_bytes =
        slice-list (write_entry buf page_size offset e) (top - 6 - e.size) e.size v.held v.size
          (λ i l. rw v.bytes (ground (arith, room, l)))

    entry_frame :
        (j : ℕ) → (j < top - 6 - e.size) ⊎ (top ≤ j) → write_entry buf page_size offset e j ≡ buf j
    unfolding write_entry
    entry_frame j h = ground (arith, room, h, write_uint-frame tagged (top - 1 - 5) e.size j)

  first_held :
      (n : ℕ) (entries : Array Entry) (i : ℕ)
      → ((k : ℕ) → k < suc n → IsHeld (entries (i + k)))
      → IsHeld (entries i)
  first_held n entries i h = subst (λ j. IsHeld (entries j)) (omega arith) (h 0 (omega arith))

  rest_held :
      (n : ℕ) (entries : Array Entry) (i : ℕ)
      → ((k : ℕ) → k < suc n → IsHeld (entries (i + k)))
      → (k : ℕ) → k < n
      → IsHeld (entries (i + 1 + k))
  rest_held n entries i h k l =
      subst (λ j. IsHeld (entries j)) (omega arith) (h (suc k) (omega (arith, l)))

  pub write_entries-frame :
      (n : ℕ) (buf : Buffer) (offset : ℕ) (entries : Array Entry) (i : ℕ)
      → ((k : ℕ) → k < n → IsHeld (entries (i + k)))
      → offset + entries_size n entries i ≤ page_size
      → (j : ℕ) → (j < page_size - offset - entries_size n entries i) ⊎ (page_size - offset ≤ j)
      → write_entries n buf page_size offset entries i j ≡ buf j
  unfolding write_entries entries_size
  write_entries-frame zero buf offset entries i h room j l = refl
  write_entries-frame (suc n) buf offset entries i h room j l =
      write_entries-frame n (write_entry buf page_size offset (entries i))
        (offset + ((entries i).size + 6)) entries (i + 1) (rest_held n entries i h)
        (omega (arith, room)) j (omega (arith, room, l))
      ∙ entry_frame buf offset (entries i) (first_held n entries i h) (omega (arith, room)) j
          (omega (arith, room, l))

  read_entries-step :
      (n : ℕ) (raw : Buffer) (slot_end cursor : ℕ) (m : Array Entry) (i : ℕ) (e : Entry)
      (v : IsHeld e)
      → slot_end + (e.size + 6) ≤ cursor
      → cursor < 2 ^ 32
      → raw (cursor - 1) ≡ datatype_code e.type
      → read_uint raw (cursor - 6) ≡ e.size
      → slice raw (cursor - 6 - e.size) e.size ≡ v.held
      → read_entries (suc n) raw slot_end cursor m i
        ≡ read_entries n raw slot_end (cursor - 6 - e.size) (put m i e) (i + 1)
  unfolding read_entries
  read_entries-step n raw slot_end cursor m i e v room small code size data_ =
      rw (code, datatype_of_code-datatype_code e.type, size, data_, sym v.bytes, above, inside) refl
    where
      above : ltb (sub32 cursor 6) slot_end ≡ false
      above = ground (arith, room, small)

      inside : ltb (sub32 (cursor - 6) slot_end) e.size ≡ false
      inside = ground (arith, room, small)

  pub read_entries-write_entries :
      (n : ℕ) (buf : Buffer) (slot_end offset : ℕ) (entries m : Array Entry) (i : ℕ)
      → ((k : ℕ) → k < n → IsHeld (entries (i + k)))
      → slot_end + (offset + entries_size n entries i) ≤ page_size
      → page_size < 2 ^ 32
      → read_entries n
          (write_entries n buf page_size offset entries i)
          slot_end
          (page_size - offset)
          m
          i
        ≡ (true, fill n entries m i)
  unfolding write_entries entries_size fill read_entries
  read_entries-write_entries zero buf slot_end offset entries m i h room small = refl
  read_entries-write_entries (suc n) buf slot_end offset entries m i h room small =
      read_entries-step n raw slot_end (page_size - offset) m i e v (omega (arith, room))
        (omega (arith, small))
        (frame (page_size - offset - 1) (omega (arith, room))
          ∙ entry_code buf offset e v (omega (arith, room)))
        (read_uint-Agree raw w (page_size - offset - 6)
            (λ k l. frame (page_size - offset - 6 + k) (omega (arith, room)))
          ∙ entry_size buf offset e v (omega (arith, room)))
        (slice-ext raw w (page_size - offset - 6 - e.size) (page_size - offset - 6 - e.size) e.size
            (λ k l. frame (page_size - offset - 6 - e.size + k) (omega (arith, room)))
          ∙ entry_bytes buf offset e v (omega (arith, room)))
      ∙ ap (λ c. read_entries n raw slot_end c (put m i e) (i + 1)) next_cursor
      ∙ read_entries-write_entries n w slot_end (offset + (e.size + 6)) entries (put m i e) (i + 1)
          (rest_held n entries i h) (omega (arith, room)) small
    where
      e : Entry
      e = entries i

      v : IsHeld e
      v = first_held n entries i h

      w : Buffer
      w = write_entry buf page_size offset e

      raw : Buffer
      raw = write_entries n w page_size (offset + (e.size + 6)) entries (i + 1)

      frame : (j : ℕ) → page_size - (offset + (e.size + 6)) ≤ j → raw j ≡ w j
      frame j l =
          write_entries-frame n w (offset + (e.size + 6)) entries (i + 1) (rest_held n entries i h)
            (omega (arith, room)) j (inr l)

      next_cursor : page_size - offset - 6 - e.size ≡ page_size - (offset + (e.size + 6))
      next_cursor = omega (arith, room)

fill-other : (n : ℕ) (entries m : Array Entry) (i j : ℕ) → j < i → fill n entries m i j ≡ m j
unfolding fill
fill-other zero entries m i j l = refl
fill-other (suc n) entries m i j l =
    fill-other n entries (put m i (entries i)) (i + 1) j (omega (arith, l)) ∙ ground (arith, l)

pub fill-at :
    (n : ℕ) (entries m : Array Entry) (i j : ℕ)
    → i ≤ j
    → j < i + n
    → fill n entries m i j ≡ entries j
unfolding fill
fill-at zero entries m i j l u = absurd (omega (arith, l, u))
fill-at (suc n) entries m i j l u = elim (Bool-cases (j == i)) [
  | inl x ↦
      fill-other n entries (put m i (entries i)) (i + 1) j (ground (arith, x))
      ∙ here ((==_iff j i).0 x)
  | inr x ↦
      fill-at n entries (put m i (entries i)) (i + 1) j (ground (arith, l, x)) (omega (arith, u))
]
  where
    here : j ≡ i → put m i (entries i) j ≡ entries j
    here e = subst (λ k. put m i (entries i) k ≡ entries k) (sym e) (ground arith)
