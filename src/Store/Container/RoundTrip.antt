-- ===== src/Store/Container/RoundTrip.antt =====
-- `parse` after `serialize`.
use rag_cpp.Common.{
  ℕ, ◌+◌, ◌-◌, ◌*◌, ◌/◌, ◌%◌, ◌^◌, ◌<◌, ◌≡◌, refl, ◌∙◌, ap, List, [], ◌∷◌, ◌++◌, arith, length,
  length-append, append_assoc, append-nil, Bool, true, false, some, All, take, drop,
  take-append_length, drop-append_length, ltb, not, ◌==◌, ==_refl,
}
use rag_cpp.Common.SortedMap.{IsSorted, insert_or_assign_last, Below-middle}
use rag_cpp.Core.{nat_order, value}
use rag_cpp.Store.Format.{magic, le_bytes, continue, ◌>>=◌, format_major}
use rag_cpp.Store.Format.Codec.{
  at, length-le_bytes, le_value-le_bytes, read_u-le_bytes, read_bytes-append, read_u-then,
  >>=-eq_some,
}
use rag_cpp.Store.Crc.{crc32, crc32-lt}
use rag_cpp.Store.Container.{
  Container, Entry, serialize, write_header, parse, parse_fields, read_entries, load_sections,
  out_of_bounds, body, stored_crc,
}
use rag_cpp.Store.Container.Layout.{
  table_bytes, payload_bytes, header_bytes, first_cursor, front, serialize-front,
  write_header-append, length-table_bytes, length-header,
}

abbrev entries_of : ℕ → List (ℕ × List ℕ) → List Entry
entries_of cursor [] = []
entries_of cursor ((tag, payload) ∷ ss) =
    record { tag = tag; off = cursor; len = length payload }
    ∷ entries_of (cursor + length payload) ss

abbrev pub TagFits : ℕ × List ℕ → Type 0
TagFits (tag, payload) = tag < 2 ^ 32

read_entries-table_bytes :
    (cursor : ℕ) (ss : List (ℕ × List ℕ)) (rest : List ℕ) (b : Bool)
    → All TagFits ss
    → cursor + length (payload_bytes ss) < 2 ^ 64
    → read_entries (length ss) (at (table_bytes cursor ss ++ rest) b)
      ≡ (some (entries_of cursor ss), at rest b)
unfolding read_entries
read_entries-table_bytes cursor [] rest b ht hf = refl
read_entries-table_bytes cursor ((tag, payload) ∷ ss) rest b ht hf =
    let n = length payload in
    let fits : cursor + n + length (payload_bytes ss) < 2 ^ 64 =
      omega (arith, length-append payload (payload_bytes ss)) in
    let e : n % 2 ^ 64 ≡ n = omega arith in
    let e' : (cursor + n) % 2 ^ 64 ≡ cursor + n = omega arith in
    simp (append_assoc, e, e')
      (read_u-then _ 4 tag _ b ht.0 (
        read_u-then _ 8 cursor _ b (omega arith) (
          read_u-then _ 8 n _ b (omega arith) (
            >>=-eq_some (read_entries (length ss)) _
              (read_entries-table_bytes (cursor + n) ss rest b ht.1 fits)))))

load_sections-entries_of :
    (blob : List ℕ) (cursor : ℕ) (ss : List (ℕ × List ℕ)) (before after : List ℕ)
    (m : List (ℕ × List ℕ))
    → blob ≡ before ++ (payload_bytes ss ++ after)
    → length before ≡ cursor
    → length after ≡ 4
    → IsSorted nat_order (m ++ ss)
    → load_sections blob (entries_of cursor ss) m ≡ some (m ++ ss)
unfolding load_sections
load_sections-entries_of blob cursor [] before after m e hb ha hs = rw append-nil
load_sections-entries_of blob cursor ((tag, payload) ∷ ss) before after m e hb ha hs =
    let n = length payload in
    let tail_ = payload_bytes ss ++ after in
    let blob_eq : blob ≡ before ++ (payload ++ tail_) = rw (append_assoc payload) at e in
    let size : length blob ≡ cursor + (n + (length (payload_bytes ss) + 4)) =
      rw blob_eq (simp length-append (omega arith)) in
    let slice : take n (drop cursor blob) ≡ payload =
      rw (blob_eq, ← hb) (rw drop-append_length (take-append_length payload tail_)) in
    let inside : out_of_bounds (length blob - 4) (record { tag = tag; off = cursor; len = n })
        ≡ false =
      ground arith in
    rw
      (
        inside,
        slice,
        insert_or_assign_last nat_order tag payload m (Below-middle nat_order m tag payload ss hs),
      )
      (load_sections-entries_of blob (cursor + n) ss (before ++ payload) after
          (m ++ (tag, payload) ∷ []) (rw append_assoc blob_eq) (rw length-append (omega arith)) ha
          (rw append_assoc hs)
        ∙ ap some (append_assoc m ((tag, payload) ∷ []) ss))

-- What fits the format: the widths of the fields, and a file below 2 ^ 64 bytes.
pub record IsStorable (c : Container) : Type 0 where
  pub sorted : IsSorted nat_order c.sections
  pub tags : All TagFits c.sections
  pub flags_fit : c.flags < 2 ^ 32
  pub major_known : c.major ≡ format_major
  pub minor_fit : c.minor < 2 ^ 16
  pub count_fit : length c.sections < 2 ^ 32
  pub size_fit : 32 + 20 * length c.sections + length (payload_bytes c.sections) < 2 ^ 64

length-front :
    (c : Container)
    → length (front c) ≡ 28 + (20 * length c.sections + length (payload_bytes c.sections))
length-front c = simp (length-append, length-header, length-table_bytes)

-- The last four bytes and what stands before them.
take_front : (f t : List ℕ) → length t ≡ 4 → take (length (f ++ t) - 4) (f ++ t) ≡ f
take_front f t h =
    let e : length (f ++ t) - 4 ≡ length f = omega (arith, length-append f t) in
    rw e (take-append_length f t)

drop_front : (f t : List ℕ) → length t ≡ 4 → drop (length (f ++ t) - 4) (f ++ t) ≡ t
drop_front f t h =
    let e : length (f ++ t) - 4 ≡ length f = omega (arith, length-append f t) in
    rw e (drop-append_length f t)

module _ (c : Container) (h : IsStorable c) where
  abbrev trailer : List ℕ
  trailer = le_bytes 4 (crc32 (front c))

  length-trailer : length trailer ≡ 4
  length-trailer = length-le_bytes 4 _

  length-serialize :
      length (serialize c) ≡ 32 + (20 * length c.sections + length (payload_bytes c.sections))
  length-serialize =
      rw (serialize-front c)
        (omega (arith, length-append (front c) trailer, length-front c, length-trailer))

  body-serialize : body (serialize c) ≡ front c
  body-serialize = rw (serialize-front c) (take_front (front c) trailer length-trailer)

  stored_crc-serialize : stored_crc (serialize c) ≡ crc32 (front c)
  stored_crc-serialize =
      rw (serialize-front c)
        (rw (drop_front (front c) trailer length-trailer) (le_value-le_bytes 4 _ (crc32-lt _)))

  abbrev sections_written : List ℕ
  sections_written =
      table_bytes (first_cursor c) c.sections ++ (payload_bytes c.sections ++ trailer)

  serialize-header : serialize c ≡ header_bytes c sections_written
  serialize-header = serialize-front c ∙ simp append_assoc (write_header-append c sections_written)

  load-serialize :
      load_sections (serialize c) (entries_of (first_cursor c) c.sections) [] ≡ some c.sections
  load-serialize =
      load_sections-entries_of (serialize c) (first_cursor c) c.sections
        (write_header c ++ table_bytes (first_cursor c) c.sections) trailer []
        (serialize-front c ∙ simp append_assoc)
        (omega (
          arith,
          length-append (write_header c) (table_bytes (first_cursor c) c.sections),
          length-header c,
          length-table_bytes (first_cursor c) c.sections,
        ))
        length-trailer h.sorted

  parse_fields-written :
      parse_fields (serialize c) (at (header_bytes c sections_written) true)
      ≡ (some c, at (payload_bytes c.sections ++ trailer) true)
  unfolding parse_fields ◌>>=◌
  parse_fields-written =
      let major_fit : c.major < 256 ^ 2 = omega arith in
      let minor_fit : c.minor < 256 ^ 2 = omega arith in
      let flags_fit : c.flags < 256 ^ 4 = omega arith in
      let known : (c.major == format_major) ≡ true = ground arith in
      let count : length c.sections % 2 ^ 32 ≡ length c.sections = omega arith in
      let count_fit : length c.sections < 256 ^ 4 = omega arith in
      let zero_fit : 0 < 256 ^ 8 = omega arith in
      let table_fits : first_cursor c + length (payload_bytes c.sections) < 2 ^ 64 = omega arith in
      let room : not (ltb (length (serialize c) / 20) (length c.sections)) ≡ true =
        ground (arith, length-serialize) in
      rw (read_bytes-append magic, ◌>>=◌, continue)
        (rw (read_u-le_bytes 2 c.major, major_fit, ◌>>=◌, continue)
          (rw (read_u-le_bytes 2 c.minor, minor_fit, ◌>>=◌, continue)
            (rw (known, ◌>>=◌, continue)
              (rw (read_u-le_bytes 4 c.flags, flags_fit, ◌>>=◌, continue)
                (rw count (
                  rw (read_u-le_bytes 4 (length c.sections), count_fit, ◌>>=◌, continue)
                    (rw (read_u-le_bytes 8 0, zero_fit, ◌>>=◌, continue)
                      (rw (room, ◌>>=◌, continue)
                        (rw
                          (
                            read_entries-table_bytes (first_cursor c) c.sections,
                            h.tags,
                            table_fits,
                            ◌>>=◌,
                            continue,
                          )
                          (rw load-serialize))))))))))

  -- A container that fits the format is read back whole from the bytes that it writes.
  pub parse-serialize : parse (serialize c) ≡ value c
  unfolding parse
  parse-serialize =
      let long : ltb (length (serialize c)) 32 ≡ false = ground (arith, length-serialize) in
      rw long (
        rw (body-serialize, stored_crc-serialize, ==_refl)
          (rw (ap (λ s. parse_fields (serialize c) (at s true)) serialize-header)
            (rw parse_fields-written)))
