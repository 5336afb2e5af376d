-- ===== src/Loaders/Zip/RoundTrip.antt =====
-- An archive of stored members, read back.
use rag_cpp.Common.{
  ℕ, zero, suc, ◌+◌, ◌-◌, ◌/◌, ◌%◌, ◌^◌, ◌≤◌, ◌<◌, ◌≡◌, ◌≢◌, refl, ap, sym, ◌∙◌, min, true, some,
  List, [], ◌∷◌, ◌++◌, All, length, take, drop, arith, le→ltb, lt→leb, length-append, append_assoc,
  drop-append_add, drop-append_length, take-append_length,
}
use rag_cpp.Core.{Result, text_eq_refl, text_eq_differ}
use rag_cpp.Store.Format.{le_bytes}
use rag_cpp.Loaders.Bits.{rd16, ◌>>=?◌}
use rag_cpp.Loaders.Zip.{
  matches, local_mark, end_mark, find_eocd, entries_loop, nonempty, read_directory, zip_entries,
  extract, zip_read, find_entry, zip_read_name,
}
use rag_cpp.Loaders.Zip.Written.{
  Member, local_header, local_member, end_record, locals, centrals, archive, entry_of, entries,
  rd16-at, rd32-at, matches-at, two_bytes, four_bytes, IsSmall, AllSmall, entries_loop-written,
}

length-end_record : (count cd_size cd_off : ℕ) → length (end_record count cd_size cd_off) ≡ 22
unfolding end_record le_bytes
length-end_record count cd_size cd_off = refl

-- The record stands 22 bytes before the end.
module _ (front : List ℕ) (count cd_size cd_off : ℕ) where
  abbrev whole : List ℕ
  whole = front ++ end_record count cd_size cd_off

  length-whole : length whole ≡ length front + 22
  length-whole = omega (
    arith,
    length-append front (end_record count cd_size cd_off),
    length-end_record count cd_size cd_off,
  )

  end_marked : matches whole (length front) end_mark ≡ some true
  unfolding end_record le_bytes
  end_marked =
      matches-at front (end_record count cd_size cd_off) (length front) b'P' b'K' 5 6 refl refl refl
        refl refl

  find_eocd-written : (n : ℕ) → 1 ≤ n → find_eocd n 22 whole ≡ some (some (length front))
  unfolding find_eocd
  find_eocd-written zero h = absurd (omega (arith, h))
  find_eocd-written (suc n) h =
      let at : length whole - 22 ≡ length front = omega (arith, length-whole) in
      rw at (rw end_marked refl)

  read_directory-written :
      count < 2 ^ 16
      → cd_off < 2 ^ 32
      → cd_off < length whole
      → read_directory whole (length front) ≡ (entries_loop count whole cd_off [] >>=? nonempty)
  unfolding read_directory end_record le_bytes
  read_directory-written h k l =
      rw
        (rd16-at front (end_record count cd_size cd_off) 10 (length front + 10) (count % 256)
            (count / 256 % 256) refl refl refl
          ∙ ap (λ (x : ℕ). some x) (two_bytes count h))
        (rw
          (rd32-at front (end_record count cd_size cd_off) 16 (length front + 16) (cd_off % 256)
              (cd_off / 256 % 256) (cd_off / 256 / 256 % 256) (cd_off / 256 / 256 / 256 % 256) refl
              refl refl refl refl
            ∙ ap (λ (x : ℕ). some x) (four_bytes cd_off k))
          (rw (lt→leb (length whole) cd_off l) refl))

  zip_entries-written :
      count < 2 ^ 16
      → cd_off < 2 ^ 32
      → cd_off < length whole
      → zip_entries whole ≡ (entries_loop count whole cd_off [] >>=? nonempty)
  unfolding zip_entries
  zip_entries-written h k l = rw (le→ltb (length whole) 22 (omega (arith, length-whole))) (
      rw (find_eocd-written (min (length whole) 66000 + 1 - 22) (omega (arith, length-whole)))
        (read_directory-written h k l))

-- What an archiver can write: at least one member, of sizes and places that fit.
abbrev pub IsArchive : List Member → Type 0
IsArchive ms =
    (1 ≤ length ms) × (length ms < 2 ^ 16) × (length (locals ms) < 2 ^ 32) × AllSmall 0 ms

nonempty-entries :
    (ms : List Member)
    → 1 ≤ length ms
    → nonempty (entries 0 ms) ≡ some (Result.value (entries 0 ms))
unfolding entries
nonempty-entries [] h = absurd (omega (arith, h))
nonempty-entries (m ∷ ms) h = refl

pub zip_entries-archive :
    (ms : List Member)
    → IsArchive ms
    → zip_entries (archive ms) ≡ some (Result.value (entries 0 ms))
unfolding archive
zip_entries-archive ms h =
    let record_at = locals ms ++ centrals 0 ms in
    let end = end_record (length ms) (length (centrals 0 ms)) (length (locals ms)) in
    rw (sym (append_assoc (locals ms) (centrals 0 ms) end)) (
      zip_entries-written record_at (length ms) (length (centrals 0 ms)) (length (locals ms)) h.1
        h.2
        (omega (
          arith,
          length-append record_at end,
          length-append (locals ms) (centrals 0 ms),
          length-end_record (length ms) (length (centrals 0 ms)) (length (locals ms)),
        ))
      ∙ (ap (λ d. entries_loop (length ms) d (length (locals ms)) [] >>=? nonempty)
            (append_assoc (locals ms) (centrals 0 ms) end)
          ∙ (ap (λ o. o >>=? nonempty) (entries_loop-written ms 0 (locals ms) end [] h.3)
              ∙ nonempty-entries ms h.0)))

module _ (front rest : List ℕ) (m : Member) where
  abbrev member_bytes : List ℕ
  member_bytes = front ++ (local_member m ++ rest)

  member_length :
      length member_bytes
      ≡ length front + 30 + length m.name + length m.extra + length m.content + length rest
  unfolding local_member le_bytes
  member_length = omega (
    arith,
    length-append front (local_member m ++ rest),
    length-append (local_member m) rest,
    length-append m.name (m.extra ++ m.content),
    length-append m.extra m.content,
  )

  member_content :
      take
        (length m.content)
        (drop (length front + 30 + length m.name + length m.extra) member_bytes)
      ≡ m.content
  unfolding local_member le_bytes
  member_content =
      let at : length front + 30 + length m.name + length m.extra
          ≡ length front + (30 + (length m.name + length m.extra)) =
        omega arith in
      let fields = m.name ++ m.extra in
      let split : local_member m ++ rest ≡ local_header m ++ (fields ++ (m.content ++ rest)) =
        simp append_assoc in
      ap (λ n. take (length m.content) (drop n member_bytes)) at
      ∙ (ap (take (length m.content))
            (drop-append_add front (local_member m ++ rest) (30 + (length m.name + length m.extra)))
          ∙ (ap (λ l. take (length m.content) (drop (30 + (length m.name + length m.extra)) l))
                split
              ∙ (ap (take (length m.content)) (
                    drop-append_add (local_header m) (fields ++ (m.content ++ rest))
                      (length m.name + length m.extra))
                  ∙ (ap (λ n. take (length m.content) (drop n (fields ++ (m.content ++ rest))))
                        (sym (length-append m.name m.extra))
                      ∙ (ap (take (length m.content))
                            (drop-append_length fields (m.content ++ rest))
                          ∙ take-append_length m.content rest)))))

  local_marked : matches member_bytes (length front) local_mark ≡ some true
  unfolding local_member le_bytes
  local_marked =
      matches-at front (local_member m ++ rest) (length front) b'P' b'K' 3 4 refl refl refl refl
        refl

  name_length :
      length m.name < 2 ^ 16 → rd16 member_bytes (length front + 26) ≡ some (length m.name)
  unfolding local_member le_bytes
  name_length h =
      rd16-at front (local_member m ++ rest) 26 (length front + 26) (length m.name % 256)
        (length m.name / 256 % 256) refl refl refl
      ∙ ap (λ (x : ℕ). some x) (two_bytes (length m.name) h)

  extra_length :
      length m.extra < 2 ^ 16 → rd16 member_bytes (length front + 28) ≡ some (length m.extra)
  unfolding local_member le_bytes
  extra_length h =
      rd16-at front (local_member m ++ rest) 28 (length front + 28) (length m.extra % 256)
        (length m.extra / 256 % 256) refl refl refl
      ∙ ap (λ (x : ℕ). some x) (two_bytes (length m.extra) h)

  extract-written :
      IsSmall m
      → length front < 2 ^ 32
      → extract member_bytes
          (entry_of m (length front))
          ((length front + 30 + length m.name + length m.extra) % 2 ^ 64)
        ≡ some (Result.value m.content)
  unfolding extract
  extract-written h k =
      let start : (length front + 30 + length m.name + length m.extra) % 2 ^ 64
          ≡ length front + 30 + length m.name + length m.extra =
        omega (arith, h.0, h.2, k) in
      let end : (length front + 30 + length m.name + length m.extra + length m.content) % 2 ^ 64
          ≡ length front + 30 + length m.name + length m.extra + length m.content =
        omega (arith, h.0, h.1, h.2, k) in
      rw start (
        rw end (
          rw
            (le→ltb (length member_bytes)
              (length front + 30 + length m.name + length m.extra + length m.content)
              (omega (arith, member_length)))
            (rw member_content refl)))

  zip_read-written :
      IsSmall m
      → length front < 2 ^ 32
      → zip_read member_bytes (entry_of m (length front)) ≡ some (Result.value m.content)
  unfolding zip_read
  zip_read-written h k =
      let start : (length front + 30) % 2 ^ 64 ≡ length front + 30 = omega (arith, k) in
      rw start (
        rw (le→ltb (length member_bytes) (length front + 30) (omega (arith, member_length)))
          (rw local_marked (rw (name_length h.0) (rw (extra_length h.2) (extract-written h k)))))

-- The first member of a name.
abbrev NotNamed : List ℕ → Member → Type 0
NotNamed name m = m.name ≢ name

-- The members before one, and the entry that the directory has for it.
find_entry-entries :
    (front back : List Member) (m : Member) (offset : ℕ)
    → All (NotNamed m.name) front
    → find_entry m.name (entries offset (front ++ m ∷ back))
      ≡ some (entry_of m (offset + length (locals front)))
unfolding find_entry entries locals
find_entry-entries [] back m offset h =
    let at : offset ≡ offset + 0 = omega arith in
    rw (text_eq_refl m.name) (ap (λ n. some (entry_of m n)) at)
find_entry-entries (other ∷ front) back m offset h =
    let at : offset + length (local_member other) + length (locals front)
        ≡ offset + length (local_member other ++ locals front) =
      omega (arith, length-append (local_member other) (locals front)) in
    rw (text_eq_differ other.name m.name h.0) (
      find_entry-entries front back m (offset + length (local_member other)) h.1
      ∙ ap (λ n. some (entry_of m n)) at)

locals-append : (front back : List Member) → locals (front ++ back) ≡ locals front ++ locals back
unfolding locals
locals-append [] back = refl
locals-append (m ∷ front) back =
    ap (λ l. local_member m ++ l) (locals-append front back)
    ∙ sym (append_assoc (local_member m) (locals front) (locals back))

AllSmall-middle :
    (offset : ℕ) (front : List Member) (m : Member) (back : List Member)
    → AllSmall offset (front ++ m ∷ back)
    → IsSmall m × (offset + length (locals front) < 2 ^ 32)
unfolding locals
AllSmall-middle offset [] m back h = (h.0, omega (arith, h.1))
AllSmall-middle offset (n ∷ front) m back h =
    let (small, at) = AllSmall-middle (offset + length (local_member n)) front m back h.2 in
    (small, omega (arith, at, length-append (local_member n) (locals front)))

abbrev directory_of : List Member → List ℕ
directory_of ms =
    centrals 0 ms ++ end_record (length ms) (length (centrals 0 ms)) (length (locals ms))

archive-split :
    (front : List Member) (m : Member) (back : List Member)
    → archive (front ++ m ∷ back)
      ≡ locals front ++ (local_member m ++ (locals back ++ directory_of (front ++ m ∷ back)))
unfolding archive locals
archive-split front m back =
    let rest = directory_of (front ++ m ∷ back) in
    ap (λ l. l ++ rest) (locals-append front (m ∷ back))
    ∙ (append_assoc (locals front) (local_member m ++ locals back) rest
        ∙ ap (λ l. locals front ++ l) (append_assoc (local_member m) (locals back) rest))

read-archive :
    (front back : List Member) (m : Member)
    → IsSmall m
    → 0 + length (locals front) < 2 ^ 32
    → zip_read (archive (front ++ m ∷ back)) (entry_of m (0 + length (locals front)))
      ≡ some (Result.value m.content)
read-archive front back m h k =
    let at : 0 + length (locals front) ≡ length (locals front) = omega arith in
    ap (λ d. zip_read d (entry_of m (0 + length (locals front)))) (archive-split front m back)
    ∙ (ap
          (λ n.
            zip_read
              (locals front
                ++ (local_member m ++ (locals back ++ directory_of (front ++ m ∷ back))))
              (entry_of m n))
          at
        ∙ zip_read-written (locals front) (locals back ++ directory_of (front ++ m ∷ back)) m h
            (omega (arith, k)))

-- An archive of stored members, of sizes and places that fit, with any header fields, extra fields and
-- comments of its members and without a comment of its own, gives back for each name the bytes of
-- the first member of that name.
pub zip_read_name-archive :
    (front : List Member) (m : Member) (back : List Member)
    → IsArchive (front ++ m ∷ back)
    → All (NotNamed m.name) front
    → zip_read_name (archive (front ++ m ∷ back)) m.name ≡ some (Result.value m.content)
unfolding zip_read_name
zip_read_name-archive front m back h k =
    let ms : List Member = front ++ m ∷ back in
    let (small, at) = AllSmall-middle 0 front m back h.3 in
    rw (zip_entries-archive ms h)
      (rw (find_entry-entries front back m 0 k) (read-archive front back m small at))
