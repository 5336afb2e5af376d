-- ===== src/Store/Container.antt =====
-- The sectioned `.ragdb` container: include/rag/store/container.hpp, and `serialize` and `parse` of
-- src/store/container.cpp. Sections are a `std::map` from the tag to the payload.
pub mod Layout
pub mod RoundTrip
pub mod Bounds
use rag_cpp.Common.{
  ℕ, zero, suc, ◌+◌, ◌-◌, ◌*◌, ◌/◌, ◌%◌, ◌^◌, Bool, true, false, not, ◌||◌, Option, none, some,
  List, [], ◌∷◌, ◌++◌, length, take, drop, ltb, ◌==◌, if◌then◌else◌,
}
use rag_cpp.Common.SortedMap.{find, insert_or_assign}
use rag_cpp.Core.{Result, value, fail, corrupt_index, text_eq, nat_order}
use rag_cpp.Store.Format.{
  magic, format_major, format_minor, write_u, write_bytes, le_value, Reader, Read, read_u,
  read_bytes, reader, pure, guard, from_option, ◌>>=◌, ◌>>◌,
}
use rag_cpp.Store.Crc.{crc32}

pub record Container : Type 0 where
  pub sections : List (ℕ × List ℕ)
  pub flags : ℕ
  pub major : ℕ
  pub minor : ℕ

abbrev pub empty : Container
empty = record { sections = []; flags = 0; major = format_major; minor = format_minor }

unfoldable pub put_raw : ℕ → List ℕ → Container → Container
put_raw tag payload c = record c { sections = insert_or_assign nat_order tag payload c.sections }

unfoldable pub get : ℕ → Container → Option (List ℕ)
get tag c = find nat_order tag c.sections

unfoldable pub has : ℕ → Container → Bool
unfolding get
has tag c = elim (get tag c) [ none ↦ false | some p ↦ true ]

unfoldable pub set_flags : ℕ → Container → Container
set_flags f c = record c { flags = f }

-- The section table. `cursor` is the 64-bit offset of the next payload.
unfoldable pub write_table : ℕ → List (ℕ × List ℕ) → List ℕ → List ℕ
write_table cursor [] w = w
write_table cursor ((tag, payload) ∷ ss) w =
    write_table ((cursor + length payload) % 2 ^ 64) ss
      (write_u 8 (length payload % 2 ^ 64) (write_u 8 cursor (write_u 4 tag w)))

unfoldable pub write_payloads : List (ℕ × List ℕ) → List ℕ → List ℕ
write_payloads [] w = w
write_payloads ((tag, payload) ∷ ss) w = write_payloads ss (write_bytes payload w)

unfoldable pub write_header : Container → List ℕ
write_header c = write_u 8 0 (
    write_u 4 (length c.sections % 2 ^ 32)
      (write_u 4 c.flags (write_u 2 c.minor (write_u 2 c.major (write_bytes magic [])))))

abbrev pub header_size : ℕ
header_size = 8 + 2 + 2 + 4 + 4 + 8

abbrev pub entry_size : ℕ
entry_size = 4 + 8 + 8

unfoldable pub serialize : Container → List ℕ
unfolding write_header write_table write_payloads
serialize c =
    let cursor = (header_size + entry_size * length c.sections) % 2 ^ 64 in
    let w = write_payloads c.sections (write_table cursor c.sections (write_header c)) in
    write_u 4 (crc32 w) w

pub record Entry : Type 0 where
  pub tag : ℕ
  pub off : ℕ
  pub len : ℕ

unfoldable pub read_entries : ℕ → Read (List Entry)
read_entries zero = pure []
read_entries (suc n) = do
  tag ← read_u 4
  off ← read_u 8
  len ← read_u 8
  rest ← read_entries n
  pure (record { tag = tag; off = off; len = len } ∷ rest)

-- `e.off > limit || e.len > limit - e.off`
abbrev pub out_of_bounds : ℕ → Entry → Bool
out_of_bounds limit e = ltb limit e.off || ltb (limit - e.off) e.len

unfoldable pub load_sections : List ℕ → List Entry → List (ℕ × List ℕ) → Option (List (ℕ × List ℕ))
load_sections blob [] m = some m
load_sections blob (e ∷ es) m =
    if out_of_bounds (length blob - 4) e
    then none
    else load_sections blob es (insert_or_assign nat_order e.tag (take e.len (drop e.off blob)) m)

-- The fields behind the checksum. Whatever is wrong is reported as `corrupt_index`.
unfoldable pub parse_fields : List ℕ → Read Container
unfolding read_entries load_sections
parse_fields blob = do
  m ← read_bytes 8
  guard (text_eq m magic)
  major ← read_u 2
  minor ← read_u 2
  guard (major == format_major)
  flags ← read_u 4
  nsections ← read_u 4
  reserved ← read_u 8
  guard (not (ltb (length blob / entry_size) nsections))
  entries ← read_entries nsections
  sections ← from_option (load_sections blob entries [])
  pure (record { sections = sections; flags = flags; major = major; minor = minor })

abbrev pub to_result {ℓ} : {A : Type ℓ} → Option A × Reader → Result A
to_result (none, r) = fail corrupt_index
to_result (some a, r) = value a

abbrev pub body : List ℕ → List ℕ
body blob = take (length blob - 4) blob

abbrev pub stored_crc : List ℕ → ℕ
stored_crc blob = le_value (drop (length blob - 4) blob)

unfoldable pub parse : List ℕ → Result Container
parse blob =
    if ltb (length blob) (28 + 4)
    then fail corrupt_index
    else if not (crc32 (body blob) == stored_crc blob)
    then fail corrupt_index
    else to_result (parse_fields blob (reader blob))
