-- ===== src/Loaders/Zip.antt =====
-- The archive reader of src/loaders/ooxml.cpp. In `Option (Result A)`, `none` is a read outside of
-- the bytes.
pub mod Total
pub mod Reading
pub mod Written
pub mod RoundTrip
use rag_cpp.Common.{
  ℕ, zero, suc, ◌+◌, ◌-◌, ◌%◌, ◌^◌, min, Bool, true, false, ◌&&◌, Option, none, some, List, [], ◌∷◌,
  ◌++◌, length, get_elem?, take, drop, ltb, leb, ◌==◌, if◌then◌else◌,
}
use rag_cpp.Core.{Errc, Result, text_eq, is_empty}
use rag_cpp.Loaders.Bits.{rd16, rd32, ◌>>=?◌}
use rag_cpp.Loaders.Inflate.{inflate_raw}

pub record ZipEntry : Type 0 where
  pub name : List ℕ
  pub offset : ℕ
  pub comp_size : ℕ
  pub uncomp_size : ℕ
  pub method : ℕ

abbrev pub invalid : {A : Type 0} → Option (Result A)
invalid = some (Result.fail Errc.invalid_argument)

abbrev pub both : Option Bool → (Unit {0} → Option Bool) → Option Bool
both none k = none
both (some false) k = some false
both (some true) k = k tt

-- `d[at] == … && d[at + 1] == … && …`, read from the left until one differs.
unfoldable pub matches : List ℕ → ℕ → List ℕ → Option Bool
matches d i [] = some true
matches d i (b ∷ bs) = both (get_elem? d i >>=? λ x. some (x == b)) λ _. matches d (i + 1) bs

abbrev pub local_mark : List ℕ
local_mark = b'P' ∷ b'K' ∷ 3 ∷ 4 ∷ []

abbrev pub central_mark : List ℕ
central_mark = b'P' ∷ b'K' ∷ 1 ∷ 2 ∷ []

abbrev pub end_mark : List ℕ
end_mark = b'P' ∷ b'K' ∷ 5 ∷ 6 ∷ []

unfoldable pub looks_like_zip : List ℕ → Option Bool
looks_like_zip b = if leb 4 (length b) then matches b 0 local_mark else some false

abbrev pub found_at : Option Bool → ℕ → Option (Option ℕ) → Option (Option ℕ)
found_at none i rest = none
found_at (some true) i rest = some (some i)
found_at (some false) i rest = rest

-- The rounds from `back` on. The result is the place of the record, if it is found.
unfoldable pub find_eocd : ℕ → ℕ → List ℕ → Option (Option ℕ)
find_eocd zero back d = some none
find_eocd (suc n) back d =
    found_at (matches d (length d - back) end_mark) (length d - back) (find_eocd n (back + 1) d)

abbrev pub named : List ℕ → ℕ → ZipEntry → ℕ → ℕ → ℕ → Option (ZipEntry × ℕ)
named d p e nlen elen clen =
    if leb (p + 46 + nlen) (length d)
    then some (record e { name = take nlen (drop (p + 46) d) }, p + (46 + nlen + elen + clen))
    else none

unfoldable pub read_entry : List ℕ → ℕ → Option (Option (ZipEntry × ℕ))
read_entry d p = rd16 d (p + 10) >>=? λ method. rd32 d (p + 20) >>=? λ comp_size.
    rd32 d (p + 24) >>=? λ uncomp_size. rd16 d (p + 28) >>=? λ nlen. rd16 d (p + 30) >>=? λ elen.
    rd16 d (p + 32) >>=? λ clen. rd32 d (p + 42) >>=? λ offset. some (
      named d p
        (record {
          name = [];
          offset = offset;
          comp_size = comp_size;
          uncomp_size = uncomp_size;
          method = method;
        })
        nlen elen clen)

abbrev pub if_marked : Option Bool → Option (Option (ZipEntry × ℕ)) → Option (Option (ZipEntry × ℕ))
if_marked none o = none
if_marked (some false) o = some none
if_marked (some true) o = o

-- A round of the loop: the entry at `p` and the place behind it, or `none` for a `break`.
unfoldable pub entry_at : List ℕ → ℕ → Option (Option (ZipEntry × ℕ))
entry_at d p =
    if leb (p + 46) (length d)
    then if_marked (matches d p central_mark) (read_entry d p)
    else some none

abbrev pub with_entry :
    Option (ZipEntry × ℕ)
    → List ZipEntry
    → (ℕ → List ZipEntry → Option (List ZipEntry))
    → Option (List ZipEntry)
with_entry none out go = some out
with_entry (some (e, p)) out go = go p (out ++ e ∷ [])

unfoldable pub entries_loop : ℕ → List ℕ → ℕ → List ZipEntry → Option (List ZipEntry)
entries_loop zero d p out = some out
entries_loop (suc n) d p out =
    entry_at d p >>=? λ o. with_entry o out λ p2 out2. entries_loop n d p2 out2

abbrev pub nonempty : List ZipEntry → Option (Result (List ZipEntry))
nonempty [] = invalid
nonempty (e ∷ es) = some (Result.value (e ∷ es))

unfoldable pub read_directory : List ℕ → ℕ → Option (Result (List ZipEntry))
read_directory d eocd = rd16 d (eocd + 10) >>=? λ count. rd32 d (eocd + 16) >>=? λ cd_off.
    if leb (length d) cd_off then invalid else (entries_loop count d cd_off [] >>=? nonempty)

abbrev pub with_eocd : List ℕ → Option ℕ → Option (Result (List ZipEntry))
with_eocd d none = invalid
with_eocd d (some eocd) = read_directory d eocd

unfoldable pub zip_entries : List ℕ → Option (Result (List ZipEntry))
zip_entries d =
    if ltb (length d) 22
    then invalid
    else (find_eocd (min (length d) 66000 + 1 - 22) 22 d >>=? with_eocd d)

unfoldable pub extract : List ℕ → ZipEntry → ℕ → Option (Result (List ℕ))
extract d e start =
    if ltb (length d) ((start + e.comp_size) % 2 ^ 64)
    then invalid
    else if e.method == 0
    then some (Result.value (take e.comp_size (drop start d)))
    else if e.method == 8
    then inflate_raw (take e.comp_size (drop start d))
    else some (Result.fail Errc.parse_error)

abbrev pub if_local : Option Bool → Option (Result (List ℕ)) → Option (Result (List ℕ))
if_local none o = none
if_local (some false) o = invalid
if_local (some true) o = o

-- `e.offset` is a `std::size_t`, so that the sums wrap. The size of the entry is only a hint.
unfoldable pub zip_read : List ℕ → ZipEntry → Option (Result (List ℕ))
unfolding extract
zip_read d e =
    if ltb (length d) ((e.offset + 30) % 2 ^ 64)
    then invalid
    else if_local (matches d e.offset local_mark) (
        rd16 d (e.offset + 26) >>=? λ nlen.
        rd16 d (e.offset + 28) >>=? λ elen. extract d e ((e.offset + 30 + nlen + elen) % 2 ^ 64))

unfoldable pub find_entry : List ℕ → List ZipEntry → Option ZipEntry
find_entry name [] = none
find_entry name (e ∷ es) = if text_eq e.name name then some e else find_entry name es

abbrev pub read_found : List ℕ → Option ZipEntry → Option (Result (List ℕ))
read_found d none = some (Result.fail Errc.not_found)
read_found d (some e) = zip_read d e

abbrev pub and_then : {A B : Type 0} → Result A → (A → Option (Result B)) → Option (Result B)
and_then (Result.value a) k = k a
and_then (Result.fail e) k = some (Result.fail e)

unfoldable pub zip_read_name : List ℕ → List ℕ → Option (Result (List ℕ))
zip_read_name d name =
    zip_entries d >>=? λ entries. and_then entries λ es. read_found d (find_entry name es)
