-- ===== src/Loaders/Xml.antt =====
-- `ooxml_xml_to_text` of src/loaders/ooxml.cpp. A position is the text that is left. `strtoul` of the
-- C library, of a text and a base, is a parameter.
pub mod Tidy
pub mod Paragraphs
use rag_cpp.Common.{
  ℕ, zero, suc, ◌+◌, ◌-◌, ◌*◌, ◌/◌, ◌%◌, Bool, true, false, not, ◌&&◌, ◌||◌, Option, none, some,
  List, [], ◌∷◌, ◌++◌, length, take, drop, ltb, leb, ◌==◌, if◌then◌else◌,
}
use rag_cpp.Core.{bytes, text_eq, is_empty}

-- The text before the first `c`, and the text behind it.
abbrev pub before : ℕ → Option (List ℕ × List ℕ) → Option (List ℕ × List ℕ)
before x none = none
before x (some (s, rest)) = some (x ∷ s, rest)

unfoldable pub split_at : ℕ → List ℕ → Option (List ℕ × List ℕ)
split_at c [] = none
split_at c (x ∷ s) = let rest = split_at c s in if x == c then some ([], s) else before x rest

-- The bytes of a code point in UTF-8.
unfoldable pub utf8 : ℕ → List ℕ
utf8 cp =
    if ltb cp 0x80
    then cp ∷ []
    else if ltb cp 0x800
    then (0xC0 + cp / 64) ∷ (0x80 + cp % 64) ∷ []
    else if ltb cp 0x10000
    then (0xE0 + cp / 4096) ∷ (0x80 + cp / 64 % 64) ∷ (0x80 + cp % 64) ∷ []
    else (0xF0 + cp / 262144)
      ∷ (0x80 + cp / 4096 % 64)
      ∷ (0x80 + cp / 64 % 64)
      ∷ (0x80 + cp % 64)
      ∷ []

abbrev pub in_unicode : ℕ → List ℕ
in_unicode cp = if cp == 0 || ltb 0x10FFFF cp then [] else utf8 cp

-- A reference without its `&#`.
unfoldable pub code_point : (List ℕ → ℕ → ℕ) → List ℕ → ℕ
code_point strtoul [] = strtoul [] 10
code_point strtoul (x ∷ []) = strtoul (x ∷ []) 10
code_point strtoul (x ∷ (y ∷ ent)) =
    if x == b'x' || x == b'X' then strtoul (y ∷ ent) 16 else strtoul (x ∷ (y ∷ ent)) 10

abbrev pub numeric : (List ℕ → ℕ → ℕ) → List ℕ → List ℕ
numeric strtoul [] = []
numeric strtoul (x ∷ ent) = if x == b'#' then in_unicode (code_point strtoul ent) else []

-- What `decode_entity` appends.
unfoldable pub decode_entity : (List ℕ → ℕ → ℕ) → List ℕ → List ℕ
decode_entity strtoul ent =
    if text_eq ent (bytes "amp")
    then bytes "&"
    else if text_eq ent (bytes "lt")
    then bytes "<"
    else if text_eq ent (bytes "gt")
    then bytes ">"
    else if text_eq ent (bytes "quot")
    then b'"' ∷ []
    else if text_eq ent (bytes "apos")
    then bytes "'"
    else if text_eq ent (bytes "nbsp")
    then bytes " "
    else numeric strtoul ent

unfoldable pub name_part : List ℕ → List ℕ
name_part [] = []
name_part (c ∷ tag) =
    let rest = name_part tag in if c == b' ' || c == b'/' || c == b'>' then [] else c ∷ rest

abbrev pub behind_prefix : List ℕ → Option (List ℕ × List ℕ) → List ℕ
behind_prefix name none = name
behind_prefix name (some (prefix, rest)) = rest

unfoldable pub local_name : List ℕ → List ℕ
local_name tag = behind_prefix (name_part tag) (split_at b':' (name_part tag))

pub record Scan : Type 0 where
  pub out : List ℕ
  pub skipping : Bool
  pub table_depth : ℕ

-- `out.empty() || out.back() == c`
abbrev pub ends_in : ℕ → List ℕ → Bool
ends_in c [] = true
ends_in c (x ∷ []) = x == c
ends_in c (x ∷ (y ∷ s)) = ends_in c (y ∷ s)

abbrev pub newline : Scan → Scan
newline s = record s { out = if ends_in b'\n' s.out then s.out else s.out ++ b'\n' ∷ [] }

abbrev pub tab : Scan → Scan
tab s = record s {
  out = if ends_in b'\n' s.out || ends_in b'\t' s.out then s.out else s.out ++ b'\t' ∷ [];
}

-- The depth is cut off at zero, as `-` is.
abbrev pub with_depth : Bool → Scan → Scan
with_depth closing s = record s {
  table_depth = if closing then s.table_depth - 1 else s.table_depth + 1;
}

abbrev pub one_of : List ℕ → List (List ℕ) → Bool
one_of name [] = false
one_of name (n ∷ names) = text_eq name n || one_of name names

unfoldable pub on_name : Bool → List ℕ → Scan → Scan
on_name closing name s =
    if one_of name (bytes "tbl" ∷ bytes "table" ∷ [])
    then newline (with_depth closing s)
    else if one_of name (bytes "tr" ∷ bytes "table-row" ∷ [])
    then newline s
    else if one_of name
        (bytes "p" ∷ bytes "br" ∷ bytes "sectPr" ∷ bytes "h" ∷ bytes "line-break" ∷ [])
    then (if ltb 0 s.table_depth then tab s else newline s)
    else if one_of name (bytes "tab" ∷ bytes "tc" ∷ bytes "table-cell" ∷ [])
    then tab s
    else if one_of name (bytes "delText" ∷ bytes "instrText" ∷ bytes "tracked-changes" ∷ [])
    then record s { skipping = not closing }
    else s

unfoldable pub on_tag : List ℕ → Scan → Scan
on_tag [] s = on_name false (local_name []) s
on_tag (c ∷ tag) s =
    if c == b'/' then on_name true (local_name tag) s else on_name false (local_name (c ∷ tag)) s

abbrev pub append : List ℕ → Scan → Scan
append text s = record s { out = if s.skipping then s.out else s.out ++ text }

-- The rest and the state after it; `none` is a `break`.
abbrev pub after_tag : Option (List ℕ × List ℕ) → Scan → Option (List ℕ × Scan)
after_tag none s = none
after_tag (some (tag, rest)) s = some (rest, on_tag tag s)

-- `semi - i <= 10`, where `ent` stands between the two places.
abbrev pub after_entity :
    (List ℕ → ℕ → ℕ) → List ℕ → Option (List ℕ × List ℕ) → Scan → List ℕ × Scan
after_entity strtoul text none s = (text, append (b'&' ∷ []) s)
after_entity strtoul text (some (ent, rest)) s =
    if leb (length ent + 1) 10
    then (rest, append (decode_entity strtoul ent) s)
    else (text, append (b'&' ∷ []) s)

-- A round of the loop at the byte `c`, before `text`.
unfoldable pub scan_step : (List ℕ → ℕ → ℕ) → ℕ → List ℕ → Scan → Option (List ℕ × Scan)
scan_step strtoul c text s =
    if c == b'<'
    then after_tag (split_at b'>' text) s
    else if c == b'&'
    then some (after_entity strtoul text (split_at b';' text) s)
    else some (text, append (c ∷ []) s)

abbrev pub scan_next : Option (List ℕ × Scan) → Scan → (List ℕ → Scan → Option Scan) → Option Scan
scan_next none s go = some s
scan_next (some (text, t)) s go = go text t

-- `none` is a loop that has run out of fuel.
unfoldable pub scan_loop : ℕ → (List ℕ → ℕ → ℕ) → List ℕ → Scan → Option Scan
scan_loop n strtoul [] s = some s
scan_loop zero strtoul (c ∷ text) s = none
scan_loop (suc n) strtoul (c ∷ text) s =
    scan_next (scan_step strtoul c text s) s λ rest t. scan_loop n strtoul rest t

-- A newline is left out where there were two since the last byte that is neither a newline nor
-- blank.
unfoldable pub squeeze : ℕ → List ℕ → List ℕ
squeeze nl [] = []
squeeze nl (c ∷ out) =
    let rest =
      squeeze (if c == b'\n' then nl + 1 else if c == b' ' || c == b'\t' then nl else 0) out in
    if c == b'\n' && ltb 2 (nl + 1) then rest else c ∷ rest

unfoldable pub trim_end : List ℕ → List ℕ
trim_end [] = []
trim_end (c ∷ s) =
    let rest = trim_end s in if is_empty rest && (c == b'\n' || c == b' ') then [] else c ∷ rest

unfoldable pub tidy : List ℕ → List ℕ
unfolding squeeze trim_end
tidy out = trim_end (squeeze 0 out)

abbrev pub tidied : Option Scan → Option (List ℕ)
tidied none = none
tidied (some s) = some (tidy s.out)

abbrev pub scan_start : Scan
scan_start = record { out = []; skipping = false; table_depth = 0 }

-- A round of the loop takes a byte.
unfoldable pub ooxml_xml_to_text : (List ℕ → ℕ → ℕ) → List ℕ → Option (List ℕ)
unfolding scan_loop
ooxml_xml_to_text strtoul xml = tidied (scan_loop (length xml) strtoul xml scan_start)
