-- ===== src/Loaders/Ooxml.antt =====
-- The documents of src/loaders/ooxml.cpp: Word, Excel, PowerPoint, OpenDocument and EPUB. In
-- `Option (Result A)`, `none` is a read outside of the bytes or a loop out of fuel.
pub mod Total
pub mod Sheets
pub mod Docx
use rag_cpp.Common.{
  ℕ, zero, suc, ◌+◌, ◌-◌, ◌<◌, Bool, true, false, not, ◌&&◌, ◌||◌, Option, none, some, List, [],
  ◌∷◌, ◌++◌, map, length, get_elem?, take, drop, ltb, leb, ◌==◌, if◌then◌else◌,
}
use rag_cpp.Common.SortedMap.{find, insert_or_assign}
use rag_cpp.Core.{Errc, Result, bytes, text_eq, text_lt, text_order, is_empty, to_string}
use rag_cpp.Loaders.Bits.{◌>>=?◌}
use rag_cpp.Loaders.Zip.{ZipEntry, zip_entries, zip_read, zip_read_name, and_then}
use rag_cpp.Loaders.Xml.{ooxml_xml_to_text, split_at, before}

pub data ℤ : Type 0 where
  pos negsuc : ℕ → ℤ

abbrev pub less : ℤ → ℤ → Bool
less (pos a) (pos b) = ltb a b
less (pos a) (negsuc b) = false
less (negsuc a) (pos b) = true
less (negsuc a) (negsuc b) = ltb b a

-- `strtoul` and `strtol` of the C library, the latter to the base 10.
pub record Library : Type 0 where
  pub strtoul : List ℕ → ℕ → ℕ
  pub strtol : List ℕ → ℤ

abbrev pub parse_error : {A : Type 0} → Option (Result A)
parse_error = some (Result.fail Errc.parse_error)

abbrev pub blank_line : List ℕ
blank_line = b'\n' ∷ b'\n' ∷ []

unfoldable pub starts_with : List ℕ → List ℕ → Bool
starts_with [] s = true
starts_with (p ∷ ps) [] = false
starts_with (p ∷ ps) (c ∷ s) = p == c && starts_with ps s

-- `s.find(pattern)`: what stands before the first match, and the text from the match on.
unfoldable pub find_text : List ℕ → List ℕ → Option (List ℕ × List ℕ)
find_text pattern [] = if is_empty pattern then some ([], []) else none
find_text pattern (c ∷ s) =
    let rest = find_text pattern s in
    if starts_with pattern (c ∷ s) then some ([], c ∷ s) else before c rest

-- Where the next `<row` and the next `<c ` stand, and what the loop does there.
pub data Mark : Type 0 where
  at_end : Mark
  at_row : List ℕ → Mark
  skip_cell : List ℕ → Mark
  at_cell : List ℕ → List ℕ → Mark

module _ (lib : Library) where
  abbrev pub xml_text : List ℕ → Option (List ℕ)
  xml_text xml = ooxml_xml_to_text lib.strtoul xml

  abbrev pub add_text : Result (List ℕ) → (List ℕ → List ℕ) → List ℕ → Option (List ℕ)
  add_text (Result.fail e) format out = some out
  add_text (Result.value xml) format out =
      xml_text xml >>=? λ t. some (if is_empty t then out else out ++ format t)

  -- The text of each part that has the property, formatted, behind `out`.
  unfoldable pub add_parts :
      List ℕ → (ZipEntry → Bool) → (List ℕ → List ℕ) → List ZipEntry → List ℕ → Option (List ℕ)
  add_parts d wanted format [] out = some out
  add_parts d wanted format (e ∷ es) out =
      (if wanted e then (zip_read d e >>=? λ part. add_text part format out) else some out)
      >>=? λ more. add_parts d wanted format es more

  abbrev pub is_note : ZipEntry → Bool
  is_note e =
      text_eq e.name (bytes "word/footnotes.xml") || text_eq e.name (bytes "word/endnotes.xml")

  abbrev pub after_blank : List ℕ → List ℕ
  after_blank t = blank_line ++ t

  abbrev pub with_notes : List ℕ → Result (List ZipEntry) → List ℕ → Option (Result (List ℕ))
  with_notes d (Result.fail e) text = some (Result.value text)
  with_notes d (Result.value es) text =
      add_parts d is_note after_blank es text >>=? λ out. some (Result.value out)

  unfoldable pub docx_to_text : List ℕ → Option (Result (List ℕ))
  docx_to_text d = zip_read_name d (bytes "word/document.xml") >>=? λ doc.
      and_then doc
        λ xml. xml_text xml >>=? λ text. zip_entries d >>=? λ entries. with_notes d entries text

  -- The strings between `<si` and `</si>`. Each round takes a byte.
  abbrev pub after_close :
      Option (List ℕ × List ℕ) → (List ℕ → List ℕ → Option (List (List ℕ))) → Option (List (List ℕ))
  after_close none go = some []
  after_close (some (item, rest)) go = go item (drop 5 rest)

  abbrev pub from_open :
      Option (List ℕ × List ℕ) → (List ℕ → List ℕ → Option (List (List ℕ))) → Option (List (List ℕ))
  from_open none go = some []
  from_open (some (skipped, text)) go = after_close (find_text (bytes "</si>") text) go

  unfoldable pub shared_strings : ℕ → List ℕ → Option (List (List ℕ))
  shared_strings zero x = none
  shared_strings (suc n) x =
      from_open (find_text (bytes "<si") x)
        λ item rest. xml_text item >>=? λ t. shared_strings n rest >>=? λ ts. some (t ∷ ts)

  abbrev pub strings_of : Result (List ℕ) → Option (List (List ℕ))
  strings_of (Result.fail e) = some []
  strings_of (Result.value x) = shared_strings (suc (length x)) x

  unfoldable pub shared_table : List ℕ → List ZipEntry → Option (List (List ℕ))
  shared_table d [] = some []
  shared_table d (e ∷ es) =
      if text_eq e.name (bytes "xl/sharedStrings.xml")
      then (zip_read d e >>=? strings_of)
      else shared_table d es

  abbrev pub or_empty : Option (List ℕ) → List ℕ
  or_empty none = []
  or_empty (some s) = s

  abbrev pub shared_at : List (List ℕ) → ℤ → List ℕ
  shared_at shared (pos i) = or_empty (get_elem? shared i)
  shared_at shared (negsuc i) = []

  abbrev pub is_some : Option (List ℕ × List ℕ) → Bool
  is_some none = false
  is_some (some p) = true

  unfoldable pub cell_text : List (List ℕ) → List ℕ → Option (List ℕ)
  cell_text shared cell = xml_text cell >>=? λ v.
      some
        (if is_some (find_text (bytes "t=\"s\"") cell) then shared_at shared (lib.strtol v) else v)

  -- `if (!row.empty()) { out += row; out += '\n'; }`
  abbrev pub end_row : List ℕ → List ℕ → List ℕ
  end_row row out = if is_empty row then out else out ++ (row ++ b'\n' ∷ [])

  abbrev pub add_cell : List ℕ → List ℕ → List ℕ
  add_cell v row = if is_empty v then row else (if is_empty row then v else row ++ b'\t' ∷ v)

  -- `cend == npos || (selfclose != npos && selfclose < cend)`, both sought from the cell on.
  abbrev pub cell_mark : List ℕ → Option (List ℕ × List ℕ) → Option (List ℕ × List ℕ) → Mark
  cell_mark text none close = skip_cell (drop 3 text)
  cell_mark text (some (cell, rest)) none = at_cell cell (drop 4 rest)
  cell_mark text (some (cell, rest)) (some (inner, rest2)) =
      if ltb (length inner) (length cell)
      then skip_cell (drop 3 text)
      else at_cell cell (drop 4 rest)

  abbrev pub mark_cell : List ℕ → Mark
  mark_cell text = cell_mark text (find_text (bytes "</c>") text) (find_text (bytes "/>") text)

  abbrev pub first_mark : Option (List ℕ × List ℕ) → Option (List ℕ × List ℕ) → Mark
  first_mark none none = at_end
  first_mark none (some (skipped, row)) = at_row (drop 4 row)
  first_mark (some (skipped, cell)) none = mark_cell cell
  first_mark (some (skipped, cell)) (some (skipped2, row)) =
      if ltb (length skipped2) (length skipped) then at_row (drop 4 row) else mark_cell cell

  abbrev pub next_mark : List ℕ → Mark
  next_mark text = first_mark (find_text (bytes "<c ") text) (find_text (bytes "<row") text)

  abbrev pub Rows : Type 0
  Rows = List ℕ → List ℕ → List ℕ → Option (List ℕ)

  abbrev pub on_mark : List (List ℕ) → Mark → List ℕ → List ℕ → Rows → Option (List ℕ)
  on_mark shared at_end row out go = some (end_row row out)
  on_mark shared (at_row text) row out go = go text [] (end_row row out)
  on_mark shared (skip_cell text) row out go = go text row out
  on_mark shared (at_cell cell text) row out go =
      cell_text shared cell >>=? λ v. go text (add_cell v row) out

  -- The rows of a sheet; each round takes a byte.
  unfoldable pub sheet_rows : ℕ → List (List ℕ) → List ℕ → List ℕ → List ℕ → Option (List ℕ)
  sheet_rows zero shared text row out = none
  sheet_rows (suc n) shared text row out =
      on_mark shared (next_mark text) row out λ text2 row2 out2. sheet_rows n shared text2 row2 out2

  abbrev pub worksheets : List ℕ
  worksheets = bytes "xl/worksheets/"

  abbrev pub sheet_heading : ZipEntry → List ℕ → List ℕ
  sheet_heading e out =
      (if is_empty out then out else out ++ b'\n' ∷ [])
      ++ (bytes "# " ++ (drop (length worksheets) e.name ++ b'\n' ∷ []))

  abbrev pub add_sheet : List (List ℕ) → ZipEntry → List ℕ → Result (List ℕ) → Option (List ℕ)
  add_sheet shared e out (Result.fail err) = some out
  add_sheet shared e out (Result.value x) =
      sheet_rows (suc (length x)) shared x [] (sheet_heading e out)

  unfoldable pub add_sheets : List ℕ → List (List ℕ) → List ZipEntry → List ℕ → Option (List ℕ)
  unfolding sheet_rows
  add_sheets d shared [] out = some out
  add_sheets d shared (e ∷ es) out =
      (if starts_with (bytes "xl/worksheets/sheet") e.name
        then (zip_read d e >>=? add_sheet shared e out)
        else some out)
      >>=? λ more. add_sheets d shared es more

  abbrev pub or_parse_error : List ℕ → Option (Result (List ℕ))
  or_parse_error out = if is_empty out then parse_error else some (Result.value out)

  unfoldable pub xlsx_to_text : List ℕ → Option (Result (List ℕ))
  unfolding shared_table add_sheets
  xlsx_to_text d = zip_entries d >>=? λ entries.
      and_then entries
        λ es. shared_table d es >>=? λ shared. add_sheets d shared es [] >>=? or_parse_error
