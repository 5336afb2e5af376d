-- ===== src/Loaders/Documents.antt =====
-- The other documents of src/loaders/ooxml.cpp, and the choice between them. A loop on fuel gives
-- `none` where the fuel runs out.
use rag_cpp.Common.{
  ℕ, zero, suc, ◌+◌, ◌-◌, Bool, true, false, not, ◌&&◌, ◌||◌, Option, none, some, List, [], ◌∷◌,
  ◌++◌, length, take, drop, ltb, leb, ◌==◌, if◌then◌else◌,
}
use rag_cpp.Core.{Result, bytes, text_eq, is_empty, to_string}
use rag_cpp.Loaders.Bits.{◌>>=?◌}
use rag_cpp.Loaders.Zip.{ZipEntry, zip_entries, zip_read, zip_read_name, and_then}
use rag_cpp.Loaders.Xml.{split_at}
use rag_cpp.Loaders.Ooxml.{
  ℤ, less, Library, parse_error, blank_line, starts_with, find_text, xml_text, add_parts,
  or_parse_error, docx_to_text, xlsx_to_text,
}

abbrev pub ends_with : List ℕ → List ℕ → Bool
ends_with suffix s =
    leb (length suffix) (length s) && text_eq (drop (length s - length suffix) s) suffix

-- `while (!out.empty() && out.back() == '\n') out.pop_back();`
unfoldable pub drop_newlines : List ℕ → List ℕ
drop_newlines [] = []
drop_newlines (c ∷ s) =
    let rest = drop_newlines s in if is_empty rest && c == b'\n' then [] else c ∷ rest

-- The value of an attribute: `p == 0` or a blank stands before the name, and a quote behind the name
-- and its `=`.
abbrev pub blank_before : Bool → ℕ → Bool
blank_before at_start c = at_start || c == b' ' || c == b'\t'

unfoldable pub skip_equals : List ℕ → List ℕ
skip_equals [] = []
skip_equals (c ∷ s) = let rest = skip_equals s in if c == b' ' || c == b'=' then rest else c ∷ s

-- `none` goes on with the next match.
abbrev pub to_quote : Option (List ℕ × List ℕ) → Option (List ℕ)
to_quote none = some []
to_quote (some (v, rest)) = some v

abbrev pub quoted : List ℕ → Option (List ℕ)
quoted [] = some []
quoted (q ∷ s) = if q == b'"' || q == b'\'' then to_quote (split_at q s) else none

abbrev pub or_else : Option (List ℕ) → (Unit {0} → Option (List ℕ)) → Option (List ℕ)
or_else none go = go tt
or_else (some v) go = some v

abbrev pub last_or : ℕ → List ℕ → ℕ
last_or c [] = c
last_or c (x ∷ s) = last_or x s

abbrev pub bytes_between : List ℕ → List ℕ → List ℕ
bytes_between s rest = take (length s - length rest) s

-- Behind a match, with the text that follows it and the same from the value on.
abbrev pub on_value :
    List ℕ → List ℕ → List ℕ → (Bool → ℕ → List ℕ → Option (List ℕ)) → Option (List ℕ)
on_value name after behind go =
    or_else (quoted behind)
      λ _. go false (last_or (last_or 0 name) (bytes_between after behind)) behind

abbrev pub attr_at :
    List ℕ
    → Bool
    → ℕ
    → Option (List ℕ × List ℕ)
    → (Bool → ℕ → List ℕ → Option (List ℕ))
    → Option (List ℕ)
attr_at name at_start c none go = some []
attr_at name at_start c (some (skipped, rest)) go =
    if blank_before (at_start && is_empty skipped) (last_or c skipped)
    then on_value name (drop (length name) rest) (skip_equals (drop (length name) rest)) go
    else go false (last_or 0 name) (drop (length name) rest)

-- `c` is the byte before the text, if `p` is not 0. Each round takes the name.
unfoldable pub attr_from : ℕ → List ℕ → Bool → ℕ → List ℕ → Option (List ℕ)
attr_from zero name at_start c text = none
attr_from (suc n) name at_start c text =
    attr_at name at_start c (find_text name text)
      λ at_start2 c2 rest. attr_from n name at_start2 c2 rest

unfoldable pub attr_value : List ℕ → List ℕ → Option (List ℕ)
unfolding attr_from
attr_value tag name = attr_from (suc (length tag)) name true 0 tag

abbrev pub slashed : List ℕ → List ℕ
slashed dir = if last_or 0 dir == b'/' then dir else dir ++ b'/' ∷ []

unfoldable pub join_path : List ℕ → List ℕ → List ℕ
join_path base_dir [] = []
join_path base_dir (c ∷ href) =
    if c == b'/'
    then href
    else if is_empty base_dir
    then c ∷ href
    else slashed base_dir ++ (c ∷ href)

-- `std::sort` by a strict order; where two are equal, the first stays first here.
unfoldable pub insert : {A : Type 0} → (A → A → Bool) → A → List A → List A
insert before x [] = x ∷ []
insert before x (y ∷ ys) =
    let rest = insert before x ys in if before y x then y ∷ rest else x ∷ (y ∷ ys)

unfoldable pub sort : {A : Type 0} → (A → A → Bool) → List A → List A
unfolding insert
sort before [] = []
sort before (x ∷ xs) = insert before x (sort before xs)

abbrev pub slide_prefix : List ℕ
slide_prefix = bytes "ppt/slides/slide"

abbrev pub is_slide : ZipEntry → Bool
is_slide e =
    starts_with slide_prefix e.name && ltb 5 (length e.name) && ends_with (bytes ".xml") e.name

unfoldable pub filter : {A : Type 0} → (A → Bool) → List A → List A
filter keep [] = []
filter keep (x ∷ xs) = let rest = filter keep xs in if keep x then x ∷ rest else rest

module _ (lib : Library) where
  abbrev pub slide_number : ZipEntry → ℤ
  slide_number e = lib.strtol (drop (length slide_prefix) e.name)

  abbrev pub slide_before : ZipEntry → ZipEntry → Bool
  slide_before a b = less (slide_number a) (slide_number b)

  unfoldable pub slides_of : List ZipEntry → List ZipEntry
  unfolding sort filter
  slides_of es = sort slide_before (filter is_slide es)

  -- The text, and the number of slides in it.
  abbrev pub add_slide_text : List ℕ → List ℕ → ℕ → List ℕ × ℕ
  add_slide_text t out n =
      if is_empty t
      then (out, n)
      else (out ++ (bytes "## Slide " ++ (to_string (n + 1) ++ (b'\n' ∷ (t ++ blank_line)))), n + 1)

  abbrev pub add_slide : Result (List ℕ) → List ℕ → ℕ → Option (List ℕ × ℕ)
  add_slide (Result.fail e) out n = some (out, n)
  add_slide (Result.value xml) out n = xml_text lib xml >>=? λ t. some (add_slide_text t out n)

  unfoldable pub add_slides : List ℕ → List ZipEntry → List ℕ → ℕ → Option (List ℕ)
  add_slides d [] out n = some out
  add_slides d (e ∷ es) out n =
      zip_read d e >>=? λ part. add_slide part out n >>=? λ p. add_slides d es p.0 p.1

  abbrev pub is_notes_slide : ZipEntry → Bool
  is_notes_slide e = starts_with (bytes "ppt/notesSlides/notesSlide") e.name

  abbrev pub as_notes : List ℕ → List ℕ
  as_notes t = bytes "### Notes" ++ (b'\n' ∷ (t ++ blank_line))

  abbrev pub without_newlines : List ℕ → Option (Result (List ℕ))
  without_newlines out =
      if is_empty out then parse_error else some (Result.value (drop_newlines out))

  unfoldable pub pptx_to_text : List ℕ → Option (Result (List ℕ))
  unfolding add_slides slides_of
  pptx_to_text d = zip_entries d >>=? λ entries. and_then entries λ es.
      add_slides d (slides_of es) [] 0 >>=? λ out.
      add_parts lib d is_notes_slide as_notes es out >>=? without_newlines

  abbrev pub is_document : ZipEntry → Bool
  is_document e = text_eq e.name (bytes "word/document.xml")

  abbrev pub is_sheet : ZipEntry → Bool
  is_sheet e = starts_with (bytes "xl/worksheets/") e.name

  abbrev pub is_deck : ZipEntry → Bool
  is_deck e = starts_with slide_prefix e.name

  unfoldable pub any : (ZipEntry → Bool) → List ZipEntry → Bool
  any p [] = false
  any p (e ∷ es) = p e || any p es

  -- A part sets the first of the three flags that fits it.
  unfoldable pub choose_ooxml : List ℕ → List ZipEntry → Option (Result (List ℕ))
  choose_ooxml d es =
      if any is_document es
      then docx_to_text lib d
      else if any (λ e. not (is_document e) && is_sheet e) es
      then xlsx_to_text lib d
      else if any (λ e. not (is_document e) && (not (is_sheet e) && is_deck e)) es
      then pptx_to_text d
      else parse_error

  unfoldable pub ooxml_to_text : List ℕ → Option (Result (List ℕ))
  ooxml_to_text d = zip_entries d >>=? λ entries. and_then entries (choose_ooxml d)

  unfoldable pub odf_to_text : List ℕ → Option (Result (List ℕ))
  odf_to_text d = zip_read_name d (bytes "content.xml") >>=? λ content.
      and_then content λ xml. xml_text lib xml >>=? or_parse_error lib

  -- The path of the package file, from META-INF/container.xml.
  abbrev pub tag_of : Option (List ℕ × List ℕ) → List ℕ
  tag_of none = []
  tag_of (some (tag, rest)) = tag

  abbrev pub attr_of : List ℕ → Option (List ℕ × List ℕ) → Option (List ℕ)
  attr_of name none = some []
  attr_of name (some (skipped, rest)) = attr_value (tag_of (split_at b'>' rest)) name
