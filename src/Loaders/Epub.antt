-- ===== src/Loaders/Epub.antt =====
-- EPUB, and the one door for documents in archives, of src/loaders/ooxml.cpp.
pub mod Order
pub mod Total
use rag_cpp.Common.{
  ℕ, zero, suc, ◌+◌, ◌-◌, Bool, true, false, not, ◌&&◌, ◌||◌, Option, none, some, List, [], ◌∷◌,
  ◌++◌, length, take, drop, ltb, leb, ◌==◌, if◌then◌else◌,
}
use rag_cpp.Common.SortedMap.{find, insert_or_assign}
use rag_cpp.Core.{Errc, Result, bytes, text_eq, text_lt, text_order, is_empty}
use rag_cpp.Loaders.Bits.{◌>>=?◌}
use rag_cpp.Loaders.Zip.{ZipEntry, zip_entries, zip_read_name, and_then}
use rag_cpp.Loaders.Xml.{split_at}
use rag_cpp.Loaders.Html.{html_to_text}
use rag_cpp.Loaders.Ooxml.{Library, parse_error, blank_line, find_text, or_parse_error}
use rag_cpp.Loaders.Documents.{
  ends_with, attr_value, attr_of, join_path, sort, is_document, is_sheet, is_deck, any,
  ooxml_to_text, odf_to_text,
}

abbrev pub Manifest : Type 0
Manifest = List (List ℕ × List ℕ)

abbrev pub add_item : List ℕ → List ℕ → Manifest → Manifest
add_item id href manifest =
    if is_empty id || is_empty href then manifest else insert_or_assign text_order id href manifest

abbrev pub on_item :
    Option (List ℕ × List ℕ) → Manifest → (List ℕ → Manifest → Option Manifest) → Option Manifest
on_item none manifest go = some manifest
on_item (some (tag, rest)) manifest go = attr_value tag (bytes "id") >>=? λ id.
    attr_value tag (bytes "href") >>=? λ href. go rest (add_item id href manifest)

abbrev pub from_item :
    Option (List ℕ × List ℕ) → Manifest → (List ℕ → Manifest → Option Manifest) → Option Manifest
from_item none manifest go = some manifest
from_item (some (skipped, text)) manifest go = on_item (split_at b'>' text) manifest go

-- The items of the package file; each round takes a byte.
unfoldable pub manifest_from : ℕ → List ℕ → Manifest → Option Manifest
manifest_from zero o manifest = none
manifest_from (suc n) o manifest =
    from_item (find_text (bytes "<item ") o) manifest
      λ rest manifest2. manifest_from n rest manifest2

-- The bytes up to `</spine>` that are left, if it stands there.
abbrev pub past : Option ℕ → ℕ → Bool
past none n = false
past (some limit) n = leb limit n

abbrev pub moved : Option ℕ → ℕ → Option ℕ
moved none n = none
moved (some limit) n = some (limit - n)

abbrev pub add_ref : List ℕ → Option (List ℕ) → List (List ℕ) → List (List ℕ)
add_ref base_dir none order = order
add_ref base_dir (some href) order = order ++ join_path base_dir href ∷ []

abbrev pub Spine : Type 0
Spine = List ℕ → Option ℕ → List (List ℕ) → Option (List (List ℕ))

abbrev pub on_ref :
    List ℕ
    → Manifest
    → ℕ
    → Option (List ℕ × List ℕ)
    → Option ℕ
    → List (List ℕ)
    → Spine
    → Option (List (List ℕ))
on_ref base_dir manifest n none limit order go = some order
on_ref base_dir manifest n (some (tag, rest)) limit order go =
    attr_value tag (bytes "idref") >>=? λ idref.
    go rest (moved limit (n + length tag + 1))
      (add_ref base_dir (find text_order idref manifest) order)

abbrev pub from_ref :
    List ℕ
    → Manifest
    → Option (List ℕ × List ℕ)
    → Option ℕ
    → List (List ℕ)
    → Spine
    → Option (List (List ℕ))
from_ref base_dir manifest none limit order go = some order
from_ref base_dir manifest (some (skipped, text)) limit order go =
    if past limit (length skipped)
    then some order
    else on_ref base_dir manifest (length skipped) (split_at b'>' text) limit order go

unfoldable pub spine_from :
    ℕ → List ℕ → Manifest → List ℕ → Option ℕ → List (List ℕ) → Option (List (List ℕ))
spine_from zero base_dir manifest o limit order = none
spine_from (suc n) base_dir manifest o limit order =
    from_ref base_dir manifest (find_text (bytes "<itemref") o) limit order
      λ o2 limit2 order2. spine_from n base_dir manifest o2 limit2 order2

-- The text before the last `/`, if there is one.
abbrev pub extend : ℕ → List ℕ → Option (List ℕ) → Option (List ℕ)
extend c s none = if c == b'/' then some [] else none
extend c s (some dir) = some (c ∷ dir)

unfoldable pub directory : List ℕ → Option (List ℕ)
directory [] = none
directory (c ∷ s) = extend c s (directory s)

abbrev pub or_nothing : Option (List ℕ) → List ℕ
or_nothing none = []
or_nothing (some s) = s

abbrev pub length_before : Option (List ℕ × List ℕ) → Option ℕ
length_before none = none
length_before (some (skipped, rest)) = some (length skipped)

abbrev pub from_spine : Option (List ℕ × List ℕ) → List ℕ → List ℕ
from_spine none o = o
from_spine (some (skipped, rest)) o = rest

unfoldable pub spine_order : List ℕ → List ℕ → Option (List (List ℕ))
unfolding manifest_from spine_from directory
spine_order opf_path o =
    let text = from_spine (find_text (bytes "<spine") o) o in
    manifest_from (suc (length o)) o [] >>=? λ manifest.
    spine_from (suc (length text)) (or_nothing (directory opf_path)) manifest text
      (length_before (find_text (bytes "</spine>") text)) []

abbrev pub order_of : List ℕ → Result (List ℕ) → Option (List (List ℕ))
order_of opf_path (Result.fail e) = some []
order_of opf_path (Result.value o) = spine_order opf_path o

abbrev pub path_of : Library → Result (List ℕ) → Option (List ℕ)
path_of lib (Result.fail e) = some []
path_of lib (Result.value c) = attr_of lib (bytes "full-path") (find_text (bytes "<rootfile") c)

abbrev pub is_page : List ℕ → Bool
is_page n =
    ends_with (bytes ".xhtml") n || (ends_with (bytes ".html") n || ends_with (bytes ".htm") n)

unfoldable pub page_names : List ZipEntry → List (List ℕ)
page_names [] = []
page_names (e ∷ es) = let rest = page_names es in if is_page e.name then e.name ∷ rest else rest

abbrev pub or_pages : List ZipEntry → List (List ℕ) → List (List ℕ)
or_pages es [] = sort text_lt (page_names es)
or_pages es (name ∷ names) = name ∷ names

module _ (lib : Library) where
  -- The reading order that the package file gives.
  abbrev pub order_at : List ℕ → List ℕ → Option (List (List ℕ))
  order_at d opf_path =
      if is_empty opf_path then some [] else (zip_read_name d opf_path >>=? order_of opf_path)

  unfoldable pub reading_order : List ℕ → Option (List (List ℕ))
  unfolding spine_order
  reading_order d = zip_read_name d (bytes "META-INF/container.xml") >>=? λ container.
      path_of lib container >>=? λ opf_path. order_at d opf_path

  abbrev pub add_page : List ℕ → List ℕ → List ℕ
  add_page out t =
      if is_empty t then out else (if is_empty out then t else out ++ (blank_line ++ t))

  abbrev pub add_chapter : List ℕ → Result (List ℕ) → Option (List ℕ)
  add_chapter out (Result.fail e) = some out
  add_chapter out (Result.value page) = html_to_text page >>=? λ t. some (add_page out t)

  unfoldable pub add_chapters : List ℕ → List (List ℕ) → List ℕ → Option (List ℕ)
  add_chapters d [] out = some out
  add_chapters d (name ∷ names) out =
      zip_read_name d name >>=? λ part. add_chapter out part >>=? add_chapters d names

  unfoldable pub epub_to_text : List ℕ → Option (Result (List ℕ))
  unfolding reading_order add_chapters page_names
  epub_to_text d = zip_entries d >>=? λ entries. and_then entries λ es.
      reading_order d >>=? λ order. add_chapters d (or_pages es order) [] >>=? or_parse_error lib

  abbrev pub is_ooxml : ZipEntry → Bool
  is_ooxml e = is_document lib e || (is_sheet lib e || is_deck lib e)

  abbrev pub is_content : ZipEntry → Bool
  is_content e = text_eq e.name (bytes "content.xml")

  abbrev pub is_epub : ZipEntry → Bool
  is_epub e = text_eq e.name (bytes "META-INF/container.xml") || text_eq e.name (bytes "mimetype")

  -- `if (auto r = epub_to_text(bytes)) return r;`
  abbrev pub or_next : Result (List ℕ) → Option (Result (List ℕ)) → Option (Result (List ℕ))
  or_next (Result.value t) next = some (Result.value t)
  or_next (Result.fail e) next = next

  abbrev pub odf_or : Bool → List ℕ → Option (Result (List ℕ)) → Option (Result (List ℕ))
  odf_or odf d next = if odf then odf_to_text lib d else next

  -- The names of the four kinds differ, so that a part sets one flag.
  unfoldable pub choose_document : List ℕ → List ZipEntry → Option (Result (List ℕ))
  choose_document d es =
      if any lib is_ooxml es
      then ooxml_to_text lib d
      else if any lib is_epub es
      then (epub_to_text d >>=? λ r. or_next r (odf_or (any lib is_content es) d (epub_to_text d)))
      else odf_or (any lib is_content es) d parse_error

  unfoldable pub zip_document_to_text : List ℕ → Option (Result (List ℕ))
  zip_document_to_text d = zip_entries d >>=? λ entries. and_then entries (choose_document d)
