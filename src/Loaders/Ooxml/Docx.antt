-- ===== src/Loaders/Ooxml/Docx.antt =====
-- A Word document, from the paragraphs to the archive and back.
use rag_cpp.Common.{
  ℕ, ◌+◌, length, ◌≡◌, ◌≢◌, refl, ap, sym, subst, ◌∙◌, false, some, List, [], ◌∷◌, ◌++◌, All,
}
use rag_cpp.Core.{Result, bytes, text_eq_differ}
use rag_cpp.Loaders.Zip.{ZipEntry, zip_read_name}
use rag_cpp.Loaders.Zip.Written.{Member, local_member, archive, entry_of, entries}
use rag_cpp.Loaders.Zip.RoundTrip.{IsArchive, zip_read_name-archive, zip_entries-archive}
use rag_cpp.Loaders.Xml.{trim_end}
use rag_cpp.Loaders.Xml.Paragraphs.{document, lines, IsLine, ooxml_xml_to_text-document}
use rag_cpp.Loaders.Ooxml.{Library, add_parts, is_note, after_blank, docx_to_text}

abbrev main_part : List ℕ
main_part = bytes "word/document.xml"

-- Neither the main part nor one of the notes.
abbrev pub IsOther : Member → Type 0
IsOther m =
    (m.name ≢ bytes "word/document.xml")
    × (m.name ≢ bytes "word/footnotes.xml")
    × (m.name ≢ bytes "word/endnotes.xml")

module _ (lib : Library) where
  abbrev IsPlain : ZipEntry → Type 0
  IsPlain e = is_note lib e ≡ false

  plain : (m : Member) (offset : ℕ) → IsOther m → IsPlain (entry_of m offset)
  plain m offset h =
      rw (text_eq_differ m.name (bytes "word/footnotes.xml") h.1)
        (rw (text_eq_differ m.name (bytes "word/endnotes.xml") h.2) refl)

  plain_entries : (offset : ℕ) (ms : List Member) → All IsOther ms → All IsPlain (entries offset ms)
  unfolding entries
  plain_entries offset [] h = tt
  plain_entries offset (m ∷ ms) h =
      (plain m offset h.0, plain_entries (offset + length (local_member m)) ms h.1)

  plain_parts :
      (offset : ℕ) (front : List Member) (main : Member) (back : List Member)
      → main.name ≡ main_part
      → All IsOther front
      → All IsOther back
      → All IsPlain (entries offset (front ++ main ∷ back))
  unfolding entries
  plain_parts offset [] main back e h k =
      (rw e refl, plain_entries (offset + length (local_member main)) back k)
  plain_parts offset (m ∷ front) main back e h k =
      (plain m offset h.0, plain_parts (offset + length (local_member m)) front main back e h.1 k)

  add_parts-plain :
      (d : List ℕ) (es : List ZipEntry) (out : List ℕ)
      → All IsPlain es
      → add_parts lib d (is_note lib) (after_blank lib) es out ≡ some out
  unfolding add_parts
  add_parts-plain d [] out h = refl
  add_parts-plain d (e ∷ es) out h = rw h.0 (add_parts-plain d es out h.1)

not_main :
    (front : List Member) (main : Member)
    → main.name ≡ main_part
    → All IsOther front
    → All (λ (m : Member). m.name ≢ main.name) front
not_main [] main e h = tt
not_main (m ∷ front) main e h = (subst (λ x. m.name ≢ x) (sym e) h.0.0, not_main front main e h.1)

-- A Word document without notes, in an archive of stored parts, of sizes and places that fit, with
-- any header fields, extra fields and comments of its parts and without a comment of its own. Where
-- the paragraphs of the main part are not empty, hold no newline and begin with neither a space nor
-- a tab, `docx_to_text` returns them one line each, without the newlines and spaces at the end of the
-- last.
pub docx_to_text-archive :
    (lib : Library) (front : List Member) (main : Member) (ps : List (List ℕ)) (back : List Member)
    → main.name ≡ main_part
    → main.content ≡ document ps
    → IsArchive (front ++ main ∷ back)
    → All IsOther front
    → All IsOther back
    → All IsLine ps
    → docx_to_text lib (archive (front ++ main ∷ back)) ≡ some (Result.value (trim_end (lines ps)))
unfolding docx_to_text
docx_to_text-archive lib front main ps back e c h f b l =
    let ms : List Member = front ++ main ∷ back in
    let read : zip_read_name (archive ms) main_part ≡ some (Result.value (document ps)) =
      ap (zip_read_name (archive ms)) (sym e)
      ∙ (zip_read_name-archive front main back h (not_main front main e f)
          ∙ ap (λ x. some (Result.value x)) c) in
    rw read (
      rw (ooxml_xml_to_text-document lib.strtoul ps l) (
        rw (zip_entries-archive ms h) (
          rw
            (add_parts-plain lib (archive ms) (entries 0 ms) (trim_end (lines ps))
              (plain_parts lib 0 front main back e f b))
            refl)))
