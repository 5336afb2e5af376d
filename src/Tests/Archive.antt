-- ===== src/Tests/Archive.antt =====
-- Tests of the archive loaders.
use rag_cpp.Common.{◌++◌, All, arith, ℕ, ◌≡◌, refl, List, [], ◌∷◌, some}
use rag_cpp.Loaders.Bits.{BitReader, got, bit_reader}
use rag_cpp.Loaders.Bits.Stream.{stream, low_bits, byte_bits, Then}
use rag_cpp.Loaders.Huffman.{Huffman}
use rag_cpp.Loaders.Huffman.Canonical.{spelled, first_code}
use rag_cpp.Loaders.Huffman.Segments.{count}
use rag_cpp.Loaders.Huffman.Sorted.{decode-build}
use rag_cpp.Loaders.Inflate.Stored.{stored_stream, inflate_raw-stored_stream}
use rag_cpp.Loaders.Zip.{
  zip_read_name, zip_entries, zip_read, matches, read_entry, entry_at, entries_loop, find_eocd,
  read_directory, extract, find_entry,
}
use rag_cpp.Loaders.Zip.Written.{Member, archive, locals, local_member}
use rag_cpp.Loaders.Zip.RoundTrip.{IsArchive, zip_read_name-archive}
use rag_cpp.Loaders.Xml.{
  ooxml_xml_to_text, trim_end, squeeze, tidy, scan_loop, scan_step, on_tag, on_name, local_name,
  name_part, split_at, decode_entity,
}
use rag_cpp.Loaders.Xml.Paragraphs.{
  document, body, paragraph, escape, escape_byte, lines, IsLine, ooxml_xml_to_text-document,
}
use rag_cpp.Loaders.Ooxml.{
  sheet_rows, find_text, starts_with, cell_text, shared_strings, Library, ℤ, docx_to_text,
  add_parts,
}
use rag_cpp.Loaders.Ooxml.Docx.{IsOther, docx_to_text-archive}
use rag_cpp.Text.Tokenizer.{isalnum, tolower, is_upper}
use rag_cpp.Loaders.Html.{
  html_to_text, html_loop, html_step, collapse, find_entity, on_html_tag, tag_name, contains,
}
use rag_cpp.Loaders.Html.Page.{IsParagraph, page, html_to_text-page}
use rag_cpp.Store.Format.{le_bytes}
use rag_cpp.Core.{text_eq-false, bytes, Result}
use rag_cpp.Loaders.Inflate.{
  inflate_raw, block, fixed_lit, max_inflate, copy_match, len_extra, len_base, fixed_dist,
  dist_extra, dist_base, add_lengths, add_repeated, blocks_loop, code_lengths, code_order, copy,
  dynamic_tables, read_clen, repeat_last, repeated, stored_block, symbols_loop, zeros,
}
use rag_cpp.Loaders.Bits.{◌>>=◌, bit, bits, bits_from, rd16, rd32}
use rag_cpp.Loaders.Huffman.{
  decode, build, bump, count_lengths, decode_from, fits, offsets, place, set_at,
}

-- An archive with a stored member and a Word document, which is deflated.
abbrev small_archive : List ℕ
small_archive =
    80 ∷ 75 ∷ 3 ∷ 4 ∷ 20 ∷ 0 ∷ 0 ∷ 0 ∷ 0 ∷ 0 ∷ 0 ∷ 0 ∷ 33 ∷ 80 ∷ 11 ∷ 249 ∷ 67 ∷ 86 ∷ 6 ∷ 0 ∷ 0 ∷ 0
    ∷ 6 ∷ 0 ∷ 0 ∷ 0 ∷ 5 ∷ 0 ∷ 0 ∷ 0 ∷ 97 ∷ 46 ∷ 116 ∷ 120 ∷ 116 ∷ 115 ∷ 116 ∷ 111 ∷ 114 ∷ 101 ∷ 100
    ∷ 80 ∷ 75 ∷ 3 ∷ 4 ∷ 20 ∷ 0 ∷ 0 ∷ 0 ∷ 8 ∷ 0 ∷ 0 ∷ 0 ∷ 33 ∷ 80 ∷ 15 ∷ 80 ∷ 45 ∷ 192 ∷ 22 ∷ 0 ∷ 0
    ∷ 0 ∷ 32 ∷ 0 ∷ 0 ∷ 0 ∷ 17 ∷ 0 ∷ 0 ∷ 0 ∷ 119 ∷ 111 ∷ 114 ∷ 100 ∷ 47 ∷ 100 ∷ 111 ∷ 99 ∷ 117 ∷ 109
    ∷ 101 ∷ 110 ∷ 116 ∷ 46 ∷ 120 ∷ 109 ∷ 108 ∷ 179 ∷ 41 ∷ 183 ∷ 42 ∷ 176 ∷ 203 ∷ 207 ∷ 75 ∷ 181
    ∷ 209 ∷ 7 ∷ 49 ∷ 108 ∷ 160 ∷ 60 ∷ 133 ∷ 146 ∷ 242 ∷ 124 ∷ 136 ∷ 8 ∷ 0 ∷ 80 ∷ 75 ∷ 1 ∷ 2 ∷ 20 ∷ 3
    ∷ 20 ∷ 0 ∷ 0 ∷ 0 ∷ 0 ∷ 0 ∷ 0 ∷ 0 ∷ 33 ∷ 80 ∷ 11 ∷ 249 ∷ 67 ∷ 86 ∷ 6 ∷ 0 ∷ 0 ∷ 0 ∷ 6 ∷ 0 ∷ 0 ∷ 0
    ∷ 5 ∷ 0 ∷ 0 ∷ 0 ∷ 0 ∷ 0 ∷ 0 ∷ 0 ∷ 0 ∷ 0 ∷ 0 ∷ 0 ∷ 128 ∷ 1 ∷ 0 ∷ 0 ∷ 0 ∷ 0 ∷ 97 ∷ 46 ∷ 116 ∷ 120
    ∷ 116 ∷ 80 ∷ 75 ∷ 1 ∷ 2 ∷ 20 ∷ 3 ∷ 20 ∷ 0 ∷ 0 ∷ 0 ∷ 8 ∷ 0 ∷ 0 ∷ 0 ∷ 33 ∷ 80 ∷ 15 ∷ 80 ∷ 45 ∷ 192
    ∷ 22 ∷ 0 ∷ 0 ∷ 0 ∷ 32 ∷ 0 ∷ 0 ∷ 0 ∷ 17 ∷ 0 ∷ 0 ∷ 0 ∷ 0 ∷ 0 ∷ 0 ∷ 0 ∷ 0 ∷ 0 ∷ 0 ∷ 0 ∷ 128 ∷ 1
    ∷ 41 ∷ 0 ∷ 0 ∷ 0 ∷ 119 ∷ 111 ∷ 114 ∷ 100 ∷ 47 ∷ 100 ∷ 111 ∷ 99 ∷ 117 ∷ 109 ∷ 101 ∷ 110 ∷ 116
    ∷ 46 ∷ 120 ∷ 109 ∷ 108 ∷ 80 ∷ 75 ∷ 5 ∷ 6 ∷ 0 ∷ 0 ∷ 0 ∷ 0 ∷ 2 ∷ 0 ∷ 2 ∷ 0 ∷ 114 ∷ 0 ∷ 0 ∷ 0 ∷ 110
    ∷ 0 ∷ 0 ∷ 0 ∷ 0 ∷ 0 ∷ []

abbrev lib : Library
lib = record { strtoul = λ s base. 0; strtol = λ s. ℤ.pos 0 }

docx_of_archive :
    docx_to_text lib small_archive ≡ some (Result.value (bytes "one" ++ b'\n' ∷ bytes "one two"))
unfolding inflate_raw ◌>>=◌ bit bits bits_from block decode fixed_lit build bump max_inflate
    copy_match len_extra len_base fixed_dist dist_extra dist_base rd16 count_lengths decode_from
    fits offsets place set_at add_lengths add_repeated blocks_loop code_lengths code_order copy
    dynamic_tables read_clen repeat_last repeated stored_block symbols_loop zeros rd32 docx_to_text
    zip_read_name zip_entries zip_read matches read_entry entry_at entries_loop find_eocd
    read_directory extract find_entry ooxml_xml_to_text trim_end squeeze tidy scan_loop scan_step
    on_tag on_name local_name name_part split_at decode_entity add_parts
docx_of_archive = refl

-- A block with the fixed tables, and a block with its own.
abbrev fixed_stream : List ℕ
fixed_stream = 203 ∷ 72 ∷ 205 ∷ 201 ∷ 201 ∷ 87 ∷ 200 ∷ 64 ∷ 144 ∷ 0 ∷ []

abbrev dynamic_stream : List ℕ
dynamic_stream =
    37 ∷ 137 ∷ 129 ∷ 13 ∷ 0 ∷ 48 ∷ 12 ∷ 130 ∷ 110 ∷ 85 ∷ 254 ∷ 255 ∷ 97 ∷ 184 ∷ 54 ∷ 166 ∷ 70 ∷ 72
    ∷ 146 ∷ 46 ∷ 133 ∷ 224 ∷ 240 ∷ 65 ∷ 189 ∷ 177 ∷ 195 ∷ 50 ∷ 171 ∷ 124 ∷ 53 ∷ 171 ∷ 146 ∷ 242 ∷ 0
    ∷ []

inflate_fixed : inflate_raw fixed_stream ≡ some (Result.value (bytes "hello hello hello"))
unfolding inflate_raw ◌>>=◌ bit bits bits_from block decode fixed_lit build bump max_inflate
    copy_match len_extra len_base fixed_dist dist_extra dist_base rd16 count_lengths decode_from
    fits offsets place set_at add_lengths add_repeated blocks_loop code_lengths code_order copy
    dynamic_tables read_clen repeat_last repeated stored_block symbols_loop zeros
inflate_fixed = refl

inflate_dynamic :
    inflate_raw dynamic_stream
    ≡ some (Result.value (bytes "aaaabaababccacaaaacaccbbbbababbabccaaacbccbcacaccaccbabacaac"))
unfolding inflate_raw ◌>>=◌ bit bits bits_from block decode fixed_lit build bump max_inflate
    copy_match len_extra len_base fixed_dist dist_extra dist_base rd16 count_lengths decode_from
    fits offsets place set_at add_lengths add_repeated blocks_loop code_lengths code_order copy
    dynamic_tables read_clen repeat_last repeated stored_block symbols_loop zeros
inflate_dynamic = refl

inflate_raw-stored_stream_example :
    inflate_raw (stored_stream ((1 ∷ 2 ∷ []) ∷ []) (3 ∷ []) ++ 9 ∷ [])
    ≡ some (Result.value (1 ∷ 2 ∷ 3 ∷ []))
unfolding max_inflate
inflate_raw-stored_stream_example =
    inflate_raw-stored_stream ((1 ∷ 2 ∷ []) ∷ []) (3 ∷ []) (9 ∷ []) (omega arith) (omega arith)
      (omega arith)

-- The code lengths 2, 1 and 2: the last symbol has the code 11.
abbrev three_symbols : Huffman
three_symbols = record {
  counts = 0 ∷ 1 ∷ 2 ∷ 0 ∷ 0 ∷ 0 ∷ 0 ∷ 0 ∷ 0 ∷ 0 ∷ 0 ∷ 0 ∷ 0 ∷ 0 ∷ 0 ∷ 0 ∷ [];
  symbols = 1 ∷ 0 ∷ 2 ∷ [];
}

three_built : build (2 ∷ 1 ∷ 2 ∷ []) ≡ some three_symbols
unfolding build bump count_lengths fits offsets place set_at
three_built = refl

decode-build_example :
    (s : BitReader) × (decode three_symbols (bit_reader (3 ∷ [])) ≡ got 2 s)
    × Then (bit_reader (3 ∷ [])) (0 ∷ 0 ∷ 0 ∷ 0 ∷ 0 ∷ 0 ∷ []) s
unfolding spelled first_code count stream low_bits byte_bits
decode-build_example =
    decode-build (2 ∷ 1 ∷ []) [] 1 three_symbols (1 ∷ 1 ∷ []) (0 ∷ 0 ∷ 0 ∷ 0 ∷ 0 ∷ 0 ∷ [])
      (bit_reader (3 ∷ [])) (omega arith) (omega arith) three_built (omega arith) refl refl refl

abbrev two_lines : List (List ℕ)
two_lines = bytes "a & b" ∷ bytes "<c>" ∷ []

two_lines-AreLines : All IsLine two_lines
two_lines-AreLines = omega arith

ooxml_xml_to_text-document_example :
    ooxml_xml_to_text (λ s base. 0) (document two_lines)
    ≡ some (bytes "a & b" ++ b'\n' ∷ bytes "<c>")
unfolding lines trim_end
ooxml_xml_to_text-document_example =
    ooxml_xml_to_text-document (λ s base. 0) two_lines two_lines-AreLines

-- A part with an extra field in both of its headers, and a comment.
abbrev other_part : Member
other_part = record {
  name = bytes "a";
  content = 7 ∷ [];
  extra = 85 ∷ 84 ∷ 1 ∷ 0 ∷ 3 ∷ [];
  central_extra = 85 ∷ 84 ∷ 2 ∷ 0 ∷ 3 ∷ 4 ∷ [];
  comment = bytes "seven";
  made_by = 798;
  version = 20;
  flags = 2048;
  time = 17;
  date = 20513;
  crc = 1447295243;
  disk = 0;
  internal_attributes = 1;
  external_attributes = 2175008768;
}

abbrev document_part : Member
document_part = record other_part { name = bytes "word/document.xml"; content = document two_lines }

abbrev parts : List Member
parts = other_part ∷ document_part ∷ []

parts-IsArchive : IsArchive parts
unfolding locals local_member le_bytes document body paragraph escape escape_byte
parts-IsArchive = omega arith

other_part-IsOther : IsOther other_part
other_part-IsOther = (text_eq-false _ _ refl, text_eq-false _ _ refl, text_eq-false _ _ refl)

zip_read_name-archive_example :
    zip_read_name (archive parts) (bytes "a") ≡ some (Result.value (7 ∷ []))
zip_read_name-archive_example =
    zip_read_name-archive [] other_part (document_part ∷ []) parts-IsArchive tt

docx_to_text-archive_example :
    docx_to_text lib (archive parts) ≡ some (Result.value (bytes "a & b" ++ b'\n' ∷ bytes "<c>"))
unfolding lines trim_end
docx_to_text-archive_example =
    docx_to_text-archive lib (other_part ∷ []) document_part two_lines [] refl refl parts-IsArchive
      (other_part-IsOther, tt) tt two_lines-AreLines

abbrev web_page : List ℕ
web_page = bytes "<head>x</head><p>a &amp; b<br>&#9;c<script>if (a < b) d</script>"

html_of_page : html_to_text web_page ≡ some (bytes "a & b" ++ b'\n' ∷ bytes " c")
unfolding html_to_text html_loop html_step collapse find_entity on_html_tag tag_name contains
    isalnum tolower is_upper split_at
html_of_page = refl

two_lines-AreParagraphs : All IsParagraph two_lines
two_lines-AreParagraphs = omega arith

html_to_text-page_example :
    html_to_text (page (bytes "R&D") two_lines)
    ≡ some (bytes "a & b" ++ b'\n' ∷ (bytes "<c>" ++ b'\n' ∷ []))
unfolding lines
html_to_text-page_example = html_to_text-page (bytes "R&D") two_lines two_lines-AreParagraphs

-- What follows a self-closing field instruction is lost.
skipped_rest :
    ooxml_xml_to_text (λ s base. 0) (bytes "<w:p>a</w:p><w:instrText/><w:p>b</w:p>")
    ≡ some (bytes "a")
unfolding ooxml_xml_to_text trim_end squeeze tidy scan_loop scan_step on_tag on_name local_name
    name_part split_at decode_entity
skipped_rest = refl

-- A cell with a self-closing formula loses its value.
formula_cell :
    sheet_rows lib 9 [] (bytes "<row><c r=1><f/><v>5</v></c><c r=2><v>6</v></c></row>") [] []
    ≡ some (bytes "6" ++ b'\n' ∷ [])
unfolding ooxml_xml_to_text trim_end squeeze tidy scan_loop scan_step on_tag on_name local_name
    name_part split_at decode_entity sheet_rows find_text starts_with cell_text
formula_cell = refl

-- An empty shared string is joined with the next one.
empty_string : shared_strings lib 9 (bytes "<si/><si><t>a</t></si>") ≡ some (bytes "a" ∷ [])
unfolding ooxml_xml_to_text trim_end squeeze tidy scan_loop scan_step on_tag on_name local_name
    name_part split_at decode_entity shared_strings find_text starts_with
empty_string = refl
