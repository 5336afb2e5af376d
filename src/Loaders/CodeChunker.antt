-- ===== src/Loaders/CodeChunker.antt =====
-- The code chunker of src/loaders/code_chunker.cpp. The fixed windows are counted by fuel: `none` is
-- a loop that did not end.
pub mod Segments
use Prim.Native.String.{String}
use rag_cpp.Common.{
  ℕ, zero, suc, ◌+◌, ◌-◌, ◌%◌, ◌^◌, min, Bool, true, false, not, ◌&&◌, ◌||◌, Option, none, some,
  List, [], ◌∷◌, ◌++◌, length, get_or, take, drop, ltb, leb, ◌==◌, if◌then◌else◌,
}
use rag_cpp.Core.{Chunk, invalid, bytes, is_empty, text_eq}
use rag_cpp.Text.Lines.{split_lines, trim_end}
use rag_cpp.Text.Chunker.{prepend}

pub data Language : Type 0 where
  unknown c_like python ruby go rust javascript markup : Language

abbrev is_one_of : List ℕ → List String → Bool
is_one_of ext [] = false
is_one_of ext (e ∷ es) = text_eq ext (bytes e) || is_one_of ext es

unfoldable pub detect_language : List ℕ → Language
detect_language ext =
    if is_one_of ext (
      ".c" ∷ ".h" ∷ ".cpp" ∷ ".hpp" ∷ ".cc" ∷ ".cxx" ∷ ".java" ∷ ".cs" ∷ ".js" ∷ ".ts" ∷ ".tsx"
      ∷ ".jsx" ∷ ".swift" ∷ ".kt" ∷ ".scala" ∷ ".php" ∷ [])
    then c_like
    else if text_eq ext (bytes ".py")
    then python
    else if text_eq ext (bytes ".rb")
    then ruby
    else if text_eq ext (bytes ".go")
    then go
    else if text_eq ext (bytes ".rs")
    then rust
    else if is_one_of ext (".md" ∷ ".markdown" ∷ ".html" ∷ ".htm" ∷ ".rst" ∷ [])
    then markup
    else unknown

unfoldable pub language_name : Language → List ℕ
language_name c_like = bytes "c_like"
language_name python = bytes "python"
language_name ruby = bytes "ruby"
language_name go = bytes "go"
language_name rust = bytes "rust"
language_name javascript = bytes "javascript"
language_name markup = bytes "markup"
language_name unknown = bytes "unknown"

unfoldable pub indent_of : List ℕ → ℕ
indent_of [] = 0
indent_of (c ∷ s) = let more = indent_of s in if c == b' ' || c == b'\t' then suc more else 0

abbrev starts : List ℕ → String → Bool
starts s kw = text_eq (take (length (bytes kw)) s) (bytes kw)

abbrev starts_any : List ℕ → List String → Bool
starts_any s [] = false
starts_any s (kw ∷ kws) = starts s kw || starts_any s kws

abbrev has_byte : ℕ → List ℕ → Bool
has_byte c [] = false
has_byte c (d ∷ s) = c == d || has_byte c s

-- A line at column 0 that looks like a definition; `s` is not empty at the second test.
unfoldable pub c_like_boundary : List ℕ → Bool
c_like_boundary s =
    let first = get_or s 0 0 in
    let back = get_or s (length s - 1) 0 in
    if is_empty s || first == b'/' || first == b'*' || first == b'#' || first == b'}'
    then false
    else if starts_any s (
        "class " ∷ "struct " ∷ "enum " ∷ "namespace " ∷ "interface " ∷ "public " ∷ "private "
        ∷ "export " ∷ "function " ∷ [])
    then true
    else has_byte b'(' s && (back == b'{' || back == b')')

unfoldable pub is_boundary : Language → List ℕ → Bool
is_boundary lang line =
    let ind = indent_of line in
    let s = drop ind line in
    elim lang [
      | python ↦ ind == 0 && starts_any s ("def " ∷ "class " ∷ "async def " ∷ [])
      | ruby ↦ leb ind 2 && starts_any s ("def " ∷ "class " ∷ "module " ∷ [])
      | go ↦ ind == 0 && starts_any s ("func " ∷ "type " ∷ [])
      | rust ↦
          ind == 0
          && starts_any s (
              "fn " ∷ "pub fn " ∷ "impl " ∷ "struct " ∷ "enum " ∷ "trait " ∷ "pub struct "
              ∷ "pub enum " ∷ "mod " ∷ [])
      | c_like ↦ ind == 0 && c_like_boundary s
      | unknown ↦ false
      | javascript ↦ false
      | markup ↦ false
    ]

pub record CodeChunkOptions : Type 0 where
  pub max_lines : ℕ
  pub max_chars : ℕ
  pub min_lines : ℕ

-- The lines, each with a newline behind it.
unfoldable pub segment_text : List (List ℕ) → List ℕ
segment_text [] = []
segment_text (l ∷ ls) = l ++ b'\n' ∷ segment_text ls

-- The closure `flush`: the chunk of the lines from `start` to before `stop`, if they hold text.
unfoldable pub segment : ℕ → List (List ℕ) → ℕ → ℕ → List ℕ → List Chunk
segment doc lines start stop ctx =
    let text = trim_end (segment_text (take (stop - start) (drop start lines))) in
    if leb stop start
    then []
    else if is_empty text
    then []
    else record {
      id = invalid;
      doc = doc;
      text = text;
      context = ctx;
      start_line = start % 2 ^ 32;
      end_line = (stop - 1) % 2 ^ 32;
    }
      ∷ []

unfoldable pub is_comment_line : List ℕ → Bool
is_comment_line s = starts_any (drop (indent_of s) s) ("//" ∷ "#" ∷ "/*" ∷ "*" ∷ "--" ∷ ";" ∷ [])

-- The cut moved up over the comments above it, and over one blank line that a comment stands above.
unfoldable pub claim_leading_comments : List (List ℕ) → ℕ → ℕ
claim_leading_comments lines zero = 0
claim_leading_comments lines (suc start) =
    let higher = claim_leading_comments lines start in
    let prev = get_or lines start [] in
    if is_comment_line prev
    then higher
    else if indent_of prev == length prev
        && (leb 2 (suc start) && is_comment_line (get_or lines (suc start - 2) []))
    then higher
    else suc start

pub record Segmenter : Type 0 where
  pub seg_start : ℕ
  pub chars : ℕ
  pub last_def : List ℕ
  pub chunks : List Chunk

unfoldable pub cut_at : Language → List (List ℕ) → ℕ → ℕ
cut_at lang lines i =
    if is_boundary lang (get_or lines i []) then claim_leading_comments lines i else i

unfoldable pub is_cut : Language → CodeChunkOptions → List (List ℕ) → ℕ → Segmenter → Bool
is_cut lang opts lines i st =
    (is_boundary lang (get_or lines i [])
      && leb opts.min_lines (cut_at lang lines i - st.seg_start))
    || leb opts.max_lines (i - st.seg_start)
    || leb opts.max_chars st.chars

unfoldable pub definition_line : Language → List ℕ → List ℕ → List ℕ
definition_line lang line last_def =
    if is_boundary lang line
    then take (min (length line - indent_of line) 120) (drop (indent_of line) line)
    else last_def

-- The body of the loop over the lines.
unfoldable pub read_code_line :
    ℕ → Language → CodeChunkOptions → List (List ℕ) → ℕ → Segmenter → Segmenter
read_code_line doc lang opts lines i st =
    let line = get_or lines i [] in
    let cut = cut_at lang lines i in
    let last_def = definition_line lang line st.last_def in
    if is_cut lang opts lines i st
    then record {
      seg_start = cut;
      chars = length line + 1;
      last_def = last_def;
      chunks = st.chunks ++ segment doc lines st.seg_start cut st.last_def;
    }
    else record {
      seg_start = st.seg_start;
      chars = st.chars + (length line + 1);
      last_def = last_def;
      chunks = st.chunks;
    }

-- `n` lines from `i` on.
unfoldable pub read_code :
    ℕ → ℕ → Language → CodeChunkOptions → List (List ℕ) → ℕ → Segmenter → Segmenter
read_code zero doc lang opts lines i st = st
read_code (suc n) doc lang opts lines i st =
    read_code n doc lang opts lines (i + 1) (read_code_line doc lang opts lines i st)

-- The fixed windows of a text that is no code.
unfoldable pub fixed_windows : ℕ → ℕ → ℕ → List (List ℕ) → ℕ → List ℕ → Option (List Chunk)
fixed_windows zero doc max_lines lines i ctx = if ltb i (length lines) then none else some []
fixed_windows (suc f) doc max_lines lines i ctx =
    let rest = fixed_windows f doc max_lines lines (i + max_lines) ctx in
    if ltb i (length lines)
    then prepend (segment doc lines i (min (i + max_lines) (length lines)) ctx) rest
    else some []

abbrev pub has_no_code : Language → Bool
has_no_code unknown = true
has_no_code markup = true
has_no_code c_like = false
has_no_code python = false
has_no_code ruby = false
has_no_code go = false
has_no_code rust = false
has_no_code javascript = false

abbrev pub no_segment : Segmenter
no_segment = record { seg_start = 0; chars = 0; last_def = []; chunks = [] }

unfoldable pub code_chunks : ℕ → Language → CodeChunkOptions → List (List ℕ) → List Chunk
code_chunks doc lang opts lines =
    let st = read_code (length lines) doc lang opts lines 0 no_segment in
    st.chunks ++ segment doc lines st.seg_start (length lines) st.last_def

unfoldable pub chunk_code : ℕ → List ℕ → List ℕ → CodeChunkOptions → Option (List Chunk)
chunk_code doc ext body opts =
    let lang = detect_language ext in
    let lines = split_lines body in
    if has_no_code lang
    then fixed_windows (length lines) doc opts.max_lines lines 0 (language_name lang)
    else some (code_chunks doc lang opts lines)
