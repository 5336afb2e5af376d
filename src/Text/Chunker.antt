-- ===== src/Text/Chunker.antt =====
-- The prose chunker of src/text/chunker.cpp. A window of lines is read from the lines that are left,
-- and the outer loop is counted by fuel: `none` is a loop that did not end.
pub mod Windows
use rag_cpp.Common.{
  ℕ, zero, suc, ◌+◌, ◌-◌, ◌/◌, ◌%◌, ◌^◌, Bool, true, false, not, ◌&&◌, ◌||◌, Option, none, some,
  List, [], ◌∷◌, ◌++◌, length, get_or, take, drop, ltb, leb, ◌==◌, if◌then◌else◌,
}
use rag_cpp.Core.{Chunk, invalid, is_empty}
use rag_cpp.Text.Lines.{split_lines, trim_end}

pub record ChunkOptions : Type 0 where
  pub max_lines : ℕ
  pub max_chars : ℕ
  pub overlap_lines : ℕ
  pub heading_context : Bool

abbrev pub default_chunks : ChunkOptions
default_chunks = record {
  max_lines = 40;
  max_chars = 1600;
  overlap_lines = 4;
  heading_context = true;
}

-- How many `#` the line begins with.
unfoldable pub hashes : List ℕ → ℕ
hashes [] = 0
hashes (c ∷ line) = let more = hashes line in if c == b'#' then suc more else 0

-- The level of an ATX heading, 0 for another line.
unfoldable pub heading_level : List ℕ → ℕ
heading_level line =
    let i = hashes line in
    if leb 1 i && leb i 6 && ltb i (length line) && get_or line i 0 == b' ' then i else 0

abbrev hash_or_space : ℕ → Bool
hash_or_space c = c == b'#' || c == b' '

unfoldable pub skip_marks : List ℕ → List ℕ
skip_marks [] = []
skip_marks (c ∷ line) = let rest = skip_marks line in if hash_or_space c then rest else c ∷ line

unfoldable trim_marks : List ℕ → List ℕ
trim_marks [] = []
trim_marks (c ∷ text) =
    let rest = trim_marks text in if is_empty rest && hash_or_space c then [] else c ∷ rest

unfoldable pub heading_text : List ℕ → List ℕ
unfolding skip_marks trim_marks
heading_text line = trim_marks (skip_marks line)

unfoldable pub cleared : ℕ → List (List ℕ)
cleared zero = []
cleared (suc n) = [] ∷ cleared n

-- `crumb[lvl] = t`, and the deeper levels cleared; `crumb` has the entries 0 to 6.
unfoldable pub set_crumb : ℕ → List ℕ → List (List ℕ) → List (List ℕ)
set_crumb lvl t crumb = take lvl crumb ++ t ∷ cleared (6 - lvl)

-- " › "
abbrev pub crumb_separator : List ℕ
crumb_separator = 32 ∷ 226 ∷ 128 ∷ 186 ∷ 32 ∷ []

unfoldable pub join_crumbs : List ℕ → List (List ℕ) → List ℕ
join_crumbs ctx [] = ctx
join_crumbs ctx (c ∷ crumb) =
    if is_empty c
    then join_crumbs ctx crumb
    else join_crumbs ((if is_empty ctx then ctx else ctx ++ crumb_separator) ++ c) crumb

unfoldable pub build_context : List (List ℕ) → List ℕ
build_context crumb = join_crumbs [] (drop 1 crumb)

pub record Window : Type 0 where
  pub i : ℕ
  pub crumb : List (List ℕ)
  pub chunk_text : List ℕ
  pub line_count : ℕ
  pub char_count : ℕ
  pub ctx_at_start : Option (List ℕ)

abbrev pub opened : ℕ → List (List ℕ) → Window
opened start crumb = record {
  i = start;
  crumb = crumb;
  chunk_text = [];
  line_count = 0;
  char_count = 0;
  ctx_at_start = none;
}

unfoldable pub captured : Option (List ℕ) → List (List ℕ) → Option (List ℕ)
captured (some ctx) crumb = some ctx
captured none crumb = some (build_context crumb)

unfoldable pub read_heading : ChunkOptions → List ℕ → List (List ℕ) → List (List ℕ)
read_heading opts line crumb =
    if opts.heading_context && ltb 0 (heading_level line)
    then set_crumb (heading_level line) (heading_text line) crumb
    else crumb

-- The body of the inner loop, up to its break.
unfoldable pub take_line : ChunkOptions → List ℕ → Window → Window
take_line opts line w =
    let crumb = read_heading opts line w.crumb in
    record {
      i = w.i + 1;
      crumb = crumb;
      chunk_text =
          (if is_empty w.chunk_text then w.chunk_text else w.chunk_text ++ b'\n' ∷ []) ++ line;
      line_count = w.line_count + 1;
      char_count = w.char_count + (length line + 1);
      ctx_at_start = captured w.ctx_at_start crumb;
    }

-- The inner loop over the lines from `i` on.
unfoldable pub fill : ChunkOptions → List (List ℕ) → Window → Window
fill opts [] w = w
fill opts (line ∷ rest) w =
    let after = take_line opts line w in
    let filled = fill opts rest after in
    if ltb w.line_count opts.max_lines && ltb w.char_count opts.max_chars
    then (if is_empty line && leb (opts.max_lines / 2) after.line_count then after else filled)
    else w

abbrev pub context_of : Option (List ℕ) → List ℕ
context_of (some ctx) = ctx
context_of none = []

unfoldable pub emitted : ℕ → ℕ → Window → List Chunk
emitted doc start w =
    let trimmed = trim_end w.chunk_text in
    if is_empty trimmed
    then []
    else record {
      id = invalid;
      doc = doc;
      text = trimmed;
      context = context_of w.ctx_at_start;
      start_line = start % 2 ^ 32;
      end_line = (w.i - 1) % 2 ^ 32;
    }
      ∷ []

-- The overlap: a few lines back, if that leaves the window's first line behind; the sum and the
-- difference wrap as a `size_t` does.
unfoldable pub next_start : ChunkOptions → ℕ → ℕ → ℕ → ℕ
next_start opts n start i =
    if ltb 0 opts.overlap_lines && ltb i n && ltb ((start + opts.overlap_lines) % 2 ^ 64) i
    then (i + 2 ^ 64 - opts.overlap_lines) % 2 ^ 64
    else i

unfoldable pub prepend : List Chunk → Option (List Chunk) → Option (List Chunk)
prepend cs (some ds) = some (cs ++ ds)
prepend cs none = none

unfoldable pub chunk_loop :
    ℕ → ℕ → ChunkOptions → List (List ℕ) → ℕ → List (List ℕ) → Option (List Chunk)
chunk_loop zero doc opts lines i crumb = if ltb i (length lines) then none else some []
chunk_loop (suc f) doc opts lines i crumb =
    let w = fill opts (drop i lines) (opened i crumb) in
    let rest = chunk_loop f doc opts lines (next_start opts (length lines) i w.i) w.crumb in
    if ltb i (length lines) then prepend (emitted doc i w) rest else some []

unfoldable pub chunk_document : ℕ → List ℕ → ChunkOptions → Option (List Chunk)
chunk_document doc body opts =
    let lines = split_lines body in chunk_loop (length lines) doc opts lines 0 (cleared 7)
