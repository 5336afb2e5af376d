-- ===== src/Loaders/Csv.antt =====
-- The tabular loader of src/loaders/csv.cpp. A position in the input is the text that is left of it.
-- `load_csv` opens the file and is not modelled.
pub mod Records
pub mod Rows
use rag_cpp.Common.{
  ℕ, zero, suc, ◌+◌, Bool, true, false, not, ◌&&◌, ◌||◌, Option, none, some, List, [], ◌∷◌, ◌++◌,
  map, length, get_or, ltb, leb, ◌==◌, if◌then◌else◌,
}
use rag_cpp.Common.SortedMap.{insert_or_assign}
use rag_cpp.Core.{Errc, Result, bytes, is_empty, text_eq, text_order, to_string}

-- `quote_seen` is a quote inside quotes, of which the next byte shows whether it closes them.
pub data Quoting : Type 0 where
  plain quoted quote_seen : Quoting

pub record Cells : Type 0 where
  pub out : List (List ℕ)
  pub field : List ℕ
  pub quoting : Quoting

abbrev pub push : Quoting → ℕ → Cells → Cells
push q c cells = record { out = cells.out; field = cells.field ++ c ∷ []; quoting = q }

-- A byte outside quotes; `none` ends the record.
unfoldable pub read_plain : ℕ → Cells → ℕ → Option Cells
read_plain delim cells c =
    if c == b'"'
    then some (record { out = cells.out; field = cells.field; quoting = quoted })
    else if c == delim
    then some (record { out = cells.out ++ cells.field ∷ []; field = []; quoting = plain })
    else if c == b'\r'
    then some (record { out = cells.out; field = cells.field; quoting = plain })
    else if c == b'\n'
    then none
    else some (push plain c cells)

unfoldable pub read_as : Quoting → ℕ → Cells → ℕ → Option Cells
read_as plain delim cells c = read_plain delim cells c
read_as quoted delim cells c =
    if c == b'"'
    then some (record { out = cells.out; field = cells.field; quoting = quote_seen })
    else some (push quoted c cells)
read_as quote_seen delim cells c =
    if c == b'"' then some (push quoted c cells) else read_plain delim cells c

abbrev pub finished : Cells → List (List ℕ)
finished cells = cells.out ++ cells.field ∷ []

unfoldable pub on_byte :
    Option Cells
    → List (List ℕ)
    → List ℕ
    → (Cells → List (List ℕ) × List ℕ)
    → List (List ℕ) × List ℕ
on_byte none fields text go = (fields, text)
on_byte (some cells) fields text go = go cells

-- The fields of the record, and the text behind it.
unfoldable pub read_cells : ℕ → List ℕ → Cells → List (List ℕ) × List ℕ
read_cells delim [] cells = (finished cells, [])
read_cells delim (c ∷ text) cells =
    on_byte (read_as cells.quoting delim cells c) (finished cells) text
      λ next. read_cells delim text next

abbrev pub no_cells : Cells
no_cells = record { out = []; field = []; quoting = plain }

-- `none` is `false`: nothing is left. A record that was begun has at least one field.
unfoldable pub next_record : ℕ → List ℕ → Option (List (List ℕ) × List ℕ)
next_record delim text = if is_empty text then none else some (read_cells delim text no_cells)

abbrev space_or_tab : ℕ → Bool
space_or_tab c = c == b' ' || c == b'\t'

unfoldable trim_left : List ℕ → List ℕ
trim_left [] = []
trim_left (c ∷ s) = let rest = trim_left s in if space_or_tab c then rest else c ∷ s

unfoldable trim_right : List ℕ → List ℕ
trim_right [] = []
trim_right (c ∷ s) =
    let rest = trim_right s in if is_empty rest && space_or_tab c then [] else c ∷ rest

unfoldable pub trim : List ℕ → List ℕ
unfolding trim_left trim_right
trim s = trim_right (trim_left s)

pub record CsvOptions : Type 0 where
  pub delimiter : ℕ
  pub has_header : Bool
  pub text_columns : List (List ℕ)
  pub title_column : List ℕ
  pub id_column : List ℕ
  pub meta_all_columns : Bool

pub record LoadedDoc : Type 0 where
  pub uri : List ℕ
  pub title : List ℕ
  pub text : List ℕ
  pub meta : List (List ℕ × List ℕ)

unfoldable pub index_from : ℕ → List ℕ → List (List ℕ) → Option ℕ
index_from i name [] = none
index_from i name (h ∷ headers) = if text_eq h name then some i else index_from (i + 1) name headers

unfoldable pub index_of : List ℕ → List (List ℕ) → Option ℕ
index_of name headers = index_from 0 name headers

unfoldable pub column_names : ℕ → List (List ℕ) → List (List ℕ)
column_names i [] = []
column_names i (f ∷ fields) = (bytes "col" ++ to_string (i + 1)) ∷ column_names (i + 1) fields

unfoldable pub append_col : List (List ℕ) → List (List ℕ) → ℕ → List ℕ → List ℕ
append_col headers fields i text =
    if leb (length fields) i || is_empty (get_or fields i [])
    then text
    else (if is_empty text then text else text ++ b'\n' ∷ [])
      ++ (get_or headers i [] ++ bytes ": " ++ get_or fields i [])

unfoldable pub all_columns : ℕ → List (List ℕ) → List (List ℕ) → ℕ → List ℕ → List ℕ
all_columns zero headers fields i text = text
all_columns (suc n) headers fields i text =
    all_columns n headers fields (i + 1) (append_col headers fields i text)

abbrev append_found : List (List ℕ) → List (List ℕ) → Option ℕ → List ℕ → List ℕ
append_found headers fields none text = text
append_found headers fields (some i) text = append_col headers fields i text

unfoldable pub named_columns : List (List ℕ) → List (List ℕ) → List (List ℕ) → List ℕ → List ℕ
named_columns headers fields [] text = text
named_columns headers fields (name ∷ names) text =
    named_columns headers fields names (append_found headers fields (index_of name headers) text)

abbrev field_at : List (List ℕ) → Option ℕ → List ℕ
field_at fields none = []
field_at fields (some i) = get_or fields i []

-- The field of a column; an option that names no column gives the empty text.
unfoldable pub column : List ℕ → List (List ℕ) → List (List ℕ) → List ℕ
column name headers fields = if is_empty name then [] else field_at fields (index_of name headers)

unfoldable pub all_meta :
    List (List ℕ) → List (List ℕ) → List (List ℕ × List ℕ) → List (List ℕ × List ℕ)
all_meta [] fields meta = meta
all_meta (h ∷ headers) [] meta = meta
all_meta (h ∷ headers) (f ∷ fields) meta =
    all_meta headers fields (insert_or_assign text_order h f meta)

unfoldable pub row_document : CsvOptions → List ℕ → ℕ → List (List ℕ) → List (List ℕ) → LoadedDoc
row_document opts uri_prefix row headers fields =
    let id = column opts.id_column headers fields in
    let id = if is_empty id then to_string row else id in
    record {
      uri = if is_empty uri_prefix then id else uri_prefix ++ b'#' ∷ id;
      title = column opts.title_column headers fields;
      text =
          if is_empty opts.text_columns
          then all_columns (length fields) headers fields 0 []
          else named_columns headers fields opts.text_columns [];
      meta =
          insert_or_assign text_order (bytes "row") (to_string row)
            (if opts.meta_all_columns then all_meta headers fields [] else []);
    }

-- What the loop does with a row: skip it, refuse the file, or add a document and go on with headers.
pub data Row : Type 0 where
  skipped : Row
  refused : Row
  added : List (List ℕ) → LoadedDoc → Row

abbrev empty_row : List (List ℕ) → Bool
empty_row [] = false
empty_row (f ∷ []) = is_empty f
empty_row (f ∷ g ∷ fields) = false

unfoldable pub read_row : CsvOptions → List ℕ → ℕ → List (List ℕ) → List (List ℕ) → Row
read_row opts uri_prefix row headers fields =
    if empty_row fields
    then skipped
    else if not (is_empty headers) && not (length fields == length headers)
    then refused
    else let names = if is_empty headers then column_names 0 fields else headers in
      added names (row_document opts uri_prefix row names fields)

-- The end of the loop; `unfinished` is a loop that ran out of fuel.
pub data Loaded : Type 0 where
  loaded : Result (List LoadedDoc) → Loaded
  unfinished : Loaded

abbrev pub on_row :
    Row → List (List ℕ) → List LoadedDoc → (List (List ℕ) → List LoadedDoc → Loaded) → Loaded
on_row skipped headers out go = go headers out
on_row refused headers out go = loaded (Result.fail Errc.invalid_argument)
on_row (added names doc) headers out go = go names (out ++ doc ∷ [])

abbrev pub on_record :
    Option (List (List ℕ) × List ℕ) → List LoadedDoc → (List (List ℕ) → List ℕ → Loaded) → Loaded
on_record none out go = loaded (Result.value out)
on_record (some (fields, text)) out go = go fields text

unfoldable pub load_rows :
    ℕ → CsvOptions → List ℕ → List ℕ → ℕ → List (List ℕ) → List LoadedDoc → Loaded
load_rows zero opts uri_prefix text row headers out = unfinished
load_rows (suc f) opts uri_prefix text row headers out =
    on_record (next_record opts.delimiter text) out λ fields rest.
      on_row (read_row opts uri_prefix (row + 1) headers fields) headers out
        λ names docs. load_rows f opts uri_prefix rest (row + 1) names docs

abbrev pub with_header : CsvOptions → List ℕ → Option (List (List ℕ) × List ℕ) → Loaded
with_header opts uri_prefix none = loaded (Result.fail Errc.invalid_argument)
with_header opts uri_prefix (some (fields, rest)) =
    load_rows (suc (length rest)) opts uri_prefix rest 0 (map trim fields) []

unfoldable pub load_csv_text : List ℕ → List ℕ → CsvOptions → Loaded
load_csv_text csv uri_prefix opts =
    if opts.has_header
    then with_header opts uri_prefix (next_record opts.delimiter csv)
    else load_rows (suc (length csv)) opts uri_prefix csv 0 [] []
