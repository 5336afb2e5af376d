-- ===== src/Loaders/Csv/Rows.antt =====
-- The loop over the rows.
use rag_cpp.Common.{
  ℕ, zero, suc, ◌+◌, ◌≤◌, ◌<◌, ◌≡◌, refl, Bool, true, false, Option, none, some, List, [], ◌∷◌,
  ◌++◌, length, arith, Option-cases, inl, inr, if◌then◌else◌,
}
use rag_cpp.Core.{Result}
use rag_cpp.Loaders.Csv.{
  CsvOptions, LoadedDoc, Cells, read_as, on_byte, read_cells, no_cells, next_record, Row, skipped,
  refused, added, read_row, Loaded, loaded, on_row, load_rows, with_header, load_csv_text,
}

read_cells-shrinks :
    (delim : ℕ) (text : List ℕ) (here : Cells) → length (read_cells delim text here).1 ≤ length text
unfolding read_cells on_byte
read_cells-shrinks delim [] here = omega arith
read_cells-shrinks delim (c ∷ text) here = elim (Option-cases (read_as here.quoting delim here c)) [
  | inl e ↦ rw e (omega arith)
  | inr (next, e) ↦ rw e (omega (arith, read_cells-shrinks delim text next))
]

-- A record takes at least one byte.
first-shrinks :
    (delim c : ℕ) (text : List ℕ) (here : Cells)
    → length (read_cells delim (c ∷ text) here).1 ≤ length text
unfolding read_cells on_byte
first-shrinks delim c text here = elim (Option-cases (read_as here.quoting delim here c)) [
  | inl e ↦ rw e (omega arith)
  | inr (next, e) ↦ rw e (read_cells-shrinks delim text next)
]

on_row_total :
    (r : Row) (headers : List (List ℕ)) (out : List LoadedDoc)
    (go : List (List ℕ) → List LoadedDoc → Loaded)
    → ((names : List (List ℕ)) (docs : List LoadedDoc)
        → (q : Result (List LoadedDoc)) × (go names docs ≡ loaded q))
    → (q : Result (List LoadedDoc)) × (on_row r headers out go ≡ loaded q)
on_row_total skipped headers out go h = h headers out
on_row_total refused headers out go h = (_, refl)
on_row_total (added names doc) headers out go h = h names (out ++ doc ∷ [])

load_rows_total :
    (f : ℕ) (opts : CsvOptions) (uri_prefix text : List ℕ) (row : ℕ) (headers : List (List ℕ))
    (out : List LoadedDoc)
    → length text < f
    → (r : Result (List LoadedDoc)) × (load_rows f opts uri_prefix text row headers out ≡ loaded r)
unfolding load_rows next_record
load_rows_total zero opts uri_prefix text row headers out h = absurd (omega arith)
load_rows_total (suc f) opts uri_prefix [] row headers out h = (Result.value out, refl)
load_rows_total (suc f) opts uri_prefix (c ∷ text) row headers out h =
    let cells = read_cells opts.delimiter (c ∷ text) no_cells in
    let less : length cells.1 < f = omega (arith, first-shrinks opts.delimiter c text no_cells) in
    on_row_total (read_row opts uri_prefix (row + 1) headers cells.0) headers out _
      (λ names docs. load_rows_total f opts uri_prefix cells.1 (row + 1) names docs less)

with_header_total :
    (opts : CsvOptions) (uri_prefix : List ℕ) (first : Option (List (List ℕ) × List ℕ))
    → (r : Result (List LoadedDoc)) × (with_header opts uri_prefix first ≡ loaded r)
with_header_total opts uri_prefix none = (_, refl)
with_header_total opts uri_prefix (some (fields, rest)) =
    load_rows_total (suc (length rest)) opts uri_prefix rest 0 _ [] (omega arith)

if_total :
    (b : Bool) (x y : Loaded)
    → (r : Result (List LoadedDoc)) × (x ≡ loaded r)
    → (r : Result (List LoadedDoc)) × (y ≡ loaded r)
    → (r : Result (List LoadedDoc)) × ((if b then x else y) ≡ loaded r)
if_total true x y h k = h
if_total false x y h k = k

-- `load_csv_text` returns a result on every text and with every option: its loop ends.
pub load_csv_text_total :
    (csv uri_prefix : List ℕ) (opts : CsvOptions)
    → (r : Result (List LoadedDoc)) × (load_csv_text csv uri_prefix opts ≡ loaded r)
unfolding load_csv_text
load_csv_text_total csv uri_prefix opts =
    if_total opts.has_header _ _
      (with_header_total opts uri_prefix (next_record opts.delimiter csv))
      (load_rows_total (suc (length csv)) opts uri_prefix csv 0 [] [] (omega arith))
