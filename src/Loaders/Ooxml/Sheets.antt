-- ===== src/Loaders/Ooxml/Sheets.antt =====
-- The text of Excel documents is found on any bytes: the loops over the shared strings and over the
-- cells end.
use rag_cpp.Common.{
  ℕ, zero, suc, ◌≤◌, ◌<◌, refl, subst, Bool, true, false, Option, none, some, List, [], ◌∷◌, All,
  length, drop, arith, inl, inr, Bool-cases, ltb, length-drop, if◌then◌else◌,
}
use rag_cpp.Core.{Result, bytes, text_eq}
use rag_cpp.Loaders.Bits.{◌>>=?◌}
use rag_cpp.Loaders.Zip.{ZipEntry, zip_entries, zip_read, and_then}
use rag_cpp.Loaders.Zip.Total.{
  Gives, >>=?-Gives, gives, IsByte, Any, IsRead, Directory, zip_entries-Gives,
}
use rag_cpp.Loaders.Ooxml.{
  Library, find_text, after_close, from_open, shared_strings, strings_of, shared_table, cell_text,
  end_row, Mark, at_end, at_row, skip_cell, at_cell, mark_cell, cell_mark, first_mark, next_mark,
  Rows, on_mark, sheet_rows, add_sheet, sheet_heading, add_sheets, or_parse_error, xlsx_to_text,
  add_cell, starts_with,
}
use rag_cpp.Loaders.Ooxml.Total.{
  Fits, find_text-Fits, IsEnd, and_then-IsEnd, xml_text-Gives, read-Gives, Directory-IsEnd,
}

-- What is left behind a mark is shorter.
abbrev Before : ℕ → Mark → Type 0
Before n at_end = Unit
Before n (at_row text) = length text < n
Before n (skip_cell text) = length text < n
Before n (at_cell cell text) = length text < n

abbrev Strings : Type 0
Strings = List ℕ → List ℕ → Option (List (List ℕ))

module _ (lib : Library) where
  after_close-Gives :
      (n : ℕ) (o : Option (List ℕ × List ℕ)) (go : Strings)
      → Fits 5 n o
      → ((item rest : List ℕ) → length rest < n → Gives Any (go item rest))
      → Gives Any (after_close lib o go)
  after_close-Gives n none go h k = gives tt
  after_close-Gives n (some (item, rest)) go h k =
      k item (drop 5 rest) (omega (arith, h, length-drop 5 rest))

  from_open-Gives :
      (n : ℕ) (o : Option (List ℕ × List ℕ)) (go : Strings)
      → Fits 3 n o
      → ((item rest : List ℕ) → length rest < n → Gives Any (go item rest))
      → Gives Any (from_open lib o go)
  from_open-Gives n none go h k = gives tt
  from_open-Gives n (some (skipped, text)) go h k =
      after_close-Gives (length text) (find_text (bytes "</si>") text) go
        (find_text-Fits (bytes "</si>") text) λ item rest l. k item rest (omega (arith, l, h))

  shared_strings-Gives : (n : ℕ) (x : List ℕ) → length x < n → Gives Any (shared_strings lib n x)
  unfolding shared_strings
  shared_strings-Gives zero x h = absurd (omega (arith, h))
  shared_strings-Gives (suc n) x h =
      from_open-Gives (length x) (find_text (bytes "<si") x) _ (find_text-Fits (bytes "<si") x)
        λ item rest l. >>=?-Gives Any _ _ (xml_text-Gives lib item) λ t k.
          >>=?-Gives Any _ _ (shared_strings-Gives n rest (omega (arith, h, l))) λ ts m. gives tt

  strings_of-Gives : (r : Result (List ℕ)) → Gives Any (strings_of lib r)
  strings_of-Gives (Result.fail e) = gives tt
  strings_of-Gives (Result.value x) = shared_strings-Gives (suc (length x)) x (omega arith)

  cell_text-Gives : (shared : List (List ℕ)) (cell : List ℕ) → Gives Any (cell_text lib shared cell)
  unfolding cell_text
  cell_text-Gives shared cell = >>=?-Gives Any _ _ (xml_text-Gives lib cell) λ v h. gives tt

  cell_mark-Before :
      (text : List ℕ) (o c : Option (List ℕ × List ℕ))
      → 3 ≤ length text
      → Fits 4 (length text) o
      → Before (length text) (cell_mark lib text o c)
  cell_mark-Before text none c h k = omega (arith, h, length-drop 3 text)
  cell_mark-Before text (some (cell, rest)) none h k = omega (arith, k, length-drop 4 rest)
  cell_mark-Before text (some (cell, rest)) (some (inner, rest2)) h k =
      elim (Bool-cases (ltb (length inner) (length cell))) [
        | inl e ↦ rw e (omega (arith, h, length-drop 3 text))
        | inr e ↦ rw e (omega (arith, k, length-drop 4 rest))
      ]

  Before-le : (m n : ℕ) (k : Mark) → m ≤ n → Before m k → Before n k
  Before-le m n at_end h b = tt
  Before-le m n (at_row text) h b = omega (arith, h, b)
  Before-le m n (skip_cell text) h b = omega (arith, h, b)
  Before-le m n (at_cell cell text) h b = omega (arith, h, b)

  mark_cell-Before :
      (n : ℕ) (text : List ℕ) → 3 ≤ length text → length text ≤ n → Before n (mark_cell lib text)
  mark_cell-Before n text h k = Before-le (length text) n (mark_cell lib text) k (
      cell_mark-Before text (find_text (bytes "</c>") text) (find_text (bytes "/>") text) h
        (find_text-Fits (bytes "</c>") text))

  first_mark-Before :
      (n : ℕ) (c r : Option (List ℕ × List ℕ))
      → Fits 3 n c
      → Fits 4 n r
      → Before n (first_mark lib c r)
  first_mark-Before n none none h k = tt
  first_mark-Before n none (some (skipped, row)) h k = omega (arith, k, length-drop 4 row)
  first_mark-Before n (some (skipped, cell)) none h k = mark_cell-Before n cell h.0 h.1
  first_mark-Before n (some (skipped, cell)) (some (skipped2, row)) h k =
      elim (Bool-cases (ltb (length skipped2) (length skipped))) [
        | inl e ↦ rw e (omega (arith, k, length-drop 4 row))
        | inr e ↦ rw e (mark_cell-Before n cell h.0 h.1)
      ]

  on_mark-Gives :
      (n : ℕ) (shared : List (List ℕ)) (m : Mark) (row out : List ℕ) (go : Rows lib)
      → Before n m
      → ((text row2 out2 : List ℕ) → length text < n → Gives Any (go text row2 out2))
      → Gives Any (on_mark lib shared m row out go)
  on_mark-Gives n shared at_end row out go h k = gives tt
  on_mark-Gives n shared (at_row text) row out go h k = k text [] (end_row lib row out) h
  on_mark-Gives n shared (skip_cell text) row out go h k = k text row out h
  on_mark-Gives n shared (at_cell cell text) row out go h k =
      >>=?-Gives Any _ _ (cell_text-Gives shared cell) λ v p. k text (add_cell lib v row) out h

  sheet_rows-Gives :
      (n : ℕ) (shared : List (List ℕ)) (text row out : List ℕ)
      → length text < n
      → Gives Any (sheet_rows lib n shared text row out)
  unfolding sheet_rows
  sheet_rows-Gives zero shared text row out h = absurd (omega (arith, h))
  sheet_rows-Gives (suc n) shared text row out h =
      on_mark-Gives (length text) shared (next_mark lib text) row out _
        (first_mark-Before (length text) (find_text (bytes "<c ") text)
          (find_text (bytes "<row") text) (find_text-Fits (bytes "<c ") text)
          (find_text-Fits (bytes "<row") text))
        λ text2 row2 out2 k. sheet_rows-Gives n shared text2 row2 out2 (omega (arith, h, k))

  add_sheet-Gives :
      (shared : List (List ℕ)) (e : ZipEntry) (out : List ℕ) (r : Result (List ℕ))
      → Gives Any (add_sheet lib shared e out r)
  add_sheet-Gives shared e out (Result.fail err) = gives tt
  add_sheet-Gives shared e out (Result.value x) =
      sheet_rows-Gives (suc (length x)) shared x [] (sheet_heading lib e out) (omega arith)

pub or_parse_error-IsEnd : (lib : Library) (out : List ℕ) → Gives IsEnd (or_parse_error lib out)
or_parse_error-IsEnd lib [] = gives (inr (inl refl))
or_parse_error-IsEnd lib (c ∷ out) = gives tt

module _ (lib : Library) (d : List ℕ) (bytes_lem : All IsByte d) where
  shared_table-Gives : (es : List ZipEntry) → All IsRead es → Gives Any (shared_table lib d es)
  unfolding shared_table
  shared_table-Gives [] h = gives tt
  shared_table-Gives (e ∷ es) h =
      elim (Bool-cases (text_eq e.name (bytes "xl/sharedStrings.xml"))) [
        | inl f ↦ rw f (
            >>=?-Gives Any _ _ (read-Gives lib d bytes_lem e h.0)
              λ part k. strings_of-Gives lib part)
        | inr f ↦ rw f (shared_table-Gives es h.1)
      ]

  sheet-Gives :
      (b : Bool) (shared : List (List ℕ)) (e : ZipEntry) (out : List ℕ)
      → IsRead e
      → Gives Any (if b then (zip_read d e >>=? add_sheet lib shared e out) else some out)
  sheet-Gives true shared e out h =
      >>=?-Gives Any _ _ (read-Gives lib d bytes_lem e h)
        λ part k. add_sheet-Gives lib shared e out part
  sheet-Gives false shared e out h = gives tt

  add_sheets-Gives :
      (shared : List (List ℕ)) (es : List ZipEntry) (out : List ℕ)
      → All IsRead es
      → Gives Any (add_sheets lib d shared es out)
  unfolding add_sheets
  add_sheets-Gives shared [] out h = gives tt
  add_sheets-Gives shared (e ∷ es) out h =
      >>=?-Gives Any _ _
        (sheet-Gives (starts_with (bytes "xl/worksheets/sheet") e.name) shared e out h.0)
        λ more k. add_sheets-Gives shared es more h.1

  pub directory-IsEnd :
      {B : Type 0} (k : List ZipEntry → Option (Result B))
      → ((es : List ZipEntry) → All IsRead es → Gives IsEnd (k es))
      → Gives IsEnd (zip_entries d >>=? λ entries. and_then entries k)
  directory-IsEnd k h = >>=?-Gives Directory _ _ (zip_entries-Gives d bytes_lem) λ entries m.
      and_then-IsEnd entries _ (Directory-IsEnd entries m) λ es e. h es (subst Directory e m).2

  pub xlsx_to_text-IsEnd : Gives IsEnd (xlsx_to_text lib d)
  unfolding xlsx_to_text
  xlsx_to_text-IsEnd = directory-IsEnd _ λ es h.
      >>=?-Gives Any _ _ (shared_table-Gives es h) λ shared k.
        >>=?-Gives Any _ _ (add_sheets-Gives shared es [] h) λ out m. or_parse_error-IsEnd lib out
