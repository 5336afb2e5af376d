-- ===== src/Loaders/Csv/Records.antt =====
-- Reading undoes writing, for fields in quotes.
use rag_cpp.Common.{
  ℕ, ◌≡◌, ◌≢◌, refl, ap, ◌∙◌, true, false, none, some, List, [], ◌∷◌, ◌++◌, arith, ◌==◌,
  if◌then◌else◌, Bool-cases, inl, inr, append_assoc, append-nil, ==_refl,
}
use rag_cpp.Core.{is_empty}
use rag_cpp.Loaders.Csv.{
  Quoting, plain, quoted, quote_seen, Cells, read_plain, read_as, on_byte, read_cells, next_record,
}

-- A field with its quotes doubled, and the quote that ends it, before `rest`.
unfoldable pub write_quoted : List ℕ → List ℕ → List ℕ
write_quoted [] rest = b'"' ∷ rest
write_quoted (c ∷ field) rest =
    if c == b'"' then c ∷ c ∷ write_quoted field rest else c ∷ write_quoted field rest

-- The fields of a record in quotes, a delimiter between two, and a newline behind the last.
unfoldable pub write_record : ℕ → List ℕ → List (List ℕ) → List ℕ → List ℕ
write_record delim f [] rest = b'"' ∷ write_quoted f (b'\n' ∷ rest)
write_record delim f (g ∷ fields) rest =
    b'"' ∷ write_quoted f (delim ∷ write_record delim g fields rest)

abbrev cells : List (List ℕ) → List ℕ → Quoting → Cells
cells out field q = record { out = out; field = field; quoting = q }

read_cells-next :
    (delim c : ℕ) (text : List ℕ) (here next : Cells)
    → read_as here.quoting delim here c ≡ some next
    → read_cells delim (c ∷ text) here ≡ read_cells delim text next
unfolding read_cells on_byte
read_cells-next delim c text here next e = rw e refl

quoted-quote :
    (delim c : ℕ) (out : List (List ℕ)) (field : List ℕ)
    → (c == b'"') ≡ true
    → read_as quoted delim (cells out field quoted) c ≡ some (cells out field quote_seen)
unfolding read_as
quoted-quote delim c out field e = rw e refl

quoted-other :
    (delim c : ℕ) (out : List (List ℕ)) (field : List ℕ)
    → (c == b'"') ≡ false
    → read_as quoted delim (cells out field quoted) c ≡ some (cells out (field ++ c ∷ []) quoted)
unfolding read_as
quoted-other delim c out field e = rw e refl

quote_seen-quote :
    (delim c : ℕ) (out : List (List ℕ)) (field : List ℕ)
    → (c == b'"') ≡ true
    → read_as quote_seen delim (cells out field quote_seen) c
      ≡ some (cells out (field ++ c ∷ []) quoted)
unfolding read_as
quote_seen-quote delim c out field e = rw e refl

quote_seen-delim :
    (delim : ℕ) (out : List (List ℕ)) (field : List ℕ)
    → delim ≢ b'"'
    → read_as quote_seen delim (cells out field quote_seen) delim
      ≡ some (cells (out ++ field ∷ []) [] plain)
unfolding read_as read_plain
quote_seen-delim delim out field h =
    let no_quote : (delim == b'"') ≡ false = ground (arith, h) in
    let same : (delim == delim) ≡ true = ==_refl delim in rw (no_quote, same) refl

quote_seen-newline :
    (delim : ℕ) (out : List (List ℕ)) (field : List ℕ)
    → delim ≢ b'\n'
    → read_as quote_seen delim (cells out field quote_seen) b'\n' ≡ none
unfolding read_as read_plain
quote_seen-newline delim out field h =
    let other : (b'\n' == delim) ≡ false = ground (arith, h) in rw other refl

read-quoted :
    (delim : ℕ) (f rest done : List ℕ) (out : List (List ℕ))
    → read_cells delim (write_quoted f rest) (cells out done quoted)
      ≡ read_cells delim rest (cells out (done ++ f) quote_seen)
unfolding write_quoted
read-quoted delim [] rest done out =
    rw (append-nil done)
      (read_cells-next delim b'"' rest _ _ (quoted-quote delim b'"' out done refl))
read-quoted delim (c ∷ f) rest done out =
    let more = read-quoted delim f rest (done ++ c ∷ []) out in
    let whole =
      ap (λ s. read_cells delim rest (cells out s quote_seen)) (append_assoc done (c ∷ []) f) in
    elim (Bool-cases (c == b'"')) [
      | inl e ↦ rw e (
          read_cells-next delim c _ _ _ (quoted-quote delim c out done e)
          ∙ read_cells-next delim c _ _ _ (quote_seen-quote delim c out done e)
          ∙ more
          ∙ whole)
      | inr e ↦
          rw e (read_cells-next delim c _ _ _ (quoted-other delim c out done e) ∙ more ∙ whole)
    ]

opening :
    (delim : ℕ) (out : List (List ℕ)) (text : List ℕ)
    → read_cells delim (b'"' ∷ text) (cells out [] plain)
      ≡ read_cells delim text (cells out [] quoted)
unfolding read_cells on_byte read_as read_plain
opening delim out text = refl

ending :
    (delim : ℕ) (rest : List ℕ) (here : Cells)
    → read_as here.quoting delim here b'\n' ≡ none
    → read_cells delim (b'\n' ∷ rest) here ≡ (here.out ++ here.field ∷ [], rest)
unfolding read_cells on_byte
ending delim rest here e = rw e refl

write_record-nonempty :
    (delim : ℕ) (f : List ℕ) (fields : List (List ℕ)) (rest : List ℕ)
    → is_empty (write_record delim f fields rest) ≡ false
unfolding write_record
write_record-nonempty delim f [] rest = refl
write_record-nonempty delim f (g ∷ fields) rest = refl

read-record :
    (delim : ℕ) (f : List ℕ) (fields : List (List ℕ)) (rest : List ℕ) (out : List (List ℕ))
    → delim ≢ b'"'
    → delim ≢ b'\n'
    → read_cells delim (write_record delim f fields rest) (cells out [] plain)
      ≡ (out ++ f ∷ fields, rest)
unfolding write_record
read-record delim f [] rest out h k =
    opening delim out _
    ∙ read-quoted delim f (b'\n' ∷ rest) [] out
    ∙ ending delim rest (cells out f quote_seen) (quote_seen-newline delim out f k)
read-record delim f (g ∷ fields) rest out h k =
    opening delim out _
    ∙ read-quoted delim f (delim ∷ write_record delim g fields rest) [] out
    ∙ read_cells-next delim delim _ _ _ (quote_seen-delim delim out f h)
    ∙ read-record delim g fields rest (out ++ f ∷ []) h k
    ∙ ap (λ s. (s, rest)) (append_assoc out (f ∷ []) (g ∷ fields))

-- From a record that is written in quotes `next_record` reads the fields, whatever they hold, and
-- leaves the text behind the record. The delimiter is neither a quote nor a newline.
pub next_record-write_record :
    (delim : ℕ) (f : List ℕ) (fields : List (List ℕ)) (rest : List ℕ)
    → delim ≢ b'"'
    → delim ≢ b'\n'
    → next_record delim (write_record delim f fields rest) ≡ some (f ∷ fields, rest)
unfolding next_record
next_record-write_record delim f fields rest h k =
    rw (write_record-nonempty delim f fields rest)
      (ap (λ r. some r) (read-record delim f fields rest [] h k))
