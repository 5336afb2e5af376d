-- ===== src/Index/Corpus/Live.antt =====
-- The live documents of a corpus in the order in which they came, and how they change.
use rag_cpp.Common.{
  ℕ, suc, ◌≤◌, ◌<◌, ◌≡◌, refl, ◌∙◌, sym, ap, true, false, Option, none, some, List, [], ◌∷◌, ◌++◌,
  ◌==◌, if◌then◌else◌, arith, Bool-cases, inl, inr,
}
use rag_cpp.Core.{is_empty, text_eq, text_eq_sound}
use rag_cpp.Index.Corpus.{Document, Contents, contains_id, find_document}
use rag_cpp.Index.Corpus.Valid.{Numbered, doc_id}

unfoldable pub live_docs : List ℕ → List Document → List Document
live_docs deleted [] = []
live_docs deleted (d ∷ docs) =
    let rest = live_docs deleted docs in if contains_id d.id deleted then rest else d ∷ rest

unfoldable pub without_id : ℕ → List Document → List Document
without_id i [] = []
without_id i (d ∷ docs) = let rest = without_id i docs in if d.id == i then rest else d ∷ rest

unfoldable pub without_uri : List ℕ → List Document → List Document
without_uri uri [] = []
without_uri uri (d ∷ docs) =
    let rest = without_uri uri docs in if text_eq d.uri uri then rest else d ∷ rest

unfoldable pub first_with : List ℕ → List Document → Option ℕ
first_with uri [] = none
first_with uri (d ∷ docs) = if text_eq d.uri uri then some d.id else first_with uri docs

abbrev pub live : Contents → List Document
live s = live_docs s.deleted s.docs

-- No two of the documents have one non-empty uri.
abbrev pub UniqueUris : List Document → Type 0
UniqueUris [] = Unit
UniqueUris (d ∷ docs) = (is_empty d.uri ≡ false → first_with d.uri docs ≡ none) × UniqueUris docs

-- The ids rise, from `n` on.
abbrev pub IdsFrom : ℕ → List Document → Type 0
IdsFrom n [] = Unit
IdsFrom n (d ∷ docs) = (n ≤ d.id) × IdsFrom (suc d.id) docs

pub live_docs-append :
    (deleted : List ℕ) (docs more : List Document)
    → live_docs deleted (docs ++ more) ≡ live_docs deleted docs ++ live_docs deleted more
unfolding live_docs
live_docs-append deleted [] more = refl
live_docs-append deleted (d ∷ docs) more = grind (arith, live_docs-append deleted docs more)

pub live_docs-without_id :
    (i : ℕ) (deleted : List ℕ) (docs : List Document)
    → live_docs (i ∷ deleted) docs ≡ without_id i (live_docs deleted docs)
unfolding live_docs without_id
live_docs-without_id i deleted [] = refl
live_docs-without_id i deleted (d ∷ docs) = grind (arith, live_docs-without_id i deleted docs)

pub find_document-first_with :
    (deleted : List ℕ) (uri : List ℕ) (docs : List Document)
    → find_document deleted uri docs ≡ first_with uri (live_docs deleted docs)
unfolding find_document live_docs first_with
find_document-first_with deleted uri [] = refl
find_document-first_with deleted uri (d ∷ docs) =
    grind (arith, find_document-first_with deleted uri docs)

IdsFrom-weaken : (m n : ℕ) (docs : List Document) → m ≤ n → IdsFrom n docs → IdsFrom m docs
IdsFrom-weaken m n [] l h = tt
IdsFrom-weaken m n (d ∷ docs) l h = (omega (arith, h.0), h.1)

pub live_docs-IdsFrom :
    (deleted : List ℕ) (n : ℕ) (docs : List Document)
    → Numbered doc_id n docs
    → IdsFrom n (live_docs deleted docs)
unfolding live_docs
live_docs-IdsFrom deleted n [] h = tt
live_docs-IdsFrom deleted n (d ∷ docs) h =
    let rest = live_docs-IdsFrom deleted (suc n) docs h.1 in
    elim (Bool-cases (contains_id d.id deleted)) [
      | inl e ↦ rw e (IdsFrom-weaken n (suc n) (live_docs deleted docs) (omega arith) rest)
      | inr e ↦ rw e (
        omega (arith, h.0),
        IdsFrom-weaken (suc d.id) (suc n) (live_docs deleted docs) (omega (arith, h.0)) rest,
      )
    ]

without_id-fresh :
    (i n : ℕ) (docs : List Document) → i < n → IdsFrom n docs → without_id i docs ≡ docs
unfolding without_id
without_id-fresh i n [] l h = refl
without_id-fresh i n (d ∷ docs) l h =
    let differs : (d.id == i) ≡ false = ground (arith, h.0) in
    rw differs (ap (λ r. d ∷ r) (without_id-fresh i (suc d.id) docs (omega (arith, h.0)) h.1))

-- Documents with that uri are gone, and there were none.
pub without_uri-fresh :
    (uri : List ℕ) (docs : List Document) → first_with uri docs ≡ none → without_uri uri docs ≡ docs
unfolding without_uri first_with
without_uri-fresh uri [] h = refl
without_uri-fresh uri (d ∷ docs) h = ground (arith, without_uri-fresh uri docs)

-- Where uris are unique, taking out the document that the uri finds is taking out the uri.
pub without_id-without_uri :
    (uri : List ℕ) (i n : ℕ) (docs : List Document)
    → is_empty uri ≡ false
    → UniqueUris docs
    → IdsFrom n docs
    → first_with uri docs ≡ some i
    → (without_id i docs ≡ without_uri uri docs) × (n ≤ i)
unfolding without_id without_uri first_with
without_id-without_uri uri i n [] e u h f = cc f
without_id-without_uri uri i n (d ∷ docs) e u h f = elim (Bool-cases (text_eq d.uri uri)) [
  | inl same ↦
      let at_uri : d.uri ≡ uri = text_eq_sound d.uri uri same in
      let found : d.id ≡ i = ground (arith, rw same at f) in
      let here : (d.id == i) ≡ true = ground arith in
      let none_left : first_with uri docs ≡ none = rw at_uri at u.0 e in
      rw (same, here)
        (
          without_id-fresh i (suc d.id) docs (omega arith) h.1
              ∙ sym (without_uri-fresh uri docs none_left),
          omega (arith, h.0),
        )
  | inr other ↦
      let (rest, above) = without_id-without_uri uri i (suc d.id) docs e u.1 h.1 (rw other at f) in
      let there : (d.id == i) ≡ false = ground arith in
      rw (other, there) (ap (λ r. d ∷ r) rest, omega (arith, h.0))
]

pub first_with-without_uri :
    (uri : List ℕ) (docs : List Document) → first_with uri (without_uri uri docs) ≡ none
unfolding without_uri first_with
first_with-without_uri uri [] = refl
first_with-without_uri uri (d ∷ docs) = ground (arith, first_with-without_uri uri docs)
