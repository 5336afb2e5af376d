-- ===== src/Index/Corpus/Count.antt =====
-- `live_document_count` of src/index/corpus.cpp counts the live documents.
use rag_cpp.Common.{
  ℕ, suc, ◌+◌, ◌≤◌, ◌<◌, ◌≡◌, refl, ap, false, List, [], ◌∷◌, length, All, ◌==◌, arith, Bool-cases,
  inl, inr,
}
use rag_cpp.Index.Corpus.{Document, Contents, contains_id, live_document_count}
use rag_cpp.Index.Corpus.Valid.{Numbered, doc_id, IsValid, IsKnown, Distinct}
use rag_cpp.Index.Corpus.Live.{live, live_docs}

-- An id before all of these documents takes none of them.
live_docs_before :
    (i m : ℕ) (deleted : List ℕ) (docs : List Document)
    → Numbered doc_id m docs
    → i < m
    → live_docs (i ∷ deleted) docs ≡ live_docs deleted docs
unfolding live_docs
live_docs_before i m deleted [] h l = refl
live_docs_before i m deleted (d ∷ docs) h l =
    let differs : (d.id == i) ≡ false = ground (arith, h.0) in
    rw (differs, live_docs_before i (suc m) deleted docs h.1 (omega arith)) refl

-- One more deleted id takes one live document.
live_docs_one :
    (i n : ℕ) (deleted : List ℕ) (docs : List Document)
    → Numbered doc_id n docs
    → n ≤ i
    → i < n + length docs
    → contains_id i deleted ≡ false
    → length (live_docs (i ∷ deleted) docs) + 1 ≡ length (live_docs deleted docs)
unfolding live_docs
live_docs_one i n deleted [] h l k e = absurd (omega arith)
live_docs_one i n deleted (d ∷ docs) h l k e = elim (Bool-cases (d.id == i)) [
  | inl same ↦
      let at_i : d.id ≡ i = ground arith in
      let kept : contains_id d.id deleted ≡ false = rw at_i e in
      rw (same, kept, live_docs_before i (suc n) deleted docs h.1 (omega (arith, h.0, at_i)))
        (omega arith)
  | inr other ↦
      let later : suc n ≤ i = ground (arith, h.0) in
      let rest = live_docs_one i (suc n) deleted docs h.1 later (omega arith) e in
      elim (Bool-cases (contains_id d.id deleted)) [
        | inl gone ↦ rw (other, gone) rest
        | inr there ↦ rw (other, there) (omega (arith, rest))
      ]
]

live_docs_none : (docs : List Document) → live_docs [] docs ≡ docs
unfolding live_docs
live_docs_none [] = refl
live_docs_none (d ∷ docs) = ap (λ l. d ∷ l) (live_docs_none docs)

length-live_docs :
    (deleted : List ℕ) (docs : List Document)
    → Numbered doc_id 0 docs
    → All (IsKnown (length docs)) deleted
    → Distinct deleted
    → length (live_docs deleted docs) + length deleted ≡ length docs
length-live_docs [] docs h k d = rw (live_docs_none docs) (omega arith)
length-live_docs (i ∷ deleted) docs h k d = omega (
  arith,
  length-live_docs deleted docs h k.1 d.1,
  live_docs_one i 0 deleted docs h (omega arith) (omega (arith, k.0)) d.0,
)

-- In a valid corpus live_document_count is the number of documents that are not deleted.
pub live_document_count_lem : (s : Contents) → IsValid s → live_document_count s ≡ length (live s)
unfolding live_document_count
live_document_count_lem s v =
    omega
      (arith, length-live_docs s.deleted s.docs v.docs_numbered v.deleted_known v.deleted_distinct)
