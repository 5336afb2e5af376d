-- ===== src/Index/Corpus/Replacing.antt =====
-- What a document that comes in and one that goes do to the live documents of the contents.
use rag_cpp.Common.{
  ℕ, suc, ◌+◌, ◌%◌, ◌^◌, ◌<◌, ◌≡◌, refl, ◌∙◌, sym, true, false, Option, none, some, List, [], ◌∷◌,
  ◌++◌, length, All, if◌then◌else◌, arith, Bool-cases, Option-cases, inl, inr,
}
use rag_cpp.Core.{is_empty, text_eq, text_eq_iff, text_eq_sound}
use rag_cpp.Index.Corpus.{
  Document, DocInput, Ingest, Contents, contains_id, find_document, find_by_uri, document_of,
  insert, tombstone, is_unknown, is_deleted, new_chunks, ensure_linked,
}
use rag_cpp.Index.Corpus.Valid.{Numbered, doc_id, IsValid, IsKnown, add_chunks-same}
use rag_cpp.Index.Corpus.Live.{
  live, live_docs, live_docs-append, live_docs-without_id, live_docs-IdsFrom, without_id,
  without_uri, first_with, find_document-first_with, UniqueUris, without_id-without_uri,
  first_with-without_uri, without_uri-fresh,
}

pub fresh_id : (n : ℕ) (ids : List ℕ) → All (IsKnown n) ids → contains_id n ids ≡ false
fresh_id n [] h = refl
fresh_id n (i ∷ ids) h = ground (arith, h.0, fresh_id n ids h.1)

-- A new document comes last.
pub insert-live :
    (ing : Ingest) (d : DocInput) (s : Contents)
    → All (IsKnown (length s.docs)) s.deleted
    → length s.docs < 2 ^ 32
    → live (insert ing d s) ≡ live s ++ document_of (length s.docs) d ∷ []
unfolding insert live_docs
insert-live ing d s known room =
    let did : length s.docs % 2 ^ 32 ≡ length s.docs = omega arith in
    let doc = document_of (length s.docs) d in
    let (docs, deleted, rows, epoch) =
      add_chunks-same (new_chunks ing doc) (record s { docs = s.docs ++ doc ∷ [] }) in
    rw (did, docs, deleted)
      (live_docs-append s.deleted s.docs (doc ∷ [])
        ∙ rw (fresh_id (length s.docs) s.deleted known) refl)

-- A removal that goes through, and the upsert of a document, without the log.
abbrev pub forget : Option ℕ → Contents → Contents
forget none s = s
forget (some id) s = tombstone id (ensure_linked s)

unfoldable pub put_contents : Ingest → DocInput → Contents → Contents
put_contents ing d s = insert ing d (forget (find_by_uri d.uri s) s)

-- The upsert of the specification, with the id of the new document.
unfoldable pub put_document : Document → List Document → List Document
put_document doc docs = (if is_empty doc.uri then docs else without_uri doc.uri docs) ++ doc ∷ []

pub tombstone-live :
    (id : ℕ) (s : Contents) → live (tombstone id (ensure_linked s)) ≡ without_id id (live s)
unfolding tombstone ensure_linked
tombstone-live id s = live_docs-without_id id s.deleted s.docs

pub find_by_uri-live :
    (uri : List ℕ) (s : Contents)
    → is_empty uri ≡ false
    → find_by_uri uri s ≡ first_with uri (live s)
unfolding find_by_uri
find_by_uri-live uri s e = rw e (find_document-first_with s.deleted uri s.docs)

-- What the search by uri finds is a document that is there.
pub find_document-known :
    (deleted : List ℕ) (uri : List ℕ) (n i : ℕ) (docs : List Document)
    → Numbered doc_id n docs
    → find_document deleted uri docs ≡ some i
    → (i < n + length docs) × (contains_id i deleted ≡ false)
unfolding find_document
find_document-known deleted uri n i [] h e = cc e
find_document-known deleted uri n i (d ∷ docs) h e = elim (Bool-cases (contains_id d.id deleted)) [
  | inl gone ↦
      let (below, kept) = find_document-known deleted uri (suc n) i docs h.1 (rw gone at e) in
      (omega arith, kept)
  | inr there ↦ elim (Bool-cases (text_eq d.uri uri)) [
    | inl same ↦
        let at_d : d.id ≡ i = ground (arith, rw (there, same) at e) in
        (omega (arith, h.0), rw (sym at_d) there)
    | inr other ↦
        let (below, kept) =
          find_document-known deleted uri (suc n) i docs h.1 (rw (there, other) at e) in
        (omega arith, kept)
  ]
]

pub find_by_uri-known :
    (uri : List ℕ) (s : Contents) (i : ℕ)
    → IsValid s
    → find_by_uri uri s ≡ some i
    → is_unknown i s ≡ false
unfolding find_by_uri is_unknown is_deleted
find_by_uri-known uri s i v e = elim (Bool-cases (is_empty uri)) [
  | inl empty ↦ cc (rw empty at e)
  | inr full ↦
      let (below, kept) =
        find_document-known s.deleted uri 0 i s.docs v.docs_numbered (rw full at e) in
      ground arith
]

pub forget-IsKnown :
    (o : Option ℕ) (s : Contents)
    → All (IsKnown (length s.docs)) s.deleted
    → ((i : ℕ) → o ≡ some i → is_unknown i s ≡ false)
    → All (IsKnown (length s.docs)) (forget o s).deleted
unfolding tombstone ensure_linked is_unknown is_deleted
forget-IsKnown none s h k = h
forget-IsKnown (some i) s h k = (ground (arith, k i refl), h)

pub forget-docs : (o : Option ℕ) (s : Contents) → (forget o s).docs ≡ s.docs
unfolding tombstone ensure_linked
forget-docs none s = refl
forget-docs (some i) s = refl

pub forget-live_empty :
    (uri : List ℕ) (s : Contents)
    → is_empty uri ≡ true
    → live (forget (find_by_uri uri s) s) ≡ live s
unfolding find_by_uri
forget-live_empty uri s e = rw e refl

pub forget-live :
    (uri : List ℕ) (s : Contents)
    → IsValid s
    → UniqueUris (live s)
    → live (forget (find_by_uri uri s) s)
      ≡ (if is_empty uri then live s else without_uri uri (live s))
forget-live uri s v u = elim (Bool-cases (is_empty uri)) [
  | inl empty ↦ rw empty (forget-live_empty uri s empty)
  | inr full ↦ rw full (elim (Option-cases (first_with uri (live s))) [
    | inl fresh ↦
        rw (find_by_uri-live uri s full, fresh) (sym (without_uri-fresh uri (live s) fresh))
    | inr (i, found) ↦
        rw (find_by_uri-live uri s full, found)
          (tombstone-live i s
            ∙ (without_id-without_uri uri i 0 (live s) full u
                (live_docs-IdsFrom s.deleted 0 s.docs v.docs_numbered) found).0)
  ])
]

pub put_contents-live :
    (ing : Ingest) (d : DocInput) (s : Contents)
    → IsValid s
    → UniqueUris (live s)
    → length s.docs < 2 ^ 32
    → live (put_contents ing d s) ≡ put_document (document_of (length s.docs) d) (live s)
unfolding put_contents put_document
put_contents-live ing d s v u room =
    let o = find_by_uri d.uri s in
    let known = forget-IsKnown o s v.deleted_known (λ i. find_by_uri-known d.uri s i v) in
    let same = forget-docs o s in
    insert-live ing d (forget o s) (rw same known) (rw same room)
    ∙ rw (forget-live d.uri s v u, same) refl

pub first_with-without_other :
    (u uri : List ℕ) (docs : List Document)
    → first_with u docs ≡ none
    → first_with u (without_uri uri docs) ≡ none
unfolding first_with without_uri
first_with-without_other u uri [] h = refl
first_with-without_other u uri (d ∷ docs) h = ground (arith, first_with-without_other u uri docs)

pub without_uri-UniqueUris :
    (uri : List ℕ) (docs : List Document) → UniqueUris docs → UniqueUris (without_uri uri docs)
unfolding without_uri
without_uri-UniqueUris uri [] h = tt
without_uri-UniqueUris uri (d ∷ docs) h = elim (Bool-cases (text_eq d.uri uri)) [
  | inl e ↦ rw e (without_uri-UniqueUris uri docs h.1)
  | inr e ↦ rw e (
    λ full. first_with-without_other d.uri uri docs (h.0 full),
    without_uri-UniqueUris uri docs h.1,
  )
]

pub first_with-append :
    (uri : List ℕ) (docs : List Document) (d : Document)
    → first_with uri docs ≡ none
    → first_with uri (docs ++ d ∷ []) ≡ (if text_eq d.uri uri then some d.id else none)
unfolding first_with
first_with-append uri [] d h = refl
first_with-append uri (e ∷ docs) d h = ground (arith, first_with-append uri docs d)

pub text_eq_sym : (a b : List ℕ) → text_eq a b ≡ false → text_eq b a ≡ false
text_eq_sym a b h = ground (arith, text_eq_iff a b, text_eq_iff b a)

pub UniqueUris-append :
    (docs : List Document) (d : Document)
    → UniqueUris docs
    → (is_empty d.uri ≡ false → first_with d.uri docs ≡ none)
    → UniqueUris (docs ++ d ∷ [])
unfolding first_with
UniqueUris-append [] d u h = (λ full. refl, tt)
UniqueUris-append (e ∷ docs) d u h = (
  λ full. elim (Bool-cases (text_eq e.uri d.uri)) [
    | inl same ↦ cc (h (rw (text_eq_sound e.uri d.uri same) at full), same)
    | inr other ↦
        first_with-append e.uri docs d (u.0 full) ∙ rw (text_eq_sym e.uri d.uri other) refl
  ],
  UniqueUris-append docs d u.1 (λ full. elim (Bool-cases (text_eq e.uri d.uri)) [
    | inl same ↦ cc (h full, same)
    | inr other ↦ rw other at (h full)
  ]),
)

pub put_document-UniqueUris :
    (doc : Document) (docs : List Document) → UniqueUris docs → UniqueUris (put_document doc docs)
unfolding put_document
put_document-UniqueUris doc docs u = elim (Bool-cases (is_empty doc.uri)) [
  | inl e ↦ rw e (UniqueUris-append docs doc u (λ full. cc (full, e)))
  | inr e ↦ rw e (
      UniqueUris-append (without_uri doc.uri docs) doc (without_uri-UniqueUris doc.uri docs u)
        (λ full. first_with-without_uri doc.uri docs))
]
