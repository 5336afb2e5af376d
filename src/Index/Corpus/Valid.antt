-- ===== src/Index/Corpus/Valid.antt =====
-- The well-formed corpus, and that every step keeps it so. A step is what one call does to the
-- contents; `Corpus.Steps` shows that each operation is made of steps.
use rag_cpp.Common.{
  ℕ, suc, ◌+◌, ◌%◌, ◌^◌, ◌≤◌, ◌<◌, ◌≡◌, refl, ◌∙◌, false, List, [], ◌∷◌, ◌++◌, length, All,
  All-append, length-append, arith, Bool-cases, inl, inr,
}
use rag_cpp.Core.{Chunk}
use rag_cpp.Text.Contextual.{
  Contextualizer, Situating, with_context, contextualize_from, contextualize, situated,
}
use rag_cpp.Index.Corpus.{
  Document, Row, DocInput, Ingest, Contents, new_chunks, add_chunks, document_of, insert,
  contains_id, is_deleted, ensure_linked, is_unknown, tombstone, build,
}

-- The ids are the places, from `n` on.
abbrev pub Numbered : {A : Type 0} → (A → ℕ) → ℕ → List A → Type 0
Numbered id_of n [] = Unit
Numbered id_of n (x ∷ xs) = (id_of x ≡ n) × Numbered id_of (suc n) xs

abbrev pub Distinct : List ℕ → Type 0
Distinct [] = Unit
Distinct (i ∷ ids) = (contains_id i ids ≡ false) × Distinct ids

abbrev pub doc_id : Document → ℕ
doc_id d = d.id

abbrev pub row_id : Row → ℕ
row_id r = r.chunk.id

-- The chunk belongs to one of the first `n` documents.
abbrev pub BelongsBelow : ℕ → Row → Type 0
BelongsBelow n r = r.chunk.doc < n

abbrev pub IsKnown : ℕ → ℕ → Type 0
IsKnown n i = i < n

pub record IsValid (s : Contents) : Type 0 where
  pub docs_numbered : Numbered doc_id 0 s.docs
  pub rows_numbered : Numbered row_id 0 s.rows
  pub rows_belong : All (BelongsBelow (length s.docs)) s.rows
  pub deleted_known : All (IsKnown (length s.docs)) s.deleted
  pub deleted_distinct : Distinct s.deleted

-- Every id is one of 32 bits.
pub record Fits (s : Contents) : Type 0 where
  pub docs_fit : length s.docs ≤ 2 ^ 32
  pub rows_fit : length s.rows ≤ 2 ^ 32

module _ {A : Type 0} (id_of : A → ℕ) where
  Numbered-append :
      (n : ℕ) (xs : List A) (x : A)
      → Numbered id_of n xs
      → id_of x ≡ n + length xs
      → Numbered id_of n (xs ++ x ∷ [])
  Numbered-append n [] x h e = (omega (arith, e), tt)
  Numbered-append n (y ∷ xs) x h e = (h.0, Numbered-append (suc n) xs x h.1 (omega (arith, e)))

All-map :
    {A : Type 0} (P Q : A → Type 0) → ((x : A) → P x → Q x) → (xs : List A) → All P xs → All Q xs
All-map P Q f [] h = tt
All-map P Q f (x ∷ xs) h = (f x h.0, All-map P Q f xs h.1)

abbrev OfDocument : ℕ → Chunk → Type 0
OfDocument id ch = ch.doc ≡ id

with_context-doc : (s : List ℕ) (ch : Chunk) → (with_context s ch).doc ≡ ch.doc
unfolding with_context
with_context-doc [] ch = refl
with_context-doc (b ∷ s) ch = refl

contextualize_from-OfDocument :
    (ctx : Contextualizer) (document : List ℕ) (st : Situating) (id : ℕ) (chs : List Chunk)
    → All (OfDocument id) chs
    → All (OfDocument id) (contextualize_from ctx document st chs)
unfolding contextualize_from
contextualize_from-OfDocument ctx document st id [] h = tt
contextualize_from-OfDocument ctx document st id (ch ∷ chs) h =
    let s = situated ctx document st ch.text in
    (with_context-doc s.0 ch ∙ h.0, contextualize_from-OfDocument ctx document s.1 id chs h.1)

new_chunks-OfDocument : (ing : Ingest) (d : Document) → All (OfDocument d.id) (new_chunks ing d)
unfolding new_chunks contextualize
new_chunks-OfDocument ing d = elim (Bool-cases ing.contextual) [
  | inl e ↦ rw e (
      contextualize_from-OfDocument ing.contextualizer d.text _ d.id (ing.chunks d.id d)
        (ing.of_document d.id d))
  | inr e ↦ rw e (ing.of_document d.id d)
]

-- What the loop over the chunks leaves as it is, and what it adds.
pub add_chunks-same :
    (chs : List Chunk) (s : Contents)
    → ((add_chunks chs s).docs ≡ s.docs)
      × ((add_chunks chs s).deleted ≡ s.deleted)
      × (length (add_chunks chs s).rows ≡ length s.rows + length chs)
      × ((add_chunks chs s).epoch ≡ s.epoch)
unfolding add_chunks
add_chunks-same [] s = (refl, refl, omega arith, refl)
add_chunks-same (ch ∷ chs) s =
    let (docs, deleted, rows, epoch) = add_chunks-same chs _ in
    (docs, deleted, omega (arith, rows, length-append s.rows (_ ∷ [])), epoch)

abbrev pub RowsValid : ℕ → List Row → Type 0
RowsValid n rows = Numbered row_id 0 rows × All (BelongsBelow n) rows

add_chunks-RowsValid :
    (chs : List Chunk) (s : Contents) (id n : ℕ)
    → All (OfDocument id) chs
    → id < n
    → length (add_chunks chs s).rows ≤ 2 ^ 32
    → RowsValid n s.rows
    → RowsValid n (add_chunks chs s).rows
unfolding add_chunks
add_chunks-RowsValid [] s id n h l fits v = v
add_chunks-RowsValid (ch ∷ chs) s id n h l fits v =
    let cid : length s.rows % 2 ^ 32 ≡ 0 + length s.rows =
      omega (arith, fits, (add_chunks-same chs _).2, length-append s.rows (_ ∷ [])) in
    let belongs : ch.doc < n = omega (arith, h.0) in
    add_chunks-RowsValid chs _ id n h.1 l fits (
      Numbered-append row_id 0 s.rows _ v.0 cid,
      All-append (BelongsBelow n) s.rows (_ ∷ []) v.1 (belongs, tt),
    )

pub insert-IsValid :
    (ing : Ingest) (d : DocInput) (s : Contents)
    → Fits (insert ing d s)
    → IsValid s
    → IsValid (insert ing d s)
unfolding insert
insert-IsValid ing d s fits v =
    let doc = document_of (length s.docs % 2 ^ 32) d in
    let chs = new_chunks ing doc in
    let start = record s { docs = s.docs ++ doc ∷ [] } in
    let (docs, deleted, rows, epoch) = add_chunks-same chs start in
    let size : length (s.docs ++ doc ∷ []) ≡ length s.docs + 1 = length-append s.docs (doc ∷ []) in
    let room : length s.docs + 1 ≤ 2 ^ 32 = omega (arith, size, rw docs at fits.docs_fit) in
    let did : length s.docs % 2 ^ 32 ≡ 0 + length s.docs = omega arith in
    let n = length (s.docs ++ doc ∷ []) in
    let grown : (i : ℕ) → i < length s.docs → i < n = λ i h. omega arith in
    let kept =
      add_chunks-RowsValid chs start doc.id n (new_chunks-OfDocument ing doc) (omega arith)
        fits.rows_fit
        (v.rows_numbered, All-map _ _ (λ r. grown r.chunk.doc) s.rows v.rows_belong) in
    record {
      docs_numbered = rw docs (Numbered-append doc_id 0 s.docs doc v.docs_numbered did);
      rows_numbered = kept.0;
      rows_belong = rw docs kept.1;
      deleted_known = rw (docs, deleted) (All-map _ _ grown s.deleted v.deleted_known);
      deleted_distinct = rw deleted v.deleted_distinct;
    }

pub tombstone-IsValid :
    (id : ℕ) (s : Contents) → is_unknown id s ≡ false → IsValid s → IsValid (tombstone id s)
unfolding tombstone is_unknown is_deleted
tombstone-IsValid id s e v = record {
  docs_numbered = v.docs_numbered;
  rows_numbered = v.rows_numbered;
  rows_belong = v.rows_belong;
  deleted_known = (ground arith, v.deleted_known);
  deleted_distinct = (ground arith, v.deleted_distinct);
}

-- What one call does to the contents.
pub data Step (ing : Ingest) : Contents → Contents → Type 0 where
  inserted : (d : DocInput) (s : Contents) → Step ing s (insert ing d s)
  removed : (id : ℕ) (s : Contents) → is_unknown id s ≡ false → Step ing s (tombstone id s)
  linked : (s : Contents) → Step ing s (ensure_linked s)
  built : (s : Contents) → Step ing s (build s)

pub data Reach (ing : Ingest) : Contents → Contents → Type 0 where
  here : {s : Contents} → Reach ing s s
  then_step : {s t u : Contents} → Reach ing s t → Step ing t u → Reach ing s u

pub Step-Fits : (ing : Ingest) (s t : Contents) → Step ing s t → Fits t → Fits s
unfolding insert tombstone ensure_linked build
Step-Fits ing _ _ (inserted d s) f =
    let doc = document_of (length s.docs % 2 ^ 32) d in
    let (docs, deleted, rows, epoch) =
      add_chunks-same (new_chunks ing doc) (record s { docs = s.docs ++ doc ∷ [] }) in
    record {
      docs_fit = omega (arith, length-append s.docs (doc ∷ []), rw docs at f.docs_fit);
      rows_fit = omega (arith, f.rows_fit, rows);
    }
Step-Fits ing _ _ (removed id s e) f = record { docs_fit = f.docs_fit; rows_fit = f.rows_fit }
Step-Fits ing _ _ (linked s) f = record { docs_fit = f.docs_fit; rows_fit = f.rows_fit }
Step-Fits ing _ _ (built s) f = record { docs_fit = f.docs_fit; rows_fit = f.rows_fit }

same_lists-IsValid :
    (s t : Contents)
    → t.docs ≡ s.docs
    → t.rows ≡ s.rows
    → t.deleted ≡ s.deleted
    → IsValid s
    → IsValid t
same_lists-IsValid s t docs rows deleted v = record {
  docs_numbered = rw docs v.docs_numbered;
  rows_numbered = rw rows v.rows_numbered;
  rows_belong = rw (docs, rows) v.rows_belong;
  deleted_known = rw (docs, deleted) v.deleted_known;
  deleted_distinct = rw deleted v.deleted_distinct;
}

Step-IsValid : (ing : Ingest) (s t : Contents) → Step ing s t → Fits t → IsValid s → IsValid t
unfolding ensure_linked build
Step-IsValid ing _ _ (inserted d s) f v = insert-IsValid ing d s f v
Step-IsValid ing _ _ (removed id s e) f v = tombstone-IsValid id s e v
Step-IsValid ing _ _ (linked s) f v = same_lists-IsValid s (ensure_linked s) refl refl refl v
Step-IsValid ing _ _ (built s) f v = same_lists-IsValid s (build s) refl refl refl v

pub Reach-IsValid : (ing : Ingest) (s t : Contents) → Reach ing s t → Fits t → IsValid s → IsValid t
Reach-IsValid ing s _ here f v = v
Reach-IsValid ing s t (then_step {t = m} r k) f v =
    Step-IsValid ing m t k f (Reach-IsValid ing s m r (Step-Fits ing m t k f) v)

pub Reach-Fits : (ing : Ingest) (s t : Contents) → Reach ing s t → Fits t → Fits s
Reach-Fits ing s _ here f = f
Reach-Fits ing s t (then_step {t = m} r k) f = Reach-Fits ing s m r (Step-Fits ing m t k f)
