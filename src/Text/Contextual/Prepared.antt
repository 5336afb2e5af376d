-- ===== src/Text/Contextual/Prepared.antt =====
-- Preparing the document once gives what preparing it for every chunk gives.
use rag_cpp.Common.{
  ℕ, ◌≡◌, refl, sym, ap, ◌∙◌, Option, none, some, List, [], ◌∷◌, map, Bool-cases, inl, inr,
  if◌then◌else◌, arith,
}
use rag_cpp.Core.{Chunk, is_empty}
use rag_cpp.Text.Tokenizer.{Memo, default_options, tokenize}
use rag_cpp.Text.Tokenizer.Memo.{IsSound}
use rag_cpp.Text.Tokenizer.Tokens.{words_from, tokens, tokenize-tokens}
use rag_cpp.Text.Contextual.{
  PreparedDoc, tokenize_all, prepare, situate, extractive_context, Contextualizer, asked, Situating,
  prepared_once, situated, with_context, contextualize_from, contextualize, doc_sentences,
  first_line, blurb, best_sentence,
}

abbrev plain_tokens : List ℕ → List (List ℕ)
plain_tokens s = tokens default_options (words_from default_options [] s)

abbrev all_tokens : List (List ℕ) → List (List ℕ × List (List ℕ))
all_tokens [] = []
all_tokens (s ∷ ss) = (s, plain_tokens s) ∷ all_tokens ss

tokenize_all-tokens :
    (ss : List (List ℕ)) (stems : Memo)
    → IsSound stems
    → ((tokenize_all stems ss).0 ≡ all_tokens ss) × IsSound (tokenize_all stems ss).1
unfolding tokenize_all
tokenize_all-tokens [] stems h = (refl, h)
tokenize_all-tokens (s ∷ ss) stems h =
    let t = tokenize-tokens default_options stems s h in
    let r = tokenize_all-tokens ss (tokenize default_options stems s).1 t.1 in
    (rw (t.0, r.0) refl, r.1)

-- The document prepared without a memo.
abbrev plain_doc : List ℕ → PreparedDoc
plain_doc document = record {
  title = first_line document;
  sentences = all_tokens (doc_sentences document);
}

prepare-plain_doc :
    (document : List ℕ) (stems : Memo)
    → IsSound stems
    → ((prepare stems document).0 ≡ plain_doc document) × IsSound (prepare stems document).1
unfolding prepare
prepare-plain_doc document stems h =
    let r = tokenize_all-tokens (doc_sentences document) stems h in
    (ap (λ ss. record { title = first_line document; sentences = ss }) r.0, r.1)

abbrev plain_blurb : PreparedDoc → List ℕ → List ℕ
plain_blurb p chunk = blurb p.title (best_sentence chunk (plain_tokens chunk) p.sentences [] 0)

situate-plain_blurb :
    (p : PreparedDoc) (chunk : List ℕ) (stems : Memo)
    → IsSound stems
    → ((situate stems p chunk).0 ≡ plain_blurb p chunk) × IsSound (situate stems p chunk).1
unfolding situate
situate-plain_blurb p chunk stems h =
    let t = tokenize-tokens default_options stems chunk h in
    (ap (λ ts. blurb p.title (best_sentence chunk ts p.sentences [] 0)) t.0, t.1)

none-IsSound : IsSound []
none-IsSound = (tt, omega arith)

extractive_context-plain :
    (document chunk : List ℕ)
    → extractive_context document chunk ≡ plain_blurb (plain_doc document) chunk
unfolding extractive_context
extractive_context-plain document chunk =
    let p = prepare-plain_doc document [] none-IsSound in
    (situate-plain_blurb (prepare [] document).0 chunk (prepare [] document).1 p.1).0
    ∙ ap (λ d. plain_blurb d chunk) p.0

-- The state of the loop: a sound memo, and no document but this one prepared.
abbrev IsReady : List ℕ → Situating → Type 0
IsReady document st =
    IsSound st.stems × ((p : PreparedDoc) → st.prepared ≡ some p → p ≡ plain_doc document)

prepared_once-plain :
    (document : List ℕ) (st : Situating) (prepared : Option PreparedDoc)
    → IsSound st.stems
    → ((p : PreparedDoc) → prepared ≡ some p → p ≡ plain_doc document)
    → ((prepared_once document st prepared).0 ≡ plain_doc document)
      × IsSound (prepared_once document st prepared).1
prepared_once-plain document st none h k = prepare-plain_doc document st.stems h
prepared_once-plain document st (some p) h k = (k p refl, h)

-- The blurb of one chunk, without a state.
abbrev pub chunk_blurb : Contextualizer → List ℕ → List ℕ → List ℕ
chunk_blurb ctx document text =
    if is_empty (asked ctx document text)
    then extractive_context document text
    else asked ctx document text

situated-chunk_blurb :
    (ctx : Contextualizer) (document : List ℕ) (st : Situating) (text : List ℕ)
    → IsReady document st
    → ((situated ctx document st text).0 ≡ chunk_blurb ctx document text)
      × IsReady document (situated ctx document st text).1
unfolding situated
situated-chunk_blurb ctx document st text h =
    elim (Bool-cases (is_empty (asked ctx document text))) [
      | inr e ↦ rw e (refl, h)
      | inl e ↦
          let p = prepared_once-plain document st st.prepared h.0 h.1 in
          let d = prepared_once document st st.prepared in
          let r = situate-plain_blurb d.0 text d.1 p.1 in
          rw e (
            r.0 ∙ ap (λ q. plain_blurb q text) p.0 ∙ sym (extractive_context-plain document text),
            (r.1, λ q same. let pe = p.0 in cc),
          )
    ]

contextualize_from-map :
    (ctx : Contextualizer) (document : List ℕ) (chunks : List Chunk) (st : Situating)
    → IsReady document st
    → contextualize_from ctx document st chunks
      ≡ map (λ c. with_context (chunk_blurb ctx document c.text) c) chunks
unfolding contextualize_from
contextualize_from-map ctx document [] st h = refl
contextualize_from-map ctx document (c ∷ cs) st h =
    let s = situated-chunk_blurb ctx document st c.text h in
    rw (s.0, contextualize_from-map ctx document cs (situated ctx document st c.text).1 s.1) refl

-- `contextualize`, which prepares the document at most once, gives every chunk the context that it
-- gets on its own: what the contextualizer says, or, where that is nothing or fails, the blurb of
-- `extractive_context`.
pub contextualize-map :
    (chunks : List Chunk) (document : List ℕ) (ctx : Contextualizer)
    → contextualize chunks document ctx
      ≡ map (λ c. with_context (chunk_blurb ctx document c.text) c) chunks
unfolding contextualize
contextualize-map chunks document ctx =
    contextualize_from-map ctx document chunks (record { stems = []; prepared = none })
      (none-IsSound, λ p e. cc e)
