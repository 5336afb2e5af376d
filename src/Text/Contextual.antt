-- ===== src/Text/Contextual.antt =====
-- Contextual retrieval, src/text/contextual.cpp: the blurb that situates a chunk in its document. The
-- contextualizer, a call of a language model, is a parameter.
pub mod Prepared
use rag_cpp.Common.{
  ℕ, suc, ◌+◌, Bool, true, false, not, ◌&&◌, ◌||◌, Option, none, some, List, [], ◌∷◌, ◌++◌, length,
  take, ltb, ◌==◌, if◌then◌else◌,
}
use rag_cpp.Core.{Chunk, Result, value, fail, is_empty, text_eq}
use rag_cpp.Text.Chunker.{skip_marks}
use rag_cpp.Text.Tokenizer.{Memo, default_options, tokenize}

-- `std::isspace` of the C locale
abbrev space : ℕ → Bool
space c = c == b' ' || (ltb 8 c && ltb c 14)

unfoldable pub trim_front : List ℕ → List ℕ
trim_front [] = []
trim_front (c ∷ s) = let rest = trim_front s in if space c then rest else c ∷ s

unfoldable pub trim_back : List ℕ → List ℕ
trim_back [] = []
trim_back (c ∷ s) = let rest = trim_back s in if is_empty rest && space c then [] else c ∷ rest

-- A sentence counts from nine bytes on.
unfoldable pub kept_sentence : List ℕ → List (List ℕ)
kept_sentence p = let q = trim_back (trim_front p) in if ltb 8 (length q) then q ∷ [] else []

abbrev pub ends_sentence : ℕ → Bool
ends_sentence c = c == b'.' || c == b'!' || c == b'?' || c == b'\n'

-- `cur` is the text from `start` on.
unfoldable pub sentences_from : List ℕ → List ℕ → List (List ℕ)
sentences_from cur [] = if is_empty cur then [] else kept_sentence cur
sentences_from cur (c ∷ s) =
    if ends_sentence c
    then kept_sentence (cur ++ c ∷ []) ++ sentences_from [] s
    else sentences_from (cur ++ c ∷ []) s

unfoldable pub doc_sentences : List ℕ → List (List ℕ)
doc_sentences s = sentences_from [] s

unfoldable pub to_newline : List ℕ → List ℕ
to_newline [] = []
to_newline (c ∷ s) = let rest = to_newline s in if c == b'\n' then [] else c ∷ rest

unfoldable pub first_line : List ℕ → List ℕ
first_line s = skip_marks (to_newline s)

-- The sentences stand with their tokens.
pub record PreparedDoc : Type 0 where
  pub title : List ℕ
  pub sentences : List (List ℕ × List (List ℕ))

unfoldable pub tokenize_all : Memo → List (List ℕ) → List (List ℕ × List (List ℕ)) × Memo
tokenize_all stems [] = ([], stems)
tokenize_all stems (s ∷ ss) =
    let t = tokenize default_options stems s in let r = tokenize_all t.1 ss in ((s, t.0) ∷ r.0, r.1)

unfoldable pub prepare : Memo → List ℕ → PreparedDoc × Memo
prepare stems document =
    let r = tokenize_all stems (doc_sentences document) in
    (record { title = first_line document; sentences = r.0 }, r.1)

unfoldable pub contains_text : List ℕ → List ℕ → Bool
contains_text s [] = is_empty s
contains_text s (c ∷ t) = text_eq (take (length s) (c ∷ t)) s || contains_text s t

abbrev has_token : List ℕ → List (List ℕ) → Bool
has_token t [] = false
has_token t (u ∷ us) = text_eq t u || has_token t us

unfoldable pub overlap : List (List ℕ) → List (List ℕ) → ℕ
unfolding has_token
overlap cset [] = 0
overlap cset (t ∷ ts) = (if has_token t cset then 1 else 0) + overlap cset ts

-- The loop over the sentences: the best one so far, and its overlap.
unfoldable pub best_sentence :
    List ℕ → List (List ℕ) → List (List ℕ × List (List ℕ)) → List ℕ → ℕ → List ℕ
best_sentence chunk cset [] best best_overlap = best
best_sentence chunk cset ((s, ts) ∷ ss) best best_overlap =
    if not (contains_text s chunk) && ltb best_overlap (overlap cset ts)
    then best_sentence chunk cset ss s (overlap cset ts)
    else best_sentence chunk cset ss best best_overlap

-- " — "
abbrev pub dash : List ℕ
dash = 32 ∷ 226 ∷ 128 ∷ 148 ∷ 32 ∷ []

unfoldable pub blurb : List ℕ → List ℕ → List ℕ
blurb title best =
    if is_empty best then title else (if is_empty title then title else title ++ dash) ++ best

unfoldable pub situate : Memo → PreparedDoc → List ℕ → List ℕ × Memo
situate stems p chunk =
    let t = tokenize default_options stems chunk in
    (blurb p.title (best_sentence chunk t.0 p.sentences [] 0), t.1)

unfoldable pub extractive_context : List ℕ → List ℕ → List ℕ
extractive_context document chunk = let p = prepare [] document in (situate p.1 p.0 chunk).0

abbrev pub Contextualizer : Type 0
Contextualizer = Option (List ℕ → List ℕ → Result (List ℕ))

abbrev pub or_empty : Result (List ℕ) → List ℕ
or_empty (value s) = s
or_empty (fail e) = []

abbrev pub asked : Contextualizer → List ℕ → List ℕ → List ℕ
asked none document text = []
asked (some ctx) document text = or_empty (ctx document text)

-- The tokenizer's memo, and the document once it is prepared.
pub record Situating : Type 0 where
  pub stems : Memo
  pub prepared : Option PreparedDoc

abbrev pub prepared_once : List ℕ → Situating → Option PreparedDoc → PreparedDoc × Memo
prepared_once document st (some p) = (p, st.stems)
prepared_once document st none = prepare st.stems document

unfoldable pub situated : Contextualizer → List ℕ → Situating → List ℕ → List ℕ × Situating
situated ctx document st text =
    if is_empty (asked ctx document text)
    then (let p = prepared_once document st st.prepared in
        let r = situate p.1 p.0 text in (r.0, record { stems = r.1; prepared = some p.0 }))
    else (asked ctx document text, st)

unfoldable pub with_context : List ℕ → Chunk → Chunk
with_context situating c = if is_empty situating then c else record c {
  context = if is_empty c.context then situating else situating ++ b'\n' ∷ c.context;
}

unfoldable pub contextualize_from : Contextualizer → List ℕ → Situating → List Chunk → List Chunk
contextualize_from ctx document st [] = []
contextualize_from ctx document st (c ∷ cs) =
    let s = situated ctx document st c.text in
    with_context s.0 c ∷ contextualize_from ctx document s.1 cs

unfoldable pub contextualize : List Chunk → List ℕ → Contextualizer → List Chunk
contextualize chunks document ctx =
    contextualize_from ctx document (record { stems = []; prepared = none }) chunks
