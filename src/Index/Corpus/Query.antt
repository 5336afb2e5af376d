-- ===== src/Index/Corpus/Query.antt =====
-- The read side of src/index/corpus.cpp: chunks and documents by id, the resolved hit and the
-- metadata filter.
use rag_cpp.Common.{ℕ, Bool, true, false, Option, none, some, List, [], get_elem?}
use rag_cpp.Core.{invalid}
use rag_cpp.Index.Corpus.{Metadata, Document, Row, Contents}

pub record Hit : Type 0 where
  pub chunk : ℕ
  pub score : ℕ

pub record SearchResult : Type 0 where
  pub chunk : ℕ
  pub doc : ℕ
  pub score : ℕ
  pub text : List ℕ
  pub context : List ℕ
  pub uri : List ℕ
  pub start_line : ℕ
  pub end_line : ℕ

abbrev pub no_result : SearchResult
no_result = record {
  chunk = invalid;
  doc = invalid;
  score = 0;
  text = [];
  context = [];
  uri = [];
  start_line = 0;
  end_line = 0;
}

unfoldable pub chunk_locked : ℕ → Contents → Option Row
chunk_locked id s = get_elem? s.rows id

unfoldable pub document_locked : ℕ → Contents → Option Document
document_locked id s = get_elem? s.docs id

-- `ch.meta`, as `relink_meta` sets it
unfoldable pub meta_of : Row → Contents → Option Metadata
meta_of row s = elim (get_elem? s.docs row.chunk.doc) [ none ↦ none | some d ↦ some d.meta ]

abbrev pub uri_or_empty : Option Document → List ℕ
uri_or_empty none = []
uri_or_empty (some d) = d.uri

abbrev pub result_of : Hit → Option Row → Contents → SearchResult
result_of h none s = no_result
result_of h (some row) s =
    let ch = row.chunk in
    record {
      chunk = ch.id;
      doc = ch.doc;
      score = h.score;
      text = ch.text;
      context = ch.context;
      uri = uri_or_empty (document_locked ch.doc s);
      start_line = ch.start_line;
      end_line = ch.end_line;
    }

unfoldable pub resolve_locked : Hit → Contents → SearchResult
resolve_locked h s = result_of h (chunk_locked h.chunk s) s

abbrev pub MetaFilter : Type 0
MetaFilter = Option (Metadata → Bool)

abbrev pub accepts : MetaFilter → Option Metadata → Bool
accepts none m = true
accepts (some f) none = false
accepts (some f) (some m) = f m

abbrev pub row_meta : Option Row → Contents → Option Metadata
row_meta none s = none
row_meta (some row) s = meta_of row s

-- Without metadata a chunk passes only where there is no filter.
unfoldable pub passes_locked : ℕ → MetaFilter → Contents → Bool
passes_locked id f s = accepts f (row_meta (chunk_locked id s) s)
