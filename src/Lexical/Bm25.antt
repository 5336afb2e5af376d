-- ===== src/Lexical/Bm25.antt =====
-- The inverted index of include/rag/lexical/bm25.hpp and src/lexical/bm25.cpp: postings and document
-- lengths, term coverage and the stored form. A `float` is kept as the 32 bits of its pattern, and
-- nothing here computes with one; `total_len` is a `double` that counts tokens, exact below 2^53.
-- What `finalize` derives for the scores is not kept: the flag tells whether it is up to date.
pub mod Codec
use rag_cpp.Common.{
  ℕ, zero, suc, ◌+◌, ◌%◌, ◌^◌, Bool, true, false, Option, none, some, List, [], ◌∷◌, ◌++◌, length,
  ltb, if◌then◌else◌, ◌==◌,
}
use rag_cpp.Common.SortedMap.{find, insert_or_assign, emplace}
use rag_cpp.Core.{Errc, Result, is_empty, text_eq, text_order, nat_order}
use rag_cpp.Store.Format.{
  write_u, write_str, write_each, Read, reader, ◌>>=◌, ◌>>◌, pure, guard, read_u, read_str,
  repeat_read, continue,
}
use rag_cpp.Text.Tokenizer.{TokenizeOptions, default_options, Memo, tokenize}

-- A posting list: the documents of a term, in ascending order, with the term's frequency.
abbrev pub Postings : Type 0
Postings = List (ℕ × ℕ)

pub record Bm25Index : Type 0 where
  pub k1 : ℕ
  pub b : ℕ
  pub options : TokenizeOptions
  pub stems : Memo
  pub postings : List (List ℕ × Postings)
  pub doc_len : List (ℕ × ℕ)
  pub total_len : ℕ
  pub finalized : Bool

abbrev pub no_index : ℕ → ℕ → TokenizeOptions → Bm25Index
no_index k1 b options = record {
  k1 = k1;
  b = b;
  options = options;
  stems = [];
  postings = [];
  doc_len = [];
  total_len = 0;
  finalized = false;
}

abbrev pub or_zero : Option ℕ → ℕ
or_zero none = 0
or_zero (some n) = n

-- `for (auto& t : terms) ++tf[t];`
unfoldable pub count_terms : List (List ℕ) → List (List ℕ × ℕ) → List (List ℕ × ℕ)
count_terms [] tf = tf
count_terms (t ∷ terms) tf =
    count_terms terms
      (insert_or_assign text_order t ((or_zero (find text_order t tf) + 1) % 2 ^ 32) tf)

abbrev pub or_none : Option Postings → Postings
or_none none = []
or_none (some plist) = plist

-- The posting goes where `lower_bound` points, over one of the same document if there is one.
unfoldable pub post_terms :
    ℕ → List (List ℕ × ℕ) → List (List ℕ × Postings) → List (List ℕ × Postings)
post_terms id [] postings = postings
post_terms id ((term, freq) ∷ tf) postings = post_terms id tf (
    insert_or_assign text_order term
      (insert_or_assign nat_order id freq (or_none (find text_order term postings))) postings)

unfoldable pub add_tokens : ℕ → List (List ℕ) × Memo → Bm25Index → Bm25Index
add_tokens id (terms, stems) idx =
    if is_empty terms
    then record idx { stems = stems; doc_len = insert_or_assign nat_order id 0 idx.doc_len }
    else record idx {
      stems = stems;
      postings = post_terms id (count_terms terms []) idx.postings;
      doc_len = insert_or_assign nat_order id (length terms % 2 ^ 32) idx.doc_len;
      total_len = idx.total_len + length terms;
      finalized = false;
    }

unfoldable pub add : ℕ → List ℕ → Bm25Index → Bm25Index
add id text idx = add_tokens id (tokenize idx.options idx.stems text) idx

unfoldable pub finalize : Bm25Index → Bm25Index
finalize idx = record idx { finalized = true }

-- `std::sort` and `std::unique` on the terms of a query
unfoldable pub distinct_from : List (List ℕ × Unit {0}) → List (List ℕ) → List (List ℕ × Unit {0})
distinct_from seen [] = seen
distinct_from seen (t ∷ terms) = distinct_from (insert_or_assign text_order t tt seen) terms

unfoldable pub keys : List (List ℕ × Unit {0}) → List (List ℕ)
keys [] = []
keys ((k, u) ∷ m) = k ∷ keys m

unfoldable pub distinct_terms : List (List ℕ) → List (List ℕ)
distinct_terms terms = keys (distinct_from [] terms)

-- The slots of the candidates in the output, sorted by document and place.
unfoldable pub insert_slot : ℕ × ℕ → List (ℕ × ℕ) → List (ℕ × ℕ)
insert_slot (d, i) [] = (d, i) ∷ []
insert_slot (d, i) ((e, j) ∷ slots) =
    if ltb d e
    then (d, i) ∷ (e, j) ∷ slots
    else if ltb e d
    then (e, j) ∷ insert_slot (d, i) slots
    else if ltb i j
    then (d, i) ∷ (e, j) ∷ slots
    else (e, j) ∷ insert_slot (d, i) slots

unfoldable pub sorted_slots : ℕ → List ℕ → List (ℕ × ℕ)
sorted_slots i [] = []
sorted_slots i (d ∷ docs) = insert_slot (d, i) (sorted_slots (i + 1) docs)

unfoldable pub zeros : List ℕ → List ℕ
zeros [] = []
zeros (d ∷ docs) = 0 ∷ zeros docs

-- `++out[i]`
unfoldable pub bump : ℕ → List ℕ → List ℕ
bump i [] = []
bump zero (n ∷ out) = (n + 1) % 2 ^ 32 ∷ out
bump (suc i) (n ∷ out) = n ∷ bump i out

-- One round of the walk over a posting list and the slots: what is left of both, and the output.
unfoldable pub walk_step : Postings → List (ℕ × ℕ) → List ℕ → Postings × List (ℕ × ℕ) × List ℕ
walk_step [] slots out = ([], [], out)
walk_step (p ∷ plist) [] out = ([], [], out)
walk_step ((d, tf) ∷ plist) ((e, i) ∷ slots) out =
    if ltb d e
    then (plist, (e, i) ∷ slots, out)
    else if ltb e d
    then ((d, tf) ∷ plist, slots, out)
    else (plist, slots, bump i out)

-- Every round leaves something behind, so that both lengths together are fuel enough.
unfoldable pub walk : ℕ → Postings → List (ℕ × ℕ) → List ℕ → List ℕ
walk zero plist slots out = out
walk (suc f) plist slots out = let next = walk_step plist slots out in walk f next.0 next.1 next.2

unfoldable pub cover_terms :
    List (List ℕ × Postings) → List (ℕ × ℕ) → List (List ℕ) → List ℕ → List ℕ
cover_terms postings slots [] out = out
cover_terms postings slots (t ∷ terms) out =
    let plist = or_none (find text_order t postings) in
    cover_terms postings slots terms (walk (length plist + length slots) plist slots out)

unfoldable pub term_coverage : Bm25Index → List (List ℕ) → List ℕ → List ℕ
term_coverage idx q_terms docs =
    cover_terms idx.postings (sorted_slots 0 docs) (distinct_terms q_terms) (zeros docs)

abbrev pub index_magic : ℕ
index_magic = 0x314D4232

abbrev pub index_version : ℕ
index_version = 1

abbrev pub write_pair : ℕ × ℕ → List ℕ → List ℕ
write_pair (d, n) w = write_u 4 n (write_u 4 d w)

abbrev pub write_term : List ℕ × Postings → List ℕ → List ℕ
write_term (term, plist) w =
    write_each write_pair plist (write_u 4 (length plist % 2 ^ 32) (write_str term w))

-- `std::unordered_map` leaves the order of the entries open; it is the order of the keys here.
unfoldable pub serialize_index : Bm25Index → List ℕ
serialize_index idx = write_each write_term idx.postings (
    write_u 4 (length idx.postings % 2 ^ 32) (
      write_each write_pair idx.doc_len (
        write_u 4 (length idx.doc_len % 2 ^ 32) (
          write_u 8 (idx.total_len % 2 ^ 64) (
            write_u 4 idx.b
              (write_u 4 idx.k1 (write_u 4 index_version (write_u 4 index_magic []))))))))

unfoldable pub read_length : List (ℕ × ℕ) → Read (List (ℕ × ℕ))
read_length m = do doc ← read_u 4; len ← read_u 4; pure (insert_or_assign nat_order doc len m)

unfoldable pub read_posting : Postings → Read Postings
read_posting plist = do doc ← read_u 4; tf ← read_u 4; pure (plist ++ (doc, tf) ∷ [])

unfoldable pub read_term : List (List ℕ × Postings) → Read (List (List ℕ × Postings))
read_term m = do
  term ← read_str
  np ← read_u 4
  plist ← repeat_read np read_posting []
  pure (emplace text_order term plist m)

unfoldable pub read_index : Read Bm25Index
read_index = do
  m ← read_u 4
  guard (m == index_magic)
  v ← read_u 4
  guard (v == index_version)
  k1 ← read_u 4
  b ← read_u 4
  total ← read_u 8
  ndocs ← read_u 4
  doc_len ← repeat_read ndocs read_length []
  nterms ← read_u 4
  postings ← repeat_read nterms read_term []
  pure (
      finalize (record {
        k1 = k1;
        b = b;
        options = default_options;
        stems = [];
        postings = postings;
        doc_len = doc_len;
        total_len = total;
        finalized = false;
      }))

abbrev pub read_result {ℓ} : {A : Type ℓ} → Option A → Result A
read_result (some a) = Result.value a
read_result none = Result.fail Errc.corrupt_index

unfoldable pub deserialize_index : List ℕ → Result Bm25Index
deserialize_index blob = read_result (read_index (reader blob)).0
