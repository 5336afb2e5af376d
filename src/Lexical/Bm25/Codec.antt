-- ===== src/Lexical/Bm25/Codec.antt =====
-- The stored form of the index is read back.
use rag_cpp.Common.{
  ℕ, ◌%◌, ◌^◌, ◌<◌, ◌≡◌, refl, sym, ap, ◌∙◌, Bool, true, some, List, [], ◌++◌, length, append-nil,
  append_assoc, arith, All, All-middle,
}
use rag_cpp.Common.SortedMap.{IsSorted, emplace_last, insert_or_assign_last, Below-middle}
use rag_cpp.Core.{Result, text_order, nat_order}
use rag_cpp.Store.Format.{le_bytes, reader, write_u, write_each, guard, repeat_read}
use rag_cpp.Store.Format.Codec.{at, read_u-then, read_str-then, >>=-then}
use rag_cpp.Store.Format.Loops.{str_bytes, each_bytes, write_each-append, repeat_read-each_bytes}
use rag_cpp.Text.Tokenizer.{default_options}
use rag_cpp.Lexical.Bm25.{
  Postings, Bm25Index, write_pair, write_term, read_length, read_posting, read_term, read_index,
  read_result, index_magic, index_version, serialize_index, deserialize_index, finalize,
}

abbrev pair_bytes : ℕ × ℕ → List ℕ → List ℕ
pair_bytes (d, n) rest = le_bytes 4 d ++ (le_bytes 4 n ++ rest)

abbrev term_bytes : List ℕ × Postings → List ℕ → List ℕ
term_bytes (term, plist) rest =
    str_bytes term (le_bytes 4 (length plist % 2 ^ 32) ++ each_bytes pair_bytes plist rest)

write_pair-append : (p : ℕ × ℕ) (w rest : List ℕ) → write_pair p w ++ rest ≡ w ++ pair_bytes p rest
write_pair-append (d, n) w rest = simp append_assoc

write_term-append :
    (t : List ℕ × Postings) (w rest : List ℕ) → write_term t w ++ rest ≡ w ++ term_bytes t rest
write_term-append (term, plist) w rest =
    write_each-append write_pair pair_bytes write_pair-append plist _ rest ∙ simp append_assoc

abbrev PairFits : ℕ × ℕ → Type 0
PairFits p = (p.0 < 2 ^ 32) × (p.1 < 2 ^ 32)

abbrev TermFits : List ℕ × Postings → Type 0
TermFits t = (length t.0 < 2 ^ 32) × (length t.1 < 2 ^ 32) × All PairFits t.1

-- What fits the stored form: the fields are in their widths, and the maps in the order of their keys.
pub record IsStorable (idx : Bm25Index) : Type 0 where
  pub k1_fits : idx.k1 < 2 ^ 32
  pub b_fits : idx.b < 2 ^ 32
  pub total_fits : idx.total_len < 2 ^ 64
  pub docs_fit : length idx.doc_len < 2 ^ 32
  pub terms_fit : length idx.postings < 2 ^ 32
  pub doc_len_sorted : IsSorted nat_order idx.doc_len
  pub postings_sorted : IsSorted text_order idx.postings
  pub pairs_fit : All PairFits idx.doc_len
  pub postings_fit : All TermFits idx.postings

read_lengths :
    (m : List (ℕ × ℕ)) (rest : List ℕ) (b : Bool)
    → IsSorted nat_order m
    → All PairFits m
    → repeat_read (length m) read_length [] (at (each_bytes pair_bytes m rest) b)
      ≡ (some m, at rest b)
unfolding read_length
read_lengths m rest b s h =
    repeat_read-each_bytes read_length pair_bytes (λ l. IsSorted nat_order l × All PairFits l) b
      (λ done xs (d, n) r q.
        let fits = All-middle PairFits done (d, n) xs q.1 in
        read_u-then _ 4 d _ b (omega (arith, fits.0)) (
          read_u-then _ 4 n _ b (omega (arith, fits.1)) (
            rw (insert_or_assign_last nat_order d n done (Below-middle nat_order done d n xs q.0))
              refl)))
      m [] rest (s, h)

read_postings :
    (plist : Postings) (rest : List ℕ) (b : Bool)
    → All PairFits plist
    → repeat_read (length plist) read_posting [] (at (each_bytes pair_bytes plist rest) b)
      ≡ (some plist, at rest b)
unfolding read_posting
read_postings plist rest b h =
    repeat_read-each_bytes read_posting pair_bytes (All PairFits) b
      (λ done xs (d, n) r q.
        let fits = All-middle PairFits done (d, n) xs q in
        read_u-then _ 4 d _ b (omega (arith, fits.0))
          (read_u-then _ 4 n _ b (omega (arith, fits.1)) refl))
      plist [] rest h

read_terms :
    (m : List (List ℕ × Postings)) (rest : List ℕ) (b : Bool)
    → IsSorted text_order m
    → All TermFits m
    → repeat_read (length m) read_term [] (at (each_bytes term_bytes m rest) b)
      ≡ (some m, at rest b)
unfolding read_term
read_terms m rest b s h =
    repeat_read-each_bytes read_term term_bytes (λ l. IsSorted text_order l × All TermFits l) b
      (λ done xs (t, plist) r q.
        let fits = All-middle TermFits done (t, plist) xs q.1 in
        let count : length plist % 2 ^ 32 ≡ length plist = omega (arith, fits.1) in
        rw count (
          read_str-then _ t _ b fits.0 (
            read_u-then _ 4 (length plist) _ b (omega (arith, fits.1)) (
              >>=-then _ (repeat_read (length plist) read_posting [])
                (read_postings plist r b fits.2)
                (rw
                  (emplace_last text_order t plist done
                    (Below-middle text_order done t plist xs q.0))
                  refl)))))
      m [] rest (s, h)

-- The index as it comes back: what is derived is up to date, and the tokenizer is a new one.
abbrev pub reloaded : Bm25Index → Bm25Index
reloaded idx = record idx { options = default_options; stems = []; finalized = true }

abbrev index_bytes : Bm25Index → List ℕ → List ℕ
index_bytes idx rest =
    le_bytes 4 index_magic
    ++ (le_bytes 4 index_version
        ++ (le_bytes 4 idx.k1
            ++ (le_bytes 4 idx.b
                ++ (le_bytes 8 (idx.total_len % 2 ^ 64)
                    ++ (le_bytes 4 (length idx.doc_len % 2 ^ 32)
                        ++ each_bytes pair_bytes idx.doc_len (
                            le_bytes 4 (length idx.postings % 2 ^ 32)
                            ++ each_bytes term_bytes idx.postings rest))))))

abbrev written_header : Bm25Index → List ℕ
written_header idx = write_u 4 (length idx.doc_len % 2 ^ 32) (
    write_u 8 (idx.total_len % 2 ^ 64)
      (write_u 4 idx.b (write_u 4 idx.k1 (write_u 4 index_version (write_u 4 index_magic [])))))

abbrev written_lengths : Bm25Index → List ℕ
written_lengths idx = write_each write_pair idx.doc_len (written_header idx)

serialize_index-append :
    (idx : Bm25Index) (rest : List ℕ) → serialize_index idx ++ rest ≡ index_bytes idx rest
unfolding serialize_index
serialize_index-append idx rest =
    let terms = each_bytes term_bytes idx.postings rest in
    let count = le_bytes 4 (length idx.postings % 2 ^ 32) in
    write_each-append write_term term_bytes write_term-append idx.postings
      (written_lengths idx ++ count) rest
    ∙ append_assoc (written_lengths idx) count terms
    ∙ write_each-append write_pair pair_bytes write_pair-append idx.doc_len (written_header idx)
        (count ++ terms)
    ∙ simp append_assoc

read_index-index_bytes :
    (idx : Bm25Index)
    → IsStorable idx
    → read_index (at (index_bytes idx []) true) ≡ (some (reloaded idx), at [] true)
unfolding read_index finalize
read_index-index_bytes idx h =
    let total : idx.total_len % 2 ^ 64 ≡ idx.total_len = omega (arith, h.total_fits) in
    let docs : length idx.doc_len % 2 ^ 32 ≡ length idx.doc_len = omega (arith, h.docs_fit) in
    let terms : length idx.postings % 2 ^ 32 ≡ length idx.postings = omega (arith, h.terms_fit) in
    rw (total, docs, terms)
      (read_u-then _ 4 index_magic _ true (omega arith) (
        >>=-then _ (guard true) refl (
          read_u-then _ 4 index_version _ true (omega arith) (
            >>=-then _ (guard true) refl (
              read_u-then _ 4 idx.k1 _ true (omega (arith, h.k1_fits)) (
                read_u-then _ 4 idx.b _ true (omega (arith, h.b_fits)) (
                  read_u-then _ 8 idx.total_len _ true (omega (arith, h.total_fits)) (
                    read_u-then _ 4 (length idx.doc_len) _ true (omega (arith, h.docs_fit)) (
                      >>=-then _ (repeat_read (length idx.doc_len) read_length [])
                        (read_lengths idx.doc_len _ true h.doc_len_sorted h.pairs_fit)
                        (read_u-then _ 4 (length idx.postings) _ true (omega (arith, h.terms_fit)) (
                          >>=-then _ (repeat_read (length idx.postings) read_term [])
                            (read_terms idx.postings [] true h.postings_sorted h.postings_fit)
                            refl)))))))))))

-- A stored index that fits is read back with its parameters, lengths and postings; the options of the
-- tokenizer are those of a default one, whatever they were.
pub deserialize_index-serialize_index :
    (idx : Bm25Index)
    → IsStorable idx
    → deserialize_index (serialize_index idx) ≡ Result.value (reloaded idx)
unfolding deserialize_index
deserialize_index-serialize_index idx h =
    ap (λ s. read_result (read_index (reader s)).0)
      (sym (append-nil (serialize_index idx)) ∙ serialize_index-append idx [])
    ∙ ap (λ x. read_result x.0) (read_index-index_bytes idx h)
