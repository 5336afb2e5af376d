-- ===== src/Index/Corpus/Snapshot/Embeddings.antt =====
-- The EMBD section: the embeddings of all rows, in their order.
use rag_cpp.Common.{
  ℕ, ◌*◌, ◌%◌, ◌^◌, ◌<◌, ◌≡◌, refl, ◌∙◌, sym, ap, Bool, true, false, some, List, [], ◌∷◌, ◌++◌,
  length, take, drop, append_assoc, All, ◌==◌, if◌then◌else◌, arith, length-append,
  take-append_length, drop-append_length,
}
use rag_cpp.Core.{Chunk, is_empty}
use rag_cpp.Store.Format.{le_bytes, Read, write_u, read_bytes, ◌>>=◌}
use rag_cpp.Store.Format.Codec.{
  at, read_u-le_bytes, read_bytes-append, length-le_bytes, le_value-le_bytes,
}
use rag_cpp.Store.Format.Loops.{each_bytes, write_each-append}
use rag_cpp.Index.Corpus.{Row}
use rag_cpp.Index.Corpus.Snapshot.{
  write_embedding, any_embedding, words, embed_next, read_embeddings,
}
use rag_cpp.Index.Corpus.Snapshot.Fields.{plain, plain_rows}

abbrev word_bytes : ℕ → List ℕ → List ℕ
word_bytes x rest = le_bytes 4 x ++ rest

abbrev raw : List ℕ → List ℕ
raw xs = each_bytes word_bytes xs []

abbrev pub embedding_bytes : Row → List ℕ → List ℕ
embedding_bytes row rest =
    le_bytes 4 (length row.embedding % 2 ^ 32) ++ each_bytes word_bytes row.embedding rest

write_word-append : (x : ℕ) (w rest : List ℕ) → write_u 4 x w ++ rest ≡ w ++ word_bytes x rest
write_word-append x w rest = append_assoc w (le_bytes 4 x) rest

pub write_embedding-append :
    (row : Row) (w rest : List ℕ) → write_embedding row w ++ rest ≡ w ++ embedding_bytes row rest
write_embedding-append row w rest =
    write_each-append (write_u 4) word_bytes write_word-append row.embedding
      (write_u 4 (length row.embedding % 2 ^ 32) w) rest
    ∙ append_assoc w (le_bytes 4 (length row.embedding % 2 ^ 32)) _

each_bytes-raw : (xs rest : List ℕ) → each_bytes word_bytes xs rest ≡ raw xs ++ rest
each_bytes-raw [] rest = refl
each_bytes-raw (x ∷ xs) rest =
    ap (λ s. le_bytes 4 x ++ s) (each_bytes-raw xs rest)
    ∙ sym (append_assoc (le_bytes 4 x) (raw xs) rest)

length-raw : (xs : List ℕ) → length (raw xs) ≡ length xs * 4
length-raw [] = omega arith
length-raw (x ∷ xs) =
    omega (arith, length-append (le_bytes 4 x) (raw xs), length-le_bytes 4 x, length-raw xs)

abbrev pub WordFits : ℕ → Type 0
WordFits x = x < 2 ^ 32

words-raw : (xs : List ℕ) → All WordFits xs → words (length xs) (raw xs) ≡ xs
unfolding words
words-raw [] h = refl
words-raw (x ∷ xs) h =
    let front : take 4 (raw (x ∷ xs)) ≡ le_bytes 4 x =
      rw (length-le_bytes 4 x) at (take-append_length (le_bytes 4 x) (raw xs)) in
    let back : drop 4 (raw (x ∷ xs)) ≡ raw xs =
      rw (length-le_bytes 4 x) at (drop-append_length (le_bytes 4 x) (raw xs)) in
    rw (front, back)
      (rw (le_value-le_bytes 4 x (omega (arith, h.0))) (ap (λ l. x ∷ l) (words-raw xs h.1)))

-- An embedding that fits its section.
pub record EmbeddingFits (row : Row) : Type 0 where
  pub words_fit : All WordFits row.embedding
  pub length_fits : length row.embedding < 2 ^ 32

embed_next-bytes :
    (ch : Chunk) (emb : List ℕ) (rows : List Row) (go : Read (List Row)) (rest : List ℕ) (b : Bool)
    (out : List Row) (end : List ℕ)
    → All WordFits emb
    → go (at rest b) ≡ (some out, at end b)
    → embed_next
        (record { chunk = ch; embedding = [] })
        rows
        go
        (some (length emb), at (each_bytes word_bytes emb rest) b)
      ≡ (some (record { chunk = ch; embedding = emb } ∷ out), at end b)
unfolding ◌>>=◌
embed_next-bytes ch [] rows go rest b out end h e = rw e refl
embed_next-bytes ch (x ∷ xs) rows go rest b out end h e =
    let emb = x ∷ xs in
    let bytes : at (each_bytes word_bytes emb rest) b ≡ at (raw emb ++ rest) b =
      ap (λ s. at s b) (each_bytes-raw emb rest) in
    let got : read_bytes (length emb * 4) (at (raw emb ++ rest) b) ≡ (some (raw emb), at rest b) =
      rw (length-raw emb) at (read_bytes-append (raw emb) rest b) in
    let nonzero : (length emb == 0) ≡ false = ground arith in
    rw nonzero (
      rw bytes (
        rw got (
          rw e (
            ap (λ l. (some (record { chunk = ch; embedding = l } ∷ out), at end b))
              (words-raw emb h)))))

pub read_embeddings-bytes :
    (rows : List Row) (rest : List ℕ) (b : Bool)
    → All EmbeddingFits rows
    → read_embeddings (plain_rows rows) (at (each_bytes embedding_bytes rows rest) b)
      ≡ (some rows, at rest b)
unfolding read_embeddings
read_embeddings-bytes [] rest b h = refl
read_embeddings-bytes (row ∷ rows) rest b h =
    let size : length row.embedding % 2 ^ 32 ≡ length row.embedding =
      omega (arith, h.0.length_fits) in
    let more = each_bytes embedding_bytes rows rest in
    rw size (
      rw
        (read_u-le_bytes 4 (length row.embedding) (each_bytes word_bytes row.embedding more) b
          (omega (arith, h.0.length_fits)))
        (embed_next-bytes row.chunk row.embedding (plain_rows rows)
          (read_embeddings (plain_rows rows)) more b rows rest h.0.words_fit
          (read_embeddings-bytes rows rest b h.1)))

no_embedding_row :
    (ch : Chunk) (emb : List ℕ) (rows : List Row)
    → (if is_empty emb then any_embedding rows else true) ≡ false
    → (emb ≡ []) × (any_embedding rows ≡ false)
no_embedding_row ch [] rows h = (refl, h)
no_embedding_row ch (x ∷ xs) rows h = cc h

-- Without an embedding the section is left out, and the rows are the plain ones.
pub no_embedding : (rows : List Row) → any_embedding rows ≡ false → plain_rows rows ≡ rows
unfolding any_embedding
no_embedding [] h = refl
no_embedding (row ∷ rows) h =
    let (empty, rest) = no_embedding_row row.chunk row.embedding rows h in
    ap (λ l. plain row ∷ l) (no_embedding rows rest)
    ∙ ap (λ e. record { chunk = row.chunk; embedding = e } ∷ rows) (sym empty)
