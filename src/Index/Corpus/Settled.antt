-- ===== src/Index/Corpus/Settled.antt =====
-- What of the contents a restart brings back: the counter of changes and the marks for work that is
-- put off are set, as after_log a rebuild.
use rag_cpp.Common.{
  ℕ, ◌%◌, ◌^◌, ◌≡◌, refl, ◌∙◌, sym, ap, false, Option, none, some, List, [], ◌∷◌, ◌++◌, length,
  Bool-cases, inl, inr,
}
use rag_cpp.Core.{Chunk, indexed_text}
use rag_cpp.Text.Tokenizer.{Memo, tokenize}
use rag_cpp.Lexical.Bm25.{Bm25Index, finalize, add_tokens}
use rag_cpp.Lexical.Bm25
use rag_cpp.Store.Wal.{WalRecord, WalOp, add_document, remove_document}
use rag_cpp.Index.Corpus.{
  Ingest, DocInput, Contents, insert, add_chunks, new_chunks, document_of, find_by_uri,
  ensure_linked, is_unknown, is_deleted, tombstone,
}
use rag_cpp.Index.Corpus.Logged.{input_of}
use rag_cpp.Index.Corpus.Apply.{take_out, make_room, apply_op, apply_record}

unfoldable pub settled : Contents → Contents
settled s = record s { bm25 = finalize s.bm25; meta_stale = false; dirty = false; epoch = 0 }

settled_twice : (s : Contents) → settled (settled s) ≡ settled s
unfolding settled finalize
settled_twice s = refl

add_tokens-finalize :
    (id : ℕ) (t : List (List ℕ) × Memo) (idx : Bm25Index)
    → finalize (add_tokens id t (finalize idx)) ≡ finalize (add_tokens id t idx)
unfolding finalize add_tokens
add_tokens-finalize id ([], stems) idx = refl
add_tokens-finalize id (t ∷ terms, stems) idx = refl

abbrev pub add_chunk : Chunk → Contents → Contents
add_chunk ch s =
    let cid = length s.rows % 2 ^ 32 in
    record s {
      bm25 = Bm25.add cid (indexed_text ch) s.bm25;
      rows = s.rows ++ record { chunk = record ch { id = cid }; embedding = [] } ∷ [];
    }

add_chunk-settled :
    (ch : Chunk) (s : Contents) → settled (add_chunk ch (settled s)) ≡ settled (add_chunk ch s)
unfolding settled Bm25.add finalize
add_chunk-settled ch s =
    let cid = length s.rows % 2 ^ 32 in
    ap
      (λ b. record s {
        bm25 = b;
        rows = s.rows ++ record { chunk = record ch { id = cid }; embedding = [] } ∷ [];
        meta_stale = false;
        dirty = false;
        epoch = 0;
      })
      (add_tokens-finalize cid (tokenize s.bm25.options s.bm25.stems (indexed_text ch)) s.bm25)

add_chunks-settled :
    (chs : List Chunk) (s : Contents)
    → settled (add_chunks chs (settled s)) ≡ settled (add_chunks chs s)
unfolding add_chunks
add_chunks-settled [] s = settled_twice s
add_chunks-settled (ch ∷ chs) s =
    sym (add_chunks-settled chs (add_chunk ch (settled s)))
    ∙ ap (λ t. settled (add_chunks chs t)) (add_chunk-settled ch s)
    ∙ add_chunks-settled chs (add_chunk ch s)

insert-settled :
    (ing : Ingest) (d : DocInput) (s : Contents)
    → settled (insert ing d (settled s)) ≡ settled (insert ing d s)
unfolding insert settled
insert-settled ing d s =
    let doc = document_of (length s.docs % 2 ^ 32) d in
    add_chunks-settled (new_chunks ing doc) (record s { docs = s.docs ++ doc ∷ [] })

take_out-settled :
    (id : ℕ) (s : Contents) → settled (take_out id (settled s)) ≡ settled (take_out id s)
unfolding take_out settled is_unknown is_deleted ensure_linked tombstone finalize
take_out-settled id s = elim (Bool-cases (is_unknown id s)) [
  | inl e ↦ rw e refl
  | inr e ↦ rw e refl
]

make_room-settled :
    (o : Option ℕ) (s : Contents) → settled (make_room o (settled s)) ≡ settled (make_room o s)
make_room-settled none s = settled_twice s
make_room-settled (some id) s = take_out-settled id s

find_by_uri-settled :
    (uri : List ℕ) (s : Contents) → find_by_uri uri (settled s) ≡ find_by_uri uri s
unfolding find_by_uri settled
find_by_uri-settled uri s = refl

apply_op-settled :
    (ing : Ingest) (op : WalOp) (rec : WalRecord) (s : Contents)
    → settled (apply_op ing op rec (settled s)) ≡ settled (apply_op ing op rec s)
apply_op-settled ing remove_document rec s = take_out-settled rec.doc_id s
apply_op-settled ing add_document rec s =
    let o = find_by_uri rec.uri s in
    let d = input_of rec in
    rw (find_by_uri-settled rec.uri s) (
      sym (insert-settled ing d (make_room o (settled s)))
      ∙ ap (λ t. settled (insert ing d t)) (make_room-settled o s)
      ∙ insert-settled ing d (make_room o s))

-- What a record does is the same up to what a restart brings back.
pub apply_record-settled :
    (ing : Ingest) (rec : WalRecord) (s t : Contents)
    → settled s ≡ settled t
    → settled (apply_record ing rec s) ≡ settled (apply_record ing rec t)
unfolding apply_record
apply_record-settled ing rec s t e =
    sym (apply_op-settled ing rec.op rec s)
    ∙ ap (λ u. settled (apply_op ing rec.op rec u)) e
    ∙ apply_op-settled ing rec.op rec t
