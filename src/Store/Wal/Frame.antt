-- ===== src/Store/Wal/Frame.antt =====
-- Decoding undoes encoding, and what a frame looks like.
use rag_cpp.Common.{
  ℕ, ◌+◌, ◌%◌, ◌^◌, ◌<◌, ◌≤◌, ◌≡◌, refl, ◌∙◌, sym, ap, Bool, true, some, List, [], ◌∷◌, ◌++◌,
  length, length-append, append_assoc, append-nil, arith,
}
use rag_cpp.Common.SortedMap.{IsSorted, emplace_last, Below-middle}
use rag_cpp.Core.{text_order}
use rag_cpp.Store.Format.{le_bytes, reader}
use rag_cpp.Store.Format.Codec.{
  at, length-le_bytes, read_u-then, read_str-then, from_option-then, >>=-then,
}
use rag_cpp.Store.Crc.{crc32}
use rag_cpp.Store.Wal.{
  WalOp, add_document, remove_document, op_byte, to_op, WalRecord, write_meta, encode, read_meta,
  read_record, decode, frame_of, record_magic,
}

-- A length-prefixed string, the metadata and the record, each with `rest` behind it.
abbrev pub str_bytes : List ℕ → List ℕ → List ℕ
str_bytes s rest = le_bytes 4 (length s % 2 ^ 32) ++ (s ++ rest)

abbrev pub meta_bytes : List (List ℕ × List ℕ) → List ℕ → List ℕ
meta_bytes [] rest = rest
meta_bytes ((k, v) ∷ m) rest = str_bytes k (str_bytes v (meta_bytes m rest))

abbrev pub record_bytes : WalRecord → List ℕ → List ℕ
record_bytes rec rest =
    le_bytes 1 (op_byte rec.op)
    ++ str_bytes rec.uri (
        str_bytes rec.title (
          str_bytes rec.text (
            le_bytes 4 (length rec.meta % 2 ^ 32)
            ++ meta_bytes rec.meta (le_bytes 4 rec.doc_id ++ rest))))

write_meta-append :
    (m : List (List ℕ × List ℕ)) (w rest : List ℕ) → write_meta m w ++ rest ≡ w ++ meta_bytes m rest
unfolding write_meta
write_meta-append [] w rest = refl
write_meta-append ((k, v) ∷ m) w rest = write_meta-append m _ rest ∙ simp append_assoc

encode-append : (rec : WalRecord) (rest : List ℕ) → encode rec ++ rest ≡ record_bytes rec rest
unfolding encode
encode-append rec rest = simp append_assoc (write_meta-append rec.meta _ _ ∙ simp append_assoc)

pub meta_size : List (List ℕ × List ℕ) → ℕ
meta_size [] = 0
meta_size ((k, v) ∷ m) = 8 + (length k + (length v + meta_size m))

length-meta_bytes :
    (m : List (List ℕ × List ℕ)) (rest : List ℕ)
    → length (meta_bytes m rest) ≡ meta_size m + length rest
unfolding meta_size
length-meta_bytes [] rest = omega arith
length-meta_bytes ((k, v) ∷ m) rest =
    simp (length-append, length-le_bytes) (omega (arith, length-meta_bytes m rest))

length-meta-le : (m : List (List ℕ × List ℕ)) → length m ≤ meta_size m
unfolding meta_size
length-meta-le [] = omega arith
length-meta-le ((k, v) ∷ m) = omega (arith, length-meta-le m)

pub length-encode :
    (rec : WalRecord)
    → length (encode rec)
      ≡ 21 + (length rec.uri + (length rec.title + (length rec.text + meta_size rec.meta)))
length-encode rec = rw (← append-nil (encode rec)) (
    rw (encode-append rec [])
      (simp (length-append, length-le_bytes, length-meta_bytes) (omega arith)))

-- What fits a frame: a payload and an id below 2 ^ 32, and metadata that is a map.
pub record IsValid (rec : WalRecord) : Type 0 where
  pub fits : length (encode rec) < 2 ^ 32
  pub sorted : IsSorted text_order rec.meta
  pub doc_id_fits : rec.doc_id < 2 ^ 32

read_meta-meta_bytes :
    (m done : List (List ℕ × List ℕ)) (rest : List ℕ) (b : Bool)
    → meta_size m < 2 ^ 32
    → IsSorted text_order (done ++ m)
    → read_meta (length m) done (at (meta_bytes m rest) b) ≡ (some (done ++ m), at rest b)
unfolding read_meta meta_size
read_meta-meta_bytes [] done rest b h s = rw append-nil
read_meta-meta_bytes ((k, v) ∷ m) done rest b h s = read_str-then _ k _ b (omega arith) (
    read_str-then _ v _ b (omega arith) (
      rw (emplace_last text_order k v done (Below-middle text_order done k v m s)) (
        read_meta-meta_bytes m (done ++ (k, v) ∷ []) rest b (omega arith) (rw append_assoc s)
        ∙ rw append_assoc)))

to_op-op_byte : (op : WalOp) → to_op (op_byte op) ≡ some op
to_op-op_byte add_document = refl
to_op-op_byte remove_document = refl

op_byte-lt : (op : WalOp) → op_byte op < 256 ^ 1
op_byte-lt add_document = omega arith
op_byte-lt remove_document = omega arith

read_record-record_bytes :
    (rec : WalRecord)
    → IsValid rec
    → read_record (at (record_bytes rec []) true) ≡ (some rec, at [] true)
unfolding read_record
read_record-record_bytes rec h =
    let size = length-encode rec in
    let few = length-meta-le rec.meta in
    let count : length rec.meta % 2 ^ 32 ≡ length rec.meta = omega arith in
    rw count (
      read_u-then _ 1 (op_byte rec.op) _ true (op_byte-lt rec.op) (
        from_option-then _ (to_op (op_byte rec.op)) _ (to_op-op_byte rec.op) (
          read_str-then _ rec.uri _ true (omega arith) (
            read_str-then _ rec.title _ true (omega arith) (
              read_str-then _ rec.text _ true (omega arith) (
                read_u-then _ 4 (length rec.meta) _ true (omega arith) (
                  >>=-then _ (read_meta (length rec.meta) [])
                    (read_meta-meta_bytes rec.meta [] _ true (omega arith) h.sorted)
                    (read_u-then _ 4 rec.doc_id [] true (omega arith) refl))))))))

-- Decoding the payload of a record gives the record back.
pub decode-encode : (rec : WalRecord) → IsValid rec → decode (encode rec) ≡ some rec
unfolding decode
decode-encode rec h =
    ap (λ s. (read_record (reader s)).0) (sym (append-nil (encode rec)) ∙ encode-append rec [])
    ∙ ap (λ x. x.0) (read_record-record_bytes rec h)

-- The frame with `rest` behind it.
pub frame_of-append :
    (rec : WalRecord) (rest : List ℕ)
    → frame_of rec ++ rest
      ≡ le_bytes 4 record_magic
        ++ (le_bytes 4 (length (encode rec) % 2 ^ 32)
            ++ (le_bytes 4 (crc32 (encode rec)) ++ (encode rec ++ rest)))
unfolding frame_of
frame_of-append rec rest = simp append_assoc

pub length-frame_of : (rec : WalRecord) → length (frame_of rec) ≡ 12 + length (encode rec)
unfolding frame_of
length-frame_of rec = simp (length-append, length-le_bytes) (omega arith)
