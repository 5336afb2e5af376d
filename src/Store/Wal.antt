-- ===== src/Store/Wal.antt =====
-- The write-ahead log of src/store/wal.cpp and include/rag/store/wal.hpp: the record's encoding, its
-- frame, and `replay`. `Wal.Log` has the operations that write the file.
pub mod Frame
pub mod Log
pub mod Replay
pub mod Survival
pub mod Crash
pub mod Acks
pub mod Torn
use rag_cpp.Common.{
  ℕ, zero, suc, ◌+◌, ◌%◌, ◌^◌, Option, none, some, List, [], ◌∷◌, ◌++◌, length, take, drop, ltb,
  ◌==◌, not, if◌then◌else◌,
}
use rag_cpp.Common.SortedMap.{emplace}
use rag_cpp.Core.{Result, value, fail, corrupt_index, text_order}
use rag_cpp.Store.Format.{
  write_u, write_bytes, write_str, Reader, Read, read_u, read_str, reader, pure, from_option, ◌>>=◌,
}
use rag_cpp.Store.Crc.{crc32}

pub data WalOp : Type 0 where
  add_document remove_document : WalOp

abbrev pub op_byte : WalOp → ℕ
op_byte add_document = 1
op_byte remove_document = 2

-- The test on the byte, and the cast.
abbrev pub to_op : ℕ → Option WalOp
to_op b = if b == 1 then some add_document else if b == 2 then some remove_document else none

pub record WalRecord : Type 0 where
  pub op : WalOp
  pub uri : List ℕ
  pub title : List ℕ
  pub text : List ℕ
  pub meta : List (List ℕ × List ℕ)
  pub doc_id : ℕ

abbrev pub record_magic : ℕ
record_magic = 0x524C4157

abbrev pub header_bytes : ℕ
header_bytes = 12

unfoldable pub write_meta : List (List ℕ × List ℕ) → List ℕ → List ℕ
write_meta [] w = w
write_meta ((k, v) ∷ m) w = write_meta m (write_str v (write_str k w))

unfoldable pub encode : WalRecord → List ℕ
unfolding write_meta
encode rec = write_u 4 rec.doc_id (
    write_meta rec.meta (
      write_u 4 (length rec.meta % 2 ^ 32) (
        write_str rec.text
          (write_str rec.title (write_str rec.uri (write_u 1 (op_byte rec.op) []))))))

unfoldable pub read_meta : ℕ → List (List ℕ × List ℕ) → Read (List (List ℕ × List ℕ))
read_meta zero m = pure m
read_meta (suc n) m = do k ← read_str; v ← read_str; read_meta n (emplace text_order k v m)

unfoldable pub read_record : Read WalRecord
unfolding read_meta
read_record = do
  b ← read_u 1
  op ← from_option (to_op b)
  uri ← read_str
  title ← read_str
  text ← read_str
  n ← read_u 4
  meta ← read_meta n []
  doc_id ← read_u 4
  pure (record { op = op; uri = uri; title = title; text = text; meta = meta; doc_id = doc_id })

-- `false` is `none`; bytes behind the record are not looked at.
unfoldable pub decode : List ℕ → Option WalRecord
unfolding read_record
decode payload = (read_record (reader payload)).0

unfoldable pub frame_of : WalRecord → List ℕ
frame_of rec =
    let payload = encode rec in
    write_bytes payload
      (write_u 4 (crc32 payload) (write_u 4 (length payload % 2 ^ 32) (write_u 4 record_magic [])))

-- What the loop of `replay` does with the record at `pos`: `break`, return the error, or go on.
pub data Scan : Type 0 where
  stop : Scan
  corrupt : Scan
  next : WalRecord → ℕ → Scan

unfoldable pub read_head : Read (ℕ × ℕ × ℕ)
read_head = do magic ← read_u 4; len ← read_u 4; crc ← read_u 4; pure (magic, len, crc)

-- A record that ends the file and does not check is a torn tail; elsewhere it is corruption.
abbrev pub torn_or_corrupt : ℕ → ℕ → Scan
torn_or_corrupt stop_ size = if stop_ == size then stop else corrupt

unfoldable pub scan_payload : List ℕ → ℕ → ℕ → ℕ → Scan
scan_payload blob body len crc =
    let payload = take len (drop body blob) in
    if not (crc32 payload == crc)
    then torn_or_corrupt (body + len) (length blob)
    else elim (decode payload) [
      | none ↦ torn_or_corrupt (body + len) (length blob)
      | some rec ↦ next rec (body + len)
    ]

abbrev pub scan_body : List ℕ → ℕ → Option (ℕ × ℕ × ℕ) → Scan
scan_body blob pos none = stop
scan_body blob pos (some (magic, len, crc)) =
    if not (magic == record_magic)
    then corrupt
    else if ltb (length blob) (pos + header_bytes + len)
    then stop
    else scan_payload blob (pos + header_bytes) len crc

unfoldable pub scan : List ℕ → ℕ → Scan
scan blob pos =
    if ltb (length blob) (pos + header_bytes)
    then stop
    else scan_body blob pos (read_head (reader (take header_bytes (drop pos blob)))).0

-- The loop takes fuel; `stuck` means that it ran out.
pub data Outcome : Type 0 where
  done : Result (List WalRecord) → Outcome
  stuck : Outcome

abbrev pub on_scan : Scan → List WalRecord → (WalRecord → ℕ → Outcome) → Outcome
on_scan stop out go = done (value out)
on_scan corrupt out go = done (fail corrupt_index)
on_scan (next rec pos) out go = go rec pos

unfoldable pub replay_loop : ℕ → List ℕ → ℕ → List WalRecord → Outcome
replay_loop zero blob pos out = stuck
replay_loop (suc fuel) blob pos out =
    on_scan (scan blob pos) out λ rec pos'. replay_loop fuel blob pos' (out ++ rec ∷ [])

-- `replay` of a file with these bytes. A round takes twelve bytes at least.
unfoldable pub replay : List ℕ → Outcome
unfolding replay_loop scan
replay blob = replay_loop (suc (length blob)) blob 0 []
