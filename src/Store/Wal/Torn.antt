-- ===== src/Store/Wal/Torn.antt =====
-- A write that fails part way leaves a torn frame in the middle of the file: the next record, which
-- is acknowledged, stands behind it.
use rag_cpp.Common.{
  ℕ, suc, ◌+◌, ◌%◌, ◌^◌, ◌<◌, ◌≡◌, refl, ◌∙◌, sym, ap, true, List, [], ◌∷◌, ◌++◌, length,
  length-append, append_assoc, append-nil, arith, All, lt→ltb, ltb,
}
use rag_cpp.Core.{value, io_error}
use rag_cpp.Store.Format.{le_bytes}
use rag_cpp.Store.Format.Codec.{length-le_bytes}
use rag_cpp.Store.Crc.{crc32}
use rag_cpp.Store.Wal.{WalRecord, encode, frame_of, record_magic, stop, scan, done, replay}
use rag_cpp.Store.Wal.Frame.{IsValid, frame_of-append}
use rag_cpp.Store.Wal.Replay.{frames, scan-header, header}
use rag_cpp.Store.Wal.Log.{
  Wal, Disk, wrote, failed, Calls, ok, append, write_out, write_all, is_open, error, Reply,
  WriteResult,
}
use rag_cpp.Store.Wal.Survival.{replay_loop-stop, length-frames}
use rag_cpp.Store.Wal.Crash.{Holds}
use rag_cpp.Store.Wal.Acks.{append-Committed}

-- Four bytes of a torn frame and a whole frame behind them: the first four bytes of the frame are
-- taken for a length.
abbrev torn_tail : WalRecord → List ℕ
torn_tail rec = le_bytes 4 record_magic ++ frame_of rec

scan-torn_tail :
    (rec : WalRecord) (before : List ℕ)
    → length (frame_of rec) < record_magic
    → scan (before ++ torn_tail rec) (length before) ≡ stop
scan-torn_tail rec before h =
    let len = length (encode rec) % 2 ^ 32 in
    let tail = le_bytes 4 (crc32 (encode rec)) ++ (encode rec ++ []) in
    let split : torn_tail rec ≡ header record_magic record_magic len ++ tail =
      ap (λ s. le_bytes 4 record_magic ++ s)
        (sym (append-nil (frame_of rec)) ∙ frame_of-append rec [])
      ∙ simp append_assoc in
    let cut : ltb (length (before ++ torn_tail rec)) (length before + 12 + record_magic) ≡ true =
      lt→ltb _ _ (
        omega (
          arith,
          length-append before (torn_tail rec),
          length-append (le_bytes 4 record_magic) (frame_of rec),
          length-le_bytes 4 record_magic,
        )) in
    rw split (
      scan-header before tail record_magic record_magic len (omega arith) (omega arith)
        (omega arith)
      ∙ rw (
          ap (λ s. ltb (length (before ++ s)) (length before + 12 + record_magic)) (sym split)
          ∙ cut))

torn_write :
    (ws : List WriteResult) (n : ℕ) (rest file : List ℕ)
    → write_all (wrote 4 ∷ failed ∷ ws) (le_bytes 4 record_magic ++ (le_bytes 4 n ++ rest)) file
      ≡ (error io_error, file ++ le_bytes 4 record_magic)
unfolding write_all le_bytes
torn_write ws n rest file = refl

append_torn :
    (c : Calls) (ws : List WriteResult) (rec : WalRecord) (w : Wal) (d : Disk)
    → is_open w ≡ true
    → c.writes ≡ wrote 4 ∷ failed ∷ ws
    → append c rec w d
      ≡ (error io_error, w, record d { content = d.content ++ le_bytes 4 record_magic })
unfolding append write_out
append_torn c ws rec w d o e =
    rw (o, e) (rw (← append-nil (frame_of rec)) (rw (frame_of-append rec []) (rw torn_write)))

-- Where the log is open, and the file and the device hold the frames of valid acknowledged records:
-- a write of a record that stops after four bytes with an error, and then a record that is
-- acknowledged: the file replays to the records before both, so the acknowledged one is lost, and no
-- error is reported. (The second frame is below 1.3 GB.)
pub torn_append_loses_next :
    (c c' : Calls) (ws : List WriteResult) (acked : List WalRecord) (rec rec' : WalRecord) (w : Wal)
    (d : Disk)
    → Holds d acked
    → All IsValid acked
    → is_open w ≡ true
    → c.writes ≡ wrote 4 ∷ failed ∷ ws
    → length (frame_of rec') < record_magic
    → (append c' rec' (append c rec w d).1 (append c rec w d).2).0 ≡ ok
    → ((append c rec w d).0 ≡ error io_error)
      × (replay (append c' rec' (append c rec w d).1 (append c rec w d).2).2.content
          ≡ done (value acked))
unfolding replay
torn_append_loses_next c c' ws acked rec rec' w d h v o e small acknowledged =
    let torn = append_torn c ws rec w d o e in
    let k = append-Committed c' (append c rec w d).1 (append c rec w d).2 rec' acknowledged in
    let content : (append c' rec' (append c rec w d).1 (append c rec w d).2).2.content
        ≡ frames acked ++ torn_tail rec' =
      k.content_eq
      ∙ ap (λ (x : Reply × Wal × Disk). x.2.content ++ frame_of rec') torn
      ∙ ap (λ s. s ++ le_bytes 4 record_magic ++ frame_of rec') h.content_eq
      ∙ append_assoc (frames acked) (le_bytes 4 record_magic) (frame_of rec') in
    (
      ap (λ (x : Reply × Wal × Disk). x.0) torn,
      ap replay content
          ∙ replay_loop-stop acked (torn_tail rec') (suc (length (frames acked ++ torn_tail rec')))
              [] [] v (λ b. scan-torn_tail rec' b small)
              (omega (arith, length-append (frames acked) (torn_tail rec'), length-frames acked)),
    )
