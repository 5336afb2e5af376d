-- ===== src/Store/Wal/Survival.antt =====
-- What a crash leaves of the log, and how `replay` of src/store/wal.cpp reads a damaged last record.
use rag_cpp.Common.{
  ℕ, zero, suc, ◌+◌, ◌≤◌, ◌<◌, ◌≡◌, ◌≢◌, refl, ◌∙◌, sym, ap, true, false, List, [], ◌∷◌, ◌++◌,
  length, take, take-all, take-append_length, length-append, append_assoc, append-nil, arith, All,
  ltb, ◌==◌, le→ltb,
}
use rag_cpp.Core.{value}
use rag_cpp.Store.Crc.{crc32}
use rag_cpp.Store.Wal.{
  WalRecord, encode, frame_of, stop, scan, scan_payload, done, replay_loop, replay,
}
use rag_cpp.Store.Wal.Frame.{IsValid, length-frame_of}
use rag_cpp.Store.Wal.Replay.{frames, head_of, length-head_of, payload_at, scan-frame, scan-head}
use rag_cpp.Store.Wal.Log.{Disk}

-- A front part of the file, and the stable bytes at least.
pub data Intact (d : Disk) : List ℕ → Type 0 where
  last_stable : Intact d d.stable
  grown : (n : ℕ) → length d.stable ≤ n → Intact d (take n d.content)

-- What survives of the file: a front part of it; or whole frames and then, past the stable bytes, the
-- header of the next frame and as many bytes as it says, which its checksum refuses.
pub data Survives (d : Disk) : List ℕ → Type 0 where
  intact : {blob : List ℕ} → Intact d blob → Survives d blob
  damaged :
      (rs : List WalRecord) (r : WalRecord) (body more : List ℕ)
      → d.content ≡ frames rs ++ (frame_of r ++ more)
      → length d.stable ≤ length (frames rs)
      → All IsValid rs
      → IsValid r
      → length body ≡ length (encode r)
      → crc32 body ≢ crc32 (encode r)
      → Survives d (frames rs ++ (head_of r ++ body))

-- The records in front of a tail that stops the scan.
pub replay_loop-stop :
    (rs : List WalRecord) (tail : List ℕ) (fuel : ℕ) (before : List ℕ) (out : List WalRecord)
    → All IsValid rs
    → ((b : List ℕ) → scan (b ++ tail) (length b) ≡ stop)
    → length rs < fuel
    → replay_loop fuel (before ++ (frames rs ++ tail)) (length before) out
      ≡ done (value (out ++ rs))
unfolding replay_loop
replay_loop-stop rs tail zero before out v h lt = absurd (omega arith)
replay_loop-stop [] tail (suc fuel) before out v h lt = rw (h before) (rw append-nil)
replay_loop-stop (r ∷ rs) tail (suc fuel) before out v h lt =
    rw (append_assoc (frame_of r) (frames rs) tail) (
      rw (scan-frame before (frames rs ++ tail) r v.0) (
        rw (← length-append, ← append_assoc)
          (replay_loop-stop rs tail fuel (before ++ frame_of r) (out ++ r ∷ []) v.1 h (omega arith)
            ∙ ap (λ l. done (value l)) (append_assoc out (r ∷ []) rs))))

pub length-frames : (rs : List WalRecord) → length rs ≤ length (frames rs)
length-frames [] = omega arith
length-frames (r ∷ rs) =
    omega (arith, length-append (frame_of r) (frames rs), length-frame_of r, length-frames rs)

-- Whole frames before a tail that stops the scan replay to their records.
replay-stop :
    (rs : List WalRecord) (tail : List ℕ)
    → All IsValid rs
    → ((b : List ℕ) → scan (b ++ tail) (length b) ≡ stop)
    → replay (frames rs ++ tail) ≡ done (value rs)
unfolding replay
replay-stop rs tail v h =
    replay_loop-stop rs tail (suc (length (frames rs ++ tail))) [] [] v h
      (omega (arith, length-append (frames rs) tail, length-frames rs))

scan_payload-damaged :
    (before body : List ℕ) (r : WalRecord)
    → length body ≡ length (encode r)
    → crc32 body ≢ crc32 (encode r)
    → scan_payload
        (before ++ (head_of r ++ body))
        (length before + 12)
        (length (encode r))
        (crc32 (encode r))
      ≡ stop
unfolding scan_payload
scan_payload-damaged before body r l c =
    let whole : take (length (encode r)) body ≡ body = take-all _ body (omega (arith, l)) in
    let refused : (crc32 body == crc32 (encode r)) ≡ false = ground (arith, c) in
    let last : (length before + 12 + length (encode r) == length (before ++ (head_of r ++ body)))
        ≡ true =
      ground (
        arith,
        l,
        length-append before (head_of r ++ body),
        length-append (head_of r) body,
        length-head_of r,
      ) in
    rw (payload_at before body r) (rw whole (rw refused (rw last refl)))

-- A record at the end whose body does not check stops the scan.
scan-damaged :
    (body : List ℕ) (r : WalRecord)
    → IsValid r
    → length body ≡ length (encode r)
    → crc32 body ≢ crc32 (encode r)
    → (before : List ℕ) → scan (before ++ (head_of r ++ body)) (length before) ≡ stop
scan-damaged body r v l c before =
    let long : ltb (length (before ++ (head_of r ++ body))) (length before + 12 + length (encode r))
        ≡ false =
      le→ltb _ _ (
        omega (
          arith,
          l,
          length-append before (head_of r ++ body),
          length-append (head_of r) body,
          length-head_of r,
        )) in
    scan-head before body r v ∙ rw long (scan_payload-damaged before body r l c)

-- No bytes stop the scan.
scan-end : (before : List ℕ) → scan (before ++ []) (length before) ≡ stop
unfolding scan
scan-end before =
    let short : ltb (length (before ++ [])) (length before + 12) ≡ true =
      ground (arith, length-append before []) in
    rw short refl

-- What survives replays as a front part of the file does, which holds the stable bytes.
pub Survives-Intact :
    (d : Disk) (blob : List ℕ)
    → Survives d blob
    → (front : List ℕ) × Intact d front × (replay blob ≡ replay front)
Survives-Intact d blob (intact h) = (blob, h, refl)
Survives-Intact d blob (damaged rs r body more e n v w l c) =
    let front : take (length (frames rs)) d.content ≡ frames rs =
      ap (take (length (frames rs))) e ∙ take-append_length (frames rs) (frame_of r ++ more) in
    (
      take (length (frames rs)) d.content,
      grown (length (frames rs)) n,
      replay-stop rs (head_of r ++ body) v (scan-damaged body r w l c)
          ∙ sym (replay-stop rs [] v scan-end)
          ∙ ap replay (append-nil (frames rs) ∙ sym front),
    )
