-- ===== src/Store/Wal/Replay.antt =====
-- `replay` of the front part of a log: the whole records in it, and nothing else.
use rag_cpp.Common.{
  ℕ, zero, suc, ◌+◌, ◌-◌, ◌%◌, ◌^◌, ◌<◌, ◌≤◌, ◌≡◌, refl, ◌∙◌, sym, ap, true, false, ◌⊎◌, inl, inr,
  some, List, [], ◌∷◌, ◌++◌, length, length-append, append_assoc, append-nil, arith, take, drop,
  All, take-append_length, drop-append_length, take-append_add, drop-append_add, ltb, leb, lt→leb,
  le→leb, ==_refl, if◌then◌else◌, lt→ltb, le→ltb, length-take, take-append_le, take-append_ge,
}
use native.Mathlib.Decide.{dec_lt}
use mathlib.Core.Path.{ap₂}
use rag_cpp.Core.{Result, value, fail, corrupt_index}
use rag_cpp.Store.Format.{le_bytes, reader}
use rag_cpp.Store.Format.Codec.{read_u-then, length-le_bytes}
use rag_cpp.Store.Crc.{crc32, crc32-lt}
use rag_cpp.Store.Wal.{
  WalRecord, encode, frame_of, record_magic, Scan, stop, corrupt, next, read_head, scan_body,
  scan_payload, scan, done, replay_loop, replay,
}
use rag_cpp.Store.Wal.Frame.{IsValid, decode-encode, frame_of-append, length-frame_of}

abbrev pub frames : List WalRecord → List ℕ
frames [] = []
frames (r ∷ rs) = frame_of r ++ frames rs

-- The twelve bytes of a header, and a record's.
abbrev pub header : ℕ → ℕ → ℕ → List ℕ
header magic len crc = le_bytes 4 magic ++ (le_bytes 4 len ++ (le_bytes 4 crc ++ []))

abbrev pub head_of : WalRecord → List ℕ
head_of rec = header record_magic (length (encode rec) % 2 ^ 32) (crc32 (encode rec))

pub length-header : (magic len crc : ℕ) → length (header magic len crc) ≡ 12
length-header magic len crc = simp (length-append, length-le_bytes)

pub length-head_of : (rec : WalRecord) → length (head_of rec) ≡ 12
length-head_of rec = length-header _ _ _

frame_of-head :
    (rec : WalRecord) (rest : List ℕ) → frame_of rec ++ rest ≡ head_of rec ++ (encode rec ++ rest)
frame_of-head rec rest = frame_of-append rec rest ∙ simp append_assoc

read_head-header :
    (magic len crc : ℕ)
    → magic < 256 ^ 4
    → len < 256 ^ 4
    → crc < 256 ^ 4
    → (read_head (reader (header magic len crc))).0 ≡ some (magic, len, crc)
unfolding read_head
read_head-header magic len crc hm hl hc =
    ap (λ x. x.0)
      (read_u-then _ 4 magic _ true hm
        (read_u-then _ 4 len _ true hl (read_u-then _ 4 crc [] true hc refl)))

-- Where twelve bytes of a header are there, the scan goes on with its fields.
pub scan-header :
    (before rest : List ℕ) (magic len crc : ℕ)
    → magic < 256 ^ 4
    → len < 256 ^ 4
    → crc < 256 ^ 4
    → scan (before ++ (header magic len crc ++ rest)) (length before)
      ≡ scan_body
          (before ++ (header magic len crc ++ rest))
          (length before)
          (some (magic, len, crc))
unfolding scan
scan-header before rest magic len crc hm hl hc =
    let h = header magic len crc in
    let long : ltb (length (before ++ (h ++ rest))) (length before + 12) ≡ false = le→ltb _ _ (
      omega (
        arith,
        length-append before (h ++ rest),
        length-append h rest,
        length-header magic len crc,
      )) in
    let head : take 12 (h ++ rest) ≡ h =
      ap (λ n. take n (h ++ rest)) (sym (length-header magic len crc))
      ∙ take-append_length h rest in
    rw long (rw drop-append_length (rw head (rw (read_head-header magic len crc hm hl hc))))

pub scan-head :
    (before rest : List ℕ) (rec : WalRecord)
    → IsValid rec
    → scan (before ++ (head_of rec ++ rest)) (length before)
      ≡ scan_body
          (before ++ (head_of rec ++ rest))
          (length before)
          (some (record_magic, length (encode rec), crc32 (encode rec)))
scan-head before rest rec h =
    let e : length (encode rec) % 2 ^ 32 ≡ length (encode rec) = omega arith in
    scan-header before rest record_magic (length (encode rec) % 2 ^ 32) (crc32 (encode rec))
      (omega arith) (omega arith) (crc32-lt (encode rec))
    ∙ ap
        (λ n.
          scan_body (before ++ (head_of rec ++ rest)) (length before)
            (some (record_magic, n, crc32 (encode rec))))
        e

-- The payload behind a header, when the file holds `rest` there.
pub payload_at :
    (before rest : List ℕ) (rec : WalRecord)
    → drop (length before + 12) (before ++ (head_of rec ++ rest)) ≡ rest
payload_at before rest rec =
    drop-append_add before (head_of rec ++ rest) 12
    ∙ ap (λ n. drop n (head_of rec ++ rest)) (sym (length-head_of rec))
    ∙ drop-append_length (head_of rec) rest

scan_payload-encode :
    (before rest : List ℕ) (rec : WalRecord)
    → IsValid rec
    → scan_payload
        (before ++ (head_of rec ++ (encode rec ++ rest)))
        (length before + 12)
        (length (encode rec))
        (crc32 (encode rec))
      ≡ next rec (length before + 12 + length (encode rec))
unfolding scan_payload
scan_payload-encode before rest rec h =
    rw (payload_at before (encode rec ++ rest) rec, take-append_length, ==_refl)
      (rw (decode-encode rec h))

-- A whole record is read, and the scan moves behind it.
pub scan-frame :
    (before rest : List ℕ) (rec : WalRecord)
    → IsValid rec
    → scan (before ++ (frame_of rec ++ rest)) (length before)
      ≡ next rec (length before + length (frame_of rec))
scan-frame before rest rec h =
    let long : ltb (length (before ++ (head_of rec ++ (encode rec ++ rest))))
          (length before + 12 + length (encode rec))
        ≡ false =
      le→ltb _ _ (
        omega (
          arith,
          length-append before (head_of rec ++ (encode rec ++ rest)),
          length-append (head_of rec) (encode rec ++ rest),
          length-append (encode rec) rest,
          length-head_of rec,
        )) in
    let e : length before + length (frame_of rec) ≡ length before + 12 + length (encode rec) =
      omega (arith, length-frame_of rec) in
    rw (e, frame_of-head rec rest)
      (scan-head before (encode rec ++ rest) rec h
        ∙ rw long (scan_payload-encode before rest rec h))

-- Fewer bytes than a header stop the scan.
scan_short :
    (before tail : List ℕ) → length tail < 12 → scan (before ++ tail) (length before) ≡ stop
unfolding scan
scan_short before tail h = rw (
    lt→ltb (length (before ++ tail)) (length before + 12)
      (omega (arith, length-append before tail)))

-- So does a header whose payload is not all there.
scan_cut :
    (before tail : List ℕ) (rec : WalRecord)
    → IsValid rec
    → length tail < length (encode rec)
    → scan (before ++ (head_of rec ++ tail)) (length before) ≡ stop
scan_cut before tail rec h lt =
    scan-head before tail rec h
    ∙ rw (
        lt→ltb (length (before ++ (head_of rec ++ tail))) (length before + 12 + length (encode rec))
          (omega (
            arith,
            length-append before (head_of rec ++ tail),
            length-append (head_of rec) tail,
            length-head_of rec,
          )))

frame_of-eq : (rec : WalRecord) → frame_of rec ≡ head_of rec ++ encode rec
frame_of-eq rec =
    sym (append-nil (frame_of rec))
    ∙ frame_of-head rec []
    ∙ ap (λ s. head_of rec ++ s) (append-nil (encode rec))

-- A proper front part of a record stops the scan.
scan-torn :
    (before : List ℕ) (rec : WalRecord) (n : ℕ)
    → IsValid rec
    → n < length (frame_of rec)
    → scan (before ++ take n (frame_of rec)) (length before) ≡ stop
scan-torn before rec n h lt = elim (dec_lt n 12) [
  | yes short ↦
      scan_short before (take n (frame_of rec)) (omega (arith, length-take n (frame_of rec)))
  | no more ↦
      let e : n ≡ length (head_of rec) + (n - 12) = omega (arith, length-head_of rec) in
      let front : take n (frame_of rec) ≡ head_of rec ++ take (n - 12) (encode rec) =
        ap₂ take e (frame_of-eq rec) ∙ take-append_add (head_of rec) (encode rec) (n - 12) in
      rw front (
        scan_cut before (take (n - 12) (encode rec)) rec h
          (omega (arith, length-take (n - 12) (encode rec), length-frame_of rec)))
]

-- How many whole frames the first `n` bytes of a log hold.
abbrev pub complete : ℕ → List WalRecord → ℕ
complete n [] = 0
complete n (r ∷ rs) =
    if leb (length (frame_of r)) n then suc (complete (n - length (frame_of r)) rs) else 0

complete-le : (n : ℕ) (rs : List WalRecord) → complete n rs ≤ length (take n (frames rs))
complete-le n [] = omega arith
complete-le n (r ∷ rs) = ground (
  arith,
  complete-le (n - length (frame_of r)) rs,
  length-take n (frame_of r ++ frames rs),
  length-take (n - length (frame_of r)) (frames rs),
  length-append (frame_of r) (frames rs),
  length-frame_of r,
)

replay_loop-frames :
    (rs : List WalRecord) (n fuel : ℕ) (before : List ℕ) (out : List WalRecord)
    → All IsValid rs
    → complete n rs < fuel
    → replay_loop fuel (before ++ take n (frames rs)) (length before) out
      ≡ done (value (out ++ take (complete n rs) rs))
unfolding replay_loop
replay_loop-frames rs n zero before out v h = absurd (omega arith)
replay_loop-frames [] n (suc fuel) before out v h =
    rw (scan_short before (take n []) (omega (arith, length-take {A = ℕ} n []))) (rw append-nil)
replay_loop-frames (r ∷ rs) n (suc fuel) before out v h = elim (dec_lt n (length (frame_of r))) [
  | yes cut ↦ rw (lt→leb (length (frame_of r)) n cut) (
      rw (take-append_le n (frame_of r) (frames rs) (omega arith))
        (rw (scan-torn before r n v.0 cut) (rw append-nil)))
  | no whole ↦
      let fits : length (frame_of r) ≤ n = omega arith in
      let n' = n - length (frame_of r) in
      let all : leb (length (frame_of r)) n ≡ true = le→leb _ _ fits in
      rw all (
        rw (take-append_ge n (frame_of r) (frames rs) fits) (
          rw (scan-frame before (take n' (frames rs)) r v.0) (
            rw (← length-append, ← append_assoc)
              (replay_loop-frames rs n' fuel (before ++ frame_of r) (out ++ r ∷ []) v.1
                  (ground arith)
                ∙ rw append_assoc))))
]

-- A scan that goes on has moved forward, by the header at least, and stays in the file.
scan-eq_next :
    (blob : List ℕ) (pos : ℕ) {rec : WalRecord} {pos' : ℕ}
    → scan blob pos ≡ next rec pos'
    → (pos + 12 ≤ pos') × (pos' ≤ length blob)
unfolding scan scan_payload
scan-eq_next blob pos e = ground arith

Scan-cases :
    (s : Scan) → ((s ≡ stop) ⊎ (s ≡ corrupt)) ⊎ ((rec : WalRecord) × (pos : ℕ) × (s ≡ next rec pos))
Scan-cases stop = inl (inl refl)
Scan-cases corrupt = inl (inr refl)
Scan-cases (next rec pos) = inr (rec, pos, refl)

replay_loop_total :
    (fuel : ℕ) (blob : List ℕ) (pos : ℕ) (out : List WalRecord)
    → pos ≤ length blob
    → length blob < pos + fuel
    → (r : Result (List WalRecord)) × (replay_loop fuel blob pos out ≡ done r)
unfolding replay_loop
replay_loop_total zero blob pos out p h = absurd (omega arith)
replay_loop_total (suc fuel) blob pos out p h = elim (Scan-cases (scan blob pos)) [
  | inl (inl e) ↦ (value out, rw e)
  | inl (inr e) ↦ (fail corrupt_index, rw e)
  | inr (rec, pos', e) ↦ rw e (
      replay_loop_total fuel blob pos' (out ++ rec ∷ []) (scan-eq_next blob pos e).1
        (omega (arith, scan-eq_next blob pos e)))
]

-- `replay` returns on every file: the fuel that it is given is enough.
pub replay_total : (blob : List ℕ) → (r : Result (List WalRecord)) × (replay blob ≡ done r)
unfolding replay
replay_total blob = replay_loop_total (suc (length blob)) blob 0 [] (omega arith) (omega arith)

-- The first `n` bytes of a log of valid records, for any `n`, replay to exactly the records whose
-- frames are whole in them: a torn last record is dropped, and no error is reported.
pub replay-take :
    (n : ℕ) (rs : List WalRecord)
    → All IsValid rs
    → replay (take n (frames rs)) ≡ done (value (take (complete n rs) rs))
unfolding replay
replay-take n rs v =
    replay_loop-frames rs n (suc (length (take n (frames rs)))) [] [] v
      (omega (arith, complete-le n rs))
