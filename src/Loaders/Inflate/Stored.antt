-- ===== src/Loaders/Inflate/Stored.antt =====
-- The stored blocks of RFC 1951, section 3.2.4, as a compressor writes them, read back.
use rag_cpp.Common.{
  ℕ, zero, suc, ◌+◌, ◌-◌, ◌*◌, ◌/◌, ◌%◌, ◌≤◌, ◌<◌, ◌≡◌, refl, ap, sym, ◌∙◌, some, List, [], ◌∷◌,
  ◌++◌, All, length, get_elem?, get_elem?-append, drop, arith, ◌==◌, le→leb, length-append,
  append_assoc, drop-append_add, take-append_length,
}
use rag_cpp.Core.{Result}
use rag_cpp.Loaders.Bits.{BitReader, got, ◌>>=◌, bit, bits, bits_from, rd16, choose, pure}
use rag_cpp.Loaders.Inflate.{max_inflate, stored_block, block, blocks_loop, inflate_raw, to_result}

-- A header byte, the length and its complement, lowest byte first, and the bytes.
unfoldable pub stored : ℕ → List ℕ → List ℕ
stored final_block xs =
    final_block
    ∷ (length xs % 256)
    ∷ (length xs / 256)
    ∷ ((65535 - length xs) % 256)
    ∷ ((65535 - length xs) / 256)
    ∷ xs

unfoldable pub stored_stream : List (List ℕ) → List ℕ → List ℕ
stored_stream [] last = stored 1 last
stored_stream (xs ∷ front) last = stored 0 xs ++ stored_stream front last

abbrev pub joined : List (List ℕ) → List ℕ → List ℕ
joined [] last = last
joined (xs ∷ front) last = xs ++ joined front last

abbrev at_byte : List ℕ → ℕ → ℕ → BitReader
at_byte input pos cur = record { input = input; pos = pos; cur = cur; nbits = 0 }

header :
    (b pos cur : ℕ) (input : List ℕ)
    → b < 2
    → get_elem? input pos ≡ some b
    → bit (at_byte input pos cur)
      ≡ got b (record { input = input; pos = pos + 1; cur = 0; nbits = 7 })
unfolding bit
header zero pos cur input h e = rw e refl
header (suc zero) pos cur input h e = rw e refl
header (suc (suc b)) pos cur input h e = absurd (omega (arith, h))

no_type :
    (input : List ℕ) (pos : ℕ)
    → bits 2 (record { input = input; pos = pos; cur = 0; nbits = 7 })
      ≡ got 0 (record { input = input; pos = pos; cur = 0; nbits = 5 })
unfolding bits bits_from bit ◌>>=◌
no_type input pos = refl

two_bytes : (n : ℕ) → n % 256 + 256 * (n / 256) ≡ n
two_bytes n = omega arith

module _ (before xs rest out : List ℕ) (b : ℕ) (short : length xs < 65536)
    (fits : length out + length xs ≤ max_inflate) where
  abbrev whole : List ℕ
  whole = before ++ (stored b xs ++ rest)

  abbrev after : List ℕ
  after = before ++ stored b xs

  whole-drop : drop (length before + 1 + 4) whole ≡ xs ++ rest
  unfolding stored
  whole-drop =
      let at : length before + 1 + 4 ≡ length before + 5 = omega arith in
      ap (λ (n : ℕ). drop n whole) at ∙ drop-append_add before (stored b xs ++ rest) 5

  whole-length : length whole ≡ length before + (5 + (length xs + length rest))
  unfolding stored
  whole-length = omega (arith, length-append before (stored b xs ++ rest), length-append xs rest)

  rd16-whole : rd16 whole (length before + 1) ≡ some (length xs)
  unfolding rd16 stored
  rd16-whole =
      rw (get_elem?-append before (stored b xs ++ rest) 1 (length before + 1) (omega arith)) (
        rw (get_elem?-append before (stored b xs ++ rest) 2 (length before + 1 + 1) (omega arith))
          (ap (λ (n : ℕ). some n) (two_bytes (length xs))))

  after-length : length before + 1 + 4 + length xs ≡ length after
  unfolding stored
  after-length = omega (arith, length-append before (stored b xs))

  stored_block-stored :
      (cur n : ℕ)
      → stored_block out (record { input = whole; pos = length before + 1; cur = cur; nbits = n })
        ≡ got (out ++ xs) (at_byte whole (length after) cur)
  unfolding stored_block ◌>>=◌
  stored_block-stored cur n =
      rw (le→leb (length before + 1 + 4) (length whole) (omega (arith, whole-length))) (
        rw rd16-whole (
          rw
            (le→leb (length before + 1 + 4 + length xs) (length whole)
              (omega (arith, whole-length)))
            (rw (le→leb (length out + length xs) max_inflate fits)
              (rw whole-drop (rw (take-append_length xs rest) (rw after-length refl))))))

  block-stored :
      (fuel cur n : ℕ)
      → block fuel 0 out (record { input = whole; pos = length before + 1; cur = cur; nbits = n })
        ≡ got (out ++ xs) (at_byte whole (length after) cur)
  unfolding block
  block-stored fuel cur n = stored_block-stored cur n

  blocks_loop-stored :
      (n fuel cur : ℕ)
      → b < 2
      → blocks_loop (suc n) fuel out (at_byte whole (length before) cur)
        ≡ choose
            (b == 0)
            (blocks_loop n fuel (out ++ xs))
            (pure (out ++ xs))
            (at_byte whole (length after) 0)
  unfolding blocks_loop ◌>>=◌ stored
  blocks_loop-stored n fuel cur h =
      let first_byte : get_elem? whole (length before) ≡ some b =
        get_elem?-append before (stored b xs ++ rest) 0 (length before) (omega arith) in
      rw (header b (length before) cur whole h first_byte)
        (rw (no_type whole (length before + 1)) (rw (block-stored fuel 0 5) refl))

-- The lengths of the blocks fit into their fields.
abbrev pub IsShort : List ℕ → Type 0
IsShort xs = length xs < 65536

length-joined : (front : List (List ℕ)) (last : List ℕ) → length last ≤ length (joined front last)
length-joined [] last = omega arith
length-joined (xs ∷ front) last =
    omega (arith, length-append xs (joined front last), length-joined front last)

blocks_loop-stream :
    (front : List (List ℕ)) (last before rest out : List ℕ) (n fuel cur : ℕ)
    → All IsShort front
    → IsShort last
    → length out + length (joined front last) ≤ max_inflate
    → length front < n
    → to_result (
        blocks_loop n fuel out
          (at_byte (before ++ (stored_stream front last ++ rest)) (length before) cur))
      ≡ some (Result.value (out ++ joined front last))
unfolding stored_stream
blocks_loop-stream front last before rest out zero fuel cur hf hl b k = absurd (omega (arith, k))
blocks_loop-stream [] last before rest out (suc n) fuel cur hf hl b k =
    ap to_result (blocks_loop-stored before last rest out 1 hl b n fuel cur (omega arith))
blocks_loop-stream (xs ∷ front) last before rest out (suc n) fuel cur hf hl b k =
    let fits : length out + length xs ≤ max_inflate =
      omega (arith, b, length-append xs (joined front last)) in
    let fits_after : length (out ++ xs) + length (joined front last) ≤ max_inflate =
      omega (arith, b, length-append xs (joined front last), length-append out xs) in
    let here : blocks_loop (suc n) fuel out (
          at_byte (before ++ (stored 0 xs ++ (stored_stream front last ++ rest))) (length before)
            cur)
        ≡ blocks_loop n fuel (out ++ xs) (
            at_byte (before ++ (stored 0 xs ++ (stored_stream front last ++ rest)))
              (length (before ++ stored 0 xs)) 0) =
      blocks_loop-stored before xs (stored_stream front last ++ rest) out 0 hf.0 fits n fuel cur
        (omega arith) in
    let later =
      blocks_loop-stream front last (before ++ stored 0 xs) rest (out ++ xs) n fuel 0 hf.1 hl
        fits_after (omega (arith, k)) in
    rw (append_assoc (stored 0 xs) (stored_stream front last) rest) (
      rw here (
        rw (sym (append_assoc before (stored 0 xs) (stored_stream front last ++ rest))) (
          later
          ∙ ap (λ (o : List ℕ). some (Result.value o)) (append_assoc out xs (joined front last)))))

length-stored_stream :
    (front : List (List ℕ)) (last : List ℕ) → length front < length (stored_stream front last)
unfolding stored_stream stored
length-stored_stream [] last = omega arith
length-stored_stream (xs ∷ front) last =
    omega (
      arith,
      length-append (stored 0 xs) (stored_stream front last),
      length-stored_stream front last,
    )

-- What a compressor stores without compression, in any number of blocks of at most 65535 bytes, comes
-- back where it has at most `kMaxInflate` bytes in all; what follows the last block does not matter.
pub inflate_raw-stored_stream :
    (front : List (List ℕ)) (last rest : List ℕ)
    → All IsShort front
    → IsShort last
    → length (joined front last) ≤ max_inflate
    → inflate_raw (stored_stream front last ++ rest) ≡ some (Result.value (joined front last))
unfolding inflate_raw
inflate_raw-stored_stream front last rest hf hl b =
    blocks_loop-stream front last [] rest [] (suc (8 * length (stored_stream front last ++ rest)))
      (suc (8 * length (stored_stream front last ++ rest))) 0 hf hl (omega (arith, b))
      (omega
        (arith, length-append (stored_stream front last) rest, length-stored_stream front last))
