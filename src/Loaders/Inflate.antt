-- ===== src/Loaders/Inflate.antt =====
-- `inflate_raw` of src/loaders/ooxml.cpp. Its argument `expected` only reserves memory and is left
-- out, as are the messages beside `invalid_argument`.
mod Steps
pub mod Total
pub mod Stored
use rag_cpp.Common.{
  ℕ, zero, suc, ◌+◌, ◌-◌, ◌*◌, ◌/◌, ◌%◌, ◌≤◌, Bool, true, false, not, ◌||◌, Option, none, some,
  List, [], ◌∷◌, ◌++◌, length, get_elem?, take, drop, ltb, leb, ◌==◌, if◌then◌else◌,
}
use rag_cpp.Core.{Errc, Result}
use rag_cpp.Loaders.Bits.{
  BitReader, Read, guard, or_fail, Outcome, got, bad, stray, ◌>>=◌, ◌>>◌, pure, fail, lost, choose,
  in_range, bit, bits, align, seek, bit_reader, rd16,
}
use rag_cpp.Loaders.Huffman.{Huffman, set_at, replicate, build, decode}

unfoldable pub max_inflate : ℕ
max_inflate = 256 * 1024 * 1024

unfoldable pub len_base : List ℕ
len_base =
    3 ∷ 4 ∷ 5 ∷ 6 ∷ 7 ∷ 8 ∷ 9 ∷ 10 ∷ 11 ∷ 13 ∷ 15 ∷ 17 ∷ 19 ∷ 23 ∷ 27 ∷ 31 ∷ 35 ∷ 43 ∷ 51 ∷ 59 ∷ 67
    ∷ 83 ∷ 99 ∷ 115 ∷ 131 ∷ 163 ∷ 195 ∷ 227 ∷ 258 ∷ []

unfoldable pub len_extra : List ℕ
len_extra =
    0 ∷ 0 ∷ 0 ∷ 0 ∷ 0 ∷ 0 ∷ 0 ∷ 0 ∷ 1 ∷ 1 ∷ 1 ∷ 1 ∷ 2 ∷ 2 ∷ 2 ∷ 2 ∷ 3 ∷ 3 ∷ 3 ∷ 3 ∷ 4 ∷ 4 ∷ 4 ∷ 4
    ∷ 5 ∷ 5 ∷ 5 ∷ 5 ∷ 0 ∷ []

unfoldable pub dist_base : List ℕ
dist_base =
    1 ∷ 2 ∷ 3 ∷ 4 ∷ 5 ∷ 7 ∷ 9 ∷ 13 ∷ 17 ∷ 25 ∷ 33 ∷ 49 ∷ 65 ∷ 97 ∷ 129 ∷ 193 ∷ 257 ∷ 385 ∷ 513 ∷ 769
    ∷ 1025 ∷ 1537 ∷ 2049 ∷ 3073 ∷ 4097 ∷ 6145 ∷ 8193 ∷ 12289 ∷ 16385 ∷ 24577 ∷ []

unfoldable pub dist_extra : List ℕ
dist_extra =
    0 ∷ 0 ∷ 0 ∷ 0 ∷ 1 ∷ 1 ∷ 2 ∷ 2 ∷ 3 ∷ 3 ∷ 4 ∷ 4 ∷ 5 ∷ 5 ∷ 6 ∷ 6 ∷ 7 ∷ 7 ∷ 8 ∷ 8 ∷ 9 ∷ 9 ∷ 10 ∷ 10
    ∷ 11 ∷ 11 ∷ 12 ∷ 12 ∷ 13 ∷ 13 ∷ []

unfoldable pub code_order : List ℕ
code_order = 16 ∷ 17 ∷ 18 ∷ 0 ∷ 8 ∷ 7 ∷ 9 ∷ 6 ∷ 10 ∷ 5 ∷ 11 ∷ 4 ∷ 12 ∷ 3 ∷ 13 ∷ 2 ∷ 14 ∷ 1 ∷ 15 ∷ []

-- The lengths of the fixed tables fit, so that `build` succeeds.
abbrev pub or_empty : Option Huffman → Huffman
or_empty none = record { counts = replicate 16 0; symbols = [] }
or_empty (some h) = h

unfoldable pub fixed_lit : Huffman
fixed_lit =
    or_empty (build (replicate 144 8 ++ (replicate 112 9 ++ (replicate 24 7 ++ replicate 8 8))))

unfoldable pub fixed_dist : Huffman
fixed_dist = or_empty (build (replicate 30 5))

abbrev pub input_of : Read (List ℕ)
input_of r = got r.input r

abbrev pub pos_of : Read ℕ
pos_of r = got r.pos r

unfoldable pub stored_block : List ℕ → Read (List ℕ)
stored_block out = do
  align
  p ← pos_of
  input ← input_of
  guard (leb (p + 4) (length input))
  len ← in_range (rd16 input p)
  guard (leb (p + 4 + len) (length input))
  guard (leb (length out + len) max_inflate)
  seek (p + 4 + len)
  pure (out ++ take len (drop (p + 4) input))

unfoldable pub read_clen : ℕ → ℕ → List ℕ → Read (List ℕ)
read_clen zero i clen = pure clen
read_clen (suc n) i clen = do
  v ← bits 3
  o ← in_range (get_elem? code_order i)
  read_clen n (i + 1) (set_at o v clen)

-- The value to repeat, and how often.
unfoldable pub repeat_last : List ℕ → Read (ℕ × ℕ)
repeat_last lens = do
  guard (not (length lens == 0))
  val ← in_range (get_elem? lens (length lens - 1))
  e ← bits 2
  pure (val, 3 + e)

unfoldable pub zeros : ℕ → ℕ → Read (ℕ × ℕ)
zeros n least = do e ← bits n; pure (0, least + e)

unfoldable pub repeated : ℕ → List ℕ → Read (ℕ × ℕ)
repeated sym lens =
    if sym == 16 then repeat_last lens else if sym == 17 then zeros 3 3 else zeros 7 11

unfoldable pub add_repeated : ℕ → List ℕ → ℕ × ℕ → Read (List ℕ)
add_repeated total lens (val, rep) = do
  guard (leb (length lens + rep) total)
  pure (lens ++ replicate rep val)

unfoldable pub add_lengths : ℕ → List ℕ → ℕ → Read (List ℕ)
unfolding repeated
add_lengths total lens sym =
    if ltb sym 16 then pure (lens ++ sym ∷ []) else repeated sym lens >>= add_repeated total lens

-- `lens` is the part of the vector below `i`; what is above is not read before it is written. The
-- fuel is the size of the vector, since each round writes an entry.
unfoldable pub code_lengths : ℕ → ℕ → Huffman → List ℕ → Read (List ℕ)
code_lengths zero total clh lens = choose (leb total (length lens)) (pure lens) lost
code_lengths (suc n) total clh lens =
    choose (leb total (length lens)) (pure lens)
      (do sym ← decode clh; more ← add_lengths total lens sym; code_lengths n total clh more)

unfoldable pub dynamic_tables : Read (Huffman × Huffman)
unfolding read_clen code_lengths
dynamic_tables = do
  hlit ← bits 5
  hdist ← bits 5
  hclen ← bits 4
  guard (not (ltb 286 (hlit + 257) || ltb 30 (hdist + 1)))
  clen ← read_clen (hclen + 4) 0 (replicate 19 0)
  clh ← or_fail (build clen)
  lens ← code_lengths (hlit + 257 + (hdist + 1)) (hlit + 257 + (hdist + 1)) clh []
  lit ← or_fail (build (take (hlit + 257) lens))
  dist ← or_fail (build (drop (hlit + 257) lens))
  pure (lit, dist)

-- `for (k = 0; k < length; ++k) out.push_back(out[from + k])`, where `none` is outside of `out`.
abbrev pub push_byte : Option ℕ → (ℕ → Option (List ℕ)) → Option (List ℕ)
push_byte none go = none
push_byte (some c) go = go c

unfoldable pub copy : ℕ → ℕ → List ℕ → Option (List ℕ)
copy zero from out = some out
copy (suc n) from out = push_byte (get_elem? out from) λ c. copy n (from + 1) (out ++ c ∷ [])

unfoldable pub copy_match : Huffman → List ℕ → ℕ → Read (List ℕ)
unfolding copy
copy_match dist out sym = do
  guard (ltb (sym - 257) 29)
  lx ← in_range (get_elem? len_extra (sym - 257))
  le ← bits lx
  lb ← in_range (get_elem? len_base (sym - 257))
  dsym ← decode dist
  guard (ltb dsym 30)
  dx ← in_range (get_elem? dist_extra dsym)
  de ← bits dx
  db ← in_range (get_elem? dist_base dsym)
  guard (leb (db + de) (length out))
  guard (leb (length out + (lb + le)) max_inflate)
  in_range (copy (lb + le) (length out - (db + de)) out)

abbrev pub push_literal : List ℕ → ℕ → Read (List ℕ)
push_literal out sym = do guard (ltb (length out) max_inflate); pure (out ++ sym ∷ [])

-- The symbols of a block, until 256. Each takes a bit.
unfoldable pub symbols_loop : ℕ → Huffman → Huffman → List ℕ → Read (List ℕ)
symbols_loop zero lit dist out = lost
symbols_loop (suc n) lit dist out = do
  sym ← decode lit
  choose (sym == 256) (pure out) (do
    more ← choose (ltb sym 256) (push_literal out sym) (copy_match dist out sym)
    symbols_loop n lit dist more)

abbrev pub with_tables : ℕ → List ℕ → Huffman × Huffman → Read (List ℕ)
with_tables fuel out (lit, dist) = symbols_loop fuel lit dist out

unfoldable pub block : ℕ → ℕ → List ℕ → Read (List ℕ)
unfolding symbols_loop dynamic_tables
block fuel type out =
    if type == 0
    then stored_block out
    else if type == 1
    then symbols_loop fuel fixed_lit fixed_dist out
    else if type == 2
    then dynamic_tables >>= with_tables fuel out
    else fail

unfoldable pub blocks_loop : ℕ → ℕ → List ℕ → Read (List ℕ)
blocks_loop zero fuel out = lost
blocks_loop (suc n) fuel out = do
  final_block ← bit
  type ← bits 2
  more ← block fuel type out
  choose (final_block == 0) (blocks_loop n fuel more) (pure more)

abbrev pub to_result : Outcome (List ℕ) → Option (Result (List ℕ))
to_result (got out r) = some (Result.value out)
to_result bad = some (Result.fail Errc.invalid_argument)
to_result stray = none

-- A round of each loop takes a bit, so that the number of bits, and one, is fuel enough.
unfoldable pub inflate_raw : List ℕ → Option (Result (List ℕ))
unfolding blocks_loop
inflate_raw input =
    to_result (blocks_loop (suc (8 * length input)) (suc (8 * length input)) [] (bit_reader input))
