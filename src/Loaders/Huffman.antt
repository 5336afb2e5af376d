-- ===== src/Loaders/Huffman.antt =====
-- The canonical Huffman tables of src/loaders/ooxml.cpp: `Huffman::build` and `BitReader::decode`.
-- `counts` holds the number of codes of each length from 0 to 15.
pub mod Canonical
pub mod Segments
pub mod Placing
pub mod Sorted
use rag_cpp.Common.{
  ℕ, zero, suc, ◌+◌, ◌-◌, ◌*◌, ◌%◌, ◌^◌, Bool, true, false, Option, none, some, List, [], ◌∷◌, ◌++◌,
  length, get_or, drop, ltb, leb, ◌==◌, if◌then◌else◌,
}
use rag_cpp.Loaders.Bits.{Read, ◌>>=◌, pure, fail, choose, bit}

pub record Huffman : Type 0 where
  pub counts : List ℕ
  pub symbols : List ℕ

unfoldable pub set_at : ℕ → ℕ → List ℕ → List ℕ
set_at i v [] = []
set_at zero v (x ∷ xs) = v ∷ xs
set_at (suc i) v (x ∷ xs) = x ∷ set_at i v xs

abbrev pub replicate : ℕ → ℕ → List ℕ
replicate zero v = []
replicate (suc n) v = v ∷ replicate n v

-- `a[i]++` on 16 bits
unfoldable pub bump : ℕ → List ℕ → List ℕ
bump i [] = []
bump zero (x ∷ xs) = ((x + 1) % 2 ^ 16) ∷ xs
bump (suc i) (x ∷ xs) = x ∷ bump i xs

unfoldable pub count_lengths : List ℕ → List ℕ → List ℕ
count_lengths [] counts = counts
count_lengths (l ∷ lengths) counts = count_lengths lengths (bump l counts)

-- The code space that is left at each length, which must not fall below zero.
unfoldable pub fits : ℕ → List ℕ → Bool
fits left [] = true
fits left (count ∷ counts) =
    let rest = fits (2 * left - count) counts in if ltb (2 * left) count then false else rest

-- `offs` from length 1 on.
unfoldable pub offsets : ℕ → List ℕ → List ℕ
offsets start [] = []
offsets start (count ∷ counts) = start ∷ offsets ((start + count) % 2 ^ 16) counts

unfoldable pub place : ℕ → List ℕ → List ℕ → List ℕ → List ℕ
place i [] offs symbols = symbols
place i (l ∷ lengths) offs symbols =
    place (i + 1) lengths (if l == 0 then offs else bump l offs)
      (if l == 0 then symbols else set_at (get_or offs l 0) (i % 2 ^ 16) symbols)

abbrev pub counts_of : List ℕ → List ℕ
counts_of lengths = set_at 0 0 (count_lengths lengths (replicate 16 0))

unfoldable pub build : List ℕ → Option Huffman
unfolding place offsets fits count_lengths set_at
build lengths =
    let counts = counts_of lengths in
    if fits 1 (drop 1 counts)
    then some (record {
      counts = counts;
      symbols = place 0 lengths (0 ∷ offsets 0 (drop 1 counts)) (replicate (length lengths) 0);
    })
    else none

abbrev pub symbol_at : List ℕ → ℕ → Read ℕ
symbol_at symbols i = if leb (length symbols) i then fail else pure (get_or symbols i 0)

-- One round for each length. `code |= b` sets a clear bit, and `code` is never below `first`.
unfoldable pub decode_from : List ℕ → List ℕ → ℕ → ℕ → ℕ → Read ℕ
decode_from [] symbols code first index = fail
decode_from (count ∷ counts) symbols code first index = bit >>= λ b.
    choose (ltb (code + b) (first + count)) (symbol_at symbols (index + (code + b) - first))
      (decode_from counts symbols (2 * (code + b)) (2 * (first + count)) (index + count))

unfoldable pub decode : Huffman → Read ℕ
unfolding decode_from
decode h = decode_from (drop 1 h.counts) h.symbols 0 0 0
