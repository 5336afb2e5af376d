-- ===== src/Loaders/Inflate/Steps.antt =====
-- The parts of `inflate_raw` before the symbols: the stored block and the tables of a block. They
-- stay within their arrays and never give a bit back.
use rag_cpp.Common.{
  ℕ, zero, suc, ◌+◌, ◌-◌, ◌*◌, ◌^◌, ◌≤◌, ◌<◌, ◌≡◌, ◌≢◌, not, ◌||◌, none, List, [], ◌∷◌, ◌++◌,
  length, get_elem?, take, drop, arith, inl, inr, Bool-cases, Option-cases, ltb, leb, ◌==◌, leb→le,
  min, length-append, length-take,
}
use rag_cpp.Loaders.Bits.{BitReader, ◌>>=◌, rd16}
use rag_cpp.Loaders.Bits.Ensures.{
  Ensures, >>=-Ensures, pure-Ensures, fail-Ensures, choose-Ensures, guard-Ensures, or_fail-Ensures,
  in_range-Ensures, get_elem?-lt, left, Left, LeftLess, bit-Ensures, bits-Ensures, weaken,
}
use rag_cpp.Loaders.Huffman.{Huffman, set_at, replicate, build, decode_from, decode, symbol_at}
use rag_cpp.Loaders.Huffman.Segments.{length-replicate}
use rag_cpp.Loaders.Inflate.{
  max_inflate, code_order, stored_block, read_clen, repeat_last, zeros, repeated, add_repeated,
  add_lengths, code_lengths, dynamic_tables,
}

abbrev pub Any : {A : Type 0} → A → Type 0
Any a = Unit {0}

symbol_at-Ensures :
    (n : ℕ) (symbols : List ℕ) (i : ℕ) (r : BitReader)
    → left r ≤ n
    → Ensures (Left n Any) (symbol_at symbols i r)
symbol_at-Ensures n symbols i r h = elim (Bool-cases (leb (length symbols) i)) [
  | inl e ↦ rw e fail-Ensures
  | inr e ↦ rw e (pure-Ensures (h, tt))
]

decode_from-Ensures :
    (counts symbols : List ℕ) (code first index : ℕ) (r : BitReader)
    → Ensures (LeftLess (left r) Any) (decode_from counts symbols code first index r)
unfolding decode_from
decode_from-Ensures [] symbols code first index r = fail-Ensures
decode_from-Ensures (count ∷ counts) symbols code first index r =
    >>=-Ensures (LeftLess (left r) (λ b. b < 2)) _ _ (bit-Ensures r) λ b s p.
      choose-Ensures (ltb (code + b) (first + count)) _ _ _
        (λ e.
          weaken _ _ _
            (symbol_at-Ensures (left s) symbols (index + (code + b) - first) s (omega arith))
            λ a t q. (omega (arith, p, q), tt))
        λ e.
          weaken _ _ _
            (decode_from-Ensures counts symbols (2 * (code + b)) (2 * (first + count))
              (index + count) s)
            λ a t q. (omega (arith, p, q), tt)

pub decode-Ensures : (h : Huffman) (r : BitReader) → Ensures (LeftLess (left r) Any) (decode h r)
unfolding decode
decode-Ensures h r = decode_from-Ensures (drop 1 h.counts) h.symbols 0 0 0 r

rd16-some : (d : List ℕ) (p : ℕ) → p + 4 ≤ length d → rd16 d p ≢ none
unfolding rd16
rd16-some d p h = elim (Option-cases (get_elem? d p)) [
  | inl e ↦ absurd (get_elem?-lt d p (omega (arith, h)) e)
  | inr (a, e) ↦ elim (Option-cases (get_elem? d (p + 1))) [
    | inl f ↦ absurd (get_elem?-lt d (p + 1) (omega (arith, h)) f)
    | inr (b, f) ↦ rw e (rw f (λ q. cc))
  ]
]

appended_le :
    (out xs : List ℕ) (len n m : ℕ)
    → length xs ≡ min len m
    → length out + len ≤ n
    → length (out ++ xs) ≤ n
appended_le out xs len n m e h = omega (arith, length-append out xs, e, h)

pub stored_block-Ensures :
    (out : List ℕ) (r : BitReader)
    → Ensures (Left (left r) (λ o. length o ≤ max_inflate)) (stored_block out r)
unfolding stored_block ◌>>=◌
stored_block-Ensures out r = guard-Ensures (leb (r.pos + 4) (length r.input)) _ _ λ e.
    in_range-Ensures (rd16 r.input r.pos) _ _ (rd16-some r.input r.pos (leb→le _ _ e)) λ len f.
      guard-Ensures (leb (r.pos + 4 + len) (length r.input)) _ _ λ g.
        guard-Ensures (leb (length out + len) max_inflate) _ _ λ h. pure-Ensures (
          omega arith,
          appended_le out (take len (drop (r.pos + 4) r.input)) len max_inflate _
              (length-take len _) (leb→le _ _ h),
        )

order-some : (i : ℕ) → i < 19 → get_elem? code_order i ≢ none
unfolding code_order
order-some i h = get_elem?-lt code_order i h

read_clen-Ensures :
    (n i : ℕ) (clen : List ℕ) (r : BitReader)
    → n + i ≤ 19
    → Ensures (Left (left r) Any) (read_clen n i clen r)
unfolding read_clen
read_clen-Ensures zero i clen r h = pure-Ensures (omega arith, tt)
read_clen-Ensures (suc n) i clen r h =
    >>=-Ensures (Left (left r) (λ v. v < 8)) _ _ (bits-Ensures 3 r) λ v s p.
      in_range-Ensures (get_elem? code_order i) _ _ (order-some i (omega (arith, h))) λ o e.
        weaken _ _ _ (read_clen-Ensures n (i + 1) (set_at o v clen) s (omega (arith, h)))
          λ a t q. (omega (arith, p, q), tt)

repeat_last-Ensures :
    (lens : List ℕ) (r : BitReader)
    → Ensures (Left (left r) (λ (x : ℕ × ℕ). 1 ≤ x.1)) (repeat_last lens r)
unfolding repeat_last
repeat_last-Ensures lens r = guard-Ensures (not (length lens == 0)) _ _ λ e.
    in_range-Ensures (get_elem? lens (length lens - 1)) _ _ (get_elem?-lt lens _ (ground arith))
      λ v f.
        >>=-Ensures (Left (left r) (λ x. x < 4)) _ _ (bits-Ensures 2 r)
          λ x s p. pure-Ensures (p.0, omega arith)

zeros-Ensures :
    (n least : ℕ) (r : BitReader)
    → 1 ≤ least
    → Ensures (Left (left r) (λ (x : ℕ × ℕ). 1 ≤ x.1)) (zeros n least r)
unfolding zeros
zeros-Ensures n least r h =
    >>=-Ensures (Left (left r) (λ x. x < 2 ^ n)) _ _ (bits-Ensures n r)
      λ x s p. pure-Ensures (p.0, omega (arith, h))

repeated-Ensures :
    (sym : ℕ) (lens : List ℕ) (r : BitReader)
    → Ensures (Left (left r) (λ (x : ℕ × ℕ). 1 ≤ x.1)) (repeated sym lens r)
unfolding repeated
repeated-Ensures sym lens r = elim (Bool-cases (sym == 16)) [
  | inl e ↦ rw e (repeat_last-Ensures lens r)
  | inr e ↦ elim (Bool-cases (sym == 17)) [
    | inl f ↦ rw e (rw f (zeros-Ensures 3 3 r (omega arith)))
    | inr f ↦ rw e (rw f (zeros-Ensures 7 11 r (omega arith)))
  ]
]

add_repeated-Ensures :
    (total : ℕ) (lens : List ℕ) (x : ℕ × ℕ) (r : BitReader)
    → 1 ≤ x.1
    → Ensures (Left (left r) (λ more. length lens < length more)) (add_repeated total lens x r)
unfolding add_repeated
add_repeated-Ensures total lens (v, n) r h = guard-Ensures (leb (length lens + n) total) _ _ λ e.
    pure-Ensures
      (omega arith, omega (arith, length-append lens (replicate n v), length-replicate n v, h))

add_lengths-Ensures :
    (total : ℕ) (lens : List ℕ) (sym : ℕ) (r : BitReader)
    → Ensures (Left (left r) (λ more. length lens < length more)) (add_lengths total lens sym r)
unfolding add_lengths
add_lengths-Ensures total lens sym r = elim (Bool-cases (ltb sym 16)) [
  | inl e ↦ rw e (pure-Ensures (omega arith, omega (arith, length-append lens (sym ∷ []))))
  | inr e ↦ rw e (
      >>=-Ensures (Left (left r) (λ (x : ℕ × ℕ). 1 ≤ x.1)) _ _ (repeated-Ensures sym lens r)
        λ x s p.
          weaken _ _ _ (add_repeated-Ensures total lens x s p.1)
            λ a t q. (omega (arith, p, q), q.1))
]

code_lengths-Ensures :
    (n total : ℕ) (clh : Huffman) (lens : List ℕ) (r : BitReader)
    → total ≤ n + length lens
    → Ensures (Left (left r) Any) (code_lengths n total clh lens r)
unfolding code_lengths
code_lengths-Ensures zero total clh lens r h =
    choose-Ensures (leb total (length lens)) _ _ _ (λ e. pure-Ensures (omega arith, tt))
      λ e. absurd (ground (arith, h, e))
code_lengths-Ensures (suc n) total clh lens r h =
    choose-Ensures (leb total (length lens)) _ _ _ (λ e. pure-Ensures (omega arith, tt))
      λ e. >>=-Ensures (LeftLess (left r) Any) _ _ (decode-Ensures clh r) λ sym s p.
        >>=-Ensures (Left (left s) (λ more. length lens < length more)) _ _
          (add_lengths-Ensures total lens sym s)
          λ more t q.
            weaken _ _ _ (code_lengths-Ensures n total clh more t (omega (arith, h, q)))
              λ a u z. (omega (arith, p, q, z), tt)

pub dynamic_tables-Ensures : (r : BitReader) → Ensures (Left (left r) Any) (dynamic_tables r)
unfolding dynamic_tables
dynamic_tables-Ensures r =
    >>=-Ensures (Left (left r) (λ x. x < 32)) _ _ (bits-Ensures 5 r) λ hlit r1 p1.
      >>=-Ensures (Left (left r1) (λ x. x < 32)) _ _ (bits-Ensures 5 r1) λ hdist r2 p2.
        >>=-Ensures (Left (left r2) (λ x. x < 16)) _ _ (bits-Ensures 4 r2) λ hclen r3 p3.
          guard-Ensures (not (ltb 286 (hlit + 257) || ltb 30 (hdist + 1))) _ _ λ g.
            >>=-Ensures (Left (left r3) Any) _ _
              (read_clen-Ensures (hclen + 4) 0 (replicate 19 0) r3 (omega (arith, p3)))
              λ clen r4 p4. or_fail-Ensures (build clen) _ _ λ clh b.
                >>=-Ensures (Left (left r4) Any) _ _
                  (code_lengths-Ensures (hlit + 257 + (hdist + 1)) (hlit + 257 + (hdist + 1)) clh []
                    r4 (omega arith))
                  λ lens r5 p5. or_fail-Ensures (build (take (hlit + 257) lens)) _ _ λ lit bl.
                    or_fail-Ensures (build (drop (hlit + 257) lens)) _ _
                      λ dist bd. pure-Ensures (omega (arith, p1, p2, p3, p4, p5), tt)
