-- ===== src/Loaders/Inflate/Total.antt =====
-- `inflate_raw` ends on every input, within its arrays and within `kMaxInflate`.
use rag_cpp.Common.{
  ℕ, zero, suc, ◌+◌, ◌-◌, ◌*◌, ◌≤◌, ◌<◌, ◌≡◌, ◌≢◌, refl, Option, none, some, List, [], ◌∷◌, ◌++◌,
  length, get_elem?, arith, inl, inr, Bool-cases, Option-cases, ltb, leb, ◌==◌, leb→le, ltb→lt, All,
  subst, length-append,
}
use rag_cpp.Core.{Errc, Result}
use rag_cpp.Store.Format.Ensures.{some_inj}
use rag_cpp.Loaders.Bits.{BitReader, Outcome, got, bad, stray, bits, in_range, bit_reader}
use rag_cpp.Loaders.Bits.Ensures.{
  Ensures, >>=-Ensures, pure-Ensures, fail-Ensures, choose-Ensures, guard-Ensures, in_range-Ensures,
  get_elem?-lt, left, Left, LeftLess, bit-Ensures, bits-Ensures, weaken,
}
use rag_cpp.Loaders.Huffman.{Huffman}
use rag_cpp.Loaders.Inflate.{
  max_inflate, len_base, len_extra, dist_base, dist_extra, copy, copy_match, push_literal,
  symbols_loop, block, blocks_loop, inflate_raw, to_result, fixed_lit, fixed_dist,
}
use rag_cpp.Loaders.Inflate.Steps.{
  Any, decode-Ensures, stored_block-Ensures, dynamic_tables-Ensures,
}

-- The copied bytes are pushed one by one, so that the source may reach into them.
copy-some :
    (n i : ℕ) (out : List ℕ)
    → i < length out
    → (more : List ℕ) × (copy n i out ≡ some more) × (length more ≡ length out + n)
unfolding copy
copy-some zero i out h = (out, refl, omega arith)
copy-some (suc n) i out h = elim (Option-cases (get_elem? out i)) [
  | inl e ↦ absurd (get_elem?-lt out i h e)
  | inr (c, e) ↦
      let (more, q, l) =
        copy-some n (i + 1) (out ++ c ∷ []) (omega (arith, h, length-append out (c ∷ []))) in
      (more, rw e q, omega (arith, l, length-append out (c ∷ [])))
]

abbrev Bounded : List ℕ → Type 0
Bounded out = length out ≤ max_inflate

len_extra-some : (i : ℕ) → i < 29 → get_elem? len_extra i ≢ none
unfolding len_extra
len_extra-some i h = get_elem?-lt len_extra i h

len_base-some : (i : ℕ) → i < 29 → get_elem? len_base i ≢ none
unfolding len_base
len_base-some i h = get_elem?-lt len_base i h

dist_extra-some : (i : ℕ) → i < 30 → get_elem? dist_extra i ≢ none
unfolding dist_extra
dist_extra-some i h = get_elem?-lt dist_extra i h

dist_base-some : (i : ℕ) → i < 30 → get_elem? dist_base i ≢ none
unfolding dist_base
dist_base-some i h = get_elem?-lt dist_base i h

All-get : (P : ℕ → Type 0) (xs : List ℕ) (i : ℕ) {x : ℕ} → All P xs → get_elem? xs i ≡ some x → P x
All-get P [] i h e = absurd (cc)
All-get P (y ∷ xs) zero h e = subst P (some_inj e) h.0
All-get P (y ∷ xs) (suc i) h e = All-get P xs i h.1 e

dist_base-positive : (i : ℕ) {x : ℕ} → get_elem? dist_base i ≡ some x → 1 ≤ x
unfolding dist_base
dist_base-positive i e = All-get (λ x. 1 ≤ x) dist_base i (omega arith) e

some_bits : (n : ℕ) (r : BitReader) → Ensures (Left (left r) Any) (bits n r)
some_bits n r = weaken _ _ _ (bits-Ensures n r) λ a t q. (q.0, tt)

copied :
    (n distance : ℕ) (out : List ℕ) (r : BitReader)
    → 1 ≤ distance
    → distance ≤ length out
    → length out + n ≤ max_inflate
    → Ensures (Left (left r) Bounded) (in_range (copy n (length out - distance) out) r)
copied n distance out r h k b =
    let (more, e, l) = copy-some n (length out - distance) out (omega (arith, h, k)) in
    rw e (pure-Ensures (omega arith, omega (arith, l, b)))

copy_match-Ensures :
    (dist : Huffman) (out : List ℕ) (sym : ℕ) (r : BitReader)
    → Ensures (Left (left r) Bounded) (copy_match dist out sym r)
unfolding copy_match
copy_match-Ensures dist out sym r = guard-Ensures (ltb (sym - 257) 29) _ _ λ e.
    in_range-Ensures (get_elem? len_extra (sym - 257)) _ _ (len_extra-some _ (ltb→lt _ _ e))
      λ lx e1. >>=-Ensures (Left (left r) Any) _ _ (some_bits lx r) λ le s p.
        in_range-Ensures (get_elem? len_base (sym - 257)) _ _ (len_base-some _ (ltb→lt _ _ e))
          λ lb e2. >>=-Ensures (LeftLess (left s) Any) _ _ (decode-Ensures dist s) λ dsym t q.
            guard-Ensures (ltb dsym 30) _ _ λ f.
              in_range-Ensures (get_elem? dist_extra dsym) _ _ (dist_extra-some _ (ltb→lt _ _ f))
                λ dx e3. >>=-Ensures (Left (left t) Any) _ _ (some_bits dx t) λ de u z.
                  in_range-Ensures (get_elem? dist_base dsym) _ _ (dist_base-some _ (ltb→lt _ _ f))
                    λ db e4. guard-Ensures (leb (db + de) (length out)) _ _ λ g.
                      guard-Ensures (leb (length out + (lb + le)) max_inflate) _ _ λ h.
                        weaken _ _ _
                          (copied (lb + le) (db + de) out u
                            (omega (arith, dist_base-positive dsym e4)) (leb→le _ _ g)
                            (leb→le _ _ h))
                          λ a v w. (omega (arith, p, q, z, w), w.1)

push_literal-Ensures :
    (out : List ℕ) (sym : ℕ) (r : BitReader)
    → Ensures (Left (left r) Bounded) (push_literal out sym r)
push_literal-Ensures out sym r =
    guard-Ensures (ltb (length out) max_inflate) _ _
      λ e. pure-Ensures (omega arith, omega (arith, length-append out (sym ∷ []), ltb→lt _ _ e))

symbols_loop-Ensures :
    (n : ℕ) (lit dist : Huffman) (out : List ℕ) (r : BitReader)
    → left r < n
    → Bounded out
    → Ensures (Left (left r) Bounded) (symbols_loop n lit dist out r)
unfolding symbols_loop
symbols_loop-Ensures zero lit dist out r h b = absurd (omega (arith, h))
symbols_loop-Ensures (suc n) lit dist out r h b =
    >>=-Ensures (LeftLess (left r) Any) _ _ (decode-Ensures lit r) λ sym s p.
      choose-Ensures (sym == 256) _ _ _ (λ e. pure-Ensures (omega (arith, p), b))
        λ e.
          >>=-Ensures (Left (left s) Bounded) _ _
            (choose-Ensures (ltb sym 256) _ _ _ (λ f. push_literal-Ensures out sym s)
              λ f. copy_match-Ensures dist out sym s)
            λ more t q.
              weaken _ _ _ (symbols_loop-Ensures n lit dist more t (omega (arith, h, p, q)) q.1)
                λ a u z. (omega (arith, p, q, z), z.1)

block-Ensures :
    (n type : ℕ) (out : List ℕ) (r : BitReader)
    → left r < n
    → Bounded out
    → Ensures (Left (left r) Bounded) (block n type out r)
unfolding block
block-Ensures n type out r h b = elim (Bool-cases (type == 0)) [
  | inl e ↦ rw e (stored_block-Ensures out r)
  | inr e ↦ elim (Bool-cases (type == 1)) [
    | inl f ↦ rw e (rw f (symbols_loop-Ensures n fixed_lit fixed_dist out r h b))
    | inr f ↦ elim (Bool-cases (type == 2)) [
      | inl g ↦ rw e (
          rw f (
            rw g (
              >>=-Ensures (Left (left r) Any) _ _ (dynamic_tables-Ensures r) λ tables s p.
                weaken _ _ _
                  (symbols_loop-Ensures n tables.0 tables.1 out s (omega (arith, h, p)) b)
                  λ a t q. (omega (arith, p, q), q.1))))
      | inr g ↦ rw e (rw f (rw g fail-Ensures))
    ]
  ]
]

blocks_loop-Ensures :
    (n fuel : ℕ) (out : List ℕ) (r : BitReader)
    → left r < n
    → left r < fuel
    → Bounded out
    → Ensures (λ o s. Bounded o) (blocks_loop n fuel out r)
unfolding blocks_loop
blocks_loop-Ensures zero fuel out r h k b = absurd (omega (arith, h))
blocks_loop-Ensures (suc n) fuel out r h k b =
    >>=-Ensures (LeftLess (left r) (λ b. b < 2)) _ _ (bit-Ensures r) λ final_block s p.
      >>=-Ensures (Left (left s) (λ x. x < 4)) _ _ (bits-Ensures 2 s) λ type t q.
        >>=-Ensures (Left (left t) Bounded) _ _
          (block-Ensures fuel type out t (omega (arith, k, p, q)) b)
          λ more u z.
            choose-Ensures (final_block == 0) _ _ _
              (λ e.
                blocks_loop-Ensures n fuel more u (omega (arith, h, p, q, z))
                  (omega (arith, k, p, q, z)) z.1)
              λ e. pure-Ensures z.1

-- The result is there, and is `invalid_argument` or bytes of which there are not too many.
abbrev pub IsBounded : Option (Result (List ℕ)) → Type 0
IsBounded none = ⊥
IsBounded (some (Result.value out)) = length out ≤ max_inflate
IsBounded (some (Result.fail e)) = e ≡ Errc.invalid_argument

to_result-IsBounded :
    (o : Outcome (List ℕ)) → Ensures (λ o s. Bounded o) o → IsBounded (to_result o)
to_result-IsBounded (got out s) h = h.holds
to_result-IsBounded bad h = refl
to_result-IsBounded stray h = h.holds

pub inflate_raw-IsBounded : (input : List ℕ) → IsBounded (inflate_raw input)
unfolding inflate_raw
inflate_raw-IsBounded input = to_result-IsBounded _ (
    blocks_loop-Ensures (suc (8 * length input)) (suc (8 * length input)) [] (bit_reader input)
      (omega arith) (omega arith) (omega arith))
