-- ===== src/Loaders/Bits/Stream.antt =====
-- The bits that a `BitReader` has before it, lowest bit of a byte first.
use rag_cpp.Common.{
  ℕ, zero, suc, ◌+◌, ◌/◌, ◌%◌, ◌≡◌, refl, ap, sym, ◌∙◌, none, some, List, [], ◌∷◌, ◌++◌, get_elem?,
  drop, arith, inl, inr, Option-cases,
}
use rag_cpp.Store.Format.Ensures.{some_inj}
use rag_cpp.Loaders.Bits.{BitReader, got, bit}

unfoldable pub low_bits : ℕ → ℕ → List ℕ
low_bits zero c = []
low_bits (suc n) c = (c % 2) ∷ low_bits n (c / 2)

unfoldable pub byte_bits : List ℕ → List ℕ
byte_bits [] = []
byte_bits (b ∷ bs) = low_bits 8 b ++ byte_bits bs

unfoldable pub stream : BitReader → List ℕ
unfolding low_bits byte_bits
stream r = low_bits r.nbits r.cur ++ byte_bits (drop r.pos r.input)

drop-get : (xs : List ℕ) (i : ℕ) (x : ℕ) → get_elem? xs i ≡ some x → drop i xs ≡ x ∷ drop (suc i) xs
drop-get [] i x e = absurd (cc)
drop-get (y ∷ xs) zero x e = ap (λ z. z ∷ xs) (some_inj e)
drop-get (y ∷ xs) (suc i) x e = drop-get xs i x e

drop-none : (xs : List ℕ) (i : ℕ) → get_elem? xs i ≡ none → drop i xs ≡ []
drop-none [] zero e = refl
drop-none [] (suc i) e = refl
drop-none (y ∷ xs) zero e = absurd (cc)
drop-none (y ∷ xs) (suc i) e = drop-none xs i e

-- A reader after another, before the bits that are given.
abbrev pub Then : BitReader → List ℕ → BitReader → Type 0
Then r bs s = (s.input ≡ r.input) × (stream s ≡ bs)

tail_eq : {a b : ℕ} {xs bs : List ℕ} → a ∷ xs ≡ b ∷ bs → (a ≡ b) × (xs ≡ bs)
tail_eq e = (cc, cc)

no_bits : {b : ℕ} {bs : List ℕ} → b ∷ bs ≡ [] → ⊥
no_bits e = cc

in_byte :
    (input : List ℕ) (pos cur n : ℕ)
    → bit (record { input = input; pos = pos; cur = cur; nbits = suc n })
      ≡ got (cur % 2) (record { input = input; pos = pos; cur = cur / 2; nbits = n })
unfolding bit
in_byte input pos cur n = ground arith

bit_at :
    (input : List ℕ) (pos cur nbits b : ℕ) (bs : List ℕ)
    → low_bits nbits cur ++ byte_bits (drop pos input) ≡ b ∷ bs
    → (s : BitReader) × (bit (record { input = input; pos = pos; cur = cur; nbits = nbits })
        ≡ got b s)
      × Then (record { input = input; pos = pos; cur = cur; nbits = nbits }) bs s
unfolding bit stream low_bits byte_bits
bit_at input pos cur (suc n) b bs e = (
  record { input = input; pos = pos; cur = cur / 2; nbits = n },
  in_byte input pos cur n
      ∙ ap (λ (x : ℕ). got x (record { input = input; pos = pos; cur = cur / 2; nbits = n }))
          (tail_eq e).0,
  (refl, (tail_eq e).1),
)
bit_at input pos cur zero b bs e = elim (Option-cases (get_elem? input pos)) [
  | inl o ↦ absurd (no_bits (sym e ∙ ap byte_bits (drop-none input pos o)))
  | inr (x, o) ↦
      let pos_eq : pos + 1 ≡ suc pos = omega arith in
      let f = tail_eq (sym (ap byte_bits (drop-get input pos x o)) ∙ e) in
      (
        record { input = input; pos = pos + 1; cur = x / 2; nbits = 7 },
        rw o (
            ap (λ (y : ℕ). got y (record { input = input; pos = pos + 1; cur = x / 2; nbits = 7 }))
              f.0),
        (refl, ap (λ (i : ℕ). low_bits 7 (x / 2) ++ byte_bits (drop i input)) pos_eq ∙ f.1),
      )
]

pub bit-stream :
    (r : BitReader) (b : ℕ) (bs : List ℕ)
    → stream r ≡ b ∷ bs
    → (s : BitReader) × (bit r ≡ got b s) × Then r bs s
unfolding stream
bit-stream r b bs e = bit_at r.input r.pos r.cur r.nbits b bs e
