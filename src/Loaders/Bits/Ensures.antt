-- ===== src/Loaders/Bits/Ensures.antt =====
-- What a read of bits ensures: it strays nowhere, and what it returns has the property. One rule for
-- each way to build a read.
use rag_cpp.Common.{
  ℕ, zero, suc, ◌+◌, ◌-◌, ◌*◌, ◌^◌, ◌≤◌, ◌<◌, ◌≡◌, ◌≢◌, refl, Bool, true, false, Option, none, some,
  List, [], ◌∷◌, length, get_elem?, arith, inl, inr, Bool-cases, ==_iff, ◌==◌,
}
use rag_cpp.Loaders.Bits.{
  BitReader, Outcome, got, bad, stray, Read, ◌>>=◌, continue, guard, choose, in_range, or_fail, bit,
  bits_from, bits, next_byte,
}
use native.Mathlib.Numerals.{towards_suc}

abbrev pub Holds : {A : Type 0} → (A → BitReader → Type 0) → Outcome A → Type 0
Holds P (got a r) = P a r
Holds P bad = Unit
Holds P stray = ⊥

pub record Ensures {A : Type 0} (P : A → BitReader → Type 0) (o : Outcome A) : Type 0 where
  pub holds : Holds P o

module _ {A B : Type 0} (P : A → BitReader → Type 0) {Q : B → BitReader → Type 0}
    {f : A → Read B} where
  continue-Ensures :
      (o : Outcome A)
      → Ensures P o
      → ((a : A) (s : BitReader) → P a s → Ensures Q (f a s))
      → Ensures Q (continue o f)
  continue-Ensures (got a s) h k = k a s h.holds
  continue-Ensures bad h k = record { holds = tt }
  continue-Ensures stray h k = absurd h.holds

  pub >>=-Ensures :
      (m : Read A) (r : BitReader)
      → Ensures P (m r)
      → ((a : A) (s : BitReader) → P a s → Ensures Q (f a s))
      → Ensures Q ((m >>= f) r)
  unfolding ◌>>=◌
  >>=-Ensures m r = continue-Ensures (m r)

module _ {A : Type 0} {Q : A → BitReader → Type 0} where
  pub pure-Ensures : {a : A} {r : BitReader} → Q a r → Ensures Q (got a r)
  pure-Ensures h = record { holds = h }

  pub fail-Ensures : Ensures Q bad
  fail-Ensures = record { holds = tt }

  pub choose-Ensures :
      (b : Bool) (m n : Read A) (r : BitReader)
      → (b ≡ true → Ensures Q (m r))
      → (b ≡ false → Ensures Q (n r))
      → Ensures Q (choose b m n r)
  choose-Ensures true m n r h k = h refl
  choose-Ensures false m n r h k = k refl

  pub guard-Ensures :
      (b : Bool) (k : Unit {0} → Read A) (r : BitReader)
      → (b ≡ true → Ensures Q (k tt r))
      → Ensures Q ((guard b >>= k) r)
  unfolding ◌>>=◌
  guard-Ensures true k r h = h refl
  guard-Ensures false k r h = fail-Ensures

  pub or_fail-Ensures :
      {B : Type 0} (o : Option B) (k : B → Read A) (r : BitReader)
      → ((b : B) → o ≡ some b → Ensures Q (k b r))
      → Ensures Q ((or_fail o >>= k) r)
  unfolding ◌>>=◌
  or_fail-Ensures none k r h = fail-Ensures
  or_fail-Ensures (some b) k r h = h b refl

-- An access below the length of an array.
module _ {A : Type 0} {Q : A → BitReader → Type 0} where
  pub in_range-Ensures :
      {B : Type 0} (o : Option B) (f : B → Read A) (r : BitReader)
      → o ≢ none
      → ((x : B) → o ≡ some x → Ensures Q (f x r))
      → Ensures Q ((in_range o >>= f) r)
  unfolding ◌>>=◌
  in_range-Ensures none f r h k = absurd (h refl)
  in_range-Ensures (some x) f r h k = k x refl

pub get_elem?-lt {ℓ} : {A : Type ℓ} (xs : List A) (i : ℕ) → i < length xs → get_elem? xs i ≢ none
get_elem?-lt [] i h = absurd (omega (arith, h))
get_elem?-lt (x ∷ xs) zero h = λ e. cc
get_elem?-lt (x ∷ xs) (suc i) h = get_elem?-lt xs i (omega (arith, h))

-- The bits that are not read yet.
abbrev pub left : BitReader → ℕ
left r = r.nbits + 8 * (length r.input - r.pos)

-- At most `n` bits are left, and the value has the property.
abbrev pub Left : {A : Type 0} → ℕ → (A → Type 0) → A → BitReader → Type 0
Left n P a s = (left s ≤ n) × P a

abbrev pub LeftLess : {A : Type 0} → ℕ → (A → Type 0) → A → BitReader → Type 0
LeftLess n P a s = (left s < n) × P a

module _ {A : Type 0} (P Q : A → BitReader → Type 0) where
  pub weaken :
      (o : Outcome A) → Ensures P o → ((a : A) (s : BitReader) → P a s → Q a s) → Ensures Q o
  weaken (got a s) h k = record { holds = k a s h.holds }
  weaken bad h k = record { holds = tt }
  weaken stray h k = absurd h.holds

get_elem?-some :
    {A : Type 0} (xs : List A) (i : ℕ) (x : A) → get_elem? xs i ≡ some x → i < length xs
get_elem?-some [] i x h = absurd (cc)
get_elem?-some (y ∷ xs) zero x h = omega arith
get_elem?-some (y ∷ xs) (suc i) x h = omega (arith, get_elem?-some xs i x h)

next_byte-Ensures :
    (o : Option ℕ) (r : BitReader)
    → get_elem? r.input r.pos ≡ o
    → r.nbits ≡ 0
    → Ensures (LeftLess (left r) (λ b. b < 2)) (next_byte o r)
next_byte-Ensures none r e z = fail-Ensures
next_byte-Ensures (some x) r e z =
    pure-Ensures (omega (arith, get_elem?-some r.input r.pos x e, z), omega arith)

pub bit-Ensures : (r : BitReader) → Ensures (LeftLess (left r) (λ b. b < 2)) (bit r)
unfolding bit
bit-Ensures r = elim (Bool-cases (r.nbits == 0)) [
  | inl z ↦ rw z (next_byte-Ensures (get_elem? r.input r.pos) r refl ((==_iff r.nbits 0).0 z))
  | inr z ↦ rw z (pure-Ensures (ground arith, omega arith))
]

bound_at : (m i v : ℕ) → m ≡ i → v < 2 ^ i → v < 2 ^ m
bound_at m i v e h = rw e h

bit-times : (b t : ℕ) → b < 2 → b * t ≤ t
bit-times zero t h = omega arith
bit-times (suc zero) t h = omega arith
bit-times (suc (suc b)) t h = absurd (omega (arith, h))

bit_set : (b i v : ℕ) → b < 2 → v < 2 ^ i → v + b * 2 ^ i < 2 ^ (i + 1)
bit_set b i v h k = simp towards_suc (omega (arith, bit-times b (2 ^ i) h, k))

pub bits_from-Ensures :
    (n i v m : ℕ) (r : BitReader)
    → m ≡ n + i
    → v < 2 ^ i
    → Ensures (Left (left r) (λ x. x < 2 ^ m)) (bits_from n i v r)
unfolding bits_from
bits_from-Ensures zero i v m r e h = pure-Ensures (omega arith, bound_at m i v (omega (arith, e)) h)
bits_from-Ensures (suc n) i v m r e h =
    >>=-Ensures (LeftLess (left r) (λ b. b < 2)) _ _ (bit-Ensures r) λ b s p.
      weaken _ _ _
        (bits_from-Ensures n (i + 1) (v + b * 2 ^ i) m s (omega (arith, e)) (bit_set b i v p.1 h))
        λ x t q. (omega arith, q.1)

pub bits-Ensures : (n : ℕ) (r : BitReader) → Ensures (Left (left r) (λ x. x < 2 ^ n)) (bits n r)
unfolding bits
bits-Ensures n r = bits_from-Ensures n 0 0 n r (omega arith) (omega arith)
