-- ===== src/Core/Text.antt =====
-- Strings as lists of bytes: the literals of the source, comparison, and `std::string`'s order.
use Prim.Native.String.{String}
use Prim.Native.Char.{code}
use rag_cpp.Common.{
  ℕ, ◌≤◌, length, ◌≡◌, refl, Bool, true, false, List, [], ◌∷◌, arith, ltb, ◌==◌, ◌&&◌,
  if◌then◌else◌, ◌↔◌, ◌≢◌, subst, inl, inr, Bool-cases,
}
use rag_cpp.Common.SortedMap.{KeyOrder}

-- A literal of the source, which is ASCII.
abbrev pub bytes : String → List ℕ
bytes String.[] = []
bytes (String.◌∷◌ c s) = code c ∷ bytes s

abbrev pub is_empty {ℓ} : {A : Type ℓ} → List A → Bool
is_empty [] = true
is_empty (x ∷ xs) = false

abbrev pub text_eq : List ℕ → List ℕ → Bool
text_eq [] [] = true
text_eq [] (b ∷ t) = false
text_eq (a ∷ s) [] = false
text_eq (a ∷ s) (b ∷ t) = (a == b) && text_eq s t

pub text_eq_sound : (s t : List ℕ) → text_eq s t ≡ true → s ≡ t
text_eq_sound [] [] h = refl
text_eq_sound [] (b ∷ t) h = ground arith
text_eq_sound (a ∷ s) [] h = ground arith
text_eq_sound (a ∷ s) (b ∷ t) h = ground (arith, text_eq_sound s t)

pub text_eq_refl : (s : List ℕ) → text_eq s s ≡ true
text_eq_refl [] = refl
text_eq_refl (a ∷ s) = ground (arith, text_eq_refl s)

pub text_eq-false : (s t : List ℕ) → text_eq s t ≡ false → s ≢ t
text_eq-false s t h e = let k = subst (λ u. text_eq s u ≡ true) e (text_eq_refl s) in cc

pub text_eq_differ : (s t : List ℕ) → s ≢ t → text_eq s t ≡ false
text_eq_differ s t h = elim (Bool-cases (text_eq s t)) [
  | inl e ↦ absurd (h (text_eq_sound s t e))
  | inr e ↦ e
]

-- `std::less<std::string>`: lexicographic on the bytes.
unfoldable pub text_lt : List ℕ → List ℕ → Bool
text_lt s [] = false
text_lt [] (b ∷ t) = true
text_lt (a ∷ s) (b ∷ t) = if ltb a b then true else if ltb b a then false else text_lt s t

pub text_lt_asym : (s t : List ℕ) → text_lt s t ≡ true → text_lt t s ≡ false
unfolding text_lt
text_lt_asym [] [] h = refl
text_lt_asym [] (b ∷ t) h = refl
text_lt_asym (a ∷ s) [] h = ground arith
text_lt_asym (a ∷ s) (b ∷ t) h = ground (arith, text_lt_asym s t)

pub text_lt_trans : (s t u : List ℕ) → text_lt s t ≡ true → text_lt t u ≡ true → text_lt s u ≡ true
unfolding text_lt
text_lt_trans s t [] h k = ground arith
text_lt_trans s [] (c ∷ u) h k = ground arith
text_lt_trans [] (b ∷ t) (c ∷ u) h k = refl
text_lt_trans (a ∷ s) (b ∷ t) (c ∷ u) h k = ground (arith, text_lt_trans s t u)

abbrev pub text_order : KeyOrder (List ℕ)
text_order = record { lt = text_lt; asym = text_lt_asym; trans = text_lt_trans }

pub nat_lt_asym : (a b : ℕ) → ltb a b ≡ true → ltb b a ≡ false
nat_lt_asym a b h = ground arith

pub nat_lt_trans : (a b c : ℕ) → ltb a b ≡ true → ltb b c ≡ true → ltb a c ≡ true
nat_lt_trans a b c h k = ground arith

-- `std::less<std::uint32_t>`
abbrev pub nat_order : KeyOrder ℕ
nat_order = record { lt = ltb; asym = nat_lt_asym; trans = nat_lt_trans }

pub text_eq_iff : (s t : List ℕ) → (text_eq s t ≡ true) ↔ (s ≡ t)
text_eq_iff s t = (text_eq_sound s t, λ e. subst (λ u. text_eq s u ≡ true) e (text_eq_refl s))

pub is_empty-length : (s : List ℕ) → is_empty s ≡ false → 1 ≤ length s
is_empty-length [] h = cc h
is_empty-length (x ∷ s) h = omega arith
