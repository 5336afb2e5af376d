-- ===== src/Core/Decimal.antt =====
-- `std::to_string` of an unsigned number, and its inverse.
use mathlib.Core.List.{foldl, foldl-append}
use rag_cpp.Common.{
  ℕ, zero, suc, ◌+◌, ◌-◌, ◌*◌, ◌/◌, ◌%◌, ◌<◌, ◌≤◌, ◌≡◌, sym, ap, ◌∙◌, List, [], ◌∷◌, ◌++◌, arith,
  ltb, if◌then◌else◌, All, Bool-cases, inl, inr, All-append,
}

-- The fuel is one more than the number.
unfoldable pub digits : ℕ → ℕ → List ℕ
digits zero n = []
digits (suc f) n =
    let rest = digits f (n / 10) in
    if ltb n 10 then (b'0' + n) ∷ [] else rest ++ (b'0' + n % 10) ∷ []

unfoldable pub to_string : ℕ → List ℕ
unfolding digits
to_string n = digits (suc n) n

-- The number that digits stand for.
abbrev pub add_digit : ℕ → ℕ → ℕ
add_digit n c = n * 10 + (c - b'0')

unfoldable pub decimal : List ℕ → ℕ
decimal = foldl add_digit 0

decimal-digits : (f n : ℕ) → n < f → decimal (digits f n) ≡ n
unfolding decimal digits
decimal-digits zero n h = absurd (omega arith)
decimal-digits (suc f) n h = elim (Bool-cases (ltb n 10)) [
  | inl small ↦ rw small (omega arith)
  | inr big ↦ rw big (rw foldl-append (omega (arith, decimal-digits f (n / 10) (ground arith))))
]

pub decimal-to_string : (n : ℕ) → decimal (to_string n) ≡ n
unfolding to_string
decimal-to_string n = decimal-digits (suc n) n (omega arith)

pub to_string-injective : (m n : ℕ) → to_string m ≡ to_string n → m ≡ n
to_string-injective m n e = sym (decimal-to_string m) ∙ ap decimal e ∙ decimal-to_string n

abbrev pub IsDigit : ℕ → Type 0
IsDigit c = (b'0' ≤ c) × (c ≤ b'9')

digits-IsDigit : (f n : ℕ) → All IsDigit (digits f n)
unfolding digits
digits-IsDigit zero n = tt
digits-IsDigit (suc f) n = elim (Bool-cases (ltb n 10)) [
  | inl small ↦ rw small (ground arith)
  | inr big ↦
      rw big (All-append IsDigit (digits f (n / 10)) _ (digits-IsDigit f (n / 10)) (omega arith))
]

pub to_string-IsDigit : (n : ℕ) → All IsDigit (to_string n)
unfolding to_string
to_string-IsDigit n = digits-IsDigit (suc n) n
