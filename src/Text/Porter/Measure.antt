-- ===== src/Text/Porter/Measure.antt =====
-- `measure` counts what its comment says: the vowel-consonant sequences of the word.
use rag_cpp.Common.{
  ℕ, zero, suc, ◌+◌, ◌<◌, ◌≡◌, refl, ◌∙◌, Bool, true, false, not, ◌&&◌, List, arith, ltb,
  if◌then◌else◌, le→ltb, sym,
}
use rag_cpp.Text.Porter.{
  Mode, initial, vowels, consonants, next_mode, next_count, is_vowel, measure_loop, measure,
}

-- The places `k` with `i ≤ k < i + n` where `s[k]` is a vowel and `s[k + 1]` a consonant.
unfoldable pub vc_from : ℕ → List ℕ → ℕ → ℕ
vc_from zero s i = 0
vc_from (suc n) s i =
    (if is_vowel s i && not (is_vowel s (i + 1)) then 1 else 0) + vc_from n s (i + 1)

abbrev at_vowel : Mode → Bool
at_vowel initial = false
at_vowel vowels = true
at_vowel consonants = false

at_vowel-next_mode : (mode : Mode) (v : Bool) → at_vowel (next_mode mode v) ≡ v
at_vowel-next_mode initial true = refl
at_vowel-next_mode initial false = refl
at_vowel-next_mode vowels true = refl
at_vowel-next_mode vowels false = refl
at_vowel-next_mode consonants true = refl
at_vowel-next_mode consonants false = refl

next_count-eq :
    (mode : Mode) (v : Bool) (m : ℕ)
    → next_count mode v m ≡ m + (if at_vowel mode && not v then 1 else 0)
next_count-eq initial true m = omega arith
next_count-eq initial false m = omega arith
next_count-eq vowels true m = omega arith
next_count-eq vowels false m = refl
next_count-eq consonants true m = omega arith
next_count-eq consonants false m = omega arith

measure_loop-vc_from :
    (n f : ℕ) (s : List ℕ) (j : ℕ) (mode : Mode) (i m : ℕ)
    → i + n ≡ j
    → n < f
    → is_vowel s i ≡ at_vowel mode
    → measure_loop f s j mode (i + 1) m ≡ m + vc_from n s i
unfolding measure_loop vc_from
measure_loop-vc_from n zero s j mode i m e h a = absurd (omega arith)
measure_loop-vc_from zero (suc f) s j mode i m e h a = ground arith
measure_loop-vc_from (suc n) (suc f) s j mode i m e h a =
    let v = is_vowel s (i + 1) in
    let more : ltb j (i + 1) ≡ false = le→ltb j (i + 1) (omega arith) in
    rw more (
      measure_loop-vc_from n f s j (next_mode mode v) (i + 1) (next_count mode v m) (omega arith)
        (omega arith) (sym (at_vowel-next_mode mode v))
      ∙ rw (next_count-eq mode v m, a) (omega arith))

-- `measure s j` is the number of places up to `j` where a vowel is followed by a consonant, which is
-- the number of VC sequences in `s[0..j]`.
pub measure-vc_from : (s : List ℕ) (j : ℕ) → measure s j ≡ vc_from j s 0
unfolding measure measure_loop
measure-vc_from s j =
    let v = is_vowel s 0 in
    let e : j + 2 ≡ suc (j + 1) = omega arith in
    let more : ltb j 0 ≡ false = le→ltb j 0 (omega arith) in
    let first : next_count initial v 0 ≡ 0 = omega (arith, next_count-eq initial v 0) in
    rw e (
      rw more (
        rw first (
          measure_loop-vc_from j (j + 1) s j (next_mode initial v) 0 0 (omega arith) (omega arith)
            (sym (at_vowel-next_mode initial v))
          ∙ omega arith)))
