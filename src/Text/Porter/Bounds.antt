-- ===== src/Text/Porter/Bounds.antt =====
-- What the steps of the stemmer do to the length of a word.
use Prim.Native.String.{String}
use rag_cpp.Common.{
  ℕ, ◌+◌, ◌-◌, ◌≤◌, ◌≡◌, refl, true, some, List, [], ◌∷◌, arith, length, length-append, length-take,
  ltb, leb, All, Option-cases, inl, inr, Bool-cases,
}
use rag_cpp.Core.{bytes, text_eq, text_eq_sound, is_empty-length}
use rag_cpp.Text.Porter.{
  ends_with, chop, replace, step1a, step1b, step1b_extra, step1c, replace_first, strip_first,
  step2_table, step3_table, step4_table, step5a, step5b, porter_stem, stem_measure, stem_has_vowel,
  double_consonant,
}

-- A result that is not longer than the word and not empty.
abbrev pub Shrinks : List ℕ → List ℕ → Type 0
Shrinks s t = (1 ≤ length t) × (length t ≤ length s)

length-chop : (n : ℕ) (s : List ℕ) → length (chop n s) ≡ length s - n
length-chop n s = omega (arith, length-take (length s - n) s)

ends_with-length : (s suf : List ℕ) → ends_with s suf ≡ true → length suf ≤ length s
unfolding ends_with
ends_with-length s suf h = ground arith

double_consonant-length : (s : List ℕ) → double_consonant s (length s - 1) ≡ true → 2 ≤ length s
unfolding double_consonant
double_consonant-length s h = ground arith

stem_measure-length : (s : List ℕ) → ltb 0 (stem_measure s) ≡ true → 1 ≤ length s
unfolding stem_measure
stem_measure-length [] h = absurd (ground arith)
stem_measure-length (x ∷ s) h = omega arith

step1a-Shrinks : (s : List ℕ) → 3 ≤ length s → Shrinks s (step1a s)
unfolding step1a
step1a-Shrinks s h =
    let a = ends_with-length s (bytes "sses") in
    let b = length-chop 2 s in let c = length-chop 1 s in ground (arith, a, b, c)

step1b_extra-Shrinks :
    (s : List ℕ)
    → 1 ≤ length s
    → (1 ≤ length (step1b_extra s)) × (length (step1b_extra s) ≤ length s + 1)
unfolding step1b_extra
step1b_extra-Shrinks s h =
    ground (arith, length-append s (b'e' ∷ []), length-chop 1 s, double_consonant-length s)

stem_has_vowel-length : (s : List ℕ) → stem_has_vowel s ≡ true → 1 ≤ length s
unfolding stem_has_vowel
stem_has_vowel-length [] h = absurd (ground arith)
stem_has_vowel-length (x ∷ s) h = omega arith

step1b-Shrinks : (s : List ℕ) → 1 ≤ length s → Shrinks s (step1b s)
unfolding step1b
step1b-Shrinks s h = ground (
  arith,
  length-chop 1 s,
  length-chop 2 s,
  length-chop 3 s,
  ends_with-length s (bytes "eed"),
  step1b_extra-Shrinks (chop 2 s),
  step1b_extra-Shrinks (chop 3 s),
  stem_has_vowel-length (chop 2 s),
  stem_has_vowel-length (chop 3 s),
)

step1c-Shrinks : (s : List ℕ) → 1 ≤ length s → Shrinks s (step1c s)
unfolding step1c
step1c-Shrinks s h = ground (arith, length-chop 1 s, length-append (chop 1 s) (b'i' ∷ []))

-- Every entry of the table gives back no more letters than it takes.
abbrev NoLonger : List (String × String) → Type 0
NoLonger table = All (λ entry. length (bytes entry.1) ≤ length (bytes (entry.0))) table

step2_table-NoLonger : NoLonger step2_table
step2_table-NoLonger = (
  omega arith,
  (
    omega arith,
    (
      omega arith,
      (
        omega arith,
        (
          omega arith,
          (
            omega arith,
            (
              omega arith,
              (
                omega arith,
                (
                  omega arith,
                  (
                    omega arith,
                    (
                      omega arith,
                      (
                        omega arith,
                        (
                          omega arith,
                          (
                            omega arith,
                            (
                              omega arith,
                              (
                                omega arith,
                                (omega arith, (omega arith, (omega arith, (omega arith, tt)))),
                              ),
                            ),
                          ),
                        ),
                      ),
                    ),
                  ),
                ),
              ),
            ),
          ),
        ),
      ),
    ),
  ),
)

step3_table-NoLonger : NoLonger step3_table
step3_table-NoLonger = (
  omega arith,
  (omega arith, (omega arith, (omega arith, (omega arith, (omega arith, (omega arith, tt)))))),
)

replace-Shrinks :
    (s suf rep t : List ℕ) → length rep ≤ length suf → replace s suf rep ≡ some t → Shrinks s t
unfolding replace
replace-Shrinks s suf rep t h e = grind (
  arith,
  ends_with-length s suf,
  stem_measure-length (chop (length suf) s),
  length-chop (length suf) s,
  length-append (chop (length suf) s) rep,
)

replace_first-Shrinks :
    (table : List (String × String)) (s : List ℕ)
    → NoLonger table
    → 1 ≤ length s
    → Shrinks s (replace_first table s)
unfolding replace_first
replace_first-Shrinks [] s h p = (p, omega arith)
replace_first-Shrinks ((suf, rep) ∷ table) s (h, hs) p =
    elim (Option-cases (replace s (bytes suf) (bytes rep))) [
      | inl e ↦ rw e (replace_first-Shrinks table s hs p)
      | inr (t, e) ↦ rw e (replace-Shrinks s (bytes suf) (bytes rep) t h e)
    ]

tion-length : (suf : List ℕ) → text_eq suf (bytes "tion") ≡ true → length suf ≡ 4
tion-length suf h = rw (text_eq_sound suf (bytes "tion") h) refl

strip_first-Shrinks :
    (table : List String) (s : List ℕ) → 1 ≤ length s → Shrinks s (strip_first table s)
unfolding strip_first
strip_first-Shrinks [] s p = (p, omega arith)
strip_first-Shrinks (suf ∷ table) s p = ground (
  arith,
  ends_with-length s (bytes suf),
  length-chop (length (bytes suf)) s,
  is_empty-length (chop (length (bytes suf)) s),
  tion-length (bytes suf),
  length-append (chop (length (bytes suf)) s) (b't' ∷ []),
  strip_first-Shrinks table s p,
)

step5a-Shrinks : (s : List ℕ) → 1 ≤ length s → Shrinks s (step5a s)
unfolding step5a
step5a-Shrinks s h = ground (arith, length-chop 1 s, is_empty-length (chop 1 s))

step5b-Shrinks : (s : List ℕ) → 1 ≤ length s → Shrinks s (step5b s)
unfolding step5b
step5b-Shrinks s h = ground (arith, length-chop 1 s, double_consonant-length s)

-- A stem is never longer than its word, and a word that is not empty keeps at least one letter.
pub porter_stem-Shrinks : (s : List ℕ) → 1 ≤ length s → Shrinks s (porter_stem s)
unfolding porter_stem
porter_stem-Shrinks s h = elim (Bool-cases (leb (length s) 2)) [
  | inl e ↦ rw e (h, omega arith)
  | inr e ↦
      let long : 3 ≤ length s = ground arith in
      let a = step1a-Shrinks s long in
      let b = step1b-Shrinks (step1a s) a.0 in
      let c = step1c-Shrinks _ b.0 in
      let d = replace_first-Shrinks step2_table _ step2_table-NoLonger c.0 in
      let f = replace_first-Shrinks step3_table _ step3_table-NoLonger d.0 in
      let g = strip_first-Shrinks step4_table _ f.0 in
      let k = step5a-Shrinks _ g.0 in let l = step5b-Shrinks _ k.0 in rw e (l.0, omega arith)
]
