-- ===== src/Text/Porter.antt =====
-- The Porter stemmer of src/text/tokenizer.cpp. A word is the list of its bytes; `s[i]` is read
-- below the length only, and a byte past the end would read as 0.
pub mod Measure
pub mod Bounds
use Prim.Native.String.{String}
use rag_cpp.Common.{
  ℕ, zero, suc, ◌+◌, ◌-◌, Bool, true, false, not, ◌&&◌, ◌||◌, Option, none, some, List, [], ◌∷◌,
  ◌++◌, length, get_or, take, drop, ltb, leb, ◌==◌, if◌then◌else◌,
}
use rag_cpp.Core.{bytes, text_eq, is_empty}

abbrev pub plain_vowel : ℕ → Bool
plain_vowel c = c == b'a' || c == b'e' || c == b'i' || c == b'o' || c == b'u'

unfoldable pub is_vowel : List ℕ → ℕ → Bool
is_vowel s zero = plain_vowel (get_or s 0 0)
is_vowel s (suc i) =
    let c = get_or s (suc i) 0 in
    if plain_vowel c then true else if c == b'y' then not (is_vowel s i) else false

-- The three loops of `measure`, and the moves between them.
pub data Mode : Type 0 where
  initial vowels consonants : Mode

abbrev pub next_mode : Mode → Bool → Mode
next_mode m true = vowels
next_mode initial false = initial
next_mode vowels false = consonants
next_mode consonants false = consonants

abbrev pub next_count : Mode → Bool → ℕ → ℕ
next_count vowels false m = m + 1
next_count _ _ m = m

-- `if (i > j) return m;`, else look at `s[i]`. Each round takes one letter.
unfoldable pub measure_loop : ℕ → List ℕ → ℕ → Mode → ℕ → ℕ → ℕ
measure_loop zero s j mode i m = m
measure_loop (suc f) s j mode i m =
    let v = is_vowel s i in
    let rest = measure_loop f s j (next_mode mode v) (i + 1) (next_count mode v m) in
    if ltb j i then m else rest

unfoldable pub measure : List ℕ → ℕ → ℕ
measure s j = measure_loop (j + 2) s j initial 0 0

-- `for (i = 0; i <= j && i < s.size(); ++i)`, counted by the rounds left.
unfoldable pub has_vowel_from : ℕ → List ℕ → ℕ → ℕ → Bool
has_vowel_from zero s j i = false
has_vowel_from (suc f) s j i =
    let rest = has_vowel_from f s j (i + 1) in
    if leb i j && ltb i (length s) then (if is_vowel s i then true else rest) else false

unfoldable pub has_vowel : List ℕ → ℕ → Bool
has_vowel s j = has_vowel_from (length s) s j 0

unfoldable pub double_consonant : List ℕ → ℕ → Bool
double_consonant s j =
    if ltb j 1
    then false
    else if not (get_or s j 0 == get_or s (j - 1) 0)
    then false
    else not (is_vowel s j)

unfoldable pub cvc : List ℕ → ℕ → Bool
cvc s i =
    if ltb i 2
    then false
    else if is_vowel s i || not (is_vowel s (i - 1)) || is_vowel s (i - 2)
    then false
    else let c = get_or s i 0 in not (c == b'w') && not (c == b'x') && not (c == b'y')

unfoldable pub ends_with : List ℕ → List ℕ → Bool
ends_with s suf = leb (length suf) (length s) && text_eq (drop (length s - length suf) s) suf

-- `s.resize(s.size() - n)`, and `s.substr(0, s.size() - n)`
abbrev pub chop : ℕ → List ℕ → List ℕ
chop n s = take (length s - n) s

-- The measure of a stem, 0 for the empty one.
unfoldable pub stem_measure : List ℕ → ℕ
stem_measure stem = if is_empty stem then 0 else measure stem (length stem - 1)

-- `replace` with the predicate `m_gt0`; `none` is `false`.
unfoldable pub replace : List ℕ → List ℕ → List ℕ → Option (List ℕ)
replace s suf rep =
    if not (ends_with s suf)
    then none
    else let stem = chop (length suf) s in
      if ltb 0 (stem_measure stem) then some (stem ++ rep) else none

unfoldable pub step1a : List ℕ → List ℕ
step1a s =
    if ends_with s (bytes "sses")
    then chop 2 s
    else if ends_with s (bytes "ies")
    then chop 2 s
    else if ends_with s (bytes "ss")
    then s
    else if ends_with s (bytes "s")
    then chop 1 s
    else s

-- `has_vowel(stem, stem.empty() ? 0 : stem.size() - 1) && !stem.empty()`
unfoldable pub stem_has_vowel : List ℕ → Bool
stem_has_vowel stem = has_vowel stem (length stem - 1) && not (is_empty stem)

unfoldable pub step1b_extra : List ℕ → List ℕ
step1b_extra s =
    if ends_with s (bytes "at") || ends_with s (bytes "bl") || ends_with s (bytes "iz")
    then s ++ b'e' ∷ []
    else if double_consonant s (length s - 1)
    then (let c = get_or s (length s - 1) 0 in
        if not (c == b'l') && not (c == b's') && not (c == b'z') then chop 1 s else s)
    else if not (is_empty s) && measure s (length s - 1) == 1 && cvc s (length s - 1)
    then s ++ b'e' ∷ []
    else s

unfoldable pub step1b : List ℕ → List ℕ
step1b s =
    if ends_with s (bytes "eed")
    then (if ltb 0 (stem_measure (chop 3 s)) then chop 1 s else s)
    else if ends_with s (bytes "ed")
    then (if stem_has_vowel (chop 2 s) then step1b_extra (chop 2 s) else s)
    else if ends_with s (bytes "ing")
    then (if stem_has_vowel (chop 3 s) then step1b_extra (chop 3 s) else s)
    else s

unfoldable pub step1c : List ℕ → List ℕ
step1c s =
    if ends_with s (bytes "y")
    then (if has_vowel (chop 1 s) (length s - 1 - 1) then chop 1 s ++ b'i' ∷ [] else s)
    else s

abbrev pub step2_table : List (String × String)
step2_table =
    ("ational", "ate")
    ∷ ("tional", "tion")
    ∷ ("enci", "ence")
    ∷ ("anci", "ance")
    ∷ ("izer", "ize")
    ∷ ("bli", "ble")
    ∷ ("alli", "al")
    ∷ ("entli", "ent")
    ∷ ("eli", "e")
    ∷ ("ousli", "ous")
    ∷ ("ization", "ize")
    ∷ ("ation", "ate")
    ∷ ("ator", "ate")
    ∷ ("alism", "al")
    ∷ ("iveness", "ive")
    ∷ ("fulness", "ful")
    ∷ ("ousness", "ous")
    ∷ ("aliti", "al")
    ∷ ("iviti", "ive")
    ∷ ("biliti", "ble")
    ∷ []

abbrev pub step3_table : List (String × String)
step3_table =
    ("icate", "ic")
    ∷ ("ative", "")
    ∷ ("alize", "al")
    ∷ ("iciti", "ic")
    ∷ ("ical", "ic")
    ∷ ("ful", "")
    ∷ ("ness", "")
    ∷ []

abbrev pub step4_table : List String
step4_table =
    "al" ∷ "ance" ∷ "ence" ∷ "er" ∷ "ic" ∷ "able" ∷ "ible" ∷ "ant" ∷ "ement" ∷ "ment" ∷ "ent" ∷ "ou"
    ∷ "ism" ∷ "ate" ∷ "iti" ∷ "ous" ∷ "ive" ∷ "ize" ∷ "tion" ∷ []

abbrev pub replaced_or : Option (List ℕ) → List ℕ → List ℕ
replaced_or (some s) rest = s
replaced_or none rest = rest

-- `for (auto [suf, rep] : table) if (replace(s, suf, rep, m_gt0)) break;`
unfoldable pub replace_first : List (String × String) → List ℕ → List ℕ
replace_first [] s = s
replace_first ((suf, rep) ∷ table) s =
    replaced_or (replace s (bytes suf) (bytes rep)) (replace_first table s)

-- The first suffix that fits ends the loop, whether or not it is taken off.
unfoldable pub strip_first : List String → List ℕ → List ℕ
strip_first [] s = s
strip_first (suf ∷ table) s =
    let rest = strip_first table s in
    let stem = chop (length (bytes suf)) s in
    if not (ends_with s (bytes suf))
    then rest
    else if is_empty stem
    then s
    else if text_eq (bytes suf) (bytes "tion")
    then (if ltb 1 (stem_measure stem) then stem ++ b't' ∷ [] else s)
    else if ltb 1 (stem_measure stem)
    then stem
    else s

unfoldable pub step5a : List ℕ → List ℕ
step5a s =
    if ends_with s (bytes "e")
    then (let stem = chop 1 s in
        let m = stem_measure stem in
        if is_empty stem
        then s
        else if ltb 1 m || m == 1 && not (cvc stem (length stem - 1))
        then stem
        else s)
    else s

unfoldable pub step5b : List ℕ → List ℕ
step5b s =
    if ltb 1 (measure s (length s - 1))
      && double_consonant s (length s - 1)
      && ends_with s (bytes "l")
    then chop 1 s
    else s

unfoldable pub porter_stem : List ℕ → List ℕ
porter_stem s =
    if leb (length s) 2
    then s
    else step5b (
        step5a (
          strip_first step4_table
            (replace_first step3_table (replace_first step2_table (step1c (step1b (step1a s)))))))
