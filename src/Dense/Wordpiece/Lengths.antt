-- ===== src/Dense/Wordpiece/Lengths.antt =====
-- The encodings keep to the token limit.
use rag_cpp.Common.{
  ℕ, zero, suc, ◌+◌, ◌-◌, ◌/◌, ◌≤◌, ◌≡◌, refl, List, [], ◌∷◌, ◌++◌, length, take, length-append,
  length-take, ltb, leb, if◌then◌else◌, arith, Bool-cases, inl, inr, ◌∙◌,
}
use rag_cpp.Dense.Wordpiece.{
  WordPieceTokenizer, wordpiece, basic_split, encode_words, filled, encode, budget_words,
  at_least_one, pair_budget, passage_budget, encode_pair,
}

length-filled : (n x : ℕ) → length (filled n x) ≡ n
unfolding filled
length-filled zero x = refl
length-filled (suc n) x = rw (length-filled n x) refl

-- Where there is room for a token, `encode` gives at most `max_tokens` ids, and a mask and segment
-- ids of the same length.
pub length-encode :
    (t : WordPieceTokenizer) (text : List ℕ) (max_tokens : ℕ)
    → 1 ≤ max_tokens
    → (length (encode t text max_tokens).ids ≤ max_tokens)
      × (length (encode t text max_tokens).mask ≡ length (encode t text max_tokens).ids)
      × (length (encode t text max_tokens).type_ids ≡ length (encode t text max_tokens).ids)
unfolding encode
length-encode t text max_tokens h =
    let ids = encode_words t max_tokens (t.cls ∷ []) (basic_split text) in
    let cut : List ℕ = if ltb max_tokens (length ids + 1) then take (max_tokens - 1) ids else ids in
    let short : length cut + 1 ≤ max_tokens = ground (arith, length-take (max_tokens - 1) ids) in
    (omega (arith, length-append cut (t.sep ∷ [])), length-filled _ 1, length-filled _ 0)

length-budget_words :
    (t : WordPieceTokenizer) (budget : ℕ) (ids : List ℕ) (words : List (List ℕ))
    → length ids ≤ budget
    → length (budget_words t budget ids words) ≤ budget
unfolding budget_words
length-budget_words t budget ids [] h = h
length-budget_words t budget ids (word ∷ words) h =
    let more = ids ++ wordpiece t word in
    elim (Bool-cases (leb budget (length more))) [
      | inl e ↦ rw e (omega (arith, length-take budget more))
      | inr e ↦ rw e (length-budget_words t budget more words (ground arith))
    ]

length-first : (c s : ℕ) (a : List ℕ) → length (c ∷ a ++ s ∷ []) ≡ length a + 2
length-first c s a = omega (arith, length-append a (s ∷ []))

length-pair :
    (c s : ℕ) (a b : List ℕ) → length ((c ∷ a ++ s ∷ []) ++ b ++ s ∷ []) ≡ length a + length b + 3
length-pair c s a b =
    length-append (c ∷ a ++ s ∷ [] ++ b) (s ∷ [])
    ∙ omega (arith, length-append (c ∷ a ++ s ∷ []) b, length-first c s a)

length-segments : (n m : ℕ) → n ≤ m → length (filled n 0 ++ filled (m - n) 1) ≡ m
length-segments n m h =
    length-append (filled n 0) (filled (m - n) 1)
    ∙ omega (arith, length-filled n 0, length-filled (m - n) 1)

-- From a limit of 5 on, a pair is encoded in at most `max_tokens` ids, with a mask and segment ids
-- of the same length.
pub length-encode_pair :
    (t : WordPieceTokenizer) (a b : List ℕ) (max_tokens : ℕ)
    → 5 ≤ max_tokens
    → (length (encode_pair t a b max_tokens).ids ≤ max_tokens)
      × (length (encode_pair t a b max_tokens).mask ≡ length (encode_pair t a b max_tokens).ids)
      × (length (encode_pair t a b max_tokens).type_ids ≡ length (encode_pair t a b max_tokens).ids)
unfolding encode_pair pair_budget passage_budget
length-encode_pair t a b max_tokens h =
    let budget : ℕ = pair_budget max_tokens in
    let a_budget : ℕ = at_least_one (budget / 3) in
    let a_ids = budget_words t a_budget [] (basic_split a) in
    let b_budget : ℕ = passage_budget budget a_ids in
    let b_ids = budget_words t b_budget [] (basic_split b) in
    let first = t.cls ∷ a_ids ++ t.sep ∷ [] in
    let budget_is : budget ≡ max_tokens - 3 = ground arith in
    let a_fits : length a_ids ≤ a_budget =
      length-budget_words t a_budget [] (basic_split a) (omega arith) in
    let a_bound : a_budget + 1 ≤ budget = ground arith in
    let b_fits : length b_ids ≤ b_budget =
      length-budget_words t b_budget [] (basic_split b) (omega arith) in
    let b_is : b_budget ≡ budget - length a_ids = ground arith in
    let size = length-pair t.cls t.sep a_ids b_ids in
    (
      omega (arith, size),
      length-filled _ 1,
      length-segments (length first) _ (omega (arith, size, length-first t.cls t.sep a_ids)),
    )
