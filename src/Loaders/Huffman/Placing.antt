-- ===== src/Loaders/Huffman/Placing.antt =====
-- The loops of `build`: the counts are those of the lengths, and a symbol is written into the segment
-- of its length.
use rag_cpp.Common.{
  ℕ, zero, suc, ◌+◌, ◌%◌, ◌^◌, ◌≤◌, ◌<◌, ◌≡◌, refl, ap, sym, ◌∙◌, subst, false, List, [], ◌∷◌, ◌++◌,
  All, length, get_or, arith, ◌==◌,
}
use rag_cpp.Loaders.Huffman.{set_at, replicate, bump, count_lengths, offsets, place}
use rag_cpp.Loaders.Huffman.Segments.{
  symbols_of, count, Segment, render, places, put, size, set_at-render, bump-places, size-put,
  filled, filled-skip, filled-put, IsExact, IsExact-skip, IsExact-put, filled-none,
}

length-put : (m x : ℕ) (segments : List Segment) → length (put m x segments) ≡ length segments
unfolding put
length-put m x [] = refl
length-put zero x ((held, room) ∷ segments) = refl
length-put (suc m) x (segment ∷ segments) = omega (arith, length-put m x segments)

place-suc :
    (m i : ℕ) (lengths offs symbols : List ℕ)
    → place i (suc m ∷ lengths) (0 ∷ offs) symbols
      ≡ place (i + 1) lengths (0 ∷ bump m offs) (set_at (get_or offs m 0) (i % 2 ^ 16) symbols)
unfolding place bump
place-suc m i lengths offs symbols = let t : (suc m == 0) ≡ false = ground arith in rw t refl

pub place-filled :
    (lengths : List ℕ) (i : ℕ) (segments : List Segment) (rest : List ℕ)
    → All (λ l. l ≤ length segments) lengths
    → i + length lengths ≤ 2 ^ 16
    → size segments < 2 ^ 16
    → IsExact 1 segments lengths
    → place i lengths (0 ∷ places 0 segments) (render segments ++ rest)
      ≡ filled 1 i segments lengths ++ rest
unfolding place
place-filled [] i segments rest h b k e = ap (λ xs. xs ++ rest) (sym (filled-none 1 i segments e))
place-filled (zero ∷ lengths) i segments rest h b k e =
    place-filled lengths (i + 1) segments rest h.1 (omega (arith, b)) k
      (IsExact-skip 1 0 segments lengths (omega arith) e)
    ∙ ap (λ xs. xs ++ rest) (sym (filled-skip 1 i 0 segments lengths (omega arith)))
place-filled (suc m ∷ lengths) i segments rest h b k e =
    let (room, exact) =
      IsExact-put m 1 (suc m) i segments lengths (omega arith) (omega (arith, h.0)) e in
    let small : i % 2 ^ 16 ≡ i = omega (arith, b) in
    place-suc m i lengths (places 0 segments) (render segments ++ rest)
    ∙ (ap
          (λ x.
            place (i + 1) lengths (0 ∷ bump m (places 0 segments))
              (set_at (get_or (places 0 segments) m 0) x (render segments ++ rest)))
          small
        ∙ (ap
              (λ l.
                place (i + 1) lengths (0 ∷ l)
                  (set_at (get_or (places 0 segments) m 0) i (render segments ++ rest)))
              (bump-places m i 0 segments room (omega (arith, k)))
            ∙ (ap (λ l. place (i + 1) lengths (0 ∷ places 0 (put m i segments)) l)
                  (set_at-render m i 0 (get_or (places 0 segments) m 0) segments rest room
                    (omega arith))
                ∙ (place-filled lengths (i + 1) (put m i segments) rest
                      (subst (λ n. All (λ l. l ≤ n) lengths) (sym (length-put m i segments)) h.1)
                      (omega (arith, b)) (omega (arith, k, size-put m i segments room)) exact
                    ∙ ap (λ xs. xs ++ rest)
                        (filled-put m 1 i (suc m) segments lengths room (omega arith))))))

-- The lengths from `len` on, added up.
unfoldable pub tallied : ℕ → List ℕ → List ℕ → List ℕ
tallied len [] lengths = []
tallied len (c ∷ counts) lengths = (c + count len lengths) ∷ tallied (len + 1) counts lengths

tallied-skip :
    (len l : ℕ) (counts lengths : List ℕ)
    → l < len
    → tallied len counts (l ∷ lengths) ≡ tallied len counts lengths
unfolding tallied count
tallied-skip len l [] lengths h = refl
tallied-skip len l (c ∷ counts) lengths h =
    ground (arith, h, tallied-skip (len + 1) l counts lengths)

tallied-none : (len : ℕ) (counts : List ℕ) → tallied len counts [] ≡ counts
unfolding tallied count
tallied-none len [] = refl
tallied-none len (c ∷ counts) = ground (arith, tallied-none (len + 1) counts)

All-less :
    (n : ℕ) (counts : List ℕ)
    → All (λ c. c + suc n < 2 ^ 16) counts
    → All (λ c. c + n < 2 ^ 16) counts
All-less n [] h = tt
All-less n (c ∷ counts) h = (omega (arith, h.0), All-less n counts h.1)

All-one :
    (n : ℕ) (counts : List ℕ)
    → All (λ c. c + suc n < 2 ^ 16) counts
    → All (λ c. c + 1 < 2 ^ 16) counts
All-one n [] h = tt
All-one n (c ∷ counts) h = (omega (arith, h.0), All-one n counts h.1)

All-bump :
    (n m : ℕ) (counts : List ℕ)
    → All (λ c. c + suc n < 2 ^ 16) counts
    → All (λ c. c + n < 2 ^ 16) (bump m counts)
unfolding bump
All-bump n m [] h = tt
All-bump n zero (c ∷ counts) h = (omega (arith, h.0), All-less n counts h.1)
All-bump n (suc m) (c ∷ counts) h = (omega (arith, h.0), All-bump n m counts h.1)

bump-tallied :
    (m len l : ℕ) (counts lengths : List ℕ)
    → l ≡ len + m
    → m < length counts
    → All (λ c. c + 1 < 2 ^ 16) counts
    → tallied len (bump m counts) lengths ≡ tallied len counts (l ∷ lengths)
unfolding tallied bump count
bump-tallied m len l [] lengths e h b = absurd (omega (arith, h))
bump-tallied zero len l (c ∷ counts) lengths e h b =
    ground (arith, e, b.0, tallied-skip (len + 1) l counts lengths)
bump-tallied (suc m) len l (c ∷ counts) lengths e h b =
    ground (
      arith,
      e,
      bump-tallied m (len + 1) l counts lengths (omega (arith, e)) (omega (arith, h)) b.1,
    )

length-bump : (m : ℕ) (counts : List ℕ) → length (bump m counts) ≡ length counts
unfolding bump
length-bump m [] = refl
length-bump zero (c ∷ counts) = refl
length-bump (suc m) (c ∷ counts) = omega (arith, length-bump m counts)

pub count_lengths-tallied :
    (lengths counts : List ℕ)
    → All (λ l. l < length counts) lengths
    → All (λ c. c + length lengths < 2 ^ 16) counts
    → count_lengths lengths counts ≡ tallied 0 counts lengths
unfolding count_lengths
count_lengths-tallied [] counts h b = sym (tallied-none 0 counts)
count_lengths-tallied (l ∷ lengths) counts h b =
    count_lengths-tallied lengths (bump l counts)
      (subst (λ n. All (λ x. x < n) lengths) (sym (length-bump l counts)) h.1)
      (All-bump (length lengths) l counts b)
    ∙ bump-tallied l 0 l counts lengths (omega arith) h.0 (All-one (length lengths) counts b)

-- The number of codes of each of `n` lengths from `len` on, and the segments before any symbol.
unfoldable pub code_counts : ℕ → ℕ → List ℕ → List ℕ
code_counts zero len lengths = []
code_counts (suc n) len lengths = count len lengths ∷ code_counts n (len + 1) lengths

unfoldable pub empty_segments : ℕ → ℕ → List ℕ → List Segment
empty_segments zero len lengths = []
empty_segments (suc n) len lengths = ([], count len lengths) ∷ empty_segments n (len + 1) lengths

-- The symbols by length, and by their number where the lengths are equal.
unfoldable pub ordered : ℕ → ℕ → List ℕ → List ℕ
ordered zero len lengths = []
ordered (suc n) len lengths = symbols_of len 0 lengths ++ ordered n (len + 1) lengths

pub tallied-code_counts :
    (n len : ℕ) (lengths : List ℕ) → tallied len (replicate n 0) lengths ≡ code_counts n len lengths
unfolding tallied code_counts
tallied-code_counts zero len lengths = refl
tallied-code_counts (suc n) len lengths = ground (arith, tallied-code_counts n (len + 1) lengths)

pub offsets-places :
    (n len start : ℕ) (lengths : List ℕ)
    → start + size (empty_segments n len lengths) < 2 ^ 16
    → offsets start (code_counts n len lengths) ≡ places start (empty_segments n len lengths)
unfolding offsets code_counts places empty_segments size
offsets-places zero len start lengths h = refl
offsets-places (suc n) len start lengths h =
    let next : (start + count len lengths) % 2 ^ 16 ≡ start + (0 + count len lengths) =
      omega (arith, h) in
    let here : start ≡ start + 0 = omega arith in
    ap (λ s. start ∷ offsets s (code_counts n (len + 1) lengths)) next
    ∙ (ap (λ l. start ∷ l)
          (offsets-places n (len + 1) (start + (0 + count len lengths)) lengths (omega (arith, h)))
        ∙ ap
            (λ s. s ∷ places (start + (0 + count len lengths)) (empty_segments n (len + 1) lengths))
            here)

pub IsExact-empty :
    (n len : ℕ) (lengths : List ℕ) → IsExact len (empty_segments n len lengths) lengths
unfolding empty_segments
IsExact-empty zero len lengths = tt
IsExact-empty (suc n) len lengths = (refl, IsExact-empty n (len + 1) lengths)

pub filled-ordered :
    (n len : ℕ) (lengths : List ℕ)
    → filled len 0 (empty_segments n len lengths) lengths ≡ ordered n len lengths
unfolding filled empty_segments ordered
filled-ordered zero len lengths = refl
filled-ordered (suc n) len lengths =
    ap (λ xs. symbols_of len 0 lengths ++ xs) (filled-ordered n (len + 1) lengths)

pub replicate-append : (m n v : ℕ) → replicate m v ++ replicate n v ≡ replicate (m + n) v
replicate-append zero n v = let e : n ≡ 0 + n = omega arith in ap (λ (k : ℕ). replicate k v) e
replicate-append (suc m) n v =
    let e : suc (m + n) ≡ suc m + n = omega arith in
    ap (λ l. v ∷ l) (replicate-append m n v) ∙ ap (λ (k : ℕ). replicate k v) e

plus_zero : (m n : ℕ) → m + n ≡ 0 + m + n
plus_zero m n = omega arith

pub render-empty :
    (n len : ℕ) (lengths : List ℕ)
    → render (empty_segments n len lengths) ≡ replicate (size (empty_segments n len lengths)) 0
unfolding render empty_segments size
render-empty zero len lengths = refl
render-empty (suc n) len lengths =
    ap (λ xs. replicate (count len lengths) 0 ++ xs) (render-empty n (len + 1) lengths)
    ∙ (replicate-append (count len lengths) (size (empty_segments n (len + 1) lengths)) 0
        ∙ ap (λ (k : ℕ). replicate k 0)
            (plus_zero (count len lengths) (size (empty_segments n (len + 1) lengths))))

size-skip :
    (n len l : ℕ) (lengths : List ℕ)
    → l < len
    → size (empty_segments n len (l ∷ lengths)) ≡ size (empty_segments n len lengths)
unfolding size empty_segments count
size-skip zero len l lengths h = refl
size-skip (suc n) len l lengths h = ground (arith, h, size-skip n (len + 1) l lengths)

size-cons :
    (n len l : ℕ) (lengths : List ℕ)
    → size (empty_segments n len (l ∷ lengths)) ≤ size (empty_segments n len lengths) + 1
unfolding size empty_segments count
size-cons zero len l lengths = omega arith
size-cons (suc n) len l lengths =
    ground (arith, size-skip n (len + 1) l lengths, size-cons n (len + 1) l lengths)

size-none : (n len : ℕ) → size (empty_segments n len []) ≡ 0
unfolding size empty_segments count
size-none zero len = refl
size-none (suc n) len = omega (arith, size-none n (len + 1))

pub size-length :
    (n len : ℕ) (lengths : List ℕ) → size (empty_segments n len lengths) ≤ length lengths
size-length n len [] = omega (arith, size-none n len)
size-length n len (l ∷ lengths) =
    omega (arith, size-cons n len l lengths, size-length n len lengths)
