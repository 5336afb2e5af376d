-- ===== src/Loaders/Huffman/Sorted.antt =====
-- The symbols of a table stand in the order of their codes, so that `decode` inverts the code that
-- the lengths stand for.
use rag_cpp.Common.{
  ℕ, zero, suc, ◌+◌, ◌-◌, ◌^◌, ◌≤◌, ◌<◌, ◌≡◌, refl, ap, sym, ◌∙◌, subst, Bool, true, false, none,
  some, List, [], ◌∷◌, ◌++◌, All, All-middle, length, get_or, drop, arith, inl, inr, Bool-cases,
  ◌==◌, ==_refl, length-append, append_assoc, if◌then◌else◌,
}
use rag_cpp.Store.Format.Ensures.{some_inj, no_value}
use rag_cpp.Loaders.Bits.{BitReader, got}
use rag_cpp.Loaders.Bits.Stream.{stream, Then}
use rag_cpp.Loaders.Huffman.{
  Huffman, set_at, replicate, fits, offsets, place, counts_of, build, decode,
}
use rag_cpp.Loaders.Huffman.Canonical.{
  first_code, first_index, spelled, decode-canonical, index_from, index_from-first_index,
}
use rag_cpp.Loaders.Huffman.Segments.{symbols_of, count, render, places, size}
use rag_cpp.Loaders.Huffman.Placing.{
  tallied, place-filled, count_lengths-tallied, code_counts, empty_segments, ordered,
  tallied-code_counts, offsets-places, IsExact-empty, filled-ordered, render-empty, size-length,
  replicate-append,
}

All-replicate : (P : ℕ → Type 0) (n v : ℕ) → P v → All P (replicate n v)
All-replicate P zero v h = tt
All-replicate P (suc n) v h = (h, All-replicate P n v h)

counts_of-code_counts :
    (lengths : List ℕ)
    → All (λ l. l < 16) lengths
    → length lengths < 2 ^ 16
    → counts_of lengths ≡ 0 ∷ code_counts 15 1 lengths
unfolding set_at tallied
counts_of-code_counts lengths h b =
    ap (set_at 0 0) (
      count_lengths-tallied lengths (replicate 16 0) h
        (All-replicate (λ c. c + length lengths < 2 ^ 16) 16 0 (omega (arith, b))))
    ∙ ap (λ l. 0 ∷ l) (tallied-code_counts 15 1 lengths)

length-empty : (n len : ℕ) (lengths : List ℕ) → length (empty_segments n len lengths) ≡ n
unfolding empty_segments
length-empty zero len lengths = refl
length-empty (suc n) len lengths = omega (arith, length-empty n (len + 1) lengths)

-- What `build` leaves over at the end of the array.
abbrev unused : List ℕ → List ℕ
unused lengths = replicate (length lengths - size (empty_segments 15 1 lengths)) 0

below_size :
    (n : ℕ) (lengths : List ℕ) → n ≡ 15 → All (λ l. l < 16) lengths → All (λ l. l ≤ n) lengths
below_size n [] e h = tt
below_size n (l ∷ lengths) e h = (omega (arith, e, h.0), below_size n lengths e h.1)

place-ordered :
    (lengths : List ℕ)
    → All (λ l. l < 16) lengths
    → length lengths < 2 ^ 16
    → place 0 lengths (0 ∷ offsets 0 (code_counts 15 1 lengths)) (replicate (length lengths) 0)
      ≡ ordered 15 1 lengths ++ unused lengths
place-ordered lengths h b =
    let segments = empty_segments 15 1 lengths in
    let small : size segments ≤ length lengths = size-length 15 1 lengths in
    let whole : size segments + (length lengths - size segments) ≡ length lengths =
      omega (arith, small) in
    let array : replicate (length lengths) 0 ≡ render segments ++ unused lengths =
      ap (λ (n : ℕ). replicate n 0) (sym whole)
      ∙ (sym (replicate-append (size segments) (length lengths - size segments) 0)
          ∙ ap (λ xs. xs ++ unused lengths) (sym (render-empty 15 1 lengths))) in
    ap (λ offs. place 0 lengths (0 ∷ offs) (replicate (length lengths) 0))
      (offsets-places 15 1 0 lengths (omega (arith, small, b)))
    ∙ (ap (place 0 lengths (0 ∷ places 0 segments)) array
        ∙ (place-filled lengths 0 segments (unused lengths)
              (below_size (length segments) lengths (length-empty 15 1 lengths) h)
              (omega (arith, b)) (omega (arith, small, b)) (IsExact-empty 15 1 lengths)
            ∙ ap (λ xs. xs ++ unused lengths) (filled-ordered 15 1 lengths)))

abbrev table_of : List ℕ → List ℕ → Huffman
table_of lengths counts = record {
  counts = counts;
  symbols = place 0 lengths (0 ∷ offsets 0 (drop 1 counts)) (replicate (length lengths) 0);
}

some_if : (b : Bool) (x h : Huffman) → (if b then some x else none) ≡ some h → h ≡ x
some_if true x h e = sym (some_inj e)
some_if false x h e = absurd (no_value e)

build-ordered :
    (lengths : List ℕ) (h : Huffman)
    → All (λ l. l < 16) lengths
    → length lengths < 2 ^ 16
    → build lengths ≡ some h
    → h ≡ record {
      counts = 0 ∷ code_counts 15 1 lengths;
      symbols = ordered 15 1 lengths ++ unused lengths;
    }
unfolding build
build-ordered lengths h a b e =
    some_if (fits 1 (drop 1 (counts_of lengths))) (table_of lengths (counts_of lengths)) h e
    ∙ (ap (table_of lengths) (counts_of-code_counts lengths a b)
        ∙ ap (λ xs. record { counts = 0 ∷ code_counts 15 1 lengths; symbols = xs })
            (place-ordered lengths a b))

next : (i n : ℕ) → i + 1 + n ≡ i + suc n
next i n = omega arith

zero_plus : (n : ℕ) → 0 + n ≡ n
zero_plus n = omega arith

get_next : (x : ℕ) (xs : List ℕ) (k : ℕ) → get_or (x ∷ xs) (1 + k) 0 ≡ get_or xs k 0
get_next x xs k = let e : 1 + k ≡ suc k = omega arith in ap (λ (n : ℕ). get_or (x ∷ xs) n 0) e

get_same : (xs : List ℕ) (k : ℕ) → get_or xs (0 + k) 0 ≡ get_or xs k 0
get_same xs k = let e : 0 + k ≡ k = omega arith in ap (λ (n : ℕ). get_or xs n 0) e

get-symbols_of :
    (len i : ℕ) (front back : List ℕ) (rest : List ℕ)
    → (get_or (symbols_of len i (front ++ len ∷ back) ++ rest) (count len front) 0
        ≡ i + length front)
      × (count len front < count len (front ++ len ∷ back))
unfolding symbols_of count
get-symbols_of len i [] back rest = rw (==_refl len) (omega arith, omega arith)
get-symbols_of len i (l ∷ front) back rest =
    let (g, c) = get-symbols_of len (i + 1) front back rest in
    elim (Bool-cases (l == len)) [
      | inl e ↦
          rw e (get_next i _ (count len front) ∙ (g ∙ next i (length front)), omega (arith, c))
      | inr e ↦ rw e (get_same _ (count len front) ∙ (g ∙ next i (length front)), omega (arith, c))
    ]

length-symbols_of :
    (len i : ℕ) (lengths : List ℕ) → length (symbols_of len i lengths) ≡ count len lengths
unfolding symbols_of count
length-symbols_of len i [] = refl
length-symbols_of len i (l ∷ lengths) = ground (arith, length-symbols_of len (i + 1) lengths)

get-append_at : (xs ys : List ℕ) (k : ℕ) → get_or (xs ++ ys) (length xs + k) 0 ≡ get_or ys k 0
get-append_at [] ys k = let e : 0 + k ≡ k = omega arith in ap (λ (n : ℕ). get_or ys n 0) e
get-append_at (x ∷ xs) ys k =
    let e : suc (length xs) + k ≡ suc (length xs + k) = omega arith in
    ap (λ (n : ℕ). get_or (x ∷ (xs ++ ys)) n 0) e ∙ get-append_at xs ys k

-- The symbols with shorter codes than those of `k` lengths from `len` on.
unfoldable below : ℕ → ℕ → List ℕ → ℕ
below len zero lengths = 0
below len (suc k) lengths = count len lengths + below (len + 1) k lengths

index_from-below :
    (n k len index : ℕ) (lengths : List ℕ)
    → k ≤ n
    → index_from (code_counts n len lengths) index k ≡ index + below len k lengths
unfolding index_from code_counts below
index_from-below n zero len index lengths h = omega arith
index_from-below zero (suc k) len index lengths h = absurd (omega (arith, h))
index_from-below (suc n) (suc k) len index lengths h =
    omega
      (arith, index_from-below n k (len + 1) (index + count len lengths) lengths (omega (arith, h)))

get-code_counts :
    (n k len l : ℕ) (lengths : List ℕ)
    → k < n
    → l ≡ len + k
    → get_or (code_counts n len lengths) k 0 ≡ count l lengths
unfolding code_counts
get-code_counts zero k len l lengths h e = absurd (omega (arith, h))
get-code_counts (suc n) zero len l lengths h e =
    let f : len ≡ l = omega (arith, e) in ap (λ x. count x lengths) f
get-code_counts (suc n) (suc k) len l lengths h e =
    get-code_counts n k (len + 1) l lengths (omega (arith, h)) (omega (arith, e))

module _ (l : ℕ) (front back : List ℕ) where
  abbrev lengths_of : List ℕ
  lengths_of = front ++ l ∷ back

  get-ordered :
      (n k len : ℕ) (rest : List ℕ)
      → k < n
      → l ≡ len + k
      → (get_or (ordered n len lengths_of ++ rest) (below len k lengths_of + count l front) 0
          ≡ length front)
        × (below len k lengths_of + count l front < length (ordered n len lengths_of ++ rest))
  unfolding ordered below
  get-ordered zero k len rest h e = absurd (omega (arith, h))
  get-ordered (suc n) zero len rest h e =
      let same : l ≡ len = omega (arith, e) in
      let later = ordered n (len + 1) lengths_of in
      let (g, c) = get-symbols_of l 0 front back (later ++ rest) in
      let more : length ((symbols_of l 0 lengths_of ++ later) ++ rest)
          ≡ count l lengths_of + length (later ++ rest) =
        ap length (append_assoc (symbols_of l 0 lengths_of) later rest)
        ∙ (length-append (symbols_of l 0 lengths_of) (later ++ rest)
            ∙ ap (λ (x : ℕ). x + length (later ++ rest)) (length-symbols_of l 0 lengths_of)) in
      let got_it : get_or ((symbols_of l 0 lengths_of ++ later) ++ rest) (0 + count l front) 0
          ≡ length front =
        ap (λ xs. get_or xs (0 + count l front) 0)
          (append_assoc (symbols_of l 0 lengths_of) later rest)
        ∙ (get_same (symbols_of l 0 lengths_of ++ (later ++ rest)) (count l front)
            ∙ (g ∙ zero_plus (length front))) in
      (
        ap (λ x. get_or ((symbols_of x 0 lengths_of ++ later) ++ rest) (0 + count l front) 0)
              (sym same)
            ∙ got_it,
        subst (λ x. 0 + count l front < length ((symbols_of x 0 lengths_of ++ later) ++ rest)) same
            (omega (arith, more, c)),
      )
  get-ordered (suc n) (suc k) len rest h e =
      let later = ordered n (len + 1) lengths_of in
      let here = symbols_of len 0 lengths_of in
      let (g, c) = get-ordered n k (len + 1) rest (omega (arith, h)) (omega (arith, e)) in
      let at : count len lengths_of + below (len + 1) k lengths_of + count l front
          ≡ length here + (below (len + 1) k lengths_of + count l front) =
        omega (arith, length-symbols_of len 0 lengths_of) in
      (
        ap (λ xs. get_or xs (count len lengths_of + below (len + 1) k lengths_of + count l front) 0)
              (append_assoc here later rest)
            ∙ (ap (λ (i : ℕ). get_or (here ++ (later ++ rest)) i 0) at
                ∙ (get-append_at here (later ++ rest) (below (len + 1) k lengths_of + count l front)
                    ∙ g)),
        omega (
          arith,
          at,
          c,
          ap length (append_assoc here later rest),
          length-append here (later ++ rest),
        ),
      )

-- The table that `build` makes of code lengths up to 15: where the bits before the reader spell the
-- code of a symbol, which is the first code of its length and the number of symbols before it with
-- the same length, `decode` returns that symbol and reads no bit more.
pub decode-build :
    (front back : List ℕ) (len : ℕ) (h : Huffman) (bs rest : List ℕ) (r : BitReader)
    → All (λ l. l < 16) (front ++ suc len ∷ back)
    → length (front ++ suc len ∷ back) < 2 ^ 16
    → build (front ++ suc len ∷ back) ≡ some h
    → All (λ b. b < 2) bs
    → length bs ≡ suc len
    → spelled 0 bs ≡ first_code h.counts (suc len) + count (suc len) front
    → stream r ≡ bs ++ rest
    → (s : BitReader) × (decode h r ≡ got (length front) s) × Then r rest s
decode-build front back len h bs rest r small short e bits length_bs code st =
    let lengths = front ++ suc len ∷ back in
    let table = build-ordered lengths h small short e in
    let counts = code_counts 15 1 lengths in
    let j = count (suc len) front in
    let len_small : len < 15 = omega (arith, All-middle (λ l. l < 16) front (suc len) back small) in
    let index : first_index (0 ∷ counts) (suc len) ≡ below 1 len lengths =
      sym (index_from-first_index counts len)
      ∙ (index_from-below 15 len 1 0 lengths (omega (arith, len_small))
          ∙ zero_plus (below 1 len lengths)) in
    let (g, c) =
      get-ordered (suc len) front back 15 len 1 (unused lengths) len_small (omega arith) in
    let (s, d, t) =
      decode-canonical counts (ordered 15 1 lengths ++ unused lengths) len j bs rest r bits
        length_bs
        (omega (
          arith,
          get-code_counts 15 len 1 (suc len) lengths len_small (omega arith),
          (get-symbols_of (suc len) 0 front back []).1,
        ))
        (omega (arith, index, c))
        (subst (λ x. spelled 0 bs ≡ first_code x.counts (suc len) + j) table code) st in
    (
      s,
      ap (λ x. decode x r) table
          ∙ (d
              ∙ ap (λ (x : ℕ). got x s)
                  (ap (λ (i : ℕ). get_or (ordered 15 1 lengths ++ unused lengths) (i + j) 0) index
                    ∙ g)),
      t,
    )
