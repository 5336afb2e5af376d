-- ===== src/Loaders/Huffman/Segments.antt =====
-- The array of symbols while `build` fills it: one segment for each code length, with the symbols that
-- it holds already and the room that is left.
use rag_cpp.Common.{
  ℕ, zero, suc, ◌+◌, ◌-◌, ◌%◌, ◌^◌, ◌≤◌, ◌<◌, ◌≡◌, refl, ap, sym, ◌∙◌, List, [], ◌∷◌, ◌++◌, length,
  get_or, arith, ◌==◌, ==_iff, length-append, append_assoc, append-nil, if◌then◌else◌,
}
use rag_cpp.Loaders.Huffman.{set_at, replicate, bump}

-- The symbols from `i` on that have a code of that length, and how many they are.
unfoldable pub symbols_of : ℕ → ℕ → List ℕ → List ℕ
symbols_of len i [] = []
symbols_of len i (l ∷ lengths) =
    let rest = symbols_of len (i + 1) lengths in if l == len then i ∷ rest else rest

unfoldable pub count : ℕ → List ℕ → ℕ
count len [] = 0
count len (l ∷ lengths) = (if l == len then 1 else 0) + count len lengths

abbrev pub Segment : Type 0
Segment = List ℕ × ℕ

unfoldable pub render : List Segment → List ℕ
render [] = []
render ((held, room) ∷ segments) = held ++ (replicate room 0 ++ render segments)

unfoldable pub places : ℕ → List Segment → List ℕ
places start [] = []
places start ((held, room) ∷ segments) =
    (start + length held) ∷ places (start + (length held + room)) segments

unfoldable pub put : ℕ → ℕ → List Segment → List Segment
put m x [] = []
put zero x ((held, room) ∷ segments) = (held ++ x ∷ [], room - 1) ∷ segments
put (suc m) x (segment ∷ segments) = segment ∷ put m x segments

unfoldable pub size : List Segment → ℕ
size [] = 0
size ((held, room) ∷ segments) = length held + room + size segments

abbrev pub HasRoom : ℕ → List Segment → Type 0
HasRoom m [] = ⊥
HasRoom zero ((held, room) ∷ segments) = 1 ≤ room
HasRoom (suc m) (segment ∷ segments) = HasRoom m segments

pub length-replicate : (n v : ℕ) → length (replicate n v) ≡ n
length-replicate zero v = refl
length-replicate (suc n) v = omega (arith, length-replicate n v)

set_at-append :
    (xs ys : List ℕ) (i n v : ℕ) → n ≡ length xs + i → set_at n v (xs ++ ys) ≡ xs ++ set_at i v ys
unfolding set_at
set_at-append [] ys i n v e = let f : n ≡ i = omega (arith, e) in ap (λ (k : ℕ). set_at k v ys) f
set_at-append (x ∷ xs) ys i zero v e = absurd (omega (arith, e))
set_at-append (x ∷ xs) ys i (suc n) v e =
    ap (λ l. x ∷ l) (set_at-append xs ys i n v (omega (arith, e)))

places-ge :
    (m start : ℕ) (segments : List Segment)
    → HasRoom m segments
    → start ≤ get_or (places start segments) m 0
unfolding places
places-ge m start [] h = absurd h
places-ge zero start ((held, room) ∷ segments) h = omega arith
places-ge (suc m) start ((held, room) ∷ segments) h =
    omega (arith, places-ge m (start + (length held + room)) segments h)

regroup : (xs ys zs rest : List ℕ) → (xs ++ (ys ++ zs)) ++ rest ≡ (xs ++ ys) ++ (zs ++ rest)
regroup xs ys zs rest =
    append_assoc xs (ys ++ zs) rest
    ∙ (ap (λ l. xs ++ l) (append_assoc ys zs rest) ∙ sym (append_assoc xs ys (zs ++ rest)))

-- A symbol that is written at the place of its length goes into the segment.
pub set_at-render :
    (m x start i : ℕ) (segments : List Segment) (rest : List ℕ)
    → HasRoom m segments
    → start + i ≡ get_or (places start segments) m 0
    → set_at i x (render segments ++ rest) ≡ render (put m x segments) ++ rest
unfolding places render put set_at
set_at-render m x start i [] rest h e = absurd h
set_at-render zero x start i ((held, zero) ∷ segments) rest h e = absurd (omega (arith, h))
set_at-render zero x start i ((held, suc room) ∷ segments) rest h e =
    let r : suc room - 1 ≡ room = omega arith in
    let tail = replicate room 0 ++ render segments in
    rw r (
      rw (append_assoc held (0 ∷ tail) rest) (
        set_at-append held (0 ∷ (tail ++ rest)) 0 i x (omega (arith, e))
        ∙ sym
            (append_assoc (held ++ x ∷ []) tail rest ∙ append_assoc held (x ∷ []) (tail ++ rest))))
set_at-render (suc m) x start i ((held, room) ∷ segments) rest h e =
    let front = held ++ replicate room 0 in
    let l : length front ≡ length held + room =
      omega (arith, length-append held (replicate room 0), length-replicate room 0) in
    let start2 = start + (length held + room) in
    let ge = places-ge m start2 segments h in
    rw (regroup held (replicate room 0) (render segments) rest) (
      set_at-append front (render segments ++ rest) (i - (length held + room)) i x
        (omega (arith, l, e, ge))
      ∙ (ap (λ xs. front ++ xs)
            (set_at-render m x start2 (i - (length held + room)) segments rest h
              (omega (arith, e, ge)))
          ∙ sym (regroup held (replicate room 0) (render (put m x segments)) rest)))

pub bump-places :
    (m x start : ℕ) (segments : List Segment)
    → HasRoom m segments
    → start + size segments < 2 ^ 16
    → bump m (places start segments) ≡ places start (put m x segments)
unfolding places put bump size
bump-places m x start [] h b = absurd h
bump-places zero x start ((held, room) ∷ segments) h b =
    let at : (start + length held + 1) % 2 ^ 16 ≡ start + length (held ++ x ∷ []) =
      omega (arith, b, h, length-append held (x ∷ [])) in
    let behind : start + (length held + room) ≡ start + (length (held ++ x ∷ []) + (room - 1)) =
      omega (arith, h, length-append held (x ∷ [])) in
    ap (λ n. n ∷ places (start + (length held + room)) segments) at
    ∙ ap (λ n. (start + length (held ++ x ∷ [])) ∷ places n segments) behind
bump-places (suc m) x start ((held, room) ∷ segments) h b =
    ap (λ l. (start + length held) ∷ l)
      (bump-places m x (start + (length held + room)) segments h (omega (arith, b)))

pub size-put :
    (m x : ℕ) (segments : List Segment)
    → HasRoom m segments
    → size (put m x segments) ≡ size segments
unfolding size put
size-put m x [] h = absurd h
size-put zero x ((held, room) ∷ segments) h = omega (arith, h, length-append held (x ∷ []))
size-put (suc m) x ((held, room) ∷ segments) h = omega (arith, size-put m x segments h)

-- The segments when the lengths that follow are done.
unfoldable pub filled : ℕ → ℕ → List Segment → List ℕ → List ℕ
filled len i [] lengths = []
filled len i ((held, room) ∷ segments) lengths =
    (held ++ symbols_of len i lengths) ++ filled (len + 1) i segments lengths

pub filled-skip :
    (len i l : ℕ) (segments : List Segment) (lengths : List ℕ)
    → l < len
    → filled len i segments (l ∷ lengths) ≡ filled len (i + 1) segments lengths
unfolding filled symbols_of
filled-skip len i l [] lengths h = refl
filled-skip len i l ((held, room) ∷ segments) lengths h =
    ground (arith, h, filled-skip (len + 1) i l segments lengths)

pub filled-put :
    (m len i l : ℕ) (segments : List Segment) (lengths : List ℕ)
    → HasRoom m segments
    → l ≡ len + m
    → filled len (i + 1) (put m i segments) lengths ≡ filled len i segments (l ∷ lengths)
unfolding filled symbols_of put
filled-put m len i l [] lengths h e = absurd h
filled-put zero len i l ((held, room) ∷ segments) lengths h e =
    let rest = symbols_of len (i + 1) lengths in
    rw ((==_iff l len).1 (omega (arith, e))) (
      ap (λ xs. xs ++ filled (len + 1) (i + 1) segments lengths) (append_assoc held (i ∷ []) rest)
      ∙ ap (λ xs. (held ++ i ∷ rest) ++ xs)
          (sym (filled-skip (len + 1) i l segments lengths (omega (arith, e)))))
filled-put (suc m) len i l ((held, room) ∷ segments) lengths h e =
    ground (arith, e, filled-put m (len + 1) i l segments lengths h)

-- The room of each segment is what the lengths that follow need.
abbrev pub IsExact : ℕ → List Segment → List ℕ → Type 0
IsExact len [] lengths = Unit {0}
IsExact len ((held, room) ∷ segments) lengths =
    (room ≡ count len lengths) × IsExact (len + 1) segments lengths

pub IsExact-skip :
    (len l : ℕ) (segments : List Segment) (lengths : List ℕ)
    → l < len
    → IsExact len segments (l ∷ lengths)
    → IsExact len segments lengths
unfolding count
IsExact-skip len l [] lengths h e = tt
IsExact-skip len l ((held, room) ∷ segments) lengths h e =
    (ground (arith, h, e.0), IsExact-skip (len + 1) l segments lengths (omega (arith, h)) e.1)

pub IsExact-put :
    (m len l x : ℕ) (segments : List Segment) (lengths : List ℕ)
    → l ≡ len + m
    → m < length segments
    → IsExact len segments (l ∷ lengths)
    → HasRoom m segments × IsExact len (put m x segments) lengths
unfolding count put
IsExact-put m len l x [] lengths e k h = absurd (omega (arith, k))
IsExact-put zero len l x ((held, room) ∷ segments) lengths e k h = (
  ground (arith, e, h.0),
  (ground (arith, e, h.0), IsExact-skip (len + 1) l segments lengths (omega (arith, e)) h.1),
)
IsExact-put (suc m) len l x ((held, room) ∷ segments) lengths e k h =
    let (r, f) =
      IsExact-put m (len + 1) l x segments lengths (omega (arith, e)) (omega (arith, k)) h.1 in
    (r, (ground (arith, e, h.0), f))

pub filled-none :
    (len i : ℕ) (segments : List Segment)
    → IsExact len segments []
    → filled len i segments [] ≡ render segments
unfolding filled symbols_of render count
filled-none len i [] h = refl
filled-none len i ((held, room) ∷ segments) h = rw h.0 (
    ap (λ xs. xs ++ filled (len + 1) i segments []) (append-nil held)
    ∙ ap (λ xs. held ++ xs) (filled-none (len + 1) i segments h.1))
