-- ===== src/Dense/Wordpiece/Greedy.antt =====
-- The pieces of a word are the greedy longest match.
use rag_cpp.Common.{
  ℕ, zero, suc, ◌+◌, ◌-◌, ◌≤◌, ◌<◌, ◌≡◌, refl, false, Option, none, some, List, [], ◌∷◌, length,
  ltb, leb, arith, Bool-cases, Option-cases, inl, inr, leb→le,
}
use rag_cpp.Common.SortedMap.{find}
use rag_cpp.Core.{text_order}
use rag_cpp.Dense.Wordpiece.{
  piece, found, longest, Pieces, whole, bad, unfinished, with_piece, pieces, on_longest,
}

-- No piece at `start` longer than `len` and of at most `most` letters is in the vocabulary.
abbrev pub NoLonger : List (List ℕ × ℕ) → List ℕ → ℕ → ℕ → ℕ → Type 0
NoLonger vocab word start len most =
    (k : ℕ) → len < k → k ≤ most → find text_order (piece word start k) vocab ≡ none

-- `answer` is the longest piece at `start` of at most `most` letters, if there is one.
abbrev pub IsLongest : List (List ℕ × ℕ) → List ℕ → ℕ → ℕ → Option (ℕ × ℕ) → Type 0
IsLongest vocab word start most none = NoLonger vocab word start 0 most
IsLongest vocab word start most (some (id, len)) =
    (1 ≤ len)
    × (len ≤ most)
    × (find text_order (piece word start len) vocab ≡ some id)
    × NoLonger vocab word start len most

NoLonger-suc :
    (vocab : List (List ℕ × ℕ)) (word : List ℕ) (start len most : ℕ)
    → find text_order (piece word start (suc most)) vocab ≡ none
    → NoLonger vocab word start len most
    → NoLonger vocab word start len (suc most)
NoLonger-suc vocab word start len most e h k l m = elim (Bool-cases (leb k most)) [
  | inl d ↦ h k l (leb→le k most d)
  | inr d ↦ let last : k ≡ suc most = ground arith in rw last e
]

IsLongest-suc :
    (vocab : List (List ℕ × ℕ)) (word : List ℕ) (start most : ℕ) (answer : Option (ℕ × ℕ))
    → find text_order (piece word start (suc most)) vocab ≡ none
    → IsLongest vocab word start most answer
    → IsLongest vocab word start (suc most) answer
IsLongest-suc vocab word start most none e h = NoLonger-suc vocab word start 0 most e h
IsLongest-suc vocab word start most (some (id, len)) e h =
    (h.0, omega (arith, h.1), h.2, NoLonger-suc vocab word start len most e h.3)

longest-IsLongest :
    (vocab : List (List ℕ × ℕ)) (word : List ℕ) (start most : ℕ)
    → IsLongest vocab word start most (longest vocab word start most)
unfolding longest found
longest-IsLongest vocab word start zero = λ k l m. absurd (omega arith)
longest-IsLongest vocab word start (suc most) =
    elim (Option-cases (find text_order (piece word start (suc most)) vocab)) [
      | inr (id, e) ↦ rw e (omega arith, omega arith, e, λ k l m. absurd (omega arith))
      | inl e ↦
          rw e (IsLongest-suc vocab word start most _ e (longest-IsLongest vocab word start most))
    ]

-- `ids` are the greedy pieces of `word` from `start` to `stop`.
abbrev pub Spells : List (List ℕ × ℕ) → List ℕ → List ℕ → ℕ → ℕ → Type 0
Spells vocab word [] start stop = start ≡ stop
Spells vocab word (id ∷ ids) start stop =
    (len : ℕ) × (IsLongest vocab word start (length word - start) (some (id, len))
      × Spells vocab word ids (start + len) stop)

-- Greedy pieces from `start` lead to a place in the word where no piece begins.
abbrev pub IsStuck : List (List ℕ × ℕ) → List ℕ → ℕ → Type 0
IsStuck vocab word start =
    (ids : List ℕ) × ((stop : ℕ) × (Spells vocab word ids start stop
        × ((stop < length word) × NoLonger vocab word stop 0 (length word - stop))))

abbrev pub Explains : List (List ℕ × ℕ) → List ℕ → ℕ → Pieces → Type 0
Explains vocab word start (whole ids) = Spells vocab word ids start (length word)
Explains vocab word start bad = IsStuck vocab word start
Explains vocab word start unfinished = ⊥

with_piece-Explains :
    (vocab : List (List ℕ × ℕ)) (word : List ℕ) (start id len : ℕ) (rest : Pieces)
    → IsLongest vocab word start (length word - start) (some (id, len))
    → Explains vocab word (start + len) rest
    → Explains vocab word start (with_piece id rest)
unfolding with_piece
with_piece-Explains vocab word start id len (whole ids) h k = (len, (h, k))
with_piece-Explains vocab word start id len bad h (ids, (stop, (k, l))) =
    (id ∷ ids, (stop, ((len, (h, k)), l)))
with_piece-Explains vocab word start id len unfinished h k = k

pieces-Explains :
    (f : ℕ) (vocab : List (List ℕ × ℕ)) (word : List ℕ) (start : ℕ)
    → start ≤ length word
    → length word ≤ start + f
    → Explains vocab word start (pieces f vocab word start)
unfolding pieces on_longest
pieces-Explains zero vocab word start h k =
    let e : ltb start (length word) ≡ false = ground arith in rw e (omega arith)
pieces-Explains (suc f) vocab word start h k = elim (Bool-cases (ltb start (length word))) [
  | inr e ↦ rw e (ground arith)
  | inl e ↦
      let best = longest-IsLongest vocab word start (length word - start) in
      elim (Option-cases (longest vocab word start (length word - start))) [
        | inl d ↦ rw (e, d) ([], (start, (refl, (ground arith, rw d at best))))
        | inr ((id, len), d) ↦
            let b = rw d at best in
            rw (e, d)
              (with_piece-Explains vocab word start id len _ b (
                pieces-Explains f vocab word (start + len) (omega (arith, b.1))
                  (omega (arith, b.0))))
      ]
]

-- `wordpiece` splits every word: either into ids that are the greedy longest pieces of the word from
-- its start to its end, or it gives up at a place which greedy pieces lead to and where no piece of
-- the vocabulary begins.
pub pieces_greedy :
    (vocab : List (List ℕ × ℕ)) (word : List ℕ)
    → Explains vocab word 0 (pieces (length word) vocab word 0)
pieces_greedy vocab word = pieces-Explains (length word) vocab word 0 (omega arith) (omega arith)
