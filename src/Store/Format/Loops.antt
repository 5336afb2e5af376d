-- ===== src/Store/Format/Loops.antt =====
-- A loop of reads gives back what a loop of writes has written.
use rag_cpp.Common.{
  ℕ, ◌%◌, ◌^◌, ◌≡◌, refl, ◌∙◌, Bool, some, List, [], ◌∷◌, ◌++◌, length, append-nil, append_assoc,
}
use rag_cpp.Store.Format.{le_bytes, Read, repeat_read, write_each}
use rag_cpp.Store.Format.Codec.{at, >>=-then}

-- A string with its length, and `rest` behind it.
abbrev pub str_bytes : List ℕ → List ℕ → List ℕ
str_bytes s rest = le_bytes 4 (length s % 2 ^ 32) ++ (s ++ rest)

module _ {X : Type 0} where
  -- The bytes of the items, with `rest` behind them.
  abbrev pub each_bytes : (X → List ℕ → List ℕ) → List X → List ℕ → List ℕ
  each_bytes bytes [] rest = rest
  each_bytes bytes (x ∷ xs) rest = bytes x (each_bytes bytes xs rest)

  pub write_each-append :
      (write bytes : X → List ℕ → List ℕ)
      → ((x : X) (w rest : List ℕ) → write x w ++ rest ≡ w ++ bytes x rest)
      → (xs : List X) (w rest : List ℕ)
      → write_each write xs w ++ rest ≡ w ++ each_bytes bytes xs rest
  unfolding write_each
  write_each-append write bytes h [] w rest = refl
  write_each-append write bytes h (x ∷ xs) w rest =
      write_each-append write bytes h xs (write x w) rest ∙ h x w (each_bytes bytes xs rest)

  -- Each round has read `done` before and reads the item behind it, in a list that meets `Q`.
  pub repeat_read-each_bytes :
      (f : List X → Read (List X)) (bytes : X → List ℕ → List ℕ) (Q : List X → Type 0) (b : Bool)
      → ((done xs : List X) (x : X) (rest : List ℕ)
          → Q (done ++ x ∷ xs)
          → f done (at (bytes x rest) b) ≡ (some (done ++ x ∷ []), at rest b))
      → (xs done : List X) (rest : List ℕ) → Q (done ++ xs)
      → repeat_read (length xs) f done (at (each_bytes bytes xs rest) b)
        ≡ (some (done ++ xs), at rest b)
  unfolding repeat_read
  repeat_read-each_bytes f bytes Q b step [] done rest q = rw append-nil refl
  repeat_read-each_bytes f bytes Q b step (x ∷ xs) done rest q =
      >>=-then _ (f done) (step done xs x (each_bytes bytes xs rest) q) (
        repeat_read-each_bytes f bytes Q b step xs (done ++ x ∷ []) rest (rw append_assoc q)
        ∙ rw append_assoc refl)
