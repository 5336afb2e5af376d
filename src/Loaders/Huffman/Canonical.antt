-- ===== src/Loaders/Huffman/Canonical.antt =====
-- `decode` inverts the canonical code of RFC 1951, section 3.2.2.
use rag_cpp.Common.{
  ℕ, zero, suc, ◌+◌, ◌-◌, ◌*◌, ◌≤◌, ◌<◌, ◌≡◌, refl, ap, subst, sym, ◌∙◌, List, [], ◌∷◌, ◌++◌, All,
  length, get_or, arith, inl, inr, Bool-cases, ltb→lt, ltb, lt→ltb, le→ltb, lt→leb,
}
use rag_cpp.Loaders.Bits.{BitReader, got, ◌>>=◌, bit}
use rag_cpp.Loaders.Bits.Stream.{stream, bit-stream, Then}
use rag_cpp.Loaders.Huffman.{symbol_at, decode_from, decode}

-- The code of the first symbol of each length, and the symbols of smaller length.
unfoldable pub first_code : List ℕ → ℕ → ℕ
first_code counts zero = 0
first_code counts (suc len) = 2 * (first_code counts len + get_or counts len 0)

unfoldable pub first_index : List ℕ → ℕ → ℕ
first_index counts zero = 0
first_index counts (suc len) = first_index counts len + get_or counts len 0

-- The number that bits spell behind those of `p`, highest first.
unfoldable pub spelled : ℕ → List ℕ → ℕ
spelled p [] = p
spelled p (b ∷ bs) = spelled (2 * p + b) bs

-- The same from a length on, whose first code is `first`.
code_from : List ℕ → ℕ → ℕ → ℕ
code_from counts first zero = first
code_from [] first (suc k) = code_from [] (2 * first) k
code_from (c ∷ counts) first (suc k) = code_from counts (2 * (first + c)) k

unfoldable pub index_from : List ℕ → ℕ → ℕ → ℕ
index_from counts index zero = index
index_from [] index (suc k) = index
index_from (c ∷ counts) index (suc k) = index_from counts (index + c) k

-- A shorter code stays below the first of a longer one.
spelled-code_from :
    (bs counts : List ℕ) (p first : ℕ)
    → All (λ b. b < 2) bs
    → p < first
    → spelled p bs < code_from counts first (length bs)
unfolding spelled code_from
spelled-code_from [] counts p first h l = l
spelled-code_from (b ∷ bs) [] p first h l =
    spelled-code_from bs [] (2 * p + b) (2 * first) h.1 (omega (arith, h, l))
spelled-code_from (b ∷ bs) (c ∷ counts) p first h l =
    spelled-code_from bs counts (2 * p + b) (2 * (first + c)) h.1 (omega (arith, h, l))

symbol_at_lem :
    (symbols : List ℕ) (i : ℕ) (r : BitReader)
    → i < length symbols
    → symbol_at symbols i r ≡ got (get_or symbols i 0) r
symbol_at_lem symbols i r h = rw (lt→leb _ _ h) refl

not_shorter :
    (counts : List ℕ) (q first b : ℕ) (bs : List ℕ)
    → All (λ x. x < 2) (b ∷ bs)
    → code_from counts (2 * first) (length bs) ≤ spelled (2 * q + b) bs
    → first ≤ q
not_shorter counts q first b bs h l = elim (Bool-cases (ltb q first)) [
  | inl e ↦ absurd (
      omega (
        arith,
        l,
        spelled-code_from bs counts (2 * q + b) (2 * first) h.1 (omega (arith, h.0, ltb→lt _ _ e)),
      ))
  | inr e ↦ ground (arith, e)
]

module _ (c : ℕ) (counts symbols : List ℕ) (code first index b : ℕ) (r s : BitReader)
    (e : bit r ≡ got b s) where
  decode_from-hit :
      code + b < first + c
      → decode_from (c ∷ counts) symbols code first index r
        ≡ symbol_at symbols (index + (code + b) - first) s
  unfolding decode_from ◌>>=◌
  decode_from-hit h = rw e (rw (lt→ltb _ _ h) refl)

  decode_from-miss :
      first + c ≤ code + b
      → decode_from (c ∷ counts) symbols code first index r
        ≡ decode_from counts symbols (2 * (code + b)) (2 * (first + c)) (index + c) s
  unfolding decode_from ◌>>=◌
  decode_from-miss h = rw e (rw (le→ltb _ _ h) refl)

decode_from-code :
    (counts symbols : List ℕ) (p first index j b : ℕ) (bs rest : List ℕ) (r : BitReader)
    → All (λ x. x < 2) (b ∷ bs)
    → j < get_or counts (length bs) 0
    → index_from counts index (length bs) + j < length symbols
    → spelled p (b ∷ bs) ≡ code_from counts first (length bs) + j
    → stream r ≡ b ∷ (bs ++ rest)
    → (s : BitReader) × (decode_from counts symbols (2 * p) first index r
        ≡ got (get_or symbols (index_from counts index (length bs) + j) 0) s)
      × Then r rest s
unfolding spelled code_from index_from
decode_from-code [] symbols p first index j b bs rest r h k l e st = absurd (omega (arith, k))
decode_from-code (c ∷ counts) symbols p first index j b [] rest r h k l e st =
    let (s, q, t) = bit-stream r b rest st in
    let at : index + (2 * p + b) - first ≡ index + j = omega (arith, e) in
    (
      s,
      decode_from-hit c counts symbols (2 * p) first index b _ _ q (omega (arith, e, k))
          ∙ (ap (λ (i : ℕ). symbol_at symbols i s) at ∙ symbol_at_lem symbols (index + j) s l),
      t,
    )
decode_from-code (c ∷ counts) symbols p first index j b (b2 ∷ bs) rest r h k l e st =
    let (s, q, t) = bit-stream r b (b2 ∷ (bs ++ rest)) st in
    let (u, v, w) =
      decode_from-code counts symbols (2 * p + b) (2 * (first + c)) (index + c) j b2 bs rest s h.1 k
        l e t.1 in
    let longer = not_shorter counts (2 * p + b) (first + c) b2 bs h.1 (omega (arith, e)) in
    (u, decode_from-miss c counts symbols (2 * p) first index b _ _ q longer ∙ v, (w.0 ∙ t.0, w.1))

-- The two definitions of the first code and the first index agree.
code_from_snoc :
    (counts : List ℕ) (first k : ℕ)
    → code_from counts first (suc k) ≡ 2 * (code_from counts first k + get_or counts k 0)
unfolding code_from
code_from_snoc [] first zero = omega arith
code_from_snoc [] first (suc k) = code_from_snoc [] (2 * first) k
code_from_snoc (c ∷ counts) first zero = omega arith
code_from_snoc (c ∷ counts) first (suc k) = code_from_snoc counts (2 * (first + c)) k

index_from_snoc :
    (counts : List ℕ) (index k : ℕ)
    → index_from counts index (suc k) ≡ index_from counts index k + get_or counts k 0
unfolding index_from
index_from_snoc [] index zero = omega arith
index_from_snoc [] index (suc k) = omega arith
index_from_snoc (c ∷ counts) index zero = omega arith
index_from_snoc (c ∷ counts) index (suc k) = index_from_snoc counts (index + c) k

code_from-first_code :
    (counts : List ℕ) (k : ℕ) → code_from counts 0 k ≡ first_code (0 ∷ counts) (suc k)
unfolding first_code code_from
code_from-first_code counts zero = omega arith
code_from-first_code counts (suc k) =
    code_from_snoc counts 0 k
    ∙ ap (λ (x : ℕ). 2 * (x + get_or counts k 0)) (code_from-first_code counts k)

pub index_from-first_index :
    (counts : List ℕ) (k : ℕ) → index_from counts 0 k ≡ first_index (0 ∷ counts) (suc k)
unfolding first_index index_from
index_from-first_index counts zero = omega arith
index_from-first_index counts (suc k) =
    index_from_snoc counts 0 k
    ∙ ap (λ (x : ℕ). x + get_or counts k 0) (index_from-first_index counts k)

-- Where the bits before the reader spell a code of the table, the `j`-th one of `len` bits, `decode`
-- returns the symbol that stands at its place, the `j`-th behind those with shorter codes, and reads
-- no bit more.
pub decode-canonical :
    (counts symbols : List ℕ) (len j : ℕ) (bs rest : List ℕ) (r : BitReader)
    → All (λ b. b < 2) bs
    → length bs ≡ suc len
    → j < get_or counts len 0
    → first_index (0 ∷ counts) (suc len) + j < length symbols
    → spelled 0 bs ≡ first_code (0 ∷ counts) (suc len) + j
    → stream r ≡ bs ++ rest
    → (s : BitReader) × (decode (record { counts = 0 ∷ counts; symbols = symbols }) r
        ≡ got (get_or symbols (first_index (0 ∷ counts) (suc len) + j) 0) s)
      × Then r rest s
unfolding decode
decode-canonical counts symbols len j [] rest r h e k l v st = absurd (omega (arith, e))
decode-canonical counts symbols len j (b ∷ bs) rest r h e k l v st =
    let tail : length bs ≡ len = omega (arith, e) in
    let at : index_from counts 0 (length bs) ≡ first_index (0 ∷ counts) (suc len) =
      ap (index_from counts 0) tail ∙ index_from-first_index counts len in
    let (s, q, t) =
      decode_from-code counts symbols 0 0 0 j b bs rest r h
        (subst (λ n. j < get_or counts n 0) (sym tail) k)
        (subst (λ n. n + j < length symbols) (sym at) l)
        (v
          ∙ ap (λ (n : ℕ). n + j)
              (sym (ap (code_from counts 0) tail ∙ code_from-first_code counts len)))
        st in
    (s, q ∙ ap (λ (n : ℕ). got (get_or symbols (n + j) 0) s) at, t)
