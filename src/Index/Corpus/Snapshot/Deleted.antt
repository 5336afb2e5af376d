-- ===== src/Index/Corpus/Snapshot/Deleted.antt =====
-- The TOMB section: the deleted ids, sorted.
use rag_cpp.Common.{
  ℕ, ◌+◌, ◌^◌, ◌<◌, ◌≡◌, refl, ◌∙◌, ap, Bool, false, ◌||◌, some, List, [], ◌∷◌, ◌++◌, length, All,
  All-middle, ltb, ◌==◌, arith, Bool-cases, inl, inr, append_assoc,
}
use rag_cpp.Store.Format.{le_bytes, write_u}
use rag_cpp.Store.Format.Codec.{at, read_u-then}
use rag_cpp.Index.Corpus.{contains_id}
use rag_cpp.Index.Corpus.Valid.{Distinct}
use rag_cpp.Index.Corpus.Snapshot.{insert_id, sorted_ids, read_deleted}

abbrev pub id_bytes : ℕ → List ℕ → List ℕ
id_bytes i rest = le_bytes 4 i ++ rest

pub write_id-append : (i : ℕ) (w rest : List ℕ) → write_u 4 i w ++ rest ≡ w ++ id_bytes i rest
write_id-append i w rest = append_assoc w (le_bytes 4 i) rest

abbrev pub IdFits : ℕ → Type 0
IdFits i = i < 2 ^ 32

contains_id-insert_id :
    (k i : ℕ) (ids : List ℕ) → contains_id k (insert_id i ids) ≡ ((k == i) || contains_id k ids)
unfolding insert_id
contains_id-insert_id k i [] = refl
contains_id-insert_id k i (j ∷ ids) = grind (arith, contains_id-insert_id k i ids)

pub contains_id-sorted_ids :
    (k : ℕ) (ids : List ℕ) → contains_id k (sorted_ids ids) ≡ contains_id k ids
unfolding sorted_ids
contains_id-sorted_ids k [] = refl
contains_id-sorted_ids k (i ∷ ids) =
    contains_id-insert_id k i (sorted_ids ids)
    ∙ ap (λ b. (k == i) || b) (contains_id-sorted_ids k ids)

Distinct-insert_id :
    (i : ℕ) (ids : List ℕ) → contains_id i ids ≡ false → Distinct ids → Distinct (insert_id i ids)
unfolding insert_id
Distinct-insert_id i [] h d = (refl, tt)
Distinct-insert_id i (j ∷ ids) h d = elim (Bool-cases (ltb j i)) [
  | inl e ↦ rw e (
    contains_id-insert_id j i ids ∙ ground (arith, d.0),
    Distinct-insert_id i ids (ground arith) d.1,
  )
  | inr e ↦ rw e (h, d)
]

pub Distinct-sorted_ids : (ids : List ℕ) → Distinct ids → Distinct (sorted_ids ids)
unfolding sorted_ids
Distinct-sorted_ids [] d = tt
Distinct-sorted_ids (i ∷ ids) d =
    Distinct-insert_id i (sorted_ids ids) (contains_id-sorted_ids i ids ∙ d.0)
      (Distinct-sorted_ids ids d.1)

All-insert_id : (i : ℕ) (ids : List ℕ) → IdFits i → All IdFits ids → All IdFits (insert_id i ids)
unfolding insert_id
All-insert_id i [] f h = (f, tt)
All-insert_id i (j ∷ ids) f h = elim (Bool-cases (ltb j i)) [
  | inl e ↦ rw e (h.0, All-insert_id i ids f h.1)
  | inr e ↦ rw e (f, h)
]

pub All-sorted_ids : (ids : List ℕ) → All IdFits ids → All IdFits (sorted_ids ids)
unfolding sorted_ids
All-sorted_ids [] h = tt
All-sorted_ids (i ∷ ids) h = All-insert_id i (sorted_ids ids) h.0 (All-sorted_ids ids h.1)

length-insert_id : (i : ℕ) (ids : List ℕ) → length (insert_id i ids) ≡ length ids + 1
unfolding insert_id
length-insert_id i [] = omega arith
length-insert_id i (j ∷ ids) = ground (arith, length-insert_id i ids)

pub length-sorted_ids : (ids : List ℕ) → length (sorted_ids ids) ≡ length ids
unfolding sorted_ids
length-sorted_ids [] = refl
length-sorted_ids (i ∷ ids) =
    omega (arith, length-insert_id i (sorted_ids ids), length-sorted_ids ids)

contains_id-append :
    (k i : ℕ) (done rest : List ℕ) → contains_id k (done ++ i ∷ rest) ≡ false → (i == k) ≡ false
contains_id-append k i [] rest h = ground arith
contains_id-append k i (j ∷ done) rest h = contains_id-append k i done rest (ground arith)

Distinct-middle :
    (done : List ℕ) (i : ℕ) (rest : List ℕ)
    → Distinct (done ++ i ∷ rest)
    → contains_id i done ≡ false
Distinct-middle [] i rest d = refl
Distinct-middle (j ∷ done) i rest d =
    let differs = contains_id-append j i done rest d.0 in
    rw differs (Distinct-middle done i rest d.1)

-- What the loop reads: distinct ids of 32 bits.
abbrev pub Readable : List ℕ → Type 0
Readable ids = Distinct ids × All IdFits ids

pub read_deleted-bytes :
    (done more : List ℕ) (i : ℕ) (rest : List ℕ) (b : Bool)
    → Readable (done ++ i ∷ more)
    → read_deleted done (at (id_bytes i rest) b) ≡ (some (done ++ i ∷ []), at rest b)
unfolding read_deleted
read_deleted-bytes done more i rest b h =
    let fits = All-middle IdFits done i more h.1 in
    read_u-then _ 4 i _ b (omega (arith, fits)) (rw (Distinct-middle done i more h.0) refl)
