-- ===== src/Cache/Order.antt =====
-- The keys in order of use, and the association list, as finite maps.
use rag_cpp.Common.{
  ℕ, suc, ◌≡◌, refl, ap, Bool, true, false, Option, none, some, List, [], ◌∷◌, arith, length, ◌||◌,
  if◌then◌else◌,
}
use rag_cpp.Core.{text_eq, text_eq_iff}
use rag_cpp.Cache.{lookup, update, erase, remove, last, pop_back}

abbrev pub contains : List ℕ → List (List ℕ) → Bool
contains k [] = false
contains k (j ∷ ks) = text_eq k j || contains k ks

-- No key stands twice.
abbrev pub Distinct : List (List ℕ) → Type 0
Distinct [] = Unit {0}
Distinct (k ∷ ks) = (contains k ks ≡ false) × Distinct ks

abbrev pub is_some {ℓ} : {A : Type ℓ} → Option A → Bool
is_some none = false
is_some (some a) = true

pub contains-remove :
    (k j : List ℕ) (ks : List (List ℕ))
    → Distinct ks
    → contains j (remove k ks) ≡ (if text_eq k j then false else contains j ks)
unfolding remove
contains-remove k j [] d = ground arith
contains-remove k j (i ∷ ks) d =
    ground (arith, contains-remove k j ks, text_eq_iff k j, text_eq_iff k i, text_eq_iff j i)

pub remove-Distinct : (k : List ℕ) (ks : List (List ℕ)) → Distinct ks → Distinct (remove k ks)
unfolding remove
remove-Distinct k [] d = tt
remove-Distinct k (i ∷ ks) d = ground (arith, remove-Distinct k ks, contains-remove k i ks)

pub length-remove :
    (k : List ℕ) (ks : List (List ℕ))
    → contains k ks ≡ true
    → suc (length (remove k ks)) ≡ length ks
unfolding remove
length-remove k [] h = ground arith
length-remove k (i ∷ ks) h = ground (arith, length-remove k ks)

pub contains-last : (ks : List (List ℕ)) (l : List ℕ) → last ks ≡ some l → contains l ks ≡ true
unfolding last
contains-last [] l e = cc
contains-last (k ∷ []) l e = ground (arith, text_eq_iff l k)
contains-last (k ∷ j ∷ ks) l e = ground (arith, contains-last (j ∷ ks) l)

pub contains-pop_back :
    (ks : List (List ℕ)) (l j : List ℕ)
    → Distinct ks
    → last ks ≡ some l
    → contains j (pop_back ks) ≡ (if text_eq l j then false else contains j ks)
unfolding last pop_back
contains-pop_back [] l j d e = cc
contains-pop_back (k ∷ []) l j d e = ground (arith, text_eq_iff l j, text_eq_iff j k)
contains-pop_back (k ∷ i ∷ ks) l j d e = ground (
  arith,
  contains-pop_back (i ∷ ks) l j,
  contains-last (i ∷ ks) l,
  text_eq_iff l j,
  text_eq_iff j k,
)

pub last-cons : (k : List ℕ) (ks : List (List ℕ)) → (l : List ℕ) × (last (k ∷ ks) ≡ some l)
unfolding last
last-cons k [] = (k, refl)
last-cons k (i ∷ ks) = last-cons i ks

pub pop_back-Distinct : (ks : List (List ℕ)) → Distinct ks → Distinct (pop_back ks)
unfolding pop_back
pop_back-Distinct [] d = tt
pop_back-Distinct (k ∷ []) d = tt
pop_back-Distinct (k ∷ i ∷ ks) d =
    let (l, e) = last-cons i ks in
    ground (arith, contains-pop_back (i ∷ ks) l k d.1 e, pop_back-Distinct (i ∷ ks) d.1)

pub length-pop_back : (k : List ℕ) (ks : List (List ℕ)) → length (pop_back (k ∷ ks)) ≡ length ks
unfolding pop_back
length-pop_back k [] = refl
length-pop_back k (i ∷ ks) = ap suc (length-pop_back i ks)

pub last-eq_none : (ks : List (List ℕ)) → last ks ≡ none → length ks ≡ 0
unfolding last
last-eq_none [] e = refl
last-eq_none (k ∷ ks) e = let (l, e') = last-cons k ks in unfold last in cc (e, e')

pub length-pop_back-some :
    (ks : List (List ℕ)) (l : List ℕ) → last ks ≡ some l → suc (length (pop_back ks)) ≡ length ks
length-pop_back-some [] l e = unfold last in cc
length-pop_back-some (k ∷ ks) l e = ap suc (length-pop_back k ks)

module _ {V : Type 0} where
  abbrev pub keys : List (List ℕ × V) → List (List ℕ)
  keys [] = []
  keys ((k, v) ∷ m) = k ∷ keys m

  pub contains-keys :
      (k : List ℕ) (m : List (List ℕ × V)) → contains k (keys m) ≡ is_some (lookup k m)
  unfolding lookup
  contains-keys k [] = refl
  contains-keys k ((j, v) ∷ m) = ground (arith, contains-keys k m)

  pub keys-update : (k : List ℕ) (v : V) (m : List (List ℕ × V)) → keys (update k v m) ≡ keys m
  unfolding update
  keys-update k v [] = refl
  keys-update k v ((j, w) ∷ m) = ground (arith, keys-update k v m)

  pub keys-erase : (k : List ℕ) (m : List (List ℕ × V)) → keys (erase k m) ≡ remove k (keys m)
  unfolding erase remove
  keys-erase k [] = refl
  keys-erase k ((j, w) ∷ m) = ground (arith, keys-erase k m)

  pub length-keys : (m : List (List ℕ × V)) → length (keys m) ≡ length m
  length-keys [] = refl
  length-keys ((j, w) ∷ m) = ap suc (length-keys m)

  pub lookup-update :
      (k j : List ℕ) (v : V) (m : List (List ℕ × V))
      → contains k (keys m) ≡ true
      → lookup j (update k v m) ≡ (if text_eq k j then some v else lookup j m)
  unfolding lookup update
  lookup-update k j v [] h = ground arith
  lookup-update k j v ((i, w) ∷ m) h =
      ground (arith, lookup-update k j v m, text_eq_iff k j, text_eq_iff k i, text_eq_iff j i)

  pub lookup-erase :
      (k j : List ℕ) (m : List (List ℕ × V))
      → Distinct (keys m)
      → lookup j (erase k m) ≡ (if text_eq k j then none else lookup j m)
  unfolding lookup erase
  lookup-erase k j [] d = ground arith
  lookup-erase k j ((i, w) ∷ m) d = ground (
    arith,
    lookup-erase k j m,
    contains-keys k m,
    text_eq_iff k j,
    text_eq_iff k i,
    text_eq_iff j i,
  )
