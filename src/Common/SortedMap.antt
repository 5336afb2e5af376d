-- ===== src/Common/SortedMap.antt =====
-- `std::map` as its entries in ascending key order. `lt` is the map's comparator.
use mathlib.Core.Path.{◌≡◌, refl}
use mathlib.Core.Bool.{Bool, true, false}
use mathlib.Core.List.{List, [], ◌∷◌, ◌++◌}
use mathlib.Core.Option.{Option, none, some}
use native.Mathlib.Omega.{arith}
use rag_cpp.Common.Tests.{if◌then◌else◌}

-- What the code asks of a comparator: a strict order.
pub record KeyOrder (K : Type 0) : Type 0 where
  pub lt : K → K → Bool
  pub asym : (a b : K) → lt a b ≡ true → lt b a ≡ false
  pub trans : (a b c : K) → lt a b ≡ true → lt b c ≡ true → lt a c ≡ true

module _ {K : Type 0} {V : Type 0} (o : KeyOrder K) where
  -- m.find(k): two keys are one if neither comes before the other.
  unfoldable pub find : K → List (K × V) → Option V
  find k [] = none
  find k ((j, v) ∷ m) = if o.lt k j then none else if o.lt j k then find k m else some v

  -- m.emplace(k, v): an entry that is there stays.
  unfoldable pub emplace : K → V → List (K × V) → List (K × V)
  emplace k v [] = (k, v) ∷ []
  emplace k v ((j, w) ∷ m) =
      if o.lt k j
      then (k, v) ∷ (j, w) ∷ m
      else if o.lt j k
      then (j, w) ∷ emplace k v m
      else (j, w) ∷ m

  -- m[k] = v, m.insert_or_assign(k, v)
  unfoldable pub insert_or_assign : K → V → List (K × V) → List (K × V)
  insert_or_assign k v [] = (k, v) ∷ []
  insert_or_assign k v ((j, w) ∷ m) =
      if o.lt k j
      then (k, v) ∷ (j, w) ∷ m
      else if o.lt j k
      then (j, w) ∷ insert_or_assign k v m
      else (j, v) ∷ m

  -- Every key comes after `k`.
  abbrev pub Above : K → List (K × V) → Type 0
  Above k [] = Unit
  Above k ((j, v) ∷ m) = (o.lt k j ≡ true) × Above k m

  abbrev pub IsSorted : List (K × V) → Type 0
  IsSorted [] = Unit
  IsSorted ((k, v) ∷ m) = Above k m × IsSorted m

  -- Every key comes before `k`.
  abbrev pub Below : List (K × V) → K → Type 0
  Below [] k = Unit
  Below ((j, v) ∷ m) k = (o.lt j k ≡ true) × Below m k

  pub emplace_last :
      (k : K) (v : V) (m : List (K × V)) → Below m k → emplace k v m ≡ m ++ (k, v) ∷ []
  unfolding emplace
  emplace_last k v [] h = refl
  emplace_last k v ((j, w) ∷ m) h = ground (arith, o.asym j k, emplace_last k v m)

  pub insert_or_assign_last :
      (k : K) (v : V) (m : List (K × V)) → Below m k → insert_or_assign k v m ≡ m ++ (k, v) ∷ []
  unfolding insert_or_assign
  insert_or_assign_last k v [] h = refl
  insert_or_assign_last k v ((j, w) ∷ m) h = ground (arith, o.asym j k, insert_or_assign_last k v m)

module _ {K : Type 0} {V : Type 0} (o : KeyOrder K) where
  Above-append :
      (k : K) (m : List (K × V)) (j : K) (v : V) (r : List (K × V))
      → Above o k (m ++ (j, v) ∷ r)
      → o.lt k j ≡ true
  Above-append k [] j v r h = h.0
  Above-append k (x ∷ m) j v r h = Above-append k m j v r h.1

  -- In a sorted map what stands before an entry has smaller keys.
  pub Below-middle :
      (m : List (K × V)) (k : K) (v : V) (r : List (K × V))
      → IsSorted o (m ++ (k, v) ∷ r)
      → Below o m k
  Below-middle [] k v r h = tt
  Below-middle ((j, w) ∷ m) k v r h = (Above-append j m k v r h.0, Below-middle m k v r h.1)

  -- After `m[j] = v` the entry of `j` is `v`, and every other key is found as before.
  pub find-insert_or_assign :
      (same : (a b : K) → o.lt a b ≡ false → o.lt b a ≡ false → a ≡ b) (j k : K) (v : V)
      (m : List (K × V))
      → find o k (insert_or_assign o j v m)
        ≡ (if o.lt k j then find o k m else if o.lt j k then find o k m else some v)
  unfolding find insert_or_assign
  find-insert_or_assign same j k v [] = ground arith
  find-insert_or_assign same j k v ((i, w) ∷ m) = grind (
    arith,
    o.trans k j i,
    o.trans k i j,
    o.asym k j,
    same k i,
    same i j,
    find-insert_or_assign same j k v m,
  )
