-- ===== src/Cache/Laws.antt =====
-- What a client sees of the cache: what `get` returns after a `put`.
use rag_cpp.Common.{
  ℕ, suc, ◌≤◌, ◌≡◌, refl, ◌∙◌, ap, Bool, true, false, Option, none, some, List, [], ◌∷◌, arith,
  length, ltb, if◌then◌else◌, Option-cases, Bool-cases, inl, inr,
}
use rag_cpp.Core.{text_eq, text_eq_iff}
use rag_cpp.Cache.{LruCache, lookup, last, get, put, evict}
use rag_cpp.Cache.Order.{
  contains, is_some, keys, contains-keys, lookup-update, lookup-erase, contains-last, last-cons,
}
use rag_cpp.Cache.Invariant.{IsValid}

abbrev pub is_dropped : Option (List ℕ) → List ℕ → Bool
is_dropped none j = false
is_dropped (some l) j = text_eq l j

not_last :
    (k : List ℕ) (ks : List (List ℕ))
    → 1 ≤ length ks
    → contains k ks ≡ false
    → is_dropped (last (k ∷ ks)) k ≡ false
unfolding last
not_last k [] p h = absurd (omega arith)
not_last k (i ∷ ks) p h =
    let (l, e) = last-cons i ks in
    rw e (ground (arith, contains-last (i ∷ ks) l e, text_eq_iff l k))

module _ {V : Type 0} where
  -- A `get` changes what no later `get` returns.
  pub get-map :
      (k : List ℕ) (c : LruCache V) → ((get k c).1.map ≡ c.map) × ((get k c).0 ≡ lookup k c.map)
  unfolding get
  get-map k c = elim (Option-cases (lookup k c.map)) [
    | inl e ↦ rw e (refl, refl)
    | inr (u, e) ↦ rw e (refl, refl)
  ]

  -- The key that `put` of `k` drops: the last in the order of use, if `k` is new and the cache full.
  abbrev pub dropped : List ℕ → LruCache V → Option (List ℕ)
  dropped k c =
      if is_some (lookup k c.map)
      then none
      else if ltb (length c.map) c.cap
      then none
      else last (k ∷ c.order)

  lookup-cons :
      (k j : List ℕ) (u : V) (m : List (List ℕ × V))
      → lookup j ((k, u) ∷ m) ≡ (if text_eq k j then some u else lookup j m)
  unfolding lookup
  lookup-cons k j u m = ground (arith, text_eq_iff k j, text_eq_iff j k)

  -- After `put` of `k` every key is found as before but two: `k` has the new value, and the key that
  -- was used longest ago is gone if `k` was new and the cache full. (That key may be `k` in no case
  -- but a capacity below one, which the constructor excludes.)
  pub lookup-put :
      (k j : List ℕ) (u : V) (c : LruCache V)
      → IsValid c
      → lookup j (put k u c).map ≡ (
          if is_dropped (dropped k c) j
          then none
          else if text_eq k j
          then some u
          else lookup j c.map)
  unfolding put evict
  lookup-put k j u c v = elim (Option-cases (lookup k c.map)) [
    | inr (old, e) ↦ rw e (lookup-update k j u c.map (contains-keys k c.map ∙ ap is_some e))
    | inl e ↦ elim (Bool-cases (ltb (length c.map) c.cap)) [
      | inl room ↦
          let fits : ltb c.cap (suc (length c.map)) ≡ false = ground arith in
          rw (e, room, fits) (lookup-cons k j u c.map)
      | inr full ↦
          let over : ltb c.cap (suc (length c.map)) ≡ true = ground (arith, v.bounded) in
          let (l, el) = last-cons k c.order in
          let fresh : contains k (keys c.map) ≡ false = contains-keys k c.map ∙ ap is_some e in
          rw (e, full, over, el)
            (lookup-erase l j ((k, u) ∷ c.map) (fresh, v.consistent.keys_distinct)
              ∙ ap (λ x. if text_eq l j then none else x) (lookup-cons k j u c.map))
    ]
  ]

  -- The key that was put is never the one that is dropped.
  not_dropped_self : (k : List ℕ) (c : LruCache V) → IsValid c → is_dropped (dropped k c) k ≡ false
  not_dropped_self k c v = elim (Option-cases (lookup k c.map)) [
    | inr (old, e) ↦ rw e refl
    | inl e ↦ elim (Bool-cases (ltb (length c.map) c.cap)) [
      | inl room ↦ rw (e, room) refl
      | inr full ↦
          rw (e, full)
            (not_last k c.order (ground (arith, v.cap_pos, v.consistent.same_size))
              (v.consistent.same_keys k ∙ contains-keys k c.map ∙ ap is_some e))
    ]
  ]

  -- A value is there right after it was put, whatever the cache held.
  pub get-put_self :
      (k : List ℕ) (u : V) (c : LruCache V) → IsValid c → (get k (put k u c)).0 ≡ some u
  get-put_self k u c v =
      (get-map k (put k u c)).1
      ∙ lookup-put k k u c v
      ∙ ground (arith, not_dropped_self k c v, text_eq_iff k k)
