-- ===== src/Cache/Invariant.antt =====
-- The order and the map hold the same keys, each once, and never more than the capacity.
use rag_cpp.Common.{
  ℕ, suc, ◌+◌, ◌≤◌, ◌≡◌, sym, ◌∙◌, ap, true, false, none, some, List, [], ◌∷◌, arith, length, ltb,
  Option-cases, Bool-cases, inl, inr, ◌||◌,
}
use rag_cpp.Core.{text_eq, text_eq_iff}
use rag_cpp.Cache.{
  LruCache, lru_cache, lookup, update, erase, last, pop_back, touch, get, put, evict,
}
use rag_cpp.Cache.Order.{
  contains, Distinct, is_some, contains-remove, remove-Distinct, length-remove, keys, contains-keys,
  keys-update, keys-erase, length-keys, contains-last, contains-pop_back, pop_back-Distinct,
  length-pop_back, last-eq_none, length-pop_back-some,
}

module _ {V : Type 0} where
  pub record IsConsistent (order : List (List ℕ)) (m : List (List ℕ × V)) : Type 0 where
    pub distinct : Distinct order
    pub keys_distinct : Distinct (keys m)
    pub same_keys : (k : List ℕ) → contains k order ≡ contains k (keys m)
    pub same_size : length m ≡ length order

  pub record IsValid (c : LruCache V) : Type 0 where
    pub cap_pos : 1 ≤ c.cap
    pub bounded : length c.map ≤ c.cap
    pub consistent : IsConsistent c.order c.map

  pub lru_cache-IsValid : (capacity : ℕ) → IsValid (lru_cache capacity)
  unfolding lru_cache
  lru_cache-IsValid capacity = ground arith

  touch-IsConsistent :
      (k : List ℕ) (order : List (List ℕ)) (m : List (List ℕ × V))
      → contains k order ≡ true
      → IsConsistent order m
      → IsConsistent (touch k order) m
  touch-IsConsistent k order m h v = record {
    distinct = (
      ground (arith, contains-remove k k order v.distinct, text_eq_iff k k),
      remove-Distinct k order v.distinct,
    );
    keys_distinct = v.keys_distinct;
    same_keys = λ j. ground (
      arith,
      contains-remove k j order v.distinct,
      v.same_keys j,
      text_eq_iff k j,
      text_eq_iff j k,
    );
    same_size = v.same_size ∙ sym (length-remove k order h);
  }

  evict-IsConsistent :
      (l : List ℕ) (order : List (List ℕ)) (m : List (List ℕ × V))
      → last order ≡ some l
      → IsConsistent order m
      → IsConsistent (pop_back order) (erase l m)
  evict-IsConsistent l [] m e v = unfold last in cc
  evict-IsConsistent l (k ∷ ks) m e v = record {
    distinct = pop_back-Distinct (k ∷ ks) v.distinct;
    keys_distinct = rw (keys-erase l m) (remove-Distinct l (keys m) v.keys_distinct);
    same_keys = λ j. rw (keys-erase l m) (
        ground (
          arith,
          contains-pop_back (k ∷ ks) l j v.distinct e,
          contains-remove l j (keys m) v.keys_distinct,
          v.same_keys j,
        ));
    same_size = omega (
      arith,
      v.same_size,
      length-pop_back k ks,
      length-keys m,
      length-keys (erase l m),
      ap length (keys-erase l m),
      length-remove l (keys m) (sym (v.same_keys l) ∙ contains-last (k ∷ ks) l e),
    );
  }

  update-IsConsistent :
      (k : List ℕ) (u : V) (order : List (List ℕ)) (m : List (List ℕ × V))
      → IsConsistent order m
      → IsConsistent order (update k u m)
  update-IsConsistent k u order m v = record {
    distinct = v.distinct;
    keys_distinct = rw (keys-update k u m) v.keys_distinct;
    same_keys = λ j. rw (keys-update k u m) (v.same_keys j);
    same_size =
        sym (length-keys (update k u m))
        ∙ ap length (keys-update k u m)
        ∙ length-keys m
        ∙ v.same_size;
  }

  cons-IsConsistent :
      (k : List ℕ) (u : V) (order : List (List ℕ)) (m : List (List ℕ × V))
      → lookup k m ≡ none
      → IsConsistent order m
      → IsConsistent (k ∷ order) ((k, u) ∷ m)
  cons-IsConsistent k u order m e v =
      let fresh : contains k (keys m) ≡ false = contains-keys k m ∙ ap is_some e in
      record {
        distinct = (v.same_keys k ∙ fresh, v.distinct);
        keys_distinct = (fresh, v.keys_distinct);
        same_keys = λ j. ap (λ b. text_eq j k || b) (v.same_keys j);
        same_size = ap suc v.same_size;
      }

  -- `get` keeps the invariant.
  pub get-IsValid : (k : List ℕ) (c : LruCache V) → IsValid c → IsValid (get k c).1
  unfolding get
  get-IsValid k c v = elim (Option-cases (lookup k c.map)) [
    | inl e ↦ rw e (record { cap_pos = v.cap_pos; bounded = v.bounded; consistent = v.consistent })
    | inr (u, e) ↦ rw e (record {
      cap_pos = v.cap_pos;
      bounded = v.bounded;
      consistent =
          touch-IsConsistent k c.order c.map
            (v.consistent.same_keys k ∙ contains-keys k c.map ∙ ap is_some e) v.consistent;
    })
  ]

  -- What one entry too many leaves.
  evict-IsValid :
      (c : LruCache V)
      → 1 ≤ c.cap
      → length c.map ≤ c.cap + 1
      → IsConsistent c.order c.map
      → IsValid (evict c)
  unfolding evict
  evict-IsValid c p b v = elim (Bool-cases (ltb c.cap (length c.map))) [
    | inr fits ↦ rw fits (record { cap_pos = p; bounded = ground arith; consistent = v })
    | inl over ↦ elim (Option-cases (last c.order)) [
      | inl e ↦ absurd (ground (arith, last-eq_none c.order e, v.same_size))
      | inr (l, e) ↦
          let v' = evict-IsConsistent l c.order c.map e v in
          rw (over, e)
            (record {
              cap_pos = p;
              bounded = omega (arith, v'.same_size, v.same_size, length-pop_back-some c.order l e);
              consistent = v';
            })
    ]
  ]

  -- `put` keeps the invariant: the size stays within the capacity.
  pub put-IsValid : (k : List ℕ) (u : V) (c : LruCache V) → IsValid c → IsValid (put k u c)
  unfolding put
  put-IsValid k u c v = elim (Option-cases (lookup k c.map)) [
    | inl e ↦ rw e (
        evict-IsValid _ v.cap_pos (omega arith)
          (cons-IsConsistent k u c.order c.map e v.consistent))
    | inr (old, e) ↦ rw e (record {
      cap_pos = v.cap_pos;
      bounded = omega (
        arith,
        v.bounded,
        length-keys c.map,
        length-keys (update k u c.map),
        ap length (keys-update k u c.map),
      );
      consistent =
          touch-IsConsistent k c.order (update k u c.map)
            (v.consistent.same_keys k ∙ contains-keys k c.map ∙ ap is_some e)
            (update-IsConsistent k u c.order c.map v.consistent);
    })
  ]
