-- ===== src/Cache/Keys.antt =====
-- The keys of the three caches, and when two entries share one.
use rag_cpp.Common.{
  ℕ, ◌≡◌, ◌≢◌, refl, sym, ap, ◌∙◌, some, List, [], ◌∷◌, ◌++◌, arith, All, append_assoc, subst,
}
use rag_cpp.Core.{to_string, to_string-injective, to_string-IsDigit, IsDigit}
use rag_cpp.Cache.{LruCache, get, put}
use rag_cpp.Cache.Invariant.{IsValid}
use rag_cpp.Cache.Laws.{get-put_self}

-- `EmbeddingCache::key`, `QueryCache::key` and `RerankCache::key`
unfoldable pub embedding_key : List ℕ → List ℕ → List ℕ
embedding_key id text = id ++ 0 ∷ text

unfoldable pub query_key : List ℕ → ℕ → List ℕ
query_key q k = q ++ 0 ∷ to_string k

unfoldable pub rerank_key : List ℕ → List ℕ → List ℕ → List ℕ
rerank_key id q p = id ++ 0 ∷ (q ++ 0 ∷ p)

abbrev pub NulFree : List ℕ → Type 0
NulFree = All (λ b. b ≢ 0)

-- The first NUL ends what stands before it.
split_first :
    (s s' t t' : List ℕ) → NulFree s → NulFree s' → s ++ 0 ∷ t ≡ s' ++ 0 ∷ t' → (s ≡ s') × (t ≡ t')
split_first [] [] t t' h h' e = (refl, cc)
split_first [] (b ∷ s') t t' h h' e = absurd (h'.0 (cc))
split_first (a ∷ s) [] t t' h h' e = absurd (h.0 (cc))
split_first (a ∷ s) (b ∷ s') t t' h h' e =
    let (p, q) = split_first s s' t t' h.1 h'.1 (cc) in (cc, q)

nul_inside : (s t : List ℕ) → ¬ NulFree (s ++ 0 ∷ t)
nul_inside [] t h = h.0 refl
nul_inside (b ∷ s) t h = nul_inside s t h.1

-- The last NUL begins what stands behind it.
split_last :
    (s s' t t' : List ℕ) → NulFree t → NulFree t' → s ++ 0 ∷ t ≡ s' ++ 0 ∷ t' → (s ≡ s') × (t ≡ t')
split_last [] [] t t' h h' e = (refl, cc)
split_last [] (b ∷ s') t t' h h' e = absurd (nul_inside s' t' (subst NulFree (cc) h))
split_last (a ∷ s) [] t t' h h' e = absurd (nul_inside s t (subst NulFree (cc) h'))
split_last (a ∷ s) (b ∷ s') t t' h h' e = let (p, q) = split_last s s' t t' h h' (cc) in (cc, q)

-- Two identities without a NUL byte give one key only if identity and text are the same: after a
-- change of the model no entry of the other model is found.
pub embedding_key-injective :
    (id id' text text' : List ℕ)
    → NulFree id
    → NulFree id'
    → embedding_key id text ≡ embedding_key id' text'
    → (id ≡ id') × (text ≡ text')
unfolding embedding_key
embedding_key-injective id id' text text' h h' e = split_first id id' text text' h h' e

digits-NulFree : (s : List ℕ) → All IsDigit s → NulFree s
digits-NulFree [] h = tt
digits-NulFree (b ∷ s) h = ((λ z. omega arith), digits-NulFree s h.1)

-- Two query entries share a key only if query and depth are the same, for all queries.
pub query_key-injective :
    (q q' : List ℕ) (k k' : ℕ) → query_key q k ≡ query_key q' k' → (q ≡ q') × (k ≡ k')
unfolding query_key
query_key-injective q q' k k' e =
    let (same, digits) =
      split_last q q' (to_string k) (to_string k')
        (digits-NulFree (to_string k) (to_string-IsDigit k))
        (digits-NulFree (to_string k') (to_string-IsDigit k')) e in
    (same, to_string-injective k k' digits)

-- With an identity and queries free of NUL bytes the rerank key determines all three parts.
pub rerank_key-injective :
    (id id' q q' p p' : List ℕ)
    → NulFree id
    → NulFree id'
    → NulFree q
    → NulFree q'
    → rerank_key id q p ≡ rerank_key id' q' p'
    → (id ≡ id') × (q ≡ q') × (p ≡ p')
unfolding rerank_key
rerank_key-injective id id' q q' p p' h h' g g' e =
    let (same, rest) = split_first id id' _ _ h h' e in
    let (same_q, same_p) = split_first q q' p p' g g' rest in (same, same_q, same_p)

-- A query with a NUL byte: the logit of (`a NUL b`, `c`) is returned for the other pair (`a`,
-- `b NUL c`), from any cache that meets its invariant.
pub rerank_collision :
    {V : Type 0} (id a b p : List ℕ) (score : V) (c : LruCache V)
    → IsValid c
    → (get (rerank_key id a (b ++ 0 ∷ p)) (put (rerank_key id (a ++ 0 ∷ b) p) score c)).0
      ≡ some score
unfolding rerank_key
rerank_collision id a b p score c v =
    ap (λ k. (get k (put (rerank_key id (a ++ 0 ∷ b) p) score c)).0)
      (ap (λ s. id ++ 0 ∷ s) (sym (append_assoc a (0 ∷ b) (0 ∷ p))))
    ∙ get-put_self (rerank_key id (a ++ 0 ∷ b) p) score c v
