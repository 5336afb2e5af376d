-- ===== src/Tests/Cache.antt =====
-- The caches at concrete inputs.
use rag_cpp.Common.{ℕ, ◌≡◌, none, some, ◌∷◌, ◌++◌, if◌then◌else◌, arith}
use rag_cpp.Core.{bytes, text_eq}
use rag_cpp.Cache.{LruCache, lru_cache, get, put, lookup}
use rag_cpp.Cache.Invariant.{IsValid, lru_cache-IsValid, put-IsValid}
use rag_cpp.Cache.Laws.{dropped, is_dropped, lookup-put}
use rag_cpp.Cache.Keys.{NulFree, rerank_key, rerank_collision}

-- A full cache of capacity 2.
abbrev full : LruCache ℕ
full = put (bytes "b") 2 (put (bytes "a") 1 (lru_cache 2))

full-IsValid : IsValid full
full-IsValid =
    put-IsValid (bytes "b") 2 (put (bytes "a") 1 (lru_cache 2))
      (put-IsValid (bytes "a") 1 (lru_cache 2) (lru_cache-IsValid 2))

put-IsValid_example : IsValid (put (bytes "c") 3 full)
put-IsValid_example = put-IsValid (bytes "c") 3 full full-IsValid

lookup-put_example : lookup (bytes "a") (put (bytes "c") 3 full).map ≡ (
    if is_dropped (dropped (bytes "c") full) (bytes "a")
    then none
    else if text_eq (bytes "c") (bytes "a")
    then some 3
    else lookup (bytes "a") full.map)
lookup-put_example = lookup-put (bytes "c") (bytes "a") 3 full full-IsValid

model-NulFree : NulFree (bytes "m")
model-NulFree = (λ e. omega arith, tt)

rerank_collision_example :
    (get
      (rerank_key (bytes "m") (bytes "a") (bytes "b" ++ 0 ∷ bytes "c"))
      (put (rerank_key (bytes "m") (bytes "a" ++ 0 ∷ bytes "b") (bytes "c")) 9 full)).0
    ≡ some 9
rerank_collision_example =
    rerank_collision (bytes "m") (bytes "a") (bytes "b") (bytes "c") 9 full full-IsValid
