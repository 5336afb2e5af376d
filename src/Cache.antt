-- ===== src/Cache.antt =====
-- include/rag/cache/cache.hpp: the bounded LRU map and the caches over it. A string key is the list
-- of its bytes, the hash map an association list; a list iterator kept in an entry is the key itself,
-- which stands once in the order.
pub mod Order
pub mod Laws
pub mod Invariant
pub mod Keys
use rag_cpp.Common.{
  ℕ, suc, ◌+◌, ◌/◌, Bool, Option, none, some, List, [], ◌∷◌, ◌++◌, length, ltb, ◌==◌, if◌then◌else◌,
}
use rag_cpp.Core.{text_eq}

module _ {V : Type 0} where
  unfoldable pub lookup : List ℕ → List (List ℕ × V) → Option V
  lookup k [] = none
  lookup k ((j, v) ∷ m) = if text_eq k j then some v else lookup k m

  unfoldable pub update : List ℕ → V → List (List ℕ × V) → List (List ℕ × V)
  update k v [] = []
  update k v ((j, w) ∷ m) = if text_eq k j then (j, v) ∷ m else (j, w) ∷ update k v m

  unfoldable pub erase : List ℕ → List (List ℕ × V) → List (List ℕ × V)
  erase k [] = []
  erase k ((j, w) ∷ m) = if text_eq k j then m else (j, w) ∷ erase k m

-- Takes the node of `k` out of the order.
unfoldable pub remove : List ℕ → List (List ℕ) → List (List ℕ)
remove k [] = []
remove k (j ∷ ks) = if text_eq k j then ks else j ∷ remove k ks

-- A touched key goes to the front.
abbrev pub touch : List ℕ → List (List ℕ) → List (List ℕ)
touch k ks = k ∷ remove k ks

unfoldable pub last : List (List ℕ) → Option (List ℕ)
last [] = none
last (k ∷ []) = some k
last (k ∷ j ∷ ks) = last (j ∷ ks)

unfoldable pub pop_back : List (List ℕ) → List (List ℕ)
pop_back [] = []
pop_back (k ∷ []) = []
pop_back (k ∷ j ∷ ks) = k ∷ pop_back (j ∷ ks)

pub record LruCache (V : Type 0) : Type 0 where
  pub cap : ℕ
  pub order : List (List ℕ)
  pub map : List (List ℕ × V)
  pub hits : ℕ
  pub misses : ℕ

module _ {V : Type 0} where
  unfoldable pub lru_cache : ℕ → LruCache V
  lru_cache capacity = record {
    cap = if capacity == 0 then 1 else capacity;
    order = [];
    map = [];
    hits = 0;
    misses = 0;
  }

  abbrev pub got : List ℕ → LruCache V → Option V → Option V × LruCache V
  got k c none = (none, record c { misses = c.misses + 1 })
  got k c (some v) = (some v, record c { order = touch k c.order; hits = c.hits + 1 })

  unfoldable pub get : List ℕ → LruCache V → Option V × LruCache V
  get k c = got k c (lookup k c.map)

  abbrev pub evict_key : LruCache V → Option (List ℕ) → LruCache V
  evict_key c none = c
  evict_key c (some l) = record c { map = erase l c.map; order = pop_back c.order }

  unfoldable pub evict : LruCache V → LruCache V
  evict c = if ltb c.cap (length c.map) then evict_key c (last c.order) else c

  abbrev pub put_at : List ℕ → V → LruCache V → Option V → LruCache V
  put_at k v c (some old) = record c { map = update k v c.map; order = touch k c.order }
  put_at k v c none = evict (record c { order = k ∷ c.order; map = (k, v) ∷ c.map })

  unfoldable pub put : List ℕ → V → LruCache V → LruCache V
  put k v c = put_at k v c (lookup k c.map)

  unfoldable pub clear : LruCache V → LruCache V
  clear c = record c { map = []; order = [] }

  unfoldable pub size : LruCache V → ℕ
  size c = length c.map
