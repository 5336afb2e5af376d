-- ===== src/Loaders/Epub/Order.antt =====
-- The loops of `epub_to_text` that find the reading order.
use rag_cpp.Common.{
  ℕ, zero, suc, ◌≤◌, ◌<◌, Bool, true, false, ◌||◌, ◌&&◌, Option, none, some, List, [], ◌∷◌, length,
  drop, length-drop, arith, inl, inr, Bool-cases, ◌==◌,
}
use rag_cpp.Core.{Result, bytes, is_empty}
use rag_cpp.Loaders.Zip.Total.{Gives, >>=?-Gives, gives, Any}
use rag_cpp.Loaders.Xml.{split_at}
use rag_cpp.Loaders.Xml.Tidy.{Shorter, split_at-Shorter}
use rag_cpp.Loaders.Ooxml.{Library, find_text}
use rag_cpp.Loaders.Ooxml.Total.{Fits, find_text-Fits}
use rag_cpp.Loaders.Documents.{
  skip_equals, quoted, or_else, attr_at, attr_from, attr_value, attr_of, blank_before, last_or,
}
use rag_cpp.Loaders.Epub.{
  on_item, from_item, manifest_from, on_ref, from_ref, past, spine_from, spine_order, order_of,
  path_of, from_spine, add_item, Manifest,
}

skip_equals-length : (s : List ℕ) → length (skip_equals s) ≤ length s
unfolding skip_equals
skip_equals-length [] = omega arith
skip_equals-length (c ∷ s) = elim (Bool-cases (c == b' ' || c == b'=')) [
  | inl e ↦ rw e (omega (arith, skip_equals-length s))
  | inr e ↦ rw e (omega arith)
]

or_else-Gives :
    (o : Option (List ℕ)) (go : Unit {0} → Option (List ℕ))
    → Gives Any (go tt)
    → Gives Any (or_else o go)
or_else-Gives none go h = h
or_else-Gives (some v) go h = gives tt

-- A match takes the name from the text, so that the next round has less.
attr_at-Gives :
    (name : List ℕ) (at_start : Bool) (c n : ℕ) (o : Option (List ℕ × List ℕ))
    (go : Bool → ℕ → List ℕ → Option (List ℕ))
    → 0 < length name
    → Fits (length name) n o
    → ((b : Bool) (x : ℕ) (s : List ℕ) → length s < n → Gives Any (go b x s))
    → Gives Any (attr_at name at_start c o go)
attr_at-Gives name at_start c n none go h f k = gives tt
attr_at-Gives name at_start c n (some (skipped, rest)) go h f k =
    let after = drop (length name) rest in
    let less : length after < n = omega (arith, h, f.0, f.1, length-drop (length name) rest) in
    elim (Bool-cases (blank_before (at_start && is_empty skipped) (last_or c skipped))) [
      | inl e ↦ rw e (
          or_else-Gives (quoted (skip_equals after)) _
            (k false _ (skip_equals after) (omega (arith, less, skip_equals-length after))))
      | inr e ↦ rw e (k false (last_or 0 name) after less)
    ]

attr_from-Gives :
    (n : ℕ) (name : List ℕ) (at_start : Bool) (c : ℕ) (text : List ℕ)
    → 0 < length name
    → length text < n
    → Gives Any (attr_from n name at_start c text)
unfolding attr_from
attr_from-Gives zero name at_start c text h k = absurd (omega (arith, k))
attr_from-Gives (suc n) name at_start c text h k =
    attr_at-Gives name at_start c (length text) (find_text name text) _ h (find_text-Fits name text)
      λ b x s l. attr_from-Gives n name b x s h (omega (arith, k, l))

pub attr_value-Gives : (tag name : List ℕ) → 0 < length name → Gives Any (attr_value tag name)
unfolding attr_value
attr_value-Gives tag name h = attr_from-Gives (suc (length tag)) name true 0 tag h (omega arith)

on_item-Gives :
    (n : ℕ) (o : Option (List ℕ × List ℕ)) (manifest : Manifest)
    (go : List ℕ → Manifest → Option Manifest)
    → Shorter n o
    → ((s : List ℕ) (m : Manifest) → length s < n → Gives Any (go s m))
    → Gives Any (on_item o manifest go)
on_item-Gives n none manifest go h k = gives tt
on_item-Gives n (some (tag, rest)) manifest go h k =
    >>=?-Gives Any _ _ (attr_value-Gives tag (bytes "id") (omega arith)) λ id p.
      >>=?-Gives Any _ _ (attr_value-Gives tag (bytes "href") (omega arith))
        λ href q. k rest (add_item id href manifest) h

Shorter-weaken : (m n : ℕ) (o : Option (List ℕ × List ℕ)) → m ≤ n → Shorter m o → Shorter n o
Shorter-weaken m n none h k = tt
Shorter-weaken m n (some (s, rest)) h k = omega (arith, h, k)

from_item-Gives :
    (m n : ℕ) (o : Option (List ℕ × List ℕ)) (manifest : Manifest)
    (go : List ℕ → Manifest → Option Manifest)
    → Fits m n o
    → ((s : List ℕ) (items : Manifest) → length s < n → Gives Any (go s items))
    → Gives Any (from_item o manifest go)
from_item-Gives m n none manifest go h k = gives tt
from_item-Gives m n (some (skipped, text)) manifest go h k =
    on_item-Gives n (split_at b'>' text) manifest go
      (Shorter-weaken (length text) n _ h.1 (split_at-Shorter b'>' text)) k

manifest_from-Gives :
    (n : ℕ) (o : List ℕ) (manifest : Manifest)
    → length o < n
    → Gives Any (manifest_from n o manifest)
unfolding manifest_from
manifest_from-Gives zero o manifest h = absurd (omega (arith, h))
manifest_from-Gives (suc n) o manifest h =
    from_item-Gives _ (length o) (find_text (bytes "<item ") o) manifest _
      (find_text-Fits (bytes "<item ") o)
      λ s items k. manifest_from-Gives n s items (omega (arith, h, k))

on_ref-Gives :
    (base_dir : List ℕ) (manifest : Manifest) (n m : ℕ) (o : Option (List ℕ × List ℕ))
    (limit : Option ℕ) (order : List (List ℕ))
    (go : List ℕ → Option ℕ → List (List ℕ) → Option (List (List ℕ)))
    → Shorter n o
    → ((s : List ℕ) (l : Option ℕ) (found : List (List ℕ))
        → length s < n
        → Gives Any (go s l found))
    → Gives Any (on_ref base_dir manifest m o limit order go)
on_ref-Gives base_dir manifest n m none limit order go h k = gives tt
on_ref-Gives base_dir manifest n m (some (tag, rest)) limit order go h k =
    >>=?-Gives Any _ _ (attr_value-Gives tag (bytes "idref") (omega arith)) λ idref p. k rest _ _ h

from_ref-Gives :
    (base_dir : List ℕ) (manifest : Manifest) (m n : ℕ) (o : Option (List ℕ × List ℕ))
    (limit : Option ℕ) (order : List (List ℕ))
    (go : List ℕ → Option ℕ → List (List ℕ) → Option (List (List ℕ)))
    → Fits m n o
    → ((s : List ℕ) (l : Option ℕ) (found : List (List ℕ))
        → length s < n
        → Gives Any (go s l found))
    → Gives Any (from_ref base_dir manifest o limit order go)
from_ref-Gives base_dir manifest m n none limit order go h k = gives tt
from_ref-Gives base_dir manifest m n (some (skipped, text)) limit order go h k =
    elim (Bool-cases (past limit (length skipped))) [
      | inl e ↦ rw e (gives tt)
      | inr e ↦ rw e (
          on_ref-Gives base_dir manifest n (length skipped) (split_at b'>' text) limit order go
            (Shorter-weaken (length text) n _ h.1 (split_at-Shorter b'>' text)) k)
    ]

spine_from-Gives :
    (n : ℕ) (base_dir : List ℕ) (manifest : Manifest) (o : List ℕ) (limit : Option ℕ)
    (order : List (List ℕ))
    → length o < n
    → Gives Any (spine_from n base_dir manifest o limit order)
unfolding spine_from
spine_from-Gives zero base_dir manifest o limit order h = absurd (omega (arith, h))
spine_from-Gives (suc n) base_dir manifest o limit order h =
    from_ref-Gives base_dir manifest _ (length o) (find_text (bytes "<itemref") o) limit order _
      (find_text-Fits (bytes "<itemref") o)
      λ s l found k. spine_from-Gives n base_dir manifest s l found (omega (arith, h, k))

spine_order-Gives : (opf_path o : List ℕ) → Gives Any (spine_order opf_path o)
unfolding spine_order
spine_order-Gives opf_path o =
    >>=?-Gives Any _ _ (manifest_from-Gives (suc (length o)) o [] (omega arith)) λ manifest h.
      spine_from-Gives (suc (length (from_spine (find_text (bytes "<spine") o) o))) _ manifest _ _
        [] (omega arith)

pub order_of-Gives : (opf_path : List ℕ) (r : Result (List ℕ)) → Gives Any (order_of opf_path r)
order_of-Gives opf_path (Result.fail e) = gives tt
order_of-Gives opf_path (Result.value o) = spine_order-Gives opf_path o

attr_of-Gives :
    (lib : Library) (name : List ℕ) (o : Option (List ℕ × List ℕ))
    → 0 < length name
    → Gives Any (attr_of lib name o)
attr_of-Gives lib name none h = gives tt
attr_of-Gives lib name (some (skipped, rest)) h = attr_value-Gives _ name h

pub path_of-Gives : (lib : Library) (r : Result (List ℕ)) → Gives Any (path_of lib r)
path_of-Gives lib (Result.fail e) = gives tt
path_of-Gives lib (Result.value c) = attr_of-Gives lib (bytes "full-path") _ (omega arith)
