-- ===== src/Text/Tokenizer/Memo.antt =====
-- The memo of stems changes no answer and stays bounded.
use rag_cpp.Common.{
  ℕ, ◌≤◌, ◌≡◌, refl, some, List, [], ◌∷◌, length, leb, arith, if◌then◌else◌, Bool-cases,
  Option-cases, inl, inr, All,
}
use rag_cpp.Core.{text_eq, text_eq_sound}
use rag_cpp.Cache.{lookup}
use rag_cpp.Text.Porter.{porter_stem}
use rag_cpp.Text.Tokenizer.{Memo, max_entries, recalled, stem_cached}

-- Every entry is a word with its stem, and there are at most 65536.
abbrev pub IsSound : Memo → Type 0
IsSound stems = All (λ entry. entry.1 ≡ porter_stem entry.0) stems × (length stems ≤ max_entries)

lookup-stem :
    (word : List ℕ) (stems : Memo) (stem : List ℕ)
    → All (λ entry. entry.1 ≡ porter_stem entry.0) stems
    → lookup word stems ≡ some stem
    → stem ≡ porter_stem word
unfolding lookup
lookup-stem word [] stem h e = cc e
lookup-stem word ((w, s) ∷ stems) stem h e = elim (Bool-cases (text_eq word w)) [
  | inl a ↦ let e' = rw a at e in let k = text_eq_sound word w a in let hs = h.0 in cc
  | inr a ↦ lookup-stem word stems stem h.1 (rw a at e)
]

inserted-IsSound :
    (word : List ℕ) (stems : Memo)
    → IsSound stems
    → IsSound ((word, porter_stem word) ∷ (if leb max_entries (length stems) then [] else stems))
inserted-IsSound word stems h = elim (Bool-cases (leb max_entries (length stems))) [
  | inl e ↦ rw e ((refl, tt), omega arith)
  | inr e ↦ rw e ((refl, h.0), ground arith)
]

-- Whatever sound memo a tokenizer holds, `stem_cached` answers with the word's Porter stem, and
-- leaves a sound memo of at most 65536 entries.
pub stem_cached-porter_stem :
    (word : List ℕ) (stems : Memo)
    → IsSound stems
    → ((stem_cached word stems).0 ≡ porter_stem word) × IsSound (stem_cached word stems).1
unfolding stem_cached recalled
stem_cached-porter_stem word stems h = elim (Option-cases (lookup word stems)) [
  | inl e ↦ rw e (refl, inserted-IsSound word stems h)
  | inr (s, e) ↦ rw e (lookup-stem word stems s h.0 e, h)
]
