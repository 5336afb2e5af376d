-- ===== src/Loaders/Ooxml/Total.antt =====
-- The text of Word and Excel documents is found on any bytes.
use rag_cpp.Common.{
  ℕ, suc, ◌≤◌, ◌≡◌, ◌⊎◌, refl, Bool, true, false, Option, none, some, List, [], ◌∷◌, All, length,
  arith, inl, inr, Bool-cases, if◌then◌else◌,
}
use rag_cpp.Core.{Errc, Result, bytes}
use rag_cpp.Loaders.Bits.{◌>>=?◌}
use rag_cpp.Loaders.Zip.{ZipEntry, zip_read, zip_read_name, and_then}
use rag_cpp.Loaders.Zip.Total.{
  Gives, >>=?-Gives, gives, IsByte, Any, IsRead, Directory, zip_entries-Gives,
}
use rag_cpp.Loaders.Zip.Reading.{Member, Gives-weaken, zip_read-Gives, Named, zip_read_name-Named}
use rag_cpp.Loaders.Xml.{before}
use rag_cpp.Loaders.Xml.Tidy.{ooxml_xml_to_text-IsTidy}
use rag_cpp.Loaders.Ooxml.{
  Library, starts_with, find_text, xml_text, add_text, add_parts, is_note, after_blank, with_notes,
  docx_to_text,
}

-- A match of a pattern is no longer than the text, and no shorter than the pattern.
abbrev pub Fits : ℕ → ℕ → Option (List ℕ × List ℕ) → Type 0
Fits m n none = Unit
Fits m n (some (s, rest)) = (m ≤ length rest) × (length rest ≤ n) × (length s ≤ n)

starts_with-length : (pattern s : List ℕ) → starts_with pattern s ≡ true → length pattern ≤ length s
unfolding starts_with
starts_with-length [] s h = omega arith
starts_with-length (p ∷ ps) [] h = absurd (cc)
starts_with-length (p ∷ ps) (c ∷ s) h = ground (arith, h, starts_with-length ps s)

before-Fits : (m n c : ℕ) (o : Option (List ℕ × List ℕ)) → Fits m n o → Fits m (suc n) (before c o)
before-Fits m n c none h = tt
before-Fits m n c (some (s, rest)) h = (h.0, omega (arith, h), omega (arith, h))

pub find_text-Fits : (pattern s : List ℕ) → Fits (length pattern) (length s) (find_text pattern s)
unfolding find_text
find_text-Fits [] [] = (omega arith, omega arith, omega arith)
find_text-Fits (p ∷ ps) [] = tt
find_text-Fits pattern (c ∷ s) = elim (Bool-cases (starts_with pattern (c ∷ s))) [
  | inl e ↦ rw e (starts_with-length pattern (c ∷ s) e, omega arith, omega arith)
  | inr e ↦ rw e (before-Fits (length pattern) (length s) c _ (find_text-Fits pattern s))
]

-- The kinds of errors.
abbrev pub IsEnd : {A : Type 0} → Result A → Type 0
IsEnd (Result.value a) = Unit
IsEnd (Result.fail e) =
    (e ≡ Errc.invalid_argument) ⊎ ((e ≡ Errc.parse_error) ⊎ (e ≡ Errc.not_found))

pub and_then-IsEnd :
    {A B : Type 0} (r : Result A) (k : A → Option (Result B))
    → IsEnd r
    → ((a : A) → r ≡ Result.value a → Gives IsEnd (k a))
    → Gives IsEnd (and_then r k)
and_then-IsEnd (Result.value a) k h f = f a refl
and_then-IsEnd (Result.fail e) k h f = gives h

module _ (lib : Library) where
  pub xml_text-Gives : (xml : List ℕ) → Gives Any (xml_text lib xml)
  xml_text-Gives xml =
      let (text, e, t) = ooxml_xml_to_text-IsTidy lib.strtoul xml in rw e (gives tt)

  add_text-Gives :
      (r : Result (List ℕ)) (format : List ℕ → List ℕ) (out : List ℕ)
      → Gives Any (add_text lib r format out)
  add_text-Gives (Result.fail e) format out = gives tt
  add_text-Gives (Result.value xml) format out =
      >>=?-Gives Any _ _ (xml_text-Gives xml) λ t h. gives tt

Named-IsEnd : (d name : List ℕ) (r : Result (List ℕ)) → Named d name r → IsEnd r
Named-IsEnd d name (Result.value out) h = tt
Named-IsEnd d name (Result.fail e) (inl h) = inl h
Named-IsEnd d name (Result.fail e) (inr (inl h)) = inr (inl h)
Named-IsEnd d name (Result.fail e) (inr (inr h)) = inr (inr h.0)

pub Directory-IsEnd : (r : Result (List ZipEntry)) → Directory r → IsEnd r
Directory-IsEnd (Result.value es) h = tt
Directory-IsEnd (Result.fail e) h = inl h

module _ (lib : Library) (d : List ℕ) (bytes_lem : All IsByte d) where
  pub read-Gives : (e : ZipEntry) → IsRead e → Gives Any (zip_read d e)
  read-Gives e h =
      Gives-weaken (Member d e) Any (zip_read d e) (zip_read-Gives d e bytes_lem h) λ r m. tt

  part-Gives :
      (b : Bool) (format : List ℕ → List ℕ) (e : ZipEntry) (out : List ℕ)
      → IsRead e
      → Gives Any (if b then (zip_read d e >>=? λ part. add_text lib part format out) else some out)
  part-Gives true format e out h =
      >>=?-Gives Any _ _ (read-Gives e h) λ part k. add_text-Gives lib part format out
  part-Gives false format e out h = gives tt

  pub add_parts-Gives :
      (wanted : ZipEntry → Bool) (format : List ℕ → List ℕ) (es : List ZipEntry) (out : List ℕ)
      → All IsRead es
      → Gives Any (add_parts lib d wanted format es out)
  unfolding add_parts
  add_parts-Gives wanted format [] out h = gives tt
  add_parts-Gives wanted format (e ∷ es) out h =
      >>=?-Gives Any _ _ (part-Gives (wanted e) format e out h.0)
        λ more k. add_parts-Gives wanted format es more h.1

  pub named-IsEnd : (name : List ℕ) → Gives IsEnd (zip_read_name d name)
  named-IsEnd name =
      Gives-weaken (Named d name) IsEnd (zip_read_name d name)
        (zip_read_name-Named d name bytes_lem) (Named-IsEnd d name)

  with_notes-Gives :
      (r : Result (List ZipEntry)) (text : List ℕ)
      → Directory r
      → Gives IsEnd (with_notes lib d r text)
  with_notes-Gives (Result.fail e) text h = gives tt
  with_notes-Gives (Result.value es) text h =
      >>=?-Gives Any _ _ (add_parts-Gives (is_note lib) (after_blank lib) es text h.2)
        λ out k. gives tt

  pub docx_to_text-IsEnd : Gives IsEnd (docx_to_text lib d)
  unfolding docx_to_text
  docx_to_text-IsEnd = >>=?-Gives IsEnd _ _ (named-IsEnd (bytes "word/document.xml")) λ doc h.
      and_then-IsEnd doc _ h λ xml e. >>=?-Gives Any _ _ (xml_text-Gives lib xml) λ text k.
        >>=?-Gives Directory _ _ (zip_entries-Gives d bytes_lem)
          λ entries m. with_notes-Gives entries text m
