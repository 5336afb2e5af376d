-- ===== src/Loaders/Html/Total.antt =====
-- The loop of `html_to_text`, and the newlines of the text that comes out.
use rag_cpp.Common.{
  ℕ, zero, suc, ◌+◌, ◌≤◌, ◌<◌, ◌≡◌, refl, subst, min, Bool, true, false, not, ◌&&◌, ◌||◌, Option,
  none, some, List, [], ◌∷◌, length, leb, ltb, ◌==◌, if◌then◌else◌, arith, inl, inr, Bool-cases,
}
use rag_cpp.Core.{is_empty}
use rag_cpp.Loaders.Zip.Total.{Gives, >>=?-Gives, gives, Any}
use rag_cpp.Loaders.Xml.Tidy.{Shorter, split_at-Shorter}
use rag_cpp.Loaders.Html.{
  Html, entities, find_entity, after_tag, plain, is_numeric, on_entity, after_entity, html_step,
  html_next, html_loop, collapse, html_start, html_to_text,
}

abbrev Within : ℕ → Option (List ℕ × Html) → Type 0
Within n none = Unit
Within n (some (rest, s)) = length rest ≤ n

plain-Within : (c : ℕ) (text : List ℕ) (s : Html) → Within (length text) (some (plain c text s))
plain-Within c text s = elim (Bool-cases (c == b'\r')) [
  | inl e ↦ rw e (omega arith)
  | inr e ↦ rw e (omega arith)
]

after_tag-Within :
    (n : ℕ) (o : Option (List ℕ × List ℕ)) (s : Html) → Shorter n o → Within n (after_tag o s)
after_tag-Within n none s h = tt
after_tag-Within n (some (tag, rest)) s h = omega (arith, h)

on_entity-Within :
    (text ent : List ℕ) (o : Option (List ℕ)) (rest : List ℕ) (s : Html)
    → length rest < length text
    → Within (length text) (some (on_entity text ent o rest s))
on_entity-Within text ent (some t) rest s h = omega (arith, h)
on_entity-Within text ent none rest s h = elim (Bool-cases (is_numeric ent)) [
  | inl e ↦ rw e (omega (arith, h))
  | inr e ↦ rw e (plain-Within b'&' text s)
]

after_entity-Within :
    (text : List ℕ) (o : Option (List ℕ × List ℕ)) (s : Html)
    → Shorter (length text) o
    → Within (length text) (some (after_entity text o s))
after_entity-Within text none s h = plain-Within b'&' text s
after_entity-Within text (some (ent, rest)) s h = elim (Bool-cases (leb (length ent + 1) 8)) [
  | inl e ↦ rw e (on_entity-Within text ent (find_entity ent entities) rest s h)
  | inr e ↦ rw e (plain-Within b'&' text s)
]

-- A round leaves less than it had.
html_step-Within : (c : ℕ) (text : List ℕ) (s : Html) → Within (length text) (html_step c text s)
unfolding html_step
html_step-Within c text s = elim (Bool-cases (c == b'<')) [
  | inl e ↦ rw e (after_tag-Within (length text) _ s (split_at-Shorter b'>' text))
  | inr e ↦ rw e (elim (Bool-cases (not (is_empty s.skip_until))) [
    | inl f ↦ rw f (omega arith)
    | inr f ↦ rw f (elim (Bool-cases (c == b'&')) [
      | inl g ↦ rw g (after_entity-Within text _ s (split_at-Shorter b';' text))
      | inr g ↦ rw g (plain-Within c text s)
    ])
  ])
]

html_next-Gives :
    (n : ℕ) (o : Option (List ℕ × Html)) (s : Html) (go : List ℕ → Html → Option Html)
    → Within n o
    → ((text : List ℕ) (t : Html) → length text ≤ n → Gives Any (go text t))
    → Gives Any (html_next o s go)
html_next-Gives n none s go h k = gives tt
html_next-Gives n (some (text, t)) s go h k = k text t h

html_loop-Gives :
    (n : ℕ) (text : List ℕ) (s : Html) → length text ≤ n → Gives Any (html_loop n text s)
unfolding html_loop
html_loop-Gives n [] s h = gives tt
html_loop-Gives zero (c ∷ text) s h = absurd (omega (arith, h))
html_loop-Gives (suc n) (c ∷ text) s h =
    html_next-Gives (length text) (html_step c text s) s _ (html_step-Within c text s)
      λ rest t k. html_loop-Gives n rest t (omega (arith, h, k))

-- After `k` newlines, at most two stand together.
unfoldable pub two_newlines : ℕ → List ℕ → Bool
two_newlines k [] = true
two_newlines k (c ∷ s) =
    (not (c == b'\n') || ltb k 2) && two_newlines (if c == b'\n' then k + 1 else 0) s

two_newlines-collapse : (nl : ℕ) (s : List ℕ) → two_newlines (min nl 2) (collapse nl s) ≡ true
unfolding two_newlines collapse
two_newlines-collapse nl [] = refl
two_newlines-collapse nl (c ∷ s) = elim (Bool-cases (c == b'\n')) [
  | inl e ↦ elim (Bool-cases (leb (nl + 1) 2)) [
    | inr f ↦ rw e (
        rw f (
          subst (λ k. two_newlines k (collapse (nl + 1) s) ≡ true) (full f)
            (two_newlines-collapse (nl + 1) s)))
    | inl f ↦ rw e (
        rw f (
          rw e (
            rw (room f) (
              subst (λ k. two_newlines k (collapse (nl + 1) s) ≡ true) (next f)
                (two_newlines-collapse (nl + 1) s)))))
  ]
  | inr e ↦ rw e (rw e (two_newlines-collapse 0 s))
]
  where
    full : leb (nl + 1) 2 ≡ false → min (nl + 1) 2 ≡ min nl 2
    full f = ground (arith, f)

    next : leb (nl + 1) 2 ≡ true → min (nl + 1) 2 ≡ min nl 2 + 1
    next f = ground (arith, f)

    room : leb (nl + 1) 2 ≡ true → ltb (min nl 2) 2 ≡ true
    room f = ground (arith, f)

-- No three newlines stand together.
abbrev pub IsCollapsed : List ℕ → Type 0
IsCollapsed text = two_newlines 0 text ≡ true

-- On every text, `html_to_text` ends, with a text in which no three newlines stand together.
pub html_to_text-Gives : (html : List ℕ) → Gives IsCollapsed (html_to_text html)
unfolding html_to_text
html_to_text-Gives html =
    >>=?-Gives Any _ _ (html_loop-Gives (length html) html html_start (omega arith))
      λ s h. gives (two_newlines-collapse 0 s.out)
