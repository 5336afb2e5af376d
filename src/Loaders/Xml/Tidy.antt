-- ===== src/Loaders/Xml/Tidy.antt =====
-- The loop of `ooxml_xml_to_text` ends, and what it returns is tidy.
use rag_cpp.Common.{
  ℕ, zero, suc, ◌+◌, ◌≤◌, ◌<◌, ◌≡◌, ◌≢◌, refl, subst, min, Bool, true, false, not, ◌&&◌, ◌||◌,
  Option, none, some, List, [], ◌∷◌, length, arith, inl, inr, Bool-cases, Option-cases, ltb→lt, ltb,
  leb, ◌==◌, if◌then◌else◌,
}
use rag_cpp.Core.{is_empty}
use rag_cpp.Loaders.Xml.{
  Scan, split_at, before, after_tag, after_entity, scan_step, scan_next, scan_loop, squeeze,
  trim_end, tidy, scan_start, ooxml_xml_to_text,
}

abbrev pub Shorter : ℕ → Option (List ℕ × List ℕ) → Type 0
Shorter n none = Unit
Shorter n (some (s, rest)) = length rest < n

before-Shorter :
    (n x : ℕ) (o : Option (List ℕ × List ℕ)) → Shorter n o → Shorter (suc n) (before x o)
before-Shorter n x none h = tt
before-Shorter n x (some (s, rest)) h = omega (arith, h)

pub split_at-Shorter : (c : ℕ) (s : List ℕ) → Shorter (length s) (split_at c s)
unfolding split_at
split_at-Shorter c [] = tt
split_at-Shorter c (x ∷ s) = elim (Bool-cases (x == c)) [
  | inl e ↦ rw e (omega arith)
  | inr e ↦ rw e (before-Shorter (length s) x (split_at c s) (split_at-Shorter c s))
]

abbrev Within : ℕ → Option (List ℕ × Scan) → Type 0
Within n none = Unit
Within n (some (rest, s)) = length rest ≤ n

after_tag-Within :
    (n : ℕ) (o : Option (List ℕ × List ℕ)) (s : Scan) → Shorter n o → Within n (after_tag o s)
after_tag-Within n none s h = tt
after_tag-Within n (some (tag, rest)) s h = omega (arith, h)

after_entity-Within :
    (strtoul : List ℕ → ℕ → ℕ) (text : List ℕ) (o : Option (List ℕ × List ℕ)) (s : Scan)
    → Shorter (length text) o
    → Within (length text) (some (after_entity strtoul text o s))
after_entity-Within strtoul text none s h = omega arith
after_entity-Within strtoul text (some (ent, rest)) s h =
    elim (Bool-cases (leb (length ent + 1) 10)) [
      | inl e ↦ rw e (omega (arith, h))
      | inr e ↦ rw e (omega arith)
    ]

scan_step-Within :
    (strtoul : List ℕ → ℕ → ℕ) (c : ℕ) (text : List ℕ) (s : Scan)
    → Within (length text) (scan_step strtoul c text s)
unfolding scan_step
scan_step-Within strtoul c text s = elim (Bool-cases (c == b'<')) [
  | inl e ↦ rw e (after_tag-Within _ _ s (split_at-Shorter b'>' text))
  | inr e ↦ rw e (elim (Bool-cases (c == b'&')) [
    | inl f ↦ rw f (after_entity-Within strtoul text _ s (split_at-Shorter b';' text))
    | inr f ↦ rw f (omega arith)
  ])
]

-- One newline more than two would be too many, with nothing but blanks since the first.
unfoldable pub at_most_two : ℕ → List ℕ → Bool
at_most_two k [] = true
at_most_two k (c ∷ s) =
    (not (c == b'\n') || ltb k 2)
    && at_most_two (if c == b'\n' then k + 1 else if c == b' ' || c == b'\t' then k else 0) s

-- The last byte is a newline or a space.
unfoldable pub ends_blank : List ℕ → Bool
ends_blank [] = false
ends_blank (c ∷ s) = if is_empty s then c == b'\n' || c == b' ' else ends_blank s

trim_end-at_most_two :
    (k : ℕ) (s : List ℕ) → at_most_two k s ≡ true → at_most_two k (trim_end s) ≡ true
unfolding at_most_two trim_end
trim_end-at_most_two k [] h = refl
trim_end-at_most_two k (c ∷ s) h = ground (
  arith,
  h,
  trim_end-at_most_two (if c == b'\n' then k + 1 else if c == b' ' || c == b'\t' then k else 0) s,
)

trimmed :
    (c : ℕ) (rest : List ℕ)
    → ends_blank rest ≡ false
    → ends_blank (if is_empty rest && (c == b'\n' || c == b' ') then [] else c ∷ rest) ≡ false
unfolding ends_blank
trimmed c [] h = elim (Bool-cases (c == b'\n' || c == b' ')) [ inl e ↦ rw e refl | inr e ↦ rw e e ]
trimmed c (x ∷ rest) h = h

ends_blank-trim_end : (s : List ℕ) → ends_blank (trim_end s) ≡ false
unfolding trim_end ends_blank
ends_blank-trim_end [] = refl
ends_blank-trim_end (c ∷ s) = trimmed c (trim_end s) (ends_blank-trim_end s)

at_most_two-squeeze : (nl : ℕ) (s : List ℕ) → at_most_two (min nl 2) (squeeze nl s) ≡ true
unfolding at_most_two squeeze
at_most_two-squeeze nl [] = refl
at_most_two-squeeze nl (c ∷ s) = elim (Bool-cases (c == b'\n')) [
  | inl e ↦ elim (Bool-cases (ltb 2 (nl + 1))) [
    | inl f ↦ rw e (
        rw f (
          subst (λ k. at_most_two k (squeeze (nl + 1) s) ≡ true) (full f)
            (at_most_two-squeeze (nl + 1) s)))
    | inr f ↦ rw e (
        rw f (
          rw e (
            rw (room f) (
              subst (λ k. at_most_two k (squeeze (nl + 1) s) ≡ true) (next f)
                (at_most_two-squeeze (nl + 1) s)))))
  ]
  | inr e ↦ rw e (
      rw e (elim (Bool-cases (c == b' ' || c == b'\t')) [
        | inl f ↦ rw f (at_most_two-squeeze nl s)
        | inr f ↦ rw f (at_most_two-squeeze 0 s)
      ]))
]
  where
    full : ltb 2 (nl + 1) ≡ true → min (nl + 1) 2 ≡ min nl 2
    full f = omega (arith, ltb→lt _ _ f)

    next : ltb 2 (nl + 1) ≡ false → min (nl + 1) 2 ≡ min nl 2 + 1
    next f = ground (arith, f)

    room : ltb 2 (nl + 1) ≡ false → ltb (min nl 2) 2 ≡ true
    room f = ground (arith, f)

none_some : {s : Scan} → some s ≡ none → ⊥
none_some e = cc

scan_next-some :
    (o : Option (List ℕ × Scan)) (s : Scan) (n : ℕ) (go : List ℕ → Scan → Option Scan)
    → Within n o
    → ((text : List ℕ) (t : Scan) → length text ≤ n → go text t ≢ none)
    → scan_next o s go ≢ none
scan_next-some none s n go h k = λ e. none_some e
scan_next-some (some (text, t)) s n go h k = k text t h

scan_loop-some :
    (n : ℕ) (strtoul : List ℕ → ℕ → ℕ) (text : List ℕ) (s : Scan)
    → length text ≤ n
    → scan_loop n strtoul text s ≢ none
unfolding scan_loop
scan_loop-some n strtoul [] s h = λ e. none_some e
scan_loop-some zero strtoul (c ∷ text) s h = absurd (omega (arith, h))
scan_loop-some (suc n) strtoul (c ∷ text) s h =
    scan_next-some (scan_step strtoul c text s) s (length text) _
      (scan_step-Within strtoul c text s)
      λ rest t k. scan_loop-some n strtoul rest t (omega (arith, h, k))

-- No more than two newlines with nothing but blanks between them, and neither a newline nor a space
-- at the end.
abbrev pub IsTidy : List ℕ → Type 0
IsTidy text = (at_most_two 0 text ≡ true) × (ends_blank text ≡ false)

pub ooxml_xml_to_text-IsTidy :
    (strtoul : List ℕ → ℕ → ℕ) (xml : List ℕ)
    → (text : List ℕ) × (ooxml_xml_to_text strtoul xml ≡ some text) × IsTidy text
unfolding ooxml_xml_to_text tidy
ooxml_xml_to_text-IsTidy strtoul xml =
    elim (Option-cases (scan_loop (length xml) strtoul xml scan_start)) [
      | inl e ↦ absurd (scan_loop-some (length xml) strtoul xml scan_start (omega arith) e)
      | inr (s, e) ↦ (
        trim_end (squeeze 0 s.out),
        rw e refl,
        (
          trim_end-at_most_two 0 (squeeze 0 s.out) (at_most_two-squeeze 0 s.out),
          ends_blank-trim_end (squeeze 0 s.out),
        ),
      )
    ]
