-- ===== src/Loaders/Xml/Paragraphs.antt =====
-- The paragraphs of a document, written as Word writes them, and read back.
use rag_cpp.Common.{
  ℕ, zero, suc, ◌≤◌, ◌≡◌, ◌≢◌, refl, sym, ◌∙◌, subst, true, false, some, List, [], ◌∷◌, ◌++◌, All,
  length, arith, inl, inr, Bool-cases, ◌==◌, ==_iff, ==_refl, length-append, append_assoc,
  append-nil, if◌then◌else◌,
}
use rag_cpp.Core.{bytes}
use rag_cpp.Loaders.Xml.{
  Scan, split_at, scan_step, scan_loop, squeeze, trim_end, tidy, ooxml_xml_to_text, on_tag, on_name,
  local_name, name_part, append, ends_in, decode_entity,
}

-- A byte of character data, written with the entities that XML asks for.
unfoldable pub escape_byte : ℕ → List ℕ
escape_byte c =
    if c == b'&'
    then bytes "&amp;"
    else if c == b'<'
    then bytes "&lt;"
    else if c == b'>'
    then bytes "&gt;"
    else c ∷ []

unfoldable pub escape : List ℕ → List ℕ
escape [] = []
escape (c ∷ text) = escape_byte c ++ escape text

unfoldable pub paragraph : List ℕ → List ℕ
paragraph text = bytes "<w:p><w:r><w:t>" ++ (escape text ++ bytes "</w:t></w:r></w:p>")

unfoldable pub body : List (List ℕ) → List ℕ
body [] = bytes "</w:body></w:document>"
body (p ∷ ps) = paragraph p ++ body ps

abbrev pub xml_declaration : List ℕ
xml_declaration = bytes "?xml version=\"1.0\" encoding=\"UTF-8\" standalone=\"yes\"?"

abbrev pub document_tag : List ℕ
document_tag =
    bytes "w:document xmlns:w=\"http://schemas.openxmlformats.org/wordprocessingml/2006/main\""

-- A whole document, from its declaration on.
unfoldable pub document : List (List ℕ) → List ℕ
document ps =
    (b'<' ∷ xml_declaration)
    ++ b'>' ∷ ((b'<' ∷ document_tag) ++ b'>' ∷ (bytes "<w:body>" ++ body ps))

unfoldable pub lines : List (List ℕ) → List ℕ
lines [] = []
lines (p ∷ ps) = p ++ b'\n' ∷ lines ps

-- A text that is not empty, holds no newline and begins with neither a space nor a tab.
abbrev pub IsLine : List ℕ → Type 0
IsLine [] = ⊥
IsLine (c ∷ text) = (c ≢ b' ') × (c ≢ b'\t') × All (λ b. b ≢ b'\n') (c ∷ text)

-- Whatever fuel is enough, the loop ends in this state.
record Reads (strtoul : List ℕ → ℕ → ℕ) (text : List ℕ) (s t : Scan) : Type 0 where
  reads : (n : ℕ) → length text ≤ n → scan_loop n strtoul text s ≡ some t

abbrev in_text : List ℕ → Scan
in_text out = record { out = out; skipping = false; table_depth = 0 }

module _ (strtoul : List ℕ → ℕ → ℕ) where
  run_step :
      (c : ℕ) (text rest : List ℕ) (s s2 t : Scan) (n : ℕ)
      → scan_step strtoul c text s ≡ some (rest, s2)
      → length rest ≤ length text
      → Reads strtoul rest s2 t
      → length (c ∷ text) ≤ n
      → scan_loop n strtoul (c ∷ text) s ≡ some t
  unfolding scan_loop
  run_step c text rest s s2 t zero e l r h = absurd (omega (arith, h))
  run_step c text rest s s2 t (suc n) e l r h = rw e (r.reads n (omega (arith, l, h)))

  step-Reads :
      (c : ℕ) (text rest : List ℕ) (s s2 t : Scan)
      → scan_step strtoul c text s ≡ some (rest, s2)
      → length rest ≤ length text
      → Reads strtoul rest s2 t
      → Reads strtoul (c ∷ text) s t
  step-Reads c text rest s s2 t e l r = record {
    reads = λ n h. run_step c text rest s s2 t n e l r h;
  }

  end-Reads : (s : Scan) → Reads strtoul [] s s
  unfolding scan_loop
  end-Reads s = record { reads = λ n h. refl }

  plain_byte :
      (c : ℕ) (rest : List ℕ) (s : Scan)
      → (c == b'&') ≡ false
      → (c == b'<') ≡ false
      → scan_step strtoul c rest s ≡ some (rest, append (c ∷ []) s)
  unfolding scan_step
  plain_byte c rest s h k = rw k (rw h refl)

  amp_byte :
      (rest : List ℕ) (s : Scan)
      → scan_step strtoul b'&' (bytes "amp;" ++ rest) s ≡ some (rest, append (b'&' ∷ []) s)
  unfolding scan_step split_at decode_entity
  amp_byte rest s = refl

  lt_byte :
      (rest : List ℕ) (s : Scan)
      → scan_step strtoul b'&' (bytes "lt;" ++ rest) s ≡ some (rest, append (b'<' ∷ []) s)
  unfolding scan_step split_at decode_entity
  lt_byte rest s = refl

  gt_byte :
      (rest : List ℕ) (s : Scan)
      → scan_step strtoul b'&' (bytes "gt;" ++ rest) s ≡ some (rest, append (b'>' ∷ []) s)
  unfolding scan_step split_at decode_entity
  gt_byte rest s = refl

  byte-Reads :
      (c : ℕ) (rest : List ℕ) (s t : Scan)
      → Reads strtoul rest (append (c ∷ []) s) t
      → Reads strtoul (escape_byte c ++ rest) s t
  unfolding escape_byte
  byte-Reads c rest s t r = elim (Bool-cases (c == b'&')) [
    | inl e ↦ rw e (
        step-Reads b'&' (bytes "amp;" ++ rest) rest s _ t (amp_byte rest s) (omega arith)
          (subst (λ x. Reads strtoul rest (append (x ∷ []) s) t) ((==_iff c b'&').0 e) r))
    | inr e ↦ rw e (elim (Bool-cases (c == b'<')) [
      | inl f ↦ rw f (
          step-Reads b'&' (bytes "lt;" ++ rest) rest s _ t (lt_byte rest s) (omega arith)
            (subst (λ x. Reads strtoul rest (append (x ∷ []) s) t) ((==_iff c b'<').0 f) r))
      | inr f ↦ rw f (elim (Bool-cases (c == b'>')) [
        | inl g ↦ rw g (
            step-Reads b'&' (bytes "gt;" ++ rest) rest s _ t (gt_byte rest s) (omega arith)
              (subst (λ x. Reads strtoul rest (append (x ∷ []) s) t) ((==_iff c b'>').0 g) r))
        | inr g ↦ rw g (step-Reads c rest rest s _ t (plain_byte c rest s e f) (omega arith) r)
      ])
    ])
  ]

  escape-Reads :
      (text rest out : List ℕ) (t : Scan)
      → Reads strtoul rest (in_text (out ++ text)) t
      → Reads strtoul (escape text ++ rest) (in_text out) t
  unfolding escape
  escape-Reads [] rest out t r = subst (λ o. Reads strtoul rest (in_text o) t) (append-nil out) r
  escape-Reads (c ∷ text) rest out t r =
      subst (λ x. Reads strtoul x (in_text out) t)
        (sym (append_assoc (escape_byte c) (escape text) rest))
        (byte-Reads c (escape text ++ rest) (in_text out) t (
          escape-Reads text rest (out ++ c ∷ []) t (
            subst (λ o. Reads strtoul rest (in_text o) t) (sym (append_assoc out (c ∷ []) text))
              r)))

  found :
      (tag rest : List ℕ) (s : Scan)
      → split_at b'>' (tag ++ b'>' ∷ rest) ≡ some (tag, rest)
      → scan_step strtoul b'<' (tag ++ b'>' ∷ rest) s ≡ some (rest, on_tag tag s)
  unfolding scan_step
  found tag rest s e = rw e refl

  -- A tag and the rest.
  tag-Reads :
      (tag rest : List ℕ) (s t : Scan)
      → split_at b'>' (tag ++ b'>' ∷ rest) ≡ some (tag, rest)
      → Reads strtoul rest (on_tag tag s) t
      → Reads strtoul (b'<' ∷ (tag ++ b'>' ∷ rest)) s t
  tag-Reads tag rest s t e r =
      step-Reads b'<' (tag ++ b'>' ∷ rest) rest s (on_tag tag s) t (found tag rest s e)
        (omega (arith, length-append tag (b'>' ∷ rest))) r

  open_paragraph :
      (out : List ℕ) → ends_in b'\n' out ≡ true → on_tag (bytes "w:p") (in_text out) ≡ in_text out
  unfolding on_tag on_name local_name name_part split_at
  open_paragraph out e = rw e refl

  close_paragraph :
      (out : List ℕ)
      → ends_in b'\n' out ≡ false
      → on_tag (bytes "/w:p") (in_text out) ≡ in_text (out ++ b'\n' ∷ [])
  unfolding on_tag on_name local_name name_part split_at
  close_paragraph out e = rw e refl

  -- Tags that change nothing.
  run_tags-Reads :
      (rest out : List ℕ) (t : Scan)
      → Reads strtoul rest (in_text out) t
      → Reads strtoul (bytes "<w:r><w:t>" ++ rest) (in_text out) t
  unfolding on_tag on_name local_name name_part split_at
  run_tags-Reads rest out t r =
      tag-Reads (bytes "w:r") (bytes "<w:t>" ++ rest) (in_text out) t refl
        (tag-Reads (bytes "w:t") rest (in_text out) t refl r)

  end_tags-Reads :
      (rest out : List ℕ) (t : Scan)
      → Reads strtoul rest (in_text out) t
      → Reads strtoul (bytes "</w:t></w:r>" ++ rest) (in_text out) t
  unfolding on_tag on_name local_name name_part split_at
  end_tags-Reads rest out t r =
      tag-Reads (bytes "/w:t") (bytes "</w:r>" ++ rest) (in_text out) t refl
        (tag-Reads (bytes "/w:r") rest (in_text out) t refl r)

  body_tags-Reads :
      (out : List ℕ) → Reads strtoul (bytes "</w:body></w:document>") (in_text out) (in_text out)
  unfolding on_tag on_name local_name name_part split_at
  body_tags-Reads out =
      tag-Reads (bytes "/w:body") (bytes "</w:document>") (in_text out) (in_text out) refl (
        tag-Reads (bytes "/w:document") [] (in_text out) (in_text out) refl
          (end-Reads (in_text out)))

  paragraph-Reads :
      (p rest out : List ℕ) (t : Scan)
      → ends_in b'\n' out ≡ true
      → ends_in b'\n' (out ++ p) ≡ false
      → Reads strtoul rest (in_text ((out ++ p) ++ b'\n' ∷ [])) t
      → Reads strtoul (paragraph p ++ rest) (in_text out) t
  unfolding paragraph split_at
  paragraph-Reads p rest out t e f r =
      let closed : Reads strtoul (bytes "</w:t></w:r></w:p>" ++ rest) (in_text (out ++ p)) t =
        end_tags-Reads (bytes "</w:p>" ++ rest) (out ++ p) t (
          tag-Reads (bytes "/w:p") rest (in_text (out ++ p)) t refl
            (subst (λ s. Reads strtoul rest s t) (sym (close_paragraph (out ++ p) f)) r)) in
      let inner = escape-Reads p (bytes "</w:t></w:r></w:p>" ++ rest) out t closed in
      tag-Reads (bytes "w:p")
        (bytes "<w:r><w:t>" ++ ((escape p ++ bytes "</w:t></w:r></w:p>") ++ rest)) (in_text out) t
        refl
        (subst
          (λ s.
            Reads strtoul (bytes "<w:r><w:t>" ++ ((escape p ++ bytes "</w:t></w:r></w:p>") ++ rest))
              s t)
          (sym (open_paragraph out e))
          (run_tags-Reads _ out t (
            subst (λ x. Reads strtoul x (in_text out) t)
              (sym (append_assoc (escape p) (bytes "</w:t></w:r></w:p>") rest)) inner)))

pub ends_in_append :
    (c : ℕ) (out : List ℕ) (b : ℕ) (p : List ℕ)
    → All (λ x. x ≢ c) (b ∷ p)
    → ends_in c (out ++ b ∷ p) ≡ false
ends_in_append c [] b [] h = ground (arith, h)
ends_in_append c [] b (x ∷ p) h = ends_in_append c [] x p h.1
ends_in_append c (y ∷ []) b p h = ends_in_append c [] b p h
ends_in_append c (y ∷ (z ∷ out)) b p h = ends_in_append c (z ∷ out) b p h

pub ends_in_last : (c : ℕ) (out : List ℕ) → ends_in c (out ++ c ∷ []) ≡ true
ends_in_last c [] = ==_refl c
ends_in_last c (y ∷ []) = ==_refl c
ends_in_last c (y ∷ (z ∷ out)) = ends_in_last c (z ∷ out)

module _ (strtoul : List ℕ → ℕ → ℕ) where
  body-Reads :
      (ps : List (List ℕ)) (out : List ℕ)
      → All IsLine ps
      → ends_in b'\n' out ≡ true
      → Reads strtoul (body ps) (in_text out) (in_text (out ++ lines ps))
  unfolding body lines
  body-Reads [] out h e =
      subst (λ o. Reads strtoul (bytes "</w:body></w:document>") (in_text out) (in_text o))
        (sym (append-nil out)) (body_tags-Reads strtoul out)
  body-Reads ([] ∷ ps) out h e = absurd h.0
  body-Reads ((c ∷ p) ∷ ps) out h e =
      paragraph-Reads strtoul (c ∷ p) (body ps) out _ e (ends_in_append b'\n' out c p h.0.2) (
        subst (λ o. Reads strtoul (body ps) (in_text ((out ++ c ∷ p) ++ b'\n' ∷ [])) (in_text o))
          (append_assoc (out ++ c ∷ p) (b'\n' ∷ []) (lines ps)
            ∙ append_assoc out (c ∷ p) (b'\n' ∷ lines ps))
          (body-Reads ps ((out ++ c ∷ p) ++ b'\n' ∷ []) h.1 (ends_in_last b'\n' (out ++ c ∷ p))))

  opening-Reads :
      (ps : List (List ℕ)) (t : Scan)
      → Reads strtoul (body ps) (in_text []) t
      → Reads strtoul (document ps) (in_text []) t
  unfolding document on_tag on_name local_name name_part split_at
  opening-Reads ps t r =
      tag-Reads strtoul xml_declaration
        ((b'<' ∷ document_tag) ++ b'>' ∷ (bytes "<w:body>" ++ body ps)) (in_text []) t refl
        (tag-Reads strtoul document_tag (bytes "<w:body>" ++ body ps) (in_text []) t refl
          (tag-Reads strtoul (bytes "w:body") (body ps) (in_text []) t refl r))

squeeze-line :
    (p rest : List ℕ)
    → All (λ b. b ≢ b'\n') p
    → squeeze 0 (p ++ b'\n' ∷ rest) ≡ p ++ b'\n' ∷ squeeze 1 rest
unfolding squeeze
squeeze-line [] rest h = refl
squeeze-line (c ∷ p) rest h = ground (arith, h.0, squeeze-line p rest h.1)

squeeze-lines : (nl : ℕ) (ps : List (List ℕ)) → All IsLine ps → squeeze nl (lines ps) ≡ lines ps
unfolding lines squeeze
squeeze-lines nl [] h = refl
squeeze-lines nl ([] ∷ ps) h = absurd h.0
squeeze-lines nl ((c ∷ p) ∷ ps) h =
    ground (arith, h.0.0, h.0.1, h.0.2.0, squeeze-line p (lines ps) h.0.2.1, squeeze-lines 1 ps h.1)

-- Paragraphs that are not empty, hold no newline and begin with neither a space nor a tab, in a whole
-- document with their `&`, `<` and `>` escaped, come back one line each, without the newlines and
-- spaces at the end of the last.
pub ooxml_xml_to_text-document :
    (strtoul : List ℕ → ℕ → ℕ) (ps : List (List ℕ))
    → All IsLine ps
    → ooxml_xml_to_text strtoul (document ps) ≡ some (trim_end (lines ps))
unfolding ooxml_xml_to_text tidy
ooxml_xml_to_text-document strtoul ps h =
    rw
      ((opening-Reads strtoul ps _ (body-Reads strtoul ps [] h refl)).reads (length (document ps))
        (omega arith))
      (rw (squeeze-lines 0 ps h) refl)
