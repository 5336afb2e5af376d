-- ===== src/Loaders/Html/Page.antt =====
-- A page with a title and paragraphs, as `html_to_text` reads it.
use rag_cpp.Common.{
  All-append, Bool, ◌||◌, ℕ, zero, suc, ◌≤◌, ◌≡◌, ◌≢◌, refl, sym, ◌∙◌, subst, true, false, some,
  List, [], ◌∷◌, ◌++◌, All, length, arith, inl, inr, Bool-cases, ◌==◌, ==_iff, length-append,
  append_assoc, append-nil, if◌then◌else◌,
}
use rag_cpp.Core.{bytes}
use rag_cpp.Text.Tokenizer.{isalnum, tolower, is_upper}
use rag_cpp.Loaders.Xml.{split_at, ends_in}
use rag_cpp.Loaders.Xml.Paragraphs.{escape_byte, escape, lines, ends_in_append, ends_in_last}
use rag_cpp.Loaders.Html.{
  Html, find_entity, contains, tag_name, on_html_tag, html_step, html_loop, collapse, html_to_text,
}

unfoldable pub page_end : List (List ℕ) → List ℕ
page_end [] = bytes "</body></html>"
page_end (p ∷ ps) = bytes "<p>" ++ (escape p ++ (bytes "</p>" ++ page_end ps))

unfoldable pub page : List ℕ → List (List ℕ) → List ℕ
page title ps =
    bytes "<html><head><title>" ++ (escape title ++ (bytes "</title></head><body>" ++ page_end ps))

-- A text that is not empty and holds neither a newline nor a carriage return.
abbrev pub IsParagraph : List ℕ → Type 0
IsParagraph [] = ⊥
IsParagraph (c ∷ text) = All (λ b. (b ≢ b'\n') × (b ≢ b'\r')) (c ∷ text)

-- Whatever fuel is enough, the loop ends in this state.
record Reads (text : List ℕ) (s t : Html) : Type 0 where
  reads : (n : ℕ) → length text ≤ n → html_loop n text s ≡ some t

abbrev in_body : List ℕ → Html
in_body out = record { out = out; skip_until = [] }

abbrev in_head : Html
in_head = record { out = []; skip_until = bytes "head" }

run_step :
    (c : ℕ) (text rest : List ℕ) (s s2 t : Html) (n : ℕ)
    → html_step c text s ≡ some (rest, s2)
    → length rest ≤ length text
    → Reads rest s2 t
    → length (c ∷ text) ≤ n
    → html_loop n (c ∷ text) s ≡ some t
unfolding html_loop
run_step c text rest s s2 t zero e l r h = absurd (omega (arith, h))
run_step c text rest s s2 t (suc n) e l r h = rw e (r.reads n (omega (arith, l, h)))

step-Reads :
    (c : ℕ) (text rest : List ℕ) (s s2 t : Html)
    → html_step c text s ≡ some (rest, s2)
    → length rest ≤ length text
    → Reads rest s2 t
    → Reads (c ∷ text) s t
step-Reads c text rest s s2 t e l r = record {
  reads = λ n h. run_step c text rest s s2 t n e l r h;
}

end-Reads : (s : Html) → Reads [] s s
unfolding html_loop
end-Reads s = record { reads = λ n h. refl }

found :
    (tag rest : List ℕ) (s : Html)
    → split_at b'>' (tag ++ b'>' ∷ rest) ≡ some (tag, rest)
    → html_step b'<' (tag ++ b'>' ∷ rest) s ≡ some (rest, on_html_tag tag s)
unfolding html_step
found tag rest s e = rw e refl

tag-Reads :
    (tag rest : List ℕ) (s t : Html)
    → split_at b'>' (tag ++ b'>' ∷ rest) ≡ some (tag, rest)
    → Reads rest (on_html_tag tag s) t
    → Reads (b'<' ∷ (tag ++ b'>' ∷ rest)) s t
tag-Reads tag rest s t e r =
    step-Reads b'<' (tag ++ b'>' ∷ rest) rest s (on_html_tag tag s) t (found tag rest s e)
      (omega (arith, length-append tag (b'>' ∷ rest))) r

-- A byte of the text.
plain_byte :
    (c : ℕ) (rest out : List ℕ)
    → c ≢ b'\r'
    → (c == b'&') ≡ false
    → (c == b'<') ≡ false
    → html_step c rest (in_body out) ≡ some (rest, in_body (out ++ c ∷ []))
unfolding html_step
plain_byte c rest out n h k =
    let kept : (c == b'\r') ≡ false = ground (arith, n) in rw k (rw h (rw kept refl))

amp_byte :
    (rest out : List ℕ)
    → html_step b'&' (bytes "amp;" ++ rest) (in_body out) ≡ some (rest, in_body (out ++ b'&' ∷ []))
unfolding html_step split_at find_entity
amp_byte rest out = refl

lt_byte :
    (rest out : List ℕ)
    → html_step b'&' (bytes "lt;" ++ rest) (in_body out) ≡ some (rest, in_body (out ++ b'<' ∷ []))
unfolding html_step split_at find_entity
lt_byte rest out = refl

gt_byte :
    (rest out : List ℕ)
    → html_step b'&' (bytes "gt;" ++ rest) (in_body out) ≡ some (rest, in_body (out ++ b'>' ∷ []))
unfolding html_step split_at find_entity
gt_byte rest out = refl

byte-Reads :
    (c : ℕ) (rest out : List ℕ) (t : Html)
    → c ≢ b'\r'
    → Reads rest (in_body (out ++ c ∷ [])) t
    → Reads (escape_byte c ++ rest) (in_body out) t
unfolding escape_byte
byte-Reads c rest out t n r =
    let read = λ (x : ℕ) (e : (c == x) ≡ true).
      subst (λ y. Reads rest (in_body (out ++ y ∷ [])) t) ((==_iff c x).0 e) r in
    elim (Bool-cases (c == b'&')) [
      | inl e ↦ rw e (
          step-Reads b'&' (bytes "amp;" ++ rest) rest _ _ t (amp_byte rest out) (omega arith)
            (read b'&' e))
      | inr e ↦ rw e (elim (Bool-cases (c == b'<')) [
        | inl f ↦ rw f (
            step-Reads b'&' (bytes "lt;" ++ rest) rest _ _ t (lt_byte rest out) (omega arith)
              (read b'<' f))
        | inr f ↦ rw f (elim (Bool-cases (c == b'>')) [
          | inl g ↦ rw g (
              step-Reads b'&' (bytes "gt;" ++ rest) rest _ _ t (gt_byte rest out) (omega arith)
                (read b'>' g))
          | inr g ↦
              rw g (step-Reads c rest rest _ _ t (plain_byte c rest out n e f) (omega arith) r)
        ])
      ])
    ]

escape-Reads :
    (text rest out : List ℕ) (t : Html)
    → All (λ b. (b ≢ b'\n') × (b ≢ b'\r')) text
    → Reads rest (in_body (out ++ text)) t
    → Reads (escape text ++ rest) (in_body out) t
unfolding escape
escape-Reads [] rest out t h r = subst (λ o. Reads rest (in_body o) t) (append-nil out) r
escape-Reads (c ∷ text) rest out t h r =
    let after = subst (λ o. Reads rest (in_body o) t) (sym (append_assoc out (c ∷ []) text)) r in
    subst (λ x. Reads x (in_body out) t) (sym (append_assoc (escape_byte c) (escape text) rest))
      (byte-Reads c (escape text ++ rest) out t h.0.1
        (escape-Reads text rest (out ++ c ∷ []) t h.1 after))

-- In the head, what is no tag is left out.
skipped-Reads :
    (text rest : List ℕ) (t : Html)
    → All (λ b. b ≢ b'<') text
    → Reads rest in_head t
    → Reads (text ++ rest) in_head t
unfolding html_step
skipped-Reads [] rest t h r = r
skipped-Reads (c ∷ text) rest t h r =
    let plain : (c == b'<') ≡ false = ground (arith, h.0) in
    step-Reads c (text ++ rest) (text ++ rest) in_head in_head t (rw plain refl) (omega arith)
      (skipped-Reads text rest t h.1 r)

escape_byte-untagged : (c : ℕ) → All (λ b. b ≢ b'<') (escape_byte c)
unfolding escape_byte
escape_byte-untagged c = ground arith

escape-untagged : (text : List ℕ) → All (λ b. b ≢ b'<') (escape text)
unfolding escape
escape-untagged [] = tt
escape-untagged (c ∷ text) =
    All-append (λ b. b ≢ b'<') (escape_byte c) (escape text) (escape_byte-untagged c)
      (escape-untagged text)

-- The end of the head, and the two tags before the paragraphs.
body_tag-Reads :
    (rest : List ℕ) (t : Html)
    → Reads rest (in_body []) t
    → Reads (bytes "</title></head><body>" ++ rest) in_head t
unfolding on_html_tag tag_name contains isalnum tolower is_upper split_at
body_tag-Reads rest t r =
    tag-Reads (bytes "/title") (bytes "</head><body>" ++ rest) in_head t refl (
      tag-Reads (bytes "/head") (bytes "<body>" ++ rest) in_head t refl
        (tag-Reads (bytes "body") rest (in_body []) t refl r))

head-Reads :
    (rest : List ℕ) (t : Html)
    → Reads rest in_head t
    → Reads (bytes "<html><head><title>" ++ rest) (in_body []) t
unfolding on_html_tag tag_name contains isalnum tolower is_upper split_at
head-Reads rest t r = tag-Reads (bytes "html") (bytes "<head><title>" ++ rest) (in_body []) t refl (
    tag-Reads (bytes "head") (bytes "<title>" ++ rest) (in_body []) t refl
      (tag-Reads (bytes "title") rest in_head t refl r))

open_paragraph :
    (out : List ℕ) → ends_in b'\n' out ≡ true → on_html_tag (bytes "p") (in_body out) ≡ in_body out
unfolding on_html_tag tag_name contains isalnum tolower is_upper
open_paragraph out e = rw e refl

close_paragraph :
    (out : List ℕ)
    → ends_in b'\n' out ≡ false
    → on_html_tag (bytes "/p") (in_body out) ≡ in_body (out ++ b'\n' ∷ [])
unfolding on_html_tag tag_name contains isalnum tolower is_upper
close_paragraph out e = rw e refl

-- A tag that would become a space is nothing behind a newline.
closing_tag :
    (out : List ℕ)
    → ends_in b'\n' out ≡ true
    → (on_html_tag (bytes "/body") (in_body out) ≡ in_body out)
      × (on_html_tag (bytes "/html") (in_body out) ≡ in_body out)
unfolding on_html_tag tag_name contains isalnum tolower is_upper
closing_tag out e = (rw e (kept (ends_in b' ' out)), rw e (kept (ends_in b' ' out)))
  where
    kept :
        (b : Bool) → (if b || true then in_body out else in_body (out ++ b' ' ∷ [])) ≡ in_body out
    kept true = refl
    kept false = refl

end_tags-Reads :
    (out : List ℕ)
    → ends_in b'\n' out ≡ true
    → Reads (bytes "</body></html>") (in_body out) (in_body out)
unfolding split_at
end_tags-Reads out e =
    let k = closing_tag out e in
    tag-Reads (bytes "/body") (bytes "</html>") (in_body out) (in_body out) refl (
      subst (λ s. Reads (bytes "</html>") s (in_body out)) (sym k.0)
        (tag-Reads (bytes "/html") [] (in_body out) (in_body out) refl
          (subst (λ s. Reads [] s (in_body out)) (sym k.1) (end-Reads (in_body out)))))

paragraph-Reads :
    (p rest out : List ℕ) (t : Html)
    → All (λ b. (b ≢ b'\n') × (b ≢ b'\r')) p
    → ends_in b'\n' out ≡ true
    → ends_in b'\n' (out ++ p) ≡ false
    → Reads rest (in_body ((out ++ p) ++ b'\n' ∷ [])) t
    → Reads (bytes "<p>" ++ (escape p ++ (bytes "</p>" ++ rest))) (in_body out) t
unfolding split_at
paragraph-Reads p rest out t h e f r =
    let closed =
      tag-Reads (bytes "/p") rest (in_body (out ++ p)) t refl
        (subst (λ s. Reads rest s t) (sym (close_paragraph (out ++ p) f)) r) in
    let inner = escape-Reads p (bytes "</p>" ++ rest) out t h closed in
    tag-Reads (bytes "p") (escape p ++ (bytes "</p>" ++ rest)) (in_body out) t refl (
      subst (λ s. Reads (escape p ++ (bytes "</p>" ++ rest)) s t) (sym (open_paragraph out e))
        inner)

no_newline : (p : List ℕ) → All (λ b. (b ≢ b'\n') × (b ≢ b'\r')) p → All (λ b. b ≢ b'\n') p
no_newline [] h = tt
no_newline (c ∷ p) h = (h.0.0, no_newline p h.1)

page_end-Reads :
    (ps : List (List ℕ)) (out : List ℕ)
    → All IsParagraph ps
    → ends_in b'\n' out ≡ true
    → Reads (page_end ps) (in_body out) (in_body (out ++ lines ps))
unfolding page_end lines
page_end-Reads [] out h e =
    subst (λ o. Reads (bytes "</body></html>") (in_body out) (in_body o)) (sym (append-nil out))
      (end_tags-Reads out e)
page_end-Reads ([] ∷ ps) out h e = absurd h.0
page_end-Reads ((c ∷ p) ∷ ps) out h e =
    paragraph-Reads (c ∷ p) (page_end ps) out _ h.0 e
      (ends_in_append b'\n' out c p (no_newline (c ∷ p) h.0))
      (subst (λ o. Reads (page_end ps) (in_body ((out ++ c ∷ p) ++ b'\n' ∷ [])) (in_body o))
        (append_assoc (out ++ c ∷ p) (b'\n' ∷ []) (lines ps)
          ∙ append_assoc out (c ∷ p) (b'\n' ∷ lines ps))
        (page_end-Reads ps ((out ++ c ∷ p) ++ b'\n' ∷ []) h.1 (ends_in_last b'\n' (out ++ c ∷ p))))

collapse-line :
    (p rest : List ℕ)
    → All (λ b. (b ≢ b'\n') × (b ≢ b'\r')) p
    → collapse 0 (p ++ b'\n' ∷ rest) ≡ p ++ b'\n' ∷ collapse 1 rest
unfolding collapse
collapse-line [] rest h = refl
collapse-line (c ∷ p) rest h = ground (arith, h.0, collapse-line p rest h.1)

collapse-lines :
    (nl : ℕ) (ps : List (List ℕ)) → All IsParagraph ps → collapse nl (lines ps) ≡ lines ps
unfolding lines collapse
collapse-lines nl [] h = refl
collapse-lines nl ([] ∷ ps) h = absurd h.0
collapse-lines nl ((c ∷ p) ∷ ps) h =
    ground (arith, h.0.0, collapse-line p (lines ps) h.0.1, collapse-lines 1 ps h.1)

-- A page with a title and paragraphs that are not empty and hold neither a newline nor a carriage
-- return, with the `&`, `<` and `>` of its texts escaped: `html_to_text` returns the paragraphs one
-- line each, and leaves out the title.
pub html_to_text-page :
    (title : List ℕ) (ps : List (List ℕ))
    → All IsParagraph ps
    → html_to_text (page title ps) ≡ some (lines ps)
unfolding html_to_text page
html_to_text-page title ps h =
    let body = bytes "</title></head><body>" ++ page_end ps in
    let whole = head-Reads (escape title ++ body) _ (
      skipped-Reads (escape title) body _ (escape-untagged title)
        (body_tag-Reads (page_end ps) _ (page_end-Reads ps [] h refl))) in
    rw (whole.reads (length (page title ps)) (omega arith)) (rw (collapse-lines 0 ps h) refl)
