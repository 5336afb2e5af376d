-- ===== src/Loaders/Html.antt =====
-- `html_to_text` of src/loaders/loaders.cpp. A position is the text that is left; the loop runs on
-- fuel, the length of the text, and `none` is a loop that did not end.
pub mod Total
pub mod Page
use rag_cpp.Common.{
  ℕ, zero, suc, ◌+◌, Bool, true, false, not, ◌&&◌, ◌||◌, Option, none, some, List, [], ◌∷◌, ◌++◌,
  length, ltb, leb, ◌==◌, if◌then◌else◌,
}
use rag_cpp.Core.{bytes, text_eq, is_empty}
use rag_cpp.Text.Tokenizer.{isalnum, tolower}
use rag_cpp.Loaders.Bits.{◌>>=?◌}
use rag_cpp.Loaders.Xml.{split_at, ends_in}

-- The dashes and the ellipsis are three bytes of UTF-8 each.
abbrev pub entities : List (List ℕ × List ℕ)
entities =
    (bytes "amp", bytes "&")
    ∷ (bytes "lt", bytes "<")
    ∷ (bytes "gt", bytes ">")
    ∷ (bytes "quot", b'"' ∷ [])
    ∷ (bytes "apos", bytes "'")
    ∷ (bytes "nbsp", bytes " ")
    ∷ (bytes "copy", bytes "(c)")
    ∷ (bytes "mdash", 226 ∷ 128 ∷ 148 ∷ [])
    ∷ (bytes "ndash", 226 ∷ 128 ∷ 147 ∷ [])
    ∷ (bytes "hellip", 226 ∷ 128 ∷ 166 ∷ [])
    ∷ (bytes "rsquo", bytes "'")
    ∷ (bytes "lsquo", bytes "'")
    ∷ (bytes "ldquo", b'"' ∷ [])
    ∷ (bytes "rdquo", b'"' ∷ [])
    ∷ []

unfoldable pub find_entity : List ℕ → List (List ℕ × List ℕ) → Option (List ℕ)
find_entity ent [] = none
find_entity ent ((name, text) ∷ table) =
    let rest = find_entity ent table in if text_eq ent name then some text else rest

unfoldable pub contains : List ℕ → List (List ℕ) → Bool
contains name [] = false
contains name (other ∷ names) = let rest = contains name names in text_eq name other || rest

abbrev pub skipped_tags : List (List ℕ)
skipped_tags = bytes "script" ∷ bytes "style" ∷ bytes "head" ∷ bytes "noscript" ∷ []

abbrev pub block_tags : List (List ℕ)
block_tags =
    bytes "p"
    ∷ bytes "div"
    ∷ bytes "br"
    ∷ bytes "li"
    ∷ bytes "tr"
    ∷ bytes "h1"
    ∷ bytes "h2"
    ∷ bytes "h3"
    ∷ bytes "h4"
    ∷ bytes "h5"
    ∷ bytes "h6"
    ∷ bytes "section"
    ∷ bytes "article"
    ∷ bytes "header"
    ∷ bytes "footer"
    ∷ bytes "pre"
    ∷ bytes "blockquote"
    ∷ []

-- The text so far, and the tag whose end is looked for, if it is not empty.
pub record Html : Type 0 where
  pub out : List ℕ
  pub skip_until : List ℕ

abbrev pub append : List ℕ → Html → Html
append text s = record s { out = s.out ++ text }

-- `ends_in` holds of the empty text too.
abbrev pub append_space : Html → Html
append_space s = if ends_in b' ' s.out || ends_in b'\n' s.out then s else append (b' ' ∷ []) s

abbrev pub append_newline : Html → Html
append_newline s = if ends_in b'\n' s.out then s else append (b'\n' ∷ []) s

unfoldable pub tag_name : List ℕ → List ℕ
tag_name [] = []
tag_name (c ∷ tag) = let rest = tag_name tag in if isalnum c then tolower c ∷ rest else []

abbrev pub named_tag : Bool → List ℕ → Html → Html
named_tag closing name s =
    if not (is_empty s.skip_until)
    then (if closing && text_eq name s.skip_until then record s { skip_until = [] } else s)
    else if contains name skipped_tags && not closing
    then record s { skip_until = name }
    else if contains name block_tags
    then append_newline s
    else append_space s

unfoldable pub on_html_tag : List ℕ → Html → Html
unfolding tag_name contains
on_html_tag [] s = named_tag false [] s
on_html_tag (c ∷ tag) s =
    if c == b'/' then named_tag true (tag_name tag) s else named_tag false (tag_name (c ∷ tag)) s

-- A round of the loop: the text that is left, or `none` for the `break`.
abbrev pub after_tag : Option (List ℕ × List ℕ) → Html → Option (List ℕ × Html)
after_tag none s = none
after_tag (some (tag, rest)) s = some (rest, on_html_tag tag s)

abbrev pub plain : ℕ → List ℕ → Html → List ℕ × Html
plain c text s = if c == b'\r' then (text, s) else (text, append (c ∷ []) s)

abbrev pub is_numeric : List ℕ → Bool
is_numeric [] = false
is_numeric (c ∷ ent) = c == b'#'

abbrev pub on_entity : List ℕ → List ℕ → Option (List ℕ) → List ℕ → Html → List ℕ × Html
on_entity text ent (some t) rest s = (rest, append t s)
on_entity text ent none rest s =
    if is_numeric ent then (rest, append (b' ' ∷ []) s) else plain b'&' text s

-- `semi - i <= 8`
abbrev pub after_entity : List ℕ → Option (List ℕ × List ℕ) → Html → List ℕ × Html
after_entity text none s = plain b'&' text s
after_entity text (some (ent, rest)) s =
    if leb (length ent + 1) 8
    then on_entity text ent (find_entity ent entities) rest s
    else plain b'&' text s

unfoldable pub html_step : ℕ → List ℕ → Html → Option (List ℕ × Html)
unfolding find_entity on_html_tag
html_step c text s =
    if c == b'<'
    then after_tag (split_at b'>' text) s
    else if not (is_empty s.skip_until)
    then some (text, s)
    else if c == b'&'
    then some (after_entity text (split_at b';' text) s)
    else some (plain c text s)

abbrev pub html_next : Option (List ℕ × Html) → Html → (List ℕ → Html → Option Html) → Option Html
html_next none s go = some s
html_next (some (text, t)) s go = go text t

unfoldable pub html_loop : ℕ → List ℕ → Html → Option Html
html_loop n [] s = some s
html_loop zero (c ∷ text) s = none
html_loop (suc n) (c ∷ text) s = html_next (html_step c text s) s λ rest t. html_loop n rest t

-- Three newlines and more become two.
unfoldable pub collapse : ℕ → List ℕ → List ℕ
collapse nl [] = []
collapse nl (c ∷ out) =
    let rest = collapse (if c == b'\n' then nl + 1 else 0) out in
    if c == b'\n' && not (leb (nl + 1) 2) then rest else c ∷ rest

abbrev pub html_start : Html
html_start = record { out = []; skip_until = [] }

unfoldable pub html_to_text : List ℕ → Option (List ℕ)
unfolding html_loop collapse
html_to_text html = html_loop (length html) html html_start >>=? λ s. some (collapse 0 s.out)
