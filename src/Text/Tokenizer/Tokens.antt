-- ===== src/Text/Tokenizer/Tokens.antt =====
-- What the tokens of a text are, without the loop's state and the memo.
use rag_cpp.Common.{
  ℕ, ◌≤◌, ◌≡◌, refl, sym, ◌∙◌, true, false, not, ◌&&◌, ◌||◌, List, [], ◌∷◌, ◌++◌, length, leb,
  arith, if◌then◌else◌, Bool-cases, inl, inr, All, leb→le, ◌==◌, append-nil, append_assoc, ap,
  subst,
}
use rag_cpp.Core.{is_empty}
use rag_cpp.Text.Stopwords.{is_stopword}
use rag_cpp.Text.Porter.{porter_stem}
use rag_cpp.Text.Porter.Bounds.{porter_stem-Shrinks}
use rag_cpp.Text.Tokenizer.{
  Memo, Run, TokenizeOptions, letter, isalnum, long_enough, push_stemmed, flush, read_char,
  read_text, tokenize,
}
use rag_cpp.Text.Tokenizer.Memo.{IsSound, stem_cached-porter_stem}

abbrev pub closed : List ℕ → List (List ℕ)
closed cur = if is_empty cur then [] else cur ∷ []

-- The words of a text: runs of letters and digits, with the apostrophes inside them left out. `cur`
-- is the beginning of a word read before.
unfoldable pub words_from : TokenizeOptions → List ℕ → List ℕ → List (List ℕ)
words_from opts cur [] = closed cur
words_from opts cur (c ∷ text) =
    if isalnum c
    then words_from opts (cur ++ letter opts c ∷ []) text
    else if c == b'\'' && not (is_empty cur)
    then words_from opts cur text
    else closed cur ++ words_from opts [] text

-- The tokens of one word, none or one.
unfoldable pub token : TokenizeOptions → List ℕ → List (List ℕ)
token opts word =
    if not (leb (length word) opts.max_len) || (opts.drop_stopwords && is_stopword word)
    then []
    else long_enough opts (if opts.stem then porter_stem word else word)

abbrev pub tokens : TokenizeOptions → List (List ℕ) → List (List ℕ)
tokens opts [] = []
tokens opts (word ∷ words) = token opts word ++ tokens opts words

tokens-append :
    (opts : TokenizeOptions) (ws vs : List (List ℕ))
    → tokens opts (ws ++ vs) ≡ tokens opts ws ++ tokens opts vs
tokens-append opts [] vs = refl
tokens-append opts (w ∷ ws) vs =
    rw (tokens-append opts ws vs)
      (sym (append_assoc (token opts w) (tokens opts ws) (tokens opts vs)))

is_empty-nil : (s : List ℕ) → is_empty s ≡ true → s ≡ []
is_empty-nil [] h = refl
is_empty-nil (x ∷ s) h = cc h

-- A flush adds the tokens of the word read, and clears the word.
flush_lem :
    (opts : TokenizeOptions) (r : Run)
    → IsSound r.stems
    → ((flush opts r).out ≡ r.out ++ tokens opts (closed r.cur))
      × (((flush opts r).cur ≡ []) × IsSound (flush opts r).stems)
unfolding flush push_stemmed token
flush_lem opts r h = elim (Bool-cases (is_empty r.cur)) [
  | inl e ↦ rw e (sym (append-nil r.out), (is_empty-nil r.cur e, h))
  | inr e ↦
      elim (Bool-cases
        (not (leb (length r.cur) opts.max_len) || (opts.drop_stopwords && is_stopword r.cur))) [
          | inl d ↦ rw (e, d) (sym (append-nil r.out), (refl, h))
          | inr d ↦ elim (Bool-cases opts.stem) [
            | inl t ↦
                let m = stem_cached-porter_stem r.cur r.stems h in
                rw (e, d, t, m.0)
                  (
                    ap (λ l. r.out ++ l) (sym (append-nil (long_enough opts (porter_stem r.cur)))),
                    (refl, m.1),
                  )
            | inr t ↦
                rw (e, d, t)
                  (ap (λ l. r.out ++ l) (sym (append-nil (long_enough opts r.cur))), (refl, h))
          ]
        ]
]

read_char-word :
    (opts : TokenizeOptions) (r : Run) (c : ℕ)
    → isalnum c ≡ true
    → read_char opts r c
      ≡ record { out = r.out; cur = r.cur ++ letter opts c ∷ []; stems = r.stems }
unfolding read_char
read_char-word opts r c e = rw e refl

read_char-inside :
    (opts : TokenizeOptions) (r : Run) (c : ℕ)
    → isalnum c ≡ false
    → (c == b'\'' && not (is_empty r.cur)) ≡ true
    → read_char opts r c ≡ r
unfolding read_char
read_char-inside opts r c e d = rw (e, d) refl

read_char-flush :
    (opts : TokenizeOptions) (r : Run) (c : ℕ)
    → isalnum c ≡ false
    → (c == b'\'' && not (is_empty r.cur)) ≡ false
    → read_char opts r c ≡ flush opts r
unfolding read_char
read_char-flush opts r c e d = rw (e, d) refl

-- What reading `text` from `r` has to end in.
abbrev Tokenized : TokenizeOptions → List ℕ → Run → Run → Type 0
Tokenized opts text r q =
    (q.out ≡ r.out ++ tokens opts (words_from opts r.cur text)) × IsSound q.stems

read_text-tokens :
    (opts : TokenizeOptions) (text : List ℕ) (r : Run)
    → IsSound r.stems
    → Tokenized opts text r (read_text opts r text)
unfolding read_text words_from
read_text-tokens opts [] r h = let f = flush_lem opts r h in (f.0, f.1.1)
read_text-tokens opts (c ∷ text) r h =
    let next : Run → Type 0 = λ q. Tokenized opts (c ∷ text) r (read_text opts q text) in
    elim (Bool-cases (isalnum c)) [
      | inl e ↦
          let q : Run = record {
            out = r.out;
            cur = r.cur ++ letter opts c ∷ [];
            stems = r.stems;
          } in
          subst next (sym (read_char-word opts r c e)) (rw e (read_text-tokens opts text q h))
      | inr e ↦ elim (Bool-cases (c == b'\'' && not (is_empty r.cur))) [
        | inl d ↦
            subst next (sym (read_char-inside opts r c e d))
              (rw (e, d) (read_text-tokens opts text r h))
        | inr d ↦
            let f = flush_lem opts r h in
            let k = read_text-tokens opts text (flush opts r) f.1.1 in
            let ws = words_from opts [] text in
            let whole : r.out ++ (tokens opts (closed r.cur) ++ tokens opts ws)
                ≡ (r.out ++ tokens opts (closed r.cur)) ++ tokens opts ws =
              sym (append_assoc r.out (tokens opts (closed r.cur)) (tokens opts ws)) in
            let told : (read_text opts (flush opts r) text).out
                ≡ (r.out ++ tokens opts (closed r.cur)) ++ tokens opts ws =
              k.0 ∙ rw (f.0, f.1.0) refl in
            subst next (sym (read_char-flush opts r c e d))
              (rw (e, d) (told ∙ rw (tokens-append opts (closed r.cur) ws) (sym whole), k.1))
      ]
    ]

-- With any sound memo, `tokenize` gives the tokens of the words of the text, one word at a time and
-- without a memo, and leaves a sound memo.
pub tokenize-tokens :
    (opts : TokenizeOptions) (stems : Memo) (text : List ℕ)
    → IsSound stems
    → ((tokenize opts stems text).0 ≡ tokens opts (words_from opts [] text))
      × IsSound (tokenize opts stems text).1
unfolding tokenize
tokenize-tokens opts stems text h =
    read_text-tokens opts text (record { out = []; cur = []; stems = stems }) h

-- Within the length limits.
abbrev pub Fits : TokenizeOptions → List ℕ → Type 0
Fits opts tok = (opts.min_len ≤ length tok) × (length tok ≤ opts.max_len)

Fit-append :
    (opts : TokenizeOptions) (ts us : List (List ℕ))
    → All (Fits opts) ts
    → All (Fits opts) us
    → All (Fits opts) (ts ++ us)
Fit-append opts [] us h k = k
Fit-append opts (t ∷ ts) us h k = (h.0, Fit-append opts ts us h.1 k)

length-porter_stem : (s : List ℕ) → length (porter_stem s) ≤ length s
unfolding porter_stem
length-porter_stem [] = omega arith
length-porter_stem (x ∷ s) = (porter_stem-Shrinks (x ∷ s) (omega arith)).1

long_enough-Fit :
    (opts : TokenizeOptions) (tok : List ℕ)
    → length tok ≤ opts.max_len
    → All (Fits opts) (long_enough opts tok)
long_enough-Fit opts tok h = elim (Bool-cases (leb opts.min_len (length tok))) [
  | inl e ↦ rw e ((leb→le opts.min_len (length tok) e, h), tt)
  | inr e ↦ rw e tt
]

stemmed_length :
    (opts : TokenizeOptions) (word : List ℕ)
    → length word ≤ opts.max_len
    → length (if opts.stem then porter_stem word else word) ≤ opts.max_len
stemmed_length opts word h = elim (Bool-cases opts.stem) [
  | inl e ↦ rw e (omega (arith, length-porter_stem word))
  | inr e ↦ rw e h
]

token-Fit : (opts : TokenizeOptions) (word : List ℕ) → All (Fits opts) (token opts word)
unfolding token
token-Fit opts word = elim (Bool-cases (leb (length word) opts.max_len)) [
  | inl e ↦ elim (Bool-cases (opts.drop_stopwords && is_stopword word)) [
    | inl d ↦ rw (e, d) tt
    | inr d ↦
        rw (e, d)
          (long_enough-Fit opts _ (stemmed_length opts word (leb→le (length word) opts.max_len e)))
  ]
  | inr e ↦ rw e tt
]

tokens-Fit : (opts : TokenizeOptions) (ws : List (List ℕ)) → All (Fits opts) (tokens opts ws)
tokens-Fit opts [] = tt
tokens-Fit opts (w ∷ ws) =
    Fit-append opts (token opts w) (tokens opts ws) (token-Fit opts w) (tokens-Fit opts ws)

-- With a sound memo, every token is at least `min_len` and at most `max_len` bytes long, stemmed or
-- not.
pub tokenize-Fit :
    (opts : TokenizeOptions) (stems : Memo) (text : List ℕ)
    → IsSound stems
    → All (Fits opts) (tokenize opts stems text).0
tokenize-Fit opts stems text h =
    rw ((tokenize-tokens opts stems text h).0) (tokens-Fit opts (words_from opts [] text))
