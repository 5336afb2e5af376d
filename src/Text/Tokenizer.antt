-- ===== src/Text/Tokenizer.antt =====
-- The tokenizer of src/text/tokenizer.cpp and include/rag/text/tokenizer.hpp. `isalnum` and
-- `tolower` are those of the C locale. The memo of stems is an association list, newest first.
pub mod Memo
pub mod Tokens
use rag_cpp.Common.{
  ℕ, ◌+◌, Bool, true, false, not, ◌&&◌, ◌||◌, Option, none, some, List, [], ◌∷◌, ◌++◌, length, ltb,
  leb, ◌==◌, if◌then◌else◌,
}
use rag_cpp.Core.{is_empty}
use rag_cpp.Cache.{lookup}
use rag_cpp.Text.Stopwords.{is_stopword}
use rag_cpp.Text.Porter.{porter_stem}

pub record TokenizeOptions : Type 0 where
  pub lowercase : Bool
  pub drop_stopwords : Bool
  pub stem : Bool
  pub min_len : ℕ
  pub max_len : ℕ

abbrev pub default_options : TokenizeOptions
default_options = record {
  lowercase = true;
  drop_stopwords = true;
  stem = true;
  min_len = 2;
  max_len = 40;
}

abbrev pub Memo : Type 0
Memo = List (List ℕ × List ℕ)

abbrev pub max_entries : ℕ
max_entries = 65536

unfoldable pub recalled : Option (List ℕ) → List ℕ → Memo → List ℕ × Memo
recalled (some stem) word stems = (stem, stems)
recalled none word stems =
    let stem = porter_stem word in
    (stem, (word, stem) ∷ (if leb max_entries (length stems) then [] else stems))

-- The stem, and the memo after the call.
unfoldable pub stem_cached : List ℕ → Memo → List ℕ × Memo
stem_cached word stems = recalled (lookup word stems) word stems

-- The loop's variables: the tokens so far, the word being read, the memo.
pub record Run : Type 0 where
  pub out : List (List ℕ)
  pub cur : List ℕ
  pub stems : Memo

abbrev pub long_enough : TokenizeOptions → List ℕ → List (List ℕ)
long_enough opts tok = if leb opts.min_len (length tok) then tok ∷ [] else []

unfoldable pub push_stemmed : TokenizeOptions → List (List ℕ) → List ℕ × Memo → Run
push_stemmed opts out (tok, stems) = record {
  out = out ++ long_enough opts tok;
  cur = [];
  stems = stems;
}

unfoldable pub flush : TokenizeOptions → Run → Run
flush opts r =
    if is_empty r.cur
    then r
    else if not (leb (length r.cur) opts.max_len) || (opts.drop_stopwords && is_stopword r.cur)
    then record { out = r.out; cur = []; stems = r.stems }
    else if opts.stem
    then push_stemmed opts r.out (stem_cached r.cur r.stems)
    else record { out = r.out ++ long_enough opts r.cur; cur = []; stems = r.stems }

unfoldable pub is_upper : ℕ → Bool
is_upper c = leb b'A' c && leb c b'Z'

unfoldable pub isalnum : ℕ → Bool
isalnum c = (leb b'0' c && leb c b'9') || is_upper c || (leb b'a' c && leb c b'z')

unfoldable pub tolower : ℕ → ℕ
tolower c = if is_upper c then c + 32 else c

unfoldable pub letter : TokenizeOptions → ℕ → ℕ
letter opts c = if opts.lowercase then tolower c else c

-- One character of the text.
unfoldable pub read_char : TokenizeOptions → Run → ℕ → Run
read_char opts r c =
    if isalnum c
    then record { out = r.out; cur = r.cur ++ letter opts c ∷ []; stems = r.stems }
    else if c == b'\'' && not (is_empty r.cur)
    then r
    else flush opts r

unfoldable pub read_text : TokenizeOptions → Run → List ℕ → Run
read_text opts r [] = flush opts r
read_text opts r (c ∷ text) = read_text opts (read_char opts r c) text

-- The tokens of `text`, and the memo after the call.
unfoldable pub tokenize : TokenizeOptions → Memo → List ℕ → List (List ℕ) × Memo
tokenize opts stems text =
    let r = read_text opts (record { out = []; cur = []; stems = stems }) text in (r.out, r.stems)
