-- ===== src/Dense/Wordpiece.antt =====
-- The WordPiece tokenizer of include/rag/dense/wordpiece.hpp, with the vocabulary of a `vocab.txt`
-- (the JSON vocabulary is read by another library). Token ids are natural numbers, as that file
-- numbers them. `isspace`, `ispunct` and `tolower` are those of the C locale.
pub mod Greedy
pub mod Lengths
use rag_cpp.Common.{
  ℕ, zero, suc, ◌+◌, ◌-◌, ◌/◌, Bool, true, false, not, ◌&&◌, ◌||◌, Option, none, some, List, [],
  ◌∷◌, ◌++◌, length, take, drop, ltb, leb, ◌==◌, if◌then◌else◌,
}
use rag_cpp.Common.SortedMap.{find, insert_or_assign}
use rag_cpp.Core.{Errc, Result, bytes, is_empty, text_order}
use rag_cpp.Text.Tokenizer.{tolower}

pub record WordPieceTokenizer : Type 0 where
  pub vocab : List (List ℕ × ℕ)
  pub cls : ℕ
  pub sep : ℕ
  pub unk : ℕ
  pub pad : ℕ

pub record Encoded : Type 0 where
  pub ids : List ℕ
  pub mask : List ℕ
  pub type_ids : List ℕ

-- `while (std::getline(f, line))`: the newline after the last line is optional.
unfoldable pub getlines_from : List ℕ → List ℕ → List (List ℕ)
getlines_from cur [] = if is_empty cur then [] else cur ∷ []
getlines_from cur (c ∷ file) =
    if c == b'\n' then cur ∷ getlines_from [] file else getlines_from (cur ++ c ∷ []) file

unfoldable pub trim_returns : List ℕ → List ℕ
trim_returns [] = []
trim_returns (c ∷ line) =
    let rest = trim_returns line in
    if is_empty rest && (c == b'\r' || c == b'\n') then [] else c ∷ rest

-- `vocab_[line] = idx++` for every line.
unfoldable pub number_lines : ℕ → List (List ℕ) → List (List ℕ × ℕ) → List (List ℕ × ℕ)
number_lines idx [] vocab = vocab
number_lines idx (line ∷ lines) vocab =
    number_lines (idx + 1) lines (insert_or_assign text_order (trim_returns line) idx vocab)

abbrev pub or_default : Option ℕ → ℕ → ℕ
or_default (some id) def = id
or_default none def = def

unfoldable pub special : List (List ℕ × ℕ) → List ℕ → ℕ → ℕ
special vocab s def = or_default (find text_order s vocab) def

-- `load` of a vocab.txt with the bytes `file`.
unfoldable pub load : List ℕ → Result WordPieceTokenizer
load file =
    let vocab = number_lines 0 (getlines_from [] file) [] in
    if is_empty vocab
    then Result.fail Errc.corrupt_index
    else Result.value (record {
      vocab = vocab;
      cls = special vocab (bytes "[CLS]") 101;
      sep = special vocab (bytes "[SEP]") 102;
      unk = special vocab (bytes "[UNK]") 100;
      pad = special vocab (bytes "[PAD]") 0;
    })

unfoldable pub isspace : ℕ → Bool
isspace c = c == b' ' || (leb 9 c && leb c 13)

unfoldable pub ispunct : ℕ → Bool
ispunct c =
    (leb 33 c && leb c 47)
    || (leb 58 c && leb c 64)
    || (leb 91 c && leb c 96)
    || (leb 123 c && leb c 126)

unfoldable pub flushed : List ℕ → List (List ℕ)
flushed cur = if is_empty cur then [] else cur ∷ []

unfoldable pub split_words : List ℕ → List ℕ → List (List ℕ)
split_words cur [] = flushed cur
split_words cur (c ∷ s) =
    if isspace c
    then flushed cur ++ split_words [] s
    else if ispunct c
    then flushed cur ++ (c ∷ []) ∷ split_words [] s
    else split_words (cur ++ tolower c ∷ []) s

unfoldable pub basic_split : List ℕ → List (List ℕ)
basic_split s = split_words [] s

unfoldable pub piece : List ℕ → ℕ → ℕ → List ℕ
piece word start len = (if ltb 0 start then b'#' ∷ b'#' ∷ [] else []) ++ take len (drop start word)

unfoldable pub found : Option ℕ → ℕ → Option (ℕ × ℕ) → Option (ℕ × ℕ)
found (some id) len shorter = some (id, len)
found none len shorter = shorter

-- The inner loop: the longest piece of at most `len` letters that the vocabulary holds, as its id
-- and its length.
unfoldable pub longest : List (List ℕ × ℕ) → List ℕ → ℕ → ℕ → Option (ℕ × ℕ)
longest vocab word start zero = none
longest vocab word start (suc len) =
    found (find text_order (piece word start (suc len)) vocab) (suc len)
      (longest vocab word start len)

-- How the outer loop ends: with the pieces, with a part no piece fits, or, on fuel, not yet.
pub data Pieces : Type 0 where
  whole : List ℕ → Pieces
  bad : Pieces
  unfinished : Pieces

unfoldable pub with_piece : ℕ → Pieces → Pieces
with_piece id (whole sub) = whole (id ∷ sub)
with_piece id bad = bad
with_piece id unfinished = unfinished

unfoldable pub on_longest : Option (ℕ × ℕ) → (ℕ → Pieces) → Pieces
on_longest none rest = bad
on_longest (some (id, len)) rest = with_piece id (rest len)

unfoldable pub pieces : ℕ → List (List ℕ × ℕ) → List ℕ → ℕ → Pieces
pieces zero vocab word start = if ltb start (length word) then unfinished else whole []
pieces (suc f) vocab word start =
    if ltb start (length word)
    then on_longest (longest vocab word start (length word - start))
        (λ len. pieces f vocab word (start + len))
    else whole []

unfoldable pub ids_of : ℕ → Pieces → List ℕ
ids_of unk (whole sub) = sub
ids_of unk bad = unk ∷ []
ids_of unk unfinished = []

-- What `wordpiece` appends for a word.
unfoldable pub wordpiece : WordPieceTokenizer → List ℕ → List ℕ
wordpiece t word = ids_of t.unk (pieces (length word) t.vocab word 0)

unfoldable pub encode_words : WordPieceTokenizer → ℕ → List ℕ → List (List ℕ) → List ℕ
encode_words t max_tokens ids [] = ids
encode_words t max_tokens ids (word ∷ words) =
    let more = ids ++ wordpiece t word in
    let rest = encode_words t max_tokens more words in
    if leb max_tokens (length more + 1) then more else rest

unfoldable pub filled : ℕ → ℕ → List ℕ
filled zero x = []
filled (suc n) x = x ∷ filled n x

-- `max_tokens` is at least 1: `max_tokens - 1` wraps around at 0.
unfoldable pub encode : WordPieceTokenizer → List ℕ → ℕ → Encoded
encode t text max_tokens =
    let ids = encode_words t max_tokens (t.cls ∷ []) (basic_split text) in
    let all =
      (if ltb max_tokens (length ids + 1) then take (max_tokens - 1) ids else ids) ++ t.sep ∷ [] in
    record { ids = all; mask = filled (length all) 1; type_ids = filled (length all) 0 }

-- The words of one side of a pair, cut at its budget.
unfoldable pub budget_words : WordPieceTokenizer → ℕ → List ℕ → List (List ℕ) → List ℕ
budget_words t budget ids [] = ids
budget_words t budget ids (word ∷ words) =
    let more = ids ++ wordpiece t word in
    let rest = budget_words t budget more words in
    if leb budget (length more) then take budget more else rest

abbrev pub at_least_one : ℕ → ℕ
at_least_one n = if ltb n 1 then 1 else n

unfoldable pub pair_budget : ℕ → ℕ
pair_budget max_tokens = if ltb 3 max_tokens then max_tokens - 3 else 1

unfoldable pub passage_budget : ℕ → List ℕ → ℕ
passage_budget budget a_ids = if ltb (length a_ids) budget then budget - length a_ids else 1

unfoldable pub encode_pair : WordPieceTokenizer → List ℕ → List ℕ → ℕ → Encoded
encode_pair t a b max_tokens =
    let budget = pair_budget max_tokens in
    let a_ids = budget_words t (at_least_one (budget / 3)) [] (basic_split a) in
    let b_ids = budget_words t (passage_budget budget a_ids) [] (basic_split b) in
    let first = t.cls ∷ a_ids ++ t.sep ∷ [] in
    let ids = first ++ b_ids ++ t.sep ∷ [] in
    record {
      ids = ids;
      mask = filled (length ids) 1;
      type_ids = filled (length first) 0 ++ filled (length ids - length first) 1;
    }
