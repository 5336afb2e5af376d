-- ===== src/Tests/Text.antt =====
-- The text pipeline at concrete inputs.
use rag_cpp.Common.{ℕ, ◌+◌, ◌^◌, ◌≤◌, ◌<◌, ◌≡◌, refl, List, [], ◌∷◌, length, arith, map, some}
use rag_cpp.Core.{bytes, text_lt, Chunk, Result, Errc}
use rag_cpp.Common.SortedMap.{find}
use rag_cpp.Text.Porter.{
  measure, porter_stem, step5b, measure_loop, step5a, ends_with, strip_first, replace_first,
  replace, step1c, step1b, step1a, stem_measure, is_vowel, double_consonant, stem_has_vowel,
  has_vowel, has_vowel_from, cvc, step1b_extra,
}
use rag_cpp.Text.Porter.Bounds.{Shrinks, porter_stem-Shrinks}
use rag_cpp.Text.Tokenizer.{default_options, tokenize, tolower, is_upper}
use rag_cpp.Text.Tokenizer.Memo.{IsSound}
use rag_cpp.Text.Tokenizer.Tokens.{words_from, tokens, tokenize-tokens}
use rag_cpp.Text.Contextual.{Contextualizer, with_context, contextualize}
use rag_cpp.Text.Contextual.Prepared.{chunk_blurb, contextualize-map}
use rag_cpp.Text.Lines.{split_lines, split_from}
use rag_cpp.Text.Chunker.{default_chunks, chunk_document}
use rag_cpp.Text.Chunker.Windows.{Chunked, chunk_document-Chunked}
use rag_cpp.Dense.Wordpiece.{
  WordPieceTokenizer, pieces, encode_pair, pair_budget, passage_budget, budget_words, wordpiece,
  ids_of, longest, found, basic_split, split_words, flushed, isspace, ispunct, piece, on_longest,
  with_piece,
}
use rag_cpp.Dense.Wordpiece.Greedy.{Explains, pieces_greedy}
use rag_cpp.Dense.Wordpiece.Lengths.{length-encode_pair}

-- "hopping" to "hop"
stem_test : porter_stem (bytes "hopping") ≡ bytes "hop"
unfolding porter_stem step5b measure measure_loop step5a ends_with strip_first replace_first replace
    step1c step1b step1a stem_measure is_vowel double_consonant stem_has_vowel has_vowel
    has_vowel_from cvc step1b_extra
stem_test = refl

porter_stem-Shrinks_example : Shrinks (bytes "relational") (porter_stem (bytes "relational"))
porter_stem-Shrinks_example = porter_stem-Shrinks (bytes "relational") (omega arith)

empty-IsSound : IsSound []
empty-IsSound = (tt, omega arith)

tokenize-tokens_example :
    ((tokenize default_options [] (bytes "The Log's tail")).0
      ≡ tokens default_options (words_from default_options [] (bytes "The Log's tail")))
    × IsSound (tokenize default_options [] (bytes "The Log's tail")).1
tokenize-tokens_example = tokenize-tokens default_options [] (bytes "The Log's tail") empty-IsSound

abbrev page : List ℕ
page = b'#' ∷ b' ' ∷ b'A' ∷ b'\n' ∷ b'x' ∷ b'\n' ∷ b'y' ∷ []

page-lines : length (split_lines page) < 2 ^ 32
unfolding split_lines split_from
page-lines = omega arith

page-overlap : default_chunks.overlap_lines + length (split_lines page) < 2 ^ 64
unfolding split_lines split_from
page-overlap = omega arith

chunk_document-Chunked_example :
    Chunked 7 default_chunks (length (split_lines page)) (chunk_document 7 page default_chunks)
chunk_document-Chunked_example =
    chunk_document-Chunked 7 page default_chunks (omega arith) (omega arith) page-lines page-overlap

abbrev tiny : WordPieceTokenizer
tiny = record {
  vocab = (bytes "##b", 5) ∷ (bytes "a", 4) ∷ [];
  cls = 101;
  sep = 102;
  unk = 100;
  pad = 0;
}

pieces_greedy_example :
    Explains tiny.vocab (bytes "ab") 0 (pieces (length (bytes "ab")) tiny.vocab (bytes "ab") 0)
pieces_greedy_example = pieces_greedy tiny.vocab (bytes "ab")

length-encode_pair_example :
    (length (encode_pair tiny (bytes "a") (bytes "ab a") 5).ids ≤ 5)
    × (length (encode_pair tiny (bytes "a") (bytes "ab a") 5).mask
        ≡ length (encode_pair tiny (bytes "a") (bytes "ab a") 5).ids)
    × (length (encode_pair tiny (bytes "a") (bytes "ab a") 5).type_ids
        ≡ length (encode_pair tiny (bytes "a") (bytes "ab a") 5).ids)
length-encode_pair_example = length-encode_pair tiny (bytes "a") (bytes "ab a") 5 (omega arith)

-- With a limit of 4 a pair takes five ids: each side keeps a token beside the three markers.
pair_of_four : length (encode_pair tiny (bytes "a") (bytes "a") 4).ids ≡ 5
unfolding encode_pair pair_budget passage_budget budget_words wordpiece ids_of pieces longest found
    basic_split split_words flushed isspace ispunct piece on_longest with_piece find text_lt tolower
    is_upper
pair_of_four = refl

abbrev passage : Chunk
passage = record {
  id = 0;
  doc = 7;
  text = bytes "the cache";
  context = [];
  start_line = 0;
  end_line = 0;
}

abbrev manual : List ℕ
manual = bytes "Guide. The cache holds pages. The log holds records."

-- A model that is out of reach.
abbrev offline : Contextualizer
offline = some (λ document chunk. Result.fail Errc.unavailable)

contextualize-map_example :
    contextualize (passage ∷ []) manual offline
    ≡ map (λ c. with_context (chunk_blurb offline manual c.text) c) (passage ∷ [])
contextualize-map_example = contextualize-map (passage ∷ []) manual offline
