-- ===== src/Tests/Loaders.antt =====
-- The loaders and the registry at concrete inputs.
use rag_cpp.Common.{ℕ, ◌^◌, ◌<◌, ◌≡◌, ◌≢◌, true, some, List, [], ◌∷◌, length, arith, if◌then◌else◌}
use rag_cpp.Core.{Result, value, bytes, text_eq}
use rag_cpp.Text.Lines.{split_lines, split_from}
use rag_cpp.Loaders.Csv.{CsvOptions, next_record}
use rag_cpp.Loaders.Csv.Records.{write_record, next_record-write_record}
use rag_cpp.Loaders.CodeChunker.{CodeChunkOptions, chunk_code}
use rag_cpp.Loaders.CodeChunker.Segments.{AreSegments, chunk_code-AreSegments}
use rag_cpp.Plugin.Registry.{Factories, register_described, create}
use rag_cpp.Plugin.Registry.Laws.{create-register_described}

not_quote : ◌≢◌ {A = ℕ} b',' b'"'
not_quote e = omega arith

not_newline : ◌≢◌ {A = ℕ} b',' b'\n'
not_newline e = omega arith

next_record-write_record_example :
    next_record b',' (write_record b',' (b'a' ∷ b'"' ∷ b',' ∷ []) ((b'\n' ∷ []) ∷ []) (bytes "x"))
    ≡ some ((b'a' ∷ b'"' ∷ b',' ∷ []) ∷ (b'\n' ∷ []) ∷ [], bytes "x")
next_record-write_record_example =
    next_record-write_record b',' (b'a' ∷ b'"' ∷ b',' ∷ []) ((b'\n' ∷ []) ∷ []) (bytes "x")
      not_quote not_newline

abbrev comma_separated : CsvOptions
comma_separated = record {
  delimiter = b',';
  has_header = true;
  text_columns = [];
  title_column = [];
  id_column = [];
  meta_all_columns = true;
}

abbrev table : List ℕ
table = b'k' ∷ b',' ∷ b'v' ∷ b'\n' ∷ b'1' ∷ b',' ∷ b'2' ∷ b'\n' ∷ []

abbrev default_code : CodeChunkOptions
default_code = record { max_lines = 80; max_chars = 3000; min_lines = 3 }

abbrev program : List ℕ
program = b'd' ∷ b'e' ∷ b'f' ∷ b' ' ∷ b'f' ∷ b'\n' ∷ b'x' ∷ []

program-lines : length (split_lines program) < 2 ^ 32
unfolding split_lines split_from
program-lines = omega arith

chunk_code-AreSegments_example :
    AreSegments 3 (length (split_lines program)) (chunk_code 3 (bytes ".py") program default_code)
chunk_code-AreSegments_example =
    chunk_code-AreSegments 3 (bytes ".py") program default_code (omega arith) program-lines

abbrev no_factories : Factories ℕ ℕ ℕ
no_factories = []

abbrev answer : ℕ → ℕ → Result ℕ
answer config all = value config

create-register_described_example :
    create (bytes "ollama") 5 0 (register_described (bytes "ollama") answer [] no_factories).1 ≡ (
      if text_eq (bytes "ollama") (bytes "ollama")
      then answer 5 0
      else create (bytes "ollama") 5 0 no_factories)
create-register_described_example =
    create-register_described (bytes "ollama") (bytes "ollama") answer [] 5 0 no_factories
