-- ===== src/Text/Lines.antt =====
-- The splitting of a body into lines that src/text/chunker.cpp and src/loaders/code_chunker.cpp
-- share, and the trimming of a chunk's end.
use rag_cpp.Common.{ℕ, Bool, ◌||◌, ◌&&◌, List, [], ◌∷◌, ◌++◌, ◌==◌, if◌then◌else◌}
use rag_cpp.Core.{is_empty}

unfoldable pub split_from : List ℕ → List ℕ → List (List ℕ)
split_from cur [] = cur ∷ []
split_from cur (c ∷ body) =
    if c == b'\n' then cur ∷ split_from [] body else split_from (cur ++ c ∷ []) body

unfoldable pub split_lines : List ℕ → List (List ℕ)
split_lines body = split_from [] body

abbrev pub blank : ℕ → Bool
blank c = c == b'\n' || c == b' '

-- `while (!text.empty() && (text.back() == '\n' || text.back() == ' ')) text.pop_back();`
unfoldable pub trim_end : List ℕ → List ℕ
trim_end [] = []
trim_end (c ∷ text) = let rest = trim_end text in if is_empty rest && blank c then [] else c ∷ rest

-- The lines put together again, a newline between two.
unfoldable pub join_lines : List (List ℕ) → List ℕ
join_lines [] = []
join_lines (l ∷ []) = l
join_lines (l ∷ m ∷ ls) = l ++ b'\n' ∷ join_lines (m ∷ ls)
