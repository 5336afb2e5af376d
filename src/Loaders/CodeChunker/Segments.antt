-- ===== src/Loaders/CodeChunker/Segments.antt =====
-- The segments of the code chunker.
use rag_cpp.Common.{
  ℕ, zero, suc, ◌+◌, ◌-◌, ◌%◌, ◌^◌, ◌≤◌, ◌<◌, ◌≡◌, min, refl, false, Option, none, some, List,
  length, take, drop, ltb, leb, arith, All, Bool-cases, inl, inr, All-append,
}
use rag_cpp.Core.{Chunk, is_empty, is_empty-length}
use rag_cpp.Text.Lines.{split_lines, trim_end}
use rag_cpp.Text.Chunker.{prepend}
use rag_cpp.Loaders.CodeChunker.{
  Language, CodeChunkOptions, Segmenter, segment, segment_text, claim_leading_comments, cut_at,
  is_cut, read_code_line, read_code, fixed_windows, has_no_code, no_segment, code_chunks,
  chunk_code, detect_language, language_name,
}

-- The cut goes up only.
claim_leading_comments-le : (lines : List (List ℕ)) (at : ℕ) → claim_leading_comments lines at ≤ at
unfolding claim_leading_comments
claim_leading_comments-le lines zero = omega arith
claim_leading_comments-le lines (suc start) = ground (arith, claim_leading_comments-le lines start)

cut_at-le : (lang : Language) (lines : List (List ℕ)) (i : ℕ) → cut_at lang lines i ≤ i
unfolding cut_at
cut_at-le lang lines i = ground (arith, claim_leading_comments-le lines i)

-- A chunk of the document that holds text and spans lines of the body, in order.
abbrev pub IsSegment : ℕ → ℕ → Chunk → Type 0
IsSegment doc n c =
    (c.doc ≡ doc) × (1 ≤ length c.text) × (c.start_line ≤ c.end_line) × (c.end_line < n)

abbrev pub AreSegments : ℕ → ℕ → Option (List Chunk) → Type 0
AreSegments doc n none = ⊥
AreSegments doc n (some chunks) = All (IsSegment doc n) chunks

segment-AreSegments :
    (doc : ℕ) (lines : List (List ℕ)) (start stop : ℕ) (ctx : List ℕ)
    → length lines < 2 ^ 32
    → stop ≤ length lines
    → All (IsSegment doc (length lines)) (segment doc lines start stop ctx)
unfolding segment
segment-AreSegments doc lines start stop ctx h k = elim (Bool-cases (leb stop start)) [
  | inl e ↦ rw e tt
  | inr e ↦
      let text = trim_end (segment_text (take (stop - start) (drop start lines))) in
      let more : start < stop = ground arith in
      let first : start % 2 ^ 32 ≡ start = omega arith in
      let final : (stop - 1) % 2 ^ 32 ≡ stop - 1 = omega arith in
      elim (Bool-cases (is_empty text)) [
        | inl d ↦ rw (e, d) tt
        | inr d ↦
            rw (e, d, first, final) ((refl, is_empty-length text d, omega arith, omega arith), tt)
      ]
]

read_code_line-AreSegments :
    (doc : ℕ) (lang : Language) (opts : CodeChunkOptions) (lines : List (List ℕ)) (i : ℕ)
    (st : Segmenter)
    → length lines < 2 ^ 32
    → i ≤ length lines
    → All (IsSegment doc (length lines)) st.chunks
    → All (IsSegment doc (length lines)) (read_code_line doc lang opts lines i st).chunks
unfolding read_code_line
read_code_line-AreSegments doc lang opts lines i st h k s =
    elim (Bool-cases (is_cut lang opts lines i st)) [
      | inr e ↦ rw e s
      | inl e ↦ rw e (
          All-append (IsSegment doc (length lines)) st.chunks _ s (
            segment-AreSegments doc lines st.seg_start (cut_at lang lines i) st.last_def h
              (omega (arith, cut_at-le lang lines i))))
    ]

read_code-AreSegments :
    (n doc : ℕ) (lang : Language) (opts : CodeChunkOptions) (lines : List (List ℕ)) (i : ℕ)
    (st : Segmenter)
    → length lines < 2 ^ 32
    → i + n ≤ length lines
    → All (IsSegment doc (length lines)) st.chunks
    → All (IsSegment doc (length lines)) (read_code n doc lang opts lines i st).chunks
unfolding read_code
read_code-AreSegments zero doc lang opts lines i st h k s = s
read_code-AreSegments (suc n) doc lang opts lines i st h k s =
    read_code-AreSegments n doc lang opts lines (i + 1) (read_code_line doc lang opts lines i st) h
      (omega arith) (read_code_line-AreSegments doc lang opts lines i st h (omega arith) s)

prepend-AreSegments :
    (doc n : ℕ) (cs : List Chunk) (rest : Option (List Chunk))
    → All (IsSegment doc n) cs
    → AreSegments doc n rest
    → AreSegments doc n (prepend cs rest)
unfolding prepend
prepend-AreSegments doc n cs none h k = k
prepend-AreSegments doc n cs (some ds) h k = All-append (IsSegment doc n) cs ds h k

fixed_windows-AreSegments :
    (f doc max_lines : ℕ) (lines : List (List ℕ)) (i : ℕ) (ctx : List ℕ)
    → 0 < max_lines
    → length lines < 2 ^ 32
    → length lines ≤ i + f
    → AreSegments doc (length lines) (fixed_windows f doc max_lines lines i ctx)
unfolding fixed_windows
fixed_windows-AreSegments zero doc max_lines lines i ctx h k l =
    let e : ltb i (length lines) ≡ false = ground arith in rw e tt
fixed_windows-AreSegments (suc f) doc max_lines lines i ctx h k l =
    elim (Bool-cases (ltb i (length lines))) [
      | inr e ↦ rw e tt
      | inl e ↦
          let rest =
            fixed_windows-AreSegments f doc max_lines lines (i + max_lines) ctx h k (omega arith) in
          rw e (
            prepend-AreSegments doc (length lines) _ _
              (segment-AreSegments doc lines i (min (i + max_lines) (length lines)) ctx k
                (omega arith))
              rest)
    ]

code_chunks-AreSegments :
    (doc : ℕ) (lang : Language) (opts : CodeChunkOptions) (lines : List (List ℕ))
    → length lines < 2 ^ 32
    → All (IsSegment doc (length lines)) (code_chunks doc lang opts lines)
unfolding code_chunks
code_chunks-AreSegments doc lang opts lines h =
    All-append (IsSegment doc (length lines)) _ _
      (read_code-AreSegments (length lines) doc lang opts lines 0 no_segment h (omega arith) tt)
      (segment-AreSegments doc lines _ (length lines) _ h (omega arith))

-- With `max_lines` above 0 and fewer than 2^32 lines `chunk_code` ends, whatever the language, and
-- its chunks belong to the document, are not empty and span lines of the body.
pub chunk_code-AreSegments :
    (doc : ℕ) (ext body : List ℕ) (opts : CodeChunkOptions)
    → 0 < opts.max_lines
    → length (split_lines body) < 2 ^ 32
    → AreSegments doc (length (split_lines body)) (chunk_code doc ext body opts)
unfolding chunk_code
chunk_code-AreSegments doc ext body opts h k =
    elim (Bool-cases (has_no_code (detect_language ext))) [
      | inl e ↦ rw e (
          fixed_windows-AreSegments (length (split_lines body)) doc opts.max_lines
            (split_lines body) 0 (language_name (detect_language ext)) h k (omega arith))
      | inr e ↦ rw e (code_chunks-AreSegments doc (detect_language ext) opts (split_lines body) k)
    ]
