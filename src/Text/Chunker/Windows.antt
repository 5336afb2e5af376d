-- ===== src/Text/Chunker/Windows.antt =====
-- The windows of the chunker.
use rag_cpp.Common.{
  ℕ, zero, suc, ◌+◌, ◌-◌, ◌/◌, ◌%◌, ◌^◌, ◌≤◌, ◌<◌, ◌≡◌, refl, true, false, ◌&&◌, Option, none, some,
  List, [], ◌∷◌, length, drop, ltb, leb, arith, All, Bool-cases, inl, inr, length-drop, All-append,
}
use rag_cpp.Core.{Chunk, is_empty, is_empty-length}
use rag_cpp.Text.Lines.{split_lines, trim_end}
use rag_cpp.Text.Chunker.{
  ChunkOptions, Window, opened, take_line, fill, emitted, next_start, prepend, chunk_loop,
  chunk_document, cleared,
}

-- From `w`, a window `v` reads on by at most `n` lines and keeps to the limit on lines.
abbrev Extends : ChunkOptions → ℕ → Window → Window → Type 0
Extends opts n w v =
    (w.i ≤ v.i)
    × (v.i ≤ w.i + n)
    × (v.i + w.line_count ≡ w.i + v.line_count)
    × (w.line_count ≤ opts.max_lines → v.line_count ≤ opts.max_lines)

fill-Extends :
    (opts : ChunkOptions) (rest : List (List ℕ)) (w : Window)
    → Extends opts (length rest) w (fill opts rest w)
unfolding fill take_line
fill-Extends opts [] w = (omega arith, omega arith, omega arith, λ h. h)
fill-Extends opts (line ∷ rest) w =
    let t = take_line opts line w in
    elim (Bool-cases (ltb w.line_count opts.max_lines && ltb w.char_count opts.max_chars)) [
      | inr e ↦ rw e (omega arith, omega arith, omega arith, λ h. h)
      | inl e ↦
          let room : w.line_count + 1 ≤ opts.max_lines = ground arith in
          elim (Bool-cases (is_empty line && leb (opts.max_lines / 2) (w.line_count + 1))) [
            | inl d ↦ rw (e, d) (omega arith, omega arith, omega arith, λ h. room)
            | inr d ↦
                let k = fill-Extends opts rest t in
                rw (e, d)
                  (omega (arith, k.0), omega (arith, k.1), omega (arith, k.2), λ h. k.3 room)
          ]
    ]

fill-advances :
    (opts : ChunkOptions) (rest : List (List ℕ)) (i : ℕ) (crumb : List (List ℕ))
    → 0 < opts.max_lines
    → 0 < opts.max_chars
    → 0 < length rest
    → i < (fill opts rest (opened i crumb)).i
unfolding fill take_line
fill-advances opts [] i crumb h k l = absurd (omega arith)
fill-advances opts (line ∷ rest) i crumb h k l =
    let t = take_line opts line (opened i crumb) in
    let e : (ltb 0 opts.max_lines && ltb 0 opts.max_chars) ≡ true = ground arith in
    elim (Bool-cases (is_empty line && leb (opts.max_lines / 2) (0 + 1))) [
      | inl d ↦ rw (e, d) (omega arith)
      | inr d ↦ rw (e, d) (omega (arith, (fill-Extends opts rest t).0))
    ]

-- Where both limits are above 0, the window at a line `i` of the body takes that line, ends inside
-- the body and has at most `max_lines` lines.
pub window-bounds :
    (opts : ChunkOptions) (lines : List (List ℕ)) (i : ℕ) (crumb : List (List ℕ))
    → 0 < opts.max_lines
    → 0 < opts.max_chars
    → i < length lines
    → (i < (fill opts (drop i lines) (opened i crumb)).i)
      × ((fill opts (drop i lines) (opened i crumb)).i ≤ length lines)
      × ((fill opts (drop i lines) (opened i crumb)).i ≤ i + opts.max_lines)
window-bounds opts lines i crumb h k l =
    let a = fill-advances opts (drop i lines) i crumb h k (omega (arith, length-drop i lines)) in
    let b = fill-Extends opts (drop i lines) (opened i crumb) in
    (a, omega (arith, b.1, length-drop i lines), omega (arith, b.2, b.3 (omega arith)))

-- Where the overlap does not wrap, the next window starts after this one's first line, and leaves no
-- line out between the two.
next_start-bounds :
    (opts : ChunkOptions) (n start i : ℕ)
    → opts.overlap_lines + n < 2 ^ 64
    → i ≤ n
    → start < i
    → (start < next_start opts n start i) × (next_start opts n start i ≤ i)
unfolding next_start
next_start-bounds opts n start i o b h =
    let sum : (start + opts.overlap_lines) % 2 ^ 64 ≡ start + opts.overlap_lines = omega arith in
    rw sum (ground arith)

-- A list of chunks comes out, and every chunk is of the document and spans lines of the body, at
-- most `max_lines` of them.
abbrev pub Spans : ℕ → ChunkOptions → ℕ → Chunk → Type 0
Spans doc opts n c =
    (c.doc ≡ doc)
    × (1 ≤ length c.text)
    × (c.start_line ≤ c.end_line)
    × (c.end_line < n)
    × (c.end_line < c.start_line + opts.max_lines)

abbrev pub Chunked : ℕ → ChunkOptions → ℕ → Option (List Chunk) → Type 0
Chunked doc opts n none = ⊥
Chunked doc opts n (some chunks) = All (Spans doc opts n) chunks

prepend-Chunked :
    (doc : ℕ) (opts : ChunkOptions) (n : ℕ) (cs : List Chunk) (rest : Option (List Chunk))
    → All (Spans doc opts n) cs
    → Chunked doc opts n rest
    → Chunked doc opts n (prepend cs rest)
unfolding prepend
prepend-Chunked doc opts n cs none h k = k
prepend-Chunked doc opts n cs (some ds) h k = All-append (Spans doc opts n) cs ds h k

emitted-Spans :
    (doc : ℕ) (opts : ChunkOptions) (n start : ℕ) (w : Window)
    → n < 2 ^ 32
    → start < w.i
    → w.i ≤ n
    → w.i ≤ start + opts.max_lines
    → All (Spans doc opts n) (emitted doc start w)
unfolding emitted
emitted-Spans doc opts n start w h a b c = elim (Bool-cases (is_empty (trim_end w.chunk_text))) [
  | inl e ↦ rw e tt
  | inr e ↦
      let first : start % 2 ^ 32 ≡ start = omega arith in
      let final : (w.i - 1) % 2 ^ 32 ≡ w.i - 1 = omega arith in
      rw (e, first, final)
        (
          (refl, is_empty-length (trim_end w.chunk_text) e, omega arith, omega arith, omega arith),
          tt,
        )
]

chunk_loop-Chunked :
    (f doc : ℕ) (opts : ChunkOptions) (lines : List (List ℕ)) (i : ℕ) (crumb : List (List ℕ))
    → 0 < opts.max_lines
    → 0 < opts.max_chars
    → length lines < 2 ^ 32
    → opts.overlap_lines + length lines < 2 ^ 64
    → length lines ≤ i + f
    → Chunked doc opts (length lines) (chunk_loop f doc opts lines i crumb)
unfolding chunk_loop
chunk_loop-Chunked zero doc opts lines i crumb h k l o m =
    let e : ltb i (length lines) ≡ false = ground arith in rw e tt
chunk_loop-Chunked (suc f) doc opts lines i crumb h k l o m =
    elim (Bool-cases (ltb i (length lines))) [
      | inr e ↦ rw e tt
      | inl e ↦
          let w = fill opts (drop i lines) (opened i crumb) in
          let b = window-bounds opts lines i crumb h k (ground arith) in
          let s = next_start-bounds opts (length lines) i w.i o b.1 b.0 in
          let rest =
            chunk_loop-Chunked f doc opts lines (next_start opts (length lines) i w.i) w.crumb h k l
              o (omega (arith, s.0)) in
          rw e (
            prepend-Chunked doc opts (length lines) _ _
              (emitted-Spans doc opts (length lines) i w l b.0 b.1 b.2) rest)
    ]

-- Where both limits are above 0, the body has fewer than 2^32 lines, and these and the lines of the
-- overlap together are fewer than 2^64, `chunk_document` ends, with
-- chunks that are not empty, belong to the document and span lines of the body, at most `max_lines`
-- each.
pub chunk_document-Chunked :
    (doc : ℕ) (body : List ℕ) (opts : ChunkOptions)
    → 0 < opts.max_lines
    → 0 < opts.max_chars
    → length (split_lines body) < 2 ^ 32
    → opts.overlap_lines + length (split_lines body) < 2 ^ 64
    → Chunked doc opts (length (split_lines body)) (chunk_document doc body opts)
unfolding chunk_document
chunk_document-Chunked doc body opts h k l o =
    chunk_loop-Chunked (length (split_lines body)) doc opts (split_lines body) 0 (cleared 7) h k l o
      (omega arith)
