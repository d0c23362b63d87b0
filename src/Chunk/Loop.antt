-- ===== src/Chunk/Loop.antt =====
-- The windows of internal/index/chunk.go: lines, bounds and text of the chunks.

-- whether a chunk has the line with this number, from 1
use ragota.Base.{
  All, Bool, Bool-cases, List, [], any, ap, arith, false, inl, inr, leb, length, ltb, not, refl,
  suc, true, zero, ℕ, ◌&&◌, ◌+◌, ◌-◌, ◌<◌, ◌==◌, ◌||◌, ◌∙◌, ◌∷◌, ◌≡◌, ◌≤◌, ◌⊎◌,
}
use ragota.Base.Int.{negsuc, pos}
use ragota.Base.Text.{Str, join, split}
use ragota.Chunk.{
  Chunk, ChunkConfig, ChunkInput, WindowChunker, chunk, chunk_loop, chunk_of, end_of,
  new_window_chunker, slice, with_defaults,
}

abbrev pub has_line : ℕ → Chunk → Bool
has_line n c = leb c.start_line n && leb n c.end_line

-- More fuel than lines left changes nothing.
chunk_loop-fuel :
    (fuel : ℕ) (w : WindowChunker) (f : ChunkInput) (lines : List Str) (num start : ℕ)
    → length lines - start ≤ fuel
    → chunk_loop (suc fuel) w f lines num start ≡ chunk_loop fuel w f lines num start
unfolding chunk_loop
chunk_loop-fuel zero w f lines num start h = ground arith
chunk_loop-fuel (suc fuel) w f lines num start h =
    elim (Bool-cases (leb (end_of w lines start - w.lines_shared) start)) [
      | inl e ↦ ground arith
      | inr e ↦
          ground (
            arith,
            chunk_loop-fuel fuel w f lines (num + 1) (end_of w lines start - w.lines_shared),
          )
    ]

chunk_loop-more_fuel :
    (k fuel : ℕ) (w : WindowChunker) (f : ChunkInput) (lines : List Str) (num start : ℕ)
    → length lines - start ≤ fuel
    → chunk_loop (k + fuel) w f lines num start ≡ chunk_loop fuel w f lines num start
chunk_loop-more_fuel zero fuel w f lines num start h =
    ap (λ n. chunk_loop n w f lines num start) (omega arith)
chunk_loop-more_fuel (suc k) fuel w f lines num start h =
    ap (λ n. chunk_loop n w f lines num start) (omega arith)
    ∙ chunk_loop-fuel (k + fuel) w f lines num start (omega arith)
    ∙ chunk_loop-more_fuel k fuel w f lines num start h

-- The chunks of a file are those of the loop with any more fuel than the number of lines: the loop
-- ends by itself.
pub chunk-more_fuel :
    (k : ℕ) (w : WindowChunker) (f : ChunkInput)
    → chunk_loop (k + length (split 10 f.content)) w f (split 10 f.content) 0 0 ≡ chunk w f
unfolding chunk
chunk-more_fuel k w f =
    chunk_loop-more_fuel k (length (split 10 f.content)) w f (split 10 f.content) 0 0 (omega arith)

chunk_loop-has_line :
    (fuel : ℕ) (w : WindowChunker) (f : ChunkInput) (lines : List Str) (num start n : ℕ)
    → w.lines_shared < w.lines_per_window
    → length lines - start ≤ fuel
    → start < n
    → n ≤ length lines
    → any (has_line n) (chunk_loop fuel w f lines num start) ≡ true
unfolding chunk_loop chunk_of
chunk_loop-has_line zero w f lines num start n hw hf hs hn = ground arith
chunk_loop-has_line (suc fuel) w f lines num start n hw hf hs hn =
    let begun : (not (ltb start (length lines)) || leb (end_of w lines start) start) ≡ false =
      ground arith in
    elim (Bool-cases (leb n (end_of w lines start))) [
      | inl e ↦ ground arith
      | inr e ↦
          let goes_on : (leb (length lines) (end_of w lines start)
                || leb (end_of w lines start - w.lines_shared) start)
              ≡ false =
            ground arith in
          ground (
            arith,
            chunk_loop-has_line fuel w f lines (num + 1) (end_of w lines start - w.lines_shared) n
                hw,
          )
    ]

-- If the overlap of the chunker is shorter than its window, every line of the file, by its
-- number from 1, is in a chunk.
pub chunk-has_line :
    (w : WindowChunker) (f : ChunkInput) (n : ℕ)
    → w.lines_shared < w.lines_per_window
    → 0 < n
    → n ≤ length (split 10 f.content)
    → any (has_line n) (chunk w f) ≡ true
unfolding chunk
chunk-has_line w f n hw h0 hn =
    chunk_loop-has_line (length (split 10 f.content)) w f (split 10 f.content) 0 0 n hw
      (omega arith) h0 hn

-- what a chunk of these lines is
abbrev pub IsWindow : WindowChunker → List Str → Chunk → Type 0
unfolding join
IsWindow w lines c =
    0 < c.start_line
    × c.start_line ≤ c.end_line
    × c.end_line ≤ length lines
    × c.end_line < c.start_line + w.lines_per_window
    × (c.text ≡ join 10 (slice lines (c.start_line - 1) c.end_line))

chunk_of-IsWindow :
    (w : WindowChunker) (f : ChunkInput) (lines : List Str) (num start : ℕ)
    → start < length lines
    → start < end_of w lines start
    → IsWindow w lines (chunk_of f lines num start (end_of w lines start))
unfolding join chunk_of
chunk_of-IsWindow w f lines num start h h' = (
  omega arith,
  omega arith,
  omega arith,
  omega arith,
  ap (λ s. join 10 (slice lines s (end_of w lines start))) (omega arith),
)

chunk_loop-IsWindow :
    (fuel : ℕ) (w : WindowChunker) (f : ChunkInput) (lines : List Str) (num start : ℕ)
    → All (IsWindow w lines) (chunk_loop fuel w f lines num start)
unfolding chunk_loop
chunk_loop-IsWindow zero w f lines num start = tt
chunk_loop-IsWindow (suc fuel) w f lines num start =
    let rest =
      chunk_loop-IsWindow fuel w f lines (num + 1) (end_of w lines start - w.lines_shared) in
    elim (Bool-cases (not (ltb start (length lines)) || leb (end_of w lines start) start)) [
      | inl e ↦ rw e tt
      | inr e ↦ rw e (
        chunk_of-IsWindow w f lines num start (ground arith) (ground arith),
        elim (Bool-cases (
            leb (length lines) (end_of w lines start)
            || leb (end_of w lines start - w.lines_shared) start)) [
              | inl e' ↦ rw e' tt
              | inr e' ↦ rw e' rest
            ],
      )
    ]

-- Every chunk is a run of the file's lines, within the file, that is not empty and not longer
-- than the window, and its text is those lines.
pub chunk-IsWindow :
    (w : WindowChunker) (f : ChunkInput) → All (IsWindow w (split 10 f.content)) (chunk w f)
unfolding chunk
chunk-IsWindow w f = chunk_loop-IsWindow (length (split 10 f.content)) w f (split 10 f.content) 0 0

-- The chunker made from a configuration has a positive window, and its overlap is shorter than
-- the window, or it is 10 and the window has 10 lines at most.
pub new_window_chunker_lem :
    (cfg : ChunkConfig)
    → let w = new_window_chunker cfg in
      0 < w.lines_per_window
      × ((w.lines_shared < w.lines_per_window) ⊎ ((w.lines_shared ≡ 10) × w.lines_per_window ≤ 10))
unfolding new_window_chunker with_defaults
new_window_chunker_lem cfg = elim cfg.window_lines [
  | pos a ↦ elim cfg.overlap [ pos b ↦ ground arith | negsuc b ↦ ground arith ]
  | negsuc a ↦ elim cfg.overlap [ pos b ↦ ground arith | negsuc b ↦ ground arith ]
]

split-nonempty : (sep : ℕ) (s : Str) → (l : Str) × (ls : List Str) × (split sep s ≡ l ∷ ls)
unfolding split
split-nonempty sep [] = ([], [], refl)
split-nonempty sep (c ∷ s) =
    let (l, ls, e) = split-nonempty sep s in
    elim (Bool-cases (c == sep)) [
      | inl h ↦ rw h ([], split sep s, refl)
      | inr h ↦ rw (h, e) (c ∷ l, ls, refl)
    ]

-- A window that is not longer than the overlap gives one chunk, whatever the file has after it.
pub chunk-short_window :
    (w : WindowChunker) (f : ChunkInput)
    → 0 < w.lines_per_window
    → w.lines_per_window ≤ w.lines_shared
    → length (chunk w f) ≡ 1
unfolding chunk chunk_loop chunk_of
chunk-short_window w f h h' = let (l, ls, e) = split-nonempty 10 f.content in rw e (ground arith)
