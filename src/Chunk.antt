-- ===== src/Chunk.antt =====
-- internal/index/chunk.go: the sliding-window chunker. A chunk has no symbol here, since the
-- window chunker sets none.
pub mod Loop
mod Tests
use ragota.Base.{
  Bool, List, [], drop, false, if◌then◌else◌, leb, length, ltb, min, not, suc, take, true, zero, ℕ,
  ◌++◌, ◌+◌, ◌-◌, ◌==◌, ◌||◌, ◌∷◌,
}
use ragota.Base.Int.{negsuc, pos, ℤ}
use ragota.Base.Text.{Str, codes, decimal, decimal_on, join, split, str_eq}

pub record ChunkConfig : Type 0 where
  pub method : Str
  pub window_lines : ℤ
  pub overlap : ℤ

pub record ChunkInput : Type 0 where
  pub path : Str
  pub language : Str
  pub content : Str

pub record Chunk : Type 0 where
  pub chunk_id : Str
  pub file_path : Str
  pub chunk_language : Str
  pub start_line : ℕ
  pub end_line : ℕ
  pub text : Str

pub record WindowChunker : Type 0 where
  pub lines_per_window : ℕ
  pub lines_shared : ℕ

-- `n <= 0` and `a >= b`
abbrev pub not_positive : ℤ → Bool
not_positive (pos n) = n == 0
not_positive (negsuc n) = true

abbrev pub is_negative : ℤ → Bool
is_negative (pos n) = false
is_negative (negsuc n) = true

abbrev pub at_least : ℤ → ℤ → Bool
at_least (pos a) (pos b) = leb b a
at_least (pos a) (negsuc b) = true
at_least (negsuc a) (pos b) = false
at_least (negsuc a) (negsuc b) = leb a b

abbrev pub to_nat : ℤ → ℕ
to_nat (pos n) = n
to_nat (negsuc n) = 0

-- `withDefaults`
unfoldable pub with_defaults : ChunkConfig → ChunkConfig
unfolding str_eq
with_defaults c =
    let lines = if not_positive c.window_lines then pos 60 else c.window_lines in
    record {
      method = if str_eq c.method [] then codes "window" else c.method;
      window_lines = lines;
      overlap = if is_negative c.overlap || at_least c.overlap lines then pos 10 else c.overlap;
    }

-- `NewWindowChunker`: after `withDefaults` neither number is negative
unfoldable pub new_window_chunker : ChunkConfig → WindowChunker
unfolding with_defaults
new_window_chunker cfg =
    let c = with_defaults cfg in
    record { lines_per_window = to_nat c.window_lines; lines_shared = to_nat c.overlap }

-- `ForFile`: the language is not used
unfoldable pub for_file : ChunkConfig → Str → WindowChunker
unfolding new_window_chunker
for_file cfg lang = new_window_chunker (with_defaults cfg)

-- `lines[start:end]`
abbrev pub slice : List Str → ℕ → ℕ → List Str
slice lines start end = take (end - start) (drop start lines)

unfoldable pub chunk_of : ChunkInput → List Str → ℕ → ℕ → ℕ → Chunk
unfolding decimal_on join
chunk_of f lines num start end = record {
  chunk_id = f.path ++ b':' ∷ decimal num;
  file_path = f.path;
  chunk_language = f.language;
  start_line = start + 1;
  end_line = end;
  text = join 10 (slice lines start end);
}

abbrev pub end_of : WindowChunker → List Str → ℕ → ℕ
end_of w lines start = min (start + w.lines_per_window) (length lines)

-- The loop of `WindowChunker.Chunk`. A next start that would be negative is not after the start,
-- and is 0 here, which is not after it either.
unfoldable pub chunk_loop : ℕ → WindowChunker → ChunkInput → List Str → ℕ → ℕ → List Chunk
unfolding chunk_of
chunk_loop zero w f lines num start = []
chunk_loop (suc fuel) w f lines num start =
    let end = end_of w lines start in
    let next = end - w.lines_shared in
    let rest = chunk_loop fuel w f lines (num + 1) next in
    if not (ltb start (length lines)) || leb end start
    then []
    else chunk_of f lines num start end
      ∷ (if leb (length lines) end || leb next start then [] else rest)

-- `WindowChunker.Chunk`. A start grows by one at least, so a round for each line is enough fuel.
unfoldable pub chunk : WindowChunker → ChunkInput → List Chunk
unfolding chunk_loop split
chunk w f = let lines = split 10 f.content in chunk_loop (length lines) w f lines 0 0
