-- ===== src/Chunk/Tests.antt =====
-- The chunker on a small file, and the theorems on it.

use ragota.Base.{All, [], any, arith, length, map, refl, true, ℕ, ◌+◌, ◌∷◌, ◌≡◌}
use ragota.Base.Int.{pos}
use ragota.Base.Text.{codes, split}
use ragota.Chunk.{ChunkConfig, ChunkInput, WindowChunker, chunk, chunk_loop, chunk_of}
use ragota.Chunk.Loop.{IsWindow, chunk-IsWindow, chunk-has_line, chunk-more_fuel, has_line}

abbrev small_file : ChunkInput
small_file = record { path = codes "a.go"; language = codes "go"; content = codes "a\nb\nc\nd\ne" }

abbrev window_3 : WindowChunker
window_3 = record { lines_per_window = 3; lines_shared = 1 }

three_line_windows :
    map {B = ℕ × ℕ} (λ c. (c.start_line, c.end_line)) (chunk window_3 small_file)
    ≡ (1, 3) ∷ (3, 5) ∷ []
unfolding chunk chunk_loop chunk_of split
three_line_windows = refl

chunk-has_line_example : any (has_line 4) (chunk window_3 small_file) ≡ true
unfolding split
chunk-has_line_example =
    chunk-has_line window_3 small_file 4 (omega arith) (omega arith) (omega arith)

chunk-IsWindow_example :
    All (IsWindow window_3 (split 10 small_file.content)) (chunk window_3 small_file)
chunk-IsWindow_example = chunk-IsWindow window_3 small_file

abbrev narrow : ChunkConfig
narrow = record { method = []; window_lines = pos 5; overlap = pos 2 }

abbrev window_2 : WindowChunker
window_2 = record { lines_per_window = 2; lines_shared = 10 }

chunk-more_fuel_example :
    chunk_loop
      (3 + length (split 10 small_file.content))
      window_3
      small_file
      (split 10 small_file.content)
      0
      0
    ≡ chunk window_3 small_file
chunk-more_fuel_example = chunk-more_fuel 3 window_3 small_file
