-- ===== src/Contract/Reduce/Bytes.antt =====
-- Which bytes a reduced path can hold.

use ragota.Base.{All, Bool, List, [], any, arith, false, map, refl, ℕ, ◌+◌, ◌-◌, ◌∷◌, ◌≡◌}
use ragota.Base.Text.{Str, split}
use ragota.Base.Text.Bytes.{any-join, any-split}
use ragota.Contract.Reduce.{reduce_path, reduce_segment, scan}

module _ (q : ℕ → Bool) (opening : q b'{' ≡ false) (closing : q b'}' ≡ false) where
  any-scan : (depth : ℕ) (s : Str) → any q s ≡ false → any q (scan depth s) ≡ false
  unfolding scan
  any-scan depth [] h = refl
  any-scan depth (r ∷ s) h =
      ground (arith, any-scan (depth + 1) s, any-scan (depth - 1) s, any-scan depth s)

  pub any-reduce_segment : (seg : Str) → any q seg ≡ false → any q (reduce_segment seg) ≡ false
  unfolding reduce_segment
  any-reduce_segment [] h = refl
  any-reduce_segment (c ∷ s) h = ground (arith, any-scan 0 (c ∷ s) h)

  pub any-map-reduce_segment :
      (segs : List Str)
      → All (λ w. any q w ≡ false) segs
      → All (λ w. any q w ≡ false) (map reduce_segment segs)
  any-map-reduce_segment [] h = tt
  any-map-reduce_segment (w ∷ ws) h = (any-reduce_segment w h.0, any-map-reduce_segment ws h.1)

  pub any-reduce_path :
      (path : Str) → q b'/' ≡ false → any q path ≡ false → any q (reduce_path path) ≡ false
  unfolding reduce_path
  any-reduce_path path slash h = ground (
    arith,
    any-join q b'/' (map reduce_segment (split b'/' path)) slash
        (any-map-reduce_segment (split b'/' path) (any-split q b'/' path h)),
  )
