-- ===== src/Contract/Reduce/Idempotent.antt =====
-- The reduction of internal/contract/contract.go on what is reduced already.

-- A segment that begins with a closing brace: the scan drops the brace if an opening one follows.
use ragota.Base.{
  All, Bool, Bool-cases, List, [], arith, false, inl, inr, map, refl, true, ℕ, ◌+◌, ◌-◌, ◌==◌, ◌∷◌,
  ◌≡◌, ◌≢◌,
}
use ragota.Base.Text.{Str, has_byte, join, split, str_eq_iff}
use ragota.Base.Text.Laws.{split-All, split-join, split-ne-nil}
use ragota.Contract.Reduce.{is_path_param, is_wild, opens_param, reduce_path, reduce_segment, scan}
use ragota.Contract.Reduce.Bytes.{any-map-reduce_segment}

abbrev pub starts_stray : Str → Bool
starts_stray [] = false
starts_stray (c ∷ _) = c == b'}'

scan_idem : (depth : ℕ) (s : Str) → scan 0 (scan depth s) ≡ scan depth s
unfolding scan
scan_idem depth [] = refl
scan_idem depth (r ∷ s) =
    ground (arith, scan_idem (depth + 1) s, scan_idem (depth - 1) s, scan_idem depth s)

has_byte-scan : (s : Str) → has_byte b'{' s ≡ true → has_byte b'{' (scan 0 s) ≡ true
unfolding scan
has_byte-scan [] h = cc
has_byte-scan (r ∷ s) h = ground (arith, has_byte-scan s)

scan_head : (c : ℕ) (s : Str) → (c == b'}') ≡ false → (t : Str) × (scan 0 (c ∷ s) ≡ c ∷ t)
unfolding scan
scan_head c s h = elim (Bool-cases (c == b'{')) [
  | inl e ↦ (b'}' ∷ scan 1 s, ground arith)
  | inr e ↦ (scan 0 s, ground arith)
]

not_wild : (s : Str) → has_byte b'{' s ≡ true → is_wild s ≡ false
not_wild s h = ground (arith, str_eq_iff s (b'*' ∷ []), str_eq_iff s (b'*' ∷ b'*' ∷ []))

-- a segment that is scanned begins with the same byte after the scan, and is scanned again
scanned_fixed :
    (c : ℕ) (s : Str)
    → (c == b'}') ≡ false
    → opens_param c ≡ false
    → has_byte b'{' (c ∷ s) ≡ true
    → reduce_segment (scan 0 (c ∷ s)) ≡ scan 0 (c ∷ s)
unfolding reduce_segment
scanned_fixed c s stray plain brace =
    let (t, e) = scan_head c s stray in
    let still : has_byte b'{' (c ∷ t) ≡ true = rw e at (has_byte-scan (c ∷ s) brace) in
    let fixed : scan 0 (c ∷ t) ≡ c ∷ t = rw e at (scan_idem 0 (c ∷ s)) in
    rw e (ground (arith, not_wild (c ∷ t) still))

pub reduce_segment_idem :
    (seg : Str)
    → starts_stray seg ≡ false
    → reduce_segment (reduce_segment seg) ≡ reduce_segment seg
unfolding reduce_segment
reduce_segment_idem [] h = refl
reduce_segment_idem (c ∷ s) h = ground (arith, scanned_fixed c s h)

scanned_param :
    (c : ℕ) (s : Str)
    → (c == b'}') ≡ false
    → has_byte b'{' (c ∷ s) ≡ true
    → is_path_param (scan 0 (c ∷ s)) ≡ is_path_param (c ∷ s)
unfolding is_path_param
scanned_param c s stray brace =
    let (t, e) = scan_head c s stray in
    let still : has_byte b'{' (c ∷ t) ≡ true = rw e at (has_byte-scan (c ∷ s) brace) in
    rw e (ground (arith, not_wild (c ∷ t) still, not_wild (c ∷ s) brace))

-- A segment is a parameter exactly when its reduction is one.
pub is_path_param-reduce_segment :
    (seg : Str) → starts_stray seg ≡ false → is_path_param (reduce_segment seg) ≡ is_path_param seg
unfolding reduce_segment is_path_param
is_path_param-reduce_segment [] h = refl
is_path_param-reduce_segment (c ∷ s) h = ground (arith, scanned_param c s h)

map-reduce_segment_idem :
    (segs : List Str)
    → All (λ seg. starts_stray seg ≡ false) segs
    → map reduce_segment (map reduce_segment segs) ≡ map reduce_segment segs
map-reduce_segment_idem [] h = refl
map-reduce_segment_idem (w ∷ ws) h = cc (reduce_segment_idem w h.0, map-reduce_segment_idem ws h.1)

split-join-map :
    (segs : List Str)
    → segs ≢ []
    → All (λ w. has_byte b'/' w ≡ false) segs
    → split b'/' (join b'/' (map reduce_segment segs)) ≡ map reduce_segment segs
split-join-map [] n h = absurd (n refl)
split-join-map (w ∷ ws) n h =
    split-join b'/' (reduce_segment w) (map reduce_segment ws)
      (any-map-reduce_segment (λ d. d == b'/') refl refl (w ∷ ws) h)

-- Reduction is idempotent on a path none of whose segments begins with a closing brace.
pub reduce_path_idem :
    (path : Str)
    → All (λ seg. starts_stray seg ≡ false) (split b'/' path)
    → reduce_path (reduce_path path) ≡ reduce_path path
unfolding reduce_path
reduce_path_idem path h = ground (
  arith,
  split-join-map (split b'/' path) (split-ne-nil b'/' path) (split-All b'/' path),
  map-reduce_segment_idem (split b'/' path) h,
)
