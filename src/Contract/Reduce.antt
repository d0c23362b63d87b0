-- ===== src/Contract/Reduce.antt =====
-- internal/contract/contract.go: path parameters and the reduction of a path.
pub mod Idempotent
pub mod Bytes
use ragota.Base.{
  Bool, [], any, false, if◌then◌else◌, map, not, true, ℕ, ◌++◌, ◌+◌, ◌-◌, ◌==◌, ◌||◌, ◌∷◌,
}
use ragota.Base.Text.{Str, before, has_byte, join, split, str_eq}

abbrev pub hole : Str
hole = b'{' ∷ b'}' ∷ []

-- One round of the scan in `reduceSegment`: the brace depth after the byte, and what it writes.
abbrev next_depth : ℕ → ℕ → ℕ
next_depth depth r = if r == b'{' then depth + 1 else if r == b'}' then depth - 1 else depth

abbrev written : ℕ → ℕ → Str
written depth r =
    if r == b'{'
    then (if depth == 0 then hole else [])
    else if r == b'}'
    then []
    else if depth == 0
    then r ∷ []
    else []

unfoldable pub scan : ℕ → Str → Str
scan depth [] = []
scan depth (r ∷ s) = written depth r ++ scan (next_depth depth r) s

abbrev pub is_wild : Str → Bool
is_wild seg = str_eq seg (b'*' ∷ []) || str_eq seg (b'*' ∷ b'*' ∷ [])

abbrev pub opens_param : ℕ → Bool
opens_param c = c == b':' || c == b'<' || c == b'['

unfoldable pub reduce_segment : Str → Str
unfolding scan str_eq
reduce_segment [] = []
reduce_segment (c ∷ s) =
    if opens_param c
    then hole
    else if is_wild (c ∷ s)
    then hole
    else if not (has_byte b'{' (c ∷ s))
    then c ∷ s
    else scan 0 (c ∷ s)

abbrev marks_param : ℕ → Bool
marks_param c = c == b'{' || c == b':' || c == b'<' || c == b'[' || c == b'*'

unfoldable pub reduce_path : Str → Str
unfolding reduce_segment split join
reduce_path path =
    if not (any marks_param path) then path else join b'/' (map reduce_segment (split b'/' path))

unfoldable pub is_path_param : Str → Bool
unfolding str_eq
is_path_param [] = false
is_path_param (c ∷ s) =
    if c == b'{' || c == b':' || c == b'[' || c == b'<' then true else is_wild (c ∷ s)

abbrev pub ends_path : ℕ → Bool
ends_path c = c == b'?' || c == b'#'

unfoldable pub trim_query : Str → Str
unfolding before
trim_query = before ends_path
