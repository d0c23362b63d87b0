-- ===== src/Gitignore/Line.antt =====
-- pkg/gitignore/gitignore.go: the lines of a .gitignore file. `valid_pattern` is
-- `doublestar.ValidatePattern`.
use mathlib.Core.List.{reverse}
use ragota.Base.{
  Bool, List, Option, [], false, if◌then◌else◌, leb, length, none, not, some, ℕ, ◌&&◌, ◌++◌, ◌==◌,
  ◌||◌, ◌∷◌,
}
use ragota.Base.Text.{
  Str, codes, has_byte, has_suffix, split, str_eq, trim_prefix, trim_right, trim_suffix,
}

pub record Pattern : Type 0 where
  pub glob : Str
  pub negate : Bool
  pub dir_only : Bool

abbrev pub is_blank : ℕ → Bool
is_blank c = c == 32 || c == 9

abbrev pub is_backslash : ℕ → Bool
is_backslash c = c == 92

-- whether an odd number of bytes at the head pass
unfoldable pub odd_run : (ℕ → Bool) → Str → Bool
odd_run p [] = false
odd_run p (c ∷ s) = let rest = odd_run p s in if p c then not rest else false

-- `escaped` for the byte after `s`; the bytes of `s` are given last first
abbrev escaped_after : Str → Bool
unfolding odd_run
escaped_after = odd_run is_backslash

-- `trimUnescapedTrailingSpace`, on the bytes last first
unfoldable pub trim_blanks : Str → Str
unfolding odd_run
trim_blanks [] = []
trim_blanks (c ∷ s) =
    let rest = trim_blanks s in if is_blank c && not (escaped_after s) then rest else c ∷ s

unfoldable pub trim_unescaped_trailing_space : Str → Str
unfolding trim_blanks
trim_unescaped_trailing_space s = reverse (trim_blanks (reverse s))

-- whether the line ends in a slash that is not escaped
unfoldable pub ends_in_slash : Str → Bool
unfolding odd_run
ends_in_slash line = elim (reverse line) [ [] ↦ false | c ∷ s ↦ c == b'/' && not (escaped_after s) ]

abbrev pub head_is : ℕ → Str → Bool
head_is c [] = false
head_is c (d ∷ s) = d == c

abbrev pub rest_of : Str → Str
rest_of [] = []
rest_of (c ∷ s) = s

-- the glob for the text of a line, without the marks before and after it
unfoldable pub glob_of : Str → Str
unfolding has_suffix trim_prefix
glob_of line =
    let body = trim_prefix line (codes "/") in
    let deep = if has_byte b'/' line then body else codes "**/" ++ body in
    if has_suffix deep (codes "/**") then deep ++ codes "/*" else deep

-- `parseLine`
unfoldable pub parse_line : (Str → Bool) → Str → Option Pattern
unfolding trim_right trim_unescaped_trailing_space ends_in_slash trim_suffix trim_prefix glob_of
    str_eq
parse_line valid_pattern raw =
    let line = trim_unescaped_trailing_space (trim_right (λ c. c == 13) raw) in
    let negate = head_is b'!' line in
    let line1 = if negate then rest_of line else line in
    let dir_only = ends_in_slash line1 in
    let line2 = if dir_only then trim_suffix line1 (codes "/") else line1 in
    if str_eq line [] || head_is b'#' line
    then none
    else if str_eq line2 []
    then none
    else if str_eq (trim_prefix line2 (codes "/")) []
    then none
    else if not (valid_pattern (glob_of line2))
    then none
    else some (record { glob = glob_of line2; negate = negate; dir_only = dir_only })

-- `bufio.ScanLines`: the lines without the line feed and one return before it; no last empty line
abbrev pub without_return : Str → Str
unfolding trim_suffix
without_return s = trim_suffix s (13 ∷ [])

-- the limit that `sc.Buffer` sets
abbrev pub max_line : ℕ
max_line = 1048576

-- The lines that a Scanner gives: none from the first on that does not fit its buffer.
unfoldable pub scan : List Str → List Str
unfolding trim_suffix
scan [] = []
scan (l ∷ []) =
    if leb max_line (length l) then [] else elim l [ [] ↦ [] | c ∷ s ↦ without_return (c ∷ s) ∷ [] ]
scan (l ∷ m ∷ ls) =
    let rest = scan (m ∷ ls) in if leb max_line (length l) then [] else without_return l ∷ rest

unfoldable pub parse_lines : (Str → Bool) → List Str → List Pattern
unfolding parse_line
parse_lines valid_pattern [] = []
parse_lines valid_pattern (l ∷ ls) = elim (parse_line valid_pattern l) [
  | none ↦ parse_lines valid_pattern ls
  | some p ↦ p ∷ parse_lines valid_pattern ls
]

-- `parse`
unfoldable pub parse : (Str → Bool) → Str → List Pattern
unfolding parse_lines scan split
parse valid_pattern content = parse_lines valid_pattern (scan (split 10 content))
