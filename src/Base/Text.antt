-- ===== src/Base/Text.antt =====
-- Go strings as lists of bytes, and the functions of Go's package `strings` that the source calls.
-- Case and white space are those of ASCII.
pub mod Laws
pub mod Bytes
use Prim.Native.Char.{code}
use Prim.Native.String.{String}
use Prim.Native.Nat.{ℕ, zero, suc, ◌+◌, ◌-◌, ◌/◌, ◌%◌, ◌≤◌, ◌<◌}
use mathlib.Core.Path.{◌≡◌, refl, sym, ap}
use mathlib.Core.Logic.{◌↔◌}
use mathlib.Core.Bool.{Bool, true, false, not, ◌&&◌, ◌||◌}
use mathlib.Core.List.{List, [], ◌∷◌, ◌++◌, map, reverse}
use mathlib.Core.Option.{Option, none, some}
use native.Mathlib.Omega.{arith}
use native.Mathlib.Decide.{ℕ_discrete}
use ragota.Base.{any, if◌then◌else◌, leb, length, ltb, take, ◌==◌}

abbrev pub Str : Type 0
Str = List ℕ

abbrev pub codes : String → Str
codes String.[] = []
codes (String.◌∷◌ c s) = code c ∷ codes s

-- `a == b` on strings.
unfoldable pub str_eq : Str → Str → Bool
str_eq [] [] = true
str_eq (a ∷ s) (b ∷ t) = (a == b) && str_eq s t
str_eq _ _ = false

pub str_eq_iff : (s t : Str) → (str_eq s t ≡ true) ↔ (s ≡ t)
unfolding str_eq
str_eq_iff [] [] = ground arith
str_eq_iff [] (b ∷ t) = ground arith
str_eq_iff (a ∷ s) [] = ground arith
str_eq_iff (a ∷ s) (b ∷ t) = ground (arith, str_eq_iff s t)

pub str_eq_refl : (s : Str) → str_eq s s ≡ true
str_eq_refl s = (str_eq_iff s s).1 refl

abbrev pub is_upper : ℕ → Bool
is_upper c = leb b'A' c && leb c b'Z'

abbrev pub is_lower : ℕ → Bool
is_lower c = leb b'a' c && leb c b'z'

abbrev pub is_digit : ℕ → Bool
is_digit c = leb b'0' c && leb c b'9'

abbrev pub lower : ℕ → ℕ
lower c = if is_upper c then c + 32 else c

abbrev pub upper : ℕ → ℕ
upper c = if is_lower c then c - 32 else c

-- `strings.ToLower`, `strings.ToUpper`
unfoldable pub to_lower : Str → Str
to_lower = map lower

unfoldable pub to_upper : Str → Str
to_upper = map upper

-- the white space of `strings.TrimSpace`: tab, line feed, vertical tab, form feed, return, space
abbrev pub is_space : ℕ → Bool
is_space c = c == 32 || (leb 9 c && leb c 13)

-- `strings.CutPrefix s p`
unfoldable pub cut_prefix : Str → Str → Option Str
cut_prefix s [] = some s
cut_prefix [] (c ∷ p) = none
cut_prefix (d ∷ s) (c ∷ p) = let rest = cut_prefix s p in if d == c then rest else none

unfoldable pub has_prefix : Str → Str → Bool
has_prefix s [] = true
has_prefix [] (c ∷ p) = false
has_prefix (d ∷ s) (c ∷ p) = (d == c) && has_prefix s p

-- `strings.TrimPrefix s p`
unfoldable pub trim_prefix : Str → Str → Str
unfolding cut_prefix
trim_prefix s p = elim (cut_prefix s p) [ some rest ↦ rest | none ↦ s ]

unfoldable pub has_suffix : Str → Str → Bool
unfolding str_eq
has_suffix [] p = str_eq [] p
has_suffix (c ∷ s) p = str_eq (c ∷ s) p || has_suffix s p

-- `strings.TrimSuffix s p`
unfoldable pub trim_suffix : Str → Str → Str
unfolding has_suffix
trim_suffix s p = if has_suffix s p then take (length s - length p) s else s

-- `strings.TrimLeft` and `strings.TrimRight` with the cut set as a test
unfoldable pub trim_left : (ℕ → Bool) → Str → Str
trim_left p [] = []
trim_left p (c ∷ s) = let rest = trim_left p s in if p c then rest else c ∷ s

unfoldable pub trim_right : (ℕ → Bool) → Str → Str
trim_right p [] = []
trim_right p (c ∷ s) = elim (trim_right p s) [ [] ↦ if p c then [] else c ∷ [] | d ∷ r ↦ c ∷ d ∷ r ]

unfoldable pub trim : (ℕ → Bool) → Str → Str
unfolding trim_left trim_right
trim p s = trim_right p (trim_left p s)

abbrev pub trim_space : Str → Str
trim_space = trim is_space

abbrev pub has_byte : ℕ → Str → Bool
has_byte c = any (λ d. d == c)

-- The text before the first byte that passes the test: `s[:i]` for an index `i` of it, or all of `s`.
unfoldable pub before : (ℕ → Bool) → Str → Str
before p [] = []
before p (c ∷ s) = if p c then [] else c ∷ before p s

-- `s[:i]` and `s[i+1:]` at the first index `i` of the byte.
unfoldable pub cut : ℕ → Str → Option (Str × Str)
cut sep [] = none
cut sep (c ∷ s) = elim (c == sep) [
  | true ↦ some ([], s)
  | false ↦ elim (cut sep s) [ none ↦ none | some (a, b) ↦ some (c ∷ a, b) ]
]

-- `s[:i]` and `s[i+1:]` at `i = strings.LastIndex s sep`.
unfoldable pub cut_last : ℕ → Str → Option (Str × Str)
cut_last sep [] = none
cut_last sep (c ∷ s) = elim (cut_last sep s) [
  | some (a, b) ↦ some (c ∷ a, b)
  | none ↦ if c == sep then some ([], s) else none
]

-- puts a byte in front of the first piece
abbrev pub onto : ℕ → List Str → List Str
onto c [] = (c ∷ []) ∷ []
onto c (w ∷ ws) = (c ∷ w) ∷ ws

-- `strings.Split` at a byte: never empty
unfoldable pub split : ℕ → Str → List Str
split sep [] = [] ∷ []
split sep (c ∷ s) = let rest = split sep s in if c == sep then [] ∷ rest else onto c rest

-- `strings.Join` with a byte between the parts
unfoldable pub join : ℕ → List Str → Str
join sep [] = []
join sep (w ∷ []) = w
join sep (w ∷ v ∷ ws) = w ++ sep ∷ join sep (v ∷ ws)

-- `strings.FieldsFunc`: the non-empty runs of bytes that fail the test. `cur` is the run so far.
abbrev pub piece : Str → List Str
piece [] = []
piece (c ∷ s) = (c ∷ s) ∷ []

unfoldable pub fields_from : (ℕ → Bool) → Str → Str → List Str
fields_from p cur [] = piece cur
fields_from p cur (c ∷ s) =
    (if p c then piece cur else []) ++ fields_from p (if p c then [] else cur ++ c ∷ []) s

unfoldable pub fields_func : (ℕ → Bool) → Str → List Str
unfolding fields_from
fields_func p s = fields_from p [] s

-- `fmt.Sprintf("%d", n)`
unfoldable pub decimal_on : ℕ → ℕ → Str
decimal_on zero n = []
decimal_on (suc fuel) n =
    let rest = decimal_on fuel (n / 10) in
    if ltb n 10 then (b'0' + n) ∷ [] else rest ++ (b'0' + n % 10) ∷ []

abbrev pub decimal : ℕ → Str
decimal n = decimal_on (suc n) n

-- `strings.Join` with a text between the parts
unfoldable pub join_with : Str → List Str → Str
join_with sep [] = []
join_with sep (w ∷ []) = w
join_with sep (w ∷ v ∷ ws) = w ++ sep ++ join_with sep (v ∷ ws)

-- `strings.Contains`
unfoldable pub contains : Str → Str → Bool
unfolding has_prefix
contains [] sub = has_prefix [] sub
contains (b ∷ s) sub = has_prefix (b ∷ s) sub || contains s sub
