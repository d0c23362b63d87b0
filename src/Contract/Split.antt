-- ===== src/Contract/Split.antt =====
-- internal/contract/ident.go: `SplitTopLevel` and `ParamNames`.
use ragota.Base.{
  Bool, List, Option, [], false, if◌then◌else◌, none, not, some, ℕ, ◌&&◌, ◌++◌, ◌+◌, ◌-◌, ◌==◌,
  ◌||◌, ◌∷◌,
}
use ragota.Base.Int.{dec, inc, is_zero, pos, ℤ}
use ragota.Base.Text.{
  Str, before, codes, fields_func, is_space, onto, str_eq, trim, trim_left, trim_prefix, trim_space,
  trim_suffix,
}
use ragota.Contract.Ident.{is_word_byte}
use ragota.Contract.Keys.{name}
use ragota.Gitignore.Check.{parts}

abbrev pub opens : ℕ → Bool
opens c = c == b'(' || c == b'[' || c == b'{'

abbrev pub closes : ℕ → Bool
closes c = c == b')' || c == b']' || c == b'}'

-- the condition under which '<' opens a generic parameter list
abbrev before_word : Option ℕ → Bool
before_word none = false
before_word (some q) = is_word_byte q

abbrev continues_generic : Str → Bool
continues_generic [] = false
continues_generic (d ∷ _) = not (d == b'=') && not (d == b'<')

abbrev pub opens_angle : Option ℕ → Str → Bool
opens_angle prev s = before_word prev && continues_generic s

-- The variables of the loop: `depth`, which may be negative, and `angleDepth`.
pub record Nesting : Type 0 where
  pub depth : ℤ
  pub angle : ℕ

-- One round of the loop: the nesting after the byte, and whether the byte ends a part.
unfoldable pub nest : ℕ → Option ℕ → Nesting → ℕ → Str → Nesting × Bool
unfolding is_word_byte
nest sep prev n c s =
    if opens c
    then (record n { depth = inc n.depth }, false)
    else if closes c
    then (record n { depth = dec n.depth }, false)
    else if c == b'<'
    then (if opens_angle prev s then record n { angle = n.angle + 1 } else n, false)
    else if c == b'>'
    then (record n { angle = n.angle - 1 }, false)
    else if c == sep
    then (n, is_zero n.depth && n.angle == 0)
    else (n, false)

unfoldable pub split_from : ℕ → Option ℕ → Nesting → Str → List Str
unfolding nest
split_from sep prev n [] = [] ∷ []
split_from sep prev n (c ∷ s) =
    let (n', ends) = nest sep prev n c s in
    let rest = split_from sep (some c) n' s in if ends then [] ∷ rest else onto c rest

abbrev pub top : Nesting
top = record { depth = pos 0; angle = 0 }

unfoldable pub split_top_level : Str → ℕ → List Str
unfolding split_from
split_top_level s sep = split_from sep none top s

-- the `case "java", "csharp"` and the `default` of `ParamNames`
last_field : List Str → Option Str
last_field [] = none
last_field (w ∷ []) = some w
last_field (w ∷ v ∷ ws) = last_field (v ∷ ws)

abbrev is_marker : ℕ → Bool
is_marker c = c == b'*' || c == b'&' || c == b'.'

abbrev ends_name : ℕ → Bool
ends_name c = c == 32 || c == b':' || c == b'?'

is_typed_first : Str → Bool
unfolding str_eq
is_typed_first language = str_eq language (codes "java") || str_eq language (codes "csharp")

unfoldable pub name_of : Str → Str → List Str
unfolding is_typed_first last_field fields_func trim_left before
name_of language part =
    if is_typed_first language
    then elim (last_field (fields_func is_space part)) [
      | none ↦ []
      | some name ↦ trim_left (λ c. is_marker c || c == b'@') name ∷ []
    ]
    else elim (before ends_name part) [
      | [] ↦ trim_left is_marker part ∷ []
      | c ∷ name ↦ trim_left is_marker (c ∷ name) ∷ []
    ]

-- the part left of a top-level '=', if there is one
unfoldable pub without_default : Str → Str
unfolding split_top_level trim
without_default part = elim (split_top_level part b'=') [
  | [] ↦ part
  | left ∷ [] ↦ part
  | left ∷ right ∷ more ↦ trim_space left
]

unfoldable pub names_of : Str → List Str → List Str
unfolding name_of without_default trim
names_of language [] = []
names_of language (part ∷ parts) =
    elim (trim_space part) [
      | [] ↦ []
      | c ∷ p ↦ elim (without_default (c ∷ p)) [ [] ↦ [] | d ∷ q ↦ name_of language (d ∷ q) ]
    ]
    ++ names_of language parts

is_receiver : Str → Bool
unfolding str_eq
is_receiver n = str_eq n (codes "self") || str_eq n (codes "cls")

without_receiver : Str → List Str → List Str
unfolding str_eq is_receiver
without_receiver language [] = []
without_receiver language (n ∷ names) =
    if str_eq language (codes "python") && is_receiver n then names else n ∷ names

unfoldable pub param_names : Str → Str → List Str
unfolding names_of without_receiver split_top_level trim trim_prefix trim_suffix
param_names language signature =
    elim (trim_suffix (trim_prefix (trim_space signature) (codes "(")) (codes ")")) [
      | [] ↦ []
      | c ∷ sig ↦ without_receiver language (names_of language (split_top_level (c ∷ sig) b','))
    ]
