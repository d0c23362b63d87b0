-- ===== src/Contract/Ident.antt =====
-- internal/contract/ident.go: identifiers as sequences of words.

use ragota.Base.{
  Bool, List, Option, [], false, if◌then◌else◌, map, none, not, some, ℕ, ◌&&◌, ◌++◌, ◌==◌, ◌||◌,
  ◌∷◌,
}
use ragota.Base.Text.{
  Str, cut_last, fields_func, is_digit, is_lower, is_upper, to_lower, trim, trim_space,
}

unfoldable pub is_word_byte : ℕ → Bool
is_word_byte b = b == b'_' || is_lower b || is_upper b || is_digit b

-- `strings.ReplaceAll s "_" ""`
drop_underscores : Str → Str
drop_underscores [] = []
drop_underscores (c ∷ s) = let rest = drop_underscores s in if c == b'_' then rest else c ∷ rest

-- `NormIdent`: lower case, without underscores
unfoldable pub norm_ident : Str → Str
unfolding to_lower trim drop_underscores
norm_ident s = to_lower (drop_underscores (trim_space s))

-- `IdentTokens`
unfoldable pub ident_tokens : Str → List Str
unfolding fields_func is_word_byte
ident_tokens = fields_func (λ c. not (is_word_byte c))

-- `LastComponent`
unfoldable pub last_component : Str → Str
unfolding cut_last trim
last_component s = elim (cut_last b'.' s) [ some (_, t) ↦ trim_space t | none ↦ trim_space s ]

-- The tests of `splitComponents` at the rune `r`: whether an upper-case letter opens a component.
abbrev next_is_lower : Str → Bool
next_is_lower [] = false
next_is_lower (c ∷ _) = is_lower c

abbrev pub opens_component : Option ℕ → ℕ → Str → Bool
opens_component none r rs = false
opens_component (some q) r rs = is_upper r && (not (is_upper q) || next_is_lower rs)

abbrev pub flush : Str → List Str
flush [] = []
flush (c ∷ s) = to_lower (c ∷ s) ∷ []

-- The loop of `splitComponents`: `prev` is `rs[i-1]`, and `cur` the component so far.
unfoldable pub components_from : Option ℕ → Str → Str → List Str
unfolding to_lower
components_from prev cur [] = flush cur
components_from prev cur (r ∷ rs) =
    let breaks = r == b'_' || opens_component prev r rs in
    let kept = if breaks then [] else cur in
    (if breaks then flush cur else [])
    ++ components_from (some r) (if r == b'_' then kept else kept ++ r ∷ []) rs

unfoldable pub split_components : Str → List Str
unfolding components_from
split_components tok = components_from none [] tok

-- the loop of `TokenComponents`, which drops the tokens with no component
unfoldable pub keep_nonempty : List (List Str) → List (List Str)
keep_nonempty [] = []
keep_nonempty ([] ∷ l) = keep_nonempty l
keep_nonempty ((w ∷ ws) ∷ l) = (w ∷ ws) ∷ keep_nonempty l

unfoldable pub token_components : Str → List (List Str)
unfolding keep_nonempty split_components ident_tokens
token_components s = keep_nonempty (map split_components (ident_tokens s))

unfoldable pub concat : List (List Str) → List Str
concat [] = []
concat (l ∷ ls) = l ++ concat ls

unfoldable pub word_components : Str → List Str
unfolding token_components concat
word_components s = concat (token_components s)
