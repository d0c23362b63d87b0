-- ===== src/Contract/Table.antt =====
-- internal/contract/contract.go: `TableName`.

use ragota.Base.{
  Bool, [], get_elem?, if◌then◌else◌, length, ltb, none, not, some, take, ℕ, ◌&&◌, ◌++◌, ◌-◌, ◌==◌,
  ◌||◌, ◌∷◌,
}
use ragota.Base.Text.{Str, codes, cut_last, has_suffix, join, trim, trim_left, trim_space}
use ragota.Contract.Ident.{word_components}

abbrev pub is_vowel : ℕ → Bool
is_vowel b = b == b'a' || b == b'e' || b == b'i' || b == b'o' || b == b'u'

abbrev is_pointer : ℕ → Bool
is_pointer c = c == b'*' || c == b'&'

-- the entity without markers and qualifier
unfoldable pub bare_name : Str → Str
unfolding trim trim_left cut_last
bare_name entity =
    let name = trim_left is_pointer (trim_space entity) in
    elim (cut_last b'.' name) [ some (_, n) ↦ n | none ↦ name ]

byte_at : Str → ℕ → ℕ
byte_at s i = elim (get_elem? s i) [ some c ↦ c | none ↦ 0 ]

takes_es : Str → Bool
unfolding has_suffix
takes_es s =
    has_suffix s (codes "s")
    || has_suffix s (codes "x")
    || has_suffix s (codes "z")
    || has_suffix s (codes "ch")
    || has_suffix s (codes "sh")

takes_ies : Str → Bool
unfolding has_suffix byte_at
takes_ies s =
    has_suffix s (codes "y") && ltb 1 (length s) && not (is_vowel (byte_at s (length s - 2)))

unfoldable pub plural : Str → Str
unfolding takes_es takes_ies
plural [] = []
plural (c ∷ s) =
    let w = c ∷ s in
    if takes_es w
    then w ++ codes "es"
    else if takes_ies w
    then take (length w - 1) w ++ codes "ies"
    else w ++ codes "s"

unfoldable pub table_name : Str → Str
unfolding bare_name word_components plural join
table_name entity = plural (join b'_' (word_components (bare_name entity)))
