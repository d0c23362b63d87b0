-- ===== src/Search/Hit.antt =====
-- A search hit of internal/index/interface.go with its line range. `F` is the type of scores.

use ragota.Base.{Bool, if◌then◌else◌, leb, ltb, ℕ, ◌&&◌}
use ragota.Base.Text.{Str, str_eq}

pub record Hit (F : Type 0) : Type 0 where
  pub repo_id : Str
  pub file_path : Str
  pub path : Str
  pub line : ℕ
  pub end_line : ℕ
  pub symbol : Str
  pub kind : Str
  pub language : Str
  pub score : F
  pub snippet : Str
  pub reason : Str

-- the second value of `Range`; the first is the field `line`
abbrev pub range_end : {F : Type 0} → Hit F → ℕ
range_end h = if ltb h.end_line h.line then h.line else h.end_line

-- `Overlaps`
abbrev pub overlaps : {F : Type 0} → Hit F → Hit F → Bool
overlaps a b =
    str_eq a.repo_id b.repo_id
    && str_eq a.file_path b.file_path
    && leb a.line (range_end b)
    && leb b.line (range_end a)
