-- ===== src/Commits/Plan/LastChange.antt =====
-- The merged plan of internal/app/commits.go, path by path.
use mathlib.Core.Path.{subst}
use ragota.Base.{
  Bool-cases, List, Option, Option-cases, [], ap, arith, false, if◌then◌else◌, inl, inr, none, not,
  refl, some, sym, ◌&&◌, ◌++◌, ◌∙◌, ◌∷◌, ◌≡◌,
}
use ragota.Base.Text.{Str, str_eq, str_eq_iff}
use ragota.Commits.Plan.{
  CommitEvent, CommitFile, Plan, PlanEntry, is_deletion, is_rename, merge_commit_plan, moves_away,
  plan_commits, plan_file, plan_files, planned, put, removal, upsert,
}

-- what one file change says of a path
unfoldable pub action : Str → CommitFile → Option PlanEntry
unfolding str_eq
action k f =
    if str_eq f.path k
    then some (if is_deletion f then removal else upsert f)
    else if not (is_deletion f) && is_rename f && moves_away f && str_eq f.old_path k
    then some removal
    else none

-- the last change that says anything of a path
unfoldable pub last_action : Str → List CommitFile → Option PlanEntry
unfolding action
last_action k [] = none
last_action k (f ∷ fs) = elim (last_action k fs) [ some e ↦ some e | none ↦ action k f ]

abbrev pub all_files : List CommitEvent → List CommitFile
all_files [] = []
all_files (c ∷ cs) = c.files ++ all_files cs

pub planned-put :
    (k k' : Str) (e : PlanEntry) (m : Plan)
    → planned k (put k' e m) ≡ (if str_eq k' k then some e else planned k m)
unfolding put planned
planned-put k k' e [] = refl
planned-put k k' e ((j, e') ∷ m) = elim (Bool-cases (str_eq j k')) [
  | inl h ↦ rw h (elim (Bool-cases (str_eq k' k)) [
    | inl h' ↦ rw h' refl
    | inr h' ↦ rw (h', subst (λ x. str_eq x k ≡ false) (sym ((str_eq_iff j k').0 h)) h') refl
  ])
  | inr h ↦ elim (Bool-cases (str_eq j k)) [
    | inl h' ↦
        let other : str_eq k' k ≡ false = elim (Bool-cases (str_eq k' k)) [
          | inl h2 ↦
              let same =
                (str_eq_iff j k').1 ((str_eq_iff j k).0 h' ∙ sym ((str_eq_iff k' k).0 h2)) in
              ground (arith, same)
          | inr h2 ↦ h2
        ] in
        rw (h, h', other) refl
    | inr h' ↦ rw (h, h') (planned-put k k' e m)
  ]
]

planned-plan_file :
    (k : Str) (f : CommitFile) (m : Plan)
    → planned k (plan_file f m) ≡ elim (action k f) [ some e ↦ some e | none ↦ planned k m ]
unfolding plan_file action
planned-plan_file k f m = ground (
  arith,
  planned-put k f.path removal m,
  planned-put k f.path (upsert f) m,
  planned-put k f.old_path removal m,
  planned-put k f.path (upsert f) (put f.old_path removal m),
)

planned-plan_files :
    (k : Str) (fs : List CommitFile) (m : Plan)
    → planned k (plan_files fs m) ≡ elim (last_action k fs) [ some e ↦ some e | none ↦ planned k m ]
unfolding plan_files last_action
planned-plan_files k [] m = refl
planned-plan_files k (f ∷ fs) m = elim (Option-cases (last_action k fs)) [
  | inl h ↦ rw h (planned-plan_files k fs (plan_file f m) ∙ rw h (planned-plan_file k f m))
  | inr (e, h) ↦ rw h (planned-plan_files k fs (plan_file f m) ∙ rw h refl)
]

plan_files-append :
    (fs gs : List CommitFile) (m : Plan) → plan_files (fs ++ gs) m ≡ plan_files gs (plan_files fs m)
unfolding plan_files
plan_files-append [] gs m = refl
plan_files-append (f ∷ fs) gs m = plan_files-append fs gs (plan_file f m)

option_eta : (o : Option PlanEntry) → elim o [ some e ↦ some e | none ↦ none ] ≡ o
option_eta none = refl
option_eta (some e) = refl

plan_commits-all_files :
    (cs : List CommitEvent) (m : Plan) → plan_commits cs m ≡ plan_files (all_files cs) m
unfolding plan_commits plan_files
plan_commits-all_files [] m = refl
plan_commits-all_files (c ∷ cs) m =
    plan_commits-all_files cs (plan_files c.files m)
    ∙ sym (plan_files-append c.files (all_files cs) m)

-- The merged plan has for a path what the last change that touches the path says: the removal by
-- a deletion or by a rename away from it, or the content of any other change.
pub planned-merge_commit_plan :
    (k : Str) (batch : List CommitEvent)
    → planned k (merge_commit_plan batch) ≡ last_action k (all_files batch)
unfolding merge_commit_plan planned
planned-merge_commit_plan k batch =
    ap (planned k) (plan_commits-all_files batch [])
    ∙ planned-plan_files k (all_files batch) []
    ∙ option_eta (last_action k (all_files batch))
