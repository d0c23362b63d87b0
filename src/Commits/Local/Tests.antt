-- ===== src/Commits/Local/Tests.antt =====
-- A run of `ApplyLocalChanges` of internal/app/commits.go, and an instance of its theorem.
use ragota.Base.{List, [], if◌then◌else◌, map, none, refl, some, true, ◌++◌, ◌∷◌, ◌≡◌}
use ragota.Base.Sort.{insert_by, sort_by}
use ragota.Base.Text.{Str, codes, has_prefix, has_suffix, str_eq}
use ragota.Commits.Apply.{
  Tree, after_detect, after_index, after_link, after_remove, after_update, apply_plan, deletes_of,
  files_of, is_skipped, needs_source_update,
}
use ragota.Commits.Batch.{applied}
use ragota.Commits.Cursor.{cursor_in}
use ragota.Commits.Local.{apply_local_changes}
use ragota.Commits.Local.Cursor.{apply_local_changes-cursor_in}
use ragota.Commits.Plan.{CommitFile, merge_commit_plan, plan_commits, plan_file, plan_files, put}
use ragota.Linker.Unit.{str_ltb}
use ragota.RepoStore.{Repo, idle}

-- the index is the list of its paths
abbrev small_tree : Tree (List Str)
small_tree = record {
  should_ignore = λ p. has_prefix p (codes "vendor/");
  detect_language = λ p. if has_suffix p (codes ".go") then codes "go" else [];
  update_source = none;
  read_file = λ p. if str_eq p (codes "gone.go") then none else some (codes "package a");
  hash_content = λ s. s;
  remove_indexed_paths = λ ps ix. (ix, none);
  index_file_set = λ fs ix. (map (λ f. f.file_name) fs ++ ix, none, []);
  detect_services = λ ix. (ix, none);
  link_repo = λ ix. (ix, none);
}

abbrev modified : Str → CommitFile
modified p = record { path = p; old_path = []; content = []; change = codes "M" }

abbrev shop_repo : Repo
shop_repo = record {
  repo = codes "shop";
  repo_name = codes "shop";
  source = codes "local";
  url = [];
  path = codes "/srv/shop";
  branch = codes "main";
  created_at = 1;
  indexed_at = 2;
  state = idle;
  last_error = [];
  last_commit = codes "c1";
  pending_commit = [];
  active = true;
  claimer = [];
  claim_expires_at = 0;
}

abbrev edits : List CommitFile
edits =
    modified (codes "a.go")
    ∷ modified (codes "vendor/x.go")
    ∷ modified (codes "gone.go")
    ∷ modified (codes "notes.md")
    ∷ []

apply_plan-edits :
    apply_plan small_tree
      (merge_commit_plan (record { sha = []; parents = []; files = edits } ∷ []))
      (codes "old.go" ∷ [])
    ≡ (codes "a.go" ∷ codes "old.go" ∷ [], applied (codes "gone.go" ∷ []))
unfolding apply_plan merge_commit_plan plan_commits plan_files plan_file put needs_source_update
    deletes_of files_of is_skipped after_update after_remove after_index after_detect after_link
    sort_by insert_by str_ltb str_eq has_prefix has_suffix
apply_plan-edits = refl

apply_local_changes-cursor_in_example :
    cursor_in
      (apply_local_changes small_tree (shop_repo ∷ []) 10 11 (codes "w1") (codes "shop") edits []).0
      (codes "shop")
    ≡ cursor_in (shop_repo ∷ []) (codes "shop")
apply_local_changes-cursor_in_example =
    apply_local_changes-cursor_in small_tree (shop_repo ∷ []) 10 11 (codes "w1") (codes "shop")
      edits [] (codes "shop")
