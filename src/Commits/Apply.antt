-- ===== src/Commits/Apply.antt =====
-- internal/app/commits.go: `applyPlan`, the incremental index pass, and `ApplyLocalChanges`. The
-- index, the working tree and the ignore patterns are an argument. Go walks the map of the plan in
-- any order; here it is the order of the list.
use ragota.Base.{
  Bool, List, Option, [], false, if◌then◌else◌, none, not, some, ◌&&◌, ◌++◌, ◌||◌, ◌∷◌,
}
use ragota.Base.Sort.{sort_by}
use ragota.Base.Text.{Str, codes, str_eq}
use ragota.Commits.Batch.{Applied, applied, broke}
use ragota.Commits.Plan.{CommitEvent, Plan, PlanEntry, merge_commit_plan}
use ragota.Linker.Unit.{str_ltb}

pub record FileToIndex : Type 0 where
  pub file_name : Str
  pub file_hash : Str
  pub file_language : Str
  pub file_content : Str

-- what the pass uses; a text is an error
pub record Tree (I : Type 0) : Type 0 where
  pub should_ignore : Str → Bool  -- with the patterns of the repository
  pub detect_language : Str → Str
  pub update_source : Option Str
  pub read_file : Str → Option Str  -- after the update, if there is one
  pub hash_content : Str → Str
  pub remove_indexed_paths : List Str → I → I × Option Str
  pub index_file_set : List FileToIndex → I → I × Option Str × List Str  -- and the failed paths
  pub detect_services : I → I × Option Str
  pub link_repo : I → I × Option Str

module _ {I : Type 0} (t : Tree I) where
  abbrev pub is_deleted : Str → PlanEntry → Bool
  is_deleted path e = e.deletes || t.should_ignore path

  unfoldable pub deletes_of : Plan → List Str
  deletes_of [] = []
  deletes_of ((path, e) ∷ plan) =
      let rest = deletes_of plan in if is_deleted path e then path ∷ rest else rest

  -- whether some content is to be read from the tree
  unfoldable pub needs_source_update : Plan → Bool
  unfolding str_eq
  needs_source_update [] = false
  needs_source_update ((path, e) ∷ plan) =
      (not (is_deleted path e) && str_eq e.new_content []) || needs_source_update plan

  abbrev pub content_of : Str → Str → Option Str
  content_of path [] = t.read_file path
  content_of path (b ∷ s) = some (b ∷ s)

  -- puts a path with the files to index, or with those that cannot be read
  abbrev pub sort_out : Str → Option Str → List FileToIndex × List Str → List FileToIndex × List Str
  sort_out path none (files, unread) = (files, path ∷ unread)
  sort_out path (some content) (files, unread) = (
    record {
      file_name = path;
      file_hash = t.hash_content content;
      file_language = t.detect_language path;
      file_content = content;
    }
        ∷ files,
    unread,
  )

  unfoldable pub is_skipped : Str → PlanEntry → Bool
  unfolding str_eq
  is_skipped path e = is_deleted path e || str_eq (t.detect_language path) []

  -- the files to index, and the paths that cannot be read
  unfoldable pub files_of : Plan → List FileToIndex × List Str
  unfolding is_skipped
  files_of [] = ([], [])
  files_of ((path, e) ∷ plan) =
      let rest = files_of plan in
      if is_skipped path e then rest else sort_out path (content_of path e.new_content) rest

  unfoldable pub after_link : List Str → I × Option Str → I × Applied
  unfolding sort_by str_ltb
  after_link left (ix, some err) = (ix, broke err)
  after_link left (ix, none) = (ix, applied (sort_by str_ltb left))

  unfoldable pub after_detect : List Str → I × Option Str → I × Applied
  unfolding after_link
  after_detect left (ix, some err) = (ix, broke (codes "detect services: " ++ err))
  after_detect left (ix, none) = after_link left (t.link_repo ix)

  unfoldable pub after_index : List Str → I × Option Str × List Str → I × Applied
  unfolding after_detect
  after_index unread (ix, some err, failed_paths) = (ix, broke err)
  after_index unread (ix, none, failed_paths) =
      after_detect (unread ++ failed_paths) (t.detect_services ix)

  unfoldable pub after_remove : List FileToIndex × List Str → I × Option Str → I × Applied
  unfolding after_index
  after_remove (files, unread) (ix, some err) = (ix, broke err)
  after_remove (files, unread) (ix, none) = after_index unread (t.index_file_set files ix)

  unfoldable pub after_update : Plan → I → Option Str → I × Applied
  unfolding after_remove deletes_of files_of
  after_update plan ix (some err) = (ix, broke (codes "update source: " ++ err))
  after_update plan ix none =
      after_remove (files_of plan) (t.remove_indexed_paths (deletes_of plan) ix)

  -- `applyPlan`
  unfoldable pub apply_plan : Plan → I → I × Applied
  unfolding after_update needs_source_update
  apply_plan plan ix =
      after_update plan ix (if needs_source_update plan then t.update_source else none)

  -- `doApplyCommits`
  unfoldable pub do_apply_commits : List CommitEvent → I → I × Applied
  unfolding apply_plan merge_commit_plan
  do_apply_commits batch ix = apply_plan (merge_commit_plan batch) ix
