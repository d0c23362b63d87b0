-- ===== src/WatchBudget.antt =====
-- internal/server/watch/budget.go: how many watches the watcher may install. The number of
-- descriptors that the process holds (`openDescriptors`) and the process's limit (`Getrlimit`)
-- are arguments, and a method that holds the mutex is one step.
pub mod Steps
mod Tests
use ragota.Base.{
  Bool, Option, false, if◌then◌else◌, leb, ltb, none, not, some, suc, true, zero, ℕ, ◌&&◌, ◌+◌, ◌-◌,
  ◌==◌, ◌^◌, ◌||◌,
}
use ragota.Base.Int.{negsuc, pos, ℤ}

abbrev pub reserve_fds : ℕ
reserve_fds = 8192

abbrev pub default_max_watched_dirs : ℕ
default_max_watched_dirs = 8192

abbrev pub check_every : ℕ
check_every = 64

abbrev pub min_watch_budget : ℕ
min_watch_budget = 64

pub record Budget : Type 0 where
  pub ceiling : ℕ
  pub hard_max : ℕ
  pub granted : ℕ
  pub skipped : ℕ
  pub exhausted : Bool
  pub warned : Bool
  pub since_check : ℕ

-- `descriptorLimit`; without a value where `Getrlimit` fails
unfoldable pub descriptor_limit : Option ℕ → ℕ
descriptor_limit none = min_watch_budget + reserve_fds
descriptor_limit (some cur) = if ltb (2 ^ 31) cur then 2 ^ 31 else cur

-- `newBudget`. A difference below 0 is below `minWatchBudget`.
unfoldable pub new_budget : Option ℕ → ℤ → Budget
unfolding descriptor_limit
new_budget limit max =
    let ceiling = descriptor_limit limit - reserve_fds in
    record {
      ceiling = if ltb ceiling min_watch_budget then min_watch_budget else ceiling;
      hard_max = elim max [
        | pos zero ↦ default_max_watched_dirs
        | pos (suc n) ↦ suc n
        | negsuc n ↦ default_max_watched_dirs
      ];
      granted = 0;
      skipped = 0;
      exhausted = false;
      warned = false;
      since_check = 0;
    }

abbrev refuse : Budget → Budget × Bool
refuse b = (record b { skipped = b.skipped + 1 }, false)

abbrev grant : Budget → Budget × Bool
grant b = (record b { since_check = b.since_check - 1; granted = b.granted + 1 }, true)

-- `take`
unfoldable pub take_watch : Budget → ℕ → Budget × Bool
take_watch b held =
    if ltb 0 b.hard_max && leb b.hard_max b.granted
    then refuse b
    else if b.exhausted
    then refuse b
    else if b.since_check == 0
    then (if ltb 0 held && leb b.ceiling held
        then refuse (record b { since_check = check_every; exhausted = true })
        else grant (record b { since_check = check_every }))
    else grant b

-- `release`
unfoldable pub release_watch : Budget → Budget
release_watch b = record b {
  granted = if ltb 0 b.granted then b.granted - 1 else b.granted;
  exhausted = false;
  since_check = 0;
}

-- `report`, with whether it logs
unfoldable pub report : Budget → Budget × Bool
report b =
    (if ltb 0 b.skipped then record b { warned = true } else b, not (b.skipped == 0 || b.warned))

-- `stats`
unfoldable pub stats : Budget → ℕ × ℕ × ℕ
stats b = (b.granted, b.skipped, b.ceiling)
