-- ===== src/WatchBudget/Tests.antt =====
-- The watch budget on small runs, and the theorems on them.

use ragota.Base.{
  List, [], any, arith, if◌then◌else◌, ltb, not, refl, some, true, ◌&&◌, ◌+◌, ◌==◌, ◌||◌, ◌∷◌, ◌≡◌,
}
use ragota.Base.Int.{pos}
use ragota.Server.RateLimit.Runs.{granted}
use ragota.WatchBudget.{Budget, descriptor_limit, new_budget, report, take_watch}
use ragota.WatchBudget.Steps.{
  Call, call, is_release, releases_one, reports, run, take_watch_lem, takes,
}

abbrev roomy : Budget
unfolding new_budget descriptor_limit
roomy = new_budget (some 20000) (pos 2)

second_refused : (run roomy (takes 5 ∷ takes 6 ∷ takes 7 ∷ reports ∷ [])).skipped ≡ 1
unfolding run call take_watch report new_budget descriptor_limit
second_refused = refl

abbrev three_takes : List Call
three_takes = takes 5 ∷ takes 6 ∷ releases_one ∷ takes 7 ∷ reports ∷ []

take_watch_lem_example :
    let (b', granted) = take_watch roomy 30000 in
    (granted ≡ (
      ltb roomy.granted roomy.hard_max
      && not roomy.exhausted
      && (ltb 0 roomy.since_check || 30000 == 0 || ltb 30000 roomy.ceiling)))
    × (b'.granted + b'.skipped ≡ roomy.granted + roomy.skipped + 1)
    × (b'.granted ≡ (if granted then roomy.granted + 1 else roomy.granted))
    × (b'.exhausted ≡ (
        roomy.exhausted
        || (ltb roomy.granted roomy.hard_max
            && roomy.since_check == 0
            && ltb 0 30000
            && not (ltb 30000 roomy.ceiling))))
    × ((not b'.exhausted
          || any is_release (takes 5 ∷ reports ∷ [])
          || not (take_watch (run b' (takes 5 ∷ reports ∷ [])) 8).1)
        ≡ true)
unfolding roomy new_budget
take_watch_lem_example = take_watch_lem roomy 30000 8 (takes 5 ∷ reports ∷ []) (omega arith)
