-- ===== src/WatchBudget/Steps.antt =====
-- Runs of the watch budget of internal/server/watch/budget.go.

use ragota.Base.{
  Bool, Bool-cases, List, Option, [], any, arith, false, if◌then◌else◌, inl, inr, ltb, not, refl,
  suc, true, zero, ℕ, ◌&&◌, ◌+◌, ◌<◌, ◌==◌, ◌||◌, ◌∙◌, ◌∷◌, ◌≡◌, ◌≤◌,
}
use ragota.Base.Int.{negsuc, pos, ℤ}
use ragota.Commits.Paths.{stays}
use ragota.Server.RateLimit.Runs.{granted}
use ragota.WatchBudget.{
  Budget, check_every, descriptor_limit, new_budget, release_watch, report, take_watch,
}

pub data Call : Type 0 where
  takes : ℕ → Call
  releases_one : Call
  reports : Call

-- the state after a call, whether it was a grant, and whether it logged
unfoldable pub call : Budget → Call → Budget × Bool × Bool
unfolding take_watch release_watch report
call b (takes held) = let (b', granted) = take_watch b held in (b', granted, false)
call b releases_one = (release_watch b, false, false)
call b reports = let (b', logged) = report b in (b', false, logged)

unfoldable pub run : Budget → List Call → Budget
unfolding call
run b [] = b
run b (c ∷ cs) = run (call b c).0 cs

-- the number of log lines of a run
unfoldable pub logs : Budget → List Call → ℕ
unfolding call
logs b [] = 0
logs b (c ∷ cs) = let rest = logs (call b c).0 cs in if (call b c).2 then suc rest else rest

abbrev pub InBounds : Budget → Type 0
InBounds b = 0 < b.hard_max × b.granted ≤ b.hard_max × b.since_check ≤ check_every

call-InBounds : (b : Budget) (c : Call) → InBounds b → InBounds (call b c).0
unfolding call take_watch release_watch report
call-InBounds b (takes held) h = ground arith
call-InBounds b releases_one h = ground arith
call-InBounds b reports h = ground arith

run-InBounds : (b : Budget) (cs : List Call) → InBounds b → InBounds (run b cs)
unfolding run
run-InBounds b [] h = h
run-InBounds b (c ∷ cs) h = run-InBounds (call b c).0 cs (call-InBounds b c h)

call-hard_max : (b : Budget) (c : Call) → (call b c).0.hard_max ≡ b.hard_max
unfolding call take_watch release_watch report
call-hard_max b (takes held) = ground arith
call-hard_max b releases_one = ground arith
call-hard_max b reports = ground arith

run-hard_max : (b : Budget) (cs : List Call) → (run b cs).hard_max ≡ b.hard_max
unfolding run
run-hard_max b [] = refl
run-hard_max b (c ∷ cs) = run-hard_max (call b c).0 cs ∙ call-hard_max b c

new_budget-InBounds : (limit : Option ℕ) (max : ℤ) → InBounds (new_budget limit max)
unfolding new_budget descriptor_limit
new_budget-InBounds limit (pos zero) = ground arith
new_budget-InBounds limit (pos (suc n)) = ground arith
new_budget-InBounds limit (negsuc n) = ground arith

-- After any calls on a new budget, the watches in use are no more than its maximum, which is
-- positive, and the next look at the descriptors is at most 64 grants away.
pub run-new_budget :
    (limit : Option ℕ) (max : ℤ) (cs : List Call)
    → let b = run (new_budget limit max) cs in
      0 < (new_budget limit max).hard_max
      × b.granted ≤ (new_budget limit max).hard_max
      × b.since_check ≤ check_every
run-new_budget limit max cs =
    let h = run-InBounds (new_budget limit max) cs (new_budget-InBounds limit max) in
    let e = run-hard_max (new_budget limit max) cs in
    ground (arith, h, e, new_budget-InBounds limit max)

logs-warned : (b : Budget) (cs : List Call) → logs b cs ≤ (if b.warned then 0 else 1)
unfolding logs call take_watch release_watch report
logs-warned b [] = ground arith
logs-warned b (takes held ∷ cs) = ground (arith, logs-warned (take_watch b held).0 cs)
logs-warned b (releases_one ∷ cs) = ground (arith, logs-warned (release_watch b) cs)
logs-warned b (reports ∷ cs) = ground (arith, logs-warned (report b).0 cs)

-- A run of any calls logs once at most.
pub logs_once : (limit : Option ℕ) (max : ℤ) (cs : List Call) → logs (new_budget limit max) cs ≤ 1
unfolding new_budget
logs_once limit max cs = logs-warned (new_budget limit max) cs

abbrev pub is_release : Call → Bool
is_release releases_one = true
is_release _ = false

-- A budget that is marked exhausted stays so until a release.
run-exhausted :
    (b : Budget) (cs : List Call)
    → b.exhausted ≡ true
    → any is_release cs ≡ false
    → (run b cs).exhausted ≡ true
unfolding run call take_watch report
run-exhausted b [] e h = e
run-exhausted b (takes held ∷ cs) e h = ground (arith, run-exhausted (take_watch b held).0 cs)
run-exhausted b (releases_one ∷ cs) e h = cc
run-exhausted b (reports ∷ cs) e h = ground (arith, run-exhausted (report b).0 cs)

-- `take` grants exactly if the maximum is not reached, the budget is not marked exhausted, and a
-- look that is due finds fewer descriptors than the ceiling or cannot tell; it counts a grant or a
-- refusal. It marks the budget exhausted exactly if it was so or such a look finds too many, and
-- from then on every `take` is refused, after any further calls among which is no release.
pub take_watch_lem :
    (b : Budget) (held held' : ℕ) (cs : List Call)
    → 0 < b.hard_max
    → let (b', granted) = take_watch b held in
      (granted ≡ (
        ltb b.granted b.hard_max
        && not b.exhausted
        && (ltb 0 b.since_check || held == 0 || ltb held b.ceiling)))
      × (b'.granted + b'.skipped ≡ b.granted + b.skipped + 1)
      × (b'.granted ≡ (if granted then b.granted + 1 else b.granted))
      × (b'.exhausted ≡ (
          b.exhausted
          || (ltb b.granted b.hard_max
              && b.since_check == 0
              && ltb 0 held
              && not (ltb held b.ceiling))))
      × ((not b'.exhausted || any is_release cs || not (take_watch (run b' cs) held').1) ≡ true)
unfolding take_watch
take_watch_lem b held held' cs h =
    let stays = run-exhausted (take_watch b held).0 cs in
    (ground arith, ground arith, ground arith, ground arith, refused_on stays)
  where
    refused_on :
        ((take_watch b held).0.exhausted ≡ true
          → any is_release cs ≡ false
          → (run (take_watch b held).0 cs).exhausted ≡ true)
        → (not (take_watch b held).0.exhausted
            || any is_release cs
            || not (take_watch (run (take_watch b held).0 cs) held').1)
          ≡ true
    refused_on stays = elim (Bool-cases (take_watch b held).0.exhausted) [
      | inr e ↦ rw e refl
      | inl e ↦ elim (Bool-cases (any is_release cs)) [
        | inl k ↦ rw (e, k) refl
        | inr k ↦ rw (e, k) (refuses (run (take_watch b held).0 cs) (stays e k))
      ]
    ]
      where
        refuses : (x : Budget) → x.exhausted ≡ true → not (take_watch x held').1 ≡ true
        refuses x e = ground arith
