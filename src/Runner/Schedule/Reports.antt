-- ===== src/Runner/Schedule/Reports.antt =====
-- cli/api/commands/run.ts: how the list of results grows and changes.
use sqlanvil.Base.{
  ◌+◌, ◌≤◌, ◌≡◌, refl, Bool, true, false, List, ◌∷◌, [], ◌++◌, ◌&&◌, ◌||◌, map, filter_by, arith,
  ap, count, ◌==◌, ==_iff, ==_refl,
}
use sqlanvil.Targets.{Target, target_eq}
use sqlanvil.Runner.State.{ActionResult, ExecutionAction, Runner, is_successful_action, targets_of}
use sqlanvil.Runner.Schedule.{
  is_executable, is_skippable, is_still_pending, skipped_result, cancelled_result, has_result,
  settle_result,
}

abbrev pub action_targets : List ExecutionAction → List Target
action_targets actions = map (λ (a : ExecutionAction). a.target) actions

-- Some result of the target is successful or disabled.
abbrev pub is_reported : List ActionResult → Target → Bool
is_reported [] t = false
is_reported (a ∷ rest) t = a.target == t && is_successful_action a.status || is_reported rest t

-- The three tests of a call split the pending actions.
pub count-split :
    (r : Runner) (t : Target) (xs : List ExecutionAction)
    → count t (action_targets (filter_by (is_executable r) xs))
        + count t (action_targets (filter_by (is_skippable r) xs))
        + count t (action_targets (filter_by (is_still_pending r) xs))
      ≡ count t (action_targets xs)
count-split r t [] = omega arith
count-split r t (x ∷ xs) = ground (arith, count-split r t xs)

pub targets-skipped :
    (xs : List ExecutionAction) → targets_of (map skipped_result xs) ≡ action_targets xs
unfolding skipped_result
targets-skipped [] = refl
targets-skipped (x ∷ xs) = ap (λ l. x.target ∷ l) (targets-skipped xs)

pub targets-cancelled :
    (r : Runner) (xs : List ExecutionAction)
    → targets_of (map (cancelled_result r) xs) ≡ action_targets xs
unfolding cancelled_result
targets-cancelled r [] = refl
targets-cancelled r (x ∷ xs) = ap (λ l. x.target ∷ l) (targets-cancelled r xs)

pub targets-append :
    (xs ys : List ActionResult) → targets_of (xs ++ ys) ≡ targets_of xs ++ targets_of ys
targets-append [] ys = refl
targets-append (x ∷ xs) ys = ap (λ l. x.target ∷ l) (targets-append xs ys)

pub action_targets-append :
    (xs ys : List ExecutionAction)
    → action_targets (xs ++ ys) ≡ action_targets xs ++ action_targets ys
action_targets-append [] ys = refl
action_targets-append (x ∷ xs) ys = ap (λ l. x.target ∷ l) (action_targets-append xs ys)

pub is_reported-append :
    (xs ys : List ActionResult) (t : Target)
    → is_reported (xs ++ ys) t ≡ (is_reported xs t || is_reported ys t)
is_reported-append [] ys t = refl
is_reported-append (x ∷ xs) ys t = ground (arith, is_reported-append xs ys t)

pub has_result-count :
    (xs : List ActionResult) (t : Target) → has_result xs t ≡ true → 1 ≤ count t (targets_of xs)
has_result-count [] t h = cc
has_result-count (x ∷ xs) t h = ground (arith, has_result-count xs t, ==_iff x.target t, ==_refl t)

-- A settled result stands in the place of the one that it completes.
pub targets-settle_result :
    (t : Target) (new : ActionResult) (xs : List ActionResult)
    → new.target ≡ t
    → targets_of (settle_result t new xs) ≡ targets_of xs
targets-settle_result t new [] h = refl
targets-settle_result t new (x ∷ xs) h =
    ground (arith, ==_iff x.target t, targets-settle_result t new xs h)

pub is_reported-settle_result :
    (t : Target) (new : ActionResult) (xs : List ActionResult)
    → new.target ≡ t
    → 1 ≤ count t (targets_of xs)
    → is_successful_action new.status ≡ true
    → is_reported (settle_result t new xs) t ≡ true
is_reported-settle_result t new [] h some_result good = absurd (omega arith)
is_reported-settle_result t new (x ∷ xs) h some_result good = ground (
  arith,
  ==_iff x.target t,
  ==_iff t x.target,
  ==_iff new.target t,
  is_reported-settle_result t new xs h,
)

pub is_reported-settle_result_ne :
    (t u : Target) (new : ActionResult) (xs : List ActionResult)
    → new.target ≡ t
    → (t == u) ≡ false
    → is_reported (settle_result t new xs) u ≡ is_reported xs u
is_reported-settle_result_ne t u new [] h ne = refl
is_reported-settle_result_ne t u new (x ∷ xs) h ne = ground (
  arith,
  ==_iff x.target t,
  ==_iff x.target u,
  ==_iff new.target u,
  ==_iff t u,
  is_reported-settle_result_ne t u new xs h ne,
)
