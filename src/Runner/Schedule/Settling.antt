-- ===== src/Runner/Schedule/Settling.antt =====
-- cli/api/commands/run.ts: every state of a fresh run keeps the invariant, whatever the order in
-- which the actions settle, and whatever calls of `stop` and `cancel` come between.
use sqlanvil.Base.{
  ℕ, Text, ◌+◌, ◌≤◌, ◌≡◌, refl, Bool, true, false, Option, List, ◌∷◌, [], ◌++◌, if◌then◌else◌,
  arith, ap, subst, count, count-append, count-add, contains, contains-add, contains-count, add,
  ◌==◌, ==_iff, ==_refl, All, Bool-cases, inl, inr, filter_by,
}
use sqlanvil.Targets.{Target, target_eq}
use sqlanvil.Runner.State.{
  Message, ActionResult, TaskResult, ExecutionTask, ExecutionAction, Runner, is_successful_action,
  targets_of, create, stop, cancel, time_out,
}
use sqlanvil.Runner.Retry.{Outcome, returned, threw}
use sqlanvil.Runner.Tasks.{locked, end_action, perform, execute_action, World, Options, Ending}
use sqlanvil.Runner.Schedule.{
  is_executable, settle_action, settled_results, Returned, Signal, stops, cancels, times_out,
  Signals, silent, signal, Settle, settles, Reach, begins, signalled, settled,
}
use sqlanvil.Runner.Schedule.Reports.{
  action_targets, is_reported, action_targets-append, targets-settle_result,
  is_reported-settle_result, is_reported-settle_result_ne,
}
use sqlanvil.Runner.Schedule.Invariant.{Inv, All-map, Complete, satisfied_mono, execute_ready-Inv}

flags-Inv :
    (graph : List Target) (r : Runner) (a b c : Bool) (m : Option Message)
    → Inv graph [] r
    → Inv graph [] (record r { stopped = a; cancelled = b; timed_out = c; skip_reason = m })
flags-Inv graph r a b c m v = record {
  conserved = v.conserved;
  owned = v.owned;
  startable = v.startable;
  ready = v.ready;
  complete = v.complete;
  settled_first = v.settled_first;
  reported = v.reported;
}

Signal-Inv : {r s : Runner} (graph : List Target) → Signal r s → Inv graph [] r → Inv graph [] s
unfolding stop cancel time_out
Signal-Inv {r} graph stops v = flags-Inv graph r _ _ _ _ v
Signal-Inv {r} graph (cancels millis reason) v = flags-Inv graph r _ _ _ _ v
Signal-Inv {r} graph (times_out millis) v = flags-Inv graph r _ _ _ _ v

execute_action-target :
    (o : Options) (worlds : ℕ → World) (ending : Ending) (a : ExecutionAction)
    (done : List TaskResult) (ts : List ExecutionTask)
    → (perform o worlds ending a done ts).target ≡ a.target
unfolding perform end_action
execute_action-target o worlds ending a done [] = refl
execute_action-target o worlds ending a done (t ∷ ts) = ground arith

result_of :
    (lock : Outcome Text (Unit {0})) (ts : List ExecutionTask) (result r : ActionResult)
    → returned result ≡ locked lock ts r
    → result ≡ r
result_of lock [] result r h = cc h
result_of (returned _) (t ∷ ts) result r h = cc h
result_of (threw e) (t ∷ ts) result r h = absurd (cc h)

pub Returned-target :
    (a : ExecutionAction) (result : ActionResult) → Returned a result → result.target ≡ a.target
unfolding execute_action
Returned-target a result h =
    rw (result_of h.ending.lock a.tasks result _ h.gives)
      (execute_action-target h.options h.worlds h.ending a h.resumed a.tasks)

targets-settled_results :
    (t : Target) (ts : List ExecutionTask) (new : ActionResult) (xs : List ActionResult)
    → new.target ≡ t
    → targets_of (settled_results t ts new xs) ≡ targets_of xs
targets-settled_results t [] new xs h = refl
targets-settled_results t (_ ∷ _) new xs h = targets-settle_result t new xs h

is_reported-settled_ne :
    (t u : Target) (ts : List ExecutionTask) (new : ActionResult) (xs : List ActionResult)
    → new.target ≡ t
    → (t == u) ≡ false
    → is_reported (settled_results t ts new xs) u ≡ is_reported xs u
is_reported-settled_ne t u [] new xs h ne = refl
is_reported-settled_ne t u (_ ∷ _) new xs h ne = is_reported-settle_result_ne t u new xs h ne

is_reported-settled :
    (t : Target) (ts : List ExecutionTask) (new : ActionResult) (xs : List ActionResult)
    → new.target ≡ t
    → 1 ≤ count t (targets_of xs)
    → (ts ≡ [] → is_reported xs t ≡ true)
    → is_successful_action new.status ≡ true
    → is_reported (settled_results t ts new xs) t ≡ true
is_reported-settled t [] new xs h some_result full good = full refl
is_reported-settled t (_ ∷ _) new xs h some_result full good =
    is_reported-settle_result t new xs h some_result good

All-remove {ℓ κ} :
    {A : Type ℓ} (P : A → Type κ) (before rest : List A) (a : A)
    → All P (before ++ a ∷ rest)
    → P a × All P (before ++ rest)
All-remove P [] rest a h = h
All-remove P (x ∷ before) rest a h =
    let (pa, others) = All-remove P before rest a h.1 in (pa, (h.0, others))

All-counted : (xs : List ExecutionAction) → All (λ x. 1 ≤ count x.target (action_targets xs)) xs
All-counted [] = tt
All-counted (x ∷ xs) =
    (ground (arith, ==_refl x.target), All-map _ _ (λ y h. ground arith) xs (All-counted xs))

All-zip {ℓ κ μ ν} :
    {A : Type ℓ} (P : A → Type κ) (Q : A → Type μ) (R : A → Type ν)
    → ((a : A) → P a → Q a → R a)
    → (xs : List A) → All P xs
    → All Q xs
    → All R xs
All-zip P Q R f [] h k = tt
All-zip P Q R f (x ∷ xs) h k = (f x h.0 k.0, All-zip P Q R f xs h.1 k.1)

module _ (graph : List Target) (distinct : (t : Target) → count t graph ≤ 1) (r : Runner)
    (v : Inv graph [] r) (before rest : List ExecutionAction) (a : ExecutionAction)
    (result : ActionResult) (chosen : r.in_flight ≡ before ++ a ∷ rest)
    (same : result.target ≡ a.target) where
  abbrev pub results' : List ActionResult
  results' = settled_results a.target a.tasks result r.results

  abbrev pub successful' : List Target
  successful' =
      if is_successful_action result.status then add r.successful a.target else r.successful

  abbrev pub after : Runner
  after = record r {
    results = results';
    in_flight = before ++ rest;
    executed = add r.executed a.target;
    successful = successful';
  }

  once : (t : Target) → count t (targets_of r.results) ≤ 1
  once t = omega (arith, v.conserved t, distinct t)

  count-chosen :
      (t : Target)
      → count t (action_targets r.in_flight)
        ≡ count t (action_targets (before ++ rest)) + count t (a.target ∷ [])
  count-chosen t = ground (
    arith,
    chosen,
    action_targets-append before (a ∷ rest),
    action_targets-append before rest,
    count-append t (action_targets before) (action_targets (a ∷ rest)),
    count-append t (action_targets before) (action_targets rest),
  )

  results'-targets : targets_of results' ≡ targets_of r.results
  results'-targets = targets-settled_results a.target a.tasks result r.results same

  -- The chosen action has its one result, and has not settled before.
  chosen_result : count a.target (targets_of r.results) ≡ 1
  chosen_result = omega (arith, v.owned a.target, count-chosen a.target, once a.target, self)
    where
      self : count a.target (a.target ∷ []) ≡ 1
      self = ground (arith, ==_refl a.target)

  chosen_new : contains r.successful a.target ≡ true → ⊥
  chosen_new h =
      let self : count a.target (a.target ∷ []) ≡ 1 = ground (arith, ==_refl a.target) in
      let old = (contains-count a.target r.executed).0 (v.settled_first a.target h) in
      omega (arith, v.owned a.target, count-chosen a.target, once a.target)

  parts : (Complete r a) × All (Complete r) (before ++ rest)
  parts = All-remove (Complete r) before rest a (subst (All (Complete r)) chosen v.complete)

  grows : (t : Target) → contains r.successful t ≡ true → contains successful' t ≡ true
  grows t h = ground (arith, contains-add r.successful a.target t)

  reported' : (t : Target) → contains successful' t ≡ true → is_reported results' t ≡ true
  reported' t h = elim (Bool-cases (a.target == t)) [
    | inl e ↦ ground (
      arith,
      ==_iff a.target t,
      chosen_new,
      chosen_result,
      contains-add r.successful a.target t,
      is_reported-settled a.target a.tasks result r.results same,
      parts.0,
    )
    | inr ne ↦ ground (
      arith,
      ==_iff a.target t,
      ==_iff t a.target,
      v.reported t,
      contains-add r.successful a.target t,
      is_reported-settled_ne a.target t a.tasks result r.results same,
    )
  ]

  complete' : All (Complete after) (before ++ rest)
  complete' =
      All-zip (Complete r) (λ x. 1 ≤ count x.target (action_targets (before ++ rest)))
        (Complete after)
        (λ b done there e. ground (
          arith,
          done e,
          is_reported-settled_ne a.target b.target a.tasks result r.results same,
          ==_iff a.target b.target,
          ==_refl a.target,
          count-chosen a.target,
          once a.target,
          v.owned a.target,
        ))
        (before ++ rest) parts.1 (All-counted (before ++ rest))

  pub settle-Inv : Inv graph [] after
  settle-Inv = record {
    conserved = λ t. ground (arith, v.conserved t, results'-targets);
    owned = λ t.
        ground
          (arith, v.owned t, count-chosen t, results'-targets, count-add t a.target r.executed);
    startable = tt;
    ready =
        All-map (λ b. is_executable r b ≡ true) (λ b. is_executable after b ≡ true)
          (λ b.
            satisfied_mono r.all_action_targets r.successful successful' grows b.dependency_targets)
          (before ++ rest)
          (All-remove (λ b. is_executable r b ≡ true) before rest a
            (subst (All (λ b. is_executable r b ≡ true)) chosen v.ready)).1;
    complete = complete';
    settled_first = λ t h. ground (
      arith,
      v.settled_first t,
      contains-add r.executed a.target t,
      contains-add r.successful a.target t,
    );
    reported = reported';
  }

Settle-Inv :
    {r s : Runner} (graph : List Target)
    → ((t : Target) → count t graph ≤ 1)
    → Settle r s
    → Inv graph [] r
    → Inv graph [] s
unfolding settle_action
Settle-Inv {r} graph distinct (settles before rest a result chosen given) v =
    execute_ready-Inv graph distinct _
      (settle-Inv graph distinct r v before rest a result chosen (Returned-target a result given))

create-Inv : (actions : List ExecutionAction) → Inv (action_targets actions) [] (create actions [])
unfolding create
create-Inv actions = record {
  conserved = λ t. ground (arith, filter_by-none_started actions);
  owned = λ t. omega arith;
  startable = tt;
  ready = tt;
  complete = tt;
  settled_first = λ t h. cc;
  reported = λ t h. cc;
}
  where
    filter_by-none_started :
        (xs : List ExecutionAction) → filter_by (λ (a : ExecutionAction). true) xs ≡ xs
    filter_by-none_started [] = refl
    filter_by-none_started (x ∷ xs) = ap (λ l. x ∷ l) (filter_by-none_started xs)

Signals-Inv : {r s : Runner} (graph : List Target) → Signals r s → Inv graph [] r → Inv graph [] s
Signals-Inv graph silent v = v
Signals-Inv graph (signal more one) v = Signal-Inv graph one (Signals-Inv graph more v)

pub Reach-Inv :
    (actions : List ExecutionAction)
    → ((t : Target) → count t (action_targets actions) ≤ 1)
    → {r : Runner} → Reach (create actions []) r
    → Inv (action_targets actions) [] r
Reach-Inv actions distinct (begins signals) =
    execute_ready-Inv _ distinct _ (Signals-Inv _ signals (create-Inv actions))
Reach-Inv actions distinct (signalled reach one) =
    Signal-Inv _ one (Reach-Inv actions distinct reach)
Reach-Inv actions distinct (settled reach one) =
    Settle-Inv _ distinct one (Reach-Inv actions distinct reach)
