-- ===== src/Runner/Schedule/Stranded.antt =====
-- cli/api/commands/run.ts: an action behind a skipped one stays behind it in a call and a signal.
use sqlanvil.Base.{
  ◌≤◌, ◌≡◌, refl, Bool, true, false, Option, List, ◌∷◌, [], ◌++◌, ◌||◌, not, filter_by, every,
  arith, ap, sym, subst, count, count-append, contains, append-nil, append_assoc, ==_iff,
  Bool-cases, inl, inr,
}
use mathlib.Core.List.{Memᴰ}
use mathlib.Core.List.Memᴰ
use sqlanvil.Targets.{Target, target_eq}
use sqlanvil.Runner.State.{Message, ExecutionAction, Runner, stop, cancel, time_out}
use sqlanvil.Runner.Schedule.{
  is_executable, is_still_pending, partition, start_action, start_all, Signal, stops, cancels,
  times_out,
}
use sqlanvil.Runner.Schedule.Partition.{flat}
use sqlanvil.Runner.Schedule.Reports.{action_targets, count-split, action_targets-append}
use sqlanvil.Runner.Schedule.Invariant.{flat-active, flat-stopped}

-- `p` is pending, and depends on an action `d` of the graph that is neither pending nor in flight
-- and has not completed: nothing is left that could complete it.
pub record IsStranded (p : ExecutionAction) (d : Target) (r : Runner) : Type 0 where
  pub waiting : Memᴰ p r.pending
  pub depends : contains p.dependency_targets d ≡ true
  pub in_graph : contains r.all_action_targets d ≡ true
  pub not_executed : contains r.executed d ≡ false
  pub not_successful : contains r.successful d ≡ false
  pub not_pending : count d (action_targets r.pending) ≡ 0
  pub not_in_flight : count d (action_targets r.in_flight) ≡ 0

unsatisfied :
    (all done : List Target) (d : Target) (ds : List Target)
    → contains ds d ≡ true
    → contains all d ≡ true
    → contains done d ≡ false
    → every (λ x. not (contains all x) || contains done x) ds ≡ false
unsatisfied all done d [] h g n = cc
unsatisfied all done d (x ∷ ds) h g n = ground (arith, ==_iff d x, unsatisfied all done d ds)

pub Memᴰ-filter_by {ℓ} :
    {A : Type ℓ} (p : A → Bool) (x : A) (xs : List A)
    → Memᴰ x xs
    → p x ≡ true
    → Memᴰ x (filter_by p xs)
Memᴰ-filter_by p x [] m h = absurd (Memᴰ.not-nil m)
Memᴰ-filter_by p x (y ∷ xs) (Memᴰ.head e) h = rw (subst (λ z. p z ≡ true) e h) (Memᴰ.head e)
Memᴰ-filter_by p x (y ∷ xs) (Memᴰ.tail m) h = elim (Bool-cases (p y)) [
  | inl good ↦ rw good (Memᴰ.tail (Memᴰ-filter_by p x xs m h))
  | inr bad ↦ rw bad (Memᴰ-filter_by p x xs m h)
]

pub Memᴰ-count :
    (d : ExecutionAction) (xs : List ExecutionAction)
    → Memᴰ d xs
    → 1 ≤ count d.target (action_targets xs)
Memᴰ-count d [] m = absurd (Memᴰ.not-nil m)
Memᴰ-count d (x ∷ xs) (Memᴰ.head e) =
    ground (arith, ap (λ (y : ExecutionAction). y.target) e, ==_iff d.target x.target)
Memᴰ-count d (x ∷ xs) (Memᴰ.tail m) = ground (arith, Memᴰ-count d xs m)

-- The fields of the state after a call, in an active run.
start_all-fields :
    (todo : List ExecutionAction) (r : Runner)
    → ((start_all todo r).pending ≡ r.pending)
      × ((start_all todo r).executed ≡ r.executed)
      × ((start_all todo r).successful ≡ r.successful)
      × ((start_all todo r).all_action_targets ≡ r.all_action_targets)
      × ((start_all todo r).in_flight ≡ r.in_flight ++ todo)
unfolding start_all
start_all-fields [] r = (refl, refl, refl, refl, sym (append-nil r.in_flight))
start_all-fields (a ∷ todo) r =
    ground (arith, start_all-fields todo (start_action a r), append_assoc r.in_flight (a ∷ []) todo)

module _ (p : ExecutionAction) (d : Target) (r : Runner)
    (depends : contains p.dependency_targets d ≡ true)
    (in_graph : contains r.all_action_targets d ≡ true)
    (not_executed : contains r.executed d ≡ false)
    (not_successful : contains r.successful d ≡ false) where
  still_pending : is_still_pending r p ≡ true
  still_pending = ground (
    arith,
    unsatisfied r.all_action_targets r.successful d p.dependency_targets depends in_graph,
    unsatisfied r.all_action_targets r.executed d p.dependency_targets depends in_graph,
  )

  pub after_call :
      Memᴰ p r.pending
      → count d (action_targets (filter_by (is_still_pending r) r.pending)) ≡ 0
      → count d (action_targets (filter_by (is_executable r) r.pending)) ≡ 0
      → count d (action_targets r.in_flight) ≡ 0
      → IsStranded p d (start_all (filter_by (is_executable r) r.pending) (partition r))
  unfolding partition
  after_call waiting none_pending none_started none_running =
      let todo = filter_by (is_executable r) r.pending in
      let (same_pending, same_executed, same_successful, same_all, more) =
        start_all-fields todo (partition r) in
      record {
        waiting =
            subst (Memᴰ p) (sym same_pending)
              (Memᴰ-filter_by (is_still_pending r) p r.pending waiting still_pending);
        depends = depends;
        in_graph = rw same_all in_graph;
        not_executed = rw same_executed not_executed;
        not_successful = rw same_successful not_successful;
        not_pending = rw same_pending none_pending;
        not_in_flight = rw more (
            ground (
              arith,
              action_targets-append r.in_flight todo,
              count-append d (action_targets r.in_flight) (action_targets todo),
            ));
      }

pub IsStranded-flat :
    (p : ExecutionAction) (d : Target) (r : Runner)
    → r.cancelled ≡ false
    → IsStranded p d r
    → IsStranded p d (flat r)
IsStranded-flat p d r kept h = elim (Bool-cases r.stopped) [
  | inl on ↦ subst (λ x. IsStranded p d x) (sym (flat-stopped r on)) h
  | inr off ↦
      subst (λ x. IsStranded p d x) (sym (flat-active r off kept))
        (after_call p d r h.depends h.in_graph h.not_executed h.not_successful h.waiting
          (omega (arith, count-split r d r.pending, h.not_pending))
          (omega (arith, count-split r d r.pending, h.not_pending)) h.not_in_flight)
]

flags-IsStranded :
    (p : ExecutionAction) (d : Target) (r : Runner) (a b c : Bool) (m : Option Message)
    → IsStranded p d r
    → IsStranded p d (record r { stopped = a; cancelled = b; timed_out = c; skip_reason = m })
flags-IsStranded p d r a b c m h = record {
  waiting = h.waiting;
  depends = h.depends;
  in_graph = h.in_graph;
  not_executed = h.not_executed;
  not_successful = h.not_successful;
  not_pending = h.not_pending;
  not_in_flight = h.not_in_flight;
}

pub IsStranded-Signal :
    {r s : Runner} (p : ExecutionAction) (d : Target)
    → Signal r s
    → IsStranded p d r
    → IsStranded p d s
unfolding stop cancel time_out
IsStranded-Signal {r} p d stops h = flags-IsStranded p d r _ _ _ _ h
IsStranded-Signal {r} p d (cancels millis reason) h = flags-IsStranded p d r _ _ _ _ h
IsStranded-Signal {r} p d (times_out millis) h = flags-IsStranded p d r _ _ _ _ h
