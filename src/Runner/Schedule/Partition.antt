-- ===== src/Runner/Schedule/Partition.antt =====
-- cli/api/commands/run.ts: one call of `executeAllActionsReadyForExecution`, without its recursion.
use sqlanvil.Base.{
  ℕ, zero, suc, ◌≤◌, ◌≡◌, refl, Bool, true, false, List, ◌∷◌, [], if◌then◌else◌, filter_by, any,
  append-nil, arith, length,
}
use sqlanvil.Runner.State.{ExecutionAction, Runner}
use sqlanvil.Runner.Schedule.{
  is_executable, is_skippable, is_still_pending, partition, start_all, execute_all, execute_ready,
  cancel_pending,
}

module _ {ℓ} {A : Type ℓ} (p q : A → Bool) where
  filter_by-implied :
      ((x : A) → q x ≡ true → p x ≡ true)
      → (xs : List A) → filter_by p (filter_by q xs) ≡ filter_by q xs
  filter_by-implied h [] = refl
  filter_by-implied h (x ∷ xs) = ground (arith, h x, filter_by-implied h xs)

  filter_by-excluded :
      ((x : A) → q x ≡ true → p x ≡ false) → (xs : List A) → filter_by p (filter_by q xs) ≡ []
  filter_by-excluded h [] = refl
  filter_by-excluded h (x ∷ xs) = ground (arith, h x, filter_by-excluded h xs)

  any-excluded :
      ((x : A) → q x ≡ true → p x ≡ false) → (xs : List A) → any p (filter_by q xs) ≡ false
  any-excluded h [] = refl
  any-excluded h (x ∷ xs) = ground (arith, h x, any-excluded h xs)

module _ (r : Runner) where
  still_not_executable :
      (a : ExecutionAction) → is_still_pending r a ≡ true → is_executable r a ≡ false
  still_not_executable a h = ground arith

  still_not_skippable :
      (a : ExecutionAction) → is_still_pending r a ≡ true → is_skippable r a ≡ false
  still_not_skippable a h = ground arith

  no_skippable : any (is_skippable r) (filter_by (is_still_pending r) r.pending) ≡ false
  no_skippable = any-excluded _ _ still_not_skippable r.pending

filter_by-none {ℓ} :
    {A : Type ℓ} (p : A → Bool) (xs : List A) → any p xs ≡ false → filter_by p xs ≡ []
filter_by-none p [] h = refl
filter_by-none p (x ∷ xs) h = ground (arith, filter_by-none p xs)

partition_again : (r : Runner) → partition (partition r) ≡ partition r
unfolding partition
partition_again r = rw (
  filter_by-implied (is_still_pending r) (is_still_pending r) (λ a h. h) r.pending,
  filter_by-excluded (is_skippable r) (is_still_pending r) (still_not_skippable r) r.pending,
  append-nil,
)

execute_all-partition :
    (fuel : ℕ) (r : Runner)
    → r.stopped ≡ false
    → r.cancelled ≡ false
    → execute_all (suc fuel) (partition r) ≡ partition r
unfolding execute_all
execute_all-partition fuel r on kept = ground (
  arith,
  no_skippable r,
  filter_by-excluded (is_executable r) (is_still_pending r) (still_not_executable r) r.pending,
  partition_again r,
)

any-nonempty {ℓ} : {A : Type ℓ} (p : A → Bool) (xs : List A) → any p xs ≡ true → 1 ≤ length xs
any-nonempty p [] h = cc
any-nonempty p (x ∷ xs) h = omega arith

execute_all-nested :
    (n : ℕ) (r : Runner)
    → 1 ≤ n
    → r.stopped ≡ false
    → r.cancelled ≡ false
    → execute_all n (partition r) ≡ partition r
execute_all-nested zero r h on kept = absurd (omega arith)
execute_all-nested (suc n) r h on kept = execute_all-partition n r on kept

-- What a call leaves: the nested call that follows a skipped action never finds anything to do.
abbrev pub flat : Runner → Runner
flat r =
    if r.stopped
    then r
    else if r.cancelled
    then cancel_pending r
    else start_all (filter_by (is_executable r) r.pending) (partition r)

-- The call that `executeAllActionsReadyForExecution` makes of itself after it has skipped actions
-- changes nothing: the whole call equals its own work without that call, and so the fuel suffices.
pub execute_ready-flat : (r : Runner) → execute_ready r ≡ flat r
unfolding execute_all
execute_ready-flat r =
    ground (arith, any-nonempty (is_skippable r) r.pending, execute_all-nested (length r.pending) r)
