-- ===== src/Runner/Retry/Laws.antt =====
-- What `retry` of common/promises/index.ts settles with, in terms of the answers of the calls.
use sqlanvil.Base.{
  ℕ, zero, suc, ◌+◌, ◌≤◌, ◌<◌, Bool, true, Option, none, some, ◌≡◌, refl, ◌⊎◌, inl, inr, arith,
  Bool-cases, ◌↔◌, sym, subst,
}
use native.Mathlib.Decide.{ℕ_discrete}
use sqlanvil.Runner.Retry.{Outcome, returned, threw, fulfilled, retry_loop, retry}

module _ {E A : Type 0} (call : ℕ → Outcome E A) (matches : E → Bool) where
  Outcome-cases : (o : Outcome E A) → ((a : A) × (o ≡ returned a)) ⊎ ((e : E) × (o ≡ threw e))
  Outcome-cases (returned a) = inl (a, refl)
  Outcome-cases (threw e) = inr (e, refl)

  -- Call `j` threw an error that may be retried.
  abbrev pub Retriable : ℕ → Type 0
  Retriable j = (e : E) × (call j ≡ threw e) × (matches e ≡ true)

  -- Some call from `i` on and before `bound` returned `a`, and all from `i` to it were retriable.
  pub record Succeeds (i bound : ℕ) (a : A) : Type 0 where
    pub at : ℕ
    pub from_start : i ≤ at
    pub in_time : at < bound
    pub returns : call at ≡ returned a
    pub retried : (j : ℕ) → i ≤ j → j < at → Retriable j

  Succeeds-extend :
      (i bound : ℕ) (a : A) → Retriable i → Succeeds (i + 1) bound a → Succeeds i bound a
  Succeeds-extend i bound a first s = record {
    at = s.at;
    from_start = omega (arith, s.from_start);
    in_time = s.in_time;
    returns = s.returns;
    retried = λ j lo hi. elim (ℕ_discrete i j) [
      | yes e ↦ subst Retriable e first
      | no ne ↦ s.retried j (omega arith) hi
    ];
  }

  retry_loop_sound :
      (left i : ℕ) (last : Option E) (a : A)
      → retry_loop call matches left i last ≡ fulfilled a
      → Succeeds i (i + left) a
  unfolding retry_loop
  retry_loop_sound zero i last a h = ground arith
  retry_loop_sound (suc left) i last a h = elim (Outcome-cases (call i)) [
    | inl (b, e) ↦ record {
      at = i;
      from_start = omega arith;
      in_time = omega arith;
      returns = ground arith;
      retried = λ j lo hi. absurd (omega arith);
    }
    | inr (x, e) ↦ elim (Bool-cases (matches x)) [
      | inl m ↦
          let rest = retry_loop_sound left (i + 1) (some x) a (rw (retry_loop, e, m) at h) in
          Succeeds-extend i (i + suc left) a (x, e, m)
            (subst (λ b. Succeeds (i + 1) b a) (omega arith) rest)
      | inr m ↦ absurd (let bad = rw (retry_loop, e, m) at h in ground arith)
    ]
  ]

  retry_loop_complete :
      (left i : ℕ) (last : Option E) (a : A)
      → Succeeds i (i + left) a
      → retry_loop call matches left i last ≡ fulfilled a
  unfolding retry_loop
  retry_loop_complete zero i last a s = absurd (omega (arith, s.from_start, s.in_time))
  retry_loop_complete (suc left) i last a s = elim (ℕ_discrete i s.at) [
    | yes e ↦ rw (retry_loop, subst (λ k. call k ≡ returned a) (sym e) s.returns) refl
    | no ne ↦
        let (x, threw_x, m) = s.retried i (omega arith) (omega (arith, s.from_start)) in
        rw (retry_loop, threw_x, m)
          (retry_loop_complete left (i + 1) (some x) a (record {
            at = s.at;
            from_start = omega (arith, s.from_start);
            in_time = omega (arith, s.in_time);
            returns = s.returns;
            retried = λ j lo hi. s.retried j (omega arith) hi;
          }))
  ]

  -- `retry` is fulfilled with `a` exactly when one of the first `max` calls returns `a` and every
  -- call before it throws an error that may be retried.
  pub retry-fulfilled_iff :
      (max : ℕ) (a : A) → (retry call matches max ≡ fulfilled a) ↔ Succeeds 0 max a
  unfolding retry
  retry-fulfilled_iff max a = (
    λ h. subst (λ b. Succeeds 0 b a) (omega arith) (retry_loop_sound max 0 none a h),
    λ s. retry_loop_complete max 0 none a (subst (λ b. Succeeds 0 b a) (omega arith) s),
  )
