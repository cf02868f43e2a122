-- ===== src/Runner/Retry.antt =====
-- common/promises/index.ts: `retry`, a loop over a fallible call.
pub mod Laws
use sqlanvil.Base.{ℕ, zero, suc, ◌+◌, Bool, Option, none, some, if◌then◌else◌}

pub data Outcome (E A : Type 0) : Type 0 where
  returned : A → Outcome E A
  threw : E → Outcome E A

-- What an `async` function settles with; `rejected none` is a rejection with `undefined`.
pub data Settled (E A : Type 0) : Type 0 where
  fulfilled : A → Settled E A
  rejected : Option E → Settled E A

module _ {E A : Type 0} (call : ℕ → Outcome E A) (matches_retriable_error : E → Bool) where
  -- The loop, with the number of attempts left, the index `i` and `lastErr`.
  unfoldable pub retry_loop : ℕ → ℕ → Option E → Settled E A
  retry_loop zero i last_err = rejected last_err
  retry_loop (suc left) i last_err = elim (call i) [
    | returned a ↦ fulfilled a
    | threw e ↦ elim (matches_retriable_error e) [
      | Bool.true ↦ retry_loop left (i + 1) (some e)
      | Bool.false ↦ rejected (some e)
    ]
  ]

  unfoldable pub retry : ℕ → Settled E A
  unfolding retry_loop
  retry max_attempts = retry_loop max_attempts 0 none
