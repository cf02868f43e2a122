-- ===== src/Runner/Slots/Laws.antt =====
-- The cap on concurrent extracts of cli/api/commands/run.ts, and where it fails.
use sqlanvil.Base.{◌+◌, ◌<◌, ◌≤◌, ◌≡◌, refl, true, false, arith}
use sqlanvil.Runner.Slots.{
  Slots, idle, acquire, resume, release, Step, acquires, resumes, releases, Steps, start, next,
}

-- What every schedule keeps in which a woken caller goes on first.
pub record IsCapped (s : Slots) : Type 0 where
  pub capped : s.running + s.woken ≤ 4
  pub busy : 0 < s.waiting → s.running + s.woken ≡ 4

Step-IsCapped : {s t : Slots} → Step true s t → IsCapped s → IsCapped t
unfolding acquire resume release
Step-IsCapped (acquires h) c = ground (arith, h refl)
Step-IsCapped (resumes h) c = ground arith
Step-IsCapped (releases h) c = ground arith

-- When a woken caller always goes on before a new caller asks, at most 4 extracts run at once, and
-- a caller waits only while all 4 slots are taken or promised.
pub Steps-IsCapped : {s : Slots} → Steps true idle s → IsCapped s
Steps-IsCapped start = omega arith
Steps-IsCapped (next steps st) = Step-IsCapped st (Steps-IsCapped steps)

-- Otherwise the cap does not hold: from any state with 4 running extracts and a waiter, an
-- extract that ends, a new caller and the woken waiter together lead to 5 running extracts.
pub overshoot :
    (s : Slots) → s.running ≡ 4 → 0 < s.waiting → (t : Slots) × Steps false s t × (t.running ≡ 5)
unfolding acquire resume release
overshoot s full queued = (
  resume (acquire (release s)),
  next (next (next start (releases (omega arith))) (acquires (λ h. cc))) (resumes (ground arith)),
  ground arith,
)
