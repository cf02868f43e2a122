-- ===== src/Runner/Slots.antt =====
-- cli/api/commands/run.ts, `acquireExtractSlot` and `releaseExtractSlot`: the counter and the queue
-- that cap concurrent extracts. A step is what runs between two waits of the event loop.
pub mod Laws
use sqlanvil.Base.{ℕ, zero, suc, ◌+◌, ◌-◌, ◌<◌, ◌≤◌, ◌≡◌, Bool, if◌then◌else◌, ltb}

abbrev pub max_concurrent_extracts : ℕ
max_concurrent_extracts = 4

-- `waiting` is the length of `extractWaiters`. `woken` counts the callers whose promise a release
-- has resolved and whose code after the `await` has not run yet.
pub record Slots : Type 0 where
  pub running : ℕ
  pub waiting : ℕ
  pub woken : ℕ

abbrev pub idle : Slots
idle = record { running = 0; waiting = 0; woken = 0 }

-- `acquireExtractSlot` up to its return or its `await`.
unfoldable pub acquire : Slots → Slots
acquire s =
    if ltb s.running max_concurrent_extracts
    then record s { running = s.running + 1 }
    else record s { waiting = s.waiting + 1 }

-- `acquireExtractSlot` after its `await`.
unfoldable pub resume : Slots → Slots
resume s = record s { running = s.running + 1; woken = s.woken - 1 }

-- `releaseExtractSlot`: `extractWaiters.shift()` resolves the promise of the first waiter.
unfoldable pub release : Slots → Slots
release s =
    if ltb 0 s.waiting
    then record s { running = s.running - 1; waiting = s.waiting - 1; woken = s.woken + 1 }
    else record s { running = s.running - 1 }

-- `prompt` says whether a woken caller goes on before any new caller asks for a slot.
pub data Step (prompt : Bool) (s : Slots) : Slots → Type 0 where
  acquires : (prompt ≡ Bool.true → s.woken ≡ 0) → Step prompt s (acquire s)
  resumes : 0 < s.woken → Step prompt s (resume s)
  releases : 0 < s.running → Step prompt s (release s)

pub data Steps (prompt : Bool) (s : Slots) : Slots → Type 0 where
  start : Steps prompt s s
  next : {t u : Slots} → Steps prompt s t → Step prompt t u → Steps prompt s u
