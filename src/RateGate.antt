-- ===== src/RateGate.antt =====
-- providers/quota.py, class `SlidingWindowRateGate`: a sliding-window burst limiter.
-- Times are natural numbers in one unit; `now` is the clock's reading under the lock. The source
-- tests `event <= now - period`, which is `event + period <= now`, and sleeps outside the lock:
-- one round of the `while True` loop is `attempt`, and other tasks' rounds may come between two.
pub mod Window
mod Scenarios
use quick_price.Prelude.{
  ℕ, zero, suc, ◌+◌, ◌-◌, Bool, true, false, Option, none, some, List, [], ◌∷◌, ◌++◌, ltb, leb,
  ◌==◌, ◌||◌, if◌then◌else◌, length,
}

pub record Gate : Type 0 where
  pub limit : ℕ
  pub period : ℕ
  pub events : List ℕ

pub data Error : Type 0 where
  bad_bounds : Error

pub data Result {ℓ} (A : Type ℓ) : Type ℓ where
  ok : A → Result A
  err : Error → Result A

unfoldable pub new : ℕ → ℕ → Result Gate
new limit period =
    if limit == 0 || period == 0
    then err bad_bounds
    else ok (record { limit = limit; period = period; events = [] })

-- `while events and events[0] <= cutoff: events.popleft()`
unfoldable pub expire : ℕ → ℕ → List ℕ → List ℕ
expire period now [] = []
expire period now (e ∷ es) =
    let rest = expire period now es in if leb (e + period) now then rest else e ∷ es

pub data Attempt : Type 0 where
  admitted : Attempt
  wait : ℕ → Attempt

-- `max(0.0, events[0] + period - now)`; the list is empty only where the limit is 0
unfoldable pub delay : ℕ → ℕ → List ℕ → ℕ
delay period now [] = 0
delay period now (e ∷ es) = e + period - now

-- One round of the loop in `acquire`, under the lock.
unfoldable pub attempt : Gate → ℕ → Gate × Attempt
attempt g now =
    let live = expire g.period now g.events in
    if ltb (length live) g.limit
    then (record g { events = live ++ now ∷ [] }, admitted)
    else (record g { events = live }, wait (delay g.period now live))

-- `acquire`, for a task that meets no other: `wake now d` is the clock after a sleep of `d` that
-- began at `now`. `none` means that the fuel ran out.
unfoldable pub acquire : ℕ → (ℕ → ℕ → ℕ) → Gate → ℕ → Option (Gate × ℕ)
acquire zero wake g now = none
acquire (suc fuel) wake g now = elim (attempt g now).1 [
  | admitted ↦ some ((attempt g now).0, now)
  | wait d ↦ acquire fuel wake (attempt g now).0 (wake now d)
]

is_admitted : Attempt → Bool
is_admitted admitted = true
is_admitted (wait d) = false

-- The times at which a sequence of rounds, by any tasks in any order, is admitted.
unfoldable pub granted : Gate → List ℕ → List ℕ
unfolding is_admitted
granted g [] = []
granted g (now ∷ rest) =
    let later = granted (attempt g now).0 rest in
    if is_admitted (attempt g now).1 then now ∷ later else later
