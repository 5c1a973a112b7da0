-- ===== src/Router/Flights.antt =====
-- providers/router.py, `_execute`, `_schedule_flight_cleanup` and `_cleanup_flight`: the fetches in
-- flight, which the callers of one key share. A key is the normalised symbol, the capability and
-- the arguments of a call; a task is known by its number, in the order of creation, and its result
-- is what `_dispatch` returned or raised, or its cancellation. What a method does under the lock,
-- or between two awaits, is one step; events say in what order the event loop makes the steps.
use quick_price.Prelude.{
  ℕ, suc, Bool, true, false, Option, none, some, List, [], ◌∷◌, ◌==◌, if◌then◌else◌, ℕ_discrete,
}
use quick_price.Prelude.Dict.{Dict, get, put, pop}

-- an `asyncio.Task`; `result` is none while it runs
pub record Task (K R : Type 0) : Type 0 where
  pub key : K
  pub result : Option R

-- `_flights`, with the tasks that were created
pub record Flights (K R : Type 0) : Type 0 where
  pub next : ℕ
  pub tasks : Dict ℕ (Task K R)
  pub flights : Dict K ℕ

pub data Event (K R : Type 0) : Type 0 where
  calls : K → Event K R
  finishes : ℕ → R → Event K R
  leaves cleans : K → ℕ → Event K R

unfoldable pub is_flight : Option ℕ → ℕ → Bool
is_flight none i = false
is_flight (some j) i = j == i

module _ {K R : Type 0} (dec : Discrete K) where
  abbrev pub new : Flights K R
  new = record { next = 0; tasks = []; flights = [] }

  abbrev pub task_of : Flights K R → ℕ → Option (Task K R)
  task_of f i = get ℕ_discrete i f.tasks

  unfoldable pub create_task : Flights K R → K → Flights K R
  create_task f key = record {
    next = suc f.next;
    tasks = put ℕ_discrete f.next (record { key = key; result = none }) f.tasks;
    flights = put dec key f.next f.flights;
  }

  -- the first half of `_execute`: the state, and the task that the caller awaits
  unfoldable pub join : Flights K R → K → Flights K R × ℕ
  unfolding create_task
  join f key = elim (get dec key f.flights) [ some i ↦ (f, i) | none ↦ (create_task f key, f.next) ]

  unfoldable pub is_ended : Option (Task K R) → Bool
  is_ended none = false
  is_ended (some t) = elim t.result [ none ↦ false | some r ↦ true ]

  -- task.done()
  unfoldable pub is_done : Flights K R → ℕ → Bool
  unfolding is_ended
  is_done f i = is_ended (task_of f i)

  unfoldable pub set_result : Option (Task K R) → Flights K R → ℕ → R → Flights K R
  set_result none f i r = f
  set_result (some t) f i r = elim t.result [
    | some old ↦ f
    | none ↦ record f { tasks = put ℕ_discrete i (record t { result = some r }) f.tasks }
  ]

  -- A running task ends; a task that has ended keeps its result.
  unfoldable pub finish : Flights K R → ℕ → R → Flights K R
  unfolding set_result
  finish f i r = set_result (task_of f i) f i r

  -- `_cleanup_flight`, of a task that is done
  unfoldable pub cleanup_flight : Flights K R → K → ℕ → Flights K R
  unfolding is_flight
  cleanup_flight f key i =
      if is_flight (get dec key f.flights) i
      then record f { flights = pop dec key f.flights }
      else f

  -- the `finally` of `_execute`, whether the caller was answered or cancelled
  unfoldable pub leave : Flights K R → K → ℕ → Flights K R
  unfolding is_done cleanup_flight
  leave f key i = if is_done f i then cleanup_flight f key i else f

  -- The callback of a task runs when it is done.
  unfoldable pub step : Flights K R → Event K R → Flights K R
  unfolding join finish leave cleanup_flight is_done
  step f (calls key) = (join f key).0
  step f (finishes i r) = finish f i r
  step f (leaves key i) = leave f key i
  step f (cleans key i) = if is_done f i then cleanup_flight f key i else f

  unfoldable pub run : Flights K R → List (Event K R) → Flights K R
  unfolding step
  run f [] = f
  run f (e ∷ es) = run (step f e) es
