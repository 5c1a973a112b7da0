-- ===== src/Router/Joins.antt =====
-- providers/router.py, `_execute`: what the callers of one key are answered, whatever the order of
-- the steps.
use quick_price.Prelude.{
  ℕ, ◌≡◌, ◌≢◌, refl, inl, inr, false, none, some, List, [], ◌∷◌, ℕ_discrete, arith, Bool-cases,
  Option-cases, All,
}
use quick_price.Prelude.Dict.{get, get-put}
use quick_price.Router.Flights.{
  Task, Flights, Event, calls, finishes, leaves, cleans, new, task_of, create_task, join, is_ended,
  is_done, set_result, finish, is_flight, cleanup_flight, leave, step, run,
}
use quick_price.Router.Shared.{
  IsSound, finish-cases, run-new-IsSound, run-IsSound, join-IsSound, step-IsSound,
}

module _ {K R : Type 0} (dec : Discrete K) where
  -- The event does not end the task `i`.
  abbrev pub Spares : ℕ → Event K R → Type 0
  Spares i (finishes j r) = j ≢ i
  Spares i _ = Unit

  cleanup-tasks : (f : Flights K R) (k : K) (i : ℕ) → (cleanup_flight dec f k i).tasks ≡ f.tasks
  unfolding cleanup_flight
  cleanup-tasks f k i = elim (Bool-cases (is_flight (get dec k f.flights) i)) [
    | inl e ↦ rw e refl
    | inr e ↦ rw e refl
  ]

  leave-tasks : (f : Flights K R) (k : K) (i : ℕ) → (leave dec f k i).tasks ≡ f.tasks
  unfolding leave
  leave-tasks f k i = elim (Bool-cases (is_done dec f i)) [
    | inl e ↦ rw e (cleanup-tasks f k i)
    | inr e ↦ rw e refl
  ]

  join-task_of :
      (f : Flights K R) (k : K) (i : ℕ) (t : Task K R)
      → IsSound dec f
      → task_of dec f i ≡ some t
      → task_of dec (join dec f k).0 i ≡ some t
  unfolding join create_task
  join-task_of f k i t s h = elim (Option-cases (get dec k f.flights)) [
    | inl e ↦
        rw (e, join)
          (ground (
            arith,
            get-put ℕ_discrete f.next i (record { key = k; result = none }) f.tasks,
            s.below i t h,
          ))
    | inr (j, e) ↦ rw (e, join) h
  ]

  -- A task stays what it is but for the event that ends it.
  step-task_of :
      (f : Flights K R) (e : Event K R) (i : ℕ) (t : Task K R)
      → IsSound dec f
      → Spares i e
      → task_of dec f i ≡ some t
      → task_of dec (step dec f e) i ≡ some t
  unfolding step
  step-task_of f (calls k) i t s p h = join-task_of f k i t s h
  step-task_of f (finishes j r) i t s p h = elim (finish-cases dec f j r) [
    | inl same ↦ rw same h
    | inr (u, e, q, made) ↦
        rw made (ground (arith, get-put ℕ_discrete j i (record u { result = some r }) f.tasks))
  ]
  step-task_of f (leaves k j) i t s p h = rw (leave-tasks f k j) h
  step-task_of f (cleans k j) i t s p h = rw (leave-tasks f k j) h

  pub run-task_of :
      (f : Flights K R) (es : List (Event K R)) (i : ℕ) (t : Task K R)
      → IsSound dec f
      → All (Spares i) es
      → task_of dec f i ≡ some t
      → task_of dec (run dec f es) i ≡ some t
  unfolding run
  run-task_of f [] i t s p h = h
  run-task_of f (e ∷ es) i t s p h =
      run-task_of (step dec f e) es i t (step-IsSound dec f e s) p.1 (step-task_of f e i t s p.0 h)

  step-result :
      (f : Flights K R) (e : Event K R) (i : ℕ) (t : Task K R) (x : R)
      → IsSound dec f
      → t.result ≡ some x
      → task_of dec f i ≡ some t
      → task_of dec (step dec f e) i ≡ some t
  unfolding step
  step-result f (calls k) i t x s p h = join-task_of f k i t s h
  step-result f (finishes j r) i t x s p h = elim (finish-cases dec f j r) [
    | inl same ↦ rw same h
    | inr (u, e, q, made) ↦
        rw made (ground (arith, get-put ℕ_discrete j i (record u { result = some r }) f.tasks))
  ]
  step-result f (leaves k j) i t x s p h = rw (leave-tasks f k j) h
  step-result f (cleans k j) i t x s p h = rw (leave-tasks f k j) h

  run-result :
      (f : Flights K R) (es : List (Event K R)) (i : ℕ) (t : Task K R) (x : R)
      → IsSound dec f
      → t.result ≡ some x
      → task_of dec f i ≡ some t
      → task_of dec (run dec f es) i ≡ some t
  unfolding run
  run-result f [] i t x s p h = h
  run-result f (e ∷ es) i t x s p h =
      run-result (step dec f e) es i t x (step-IsSound dec f e s) p (step-result f e i t x s p h)

  -- A caller whose task still runs awaits a task of its own key.
  join-running :
      (f : Flights K R) (k : K)
      → IsSound dec f
      → is_done dec (join dec f k).0 (join dec f k).1 ≡ false
      → task_of dec (join dec f k).0 (join dec f k).1 ≡ some (record { key = k; result = none })
  unfolding is_done is_ended join create_task
  join-running f k s h = elim (Option-cases (get dec k f.flights)) [
    | inl e ↦
        rw (e, join)
          (ground
            (arith, get-put ℕ_discrete f.next f.next (record { key = k; result = none }) f.tasks))
    | inr (i, e) ↦
        let (t, g, q) = s.known k i e in
        let waits : is_ended dec (task_of dec f i) ≡ false = rw (e, join) at h in ground arith
  ]

  joins_running :
      (f : Flights K R) (i : ℕ) (t : Task K R)
      → IsSound dec f
      → task_of dec f i ≡ some t
      → t.result ≡ none
      → join dec f t.key ≡ (f, i)
  unfolding join
  joins_running f i t s h q = rw (s.running i t h q, join) refl

  finish-running :
      (f : Flights K R) (i : ℕ) (t : Task K R) (r : R)
      → task_of dec f i ≡ some t
      → t.result ≡ none
      → task_of dec (finish dec f i r) i ≡ some (record t { result = some r })
  unfolding finish set_result
  finish-running f i t r h q =
      rw (h, q) (ground (arith, get-put ℕ_discrete i i (record t { result = some r }) f.tasks))

  share_from :
      (f : Flights K R) (i : ℕ) (between after : List (Event K R)) (k : K) (r : R)
      → IsSound dec f
      → task_of dec f i ≡ some (record { key = k; result = none })
      → All (Spares i) between
      → (join dec (run dec f between) k ≡ (run dec f between, i))
        × (task_of dec (run dec (finish dec (run dec f between) i r) after) i
            ≡ some (record { key = k; result = some r }))
  unfolding step
  share_from f i between after k r s h p =
      let g = run dec f between in
      let t : Task K R = record { key = k; result = none } in
      let s' = run-IsSound dec f between s in
      let h' = run-task_of f between i t s p h in
      (
        joins_running g i t s' h' refl,
        run-result (finish dec g i r) after i (record t { result = some r }) r
            (step-IsSound dec g (finishes i r) s') refl (finish-running g i t r h' refl),
      )

  -- Two calls of one key, the second before the task of the first has ended: the second awaits that
  -- task and starts none. When the task ends, its first result is its result from then on,
  -- whatever follows, so both callers are answered alike.
  pub callers_share :
      (before between after : List (Event K R)) (k : K) (r : R)
      → is_done dec
          (join dec (run dec (new dec) before) k).0
          (join dec (run dec (new dec) before) k).1
        ≡ false
      → All (Spares (join dec (run dec (new dec) before) k).1) between
      → let (first, i) = join dec (run dec (new dec) before) k in
        (join dec (run dec first between) k ≡ (run dec first between, i))
        × (task_of dec (run dec (finish dec (run dec first between) i r) after) i
            ≡ some (record { key = k; result = some r }))
  callers_share before between after k r h p =
      let f = run dec (new dec) before in
      let s = run-new-IsSound dec before in
      share_from (join dec f k).0 (join dec f k).1 between after k r (join-IsSound dec f k s)
        (join-running f k s h) p
