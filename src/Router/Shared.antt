-- ===== src/Router/Shared.antt =====
-- providers/router.py, `_execute`: what holds of the fetches in flight in every order of the steps.
use quick_price.Prelude.{
  ◌⊎◌, ℕ, suc, ◌<◌, ◌≡◌, refl, inl, inr, true, none, some, List, [], ◌∷◌, ◌==◌, ℕ_discrete, arith,
  Bool-cases, Option-cases,
}
use quick_price.Prelude.Dict.{get, put, pop, get-put, get-pop}
use quick_price.Router.Flights.{
  Task, Flights, Event, calls, finishes, leaves, cleans, new, task_of, create_task, join, is_ended,
  is_done, set_result, finish, is_flight, cleanup_flight, leave, step, run,
}

module _ {K R : Type 0} (dec : Discrete K) where
  -- Tasks have numbers below the next one; a flight is a task of its key; a running task is the
  -- flight of its key.
  pub record IsSound (f : Flights K R) : Type 0 where
    pub below : (i : ℕ) (t : Task K R) → task_of dec f i ≡ some t → i < f.next
    pub running :
        (i : ℕ) (t : Task K R)
        → task_of dec f i ≡ some t
        → t.result ≡ none
        → get dec t.key f.flights ≡ some i
    pub known :
        (k : K) (i : ℕ)
        → get dec k f.flights ≡ some i
        → (t : Task K R) × (task_of dec f i ≡ some t) × (t.key ≡ k)

  abbrev running_task : K → Task K R
  running_task k = record { key = k; result = none }

  create_task-below :
      (f : Flights K R) (k : K) (i : ℕ) (t : Task K R)
      → IsSound f
      → task_of dec (create_task dec f k) i ≡ some t
      → i < suc f.next
  unfolding create_task
  create_task-below f k i t s h =
      ground (arith, get-put ℕ_discrete f.next i (running_task k) f.tasks, s.below i t)

  create_task-running :
      (f : Flights K R) (k : K) (i : ℕ) (t : Task K R)
      → get dec k f.flights ≡ none
      → IsSound f
      → task_of dec (create_task dec f k) i ≡ some t
      → t.result ≡ none
      → get dec t.key (create_task dec f k).flights ≡ some i
  unfolding create_task
  create_task-running f k i t free s h e = ground (
    arith,
    get-put ℕ_discrete f.next i (running_task k) f.tasks,
    get-put dec k t.key f.next f.flights,
    s.running i t,
  )

  create_task-known :
      (f : Flights K R) (k j : K) (i : ℕ)
      → IsSound f
      → get dec j (create_task dec f k).flights ≡ some i
      → (t : Task K R) × (task_of dec (create_task dec f k) i ≡ some t) × (t.key ≡ j)
  unfolding create_task
  create_task-known f k j i s h = elim (dec k j) [
    | yes p ↦ (
      running_task k,
      ground (
        arith,
        get-put ℕ_discrete f.next i (running_task k) f.tasks,
        get-put dec k j f.next f.flights,
      ),
      p,
    )
    | no p ↦
        let old : get dec j f.flights ≡ some i = ground (arith, get-put dec k j f.next f.flights) in
        let (t, e, q) = s.known j i old in
        (t, ground (arith, get-put ℕ_discrete f.next i (running_task k) f.tasks, s.below i t e), q)
  ]

  create_task-IsSound :
      (f : Flights K R) (k : K)
      → get dec k f.flights ≡ none
      → IsSound f
      → IsSound (create_task dec f k)
  create_task-IsSound f k free s = record {
    below = λ i t h. (unfold create_task in create_task-below f k i t s h);
    running = λ i t h e. create_task-running f k i t free s h e;
    known = λ j i h. create_task-known f k j i s h;
  }

  pub join-IsSound : (f : Flights K R) (k : K) → IsSound f → IsSound (join dec f k).0
  unfolding join
  join-IsSound f k s = elim (Option-cases (get dec k f.flights)) [
    | inl e ↦ rw (e, join) (create_task-IsSound f k e s)
    | inr (i, e) ↦ rw (e, join) s
  ]

  abbrev pub ended : Flights K R → ℕ → Task K R → R → Flights K R
  ended f i t r = record f { tasks = put ℕ_discrete i (record t { result = some r }) f.tasks }

  ended-known :
      (f : Flights K R) (i : ℕ) (t : Task K R) (r : R) (k : K) (j : ℕ)
      → task_of dec f i ≡ some t
      → IsSound f
      → get dec k f.flights ≡ some j
      → (t' : Task K R) × (task_of dec (ended f i t r) j ≡ some t') × (t'.key ≡ k)
  ended-known f i t r k j e s h =
      let (t', e', q) = s.known k j h in
      elim (ℕ_discrete i j) [
        | yes p ↦ (
          record t { result = some r },
          ground (arith, get-put ℕ_discrete i j (record t { result = some r }) f.tasks),
          ground (arith),
        )
        | no p ↦
            (t', ground (arith, get-put ℕ_discrete i j (record t { result = some r }) f.tasks), q)
      ]

  ended-IsSound :
      (f : Flights K R) (i : ℕ) (t : Task K R) (r : R)
      → task_of dec f i ≡ some t
      → IsSound f
      → IsSound (ended f i t r)
  ended-IsSound f i t r e s = record {
    below = λ j t' h. ground (
      arith,
      get-put ℕ_discrete i j (record t { result = some r }) f.tasks,
      s.below i t e,
      s.below j t',
    );
    running = λ j t' h q.
        ground
          (arith, get-put ℕ_discrete i j (record t { result = some r }) f.tasks, s.running j t');
    known = λ k j h. ended-known f i t r k j e s h;
  }

  pub finish-cases :
      (f : Flights K R) (i : ℕ) (r : R)
      → (finish dec f i r ≡ f)
        ⊎ ((t : Task K R) × (task_of dec f i ≡ some t)
            × (t.result ≡ none)
            × (finish dec f i r ≡ ended f i t r))
  unfolding finish set_result
  finish-cases f i r = elim (Option-cases (task_of dec f i)) [
    | inl e ↦ inl (rw e refl)
    | inr (t, e) ↦ elim (Option-cases t.result) [
      | inl q ↦ inr (t, e, q, rw e (rw q refl))
      | inr (old, q) ↦ inl (rw e (rw q refl))
    ]
  ]

  finish-IsSound : (f : Flights K R) (i : ℕ) (r : R) → IsSound f → IsSound (finish dec f i r)
  finish-IsSound f i r s = elim (finish-cases f i r) [
    | inl same ↦ rw same s
    | inr (t, e, q, made) ↦ rw made (ended-IsSound f i t r e s)
  ]

  popped-IsSound :
      (f : Flights K R) (k : K) (i : ℕ)
      → is_done dec f i ≡ true
      → get dec k f.flights ≡ some i
      → IsSound f
      → IsSound (record f { flights = pop dec k f.flights })
  unfolding is_done is_ended
  popped-IsSound f k i done held s = record {
    below = s.below;
    running = λ j t h q. ground (arith, get-pop dec k t.key f.flights, s.running j t h q);
    known = λ j n h. s.known j n (ground (arith, get-pop dec k j f.flights));
  }

  cleanup_flight-IsSound :
      (f : Flights K R) (k : K) (i : ℕ)
      → is_done dec f i ≡ true
      → IsSound f
      → IsSound (cleanup_flight dec f k i)
  unfolding cleanup_flight is_flight
  cleanup_flight-IsSound f k i done s = elim (Option-cases (get dec k f.flights)) [
    | inl e ↦ rw e s
    | inr (j, e) ↦ rw e (elim (Bool-cases (j == i)) [
      | inl p ↦ rw p (popped-IsSound f k i done (ground arith) s)
      | inr p ↦ rw p s
    ])
  ]

  pub step-IsSound : (f : Flights K R) (e : Event K R) → IsSound f → IsSound (step dec f e)
  unfolding step leave
  step-IsSound f (calls k) s = join-IsSound f k s
  step-IsSound f (finishes i r) s = finish-IsSound f i r s
  step-IsSound f (leaves k i) s = elim (Bool-cases (is_done dec f i)) [
    | inl done ↦ rw done (cleanup_flight-IsSound f k i done s)
    | inr not_done ↦ rw not_done s
  ]
  step-IsSound f (cleans k i) s = elim (Bool-cases (is_done dec f i)) [
    | inl done ↦ rw done (cleanup_flight-IsSound f k i done s)
    | inr not_done ↦ rw not_done s
  ]

  new-IsSound : IsSound (new dec)
  unfolding get
  new-IsSound = record {
    below = λ i t h. absurd (cc h);
    running = λ i t h q. absurd (cc h);
    known = λ k i h. absurd (cc h);
  }

  pub run-IsSound : (f : Flights K R) (es : List (Event K R)) → IsSound f → IsSound (run dec f es)
  unfolding run
  run-IsSound f [] s = s
  run-IsSound f (e ∷ es) s = run-IsSound (step dec f e) es (step-IsSound f e s)

  pub run-new-IsSound : (es : List (Event K R)) → IsSound (run dec (new dec) es)
  run-new-IsSound es = run-IsSound (new dec) es new-IsSound

  -- In every order of the steps, two tasks of one key that both run are one task.
  pub single_flight :
      (es : List (Event K R)) (i j : ℕ) (t u : Task K R)
      → task_of dec (run dec (new dec) es) i ≡ some t
      → task_of dec (run dec (new dec) es) j ≡ some u
      → t.result ≡ none
      → u.result ≡ none
      → t.key ≡ u.key
      → i ≡ j
  single_flight es i j t u h k p q same =
      let s = run-new-IsSound es in
      let a = s.running i t h p in let b = s.running j u k q in cc (a, b, same)
