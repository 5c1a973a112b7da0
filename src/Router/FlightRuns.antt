-- ===== src/Router/FlightRuns.antt =====
-- Runs of the fetches in flight on concrete events.
use quick_price.Prelude.{ℕ, ◌≡◌, ◌≢◌, refl, none, some, List, [], ◌∷◌, ℕ_discrete, arith}
use quick_price.Prelude.Dict.{get, put}
use quick_price.Router.Flights.{
  Event, calls, finishes, leaves, cleans, new, task_of, join, is_done, finish, leave, run,
}
use quick_price.Router.Shared.{single_flight}
use quick_price.Router.Joins.{callers_share}
use quick_price.Router.Cleanups.{cleaned-not_joined}

abbrev opening : List (Event ℕ ℕ)
opening = calls 7 ∷ calls 8 ∷ calls 7 ∷ finishes 0 40 ∷ []

-- The second call of the key 7 joins the task 0.
tasks-opening :
    (run ℕ_discrete (new ℕ_discrete) opening).tasks
    ≡ (0, record { key = 7; result = some 40 }) ∷ (1, record { key = 8; result = none }) ∷ []
unfolding run get put ℕ_discrete
tasks-opening = refl

single_flight_example : ◌≡◌ {A = ℕ} 1 1
unfolding run get put ℕ_discrete
single_flight_example =
    single_flight ℕ_discrete opening 1 1 (record { key = 8; result = none })
      (record { key = 8; result = none }) refl refl refl refl refl

callers_share_example :
    let (first, i) = join ℕ_discrete (run ℕ_discrete (new ℕ_discrete) opening) 9 in
    (join ℕ_discrete (run ℕ_discrete first (calls 9 ∷ finishes 1 50 ∷ [])) 9
      ≡ (run ℕ_discrete first (calls 9 ∷ finishes 1 50 ∷ []), i))
    × (task_of ℕ_discrete
          (run ℕ_discrete
            (finish ℕ_discrete (run ℕ_discrete first (calls 9 ∷ finishes 1 50 ∷ [])) i 60)
            (finishes 2 70 ∷ leaves 9 2 ∷ calls 9 ∷ []))
          i
        ≡ some (record { key = 9; result = some 60 }))
unfolding run is_done get put ℕ_discrete
callers_share_example =
    callers_share ℕ_discrete opening (calls 9 ∷ finishes 1 50 ∷ [])
      (finishes 2 70 ∷ leaves 9 2 ∷ calls 9 ∷ []) 9 60 refl (tt, (omega arith, tt))

cleaned-not_joined_example :
    (join ℕ_discrete
      (run ℕ_discrete
        (leave ℕ_discrete (run ℕ_discrete (new ℕ_discrete) opening) 7 0)
        (calls 7 ∷ cleans 7 0 ∷ []))
      7).1
    ≢ 0
unfolding run is_done get put ℕ_discrete
cleaned-not_joined_example =
    cleaned-not_joined ℕ_discrete opening (calls 7 ∷ cleans 7 0 ∷ []) 7 7 0 refl refl
