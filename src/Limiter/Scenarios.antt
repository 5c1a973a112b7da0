-- ===== src/Limiter/Scenarios.antt =====
-- Runs of a limiter: five requests a minute, bursts of three, in milliseconds.
use quick_price.Prelude.{ℕ, ◌+◌, ◌*◌, ◌≤◌, ◌≡◌, refl, List, [], ◌∷◌, arith, ℕ_discrete}
use quick_price.Prelude.Dict.{get, pop}
use quick_price.Limiter.{
  Bucket, Config, accepted, limited, refill, retry_after, charge, drop_stale, make_room,
  find_bucket, consume,
}
use quick_price.Limiter.Rate.{accepted_of, accepted_of-le, charge-after_wait}
use quick_price.Limiter.Refines.{verdicts, ideal_verdicts, verdicts-eq-ideal}

abbrev login : Config
login = record {
  ticks = 1_000;
  rate_per_minute = 5;
  capacity = 3;
  max_identities = 2;
  idle_ttl = 3_600_000;
}

abbrev calls : List (ℕ × ℕ)
calls = (1, 0) ∷ (1, 10) ∷ (1, 20) ∷ (2, 30) ∷ (1, 40) ∷ (1, 11_990) ∷ []

calls-verdicts :
    verdicts ℕ_discrete login [] calls
    ≡ accepted ∷ accepted ∷ accepted ∷ accepted ∷ limited 12 ∷ limited 1 ∷ []
unfolding verdicts consume drop_stale find_bucket make_room charge refill retry_after get pop
    ℕ_discrete
calls-verdicts = refl

verdicts-eq-ideal_example :
    verdicts ℕ_discrete login [] ((1, 0) ∷ (2, 10) ∷ [])
    ≡ ideal_verdicts ℕ_discrete login
        (λ _. record { tokens = 180_000; updated_at = 0 })
        ((1, 0) ∷ (2, 10) ∷ [])
unfolding consume drop_stale find_bucket make_room charge refill retry_after get pop ℕ_discrete
verdicts-eq-ideal_example =
    verdicts-eq-ideal ℕ_discrete login 0 ((1, 0) ∷ (2, 10) ∷ []) (omega arith) (omega arith)
      (omega arith)

abbrev drained : Bucket
drained = record { tokens = 180_000; updated_at = 0 }

accepted_of-le_example :
    accepted_of login drained (0 ∷ 10 ∷ 20 ∷ 40 ∷ []) * 60_000 ≤ 180_000 + 60_000 * 5
accepted_of-le_example =
    accepted_of-le login drained 60_000 (0 ∷ 10 ∷ 20 ∷ 40 ∷ []) (omega arith) (omega arith)

abbrev spent_bucket : Bucket
spent_bucket = record { tokens = 100; updated_at = 20 }

charge-after_wait_example : (charge login (charge login spent_bucket 40).0 12_040).1 ≡ accepted
unfolding charge refill retry_after
charge-after_wait_example =
    charge-after_wait login spent_bucket 40 12_040 12 (omega arith) (omega arith) refl (omega arith)
