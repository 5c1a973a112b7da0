-- ===== src/RateGate/Scenarios.antt =====
-- Runs of a rate gate on concrete times.
use quick_price.Prelude.{ℕ, ◌+◌, ◌≤◌, ◌≡◌, refl, some, List, [], ◌∷◌, arith}
use quick_price.RateGate.{Gate, expire, attempt, acquire, granted}
use quick_price.RateGate.Window.{recent, granted-le-limit, acquire_after_one_sleep}

-- two calls a second, in milliseconds
abbrev gate : Gate
gate = record { limit = 2; period = 1_000; events = [] }

abbrev burst : List ℕ
burst = 10 ∷ 20 ∷ 30 ∷ 1_015 ∷ 1_025 ∷ []

granted-burst : granted gate burst ≡ 10 ∷ 20 ∷ 1_015 ∷ 1_025 ∷ []
unfolding granted attempt expire
granted-burst = refl

granted-le-limit_example : recent 1_000 1_030 (granted gate burst) ≤ 2
granted-le-limit_example = granted-le-limit gate burst 1_030 (omega arith) (omega arith)

abbrev full : Gate
full = record gate { events = 10 ∷ 20 ∷ [] }

acquire_after_one_sleep_example : (r : Gate × ℕ) × (acquire 2 ◌+◌ full 30 ≡ some r)
acquire_after_one_sleep_example =
    acquire_after_one_sleep full 30 ◌+◌ (omega arith) (omega arith) (λ d. omega arith)
