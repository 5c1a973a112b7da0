-- ===== src/Circuit/Scenarios.antt =====
-- Runs of a circuit with the default settings, in seconds.
use quick_price.Prelude.{ℕ, ◌≤◌, ◌≡◌, refl, true, false, List, [], ◌∷◌, arith}
use quick_price.Circuit.{
  Circuit, Settings, fresh, allow_call, backoff, delay, record_failure, retry_in,
}
use quick_price.Circuit.Opening.{record_failure-overflows}
use quick_price.Circuit.Trace.{Event, asks, fails, IsValid, longest, step, run, run-fresh-IsValid}

abbrev settings : Settings
settings = record {
  failure_threshold = 3;
  half_open_after = 60;
  max_backoff = 900;
  network_retry = 30;
}

abbrev day : List (ℕ × Event)
day = (10, fails false) ∷ (20, fails true) ∷ (30, fails false) ∷ (90, asks) ∷ (95, fails false) ∷ []

run-day :
    run settings fresh day
    ≡ record { consecutive_failures = 4; open_count = 2; open_until = 215; probing = false }
unfolding run step record_failure allow_call delay backoff
run-day = refl

abbrev probed : Circuit
probed = record { consecutive_failures = 3; open_count = 1; open_until = 90; probing = true }

-- an outage of 1024 probes at the network cadence, and then a rate limit
abbrev long_outage : Circuit
long_outage = record {
  consecutive_failures = 1027;
  open_count = 1024;
  open_until = 40_000;
  probing = true;
}

record_failure-overflows_example :
    ((record_failure settings long_outage false 40_001).1 ≡ false)
    × ((record_failure settings long_outage false 40_001).0.open_until ≡ 40_000)
    × (40_000 ≤ 40_002
        → (allow_call (record_failure settings long_outage false 40_001).0 40_002).1 ≡ true)
record_failure-overflows_example =
    record_failure-overflows settings long_outage 40_001 40_002 (omega arith) (omega arith)

run-fresh-IsValid_example :
    IsValid settings 95 (run settings fresh day)
    × (retry_in (run settings fresh day) 95 ≤ longest settings)
run-fresh-IsValid_example =
    run-fresh-IsValid settings 1 95 day (omega arith) (omega arith) (omega arith)
