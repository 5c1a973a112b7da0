-- ===== src/Circuit/Trace.antt =====
-- providers/router.py: what holds of a circuit after any sequence of calls and reports.
use quick_price.Prelude.{
  ℕ, ◌+◌, ◌-◌, ◌≤◌, ◌<◌, ◌≡◌, refl, max, Bool, true, false, none, some, List, [], ◌∷◌, arith,
  Option-cases, inl, inr,
}
use quick_price.Circuit.{
  Circuit, Settings, fresh, allow_call, backoff, delay, record_failure, record_success,
  release_probe, retry_in,
}

-- What the dispatcher does with a circuit: it asks, or reports how a call ended. Reports of calls
-- that were let through earlier may come in any order, as calls for several requests overlap.
pub data Event : Type 0 where
  asks succeeds releases : Event
  fails : Bool → Event

unfoldable pub step : Settings → Circuit → ℕ → Event → Circuit
step s c now asks = (allow_call c now).0
step s c now succeeds = record_success c
step s c now releases = release_probe c
step s c now (fails network) = (record_failure s c network now).0

unfoldable pub run : Settings → Circuit → List (ℕ × Event) → Circuit
run s c [] = c
run s c ((now, e) ∷ rest) = run s (step s c now e) rest

-- the longest delay
abbrev pub longest : Settings → ℕ
longest s = max s.max_backoff s.network_retry

pub record IsValid (s : Settings) (now : ℕ) (c : Circuit) : Type 0 where
  pub quiet :
      c.open_until ≡ 0
      → (c.open_count ≡ 0) × (c.probing ≡ false) × (c.consecutive_failures < s.failure_threshold)
  pub counted : 0 < c.open_until → 0 < c.open_count
  pub bounded : c.open_until ≤ now + longest s

delay-le-longest :
    (s : Settings) (network : Bool) (n d : ℕ) → delay s network n ≡ some d → d ≤ longest s
unfolding delay backoff
delay-le-longest s true n d h = ground arith
delay-le-longest s false n d h = ground arith

delay-none : (s : Settings) (network : Bool) (n : ℕ) → delay s network n ≡ none → 1024 ≤ n - 1
unfolding delay backoff
delay-none s true n h = cc
delay-none s false n h = ground arith

fails-IsValid :
    (s : Settings) (c : Circuit) (prev now : ℕ) (network : Bool)
    → 0 < now
    → prev ≤ now
    → IsValid s prev c
    → IsValid s now (record_failure s c network now).0
unfolding record_failure
fails-IsValid s c prev now network p le v =
    elim (Option-cases (delay s network (c.open_count + 1))) [
      | inl e ↦ ground (arith, delay-none s network (c.open_count + 1) e)
      | inr (d, e) ↦ ground (arith, delay-le-longest s network (c.open_count + 1) d e)
    ]

step-IsValid :
    (s : Settings) (c : Circuit) (prev now : ℕ) (e : Event)
    → 0 < s.failure_threshold
    → 0 < now
    → prev ≤ now
    → IsValid s prev c
    → IsValid s now (step s c now e)
unfolding step allow_call record_success release_probe
step-IsValid s c prev now asks t p le v = ground arith
step-IsValid s c prev now succeeds t p le v = ground arith
step-IsValid s c prev now releases t p le v = ground arith
step-IsValid s c prev now (fails network) t p le v = fails-IsValid s c prev now network p le v

-- The events come in order, from `prev` up to `last`.
abbrev pub Ordered : ℕ → ℕ → List (ℕ × Event) → Type 0
Ordered prev last [] = prev ≤ last
Ordered prev last ((now, e) ∷ rest) = (prev ≤ now) × Ordered now last rest

run-IsValid :
    (s : Settings) (c : Circuit) (prev last : ℕ) (events : List (ℕ × Event))
    → 0 < s.failure_threshold
    → 0 < prev
    → Ordered prev last events
    → IsValid s prev c
    → IsValid s last (run s c events)
unfolding run
run-IsValid s c prev last [] t p le v = record {
  quiet = v.quiet;
  counted = v.counted;
  bounded = omega (arith, v.bounded);
}
run-IsValid s c prev last ((now, e) ∷ rest) t p (le, later) v =
    run-IsValid s (step s c now e) now last rest t (omega arith) later
      (step-IsValid s c prev now e t (omega arith) le v)

-- After any sequence of questions and reports, at times in order, a circuit keeps its invariant:
-- one that is not open counts no openings, probes nothing and is below the threshold, and one
-- that is open is due for a probe within the longest delay.
pub run-fresh-IsValid :
    (s : Settings) (start last : ℕ) (events : List (ℕ × Event))
    → 0 < s.failure_threshold
    → 0 < start
    → Ordered start last events
    → IsValid s last (run s fresh events) × (retry_in (run s fresh events) last ≤ longest s)
unfolding retry_in
run-fresh-IsValid s start last events t p o =
    let v : IsValid s last (run s fresh events) =
      run-IsValid s fresh start last events t p o (record {
        quiet = λ q. (refl, refl, t);
        counted = λ q. absurd (omega arith);
        bounded = omega arith;
      }) in
    (v, omega (arith, v.bounded))
