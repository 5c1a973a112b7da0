-- ===== src/Circuit.antt =====
-- providers/router.py: the circuit breaker that the router keeps for each provider of a route.
-- Times are natural numbers in one unit, later than 0; a circuit that is not open has
-- `open_until` 0. The backoff multiplies a float by the integer `2**exponent`, which Python
-- cannot convert to a float from 2 ** 1024 on: it raises `OverflowError` there.
pub mod Opening
pub mod Trace
mod Scenarios
use quick_price.Prelude.{
  ℕ, ◌+◌, ◌-◌, ◌*◌, ◌^◌, min, Bool, true, false, ◌&&◌, ◌||◌, Option, none, some, ltb, leb, ◌==◌,
  if◌then◌else◌,
}

pub record Circuit : Type 0 where
  pub consecutive_failures : ℕ
  pub open_count : ℕ
  pub open_until : ℕ
  pub probing : Bool

-- what the `defaultdict` makes for a provider that was never called
abbrev pub fresh : Circuit
fresh = record { consecutive_failures = 0; open_count = 0; open_until = 0; probing = false }

pub record Settings : Type 0 where
  pub failure_threshold : ℕ
  pub half_open_after : ℕ
  pub max_backoff : ℕ
  pub network_retry : ℕ

-- `_allow_call`
unfoldable pub allow_call : Circuit → ℕ → Circuit × Bool
allow_call c now =
    if c.open_until == 0
    then (c, true)
    else if ltb now c.open_until || c.probing
    then (c, false)
    else (record c { probing = true }, true)

-- `min(max_backoff, half_open_after * 2**exponent)`; `none` is the `OverflowError`
unfoldable pub backoff : Settings → ℕ → Option ℕ
backoff s open_count =
    if leb 1024 (open_count - 1)
    then none
    else some (min s.max_backoff (s.half_open_after * 2 ^ (open_count - 1)))

-- The delay of a circuit that opens for the `open_count`-th time in a row.
unfoldable pub delay : Settings → Bool → ℕ → Option ℕ
delay s network_failure open_count =
    if network_failure then some s.network_retry else backoff s open_count

set_open : Circuit → ℕ → Option ℕ → Circuit × Bool
set_open c now none = (c, false)
set_open c now (some d) = (record c { open_until = now + d }, true)

-- `_record_failure`, and whether it returns rather than raises
unfoldable pub record_failure : Settings → Circuit → Bool → ℕ → Circuit × Bool
unfolding set_open
record_failure s c network_failure now =
    let failures = c.consecutive_failures + 1 in
    if ltb failures s.failure_threshold && c.open_until == 0
    then (record c { probing = false; consecutive_failures = failures }, true)
    else set_open
        (record c {
          probing = false;
          consecutive_failures = failures;
          open_count = c.open_count + 1;
        })
        now (delay s network_failure (c.open_count + 1))

-- `_record_success`
unfoldable pub record_success : Circuit → Circuit
record_success c = record c {
  consecutive_failures = 0;
  open_count = 0;
  open_until = 0;
  probing = false;
}

-- The handlers of `UnsupportedInstrument` and `ProviderBusy`.
unfoldable pub release_probe : Circuit → Circuit
release_probe c = record c { probing = false }

pub data CircuitState : Type 0 where
  closed open_state half_open probe_ready : CircuitState

-- the `state` and `retry_in_seconds` of `circuit_snapshots`
unfoldable pub state_of : Circuit → ℕ → CircuitState
state_of c now =
    if c.open_until == 0
    then closed
    else if ltb now c.open_until
    then open_state
    else if c.probing
    then half_open
    else probe_ready

unfoldable pub retry_in : Circuit → ℕ → ℕ
retry_in c now = c.open_until - now
