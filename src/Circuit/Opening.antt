-- ===== src/Circuit/Opening.antt =====
-- providers/router.py: when a circuit opens, for how long, and what it lets through.
use quick_price.Prelude.{
  ap, ◌∙◌, ℕ, zero, suc, ◌+◌, ◌-◌, ◌*◌, ◌^◌, ◌≤◌, ◌<◌, ◌≡◌, refl, ◌⊎◌, Bool, true, false, some,
  arith, min, leb,
}
use native.Mathlib.Nat.{pow-suc}
use quick_price.Circuit.{
  Circuit, Settings, fresh, allow_call, backoff, delay, record_failure, closed, open_state,
  half_open, probe_ready, state_of,
}

-- The failures of `n` calls in a row, one at each time that `at` names, on a circuit.
unfoldable pub fail_times : Settings → Bool → (ℕ → ℕ) → ℕ → Circuit → Circuit
fail_times s network at zero c = c
fail_times s network at (suc n) c =
    (record_failure s (fail_times s network at n c) network (at n)).0

-- A closed circuit with `n` failures in a row behind it.
abbrev closed_after : ℕ → Circuit
closed_after n = record {
  consecutive_failures = n;
  open_count = 0;
  open_until = 0;
  probing = false;
}

module _ (s : Settings) (network : Bool) (at : ℕ → ℕ) where
  fail-closed :
      (n now : ℕ)
      → n + 1 < s.failure_threshold
      → (record_failure s (closed_after n) network now).0 ≡ closed_after (suc n)
  unfolding record_failure
  fail-closed n now h = ground arith

  fail-opens :
      (n now d : ℕ)
      → s.failure_threshold ≡ suc n
      → delay s network 1 ≡ some d
      → (record_failure s (closed_after n) network now).0.open_until ≡ now + d
  unfolding record_failure
  fail-opens n now d t h = ground arith

  fail_times-below :
      (n : ℕ) → n < s.failure_threshold → fail_times s network at n fresh ≡ closed_after n
  unfolding fail_times
  fail_times-below zero h = refl
  fail_times-below (suc n) h =
      ap (λ c. (record_failure s c network (at n)).0) (fail_times-below n (omega arith))
      ∙ fail-closed n (at n) (omega arith)

  -- A fresh circuit stays closed through fewer failures in a row than the threshold, and the
  -- failure that reaches the threshold opens it, for the delay of a first opening.
  pub fail_times-opens :
      (n d : ℕ)
      → s.failure_threshold ≡ suc n
      → delay s network 1 ≡ some d
      → ((k : ℕ) → k ≤ n → (fail_times s network at k fresh).open_until ≡ 0)
        × ((fail_times s network at (suc n) fresh).open_until ≡ at n + d)
  unfolding fail_times
  fail_times-opens n d t h = (
    λ k le. ap (λ c. c.open_until) (fail_times-below k (omega arith)),
    ap (λ c. (record_failure s c network (at n)).0.open_until) (fail_times-below n (omega arith))
        ∙ fail-opens n (at n) d t h,
  )

-- What a call meets at each state of a circuit: a closed one lets it through as it is, an open or
-- probing one refuses it, and one that is ready lets it through as the only probe.
pub allow_call-state :
    (c : Circuit) (now : ℕ)
    → (state_of c now ≡ closed) × (allow_call c now ≡ (c, true))
      ⊎ (state_of c now ≡ open_state) × (allow_call c now ≡ (c, false))
      ⊎ (state_of c now ≡ half_open) × (allow_call c now ≡ (c, false))
      ⊎ (state_of c now ≡ probe_ready)
        × ((allow_call c now).1 ≡ true)
        × ((later : ℕ) → (allow_call (allow_call c now).0 later).1 ≡ false)
unfolding allow_call state_of
allow_call-state c now = ground arith

-- An open circuit that fails again opens for the delay that its count of openings asks for, and
-- refuses every call until that is over.
pub reopened-refuses :
    (s : Settings) (c : Circuit) (network : Bool) (now later d : ℕ)
    → 0 < c.open_until
    → delay s network (c.open_count + 1) ≡ some d
    → ((record_failure s c network now).0.open_until ≡ now + d)
      × (later < now + d
          → allow_call (record_failure s c network now).0 later
            ≡ ((record_failure s c network now).0, false))
unfolding record_failure allow_call
reopened-refuses s c network now later d h e = ground arith

backoff-value :
    (s : Settings) (n : ℕ)
    → n < 1024
    → backoff s (suc n) ≡ some (min s.max_backoff (s.half_open_after * 2 ^ n))
unfolding backoff
backoff-value s n h =
    let p : suc n - 1 ≡ n = omega arith in let q : leb 1024 n ≡ false = ground arith in rw (p, q)

-- The backoff doubles from one opening in a row to the next, up to the maximum.
pub backoff-doubles :
    (s : Settings) (n d : ℕ)
    → n + 1 < 1024
    → backoff s (suc n) ≡ some d
    → backoff s (suc (suc n)) ≡ some (min s.max_backoff (2 * d))
backoff-doubles s n d h e =
    let now_at : d ≡ min s.max_backoff (s.half_open_after * 2 ^ n) =
      cc (e, backoff-value s n (omega arith)) in
    backoff-value s (suc n) (omega arith)
    ∙ ap some (omega (arith, now_at, ap (λ k. s.half_open_after * k) (pow-suc 2 n)))

-- After 1024 openings in a row, whatever caused them, a failure that is not a network failure
-- raises `OverflowError`, and leaves the time of the next probe where it was: whenever that is
-- past, the next call is let through again.
pub record_failure-overflows :
    (s : Settings) (c : Circuit) (now later : ℕ)
    → 0 < c.open_until
    → 1024 ≤ c.open_count
    → ((record_failure s c false now).1 ≡ false)
      × ((record_failure s c false now).0.open_until ≡ c.open_until)
      × (c.open_until ≤ later → (allow_call (record_failure s c false now).0 later).1 ≡ true)
unfolding record_failure delay backoff allow_call
record_failure-overflows s c now later h k = ground arith
