-- ===== src/Limiter.antt =====
-- auth.py, class `TokenBucketLimiter`: a bounded, insertion-ordered table of token buckets.
-- The clock counts `ticks` to the second, and a bucket counts its tokens in parts of which one
-- token has `60 * ticks`. So a bucket that gains `rate_per_minute / 60` tokens a second gains
-- exactly `rate_per_minute` parts a tick, and the float arithmetic of the source is exact here.
pub mod Rate
pub mod Table
pub mod Refines
mod Scenarios
use quick_price.Prelude.{
  ℕ, zero, ◌+◌, ◌-◌, ◌*◌, ◌/◌, min, max, Bool, true, false, ◌||◌, Option, none, some, List, [], ◌∷◌,
  ◌++◌, ltb, leb, ◌==◌, if◌then◌else◌, length,
}
use quick_price.Prelude.Dict.{Dict, get, pop}

pub record Bucket : Type 0 where
  pub tokens : ℕ
  pub updated_at : ℕ

-- `ticks` is the clock's resolution; the other numbers are the constructor's arguments.
pub record Config : Type 0 where
  pub ticks : ℕ
  pub rate_per_minute : ℕ
  pub capacity : ℕ
  pub max_identities : ℕ
  pub idle_ttl : ℕ

pub data Verdict : Type 0 where
  accepted : Verdict
  limited : ℕ → Verdict
  zero_division : Verdict

-- `ValueError("limiter bounds must be positive")`
unfoldable pub config_error : Config → Bool
config_error c = c.max_identities == 0 || c.idle_ttl == 0

-- the parts of one token, and of a full bucket
abbrev pub token : Config → ℕ
token c = 60 * c.ticks

abbrev pub full : Config → ℕ
full c = c.capacity * token c

-- `min(capacity, tokens + max(0, now - updated_at) * rate)`
unfoldable pub refill : Config → Bucket → ℕ → ℕ
refill c b now = min (full c) (b.tokens + (now - b.updated_at) * c.rate_per_minute)

-- `RateLimitError(int(wait) + 1)`, whose constructor takes the maximum with 1; the wait is a
-- quotient by the rate
unfoldable pub retry_after : Config → ℕ → Verdict
retry_after c tokens =
    if c.rate_per_minute == 0
    then zero_division
    else limited (max 1 ((token c - tokens) / (c.ticks * c.rate_per_minute) + 1))

-- The part of `consume` that works on one bucket.
unfoldable pub charge : Config → Bucket → ℕ → Bucket × Verdict
charge c b now =
    let tokens = refill c b now in
    if leb (token c) tokens
    then (record { tokens = tokens - token c; updated_at = now }, accepted)
    else (record { tokens = tokens; updated_at = now }, retry_after c tokens)

module _ {K : Type 0} (dec : Discrete K) (c : Config) where
  -- `while self._buckets`: the oldest entries go while they are idle for longer than the TTL
  unfoldable pub drop_stale : ℕ → Dict K Bucket → Dict K Bucket
  drop_stale now [] = []
  drop_stale now ((k, b) ∷ rest) =
      let dropped = drop_stale now rest in
      if leb now (b.updated_at + c.idle_ttl) then (k, b) ∷ rest else dropped

  -- `popitem(last=False)` when the table is full
  unfoldable pub make_room : Dict K Bucket → Dict K Bucket
  make_room [] = []
  make_room (e ∷ rest) = if leb c.max_identities (length (e ∷ rest)) then rest else e ∷ rest

  -- The identity's bucket, and the table without it; it goes back at the end.
  unfoldable pub find_bucket : Dict K Bucket → K → ℕ → Dict K Bucket × Bucket
  unfolding make_room
  find_bucket live identity now = elim (get dec identity live) [
    | none ↦ (make_room live, record { tokens = full c; updated_at = now })
    | some b ↦ (pop dec identity live, b)
  ]

  unfoldable pub consume : Dict K Bucket → K → ℕ → Dict K Bucket × Verdict
  consume buckets identity now =
      let (others, b) = find_bucket (drop_stale now buckets) identity now in
      let (b', verdict) = charge c b now in (others ++ (identity, b') ∷ [], verdict)
