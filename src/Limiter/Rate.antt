-- ===== src/Limiter/Rate.antt =====
-- auth.py, `TokenBucketLimiter`: what one bucket admits over time.
use quick_price.Prelude.{ℕ, ◌+◌, ◌-◌, ◌*◌, ◌/◌, ◌≤◌, ◌<◌, ◌≡◌, ap, List, [], ◌∷◌, arith, dec_lt}
use native.Mathlib.Nat.{lt-div-mul-add, mul-pos, mul-le-mul_right}
use quick_price.Limiter.{
  Bucket, Config, Verdict, accepted, limited, zero_division, token, full, refill, retry_after,
  charge,
}

is_accepted : Verdict → ℕ
is_accepted accepted = 1
is_accepted (limited n) = 0
is_accepted zero_division = 0

-- How many of a sequence of attempts on one bucket are accepted.
unfoldable pub accepted_of : Config → Bucket → List ℕ → ℕ
unfolding is_accepted
accepted_of c b [] = 0
accepted_of c b (now ∷ rest) =
    is_accepted (charge c b now).1 + accepted_of c (charge c b now).0 rest

-- The attempts come in order, from `from` up to `until`.
abbrev pub Ordered : ℕ → ℕ → List ℕ → Type 0
Ordered from until [] = from ≤ until
Ordered from until (t ∷ ts) = (from ≤ t) × Ordered t until ts

retry_after-rejects : (c : Config) (n : ℕ) → is_accepted (retry_after c n) ≡ 0
unfolding retry_after is_accepted
retry_after-rejects c n = ground arith

refill-le : (c : Config) (b : Bucket) (now : ℕ) → refill c b now ≤ full c
unfolding refill
refill-le c b now = omega arith

refill-gain :
    (c : Config) (b : Bucket) (now : ℕ)
    → refill c b now ≤ b.tokens + (now - b.updated_at) * c.rate_per_minute
unfolding refill
refill-gain c b now = omega arith

-- What an attempt takes out of the bucket and what it leaves are what the bucket held.
charge-parts :
    (c : Config) (b : Bucket) (now : ℕ)
    → (charge c b now).0.tokens + is_accepted (charge c b now).1 * token c ≡ refill c b now
unfolding charge is_accepted
charge-parts c b now = ground (arith, retry_after-rejects c (refill c b now))

charge-updated : (c : Config) (b : Bucket) (now : ℕ) → (charge c b now).0.updated_at ≡ now
unfolding charge
charge-updated c b now = ground arith

Ordered-bounds : (from until : ℕ) (ts : List ℕ) → Ordered from until ts → from ≤ until
Ordered-bounds from until [] h = h
Ordered-bounds from until (t ∷ ts) h = omega (arith, Ordered-bounds t until ts h.1)

span_split :
    (c : Config) (u t v : ℕ)
    → u ≤ t
    → t ≤ v
    → (t - u) * c.rate_per_minute + (v - t) * c.rate_per_minute ≡ (v - u) * c.rate_per_minute
span_split c u t v h k =
    let e : (t - u) + (v - t) ≡ v - u = omega arith in
    omega (arith, ap (λ n. n * c.rate_per_minute) e)

accepted_of-tokens :
    (c : Config) (b : Bucket) (until : ℕ) (ts : List ℕ)
    → Ordered b.updated_at until ts
    → accepted_of c b ts * token c ≤ b.tokens + (until - b.updated_at) * c.rate_per_minute
unfolding accepted_of
accepted_of-tokens c b until [] h = omega arith
accepted_of-tokens c b until (t ∷ ts) h = omega (
  arith,
  accepted_of-tokens c (charge c b t).0 until ts (rw charge-updated h.1),
  charge-updated c b t,
  charge-parts c b t,
  refill-gain c b t,
  span_split c b.updated_at t until h.0 (Ordered-bounds t until ts h.1),
  ap (λ u. (until - u) * c.rate_per_minute) (charge-updated c b t),
)

-- Over any span of time a bucket accepts at most its capacity and what it gains in that time, in
-- parts of a token.
pub accepted_of-le :
    (c : Config) (b : Bucket) (until : ℕ) (ts : List ℕ)
    → b.tokens ≤ full c
    → Ordered b.updated_at until ts
    → accepted_of c b ts * token c ≤ full c + (until - b.updated_at) * c.rate_per_minute
accepted_of-le c b until ts h o = omega (arith, accepted_of-tokens c b until ts o)

retry_after-value :
    (c : Config) (n r : ℕ)
    → retry_after c n ≡ limited r
    → (0 < c.rate_per_minute) × (r ≡ (token c - n) / (c.ticks * c.rate_per_minute) + 1)
unfolding retry_after
retry_after-value c n r h = ground arith

retry_after-lasts :
    (c : Config) (n r : ℕ)
    → 0 < c.ticks
    → retry_after c n ≡ limited r
    → token c ≤ n + r * c.ticks * c.rate_per_minute
retry_after-lasts c n r t h = elim (dec_lt 0 (c.ticks * c.rate_per_minute)) [
  | yes p ↦ omega (
    arith,
    lt-div-mul-add {a = token c - n} p,
    ap (λ k. k * (c.ticks * c.rate_per_minute)) (retry_after-value c n r h).1,
  )
  | no p ↦ absurd (p (mul-pos t (retry_after-value c n r h).0))
]

charge-limited :
    (c : Config) (b : Bucket) (now r : ℕ)
    → (charge c b now).1 ≡ limited r
    → retry_after c (charge c b now).0.tokens ≡ limited r
unfolding charge
charge-limited c b now r h = ground arith

-- A bucket that holds a token after its refill accepts.
charge-accepts :
    (c : Config) (b : Bucket) (now : ℕ) → token c ≤ refill c b now → (charge c b now).1 ≡ accepted
unfolding charge
charge-accepts c b now h = ground arith

refill-ge :
    (c : Config) (b : Bucket) (now span : ℕ)
    → 0 < c.capacity
    → b.updated_at + span ≤ now
    → token c ≤ b.tokens + span * c.rate_per_minute
    → token c ≤ refill c b now
unfolding refill
refill-ge c b now span p l h =
    let more : span * c.rate_per_minute ≤ (now - b.updated_at) * c.rate_per_minute =
      mul-le-mul_right c.rate_per_minute (omega arith) in
    let one_fits : 1 * token c ≤ c.capacity * token c = mul-le-mul_right (token c) p in omega arith

-- A caller who waits for the seconds that the rate-limit error names is accepted.
pub charge-after_wait :
    (c : Config) (b : Bucket) (now later r : ℕ)
    → 0 < c.capacity
    → 0 < c.ticks
    → (charge c b now).1 ≡ limited r
    → now + r * c.ticks ≤ later
    → (charge c (charge c b now).0 later).1 ≡ accepted
charge-after_wait c b now later r h t e l =
    let b' = (charge c b now).0 in
    charge-accepts c b' later (
      refill-ge c b' later (r * c.ticks) h (rw charge-updated l)
        (retry_after-lasts c b'.tokens r t (charge-limited c b now r e)))
