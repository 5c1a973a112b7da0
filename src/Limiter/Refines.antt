-- ===== src/Limiter/Refines.antt =====
-- auth.py, `TokenBucketLimiter`: while it has room, the bounded table behaves as one everlasting
-- bucket for each identity, all of them full at the start.
use quick_price.Prelude.{
  ℕ, ◌+◌, ◌*◌, ◌-◌, ◌≤◌, ◌<◌, ◌≡◌, refl, ◌⊎◌, inl, inr, none, some, List, [], ◌∷◌, arith, ap, ◌∙◌,
  ite, if_pos, if_neg, length,
}
use native.Mathlib.Nat.{mul-le-mul_right}
use quick_price.Prelude.Dict.{Dict, get, pop, Unique, get-append_new, get-pop_self, get-pop}
use quick_price.Limiter.{
  Bucket, Config, Verdict, full, refill, charge, drop_stale, make_room, find_bucket, consume,
}
use quick_price.Limiter.Table.{get-drop_stale, IsTable, consume-IsTable}

-- A bucket that nothing has taken from yet, or that is full again.
abbrev pub IsFull : Config → Bucket → ℕ → Type 0
IsFull c b now = refill c b now ≡ full c

charge-full :
    (c : Config) (b : Bucket) (now : ℕ)
    → IsFull c b now
    → charge c (record { tokens = full c; updated_at = now }) now ≡ charge c b now
unfolding charge refill
charge-full c b now h = ground arith

IsFull-later :
    (c : Config) (b : Bucket) (now later : ℕ) → now ≤ later → IsFull c b now → IsFull c b later
unfolding refill
IsFull-later c b now later l h =
    let more : (now - b.updated_at) * c.rate_per_minute
        ≤ (later - b.updated_at) * c.rate_per_minute =
      mul-le-mul_right c.rate_per_minute (omega arith) in
    omega arith

-- A bucket that was idle for the TTL is full, if the TTL is long enough to fill it.
stale-IsFull :
    (c : Config) (b : Bucket) (now : ℕ)
    → full c ≤ c.idle_ttl * c.rate_per_minute
    → b.updated_at + c.idle_ttl < now
    → IsFull c b now
unfolding refill
stale-IsFull c b now h l =
    let more : c.idle_ttl * c.rate_per_minute ≤ (now - b.updated_at) * c.rate_per_minute =
      mul-le-mul_right c.rate_per_minute (omega arith) in
    omega arith

module _ {K : Type 0} (dec : Discrete K) (c : Config) where
  -- The abstract limiter: a bucket for each identity, of which a call charges one.
  abbrev pub Buckets : Type 0
  Buckets = K → Bucket

  unfoldable pub charge_one : Buckets → K → ℕ → Buckets
  charge_one s k now j = ite (dec k j) (charge c (s k) now).0 (s j)

  -- The table holds an identity's bucket, or that bucket is full by now.
  abbrev pub Holds : Dict K Bucket → Buckets → ℕ → K → Type 0
  Holds l s now j = (get dec j l ≡ some (s j)) ⊎ (get dec j l ≡ none) × IsFull c (s j) now

  drop_stale-Holds :
      (l : Dict K Bucket) (s : Buckets) (prev now : ℕ) (j : K)
      → Unique dec l
      → full c ≤ c.idle_ttl * c.rate_per_minute
      → prev ≤ now
      → Holds l s prev j
      → Holds (drop_stale dec c now l) s now j
  drop_stale-Holds l s prev now j u enough le (inl e) = elim (get-drop_stale dec c now j l u) [
    | inl same ↦ inl (same ∙ e)
    | inr (b, f, stale, gone) ↦
        let b_is : b ≡ s j = cc in inr (gone, stale-IsFull c (s j) now enough (rw b_is at stale))
  ]
  drop_stale-Holds l s prev now j u enough le (inr (e, f)) = elim (get-drop_stale dec c now j l u) [
    | inl same ↦ inr (same ∙ e, IsFull-later c (s j) prev now le f)
    | inr (b, found, stale, gone) ↦ absurd (cc)
  ]

  make_room_lt : (l : Dict K Bucket) → length l < c.max_identities → make_room dec c l ≡ l
  unfolding make_room
  make_room_lt [] h = refl
  make_room_lt (e ∷ l) h = ground arith

  find_bucket_room :
      (l : Dict K Bucket) (s : Buckets) (k : K) (now : ℕ)
      → length l < c.max_identities
      → Holds l s now k
      → (charge c (find_bucket dec c l k now).1 now ≡ charge c (s k) now)
        × ((j : K) → get dec j (find_bucket dec c l k now).0 ≡ get dec j (pop dec k l))
  unfolding find_bucket
  find_bucket_room l s k now room (inl e) = rw (e, find_bucket) (refl, λ j. refl)
  find_bucket_room l s k now room (inr (e, f)) =
      rw (e, find_bucket)
        (
          charge-full c (s k) now f,
          λ j. rw (make_room_lt l room) (ground (arith, get-pop dec k j l, ap (λ i. get dec i l))),
        )

  after_charge :
      (l : Dict K Bucket) (s : Buckets) (k : K) (now : ℕ) (j : K)
      → Holds l s now j
      → (ite (dec k j) (some (charge c (s k) now).0) (get dec j (pop dec k l))
          ≡ some (ite (dec k j) (charge c (s k) now).0 (s j)))
        ⊎ (ite (dec k j) (some (charge c (s k) now).0) (get dec j (pop dec k l)) ≡ none)
          × IsFull c (ite (dec k j) (charge c (s k) now).0 (s j)) now
  after_charge l s k now j h = elim (dec k j) [
    | yes p ↦ rw (if_pos _ p) (inl (rw (if_pos _ p)))
    | no p ↦ rw (if_neg _ p) (rw get-pop (rw (if_neg _ p) (rw (if_neg _ p) h)))
  ]

  -- What one call leaves, under the same assumptions: the table is that of the charged buckets.
  pub consume-Holds :
      (l : Dict K Bucket) (s : Buckets) (prev now : ℕ) (k : K)
      → Unique dec l
      → full c ≤ c.idle_ttl * c.rate_per_minute
      → prev ≤ now
      → length (drop_stale dec c now l) < c.max_identities
      → ((j : K) → Holds l s prev j)
      → ((consume dec c l k now).1 ≡ (charge c (s k) now).1)
        × ((j : K) → Holds (consume dec c l k now).0 (charge_one s k now) now j)
  unfolding consume charge_one
  consume-Holds l s prev now k u enough le room h =
      let live : Dict K Bucket = drop_stale dec c now l in
      let at_now : (j : K) → Holds live s now j =
        λ j. drop_stale-Holds l s prev now j u enough le (h j) in
      let (same, others) = find_bucket_room live s k now room (at_now k) in
      let absent : get dec k (find_bucket dec c live k now).0 ≡ none =
        others k ∙ get-pop_self dec k live in
      (
        ap (λ r. r.1) same,
        λ j.
            rw (get-append_new dec k j _ (find_bucket dec c live k now).0 absent, same, others j)
              (after_charge live s k now j (at_now j)),
      )

  -- The verdicts of a sequence of calls, in the table and in the abstract limiter.
  unfoldable pub verdicts : Dict K Bucket → List (K × ℕ) → List Verdict
  verdicts l [] = []
  verdicts l ((k, now) ∷ rest) = (consume dec c l k now).1 ∷ verdicts (consume dec c l k now).0 rest

  unfoldable pub ideal_verdicts : Buckets → List (K × ℕ) → List Verdict
  ideal_verdicts s [] = []
  ideal_verdicts s ((k, now) ∷ rest) =
      (charge c (s k) now).1 ∷ ideal_verdicts (charge_one s k now) rest

  -- The clock does not run backwards, and no call meets a full table.
  abbrev pub Roomy : ℕ → Dict K Bucket → List (K × ℕ) → Type 0
  Roomy prev l [] = Unit
  Roomy prev l ((k, now) ∷ rest) =
      (prev ≤ now)
      × (length (drop_stale dec c now l) < c.max_identities)
      × Roomy now (consume dec c l k now).0 rest

  verdicts-ideal :
      (l : Dict K Bucket) (s : Buckets) (prev : ℕ) (calls : List (K × ℕ))
      → 0 < c.max_identities
      → full c ≤ c.idle_ttl * c.rate_per_minute
      → IsTable dec c l
      → ((j : K) → Holds l s prev j)
      → Roomy prev l calls
      → verdicts l calls ≡ ideal_verdicts s calls
  unfolding verdicts ideal_verdicts
  verdicts-ideal l s prev [] p enough t h room = refl
  verdicts-ideal l s prev ((k, now) ∷ rest) p enough t h (le, some_room, later) =
      let (same, holds) = consume-Holds l s prev now k t.unique enough le some_room h in
      rw same (
        ap (λ r. (charge c (s k) now).1 ∷ r)
          (verdicts-ideal (consume dec c l k now).0 (charge_one s k now) now rest p enough
            (consume-IsTable dec c l k now p t) holds later))

  -- From an empty table, as long as no call meets a full table and the idle TTL is long enough to
  -- fill a bucket, every verdict is that of one bucket for each identity, full at the start, that
  -- is never dropped.
  pub verdicts-eq-ideal :
      (start : ℕ) (calls : List (K × ℕ))
      → 0 < c.max_identities
      → full c ≤ c.idle_ttl * c.rate_per_minute
      → Roomy start [] calls
      → verdicts [] calls
        ≡ ideal_verdicts (λ _. record { tokens = full c; updated_at = start }) calls
  verdicts-eq-ideal start calls p enough room =
      verdicts-ideal [] (λ _. record { tokens = full c; updated_at = start }) start calls p enough
        (record { unique = tt; bounded = omega arith })
        (λ j. inr ((unfold get in refl), (unfold refill in omega arith))) room
