-- ===== src/RateGate/Window.antt =====
-- providers/quota.py, `SlidingWindowRateGate`: no window is ever overfull, and a sleep suffices.
use quick_price.Prelude.{
  ℕ, ◌+◌, ◌≤◌, ◌<◌, ◌≡◌, ◌∙◌, ◌⊎◌, refl, Bool, true, false, some, inl, inr, List, [], ◌∷◌, ◌++◌,
  arith, ltb, if◌then◌else◌, length, All, length-append,
}
use quick_price.RateGate.{
  Gate, Attempt, admitted, wait, expire, delay, attempt, acquire, is_admitted, granted,
}

-- How many of the times lie less than a period before `t`.
unfoldable pub recent : ℕ → ℕ → List ℕ → ℕ
recent period t [] = 0
recent period t (e ∷ es) = (if ltb t (e + period) then 1 else 0) + recent period t es

recent-append : (p t : ℕ) (xs ys : List ℕ) → recent p t (xs ++ ys) ≡ recent p t xs + recent p t ys
unfolding recent
recent-append p t [] ys = omega arith
recent-append p t (x ∷ xs) ys = omega (arith, recent-append p t xs ys)

recent-le-length : (p t : ℕ) (xs : List ℕ) → recent p t xs ≤ length xs
unfolding recent
recent-le-length p t [] = omega arith
recent-le-length p t (x ∷ xs) = ground (arith, recent-le-length p t xs)

-- What a round drops is no longer recent, then or later.
recent-expire : (p now t : ℕ) (es : List ℕ) → now ≤ t → recent p t (expire p now es) ≡ recent p t es
unfolding recent expire
recent-expire p now t [] h = refl
recent-expire p now t (e ∷ es) h = ground (arith, recent-expire p now t es)

length-expire-le : (p now : ℕ) (es : List ℕ) → length (expire p now es) ≤ length es
unfolding expire
length-expire-le p now [] = omega arith
length-expire-le p now (e ∷ es) = ground (arith, length-expire-le p now es)

pub record IsBounded (g : Gate) : Type 0 where
  pub at_most : length g.events ≤ g.limit

-- A round keeps at most `limit` events.
pub attempt-IsBounded : (g : Gate) (now : ℕ) → IsBounded g → IsBounded (attempt g now).0
unfolding attempt
attempt-IsBounded g now h = record {
  at_most = ground (
    arith,
    length-expire-le g.period now g.events,
    length-append (expire g.period now g.events) (now ∷ []),
  );
}

attempt-period : (g : Gate) (now : ℕ) → (attempt g now).0.period ≡ g.period
unfolding attempt
attempt-period g now = ground arith

attempt-limit : (g : Gate) (now : ℕ) → (attempt g now).0.limit ≡ g.limit
unfolding attempt
attempt-limit g now = ground arith

-- A round adds to the recent events exactly what it grants.
attempt-recent :
    (p : ℕ) (g : Gate) (now t : ℕ)
    → g.period ≡ p
    → now ≤ t
    → recent p t (attempt g now).0.events
      ≡ recent p t g.events + (if is_admitted (attempt g now).1 then recent p t (now ∷ []) else 0)
unfolding attempt is_admitted
attempt-recent p g now t e h =
    ground
      (arith, recent-expire p now t g.events, recent-append p t (expire p now g.events) (now ∷ []))

recent-if :
    (p t now : ℕ) (b : Bool) (later : List ℕ)
    → recent p t (if b then now ∷ later else later)
      ≡ (if b then recent p t (now ∷ []) else 0) + recent p t later
unfolding recent
recent-if p t now true later = omega arith
recent-if p t now false later = omega arith

granted-recent :
    (p limit : ℕ) (g : Gate) (times : List ℕ) (t : ℕ)
    → g.period ≡ p
    → g.limit ≡ limit
    → IsBounded g
    → All (λ now. now ≤ t) times
    → recent p t g.events + recent p t (granted g times) ≤ limit
unfolding granted
granted-recent p limit g [] t hp hl b h =
    unfold recent in omega (arith, recent-le-length p t g.events)
granted-recent p limit g (now ∷ rest) t hp hl b h = rw recent-if (
    omega (
      arith,
      attempt-recent p g now t hp h.0,
      granted-recent p limit (attempt g now).0 rest t (attempt-period g now ∙ hp)
          (attempt-limit g now ∙ hl) (attempt-IsBounded g now b) h.1,
    ))

-- However the tasks' rounds interleave, at any moment `t` that no round is after, at most `limit`
-- admissions lie within the period that ends at `t`.
pub granted-le-limit :
    (g : Gate) (times : List ℕ) (t : ℕ)
    → IsBounded g
    → All (λ now. now ≤ t) times
    → recent g.period t (granted g times) ≤ g.limit
granted-le-limit g times t b h =
    omega (arith, granted-recent g.period g.limit g times t refl refl b h)

-- When the sleep that a full gate asks for is over, its oldest event has expired.
expire-after_delay :
    (p limit now later : ℕ) (live : List ℕ)
    → 0 < limit
    → length live ≤ limit
    → ltb (length live) limit ≡ false
    → now + delay p now live ≤ later
    → ltb (length (expire p later live)) limit ≡ true
unfolding expire delay
expire-after_delay p limit now later [] h k full l = ground arith
expire-after_delay p limit now later (e ∷ es) h k full l =
    ground (arith, length-expire-le p later es)

-- A round that is told to wait `d` is followed, after a sleep of `d`, by one that is admitted.
attempt-after_wait :
    (g : Gate) (now later d : ℕ)
    → 0 < g.limit
    → IsBounded g
    → (attempt g now).1 ≡ wait d
    → now + d ≤ later
    → (attempt (attempt g now).0 later).1 ≡ admitted
unfolding attempt
attempt-after_wait g now later d h b e l = ground (
  arith,
  length-expire-le g.period now g.events,
  expire-after_delay g.period g.limit now later (expire g.period now g.events),
)

attempt_cases : (r : Attempt) → (r ≡ admitted) ⊎ ((d : ℕ) × (r ≡ wait d))
attempt_cases admitted = inl refl
attempt_cases (wait d) = inr (d, refl)

-- A task that is alone gets in after at most one sleep that lasts as long as it was told to.
pub acquire_after_one_sleep :
    (g : Gate) (now : ℕ) (wake : ℕ → ℕ → ℕ)
    → 0 < g.limit
    → IsBounded g
    → ((d : ℕ) → now + d ≤ wake now d)
    → (r : Gate × ℕ) × (acquire 2 wake g now ≡ some r)
unfolding acquire
acquire_after_one_sleep g now wake h b w = elim (attempt_cases (attempt g now).1) [
  | inl e ↦ (((attempt g now).0, now), rw (e, acquire))
  | inr (d, e) ↦
      let later : ℕ = wake now d in
      (
        ((attempt (attempt g now).0 later).0, later),
        rw (e, acquire) (rw (attempt-after_wait g now later d h b e (w d), acquire)),
      )
]
