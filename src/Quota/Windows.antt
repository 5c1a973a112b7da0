-- ===== src/Quota/Windows.antt =====
-- providers/quota.py: what a budget admits within one window, over any history of calls.
use quick_price.Prelude.{
  ℕ, zero, suc, ◌+◌, ◌-◌, ◌*◌, ◌/◌, ◌≤◌, ◌<◌, ◌≡◌, ◌⊎◌, inl, inr, refl, ap, ◌∙◌, ℕ_discrete, Bool,
  true, false, not, ◌||◌, Option, some, none, List, [], ◌∷◌, arith, Bool-cases, ltb, ◌==◌,
  if◌then◌else◌, length,
}
use quick_price.Prelude.Int.{ℤ, pos, negsuc}
use quick_price.Quota.{
  Quota, Checkpoint, restores, restore, restore_fields, restore_count, is_some, start_for, Result,
  ok, err, Persistence, Call, acquires, asks, checkpoints, snapshots, roll, ceiling, acquire,
  can_acquire, checkpoint, snapshot, step, rolling_month_safe_daily_budget,
}

admitted : ℕ → Result Bool → ℕ
admitted cost (ok true) = cost
admitted cost (ok false) = 0
admitted cost (err e) = 0

-- The cost that one call is charged. With `allow` false only the calls that may not touch the
-- reserve are counted.
unfoldable pub charge : Bool → Quota → ℕ → Call → ℕ
unfolding admitted
charge allow q now (acquires p cost may) =
    if allow || not may then admitted cost (acquire p q cost may now).1 else 0
charge allow q now (asks cost may) = 0
charge allow q now checkpoints = 0
charge allow q now (restores s) = 0
charge allow q now snapshots = 0

-- What a history of timed calls charges to the window that starts at `w`.
unfoldable pub spent : Bool → ℕ → Quota → List (ℕ × Call) → ℕ
spent allow w q [] = 0
spent allow w q ((now, c) ∷ rest) =
    (if (step q now c).window_start == w then charge allow q now c else 0)
    + spent allow w (step q now c) rest

-- What the window that starts at `w` may still be charged.
allowance : Bool → ℕ → Quota → ℕ
unfolding ceiling
allowance allow w q =
    if w == q.window_start
    then ceiling q allow - q.used
    else if ltb w q.window_start
    then 0
    else ceiling q allow

-- A checkpoint of the window at `now` is not of an earlier window than the budget's, and if it is of
-- the budget's own, then it counts no less.
pub record NotBehind (q : Quota) (now : ℕ) (s : Checkpoint) : Type 0 where
  pub not_earlier :
      s.window_start ≡ some (start_for q.align_windows q.period now)
      → q.window_start ≤ start_for q.align_windows q.period now
  pub not_less :
      (used : ℕ) → s.window_start ≡ some q.window_start → s.used ≡ some (pos used) → q.used ≤ used

abbrev pub Keeps : Quota → ℕ → Call → Type 0
Keeps q now (restores s) = NotBehind q now s
Keeps q now _ = Unit

abbrev pub AllKeep : Quota → List (ℕ × Call) → Type 0
AllKeep q [] = Unit
AllKeep q ((now, c) ∷ rest) = Keeps q now c × AllKeep (step q now c) rest

abbrev Rewrites : Quota → ℕ → Option ℕ → Option ℤ → Quota → Type 0
Rewrites q now start count q' =
    (q' ≡ q)
    ⊎ ((used : ℕ) × (start ≡ some (start_for q.align_windows q.period now))
        × (count ≡ some (pos used))
        × (q' ≡ record q { window_start = start_for q.align_windows q.period now; used = used }))

count-Rewrites :
    (q : Quota) (start : ℕ) (count : ℤ) (now : ℕ)
    → Rewrites q now (some start) (some count) (restore_count q start count now).0
unfolding restore_count
count-Rewrites q start (negsuc n) now = inl refl
count-Rewrites q start (pos used) now =
    elim (Bool-cases (start == start_for q.align_windows q.period now)) [
      | inl e ↦
          let same : start ≡ start_for q.align_windows q.period now = ground arith in
          elim (Bool-cases (ltb now (start + q.period))) [
            | inl f ↦ rw (e, f) (inr (used, ap some same, refl, rw same refl))
            | inr f ↦ rw (e, f) (inl refl)
          ]
      | inr e ↦ rw e (inl refl)
    ]

fields-Rewrites :
    (q : Quota) (start : Option ℕ) (count : Option ℤ) (now : ℕ)
    → Rewrites q now start count (restore_fields q start count now).0
unfolding restore_fields
fields-Rewrites q none count now = inl refl
fields-Rewrites q (some start) none now = inl refl
fields-Rewrites q (some start) (some count) now = count-Rewrites q start count now

-- A restore changes nothing, or it writes the checkpoint's count to the window at `now`.
restore_cases :
    (q : Quota) (s : Checkpoint) (now : ℕ)
    → Rewrites q now s.window_start s.used (restore q s now).0
unfolding restore
restore_cases q s now = elim (Bool-cases (is_some s.version 1)) [
  | inr e ↦ rw e (inl refl)
  | inl e ↦ elim (Bool-cases (is_some s.limit q.limit)) [
    | inr f ↦ rw (e, f) (inl refl)
    | inl f ↦ elim (Bool-cases (is_some s.period q.period)) [
      | inr g ↦ rw (e, f, g) (inl refl)
      | inl g ↦ rw (e, f, g) (fields-Rewrites q s.window_start s.used now)
    ]
  ]
]

restore-period : (q : Quota) (s : Checkpoint) (now : ℕ) → (restore q s now).0.period ≡ q.period
restore-period q s now = elim (restore_cases q s now) [
  | inl same ↦ rw same refl
  | inr (used, start, count, written) ↦ rw written refl
]

moved-allowance :
    (allow : Bool) (w : ℕ) (q : Quota) (start used : ℕ)
    → q.window_start ≤ start
    → (start ≡ q.window_start → q.used ≤ used)
    → allowance allow w (record q { window_start = start; used = used }) ≤ allowance allow w q
unfolding allowance ceiling
moved-allowance allow w q start used l less = elim (ℕ_discrete start q.window_start) [
  | yes p ↦ let more = less p in ground arith
  | no p ↦ ground arith
]

restore-allowance :
    (allow : Bool) (w : ℕ) (q : Quota) (s : Checkpoint) (now : ℕ)
    → NotBehind q now s
    → allowance allow w (restore q s now).0 ≤ allowance allow w q
restore-allowance allow w q s now keeps = elim (restore_cases q s now) [
  | inl same ↦ rw same (omega arith)
  | inr (used, start, count, written) ↦ rw written (
      moved-allowance allow w q (start_for q.align_windows q.period now) used
        (keeps.not_earlier start) (λ p. keeps.not_less used (start ∙ ap some p) count))
]

allowance-roll :
    (allow : Bool) (w : ℕ) (q : Quota) (now : ℕ)
    → 0 < q.period
    → allowance allow w (roll q now) ≤ allowance allow w q
unfolding allowance roll
allowance-roll true w q now h = ground arith
allowance-roll false w q now h = ground arith

-- With the roll behind it, a call charges at most what it takes from the allowance.
acquire-allowance :
    (allow : Bool) (w : ℕ) (r : Quota) (cost : ℕ) (may : Bool)
    → (allow || not may) ≡ true
    → ltb (ceiling r may) (r.used + cost) ≡ false
    → (if r.window_start == w then cost else 0)
        + allowance allow w (record r { used = r.used + cost })
      ≤ allowance allow w r
unfolding allowance ceiling
acquire-allowance true w r cost true h k = ground arith
acquire-allowance true w r cost false h k = ground arith
acquire-allowance false w r cost false h k = ground arith
acquire-allowance false w r cost true h k = cc

ceiling-roll : (q : Quota) (now : ℕ) (b : Bool) → ceiling (roll q now) b ≡ ceiling q b
unfolding ceiling roll
ceiling-roll q now b = ground arith

-- The four ways in which a call of `acquire` ends.
acquire_cases :
    (p : Persistence) (q : Quota) (cost : ℕ) (may : Bool) (now : ℕ)
    → ((acquire p q cost may now).0 ≡ q) × (admitted cost (acquire p q cost may now).1 ≡ 0)
      ⊎ ((acquire p q cost may now).0 ≡ roll q now)
        × (admitted cost (acquire p q cost may now).1 ≡ 0)
      ⊎ ((acquire p q cost may now).0 ≡ record (roll q now) { used = (roll q now).used + cost })
        × (admitted cost (acquire p q cost may now).1 ≡ cost)
        × (ltb (ceiling q may) ((roll q now).used + cost) ≡ false)
unfolding acquire roll admitted
acquire_cases p q cost may now = ground arith

-- Charged to no window, a call leaves the allowance that its state has.
free-allowance :
    (allow counted : Bool) (w : ℕ) (q : Quota)
    → (if q.window_start == w then (if counted then 0 else 0) else 0) + allowance allow w q
      ≤ allowance allow w q
free-allowance allow counted w q = ground arith

-- A call that is not counted may still use up the allowance.
uncounted-allowance :
    (allow : Bool) (w : ℕ) (r : Quota) (cost : ℕ)
    → allowance allow w (record r { used = r.used + cost }) ≤ allowance allow w r
unfolding allowance ceiling
uncounted-allowance true w r cost = ground arith
uncounted-allowance false w r cost = ground arith

counted-allowance :
    (allow : Bool) (w : ℕ) (r : Quota) (cost : ℕ) (may : Bool)
    → ltb (ceiling r may) (r.used + cost) ≡ false
    → (if r.window_start == w then (if allow || not may then cost else 0) else 0)
        + allowance allow w (record r { used = r.used + cost })
      ≤ allowance allow w r
counted-allowance allow w r cost may h = elim (Bool-cases (allow || not may)) [
  | inl e ↦ rw e (acquire-allowance allow w r cost may e h)
  | inr e ↦ rw e (ground (arith, uncounted-allowance allow w r cost))
]

charge-allowance :
    (allow : Bool) (w : ℕ) (q : Quota) (now : ℕ) (c : Call)
    → 0 < q.period
    → Keeps q now c
    → (if (step q now c).window_start == w then charge allow q now c else 0)
        + allowance allow w (step q now c)
      ≤ allowance allow w q
unfolding step charge can_acquire checkpoint snapshot
charge-allowance allow w q now (acquires p cost may) h keeps =
    elim (acquire_cases p q cost may now) [
      | inl (same, free) ↦ rw (same, free) (free-allowance allow (allow || not may) w q)
      | inr (inl (rolled, free)) ↦
          rw (rolled, free)
            (omega (
              arith,
              free-allowance allow (allow || not may) w (roll q now),
              allowance-roll allow w q now h,
            ))
      | inr (inr (charged, paid, fits)) ↦
          rw (charged, paid)
            (omega (
              arith,
              counted-allowance allow w (roll q now) cost may (rw ceiling-roll fits),
              allowance-roll allow w q now h,
            ))
    ]
charge-allowance allow w q now (asks cost may) h keeps =
    ground (arith, allowance-roll allow w q now)
charge-allowance allow w q now checkpoints h keeps = ground (arith, allowance-roll allow w q now)
charge-allowance allow w q now (restores s) h keeps =
    ground (arith, restore-allowance allow w q s now keeps)
charge-allowance allow w q now snapshots h keeps = ground (arith, allowance-roll allow w q now)

step-period : (q : Quota) (now : ℕ) (c : Call) → (step q now c).period ≡ q.period
unfolding step can_acquire checkpoint snapshot roll
step-period q now (acquires p cost may) = elim (acquire_cases p q cost may now) [
  | inl (same, free) ↦ rw same
  | inr (inl (rolled, free)) ↦ rw rolled (ground arith)
  | inr (inr (charged, paid, fits)) ↦ rw charged (ground arith)
]
step-period q now (asks cost may) = ground arith
step-period q now checkpoints = ground arith
step-period q now (restores s) = restore-period q s now
step-period q now snapshots = ground arith

spent-allowance :
    (allow : Bool) (w : ℕ) (q : Quota) (calls : List (ℕ × Call))
    → 0 < q.period
    → AllKeep q calls
    → spent allow w q calls ≤ allowance allow w q
unfolding spent
spent-allowance allow w q [] h keeps = omega arith
spent-allowance allow w q ((now, c) ∷ rest) h keeps = omega (
  arith,
  charge-allowance allow w q now c h keeps.0,
  spent-allowance allow w (step q now c) rest (omega (arith, step-period q now c)) keeps.1,
)

-- Whatever calls are made at whatever times, restores included if none takes the budget back to an
-- earlier window or to a lower count of its window, the window that starts at `w` is charged at most
-- the limit by all calls together, and at most the limit less the reserve by the calls that may not
-- touch the reserve.
pub spent-le-limit :
    (w : ℕ) (q : Quota) (calls : List (ℕ × Call))
    → 0 < q.period
    → AllKeep q calls
    → (spent true w q calls ≤ q.limit) × (spent false w q calls ≤ q.limit - q.reserve)
unfolding allowance ceiling
spent-le-limit w q calls h keeps = (
  ground (arith, spent-allowance true w q calls h keeps),
  ground (arith, spent-allowance false w q calls h keeps),
)

-- What a history charges to all the windows of a list together.
unfoldable pub spent_over : List ℕ → Quota → List (ℕ × Call) → ℕ
spent_over [] q calls = 0
spent_over (w ∷ ws) q calls = spent true w q calls + spent_over ws q calls

spent_over-le :
    (ws : List ℕ) (q : Quota) (calls : List (ℕ × Call)) (n : ℕ)
    → 0 < q.period
    → AllKeep q calls
    → length ws ≤ n
    → spent_over ws q calls ≤ n * q.limit
unfolding spent_over
spent_over-le [] q calls n h keeps k = omega arith
spent_over-le (w ∷ ws) q calls zero h keeps k = absurd (omega arith)
spent_over-le (w ∷ ws) q calls (suc n) h keeps k =
    omega (
      arith,
      spent_over-le ws q calls n h keeps (omega arith),
      (spent-le-limit w q calls h keeps).0,
    )

month-shape :
    (limit reserve now : ℕ) (q : Quota)
    → rolling_month_safe_daily_budget limit reserve now ≡ ok q
    → (0 < q.period) × (q.limit ≡ limit / 31)
unfolding rolling_month_safe_daily_budget
month-shape limit reserve now q h = ground arith

-- Any 31 daily windows of a monthly-safe budget, and so any 30 days, are charged at most the
-- monthly limit together, if no restore takes the budget back to an earlier window or to a lower
-- count of its window.
pub rolling_month-le-limit :
    (limit reserve now : ℕ) (q : Quota) (ws : List ℕ) (calls : List (ℕ × Call))
    → rolling_month_safe_daily_budget limit reserve now ≡ ok q
    → AllKeep q calls
    → length ws ≤ 31
    → spent_over ws q calls ≤ limit
rolling_month-le-limit limit reserve now q ws calls h keeps k = omega (
  arith,
  spent_over-le ws q calls 31 (month-shape limit reserve now q h).0 keeps k,
  (month-shape limit reserve now q h).1,
)
