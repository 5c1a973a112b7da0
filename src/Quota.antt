-- ===== src/Quota.antt =====
-- providers/quota.py, class `QuotaBudget`: a fixed-window quota with a hard reserve.
-- Times are natural numbers in one unit; the clock's reading is an argument `now`. Every method
-- runs under one lock from its first read to its last write (the await of the persistence
-- callback included), so a history of the object is a sequence of whole calls, `run`.
pub mod Windows
pub mod Durable
mod Scenarios
use quick_price.Prelude.{
  ℕ, ◌+◌, ◌-◌, ◌/◌, ◌%◌, Bool, true, false, not, ◌&&◌, ◌||◌, Option, none, some, ltb, leb, ◌==◌,
  if◌then◌else◌,
}
use quick_price.Prelude.Int.{ℤ, pos, negsuc}

pub record Quota : Type 0 where
  pub limit : ℕ
  pub period : ℕ
  pub reserve : ℕ
  pub align_windows : Bool
  pub window_start : ℕ
  pub used : ℕ

-- The durable form of the counter, as `_state` writes it. `restore` reads a mapping, in which a
-- key may be missing; `used` may be any integer there.
pub record Checkpoint : Type 0 where
  pub version : Option ℕ
  pub limit : Option ℕ
  pub period : Option ℕ
  pub reserve : Option ℕ
  pub window_start : Option ℕ
  pub used : Option ℤ

pub data Error : Type 0 where
  bad_limit bad_reserve bad_cost not_persisted bad_version other_limit other_period missing_key
        negative_usage :
      Error

pub data Result {ℓ} (A : Type ℓ) : Type ℓ where
  ok : A → Result A
  err : Error → Result A

-- `now - (now % period)` or `now`
unfoldable pub start_for : Bool → ℕ → ℕ → ℕ
start_for align period now = if align then now - now % period else now

unfoldable pub new : ℕ → ℕ → ℕ → Bool → ℕ → Result Quota
unfolding start_for
new limit period reserve align now =
    if limit == 0 || period == 0
    then err bad_limit
    else if not (ltb reserve limit)
    then err bad_reserve
    else ok (record {
      limit = limit;
      period = period;
      reserve = reserve;
      align_windows = align;
      window_start = start_for align period now;
      used = 0;
    })

unfoldable pub roll : Quota → ℕ → Quota
unfolding start_for
roll q now =
    if leb (q.window_start + q.period) now
    then record q { window_start = start_for q.align_windows q.period now; used = 0 }
    else q

unfoldable pub ceiling : Quota → Bool → ℕ
ceiling q allow_reserve = if allow_reserve then q.limit else q.limit - q.reserve

unfoldable pub state : Quota → Checkpoint
state q = record {
  version = some 1;
  limit = some q.limit;
  period = some q.period;
  reserve = some q.reserve;
  window_start = some q.window_start;
  used = some (pos q.used);
}

-- The callback answers whether the state was stored; it raises where it answers `false`.
abbrev pub Persistence : Type 0
Persistence = Option (Checkpoint → Bool)

unfoldable pub persisted : Persistence → Checkpoint → Bool
persisted none s = true
persisted (some callback) s = callback s

-- A failed write restores the start and the count from before the roll.
unfoldable pub acquire : Persistence → Quota → ℕ → Bool → ℕ → Quota × Result Bool
acquire persistence q cost allow_reserve now =
    if cost == 0
    then (q, err bad_cost)
    else (let r = roll q now in
        let charged : Quota = record r { used = r.used + cost } in
        if ltb (ceiling q allow_reserve) (r.used + cost)
        then (r, ok false)
        else if persisted persistence (state charged)
        then (charged, ok true)
        else (record r { window_start = q.window_start; used = q.used }, err not_persisted))

unfoldable pub can_acquire : Quota → ℕ → Bool → ℕ → Quota × Result Bool
can_acquire q cost allow_reserve now =
    if cost == 0
    then (q, err bad_cost)
    else (let r = roll q now in (r, ok (leb (r.used + cost) (ceiling q allow_reserve))))

unfoldable pub checkpoint : Quota → ℕ → Quota × Checkpoint
checkpoint q now = (roll q now, state (roll q now))

unfoldable pub is_some : Option ℕ → ℕ → Bool
is_some none n = false
is_some (some m) n = m == n

-- the tail of `restore`, from the test on `used` on
unfoldable pub restore_count : Quota → ℕ → ℤ → ℕ → Quota × Result (Unit {0})
unfolding start_for
restore_count q start (negsuc n) now = (q, err negative_usage)
restore_count q start (pos used) now =
    if start == start_for q.align_windows q.period now && ltb now (start + q.period)
    then (record q { window_start = start; used = used }, ok tt)
    else (q, ok tt)

unfoldable pub restore_fields : Quota → Option ℕ → Option ℤ → ℕ → Quota × Result (Unit {0})
unfolding restore_count
restore_fields q (some start) (some used) now = restore_count q start used now
restore_fields q none used now = (q, err missing_key)
restore_fields q (some start) none now = (q, err missing_key)

unfoldable pub restore : Quota → Checkpoint → ℕ → Quota × Result (Unit {0})
unfolding is_some restore_fields
restore q s now =
    if not (is_some s.version 1)
    then (q, err bad_version)
    else if not (is_some s.limit q.limit)
    then (q, err other_limit)
    else if not (is_some s.period q.period)
    then (q, err other_period)
    else restore_fields q s.window_start s.used now

pub record QuotaSnapshot : Type 0 where
  pub limit : ℕ
  pub used : ℕ
  pub remaining : ℕ
  pub resets_at : ℕ

-- `max(0, limit - used)` is the truncated difference.
unfoldable pub snapshot : Quota → ℕ → Quota × QuotaSnapshot
snapshot q now =
    let r = roll q now in
    (
      r,
      record {
        limit = q.limit;
        used = r.used;
        remaining = q.limit - r.used;
        resets_at = r.window_start + q.period;
      },
    )

-- `daily_budget`, `minute_budget` and `rolling_month_safe_daily_budget`
unfoldable pub daily_budget : ℕ → ℕ → ℕ → Result Quota
unfolding new
daily_budget limit reserve now = new limit 86_400 reserve true now

unfoldable pub minute_budget : ℕ → ℕ → Result Quota
unfolding new
minute_budget limit now = new limit 60 0 true now

unfoldable pub rolling_month_safe_daily_budget : ℕ → ℕ → ℕ → Result Quota
unfolding daily_budget
rolling_month_safe_daily_budget limit reserve now =
    if ltb limit 31 then err bad_limit else daily_budget (limit / 31) reserve now

-- One call on a shared budget.
pub data Call : Type 0 where
  acquires : Persistence → ℕ → Bool → Call
  asks : ℕ → Bool → Call
  checkpoints : Call
  restores : Checkpoint → Call
  snapshots : Call

unfoldable pub step : Quota → ℕ → Call → Quota
unfolding acquire can_acquire checkpoint restore snapshot
step q now (acquires p cost allow) = (acquire p q cost allow now).0
step q now (asks cost allow) = (can_acquire q cost allow now).0
step q now checkpoints = (checkpoint q now).0
step q now (restores s) = (restore q s now).0
step q now snapshots = (snapshot q now).0
