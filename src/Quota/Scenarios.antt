-- ===== src/Quota/Scenarios.antt =====
-- Runs of a quota budget on concrete calls.
use quick_price.Prelude.{ℕ, ◌≤◌, ◌≡◌, refl, true, false, none, List, [], ◌∷◌, ◌++◌, ◌-◌, arith}
use quick_price.Quota.{
  Quota, ok, Call, acquires, restores, state, new, roll, ceiling, start_for, persisted, step,
  acquire, checkpoint, restore, rolling_month_safe_daily_budget,
}
use quick_price.Quota.Windows.{
  charge, spent, AllKeep, spent-le-limit, spent_over, rolling_month-le-limit,
}
use quick_price.Quota.Durable.{restore-checkpoint}

-- ten credits a minute, three of them in reserve, in the window that starts at 120
abbrev minute : Quota
minute = record {
  limit = 10;
  period = 60;
  reserve = 3;
  align_windows = true;
  window_start = 120;
  used = 0;
}

abbrev busy : List (ℕ × Call)
busy =
    (130, acquires none 5 false)
    ∷ (131, acquires none 4 false)
    ∷ (132, acquires none 4 true)
    ∷ (185, acquires none 7 false)
    ∷ []

new-minute : new 10 60 3 true 130 ≡ ok minute
unfolding new
new-minute = refl

spent-busy : spent true 120 minute busy ≡ 9
unfolding spent charge step acquire roll ceiling persisted
spent-busy = refl

-- a checkpoint of the window that has begun, with a higher count, comes back
abbrev restored : List (ℕ × Call)
restored = busy ++ (186, restores (state (record minute { window_start = 180; used = 9 }))) ∷ []

restored-AllKeep : AllKeep minute restored
unfolding step acquire roll ceiling persisted start_for state
restored-AllKeep = (
  tt,
  (
    tt,
    (
      tt,
      (
        tt,
        (
          record {
            not_earlier = λ h. omega arith;
            not_less = λ n h k. let q : 9 ≡ n = cc k in omega arith;
          },
          tt,
        ),
      ),
    ),
  ),
)

spent-le-limit_example :
    (spent true 120 minute restored ≤ 10) × (spent false 120 minute restored ≤ 10 - 3)
spent-le-limit_example = spent-le-limit 120 minute restored (omega arith) restored-AllKeep

-- 3100 credits a month are 100 a day
abbrev daily : Quota
daily = record {
  limit = 100;
  period = 86_400;
  reserve = 0;
  align_windows = true;
  window_start = 86_400;
  used = 0;
}

rolling_month-le-limit_example :
    spent_over (86_400 ∷ 172_800 ∷ []) daily ((90_000, acquires none 70 false) ∷ []) ≤ 3_100
unfolding rolling_month_safe_daily_budget
rolling_month-le-limit_example =
    rolling_month-le-limit 3_100 0 90_000 daily (86_400 ∷ 172_800 ∷ [])
      ((90_000, acquires none 70 false) ∷ []) refl (tt, tt) (omega arith)

restore-checkpoint_example :
    restore minute (checkpoint (acquire none minute 5 false 130).0 131).1 150
    ≡ (record minute { used = 5 }, ok tt)
unfolding acquire roll ceiling persisted start_for
restore-checkpoint_example =
    restore-checkpoint (acquire none minute 5 false 130).0 minute 131 150 refl refl refl
      (omega arith)
