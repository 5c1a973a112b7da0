-- ===== src/Quota/Durable.antt =====
-- providers/quota.py: the admission test, and what a restart and a failed write leave behind.
use quick_price.Prelude.{ℕ, ◌≤◌, ◌<◌, ◌≡◌, ◌↔◌, Bool, true, none, arith, ◌==◌, if◌then◌else◌}
use quick_price.Quota.{
  Quota, ok, err, Persistence, not_persisted, start_for, persisted, roll, ceiling, state, acquire,
  can_acquire, checkpoint, restore, snapshot,
}

-- `can_acquire` answers as an `acquire` at the same moment does, and does not change that answer.
pub acquire-can_acquire :
    (q : Quota) (cost now : ℕ) (allow : Bool)
    → (acquire none (can_acquire q cost allow now).0 cost allow now).1
      ≡ (can_acquire q cost allow now).1
unfolding acquire can_acquire persisted roll ceiling
acquire-can_acquire q cost now allow = ground arith

-- An admission with the reserve is granted exactly when it fits what the snapshot reports as
-- remaining.
pub acquire-remaining :
    (q : Quota) (cost now : ℕ)
    → 0 < cost
    → ((acquire none q cost true now).1 ≡ ok true) ↔ (cost ≤ (snapshot q now).1.remaining)
unfolding acquire snapshot persisted ceiling roll
acquire-remaining q cost now h = ground arith

-- A call whose durable write fails leaves the budget as it was before the call, the roll included.
pub acquire-not_persisted :
    (p : Persistence) (q : Quota) (cost now : ℕ) (allow : Bool)
    → (acquire p q cost allow now).1 ≡ err not_persisted
    → (acquire p q cost allow now).0 ≡ q
unfolding acquire roll
acquire-not_persisted p q cost now allow h = ground arith

-- A checkpoint restored into a budget of the same configuration brings the window and the count
-- back while its window lasts, and changes nothing afterwards.
pub restore-checkpoint :
    (q fresh : Quota) (now later : ℕ)
    → fresh.limit ≡ q.limit
    → fresh.period ≡ q.period
    → fresh.align_windows ≡ true
    → 0 < q.period
    → restore fresh (checkpoint q now).1 later ≡ (
      (if (roll q now).window_start == start_for true q.period later
          then record fresh { window_start = (roll q now).window_start; used = (roll q now).used }
          else fresh),
      ok tt,
    )
unfolding restore checkpoint state roll
restore-checkpoint q fresh now later hl hp ha h = ground arith
