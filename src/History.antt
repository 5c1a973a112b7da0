-- ===== src/History.antt =====
-- cache.py, class `HistoryCache`: the rings of one-minute, five-minute and daily points of a symbol.
-- Times are natural numbers of seconds since an epoch that lies at a full hour, so a bucket of
-- five minutes starts at a multiple of 300. A ring is a list, oldest point first. Every method
-- holds one lock, and works on the rings of one symbol, which `Rings` holds; the source drops a
-- symbol's empty ring from its dictionary, and reads a missing ring as an empty one.
pub mod Ring
pub mod Adds
pub mod View
pub mod Virtual
pub mod Walk
pub mod Derived
pub mod Cache
pub mod Sweep
pub mod Alike
pub mod Depends
pub mod Coherent
pub mod Frames
pub mod Changes
pub mod Current
pub mod Load
pub mod Loaded
pub mod Loads
pub mod Register
pub mod Search
pub mod Acyclic
pub mod Registered
pub mod Asked
pub mod Brought
pub mod Batch
pub mod Batches
pub mod Recipes
pub mod Renewed
pub mod Runs
pub mod Retain
pub mod Closure
pub mod Kept
pub mod Retained
pub mod Remaining
pub mod Keeps
pub mod Gone
pub mod Invalidate
mod Scenarios
mod CacheRuns
use text.Mathlib.Text.{◌==◌ as str_eq}
use quick_price.Prelude.{
  ℕ, zero, ◌+◌, ◌-◌, ◌%◌, ◌*◌, Bool, true, false, Option, none, some, String, List, [], ◌∷◌, ◌++◌,
  ltb, leb, ◌==◌, if◌then◌else◌, length,
}

-- `PricePoint` without its symbol
pub record Point : Type 0 where
  pub timestamp : ℕ
  pub price : ℕ
  pub provider : String
  pub is_derived : Bool
  pub interval : String

pub record Rings : Type 0 where
  pub one_minute : List Point
  pub five_minute : List Point
  pub daily : List Point

-- the retentions: 48 hours, 45 days and 400 days
abbrev pub one_minute_retention : ℕ
one_minute_retention = 172_800

abbrev pub five_minute_retention : ℕ
five_minute_retention = 3_888_000

abbrev pub daily_retention : ℕ
daily_retention = 34_560_000

-- `_bucket`: the minute of the hour is cut to a multiple of `minutes`, the seconds to 0
unfoldable pub bucket : ℕ → ℕ → ℕ
bucket timestamp minutes = timestamp - timestamp % (minutes * 60)

-- The slow path of `_upsert_bucket`, which goes through a dictionary and sorts it: a ring in order
-- of time gets the point at its place, in that of a point of the same time.
unfoldable pub insert_sorted : Point → List Point → List Point
insert_sorted p [] = p ∷ []
insert_sorted p (q ∷ qs) =
    let rest = insert_sorted p qs in
    if ltb q.timestamp p.timestamp
    then q ∷ rest
    else if q.timestamp == p.timestamp
    then p ∷ qs
    else p ∷ q ∷ qs

unfoldable pub last_time : ℕ → List Point → ℕ
last_time t [] = t
last_time t (q ∷ qs) = last_time q.timestamp qs

unfoldable pub replace_last : Point → List Point → List Point
replace_last p [] = []
replace_last p (q ∷ []) = p ∷ []
replace_last p (q ∷ r ∷ qs) = q ∷ replace_last p (r ∷ qs)

-- `_upsert_bucket`: the tests are on the last point of the ring, and the point is moved to `at`.
unfoldable pub upsert_bucket : List Point → Point → ℕ → List Point
unfolding last_time replace_last insert_sorted
upsert_bucket [] p at = record p { timestamp = at } ∷ []
upsert_bucket (q ∷ qs) p at =
    if last_time q.timestamp qs == at
    then replace_last (record p { timestamp = at }) (q ∷ qs)
    else if ltb (last_time q.timestamp qs) at
    then (q ∷ qs) ++ record p { timestamp = at } ∷ []
    else insert_sorted (record p { timestamp = at }) (q ∷ qs)

-- `while ring and ring[0].timestamp < cutoff: ring.popleft()`, where `cutoff` is `now - retention`
unfoldable pub prune_ring : ℕ → ℕ → List Point → List Point
prune_ring retention now [] = []
prune_ring retention now (p ∷ ps) =
    let rest = prune_ring retention now ps in
    if ltb (p.timestamp + retention) now then rest else p ∷ ps

-- `_prune_symbol_locked`: the rings, and how many points went
unfoldable pub prune_symbol : Rings → ℕ → Rings × ℕ
unfolding prune_ring
prune_symbol r now =
    let pruned : Rings = record {
      one_minute = prune_ring one_minute_retention now r.one_minute;
      five_minute = prune_ring five_minute_retention now r.five_minute;
      daily = prune_ring daily_retention now r.daily;
    } in
    (
      pruned,
      (length r.one_minute - length pruned.one_minute)
          + (length r.five_minute - length pruned.five_minute)
          + (length r.daily - length pruned.daily),
    )

-- The rings as `add` writes them; `none` is `ValueError("unsupported history interval")`.
unfoldable pub upserted : Rings → Point → Option Rings
unfolding bucket upsert_bucket
upserted r p =
    if str_eq p.interval "1d"
    then some (record r { daily = upsert_bucket r.daily p p.timestamp })
    else if str_eq p.interval "5m"
    then some (record r { five_minute = upsert_bucket r.five_minute p (bucket p.timestamp 5) })
    else if str_eq p.interval "1m"
    then some (record r {
      one_minute = upsert_bucket r.one_minute p (bucket p.timestamp 1);
      five_minute =
          upsert_bucket r.five_minute (record p { interval = "5m" }) (bucket p.timestamp 5);
    })
    else none

then_prune : Option Rings → ℕ → Option Rings
then_prune none now = none
then_prune (some r) now = some (prune_symbol r now).0

-- `add`, without the cached references
unfoldable pub add : Rings → Point → Option Rings
unfolding then_prune upserted prune_symbol
add r p = then_prune (upserted r p) p.timestamp

-- the points of `merged` before the first point of a ring
unfoldable pub before : ℕ → List Point → List Point
before cutoff [] = []
before cutoff (p ∷ ps) =
    let rest = before cutoff ps in if ltb p.timestamp cutoff then p ∷ rest else rest

unfoldable pub overlay : List Point → List Point → List Point
overlay merged [] = merged
overlay merged (p ∷ ps) = before p.timestamp merged ++ p ∷ ps

-- `points`: the finer ring hides the coarser ones from its first point on
unfoldable pub points : Rings → List Point
unfolding overlay before
points r = overlay (overlay r.daily r.five_minute) r.one_minute

-- `next(point for point in reversed(ring) if point.timestamp <= cutoff)`
unfoldable pub latest_at_or_before : List Point → ℕ → Option Point
latest_at_or_before [] cutoff = none
latest_at_or_before (p ∷ ps) cutoff = elim (latest_at_or_before ps cutoff) [
  | some q ↦ some q
  | none ↦ if leb p.timestamp cutoff then some p else none
]

unfoldable pub covers : List Point → ℕ → Bool
covers [] cutoff = false
covers (p ∷ ps) cutoff = leb p.timestamp cutoff

-- `_reference_at_locked`, for a symbol with no synthetic recipe
unfoldable pub reference_at : Rings → ℕ → Option Point
unfolding covers
reference_at r cutoff =
    if covers r.one_minute cutoff
    then latest_at_or_before r.one_minute cutoff
    else if covers r.five_minute cutoff
    then latest_at_or_before r.five_minute cutoff
    else latest_at_or_before r.daily cutoff

-- `points_for_interval`
unfoldable pub points_for_interval : Rings → String → Option (List Point)
points_for_interval r interval =
    if str_eq interval "1m"
    then some r.one_minute
    else if str_eq interval "5m"
    then some r.five_minute
    else if str_eq interval "1d"
    then some r.daily
    else none
