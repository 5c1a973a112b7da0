-- ===== src/Router/Segments.antt =====
-- providers/router.py: joining the histories of several providers (`_merge_history`), and the test
-- whether a history reaches back to the requested start (`_history_covers_start`). Times are
-- natural numbers of seconds, and prices stand as opaque numbers.
use text.Mathlib.Text.{◌==◌ as str_eq}
use quick_price.Prelude.{
  ℕ, ◌+◌, ◌*◌, Bool, true, false, Option, none, some, List, [], ◌∷◌, map, ltb, leb, String, take,
  if◌then◌else◌, ℕ_discrete,
}
use quick_price.Prelude.Int.{ℤ, pos, negsuc}
use quick_price.Prelude.Dict.{Dict, get, put}

-- `PricePoint`
pub record Point : Type 0 where
  pub symbol : String
  pub timestamp : ℕ
  pub price : ℕ
  pub provider : String

-- `merged.setdefault(point.timestamp, point)`
unfoldable pub set_default : Dict ℕ Point → Point → Dict ℕ Point
set_default merged p = elim (get ℕ_discrete p.timestamp merged) [
  | none ↦ put ℕ_discrete p.timestamp p merged
  | some q ↦ merged
]

-- the inner and the outer loop
unfoldable pub merge_segment : Dict ℕ Point → List Point → Dict ℕ Point
merge_segment merged [] = merged
merge_segment merged (p ∷ ps) = merge_segment (set_default merged p) ps

unfoldable pub merge_segments : Dict ℕ Point → List (List Point) → Dict ℕ Point
merge_segments merged [] = merged
merge_segments merged (s ∷ ss) = merge_segments (merge_segment merged s) ss

-- `sorted(merged)`, with each key's point beside it
unfoldable pub insert_key : ℕ → Point → Dict ℕ Point → Dict ℕ Point
insert_key k p [] = (k, p) ∷ []
insert_key k p ((j, q) ∷ d) =
    let rest = insert_key k p d in if leb k j then (k, p) ∷ (j, q) ∷ d else (j, q) ∷ rest

unfoldable pub sort_keys : Dict ℕ Point → Dict ℕ Point
unfolding insert_key
sort_keys [] = []
sort_keys ((k, p) ∷ d) = insert_key k p (sort_keys d)

-- `ordered[:limit] if limit else ()`, for a limit that is an integer and not negative
unfoldable pub limit_to : Option ℤ → List Point → List Point
limit_to none ps = ps
limit_to (some (negsuc n)) ps = ps
limit_to (some (pos n)) ps = take n ps

unfoldable pub merge_history : List (List Point) → Option ℤ → List Point
merge_history segments limit =
    limit_to limit (map (λ e. e.1) (sort_keys (merge_segments [] segments)))

-- the table of interval lengths; the argument is the interval in lower case
unfoldable pub interval_seconds : String → ℕ
interval_seconds i =
    if str_eq i "1m"
    then 60
    else if str_eq i "5m"
    then 300
    else if str_eq i "15m"
    then 900
    else if str_eq i "1h"
    then 3600
    else if str_eq i "4h"
    then 14_400
    else if str_eq i "1d"
    then 86_400
    else 60

-- `min(point.timestamp for point in points)`, from the first on
unfoldable pub earliest : ℕ → List Point → ℕ
earliest t [] = t
earliest t (p ∷ ps) = earliest (if ltb p.timestamp t then p.timestamp else t) ps

-- `start` is `none` where the request has none that is a datetime.
unfoldable pub history_covers_start : List Point → Option ℕ → String → Bool
history_covers_start [] start interval = false
history_covers_start (p ∷ ps) none interval = true
history_covers_start (p ∷ ps) (some start) interval =
    leb (earliest p.timestamp ps) (start + interval_seconds interval * 2)
