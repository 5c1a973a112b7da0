-- ===== src/History/Load.antt =====
-- cache.py, `load`: a batch of stored points is merged into the rings. A dictionary of points by
-- their time, which is sorted in the end, is a list in order of time here; a write of a time that is
-- there replaces the point. `_replace_ring` drops a ring that is empty, as `set_rings` does.
use text.Mathlib.Text.{◌==◌ as str_eq}
use quick_price.Prelude.{
  ℕ, ◌+◌, max, Option, none, some, String, List, [], ◌∷◌, ltb, leb, if◌then◌else◌,
}
use quick_price.Prelude.Dict.{Dict, get, put}
use quick_price.Prelude.Texts.{String-discrete}
use quick_price.History.{
  Point, Rings, one_minute_retention, five_minute_retention, daily_retention, bucket, insert_sorted,
}
use quick_price.History.Cache.{Cache, or_no_rings, rings_of, set_rings, invalidate}

-- a stored point, with its symbol
abbrev pub Row : Type 0
Row = String × Point

-- sorted(points, key=lambda item: item.timestamp)
unfoldable pub insert_row : Row → List Row → List Row
insert_row (s, p) [] = (s, p) ∷ []
insert_row (s, p) ((t, q) ∷ rows) =
    let rest = insert_row (s, p) rows in
    if leb p.timestamp q.timestamp then (s, p) ∷ (t, q) ∷ rows else (t, q) ∷ rest

unfoldable pub sort_rows : List Row → List Row
unfolding insert_row
sort_rows [] = []
sort_rows (row ∷ rows) = insert_row row (sort_rows rows)

abbrev pub at_time : Point → ℕ → Point
at_time p t = record p { timestamp = t }

-- The three incoming dictionaries of a symbol with a point more; none is the ValueError.
unfoldable pub with_incoming : Rings → Point → Option Rings
unfolding bucket insert_sorted
with_incoming r p =
    let five =
      insert_sorted (record p { timestamp = bucket p.timestamp 5; interval = "5m" })
        r.five_minute in
    if str_eq p.interval "1d"
    then some (record r { daily = insert_sorted p r.daily })
    else if str_eq p.interval "1m"
    then some (record r {
      one_minute = insert_sorted (at_time p (bucket p.timestamp 1)) r.one_minute;
      five_minute = five;
    })
    else if str_eq p.interval "5m"
    then some (record r { five_minute = five })
    else none

-- the loop over the sorted points
unfoldable pub gather : Dict String Rings → List Row → Option (Dict String Rings)
unfolding with_incoming
gather incoming [] = some incoming
gather incoming ((s, p) ∷ rows) =
    elim (with_incoming (or_no_rings (get String-discrete s incoming)) p) [
      | none ↦ none
      | some r ↦ gather (put String-discrete s r incoming) rows
    ]

-- `one.update({item.timestamp: item for item in ring})`
unfoldable pub update : List Point → List Point → List Point
unfolding insert_sorted
update incoming [] = incoming
update incoming (p ∷ ps) = update (insert_sorted p incoming) ps

unfoldable pub latest_time : List Point → ℕ
latest_time [] = 0
latest_time (p ∷ ps) = max p.timestamp (latest_time ps)

-- `key >= latest - retention`
unfoldable pub recent : ℕ → ℕ → List Point → List Point
recent retention latest [] = []
recent retention latest (p ∷ ps) =
    let rest = recent retention latest ps in
    if ltb (p.timestamp + retention) latest then rest else p ∷ rest

unfoldable pub updated : Rings → Rings → Rings
unfolding update
updated incoming old = record {
  one_minute = update incoming.one_minute old.one_minute;
  five_minute = update incoming.five_minute old.five_minute;
  daily = update incoming.daily old.daily;
}

unfoldable pub latest_of : Rings → ℕ
unfolding latest_time
latest_of r = max (latest_time r.one_minute) (max (latest_time r.five_minute) (latest_time r.daily))

unfoldable pub retained : Rings → Rings
unfolding recent latest_of
retained r = record {
  one_minute = recent one_minute_retention (latest_of r) r.one_minute;
  five_minute = recent five_minute_retention (latest_of r) r.five_minute;
  daily = recent daily_retention (latest_of r) r.daily;
}

-- the loop body over the symbols of the batch
unfoldable pub load_symbol : Cache → String → Rings → Cache
unfolding invalidate updated retained rings_of set_rings
load_symbol c s incoming =
    set_rings (invalidate c none s) s (retained (updated incoming (rings_of c s)))

unfoldable pub load_symbols : Cache → Dict String Rings → Cache
unfolding load_symbol
load_symbols c [] = c
load_symbols c ((s, incoming) ∷ rest) = load_symbols (load_symbol c s incoming) rest

unfoldable pub load_gathered : Cache → Option (Dict String Rings) → Option Cache
unfolding load_symbols
load_gathered c none = none
load_gathered c (some incoming) = some (load_symbols c incoming)

-- `load`
unfoldable pub load : Cache → List Row → Option Cache
unfolding load_gathered gather sort_rows
load c rows = load_gathered c (gather [] (sort_rows rows))
