-- ===== src/History/Cache.antt =====
-- cache.py, class `HistoryCache`: the rings of all symbols, the references that are kept for the
-- minute of a query, and the invalidation that follows recipes from an input to what is made of it.
-- `Rings` holds the three rings of a symbol in one place; a symbol whose rings are all empty has no
-- entry. The windows reach back a year, and the epoch lies further back than that.
use quick_price.Prelude.{
  ℕ, zero, suc, ◌+◌, ◌-◌, ◌%◌, Bool, true, false, Option, none, some, String, List, [], ◌∷◌, ◌++◌,
  map, ltb, leb, ◌==◌, if◌then◌else◌, length,
}
use quick_price.Prelude.Dict.{Dict, get, put, pop}
use quick_price.Prelude.Texts.{String-discrete}
use quick_price.History.{Point, Rings, prune_symbol, upserted, reference_at}
use quick_price.History.Virtual.{synthetic_reference_at}
use quick_price.Registry.Search.{mem}
use quick_price.Synthetic.Base.{Arithmetic, Recipe}

-- `_ReferenceCacheEntry`; the references stand in the order of the windows
pub record Cached : Type 0 where
  pub as_of : ℕ
  pub references : List (Option Point)

pub record Cache : Type 0 where
  pub rings : Dict String Rings
  pub cached : Dict String Cached
  pub recipes : Dict String Recipe
  pub dependents : Dict String (List String)

-- analytics.py, `WINDOWS`, in seconds
abbrev pub windows : List ℕ
windows = 3_600 ∷ 14_400 ∷ 86_400 ∷ 604_800 ∷ 2_592_000 ∷ 31_536_000 ∷ []

-- as_of.replace(second=0, microsecond=0)
abbrev pub minute : ℕ → ℕ
minute as_of = as_of - as_of % 60

abbrev pub no_rings : Rings
no_rings = record { one_minute = []; five_minute = []; daily = [] }

abbrev pub or_no_rings : Option Rings → Rings
or_no_rings none = no_rings
or_no_rings (some r) = r

unfoldable pub rings_of : Cache → String → Rings
rings_of c symbol = or_no_rings (get String-discrete symbol c.rings)

unfoldable pub is_empty : Rings → Bool
is_empty r = length r.one_minute + length r.five_minute + length r.daily == 0

unfoldable pub set_rings : Cache → String → Rings → Cache
unfolding is_empty
set_rings c symbol r =
    if is_empty r
    then record c { rings = pop String-discrete symbol c.rings }
    else record c { rings = put String-discrete symbol r c.rings }

-- `_reference_at_locked`
unfoldable pub reference_by :
    Arithmetic → Option Recipe → (String → Rings) → String → ℕ → Option Point
reference_by ar none rings symbol cutoff = reference_at (rings symbol) cutoff
reference_by ar (some r) rings symbol cutoff =
    synthetic_reference_at ar r (rings r.left_symbol) (rings r.right_symbol) cutoff

unfoldable pub reference_of : Arithmetic → Cache → String → ℕ → Option Point
unfolding reference_by
reference_of ar c symbol cutoff =
    reference_by ar (get String-discrete symbol c.recipes) (rings_of c) symbol cutoff

-- the references of all windows, as they are read from the rings
unfoldable pub references : Arithmetic → Cache → String → ℕ → List (Option Point)
references ar c symbol as_of = map (λ duration. reference_of ar c symbol (as_of - duration)) windows

unfoldable pub compute_references : Arithmetic → Cache → String → ℕ → Cache × List (Option Point)
unfolding references
compute_references ar c symbol as_of =
    let found = references ar c symbol as_of in
    (
      record c {
        cached = put String-discrete symbol (record { as_of = as_of; references = found }) c.cached;
      },
      found,
    )

unfoldable pub use_cached :
    Arithmetic → Cache → String → ℕ → Option Cached → Cache × List (Option Point)
unfolding compute_references
use_cached ar c symbol as_of none = compute_references ar c symbol as_of
use_cached ar c symbol as_of (some entry) =
    if minute entry.as_of == minute as_of
    then (c, entry.references)
    else compute_references ar c symbol as_of

-- `change_references`
unfoldable pub change_references : Arithmetic → Cache → String → ℕ → Cache × List (Option Point)
unfolding use_cached
change_references ar c symbol as_of =
    use_cached ar c symbol as_of (get String-discrete symbol c.cached)

-- `timestamp is None or (cached is not None and timestamp <= cached.as_of - WINDOWS["1h"])`
unfoldable pub is_outdated : Option ℕ → Option Cached → Bool
is_outdated none cached = true
is_outdated (some t) none = false
is_outdated (some t) (some entry) = leb (t + 3_600) entry.as_of

unfoldable pub drop_reference : Option ℕ → String → Dict String Cached → Dict String Cached
unfolding is_outdated
drop_reference t symbol cached =
    if is_outdated t (get String-discrete symbol cached)
    then pop String-discrete symbol cached
    else cached

-- The symbols visited so far, and the references that are left; none where the fuel ran out.
abbrev pub Sweep : Type 0
Sweep = List String × Dict String Cached

unfoldable pub each_dependent : (String → Sweep → Option Sweep) → List String → Sweep → Option Sweep
each_dependent f [] w = some w
each_dependent f (d ∷ ds) w = elim (f d w) [ none ↦ none | some w' ↦ each_dependent f ds w' ]

-- `_invalidate_references_locked`, with its set `visited`
module _ (dependents : String → List String) (t : Option ℕ) where
  unfoldable pub sweep : ℕ → String → Sweep → Option Sweep
  unfolding mem drop_reference each_dependent
  sweep zero symbol w = none
  sweep (suc fuel) symbol (visited, cached) =
      let inner =
        each_dependent (sweep fuel) (dependents symbol)
          (symbol ∷ visited, drop_reference t symbol cached) in
      if mem symbol visited then some (visited, cached) else inner

abbrev pub or_nobody : Option (List String) → List String
or_nobody none = []
or_nobody (some ds) = ds

unfoldable pub dependents_of : Dict String (List String) → String → List String
dependents_of dependents symbol = or_nobody (get String-discrete symbol dependents)

unfoldable pub all_dependents : Dict String (List String) → List String
all_dependents [] = []
all_dependents ((symbol, ds) ∷ rest) = ds ++ all_dependents rest

-- The fuel counts the symbols that the search can come to.
abbrev pub left_references : Option Sweep → Dict String Cached → Dict String Cached
left_references none cached = cached
left_references (some (visited, cached')) cached = cached'

unfoldable pub invalidate : Cache → Option ℕ → String → Cache
unfolding dependents_of all_dependents sweep
invalidate c t symbol = record c {
  cached =
      left_references
        (sweep (dependents_of c.dependents) t (suc (suc (length (all_dependents c.dependents))))
          symbol ([], c.cached))
        c.cached;
}

-- `_prune_symbol_locked`
unfoldable pub prune_locked : Cache → String → ℕ → Cache × ℕ
unfolding rings_of prune_symbol set_rings invalidate
prune_locked c symbol now =
    let (r, removed) = prune_symbol (rings_of c symbol) now in
    let kept = set_rings c symbol r in
    (if ltb 0 removed then invalidate kept none symbol else kept, removed)

-- `prune`: the symbols of the dictionaries, one after the other, and how many points went
unfoldable pub prune_symbols : Cache → List String → ℕ → Cache × ℕ
prune_symbols c [] now = (c, 0)
prune_symbols c (s ∷ ss) now =
    let (c', removed) = prune_locked c s now in
    let (c'', more) = prune_symbols c' ss now in (c'', removed + more)

unfoldable pub prune : Cache → ℕ → Cache × ℕ
unfolding prune_symbols
prune c now = prune_symbols c (map (λ entry. entry.0) c.rings) now

unfoldable pub add_upserted : Cache → String → Point → Option Rings → Option Cache
unfolding prune_locked set_rings invalidate
add_upserted c symbol p none = none
add_upserted c symbol p (some r) = some (
    invalidate (prune_locked (set_rings c symbol r) symbol p.timestamp).0 (some p.timestamp) symbol)

-- `add`; none is the ValueError of an unsupported interval
unfoldable pub add_point : Cache → String → Point → Option Cache
unfolding add_upserted upserted rings_of
add_point c symbol p = add_upserted c symbol p (upserted (rings_of c symbol) p)
