-- ===== src/History/CacheRuns.antt =====
-- Runs of the cache of histories on concrete points.
use quick_price.Prelude.{ℕ, ◌≡◌, ◌⊎◌, refl, true, false, none, some, String, List, [], ◌∷◌, arith}
use quick_price.Prelude.Int.{pos}
use quick_price.Prelude.Dict.{get, put}
use quick_price.Registry.Cycles.{Reach-deps}
use quick_price.History.{Point, bucket}
use quick_price.History.Gone.{IsPart}
use quick_price.History.Cache.{no_rings, Cache, rings_of, references, change_references}
use quick_price.History.Coherent.{recipe_of, AllOrdered}
use quick_price.History.Retain.{retain_symbols}
use quick_price.Registry.Search.{mem}
use quick_price.History.Load.{Row, load}
use quick_price.History.Batch.{HoldsBatch}
use quick_price.History.Batches.{symbols, load-HoldsBatch}
use quick_price.History.Register.{Registered, register, inputs_at}
use quick_price.History.Registered.{IsAcyclic}
use quick_price.History.Asked.{EndsAsked, register-EndsAsked}
use quick_price.History.Runs.{
  Event, adds, loads, prunes, registers, asks, new, run, AllTimely, or_before, run-current,
  run-retains,
}
use quick_price.Synthetic.Base.{Arithmetic}

abbrev whole : Arithmetic
whole = record {
  multiply = λ a b. some a;
  divide = λ a b. some a;
  reciprocal = λ a. some a;
  is_positive = λ a. true;
}

abbrev minute_point : ℕ → ℕ → Point
minute_point t price = record {
  timestamp = t;
  price = price;
  provider = "p";
  is_derived = false;
  interval = "1m";
}

abbrev rows : List Row
rows = ("EUR:USD", minute_point 600_061 11) ∷ ("EUR:USD", minute_point 600_000 10) ∷ []

-- The second point comes after a query, at a time before the hour of that query.
abbrev events : List Event
events =
    registers "USD:EUR" ("EUR:USD" ∷ []) "inverse" (pos 0) "synthetic"
    ∷ loads rows
    ∷ asks "USD:EUR" 603_700
    ∷ adds "EUR:USD" (minute_point 600_000 12)
    ∷ prunes 603_660
    ∷ []

events-AllTimely : AllTimely whole new events
unfolding bucket
events-AllTimely = (
  tt,
  (
    ((λ h. absurd (cc h)), ((λ h. absurd (cc h)), tt)),
    (tt, (((omega arith, λ x e h l. l), λ h. absurd (cc h)), (tt, tt))),
  ),
)

run-current_example :
    (change_references whole (run whole new events) "USD:EUR" 603_700).1
    ≡ references whole (run whole new events) "USD:EUR" 603_700
run-current_example = run-current whole events "USD:EUR" 603_700 events-AllTimely

run-retains_example :
    (out : Cache × ℕ) × (retain_symbols (run whole new events) ("USD:EUR" ∷ []) ≡ some out)
    × ((s : String)
        → mem s ("USD:EUR" ∷ []) ≡ true
        → (t : ℕ) → references whole out.0 s t ≡ references whole (run whole new events) s t)
    × ((s : String)
        → IsPart (inputs_at (run whole new events).recipes) ("USD:EUR" ∷ []) s
          ⊎ ((rings_of out.0 s ≡ no_rings) × (recipe_of out.0 s ≡ none)))
run-retains_example = run-retains whole events ("USD:EUR" ∷ []) events-AllTimely

no_recipes : IsAcyclic []
unfolding inputs_at get
no_recipes s r = let (ds, made) = Reach-deps (inputs_at []) s r in absurd (cc made)

register-EndsAsked_example :
    (out : Registered) × (register new "USD:EUR"
        ("EUR:USD" ∷ "USD:EUR" ∷ [])
        "divide"
        (pos 0)
        "synthetic"
      ≡ some out)
    × EndsAsked new "USD:EUR" "divide" ("EUR:USD" ∷ "USD:EUR" ∷ []) (pos 0) "synthetic" out
register-EndsAsked_example =
    register-EndsAsked new "USD:EUR" ("EUR:USD" ∷ "USD:EUR" ∷ []) "divide" (pos 0) "synthetic"
      no_recipes

abbrev loaded : Cache
loaded = or_before new (load new rows)

new-ordered : AllOrdered new
unfolding rings_of get
new-ordered x = (tt, tt, tt)

load-HoldsBatch_example :
    (mem "EUR:USD" (symbols rows) ≡ false → rings_of loaded "EUR:USD" ≡ rings_of new "EUR:USD")
    × (mem "EUR:USD" (symbols rows) ≡ true
        → HoldsBatch (rings_of loaded "EUR:USD") (rings_of new "EUR:USD") "EUR:USD" rows)
unfolding load get put
load-HoldsBatch_example =
    load-HoldsBatch new loaded rows "EUR:USD" new-ordered
      ((λ h. absurd (cc h)), ((λ h. absurd (cc h)), tt)) refl
