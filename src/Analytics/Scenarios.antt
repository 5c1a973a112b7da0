-- ===== src/Analytics/Scenarios.antt =====
-- Changes at concrete points.
use quick_price.Prelude.{ℕ, ◌-◌, ◌≡◌, refl, true, false, Option, none, some, List, [], ◌∷◌, arith}
use quick_price.Prelude.Dict.{get, put, pop}
use quick_price.Prelude.Texts.{String-discrete}
use quick_price.Analytics.{calculate_changes, calculate_changes_from_references}
use quick_price.Analytics.Changes.{calculate_changes-change_references}
use quick_price.History.{Point, bucket, points}
use quick_price.History.Cache.{rings_of, change_references}
use quick_price.History.Coherent.{recipe_of}
use quick_price.History.Runs.{Event, adds, new, run, AllTimely}
use quick_price.Synthetic.Base.{Arithmetic}

abbrev whole : Arithmetic
whole = record {
  multiply = λ a b. some a;
  divide = λ a b. some a;
  reciprocal = λ a. some a;
  is_positive = λ a. true;
}

abbrev point : ℕ → ℕ → Point
point t price = record {
  timestamp = t;
  price = price;
  provider = "p";
  is_derived = false;
  interval = "1m";
}

abbrev events : List Event
events = adds "BTC:USDC" (point 600_000 10) ∷ adds "BTC:USDC" (point 603_600 11) ∷ []

events-AllTimely : AllTimely whole new events
unfolding bucket
events-AllTimely = (
  ((omega arith, λ x e h l. l), λ h. absurd (cc h)),
  (((omega arith, λ x e h l. l), λ h. absurd (cc h)), tt),
)

events-plain : recipe_of (run whole new events) "BTC:USDC" ≡ none
unfolding run get put pop String-discrete
events-plain = refl

abbrev difference : ℕ → ℕ → Option ℕ
difference a b = some (a - b)

calculate_changes-change_references_example :
    calculate_changes_from_references difference 30
      (change_references whole (run whole new events) "BTC:USDC" 607_260).1
    ≡ calculate_changes difference 30 607_260 (points (rings_of (run whole new events) "BTC:USDC"))
calculate_changes-change_references_example =
    calculate_changes-change_references difference whole events "BTC:USDC" 30 607_260
      events-AllTimely events-plain
