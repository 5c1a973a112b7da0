-- ===== src/Synthetic/Scenarios.antt =====
-- A dollar price from a euro price and a rate, and two short histories.
use quick_price.Prelude.{
  ℕ, ◌*◌, ◌/◌, ◌≡◌, ◌≢◌, refl, true, false, none, some, List, [], ◌∷◌, ltb, ◌==◌, if◌then◌else◌,
  arith,
}
use quick_price.Prelude.Int.{pos}
use quick_price.History.{Point, latest_at_or_before}
use quick_price.History.Virtual.{interval_reference}
use quick_price.History.Derived.{interval_reference-synthesize_history}
use quick_price.Synthetic.Base.{Arithmetic, inverse, product, Recipe, positive, combined}
use quick_price.Synthetic.Quotes.{Quote, Texts}
use quick_price.Synthetic.Series.{synthesize_history, sort_points, derive, advance}
use quick_price.Synthetic.Joined.{Joined, synthesize_history-Joined}
use quick_price.Synthetic.Checked.{Fresh, IsPrice}

-- whole numbers in place of decimals
abbrev whole : Arithmetic
whole = record {
  multiply = λ a b. some (a * b);
  divide = λ a b. if b == 0 then none else some (a / b);
  reciprocal = λ a. if a == 0 then none else some (1_000_000 / a);
  is_positive = λ a. ltb 0 a;
}

abbrev first_sign : Texts
first_sign = record { join = λ sign a b. a; normal = λ s. s }

abbrev recipe : Recipe
recipe = record {
  left_symbol = "XAUEUR";
  right_symbol = "EURUSD";
  operation = product;
  max_skew = pos 120;
  left_max_age = some 600;
  right_max_age = none;
  provider_name = "synthetic";
}

abbrev gold : Quote
gold = record {
  symbol = "XAUEUR";
  provider = "a";
  price = 2_000;
  as_of = 1_000;
  feed = "spot";
  market_status = "open";
  is_derived = false;
  fallback_level = 0;
  license_scope = "x";
  components = [];
}

abbrev rate : Quote
rate = record gold { symbol = "EURUSD"; price = 3; as_of = 1_100; fallback_level = 2 }

abbrev made : Quote
made = record {
  symbol = "XAUUSD";
  provider = "synthetic";
  price = 6_000;
  as_of = 1_000;
  feed = "spot";
  market_status = "open";
  is_derived = true;
  fallback_level = 2;
  license_scope = "x";
  components =
      record {
        symbol = "XAUEUR";
        provider = "a";
        price = 2_000;
        as_of = 1_000;
        feed = "spot";
        role = "multiplicand";
      }
      ∷ record {
        symbol = "EURUSD";
        provider = "a";
        price = 3;
        as_of = 1_100;
        feed = "spot";
        role = "multiplier";
      }
      ∷ [];
}

recipe-Fresh : Fresh recipe 1_200 1_000 1_100
recipe-Fresh = ((omega arith, omega arith), omega arith, omega arith, omega arith, tt)

recipe-IsPrice : IsPrice whole first_sign recipe 1_200 "XAUUSD" gold rate 6_000
recipe-IsPrice = ((unfold combined in refl), refl)

abbrev point : ℕ → ℕ → Point
point timestamp price = record {
  timestamp = timestamp;
  price = price;
  provider = "a";
  is_derived = false;
  interval = "1m";
}

abbrev golds : List Point
golds = point 60 2_000 ∷ point 120 2_100 ∷ point 600 2_200 ∷ []

abbrev rates : List Point
rates = point 30 3 ∷ point 90 4 ∷ []

-- the third point has no rate within two minutes
combines :
    synthesize_history whole recipe "1m" golds rates none
    ≡ record (point 60 6_000) { provider = "synthetic"; is_derived = true }
      ∷ record (point 120 8_400) { provider = "synthetic"; is_derived = true }
      ∷ []
unfolding synthesize_history derive advance positive combined
combines = refl

is_product : recipe.operation ≢ inverse
is_product = λ e. cc

synthesize_history-Joined_example :
    Joined whole recipe "1m"
      (latest_at_or_before (sort_points rates))
      (sort_points golds)
      (synthesize_history whole recipe "1m" golds rates none)
synthesize_history-Joined_example =
    synthesize_history-Joined whole recipe "1m" golds rates is_product

interval_reference-synthesize_history_example :
    interval_reference whole recipe "1m" 700 product golds rates
    ≡ latest_at_or_before (synthesize_history whole recipe "1m" golds rates none) 700
interval_reference-synthesize_history_example =
    interval_reference-synthesize_history whole recipe "1m" 700 golds rates
      ((omega arith, (omega arith, tt)), ((omega arith, tt), (tt, tt)))
      ((omega arith, tt), (tt, tt))
