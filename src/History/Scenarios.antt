-- ===== src/History/Scenarios.antt =====
-- Points of one symbol, late ones among them.
use quick_price.Prelude.{ℕ, ◌≡◌, refl, some, [], ◌∷◌, arith, false}
use quick_price.History.{Point, Rings, bucket, add, reference_at, latest_at_or_before}
use quick_price.History.Adds.{IsOrdered, IsAdded, add-minute}

abbrev quote : ℕ → ℕ → Point
quote timestamp price = record {
  timestamp = timestamp;
  price = price;
  provider = "p";
  is_derived = false;
  interval = "1m";
}

abbrev rings : Rings
rings = record {
  one_minute = quote 600 10 ∷ quote 660 11 ∷ [];
  five_minute = quote 300 9 ∷ quote 600 11 ∷ [];
  daily = quote 0 8 ∷ [];
}

abbrev rings_after : Rings
rings_after = record {
  one_minute = quote 540 12 ∷ quote 600 10 ∷ quote 660 11 ∷ [];
  five_minute = record (quote 300 12) { interval = "5m" } ∷ quote 600 11 ∷ [];
  daily = quote 0 8 ∷ [];
}

rings-IsOrdered : IsOrdered rings
rings-IsOrdered = (((omega arith, tt), (tt, tt)), ((omega arith, tt), (tt, tt)), (tt, tt))

late : add rings (quote 547 12) ≡ some rings_after
unfolding add bucket
late = refl

add-minute_example : IsAdded rings (quote 547 12) 540 300
add-minute_example = add-minute rings (quote 547 12) rings-IsOrdered refl

reference_at_run : reference_at rings 599 ≡ some (quote 300 9)
unfolding reference_at latest_at_or_before
reference_at_run = refl
