-- ===== src/Synthetic/Quotes.antt =====
-- providers/synthetic.py: a quote from one or two component quotes.
use text.Mathlib.Text.{◌==◌ as str_eq}
use quick_price.Prelude.{
  ℕ, ◌+◌, ◌-◌, max, min, Bool, true, false, ◌||◌, Option, none, some, String, List, [], ◌∷◌, ◌++◌,
  ltb, if◌then◌else◌,
}
use quick_price.Prelude.Int.{ℤ, pos, negsuc}
use quick_price.Synthetic.Base.{
  Arithmetic, Operation, inverse, product, quotient, Recipe, negative_skew, exceeds_skew, in_future,
  left_stale, right_stale, unsupported, Result, ok, err, positive, combined,
}

-- `SourceComponent`; `role` is empty where the source has none
pub record Component : Type 0 where
  pub symbol : String
  pub provider : String
  pub price : ℕ
  pub as_of : ℕ
  pub feed : String
  pub role : String

-- The fields of a `ProviderQuote` that a synthesis reads or sets.
pub record Quote : Type 0 where
  pub symbol : String
  pub provider : String
  pub price : ℕ
  pub as_of : ℕ
  pub feed : String
  pub market_status : String
  pub is_derived : Bool
  pub fallback_level : ℕ
  pub license_scope : String
  pub components : List Component

abbrev pub five_seconds : ℕ
five_seconds = 5_000_000

-- Python's texts: `join sign a b` is the text `a`, the sign and `b`, and `normal` is `strip().upper()`.
pub record Texts : Type 0 where
  pub join : String → String → String → String
  pub normal : String → String

-- `abs(left_time - right_time) > max_skew`
unfoldable pub exceeds : ℕ → ℕ → ℕ → Bool
exceeds a b skew = ltb skew ((a - b) + (b - a))

-- `maximum is not None and check_time - time > maximum`
unfoldable pub is_stale : Option ℕ → ℕ → ℕ → Bool
is_stale none time now = false
is_stale (some maximum) time now = ltb (time + maximum) now

unfoldable pub check_ages : Recipe → ℕ → Quote → Quote → Result ℕ
unfolding is_stale
check_ages r now a b =
    if ltb (now + five_seconds) a.as_of || ltb (now + five_seconds) b.as_of
    then err in_future
    else if is_stale r.left_max_age a.as_of now
    then err left_stale
    else if is_stale r.right_max_age b.as_of now
    then err right_stale
    else ok (min a.as_of b.as_of)

unfoldable pub check_skew : ℤ → Recipe → ℕ → Quote → Quote → Result ℕ
unfolding exceeds check_ages
check_skew (negsuc n) r now a b = err negative_skew
check_skew (pos skew) r now a b =
    if exceeds a.as_of b.as_of skew then err exceeds_skew else check_ages r now a b

-- `_validate_components`
unfoldable pub validate_components : Recipe → ℕ → Quote → Quote → Result ℕ
unfolding check_skew
validate_components r now a b = check_skew r.max_skew r now a b

-- `_market_status`
unfoldable pub market_status : Quote → Quote → String
market_status a b =
    if str_eq a.market_status b.market_status
    then a.market_status
    else if str_eq a.market_status "unknown" || str_eq b.market_status "unknown"
    then "unknown"
    else "closed"

-- `'+'.join(dict.fromkeys((left.feed, right.feed)))`; `join` puts a sign between two texts
unfoldable pub joined_feed : Texts → Quote → Quote → String
joined_feed texts a b = if str_eq a.feed b.feed then a.feed else texts.join "+" a.feed b.feed

-- the component that a quote is, in its role
unfoldable pub component_of : Quote → String → Component
component_of q role = record {
  symbol = q.symbol;
  provider = q.provider;
  price = q.price;
  as_of = q.as_of;
  feed = q.feed;
  role = role;
}

-- `f"{role}_{child.role or 'component'}"`
unfoldable pub nested_role : Texts → String → String → String
nested_role texts role child = texts.join "_" role (if str_eq child "" then "component" else child)

unfoldable pub nested : Texts → String → List Component → List Component
nested texts role [] = []
nested texts role (c ∷ cs) =
    record c { role = nested_role texts role c.role } ∷ nested texts role cs

-- a quote as a component, and its own components after it
unfoldable pub with_nested : Texts → Quote → String → List Component
unfolding component_of nested
with_nested texts q role = component_of q role ∷ nested texts role q.components

unfoldable pub left_role : Operation → String
left_role inverse = "denominator"
left_role product = "multiplicand"
left_role quotient = "numerator"

unfoldable pub right_role : Operation → String
right_role inverse = ""
right_role product = "multiplier"
right_role quotient = "denominator"

unfoldable pub finish_quote :
    Texts → Recipe → String → Quote → Quote → Result ℕ → Result ℕ → Result Quote
unfolding market_status joined_feed with_nested left_role right_role
finish_quote texts r symbol a b (err e) price = err e
finish_quote texts r symbol a b (ok as_of) (err e) = err e
finish_quote texts r symbol a b (ok as_of) (ok price) = ok (record {
  symbol = texts.normal symbol;
  provider = r.provider_name;
  price = price;
  as_of = as_of;
  feed = joined_feed texts a b;
  market_status = market_status a b;
  is_derived = true;
  fallback_level = max a.fallback_level b.fallback_level;
  license_scope =
      if str_eq a.license_scope b.license_scope
      then a.license_scope
      else "most_restrictive_component_terms";
  components =
      with_nested texts a (left_role r.operation) ++ with_nested texts b (right_role r.operation);
})

-- `_synthetic_quote`
unfoldable pub synthetic_quote :
    Arithmetic → Texts → Recipe → ℕ → String → Quote → Quote → Result Quote
unfolding finish_quote validate_components positive combined
synthetic_quote ar texts r now symbol a b =
    finish_quote texts r symbol a b (validate_components r now a b)
      (positive ar (combined ar r.operation a.price b.price))

finish_inverse : Texts → Recipe → String → Quote → Result ℕ → Result Quote
unfolding with_nested left_role
finish_inverse texts r symbol a (err e) = err e
finish_inverse texts r symbol a (ok price) = ok (record a {
  symbol = texts.normal symbol;
  provider = r.provider_name;
  price = price;
  is_derived = true;
  components = with_nested texts a (left_role inverse);
})

-- `synthesize_inverse`
unfoldable pub synthesize_inverse : Arithmetic → Texts → Recipe → ℕ → String → Quote → Result Quote
unfolding is_stale finish_inverse positive
synthesize_inverse ar texts r now symbol a =
    if ltb (now + five_seconds) a.as_of
    then err in_future
    else if is_stale r.left_max_age a.as_of now
    then err left_stale
    else finish_inverse texts r symbol a (positive ar (ar.reciprocal a.price))

-- `SyntheticQuoteProvider.get_quote`: the replies of the resolver, and the clock once they are
-- there. Of two failures `asyncio.gather` raises the first in time, here that of the right component
-- if `right_first` says so.
both_quotes :
    Arithmetic → Texts → Recipe → ℕ → String → Bool → Result Quote → Result Quote → Result Quote
unfolding synthetic_quote
both_quotes ar texts r now symbol right_first (err e) (err f) = if right_first then err f else err e
both_quotes ar texts r now symbol right_first (err e) (ok b) = err e
both_quotes ar texts r now symbol right_first (ok a) (err f) = err f
both_quotes ar texts r now symbol right_first (ok a) (ok b) =
    synthetic_quote ar texts r now symbol a b

one_quote : Arithmetic → Texts → Recipe → ℕ → String → Result Quote → Result Quote
unfolding synthesize_inverse
one_quote ar texts r now symbol (err e) = err e
one_quote ar texts r now symbol (ok a) = synthesize_inverse ar texts r now symbol a

module _ (ar : Arithmetic) (texts : Texts) (right_first : Bool) (now : ℕ) (symbol : String)
    (resolver : String → Result Quote) where
  quote_by : Operation → Recipe → Result Quote
  unfolding one_quote both_quotes
  quote_by inverse r = one_quote ar texts r now symbol (resolver r.left_symbol)
  quote_by product r =
      both_quotes ar texts r now symbol right_first (resolver r.left_symbol)
        (resolver r.right_symbol)
  quote_by quotient r =
      both_quotes ar texts r now symbol right_first (resolver r.left_symbol)
        (resolver r.right_symbol)

  -- for the recipe of the symbol, where there is one
  unfoldable pub get_quote : Option Recipe → Result Quote
  unfolding quote_by
  get_quote none = err unsupported
  get_quote (some r) = quote_by r.operation r
