-- ===== src/Synthetic/Base.antt =====
-- providers/synthetic.py: recipes, errors and the arithmetic of prices.
-- Prices are opaque numbers: `Arithmetic` is Python's `Decimal`, where `none` is an arithmetic
-- error, and `is_positive` the test `> 0`. Times are natural numbers of microseconds.
use quick_price.Prelude.{ℕ, Bool, Option, none, some, String, if◌then◌else◌}
use quick_price.Prelude.Int.{ℤ}

pub record Arithmetic : Type 0 where
  pub multiply : ℕ → ℕ → Option ℕ
  pub divide : ℕ → ℕ → Option ℕ
  pub reciprocal : ℕ → Option ℕ
  pub is_positive : ℕ → Bool

pub data Operation : Type 0 where
  inverse product quotient : Operation

-- `SyntheticRecipe`, for one output symbol
pub record Recipe : Type 0 where
  pub left_symbol : String
  pub right_symbol : String
  pub operation : Operation
  pub max_skew : ℤ
  pub left_max_age : Option ℕ
  pub right_max_age : Option ℕ
  pub provider_name : String

pub data Failure : Type 0 where
  negative_skew exceeds_skew in_future left_stale right_stale bad_arithmetic not_positive : Failure
  unsupported no_overlap : Failure
  raised : ℕ → Failure

pub data Result {ℓ} (A : Type ℓ) : Type ℓ where
  ok : A → Result A
  err : Failure → Result A

-- the price of a quote or point, and its error
unfoldable pub positive : Arithmetic → Option ℕ → Result ℕ
positive ar none = err bad_arithmetic
positive ar (some price) = if ar.is_positive price then ok price else err not_positive

unfoldable pub combined : Arithmetic → Operation → ℕ → ℕ → Option ℕ
combined ar inverse a b = ar.reciprocal a
combined ar product a b = ar.multiply a b
combined ar quotient a b = ar.divide a b
