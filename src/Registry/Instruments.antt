-- ===== src/Registry/Instruments.antt =====
-- registry.py: the checks of one instrument (`_validate_instrument`), of which the fields that are
-- checked are kept; of a number of seconds it is read where it lies.
use Prim.Native.Char.{code}
use text.Mathlib.Text.{◌==◌ as str_eq}
use Prim.Native.String as Native
use quick_price.Prelude.{
  ℕ, zero, suc, Bool, true, false, not, ◌&&◌, ◌||◌, Option, none, some, String, List, leb, ◌==◌,
  if◌then◌else◌,
}
use quick_price.Prelude.Int.{ℤ, pos, negsuc}

-- methods of Python's `str`
pub record Texts : Type 0 where
  pub strip : String → String
  pub upper : String → String
  pub lower : String → String
  pub slash_to_colon : String → String
  pub contains : String → String → Bool

pub record Instrument : Type 0 where
  pub symbol : String
  pub base : String
  pub quote : String
  pub name : String
  pub description : String
  pub asset_type : String
  pub price_basis : String
  pub stale_after_seconds : ℤ
  pub quote_poll_seconds : ℤ
  pub history_poll_seconds : Option ℤ
  pub is_bond : Bool
  pub has_yield_strategy : Bool
  pub has_reward_accrual_mode : Bool
  pub underlying_asset : Option String
  pub aliases : List String

is_head : ℕ → Bool
is_head c = (leb b'A' c && leb c b'Z') || (leb b'0' c && leb c b'9')

is_body : ℕ → Bool
unfolding is_head
is_body c = is_head c || c == b'.' || c == b'_' || c == b'-'

second_tail : String → Bool
unfolding is_body
second_tail String.[] = true
second_tail (String.◌∷◌ c s) = is_body (code c) && second_tail s

second_part : String → Bool
unfolding is_head second_tail
second_part String.[] = false
second_part (String.◌∷◌ c s) = is_head (code c) && second_tail s

first_tail : String → Bool
unfolding is_body second_part
first_tail String.[] = false
first_tail (String.◌∷◌ c s) =
    let rest = first_tail s in if code c == b':' then second_part s else is_body (code c) && rest

-- `_SYMBOL_PATTERN.fullmatch`
unfoldable pub is_symbol : String → Bool
unfolding is_head first_tail
is_symbol String.[] = false
is_symbol (String.◌∷◌ c s) = is_head (code c) && first_tail s

is_positive : ℤ → Bool
is_positive (pos zero) = false
is_positive (pos (suc n)) = true
is_positive (negsuc n) = false

is_poll : Option ℤ → Bool
is_poll none = true
is_poll (some (negsuc n)) = false
is_poll (some (pos n)) = leb 1 n && leb n 86_400

module _ (x : Texts) where
  unfoldable pub normalize_symbol : String → String
  normalize_symbol value = x.slash_to_colon (x.upper (x.strip value))

  unfoldable pub is_blank : String → Bool
  is_blank s = str_eq (x.strip s) ""

  has_underlying : Option String → Bool
  unfolding is_blank
  has_underlying none = false
  has_underlying (some asset) = not (is_blank asset)

  is_plain : Option String → Bool
  unfolding is_blank
  is_plain none = true
  is_plain (some asset) = not (is_blank asset) && str_eq asset (x.upper (x.strip asset))

  is_income_valid : Instrument → Bool
  unfolding has_underlying is_plain
  is_income_valid item =
      (not item.is_bond || item.has_yield_strategy)
      && (not (x.contains "staking" (x.lower item.asset_type))
          || (item.has_reward_accrual_mode
              && item.has_yield_strategy
              && has_underlying item.underlying_asset))
      && (not item.has_reward_accrual_mode || item.has_yield_strategy)
      && is_plain item.underlying_asset

  is_described : Instrument → Bool
  unfolding is_blank
  is_described item =
      str_eq item.base (x.upper (x.strip item.base))
      && str_eq item.quote (x.upper (x.strip item.quote))
      && str_eq item.symbol (Native.◌++◌ item.base (Native.◌++◌ ":" item.quote))
      && not (
          is_blank item.name
          || is_blank item.description
          || is_blank item.asset_type
          || is_blank item.price_basis)
      && is_positive item.stale_after_seconds
      && is_positive item.quote_poll_seconds
      && is_poll item.history_poll_seconds

  -- `_validate_instrument` returns its argument where all its checks hold.
  unfoldable pub is_valid_instrument : Instrument → Bool
  unfolding normalize_symbol is_symbol is_described is_income_valid is_positive is_poll
  is_valid_instrument item =
      str_eq (normalize_symbol item.symbol) item.symbol
      && (is_symbol (normalize_symbol item.symbol) && is_described item && is_income_valid item)
