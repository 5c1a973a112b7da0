-- ===== src/Registry.antt =====
-- registry.py, class `InstrumentRegistry`: the checks of the routes and recipes of plugins. Python's
-- `strip().upper().replace("/", ":")` and `strip()` are the parameters `normalize` and `strip`. Of the
-- skew of a recipe only the sign is read.
pub mod Search
pub mod Order
pub mod Cycles
pub mod Fuel
pub mod Made
pub mod Plugins
pub mod Instruments
pub mod Identities
pub mod Aliases
pub mod Resolve
mod Scenarios
use text.Mathlib.Text.{◌==◌ as str_eq}
use quick_price.Prelude.{
  ℕ, zero, suc, Bool, true, false, not, ◌&&◌, ◌||◌, Option, none, some, String, List, [], ◌∷◌, ◌++◌,
  length, if◌then◌else◌,
}
use quick_price.Prelude.Dict.{Dict, get, put}
use quick_price.Prelude.Int.{ℤ, pos, negsuc}
use quick_price.Prelude.Texts.{String-discrete}
use quick_price.Registry.Search.{Visit, done, cycle, exhausted, each, visit}

pub record Recipe : Type 0 where
  pub symbol : String
  pub left_symbol : String
  pub right_symbol : String
  pub max_skew_seconds : ℤ
  pub quote_enabled : Bool
  pub history_enabled : Bool

pub record Binding : Type 0 where
  pub symbol : String
  pub providers : List String

pub record Plugin : Type 0 where
  pub provider_bindings : List Binding
  pub synthetic_recipes : List Recipe

-- the ValueErrors
pub data Failure : Type 0 where
  empty_binding invalid_provider negative_skew no_capabilities dependency_cycle : Failure

-- `out_of_fuel` does not occur: see `Registry.Fuel`.
pub data Verdict : Type 0 where
  valid : Verdict
  invalid : Failure → Verdict
  out_of_fuel : Verdict

abbrev Outputs : Type 0
Outputs = Dict String (List Recipe)

-- `outputs.setdefault(symbol, []).append(recipe)`
unfoldable pub with_recipe : String → Recipe → Outputs → Outputs
with_recipe symbol recipe outputs =
    put String-discrete symbol
      (elim (get String-discrete symbol outputs) [
        | none ↦ recipe ∷ []
        | some recipes ↦ recipes ++ recipe ∷ []
      ])
      outputs

unfoldable pub keys : Outputs → List String
keys [] = []
keys ((symbol, recipes) ∷ outputs) = symbol ∷ keys outputs

unfoldable pub verdict_of : Visit → Verdict
verdict_of (done visited) = valid
verdict_of cycle = invalid dependency_cycle
verdict_of exhausted = out_of_fuel

unfoldable pub all_recipes : List Plugin → List Recipe
all_recipes [] = []
all_recipes (p ∷ ps) = p.synthetic_recipes ++ all_recipes ps

module _ (normalize : String → String) where
  unfoldable pub outputs_of : Outputs → List Recipe → Outputs
  unfolding with_recipe
  outputs_of outputs [] = outputs
  outputs_of outputs (r ∷ rs) = outputs_of (with_recipe (normalize r.symbol) r outputs) rs

  -- the symbols that the loop over the recipes of a symbol visits
  unfoldable pub inputs : List Recipe → List String
  inputs [] = []
  inputs (r ∷ rs) = normalize r.left_symbol ∷ normalize r.right_symbol ∷ inputs rs

  abbrev pub inputs_of : Option (List Recipe) → Option (List String)
  inputs_of none = none
  inputs_of (some recipes) = some (inputs recipes)

  unfoldable pub dependencies : Outputs → String → Option (List String)
  unfolding inputs
  dependencies outputs symbol = inputs_of (get String-discrete symbol outputs)

  -- `for symbol in outputs: visit(symbol)`, with fuel for one round more than there are symbols
  unfoldable pub visit_all : Outputs → Visit
  unfolding keys
  visit_all outputs =
      each (visit (dependencies outputs) (suc (length (keys outputs))) []) (keys outputs) []

  -- `_validate_cross_plugin_synthetic_routes`
  unfoldable pub validate_cross_plugin_synthetic_routes : List Plugin → Verdict
  unfolding outputs_of all_recipes verdict_of visit_all
  validate_cross_plugin_synthetic_routes plugins =
      verdict_of (visit_all (outputs_of [] (all_recipes plugins)))

is_empty : List String → Bool
is_empty [] = true
is_empty (x ∷ xs) = false

is_negative : ℤ → Bool
is_negative (pos n) = false
is_negative (negsuc n) = true

check_recipes : List Recipe → Option Failure
unfolding is_negative
check_recipes [] = none
check_recipes (r ∷ rs) =
    let rest = check_recipes rs in
    if is_negative r.max_skew_seconds
    then some negative_skew
    else if not r.quote_enabled && not r.history_enabled
    then some no_capabilities
    else rest

module _ (normalize strip : String → String) where
  any_empty : List String → Bool
  any_empty [] = false
  any_empty (provider ∷ providers) = str_eq (strip provider) "" || any_empty providers

  check_bindings : List Binding → Option Failure
  unfolding any_empty is_empty
  check_bindings [] = none
  check_bindings (b ∷ bs) =
      let rest = check_bindings bs in
      if str_eq (strip b.symbol) "" || is_empty b.providers
      then some empty_binding
      else if any_empty b.providers
      then some invalid_provider
      else rest

  -- `_validate_plugin_routes`
  unfoldable pub validate_plugin_routes : Plugin → Verdict
  unfolding check_bindings check_recipes outputs_of verdict_of visit_all
  validate_plugin_routes plugin = elim (check_bindings plugin.provider_bindings) [
    | some e ↦ invalid e
    | none ↦ elim (check_recipes plugin.synthetic_recipes) [
      | some e ↦ invalid e
      | none ↦ verdict_of (visit_all normalize (outputs_of normalize [] plugin.synthetic_recipes))
    ]
  ]
