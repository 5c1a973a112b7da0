-- ===== src/Registry/Scenarios.antt =====
-- A plugin with two recipes, one on top of the other, and one with a cycle.
use quick_price.Prelude.{none, All, ◌≡◌, ◌⊎◌, refl, true, false, String, List, [], ◌∷◌}
use quick_price.Prelude.Int.{pos}
use quick_price.Registry.{
  Recipe, Plugin, valid, invalid, dependency_cycle, all_recipes,
  validate_cross_plugin_synthetic_routes, validate_plugin_routes, dependencies,
}
use quick_price.Prelude.Dict.{get, put}
use quick_price.Prelude.Texts.{String-discrete}
use quick_price.Registry.Search.{each, visit}
use quick_price.Registry.Instruments.{Texts, Instrument, is_valid_instrument}
use quick_price.Registry.Identities.{
  Declared, Registry, built, build, add_plugin, add_plugins, add_instruments, add_instrument,
  add_aliases, add_alias, is_taken, with_symbol,
}
use quick_price.Registry.Aliases.{Found}
use quick_price.Registry.Resolve.{resolve-build}
use quick_price.Registry.Made.{Made}
use quick_price.Registry.Plugins.{cross_routes-acyclic}

abbrev as_is : String → String
as_is s = s

abbrev recipe : String → String → String → Recipe
recipe symbol left right = record {
  symbol = symbol;
  left_symbol = left;
  right_symbol = right;
  max_skew_seconds = pos 60;
  quote_enabled = true;
  history_enabled = false;
}

abbrev plugin : List Recipe → Plugin
plugin recipes = record { provider_bindings = []; synthetic_recipes = recipes }

abbrev layered : List Plugin
layered =
    plugin (recipe "A:C" "A:B" "B:C" ∷ [])
    ∷ plugin (recipe "A:D" "A:C" "C:D" ∷ recipe "B:C" "B:E" "E:C" ∷ [])
    ∷ []

accepts : validate_cross_plugin_synthetic_routes as_is layered ≡ valid
unfolding validate_cross_plugin_synthetic_routes each put String-discrete visit dependencies get
accepts = refl

refuses :
    validate_plugin_routes as_is as_is
      (plugin (recipe "A:C" "A:B" "B:C" ∷ recipe "A:B" "A:C" "C:B" ∷ []))
    ≡ invalid dependency_cycle
unfolding validate_plugin_routes each put String-discrete visit dependencies get
refuses = refl

cross_routes-acyclic_example :
    ((validate_cross_plugin_synthetic_routes as_is layered ≡ valid)
      × ((s : String) → Made as_is (all_recipes layered) s s → ⊥))
    ⊎ ((validate_cross_plugin_synthetic_routes as_is layered ≡ invalid dependency_cycle)
        × ((s : String) × Made as_is (all_recipes layered) s s))
cross_routes-acyclic_example = cross_routes-acyclic as_is layered

-- texts that are normal already
abbrev normal : Texts
normal = record {
  strip = as_is;
  upper = as_is;
  lower = as_is;
  slash_to_colon = as_is;
  contains = λ s part. false;
}

abbrev instrument : String → String → String → List String → Instrument
instrument symbol base quote aliases = record {
  symbol = symbol;
  base = base;
  quote = quote;
  name = "n";
  description = "d";
  asset_type = "spot";
  price_basis = "last";
  stale_after_seconds = pos 60;
  quote_poll_seconds = pos 5;
  history_poll_seconds = none;
  is_bond = false;
  has_yield_strategy = false;
  has_reward_accrual_mode = false;
  underlying_asset = none;
  aliases = aliases;
}

abbrev gold : Instrument
gold = instrument "XAU:USD" "XAU" "USD" ("GOLD:USD" ∷ "XAU:USDT" ∷ [])

abbrev silver : Instrument
silver = instrument "XAG:USD" "XAG" "USD" []

abbrev metals : List Declared
metals =
    record {
      plugin_id = "metals";
      version = "1";
      instruments = gold ∷ silver ∷ [];
      has_installer = true;
      routes = plugin [];
    }
    ∷ []

abbrev metals_registry : Registry
metals_registry = record {
  instruments = ("XAU:USD", gold) ∷ ("XAG:USD", silver) ∷ [];
  aliases = ("GOLD:USD", "XAU:USD") ∷ ("XAU:USDT", "XAU:USD") ∷ [];
  plugin_ids = "metals" ∷ [];
}

builds : build normal metals ≡ built metals_registry
unfolding build add_plugins add_plugin add_instruments add_instrument add_aliases add_alias
    is_valid_instrument is_taken with_symbol each put String-discrete visit dependencies get
    validate_plugin_routes validate_cross_plugin_synthetic_routes
builds = refl

resolve-build_example : All (λ p. All (Found normal metals_registry) p.instruments) metals
resolve-build_example = resolve-build normal metals metals_registry builds
