-- ===== src/Registry/Identities.antt =====
-- registry.py, class `InstrumentRegistry`: the symbols and aliases of the instruments of all plugins.
use text.Mathlib.Text.{◌==◌ as str_eq}
use quick_price.Prelude.{
  Bool, true, false, not, ◌&&◌, ◌||◌, Option, none, some, String, List, [], ◌∷◌, if◌then◌else◌,
}
use quick_price.Prelude.Dict.{Dict, get, put}
use quick_price.Prelude.Texts.{String-discrete}
use quick_price.Registry.{
  Plugin, Verdict, valid, validate_plugin_routes, validate_cross_plugin_synthetic_routes,
}
use quick_price.Registry.Instruments.{
  Texts, Instrument, is_symbol, normalize_symbol, is_blank, is_valid_instrument,
}

-- a plugin with its identity and instruments
pub record Declared : Type 0 where
  pub plugin_id : String
  pub version : String
  pub instruments : List Instrument
  pub has_installer : Bool
  pub routes : Plugin

-- the errors, each a ValueError; `bad_plugin` and `bad_instrument` stand for those of the several
-- checks of a plugin and of an instrument
pub data Refusal : Type 0 where
  no_plugin bad_plugin bad_instrument duplicate_identity invalid_alias duplicate_alias : Refusal
  bad_routes : Verdict → Refusal

pub data Built (A : Type 0) : Type 0 where
  built : A → Built A
  refused : Refusal → Built A

abbrev pub and_then : {A B : Type 0} → Built A → (A → Built B) → Built B
and_then (refused e) next = refused e
and_then (built a) next = next a

pub record Registry : Type 0 where
  pub instruments : Dict String Instrument
  pub aliases : Dict String String
  pub plugin_ids : List String

module _ (x : Texts) where
  -- `name in instruments or name in aliases`
  unfoldable pub is_taken : Registry → String → Bool
  is_taken reg s = elim (get String-discrete s reg.instruments) [
    | some item ↦ true
    | none ↦ elim (get String-discrete s reg.aliases) [ some symbol ↦ true | none ↦ false ]
  ]

  unfoldable pub add_alias : String → Registry → String → Built Registry
  unfolding is_taken
  add_alias symbol reg alias =
      if not (is_symbol alias)
      then refused invalid_alias
      else if is_taken reg alias
      then refused duplicate_alias
      else built (record reg { aliases = put String-discrete alias symbol reg.aliases })

  unfoldable pub add_aliases : String → Registry → List String → Built Registry
  add_aliases symbol reg [] = built reg
  add_aliases symbol reg (raw ∷ raws) =
      and_then (add_alias symbol reg (normalize_symbol x raw)) λ reg'. add_aliases symbol reg' raws

  unfoldable pub with_symbol : Registry → Instrument → Registry
  with_symbol reg item = record reg {
    instruments = put String-discrete item.symbol item reg.instruments;
  }

  unfoldable pub add_instrument : Registry → Instrument → Built Registry
  unfolding is_taken with_symbol
  add_instrument reg item =
      if not (is_valid_instrument x item)
      then refused bad_instrument
      else if is_taken reg item.symbol
      then refused duplicate_identity
      else add_aliases item.symbol (with_symbol reg item) item.aliases

  unfoldable pub add_instruments : Registry → List Instrument → Built Registry
  add_instruments reg [] = built reg
  add_instruments reg (item ∷ items) =
      and_then (add_instrument reg item) λ reg'. add_instruments reg' items

  is_in : String → List String → Bool
  is_in s [] = false
  is_in s (t ∷ ts) = str_eq s t || is_in s ts

  lacks_installation : Declared → Bool
  lacks_installation p = elim p.instruments [
    | [] ↦ false
    | item ∷ items ↦
        not p.has_installer
        && elim p.routes.provider_bindings [ [] ↦ true | b ∷ bs ↦ false ]
        && elim p.routes.synthetic_recipes [ [] ↦ true | r ∷ rs ↦ false ]
  ]

  unfoldable pub checked_routes : Verdict → Registry → Built Registry
  checked_routes valid reg = built reg
  checked_routes (Verdict.invalid e) reg = refused (bad_routes (Verdict.invalid e))
  checked_routes Verdict.out_of_fuel reg = refused (bad_routes Verdict.out_of_fuel)

  unfoldable pub is_bad_plugin : Registry → Declared → Bool
  unfolding is_blank is_in lacks_installation
  is_bad_plugin reg p =
      is_blank x p.plugin_id
      || is_in (x.strip p.plugin_id) reg.plugin_ids
      || is_blank x p.version
      || lacks_installation p

  unfoldable pub add_plugin : Registry → Declared → Built Registry
  unfolding is_bad_plugin checked_routes
  add_plugin reg p =
      if is_bad_plugin reg p
      then refused bad_plugin
      else and_then
          (checked_routes (validate_plugin_routes (normalize_symbol x) x.strip p.routes)
            (record reg { plugin_ids = x.strip p.plugin_id ∷ reg.plugin_ids }))
          λ reg'. add_instruments reg' p.instruments

  unfoldable pub add_plugins : Registry → List Declared → Built Registry
  add_plugins reg [] = built reg
  add_plugins reg (p ∷ ps) = and_then (add_plugin reg p) λ reg'. add_plugins reg' ps

  unfoldable pub routes_of : List Declared → List Plugin
  routes_of [] = []
  routes_of (p ∷ ps) = p.routes ∷ routes_of ps

  -- `InstrumentRegistry.__init__`
  unfoldable pub build : List Declared → Built Registry
  unfolding routes_of checked_routes
  build [] = refused no_plugin
  build (p ∷ ps) =
      and_then (add_plugins (record { instruments = []; aliases = []; plugin_ids = [] }) (p ∷ ps))
        λ reg.
          checked_routes
            (validate_cross_plugin_synthetic_routes (normalize_symbol x) (routes_of (p ∷ ps))) reg

  -- `resolve`, for a normalized text and for any
  unfoldable pub find : Registry → String → Option Instrument
  find reg s = elim (get String-discrete s reg.aliases) [
    | some canonical ↦ get String-discrete canonical reg.instruments
    | none ↦ get String-discrete s reg.instruments
  ]

  unfoldable pub resolve : Registry → String → Option Instrument
  unfolding find
  resolve reg value = find reg (normalize_symbol x value)
