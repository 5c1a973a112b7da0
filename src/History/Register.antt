-- ===== src/History/Register.antt =====
-- cache.py, `register_synthetic_history`: a recipe is taken in, unless it would close a cycle. A recipe
-- with one input names it twice. `_synthetic_dependents` holds each dependent once.
use text.Mathlib.Text.{◌==◌ as str_eq}
use quick_price.Prelude.{
  ℕ, zero, suc, Bool, true, false, ◌&&◌, Option, none, some, String, List, [], ◌∷◌, ◌++◌, ◌==◌,
  if◌then◌else◌, length,
}
use quick_price.Prelude.Int.{ℤ, pos, negsuc}
use quick_price.Prelude.Dict.{Dict, get, put, pop}
use quick_price.Prelude.Texts.{String-discrete}
use quick_price.History.Cache.{Cache, dependents_of, invalidate}
use quick_price.Registry.Search.{mem}
use quick_price.Synthetic.Base.{Operation, inverse, product, quotient, Recipe}

pub data Refusal : Type 0 where
  invalid_recipe negative_skew cyclic : Refusal

pub data Registered : Type 0 where
  ok : Cache → Registered
  err : Refusal → Registered

abbrev pub new_recipe : Operation → String → String → ℤ → String → Recipe
new_recipe operation left right max_skew provider = record {
  left_symbol = left;
  right_symbol = right;
  operation = operation;
  max_skew = max_skew;
  left_max_age = none;
  right_max_age = none;
  provider_name = provider;
}

-- the operation's name, and as many inputs as it takes
unfoldable pub make_recipe : String → List String → ℤ → String → Option Recipe
make_recipe operation [] max_skew provider = none
make_recipe operation (a ∷ []) max_skew provider =
    if str_eq operation "inverse" then some (new_recipe inverse a a max_skew provider) else none
make_recipe operation (a ∷ b ∷ []) max_skew provider =
    if str_eq operation "multiply"
    then some (new_recipe product a b max_skew provider)
    else if str_eq operation "divide"
    then some (new_recipe quotient a b max_skew provider)
    else none
make_recipe operation (a ∷ b ∷ x ∷ rest) max_skew provider = none

abbrev pub inputs_by : Operation → Recipe → List String
inputs_by inverse r = r.left_symbol ∷ []
inputs_by product r = r.left_symbol ∷ r.right_symbol ∷ []
inputs_by quotient r = r.left_symbol ∷ r.right_symbol ∷ []

-- recipe.inputs
abbrev pub inputs_of : Recipe → List String
inputs_of r = inputs_by r.operation r

-- the inputs of a symbol that has a recipe
abbrev pub inputs_or_none : Option Recipe → Option (List String)
inputs_or_none none = none
inputs_or_none (some r) = some (inputs_of r)

unfoldable pub inputs_at : Dict String Recipe → String → Option (List String)
inputs_at recipes symbol = inputs_or_none (get String-discrete symbol recipes)

abbrev pub or_no_inputs : Option (List String) → List String
or_no_inputs none = []
or_no_inputs (some ds) = ds

-- The answer with the symbols visited; none where the fuel ran out.
abbrev pub Found : Type 0
Found = Option (Bool × List String)

-- any(reaches_target(dependency, visited) for dependency in inputs)
unfoldable pub any_reaches : (String → List String → Found) → List String → List String → Found
any_reaches f [] visited = some (false, visited)
any_reaches f (d ∷ ds) visited = elim (f d visited) [
  | none ↦ none
  | some (found, visited') ↦ elim found [
    | true ↦ some (true, visited')
    | false ↦ any_reaches f ds visited'
  ]
]

module _ (deps : String → Option (List String)) (target : String) where
  -- `reaches_target`
  unfoldable pub reaches_target : ℕ → String → List String → Found
  unfolding mem any_reaches
  reaches_target zero candidate visited = none
  reaches_target (suc fuel) candidate visited =
      let inner =
        any_reaches (reaches_target fuel) (or_no_inputs (deps candidate)) (candidate ∷ visited) in
      if str_eq candidate target
      then some (true, visited)
      else if mem candidate visited
      then some (false, visited)
      else inner

-- every symbol that a search from the inputs can come to
unfoldable pub all_inputs : Dict String Recipe → List String
all_inputs [] = []
all_inputs ((symbol, r) ∷ rest) = inputs_of r ++ all_inputs rest

-- any(reaches_target(dependency, set()) for dependency in inputs)
unfoldable pub any_input : (String → Found) → List String → Option Bool
any_input f [] = some false
any_input f (d ∷ ds) = elim (f d) [
  | none ↦ none
  | some (found, visited) ↦ elim found [ true ↦ some true | false ↦ any_input f ds ]
]

unfoldable pub closes_cycle : Dict String Recipe → String → List String → Option Bool
unfolding reaches_target inputs_at all_inputs any_input
closes_cycle recipes symbol inputs =
    any_input
      (λ d.
        reaches_target (inputs_at recipes) symbol (suc (suc (length (all_inputs recipes)))) d [])
      inputs

unfoldable pub without : String → List String → List String
without symbol [] = []
without symbol (x ∷ xs) = let rest = without symbol xs in if str_eq x symbol then rest else x ∷ rest

-- `self._synthetic_dependents[dependency].discard(symbol)`, for the inputs of the old recipe
unfoldable pub discard_each :
    String → List String → Dict String (List String) → Dict String (List String)
unfolding without dependents_of
discard_each symbol [] dependents = dependents
discard_each symbol (d ∷ ds) dependents =
    discard_each symbol ds
      (put String-discrete d (without symbol (dependents_of dependents d)) dependents)

-- `self._synthetic_dependents[dependency].add(symbol)`
unfoldable pub add_each :
    String → List String → Dict String (List String) → Dict String (List String)
unfolding dependents_of mem
add_each symbol [] dependents = dependents
add_each symbol (d ∷ ds) dependents =
    let there = dependents_of dependents d in
    add_each symbol ds
      (if mem symbol there then dependents else put String-discrete d (symbol ∷ there) dependents)

unfoldable pub old_inputs : Option Recipe → List String
old_inputs none = []
old_inputs (some r) = inputs_of r

-- the assignments under the lock
unfoldable pub write_recipe : Cache → String → Recipe → Cache
unfolding discard_each add_each old_inputs invalidate
write_recipe c symbol r =
    invalidate
      (record c {
        rings = pop String-discrete symbol c.rings;
        recipes = put String-discrete symbol r c.recipes;
        dependents =
            add_each symbol (inputs_of r) (
              discard_each symbol (old_inputs (get String-discrete symbol c.recipes)) c.dependents);
      })
      none symbol

unfoldable pub operation_code : Operation → ℕ
operation_code inverse = 0
operation_code product = 1
operation_code quotient = 2

unfoldable pub same_skew : ℤ → ℤ → Bool
same_skew (pos m) (pos n) = m == n
same_skew (negsuc m) (negsuc n) = m == n
same_skew _ _ = false

-- current == recipe
unfoldable pub same_recipe : Option Recipe → Recipe → Bool
unfolding operation_code same_skew
same_recipe none r = false
same_recipe (some q) r =
    str_eq q.left_symbol r.left_symbol
    && str_eq q.right_symbol r.right_symbol
    && operation_code q.operation == operation_code r.operation
    && same_skew q.max_skew r.max_skew
    && str_eq q.provider_name r.provider_name

unfoldable pub checked : Cache → String → Recipe → Option Bool → Option Registered
unfolding same_recipe write_recipe
checked c symbol r none = none
checked c symbol r (some true) = some (err cyclic)
checked c symbol r (some false) =
    if same_recipe (get String-discrete symbol c.recipes) r
    then some (ok c)
    else some (ok (write_recipe c symbol r))

unfoldable pub unless_negative : ℤ → Option Registered → Option Registered
unless_negative (pos n) next = next
unless_negative (negsuc n) next = some (err negative_skew)

unfoldable pub register_made : Cache → String → Option Recipe → Option Registered
unfolding checked closes_cycle unless_negative
register_made c symbol none = some (err invalid_recipe)
register_made c symbol (some r) =
    unless_negative r.max_skew (checked c symbol r (closes_cycle c.recipes symbol (inputs_of r)))

-- `register_synthetic_history`; none where the fuel of the search ran out
unfoldable pub register : Cache → String → List String → String → ℤ → String → Option Registered
unfolding register_made make_recipe
register c symbol inputs operation max_skew provider =
    register_made c symbol (make_recipe operation inputs max_skew provider)
