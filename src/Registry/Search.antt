-- ===== src/Registry/Search.antt =====
-- registry.py, the function `visit` in `_validate_plugin_routes`: a search by depth, which keeps the
-- symbols on its way in `visiting` and those that it is through with in `visited`. The symbols that
-- a symbol is made of are a parameter; it has none where no recipe makes it.
use text.Mathlib.Text.{◌==◌ as str_eq}
use quick_price.Prelude.{
  ℕ, zero, suc, Bool, false, ◌||◌, Option, none, some, String, List, [], ◌∷◌, if◌then◌else◌,
}

-- the symbols visited so far, or the ValueError; `exhausted` where the fuel ran out
pub data Visit : Type 0 where
  done : List String → Visit
  cycle exhausted : Visit

-- `symbol in xs`
unfoldable pub mem : String → List String → Bool
mem s [] = false
mem s (x ∷ xs) = str_eq s x || mem s xs

-- what follows, where no error was raised
abbrev pub and_then : Visit → (List String → Visit) → Visit
and_then (done visited) next = next visited
and_then cycle next = cycle
and_then exhausted next = exhausted

unfoldable pub each : (String → List String → Visit) → List String → List String → Visit
each f [] visited = done visited
each f (d ∷ ds) visited = and_then (f d visited) (each f ds)

-- `symbol not in outputs`, or what follows
abbrev pub if_made : Option (List String) → Visit → (List String → Visit) → Visit
if_made none otherwise next = otherwise
if_made (some ds) otherwise next = next ds

module _ (deps : String → Option (List String)) where
  unfoldable pub visit : ℕ → List String → String → List String → Visit
  unfolding mem each
  visit zero visiting s visited = exhausted
  visit (suc fuel) visiting s visited = if_made (deps s) (done visited) λ ds.
      let inner = and_then (each (visit fuel (s ∷ visiting)) ds visited) (λ v. done (s ∷ v)) in
      if mem s visited then done visited else if mem s visiting then cycle else inner
