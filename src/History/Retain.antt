-- ===== src/History/Retain.antt =====
-- cache.py, `retain_symbols`: the symbols that are kept, with all that they are made of; the rings,
-- recipes and references of the others go. Of the list of pending symbols the head is its end.
use quick_price.Prelude.{
  ℕ, zero, suc, ◌+◌, true, false, Option, none, some, String, List, [], ◌∷◌, if◌then◌else◌, length,
  map,
}
use quick_price.Prelude.Dict.{Dict, get, put, pop}
use quick_price.Prelude.Texts.{String-discrete}
use quick_price.Registry.Search.{mem}
use quick_price.History.{Rings}
use quick_price.History.Cache.{Cache, rings_of}
use quick_price.History.Register.{without, inputs_at, or_no_inputs, all_inputs, old_inputs}

-- the loop over the inputs of a recipe: the symbols to keep, and those that are pending
unfoldable pub push_inputs : List String → List String → List String → List String × List String
unfolding mem
push_inputs [] kept pending = (kept, pending)
push_inputs (d ∷ ds) kept pending =
    let there = push_inputs ds kept pending in
    let added = push_inputs ds (d ∷ kept) (d ∷ pending) in
    elim (mem d kept) [ true ↦ there | false ↦ added ]

-- `while pending`; none where the fuel ran out
unfoldable pub close_over :
    (String → Option (List String)) → ℕ → List String → List String → Option (List String)
unfolding push_inputs
close_over deps fuel [] kept = some kept
close_over deps zero (s ∷ pending) kept = none
close_over deps (suc fuel) (s ∷ pending) kept =
    let (kept', pending') = push_inputs (or_no_inputs (deps s)) kept pending in
    close_over deps fuel pending' kept'

-- The rings of a symbol, and its references, go.
unfoldable pub drop_rings : Cache → String → Cache
drop_rings c s = record c {
  rings = pop String-discrete s c.rings;
  cached = pop String-discrete s c.cached;
}

abbrev pub size_of : Rings → ℕ
size_of r = length r.one_minute + length r.five_minute + length r.daily

-- the loop over `present - retained`, and how many points went
unfoldable pub drop_absent : List String → List String → Cache → Cache × ℕ
unfolding drop_rings mem rings_of
drop_absent [] kept c = (c, 0)
drop_absent (s ∷ ss) kept c =
    let there = drop_absent ss kept c in
    let (c', removed) = drop_absent ss kept (drop_rings c s) in
    elim (mem s kept) [ true ↦ there | false ↦ (c', size_of (rings_of c s) + removed) ]

abbrev pub put_or_pop : String → List String → Dict String (List String) → Dict String (List String)
put_or_pop d [] dependents = pop String-discrete d dependents
put_or_pop d (x ∷ xs) dependents = put String-discrete d (x ∷ xs) dependents

-- `dependents.discard(symbol)` of each input; a set that is empty then goes
unfoldable pub forget_each :
    String → List String → Dict String (List String) → Dict String (List String)
unfolding without
forget_each symbol [] dependents = dependents
forget_each symbol (d ∷ ds) dependents =
    forget_each symbol ds (elim (get String-discrete d dependents) [
      | none ↦ dependents
      | some xs ↦ put_or_pop d (without symbol xs) dependents
    ])

unfoldable pub drop_recipe : Cache → String → Cache
unfolding forget_each old_inputs
drop_recipe c s = record c {
  recipes = pop String-discrete s c.recipes;
  cached = pop String-discrete s c.cached;
  dependents = forget_each s (old_inputs (get String-discrete s c.recipes)) c.dependents;
}

-- the loop over the recipes
unfoldable pub drop_recipes : List String → List String → Cache → Cache
unfolding drop_recipe mem
drop_recipes [] kept c = c
drop_recipes (s ∷ ss) kept c = drop_recipes ss kept (if mem s kept then c else drop_recipe c s)

unfoldable pub keep_only : Option (List String) → Cache → Option (Cache × ℕ)
unfolding drop_absent drop_recipes
keep_only none c = none
keep_only (some kept) c =
    let (c', removed) = drop_absent (map (λ entry. entry.0) c.rings) kept c in
    some (drop_recipes (map (λ entry. entry.0) c.recipes) kept c', removed)

-- `retain_symbols`; none where the fuel ran out
unfoldable pub retain_symbols : Cache → List String → Option (Cache × ℕ)
unfolding keep_only close_over inputs_at all_inputs
retain_symbols c symbols =
    keep_only
      (close_over (inputs_at c.recipes) (length symbols + length (all_inputs c.recipes)) symbols
        symbols)
      c
