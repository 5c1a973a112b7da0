-- ===== src/Registry/Plugins.antt =====
-- registry.py: the recipes of plugins, as a relation between symbols.
use text.Mathlib.Text.{◌==◌ as str_eq}
use text.Mathlib.TextEquality.{eq_iff}
use mathlib.Core.List.{append-nil, append_assoc}
use mathlib.Core.Path.{subst, fun_ext}
use quick_price.Prelude.{
  ◌≡◌, ◌⊎◌, refl, sym, ap, ◌∙◌, inl, inr, true, Option, none, some, String, List, [], ◌∷◌, ◌++◌,
  if◌then◌else◌, arith, Option-cases,
}
use quick_price.Prelude.Dict.{Dict, get, get-put}
use quick_price.Prelude.Texts.{String-discrete}
use quick_price.Registry.{
  Recipe, Plugin, valid, invalid, dependency_cycle, with_recipe, keys, outputs_of, inputs_of,
  dependencies, visit_all, all_recipes, verdict_of, validate_cross_plugin_synthetic_routes,
}
use quick_price.Registry.Search.{mem}
use quick_price.Registry.Cycles.{Reach}
use quick_price.Registry.Made.{recipes_for, join, made_of, Made, Reach-Made, Made-Reach}
use quick_price.Registry.Fuel.{Covers, search_lem}

mem-keys :
    (s : String) (outputs : Dict String (List Recipe)) (rs : List Recipe)
    → get String-discrete s outputs ≡ some rs
    → mem s (keys outputs) ≡ true
unfolding get keys mem
mem-keys s [] rs e = absurd (cc e)
mem-keys s ((k, v) ∷ outputs) rs e = ground (arith, eq_iff s k, mem-keys s outputs rs)

module _ (normalize : String → String) where
  join-nil : (o : Option (List Recipe)) → join o [] ≡ o
  join-nil none = refl
  join-nil (some l) = ap some (append-nil l)

  join-with_recipe :
      (k s : String) (r : Recipe) (outputs : Dict String (List Recipe)) (l : List Recipe)
      → join (get String-discrete s (with_recipe k r outputs)) l
        ≡ join (get String-discrete s outputs) (if str_eq k s then r ∷ l else l)
  unfolding with_recipe
  join-with_recipe k s r outputs l = elim (String-discrete k s) [
    | yes p ↦ elim (Option-cases (get String-discrete s outputs)) [
      | inl e ↦
          let e' : get String-discrete k outputs ≡ none =
            ap (λ z. get String-discrete z outputs) p ∙ e in
          ground (arith, eq_iff k s, get-put String-discrete k s (r ∷ []) outputs)
      | inr (old, e) ↦
          let e' : get String-discrete k outputs ≡ some old =
            ap (λ z. get String-discrete z outputs) p ∙ e in
          ground (
            arith,
            eq_iff k s,
            get-put String-discrete k s (old ++ r ∷ []) outputs,
            append_assoc old (r ∷ []) l,
          )
    ]
    | no n ↦ ground (
      arith,
      eq_iff k s,
      get-put String-discrete k s
          (elim (get String-discrete k outputs) [
            | none ↦ r ∷ []
            | some recipes ↦ recipes ++ r ∷ []
          ])
          outputs,
    )
  ]

  get-outputs_of :
      (s : String) (outputs : Dict String (List Recipe)) (rs : List Recipe)
      → get String-discrete s (outputs_of normalize outputs rs)
        ≡ join (get String-discrete s outputs) (recipes_for normalize s rs)
  unfolding outputs_of
  get-outputs_of s outputs [] = sym (join-nil (get String-discrete s outputs))
  get-outputs_of s outputs (r ∷ rs) =
      get-outputs_of s (with_recipe (normalize r.symbol) r outputs) rs
      ∙ join-with_recipe (normalize r.symbol) s r outputs (recipes_for normalize s rs)

  dependencies-made_of :
      (rs : List Recipe) (s : String)
      → dependencies normalize (outputs_of normalize [] rs) s ≡ made_of normalize rs s
  unfolding dependencies get
  dependencies-made_of rs s = ap (inputs_of normalize) (get-outputs_of s [] rs)

  outputs-Covers :
      (outputs : Dict String (List Recipe)) → Covers (dependencies normalize outputs) (keys outputs)
  unfolding dependencies
  outputs-Covers outputs s ds made = elim (Option-cases (get String-discrete s outputs)) [
    | inl e ↦ absurd (cc (rw e at made))
    | inr (rs, e) ↦ mem-keys s outputs rs e
  ]

  verdict-by_search :
      (rs : List Recipe)
      → ((verdict_of (visit_all normalize (outputs_of normalize [] rs)) ≡ valid)
          × ((s : String) → Reach (made_of normalize rs) s s → ⊥))
        ⊎ ((verdict_of (visit_all normalize (outputs_of normalize [] rs))
              ≡ invalid dependency_cycle)
            × ((s : String) × Reach (made_of normalize rs) s s))
  unfolding visit_all verdict_of
  verdict-by_search rs =
      let outputs = outputs_of normalize [] rs in
      let same : dependencies normalize outputs ≡ made_of normalize rs =
        fun_ext (dependencies-made_of rs) in
      elim (search_lem (dependencies normalize outputs) (keys outputs) (outputs-Covers outputs)) [
        | inl (xs, e, none_found) ↦
            inl ((rw e refl), subst (λ d. (s : String) → Reach d s s → ⊥) same none_found)
        | inr (e, found) ↦ inr ((rw e refl), subst (λ d. (s : String) × Reach d s s) same found)
      ]

  -- The recipes of all plugins are valid where no symbol is made of itself, by the left and right
  -- symbols of the recipes for it, directly or through others, and invalid for a dependency cycle
  -- where one is; there is no third case.
  pub cross_routes-acyclic :
      (plugins : List Plugin)
      → ((validate_cross_plugin_synthetic_routes normalize plugins ≡ valid)
          × ((s : String) → Made normalize (all_recipes plugins) s s → ⊥))
        ⊎ ((validate_cross_plugin_synthetic_routes normalize plugins ≡ invalid dependency_cycle)
            × ((s : String) × Made normalize (all_recipes plugins) s s))
  unfolding validate_cross_plugin_synthetic_routes
  cross_routes-acyclic plugins =
      let rs = all_recipes plugins in
      elim (verdict-by_search rs) [
        | inl (e, none_found) ↦ inl (e, λ s made. none_found s (Made-Reach normalize rs s made))
        | inr (e, (s, found)) ↦ inr (e, (s, Reach-Made normalize rs s found))
      ]
