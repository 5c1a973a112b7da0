-- ===== src/History/Retained.antt =====
-- cache.py, `retain_symbols`: the loop over the recipes, and the whole.
use text.Mathlib.TextEquality.{eq_iff}
use mathlib.Core.Path.{subst}
use quick_price.Prelude.{
  ◌-◌, ◌≡◌, ◌≢◌, ◌⊎◌, refl, sym, ◌∙◌, inl, inr, true, false, none, some, String, List, [], ◌∷◌, ite,
  Bool-cases, Option-cases, arith,
}
use quick_price.Prelude.Dict.{get, get-put, get-pop, get-pop_self}
use quick_price.Prelude.Texts.{String-discrete}
use quick_price.Registry.Search.{mem}
use quick_price.History.Cache.{Cache, rings_of, dependents_of}
use quick_price.History.Coherent.{recipe_of, references-Alike}
use quick_price.History.Changes.{AlikeRings-refl}
use quick_price.History.Kept.{IsHalf, popped-entry}
use quick_price.History.Recipes.{Dependents, mem-without}
use quick_price.History.Register.{without, old_inputs}
use quick_price.History.Retain.{put_or_pop, forget_each, drop_recipe, drop_recipes}
use quick_price.Synthetic.Base.{Arithmetic, Recipe}

dependents_of-put_or_pop :
    (d k : String) (v : List String) (dependents : Dependents)
    → dependents_of (put_or_pop d v dependents) k
      ≡ ite (String-discrete d k) v (dependents_of dependents k)
unfolding dependents_of
dependents_of-put_or_pop d k [] dependents = ground (arith, get-pop String-discrete d k dependents)
dependents_of-put_or_pop d k (x ∷ xs) dependents =
    ground (arith, get-put String-discrete d k (x ∷ xs) dependents)

mem-put_or_pop :
    (s x d k : String) (xs : List String) (dependents : Dependents)
    → s ≢ x
    → get String-discrete d dependents ≡ some xs
    → mem x (dependents_of dependents k) ≡ true
    → mem x (dependents_of (put_or_pop d (without s xs) dependents) k) ≡ true
mem-put_or_pop s x d k xs dependents apart e m = elim (String-discrete d k) [
  | yes p ↦
      let here : dependents_of (put_or_pop d (without s xs) dependents) k ≡ without s xs =
        ground (arith, dependents_of-put_or_pop d k (without s xs) dependents) in
      let old : dependents_of dependents d ≡ xs = unfold dependents_of in rw e refl in
      let at_d : mem x xs ≡ true =
        subst (λ z. mem x z ≡ true) old
          (subst (λ z. mem x (dependents_of dependents z) ≡ true) (sym p) m) in
      rw here (mem-without s x xs apart ∙ at_d)
  | no p ↦
      let here : dependents_of (put_or_pop d (without s xs) dependents) k
          ≡ dependents_of dependents k =
        ground (arith, dependents_of-put_or_pop d k (without s xs) dependents) in
      rw here m
]

mem-forget :
    (s x k : String) (ds : List String) (dependents : Dependents)
    → s ≢ x
    → mem x (dependents_of dependents k) ≡ true
    → mem x (dependents_of (forget_each s ds dependents) k) ≡ true
unfolding forget_each
mem-forget s x k [] dependents apart m = m
mem-forget s x k (d ∷ ds) dependents apart m =
    elim (Option-cases (get String-discrete d dependents)) [
      | inl e ↦ rw (e, forget_each) (mem-forget s x k ds dependents apart m)
      | inr (xs, e) ↦
          rw (e, forget_each)
            (mem-forget s x k ds (put_or_pop d (without s xs) dependents) apart
              (mem-put_or_pop s x d k xs dependents apart e m))
    ]

pub recipe_of-drop :
    (c : Cache) (s x : String) → s ≢ x → recipe_of (drop_recipe c s) x ≡ recipe_of c x
unfolding drop_recipe
recipe_of-drop c s x apart = ground (arith, get-pop String-discrete s x c.recipes)

recipe_of-drop_self : (c : Cache) (s : String) → recipe_of (drop_recipe c s) s ≡ none
unfolding drop_recipe
recipe_of-drop_self c s = get-pop_self String-discrete s c.recipes

pub recipe_of-dropped :
    (c : Cache) (s x : String) (r : Recipe)
    → recipe_of (drop_recipe c s) x ≡ some r
    → (s ≢ x) × (recipe_of c x ≡ some r)
recipe_of-dropped c s x r h = elim (String-discrete s x) [
  | yes p ↦
      let gone = subst (λ z. recipe_of (drop_recipe c s) z ≡ none) p (recipe_of-drop_self c s) in
      absurd (cc (gone, h))
  | no p ↦ (p, sym (recipe_of-drop c s x p) ∙ h)
]

module _ (ar : Arithmetic) (kept : List String) where
  pub rings_of-drop_recipe :
      (c : Cache) (s y : String) → rings_of (drop_recipe c s) y ≡ rings_of c y
  unfolding rings_of drop_recipe
  rings_of-drop_recipe c s y = refl

  drop_recipe-IsHalf :
      (c : Cache) (s : String)
      → mem s kept ≡ false
      → IsHalf ar kept c
      → IsHalf ar kept (drop_recipe c s)
  unfolding drop_recipe rings_of
  drop_recipe-IsHalf c s off half = record {
    fresh = λ x e which h.
        let (apart, before) = popped-entry ar kept x s e c.cached h in
        let same = recipe_of-drop c s x apart in
        half.fresh x e (elim which [ inl on ↦ inl on | inr plain ↦ inr (sym same ∙ plain) ]) before
        ∙ references-Alike ar c (drop_recipe c s) x e.as_of same half.ordered half.ordered
            (λ y reads. AlikeRings-refl (e.as_of - 3_600) (rings_of c y));
    ordered = half.ordered;
    aligned = half.aligned;
    linked = λ x r h.
        let (apart, before) = recipe_of-dropped c s x r h in
        let (l, m) = half.linked x r before in
        let ds = old_inputs (get String-discrete s c.recipes) in
        (
          mem-forget s x r.left_symbol ds c.dependents apart l,
          mem-forget s x r.right_symbol ds c.dependents apart m,
        );
    closed = λ x r on h. half.closed x r on (recipe_of-dropped c s x r h).1;
  }

  pub drop_recipes-IsHalf :
      (ss : List String) (c : Cache) → IsHalf ar kept c → IsHalf ar kept (drop_recipes ss kept c)
  unfolding drop_recipes
  drop_recipes-IsHalf [] c half = half
  drop_recipes-IsHalf (s ∷ ss) c half = elim (Bool-cases (mem s kept)) [
    | inl on ↦ rw (on, drop_recipes) (drop_recipes-IsHalf ss c half)
    | inr off ↦
        rw (off, drop_recipes)
          (drop_recipes-IsHalf ss (drop_recipe c s) (drop_recipe-IsHalf c s off half))
  ]

  still :
      (x s : String) (ss : List String) (c : Cache)
      → mem s kept ≡ true
      → mem x kept ≡ false
      → (mem x (s ∷ ss) ≡ true) ⊎ (recipe_of c x ≡ none)
      → (mem x ss ≡ true) ⊎ (recipe_of c x ≡ none)
  still x s ss c on off (inr e) = inr e
  still x s ss c on off (inl m) = elim (String-discrete x s) [
    | yes p ↦ absurd (cc (on, subst (λ z. mem z kept ≡ false) p off))
    | no p ↦ inl (unfold mem in ground (arith, eq_iff x s))
  ]

  left :
      (x s : String) (ss : List String) (c : Cache)
      → (mem x (s ∷ ss) ≡ true) ⊎ (recipe_of c x ≡ none)
      → (mem x ss ≡ true) ⊎ (recipe_of (drop_recipe c s) x ≡ none)
  left x s ss c which = elim (String-discrete s x) [
    | yes p ↦ inr (subst (λ z. recipe_of (drop_recipe c s) z ≡ none) p (recipe_of-drop_self c s))
    | no p ↦ elim which [
      | inr e ↦ inr (recipe_of-drop c s x p ∙ e)
      | inl m ↦ inl (unfold mem in ground (arith, eq_iff x s))
    ]
  ]

  -- The recipes of the symbols that are not kept go.
  pub drop_recipes-none :
      (ss : List String) (c : Cache) (x : String)
      → mem x kept ≡ false
      → (mem x ss ≡ true) ⊎ (recipe_of c x ≡ none)
      → recipe_of (drop_recipes ss kept c) x ≡ none
  unfolding drop_recipes
  drop_recipes-none [] c x off (inl m) = absurd (unfold mem in cc m)
  drop_recipes-none [] c x off (inr e) = e
  drop_recipes-none (s ∷ ss) c x off which = elim (Bool-cases (mem s kept)) [
    | inl on ↦ rw (on, drop_recipes) (drop_recipes-none ss c x off (still x s ss c on off which))
    | inr gone ↦
        rw (gone, drop_recipes) (drop_recipes-none ss (drop_recipe c s) x off (left x s ss c which))
  ]
