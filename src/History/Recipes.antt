-- ===== src/History/Recipes.antt =====
-- cache.py, `register_synthetic_history`: a new recipe leaves every reference right that is kept.
use text.Mathlib.Text.{◌==◌ as str_eq}
use text.Mathlib.TextEquality.{eq_iff}
use mathlib.Core.Path.{subst}
use quick_price.Prelude.{
  ◌≡◌, ◌≢◌, refl, sym, ◌∙◌, inl, inr, true, none, some, String, List, [], ◌∷◌, if◌then◌else◌, ite,
  Bool-cases, arith,
}
use quick_price.Prelude.Dict.{Dict, get, put, pop, get-put, get-pop, get-put_self, get-put_ne}
use quick_price.Prelude.Texts.{String-discrete}
use quick_price.Registry.Search.{mem}
use quick_price.Registry.Order.{mem-cons}
use quick_price.History.Cache.{Cache, no_rings, rings_of, dependents_of, invalidate}
use quick_price.History.Coherent.{recipe_of}
use quick_price.History.Register.{
  without, discard_each, add_each, old_inputs, inputs_of, write_recipe,
}
use quick_price.Synthetic.Base.{Recipe}

abbrev pub Dependents : Type 0
Dependents = Dict String (List String)

pub mem-without : (s x : String) (xs : List String) → s ≢ x → mem x (without s xs) ≡ mem x xs
unfolding mem without
mem-without s x [] apart = refl
mem-without s x (y ∷ ys) apart = ground (arith, mem-without s x ys apart, eq_iff y s, eq_iff x y)

pub dependents_of-put :
    (d k : String) (v : List String) (dependents : Dependents)
    → dependents_of (put String-discrete d v dependents) k
      ≡ ite (String-discrete d k) v (dependents_of dependents k)
unfolding dependents_of
dependents_of-put d k v dependents = ground (arith, get-put String-discrete d k v dependents)

pub dependents_of-put_self :
    (d : String) (v : List String) (dependents : Dependents)
    → dependents_of (put String-discrete d v dependents) d ≡ v
dependents_of-put_self d v dependents = ground (arith, dependents_of-put d d v dependents)

mem-discard :
    (s x k : String) (ds : List String) (dependents : Dependents)
    → s ≢ x
    → mem x (dependents_of (discard_each s ds dependents) k) ≡ mem x (dependents_of dependents k)
unfolding discard_each
mem-discard s x k [] dependents apart = refl
mem-discard s x k (d ∷ ds) dependents apart =
    let rest = without s (dependents_of dependents d) in
    mem-discard s x k ds (put String-discrete d rest dependents) apart
    ∙ elim (String-discrete d k) [
      | yes p ↦
          rw (← p, dependents_of-put_self d rest dependents)
            (mem-without s x (dependents_of dependents d) apart)
      | no p ↦
          let e : dependents_of (put String-discrete d rest dependents) k
              ≡ dependents_of dependents k =
            ground (arith, dependents_of-put d k rest dependents) in
          rw e refl
    ]

abbrev with_dependent : String → String → Dependents → Dependents
with_dependent s d dependents =
    if mem s (dependents_of dependents d)
    then dependents
    else put String-discrete d (s ∷ dependents_of dependents d) dependents

mem-with_dependent :
    (s x d k : String) (dependents : Dependents)
    → mem x (dependents_of dependents k) ≡ true
    → mem x (dependents_of (with_dependent s d dependents) k) ≡ true
mem-with_dependent s x d k dependents m = elim (Bool-cases (mem s (dependents_of dependents d))) [
  | inl e ↦ rw e m
  | inr e ↦ rw e (elim (String-discrete d k) [
    | yes p ↦
        let here : mem x (dependents_of dependents d) ≡ true =
          subst (λ z. mem x (dependents_of dependents z) ≡ true) (sym p) m in
        rw (← p, dependents_of-put_self d (s ∷ dependents_of dependents d) dependents)
          (unfold mem in ground arith)
    | no p ↦
        let same : dependents_of (put String-discrete d (s ∷ dependents_of dependents d) dependents)
              k
            ≡ dependents_of dependents k =
          ground (arith, dependents_of-put d k (s ∷ dependents_of dependents d) dependents) in
        rw same m
  ])
]

with_dependent-mem :
    (s d : String) (dependents : Dependents)
    → mem s (dependents_of (with_dependent s d dependents) d) ≡ true
with_dependent-mem s d dependents = elim (Bool-cases (mem s (dependents_of dependents d))) [
  | inl e ↦ rw e e
  | inr e ↦ rw e (
      rw (dependents_of-put_self d (s ∷ dependents_of dependents d) dependents)
        (mem-cons (λ x. none) s (dependents_of dependents d)))
]

mem-add :
    (s x k : String) (ds : List String) (dependents : Dependents)
    → mem x (dependents_of dependents k) ≡ true
    → mem x (dependents_of (add_each s ds dependents) k) ≡ true
unfolding add_each
mem-add s x k [] dependents m = m
mem-add s x k (d ∷ ds) dependents m =
    mem-add s x k ds (with_dependent s d dependents) (mem-with_dependent s x d k dependents m)

pub mem-added :
    (s k : String) (ds : List String) (dependents : Dependents)
    → mem k ds ≡ true
    → mem s (dependents_of (add_each s ds dependents) k) ≡ true
unfolding add_each
mem-added s k [] dependents m = absurd (unfold mem in cc m)
mem-added s k (d ∷ ds) dependents m = elim (Bool-cases (str_eq k d)) [
  | inl e ↦
      let is_d : d ≡ k = sym ((eq_iff k d).0 e) in
      mem-add s s k ds (with_dependent s d dependents) (
        subst (λ z. mem s (dependents_of (with_dependent s d dependents) z) ≡ true) is_d
          (with_dependent-mem s d dependents))
  | inr e ↦ mem-added s k ds (with_dependent s d dependents) (unfold mem in ground arith)
]

module _ (c : Cache) (s : String) (r : Recipe) where
  abbrev pub dependents' : Dependents
  dependents' =
      add_each s (inputs_of r)
        (discard_each s (old_inputs (get String-discrete s c.recipes)) c.dependents)

  abbrev pub rewritten : Cache
  rewritten = record c {
    rings = pop String-discrete s c.rings;
    recipes = put String-discrete s r c.recipes;
    dependents = dependents';
  }

  abbrev pub after : Cache
  after = write_recipe c s r

  pub still_dependent :
      (x k : String)
      → s ≢ x
      → mem x (dependents_of c.dependents k) ≡ true
      → mem x (dependents_of dependents' k) ≡ true
  still_dependent x k apart m =
      mem-add s x k (inputs_of r) _
        (mem-discard s x k (old_inputs (get String-discrete s c.recipes)) c.dependents apart ∙ m)

  pub rings_of-after : (y : String) → s ≢ y → rings_of after y ≡ rings_of c y
  unfolding rings_of write_recipe invalidate
  rings_of-after y apart = ground (arith, get-pop String-discrete s y c.rings)

  pub rings_of-after_self : rings_of after s ≡ no_rings
  unfolding rings_of write_recipe invalidate
  rings_of-after_self = ground (arith, get-pop String-discrete s s c.rings)

  pub recipe_of-after : (x : String) → s ≢ x → recipe_of after x ≡ recipe_of c x
  unfolding write_recipe invalidate
  recipe_of-after x apart = get-put_ne String-discrete s x r c.recipes apart

  pub recipe_of-after_self : recipe_of after s ≡ some r
  unfolding write_recipe invalidate
  recipe_of-after_self = get-put_self String-discrete s r c.recipes

  pub dependents-after : after.dependents ≡ dependents'
  unfolding write_recipe invalidate
  dependents-after = refl
