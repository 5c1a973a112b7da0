-- ===== src/History/Remaining.antt =====
-- cache.py, `retain_symbols`: what is left, for the symbols that are kept and for all.
use mathlib.Core.Path.{subst}
use text.Mathlib.TextEquality.{eq_iff}
use quick_price.Prelude.{
  ◌≡◌, ◌⊎◌, refl, sym, ap, ◌∙◌, inl, inr, true, none, some, String, List, [], ◌∷◌, if_neg,
  Bool-cases, arith, map,
}
use quick_price.Prelude.Dict.{Dict, get}
use quick_price.Prelude.Texts.{String-discrete}
use quick_price.Registry.Search.{mem}
use quick_price.Registry.Cycles.{mem-All}
use quick_price.History.Cache.{Cache, rings_of}
use quick_price.History.Closure.{Members, ClosedUnder}
use quick_price.History.Coherent.{recipe_of, IsCoherent}
use quick_price.History.Kept.{IsHalf, drop_absent-IsHalf, rings_of-drop_rings}
use quick_price.History.Register.{inputs_of, inputs_at}
use quick_price.History.Retain.{drop_rings, drop_absent, drop_recipe, drop_recipes}
use quick_price.History.Retained.{
  drop_recipes-IsHalf, drop_recipes-none, recipe_of-dropped, recipe_of-drop, rings_of-drop_recipe,
}
use quick_price.Synthetic.Base.{Arithmetic, Recipe}

abbrev pub keys {ℓ} : {V : Type ℓ} → List (String × V) → List String
keys d = map (λ entry. entry.0) d

pub keys-get :
    {V : Type 0} (d : Dict String V) (x : String)
    → (mem x (keys d) ≡ true) ⊎ (get String-discrete x d ≡ none)
unfolding get
keys-get [] x = inr refl
keys-get ((k, r) ∷ d) x = elim (String-discrete k x) [
  | yes p ↦ inl (unfold mem in ground (arith, eq_iff x k))
  | no p ↦ elim (keys-get d x) [
    | inl m ↦ inl (unfold mem in ground arith)
    | inr e ↦ inr (rw (if_neg _ p) e)
  ]
]

pub drop_absent-recipes :
    (ss kept : List String) (c : Cache) → (drop_absent ss kept c).0.recipes ≡ c.recipes
unfolding drop_absent drop_rings
drop_absent-recipes [] kept c = refl
drop_absent-recipes (s ∷ ss) kept c = elim (Bool-cases (mem s kept)) [
  | inl on ↦ rw (on, drop_absent) (drop_absent-recipes ss kept c)
  | inr off ↦ rw (off, drop_absent) (drop_absent-recipes ss kept (drop_rings c s))
]

-- A kept symbol keeps its rings and its recipe; no recipe is new.
module _ (ar : Arithmetic) (kept : List String) where
  pub drop_absent-rings :
      (ss : List String) (c : Cache) (x : String)
      → mem x kept ≡ true
      → rings_of (drop_absent ss kept c).0 x ≡ rings_of c x
  unfolding drop_absent
  drop_absent-rings [] c x on = refl
  drop_absent-rings (s ∷ ss) c x on = elim (Bool-cases (mem s kept)) [
    | inl here ↦ rw (here, drop_absent) (drop_absent-rings ss c x on)
    | inr off ↦
        rw (off, drop_absent)
          (drop_absent-rings ss (drop_rings c s) x on
            ∙ rings_of-drop_rings ar kept c s x
                (λ p. absurd (cc (off, subst (λ z. mem z kept ≡ true) (sym p) on))))
  ]

  pub drop_recipes-rings :
      (ss : List String) (c : Cache) (x : String)
      → rings_of (drop_recipes ss kept c) x ≡ rings_of c x
  unfolding drop_recipes
  drop_recipes-rings [] c x = refl
  drop_recipes-rings (s ∷ ss) c x = elim (Bool-cases (mem s kept)) [
    | inl on ↦ rw (on, drop_recipes) (drop_recipes-rings ss c x)
    | inr off ↦
        rw (off, drop_recipes)
          (drop_recipes-rings ss (drop_recipe c s) x ∙ rings_of-drop_recipe ar kept c s x)
  ]

  pub drop_recipes-recipe :
      (ss : List String) (c : Cache) (x : String)
      → mem x kept ≡ true
      → recipe_of (drop_recipes ss kept c) x ≡ recipe_of c x
  unfolding drop_recipes
  drop_recipes-recipe [] c x on = refl
  drop_recipes-recipe (s ∷ ss) c x on = elim (Bool-cases (mem s kept)) [
    | inl here ↦ rw (here, drop_recipes) (drop_recipes-recipe ss c x on)
    | inr off ↦
        rw (off, drop_recipes)
          (drop_recipes-recipe ss (drop_recipe c s) x on
            ∙ recipe_of-drop c s x
                (λ p. absurd (cc (off, subst (λ z. mem z kept ≡ true) (sym p) on))))
  ]

  drop_recipes-old :
      (ss : List String) (c : Cache) (x : String) (r : Recipe)
      → recipe_of (drop_recipes ss kept c) x ≡ some r
      → recipe_of c x ≡ some r
  unfolding drop_recipes
  drop_recipes-old [] c x r h = h
  drop_recipes-old (s ∷ ss) c x r h = elim (Bool-cases (mem s kept)) [
    | inl on ↦ drop_recipes-old ss c x r (rw (on, drop_recipes) at h)
    | inr off ↦
        (recipe_of-dropped c s x r
          (drop_recipes-old ss (drop_recipe c s) x r (rw (off, drop_recipes) at h))).1
  ]

  pub start-IsHalf :
      (c : Cache) → IsCoherent ar c → ClosedUnder (inputs_at c.recipes) [] kept → IsHalf ar kept c
  start-IsHalf c coh closed = record {
    fresh = λ x e which h. coh.fresh x e h;
    ordered = coh.ordered;
    aligned = coh.aligned;
    linked = coh.linked;
    closed = λ x r on h.
        let all : Members (inputs_at c.recipes) [] (inputs_of r) kept =
          (unfold inputs_at in rw h at (closed x on)) in
        let (l, m) = coh.made x r h in
        (
          mem-All (λ d. mem d kept ≡ true) r.left_symbol (inputs_of r) l all,
          mem-All (λ d. mem d kept ≡ true) r.right_symbol (inputs_of r) m all,
        );
  }

  abbrev pub remaining : Cache → Cache
  remaining c = drop_recipes (keys c.recipes) kept (drop_absent (keys c.rings) kept c).0

  pub remaining-IsCoherent :
      (c : Cache)
      → IsCoherent ar c
      → ClosedUnder (inputs_at c.recipes) [] kept
      → IsCoherent ar (remaining c)
  remaining-IsCoherent c coh closed =
      let c1 = (drop_absent (keys c.rings) kept c).0 in
      let same : c1.recipes ≡ c.recipes = drop_absent-recipes (keys c.rings) kept c in
      let half =
        drop_recipes-IsHalf ar kept (keys c.recipes) c1
          (drop_absent-IsHalf ar kept (keys c.rings) c (start-IsHalf c coh closed)) in
      record {
        fresh = λ x e h.
            half.fresh x e
              (elim (Bool-cases (mem x kept)) [
                | inl on ↦ inl on
                | inr off ↦ inr (
                    drop_recipes-none ar kept (keys c.recipes) c1 x off (
                      subst
                        (λ z. (mem x (keys c.recipes) ≡ true) ⊎ (get String-discrete x z ≡ none))
                        (sym same) (keys-get c.recipes x)))
              ])
              h;
        ordered = half.ordered;
        aligned = half.aligned;
        linked = half.linked;
        made = λ x r h. coh.made x r (
            ap (λ z. get String-discrete x z) (sym same)
            ∙ drop_recipes-old (keys c.recipes) c1 x r h);
      }
