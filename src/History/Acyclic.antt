-- ===== src/History/Acyclic.antt =====
-- cache.py, `register_synthetic_history`: the recipes that are taken in never make a symbol of itself.
use text.Mathlib.Text.{◌==◌ as str_eq}
use text.Mathlib.TextEquality.{eq_iff}
use mathlib.Core.Path.{subst}
use quick_price.Prelude.{
  suc, ◌≡◌, ◌≢◌, ◌⊎◌, refl, sym, ◌∙◌, inl, inr, Bool, true, false, Option, some, String, List, [],
  ◌∷◌, if_pos, if_neg, Bool-cases, arith, length,
}
use quick_price.Prelude.Dict.{Dict, get}
use quick_price.Prelude.Texts.{String-discrete}
use quick_price.Registry.Search.{mem}
use quick_price.Registry.Order.{mem-cons}
use quick_price.History.Invalidate.{mem-append_left, mem-append_right}
use quick_price.Registry.Cycles.{Reach, direct, through, mem-ds}
use quick_price.History.Register.{
  inputs_of, inputs_at, or_no_inputs, reaches_target, all_inputs, any_input, closes_cycle,
}
use quick_price.History.Search.{Leads, Closed, reaches_lem}
use quick_price.Synthetic.Base.{Recipe}

Reach-trans :
    (deps : String → Option (List String)) (s t : String) {u : String}
    → Reach deps s t
    → Reach deps t u
    → Reach deps s u
Reach-trans deps s t r (direct u ds e m) = through t u ds r e m
Reach-trans deps s t r (through v u ds q e m) = through v u ds (Reach-trans deps s t r q) e m

-- The symbol `target` gets the inputs `ds`.
module _ (deps deps' : String → Option (List String)) (target : String) (ds : List String) where
  abbrev pub Extends : Type 0
  Extends = (deps' target ≡ some ds) × ((x : String) → target ≢ x → deps' x ≡ deps x)

  edge :
      (s t : String) (es : List String)
      → Extends
      → deps' s ≡ some es
      → mem t es ≡ true
      → ((target ≡ s) × (mem t ds ≡ true)) ⊎ (deps s ≡ some es)
  edge s t es (new, old) e m = elim (String-discrete target s) [
    | yes p ↦
        let at_target = subst (λ z. deps' z ≡ some es) (sym p) e in
        let q : ds ≡ es = cc (new, at_target) in inl (p, rw q m)
    | no p ↦ inr (sym (old s p) ∙ e)
  ]

  -- A way from a symbol is an old one, or comes by the target.
  way-Leads :
      (s : String) {t : String}
      → Extends
      → Reach deps' s t
      → Reach deps s t ⊎ Leads deps target [] s
  way-Leads s ext (direct t es e m) = elim (edge s t es ext e m) [
    | inl (p, k) ↦ inr (inl (sym p))
    | inr old ↦ inl (direct t es old m)
  ]
  way-Leads s ext (through t u es r e m) = elim (way-Leads s ext r) [
    | inr leads ↦ inr leads
    | inl q ↦ elim (edge t u es ext e m) [
      | inl (p, k) ↦ inr (inr (subst (λ z. Reach deps s z) (sym p) q))
      | inr old ↦ inl (through t u es q old m)
    ]
  ]

  abbrev FromInputs : String → Type 0
  FromInputs t = (d : String) × (mem d ds ≡ true) × ((d ≡ t) ⊎ Reach deps d t)

  way-FromInputs :
      (s : String) {t : String} → Extends → Reach deps' s t → Reach deps s t ⊎ FromInputs t
  way-FromInputs s ext (direct t es e m) = elim (edge s t es ext e m) [
    | inl (p, k) ↦ inr (t, k, inl refl)
    | inr old ↦ inl (direct t es old m)
  ]
  way-FromInputs s ext (through t u es r e m) = elim (edge t u es ext e m) [
    | inl (p, k) ↦ inr (u, k, inl refl)
    | inr old ↦ elim (way-FromInputs s ext r) [
      | inl q ↦ inl (through t u es q old m)
      | inr (d, k, inl p) ↦
          inr (d, k, inr (direct u es (subst (λ z. deps z ≡ some es) (sym p) old) m))
      | inr (d, k, inr q) ↦ inr (d, k, inr (through t u es q old m))
    ]
  ]

  -- Where no input leads to the target, no cycle comes in.
  pub extended-acyclic :
      Extends
      → ((s : String) → Reach deps s s → ⊥)
      → ((d : String) → mem d ds ≡ true → Leads deps target [] d → ⊥)
      → (s : String) → Reach deps' s s
      → ⊥
  extended-acyclic ext acyclic away s r = elim (way-FromInputs s ext r) [
    | inl q ↦ acyclic s q
    | inr (d, m, from) ↦ elim (way-Leads s ext r) [
      | inl q ↦ acyclic s q
      | inr leads ↦ away d m (joined d from leads)
    ]
  ]
    where
      joined :
          (d : String) → (d ≡ s) ⊎ Reach deps d s → Leads deps target [] s → Leads deps target [] d
      joined d (inl p) leads = subst (Leads deps target []) (sym p) leads
      joined d (inr q) (inl p) = inr (subst (λ z. Reach deps d z) p q)
      joined d (inr q) (inr q') = inr (Reach-trans deps d s q q')

pub inputs-all :
    (recipes : Dict String Recipe) (s d : String)
    → mem d (or_no_inputs (inputs_at recipes s)) ≡ true
    → mem d (all_inputs recipes) ≡ true
unfolding inputs_at all_inputs get
inputs-all [] s d m = absurd (unfold mem in cc m)
inputs-all ((k, r) ∷ rest) s d m = elim (String-discrete k s) [
  | yes p ↦ mem-append_left d (inputs_of r) (all_inputs rest) (rw (if_pos _ p) at m)
  | no p ↦
      mem-append_right d (inputs_of r) (all_inputs rest)
        (inputs-all rest s d (rw (if_neg _ p) at m))
]

module _ (recipes : Dict String Recipe) (symbol : String) where
  abbrev made_of : String → Option (List String)
  made_of = inputs_at recipes

  -- the fuel's measure: the input, and all inputs of all recipes
  abbrev all_from : String → List String
  all_from d = d ∷ all_inputs recipes

  all_from-Closed : (d : String) → Closed made_of symbol (all_from d)
  all_from-Closed d s =
      mem-ds (or_no_inputs (made_of s)) (λ x. mem x (all_from d) ≡ true)
        (λ x m. unfold mem in ground (arith, inputs-all recipes s x m))

  abbrev LeadsBack : String → Type 0
  LeadsBack d = Leads made_of symbol [] d

  abbrev search : String → Option (Bool × List String)
  search d = reaches_target made_of symbol (suc (suc (length (all_inputs recipes)))) d []

  any_input_lem :
      (ds : List String)
      → ((any_input search ds ≡ some true) × ((d : String) × (mem d ds ≡ true) × LeadsBack d))
        ⊎ ((any_input search ds ≡ some false) × ((d : String) → mem d ds ≡ true → LeadsBack d → ⊥))
  unfolding any_input
  any_input_lem [] = inr (refl, λ d m leads. absurd (unfold mem in cc))
  any_input_lem (d ∷ ds) =
      elim (reaches_lem made_of symbol (all_from d) d (all_from-Closed d)
        (mem-cons made_of d (all_inputs recipes))) [
          | inl (w, e, leads) ↦ inl (rw (e, any_input) refl, (d, mem-cons made_of d ds, leads))
          | inr (w, e, away) ↦ elim (any_input_lem ds) [
            | inl (f, (x, m, leads)) ↦
                inl (rw (e, any_input) f, (x, (unfold mem in ground arith), leads))
            | inr (f, all) ↦ inr (
              rw (e, any_input) f,
              λ x m leads. elim (Bool-cases (str_eq x d)) [
                | inl same ↦ away (subst LeadsBack ((eq_iff x d).0 same) leads)
                | inr apart ↦ all x (unfold mem in ground arith) leads
              ],
            )
          ]
        ]

  -- The test of a registration: it ends, and it says yes exactly when an input leads to the symbol.
  pub closes_cycle_lem :
      (ds : List String)
      → ((closes_cycle recipes symbol ds ≡ some true)
          × ((d : String) × (mem d ds ≡ true) × LeadsBack d))
        ⊎ ((closes_cycle recipes symbol ds ≡ some false)
            × ((d : String) → mem d ds ≡ true → LeadsBack d → ⊥))
  unfolding closes_cycle
  closes_cycle_lem ds = any_input_lem ds
