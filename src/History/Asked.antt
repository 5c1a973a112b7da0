-- ===== src/History/Asked.antt =====
-- cache.py, `register_synthetic_history`: the recipe that a caller asks for, and what becomes of it.
use text.Mathlib.Text.{◌==◌ as str_eq}
use text.Mathlib.TextEquality.{eq_iff}
use mathlib.Core.Path.{subst}
use quick_price.Prelude.{
  ℕ, ◌≡◌, ◌⊎◌, refl, sym, ap, ◌∙◌, inl, inr, true, Option, none, some, String, List, [], ◌∷◌,
  Bool-cases,
}
use quick_price.Prelude.Int.{ℤ, negsuc}
use quick_price.Prelude.Dict.{get}
use quick_price.Prelude.Texts.{String-discrete}
use quick_price.Registry.Search.{mem}
use quick_price.History.Cache.{Cache}
use quick_price.History.Register.{
  Registered, ok, err, invalid_recipe, negative_skew, cyclic, inputs_of, register, make_recipe,
}
use quick_price.History.Registered.{IsAcyclic, LeadsBack, Ends, SameRecipe, register-Answer}
use quick_price.Synthetic.Base.{inverse, product, quotient, Recipe}

some_inj : {A : Type 0} {a b : A} → some a ≡ some b → a ≡ b
some_inj h = cc h

module _ (operation : String) (inputs : List String) (max_skew : ℤ) (provider : String) where
  -- The recipe has the operation, the inputs, the skew and the provider that are asked for: one input
  -- for an inverse, two for a product or a quotient.
  pub record IsAsked (r : Recipe) : Type 0 where
    pub operation_and_inputs :
        ((operation ≡ "inverse") × (r.operation ≡ inverse) × (inputs ≡ r.left_symbol ∷ []))
        ⊎ ((operation ≡ "multiply")
            × (r.operation ≡ product)
            × (inputs ≡ r.left_symbol ∷ r.right_symbol ∷ []))
        ⊎ ((operation ≡ "divide")
            × (r.operation ≡ quotient)
            × (inputs ≡ r.left_symbol ∷ r.right_symbol ∷ []))
    pub skew : r.max_skew ≡ max_skew
    pub name : r.provider_name ≡ provider

  abbrev pub IsMalformed : Type 0
  IsMalformed = (r : Recipe) → IsAsked r → ⊥

  abbrev Makes : Option Recipe → Type 0
  Makes none = IsMalformed
  Makes (some r) = IsAsked r × (inputs_of r ≡ inputs)

module _ (skew : ℤ) (provider : String) where
  one_input : (o a : String) → Makes o (a ∷ []) skew provider (make_recipe o (a ∷ []) skew provider)
  unfolding make_recipe
  one_input o a = elim (Bool-cases (str_eq o "inverse")) [
    | inl e ↦ rw e (
      record {
        operation_and_inputs = inl ((eq_iff o "inverse").0 e, refl, refl);
        skew = refl;
        name = refl;
      },
      refl,
    )
    | inr e ↦ rw e (λ r asked. elim asked.operation_and_inputs [
      | inl (named, kind, given) ↦ absurd (cc (e, (eq_iff o "inverse").1 named))
      | inr (inl (named, kind, given)) ↦ absurd (cc given)
      | inr (inr (named, kind, given)) ↦ absurd (cc given)
    ])
  ]

  two_inputs :
      (o a b : String)
      → Makes o (a ∷ b ∷ []) skew provider (make_recipe o (a ∷ b ∷ []) skew provider)
  unfolding make_recipe
  two_inputs o a b = elim (Bool-cases (str_eq o "multiply")) [
    | inl e ↦ rw e (
      record {
        operation_and_inputs = inr (inl ((eq_iff o "multiply").0 e, refl, refl));
        skew = refl;
        name = refl;
      },
      refl,
    )
    | inr e ↦ elim (Bool-cases (str_eq o "divide")) [
      | inl f ↦
          rw (e, f)
            (
              record {
                operation_and_inputs = inr (inr ((eq_iff o "divide").0 f, refl, refl));
                skew = refl;
                name = refl;
              },
              refl,
            )
      | inr f ↦
          rw (e, f)
            (λ r asked. elim asked.operation_and_inputs [
              | inl (named, kind, given) ↦ absurd (cc given)
              | inr (inl (named, kind, given)) ↦ absurd (cc (e, (eq_iff o "multiply").1 named))
              | inr (inr (named, kind, given)) ↦ absurd (cc (f, (eq_iff o "divide").1 named))
            ])
    ]
  ]

  wrong_count :
      (o : String) (inputs : List String)
      → ((a : String) → inputs ≡ a ∷ [] → ⊥)
      → ((a b : String) → inputs ≡ a ∷ b ∷ [] → ⊥)
      → IsMalformed o inputs skew provider
  wrong_count o inputs one two r asked = elim asked.operation_and_inputs [
    | inl (named, kind, given) ↦ one r.left_symbol given
    | inr (inl (named, kind, given)) ↦ two r.left_symbol r.right_symbol given
    | inr (inr (named, kind, given)) ↦ two r.left_symbol r.right_symbol given
  ]

  make_recipe-Makes :
      (o : String) (inputs : List String)
      → Makes o inputs skew provider (make_recipe o inputs skew provider)
  unfolding make_recipe
  make_recipe-Makes o [] = wrong_count o [] (λ a e. cc e) (λ a b e. cc e)
  make_recipe-Makes o (a ∷ []) = one_input o a
  make_recipe-Makes o (a ∷ b ∷ []) = two_inputs o a b
  make_recipe-Makes o (a ∷ b ∷ x ∷ rest) =
      wrong_count o (a ∷ b ∷ x ∷ rest) (λ a e. cc e) (λ a b e. cc e)

SameRecipe-IsAsked :
    (operation : String) (inputs : List String) (skew : ℤ) (provider : String) (q r : Recipe)
    → SameRecipe q r
    → IsAsked operation inputs skew provider r
    → IsAsked operation inputs skew provider q
SameRecipe-IsAsked operation inputs skew provider q r same asked = record {
  operation_and_inputs = elim asked.operation_and_inputs [
    | inl (named, kind, given) ↦
        inl (named, same.operation ∙ kind, given ∙ ap (λ a. a ∷ []) (sym same.left))
    | inr (inl (named, kind, given)) ↦
        inr (inl (named, same.operation ∙ kind, given ∙ cc (same.left, same.right)))
    | inr (inr (named, kind, given)) ↦
        inr (inr (named, same.operation ∙ kind, given ∙ cc (same.left, same.right)))
  ];
  skew = same.max_skew ∙ asked.skew;
  name = same.provider ∙ asked.name;
}

module _ (c : Cache) (symbol : String) where
  abbrev pub EndsAsked : String → List String → ℤ → String → Registered → Type 0
  EndsAsked operation inputs skew provider (ok c') =
      (q : Recipe) × (get String-discrete symbol c'.recipes ≡ some q)
      × IsAsked operation inputs skew provider q
      × IsAcyclic c'.recipes
  EndsAsked operation inputs skew provider (err cyclic) =
      (d : String) × (mem d inputs ≡ true) × LeadsBack c symbol d
  EndsAsked operation inputs skew provider (err invalid_recipe) =
      IsMalformed operation inputs skew provider
  EndsAsked operation inputs skew provider (err negative_skew) = (n : ℕ) × (skew ≡ negsuc n)

  Ends-asked :
      (operation : String) (inputs : List String) (skew : ℤ) (provider : String) (o : Option Recipe)
      (out : Registered)
      → Makes operation inputs skew provider o
      → Ends c symbol o out
      → EndsAsked operation inputs skew provider out
  Ends-asked operation inputs skew provider none (ok c') h (r, e, rest, acyclic) = absurd (cc e)
  Ends-asked operation inputs skew provider (some r) (ok c') h (r', e, (q, there, same), acyclic) =
      let is_r : r' ≡ r = sym (some_inj e) in
      (
        q,
        there,
        SameRecipe-IsAsked operation inputs skew provider q r
            (subst (λ z. SameRecipe q z) is_r same) h.0,
        acyclic,
      )
  Ends-asked operation inputs skew provider none (err cyclic) h (r, e, rest) = absurd (cc e)
  Ends-asked operation inputs skew provider (some r) (err cyclic) h (r', e, (d, m, back)) =
      (d, subst (λ z. mem d z ≡ true) (ap inputs_of (sym (some_inj e)) ∙ h.1) m, back)
  Ends-asked operation inputs skew provider none (err invalid_recipe) h e = h
  Ends-asked operation inputs skew provider (some r) (err invalid_recipe) h e = absurd (cc e)
  Ends-asked operation inputs skew provider none (err negative_skew) h (r, e, rest) = absurd (cc e)
  Ends-asked operation inputs skew provider (some r) (err negative_skew) h (r', e, (n, below)) =
      (n, sym h.0.skew ∙ ap (λ (z : Recipe). z.max_skew) (some_inj e) ∙ below)

  -- If no symbol is made of itself, a registration ends with an answer. Accepted, the symbol has a
  -- recipe of the operation, the inputs, the skew and the provider that were given, and still no
  -- symbol is made of itself; refused for a cycle, one of the inputs leads back to the symbol or is
  -- it; refused as invalid, no recipe has that operation with those inputs; refused for its skew, the
  -- skew is negative.
  pub register-EndsAsked :
      (inputs : List String) (operation : String) (max_skew : ℤ) (provider : String)
      → IsAcyclic c.recipes
      → (out : Registered) × (register c symbol inputs operation max_skew provider ≡ some out)
        × EndsAsked operation inputs max_skew provider out
  register-EndsAsked inputs operation max_skew provider acyclic =
      let (out, e, ends) = register-Answer c symbol inputs operation max_skew provider acyclic in
      (
        out,
        e,
        Ends-asked operation inputs max_skew provider
            (make_recipe operation inputs max_skew provider) out
            (make_recipe-Makes max_skew provider operation inputs) ends,
      )
