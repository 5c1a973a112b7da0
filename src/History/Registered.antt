-- ===== src/History/Registered.antt =====
-- cache.py, `register_synthetic_history`: what a registration leaves, on every branch.
use text.Mathlib.TextEquality.{eq_iff}
use mathlib.Core.Path.{subst}
use quick_price.Prelude.{
  ℕ, ◌≡◌, refl, sym, ap, inl, inr, true, Option, none, some, String, List, [], Bool-cases,
  Option-cases, arith,
}
use quick_price.Prelude.Int.{ℤ, pos, negsuc}
use quick_price.Prelude.Dict.{Dict, get, put, get-put_self, get-put_ne}
use quick_price.Prelude.Texts.{String-discrete}
use quick_price.Registry.Search.{mem}
use quick_price.Registry.Cycles.{Reach}
use quick_price.History.Cache.{Cache, invalidate}
use quick_price.History.Register.{
  Registered, ok, err, invalid_recipe, negative_skew, cyclic, inputs_of, inputs_at, closes_cycle,
  same_recipe, same_skew, operation_code, write_recipe, checked, unless_negative, register_made,
  register, make_recipe,
}
use quick_price.History.Search.{Leads}
use quick_price.History.Acyclic.{Extends, extended-acyclic, closes_cycle_lem}
use quick_price.Synthetic.Base.{Operation, inverse, product, quotient, Recipe}

-- No symbol is made of itself.
abbrev pub IsAcyclic : Dict String Recipe → Type 0
IsAcyclic recipes = (s : String) → Reach (inputs_at recipes) s s → ⊥

written-Extends :
    (recipes : Dict String Recipe) (symbol : String) (r : Recipe)
    → Extends
        (inputs_at recipes)
        (inputs_at (put String-discrete symbol r recipes))
        symbol
        (inputs_of r)
unfolding inputs_at
written-Extends recipes symbol r = (
  rw (get-put_self String-discrete symbol r recipes) refl,
  λ x apart. rw (get-put_ne String-discrete symbol x r recipes apart) refl,
)

same_operation : (o o' : Operation) → operation_code o ≡ operation_code o' → o ≡ o'
unfolding operation_code
same_operation inverse inverse e = refl
same_operation product product e = refl
same_operation quotient quotient e = refl
same_operation product quotient e = absurd (omega arith)
same_operation quotient product e = absurd (omega arith)
same_operation inverse product e = absurd (omega arith)
same_operation inverse quotient e = absurd (omega arith)
same_operation product inverse e = absurd (omega arith)
same_operation quotient inverse e = absurd (omega arith)

same_skew-eq : (a b : ℤ) → same_skew a b ≡ true → a ≡ b
unfolding same_skew
same_skew-eq (pos m) (pos n) h = let e : m ≡ n = ground arith in ap pos e
same_skew-eq (negsuc m) (negsuc n) h = let e : m ≡ n = ground arith in ap negsuc e
same_skew-eq (pos m) (negsuc n) h = absurd (cc h)
same_skew-eq (negsuc m) (pos n) h = absurd (cc h)

-- Two recipes agree in all that a registration gives.
pub record SameRecipe (q r : Recipe) : Type 0 where
  pub left : q.left_symbol ≡ r.left_symbol
  pub right : q.right_symbol ≡ r.right_symbol
  pub operation : q.operation ≡ r.operation
  pub max_skew : q.max_skew ≡ r.max_skew
  pub provider : q.provider_name ≡ r.provider_name

same_recipe-SameRecipe : (q r : Recipe) → same_recipe (some q) r ≡ true → SameRecipe q r
unfolding same_recipe
same_recipe-SameRecipe q r h = record {
  left = (eq_iff q.left_symbol r.left_symbol).0 (ground arith);
  right = (eq_iff q.right_symbol r.right_symbol).0 (ground arith);
  operation = same_operation q.operation r.operation (ground arith);
  max_skew = same_skew-eq q.max_skew r.max_skew (ground arith);
  provider = (eq_iff q.provider_name r.provider_name).0 (ground arith);
}

module _ (c : Cache) (symbol : String) where
  abbrev pub LeadsBack : String → Type 0
  LeadsBack d = Leads (inputs_at c.recipes) symbol [] d

  -- What an answer promises, of the recipe that was asked for.
  abbrev pub Ends : Option Recipe → Registered → Type 0
  Ends o (ok c') =
      (r : Recipe) × (o ≡ some r)
      × ((q : Recipe) × (get String-discrete symbol c'.recipes ≡ some q) × SameRecipe q r)
      × IsAcyclic c'.recipes
  Ends o (err cyclic) =
      (r : Recipe) × (o ≡ some r) × ((d : String) × (mem d (inputs_of r) ≡ true) × LeadsBack d)
  Ends o (err invalid_recipe) = o ≡ none
  Ends o (err negative_skew) = (r : Recipe) × (o ≡ some r) × ((n : ℕ) × (r.max_skew ≡ negsuc n))

  abbrev Answer : Option Recipe → Option Registered → Type 0
  Answer o answer = (out : Registered) × (answer ≡ some out) × Ends o out

  write_recipe-recipes :
      (r : Recipe) → (write_recipe c symbol r).recipes ≡ put String-discrete symbol r c.recipes
  unfolding write_recipe invalidate
  write_recipe-recipes r = refl

  checked-new :
      (r : Recipe)
      → IsAcyclic c.recipes
      → ((d : String) → mem d (inputs_of r) ≡ true → LeadsBack d → ⊥)
      → Ends (some r) (ok (write_recipe c symbol r))
  checked-new r acyclic away =
      let recipes' = put String-discrete symbol r c.recipes in
      let ext = written-Extends c.recipes symbol r in
      let same = write_recipe-recipes r in
      (
        r,
        refl,
        (
          r,
          rw same (get-put_self String-discrete symbol r c.recipes),
          record { left = refl; right = refl; operation = refl; max_skew = refl; provider = refl },
        ),
        subst IsAcyclic (sym same) (
            extended-acyclic (inputs_at c.recipes) (inputs_at recipes') symbol (inputs_of r) ext
              acyclic away),
      )

  checked-same :
      (r : Recipe)
      → IsAcyclic c.recipes
      → same_recipe (get String-discrete symbol c.recipes) r ≡ true
      → Ends (some r) (ok c)
  unfolding inputs_at
  checked-same r acyclic same = elim (Option-cases (get String-discrete symbol c.recipes)) [
    | inl e ↦ absurd (let no : same_recipe none r ≡ true = rw e at same in unfold same_recipe in cc)
    | inr (q, e) ↦ (r, refl, (q, e, same_recipe-SameRecipe q r (rw e at same)), acyclic)
  ]

  checked-Answer :
      (r : Recipe)
      → IsAcyclic c.recipes
      → Answer (some r) (checked c symbol r (closes_cycle c.recipes symbol (inputs_of r)))
  unfolding checked
  checked-Answer r acyclic = elim (closes_cycle_lem c.recipes symbol (inputs_of r)) [
    | inl (e, back) ↦ (err cyclic, rw (e, checked) refl, (r, refl, back))
    | inr (e, away) ↦ elim (Bool-cases (same_recipe (get String-discrete symbol c.recipes) r)) [
      | inl same ↦ (ok c, rw (e, checked) (rw same refl), checked-same r acyclic same)
      | inr other ↦ (
        ok (write_recipe c symbol r),
        rw (e, checked) (rw other refl),
        checked-new r acyclic away,
      )
    ]
  ]

  unless_negative-Answer :
      (r : Recipe) (skew : ℤ) (next : Option Registered)
      → r.max_skew ≡ skew
      → Answer (some r) next
      → Answer (some r) (unless_negative skew next)
  unfolding unless_negative
  unless_negative-Answer r (pos n) next e h = h
  unless_negative-Answer r (negsuc n) next e h = (err negative_skew, refl, (r, refl, (n, e)))

  register_made-Answer :
      (o : Option Recipe) → IsAcyclic c.recipes → Answer o (register_made c symbol o)
  unfolding register_made
  register_made-Answer none acyclic = (err invalid_recipe, refl, refl)
  register_made-Answer (some r) acyclic =
      unless_negative-Answer r r.max_skew (checked c symbol r _) refl (checked-Answer r acyclic)

  pub register-Answer :
      (inputs : List String) (operation : String) (max_skew : ℤ) (provider : String)
      → IsAcyclic c.recipes
      → (out : Registered) × (register c symbol inputs operation max_skew provider ≡ some out)
        × Ends (make_recipe operation inputs max_skew provider) out
  unfolding register
  register-Answer inputs operation max_skew provider acyclic =
      register_made-Answer (make_recipe operation inputs max_skew provider) acyclic
