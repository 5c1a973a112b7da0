-- ===== src/Registry/Made.antt =====
-- registry.py: what a symbol is made of, by the recipes of the plugins.
use text.Mathlib.Text.{◌==◌ as str_eq}
use text.Mathlib.TextEquality.{eq_iff}
use mathlib.Core.Path.{subst}
use quick_price.Prelude.{
  ◌≡◌, ◌⊎◌, refl, sym, ap, ◌∙◌, inl, inr, true, Option, none, some, String, List, [], ◌∷◌, ◌++◌,
  if◌then◌else◌, arith, Bool-cases,
}
use quick_price.Registry.{Recipe, inputs, inputs_of}
use quick_price.Registry.Search.{mem}
use quick_price.Registry.Cycles.{Reach, direct, through}

abbrev pub join : Option (List Recipe) → List Recipe → Option (List Recipe)
join none [] = none
join none (r ∷ rs) = some (r ∷ rs)
join (some l) rs = some (l ++ rs)

module _ (normalize : String → String) where
  -- the recipes for a symbol, in their order
  abbrev pub recipes_for : String → List Recipe → List Recipe
  recipes_for s [] = []
  recipes_for s (r ∷ rs) =
      let rest = recipes_for s rs in if str_eq (normalize r.symbol) s then r ∷ rest else rest

  -- the symbols that a symbol is made of, by the recipes for it, where there is one
  abbrev pub made_of : List Recipe → String → Option (List String)
  made_of rs s = inputs_of normalize (join none (recipes_for s rs))

  abbrev pub Among : Recipe → List Recipe → Type 0
  Among r [] = ⊥
  Among r (q ∷ qs) = (q ≡ r) ⊎ Among r qs

  -- A recipe for the one symbol has the other on its left or on its right.
  abbrev pub IsInput : List Recipe → String → String → Type 0
  IsInput rs s t =
      (r : Recipe) × Among r rs
      × (normalize r.symbol ≡ s)
      × ((normalize r.left_symbol ≡ t) ⊎ (normalize r.right_symbol ≡ t))

  -- One symbol is made of another, directly or through others.
  pub data Made (rs : List Recipe) (s : String) : String → Type 0 where
    straight : (t : String) → IsInput rs s t → Made rs s t
    further : (t u : String) → Made rs s t → IsInput rs t u → Made rs s u

  inputs-Among :
      (t : String) (l : List Recipe)
      → mem t (inputs normalize l) ≡ true
      → (r : Recipe) × Among r l × ((normalize r.left_symbol ≡ t) ⊎ (normalize r.right_symbol ≡ t))
  unfolding inputs mem
  inputs-Among t [] m = absurd (cc m)
  inputs-Among t (r ∷ rs) m = elim (Bool-cases (str_eq t (normalize r.left_symbol))) [
    | inl e ↦ (r, inl refl, inl (sym ((eq_iff t (normalize r.left_symbol)).0 e)))
    | inr e ↦ elim (Bool-cases (str_eq t (normalize r.right_symbol))) [
      | inl f ↦ (r, inl refl, inr (sym ((eq_iff t (normalize r.right_symbol)).0 f)))
      | inr f ↦ let (q, among, side) = inputs-Among t rs (ground arith) in (q, inr among, side)
    ]
  ]

  recipes_for-Among :
      (s : String) (r : Recipe) (rs : List Recipe)
      → Among r (recipes_for s rs)
      → Among r rs × (normalize r.symbol ≡ s)
  recipes_for-Among s r [] a = absurd a
  recipes_for-Among s r (q ∷ qs) a = elim (Bool-cases (str_eq (normalize q.symbol) s)) [
    | inr e ↦ let (b, same) = recipes_for-Among s r qs (rw e at a) in (inr b, same)
    | inl e ↦
        let either : (q ≡ r) ⊎ Among r (recipes_for s qs) = rw e at a in
        elim either [
          | inl here ↦ (
            inl here,
            ap (λ (z : Recipe). normalize z.symbol) (sym here)
                ∙ (eq_iff (normalize q.symbol) s).0 e,
          )
          | inr there ↦ let (b, same) = recipes_for-Among s r qs there in (inr b, same)
        ]
  ]

  Among-recipes_for :
      (s : String) (r : Recipe) (rs : List Recipe)
      → Among r rs
      → normalize r.symbol ≡ s
      → Among r (recipes_for s rs)
  Among-recipes_for s r [] a same = absurd a
  Among-recipes_for s r (q ∷ qs) a same = elim (Bool-cases (str_eq (normalize q.symbol) s)) [
    | inl e ↦ elim a [
      | inl here ↦ rw e (inl here)
      | inr there ↦ rw e (inr (Among-recipes_for s r qs there same))
    ]
    | inr e ↦ elim a [
      | inl here ↦
          let for_s : normalize q.symbol ≡ s =
            ap (λ (z : Recipe). normalize z.symbol) here ∙ same in
          absurd (cc (e, (eq_iff (normalize q.symbol) s).1 for_s))
      | inr there ↦ rw e (Among-recipes_for s r qs there same)
    ]
  ]

  Among-inputs :
      (t : String) (r : Recipe) (l : List Recipe)
      → Among r l
      → (normalize r.left_symbol ≡ t) ⊎ (normalize r.right_symbol ≡ t)
      → mem t (inputs normalize l) ≡ true
  unfolding inputs mem
  Among-inputs t r [] a side = absurd a
  Among-inputs t r (q ∷ qs) (inr there) side =
      let rest = Among-inputs t r qs there side in ground arith
  Among-inputs t r (q ∷ qs) (inl here) (inl left) =
      let e =
        (eq_iff t (normalize q.left_symbol)).1
          (sym (ap (λ (z : Recipe). normalize z.left_symbol) here ∙ left)) in
      ground arith
  Among-inputs t r (q ∷ qs) (inl here) (inr right) =
      let e =
        (eq_iff t (normalize q.right_symbol)).1
          (sym (ap (λ (z : Recipe). normalize z.right_symbol) here ∙ right)) in
      ground arith

  join-some : (l : List Recipe) (r : Recipe) → Among r l → join none l ≡ some l
  join-some [] r a = absurd a
  join-some (q ∷ qs) r a = refl

  made_of-IsInput :
      (rs : List Recipe) (s t : String) (ds : List String)
      → made_of rs s ≡ some ds
      → mem t ds ≡ true
      → IsInput rs s t
  made_of-IsInput rs s t ds made m = by_recipes (recipes_for s rs) refl made
    where
      by_recipes :
          (l : List Recipe)
          → recipes_for s rs ≡ l
          → inputs_of normalize (join none l) ≡ some ds
          → IsInput rs s t
      by_recipes [] e h = absurd (cc h)
      by_recipes (q ∷ qs) e h =
          let same : inputs normalize (q ∷ qs) ≡ ds = cc h in
          let (r, a, side) = inputs-Among t (q ∷ qs) (subst (λ z. mem t z ≡ true) (sym same) m) in
          let (b, for_s) = recipes_for-Among s r rs (subst (Among r) (sym e) a) in
          (r, b, for_s, side)

  IsInput-made_of :
      (rs : List Recipe) (s t : String)
      → IsInput rs s t
      → (ds : List String) × (made_of rs s ≡ some ds) × (mem t ds ≡ true)
  IsInput-made_of rs s t (r, a, for_s, side) =
      let b = Among-recipes_for s r rs a for_s in
      (
        inputs normalize (recipes_for s rs),
        ap (inputs_of normalize) (join-some (recipes_for s rs) r b),
        Among-inputs t r (recipes_for s rs) b side,
      )

  pub Reach-Made :
      (rs : List Recipe) (s : String) {t : String} → Reach (made_of rs) s t → Made rs s t
  Reach-Made rs s (direct t ds made m) = straight t (made_of-IsInput rs s t ds made m)
  Reach-Made rs s (through t u ds way made m) =
      further t u (Reach-Made rs s way) (made_of-IsInput rs t u ds made m)

  pub Made-Reach :
      (rs : List Recipe) (s : String) {t : String} → Made rs s t → Reach (made_of rs) s t
  Made-Reach rs s (straight t input) =
      let (ds, made, m) = IsInput-made_of rs s t input in direct t ds made m
  Made-Reach rs s (further t u way input) =
      let (ds, made, m) = IsInput-made_of rs t u input in
      through t u ds (Made-Reach rs s way) made m
