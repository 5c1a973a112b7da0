-- ===== src/Registry/Order.antt =====
-- registry.py: what the search finds is an order without a cycle, or a cycle.
use text.Mathlib.TextEquality.{eq_iff}
use mathlib.Core.Path.{subst}
use quick_price.Prelude.{
  ℕ, zero, suc, ◌≡◌, ◌⊎◌, refl, inl, inr, true, Option, none, some, String, List, [], ◌∷◌, All,
  Bool-cases, Option-cases, arith,
}
use quick_price.Registry.Search.{Visit, done, cycle, exhausted, mem, each, visit, and_then}

-- Every symbol of one list is in another.
abbrev pub Within : List String → List String → Type 0
Within xs ys = (s : String) → mem s xs ≡ true → mem s ys ≡ true

module _ (deps : String → Option (List String)) where
  -- No recipe makes the symbol, or it is in the list.
  abbrev pub Settled : List String → String → Type 0
  Settled visited s = (deps s ≡ none) ⊎ (mem s visited ≡ true)

  -- Each symbol stands before all that it is made of.
  abbrev pub Ordered : List String → Type 0
  Ordered [] = Unit
  Ordered (s ∷ rest) =
      ((ds : List String) → deps s ≡ some ds → All (Settled rest) ds) × Ordered rest

  abbrev pub Works : (String → List String → Visit) → Type 0
  Works f =
      (s : String) (visited visited' : List String)
      → f s visited ≡ done visited'
      → Ordered visited
      → Ordered visited' × Within visited visited' × Settled visited' s

  Settled-Within :
      (xs ys ds : List String) → Within xs ys → All (Settled xs) ds → All (Settled ys) ds
  Settled-Within xs ys [] w h = tt
  Settled-Within xs ys (d ∷ ds) w h = (lift h.0, Settled-Within xs ys ds w h.1)
    where
      lift : Settled xs d → Settled ys d
      lift (inl e) = inl e
      lift (inr e) = inr (w d e)

  pub Visit-cases :
      (v : Visit) → ((vs : List String) × (v ≡ done vs)) ⊎ ((v ≡ cycle) ⊎ (v ≡ exhausted))
  Visit-cases (done vs) = inl (vs, refl)
  Visit-cases cycle = inr (inl refl)
  Visit-cases exhausted = inr (inr refl)

  pub done-eq : {xs ys : List String} → done xs ≡ done ys → xs ≡ ys
  done-eq e = cc

  pub each-Works :
      (f : String → List String → Visit)
      → Works f
      → (ds visited visited' : List String) → each f ds visited ≡ done visited'
      → Ordered visited
      → Ordered visited' × Within visited visited' × All (Settled visited') ds
  unfolding each
  each-Works f works [] visited visited' e o =
      let same = done-eq e in
      (subst Ordered same o, (λ s h. subst (λ l. mem s l ≡ true) same h), tt)
  each-Works f works (d ∷ ds) visited visited' e o = elim (Visit-cases (f d visited)) [
    | inl (middle, here) ↦
        let (o', w, settled) = works d visited middle here o in
        let (o2, w2, all) = each-Works f works ds middle visited' (rw here at e) o' in
        (
          o2,
          (λ s h. w2 s (w s h)),
          ((Settled-Within middle visited' (d ∷ []) w2 (settled, tt)).0, all),
        )
    | inr (inl bad) ↦ absurd (cc (rw bad at e))
    | inr (inr bad) ↦ absurd (cc (rw bad at e))
  ]

  pub cons-Within : (s : String) (xs : List String) → Within xs (s ∷ xs)
  unfolding mem
  cons-Within s xs x h = ground arith

  pub mem-cons : (s : String) (xs : List String) → mem s (s ∷ xs) ≡ true
  unfolding mem
  mem-cons s xs = ground (arith, eq_iff s s)

  closed :
      (s : String) (ds visited visited' : List String) {inner : Visit}
      → deps s ≡ some ds
      → Ordered visited
      → ((v : List String)
          → inner ≡ done v
          → Ordered visited
          → Ordered v × Within visited v × All (Settled v) ds)
      → and_then inner (λ v. done (s ∷ v)) ≡ done visited'
      → Ordered visited' × Within visited visited' × Settled visited' s
  closed s ds visited visited' {inner} made o works e = elim (Visit-cases inner) [
    | inl (v, here) ↦
        let (o', w, all) = works v here o in
        let same : s ∷ v ≡ visited' = done-eq (rw here at e) in
        let deps-All : (es : List String) → deps s ≡ some es → All (Settled v) es =
          (λ es h. subst (All (Settled v)) (cc) all) in
        (
          subst Ordered same (deps-All, o'),
          (λ x h. subst (λ l. mem x l ≡ true) same (cons-Within s v x (w x h))),
          inr (subst (λ l. mem s l ≡ true) same (mem-cons s v)),
        )
    | inr (inl bad) ↦ absurd (cc (rw bad at e))
    | inr (inr bad) ↦ absurd (cc (rw bad at e))
  ]

  pub visit-Works : (fuel : ℕ) (visiting : List String) → Works (visit deps fuel visiting)
  unfolding visit
  visit-Works zero visiting s visited visited' e o = absurd (cc e)
  visit-Works (suc fuel) visiting s visited visited' e o = elim (Option-cases (deps s)) [
    | inl no_deps ↦
        let same = done-eq (rw no_deps at e) in
        (subst Ordered same o, (λ x h. subst (λ l. mem x l ≡ true) same h), inl no_deps)
    | inr (ds, made) ↦ elim (Bool-cases (mem s visited)) [
      | inl old ↦
          let same = done-eq (rw (made, old) at e) in
          (
            subst Ordered same o,
            (λ x h. subst (λ l. mem x l ≡ true) same h),
            inr (subst (λ l. mem s l ≡ true) same old),
          )
      | inr new ↦ elim (Bool-cases (mem s visiting)) [
        | inl on_way ↦ absurd (cc (rw (made, new, on_way) at e))
        | inr off_way ↦
            closed s ds visited visited' made o
              (each-Works (visit deps fuel (s ∷ visiting)) (visit-Works fuel (s ∷ visiting)) ds
                visited)
              (rw (made, new, off_way) at e)
      ]
    ]
  ]
