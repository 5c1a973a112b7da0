-- ===== src/Router/Substitute.antt =====
-- providers/router.py, `replace_provider_instance`: an adapter takes the place of another in every
-- route. `old not in chain` compares by identity, then by `==`, which an adapter may define: the
-- parameter `equal` is that comparison. A provider is known by its identity.
use quick_price.Prelude.{
  ℕ, ◌≡◌, refl, sym, ap, ◌∙◌, inl, inr, Bool, true, false, ◌||◌, Option, none, some, List, [], ◌∷◌,
  map, ◌==◌, if◌then◌else◌, arith, ite, Bool-cases, Option-cases,
}
use quick_price.Prelude.Dict.{Dict, get, put, get-put, Unique}
use quick_price.Router.Table.{Routes, providers_for}

module _ {K : Type 0} (dec : Discrete K) (serves : ℕ → K → Bool) (equal : ℕ → ℕ → Bool) where
  -- old in chain
  contains : ℕ → List ℕ → Bool
  contains old [] = false
  contains old (p ∷ ps) = (p == old || equal p old) || contains old ps

  abbrev pub substituted : ℕ → ℕ → ℕ → ℕ
  substituted old new p = if p == old then new else p

  -- the loop over a copy of the items
  substitute_items : ℕ → ℕ → Dict K (List ℕ) → Routes dec serves → Routes dec serves
  substitute_items old new [] routes = routes
  substitute_items old new ((key, chain) ∷ items) routes =
      substitute_items old new items (
        if contains old chain then put dec key (map (substituted old new) chain) routes else routes)

  unfoldable pub replace_provider_instance : Routes dec serves → ℕ → ℕ → Routes dec serves
  unfolding contains substitute_items
  replace_provider_instance routes old new = substitute_items old new routes routes

  map-absent :
      (old new : ℕ) (chain : List ℕ)
      → contains old chain ≡ false
      → map (substituted old new) chain ≡ chain
  unfolding contains
  map-absent old new [] h = refl
  map-absent old new (p ∷ ps) h = ground (arith, map-absent old new ps)

  abbrev through : ℕ → ℕ → Option (List ℕ) → Option (List ℕ) → Option (List ℕ)
  through old new none before = before
  through old new (some chain) before =
      if contains old chain then some (map (substituted old new) chain) else before

  with_key :
      (old new : ℕ) (items : Dict K (List ℕ)) (routes : Routes dec serves) (key j : K)
      (chain : List ℕ)
      → contains old chain ≡ true
      → get dec key items ≡ none
      → through old new
          (get dec j items)
          (get dec j (put dec key (map (substituted old new) chain) routes))
        ≡ through old new (ite (dec key j) (some chain) (get dec j items)) (get dec j routes)
  with_key old new items routes key j chain e free =
      ground (
        arith,
        get-put dec key j (map (substituted old new) chain) routes,
        ap (λ k. get dec k items),
      )

  without_key :
      (old new : ℕ) (items : Dict K (List ℕ)) (routes : Routes dec serves) (key j : K)
      (chain : List ℕ)
      → contains old chain ≡ false
      → get dec key items ≡ none
      → through old new (get dec j items) (get dec j routes)
        ≡ through old new (ite (dec key j) (some chain) (get dec j items)) (get dec j routes)
  without_key old new items routes key j chain e free = ground (arith, ap (λ k. get dec k items))

  get-substitute_items :
      (old new : ℕ) (items : Dict K (List ℕ)) (routes : Routes dec serves) (j : K)
      → Unique dec items
      → get dec j (substitute_items old new items routes)
        ≡ through old new (get dec j items) (get dec j routes)
  unfolding substitute_items get
  get-substitute_items old new [] routes j u = refl
  get-substitute_items old new ((key, chain) ∷ items) routes j (free, u) =
      let rest = get-substitute_items old new items in
      elim (Bool-cases (contains old chain)) [
        | inl e ↦ rw e (
            rest (put dec key (map (substituted old new) chain) routes) j u
            ∙ with_key old new items routes key j chain e free)
        | inr e ↦ rw e (rest routes j u ∙ without_key old new items routes key j chain e free)
      ]

  -- The route of a key has every occurrence of the old adapter replaced, and no other change.
  get-replace_provider_instance :
      (routes : Routes dec serves) (old new : ℕ) (j : K)
      → Unique dec routes
      → get dec j (replace_provider_instance routes old new) ≡ elim (get dec j routes) [
        | none ↦ none
        | some chain ↦ some (map (substituted old new) chain)
      ]
  unfolding replace_provider_instance
  get-replace_provider_instance routes old new j u =
      get-substitute_items old new routes routes j u ∙ elim (Option-cases (get dec j routes)) [
        | inl e ↦ rw e refl
        | inr (chain, e) ↦ rw e (elim (Bool-cases (contains old chain)) [
          | inl f ↦ rw f refl
          | inr f ↦ rw f (ap some (sym (map-absent old new chain f)))
        ])
      ]

  -- Where no key stands twice in the routes: after the substitution the chain of every key,
  -- configured or not, is the one before it with the new adapter in every place of the old one,
  -- whatever `==` of the adapters says.
  providers_for-replace_provider_instance :
      (routes : Routes dec serves) (old new : ℕ) (key : K)
      → Unique dec routes
      → providers_for dec serves (replace_provider_instance routes old new) key
        ≡ map (substituted old new) (providers_for dec serves routes key)
  unfolding providers_for
  providers_for-replace_provider_instance routes old new key u =
      elim (Option-cases (get dec key routes)) [
        | inl e ↦ rw (get-replace_provider_instance routes old new key u, e) refl
        | inr (chain, e) ↦ rw (get-replace_provider_instance routes old new key u, e) refl
      ]
