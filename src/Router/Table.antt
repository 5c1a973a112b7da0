-- ===== src/Router/Table.antt =====
-- providers/router.py: the table of routes (`register`, `configured`, `replace`, `remove`,
-- `providers_for`). A key is a normalised symbol with its capability; a provider is known by its
-- identity, and whether it has the method of a capability is the parameter `serves`.
use quick_price.Prelude.{
  ℕ, ◌≡◌, refl, ap, ◌∙◌, inl, inr, Bool, true, false, not, ◌&&◌, Option, none, some, List, [], ◌∷◌,
  arith, if◌then◌else◌, ite, Option-cases,
}
use quick_price.Prelude.Dict.{Dict, get, put, pop, get-put, get-pop, get-put_self, get-pop_self}

pub data Error : Type 0 where
  empty_chain missing_method duplicate_route : Error

pub data Result {ℓ} (A : Type ℓ) : Type ℓ where
  ok : A → Result A
  err : Error → Result A

module _ {K : Type 0} (dec : Discrete K) (serves : ℕ → K → Bool) where
  abbrev pub Routes : Type 0
  Routes = Dict K (List ℕ)

  all_serve : List ℕ → K → Bool
  all_serve [] key = true
  all_serve (p ∷ ps) key = serves p key && all_serve ps key

  is_configured : Option (List ℕ) → Bool
  is_configured none = false
  is_configured (some chain) = true

  unfoldable pub configured : Routes → K → Bool
  unfolding is_configured
  configured routes key = is_configured (get dec key routes)

  checked_register : Routes → K → List ℕ → Result Routes
  unfolding configured all_serve
  checked_register routes key chain =
      if not (all_serve chain key)
      then err missing_method
      else if configured routes key
      then err duplicate_route
      else ok (put dec key chain routes)

  unfoldable pub register : Routes → K → List ℕ → Result Routes
  unfolding checked_register
  register routes key [] = err empty_chain
  register routes key (p ∷ ps) = checked_register routes key (p ∷ ps)

  restored : Routes → K → Option (List ℕ) → Routes
  restored routes key none = routes
  restored routes key (some chain) = put dec key chain routes

  -- `replace`: the routes that it leaves, and the error that it raises
  unfoldable pub replace : Routes → K → List ℕ → Routes × Option Error
  unfolding restored
  replace routes key chain = elim (register (pop dec key routes) key chain) [
    | ok routes' ↦ (routes', none)
    | err e ↦ (restored (pop dec key routes) key (get dec key routes), some e)
  ]

  unfoldable pub remove : Routes → K → Routes
  remove routes key = pop dec key routes

  abbrev chain_or_empty : Option (List ℕ) → List ℕ
  chain_or_empty none = []
  chain_or_empty (some chain) = chain

  unfoldable pub providers_for : Routes → K → List ℕ
  providers_for routes key = chain_or_empty (get dec key routes)

  -- The error of a chain that cannot be registered, whatever is registered.
  unfoldable pub chain_error : K → List ℕ → Option Error
  unfolding all_serve
  chain_error key [] = some empty_chain
  chain_error key (p ∷ ps) = if not (all_serve (p ∷ ps) key) then some missing_method else none

  register-error :
      (routes : Routes) (key : K) (chain : List ℕ) (e : Error)
      → chain_error key chain ≡ some e
      → register routes key chain ≡ err e
  unfolding register chain_error
  register-error routes key [] e h = cc
  register-error routes key (p ∷ ps) e h = ground arith

  register-valid :
      (routes : Routes) (key : K) (chain : List ℕ)
      → chain_error key chain ≡ none
      → register routes key chain
        ≡ (if configured routes key then err duplicate_route else ok (put dec key chain routes))
  unfolding register chain_error
  register-valid routes key [] h = cc
  register-valid routes key (p ∷ ps) h = ground arith

  restored-get :
      (routes : Routes) (key j : K)
      → get dec j (restored (pop dec key routes) key (get dec key routes)) ≡ get dec j routes
  unfolding restored
  restored-get routes key j = elim (Option-cases (get dec key routes)) [
    | inl e ↦
        rw (e, restored) (ground (arith, get-pop dec key j routes, ap (λ i. get dec i routes)))
    | inr (chain, e) ↦
        rw (e, restored)
          (ground (
            arith,
            get-put dec key j chain (pop dec key routes),
            get-pop dec key j routes,
            ap (λ i. get dec i routes),
          ))
  ]

  free-after_pop : (routes : Routes) (key : K) → configured (pop dec key routes) key ≡ false
  unfolding configured
  free-after_pop routes key = rw (get-pop_self dec key routes)

  replace-valid :
      (routes : Routes) (key : K) (chain : List ℕ)
      → chain_error key chain ≡ none
      → replace routes key chain ≡ (put dec key chain (pop dec key routes), none)
  unfolding replace
  replace-valid routes key chain e =
      let registered : register (pop dec key routes) key chain
          ≡ ok (put dec key chain (pop dec key routes)) =
        register-valid (pop dec key routes) key chain e ∙ rw (free-after_pop routes key) in
      rw (registered, replace)

  replace-invalid :
      (routes : Routes) (key : K) (chain : List ℕ) (x : Error)
      → chain_error key chain ≡ some x
      → replace routes key chain ≡ (restored (pop dec key routes) key (get dec key routes), some x)
  unfolding replace
  replace-invalid routes key chain x e =
      rw (register-error (pop dec key routes) key chain x e, replace)

  -- The route of `j` after `key` is replaced by `chain`, by the error of that chain.
  abbrev pub replaced : Option Error → K → List ℕ → K → Option (List ℕ) → Option (List ℕ)
  replaced (some x) key chain j before = before
  replaced none key chain j before = ite (dec key j) (some chain) before

  -- With a valid chain, `replace` sets the route of its key and no other; with an invalid one it
  -- raises that chain's error, and leaves every route as it was.
  pub replace_lem :
      (routes : Routes) (key j : K) (chain : List ℕ)
      → ((replace routes key chain).1 ≡ chain_error key chain)
        × (get dec j (replace routes key chain).0
            ≡ replaced (chain_error key chain) key chain j (get dec j routes))
  replace_lem routes key j chain = elim (Option-cases (chain_error key chain)) [
    | inl e ↦
        rw (replace-valid routes key chain e, e)
          (
            refl,
            ground (arith, get-put dec key j chain (pop dec key routes), get-pop dec key j routes),
          )
    | inr (x, e) ↦ rw (replace-invalid routes key chain x e, e) (refl, restored-get routes key j)
  ]

  register-ok :
      (routes routes' : Routes) (key : K) (chain : List ℕ)
      → register routes key chain ≡ ok routes'
      → (configured routes key ≡ false) × (routes' ≡ put dec key chain routes)
  register-ok routes routes' key chain h = elim (Option-cases (chain_error key chain)) [
    | inr (x, e) ↦ absurd (cc (register-error routes key chain x e))
    | inl e ↦ ground (arith, register-valid routes key chain e)
  ]

  configured-false :
      (routes : Routes) (key : K) → configured routes key ≡ false → get dec key routes ≡ none
  unfolding configured
  configured-false routes key h = ground arith

  configured-put :
      (routes : Routes) (key : K) (chain : List ℕ)
      → configured (put dec key chain routes) key ≡ true
  unfolding configured
  configured-put routes key chain = rw get-put_self

  -- A successful registration was on a free key; it sets that key's route and no other, and the
  -- same key cannot be registered again.
  pub register_lem :
      (routes routes' : Routes) (key j : K) (chain other : List ℕ)
      → register routes key chain ≡ ok routes'
      → chain_error key other ≡ none
      → (get dec key routes ≡ none)
        × (get dec j routes' ≡ ite (dec key j) (some chain) (get dec j routes))
        × (register routes' key other ≡ err duplicate_route)
  register_lem routes routes' key j chain other h e =
      let (free, put_there) = register-ok routes routes' key chain h in
      (
        configured-false routes key free,
        rw put_there (get-put dec key j chain routes),
        rw put_there (register-valid _ key other e ∙ rw (configured-put routes key chain)),
      )
