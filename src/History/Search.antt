-- ===== src/History/Search.antt =====
-- cache.py, `reaches_target`: the search ends, and it finds a way exactly when there is one.
use text.Mathlib.Text.{◌==◌ as str_eq}
use text.Mathlib.TextEquality.{eq_iff}
use mathlib.Core.Path.{subst}
use quick_price.Prelude.{
  ℕ, zero, suc, ◌<◌, ◌≡◌, ◌≢◌, ◌⊎◌, refl, sym, ◌∙◌, inl, inr, Bool, true, false, Option, some,
  String, List, [], ◌∷◌, All, Bool-cases, Option-cases, arith, length,
}
use quick_price.Registry.Search.{mem}
use quick_price.Registry.Order.{Within, cons-Within, mem-cons}
use quick_price.Registry.Cycles.{Reach, direct, through, mem-All, All-map}
use quick_price.Registry.Fuel.{room, room-cons-lt, room-nil}
use quick_price.History.Register.{Found, or_no_inputs, any_reaches, reaches_target}
use quick_price.History.Sweep.{room-Within}

module _ (deps : String → Option (List String)) (target : String) (ks : List String) where
  abbrev inputs : String → List String
  inputs s = or_no_inputs (deps s)

  abbrev Members : List String → List String → Type 0
  Members ds v = All (λ d. mem d v ≡ true) ds

  Members-Within : (ds v w : List String) → Within v w → Members ds v → Members ds w
  Members-Within [] v w h m = tt
  Members-Within (d ∷ ds) v w h m = (h d m.0, Members-Within ds v w h m.1)

  -- Of the symbols of `w` that are not in `v` none is the target, and all inputs are in `w`.
  abbrev Explored : List String → List String → Type 0
  Explored v w =
      (x : String) → mem x w ≡ true → (mem x v ≡ true) ⊎ ((x ≢ target) × Members (inputs x) w)

  Explored-trans : (v w u : List String) → Within w u → Explored v w → Explored w u → Explored v u
  Explored-trans v w u grows h k x m = elim (k x m) [
    | inr here ↦ inr here
    | inl before ↦ elim (h x before) [
      | inl old ↦ inl old
      | inr (ne, all) ↦ inr (ne, Members-Within (inputs x) w u grows all)
    ]
  ]

  -- The target can be come to from the symbol, or is it.
  abbrev pub Leads : String → Type 0
  Leads s = (s ≡ target) ⊎ Reach deps s target

  abbrev Outcome : String → List String → Bool → List String → Type 0
  Outcome s v true w = Leads s
  Outcome s v false w = Within v w × (mem s w ≡ true) × Explored v w

  abbrev Goes : ℕ → (String → List String → Found) → String → Type 0
  Goes n f s =
      (v : List String)
      → room v ks < n
      → (found : Bool) × (w : List String) × (f s v ≡ some (found, w)) × Outcome s v found w

  abbrev AnyOutcome : List String → List String → Bool → List String → Type 0
  AnyOutcome ds v true w = (d : String) × (mem d ds ≡ true) × Leads d
  AnyOutcome ds v false w = Within v w × Members ds w × Explored v w

  abbrev AnyResult : (String → List String → Found) → List String → List String → Type 0
  AnyResult f ds v =
      (found : Bool) × (w : List String) × (any_reaches f ds v ≡ some (found, w))
      × AnyOutcome ds v found w

  abbrev Result : (String → List String → Found) → String → List String → Type 0
  Result f s v =
      (found : Bool) × (w : List String) × (f s v ≡ some (found, w)) × Outcome s v found w

  any-join :
      (f : String → List String → Found) (d : String) (ds v w : List String)
      → f d v ≡ some (false, w)
      → Within v w
      → mem d w ≡ true
      → Explored v w
      → AnyResult f ds w
      → AnyResult f (d ∷ ds) v
  unfolding any_reaches
  any-join f d ds v w e grows at_d explored (true, u, e', (x, m, leads)) =
      (true, u, rw (e, any_reaches) e', (x, unfold mem in ground arith, leads))
  any-join f d ds v w e grows at_d explored (false, u, e', (grows', all, explored')) = (
    false,
    u,
    rw (e, any_reaches) e',
    (
      (λ x m. grows' x (grows x m)),
      (grows' d at_d, all),
      Explored-trans v w u grows' explored explored',
    ),
  )

  any-next :
      (f : String → List String → Found) (d : String) (ds v : List String)
      → ((w : List String) → Within v w → AnyResult f ds w)
      → Result f d v
      → AnyResult f (d ∷ ds) v
  unfolding any_reaches
  any-next f d ds v rest (true, w, e, leads) =
      (true, w, rw (e, any_reaches) refl, (d, unfold mem in ground (arith, eq_iff d d), leads))
  any-next f d ds v rest (false, w, e, (grows, at_d, explored)) =
      any-join f d ds v w e grows at_d explored (rest w grows)

  any-Goes :
      (n : ℕ) (f : String → List String → Found) (ds v : List String)
      → All (Goes n f) ds
      → room v ks < n
      → AnyResult f ds v
  unfolding any_reaches
  any-Goes n f [] v goes l = (false, v, refl, ((λ x m. m), tt, λ x m. inl m))
  any-Goes n f (d ∷ ds) v goes l =
      any-next f d ds v
        (λ w grows. any-Goes n f ds w goes.1 (omega (arith, room-Within v w ks grows))) (goes.0 v l)

  -- Every input of a symbol is in the list.
  abbrev pub Closed : Type 0
  Closed = (s : String) → All (λ d. mem d ks ≡ true) (inputs s)

  reaches-new :
      (fuel : ℕ) (s : String) (v : List String)
      → str_eq s target ≡ false
      → mem s v ≡ false
      → reaches_target deps target (suc fuel) s v
        ≡ any_reaches (reaches_target deps target fuel) (inputs s) (s ∷ v)
  unfolding reaches_target
  reaches-new fuel s v other new = rw (other, new) refl

  Reach-prepend :
      (s d : String) (ds : List String)
      → deps s ≡ some ds
      → mem d ds ≡ true
      → {t : String} → Reach deps d t
      → Reach deps s t
  Reach-prepend s d ds e m (direct t es e' m') = through d t es (direct d ds e m) e' m'
  Reach-prepend s d ds e m (through t u es r e' m') =
      through t u es (Reach-prepend s d ds e m r) e' m'

  inputs-Leads : (s d : String) → mem d (inputs s) ≡ true → Leads d → Reach deps s target
  inputs-Leads s d m leads = elim (Option-cases (deps s)) [
    | inl e ↦ absurd (let none_in : mem d [] ≡ true = rw e at m in unfold mem in cc)
    | inr (ds, e) ↦
        let here : mem d ds ≡ true = rw e at m in
        elim leads [
          | inl p ↦ subst (λ z. Reach deps s z) p (direct d ds e here)
          | inr r ↦ Reach-prepend s d ds e here r
        ]
  ]

  reaches-from :
      (fuel : ℕ) (s : String) (v : List String)
      → str_eq s target ≡ false
      → mem s v ≡ false
      → AnyResult (reaches_target deps target fuel) (inputs s) (s ∷ v)
      → Result (reaches_target deps target (suc fuel)) s v
  reaches-from fuel s v other new (true, w, e, (d, m, leads)) =
      (true, w, reaches-new fuel s v other new ∙ e, inr (inputs-Leads s d m leads))
  reaches-from fuel s v other new (false, w, e, (grows, all, explored)) = (
    false,
    w,
    reaches-new fuel s v other new ∙ e,
    (
      (λ x m. grows x (cons-Within deps s v x m)),
      grows s (mem-cons deps s v),
      λ x m. elim (explored x m) [
        | inr here ↦ inr here
        | inl before ↦ elim (Bool-cases (str_eq x s)) [
          | inl same ↦
              let is_s : s ≡ x = sym ((eq_iff x s).0 same) in
              inr (
                subst (λ z. (z ≢ target) × Members (inputs z) w) is_s
                  ((λ p. absurd (cc (other, (eq_iff s target).1 p))), all))
          | inr apart ↦ inl (unfold mem in ground arith)
        ]
      ],
    ),
  )

  pub reaches-Goes :
      (fuel : ℕ) (s : String)
      → Closed
      → mem s ks ≡ true
      → Goes fuel (reaches_target deps target fuel) s
  unfolding reaches_target
  reaches-Goes zero s closed m v l = absurd (omega arith)
  reaches-Goes (suc fuel) s closed m v l = elim (Bool-cases (str_eq s target)) [
    | inl at_target ↦ (true, v, rw at_target refl, inl ((eq_iff s target).0 at_target))
    | inr other ↦ elim (Bool-cases (mem s v)) [
      | inl old ↦ (false, v, rw (other, old) refl, ((λ x k. k), old, λ x k. inl k))
      | inr new ↦ reaches-from fuel s v other new (
          any-Goes fuel (reaches_target deps target fuel) (inputs s) (s ∷ v)
            (All-map (λ d. mem d ks ≡ true) (Goes fuel (reaches_target deps target fuel)) (inputs s)
              (λ d k. reaches-Goes fuel d closed k) (closed s))
            (omega (arith, room-cons-lt s v ks m new)))
    ]
  ]

  -- A list that has all inputs of its symbols, and not the target, leads nowhere near it.
  Explored-step :
      (w : List String) (s t : String) (ds : List String)
      → Explored [] w
      → mem s w ≡ true
      → deps s ≡ some ds
      → mem t ds ≡ true
      → mem t w ≡ true
  Explored-step w s t ds ex m e k = elim (ex s m) [
    | inl none_in ↦ absurd (unfold mem in cc)
    | inr (ne, all) ↦ mem-All (λ d. mem d w ≡ true) t ds k (rw e at all)
  ]

  Explored-Reach :
      (w : List String) (d : String) {t : String}
      → Explored [] w
      → mem d w ≡ true
      → Reach deps d t
      → mem t w ≡ true
  Explored-Reach w d ex m (direct t ds e k) = Explored-step w d t ds ex m e k
  Explored-Reach w d ex m (through t u ds r e k) =
      Explored-step w t u ds ex (Explored-Reach w d ex m r) e k

  Explored-ne : (w : List String) → Explored [] w → mem target w ≡ true → ⊥
  Explored-ne w ex m = elim (ex target m) [
    | inl none_in ↦ absurd (unfold mem in cc)
    | inr (ne, all) ↦ absurd (ne refl)
  ]

  ended :
      (s : String)
      → Result (reaches_target deps target (suc (length ks))) s []
      → ((w : List String) × (reaches_target deps target (suc (length ks)) s [] ≡ some (true, w))
          × Leads s)
        ⊎ ((w : List String) × (reaches_target deps target (suc (length ks)) s [] ≡ some (false, w))
            × (Leads s → ⊥))
  ended s (true, w, e, leads) = inl (w, e, leads)
  ended s (false, w, e, (grows, at_s, ex)) = inr (
    w,
    e,
    λ leads. elim leads [
      | inl p ↦ Explored-ne w ex (subst (λ z. mem z w ≡ true) p at_s)
      | inr r ↦ Explored-ne w ex (Explored-Reach w s ex at_s r)
    ],
  )

  -- With the fuel of the program the search from a symbol finds a way exactly when there is one.
  pub reaches_lem :
      (s : String)
      → Closed
      → mem s ks ≡ true
      → ((w : List String) × (reaches_target deps target (suc (length ks)) s [] ≡ some (true, w))
          × Leads s)
        ⊎ ((w : List String) × (reaches_target deps target (suc (length ks)) s [] ≡ some (false, w))
            × (Leads s → ⊥))
  reaches_lem s closed m =
      ended s (reaches-Goes (suc (length ks)) s closed m [] (omega (arith, room-nil ks)))
