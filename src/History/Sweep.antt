-- ===== src/History/Sweep.antt =====
-- cache.py, `_invalidate_references_locked`: the search for dependents ends, and what it drops.
use text.Mathlib.Text.{◌==◌ as str_eq}
use text.Mathlib.TextEquality.{eq_iff}
use quick_price.Prelude.{
  ℕ, zero, suc, ◌≤◌, ◌<◌, ◌≡◌, ◌⊎◌, refl, sym, ◌∙◌, inl, inr, true, false, Option, none, some,
  String, List, [], ◌∷◌, All, Bool-cases, arith,
}
use quick_price.Prelude.Dict.{Dict, get, get-pop}
use quick_price.Prelude.Texts.{String-discrete}
use quick_price.Registry.Search.{mem}
use quick_price.Registry.Order.{Within, cons-Within, mem-cons}
use quick_price.Registry.Cycles.{All-map}
use quick_price.Registry.Fuel.{room, room-cons-lt}
use quick_price.History.Cache.{Cached, is_outdated, drop_reference, Sweep, each_dependent, sweep}

abbrev pub entry_of : String → Dict String Cached → Option Cached
entry_of x cached = get String-discrete x cached

-- A point at the time, or a change of unknown time, leaves the reference as it is.
abbrev pub Kept : Option ℕ → Option Cached → Type 0
Kept none entry = entry ≡ none
Kept (some t) entry = is_outdated (some t) entry ≡ false

-- The references of the first are some of those of the second.
abbrev pub Sub : Dict String Cached → Dict String Cached → Type 0
Sub cached' cached =
    (x : String) → (entry_of x cached' ≡ none) ⊎ (entry_of x cached' ≡ entry_of x cached)

Kept-none : (t : Option ℕ) → Kept t none
Kept-none none = refl
Kept-none (some t) = unfold is_outdated in refl

Kept-Sub :
    (t : Option ℕ) (x : String) (cached' cached : Dict String Cached)
    → Sub cached' cached
    → Kept t (entry_of x cached)
    → Kept t (entry_of x cached')
Kept-Sub t x cached' cached sub k = elim (sub x) [ inl e ↦ rw e (Kept-none t) | inr e ↦ rw e k ]

pub Sub-refl : (cached : Dict String Cached) → Sub cached cached
Sub-refl cached x = inr refl

pub Sub-trans : (a b c : Dict String Cached) → Sub a b → Sub b c → Sub a c
Sub-trans a b c h k x = elim (h x) [
  | inl e ↦ inl e
  | inr e ↦ elim (k x) [ inl f ↦ inl (e ∙ f) | inr f ↦ inr (e ∙ f) ]
]

drop_reference-Sub :
    (t : Option ℕ) (s : String) (cached : Dict String Cached)
    → Sub (drop_reference t s cached) cached
unfolding drop_reference
drop_reference-Sub t s cached x = elim (Bool-cases (is_outdated t (entry_of s cached))) [
  | inl e ↦ rw e (elim (String-discrete s x) [
    | yes p ↦ inl (ground (arith, get-pop String-discrete s x cached))
    | no p ↦ inr (ground (arith, get-pop String-discrete s x cached))
  ])
  | inr e ↦ rw e (inr refl)
]

drop_reference-Kept :
    (t : Option ℕ) (s : String) (cached : Dict String Cached)
    → Kept t (entry_of s (drop_reference t s cached))
unfolding drop_reference is_outdated
drop_reference-Kept none s cached = ground (arith, get-pop String-discrete s s cached)
drop_reference-Kept (some t) s cached =
    elim (Bool-cases (is_outdated (some t) (entry_of s cached))) [
      | inl e ↦ rw e (ground (arith, get-pop String-discrete s s cached))
      | inr e ↦ rw e e
    ]

pub room-Within : (v w ks : List String) → Within v w → room w ks ≤ room v ks
unfolding room
room-Within v w [] h = omega arith
room-Within v w (k ∷ ks) h = ground (arith, room-Within v w ks h, h k)

module _ (deps : String → List String) (t : Option ℕ) (ks : List String) where
  abbrev pub Done : Sweep → Type 0
  Done w = (x : String) → mem x w.0 ≡ true → Kept t (entry_of x w.1)

  abbrev pub Members : List String → List String → Type 0
  Members ds v = All (λ d. mem d v ≡ true) ds

  Members-Within : (ds v w : List String) → Within v w → Members ds v → Members ds w
  Members-Within [] v w h m = tt
  Members-Within (d ∷ ds) v w h m = (h d m.0, Members-Within ds v w h m.1)

  -- With the fuel `n` the search from `s` ends; every symbol that it has been at is up to date.
  abbrev pub Goes : ℕ → (String → Sweep → Option Sweep) → String → Type 0
  Goes n f s =
      (v : List String) (cached : Dict String Cached)
      → room v ks < n
      → Done (v, cached)
      → (w : Sweep) × (f s (v, cached) ≡ some w)
        × Done w
        × Within v w.0
        × Sub w.1 cached
        × (mem s w.0 ≡ true)
        × (mem s v ≡ false → Members (deps s) w.0)

  each-cons :
      (f : String → Sweep → Option Sweep) (d : String) (ds : List String) (w w' : Sweep)
      → f d w ≡ some w'
      → each_dependent f (d ∷ ds) w ≡ each_dependent f ds w'
  unfolding each_dependent
  each-cons f d ds w w' e = rw (e, each_dependent) refl

  each-Goes :
      (n : ℕ) (f : String → Sweep → Option Sweep) (ds v : List String) (cached : Dict String Cached)
      → All (Goes n f) ds
      → room v ks < n
      → Done (v, cached)
      → (w : Sweep) × (each_dependent f ds (v, cached) ≡ some w)
        × Done w
        × Within v w.0
        × Sub w.1 cached
        × Members ds w.0
  unfolding each_dependent
  each-Goes n f [] v cached goes l h = ((v, cached), refl, h, (λ x m. m), Sub-refl cached, tt)
  each-Goes n f (d ∷ ds) v cached goes l h =
      let (w, e, done, grows, sub, at_d, all) = goes.0 v cached l h in
      let (w', e', done', grows', sub', rest) =
        each-Goes n f ds w.0 w.1 goes.1 (omega (arith, room-Within v w.0 ks grows)) done in
      (
        w',
        each-cons f d ds (v, cached) w e ∙ e',
        done',
        (λ x m. grows' x (grows x m)),
        Sub-trans w'.1 w.1 cached sub' sub,
        (grows' d at_d, rest),
      )

  -- Every dependent is in the list.
  abbrev pub Closed : Type 0
  Closed = (s : String) → All (λ d. mem d ks ≡ true) (deps s)

  Done-drop :
      (s : String) (v : List String) (cached : Dict String Cached)
      → Done (v, cached)
      → Done (s ∷ v, drop_reference t s cached)
  unfolding mem
  Done-drop s v cached h x m = elim (Bool-cases (str_eq x s)) [
    | inl e ↦
        let same : s ≡ x = sym ((eq_iff x s).0 e) in rw (← same) (drop_reference-Kept t s cached)
    | inr e ↦
        Kept-Sub t x (drop_reference t s cached) cached (drop_reference-Sub t s cached)
          (h x (rw e at m))
  ]

  sweep-new :
      (fuel : ℕ) (s : String) (v : List String) (cached : Dict String Cached)
      → mem s v ≡ false
      → sweep deps t (suc fuel) s (v, cached)
        ≡ each_dependent (sweep deps t fuel) (deps s) (s ∷ v, drop_reference t s cached)
  unfolding sweep
  sweep-new fuel s v cached new = rw new refl

  abbrev no_deps : String → Option (List String)
  no_deps x = none

  pub sweep-Goes :
      (fuel : ℕ) (s : String) → Closed → mem s ks ≡ true → Goes fuel (sweep deps t fuel) s
  unfolding sweep mem
  sweep-Goes zero s closed m v cached l h = absurd (omega arith)
  sweep-Goes (suc fuel) s closed m v cached l h = elim (Bool-cases (mem s v)) [
    | inl old ↦ rw old ((v, cached), refl, h, (λ x k. k), Sub-refl cached, old, λ new. absurd (cc))
    | inr new ↦
        let after = drop_reference t s cached in
        let (w, e, done, grows, sub, all) =
          each-Goes fuel (sweep deps t fuel) (deps s) (s ∷ v) after
            (All-map (λ d. mem d ks ≡ true) (Goes fuel (sweep deps t fuel)) (deps s)
              (λ d k. sweep-Goes fuel d closed k) (closed s))
            (omega (arith, room-cons-lt s v ks m new)) (Done-drop s v cached h) in
        (
          w,
          sweep-new fuel s v cached new ∙ e,
          done,
          (λ x k. grows x (cons-Within no_deps s v x k)),
          Sub-trans w.1 after cached sub (drop_reference-Sub t s cached),
          grows s (mem-cons no_deps s v),
          λ k. all,
        )
  ]
