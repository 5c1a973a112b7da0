-- ===== src/History/Runs.antt =====
-- cache.py, class `HistoryCache`: any run of its operations.
use text.Mathlib.Text.{◌==◌ as str_eq}
use text.Mathlib.TextEquality.{eq_iff}
use mathlib.Core.Path.{subst}
use quick_price.Prelude.{
  ◌⊎◌, ℕ, ◌≡◌, refl, inl, inr, Bool, true, false, Option, none, some, String, List, [], ◌∷◌,
  Bool-cases, Option-cases, arith,
}
use quick_price.Prelude.Int.{ℤ, pos, negsuc}
use quick_price.Prelude.Dict.{get}
use quick_price.Prelude.Texts.{String-discrete}
use quick_price.Registry.Search.{mem}
use quick_price.History.{Point}
use quick_price.History.Gone.{IsPart}
use quick_price.History.Cache.{
  no_rings, Cache, rings_of, references, change_references, prune, add_point,
}
use quick_price.History.Coherent.{
  recipe_of, IsMade, IsCoherent, change_references-IsCoherent, change_references-current,
}
use quick_price.History.Frames.{IsDated}
use quick_price.History.Current.{OnTime, prune-IsCoherent, add_point-IsCoherent}
use quick_price.History.Load.{Row, load}
use quick_price.History.Loads.{Dated, load-IsCoherent}
use quick_price.History.Register.{
  inputs_at, Registered, ok, err, register, register_made, make_recipe, checked, unless_negative,
  new_recipe, same_recipe,
}
use quick_price.History.Renewed.{write_recipe-IsCoherent}
use quick_price.History.Retain.{retain_symbols}
use quick_price.History.Keeps.{retain_symbols-Keeps}
use quick_price.Synthetic.Base.{Arithmetic, inverse, product, quotient, Recipe}

-- A call of the cache; `asks` is `change_references`.
pub data Event : Type 0 where
  adds : String → Point → Event
  loads : List Row → Event
  prunes : ℕ → Event
  registers : String → List String → String → ℤ → String → Event
  retains : List String → Event
  asks : String → ℕ → Event

abbrev pub new : Cache
new = record { rings = []; cached = []; recipes = []; dependents = [] }

-- A call that raises changes nothing.
abbrev pub or_before : Cache → Option Cache → Cache
or_before c none = c
or_before c (some c') = c'

abbrev pub kept_cache : Cache → Option (Cache × ℕ) → Cache
kept_cache c none = c
kept_cache c (some out) = out.0

abbrev pub accepted : Cache → Option Registered → Cache
accepted c none = c
accepted c (some (err e)) = c
accepted c (some (ok c')) = c'

unfoldable pub step : Arithmetic → Cache → Event → Cache
unfolding add_point load prune register retain_symbols change_references
step ar c (adds s p) = or_before c (add_point c s p)
step ar c (loads rows) = or_before c (load c rows)
step ar c (prunes now) = (prune c now).0
step ar c (registers s inputs operation max_skew provider) =
    accepted c (register c s inputs operation max_skew provider)
step ar c (retains symbols) = kept_cache c (retain_symbols c symbols)
step ar c (asks s as_of) = (change_references ar c s as_of).0

unfoldable pub run : Arithmetic → Cache → List Event → Cache
unfolding step
run ar c [] = c
run ar c (e ∷ es) = run ar (step ar c e) es

-- Daily points stand at full minutes, and no point comes so late that a kept reference has its hour
-- between the point and the start of the point's five minutes.
abbrev pub IsTimely : Cache → Event → Type 0
IsTimely c (adds s p) = OnTime c p × IsDated p
IsTimely c (loads rows) = Dated rows
IsTimely c _ = Unit

abbrev pub AllTimely : Arithmetic → Cache → List Event → Type 0
AllTimely ar c [] = Unit
AllTimely ar c (e ∷ es) = IsTimely c e × AllTimely ar (step ar c e) es

one_input-IsMade :
    (a : String) (skew : ℤ) (provider : String) → IsMade (new_recipe inverse a a skew provider)
unfolding mem
one_input-IsMade a skew provider = ground (arith, eq_iff a a)

product-IsMade :
    (a b : String) (skew : ℤ) (provider : String) → IsMade (new_recipe product a b skew provider)
unfolding mem
product-IsMade a b skew provider = ground (arith, eq_iff a a, eq_iff b b)

quotient-IsMade :
    (a b : String) (skew : ℤ) (provider : String) → IsMade (new_recipe quotient a b skew provider)
unfolding mem
quotient-IsMade a b skew provider = ground (arith, eq_iff a a, eq_iff b b)

some-IsMade : (q r : Recipe) → IsMade q → some q ≡ some r → IsMade r
some-IsMade q r made e = subst IsMade (cc) made

make_recipe-IsMade :
    (operation : String) (inputs : List String) (skew : ℤ) (provider : String) (r : Recipe)
    → make_recipe operation inputs skew provider ≡ some r
    → IsMade r
unfolding make_recipe
make_recipe-IsMade operation [] skew provider r e = absurd (cc e)
make_recipe-IsMade operation (a ∷ []) skew provider r e =
    elim (Bool-cases (str_eq operation "inverse")) [
      | inl f ↦ some-IsMade _ r (one_input-IsMade a skew provider) (rw f at e)
      | inr f ↦ absurd (cc (rw f at e))
    ]
make_recipe-IsMade operation (a ∷ b ∷ []) skew provider r e =
    elim (Bool-cases (str_eq operation "multiply")) [
      | inl f ↦ some-IsMade _ r (product-IsMade a b skew provider) (rw f at e)
      | inr f ↦ elim (Bool-cases (str_eq operation "divide")) [
        | inl g ↦ some-IsMade _ r (quotient-IsMade a b skew provider) (rw (f, g) at e)
        | inr g ↦ absurd (cc (rw (f, g) at e))
      ]
    ]
make_recipe-IsMade operation (a ∷ b ∷ x ∷ rest) skew provider r e = absurd (cc e)

module _ (ar : Arithmetic) where
  checked-IsCoherent :
      (c : Cache) (s : String) (r : Recipe) (closes : Option Bool)
      → IsMade r
      → IsCoherent ar c
      → IsCoherent ar (accepted c (checked c s r closes))
  unfolding checked
  checked-IsCoherent c s r none made coh = coh
  checked-IsCoherent c s r (some true) made coh = coh
  checked-IsCoherent c s r (some false) made coh =
      elim (Bool-cases (same_recipe (get String-discrete s c.recipes) r)) [
        | inl same ↦ rw same coh
        | inr other ↦ rw other (write_recipe-IsCoherent ar c s r made coh)
      ]

  register_made-IsCoherent :
      (c : Cache) (s : String) (o : Option Recipe)
      → ((r : Recipe) → o ≡ some r → IsMade r)
      → IsCoherent ar c
      → IsCoherent ar (accepted c (register_made c s o))
  unfolding register_made unless_negative
  register_made-IsCoherent c s none made coh = coh
  register_made-IsCoherent c s (some r) made coh =
      by_skew r.max_skew _ (checked-IsCoherent c s r _ (made r refl) coh)
    where
      by_skew :
          (skew : ℤ) (next : Option Registered)
          → IsCoherent ar (accepted c next)
          → IsCoherent ar (accepted c (unless_negative skew next))
      by_skew (pos n) next h = h
      by_skew (negsuc n) next h = coh

  step-IsCoherent :
      (c : Cache) (e : Event) → IsTimely c e → IsCoherent ar c → IsCoherent ar (step ar c e)
  unfolding step
  step-IsCoherent c (adds s p) (on_time, dated) coh = elim (Option-cases (add_point c s p)) [
    | inl e ↦ rw e coh
    | inr (c', e) ↦ rw e (add_point-IsCoherent ar c c' s p coh on_time dated e)
  ]
  step-IsCoherent c (loads rows) dated coh = elim (Option-cases (load c rows)) [
    | inl e ↦ rw e coh
    | inr (c', e) ↦ rw e (load-IsCoherent ar c c' rows coh dated e)
  ]
  step-IsCoherent c (prunes now) h coh = prune-IsCoherent ar c now coh
  step-IsCoherent c (registers s inputs operation skew provider) h coh =
      unfold register in
      register_made-IsCoherent c s (make_recipe operation inputs skew provider)
        (λ r e. make_recipe-IsMade operation inputs skew provider r e) coh
  step-IsCoherent c (retains symbols) h coh =
      let (out, e, kept) = retain_symbols-Keeps ar c symbols coh in rw e kept.0
  step-IsCoherent c (asks s as_of) h coh = change_references-IsCoherent ar c s as_of coh

  pub run-IsCoherent :
      (c : Cache) (es : List Event)
      → AllTimely ar c es
      → IsCoherent ar c
      → IsCoherent ar (run ar c es)
  unfolding run
  run-IsCoherent c [] h coh = coh
  run-IsCoherent c (e ∷ es) h coh =
      run-IsCoherent (step ar c e) es h.1 (step-IsCoherent c e h.0 coh)

  pub new-IsCoherent : IsCoherent ar new
  unfolding rings_of get
  new-IsCoherent = record {
    fresh = λ x e h. absurd (cc h);
    ordered = λ x. (tt, tt, tt);
    aligned = λ x. (tt, tt, tt);
    linked = λ x r h. absurd (cc h);
    made = λ x r h. absurd (cc h);
  }

  -- After any run of adds, loads, prunes, registrations, retentions and queries from an empty cache, where daily
  -- points stand at full minutes and no point is so late that a kept reference has its hour between
  -- the start of the point's five minutes and the point, a query for any symbol at any time is
  -- answered with the references that the rings then give at its own time, through the recipe where
  -- the symbol has one. So the references that are kept make no difference.
  pub run-current :
      (es : List Event) (x : String) (as_of : ℕ)
      → AllTimely ar new es
      → (change_references ar (run ar new es) x as_of).1 ≡ references ar (run ar new es) x as_of
  run-current es x as_of h =
      change_references-current ar (run ar new es) x as_of (run-IsCoherent new es h new-IsCoherent)

  -- After any run of adds, loads, prunes, registrations, retentions and queries from an empty cache,
  -- where daily points stand at full minutes and no point is so late that a kept reference has its
  -- hour between the start of the point's five minutes and the point, retaining a list of symbols
  -- ends; each symbol of the list has at every time the references it had before, also where it is
  -- made of symbols that are not on the list; and a symbol that is not on the list, and that no symbol
  -- of the list is made of, has no points and no recipe.
  pub run-retains :
      (es : List Event) (symbols : List String)
      → AllTimely ar new es
      → (out : Cache × ℕ) × (retain_symbols (run ar new es) symbols ≡ some out)
        × ((s : String)
            → mem s symbols ≡ true
            → (t : ℕ) → references ar out.0 s t ≡ references ar (run ar new es) s t)
        × ((s : String)
            → IsPart (inputs_at (run ar new es).recipes) symbols s
              ⊎ ((rings_of out.0 s ≡ no_rings) × (recipe_of out.0 s ≡ none)))
  run-retains es symbols h =
      let (out, e, (coh, same, rest)) =
        retain_symbols-Keeps ar (run ar new es) symbols (run-IsCoherent new es h new-IsCoherent) in
      (out, e, same, rest)
