-- ===== src/History/Coherent.antt =====
-- cache.py, `change_references`: the invariant of the references that are kept, and the query.
use quick_price.Prelude.{
  ℕ, ◌-◌, ◌%◌, ◌≤◌, ◌≡◌, ◌⊎◌, refl, sym, ◌∙◌, inl, inr, true, Option, none, some, String, List, [],
  ◌∷◌, map, ◌==◌, All, Bool-cases, arith,
}
use quick_price.Prelude.Dict.{Dict, get, put, get-put}
use quick_price.Prelude.Texts.{String-discrete}
use quick_price.History.{Point, Rings}
use quick_price.History.Adds.{IsOrdered}
use quick_price.History.Cache.{
  Cache, Cached, minute, windows, rings_of, dependents_of, reference_by, reference_of, references,
  change_references, use_cached, compute_references,
}
use quick_price.History.Sweep.{entry_of}
use quick_price.History.Depends.{
  AlikeRings, AlignedRings, reference_at-Alike, reference_at-Aligned, synthetic_reference_at-Alike,
  synthetic_reference_at-Aligned,
}
use quick_price.History.Register.{inputs_of}
use quick_price.Registry.Search.{mem}
use quick_price.Synthetic.Base.{Arithmetic, Recipe}

abbrev pub recipe_of : Cache → String → Option Recipe
recipe_of c x = get String-discrete x c.recipes

-- The rings of the second symbol are read for a reference of the first.
abbrev pub ReadsBy : Option Recipe → String → String → Type 0
ReadsBy none x y = x ≡ y
ReadsBy (some r) x y = (r.left_symbol ≡ y) ⊎ (r.right_symbol ≡ y)

abbrev pub Reads : Cache → String → String → Type 0
Reads c x y = ReadsBy (recipe_of c x) x y

abbrev pub AllOrdered : Cache → Type 0
AllOrdered c = (x : String) → IsOrdered (rings_of c x)

abbrev pub AllAligned : Cache → Type 0
AllAligned c = (x : String) → AlignedRings (rings_of c x)

-- A symbol with a recipe is a dependent of its inputs.
abbrev pub Linked : Cache → Type 0
Linked c =
    (x : String) (r : Recipe)
    → recipe_of c x ≡ some r
    → (mem x (dependents_of c.dependents r.left_symbol) ≡ true)
      × (mem x (dependents_of c.dependents r.right_symbol) ≡ true)

-- A recipe that `make_recipe` made has both its symbols among its inputs.
abbrev pub IsMade : Recipe → Type 0
IsMade r = (mem r.left_symbol (inputs_of r) ≡ true) × (mem r.right_symbol (inputs_of r) ≡ true)

module _ (ar : Arithmetic) where
  -- The references that are kept are those that the rings give; the rings are in order and hold
  -- full minutes.
  pub record IsCoherent (c : Cache) : Type 0 where
    pub fresh :
        (x : String) (e : Cached)
        → entry_of x c.cached ≡ some e
        → e.references ≡ references ar c x e.as_of
    pub ordered : AllOrdered c
    pub aligned : AllAligned c
    pub linked : Linked c
    pub made : (x : String) (r : Recipe) → recipe_of c x ≡ some r → IsMade r

  reference_by-Alike :
      (o : Option Recipe) (f g : String → Rings) (x : String) (t : ℕ)
      → ((y : String) → IsOrdered (f y))
      → ((y : String) → IsOrdered (g y))
      → ((y : String) → ReadsBy o x y → AlikeRings t (f y) (g y))
      → reference_by ar o f x t ≡ reference_by ar o g x t
  unfolding reference_by
  reference_by-Alike none f g x t a b h = reference_at-Alike t (f x) (g x) (a x) (b x) (h x refl)
  reference_by-Alike (some r) f g x t a b h =
      synthetic_reference_at-Alike ar r t (f r.left_symbol) (g r.left_symbol) (f r.right_symbol)
        (g r.right_symbol) (a r.left_symbol) (b r.left_symbol) (h r.left_symbol (inl refl))
        (h r.right_symbol (inr refl))

  reference_by-Aligned :
      (o : Option Recipe) (f : String → Rings) (x : String) (t t' : ℕ)
      → minute t ≡ minute t'
      → ((y : String) → IsOrdered (f y))
      → ((y : String) → AlignedRings (f y))
      → reference_by ar o f x t ≡ reference_by ar o f x t'
  unfolding reference_by
  reference_by-Aligned none f x t t' m a b = reference_at-Aligned t t' (f x) m (a x) (b x)
  reference_by-Aligned (some r) f x t t' m a b =
      synthetic_reference_at-Aligned ar r t t' (f r.left_symbol) (f r.right_symbol) m
        (a r.left_symbol) (b r.left_symbol)

  map-same :
      (P : ℕ → Type 0) (f g : ℕ → Option Point) (ds : List ℕ)
      → ((d : ℕ) → P d → f d ≡ g d)
      → All P ds
      → map f ds ≡ map g ds
  map-same P f g [] same h = refl
  map-same P f g (d ∷ ds) same h = rw (same d h.0, map-same P f g ds same h.1) refl

  windows-hour : All (λ d. 3_600 ≤ d) windows
  windows-hour = omega arith

  windows-minutes : All (λ d. d % 60 ≡ 0) windows
  windows-minutes = omega arith

  AlikeRings-le : (t t' : ℕ) (r r' : Rings) → t ≤ t' → AlikeRings t' r r' → AlikeRings t r r'
  AlikeRings-le t t' r r' l (a, b, c) = (
    (λ make keeps s k. a make keeps s (omega arith)),
    (λ make keeps s k. b make keeps s (omega arith)),
    (λ make keeps s k. c make keeps s (omega arith)),
  )

  -- The references of a time depend on the rings up to the hour before it.
  pub references-Alike :
      (c c' : Cache) (x : String) (as_of : ℕ)
      → recipe_of c' x ≡ recipe_of c x
      → AllOrdered c
      → AllOrdered c'
      → ((y : String) → Reads c x y → AlikeRings (as_of - 3_600) (rings_of c y) (rings_of c' y))
      → references ar c x as_of ≡ references ar c' x as_of
  unfolding references reference_of rings_of
  references-Alike c c' x as_of same a b h =
      map-same (λ d. 3_600 ≤ d) (λ d. reference_of ar c x (as_of - d))
        (λ d. reference_of ar c' x (as_of - d)) windows
        (λ d l. rw same (
          reference_by-Alike (recipe_of c x) (rings_of c) (rings_of c') x (as_of - d) a b (λ y k.
            AlikeRings-le (as_of - d) (as_of - 3_600) (rings_of c y) (rings_of c' y) (omega arith)
              (h y k))))
        windows-hour

  -- They are the same throughout a minute.
  pub references-minute :
      (c : Cache) (x : String) (as_of as_of' : ℕ)
      → minute as_of ≡ minute as_of'
      → AllOrdered c
      → AllAligned c
      → references ar c x as_of ≡ references ar c x as_of'
  unfolding references reference_of
  references-minute c x as_of as_of' m a b =
      map-same (λ d. d % 60 ≡ 0) (λ d. reference_of ar c x (as_of - d))
        (λ d. reference_of ar c x (as_of' - d)) windows
        (λ d l.
          reference_by-Aligned (recipe_of c x) (rings_of c) x (as_of - d) (as_of' - d) (omega arith)
            a b)
        windows-minutes

  pub references-cached :
      (c : Cache) (k : Dict String Cached) (x : String) (as_of : ℕ)
      → references ar (record c { cached = k }) x as_of ≡ references ar c x as_of
  unfolding references reference_of rings_of
  references-cached c k x as_of = refl

  kept-fresh :
      (c : Cache) (x y : String) (entry e : Cached)
      → IsCoherent c
      → entry.references ≡ references ar c x entry.as_of
      → entry_of y (put String-discrete x entry c.cached) ≡ some e
      → e.references ≡ references ar c y e.as_of
  kept-fresh c x y entry e s found h = elim (String-discrete x y) [
    | yes p ↦
        let same : entry ≡ e = ground (arith, get-put String-discrete x y entry c.cached) in
        rw (← same, ← p) found
    | no p ↦ s.fresh y e (ground (arith, get-put String-discrete x y entry c.cached))
  ]

  compute_references-IsCoherent :
      (c : Cache) (x : String) (as_of : ℕ)
      → IsCoherent c
      → IsCoherent (compute_references ar c x as_of).0
  unfolding compute_references rings_of
  compute_references-IsCoherent c x as_of s = record {
    fresh = λ y e h.
        kept-fresh c x y (record { as_of = as_of; references = references ar c x as_of }) e s refl h
        ∙ sym (references-cached c _ y e.as_of);
    ordered = s.ordered;
    aligned = s.aligned;
    linked = s.linked;
    made = s.made;
  }

  use_cached-IsCoherent :
      (c : Cache) (x : String) (as_of : ℕ) (o : Option Cached)
      → IsCoherent c
      → IsCoherent (use_cached ar c x as_of o).0
  unfolding use_cached
  use_cached-IsCoherent c x as_of none s = compute_references-IsCoherent c x as_of s
  use_cached-IsCoherent c x as_of (some e) s = elim (Bool-cases (minute e.as_of == minute as_of)) [
    | inl same ↦ rw same s
    | inr other ↦ rw other (compute_references-IsCoherent c x as_of s)
  ]

  use_cached-references :
      (c : Cache) (x : String) (as_of : ℕ) (o : Option Cached)
      → IsCoherent c
      → entry_of x c.cached ≡ o
      → (use_cached ar c x as_of o).1 ≡ references ar c x as_of
  unfolding use_cached compute_references
  use_cached-references c x as_of none s h = refl
  use_cached-references c x as_of (some e) s h =
      elim (Bool-cases (minute e.as_of == minute as_of)) [
        | inl same ↦
            rw same (
              s.fresh x e h
              ∙ references-minute c x e.as_of as_of (ground arith) s.ordered s.aligned)
        | inr other ↦ rw other refl
      ]

  pub change_references-IsCoherent :
      (c : Cache) (x : String) (as_of : ℕ)
      → IsCoherent c
      → IsCoherent (change_references ar c x as_of).0
  unfolding change_references
  change_references-IsCoherent c x as_of s = use_cached-IsCoherent c x as_of (entry_of x c.cached) s

  -- A query is answered by what the rings hold at its own time, kept references or not.
  pub change_references-current :
      (c : Cache) (x : String) (as_of : ℕ)
      → IsCoherent c
      → (change_references ar c x as_of).1 ≡ references ar c x as_of
  unfolding change_references
  change_references-current c x as_of s =
      use_cached-references c x as_of (entry_of x c.cached) s refl
