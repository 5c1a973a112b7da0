-- ===== src/History/Changes.antt =====
-- cache.py: every operation on the rings of one symbol keeps the references of all symbols right.
use mathlib.Core.Path.{subst}
use quick_price.Prelude.{
  ℕ, ◌+◌, ◌-◌, ◌≡◌, ◌≢◌, refl, sym, ap, ◌∙◌, inl, inr, true, Option, none, some, String, List, [],
  ◌∷◌, ite, All, Bool-cases, Option-cases, arith, length,
}
use quick_price.Prelude.Dict.{get, get-put, get-pop}
use quick_price.Prelude.Texts.{String-discrete}
use quick_price.History.{Point, Rings}
use quick_price.History.Adds.{IsOrdered}
use quick_price.History.Cache.{
  Cache, Cached, no_rings, rings_of, is_empty, set_rings, dependents_of, invalidate,
}
use quick_price.History.Sweep.{entry_of, Kept, Sub, Sub-trans}
use quick_price.History.Invalidate.{invalidate_lem}
use quick_price.History.Alike.{Alike-refl}
use quick_price.History.Depends.{AlikeRings, AlignedRings}
use quick_price.History.Coherent.{
  recipe_of, Reads, ReadsBy, AllOrdered, Linked, IsCoherent, references-Alike,
}
use quick_price.Registry.Search.{mem}
use quick_price.Registry.Cycles.{mem-All}
use quick_price.Synthetic.Base.{Arithmetic}

length-zero : (ps : List Point) → length ps ≡ 0 → ps ≡ []
length-zero [] h = refl
length-zero (p ∷ ps) h = absurd (omega arith)

is_empty-no_rings : (r : Rings) → is_empty r ≡ true → r ≡ no_rings
unfolding is_empty
is_empty-no_rings r h =
    let sum : length r.one_minute + length r.five_minute + length r.daily ≡ 0 = ground arith in
    ground (
      arith,
      length-zero r.one_minute (omega arith),
      length-zero r.five_minute (omega arith),
      length-zero r.daily (omega arith),
    )

pub rings_of-set_rings :
    (c : Cache) (s x : String) (r : Rings)
    → rings_of (set_rings c s r) x ≡ ite (String-discrete s x) r (rings_of c x)
unfolding rings_of set_rings
rings_of-set_rings c s x r = elim (Bool-cases (is_empty r)) [
  | inl e ↦ rw e (ground (arith, get-pop String-discrete s x c.rings, is_empty-no_rings r e))
  | inr e ↦ rw e (ground (arith, get-put String-discrete s x r c.rings))
]

-- What an operation on the rings of a symbol leaves as it was.
pub record Frame (c c' : Cache) (s : String) : Type 0 where
  pub recipes : c'.recipes ≡ c.recipes
  pub dependents : c'.dependents ≡ c.dependents
  pub others : (y : String) → s ≢ y → rings_of c' y ≡ rings_of c y
  pub entries : Sub c'.cached c.cached

pub set_rings-Frame : (c : Cache) (s : String) (r : Rings) → Frame c (set_rings c s r) s
set_rings-Frame c s r = record {
  recipes = unfold set_rings in ground arith;
  dependents = unfold set_rings in ground arith;
  others = λ y n. ground (arith, rings_of-set_rings c s y r);
  entries = λ x. inr (unfold set_rings in ground arith);
}

pub invalidate-Frame : (c : Cache) (t : Option ℕ) (s : String) → Frame c (invalidate c t s) s
invalidate-Frame c t s = record {
  recipes = unfold invalidate in refl;
  dependents = unfold invalidate in refl;
  others = λ y n. (unfold invalidate rings_of in refl);
  entries = (invalidate_lem c t s).0;
}

pub Frame-trans : (a b c : Cache) (s : String) → Frame a b s → Frame b c s → Frame a c s
Frame-trans a b c s f g = record {
  recipes = g.recipes ∙ f.recipes;
  dependents = g.dependents ∙ f.dependents;
  others = λ y n. g.others y n ∙ f.others y n;
  entries = Sub-trans c.cached b.cached a.cached g.entries f.entries;
}

-- What is made of a symbol is told when the symbol is.
pub reader-Kept :
    (c c' : Cache) (t : Option ℕ) (x s : String)
    → Linked c
    → Reads c x s
    → Kept t (entry_of s c'.cached)
    → All (λ d. Kept t (entry_of d c'.cached)) (dependents_of c.dependents s)
    → Kept t (entry_of x c'.cached)
reader-Kept c c' t x s linked reads at_s all = elim (Option-cases (recipe_of c x)) [
  | inl e ↦ let same : x ≡ s = (let q : ReadsBy none x s = rw e at reads in q) in rw same at_s
  | inr (r, e) ↦
      let q : ReadsBy (some r) x s = rw e at reads in
      elim q [ inl l ↦ kept (rw l at (linked x r e).0) | inr l ↦ kept (rw l at (linked x r e).1) ]
]
  where
    kept : mem x (dependents_of c.dependents s) ≡ true → Kept t (entry_of x c'.cached)
    kept m = mem-All (λ d. Kept t (entry_of d c'.cached)) x (dependents_of c.dependents s) m all

pub Frame-Linked : (c c' : Cache) (s : String) → Frame c c' s → Linked c → Linked c'
Frame-Linked c c' s f linked x r h =
    subst
      (λ d.
        (mem x (dependents_of d r.left_symbol) ≡ true)
        × (mem x (dependents_of d r.right_symbol) ≡ true))
      (sym f.dependents) (linked x r (sym (ap (λ d. get String-discrete x d) f.recipes) ∙ h))

pub Frame-Reads : (c c' : Cache) (s x y : String) → Frame c c' s → Reads c x y → Reads c' x y
Frame-Reads c c' s x y f reads =
    subst (λ d. ReadsBy (get String-discrete x d) x y) (sym f.recipes) reads

-- After the invalidation the references of what reads a symbol are up to date.
pub told :
    (c c1 : Cache) (t : Option ℕ) (x s : String)
    → Frame c c1 s
    → Linked c
    → Reads c x s
    → Kept t (entry_of x (invalidate c1 t s).cached)
told c c1 t x s f linked reads =
    let (sub, at_s, all) = invalidate_lem c1 t s in
    reader-Kept c (invalidate c1 t s) t x s linked reads at_s (
      subst (λ ds. All (λ d. Kept t (entry_of d (invalidate c1 t s).cached)) (dependents_of ds s))
        f.dependents all)

pub AlikeRings-refl : (t : ℕ) (r : Rings) → AlikeRings t r r
AlikeRings-refl t r = (Alike-refl t r.one_minute, Alike-refl t r.five_minute, Alike-refl t r.daily)

module _ (ar : Arithmetic) where
  -- An operation that changes the rings of `s` alone, and leaves of the references that depend on
  -- them none that goes wrong.
  pub one_symbol-IsCoherent :
      (c c' : Cache) (s : String)
      → IsCoherent ar c
      → Frame c c' s
      → IsOrdered (rings_of c' s)
      → AlignedRings (rings_of c' s)
      → ((x : String) (e : Cached)
          → Reads c x s
          → entry_of x c'.cached ≡ some e
          → entry_of x c.cached ≡ some e
          → AlikeRings (e.as_of - 3_600) (rings_of c s) (rings_of c' s))
      → IsCoherent ar c'
  one_symbol-IsCoherent c c' s coh f o al alike = record {
    fresh = λ x e h.
        let before : entry_of x c.cached ≡ some e = elim (f.entries x) [
          | inl gone ↦ absurd (cc)
          | inr same ↦ cc
        ] in
        coh.fresh x e before
        ∙ references-Alike ar c c' x e.as_of (ap (λ d. get String-discrete x d) f.recipes)
            coh.ordered ordered'
            (λ y reads. elim (String-discrete s y) [
              | yes p ↦
                  subst (λ z. AlikeRings (e.as_of - 3_600) (rings_of c z) (rings_of c' z)) p
                    (alike x e (subst (λ z. Reads c x z) (sym p) reads) h before)
              | no p ↦ rw (f.others y p) (AlikeRings-refl (e.as_of - 3_600) (rings_of c y))
            ]);
    ordered = ordered';
    aligned = λ x. elim (String-discrete s x) [
      | yes p ↦ subst (λ y. AlignedRings (rings_of c' y)) p al
      | no p ↦ rw (f.others x p) (coh.aligned x)
    ];
    linked = Frame-Linked c c' s f coh.linked;
    made = λ x r h. coh.made x r (sym (ap (λ d. get String-discrete x d) f.recipes) ∙ h);
  }
    where
      ordered' : AllOrdered c'
      ordered' x = elim (String-discrete s x) [
        | yes p ↦ subst (λ y. IsOrdered (rings_of c' y)) p o
        | no p ↦ rw (f.others x p) (coh.ordered x)
      ]
