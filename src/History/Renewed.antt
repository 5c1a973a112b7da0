-- ===== src/History/Renewed.antt =====
-- cache.py, `register_synthetic_history`: the references that are kept stay right.
use mathlib.Core.Path.{subst}
use quick_price.Prelude.{◌-◌, ◌≡◌, ◌≢◌, sym, ◌∙◌, inl, inr, true, none, some, String, Option-cases}
use quick_price.Prelude.Dict.{get}
use quick_price.Prelude.Texts.{String-discrete}
use quick_price.Registry.Search.{mem}
use quick_price.Registry.Cycles.{mem-All}
use quick_price.History.Adds.{IsOrdered}
use quick_price.History.Depends.{AlignedRings}
use quick_price.History.Cache.{Cache, Cached, rings_of, dependents_of}
use quick_price.History.Sweep.{entry_of}
use quick_price.History.Invalidate.{invalidate_lem}
use quick_price.History.Coherent.{IsMade, recipe_of, Reads, ReadsBy, IsCoherent, references-Alike}
use quick_price.History.Changes.{AlikeRings-refl}
use quick_price.History.Current.{Sub-entry}
use quick_price.History.Register.{discard_each, old_inputs, inputs_of, write_recipe}
use quick_price.Synthetic.Base.{Arithmetic, Recipe}
use quick_price.History.Recipes.{
  mem-added, dependents', rewritten, after, still_dependent, rings_of-after, rings_of-after_self,
  recipe_of-after, recipe_of-after_self, dependents-after,
}

module _ (ar : Arithmetic) (c : Cache) (s : String) (r : Recipe) where
  -- What is left after the invalidation does not depend on the symbol.
  after-entry :
      (x : String) (e : Cached)
      → IsCoherent ar c
      → entry_of x (after c s r).cached ≡ some e
      → (s ≢ x) × (entry_of x c.cached ≡ some e) × (Reads c x s → ⊥)
  unfolding write_recipe
  after-entry x e coh h =
      let (sub, at_s, all) = invalidate_lem (rewritten c s r) none s in
      let apart : s ≢ x =
        (λ p. absurd (cc (subst (λ z. entry_of z (after c s r).cached ≡ none) p at_s, h))) in
      let dropped : mem x (dependents_of (dependents' c s r) s) ≡ true → ⊥ = (λ m. absurd (
        cc (
          mem-All (λ d. entry_of d (after c s r).cached ≡ none) x
              (dependents_of (dependents' c s r) s) m all,
          h,
        ))) in
      (
        apart,
        Sub-entry x e (after c s r).cached c.cached sub h,
        λ reads. elim (Option-cases (recipe_of c x)) [
          | inl f ↦ let q : x ≡ s = (let z : ReadsBy none x s = rw f at reads in z) in apart (sym q)
          | inr (q, f) ↦
              let z : ReadsBy (some q) x s = rw f at reads in
              let linked = coh.linked x q f in
              elim z [
                | inl l ↦ dropped (still_dependent c s r x s apart (rw l at linked.0))
                | inr l ↦ dropped (still_dependent c s r x s apart (rw l at linked.1))
              ]
        ],
      )

  after-IsOrdered : IsCoherent ar c → (x : String) → IsOrdered (rings_of (after c s r) x)
  after-IsOrdered coh x = elim (String-discrete s x) [
    | yes p ↦
        subst (λ z. IsOrdered (rings_of (after c s r) z)) p
          (rw (rings_of-after_self c s r) (tt, tt, tt))
    | no p ↦ rw (rings_of-after c s r x p) (coh.ordered x)
  ]

  after-AlignedRings : IsCoherent ar c → (x : String) → AlignedRings (rings_of (after c s r) x)
  after-AlignedRings coh x = elim (String-discrete s x) [
    | yes p ↦
        subst (λ z. AlignedRings (rings_of (after c s r) z)) p
          (rw (rings_of-after_self c s r) (tt, tt, tt))
    | no p ↦ rw (rings_of-after c s r x p) (coh.aligned x)
  ]

  after-linked :
      (x : String) (q : Recipe)
      → IsCoherent ar c
      → IsMade r
      → recipe_of (after c s r) x ≡ some q
      → (mem x (dependents_of (after c s r).dependents q.left_symbol) ≡ true)
        × (mem x (dependents_of (after c s r).dependents q.right_symbol) ≡ true)
  after-linked x q coh (left, right) h = elim (String-discrete s x) [
    | yes p ↦
        let mine = subst (λ z. recipe_of (after c s r) z ≡ some q) (sym p) h in
        let same : r ≡ q = cc (mine, recipe_of-after_self c s r) in
        let ds = discard_each s (old_inputs (get String-discrete s c.recipes)) c.dependents in
        rw (← same, ← p, dependents-after c s r)
          (
            mem-added s r.left_symbol (inputs_of r) ds left,
            mem-added s r.right_symbol (inputs_of r) ds right,
          )
    | no p ↦
        let old : recipe_of c x ≡ some q = sym (recipe_of-after c s r x p) ∙ h in
        let (l, m) = coh.linked x q old in
        rw (dependents-after c s r)
          (still_dependent c s r x q.left_symbol p l, still_dependent c s r x q.right_symbol p m)
  ]

  after-made :
      (x : String) (q : Recipe)
      → IsCoherent ar c
      → IsMade r
      → recipe_of (after c s r) x ≡ some q
      → IsMade q
  after-made x q coh made h = elim (String-discrete s x) [
    | yes p ↦
        let mine = subst (λ z. recipe_of (after c s r) z ≡ some q) (sym p) h in
        let same : r ≡ q = cc (mine, recipe_of-after_self c s r) in subst IsMade same made
    | no p ↦ coh.made x q (sym (recipe_of-after c s r x p) ∙ h)
  ]

  pub write_recipe-IsCoherent : IsMade r → IsCoherent ar c → IsCoherent ar (write_recipe c s r)
  write_recipe-IsCoherent made coh = record {
    fresh = λ x e h.
        let (apart, before, free) = after-entry x e coh h in
        coh.fresh x e before
        ∙ references-Alike ar c (after c s r) x e.as_of (recipe_of-after c s r x apart) coh.ordered
            (after-IsOrdered coh)
            (λ y reads.
              rw
                (rings_of-after c s r y
                  (λ p. absurd (free (subst (λ z. Reads c x z) (sym p) reads))))
                (AlikeRings-refl (e.as_of - 3_600) (rings_of c y)));
    ordered = after-IsOrdered coh;
    aligned = after-AlignedRings coh;
    linked = λ x q h. after-linked x q coh made h;
    made = λ x q h. after-made x q coh made h;
  }
