-- ===== src/History/Kept.antt =====
-- cache.py, `retain_symbols`: the references of what is kept stay right.
use mathlib.Core.Path.{subst}
use quick_price.Prelude.{
  ◌-◌, ◌≡◌, ◌≢◌, ◌⊎◌, refl, sym, ◌∙◌, inl, inr, true, false, none, some, String, List, [], ◌∷◌,
  Bool-cases, Option-cases, arith,
}
use quick_price.Prelude.Dict.{Dict, pop, get-pop}
use quick_price.Prelude.Texts.{String-discrete}
use quick_price.Registry.Search.{mem}
use quick_price.History.Adds.{IsOrdered}
use quick_price.History.Cache.{Cache, Cached, no_rings, rings_of, references}
use quick_price.History.Sweep.{entry_of}
use quick_price.History.Coherent.{
  recipe_of, Reads, ReadsBy, AllOrdered, AllAligned, Linked, references-Alike,
}
use quick_price.History.Changes.{AlikeRings-refl}
use quick_price.History.Depends.{AlignedRings}
use quick_price.History.Retain.{drop_rings, drop_absent}
use quick_price.Synthetic.Base.{Arithmetic, Recipe}

module _ (ar : Arithmetic) (kept : List String) where
  -- The invariant between the two loops: right are the references of the kept symbols and of those
  -- without a recipe; the inputs of a kept symbol are kept.
  pub record IsHalf (c : Cache) : Type 0 where
    pub fresh :
        (x : String) (e : Cached)
        → (mem x kept ≡ true) ⊎ (recipe_of c x ≡ none)
        → entry_of x c.cached ≡ some e
        → e.references ≡ references ar c x e.as_of
    pub ordered : AllOrdered c
    pub aligned : AllAligned c
    pub linked : Linked c
    pub closed :
        (x : String) (r : Recipe)
        → mem x kept ≡ true
        → recipe_of c x ≡ some r
        → (mem r.left_symbol kept ≡ true) × (mem r.right_symbol kept ≡ true)

  -- Where a symbol that is not kept goes, no other symbol in question reads it.
  read_other :
      (c : Cache) (x y s : String)
      → IsHalf c
      → mem s kept ≡ false
      → s ≢ x
      → (mem x kept ≡ true) ⊎ (recipe_of c x ≡ none)
      → Reads c x y
      → s ≢ y
  read_other c x y s half off apart which reads same = elim (Option-cases (recipe_of c x)) [
    | inl e ↦ let q : ReadsBy none x y = rw e at reads in apart (same ∙ sym q)
    | inr (r, e) ↦
        let q : ReadsBy (some r) x y = rw e at reads in
        elim which [
          | inr plain ↦ absurd (cc (plain, e))
          | inl on ↦
              let (l, m) = half.closed x r on e in
              elim q [
                | inl p ↦ absurd (cc (off, subst (λ z. mem z kept ≡ true) (p ∙ sym same) l))
                | inr p ↦ absurd (cc (off, subst (λ z. mem z kept ≡ true) (p ∙ sym same) m))
              ]
        ]
  ]

  pub rings_of-drop_rings :
      (c : Cache) (s y : String) → s ≢ y → rings_of (drop_rings c s) y ≡ rings_of c y
  unfolding rings_of drop_rings
  rings_of-drop_rings c s y apart = ground (arith, get-pop String-discrete s y c.rings)

  pub rings_of-drop_rings_self : (c : Cache) (s : String) → rings_of (drop_rings c s) s ≡ no_rings
  unfolding rings_of drop_rings
  rings_of-drop_rings_self c s = ground (arith, get-pop String-discrete s s c.rings)

  dropped-IsOrdered : (c : Cache) (s : String) → AllOrdered c → AllOrdered (drop_rings c s)
  dropped-IsOrdered c s ordered x = elim (String-discrete s x) [
    | yes p ↦
        subst (λ z. IsOrdered (rings_of (drop_rings c s) z)) p
          (rw (rings_of-drop_rings_self c s) (tt, tt, tt))
    | no p ↦ rw (rings_of-drop_rings c s x p) (ordered x)
  ]

  dropped-AlignedRings : (c : Cache) (s : String) → AllAligned c → AllAligned (drop_rings c s)
  dropped-AlignedRings c s aligned x = elim (String-discrete s x) [
    | yes p ↦
        subst (λ z. AlignedRings (rings_of (drop_rings c s) z)) p
          (rw (rings_of-drop_rings_self c s) (tt, tt, tt))
    | no p ↦ rw (rings_of-drop_rings c s x p) (aligned x)
  ]

  pub popped-entry :
      (x s : String) (e : Cached) (cached : Dict String Cached)
      → entry_of x (pop String-discrete s cached) ≡ some e
      → (s ≢ x) × (entry_of x cached ≡ some e)
  popped-entry x s e cached h = elim (String-discrete s x) [
    | yes p ↦ absurd (ground (arith, get-pop String-discrete s x cached))
    | no p ↦ (p, ground (arith, get-pop String-discrete s x cached))
  ]

  drop_rings-IsHalf :
      (c : Cache) (s : String) → mem s kept ≡ false → IsHalf c → IsHalf (drop_rings c s)
  unfolding drop_rings
  drop_rings-IsHalf c s off half = record {
    fresh = λ x e which h.
        let (apart, before) = popped-entry x s e c.cached h in
        half.fresh x e which before
        ∙ references-Alike ar c (drop_rings c s) x e.as_of refl half.ordered
            (dropped-IsOrdered c s half.ordered)
            (λ y reads.
              rw (rings_of-drop_rings c s y (read_other c x y s half off apart which reads))
                (AlikeRings-refl (e.as_of - 3_600) (rings_of c y)));
    ordered = dropped-IsOrdered c s half.ordered;
    aligned = dropped-AlignedRings c s half.aligned;
    linked = half.linked;
    closed = half.closed;
  }

  pub drop_absent-IsHalf :
      (ss : List String) (c : Cache) → IsHalf c → IsHalf (drop_absent ss kept c).0
  unfolding drop_absent
  drop_absent-IsHalf [] c half = half
  drop_absent-IsHalf (s ∷ ss) c half = elim (Bool-cases (mem s kept)) [
    | inl on ↦ rw (on, drop_absent) (drop_absent-IsHalf ss c half)
    | inr off ↦
        rw (off, drop_absent)
          (drop_absent-IsHalf ss (drop_rings c s) (drop_rings-IsHalf c s off half))
  ]
