-- ===== src/History/Gone.antt =====
-- cache.py, `retain_symbols`: what is kept is on the list, or a symbol of the list is made of it; the
-- rest goes.
use text.Mathlib.Text.{◌==◌ as str_eq}
use text.Mathlib.TextEquality.{eq_iff}
use mathlib.Core.Path.{subst}
use quick_price.Prelude.{
  ℕ, zero, suc, ◌≡◌, ◌⊎◌, sym, ap, ◌∙◌, inl, inr, true, false, Option, some, String, List, [], ◌∷◌,
  Bool-cases, Option-cases, arith,
}
use quick_price.Prelude.Texts.{String-discrete}
use quick_price.Registry.Search.{mem}
use quick_price.Registry.Cycles.{Reach, direct, through}
use quick_price.History.Cache.{Cache, no_rings, rings_of}
use quick_price.History.Kept.{rings_of-drop_rings, rings_of-drop_rings_self}
use quick_price.History.Register.{or_no_inputs}
use quick_price.History.Retain.{push_inputs, close_over, drop_rings, drop_absent}
use quick_price.Synthetic.Base.{Arithmetic}

-- Of a property that the inputs of a symbol have with it, the search finds only symbols that have it.
module _ (P : String → Type 0) where
  abbrev AllIn : List String → Type 0
  AllIn v = (x : String) → mem x v ≡ true → P x

  cons-AllIn : (d : String) (v : List String) → P d → AllIn v → AllIn (d ∷ v)
  cons-AllIn d v at_d all x m = elim (Bool-cases (str_eq x d)) [
    | inl same ↦ subst P (sym ((eq_iff x d).0 same)) at_d
    | inr apart ↦ all x (unfold mem in ground arith)
  ]

  push_inputs-AllIn :
      (ds kept pending : List String)
      → AllIn ds
      → AllIn kept
      → AllIn pending
      → AllIn (push_inputs ds kept pending).0 × AllIn (push_inputs ds kept pending).1
  unfolding push_inputs
  push_inputs-AllIn [] kept pending all k p = (k, p)
  push_inputs-AllIn (d ∷ ds) kept pending all k p =
      let rest : AllIn ds = (λ x m. all x (unfold mem in ground arith)) in
      let at_d = all d (unfold mem in ground (arith, eq_iff d d)) in
      elim (Bool-cases (mem d kept)) [
        | inl old ↦ rw (old, push_inputs) (push_inputs-AllIn ds kept pending rest k p)
        | inr fresh ↦
            rw (fresh, push_inputs)
              (push_inputs-AllIn ds (d ∷ kept) (d ∷ pending) rest (cons-AllIn d kept at_d k)
                (cons-AllIn d pending at_d p))
      ]

  close_over-AllIn :
      (deps : String → Option (List String)) (fuel : ℕ) (pending kept out : List String)
      → ((s : String) → P s → AllIn (or_no_inputs (deps s)))
      → AllIn kept
      → AllIn pending
      → close_over deps fuel pending kept ≡ some out
      → AllIn out
  unfolding close_over
  close_over-AllIn deps fuel [] kept out closed k p e = subst AllIn (cc e) k
  close_over-AllIn deps zero (s ∷ pending) kept out closed k p e = absurd (cc e)
  close_over-AllIn deps (suc fuel) (s ∷ pending) kept out closed k p e =
      let at_s = p s (unfold mem in ground (arith, eq_iff s s)) in
      let (k', p') =
        push_inputs-AllIn (or_no_inputs (deps s)) kept pending (closed s at_s) k
          (λ x m. p x (unfold mem in ground arith)) in
      let next = push_inputs (or_no_inputs (deps s)) kept pending in
      close_over-AllIn deps fuel next.1 next.0 out closed k' p' e

-- A symbol of the list, or one that a symbol of the list is made of.
abbrev pub IsPart : (String → Option (List String)) → List String → String → Type 0
IsPart deps symbols x =
    (mem x symbols ≡ true) ⊎ ((s : String) × (mem s symbols ≡ true) × Reach deps s x)

module _ (deps : String → Option (List String)) (symbols : List String) where
  IsPart-inputs :
      (s x : String)
      → IsPart deps symbols s
      → mem x (or_no_inputs (deps s)) ≡ true
      → IsPart deps symbols x
  IsPart-inputs s x part m = elim (Option-cases (deps s)) [
    | inl e ↦ absurd (unfold mem in cc (rw e at m))
    | inr (ds, e) ↦
        let here : mem x ds ≡ true = rw e at m in
        elim part [
          | inl on ↦ inr (s, on, direct x ds e here)
          | inr (s0, on, way) ↦ inr (s0, on, through s x ds way e here)
        ]
  ]

  pub close_over-IsPart :
      (fuel : ℕ) (kept : List String) (x : String)
      → close_over deps fuel symbols symbols ≡ some kept
      → mem x kept ≡ true
      → IsPart deps symbols x
  close_over-IsPart fuel kept x e m =
      close_over-AllIn (IsPart deps symbols) deps fuel symbols symbols kept
        (λ s part y here. IsPart-inputs s y part here) (λ y on. inl on) (λ y on. inl on) e x m

module _ (ar : Arithmetic) where
  dropped-gone :
      (s : String) (c : Cache) (x : String)
      → (str_eq x s ≡ true) ⊎ (rings_of c x ≡ no_rings)
      → rings_of (drop_rings c s) x ≡ no_rings
  dropped-gone s c x which = elim (String-discrete s x) [
    | yes p ↦
        subst (λ z. rings_of (drop_rings c s) z ≡ no_rings) p (rings_of-drop_rings_self ar [] c s)
    | no p ↦ elim which [
      | inl here ↦ absurd (p (sym ((eq_iff x s).0 here)))
      | inr e ↦ rings_of-drop_rings ar [] c s x p ∙ e
    ]
  ]

  -- The rings of a symbol that is not kept are empty, if all symbols with rings are passed.
  pub drop_absent-gone :
      (ss kept : List String) (c : Cache) (x : String)
      → mem x kept ≡ false
      → (mem x ss ≡ true) ⊎ (rings_of c x ≡ no_rings)
      → rings_of (drop_absent ss kept c).0 x ≡ no_rings
  unfolding drop_absent
  drop_absent-gone [] kept c x off (inl m) = absurd (unfold mem in cc m)
  drop_absent-gone [] kept c x off (inr e) = e
  drop_absent-gone (s ∷ ss) kept c x off which = elim (Bool-cases (mem s kept)) [
    | inl on ↦
        let apart : str_eq x s ≡ false = elim (Bool-cases (str_eq x s)) [
          | inl same ↦ absurd (cc (off, on, ap (λ z. mem z kept) ((eq_iff x s).0 same)))
          | inr p ↦ p
        ] in
        let later : (mem x ss ≡ true) ⊎ (rings_of c x ≡ no_rings) = elim which [
          | inl m ↦ inl (unfold mem in ground arith)
          | inr e ↦ inr e
        ] in
        rw (on, drop_absent) (drop_absent-gone ss kept c x off later)
    | inr gone ↦
        let later : (mem x ss ≡ true) ⊎ (rings_of (drop_rings c s) x ≡ no_rings) =
          elim (Bool-cases (str_eq x s)) [
            | inl same ↦ inr (dropped-gone s c x (inl same))
            | inr apart ↦ elim which [
              | inl m ↦ inl (unfold mem in ground arith)
              | inr e ↦ inr (dropped-gone s c x (inr e))
            ]
          ] in
        rw (gone, drop_absent) (drop_absent-gone ss kept (drop_rings c s) x off later)
  ]
