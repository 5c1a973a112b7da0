-- ===== src/History/Keeps.antt =====
-- cache.py, `retain_symbols`: it ends, and the references of the kept symbols are as before.
use mathlib.Core.Path.{subst}
use quick_price.Prelude.{
  ℕ, ◌+◌, ◌-◌, ◌≤◌, ◌≡◌, ◌⊎◌, refl, sym, ap, ◌∙◌, inl, inr, true, false, Bool-cases, none, some,
  String, List, [], Option-cases, arith, length,
}
use quick_price.Prelude.Dict.{get}
use quick_price.Prelude.Texts.{String-discrete}
use quick_price.Registry.Search.{mem}
use quick_price.Registry.Cycles.{mem-ds}
use quick_price.Registry.Fuel.{room, room-nil}
use quick_price.History.Cache.{Cache, no_rings, rings_of, references}
use quick_price.History.Gone.{IsPart, close_over-IsPart, drop_absent-gone}
use quick_price.History.Retained.{drop_recipes-none}
use quick_price.History.Acyclic.{inputs-all}
use quick_price.History.Closure.{ClosedUnder, close_over-ClosedUnder}
use quick_price.History.Sweep.{room-Within}
use quick_price.History.Coherent.{recipe_of, Reads, ReadsBy, IsCoherent, references-Alike}
use quick_price.History.Changes.{AlikeRings-refl}
use quick_price.History.Register.{inputs_at, or_no_inputs, all_inputs}
use quick_price.History.Remaining.{
  keys, keys-get, drop_absent-recipes, drop_absent-rings, drop_recipes-rings, drop_recipes-recipe,
  start-IsHalf, remaining, remaining-IsCoherent,
}
use quick_price.History.Retain.{drop_absent, keep_only, retain_symbols}
use quick_price.Synthetic.Base.{Arithmetic}

module _ (ar : Arithmetic) (c : Cache) where
  -- A symbol of a closed list has its references as before.
  remaining-references :
      (kept : List String) (s : String) (t : ℕ)
      → IsCoherent ar c
      → ClosedUnder (inputs_at c.recipes) [] kept
      → mem s kept ≡ true
      → references ar (remaining ar kept c) s t ≡ references ar c s t
  remaining-references kept s t coh closed on =
      let c1 = (drop_absent (keys c.rings) kept c).0 in
      let rings_same : (y : String)
          → mem y kept ≡ true
          → rings_of (remaining ar kept c) y ≡ rings_of c y =
        (λ y m.
          drop_recipes-rings ar kept (keys c.recipes) c1 y
          ∙ drop_absent-rings ar kept (keys c.rings) c y m) in
      let recipe_same : recipe_of (remaining ar kept c) s ≡ recipe_of c s =
        drop_recipes-recipe ar kept (keys c.recipes) c1 s on
        ∙ ap (λ z. get String-discrete s z) (drop_absent-recipes (keys c.rings) kept c) in
      let after = remaining-IsCoherent ar kept c coh closed in
      sym (
        references-Alike ar c (remaining ar kept c) s t recipe_same coh.ordered after.ordered
          (λ y reads.
            rw (rings_same y (read_kept kept s y coh closed on reads))
              (AlikeRings-refl (t - 3_600) (rings_of c y))))
    where
      read_kept :
          (kept : List String) (s y : String)
          → IsCoherent ar c
          → ClosedUnder (inputs_at c.recipes) [] kept
          → mem s kept ≡ true
          → Reads c s y
          → mem y kept ≡ true
      read_kept kept s y coh closed on reads = elim (Option-cases (recipe_of c s)) [
        | inl e ↦ let q : ReadsBy none s y = rw e at reads in subst (λ z. mem z kept ≡ true) q on
        | inr (r, e) ↦
            let q : ReadsBy (some r) s y = rw e at reads in
            let (l, m) = (start-IsHalf ar kept c coh closed).closed s r on e in
            elim q [
              | inl p ↦ subst (λ z. mem z kept ≡ true) p l
              | inr p ↦ subst (λ z. mem z kept ≡ true) p m
            ]
      ]

  -- A symbol that is not kept has no rings and no recipe.
  remaining-gone :
      (kept : List String) (s : String)
      → mem s kept ≡ false
      → (rings_of (remaining ar kept c) s ≡ no_rings) × (recipe_of (remaining ar kept c) s ≡ none)
  unfolding rings_of
  remaining-gone kept s off =
      let c1 = (drop_absent (keys c.rings) kept c).0 in
      let on_record : (mem s (keys c.rings) ≡ true) ⊎ (rings_of c s ≡ no_rings) =
        elim (keys-get c.rings s) [ inl m ↦ inl m | inr e ↦ inr (rw e refl) ] in
      let same : c1.recipes ≡ c.recipes = drop_absent-recipes (keys c.rings) kept c in
      (
        drop_recipes-rings ar kept (keys c.recipes) c1 s
            ∙ drop_absent-gone ar (keys c.rings) kept c s off on_record,
        drop_recipes-none ar kept (keys c.recipes) c1 s off (
            subst (λ z. (mem s (keys c.recipes) ≡ true) ⊎ (get String-discrete s z ≡ none))
              (sym same) (keys-get c.recipes s)),
      )

  abbrev pub Keeps : List String → (Cache × ℕ) → Type 0
  Keeps symbols out =
      IsCoherent ar out.0
      × ((s : String)
          → mem s symbols ≡ true
          → (t : ℕ) → references ar out.0 s t ≡ references ar c s t)
      × ((s : String)
          → IsPart (inputs_at c.recipes) symbols s
            ⊎ ((rings_of out.0 s ≡ no_rings) × (recipe_of out.0 s ≡ none)))

  pub retain_symbols-Keeps :
      (symbols : List String)
      → IsCoherent ar c
      → (out : Cache × ℕ) × (retain_symbols c symbols ≡ some out) × Keeps symbols out
  unfolding retain_symbols keep_only
  retain_symbols-Keeps symbols coh =
      let ks = all_inputs c.recipes in
      let less : room symbols ks ≤ length ks =
        omega
          (arith, room-nil ks, room-Within [] symbols ks (λ x m. absurd (unfold mem in cc m))) in
      let (kept, e, grows, closed) =
        close_over-ClosedUnder (inputs_at c.recipes) ks (length symbols + length ks) symbols symbols
          (λ s.
            mem-ds (or_no_inputs (inputs_at c.recipes s)) (λ d. mem d ks ≡ true)
              (λ d m. inputs-all c.recipes s d m))
          (omega arith) (λ x m. inl m) in
      (
        (remaining ar kept c, (drop_absent (keys c.rings) kept c).1),
        rw (e, keep_only) refl,
        (
          remaining-IsCoherent ar kept c coh closed,
          (λ s m t. remaining-references kept s t coh closed (grows s m)),
          λ s. elim (Bool-cases (mem s kept)) [
            | inl on ↦ inl (close_over-IsPart (inputs_at c.recipes) symbols _ kept s e on)
            | inr off ↦ inr (remaining-gone kept s off)
          ],
        ),
      )
