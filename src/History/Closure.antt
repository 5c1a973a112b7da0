-- ===== src/History/Closure.antt =====
-- cache.py, `retain_symbols`: the search for what the kept symbols are made of.
use text.Mathlib.Text.{◌==◌ as str_eq}
use text.Mathlib.TextEquality.{eq_iff}
use mathlib.Core.Path.{subst}
use quick_price.Prelude.{
  ℕ, zero, suc, ◌+◌, ◌≤◌, ◌≡◌, ◌⊎◌, refl, sym, inl, inr, true, false, Option, some, String, List,
  [], ◌∷◌, All, Bool-cases, arith, length,
}
use quick_price.Registry.Search.{mem}
use quick_price.Registry.Order.{Within, cons-Within, mem-cons}
use quick_price.Registry.Fuel.{room, room-cons-lt}
use quick_price.History.Register.{or_no_inputs}
use quick_price.History.Retain.{push_inputs, close_over}

module _ (deps : String → Option (List String)) (ks : List String) where
  abbrev inputs : String → List String
  inputs s = or_no_inputs (deps s)

  abbrev pub Members : List String → List String → Type 0
  Members ds v = All (λ d. mem d v ≡ true) ds

  Members-Within : (ds v w : List String) → Within v w → Members ds v → Members ds w
  Members-Within [] v w h m = tt
  Members-Within (d ∷ ds) v w h m = (h d m.0, Members-Within ds v w h m.1)

  -- The next round has no more to do, all inputs are kept, and what is new is pending.
  abbrev Pushed : List String → List String → List String → (List String × List String) → Type 0
  Pushed ds kept pending out =
      (length out.1 + room out.0 ks ≤ length pending + room kept ks)
      × Within kept out.0
      × Within pending out.1
      × Members ds out.0
      × ((x : String) → mem x out.0 ≡ true → (mem x kept ≡ true) ⊎ (mem x out.1 ≡ true))

  push-old :
      (d : String) (ds kept pending : List String)
      → mem d kept ≡ true
      → push_inputs (d ∷ ds) kept pending ≡ push_inputs ds kept pending
  unfolding push_inputs
  push-old d ds kept pending e = rw (e, push_inputs) refl

  push-new :
      (d : String) (ds kept pending : List String)
      → mem d kept ≡ false
      → push_inputs (d ∷ ds) kept pending ≡ push_inputs ds (d ∷ kept) (d ∷ pending)
  unfolding push_inputs
  push-new d ds kept pending e = rw (e, push_inputs) refl

  push_inputs-Pushed :
      (ds kept pending : List String)
      → Members ds ks
      → Pushed ds kept pending (push_inputs ds kept pending)
  unfolding push_inputs
  push_inputs-Pushed [] kept pending m = (omega arith, (λ x k. k), (λ x k. k), tt, λ x k. inl k)
  push_inputs-Pushed (d ∷ ds) kept pending (at_d, m) = elim (Bool-cases (mem d kept)) [
    | inl old ↦
        let (l, a, b, all, new) = push_inputs-Pushed ds kept pending m in
        let out : Pushed (d ∷ ds) kept pending (push_inputs ds kept pending) =
          (l, a, b, (a d old, all), new) in
        subst (Pushed (d ∷ ds) kept pending) (sym (push-old d ds kept pending old)) out
    | inr fresh ↦
        let (l, a, b, all, new) = push_inputs-Pushed ds (d ∷ kept) (d ∷ pending) m in
        let less = room-cons-lt d kept ks at_d fresh in
        let out : Pushed (d ∷ ds) kept pending (push_inputs ds (d ∷ kept) (d ∷ pending)) = (
          omega arith,
          (λ x k. a x (cons-Within deps d kept x k)),
          (λ x k. b x (cons-Within deps d pending x k)),
          (a d (mem-cons deps d kept), all),
          λ x k. elim (new x k) [
            | inr here ↦ inr here
            | inl before ↦ elim (Bool-cases (str_eq x d)) [
              | inl same ↦
                  let is_d : d ≡ x = sym ((eq_iff x d).0 same) in
                  inr (
                    subst (λ z. mem z (push_inputs ds (d ∷ kept) (d ∷ pending)).1 ≡ true) is_d
                      (b d (mem-cons deps d pending)))
              | inr apart ↦ inl (unfold mem in ground arith)
            ]
          ],
        ) in
        subst (Pushed (d ∷ ds) kept pending) (sym (push-new d ds kept pending fresh)) out
  ]

  -- A kept symbol is pending, or all its inputs are kept.
  abbrev Half : List String → List String → Type 0
  Half pending kept =
      (x : String) → mem x kept ≡ true → (mem x pending ≡ true) ⊎ Members (inputs x) kept

  pushed-Half :
      (s : String) (pending kept : List String) (out : List String × List String) (x : String)
      → Within kept out.0
      → Within pending out.1
      → Members (inputs s) out.0
      → Half (s ∷ pending) kept
      → (mem x kept ≡ true) ⊎ (mem x out.1 ≡ true)
      → (mem x out.1 ≡ true) ⊎ Members (inputs x) out.0
  pushed-Half s pending kept out x a b members half (inr here) = inl here
  pushed-Half s pending kept out x a b members half (inl before) = elim (half x before) [
    | inr done ↦ inr (Members-Within (inputs x) kept out.0 a done)
    | inl waits ↦ elim (Bool-cases (str_eq x s)) [
      | inl same ↦
          let is_s : s ≡ x = sym ((eq_iff x s).0 same) in
          inr (subst (λ z. Members (inputs z) out.0) is_s members)
      | inr apart ↦ inl (b x (unfold mem in ground arith))
    ]
  ]

  abbrev pub ClosedUnder : List String → Type 0
  ClosedUnder kept = (x : String) → mem x kept ≡ true → Members (inputs x) kept

  pub close_over-ClosedUnder :
      (fuel : ℕ) (pending kept : List String)
      → ((s : String) → Members (inputs s) ks)
      → length pending + room kept ks ≤ fuel
      → Half pending kept
      → (out : List String) × (close_over deps fuel pending kept ≡ some out)
        × Within kept out
        × ClosedUnder out
  unfolding close_over
  close_over-ClosedUnder fuel [] kept all l half = (
    kept,
    refl,
    (λ x k. k),
    λ x k. elim (half x k) [ inl none_in ↦ absurd (unfold mem in cc) | inr done ↦ done ],
  )
  close_over-ClosedUnder zero (s ∷ pending) kept all l half = absurd (omega arith)
  close_over-ClosedUnder (suc fuel) (s ∷ pending) kept all l half =
      let out = push_inputs (inputs s) kept pending in
      let (less, a, b, members, new) = push_inputs-Pushed (inputs s) kept pending (all s) in
      let (kept', e, grows, closed) =
        close_over-ClosedUnder fuel out.1 out.0 all (omega arith)
          (λ x k. pushed-Half s pending kept out x a b members half (new x k)) in
      (kept', e, (λ x k. grows x (a x k)), closed)
