-- ===== src/Registry/Fuel.antt =====
-- registry.py: the fuel of the search suffices, and what the two validations find.
use text.Mathlib.Text.{◌==◌ as str_eq}
use text.Mathlib.TextEquality.{eq_iff}
use mathlib.Core.Path.{subst}
use quick_price.Prelude.{
  ℕ, zero, suc, ◌≤◌, ◌<◌, ◌≡◌, ◌≢◌, ◌⊎◌, refl, sym, ap, ◌∙◌, inl, inr, true, false, Option, some,
  String, List, [], ◌∷◌, if◌then◌else◌, All, Bool-cases, Option-cases, arith, length,
}
use quick_price.Registry.Search.{Visit, done, cycle, exhausted, mem, each, visit, and_then}
use quick_price.Registry.Order.{Settled, Visit-cases, each-Works, visit-Works}
use quick_price.Registry.Cycles.{
  Reach, Reach-deps, Ordered-acyclic, mem-ds, mem-All, each-cycle, visit-cycle, Finds,
}

-- the symbols of a list that are not on the way
unfoldable pub room : List String → List String → ℕ
room visiting [] = 0
room visiting (k ∷ ks) = let rest = room visiting ks in if mem k visiting then rest else suc rest

room-cons-le : (s : String) (visiting ks : List String) → room (s ∷ visiting) ks ≤ room visiting ks
unfolding room mem
room-cons-le s visiting [] = omega arith
room-cons-le s visiting (k ∷ ks) = ground (arith, room-cons-le s visiting ks)

pub room-cons-lt :
    (s : String) (visiting ks : List String)
    → mem s ks ≡ true
    → mem s visiting ≡ false
    → room (s ∷ visiting) ks < room visiting ks
unfolding room mem
room-cons-lt s visiting [] m n = absurd (cc m)
room-cons-lt s visiting (k ∷ ks) m n = elim (Bool-cases (str_eq s k)) [
  | inl e ↦
      let is_k : s ≡ k = (eq_iff s k).0 e in
      let off : mem k visiting ≡ false = subst (λ z. mem z visiting ≡ false) is_k n in
      let same : str_eq k s ≡ true = (eq_iff k s).1 (sym is_k) in
      ground (arith, room-cons-le s visiting ks)
  | inr e ↦ ground (arith, room-cons-lt s visiting ks, eq_iff k s, eq_iff s k)
]

pub room-nil : (ks : List String) → room [] ks ≡ length ks
unfolding room mem
room-nil [] = refl
room-nil (k ∷ ks) = ap suc (room-nil ks)

module _ (deps : String → Option (List String)) (ks : List String) where
  -- Every symbol that a recipe makes is in the list.
  abbrev pub Covers : Type 0
  Covers = (s : String) (ds : List String) → deps s ≡ some ds → mem s ks ≡ true

  abbrev Ends : (String → List String → Visit) → String → Type 0
  Ends f d = (visited : List String) → f d visited ≢ exhausted

  each-Ends :
      (f : String → List String → Visit) (ds visited : List String)
      → All (Ends f) ds
      → each f ds visited ≢ exhausted
  unfolding each
  each-Ends f [] visited h = λ e. absurd (cc e)
  each-Ends f (d ∷ ds) visited h = λ e. elim (Visit-cases deps (f d visited)) [
    | inl (v, here) ↦ each-Ends f ds v h.1 (rw here at e)
    | inr (inl bad) ↦ absurd (cc (rw bad at e))
    | inr (inr bad) ↦ h.0 visited bad
  ]

  inner-exhausted :
      (v : Visit) (s : String) → and_then v (λ l. done (s ∷ l)) ≡ exhausted → v ≡ exhausted
  inner-exhausted (done vs) s e = absurd (cc e)
  inner-exhausted cycle s e = absurd (cc e)
  inner-exhausted exhausted s e = refl

  visit-Ends :
      (fuel : ℕ) (visiting : List String) (s : String)
      → Covers
      → room visiting ks < fuel
      → Ends (visit deps fuel visiting) s
  unfolding visit
  visit-Ends zero visiting s covers l visited = absurd (omega arith)
  visit-Ends (suc fuel) visiting s covers l visited = λ e. elim (Option-cases (deps s)) [
    | inl no_deps ↦ absurd (cc (rw no_deps at e))
    | inr (ds, made) ↦ elim (Bool-cases (mem s visited)) [
      | inl old ↦ absurd (cc (rw (made, old) at e))
      | inr new ↦ elim (Bool-cases (mem s visiting)) [
        | inl on_way ↦ absurd (cc (rw (made, new, on_way) at e))
        | inr off_way ↦
            each-Ends (visit deps fuel (s ∷ visiting)) ds visited
              (mem-ds ds (Ends (visit deps fuel (s ∷ visiting))) (λ d m.
                visit-Ends fuel (s ∷ visiting) d covers
                  (omega (arith, room-cons-lt s visiting ks (covers s ds made) off_way))))
              (inner-exhausted (each (visit deps fuel (s ∷ visiting)) ds visited) s
                (rw (made, new, off_way) at e))
      ]
    ]
  ]

  abbrev search : Visit
  search = each (visit deps (suc (length ks)) []) ks []

  search-Ends : Covers → search ≢ exhausted
  search-Ends covers = each-Ends (visit deps (suc (length ks)) []) ks [] (
      mem-ds ks (Ends (visit deps (suc (length ks)) []))
        (λ d m. visit-Ends (suc (length ks)) [] d covers (omega (arith, room-nil ks))))

  -- The search ends, with an order of the symbols that leaves no cycle or with an error and a cycle.
  pub search_lem :
      Covers
      → ((xs : List String) × (search ≡ done xs) × ((s : String) → Reach deps s s → ⊥))
        ⊎ ((search ≡ cycle) × ((s : String) × Reach deps s s))
  search_lem covers = elim (Visit-cases deps search) [
    | inl (xs, e) ↦ inl (xs, e, no_cycle xs e)
    | inr (inl e) ↦ inr (
      e,
      each-cycle deps (visit deps (suc (length ks)) []) ks []
          (mem-ds ks (Finds deps (visit deps (suc (length ks)) []))
            (λ d m. visit-cycle deps (suc (length ks)) [] d tt))
          e,
    )
    | inr (inr e) ↦ absurd (search-Ends covers e)
  ]
    where
      no_cycle : (xs : List String) → search ≡ done xs → (s : String) → Reach deps s s → ⊥
      no_cycle xs e s r =
          let (ds, made) = Reach-deps deps s r in
          let (o, w, all) =
            each-Works deps (visit deps (suc (length ks)) [])
              (visit-Works deps (suc (length ks)) []) ks [] xs e tt in
          elim (mem-All (Settled deps xs) s ks (covers s ds made) all) [
            | inl no_deps ↦ absurd (cc (sym no_deps ∙ made))
            | inr m ↦ Ordered-acyclic deps xs s o m r
          ]
