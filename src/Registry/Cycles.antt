-- ===== src/Registry/Cycles.antt =====
-- registry.py: an error of the search names a cycle, and an order leaves none.
use text.Mathlib.Text.{◌==◌ as str_eq}
use text.Mathlib.TextEquality.{eq_iff}
use mathlib.Core.Path.{subst}
use quick_price.Prelude.{
  ℕ, zero, suc, ◌≡◌, refl, sym, ◌∙◌, inl, inr, true, Option, some, String, List, [], ◌∷◌, All,
  Bool-cases, Option-cases, arith,
}
use quick_price.Registry.Search.{Visit, done, cycle, exhausted, mem, each, visit, and_then}
use quick_price.Registry.Order.{Settled, Ordered, Visit-cases}

pub mem-All :
    (P : String → Type 0) (s : String) (xs : List String) → mem s xs ≡ true → All P xs → P s
unfolding mem
mem-All P s [] m h = absurd (cc m)
mem-All P s (x ∷ xs) m h = elim (Bool-cases (str_eq s x)) [
  | inl e ↦ subst P (sym ((eq_iff s x).0 e)) h.0
  | inr e ↦ mem-All P s xs (rw e at m) h.1
]

pub mem-ds :
    (ds : List String) (P : String → Type 0) → ((d : String) → mem d ds ≡ true → P d) → All P ds
unfolding mem
mem-ds [] P f = tt
mem-ds (d ∷ ds) P f = (f d (ground (arith, eq_iff d d)), mem-ds ds P (λ x m. f x (ground arith)))

pub All-map :
    (P Q : String → Type 0) (xs : List String) → ((x : String) → P x → Q x) → All P xs → All Q xs
All-map P Q [] f h = tt
All-map P Q (x ∷ xs) f h = (f x h.0, All-map P Q xs f h.1)

inner-cycle : (v : Visit) (s : String) → and_then v (λ l. done (s ∷ l)) ≡ cycle → v ≡ cycle
inner-cycle (done vs) s e = absurd (cc e)
inner-cycle cycle s e = refl
inner-cycle exhausted s e = absurd (cc e)

module _ (deps : String → Option (List String)) where
  -- One symbol is made of another, directly or through others.
  pub data Reach (s : String) : String → Type 0 where
    direct : (t : String) (ds : List String) → deps s ≡ some ds → mem t ds ≡ true → Reach s t
    through :
        (t u : String) (ds : List String)
        → Reach s t
        → deps t ≡ some ds
        → mem u ds ≡ true
        → Reach s u

  pub Reach-deps : (s : String) {t : String} → Reach s t → (ds : List String) × (deps s ≡ some ds)
  Reach-deps s (direct t ds made m) = (ds, made)
  Reach-deps s (through t u ds r made m) = Reach-deps s r

  settled_made :
      (xs : List String) (s : String) {ds : List String}
      → Settled deps xs s
      → deps s ≡ some ds
      → mem s xs ≡ true
  settled_made xs s (inl e) made = absurd (cc (sym e ∙ made))
  settled_made xs s (inr e) made = e

  -- In an ordered list what a symbol is made of is in the list too.
  Ordered-mem :
      (xs : List String) (s t : String) {ds : List String}
      → Ordered deps xs
      → mem s xs ≡ true
      → deps s ≡ some ds
      → mem t ds ≡ true
      → Settled deps xs t
  unfolding mem
  Ordered-mem [] s t o m made k = absurd (cc m)
  Ordered-mem (x ∷ xs) s t {ds} o m made k = elim (Bool-cases (str_eq s x)) [
    | inl e ↦ wider x xs t (
        mem-All (Settled deps xs) t ds k
          (o.0 ds (subst (λ z. deps z ≡ some ds) ((eq_iff s x).0 e) made)))
    | inr e ↦ wider x xs t (Ordered-mem xs s t o.1 (rw e at m) made k)
  ]
    where
      wider :
          (x : String) (xs : List String) (t : String) → Settled deps xs t → Settled deps (x ∷ xs) t
      wider x xs t (inl e) = inl e
      wider x xs t (inr e) = inr (ground arith)

  -- All that the first symbol of an ordered list is made of stands behind it.
  Reach-behind :
      (x : String) (xs : List String) {t : String} {ds : List String}
      → Ordered deps (x ∷ xs)
      → Reach x t
      → deps t ≡ some ds
      → mem t xs ≡ true
  Reach-behind x xs o (direct t es from m) made =
      settled_made xs t (mem-All (Settled deps xs) t es m (o.0 es from)) made
  Reach-behind x xs o (through t u es r from m) made =
      settled_made xs u (Ordered-mem xs t u o.1 (Reach-behind x xs o r from) from m) made

  pub Ordered-acyclic :
      (xs : List String) (s : String) → Ordered deps xs → mem s xs ≡ true → Reach s s → ⊥
  unfolding mem
  Ordered-acyclic [] s o m r = absurd (cc m)
  Ordered-acyclic (x ∷ xs) s o m r = elim (Bool-cases (mem s xs)) [
    | inl behind ↦ Ordered-acyclic xs s o.1 behind r
    | inr front ↦
        let (ds, made) = Reach-deps s r in
        let is_x : s ≡ x = (eq_iff s x).0 (ground arith) in
        absurd (
          cc (
            sym front ∙ Reach-behind s xs (subst (λ z. Ordered deps (z ∷ xs)) (sym is_x) o) r made))
  ]

  abbrev pub Finds : (String → List String → Visit) → String → Type 0
  Finds f d = (visited : List String) → f d visited ≡ cycle → (s : String) × Reach s s

  pub each-cycle :
      (f : String → List String → Visit) (ds visited : List String)
      → All (Finds f) ds
      → each f ds visited ≡ cycle
      → (s : String) × Reach s s
  unfolding each
  each-cycle f [] visited h e = absurd (cc e)
  each-cycle f (d ∷ ds) visited h e = elim (Visit-cases deps (f d visited)) [
    | inl (v, here) ↦ each-cycle f ds v h.1 (rw here at e)
    | inr (inl bad) ↦ h.0 visited bad
    | inr (inr bad) ↦ absurd (cc (rw bad at e))
  ]

  -- The symbols on the way to one are made of it.
  abbrev OnWay : List String → String → Type 0
  OnWay visiting s = All (λ v. Reach v s) visiting

  pub visit-cycle :
      (fuel : ℕ) (visiting : List String) (s : String)
      → OnWay visiting s
      → Finds (visit deps fuel visiting) s
  unfolding visit
  visit-cycle zero visiting s way visited e = absurd (cc e)
  visit-cycle (suc fuel) visiting s way visited e = elim (Option-cases (deps s)) [
    | inl no_deps ↦ absurd (cc (rw no_deps at e))
    | inr (ds, made) ↦ elim (Bool-cases (mem s visited)) [
      | inl old ↦ absurd (cc (rw (made, old) at e))
      | inr new ↦ elim (Bool-cases (mem s visiting)) [
        | inl on_way ↦ (s, mem-All (λ v. Reach v s) s visiting on_way way)
        | inr off_way ↦
            each-cycle (visit deps fuel (s ∷ visiting)) ds visited
              (mem-ds ds (Finds (visit deps fuel (s ∷ visiting))) (λ d m.
                visit-cycle fuel (s ∷ visiting) d (
                  direct d ds made m,
                  All-map (λ v. Reach v s) (λ v. Reach v d) visiting
                      (λ v r. through s d ds r made m) way,
                )))
              (inner-cycle (each (visit deps fuel (s ∷ visiting)) ds visited) s
                (rw (made, new, off_way) at e))
      ]
    ]
  ]
