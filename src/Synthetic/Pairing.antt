-- ===== src/Synthetic/Pairing.antt =====
-- providers/synthetic.py: each left point is combined with the last right point not after it.
use quick_price.Prelude.{
  ℕ, ◌≤◌, ◌<◌, ◌≡◌, ◌≢◌, refl, ap, ◌∙◌, inl, inr, Option, none, some, String, List, [], ◌∷◌, leb,
  leb→le, leb→lt, arith, All, Bool-cases,
}
use quick_price.History.{Point, latest_at_or_before}
use quick_price.Synthetic.Base.{Arithmetic, Operation, inverse, product, quotient, Recipe}
use quick_price.Synthetic.Series.{
  insert_point, sort_points, derive, prepend, advance, paired, unlimited, synthesize_history,
}

-- Each point is at least as late as the one before.
abbrev pub Sorted : List Point → Type 0
Sorted [] = Unit
Sorted (p ∷ ps) = All (λ q. p.timestamp ≤ q.timestamp) ps × Sorted ps

insert_point-le :
    (t : ℕ) (p : Point) (ps : List Point)
    → t ≤ p.timestamp
    → All (λ q. t ≤ q.timestamp) ps
    → All (λ q. t ≤ q.timestamp) (insert_point p ps)
unfolding insert_point
insert_point-le t p [] l h = (l, tt)
insert_point-le t p (q ∷ qs) l h = elim (Bool-cases (leb p.timestamp q.timestamp)) [
  | inl e ↦ rw e (l, h)
  | inr e ↦ rw e (h.0, insert_point-le t p qs l h.1)
]

le-All :
    (s t : ℕ) (ps : List Point)
    → s ≤ t
    → All (λ q. t ≤ q.timestamp) ps
    → All (λ q. s ≤ q.timestamp) ps
le-All s t [] l h = tt
le-All s t (p ∷ ps) l h = (omega arith, le-All s t ps l h.1)

insert_point-Sorted : (p : Point) (ps : List Point) → Sorted ps → Sorted (insert_point p ps)
unfolding insert_point
insert_point-Sorted p [] h = (tt, tt)
insert_point-Sorted p (q ∷ qs) h = elim (Bool-cases (leb p.timestamp q.timestamp)) [
  | inl e ↦
      let l = leb→le p.timestamp q.timestamp e in
      rw e ((l, le-All p.timestamp q.timestamp qs l h.0), h)
  | inr e ↦
      let l = leb→lt p.timestamp q.timestamp e in
      rw e (insert_point-le q.timestamp p qs (omega arith) h.0, insert_point-Sorted p qs h.1)
]

pub sort_points-Sorted : (ps : List Point) → Sorted (sort_points ps)
unfolding sort_points
sort_points-Sorted [] = tt
sort_points-Sorted (p ∷ ps) = insert_point-Sorted p (sort_points ps) (sort_points-Sorted ps)

-- the last point of a list up to a time, or one from before the list
abbrev newest : Option Point → List Point → ℕ → Option Point
newest last rights t = elim (latest_at_or_before rights t) [ some q ↦ some q | none ↦ last ]

latest-after :
    (t : ℕ) (ps : List Point) → All (λ q. t < q.timestamp) ps → latest_at_or_before ps t ≡ none
unfolding latest_at_or_before
latest-after t [] h = refl
latest-after t (p ∷ ps) h = ground (arith, latest-after t ps h.1)

lt-All :
    (s t : ℕ) (ps : List Point)
    → s < t
    → All (λ q. t ≤ q.timestamp) ps
    → All (λ q. s < q.timestamp) ps
lt-All s t [] l h = tt
lt-All s t (p ∷ ps) l h = (omega arith, lt-All s t ps l h.1)

advance-newest :
    (t : ℕ) (last : Option Point) (rights : List Point)
    → Sorted rights
    → (advance t last rights).0 ≡ newest last rights t
unfolding advance latest_at_or_before
advance-newest t last [] h = refl
advance-newest t last (r ∷ rs) h = elim (Bool-cases (leb r.timestamp t)) [
  | inl e ↦ ground (arith, advance-newest t (some r) rs h.1)
  | inr e ↦
      let l = leb→lt r.timestamp t e in
      ground (arith, latest-after t rs (lt-All t r.timestamp rs l h.0))
]

newest-advance :
    (t t' : ℕ) (last : Option Point) (rights : List Point)
    → t ≤ t'
    → newest (advance t last rights).0 (advance t last rights).1 t' ≡ newest last rights t'
unfolding advance latest_at_or_before
newest-advance t t' last [] l = refl
newest-advance t t' last (r ∷ rs) l = elim (Bool-cases (leb r.timestamp t)) [
  | inl e ↦ ground (arith, newest-advance t t' (some r) rs l)
  | inr e ↦ rw e refl
]

advance-Sorted :
    (t : ℕ) (last : Option Point) (rights : List Point)
    → Sorted rights
    → Sorted (advance t last rights).1
unfolding advance
advance-Sorted t last [] h = tt
advance-Sorted t last (r ∷ rs) h = elim (Bool-cases (leb r.timestamp t)) [
  | inl e ↦ rw e (advance-Sorted t (some r) rs h.1)
  | inr e ↦ rw e h
]

module _ (ar : Arithmetic) (r : Recipe) (interval : String) where
  -- each left point with the point that `partner` gives for its time
  unfoldable pub with_partners : (ℕ → Option Point) → List Point → List Point
  with_partners partner [] = []
  with_partners partner (p ∷ ps) =
      prepend (derive ar r interval p (partner p.timestamp)) (with_partners partner ps)

  with_partners-same :
      (f g : ℕ → Option Point) (t : ℕ) (ps : List Point)
      → ((t' : ℕ) → t ≤ t' → f t' ≡ g t')
      → All (λ q. t ≤ q.timestamp) ps
      → with_partners f ps ≡ with_partners g ps
  unfolding with_partners
  with_partners-same f g t [] same h = refl
  with_partners-same f g t (p ∷ ps) same h =
      rw (same p.timestamp h.0) (ap (prepend _) (with_partners-same f g t ps same h.1))

  paired_lem :
      (last : Option Point) (rights lefts : List Point)
      → Sorted rights
      → Sorted lefts
      → paired ar r interval last rights lefts ≡ with_partners (newest last rights) lefts
  unfolding paired with_partners
  paired_lem last rights [] h k = refl
  paired_lem last rights (p ∷ ps) h k = rw (advance-newest p.timestamp last rights h) (
      ap (prepend (derive ar r interval p (newest last rights p.timestamp))) (
        paired_lem (newest last rights p.timestamp) (advance p.timestamp last rights).1 ps
          (advance-Sorted p.timestamp last rights h) k.1
        ∙ with_partners-same
            (newest (newest last rights p.timestamp) (advance p.timestamp last rights).1)
            (newest last rights) p.timestamp ps
            (λ t' l.
              rw (advance-newest p.timestamp last rights h) at
                (newest-advance p.timestamp t' last rights l))
            k.0))

  with_partners-eq :
      (f g : ℕ → Option Point) (ps : List Point)
      → ((t : ℕ) → f t ≡ g t)
      → with_partners f ps ≡ with_partners g ps
  unfolding with_partners
  with_partners-eq f g [] same = refl
  with_partners-eq f g (p ∷ ps) same =
      rw (same p.timestamp) (ap (prepend _) (with_partners-eq f g ps same))

  newest-none : (rights : List Point) (t : ℕ) → newest none rights t ≡ latest_at_or_before rights t
  newest-none rights t = ground arith

  pub paired-with_partners :
      (lefts rights : List Point)
      → Sorted lefts
      → Sorted rights
      → paired ar r interval none rights lefts ≡ with_partners (latest_at_or_before rights) lefts
  paired-with_partners lefts rights h k =
      paired_lem none rights lefts k h
      ∙ with_partners-eq (newest none rights) (latest_at_or_before rights) lefts
          (newest-none rights)

  -- A history of a product or a quotient is made of each left point and its partner.
  pub synthesize_history-with_partners :
      (lefts rights : List Point)
      → r.operation ≢ inverse
      → synthesize_history ar r interval lefts rights none
        ≡ with_partners (latest_at_or_before (sort_points rights)) (sort_points lefts)
  unfolding synthesize_history
  synthesize_history-with_partners lefts rights n = by_operation r.operation n
    where
      by_operation :
          (o : Operation)
          → o ≢ inverse
          → unlimited ar r interval o lefts rights
            ≡ with_partners (latest_at_or_before (sort_points rights)) (sort_points lefts)
      by_operation inverse n = absurd (n refl)
      by_operation product n =
          unfold unlimited in
          paired-with_partners (sort_points lefts) (sort_points rights) (sort_points-Sorted lefts)
            (sort_points-Sorted rights)
      by_operation quotient n =
          unfold unlimited in
          paired-with_partners (sort_points lefts) (sort_points rights) (sort_points-Sorted lefts)
            (sort_points-Sorted rights)
