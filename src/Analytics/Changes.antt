-- ===== src/Analytics/Changes.antt =====
-- analytics.py: the changes by the whole history and by the references of the cache are the same.
use quick_price.Prelude.{
  ℕ, ◌-◌, ◌≤◌, ◌<◌, ◌≡◌, refl, sym, ap, ◌∙◌, inl, inr, Option, none, some, String, List, [], ◌∷◌,
  ◌++◌, map, leb, ltb, if◌then◌else◌, All, All-append, Bool-cases, Option-cases, arith,
}
use quick_price.Analytics.{
  up_to, collect_changes, calculate_changes, collect_references, calculate_changes_from_references,
}
use quick_price.History.{Point, Rings, before, overlay, points, latest_at_or_before}
use quick_price.History.Ring.{Ascending}
use quick_price.History.View.{reference_at-points}
use quick_price.History.Adds.{IsOrdered}
use quick_price.History.Cache.{
  Cache, windows, rings_of, reference_by, reference_of, references, change_references,
}
use quick_price.History.Coherent.{recipe_of}
use quick_price.History.Depends.{Ascending-le, Ascending-Sorted}
use quick_price.History.Derived.{sort_points-Sorted_id}
use quick_price.History.Runs.{
  Event, new, run, AllTimely, run-current, run-IsCoherent, new-IsCoherent,
}
use quick_price.Synthetic.Base.{Arithmetic}
use quick_price.Synthetic.Pairing.{Sorted, sort_points-Sorted}
use quick_price.Synthetic.Series.{insert_point, sort_points}

-- What the latest point at a time is once a point is put in before the first that is not earlier.
abbrev newer : Point → ℕ → Option Point → Option Point
newer p t none = if leb p.timestamp t then some p else none
newer p t (some q) = if leb p.timestamp q.timestamp then some q else some p

latest-timestamp :
    (ps : List Point) (t : ℕ) (q : Point) → latest_at_or_before ps t ≡ some q → q.timestamp ≤ t
unfolding latest_at_or_before
latest-timestamp [] t q h = absurd (cc h)
latest-timestamp (p ∷ ps) t q h = ground (arith, latest-timestamp ps t q)

latest-All :
    (s t : ℕ) (ps : List Point) (q : Point)
    → All (λ p. s ≤ p.timestamp) ps
    → latest_at_or_before ps t ≡ some q
    → s ≤ q.timestamp
unfolding latest_at_or_before
latest-All s t [] q h e = absurd (cc e)
latest-All s t (p ∷ ps) q h e = ground (arith, latest-All s t ps q h.1)

latest-insert_point :
    (p : Point) (ps : List Point) (t : ℕ)
    → Sorted ps
    → p.timestamp ≤ t
    → latest_at_or_before (insert_point p ps) t ≡ newer p t (latest_at_or_before ps t)
unfolding latest_at_or_before insert_point
latest-insert_point p [] t s l = ground arith
latest-insert_point p (q ∷ qs) t s l = elim (Bool-cases (leb p.timestamp q.timestamp)) [
  | inl e ↦ rw e (elim (Option-cases (latest_at_or_before qs t)) [
    | inl f ↦ rw f (ground arith)
    | inr (r, f) ↦ let after = latest-All q.timestamp t qs r s.0 f in rw f (ground arith)
  ])
  | inr e ↦
      rw (e, latest-insert_point p qs t s.1 l)
        (elim (Option-cases (latest_at_or_before qs t)) [
          | inl f ↦ rw f (ground arith)
          | inr (r, f) ↦ rw f (ground arith)
        ])
]

latest-insert_point_late :
    (p : Point) (ps : List Point) (t : ℕ)
    → t < p.timestamp
    → latest_at_or_before (insert_point p ps) t ≡ latest_at_or_before ps t
unfolding latest_at_or_before insert_point
latest-insert_point_late p [] t l = ground arith
latest-insert_point_late p (q ∷ qs) t l = ground (arith, latest-insert_point_late p qs t l)

-- Points after the current time do not matter for what is found at a time up to it.
latest-up_to :
    (ps : List Point) (as_of t : ℕ)
    → t ≤ as_of
    → latest_at_or_before (sort_points (up_to as_of ps)) t ≡ latest_at_or_before (sort_points ps) t
unfolding sort_points up_to
latest-up_to [] as_of t l = refl
latest-up_to (p ∷ ps) as_of t l =
    let ih = latest-up_to ps as_of t l in
    let kept = sort_points (up_to as_of ps) in
    elim (Bool-cases (leb p.timestamp as_of)) [
      | inr e ↦ rw e (ih ∙ sym (latest-insert_point_late p (sort_points ps) t (ground arith)))
      | inl e ↦ rw e (elim (Bool-cases (leb p.timestamp t)) [
        | inl f ↦
            latest-insert_point p kept t (sort_points-Sorted (up_to as_of ps)) (ground arith)
            ∙ ap (newer p t) ih
            ∙ sym (latest-insert_point p (sort_points ps) t (sort_points-Sorted ps) (ground arith))
        | inr f ↦
            latest-insert_point_late p kept t (ground arith)
            ∙ ih
            ∙ sym (latest-insert_point_late p (sort_points ps) t (ground arith))
      ])
    ]

module _ (percent : ℕ → ℕ → Option ℕ) where
  collect_changes-references :
      (current : ℕ) (f g : ℕ → Option Point) (ds : List ℕ)
      → ((d : ℕ) → f d ≡ g d)
      → collect_changes percent current f ds ≡ collect_references percent current (map g ds) ds
  unfolding collect_changes collect_references
  collect_changes-references current f g [] same = refl
  collect_changes-references current f g (d ∷ ds) same =
      ground (arith, same d, collect_changes-references current f g ds same)

  -- The changes by a history in any order are those by the latest points at the cutoffs.
  calculate_changes-references :
      (current as_of : ℕ) (ps : List Point)
      → calculate_changes percent current as_of ps
        ≡ calculate_changes_from_references percent current
            (map (λ d. latest_at_or_before (sort_points ps) (as_of - d)) windows)
  unfolding calculate_changes calculate_changes_from_references
  calculate_changes-references current as_of ps =
      collect_changes-references current _ _ windows
        (λ d. latest-up_to ps as_of (as_of - d) (omega arith))

before-lt : (t : ℕ) (ps : List Point) → All (λ q. q.timestamp < t) (before t ps)
unfolding before
before-lt t [] = tt
before-lt t (p ∷ ps) = elim (Bool-cases (ltb p.timestamp t)) [
  | inl e ↦ rw e (ground arith, before-lt t ps)
  | inr e ↦ rw e (before-lt t ps)
]

before-All :
    (t s : ℕ) (ps : List Point)
    → All (λ q. s < q.timestamp) ps
    → All (λ q. s < q.timestamp) (before t ps)
unfolding before
before-All t s [] h = tt
before-All t s (p ∷ ps) h = elim (Bool-cases (ltb p.timestamp t)) [
  | inl e ↦ rw e (h.0, before-All t s ps h.1)
  | inr e ↦ rw e (before-All t s ps h.1)
]

before-Ascending : (t : ℕ) (ps : List Point) → Ascending ps → Ascending (before t ps)
unfolding before
before-Ascending t [] a = tt
before-Ascending t (p ∷ ps) a = elim (Bool-cases (ltb p.timestamp t)) [
  | inl e ↦ rw e (before-All t p.timestamp ps a.0, before-Ascending t ps a.1)
  | inr e ↦ rw e (before-Ascending t ps a.1)
]

append-Ascending :
    (t : ℕ) (ps qs : List Point)
    → All (λ q. q.timestamp < t) ps
    → All (λ q. t ≤ q.timestamp) qs
    → Ascending ps
    → Ascending qs
    → Ascending (ps ++ qs)
append-Ascending t [] qs h k a b = b
append-Ascending t (p ∷ ps) qs h k a b = (
  All-append (λ q. p.timestamp < q.timestamp) ps qs a.0 (above p.timestamp qs h.0 k),
  append-Ascending t ps qs h.1 k a.1 b,
)
  where
    above :
        (s : ℕ) (qs : List Point)
        → s < t
        → All (λ q. t ≤ q.timestamp) qs
        → All (λ q. s < q.timestamp) qs
    above s [] l k = tt
    above s (q ∷ qs) l k = (omega arith, above s qs l k.1)

overlay-Ascending :
    (ms ring : List Point) → Ascending ms → Ascending ring → Ascending (overlay ms ring)
unfolding overlay
overlay-Ascending ms [] a b = a
overlay-Ascending ms (p ∷ ps) a b =
    append-Ascending p.timestamp (before p.timestamp ms) (p ∷ ps) (before-lt p.timestamp ms)
      (omega arith, Ascending-le p.timestamp ps b.0) (before-Ascending p.timestamp ms a) b

points-Sorted : (r : Rings) → IsOrdered r → Sorted (points r)
unfolding points
points-Sorted r (a, b, c) =
    Ascending-Sorted (overlay (overlay r.daily r.five_minute) r.one_minute) (
      overlay-Ascending (overlay r.daily r.five_minute) r.one_minute
        (overlay-Ascending r.daily r.five_minute c b) a)

map-eq : (f g : ℕ → Option Point) (ds : List ℕ) → ((d : ℕ) → f d ≡ g d) → map f ds ≡ map g ds
map-eq f g [] same = refl
map-eq f g (d ∷ ds) same = rw (same d, map-eq f g ds same) refl

-- For a symbol with no recipe the references are the latest points of the merged history.
references-points :
    (ar : Arithmetic) (c : Cache) (x : String) (as_of : ℕ)
    → recipe_of c x ≡ none
    → IsOrdered (rings_of c x)
    → map (λ d. latest_at_or_before (sort_points (points (rings_of c x))) (as_of - d)) windows
      ≡ references ar c x as_of
unfolding references reference_of reference_by
references-points ar c x as_of plain (a, b, s) =
    map-eq (λ d. latest_at_or_before (sort_points (points (rings_of c x))) (as_of - d))
      (λ d. reference_of ar c x (as_of - d)) windows
      (λ d.
        rw (plain, reference_by, sort_points-Sorted_id _ (points-Sorted (rings_of c x) (a, b, s)))
          (sym (reference_at-points (rings_of c x) (as_of - d) a b)))

-- After any run of the cache that is timely (daily points at full minutes, no point late by an hour
-- of a kept reference within its five minutes), for a symbol with no recipe: the changes of a price
-- that are calculated from the references of a query are those that are calculated from the whole
-- merged history of the symbol, errors of the division included.
pub calculate_changes-change_references :
    (percent : ℕ → ℕ → Option ℕ) (ar : Arithmetic) (es : List Event) (x : String)
    (current as_of : ℕ)
    → AllTimely ar new es
    → recipe_of (run ar new es) x ≡ none
    → calculate_changes_from_references percent current
        (change_references ar (run ar new es) x as_of).1
      ≡ calculate_changes percent current as_of (points (rings_of (run ar new es) x))
calculate_changes-change_references percent ar es x current as_of h plain =
    let c = run ar new es in
    let coh = run-IsCoherent ar new es h (new-IsCoherent ar) in
    rw (run-current ar es x as_of h, ← references-points ar c x as_of plain (coh.ordered x))
      (sym (calculate_changes-references percent current as_of (points (rings_of c x))))
