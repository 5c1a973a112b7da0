-- ===== src/History/View.antt =====
-- cache.py: `add` and `prune` on the rings of a symbol, and the reads `points` and `reference`.
use quick_price.Prelude.{
  ℕ, ◌<◌, ◌≡◌, refl, sym, ◌∙◌, inl, inr, true, none, some, List, [], ◌∷◌, ◌++◌, leb, leb→lt,
  if◌then◌else◌, arith, All, Bool-cases,
}
use quick_price.History.{
  Point, Rings, before, overlay, points, latest_at_or_before, covers, reference_at,
}
use quick_price.History.Ring.{Ascending, later_than}

latest-++ :
    (ps qs : List Point) (cutoff : ℕ)
    → latest_at_or_before (ps ++ qs) cutoff ≡ elim (latest_at_or_before qs cutoff) [
      | some q ↦ some q
      | none ↦ latest_at_or_before ps cutoff
    ]
unfolding latest_at_or_before
latest-++ [] qs cutoff = ground arith
latest-++ (p ∷ ps) qs cutoff = ground (arith, latest-++ ps qs cutoff)

pub latest-later :
    (ps : List Point) (cutoff : ℕ)
    → All (λ q. cutoff < q.timestamp) ps
    → latest_at_or_before ps cutoff ≡ none
unfolding latest_at_or_before
latest-later [] cutoff h = refl
latest-later (p ∷ ps) cutoff h = ground (arith, latest-later ps cutoff h.1)

latest-before :
    (ps : List Point) (c cutoff : ℕ)
    → cutoff < c
    → latest_at_or_before (before c ps) cutoff ≡ latest_at_or_before ps cutoff
unfolding latest_at_or_before before
latest-before [] c cutoff l = refl
latest-before (p ∷ ps) c cutoff l = ground (arith, latest-before ps c cutoff l)

latest-covered :
    (p : Point) (ps : List Point) (cutoff : ℕ) (ms : List Point)
    → leb p.timestamp cutoff ≡ true
    → latest_at_or_before (ms ++ p ∷ ps) cutoff ≡ latest_at_or_before (p ∷ ps) cutoff
unfolding latest_at_or_before
latest-covered p ps cutoff ms e = rw (latest-++ ms (p ∷ ps) cutoff) (ground arith)

latest-overlay :
    (ms ring : List Point) (cutoff : ℕ)
    → Ascending ring
    → latest_at_or_before (overlay ms ring) cutoff ≡ (
        if covers ring cutoff
        then latest_at_or_before ring cutoff
        else latest_at_or_before ms cutoff)
unfolding overlay covers
latest-overlay ms [] cutoff a = refl
latest-overlay ms (p ∷ ps) cutoff a = elim (Bool-cases (leb p.timestamp cutoff)) [
  | inl e ↦ rw e (latest-covered p ps cutoff (before p.timestamp ms) e)
  | inr e ↦
      let l = leb→lt p.timestamp cutoff e in
      rw e (
        latest-++ (before p.timestamp ms) (p ∷ ps) cutoff
        ∙ rw (latest-later (p ∷ ps) cutoff (l, later_than cutoff p.timestamp ps (omega arith) a.0))
            (latest-before ms p.timestamp cutoff l))
]

-- The reference at a time, read off the rings without building the merged series, is the latest
-- point of the merged series at or before it, if the rings of one and five minutes are in order.
pub reference_at-points :
    (r : Rings) (cutoff : ℕ)
    → Ascending r.one_minute
    → Ascending r.five_minute
    → reference_at r cutoff ≡ latest_at_or_before (points r) cutoff
unfolding reference_at points
reference_at-points r cutoff a b = sym (
    latest-overlay (overlay r.daily r.five_minute) r.one_minute cutoff a
    ∙ rw (latest-overlay r.daily r.five_minute cutoff b) refl)
