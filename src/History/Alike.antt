-- ===== src/History/Alike.antt =====
-- cache.py: what a reference depends on. A reference at a cutoff does not change when points later
-- than it come in, and is the same at every cutoff of a minute, if the rings hold full minutes.
use quick_price.Prelude.{
  ℕ, ◌%◌, ◌≤◌, ◌<◌, ◌≡◌, refl, sym, ap, ◌∙◌, inl, inr, true, false, Option, none, some, List, [],
  ◌∷◌, leb, ltb, ◌==◌, All, Bool-cases, Option-cases, arith, lt→ltb, ltb→lt, ltb→le,
}
use quick_price.History.{Point, latest_at_or_before, covers, insert_sorted}
use quick_price.History.Ring.{Ascending, later_than}
use quick_price.History.View.{latest-later}
use quick_price.History.Cache.{minute}
use quick_price.History.Walk.{collect, KeepsTime, or_else, latest-prepend}
use quick_price.Synthetic.Series.{prepend}

-- Up to the time `cutoff` two rings have the same latest point, and so have all points made of
-- theirs.
abbrev pub Alike : ℕ → List Point → List Point → Type 0
Alike cutoff old new =
    (make : Point → Option Point)
    → KeepsTime make
    → (t : ℕ) → t ≤ cutoff
    → latest_at_or_before (collect make old) t ≡ latest_at_or_before (collect make new) t

pub Alike-refl : (cutoff : ℕ) (ring : List Point) → Alike cutoff ring ring
Alike-refl cutoff ring make keeps t l = refl

collect-some : (ring : List Point) → collect some ring ≡ ring
collect-some [] = refl
collect-some (p ∷ ps) = ap (p ∷◌) (collect-some ps)

pub Alike-latest :
    (cutoff t : ℕ) (old new : List Point)
    → Alike cutoff old new
    → t ≤ cutoff
    → latest_at_or_before old t ≡ latest_at_or_before new t
Alike-latest cutoff t old new alike l =
    rw (← collect-some old, ← collect-some new) (alike some (λ p q e. ground arith) t l)

latest-prepend_late :
    (make : Point → Option Point) (p : Point) (ps : List Point) (t : ℕ)
    → KeepsTime make
    → t < p.timestamp
    → latest_at_or_before (prepend (make p) ps) t ≡ latest_at_or_before ps t
latest-prepend_late make p ps t keeps lt =
    latest-prepend make p t ps keeps ∙ rw (lt→ltb t p.timestamp lt) (or_else-none _)
  where
    or_else-none : (o : Option Point) → or_else o none ≡ o
    or_else-none none = refl
    or_else-none (some q) = refl

latest-prepend_ap :
    (make : Point → Option Point) (p : Point) (ps qs : List Point) (t : ℕ)
    → KeepsTime make
    → latest_at_or_before ps t ≡ latest_at_or_before qs t
    → latest_at_or_before (prepend (make p) ps) t ≡ latest_at_or_before (prepend (make p) qs) t
latest-prepend_ap make p ps qs t keeps e =
    latest-prepend make p t ps keeps ∙ rw e (sym (latest-prepend make p t qs keeps))

pub Alike-insert_sorted :
    (cutoff : ℕ) (p : Point) (ring : List Point)
    → cutoff < p.timestamp
    → Alike cutoff ring (insert_sorted p ring)
unfolding insert_sorted
Alike-insert_sorted cutoff p [] lt make keeps t l =
    sym (latest-prepend_late make p [] t keeps (omega arith))
Alike-insert_sorted cutoff p (q ∷ qs) lt make keeps t l =
    elim (Bool-cases (ltb q.timestamp p.timestamp)) [
      | inl e ↦ rw e (
          latest-prepend_ap make q (collect make qs) (collect make (insert_sorted p qs)) t keeps
            (Alike-insert_sorted cutoff p qs lt make keeps t l))
      | inr e ↦ rw e (elim (Bool-cases (q.timestamp == p.timestamp)) [
        | inl f ↦ rw f (
            latest-prepend_late make q (collect make qs) t keeps (ground arith)
            ∙ sym (latest-prepend_late make p (collect make qs) t keeps (omega arith)))
        | inr f ↦
            rw f (sym (latest-prepend_late make p (collect make (q ∷ qs)) t keeps (omega arith)))
      ])
    ]

-- Two ways to make points that agree on the points up to a time.
pub collect-same :
    (make make' : Point → Option Point) (ring : List Point) (t : ℕ)
    → KeepsTime make
    → KeepsTime make'
    → ((p : Point) → p.timestamp ≤ t → make p ≡ make' p)
    → latest_at_or_before (collect make ring) t ≡ latest_at_or_before (collect make' ring) t
collect-same make make' [] t keeps keeps' same = refl
collect-same make make' (p ∷ ps) t keeps keeps' same =
    let ih = collect-same make make' ps t keeps keeps' same in
    elim (Bool-cases (ltb t p.timestamp)) [
      | inl late ↦
          latest-prepend_late make p (collect make ps) t keeps (ltb→lt t p.timestamp late)
          ∙ ih
          ∙ sym
              (latest-prepend_late make' p (collect make' ps) t keeps' (ltb→lt t p.timestamp late))
      | inr early ↦
          latest-prepend_ap make p (collect make ps) (collect make' ps) t keeps ih
          ∙ ap (λ o. latest_at_or_before (prepend o (collect make' ps)) t)
              (same p (ltb→le t p.timestamp early))
    ]

-- The points stand at full minutes.
abbrev pub Aligned : List Point → Type 0
Aligned ring = All (λ p. p.timestamp % 60 ≡ 0) ring

pub collect-Aligned :
    (make : Point → Option Point) (ring : List Point)
    → KeepsTime make
    → Aligned ring
    → Aligned (collect make ring)
collect-Aligned make [] keeps a = tt
collect-Aligned make (p ∷ ps) keeps a = elim (Option-cases (make p)) [
  | inl e ↦ rw e (collect-Aligned make ps keeps a.1)
  | inr (q, e) ↦ rw e (rw (keeps p q e) a.0, collect-Aligned make ps keeps a.1)
]

-- Within a minute every cutoff finds the same point.
pub latest-Aligned :
    (ring : List Point) (t t' : ℕ)
    → minute t ≡ minute t'
    → Aligned ring
    → latest_at_or_before ring t ≡ latest_at_or_before ring t'
unfolding latest_at_or_before
latest-Aligned [] t t' m a = refl
latest-Aligned (p ∷ ps) t t' m a = ground (arith, latest-Aligned ps t t' m a.1)

pub covers-latest :
    (ring : List Point) (t : ℕ)
    → Ascending ring
    → covers ring t ≡ elim (latest_at_or_before ring t) [ none ↦ false | some p ↦ true ]
unfolding covers latest_at_or_before
covers-latest [] t a = refl
covers-latest (p ∷ ps) t a = elim (Bool-cases (leb p.timestamp t)) [
  | inl e ↦ ground arith
  | inr e ↦
      let late = latest-later ps t (later_than t p.timestamp ps (ground arith) a.0) in ground arith
]
