-- ===== src/History/Walk.antt =====
-- cache.py, `_synthetic_reference_at_locked`: its loops over the reversed rings.
use quick_price.Prelude.{
  ℕ, ◌≤◌, ◌≡◌, refl, sym, ◌∙◌, ◌⊎◌, inl, inr, false, Option, none, some, String, List, [], ◌∷◌,
  ◌++◌, ltb, leb, if◌then◌else◌, arith, All, All-append, Bool-cases, Option-cases,
}
use quick_price.History.{Point, latest_at_or_before}
use quick_price.History.Virtual.{reversed, drop_later, walk}
use quick_price.Synthetic.Base.{Arithmetic, Recipe}
use quick_price.Synthetic.Series.{derive, prepend}
use quick_price.Synthetic.Pairing.{Sorted}

-- the first point of a reversed ring that is not after a time
unfoldable pub first_at : List Point → ℕ → Option Point
first_at [] t = none
first_at (q ∷ qs) t = if ltb t q.timestamp then first_at qs t else some q

first_at-append :
    (qs : List Point) (p : Point) (t : ℕ)
    → first_at (qs ++ p ∷ []) t
      ≡ elim (first_at qs t) [ some q ↦ some q | none ↦ if leb p.timestamp t then some p else none ]
unfolding first_at
first_at-append [] p t = ground arith
first_at-append (q ∷ qs) p t = ground (arith, first_at-append qs p t)

pub first_at-reversed :
    (ps : List Point) (t : ℕ) → first_at (reversed ps) t ≡ latest_at_or_before ps t
unfolding latest_at_or_before first_at
first_at-reversed [] t = refl
first_at-reversed (p ∷ ps) t = first_at-append (reversed ps) p t ∙ rw (first_at-reversed ps t) refl

first_at-drop_later :
    (t t' : ℕ) (qs : List Point) → t' ≤ t → first_at (drop_later t qs) t' ≡ first_at qs t'
unfolding drop_later first_at
first_at-drop_later t t' [] l = refl
first_at-drop_later t t' (q ∷ qs) l = ground (arith, first_at-drop_later t t' qs l)

-- Each point is at most as late as the one before.
abbrev pub Falling : List Point → Type 0
Falling [] = Unit
Falling (p ∷ ps) = All (λ q. q.timestamp ≤ p.timestamp) ps × Falling ps

append-Falling :
    (ps : List Point) (p : Point)
    → Falling ps
    → All (λ q. p.timestamp ≤ q.timestamp) ps
    → Falling (ps ++ p ∷ [])
append-Falling [] p f h = (tt, tt)
append-Falling (q ∷ qs) p f h = (
  All-append (λ x. x.timestamp ≤ q.timestamp) qs (p ∷ []) f.0 (h.0, tt),
  append-Falling qs p f.1 h.1,
)

All-reversed : (P : Point → Type 0) (ps : List Point) → All P ps → All P (reversed ps)
All-reversed P [] h = tt
All-reversed P (p ∷ ps) h = All-append P (reversed ps) (p ∷ []) (All-reversed P ps h.1) (h.0, tt)

pub reversed-Falling : (ps : List Point) → Sorted ps → Falling (reversed ps)
reversed-Falling [] h = tt
reversed-Falling (p ∷ ps) h =
    append-Falling (reversed ps) p (reversed-Falling ps h.1)
      (All-reversed (λ q. p.timestamp ≤ q.timestamp) ps h.0)

drop_later-first_at :
    (t : ℕ) (qs : List Point)
    → first_at qs t ≡ elim (drop_later t qs) [ [] ↦ none | q ∷ rest ↦ some q ]
unfolding drop_later first_at
drop_later-first_at t [] = refl
drop_later-first_at t (q ∷ qs) = ground (arith, drop_later-first_at t qs)

List-cases : (ps : List Point) → (ps ≡ []) ⊎ ((p : Point) × (qs : List Point) × (ps ≡ p ∷ qs))
List-cases [] = inl refl
List-cases (p ∷ ps) = inr (p, ps, refl)

abbrev pub or_else : Option Point → Option Point → Option Point
or_else none rest = rest
or_else (some p) rest = some p

-- Points that are made of others, and keep their times.
module _ (make : Point → Option Point) where
  abbrev pub KeepsTime : Type 0
  KeepsTime = (l p : Point) → make l ≡ some p → p.timestamp ≡ l.timestamp

  abbrev pub collect : List Point → List Point
  collect [] = []
  collect (l ∷ ls) = prepend (make l) (collect ls)

  unfoldable pub first_made : ℕ → List Point → Option Point
  first_made cutoff [] = none
  first_made cutoff (l ∷ ls) =
      let rest = first_made cutoff ls in
      if ltb cutoff l.timestamp then rest else or_else (make l) rest

  first_made-append :
      (cutoff : ℕ) (ls : List Point) (l : Point)
      → first_made cutoff (ls ++ l ∷ [])
        ≡ or_else (first_made cutoff ls) (if ltb cutoff l.timestamp then none else make l)
  unfolding first_made
  first_made-append cutoff [] l = ground arith
  first_made-append cutoff (m ∷ ls) l = ground (arith, first_made-append cutoff ls l)

  pub latest-prepend :
      (l : Point) (cutoff : ℕ) (ps : List Point)
      → KeepsTime
      → latest_at_or_before (prepend (make l) ps) cutoff
        ≡ or_else (latest_at_or_before ps cutoff) (if ltb cutoff l.timestamp then none else make l)
  unfolding latest_at_or_before
  latest-prepend l cutoff ps keeps = elim (Option-cases (make l)) [
    | inl e ↦ rw e (ground arith)
    | inr (p, e) ↦ rw e (ground (arith, keeps l p e))
  ]

  -- The walk over the reversed points finds the latest of the points that are made.
  pub first_made-reversed :
      (cutoff : ℕ) (ls : List Point)
      → KeepsTime
      → first_made cutoff (reversed ls) ≡ latest_at_or_before (collect ls) cutoff
  first_made-reversed cutoff [] keeps = unfold first_made latest_at_or_before in refl
  first_made-reversed cutoff (l ∷ ls) keeps =
      first_made-append cutoff (reversed ls) l
      ∙ rw (first_made-reversed cutoff ls keeps) (sym (latest-prepend l cutoff (collect ls) keeps))

module _ (ar : Arithmetic) (r : Recipe) (interval : String) where
  -- what `walk` looks for, with the partner of each left point by its time
  abbrev pub first_hit : (ℕ → Option Point) → ℕ → List Point → Option Point
  first_hit partner = first_made (λ l. derive ar r interval l (partner l.timestamp))

  no_hit : (cutoff : ℕ) (ls : List Point) → first_hit (λ t. none) cutoff ls ≡ none
  unfolding first_made derive
  no_hit cutoff [] = refl
  no_hit cutoff (l ∷ ls) = ground (arith, no_hit cutoff ls)

  first_hit-same :
      (f g : ℕ → Option Point) (cutoff t : ℕ) (ls : List Point)
      → ((t' : ℕ) → t' ≤ t → f t' ≡ g t')
      → All (λ q. q.timestamp ≤ t) ls
      → first_hit f cutoff ls ≡ first_hit g cutoff ls
  unfolding first_made
  first_hit-same f g cutoff t [] same h = refl
  first_hit-same f g cutoff t (l ∷ ls) same h =
      rw (same l.timestamp h.0, first_hit-same f g cutoff t ls same h.1) refl

  walk-round :
      (cutoff : ℕ) (rights : List Point) (l : Point) (ls : List Point)
      → ltb cutoff l.timestamp ≡ false
      → ((qs : List Point) → walk ar r interval cutoff qs ls ≡ first_hit (first_at qs) cutoff ls)
      → All (λ q. q.timestamp ≤ l.timestamp) ls
      → walk ar r interval cutoff rights (l ∷ ls) ≡ first_hit (first_at rights) cutoff (l ∷ ls)
  unfolding walk first_made
  walk-round cutoff rights l ls early ih h = elim (List-cases (drop_later l.timestamp rights)) [
    | inl e ↦
        let gone : (t' : ℕ) → t' ≤ l.timestamp → none ≡ first_at rights t' = (λ t' k.
          rw (← first_at-drop_later l.timestamp t' rights k) (rw e (unfold first_at in refl))) in
        unfold derive in
        ground (
          arith,
          no_hit cutoff ls,
          drop_later-first_at l.timestamp rights,
          first_hit-same (λ t'. none) (first_at rights) cutoff l.timestamp ls gone h,
        )
    | inr (q, qs, e) ↦
        let kept : (t' : ℕ) → t' ≤ l.timestamp → first_at (q ∷ qs) t' ≡ first_at rights t' =
          (λ t' k. rw (← e) (first_at-drop_later l.timestamp t' rights k)) in
        ground (
          arith,
          ih (q ∷ qs),
          drop_later-first_at l.timestamp rights,
          first_hit-same (first_at (q ∷ qs)) (first_at rights) cutoff l.timestamp ls kept h,
        )
  ]

  -- The two loops with their shared state find what a search by time finds.
  pub walk-first_hit :
      (cutoff : ℕ) (rights ls : List Point)
      → Falling ls
      → walk ar r interval cutoff rights ls ≡ first_hit (first_at rights) cutoff ls
  unfolding walk first_made
  walk-first_hit cutoff rights [] f = refl
  walk-first_hit cutoff rights (l ∷ ls) f = elim (Bool-cases (ltb cutoff l.timestamp)) [
    | inl late ↦ rw late (walk-first_hit cutoff rights ls f.1)
    | inr early ↦ walk-round cutoff rights l ls early (λ qs. walk-first_hit cutoff qs ls f.1) f.0
  ]
