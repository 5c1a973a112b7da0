-- ===== src/History/Derived.antt =====
-- cache.py and providers/synthetic.py: the reference that the cache derives from the rings of two
-- components, beside the history that the synthetic provider makes of the same points.
use quick_price.Prelude.{
  ℕ, ◌≤◌, ◌≡◌, refl, ap, sym, ◌∙◌, Option, none, some, String, List, [], ◌∷◌, le→leb, arith, All,
}
use mathlib.Core.Path.{fun_ext}
use quick_price.History.{Point, latest_at_or_before}
use quick_price.History.Virtual.{reversed, inverse_walk, walk, interval_reference}
use quick_price.Synthetic.Base.{
  Arithmetic, Operation, inverse, product, quotient, Recipe, Result, ok, err, positive, combined,
}
use quick_price.Synthetic.Series.{
  derive, invert, point_with, inverted, paired, unlimited, synthesize_history, sort_points,
  insert_point,
}
use quick_price.Synthetic.Pairing.{Sorted, with_partners, paired-with_partners}
use quick_price.History.Walk.{
  first_at, first_at-reversed, reversed-Falling, collect, KeepsTime, first_made,
  first_made-reversed, first_hit, walk-first_hit,
}

insert_point-first :
    (p : Point) (ps : List Point)
    → All (λ q. p.timestamp ≤ q.timestamp) ps
    → insert_point p ps ≡ p ∷ ps
unfolding insert_point
insert_point-first p [] h = refl
insert_point-first p (q ∷ qs) h = rw (le→leb p.timestamp q.timestamp h.0) refl

pub sort_points-Sorted_id : (ps : List Point) → Sorted ps → sort_points ps ≡ ps
unfolding sort_points
sort_points-Sorted_id [] h = refl
sort_points-Sorted_id (p ∷ ps) h = rw (sort_points-Sorted_id ps h.1) (insert_point-first p ps h.0)

module _ (ar : Arithmetic) (r : Recipe) (interval : String) where
  point_with-timestamp :
      (l p : Point) (x : Result ℕ) → point_with r interval l x ≡ some p → p.timestamp ≡ l.timestamp
  unfolding point_with
  point_with-timestamp l p (err e) h = absurd (cc h)
  point_with-timestamp l p (ok x) h = ground arith

  derive-timestamp :
      (l p : Point) (o : Option Point)
      → derive ar r interval l o ≡ some p
      → p.timestamp ≡ l.timestamp
  unfolding derive
  derive-timestamp l p none h = absurd (cc h)
  derive-timestamp l p (some q) h =
      ground
        (arith, point_with-timestamp l p (positive ar (combined ar r.operation l.price q.price)))

  pub derive-KeepsTime :
      (partner : ℕ → Option Point) → KeepsTime (λ l. derive ar r interval l (partner l.timestamp))
  derive-KeepsTime partner l p h = derive-timestamp l p (partner l.timestamp) h

  pub invert-KeepsTime : KeepsTime (invert ar r interval)
  unfolding invert
  invert-KeepsTime l p h = point_with-timestamp l p _ h

  with_partners-collect :
      (partner : ℕ → Option Point) (ls : List Point)
      → with_partners ar r interval partner ls
        ≡ collect (λ l. derive ar r interval l (partner l.timestamp)) ls
  unfolding with_partners
  with_partners-collect partner [] = refl
  with_partners-collect partner (l ∷ ls) = rw (with_partners-collect partner ls) refl

  inverted-collect :
      (ls : List Point) → inverted ar r interval ls ≡ collect (invert ar r interval) ls
  unfolding inverted
  inverted-collect [] = refl
  inverted-collect (l ∷ ls) = rw (inverted-collect ls) refl

  pub inverse_walk-first_made :
      (cutoff : ℕ) (ls : List Point)
      → inverse_walk ar r interval cutoff ls ≡ first_made (invert ar r interval) cutoff ls
  unfolding inverse_walk first_made
  inverse_walk-first_made cutoff [] = refl
  inverse_walk-first_made cutoff (l ∷ ls) = ground (arith, inverse_walk-first_made cutoff ls)

  pub first_made-eq :
      (f g : ℕ → Option Point) (cutoff : ℕ) (ls : List Point)
      → ((t : ℕ) → f t ≡ g t)
      → first_hit ar r interval f cutoff ls ≡ first_hit ar r interval g cutoff ls
  first_made-eq f g cutoff ls same = rw (fun_ext same) refl

  walk-latest :
      (cutoff : ℕ) (lefts rights : List Point)
      → Sorted lefts
      → Sorted rights
      → walk ar r interval cutoff (reversed rights) (reversed lefts)
        ≡ latest_at_or_before (paired ar r interval none rights lefts) cutoff
  walk-latest cutoff lefts rights h k =
      walk-first_hit ar r interval cutoff (reversed rights) (reversed lefts)
        (reversed-Falling lefts h)
      ∙ first_made-eq (first_at (reversed rights)) (latest_at_or_before rights) cutoff
          (reversed lefts) (first_at-reversed rights)
      ∙ first_made-reversed _ cutoff lefts (derive-KeepsTime (latest_at_or_before rights))
      ∙ ap (λ ps. latest_at_or_before ps cutoff)
          (sym (with_partners-collect (latest_at_or_before rights) lefts)
            ∙ sym (paired-with_partners ar r interval lefts rights h k))

  inverse_walk-latest :
      (cutoff : ℕ) (lefts : List Point)
      → inverse_walk ar r interval cutoff (reversed lefts)
        ≡ latest_at_or_before (inverted ar r interval lefts) cutoff
  inverse_walk-latest cutoff lefts =
      inverse_walk-first_made cutoff (reversed lefts)
      ∙ first_made-reversed _ cutoff lefts invert-KeepsTime
      ∙ ap (λ ps. latest_at_or_before ps cutoff) (sym (inverted-collect lefts))

  reference-by_operation :
      (o : Operation) (cutoff : ℕ) (lefts rights : List Point)
      → Sorted lefts
      → Sorted rights
      → interval_reference ar r interval cutoff o lefts rights
        ≡ latest_at_or_before (unlimited ar r interval o lefts rights) cutoff
  unfolding interval_reference unlimited
  reference-by_operation inverse cutoff lefts rights h k =
      rw (sort_points-Sorted_id lefts h) (inverse_walk-latest cutoff lefts)
  reference-by_operation product cutoff lefts rights h k =
      rw (sort_points-Sorted_id lefts h, sort_points-Sorted_id rights k)
        (walk-latest cutoff lefts rights h k)
  reference-by_operation quotient cutoff lefts rights h k =
      rw (sort_points-Sorted_id lefts h, sort_points-Sorted_id rights k)
        (walk-latest cutoff lefts rights h k)

  -- On rings in order of time the reference that the cache derives at a cutoff is the latest point up
  -- to that cutoff in the history that the synthetic provider makes of the same two rings, with no limit.
  pub interval_reference-synthesize_history :
      (cutoff : ℕ) (lefts rights : List Point)
      → Sorted lefts
      → Sorted rights
      → interval_reference ar r interval cutoff r.operation lefts rights
        ≡ latest_at_or_before (synthesize_history ar r interval lefts rights none) cutoff
  unfolding synthesize_history
  interval_reference-synthesize_history cutoff lefts rights h k =
      reference-by_operation r.operation cutoff lefts rights h k
