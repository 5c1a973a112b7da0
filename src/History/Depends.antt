-- ===== src/History/Depends.antt =====
-- cache.py: what `_reference_at_locked` and `_synthetic_reference_at_locked` depend on, ring by ring.
use quick_price.Prelude.{
  ℕ, ◌≤◌, ◌<◌, ◌≡◌, refl, sym, ap, ◌∙◌, Option, String, List, [], ◌∷◌, All, arith,
}
use quick_price.History.{Point, Rings, latest_at_or_before, covers, reference_at}
use quick_price.History.Ring.{Ascending}
use quick_price.History.Adds.{IsOrdered}
use quick_price.History.Cache.{minute}
use quick_price.History.Virtual.{reversed, walk, interval_reference, synthetic_reference_at}
use quick_price.History.Walk.{
  collect, KeepsTime, first_at, first_at-reversed, reversed-Falling, first_made-reversed,
  walk-first_hit,
}
use quick_price.History.Derived.{
  derive-KeepsTime, invert-KeepsTime, inverse_walk-first_made, first_made-eq,
}
use quick_price.History.Alike.{
  Alike, Alike-latest, collect-same, Aligned, collect-Aligned, latest-Aligned, covers-latest,
}
use quick_price.Synthetic.Base.{Arithmetic, Operation, inverse, product, quotient, Recipe}
use quick_price.Synthetic.Series.{derive, invert}
use quick_price.Synthetic.Pairing.{Sorted}

pub Ascending-le :
    (t : ℕ) (ps : List Point) → All (λ q. t < q.timestamp) ps → All (λ q. t ≤ q.timestamp) ps
Ascending-le t [] h = tt
Ascending-le t (p ∷ ps) h = (omega arith, Ascending-le t ps h.1)

pub Ascending-Sorted : (ps : List Point) → Ascending ps → Sorted ps
Ascending-Sorted [] a = tt
Ascending-Sorted (p ∷ ps) a = (Ascending-le p.timestamp ps a.0, Ascending-Sorted ps a.1)

module _ (ar : Arithmetic) (r : Recipe) (interval : String) where
  abbrev partner : List Point → Point → Option Point
  partner rights l = derive ar r interval l (latest_at_or_before rights l.timestamp)

  partner-KeepsTime : (rights : List Point) → KeepsTime (partner rights)
  partner-KeepsTime rights = derive-KeepsTime ar r interval (latest_at_or_before rights)

  -- all points that an operation makes of two rings
  abbrev made : Operation → List Point → List Point → List Point
  made inverse lefts rights = collect (invert ar r interval) lefts
  made product lefts rights = collect (partner rights) lefts
  made quotient lefts rights = collect (partner rights) lefts

  walk-made :
      (cutoff : ℕ) (lefts rights : List Point)
      → Ascending lefts
      → walk ar r interval cutoff (reversed rights) (reversed lefts)
        ≡ latest_at_or_before (collect (partner rights) lefts) cutoff
  walk-made cutoff lefts rights a =
      walk-first_hit ar r interval cutoff (reversed rights) (reversed lefts)
        (reversed-Falling lefts (Ascending-Sorted lefts a))
      ∙ first_made-eq ar r interval (first_at (reversed rights)) (latest_at_or_before rights) cutoff
          (reversed lefts) (first_at-reversed rights)
      ∙ first_made-reversed (partner rights) cutoff lefts (partner-KeepsTime rights)

  interval_reference-made :
      (o : Operation) (cutoff : ℕ) (lefts rights : List Point)
      → Ascending lefts
      → interval_reference ar r interval cutoff o lefts rights
        ≡ latest_at_or_before (made o lefts rights) cutoff
  unfolding interval_reference
  interval_reference-made inverse cutoff lefts rights a =
      inverse_walk-first_made ar r interval cutoff (reversed lefts)
      ∙ first_made-reversed (invert ar r interval) cutoff lefts (invert-KeepsTime ar r interval)
  interval_reference-made product cutoff lefts rights a = walk-made cutoff lefts rights a
  interval_reference-made quotient cutoff lefts rights a = walk-made cutoff lefts rights a

  paired-Alike :
      (cutoff : ℕ) (lefts lefts' rights rights' : List Point)
      → Alike cutoff lefts lefts'
      → Alike cutoff rights rights'
      → latest_at_or_before (collect (partner rights) lefts) cutoff
        ≡ latest_at_or_before (collect (partner rights') lefts') cutoff
  paired-Alike cutoff lefts lefts' rights rights' a b =
      a (partner rights) (partner-KeepsTime rights) cutoff (omega arith)
      ∙ collect-same (partner rights) (partner rights') lefts' cutoff (partner-KeepsTime rights)
          (partner-KeepsTime rights')
          (λ p l. ap (derive ar r interval p) (Alike-latest cutoff p.timestamp rights rights' b l))

  made-Alike :
      (o : Operation) (cutoff : ℕ) (lefts lefts' rights rights' : List Point)
      → Alike cutoff lefts lefts'
      → Alike cutoff rights rights'
      → latest_at_or_before (made o lefts rights) cutoff
        ≡ latest_at_or_before (made o lefts' rights') cutoff
  made-Alike inverse cutoff lefts lefts' rights rights' a b =
      a (invert ar r interval) (invert-KeepsTime ar r interval) cutoff (omega arith)
  made-Alike product cutoff lefts lefts' rights rights' a b =
      paired-Alike cutoff lefts lefts' rights rights' a b
  made-Alike quotient cutoff lefts lefts' rights rights' a b =
      paired-Alike cutoff lefts lefts' rights rights' a b

  interval_reference-Alike :
      (o : Operation) (cutoff : ℕ) (lefts lefts' rights rights' : List Point)
      → Ascending lefts
      → Ascending lefts'
      → Alike cutoff lefts lefts'
      → Alike cutoff rights rights'
      → interval_reference ar r interval cutoff o lefts rights
        ≡ interval_reference ar r interval cutoff o lefts' rights'
  interval_reference-Alike o cutoff lefts lefts' rights rights' h h' a b =
      interval_reference-made o cutoff lefts rights h
      ∙ made-Alike o cutoff lefts lefts' rights rights' a b
      ∙ sym (interval_reference-made o cutoff lefts' rights' h')

  made-Aligned :
      (o : Operation) (lefts rights : List Point) → Aligned lefts → Aligned (made o lefts rights)
  made-Aligned inverse lefts rights a =
      collect-Aligned (invert ar r interval) lefts (invert-KeepsTime ar r interval) a
  made-Aligned product lefts rights a =
      collect-Aligned (partner rights) lefts (partner-KeepsTime rights) a
  made-Aligned quotient lefts rights a =
      collect-Aligned (partner rights) lefts (partner-KeepsTime rights) a

  interval_reference-Aligned :
      (o : Operation) (t t' : ℕ) (lefts rights : List Point)
      → minute t ≡ minute t'
      → Ascending lefts
      → Aligned lefts
      → interval_reference ar r interval t o lefts rights
        ≡ interval_reference ar r interval t' o lefts rights
  interval_reference-Aligned o t t' lefts rights m h a =
      interval_reference-made o t lefts rights h
      ∙ latest-Aligned (made o lefts rights) t t' m (made-Aligned o lefts rights a)
      ∙ sym (interval_reference-made o t' lefts rights h)

abbrev pub AlikeRings : ℕ → Rings → Rings → Type 0
AlikeRings cutoff r r' =
    Alike cutoff r.one_minute r'.one_minute
    × Alike cutoff r.five_minute r'.five_minute
    × Alike cutoff r.daily r'.daily

abbrev pub AlignedRings : Rings → Type 0
AlignedRings r = Aligned r.one_minute × Aligned r.five_minute × Aligned r.daily

covers-Alike :
    (cutoff : ℕ) (old new : List Point)
    → Ascending old
    → Ascending new
    → Alike cutoff old new
    → covers old cutoff ≡ covers new cutoff
covers-Alike cutoff old new a b alike =
    covers-latest old cutoff a
    ∙ rw (Alike-latest cutoff cutoff old new alike (omega arith)) (sym (covers-latest new cutoff b))

covers-Aligned :
    (t t' : ℕ) (ring : List Point)
    → minute t ≡ minute t'
    → Ascending ring
    → Aligned ring
    → covers ring t ≡ covers ring t'
covers-Aligned t t' ring m a al =
    covers-latest ring t a ∙ rw (latest-Aligned ring t t' m al) (sym (covers-latest ring t' a))

pub reference_at-Alike :
    (cutoff : ℕ) (r r' : Rings)
    → IsOrdered r
    → IsOrdered r'
    → AlikeRings cutoff r r'
    → reference_at r cutoff ≡ reference_at r' cutoff
unfolding reference_at
reference_at-Alike cutoff r r' (a, b, c) (a', b', c') (x, y, z) =
    rw
      (
        covers-Alike cutoff r.one_minute r'.one_minute a a' x,
        covers-Alike cutoff r.five_minute r'.five_minute b b' y,
        Alike-latest cutoff cutoff r.one_minute r'.one_minute x (omega arith),
        Alike-latest cutoff cutoff r.five_minute r'.five_minute y (omega arith),
        Alike-latest cutoff cutoff r.daily r'.daily z (omega arith),
      )
      refl

pub reference_at-Aligned :
    (t t' : ℕ) (r : Rings)
    → minute t ≡ minute t'
    → IsOrdered r
    → AlignedRings r
    → reference_at r t ≡ reference_at r t'
unfolding reference_at
reference_at-Aligned t t' r m (a, b, c) (x, y, z) =
    rw
      (
        covers-Aligned t t' r.one_minute m a x,
        covers-Aligned t t' r.five_minute m b y,
        latest-Aligned r.one_minute t t' m x,
        latest-Aligned r.five_minute t t' m y,
        latest-Aligned r.daily t t' m z,
      )
      refl

pub synthetic_reference_at-Alike :
    (ar : Arithmetic) (r : Recipe) (cutoff : ℕ) (left left' right right' : Rings)
    → IsOrdered left
    → IsOrdered left'
    → AlikeRings cutoff left left'
    → AlikeRings cutoff right right'
    → synthetic_reference_at ar r left right cutoff
      ≡ synthetic_reference_at ar r left' right' cutoff
unfolding synthetic_reference_at
synthetic_reference_at-Alike ar r cutoff left left' right right' (a, b, c) (a', b', c') (x, y, z)
      (x', y', z') =
    ground (
      arith,
      interval_reference-Alike ar r "1m" r.operation cutoff left.one_minute left'.one_minute
          right.one_minute right'.one_minute a a' x x',
      interval_reference-Alike ar r "5m" r.operation cutoff left.five_minute left'.five_minute
          right.five_minute right'.five_minute b b' y y',
      interval_reference-Alike ar r "1d" r.operation cutoff left.daily left'.daily right.daily
          right'.daily c c' z z',
    )

pub synthetic_reference_at-Aligned :
    (ar : Arithmetic) (r : Recipe) (t t' : ℕ) (left right : Rings)
    → minute t ≡ minute t'
    → IsOrdered left
    → AlignedRings left
    → synthetic_reference_at ar r left right t ≡ synthetic_reference_at ar r left right t'
unfolding synthetic_reference_at
synthetic_reference_at-Aligned ar r t t' left right m (a, b, c) (x, y, z) = ground (
  arith,
  interval_reference-Aligned ar r "1m" r.operation t t' left.one_minute right.one_minute m a x,
  interval_reference-Aligned ar r "5m" r.operation t t' left.five_minute right.five_minute m b y,
  interval_reference-Aligned ar r "1d" r.operation t t' left.daily right.daily m c z,
)
