-- ===== src/History/Frames.antt =====
-- cache.py: what `add` and `prune` leave of the rings of a symbol, for the references that are kept.
use text.Mathlib.Text.{◌==◌ as str_eq}
use quick_price.Prelude.{
  ℕ, ◌+◌, ◌-◌, ◌%◌, ◌≤◌, ◌<◌, ◌≡◌, refl, inl, inr, true, Option, none, some, List, [], ◌∷◌, ltb,
  ◌==◌, Bool-cases, arith, length,
}
use quick_price.History.{
  Point, Rings, one_minute_retention, five_minute_retention, daily_retention, bucket, upsert_bucket,
  insert_sorted, prune_ring, prune_symbol, upserted,
}
use quick_price.History.Ring.{Ascending, upsert-insert_sorted, upsert_bucket-Ascending}
use quick_price.History.Adds.{IsOrdered, prune_ring-Ascending}
use quick_price.History.Alike.{Alike, Alike-refl, Alike-insert_sorted, Aligned}
use quick_price.History.Depends.{AlikeRings, AlignedRings}

pub insert_sorted-Aligned :
    (p : Point) (ring : List Point)
    → p.timestamp % 60 ≡ 0
    → Aligned ring
    → Aligned (insert_sorted p ring)
unfolding insert_sorted
insert_sorted-Aligned p [] e a = (e, tt)
insert_sorted-Aligned p (q ∷ qs) e a = elim (Bool-cases (ltb q.timestamp p.timestamp)) [
  | inl f ↦ rw f (a.0, insert_sorted-Aligned p qs e a.1)
  | inr f ↦ rw f (elim (Bool-cases (q.timestamp == p.timestamp)) [
    | inl g ↦ rw g (e, a.1)
    | inr g ↦ rw g (e, a)
  ])
]

upsert_bucket-Aligned :
    (ring : List Point) (p : Point) (at : ℕ)
    → Ascending ring
    → at % 60 ≡ 0
    → Aligned ring
    → Aligned (upsert_bucket ring p at)
upsert_bucket-Aligned ring p at a e al =
    rw (upsert-insert_sorted ring p at a)
      (insert_sorted-Aligned (record p { timestamp = at }) ring e al)

upsert_bucket-Alike :
    (cutoff : ℕ) (ring : List Point) (p : Point) (at : ℕ)
    → Ascending ring
    → cutoff < at
    → Alike cutoff ring (upsert_bucket ring p at)
upsert_bucket-Alike cutoff ring p at a l =
    rw (upsert-insert_sorted ring p at a)
      (Alike-insert_sorted cutoff (record p { timestamp = at }) ring l)

-- What `add` writes to the rings is in order and at full minutes, and later than every cutoff
-- before the five minutes of the point.
abbrev pub Written : Rings → Point → Rings → Type 0
Written r p r' =
    IsOrdered r'
    × AlignedRings r'
    × ((cutoff : ℕ) → cutoff < bucket p.timestamp 5 → AlikeRings cutoff r r')

abbrev pub WrittenResult : Rings → Point → Option Rings → Type 0
WrittenResult r p none = Unit
WrittenResult r p (some r') = Written r p r'

pub bucket_aligned : (t : ℕ) → (bucket t 5 % 60 ≡ 0) × (bucket t 1 % 60 ≡ 0)
unfolding bucket
bucket_aligned t = omega arith

bucket_order : (t : ℕ) → (bucket t 5 ≤ bucket t 1) × (bucket t 1 ≤ t)
unfolding bucket
bucket_order t = omega arith

-- A daily point stands at a full minute.
abbrev pub IsDated : Point → Type 0
IsDated p = str_eq p.interval "1d" ≡ true → p.timestamp % 60 ≡ 0

pub upserted-Written :
    (r : Rings) (p : Point)
    → IsOrdered r
    → AlignedRings r
    → IsDated p
    → WrittenResult r p (upserted r p)
unfolding upserted
upserted-Written r p (a, b, c) (x, y, z) dated =
    let (e5, e1) = bucket_aligned p.timestamp in
    let (l5, l1) = bucket_order p.timestamp in
    elim (Bool-cases (str_eq p.interval "1d")) [
      | inl f ↦ rw f (
        (a, b, upsert_bucket-Ascending r.daily p p.timestamp c),
        (x, y, upsert_bucket-Aligned r.daily p p.timestamp c (dated f) z),
        λ cutoff l. (
          Alike-refl cutoff r.one_minute,
          Alike-refl cutoff r.five_minute,
          upsert_bucket-Alike cutoff r.daily p p.timestamp c (omega arith),
        ),
      )
      | inr f ↦ rw f (elim (Bool-cases (str_eq p.interval "5m")) [
        | inl g ↦ rw g (
          (a, upsert_bucket-Ascending r.five_minute p (bucket p.timestamp 5) b, c),
          (x, upsert_bucket-Aligned r.five_minute p (bucket p.timestamp 5) b e5 y, z),
          λ cutoff l. (
            Alike-refl cutoff r.one_minute,
            upsert_bucket-Alike cutoff r.five_minute p (bucket p.timestamp 5) b l,
            Alike-refl cutoff r.daily,
          ),
        )
        | inr g ↦ rw g (elim (Bool-cases (str_eq p.interval "1m")) [
          | inl h ↦
              let five : Point = record p { interval = "5m" } in
              rw h (
                (
                  upsert_bucket-Ascending r.one_minute p (bucket p.timestamp 1) a,
                  upsert_bucket-Ascending r.five_minute five (bucket p.timestamp 5) b,
                  c,
                ),
                (
                  upsert_bucket-Aligned r.one_minute p (bucket p.timestamp 1) a e1 x,
                  upsert_bucket-Aligned r.five_minute five (bucket p.timestamp 5) b e5 y,
                  z,
                ),
                λ cutoff l. (
                  upsert_bucket-Alike cutoff r.one_minute p (bucket p.timestamp 1) a (omega arith),
                  upsert_bucket-Alike cutoff r.five_minute five (bucket p.timestamp 5) b l,
                  Alike-refl cutoff r.daily,
                ),
              )
          | inr h ↦ rw h tt
        ])
      ])
    ]

length-prune_ring-le :
    (retention now : ℕ) (ring : List Point) → length (prune_ring retention now ring) ≤ length ring
unfolding prune_ring
length-prune_ring-le retention now [] = omega arith
length-prune_ring-le retention now (p ∷ ps) = ground (arith, length-prune_ring-le retention now ps)

-- A ring of which nothing went is the ring that was.
prune_ring-same :
    (retention now : ℕ) (ring : List Point)
    → length ring - length (prune_ring retention now ring) ≡ 0
    → prune_ring retention now ring ≡ ring
unfolding prune_ring
prune_ring-same retention now [] h = refl
prune_ring-same retention now (p ∷ ps) h = ground (arith, length-prune_ring-le retention now ps)

prune_ring-Aligned :
    (retention now : ℕ) (ring : List Point) → Aligned ring → Aligned (prune_ring retention now ring)
unfolding prune_ring
prune_ring-Aligned retention now [] a = tt
prune_ring-Aligned retention now (p ∷ ps) a =
    elim (Bool-cases (ltb (p.timestamp + retention) now)) [
      | inl e ↦ rw e (prune_ring-Aligned retention now ps a.1)
      | inr e ↦ rw e a
    ]

pub prune_symbol-IsOrdered : (r : Rings) (now : ℕ) → IsOrdered r → IsOrdered (prune_symbol r now).0
unfolding prune_symbol
prune_symbol-IsOrdered r now (a, b, c) = (
  prune_ring-Ascending _ now r.one_minute a,
  prune_ring-Ascending _ now r.five_minute b,
  prune_ring-Ascending _ now r.daily c,
)

pub prune_symbol-AlignedRings :
    (r : Rings) (now : ℕ) → AlignedRings r → AlignedRings (prune_symbol r now).0
unfolding prune_symbol
prune_symbol-AlignedRings r now (a, b, c) = (
  prune_ring-Aligned _ now r.one_minute a,
  prune_ring-Aligned _ now r.five_minute b,
  prune_ring-Aligned _ now r.daily c,
)

pub prune_symbol-same :
    (r : Rings) (now : ℕ) → (prune_symbol r now).1 ≡ 0 → (prune_symbol r now).0 ≡ r
unfolding prune_symbol
prune_symbol-same r now h =
    let one = prune_ring-same one_minute_retention now r.one_minute (omega arith) in
    let five = prune_ring-same five_minute_retention now r.five_minute (omega arith) in
    let day = prune_ring-same daily_retention now r.daily (omega arith) in rw (one, five, day) refl
