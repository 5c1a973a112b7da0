-- ===== src/History/Adds.antt =====
-- cache.py: what `add` and `prune` do to the rings of a symbol.
use text.Mathlib.Text.{◌==◌ as str_eq}
use mathlib.Core.Path.{subst}
use quick_price.Prelude.{
  ◌/◌, ◌*◌, ℕ, ◌+◌, ◌≤◌, ◌≡◌, refl, ◌∙◌, inl, inr, true, false, Option, none, some, List, [], ◌∷◌,
  ltb→lt, ltb, ◌==◌, if◌then◌else◌, arith, Bool-cases,
}
use quick_price.History.{
  Point, Rings, bucket, upsert_bucket, prune_ring, prune_symbol, upserted, then_prune, add,
  one_minute_retention, five_minute_retention, daily_retention,
}
use quick_price.History.Ring.{
  Ascending, point_at, upsert_bucket-Ascending, point_at-upsert_bucket, later_than, none_later,
}

ltb→ge : (a b : ℕ) → ltb a b ≡ false → b ≤ a
ltb→ge a b h = ground arith

-- `prune` drops the points that are older than the retention, and no other.
prune_ring_lem :
    (retention now t : ℕ) (ring : List Point)
    → Ascending ring
    → point_at t (prune_ring retention now ring)
      ≡ (if ltb (t + retention) now then none else point_at t ring)
unfolding prune_ring point_at
prune_ring_lem retention now t [] a = ground arith
prune_ring_lem retention now t (p ∷ ps) a =
    let ih = prune_ring_lem retention now t ps a.1 in
    elim (Bool-cases (ltb (p.timestamp + retention) now)) [
      | inl e ↦ ground (arith, ih)
      | inr e ↦ rw e (elim (Bool-cases (ltb (t + retention) now)) [
        | inl f ↦ rw f (
            let l = ltb→lt (t + retention) now f in
            let m = ltb→ge (p.timestamp + retention) now e in
            none_later t (p ∷ ps) (omega arith, later_than t p.timestamp ps (omega arith) a.0))
        | inr f ↦ rw f refl
      ])
    ]

pub prune_ring-Ascending :
    (retention now : ℕ) (ring : List Point)
    → Ascending ring
    → Ascending (prune_ring retention now ring)
unfolding prune_ring
prune_ring-Ascending retention now [] a = tt
prune_ring-Ascending retention now (p ∷ ps) a =
    let ih = prune_ring-Ascending retention now ps a.1 in
    elim (Bool-cases (ltb (p.timestamp + retention) now)) [ inl e ↦ rw e ih | inr e ↦ rw e a ]

-- The three rings of a symbol are in order of time.
abbrev pub IsOrdered : Rings → Type 0
IsOrdered r = Ascending r.one_minute × Ascending r.five_minute × Ascending r.daily

abbrev OrderedResult : Option Rings → Type 0
OrderedResult none = Unit
OrderedResult (some r) = IsOrdered r

upserted-IsOrdered : (r : Rings) (p : Point) → IsOrdered r → OrderedResult (upserted r p)
unfolding upserted
upserted-IsOrdered r p (a, b, c) = elim (Bool-cases (str_eq p.interval "1d")) [
  | inl f ↦ rw f (a, b, upsert_bucket-Ascending r.daily p p.timestamp c)
  | inr f ↦ rw f (elim (Bool-cases (str_eq p.interval "5m")) [
    | inl g ↦ rw g (a, upsert_bucket-Ascending r.five_minute p (bucket p.timestamp 5) b, c)
    | inr g ↦ rw g (elim (Bool-cases (str_eq p.interval "1m")) [
      | inl h ↦ rw h (
        upsert_bucket-Ascending r.one_minute p (bucket p.timestamp 1) a,
        upsert_bucket-Ascending r.five_minute (record p { interval = "5m" }) (bucket p.timestamp 5)
            b,
        c,
      )
      | inr h ↦ rw h tt
    ])
  ])
]

then_prune-IsOrdered :
    (o : Option Rings) (now : ℕ) → OrderedResult o → OrderedResult (then_prune o now)
unfolding then_prune prune_symbol
then_prune-IsOrdered none now h = tt
then_prune-IsOrdered (some r) now (a, b, c) = (
  prune_ring-Ascending one_minute_retention now r.one_minute a,
  prune_ring-Ascending five_minute_retention now r.five_minute b,
  prune_ring-Ascending daily_retention now r.daily c,
)

to_rings : {o : Option Rings} (s : Rings) → o ≡ some s → OrderedResult o → IsOrdered s
to_rings s e h = subst OrderedResult e h

-- A point of any interval, early or late, leaves the three rings in order of time.
pub add-IsOrdered :
    (r : Rings) (p : Point) (s : Rings) → IsOrdered r → add r p ≡ some s → IsOrdered s
unfolding add
add-IsOrdered r p s h e =
    to_rings s e (then_prune-IsOrdered (upserted r p) p.timestamp (upserted-IsOrdered r p h))

minute_kept : (t : ℕ) → ltb (bucket t 1 + one_minute_retention) t ≡ false
unfolding bucket
minute_kept t = ground arith

five_kept : (t : ℕ) → ltb (bucket t 5 + five_minute_retention) t ≡ false
unfolding bucket
five_kept t = ground arith

-- What a ring holds at the time `t` once the point `p` was put at `at`, and the ring pruned: nothing,
-- if `t` is older than the retention at the point's own time; else the point, if `at` is `t`; else
-- what it held before.
abbrev pub held_after : List Point → Point → ℕ → ℕ → ℕ → Option Point
held_after ring p at retention t =
    if ltb (t + retention) p.timestamp
    then none
    else if at == t
    then some (record p { timestamp = at })
    else point_at t ring

upsert_prune :
    (ring : List Point) (p : Point) (at retention t : ℕ)
    → Ascending ring
    → point_at t (prune_ring retention p.timestamp (upsert_bucket ring p at))
      ≡ held_after ring p at retention t
upsert_prune ring p at retention t a =
    prune_ring_lem retention p.timestamp t (upsert_bucket ring p at)
      (upsert_bucket-Ascending ring p at a)
    ∙ rw (point_at-upsert_bucket ring p at t a) refl

abbrev after_minute : Rings → Point → Rings
after_minute r p = record {
  one_minute =
      prune_ring one_minute_retention p.timestamp
        (upsert_bucket r.one_minute p (bucket p.timestamp 1));
  five_minute =
      prune_ring five_minute_retention p.timestamp
        (upsert_bucket r.five_minute (record p { interval = "5m" }) (bucket p.timestamp 5));
  daily = prune_ring daily_retention p.timestamp r.daily;
}

accepted_minute : (r : Rings) (p : Point) → p.interval ≡ "1m" → add r p ≡ some (after_minute r p)
unfolding add upserted then_prune prune_symbol
accepted_minute r p e =
    let f : str_eq p.interval "1d" ≡ false = rw e refl in
    let g : str_eq p.interval "5m" ≡ false = rw e refl in
    let h : str_eq p.interval "1m" ≡ true = rw e refl in rw f (rw g (rw h refl))

held_at :
    (ring : List Point) (p : Point) (at retention : ℕ)
    → ltb (at + retention) p.timestamp ≡ false
    → held_after ring p at retention at ≡ some (record p { timestamp = at })
held_at ring p at retention e = ground arith

abbrev pub IsAdded : Rings → Point → ℕ → ℕ → Type 0
IsAdded r p minute five =
    (s : Rings) × (add r p ≡ some s)
    × ((t : ℕ)
        → (point_at t s.one_minute ≡ held_after r.one_minute p minute one_minute_retention t)
          × (point_at t s.five_minute
              ≡ held_after r.five_minute (record p { interval = "5m" }) five five_minute_retention
                  t))
    × (point_at minute s.one_minute ≡ some (record p { timestamp = minute }))
    × (point_at five s.five_minute ≡ some (record p { timestamp = five; interval = "5m" }))

accepted-minute :
    (r : Rings) (p : Point)
    → IsOrdered r
    → p.interval ≡ "1m"
    → IsAdded r p (bucket p.timestamp 1) (bucket p.timestamp 5)
accepted-minute r p (a, b, c) e = (
  after_minute r p,
  accepted_minute r p e,
  λ t. (
    upsert_prune r.one_minute p (bucket p.timestamp 1) one_minute_retention t a,
    upsert_prune r.five_minute (record p { interval = "5m" }) (bucket p.timestamp 5)
        five_minute_retention t b,
  ),
  upsert_prune r.one_minute p (bucket p.timestamp 1) one_minute_retention (bucket p.timestamp 1) a
      ∙ held_at r.one_minute p (bucket p.timestamp 1) one_minute_retention
          (minute_kept p.timestamp),
  upsert_prune r.five_minute (record p { interval = "5m" }) (bucket p.timestamp 5)
        five_minute_retention (bucket p.timestamp 5) b
      ∙ held_at r.five_minute (record p { interval = "5m" }) (bucket p.timestamp 5)
          five_minute_retention (five_kept p.timestamp),
)

pub one_start : (t : ℕ) → bucket t 1 ≡ t / 60 * 60
unfolding bucket
one_start t = omega arith

pub five_start : (t : ℕ) → bucket t 5 ≡ t / 300 * 300
unfolding bucket
five_start t = omega arith

-- On rings in order of time, a point of one minute is accepted, and it is found at the start of its
-- minute, the multiple of 60 seconds at or before it, in the ring of one minute, and at the start of
-- its five minutes, the multiple of 300 seconds, in the ring of five, whatever the rings held and
-- however late it comes; at any other time each of the two rings then holds what it held, less what
-- is older than its retention.
pub add-minute :
    (r : Rings) (p : Point)
    → IsOrdered r
    → p.interval ≡ "1m"
    → IsAdded r p (p.timestamp / 60 * 60) (p.timestamp / 300 * 300)
add-minute r p ordered e =
    subst (λ one. IsAdded r p one (p.timestamp / 300 * 300)) (one_start p.timestamp)
      (subst (λ five. IsAdded r p (bucket p.timestamp 1) five) (five_start p.timestamp)
        (accepted-minute r p ordered e))
