-- ===== src/History/Loaded.antt =====
-- cache.py, `load`: what it leaves in the rings, and the references that are kept.
use text.Mathlib.Text.{◌==◌ as str_eq}
use quick_price.Prelude.{
  ℕ, ◌+◌, ◌<◌, ◌≡◌, refl, ◌∙◌, inl, inr, Option, none, some, List, [], ◌∷◌, ltb, ◌==◌,
  if◌then◌else◌, All, Bool-cases, arith,
}
use quick_price.History.{
  Point, Rings, one_minute_retention, five_minute_retention, daily_retention, bucket, insert_sorted,
}
use quick_price.History.Ring.{
  Ascending, point_at, none_later, insert_sorted-Ascending, point_at-insert_sorted,
}
use quick_price.History.Adds.{IsOrdered}
use quick_price.History.Alike.{Aligned}
use quick_price.History.Depends.{AlignedRings}
use quick_price.History.Frames.{IsDated, bucket_aligned, insert_sorted-Aligned}
use quick_price.History.Load.{at_time, with_incoming, update, recent, updated, latest_of, retained}

update-Ascending :
    (incoming old : List Point) → Ascending incoming → Ascending (update incoming old)
unfolding update
update-Ascending incoming [] a = a
update-Ascending incoming (p ∷ ps) a =
    update-Ascending (insert_sorted p incoming) ps (insert_sorted-Ascending p incoming a)

abbrev pub or_else : Option Point → Option Point → Option Point
or_else none rest = rest
or_else (some p) rest = some p

-- The points that were there win over those that come in.
pub point_at-update :
    (t : ℕ) (incoming old : List Point)
    → Ascending incoming
    → Ascending old
    → point_at t (update incoming old) ≡ or_else (point_at t old) (point_at t incoming)
unfolding update
point_at-update t incoming [] a b = unfold point_at in refl
point_at-update t incoming (p ∷ ps) a b =
    point_at-update t (insert_sorted p incoming) ps (insert_sorted-Ascending p incoming a) b.1
    ∙ elim (Bool-cases (p.timestamp == t)) [
      | inl e ↦
          let same : p.timestamp ≡ t = ground arith in
          let gone : point_at t ps ≡ none = rw (← same) (none_later p.timestamp ps b.0) in
          unfold point_at in rw (gone, point_at-insert_sorted t p incoming a, e) refl
      | inr e ↦ unfold point_at in rw (point_at-insert_sorted t p incoming a, e) refl
    ]

recent-later :
    (t retention latest : ℕ) (ps : List Point)
    → All (λ q. t < q.timestamp) ps
    → All (λ q. t < q.timestamp) (recent retention latest ps)
unfolding recent
recent-later t retention latest [] h = tt
recent-later t retention latest (p ∷ ps) h =
    elim (Bool-cases (ltb (p.timestamp + retention) latest)) [
      | inl e ↦ rw e (recent-later t retention latest ps h.1)
      | inr e ↦ rw e (h.0, recent-later t retention latest ps h.1)
    ]

recent-Ascending :
    (retention latest : ℕ) (ps : List Point) → Ascending ps → Ascending (recent retention latest ps)
unfolding recent
recent-Ascending retention latest [] a = tt
recent-Ascending retention latest (p ∷ ps) a =
    elim (Bool-cases (ltb (p.timestamp + retention) latest)) [
      | inl e ↦ rw e (recent-Ascending retention latest ps a.1)
      | inr e ↦ rw e (
        recent-later p.timestamp retention latest ps a.0,
        recent-Ascending retention latest ps a.1,
      )
    ]

point_at-recent :
    (t retention latest : ℕ) (ps : List Point)
    → point_at t (recent retention latest ps)
      ≡ (if ltb (t + retention) latest then none else point_at t ps)
unfolding recent point_at
point_at-recent t retention latest [] = ground arith
point_at-recent t retention latest (p ∷ ps) = ground (arith, point_at-recent t retention latest ps)

abbrev pub IsSound : Rings → Type 0
IsSound r = IsOrdered r × AlignedRings r

update-Aligned :
    (incoming old : List Point) → Aligned incoming → Aligned old → Aligned (update incoming old)
unfolding update
update-Aligned incoming [] a b = a
update-Aligned incoming (p ∷ ps) a b =
    update-Aligned (insert_sorted p incoming) ps (insert_sorted-Aligned p incoming b.0 a) b.1

recent-Aligned :
    (retention latest : ℕ) (ps : List Point) → Aligned ps → Aligned (recent retention latest ps)
unfolding recent
recent-Aligned retention latest [] a = tt
recent-Aligned retention latest (p ∷ ps) a =
    elim (Bool-cases (ltb (p.timestamp + retention) latest)) [
      | inl e ↦ rw e (recent-Aligned retention latest ps a.1)
      | inr e ↦ rw e (a.0, recent-Aligned retention latest ps a.1)
    ]

pub retained-IsSound :
    (i old : Rings) → IsSound i → AlignedRings old → IsSound (retained (updated i old))
unfolding retained updated
retained-IsSound i old ((a, b, c), (x, y, z)) (u, v, w) =
    let last = latest_of (updated i old) in
    (
      (
        recent-Ascending _ last _ (update-Ascending i.one_minute old.one_minute a),
        recent-Ascending _ last _ (update-Ascending i.five_minute old.five_minute b),
        recent-Ascending _ last _ (update-Ascending i.daily old.daily c),
      ),
      (
        recent-Aligned _ last _ (update-Aligned i.one_minute old.one_minute x u),
        recent-Aligned _ last _ (update-Aligned i.five_minute old.five_minute y v),
        recent-Aligned _ last _ (update-Aligned i.daily old.daily z w),
      ),
    )

-- What a loaded ring holds at a time: nothing if the time is older than the retention at the latest
-- point of the symbol, else the point that was there, else the one that came in.
abbrev pub held_loaded : ℕ → ℕ → ℕ → List Point → List Point → Option Point
held_loaded t retention latest incoming old =
    if ltb (t + retention) latest then none else or_else (point_at t old) (point_at t incoming)

abbrev pub HoldsLoaded : Rings → Rings → Rings → Type 0
HoldsLoaded new i old =
    (t : ℕ)
    → (point_at t new.one_minute
        ≡ held_loaded t one_minute_retention (latest_of (updated i old)) i.one_minute
            old.one_minute)
      × (point_at t new.five_minute
          ≡ held_loaded t five_minute_retention (latest_of (updated i old)) i.five_minute
              old.five_minute)
      × (point_at t new.daily
          ≡ held_loaded t daily_retention (latest_of (updated i old)) i.daily old.daily)

pub retained-HoldsLoaded :
    (i old : Rings) → IsOrdered i → IsOrdered old → HoldsLoaded (retained (updated i old)) i old
unfolding retained updated
retained-HoldsLoaded i old (a, b, c) (x, y, z) t =
    let last = latest_of (updated i old) in
    (
      point_at-recent t one_minute_retention last (update i.one_minute old.one_minute)
          ∙ rw (point_at-update t i.one_minute old.one_minute a x) refl,
      point_at-recent t five_minute_retention last (update i.five_minute old.five_minute)
          ∙ rw (point_at-update t i.five_minute old.five_minute b y) refl,
      point_at-recent t daily_retention last (update i.daily old.daily)
          ∙ rw (point_at-update t i.daily old.daily c z) refl,
    )

abbrev pub SoundResult : Option Rings → Type 0
SoundResult none = Unit
SoundResult (some r) = IsSound r

pub with_incoming-IsSound :
    (r : Rings) (p : Point) → IsSound r → IsDated p → SoundResult (with_incoming r p)
unfolding with_incoming
with_incoming-IsSound r p ((a, b, c), (x, y, z)) dated =
    let (e5, e1) = bucket_aligned p.timestamp in
    let five : Point = record p { timestamp = bucket p.timestamp 5; interval = "5m" } in
    let one : Point = at_time p (bucket p.timestamp 1) in
    let five_ordered = insert_sorted-Ascending five r.five_minute b in
    let five_aligned = insert_sorted-Aligned five r.five_minute e5 y in
    elim (Bool-cases (str_eq p.interval "1d")) [
      | inl f ↦ rw f (
        (a, b, insert_sorted-Ascending p r.daily c),
        (x, y, insert_sorted-Aligned p r.daily (dated f) z),
      )
      | inr f ↦ rw f (elim (Bool-cases (str_eq p.interval "1m")) [
        | inl g ↦ rw g (
          (insert_sorted-Ascending one r.one_minute a, five_ordered, c),
          (insert_sorted-Aligned one r.one_minute e1 x, five_aligned, z),
        )
        | inr g ↦ rw g (elim (Bool-cases (str_eq p.interval "5m")) [
          | inl h ↦ rw h ((a, five_ordered, c), (x, five_aligned, z))
          | inr h ↦ rw h tt
        ])
      ])
    ]
