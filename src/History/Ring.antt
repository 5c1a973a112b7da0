-- ===== src/History/Ring.antt =====
-- cache.py: the rings stay in order of time, and an added point is found in its bucket.
use quick_price.Prelude.{
  ℕ, ◌≤◌, ◌<◌, ◌≡◌, refl, ap, inl, inr, true, Option, none, some, List, [], ◌∷◌, ◌++◌, ltb→lt,
  lt→ltb, ltb, ◌==◌, if◌then◌else◌, arith, All, Bool-cases,
}
use quick_price.History.{Point, insert_sorted, last_time, replace_last, upsert_bucket}

-- Each point is later than the one before; so no time stands twice.
abbrev pub Ascending : List Point → Type 0
Ascending [] = Unit
Ascending (p ∷ ps) = All (λ q. p.timestamp < q.timestamp) ps × Ascending ps

-- The point at a time.
unfoldable pub point_at : ℕ → List Point → Option Point
point_at t [] = none
point_at t (p ∷ ps) = if p.timestamp == t then some p else point_at t ps

insert_sorted-later :
    (t : ℕ) (p : Point) (ps : List Point)
    → t < p.timestamp
    → All (λ q. t < q.timestamp) ps
    → All (λ q. t < q.timestamp) (insert_sorted p ps)
unfolding insert_sorted
insert_sorted-later t p [] l h = (l, tt)
insert_sorted-later t p (q ∷ qs) l h = elim (Bool-cases (ltb q.timestamp p.timestamp)) [
  | inl e ↦ rw e (h.0, insert_sorted-later t p qs l h.1)
  | inr e ↦ rw e (elim (Bool-cases (q.timestamp == p.timestamp)) [
    | inl f ↦ rw f (l, h.1)
    | inr f ↦ rw f (l, h)
  ])
]

pub later_than :
    (s t : ℕ) (ps : List Point)
    → s ≤ t
    → All (λ q. t < q.timestamp) ps
    → All (λ q. s < q.timestamp) ps
later_than s t [] l h = tt
later_than s t (p ∷ ps) l h = (omega arith, later_than s t ps l h.1)

pub insert_sorted-Ascending :
    (p : Point) (ps : List Point) → Ascending ps → Ascending (insert_sorted p ps)
unfolding insert_sorted
insert_sorted-Ascending p [] a = (tt, tt)
insert_sorted-Ascending p (q ∷ qs) a = elim (Bool-cases (ltb q.timestamp p.timestamp)) [
  | inl e ↦
      rw e
        (insert_sorted-later q.timestamp p qs (ground arith) a.0, insert_sorted-Ascending p qs a.1)
  | inr e ↦ rw e (elim (Bool-cases (q.timestamp == p.timestamp)) [
    | inl f ↦ rw f (later_than p.timestamp q.timestamp qs (ground arith) a.0, a.1)
    | inr f ↦ rw f ((ground arith, later_than p.timestamp q.timestamp qs (ground arith) a.0), a)
  ])
]

pub none_later : (t : ℕ) (ps : List Point) → All (λ q. t < q.timestamp) ps → point_at t ps ≡ none
unfolding point_at
none_later t [] h = refl
none_later t (p ∷ ps) h = ground (arith, none_later t ps h.1)

pub point_at-insert_sorted :
    (t : ℕ) (p : Point) (ps : List Point)
    → Ascending ps
    → point_at t (insert_sorted p ps) ≡ (if p.timestamp == t then some p else point_at t ps)
unfolding point_at insert_sorted
point_at-insert_sorted t p [] a = refl
point_at-insert_sorted t p (q ∷ qs) a = ground (arith, point_at-insert_sorted t p qs a.1)

le-last_time :
    (q : Point) (qs : List Point) → Ascending (q ∷ qs) → q.timestamp ≤ last_time q.timestamp qs
unfolding last_time
le-last_time q [] a = omega arith
le-last_time q (r ∷ qs) a = let l = le-last_time r qs a.1 in let m = a.0.0 in omega arith

append-insert_sorted :
    (p q : Point) (qs : List Point)
    → Ascending (q ∷ qs)
    → last_time q.timestamp qs < p.timestamp
    → (q ∷ qs) ++ p ∷ [] ≡ insert_sorted p (q ∷ qs)
unfolding last_time insert_sorted
append-insert_sorted p q [] a l = ground arith
append-insert_sorted p q (r ∷ qs) a l =
    let m = le-last_time r qs a.1 in
    let n = a.0.0 in
    let e : ltb q.timestamp p.timestamp ≡ true = lt→ltb q.timestamp p.timestamp (omega arith) in
    rw e (ap (q ∷◌) (append-insert_sorted p r qs a.1 l))

replace-insert_sorted :
    (p q : Point) (qs : List Point)
    → Ascending (q ∷ qs)
    → last_time q.timestamp qs ≡ p.timestamp
    → replace_last p (q ∷ qs) ≡ insert_sorted p (q ∷ qs)
unfolding last_time replace_last insert_sorted
replace-insert_sorted p q [] a l = ground arith
replace-insert_sorted p q (r ∷ qs) a l =
    let m = le-last_time r qs a.1 in
    let n = a.0.0 in
    let e : ltb q.timestamp p.timestamp ≡ true = lt→ltb q.timestamp p.timestamp (omega arith) in
    rw e (ap (q ∷◌) (replace-insert_sorted p r qs a.1 l))

-- On a ring in order of time the two fast paths do what the slow one does.
pub upsert-insert_sorted :
    (ring : List Point) (p : Point) (at : ℕ)
    → Ascending ring
    → upsert_bucket ring p at ≡ insert_sorted (record p { timestamp = at }) ring
unfolding upsert_bucket insert_sorted
upsert-insert_sorted [] p at a = refl
upsert-insert_sorted (q ∷ qs) p at a = elim (Bool-cases (last_time q.timestamp qs == at)) [
  | inl e ↦ rw e (replace-insert_sorted (record p { timestamp = at }) q qs a (ground arith))
  | inr e ↦ rw e (elim (Bool-cases (ltb (last_time q.timestamp qs) at)) [
    | inl f ↦ rw f (
        append-insert_sorted (record p { timestamp = at }) q qs a
          (ltb→lt (last_time q.timestamp qs) at f))
    | inr f ↦ rw f refl
  ])
]

pub upsert_bucket-Ascending :
    (ring : List Point) (p : Point) (at : ℕ) → Ascending ring → Ascending (upsert_bucket ring p at)
upsert_bucket-Ascending ring p at a =
    rw (upsert-insert_sorted ring p at a)
      (insert_sorted-Ascending (record p { timestamp = at }) ring a)

-- In a ring in order of time, an upserted point is what stands at its time, whatever stood there
-- before, and every other time has what it had.
pub point_at-upsert_bucket :
    (ring : List Point) (p : Point) (at t : ℕ)
    → Ascending ring
    → point_at t (upsert_bucket ring p at)
      ≡ (if at == t then some (record p { timestamp = at }) else point_at t ring)
point_at-upsert_bucket ring p at t a =
    rw (upsert-insert_sorted ring p at a)
      (point_at-insert_sorted t (record p { timestamp = at }) ring a)
