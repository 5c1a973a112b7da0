-- ===== src/Router/Merged.antt =====
-- providers/router.py: what `_merge_history` returns.
use quick_price.Prelude.{
  ℕ, suc, ◌+◌, ◌*◌, ◌<◌, ◌≡◌, ◌≢◌, ◌↔◌, refl, ap, ◌∙◌, inl, inr, false, Option, none, some, List,
  [], ◌∷◌, map, arith, ltb, leb, ◌==◌, String, take, All, ite, if_pos, if_neg, if◌then◌else◌,
  ℕ_discrete, Bool-cases, leb→lt, lt→leb, zero, Option-cases,
}
use quick_price.Prelude.Int.{ℤ, pos, negsuc}
use quick_price.Prelude.Dict.{Dict, get, put, get-put, Unique, put-Unique}
use quick_price.Router.Segments.{
  Point, set_default, merge_segment, merge_segments, insert_key, sort_keys, limit_to, merge_history,
  interval_seconds, earliest, history_covers_start,
}

-- The first point of a history at a time.
unfoldable pub point_at : ℕ → List Point → Option Point
point_at t [] = none
point_at t (p ∷ ps) = if p.timestamp == t then some p else point_at t ps

-- The point at a time of the first history that has one.
unfoldable pub first_at : ℕ → List (List Point) → Option Point
first_at t [] = none
first_at t (s ∷ ss) = elim (point_at t s) [ none ↦ first_at t ss | some p ↦ some p ]

-- Each time is later than the one before.
abbrev pub Ascending : List Point → Type 0
Ascending [] = Unit
Ascending (p ∷ ps) = All (λ q. p.timestamp < q.timestamp) ps × Ascending ps

or_else : Option Point → Option Point → Option Point
or_else none o = o
or_else (some p) o = some p

get-set_default :
    (t : ℕ) (m : Dict ℕ Point) (p : Point)
    → get ℕ_discrete t (set_default m p)
      ≡ or_else (get ℕ_discrete t m) (if p.timestamp == t then some p else none)
unfolding set_default or_else
get-set_default t m p = elim (Option-cases (get ℕ_discrete p.timestamp m)) [
  | inl e ↦
      rw (e, set_default)
        (ground (arith, get-put ℕ_discrete p.timestamp t p m, ap (λ i. get ℕ_discrete i m)))
  | inr (q, e) ↦ rw (e, set_default) (ground (arith, ap (λ i. get ℕ_discrete i m)))
]

get-merge_segment :
    (t : ℕ) (m : Dict ℕ Point) (s : List Point)
    → get ℕ_discrete t (merge_segment m s) ≡ or_else (get ℕ_discrete t m) (point_at t s)
unfolding merge_segment or_else point_at
get-merge_segment t m [] = ground arith
get-merge_segment t m (p ∷ s) =
    ground (arith, get-merge_segment t (set_default m p) s, get-set_default t m p)

get-merge_segments :
    (t : ℕ) (m : Dict ℕ Point) (ss : List (List Point))
    → get ℕ_discrete t (merge_segments m ss) ≡ or_else (get ℕ_discrete t m) (first_at t ss)
unfolding merge_segments or_else first_at
get-merge_segments t m [] = ground arith
get-merge_segments t m (s ∷ ss) =
    ground (arith, get-merge_segments t (merge_segment m s) ss, get-merge_segment t m s)

-- Each key is the time of its point.
abbrev IsKeyed : Dict ℕ Point → Type 0
IsKeyed d = All (λ e. e.1.timestamp ≡ e.0) d

abbrev points_of : Dict ℕ Point → List Point
points_of d = map (λ e. e.1) d

put-IsKeyed : (p : Point) (m : Dict ℕ Point) → IsKeyed m → IsKeyed (put ℕ_discrete p.timestamp p m)
unfolding put
put-IsKeyed p [] h = (refl, tt)
put-IsKeyed p ((k, q) ∷ m) h = elim (ℕ_discrete k p.timestamp) [
  | yes e ↦ rw (if_pos _ e) (refl, h.1)
  | no e ↦ rw (if_neg _ e) (h.0, put-IsKeyed p m h.1)
]

record IsMerged (m : Dict ℕ Point) : Type 0 where
  keyed : IsKeyed m
  unique : Unique ℕ_discrete m

set_default-IsMerged : (m : Dict ℕ Point) (p : Point) → IsMerged m → IsMerged (set_default m p)
unfolding set_default
set_default-IsMerged m p h = elim (Option-cases (get ℕ_discrete p.timestamp m)) [
  | inl e ↦
      rw (e, set_default)
        (record {
          keyed = put-IsKeyed p m h.keyed;
          unique = put-Unique ℕ_discrete p.timestamp p m h.unique;
        })
  | inr (q, e) ↦ rw (e, set_default) h
]

merge_segment-IsMerged :
    (m : Dict ℕ Point) (s : List Point) → IsMerged m → IsMerged (merge_segment m s)
unfolding merge_segment
merge_segment-IsMerged m [] h = h
merge_segment-IsMerged m (p ∷ s) h =
    merge_segment-IsMerged (set_default m p) s (set_default-IsMerged m p h)

merge_segments-IsMerged :
    (m : Dict ℕ Point) (ss : List (List Point)) → IsMerged m → IsMerged (merge_segments m ss)
unfolding merge_segments
merge_segments-IsMerged m [] h = h
merge_segments-IsMerged m (s ∷ ss) h =
    merge_segments-IsMerged (merge_segment m s) ss (merge_segment-IsMerged m s h)

-- Sorting: the inserted point stands among the others, in order.
get-insert_key :
    (t k : ℕ) (p : Point) (d : Dict ℕ Point)
    → get ℕ_discrete k d ≡ none
    → get ℕ_discrete t (insert_key k p d) ≡ ite (ℕ_discrete k t) (some p) (get ℕ_discrete t d)
unfolding get insert_key
get-insert_key t k p [] n = refl
get-insert_key t k p ((j, q) ∷ d) n = ground (arith, get-insert_key t k p d)

insert_key-IsKeyed :
    (k : ℕ) (p : Point) (d : Dict ℕ Point)
    → p.timestamp ≡ k
    → IsKeyed d
    → IsKeyed (insert_key k p d)
unfolding insert_key
insert_key-IsKeyed k p [] e h = (e, tt)
insert_key-IsKeyed k p ((j, q) ∷ d) e h = elim (Bool-cases (leb k j)) [
  | inl b ↦ rw b (e, h)
  | inr b ↦ rw b (h.0, insert_key-IsKeyed k p d e h.1)
]

insert_key-later :
    (t k : ℕ) (p : Point) (d : Dict ℕ Point)
    → t < p.timestamp
    → All (λ q. t < q.timestamp) (points_of d)
    → All (λ q. t < q.timestamp) (points_of (insert_key k p d))
unfolding insert_key
insert_key-later t k p [] e h = (e, tt)
insert_key-later t k p ((j, q) ∷ d) e h = elim (Bool-cases (leb k j)) [
  | inl b ↦ rw b (e, h)
  | inr b ↦ rw b (h.0, insert_key-later t k p d e h.1)
]

All-later :
    (s t : ℕ) (ps : List Point)
    → s < t
    → All (λ q. t < q.timestamp) ps
    → All (λ q. s < q.timestamp) ps
All-later s t [] l h = tt
All-later s t (p ∷ ps) l h = (omega arith, All-later s t ps l h.1)

insert_key-Ascending :
    (k : ℕ) (p : Point) (d : Dict ℕ Point)
    → p.timestamp ≡ k
    → IsKeyed d
    → get ℕ_discrete k d ≡ none
    → Ascending (points_of d)
    → Ascending (points_of (insert_key k p d))
unfolding insert_key
insert_key-Ascending k p [] e h n a = (tt, tt)
insert_key-Ascending k p ((j, q) ∷ d) e h n a =
    let fresh_key : k ≢ j = unfold get in ground arith in
    let below : get ℕ_discrete k d ≡ none = unfold get in ground arith in
    elim (Bool-cases (leb k j)) [
      | inl b ↦
          let first : p.timestamp < q.timestamp = ground arith in
          rw b ((first, All-later p.timestamp q.timestamp (points_of d) first a.0), a)
      | inr b ↦
          let first : q.timestamp < p.timestamp = ground arith in
          rw b (
            insert_key-later q.timestamp k p d first a.0,
            insert_key-Ascending k p d e h.1 below a.1,
          )
    ]

record IsSorted (m d : Dict ℕ Point) : Type 0 where
  keyed : IsKeyed d
  ascending : Ascending (points_of d)
  same : (t : ℕ) → get ℕ_discrete t d ≡ get ℕ_discrete t m

sort_keys-IsSorted : (m : Dict ℕ Point) → IsMerged m → IsSorted m (sort_keys m)
unfolding sort_keys get
sort_keys-IsSorted [] h = record { keyed = tt; ascending = tt; same = λ t. refl }
sort_keys-IsSorted ((k, p) ∷ m) h =
    let ih : IsSorted m (sort_keys m) =
      sort_keys-IsSorted m (record { keyed = h.keyed.1; unique = h.unique.1 }) in
    let absent : get ℕ_discrete k (sort_keys m) ≡ none = ih.same k ∙ h.unique.0 in
    record {
      keyed = insert_key-IsKeyed k p (sort_keys m) h.keyed.0 ih.keyed;
      ascending = insert_key-Ascending k p (sort_keys m) h.keyed.0 ih.keyed absent ih.ascending;
      same = λ t. get-insert_key t k p (sort_keys m) absent ∙ rw (ih.same t);
    }

-- In a sorted table the time of a point is its key.
point_at-points_of :
    (t : ℕ) (d : Dict ℕ Point) → IsKeyed d → point_at t (points_of d) ≡ get ℕ_discrete t d
unfolding point_at get
point_at-points_of t [] h = refl
point_at-points_of t ((k, p) ∷ d) h = ground (arith, point_at-points_of t d h.1)

merged-IsSorted :
    (ss : List (List Point)) → IsSorted (merge_segments [] ss) (sort_keys (merge_segments [] ss))
merged-IsSorted ss =
    sort_keys-IsSorted (merge_segments [] ss)
      (merge_segments-IsMerged [] ss (record { keyed = tt; unique = tt }))

take-later :
    (n t : ℕ) (ps : List Point)
    → All (λ q. t < q.timestamp) ps
    → All (λ q. t < q.timestamp) (take n ps)
take-later zero t ps h = tt
take-later (suc n) t [] h = tt
take-later (suc n) t (p ∷ ps) h = (h.0, take-later n t ps h.1)

take-Ascending : (n : ℕ) (ps : List Point) → Ascending ps → Ascending (take n ps)
take-Ascending zero ps h = tt
take-Ascending (suc n) [] h = tt
take-Ascending (suc n) (p ∷ ps) h = (take-later n p.timestamp ps h.0, take-Ascending n ps h.1)

-- A merged history, limited or not, is in order of time, with no time twice.
pub merge_history-Ascending :
    (ss : List (List Point)) (limit : Option ℤ) → Ascending (merge_history ss limit)
unfolding merge_history limit_to
merge_history-Ascending ss none = (merged-IsSorted ss).ascending
merge_history-Ascending ss (some (negsuc n)) = (merged-IsSorted ss).ascending
merge_history-Ascending ss (some (pos n)) = take-Ascending n _ (merged-IsSorted ss).ascending

-- At each time a merged history has the point of the first segment that has one, and no other.
pub point_at-merge_history :
    (t : ℕ) (ss : List (List Point)) → point_at t (merge_history ss none) ≡ first_at t ss
unfolding merge_history limit_to
point_at-merge_history t ss =
    point_at-points_of t (sort_keys (merge_segments [] ss)) (merged-IsSorted ss).keyed
    ∙ (merged-IsSorted ss).same t
    ∙ unfold get or_else in get-merge_segments t [] ss

later-earliest :
    (bound t : ℕ) (ps : List Point)
    → (bound < earliest t ps) ↔ ((bound < t) × All (λ q. bound < q.timestamp) ps)
unfolding earliest
later-earliest bound t [] = ((λ h. (h, tt)), λ h. h.0)
later-earliest bound t (p ∷ ps) =
    let ih = later-earliest bound (if ltb p.timestamp t then p.timestamp else t) ps in
    (
      (λ h. (ground (arith, (ih.0 h).0), (ground (arith, (ih.0 h).0), (ih.0 h).1))),
      λ h. ih.1 (ground arith, h.1.1),
    )

-- A history fails to reach back to the requested start exactly when each of its points is more
-- than two intervals later than that.
pub history_covers_start-false :
    (ps : List Point) (start : ℕ) (interval : String)
    → (history_covers_start ps (some start) interval ≡ false)
      ↔ All (λ p. start + interval_seconds interval * 2 < p.timestamp) ps
unfolding history_covers_start
history_covers_start-false [] start interval = ((λ h. tt), λ h. refl)
history_covers_start-false (p ∷ ps) start interval =
    let bound : ℕ = start + interval_seconds interval * 2 in
    let e = later-earliest bound p.timestamp ps in
    (
      (λ h. e.0 (leb→lt (earliest p.timestamp ps) bound h)),
      λ h. lt→leb (earliest p.timestamp ps) bound (e.1 h),
    )
