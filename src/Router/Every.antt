-- ===== src/Router/Every.antt =====
-- providers/router.py, `_merge_history`: no point is in the result that no segment holds.
use quick_price.Prelude.{
  ℕ, zero, suc, inl, inr, Option, none, some, List, [], ◌∷◌, map, All, take, leb, ℕ_discrete,
  Bool-cases, Option-cases, if_pos, if_neg,
}
use quick_price.Prelude.Int.{ℤ, pos, negsuc}
use quick_price.Prelude.Dict.{Dict, get, put}
use quick_price.Router.Segments.{
  Point, set_default, merge_segment, merge_segments, insert_key, sort_keys, limit_to, merge_history,
}

-- A property of points that all segments have is one that the merged history has.
module _ (P : Point → Type 0) where
  abbrev Each : Dict ℕ Point → Type 0
  Each d = All (λ e. P e.1) d

  put-Each : (k : ℕ) (p : Point) (m : Dict ℕ Point) → P p → Each m → Each (put ℕ_discrete k p m)
  unfolding put
  put-Each k p [] h hs = (h, tt)
  put-Each k p ((j, q) ∷ m) h hs = elim (ℕ_discrete j k) [
    | yes e ↦ rw (if_pos _ e) (h, hs.1)
    | no e ↦ rw (if_neg _ e) (hs.0, put-Each k p m h hs.1)
  ]

  set_default-Each : (m : Dict ℕ Point) (p : Point) → P p → Each m → Each (set_default m p)
  unfolding set_default
  set_default-Each m p h hs = elim (Option-cases (get ℕ_discrete p.timestamp m)) [
    | inl e ↦ rw (e, set_default) (put-Each p.timestamp p m h hs)
    | inr (q, e) ↦ rw (e, set_default) hs
  ]

  merge_segment-Each :
      (m : Dict ℕ Point) (ps : List Point) → All P ps → Each m → Each (merge_segment m ps)
  unfolding merge_segment
  merge_segment-Each m [] h hs = hs
  merge_segment-Each m (p ∷ ps) h hs =
      merge_segment-Each (set_default m p) ps h.1 (set_default-Each m p h.0 hs)

  merge_segments-Each :
      (m : Dict ℕ Point) (ss : List (List Point))
      → All (All P) ss
      → Each m
      → Each (merge_segments m ss)
  unfolding merge_segments
  merge_segments-Each m [] h hs = hs
  merge_segments-Each m (s ∷ ss) h hs =
      merge_segments-Each (merge_segment m s) ss h.1 (merge_segment-Each m s h.0 hs)

  insert_key-Each : (k : ℕ) (p : Point) (d : Dict ℕ Point) → P p → Each d → Each (insert_key k p d)
  unfolding insert_key
  insert_key-Each k p [] h hs = (h, tt)
  insert_key-Each k p ((j, q) ∷ d) h hs = elim (Bool-cases (leb k j)) [
    | inl b ↦ rw b (h, hs)
    | inr b ↦ rw b (hs.0, insert_key-Each k p d h hs.1)
  ]

  sort_keys-All : (d : Dict ℕ Point) → Each d → Each (sort_keys d)
  unfolding sort_keys
  sort_keys-All [] hs = tt
  sort_keys-All ((k, p) ∷ d) hs = insert_key-Each k p (sort_keys d) hs.0 (sort_keys-All d hs.1)

  All-values : (d : Dict ℕ Point) → Each d → All P (map (λ e. e.1) d)
  All-values [] hs = tt
  All-values (e ∷ d) hs = (hs.0, All-values d hs.1)

  All-take : (n : ℕ) (ps : List Point) → All P ps → All P (take n ps)
  All-take zero ps h = tt
  All-take (suc n) [] h = tt
  All-take (suc n) (p ∷ ps) h = (h.0, All-take n ps h.1)

  All-limit_to : (limit : Option ℤ) (ps : List Point) → All P ps → All P (limit_to limit ps)
  unfolding limit_to
  All-limit_to none ps h = h
  All-limit_to (some (negsuc n)) ps h = h
  All-limit_to (some (pos n)) ps h = All-take n ps h

  pub All-merge_history :
      (ss : List (List Point)) (limit : Option ℤ) → All (All P) ss → All P (merge_history ss limit)
  unfolding merge_history
  All-merge_history ss limit h =
      All-limit_to limit (map (λ e. e.1) (sort_keys (merge_segments [] ss))) (
        All-values (sort_keys (merge_segments [] ss))
          (sort_keys-All (merge_segments [] ss) (merge_segments-Each [] ss h tt)))
