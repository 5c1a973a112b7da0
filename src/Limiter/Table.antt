-- ===== src/Limiter/Table.antt =====
-- auth.py, `TokenBucketLimiter`: the table of buckets stays bounded, free of duplicates and fresh.
use quick_price.Prelude.{
  ℕ, ◌+◌, ◌≤◌, ◌<◌, ◌≡◌, refl, ◌⊎◌, inl, inr, none, some, [], ◌∷◌, arith, ap, if_pos, if_neg, leb,
  length, length-append, Option-cases, Bool-cases,
}
use quick_price.Prelude.Dict.{
  Dict, get, Unique, append_new-Unique, pop-Unique, get-pop_self, length-pop_found,
}
use quick_price.Limiter.{Bucket, Config, charge, drop_stale, make_room, find_bucket, consume}

module _ {K : Type 0} (dec : Discrete K) (c : Config) where
  drop_stale-Unique :
      (now : ℕ) (l : Dict K Bucket) → Unique dec l → Unique dec (drop_stale dec c now l)
  unfolding drop_stale
  drop_stale-Unique now [] u = tt
  drop_stale-Unique now ((k, b) ∷ l) u = elim (Bool-cases (leb now (b.updated_at + c.idle_ttl))) [
    | inl e ↦ rw e u
    | inr e ↦ rw e (drop_stale-Unique now l u.1)
  ]

  length-drop_stale-le : (now : ℕ) (l : Dict K Bucket) → length (drop_stale dec c now l) ≤ length l
  unfolding drop_stale
  length-drop_stale-le now [] = omega arith
  length-drop_stale-le now ((k, b) ∷ l) = ground (arith, length-drop_stale-le now l)

  -- A bucket is kept, or it was idle for longer than the TTL.
  pub get-drop_stale :
      (now : ℕ) (j : K) (l : Dict K Bucket)
      → Unique dec l
      → (get dec j (drop_stale dec c now l) ≡ get dec j l)
        ⊎ ((b : Bucket) × (get dec j l ≡ some b)
            × (b.updated_at + c.idle_ttl < now)
            × (get dec j (drop_stale dec c now l) ≡ none))
  unfolding drop_stale get
  get-drop_stale now j [] u = inl refl
  get-drop_stale now j ((k, b) ∷ l) u = elim (Bool-cases (leb now (b.updated_at + c.idle_ttl))) [
    | inl e ↦ rw e (inl refl)
    | inr e ↦ rw e (elim (dec k j) [
      | yes q ↦ inr (
        b,
        rw (if_pos _ q),
        ground arith,
        ground (arith, get-drop_stale now j l u.1, ap (λ i. get dec i l) q),
      )
      | no q ↦ rw (if_neg _ q) (get-drop_stale now j l u.1)
    ])
  ]

  make_room-Unique : (l : Dict K Bucket) → Unique dec l → Unique dec (make_room dec c l)
  unfolding make_room
  make_room-Unique [] u = tt
  make_room-Unique (e ∷ l) u = elim (Bool-cases (leb c.max_identities (length (e ∷ l)))) [
    | inl p ↦ rw p u.1
    | inr p ↦ rw p u
  ]

  make_room_lem :
      (k : K) (l : Dict K Bucket)
      → get dec k l ≡ none
      → 0 < c.max_identities
      → length l ≤ c.max_identities
      → (get dec k (make_room dec c l) ≡ none) × (length (make_room dec c l) < c.max_identities)
  unfolding make_room get
  make_room_lem k [] h p q = (refl, p)
  make_room_lem k (e ∷ l) h p q = ground arith

  -- The identity's entry is out of the table while its bucket is charged, and there is room.
  find_bucket_lem :
      (l : Dict K Bucket) (k : K) (now : ℕ)
      → Unique dec l
      → 0 < c.max_identities
      → length l ≤ c.max_identities
      → Unique dec (find_bucket dec c l k now).0
        × (get dec k (find_bucket dec c l k now).0 ≡ none)
        × (length (find_bucket dec c l k now).0 < c.max_identities)
  unfolding find_bucket
  find_bucket_lem l k now u p h = elim (Option-cases (get dec k l)) [
    | inl e ↦
        rw (e, find_bucket)
          (make_room-Unique l u, (make_room_lem k l e p h).0, (make_room_lem k l e p h).1)
    | inr (b, e) ↦
        rw (e, find_bucket)
          (pop-Unique dec k l u, get-pop_self dec k l, omega (arith, length-pop_found dec k b l e))
  ]

  -- The table of a limiter: no identity twice, and no more than allowed.
  pub record IsTable (l : Dict K Bucket) : Type 0 where
    pub unique : Unique dec l
    pub bounded : length l ≤ c.max_identities

  pub consume-IsTable :
      (l : Dict K Bucket) (k : K) (now : ℕ)
      → 0 < c.max_identities
      → IsTable l
      → IsTable (consume dec c l k now).0
  unfolding consume
  consume-IsTable l k now p t =
      let live : Dict K Bucket = drop_stale dec c now l in
      let kept : length live ≤ c.max_identities =
        omega (arith, length-drop_stale-le now l, t.bounded) in
      let (u, absent, room) =
        find_bucket_lem live k now (drop_stale-Unique now l t.unique) p kept in
      record {
        unique = append_new-Unique dec k _ (find_bucket dec c live k now).0 absent u;
        bounded = omega (
          arith,
          length-append (find_bucket dec c live k now).0
              ((k, (charge c (find_bucket dec c live k now).1 now).0) ∷ []),
        );
      }
