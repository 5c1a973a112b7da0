-- ===== src/Snapshots/Latest.antt =====
-- cache.py, `SnapshotStore`: the shards are one map from symbols to their latest snapshots.
use native.Mathlib.Nat.{mod-lt}
use quick_price.Prelude.{
  ℕ, zero, suc, ◌%◌, ◌<◌, ◌≡◌, ◌≢◌, refl, ap, ◌∙◌, inl, inr, true, false, Option, none, some, List,
  [], ◌∷◌, ltb, if◌then◌else◌, length, arith, ite, if_pos, if_neg, Option-cases, Bool-cases,
  ℕ_discrete,
}
use quick_price.Prelude.Dict.{get, put, get-put}
use quick_price.Snapshots.{
  Snapshot, Shard, empty_shards, new, shard_index, shard_at, set_shard, is_older, publish,
  get_snapshot,
}

module _ {K : Type 0} where
  length-set_shard :
      (ss : List (Shard K)) (i : ℕ) (s : Shard K) → length (set_shard ss i s) ≡ length ss
  unfolding set_shard
  length-set_shard [] i s = refl
  length-set_shard (t ∷ ss) zero s = refl
  length-set_shard (t ∷ ss) (suc i) s = ap suc (length-set_shard ss i s)

  shard_at-set_self :
      (ss : List (Shard K)) (i : ℕ) (s : Shard K)
      → i < length ss
      → shard_at (set_shard ss i s) i ≡ s
  unfolding shard_at set_shard
  shard_at-set_self [] i s h = absurd (omega arith)
  shard_at-set_self (t ∷ ss) zero s h = refl
  shard_at-set_self (t ∷ ss) (suc i) s h = shard_at-set_self ss i s (omega arith)

  shard_at-set_ne :
      (ss : List (Shard K)) (i j : ℕ) (s : Shard K)
      → i ≢ j
      → shard_at (set_shard ss i s) j ≡ shard_at ss j
  unfolding shard_at set_shard
  shard_at-set_ne [] i j s h = refl
  shard_at-set_ne (t ∷ ss) zero zero s h = absurd (h refl)
  shard_at-set_ne (t ∷ ss) zero (suc j) s h = refl
  shard_at-set_ne (t ∷ ss) (suc i) zero s h = refl
  shard_at-set_ne (t ∷ ss) (suc i) (suc j) s h = shard_at-set_ne ss i j s (λ e. h (ap suc e))

  -- What is kept of two snapshots of one symbol: the newer, and the later published of equals.
  abbrev pub newer : Snapshot K → Option (Snapshot K) → Snapshot K
  newer s none = s
  newer s (some current) = if ltb s.as_of current.as_of then current else s

module _ {K : Type 0} (dec : Discrete K) (hash : K → ℕ) where
  -- The snapshot of a symbol after its shard is written.
  get-written :
      (shards : List (Shard K)) (s : Snapshot K) (k : K)
      → 0 < length shards
      → get_snapshot dec hash
          (set_shard shards
            (shard_index dec hash shards s.symbol)
            (put dec s.symbol s (shard_at shards (shard_index dec hash shards s.symbol))))
          k
        ≡ ite (dec s.symbol k) (some s) (get_snapshot dec hash shards k)
  unfolding get_snapshot shard_index
  get-written shards s k h =
      let i : ℕ = hash s.symbol % length shards in
      let within : i < length shards = mod-lt (hash s.symbol) h in
      rw (length-set_shard shards i _) (elim (ℕ_discrete i (hash k % length shards)) [
        | yes e ↦ rw (← e) (
            rw (shard_at-set_self shards i _ within) (get-put dec s.symbol k s (shard_at shards i)))
        | no e ↦ rw (shard_at-set_ne shards i (hash k % length shards) _ e) (elim (dec s.symbol k) [
          | yes p ↦ absurd (e (ap (λ x. hash x % length shards) p))
          | no p ↦ rw (if_neg _ p)
        ])
      ])

  get_snapshot-publish_none :
      (shards : List (Shard K)) (s : Snapshot K) (k : K)
      → 0 < length shards
      → is_older s (get_snapshot dec hash shards s.symbol) ≡ false
      → get_snapshot dec hash (publish dec hash shards s) k
        ≡ ite (dec s.symbol k) (some s) (get_snapshot dec hash shards k)
  unfolding publish get_snapshot
  get_snapshot-publish_none shards s k h e = rw (e, publish) (get-written shards s k h)

  publish_older :
      (shards : List (Shard K)) (s : Snapshot K)
      → is_older s (get_snapshot dec hash shards s.symbol) ≡ true
      → publish dec hash shards s ≡ shards
  unfolding publish get_snapshot
  publish_older shards s e = rw (e, publish)

  -- Publishing puts the newer of the two snapshots at its symbol, whatever the shards, and leaves
  -- every other symbol's snapshot alone.
  pub get_snapshot-publish :
      (shards : List (Shard K)) (s : Snapshot K) (k : K)
      → 0 < length shards
      → get_snapshot dec hash (publish dec hash shards s) k
        ≡ ite
            (dec s.symbol k)
            (some (newer s (get_snapshot dec hash shards s.symbol)))
            (get_snapshot dec hash shards k)
  unfolding is_older
  get_snapshot-publish shards s k h = elim (Option-cases (get_snapshot dec hash shards s.symbol)) [
    | inl e ↦ rw (get_snapshot-publish_none shards s k h (rw e), e)
    | inr (c, e) ↦ elim (Bool-cases (ltb s.as_of c.as_of)) [
      | inr b ↦ rw (get_snapshot-publish_none shards s k h (rw (e, b)), e) (rw b)
      | inl b ↦
          rw (publish_older shards s (rw (e, b)), e)
            (rw b (elim (dec s.symbol k) [
              | yes p ↦ ground (arith, ap (λ x. get_snapshot dec hash shards x) p)
              | no p ↦ ground arith
            ]))
    ]
  ]

  length-publish :
      (shards : List (Shard K)) (s : Snapshot K)
      → length (publish dec hash shards s) ≡ length shards
  unfolding publish
  length-publish shards s = elim (Bool-cases (is_older s (get_snapshot dec hash shards s.symbol))) [
    | inl e ↦ ap length (publish_older shards s e)
    | inr e ↦ unfold get_snapshot in rw (e, publish) (length-set_shard shards _ _)
  ]

  unfoldable pub publish_each : List (Shard K) → List (Snapshot K) → List (Shard K)
  publish_each shards [] = shards
  publish_each shards (s ∷ ss) = publish_each (publish dec hash shards s) ss

  -- What one symbol keeps of a sequence of snapshots.
  unfoldable pub latest : K → Option (Snapshot K) → List (Snapshot K) → Option (Snapshot K)
  latest k current [] = current
  latest k current (s ∷ ss) = latest k (ite (dec s.symbol k) (some (newer s current)) current) ss

  get_snapshot-each :
      (shards : List (Shard K)) (ss : List (Snapshot K)) (k : K)
      → 0 < length shards
      → get_snapshot dec hash (publish_each shards ss) k
        ≡ latest k (get_snapshot dec hash shards k) ss
  unfolding publish_each latest
  get_snapshot-each shards [] k h = refl
  get_snapshot-each shards (s ∷ ss) k h =
      get_snapshot-each (publish dec hash shards s) ss k (rw length-publish h)
      ∙ ap (λ o. latest k o ss)
          (get_snapshot-publish shards s k h ∙ elim (dec s.symbol k) [
            | yes p ↦ rw (if_pos _ p) (rw (if_pos _ p) (rw p))
            | no p ↦ rw (if_neg _ p) (rw (if_neg _ p))
          ])

  shard_at-empty : (n i : ℕ) → shard_at (empty_shards {K = K} n) i ≡ []
  unfolding shard_at empty_shards
  shard_at-empty zero i = refl
  shard_at-empty (suc n) zero = refl
  shard_at-empty (suc n) (suc i) = shard_at-empty n i

  length-empty : (n : ℕ) → length (empty_shards {K = K} n) ≡ n
  unfolding empty_shards
  length-empty zero = refl
  length-empty (suc n) = ap suc (length-empty n)

  new-shards :
      (n : ℕ) (shards : List (Shard K)) → new n ≡ some shards → (0 < n) × (shards ≡ empty_shards n)
  unfolding new
  new-shards n shards h = ground arith

  -- A new store of any number of shards, after any publications, has of each symbol the snapshot
  -- that no earlier one of them is newer than and no later one is as new as.
  pub get_snapshot-latest :
      (shard_count : ℕ) (shards : List (Shard K)) (ss : List (Snapshot K)) (k : K)
      → new shard_count ≡ some shards
      → get_snapshot dec hash (publish_each shards ss) k ≡ latest k none ss
  get_snapshot-latest n shards ss k h =
      let (some_shard, fresh) = new-shards n shards h in
      rw fresh (
        get_snapshot-each (empty_shards n) ss k (rw length-empty some_shard)
        ∙ ap (λ o. latest k o ss) (unfold get_snapshot in rw shard_at-empty (unfold get in refl)))
