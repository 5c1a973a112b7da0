-- ===== src/Snapshots.antt =====
-- cache.py, class `SnapshotStore`: the latest snapshot of each symbol, in shards by hash.
-- Each method holds the lock of a shard while it works there. Python's `hash` of a text is the
-- parameter `hash`; `as_of` is a natural number, and the rest of a snapshot an opaque number.
pub mod Latest
mod Scenarios
use quick_price.Prelude.{
  ℕ, zero, suc, ◌+◌, ◌%◌, Bool, true, false, not, Option, none, some, List, [], ◌∷◌, ltb, ◌==◌,
  if◌then◌else◌, length,
}
use quick_price.Prelude.Dict.{Dict, get, put, pop}

pub record Snapshot (K : Type 0) : Type 0 where
  pub symbol : K
  pub as_of : ℕ
  pub content : ℕ

abbrev pub Shard : Type 0 → Type 0
Shard K = Dict K (Snapshot K)

module _ {K : Type 0} where
  -- `tuple({} for _ in range(shard_count))`
  unfoldable pub empty_shards : ℕ → List (Shard K)
  empty_shards zero = []
  empty_shards (suc n) = [] ∷ empty_shards n

  -- `none` is `ValueError("snapshot shard count must be positive")`
  unfoldable pub new : ℕ → Option (List (Shard K))
  new shard_count = if shard_count == 0 then none else some (empty_shards shard_count)

  unfoldable pub shard_at : List (Shard K) → ℕ → Shard K
  shard_at [] i = []
  shard_at (s ∷ ss) zero = s
  shard_at (s ∷ ss) (suc i) = shard_at ss i

  unfoldable pub set_shard : List (Shard K) → ℕ → Shard K → List (Shard K)
  set_shard [] i s = []
  set_shard (t ∷ ss) zero s = s ∷ ss
  set_shard (t ∷ ss) (suc i) s = t ∷ set_shard ss i s

  -- `current is not None and snapshot.quote.as_of < current.quote.as_of`
  unfoldable pub is_older : Snapshot K → Option (Snapshot K) → Bool
  is_older s none = false
  is_older s (some current) = ltb s.as_of current.as_of

  -- `retain_symbols`: what stays of a shard, and how many symbols go
  unfoldable pub retain_shard : (K → Bool) → Shard K → Shard K × ℕ
  retain_shard retained [] = ([], 0)
  retain_shard retained ((k, s) ∷ rest) =
      let (kept, removed) = retain_shard retained rest in
      if retained k then ((k, s) ∷ kept, removed) else (kept, suc removed)

  unfoldable pub retain_symbols : (K → Bool) → List (Shard K) → List (Shard K) × ℕ
  retain_symbols retained [] = ([], 0)
  retain_symbols retained (s ∷ ss) =
      let (kept, removed) = retain_shard retained s in
      let (rest, more) = retain_symbols retained ss in (kept ∷ rest, removed + more)

module _ {K : Type 0} (dec : Discrete K) (hash : K → ℕ) where
  unfoldable pub shard_index : List (Shard K) → K → ℕ
  shard_index shards symbol = hash symbol % length shards

  unfoldable pub publish : List (Shard K) → Snapshot K → List (Shard K)
  unfolding is_older
  publish shards s =
      let index = shard_index shards s.symbol in
      let shard = shard_at shards index in
      if is_older s (get dec s.symbol shard)
      then shards
      else set_shard shards index (put dec s.symbol s shard)

  unfoldable pub get_snapshot : List (Shard K) → K → Option (Snapshot K)
  get_snapshot shards symbol = get dec symbol (shard_at shards (shard_index shards symbol))

  -- `combined.update(shard)`
  unfoldable pub update_all : Dict K (Snapshot K) → Shard K → Dict K (Snapshot K)
  update_all combined [] = combined
  update_all combined ((k, s) ∷ rest) = update_all (put dec k s combined) rest

  unfoldable pub all_snapshots : Dict K (Snapshot K) → List (Shard K) → Dict K (Snapshot K)
  unfolding update_all
  all_snapshots combined [] = combined
  all_snapshots combined (s ∷ ss) = all_snapshots (update_all combined s) ss

  unfoldable pub publish_all : List (Shard K) → Dict K (Snapshot K) → List (Shard K)
  publish_all shards [] = shards
  publish_all shards ((k, s) ∷ rest) = publish_all (publish shards s) rest

  unfoldable pub clone : List (Shard K) → List (Shard K)
  unfolding publish_all all_snapshots
  clone shards = publish_all (empty_shards (length shards)) (all_snapshots [] shards)
