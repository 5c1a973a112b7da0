-- ===== src/Snapshots/Scenarios.antt =====
-- Publications to a store of two shards.
use quick_price.Prelude.{ℕ, ◌≡◌, refl, some, List, [], ◌∷◌, ℕ_discrete}
use quick_price.Snapshots.{Snapshot, new, empty_shards, get_snapshot}
use quick_price.Snapshots.Latest.{publish_each, latest, get_snapshot-latest}

abbrev shot : ℕ → ℕ → ℕ → Snapshot ℕ
shot symbol as_of content = record { symbol = symbol; as_of = as_of; content = content }

abbrev feed : List (Snapshot ℕ)
feed = shot 1 10 100 ∷ shot 3 11 300 ∷ shot 1 9 101 ∷ shot 1 10 102 ∷ []

get_snapshot-latest_example :
    get_snapshot ℕ_discrete (λ k. k) (publish_each ℕ_discrete (λ k. k) ([] ∷ [] ∷ []) feed) 1
    ≡ some (shot 1 10 102)
unfolding new empty_shards latest ℕ_discrete
get_snapshot-latest_example = get_snapshot-latest ℕ_discrete (λ k. k) 2 ([] ∷ [] ∷ []) feed 1 refl
