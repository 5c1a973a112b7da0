-- ===== src/TtlCache/Scenarios.antt =====
-- Runs of a cache of quotes by symbol, in seconds.
use quick_price.Prelude.{ℕ, ◌≡◌, refl, none, some, List, [], ◌∷◌, ℕ_discrete}
use quick_price.Prelude.Dict.{Dict, get, put}
use quick_price.TtlCache.{Entry, value, failed, fresh, store, locked}
use quick_price.TtlCache.Spacing.{Turn, Spaced, load_times, load_times-Spaced}

abbrev empty : Dict ℕ (Entry ℕ ℕ)
empty = []

-- an entry of key 7 that expires at 50
abbrev warm : Dict ℕ (Entry ℕ ℕ)
warm = (7, record { expires_at = 50; value = some 3; error = none }) ∷ []

abbrev turns : List (Turn ℕ ℕ)
turns =
    record { at = 100; loaded = value 1 }
    ∷ record { at = 130; loaded = value 2 }
    ∷ record { at = 160; loaded = failed 3 }
    ∷ record { at = 166; loaded = value 4 }
    ∷ []

load_times-Spaced_example : Spaced 5 0 (load_times ℕ_discrete 7 60 5 warm turns)
load_times-Spaced_example =
    load_times-Spaced ℕ_discrete 7 60 5 warm turns
      ((λ e. cc), ((λ e. cc), ((λ e. cc), ((λ e. cc), tt))))

load_times-turns : load_times ℕ_discrete 7 60 5 warm turns ≡ 100 ∷ 160 ∷ 166 ∷ []
unfolding load_times locked fresh get put ℕ_discrete store
load_times-turns = refl
