-- ===== src/ApiKeys/Start.antt =====
-- api_keys.py, `ApiKeyManager.start`: the keys that the storage holds, after those of the settings
-- are put there once.
use Prim.Native.String as Native
use quick_price.Prelude.{ℕ, Bool, true, false, Option, none, some, String, List, [], ◌∷◌}
use quick_price.ApiKeys.{Texts, Key, unavailable, failed, Result, ok, err, ◌>>=◌, checked_key}
use quick_price.ApiKeys.Manager.{Manager, Outcome}

-- the record of the legacy hash with an index, as text
legacy_key : Texts → ℕ → String × String × String → Result Key
unfolding checked_key
legacy_key x now (key_id, index, digest) = checked_key x (record {
  key_id = key_id;
  name = Native.◌++◌ "Legacy API key " index;
  key_hash = digest;
  key_hint = some (Native.◌++◌ "legacy-" index);
  created_at = now;
  updated_at = now;
  expires_at = none;
  revoked_at = none;
  origin = "legacy";
})

legacy_keys : Texts → ℕ → List (String × String × String) → Result (List Key)
unfolding legacy_key
legacy_keys x now [] = ok []
legacy_keys x now (d ∷ ds) = legacy_key x now d >>= λ k. legacy_keys x now ds >>= λ ks. ok (k ∷ ks)

reload : Manager → Option (List Key) → Outcome
reload m none = (m, err unavailable)
reload m (some keys) = (record { keys = keys; is_available = true }, ok keys)

bootstrap : Manager → Result (List Key) → Option ℕ → Option (List Key) → Outcome
unfolding reload
bootstrap m (err e) write loaded = (m, err e)
bootstrap m (ok legacy) (some e) loaded = (m, err (failed e))
bootstrap m (ok legacy) none loaded = reload m loaded

-- `start`, on a storage that answers whether the legacy keys are in it
unfoldable pub start :
    Texts
    → Manager
    → Bool
    → Bool
    → ℕ
    → List (String × String × String)
    → Option ℕ
    → Option (List Key)
    → Outcome
unfolding bootstrap legacy_keys
start x m false complete now legacy write loaded = (m, err unavailable)
start x m true true now legacy write loaded = reload m loaded
start x m true false now legacy write loaded = bootstrap m (legacy_keys x now legacy) write loaded
