-- ===== src/Auth/Scenarios.antt =====
-- Two keys, one known.
use quick_price.Prelude.{ℕ, ◌≡◌, refl, true, none, some, String, List, [], ◌∷◌}
use quick_price.Limiter.{Config}
use quick_price.Auth.{Settings, Limiters, Attempt}
use quick_price.Auth.Isolation.{valid_answers, only_valid, valid_answers-only_valid}

abbrev slow : Config
slow = record { ticks = 1; rate_per_minute = 6; capacity = 1; max_identities = 2; idle_ttl = 3600 }

abbrev settings : Settings ℕ
settings = record {
  enabled = true;
  key_manager = none;
  hashes = "known" ∷ [];
  hash_api_key = λ t. t;
  valid_limits = slow;
  invalid_limits = slow;
}

abbrev no_calls : Limiters
no_calls = record { valid = []; invalid = [] }

abbrev call : String → ℕ → Attempt
call raw now = record { raw_key = some raw; client_ip = "ip"; now = now }

abbrev calls : List Attempt
calls = call "guess" 0 ∷ call "known" 1 ∷ call "guess" 2 ∷ call "known" 3 ∷ []

valid_answers-only_valid_example :
    valid_answers settings no_calls calls
    ≡ valid_answers settings no_calls (only_valid settings calls)
valid_answers-only_valid_example = valid_answers-only_valid settings no_calls no_calls calls refl
