-- ===== src/Auth.antt =====
-- auth.py, class `Authenticator`: API keys and the two limiters, one for keys that match and one for
-- addresses that present others. The hash of a key and the key manager, which finds the context of a
-- digest, are parameters; each call reads the limiters' clock once.
pub mod Isolation
mod Scenarios
use text.Mathlib.Text.{◌==◌ as str_eq}
use quick_price.Prelude.{
  ℕ, max, Bool, true, false, not, ◌||◌, Option, none, some, String, List, [], ◌∷◌, if◌then◌else◌,
}
use quick_price.Prelude.Dict.{Dict}
use quick_price.Prelude.Texts.{String-discrete}
use quick_price.Limiter.{Bucket, Config, Verdict, accepted, limited, zero_division, consume}

pub record Settings (C : Type 0) : Type 0 where
  pub enabled : Bool
  pub key_manager : Option (String → Option C)
  pub hashes : List String
  pub hash_api_key : String → String
  pub valid_limits : Config
  pub invalid_limits : Config

pub record Limiters : Type 0 where
  pub valid : Dict String Bucket
  pub invalid : Dict String Bucket

pub record Attempt : Type 0 where
  pub raw_key : Option String
  pub client_ip : String
  pub now : ℕ

-- `AuthenticationError`, `RateLimitError` and the division by a rate of 0, or what is returned: the
-- context that the key manager found, or else the digest.
pub data Answer (C : Type 0) : Type 0 where
  context : C → Answer C
  key : String → Answer C
  invalid_key : Answer C
  rate_limited : ℕ → Answer C
  crashed : Answer C

abbrev no_key : String
no_key = "sha256:0000000000000000000000000000000000000000000000000000000000000000"

module _ {C : Type 0} (s : Settings C) where
  unfoldable pub candidate : Option String → String
  candidate none = no_key
  candidate (some raw) = if str_eq raw "" then no_key else s.hash_api_key raw

  unfoldable pub any_equal : String → Bool → List String → Bool
  any_equal digest matched [] = matched
  any_equal digest matched (h ∷ hs) = any_equal digest (str_eq digest h || matched) hs

  answer_of : Option C → String → Option (Answer C)
  answer_of none digest = none
  answer_of (some c) digest = some (context c)

  from_hashes : String → Bool → Option (Answer C)
  from_hashes digest true = some (key digest)
  from_hashes digest false = none

  find : Option (String → Option C) → String → Option (Answer C)
  unfolding answer_of from_hashes any_equal
  find (some manager) digest = answer_of (manager digest) digest
  find none digest = from_hashes digest (any_equal digest false s.hashes)

  -- what a key that matches is answered, if no limit is met
  unfoldable pub matched : Attempt → Option (Answer C)
  unfolding find candidate
  matched a = find s.key_manager (candidate a.raw_key)

  -- the answer unless the limiter raises
  unfoldable pub unless_limited : Verdict → Answer C → Answer C
  unless_limited accepted r = r
  unless_limited (limited n) r = rate_limited n
  unless_limited zero_division r = crashed

  unfoldable pub charge_invalid : Limiters → Attempt → Limiters × Answer C
  unfolding unless_limited
  charge_invalid st a =
      let (table, v) = consume String-discrete s.invalid_limits st.invalid a.client_ip a.now in
      if s.enabled
      then (record st { invalid = table }, unless_limited v invalid_key)
      else (st, invalid_key)

  unfoldable pub charge_valid : Limiters → Attempt → Answer C → Limiters × Answer C
  unfolding unless_limited candidate
  charge_valid st a r =
      let (table, v) =
        consume String-discrete s.valid_limits st.valid (candidate a.raw_key) a.now in
      if s.enabled then (record st { valid = table }, unless_limited v r) else (st, r)

  unfoldable pub authenticate_as : Limiters → Attempt → Option (Answer C) → Limiters × Answer C
  unfolding charge_invalid charge_valid
  authenticate_as st a none = charge_invalid st a
  authenticate_as st a (some r) = charge_valid st a r

  unfoldable pub authenticate : Limiters → Attempt → Limiters × Answer C
  unfolding authenticate_as matched
  authenticate st a = authenticate_as st a (matched a)
