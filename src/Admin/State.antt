-- ===== src/Admin/State.antt =====
-- admin_security.py, class `AdminSecurity`: the administrator's logins and sessions.
-- The account comes from the account store, as it was when the call read it. Hashes, one-time
-- codes, the password check, Python's tests on texts and slices of them are the parameter
-- `Primitives`; random tokens are arguments, and so is each clock: seconds of the epoch, those of
-- the sessions, and that of the limiters. The epoch is past its first 30 seconds.
use quick_price.Prelude.{ℕ, ◌*◌, Bool, Option, String}
use quick_price.Prelude.Dict.{Dict}
use quick_price.Limiter.{Bucket, Config}

pub record Primitives : Type 0 where
  pub len : String → ℕ
  pub first_1024 : String → String
  pub is_six_digits : String → Bool
  pub sha256 : String → String
  pub totp_code : ℕ → String
  pub verify_password : String → String → Bool

pub record Settings : Type 0 where
  pub configured : Bool
  pub idle_seconds : ℕ
  pub absolute_seconds : ℕ
  pub ticks : ℕ

pub record Account : Type 0 where
  pub username : String
  pub password_verifier : String
  pub password_change_required : Bool
  pub revision : String

-- `AdminSession`; its digest is its key
pub record Session : Type 0 where
  pub csrf_token : String
  pub user_agent_digest : String
  pub created : ℕ
  pub last_seen : ℕ
  pub absolute_expires : ℕ
  pub created_at_epoch : ℕ
  pub client_ip : String
  pub username : String
  pub account_revision : String
  pub password_change_required : Bool

-- The arguments of `login`: `now` is the clock of the sessions, and the last two the random tokens.
pub record Login : Type 0 where
  pub username : String
  pub password : String
  pub otp : String
  pub client_ip : String
  pub user_agent : String
  pub epoch : ℕ
  pub now : ℕ
  pub limiter_now : ℕ
  pub raw_token : String
  pub csrf_token : String

-- The arguments of `authorize`.
pub record AccessRequest : Type 0 where
  pub session_token : Option String
  pub user_agent : String
  pub csrf_token : Option String
  pub mutation : Bool
  pub allow_password_change_required : Bool
  pub now : ℕ
  pub limiter_now : ℕ

-- The counter of the last accepted code is `none` where the source has -1.
pub record Security : Type 0 where
  pub sessions : Dict String Session
  pub last_totp_counter : Option ℕ
  pub ip_logins : Dict String Bucket
  pub all_logins : Dict String Bucket
  pub mutations : Dict String Bucket
  pub all_mutations : Dict String Bucket
  pub account_changes : Dict String Bucket
  pub all_account_changes : Dict String Bucket

pub data Denial : Type 0 where
  not_configured authentication_failed invalid_session change_required invalid_csrf : Denial
  rate_limited : ℕ → Denial
  invalid_value account_error : Denial
  crashed : Denial

pub data Result {ℓ} (A : Type ℓ) : Type ℓ where
  granted : A → Result A
  denied : Denial → Result A

abbrev pub session_limit : ℕ
session_limit = 64

abbrev pub limits : Settings → ℕ → ℕ → ℕ → Config
limits s rate_per_minute capacity max_identities = record {
  ticks = s.ticks;
  rate_per_minute = rate_per_minute;
  capacity = capacity;
  max_identities = max_identities;
  idle_ttl = 3600 * s.ticks;
}
