-- ===== src/Admin/Change.antt =====
-- admin_security.py, `change_account`: new credentials end every session but a new one.
-- A session object is known by its CSRF token, which is random. The account store and the two uses
-- of a slot for a password hash are in `Store`, and `meanwhile` is what other calls do between the
-- two locked parts.
use text.Mathlib.Text.{◌==◌ as str_eq}
use quick_price.Prelude.{
  ℕ, ◌+◌, Bool, false, not, ◌||◌, ◌&&◌, Option, none, some, String, [], ltb, if◌then◌else◌,
}
use quick_price.Prelude.Dict.{get}
use quick_price.Prelude.Texts.{String-discrete}
use quick_price.Admin.State.{
  Primitives, Settings, Account, Session, Security, Denial, Result, granted, denied, limits,
  session_limit, authentication_failed, not_configured, invalid_session, rate_limited,
  invalid_value, account_error,
}
use quick_price.Admin.Sessions.{agent_digest, consume_both, create_session}

-- `change_account`: the arguments, and the session's digest
pub record AccountChange : Type 0 where
  pub session : Session
  pub session_digest : String
  pub current_password : String
  pub new_username : String
  pub new_password : String
  pub client_ip : String
  pub user_agent : String
  pub epoch : ℕ
  pub now : ℕ
  pub limiter_now : ℕ
  pub raw_token : String
  pub csrf_token : String

-- What the account store and the password functions answer: the account at the first and at the
-- second reading, whether a slot is free for each hash, whether the new name and the new password
-- are valid, and the account that `replace` stores, if it does not raise.
pub record Store : Type 0 where
  pub first : Option Account
  pub second : Option Account
  pub check_busy : Bool
  pub create_busy : Bool
  pub is_username : Bool
  pub is_password : Bool
  pub replacement : Option Account

-- `_ACCOUNT_CHANGE_MAX_SESSION_AGE`
abbrev pub max_session_age : ℕ
max_session_age = 300

is_same : Option Session → Session → Bool
is_same none x = false
is_same (some y) x = str_eq y.csrf_token x.csrf_token

module _ (p : Primitives) (s : Settings) where
  -- the test that both locked parts make
  unfoldable pub is_current : Security → Option Account → AccountChange → Bool
  unfolding is_same
  is_current st none c = false
  is_current st (some a) c =
      is_same (get String-discrete c.session_digest st.sessions) c.session
      && str_eq c.session.user_agent_digest (agent_digest p s c.user_agent)
      && str_eq c.session.account_revision a.revision

  unfoldable pub rotate : Security → Option Account → AccountChange → Security × Result String
  rotate st none c = (st, denied account_error)
  rotate st (some a) c = (
    create_session p s (record st { sessions = [] }) a c.client_ip c.user_agent c.epoch c.now
        c.raw_token c.csrf_token,
    granted c.raw_token,
  )

  -- after the limiters
  unfoldable pub replace_account :
      Security → Account → Store → (Security → Security) → AccountChange → Security × Result String
  unfolding is_current rotate
  replace_account st a store meanwhile c =
      if store.check_busy
      then (st, denied (rate_limited 1))
      else if not (p.verify_password c.current_password a.password_verifier)
      then (st, denied authentication_failed)
      else if not store.is_username || str_eq c.new_password c.current_password
      then (st, denied invalid_value)
      else if store.create_busy
      then (st, denied (rate_limited 1))
      else if not store.is_password
      then (st, denied invalid_value)
      else if not (is_current (meanwhile st) store.second c)
      then (meanwhile st, denied invalid_session)
      else rotate (meanwhile st) store.replacement c

  unfoldable pub replace_unless :
      Option Denial
      → Security
      → Account
      → Store
      → (Security → Security)
      → AccountChange
      → Security × Result String
  unfolding replace_account
  replace_unless (some e) st a store meanwhile c = (st, denied e)
  replace_unless none st a store meanwhile c = replace_account st a store meanwhile c

  unfoldable pub charge_change :
      Security → Account → Store → (Security → Security) → AccountChange → Security × Result String
  unfolding replace_unless consume_both is_current
  charge_change st a store meanwhile c =
      let (one, all, refusal) =
        consume_both (limits s 5 3 session_limit) st.account_changes c.session_digest
          (limits s 30 10 1) st.all_account_changes c.limiter_now in
      if not (is_current st (some a) c)
      then (st, denied invalid_session)
      else replace_unless refusal (record st { account_changes = one; all_account_changes = all }) a
          store meanwhile c

  unfoldable pub with_account :
      Security
      → Option Account
      → Store
      → (Security → Security)
      → AccountChange
      → Security × Result String
  unfolding charge_change
  with_account st none store meanwhile c = (st, denied not_configured)
  with_account st (some a) store meanwhile c = charge_change st a store meanwhile c

  unfoldable pub change_account :
      Security → Store → (Security → Security) → AccountChange → Security × Result String
  unfolding with_account
  change_account st store meanwhile c =
      if ltb c.now c.session.created || ltb (c.session.created + max_session_age) c.now
      then (st, denied authentication_failed)
      else if not s.configured
      then (st, denied not_configured)
      else with_account st store.first store meanwhile c
