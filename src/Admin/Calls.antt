-- ===== src/Admin/Calls.antt =====
-- admin_security.py: `login`, `authorize`, `logout` and `invalidate_sessions`.
use text.Mathlib.Text.{◌==◌ as str_eq}
use quick_price.Prelude.{
  ℕ, Bool, false, not, ◌&&◌, ◌||◌, Option, none, some, String, [], leb, if◌then◌else◌,
}
use quick_price.Prelude.Dict.{get, pop}
use quick_price.Prelude.Texts.{String-discrete}
use quick_price.Admin.State.{
  denied, rate_limited, invalid_csrf, limits, Settings, granted, Login, Primitives, Account,
  Security, session_limit, not_configured, change_required, Result, AccessRequest, invalid_session,
  Denial, authentication_failed, Session,
}
use quick_price.Admin.Sessions.{
  prune, consume_both, is_fresh, touch, touch_unless, agent_digest, matching_counter,
  create_session,
}

module _ (p : Primitives) (s : Settings) where
  -- The part of `login` under the lock.
  unfoldable pub settle_login :
      Security
      → Account
      → Bool
      → Option ℕ
      → String
      → String
      → ℕ
      → ℕ
      → String
      → String
      → Security × Result String
  unfolding is_fresh create_session
  settle_login st a valid none client_ip user_agent epoch now raw csrf =
      (record st { sessions = prune s now st.sessions }, denied authentication_failed)
  settle_login st a valid (some counter) client_ip user_agent epoch now raw csrf =
      let pruned : Security = record st { sessions = prune s now st.sessions } in
      if valid && is_fresh st.last_totp_counter counter
      then (
        create_session p s (record pruned { last_totp_counter = some counter }) a client_ip
            user_agent epoch now raw csrf,
        granted raw,
      )
      else (pruned, denied authentication_failed)

  -- `login` after the limiters; `busy` says that no slot for a password check is free
  unfoldable pub check_login : Security → Option Account → Bool → Login → Security × Result String
  unfolding settle_login matching_counter
  check_login st none busy l = (st, denied not_configured)
  check_login st (some a) busy l =
      let name = if leb (p.len l.username) 64 then l.username else "" in
      if busy
      then (st, denied (rate_limited 1))
      else settle_login st a
          (str_eq name a.username && p.verify_password l.password a.password_verifier)
          (matching_counter p s l.epoch l.otp) l.client_ip l.user_agent l.epoch l.now l.raw_token
          l.csrf_token

  unfoldable pub admit_login :
      Security → Option Denial → Option Account → Bool → Login → Security × Result String
  unfolding check_login
  admit_login st (some e) account busy l = (st, denied e)
  admit_login st none account busy l = check_login st account busy l

  unfoldable pub login : Security → Option Account → Bool → Login → Security × Result String
  unfolding admit_login consume_both
  login st account busy l =
      let (ips, all, refusal) =
        consume_both (limits s 5 3 4096) st.ip_logins l.client_ip (limits s 30 10 1) st.all_logins
          l.limiter_now in
      let charged : Security = record st { ip_logins = ips; all_logins = all } in
      if not s.configured
      then (st, denied not_configured)
      else admit_login charged refusal account busy l

  unfoldable pub raw_token : Option String → String
  raw_token none = ""
  raw_token (some t) = if leb (p.len t) 256 then t else ""

  unfoldable pub is_csrf : Session → Option String → Bool
  is_csrf x none = false
  is_csrf x (some t) = not (str_eq t "") && leb (p.len t) 256 && str_eq x.csrf_token t

  -- a call that changes something is charged to its session and to all of them
  unfoldable pub touch_charged :
      Security → String → Session → AccessRequest → Security × Result Session
  unfolding consume_both touch_unless
  touch_charged st digest x r =
      let (one, all, refusal) =
        consume_both (limits s 120 20 session_limit) st.mutations digest (limits s 600 100 1)
          st.all_mutations r.limiter_now in
      touch_unless refusal (record st { mutations = one; all_mutations = all }) digest x r.now

  -- `authorize` on the session that has the digest
  unfoldable pub authorize_session :
      Security → Account → String → AccessRequest → Session → Security × Result Session
  unfolding agent_digest is_csrf touch touch_charged
  authorize_session st a digest r x =
      if not (str_eq x.user_agent_digest (agent_digest p s r.user_agent))
        || not (str_eq x.account_revision a.revision)
      then (record st { sessions = pop String-discrete digest st.sessions }, denied invalid_session)
      else if x.password_change_required && not r.allow_password_change_required
      then (st, denied change_required)
      else if r.mutation && not (is_csrf x r.csrf_token)
      then (st, denied invalid_csrf)
      else if r.mutation
      then touch_charged st digest x r
      else touch st digest x r.now

  unfoldable pub authorize_found :
      Security → Account → String → AccessRequest → Option Session → Security × Result Session
  unfolding authorize_session
  authorize_found st a digest r none =
      (record st { sessions = pop String-discrete digest st.sessions }, denied invalid_session)
  authorize_found st a digest r (some x) = authorize_session st a digest r x

  unfoldable pub authorize_account :
      Security → Option Account → AccessRequest → Security × Result Session
  unfolding authorize_found raw_token
  authorize_account st none r = (st, denied not_configured)
  authorize_account st (some a) r =
      let pruned : Security = record st { sessions = prune s r.now st.sessions } in
      let digest = p.sha256 (raw_token r.session_token) in
      authorize_found pruned a digest r (get String-discrete digest pruned.sessions)

  unfoldable pub authorize : Security → Option Account → AccessRequest → Security × Result Session
  unfolding authorize_account
  authorize st account r =
      if not s.configured then (st, denied not_configured) else authorize_account st account r

  unfoldable pub logout : Security → Option String → Security
  logout st none = record st { sessions = pop String-discrete (p.sha256 "") st.sessions }
  logout st (some t) = record st { sessions = pop String-discrete (p.sha256 t) st.sessions }

unfoldable pub invalidate_sessions : Security → Security
invalidate_sessions st = record st { sessions = [] }
