-- ===== src/Admin/Endings.antt =====
-- admin_security.py: a session that was logged out.
use quick_price.Prelude.{
  ℕ, ◌≡◌, refl, ap, Bool, true, false, not, Option, none, some, String, leb, if◌then◌else◌, arith,
}
use quick_price.Prelude.Dict.{Dict, get, pop, get-pop_self}
use quick_price.Prelude.Texts.{String-discrete}
use quick_price.Admin.State.{
  Primitives, Settings, Account, Session, Security, Denial, Result, denied, AccessRequest,
  not_configured, invalid_session,
}
use quick_price.Admin.Sessions.{prune}
use quick_price.Admin.Calls.{raw_token, authorize_found, authorize_account, authorize, logout}
use quick_price.Admin.Access.{prune-none}

module _ (p : Primitives) (s : Settings) where
  found-none :
      (st : Security) (a : Account) (digest : String) (r : AccessRequest) (o : Option Session)
      → o ≡ none
      → (authorize_found p s st a digest r o).1 ≡ denied invalid_session
  unfolding authorize_found
  found-none st a digest r none h = refl
  found-none st a digest r (some x) h = absurd (cc h)

  raw_token-eq :
      (o : Option String) (t : String) → o ≡ some t → leb (p.len t) 256 ≡ true → raw_token p s o ≡ t
  unfolding raw_token
  raw_token-eq o t e l = ground arith

  if_configured :
      (b : Bool) (st : Security) (q : Security × Result Session) (e : Denial)
      → b ≡ true
      → q.1 ≡ denied e
      → (if not b then (st, denied not_configured) else q).1 ≡ denied e
  if_configured true st q e h k = k
  if_configured false st q e h k = absurd (cc h)

  absent :
      (k digest : String) (now : ℕ) (d : Dict String Session)
      → digest ≡ k
      → get String-discrete digest (prune s now (pop String-discrete k d)) ≡ none
  absent k digest now d e =
      rw e (prune-none s now k (pop String-discrete k d) (get-pop_self String-discrete k d))

  -- The call right after a logout, with the token that was logged out, is refused as one without a
  -- session, if the token is of at most 256 characters.
  pub authorize-logout :
      (st : Security) (a : Account) (r : AccessRequest) (t : String)
      → s.configured ≡ true
      → r.session_token ≡ some t
      → leb (p.len t) 256 ≡ true
      → (authorize p s (logout p s st (some t)) (some a) r).1 ≡ denied invalid_session
  unfolding authorize authorize_account logout
  authorize-logout st a r t c e l = if_configured s.configured _ _ invalid_session c (
      found-none _ a _ r _ (
        absent (p.sha256 t) (p.sha256 (raw_token p s r.session_token)) r.now st.sessions
          (ap p.sha256 (raw_token-eq r.session_token t e l))))
