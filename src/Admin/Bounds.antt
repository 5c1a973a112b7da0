-- ===== src/Admin/Bounds.antt =====
-- admin_security.py: the sessions stay few and have one entry for each digest; what ends a session.
use text.Mathlib.Text.{◌==◌ as str_eq}
use quick_price.Prelude.{
  ℕ, ◌≡◌, refl, inl, inr, Bool, true, false, not, ◌||◌, ◌&&◌, Option, none, some, String,
  if◌then◌else◌, arith, Bool-cases,
}
use quick_price.Prelude.Dict.{get, pop}
use quick_price.Prelude.Texts.{String-discrete}
use quick_price.Admin.State.{
  Primitives, Settings, Account, Session, Security, Denial, Result, denied, Login, AccessRequest,
  invalid_session, change_required, invalid_csrf,
}
use quick_price.Admin.Sessions.{prune, agent_digest, is_fresh, create_session, touch, touch_unless}
use quick_price.Admin.Calls.{
  is_csrf, settle_login, check_login, login, admit_login, touch_charged, authorize_session,
  authorize_found, authorize_account, authorize, logout, invalidate_sessions,
}
use quick_price.Admin.Codes.{Event, logs_in, authorizes, logs_out, invalidates, step}
use quick_price.Admin.Table.{
  IsBounded, prune-IsBounded, pop-IsBounded, add-IsBounded, update-IsBounded,
}

settle-IsBounded :
    (p : Primitives) (s : Settings) (st : Security) (a : Account) (valid : Bool) (m : Option ℕ)
    (ip ua : String) (epoch now : ℕ) (raw csrf : String)
    → IsBounded st.sessions
    → IsBounded (settle_login p s st a valid m ip ua epoch now raw csrf).0.sessions
unfolding settle_login create_session
settle-IsBounded p s st a valid none ip ua epoch now raw csrf b =
    prune-IsBounded s now st.sessions b
settle-IsBounded p s st a valid (some c) ip ua epoch now raw csrf b =
    let pruned = prune-IsBounded s now st.sessions b in
    elim (Bool-cases (valid && is_fresh st.last_totp_counter c)) [
      | inl e ↦ rw e (add-IsBounded (p.sha256 raw) _ (prune s now st.sessions) pruned)
      | inr e ↦ rw e pruned
    ]

unfoldable IsKept : Security × Result Session → Type 0
IsKept r = IsBounded r.0.sessions

module _ (p : Primitives) (s : Settings) where
  check-IsBounded :
      (st : Security) (a : Option Account) (busy : Bool) (l : Login)
      → IsBounded st.sessions
      → IsBounded (check_login p s st a busy l).0.sessions
  unfolding check_login
  check-IsBounded st none busy l b = b
  check-IsBounded st (some a) true l b = b
  check-IsBounded st (some a) false l b = settle-IsBounded p s st a _ _ _ _ _ _ _ _ b

  admit-IsBounded :
      (st : Security) (refusal : Option Denial) (a : Option Account) (busy : Bool) (l : Login)
      → IsBounded st.sessions
      → IsBounded (admit_login p s st refusal a busy l).0.sessions
  unfolding admit_login
  admit-IsBounded st none a busy l b = check-IsBounded st a busy l b
  admit-IsBounded st (some e) a busy l b = b

  if_IsBounded :
      {A : Type 0} (c : Bool) (st : Security) (e : Result A) (r : Security × Result A)
      → IsBounded st.sessions
      → IsBounded r.0.sessions
      → IsBounded (if c then (st, e) else r).0.sessions
  if_IsBounded true st e r b h = b
  if_IsBounded false st e r b h = h

  login-IsBounded :
      (st : Security) (a : Option Account) (busy : Bool) (l : Login)
      → IsBounded st.sessions
      → IsBounded (login p s st a busy l).0.sessions
  unfolding login
  login-IsBounded st a busy l b =
      if_IsBounded (not s.configured) st _ _ b (admit-IsBounded _ _ a busy l b)

  touch-IsBounded :
      (st : Security) (digest : String) (x : Session) (now : ℕ)
      → get String-discrete digest st.sessions ≡ some x
      → IsBounded st.sessions
      → IsBounded (touch st digest x now).0.sessions
  unfolding touch
  touch-IsBounded st digest x now h b = update-IsBounded digest x _ st.sessions h b

  touch_unless-IsBounded :
      (refusal : Option Denial) (st : Security) (digest : String) (x : Session) (now : ℕ)
      → get String-discrete digest st.sessions ≡ some x
      → IsBounded st.sessions
      → IsBounded (touch_unless refusal st digest x now).0.sessions
  unfolding touch_unless touch
  touch_unless-IsBounded none st digest x now h b = update-IsBounded digest x _ st.sessions h b
  touch_unless-IsBounded (some e) st digest x now h b = b

  charged-IsBounded :
      (st : Security) (digest : String) (x : Session) (r : AccessRequest)
      → get String-discrete digest st.sessions ≡ some x
      → IsBounded st.sessions
      → IsBounded (touch_charged p s st digest x r).0.sessions
  unfolding touch_charged
  charged-IsBounded st digest x r h b = touch_unless-IsBounded _ _ digest x r.now h b

  branches :
      (invalid change csrf mutates : Bool) (d e f : Denial) (st gone : Security)
      (q r : Security × Result Session)
      → IsBounded st.sessions
      → IsBounded gone.sessions
      → IsBounded q.0.sessions
      → IsBounded r.0.sessions
      → IsKept (
          if invalid
          then (gone, denied d)
          else if change
          then (st, denied e)
          else if csrf
          then (st, denied f)
          else if mutates
          then q
          else r)
  unfolding IsKept
  branches true change csrf mutates d e f st gone q r b g h k = g
  branches false true csrf mutates d e f st gone q r b g h k = b
  branches false false true mutates d e f st gone q r b g h k = b
  branches false false false true d e f st gone q r b g h k = h
  branches false false false false d e f st gone q r b g h k = k

  session-IsKept :
      (st : Security) (a : Account) (digest : String) (r : AccessRequest) (x : Session)
      → get String-discrete digest st.sessions ≡ some x
      → IsBounded st.sessions
      → IsKept (authorize_session p s st a digest r x)
  unfolding authorize_session
  session-IsKept st a digest r x h b =
      branches
        (not (str_eq x.user_agent_digest (agent_digest p s r.user_agent))
          || not (str_eq x.account_revision a.revision))
        (x.password_change_required && not r.allow_password_change_required)
        (r.mutation && not (is_csrf p s x r.csrf_token)) r.mutation invalid_session change_required
        invalid_csrf st (record st { sessions = pop String-discrete digest st.sessions })
        (touch_charged p s st digest x r) (touch st digest x r.now) b
        (pop-IsBounded digest st.sessions b) (charged-IsBounded st digest x r h b)
        (touch-IsBounded st digest x r.now h b)

  session-IsBounded :
      (st : Security) (a : Account) (digest : String) (r : AccessRequest) (x : Session)
      → get String-discrete digest st.sessions ≡ some x
      → IsBounded st.sessions
      → IsBounded (authorize_session p s st a digest r x).0.sessions
  session-IsBounded st a digest r x h b = unfold IsKept in session-IsKept st a digest r x h b

  found-IsBounded :
      (st : Security) (a : Account) (digest : String) (r : AccessRequest) (o : Option Session)
      → get String-discrete digest st.sessions ≡ o
      → IsBounded st.sessions
      → IsBounded (authorize_found p s st a digest r o).0.sessions
  unfolding authorize_found
  found-IsBounded st a digest r none h b = pop-IsBounded digest st.sessions b
  found-IsBounded st a digest r (some x) h b = session-IsBounded st a digest r x h b

  account-IsBounded :
      (st : Security) (a : Option Account) (r : AccessRequest)
      → IsBounded st.sessions
      → IsBounded (authorize_account p s st a r).0.sessions
  unfolding authorize_account
  account-IsBounded st none r b = b
  account-IsBounded st (some a) r b =
      found-IsBounded _ a _ r _ refl (prune-IsBounded s r.now st.sessions b)

  -- Whatever is called, each digest has one session, and there are never more than 64.
  pub step-IsBounded :
      (st : Security) (e : Event) → IsBounded st.sessions → IsBounded (step p s st e).sessions
  unfolding step authorize logout invalidate_sessions
  step-IsBounded st (logs_in a busy l) b = login-IsBounded st a busy l b
  step-IsBounded st (authorizes a r) b =
      if_IsBounded (not s.configured) st _ _ b (account-IsBounded st a r b)
  step-IsBounded st (logs_out none) b = pop-IsBounded _ st.sessions b
  step-IsBounded st (logs_out (some t)) b = pop-IsBounded _ st.sessions b
  step-IsBounded st invalidates b = record { unique = tt; few = omega arith }
