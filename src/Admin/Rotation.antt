-- ===== src/Admin/Rotation.antt =====
-- admin_security.py, `change_account`: what a change that succeeds leaves.
use quick_price.Prelude.{
  ◌+◌, ◌≡◌, ◌≢◌, refl, Bool, true, false, not, ◌||◌, Option, none, some, String, [], ltb,
  if◌then◌else◌,
}
use text.Mathlib.Text.{◌==◌ as str_eq}
use quick_price.Prelude.Dict.{get, get-put_ne, get-put_self}
use quick_price.Prelude.Texts.{String-discrete}
use quick_price.Admin.State.{
  Primitives, Settings, Account, Session, Security, Denial, Result, granted, denied,
  authentication_failed, not_configured, invalid_session, rate_limited, invalid_value,
}
use quick_price.Admin.Sessions.{create_session, make_room}
use quick_price.Admin.Change.{
  AccountChange, Store, rotate, is_current, replace_account, replace_unless, charge_change,
  with_account, change_account, max_session_age,
}

module _ (p : Primitives) (s : Settings) (store : Store) (c : AccountChange) where
  -- What holds of a state after a change.
  pub record IsRotated (st : Security) (token : String) : Type 0 where
    pub same_token : token ≡ c.raw_token
    pub entered :
        (b : Account) × (x : Session) × (store.replacement ≡ some b)
        × (get String-discrete (p.sha256 token) st.sessions ≡ some x)
        × (x.account_revision ≡ b.revision)
    pub alone : (k : String) → p.sha256 token ≢ k → get String-discrete k st.sessions ≡ none

  abbrev Rotates : Security × Result String → Type 0
  Rotates (st, granted t) = IsRotated st t
  Rotates (st, denied e) = Unit

  unless :
      (b : Bool) (st : Security) (e : Denial) (q : Security × Result String)
      → Rotates q
      → Rotates (if b then (st, denied e) else q)
  unless true st e q h = tt
  unless false st e q h = h

  rotate-Rotates :
      (st : Security) (o : Option Account) → store.replacement ≡ o → Rotates (rotate p s st o c)
  unfolding rotate create_session make_room get
  rotate-Rotates st none e = tt
  rotate-Rotates st (some a) e = record {
    same_token = refl;
    entered = (a, _, e, get-put_self String-discrete (p.sha256 c.raw_token) _ [], refl);
    alone = λ k n. get-put_ne String-discrete (p.sha256 c.raw_token) k _ [] n;
  }

  replace-Rotates :
      (st : Security) (a : Account) (meanwhile : Security → Security)
      → Rotates (replace_account p s st a store meanwhile c)
  unfolding replace_account
  replace-Rotates st a meanwhile = unless store.check_busy st (rate_limited 1) _ (
      unless (not (p.verify_password c.current_password a.password_verifier)) st
        authentication_failed _
        (unless (not store.is_username || str_eq c.new_password c.current_password) st invalid_value
          _
          (unless store.create_busy st (rate_limited 1) _ (
            unless (not store.is_password) st invalid_value _ (
              unless (not (is_current p s (meanwhile st) store.second c)) (meanwhile st)
                invalid_session _ (rotate-Rotates (meanwhile st) store.replacement refl))))))

  replace_unless-Rotates :
      (refusal : Option Denial) (st : Security) (a : Account) (meanwhile : Security → Security)
      → Rotates (replace_unless p s refusal st a store meanwhile c)
  unfolding replace_unless
  replace_unless-Rotates none st a meanwhile = replace-Rotates st a meanwhile
  replace_unless-Rotates (some e) st a meanwhile = tt

  account-Rotates :
      (st : Security) (a : Option Account) (meanwhile : Security → Security)
      → Rotates (with_account p s st a store meanwhile c)
  unfolding with_account charge_change
  account-Rotates st none meanwhile = tt
  account-Rotates st (some a) meanwhile =
      unless (not (is_current p s st (some a) c)) st invalid_session _
        (replace_unless-Rotates _ _ a meanwhile)

  change-Rotates :
      (st : Security) (meanwhile : Security → Security)
      → Rotates (change_account p s st store meanwhile c)
  unfolding change_account
  change-Rotates st meanwhile =
      unless (ltb c.now c.session.created || ltb (c.session.created + max_session_age) c.now) st
        authentication_failed _
        (unless (not s.configured) st not_configured _ (account-Rotates st store.first meanwhile))

  from_result :
      (r : Security × Result String) (t : String) → r.1 ≡ granted t → Rotates r → IsRotated r.0 t
  from_result (st, granted u) t e h = let q : u ≡ t = cc e in rw q at h
  from_result (st, denied d) t e h = absurd (cc e)

  -- A change of the account that succeeds leaves one session, which the returned token opens and
  -- which begins with the stored account: no token with another digest has a session, whatever
  -- other calls did while the new password was hashed.
  pub change_account-IsRotated :
      (st : Security) (meanwhile : Security → Security) (t : String)
      → (change_account p s st store meanwhile c).1 ≡ granted t
      → IsRotated (change_account p s st store meanwhile c).0 t
  change_account-IsRotated st meanwhile t e = from_result _ t e (change-Rotates st meanwhile)
