-- ===== src/Admin/Access.antt =====
-- admin_security.py: which calls `authorize` lets through, and the sessions that there are.
use quick_price.Prelude.{
  ℕ, ◌+◌, ◌≡◌, ◌⊎◌, ◌≤◌, ◌<◌, refl, sym, ap, inl, inr, Bool, true, false, not, ◌||◌, ◌&&◌, Option,
  none, some, String, [], ◌∷◌, if◌then◌else◌, length, arith, Bool-cases, if_pos, if_neg,
}
use text.Mathlib.Text.{◌==◌ as str_eq}
use text.Mathlib.TextEquality.{eq_iff}
use quick_price.Prelude.Dict.{Dict, get, Unique}
use quick_price.Prelude.Texts.{String-discrete}
use quick_price.Admin.State.{
  Primitives, Settings, Account, Session, Security, Denial, Result, granted, denied, AccessRequest,
  not_configured,
}
use quick_price.Admin.Sessions.{prune, is_expired, agent_digest, touch, touch_unless}
use quick_price.Admin.Calls.{
  raw_token, is_csrf, touch_charged, authorize_session, authorize_found, authorize_account,
  authorize,
}

some_inj : {A : Type 0} {a b : A} → some a ≡ some b → a ≡ b
some_inj h = cc h

module _ (s : Settings) (now : ℕ) where
  pub prune-none :
      (k : String) (d : Dict String Session)
      → get String-discrete k d ≡ none
      → get String-discrete k (prune s now d) ≡ none
  unfolding prune get
  prune-none k [] h = refl
  prune-none k ((j, x) ∷ d) h = elim (String-discrete j k) [
    | yes e ↦ absurd (cc (rw (if_pos _ e) at h))
    | no e ↦
        let ih = prune-none k d (rw (if_neg _ e) at h) in
        elim (Bool-cases (is_expired s now x)) [
          | inl f ↦ rw f ih
          | inr f ↦ rw f (rw (if_neg _ e) ih)
        ]
  ]

  -- A session that is found after the pruning was there before, and is not expired.
  prune-some :
      (k : String) (d : Dict String Session) (x : Session)
      → Unique String-discrete d
      → get String-discrete k (prune s now d) ≡ some x
      → (get String-discrete k d ≡ some x) × (is_expired s now x ≡ false)
  unfolding prune get
  prune-some k [] x u h = absurd (cc h)
  prune-some k ((j, y) ∷ d) x u h = elim (Bool-cases (is_expired s now y)) [
    | inl f ↦
        let (found, live) = prune-some k d x u.1 (rw f at h) in
        elim (String-discrete j k) [
          | yes e ↦ absurd (cc (found, rw e at u.0))
          | no e ↦ (rw (if_neg _ e) found, live)
        ]
    | inr f ↦ elim (String-discrete j k) [
      | yes e ↦
          let q : some y ≡ some x = rw (if_pos _ e) at (rw f at h) in
          (rw (if_pos _ e) q, rw (some_inj q) at f)
      | no e ↦
          let (found, live) = prune-some k d x u.1 (rw (if_neg _ e) at (rw f at h)) in
          (rw (if_neg _ e) found, live)
    ]
  ]

  pub prune-Unique :
      (d : Dict String Session) → Unique String-discrete d → Unique String-discrete (prune s now d)
  unfolding prune
  prune-Unique [] u = tt
  prune-Unique ((k, x) ∷ d) u = elim (Bool-cases (is_expired s now x)) [
    | inl e ↦ rw e (prune-Unique d u.1)
    | inr e ↦ rw e (prune-none k d u.0, prune-Unique d u.1)
  ]

  pub length-prune-le : (d : Dict String Session) → length (prune s now d) ≤ length d
  unfolding prune
  length-prune-le [] = omega arith
  length-prune-le ((k, x) ∷ d) = ground (arith, length-prune-le d)

not_expired :
    (s : Settings) (now : ℕ) (x : Session)
    → is_expired s now x ≡ false
    → (now < x.absolute_expires) × (now < x.last_seen + s.idle_seconds)
unfolding is_expired
not_expired s now x h = ground arith

module _ (p : Primitives) (s : Settings) where
  -- What the session and the account must show for a request.
  pub record IsAllowed (a : Account) (r : AccessRequest) (x : Session) : Type 0 where
    pub alive : r.now < x.absolute_expires
    pub active : r.now < x.last_seen + s.idle_seconds
    pub same_agent : x.user_agent_digest ≡ p.sha256 (p.first_1024 r.user_agent)
    pub same_revision : x.account_revision ≡ a.revision
    pub changed : x.password_change_required ≡ true → r.allow_password_change_required ≡ true
    pub has_csrf : r.mutation ≡ true → r.csrf_token ≡ some x.csrf_token

  csrf-token :
      (x : Session) (token : Option String) → is_csrf p s x token ≡ true → token ≡ some x.csrf_token
  unfolding is_csrf
  csrf-token x none h = absurd (cc h)
  csrf-token x (some t) h = ap some (sym ((eq_iff x.csrf_token t).0 (ground arith)))

  -- What stands for the token that a request shows: an empty text where there is none, or one that is
  -- longer than a token may be.
  abbrev pub IsShown : Option String → String → Type 0
  IsShown none raw = raw ≡ ""
  IsShown (some t) raw = (p.len t ≤ 256) × (raw ≡ t) ⊎ (256 < p.len t) × (raw ≡ "")

  raw_token-IsShown : (token : Option String) → IsShown token (raw_token p s token)
  unfolding raw_token
  raw_token-IsShown none = refl
  raw_token-IsShown (some t) = ground arith

  configured_only :
      (b : Bool) (st : Security) (q : Security × Result Session) (y : Session)
      → (if not b then (st, denied not_configured) else q).1 ≡ granted y
      → q.1 ≡ granted y
  configured_only true st q y h = h
  configured_only false st q y h = absurd (cc h)

  touch-granted :
      (st : Security) (digest : String) (x y : Session) (now : ℕ)
      → (touch st digest x now).1 ≡ granted y
      → y ≡ record x { last_seen = now }
  unfolding touch
  touch-granted st digest x y now h = cc h

  touch_unless-granted :
      (refusal : Option Denial) (st : Security) (digest : String) (x y : Session) (now : ℕ)
      → (touch_unless refusal st digest x now).1 ≡ granted y
      → y ≡ record x { last_seen = now }
  unfolding touch_unless touch
  touch_unless-granted none st digest x y now h = cc h
  touch_unless-granted (some e) st digest x y now h = cc h

  charged-granted :
      (st : Security) (digest : String) (x y : Session) (r : AccessRequest)
      → (touch_charged p s st digest x r).1 ≡ granted y
      → y ≡ record x { last_seen = r.now }
  unfolding touch_charged
  charged-granted st digest x y r h = touch_unless-granted _ _ digest x y r.now h

  passes :
      (agent revision change allow mutates csrf : Bool) (d e f : Denial) (u v w : Security)
      (touched plain : Security × Result Session) (y : Session)
      → (if not agent || not revision
          then (u, denied d)
          else if change && not allow
          then (v, denied e)
          else if mutates && not csrf
          then (w, denied f)
          else if mutates
          then touched
          else plain).1
        ≡ granted y
      → (agent ≡ true)
        × (revision ≡ true)
        × (change ≡ true → allow ≡ true)
        × (mutates ≡ true → csrf ≡ true)
        × ((touched.1 ≡ granted y) ⊎ (plain.1 ≡ granted y))
  passes agent revision change allow mutates csrf d e f u v w touched plain y h = ground arith

  session-granted :
      (st : Security) (a : Account) (digest : String) (r : AccessRequest) (x y : Session)
      → is_expired s r.now x ≡ false
      → (authorize_session p s st a digest r x).1 ≡ granted y
      → IsAllowed a r x × (y ≡ record x { last_seen = r.now })
  unfolding authorize_session
  session-granted st a digest r x y e h =
      let (agent, revision, change, csrf, done) =
        passes (str_eq x.user_agent_digest (agent_digest p s r.user_agent))
          (str_eq x.account_revision a.revision) x.password_change_required
          r.allow_password_change_required r.mutation (is_csrf p s x r.csrf_token) _ _ _ _ _ _ _ _ y
          h in
      let live = not_expired s r.now x e in
      (
        record {
          alive = live.0;
          active = live.1;
          same_agent = (eq_iff _ _).0 (unfold agent_digest in agent);
          same_revision = (eq_iff _ _).0 revision;
          changed = change;
          has_csrf = λ m. csrf-token x r.csrf_token (csrf m);
        },
        elim done [
          | inl t ↦ charged-granted st digest x y r t
          | inr t ↦ touch-granted st digest x y r.now t
        ],
      )

  found-granted :
      (st : Security) (a : Account) (digest : String) (r : AccessRequest) (o : Option Session)
      (y : Session)
      → ((x : Session) → o ≡ some x → is_expired s r.now x ≡ false)
      → (authorize_found p s st a digest r o).1 ≡ granted y
      → (x : Session) × (o ≡ some x) × IsAllowed a r x × (y ≡ record x { last_seen = r.now })
  unfolding authorize_found
  found-granted st a digest r none y live h = absurd (cc h)
  found-granted st a digest r (some x) y live h =
      let (allowed, same) = session-granted st a digest r x y (live x refl) h in
      (x, refl, allowed, same)

  account-granted :
      (st : Security) (account : Option Account) (r : AccessRequest) (y : Session)
      → Unique String-discrete st.sessions
      → (authorize_account p s st account r).1 ≡ granted y
      → (a : Account) × (account ≡ some a)
        × ((x : Session) × (get String-discrete
                (p.sha256 (raw_token p s r.session_token))
                st.sessions
              ≡ some x)
            × IsAllowed a r x
            × (y ≡ record x { last_seen = r.now }))
  unfolding authorize_account
  account-granted st none r y u h = absurd (cc h)
  account-granted st (some a) r y u h =
      let digest = p.sha256 (raw_token p s r.session_token) in
      let (x, found, allowed, same) =
        found-granted _ a digest r (get String-discrete digest (prune s r.now st.sessions)) y
          (λ x e. (prune-some s r.now digest st.sessions x u e).1) h in
      (a, refl, (x, (prune-some s r.now digest st.sessions x u found).0, allowed, same))

  -- A call is only let through on a session that is stored under the digest of the token that it
  -- shows (of the empty text, if it shows none or one of more than 256 characters), within its
  -- lifetime and idle time, with the digest of its browser and the revision of the account that it
  -- began with; with the CSRF token of the session, if the call changes something; and, if the
  -- password must be changed, only where the call allows for that. The session it returns is that one,
  -- seen now. The keys of the table of sessions are taken to differ.
  pub authorize-granted :
      (st : Security) (account : Option Account) (r : AccessRequest) (y : Session)
      → Unique String-discrete st.sessions
      → (authorize p s st account r).1 ≡ granted y
      → (a : Account) × (account ≡ some a)
        × ((raw : String) × IsShown r.session_token raw
            × ((x : Session) × (get String-discrete (p.sha256 raw) st.sessions ≡ some x)
                × IsAllowed a r x
                × (y ≡ record x { last_seen = r.now })))
  unfolding authorize
  authorize-granted st account r y u h =
      let (a, same, found) =
        account-granted st account r y u (configured_only s.configured _ _ y h) in
      (a, same, (raw_token p s r.session_token, raw_token-IsShown r.session_token, found))
