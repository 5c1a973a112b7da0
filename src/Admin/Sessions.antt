-- ===== src/Admin/Sessions.antt =====
-- admin_security.py: the table of sessions, the limiters of a call, and the codes.
use text.Mathlib.Text.{◌==◌ as str_eq}
use quick_price.Prelude.{
  ℕ, ◌+◌, ◌-◌, ◌/◌, max, Bool, true, ◌||◌, Option, none, some, String, [], ◌∷◌, ltb, leb,
  if◌then◌else◌, length,
}
use quick_price.Prelude.Dict.{Dict, put, pop}
use quick_price.Prelude.Texts.{String-discrete}
use quick_price.Limiter.{Bucket, Config, Verdict, accepted, limited, zero_division, consume}
use quick_price.Admin.State.{
  denied, rate_limited, Settings, granted, Primitives, Account, Security, session_limit, Result,
  Denial, Session, crashed,
}

-- `_prune_locked`
unfoldable pub is_expired : Settings → ℕ → Session → Bool
is_expired s now x = leb x.absolute_expires now || leb (x.last_seen + s.idle_seconds) now

unfoldable pub prune : Settings → ℕ → Dict String Session → Dict String Session
prune s now [] = []
prune s now ((k, x) ∷ rest) =
    let kept = prune s now rest in if is_expired s now x then kept else (k, x) ∷ kept

-- `min(self._sessions, key=...)`: the first of those seen least recently
unfoldable pub oldest : String → ℕ → Dict String Session → String
oldest k seen [] = k
oldest k seen ((j, x) ∷ rest) =
    let (k', seen') = if ltb x.last_seen seen then (j, x.last_seen) else (k, seen) in
    oldest k' seen' rest

unfoldable pub make_room : Dict String Session → Dict String Session
unfolding oldest
make_room [] = []
make_room ((k, x) ∷ rest) =
    if leb session_limit (length ((k, x) ∷ rest))
    then pop String-discrete (oldest k x.last_seen rest) ((k, x) ∷ rest)
    else (k, x) ∷ rest

unfoldable pub denial_of : Verdict → Option Denial
denial_of accepted = none
denial_of (limited n) = some (rate_limited (max 1 n))
denial_of zero_division = some crashed

-- Two limiters in turn: the second is asked only if the first accepts.
unfoldable pub consume_both :
    Config
    → Dict String Bucket
    → String
    → Config
    → Dict String Bucket
    → ℕ
    → Dict String Bucket × Dict String Bucket × Option Denial
unfolding denial_of
consume_both c one identity d both now =
    let (one', v) = consume String-discrete c one identity now in
    elim (denial_of v) [
      | some e ↦ (one', both, some e)
      | none ↦
          let (both', w) = consume String-discrete d both "global" now in (one', both', denial_of w)
    ]

unfoldable pub is_fresh : Option ℕ → ℕ → Bool
is_fresh none counter = true
is_fresh (some last) counter = ltb last counter

-- the session is seen, and returned
unfoldable pub touch : Security → String → Session → ℕ → Security × Result Session
touch st digest x now =
    let seen : Session = record x { last_seen = now } in
    (record st { sessions = put String-discrete digest seen st.sessions }, granted seen)

unfoldable pub touch_unless :
    Option Denial → Security → String → Session → ℕ → Security × Result Session
unfolding touch
touch_unless (some e) st digest x now = (st, denied e)
touch_unless none st digest x now = touch st digest x now

module _ (p : Primitives) (s : Settings) where
  unfoldable pub agent_digest : String → String
  agent_digest value = p.sha256 (p.first_1024 value)

  -- the last of the three counters whose code is the one given
  unfoldable pub matching_counter : ℕ → String → Option ℕ
  matching_counter epoch otp =
      let current = epoch / 30 in
      let bounded = if p.is_six_digits otp then otp else "" in
      if str_eq (p.totp_code (current + 1)) bounded
      then some (current + 1)
      else if str_eq (p.totp_code current) bounded
      then some current
      else if str_eq (p.totp_code (current - 1)) bounded
      then some (current - 1)
      else none

  -- `_create_session_locked`; the answer is the raw token, which the caller gets
  unfoldable pub create_session :
      Security → Account → String → String → ℕ → ℕ → String → String → Security
  unfolding agent_digest
  create_session st a client_ip user_agent epoch now raw csrf = record st {
    sessions =
        put String-discrete (p.sha256 raw)
          (record {
            csrf_token = csrf;
            user_agent_digest = agent_digest user_agent;
            created = now;
            last_seen = now;
            absolute_expires = now + s.absolute_seconds;
            created_at_epoch = epoch;
            client_ip = client_ip;
            username = a.username;
            account_revision = a.revision;
            password_change_required = a.password_change_required;
          })
          (make_room st.sessions);
  }
