-- ===== src/Admin/Codes.antt =====
-- admin_security.py: a one-time code works for one login only, and the sessions stay bounded.
use text.Mathlib.Text.{◌==◌ as str_eq}
use text.Mathlib.TextEquality.{eq_iff}
use mathlib.Core.Path.{subst}
use quick_price.Prelude.{
  ◌+◌, ◌-◌, ◌/◌, ◌≤◌, ap, ℕ, ◌≡◌, ◌<◌, refl, sym, ◌∙◌, inl, inr, Bool, true, false, Option, none,
  some, String, List, [], ◌∷◌, ◌++◌, ltb→lt, if◌then◌else◌, not, All, arith, Bool-cases,
}
use quick_price.Admin.State.{
  Primitives, Settings, Account, Session, Security, Denial, Result, granted, denied, Login,
  AccessRequest, not_configured,
}
use quick_price.Admin.Sessions.{matching_counter, is_fresh, create_session, touch, touch_unless}
use quick_price.Admin.Calls.{
  settle_login, check_login, login, admit_login, touch_charged, authorize_session, authorize_found,
  authorize_account, authorize, logout, invalidate_sessions,
}

-- What the administration does with the state, one call after the other. The account is the one
-- that the call reads, and `true` in a login says that no slot for a password check is free.
pub data Event : Type 0 where
  logs_in : Option Account → Bool → Login → Event
  authorizes : Option Account → AccessRequest → Event
  logs_out : Option String → Event
  invalidates : Event

-- the counter of a login that was let in
abbrev pub counter_of : Result String → Option ℕ → List ℕ
counter_of (granted t) (some c) = c ∷ []
counter_of (granted t) none = []
counter_of (denied e) c = []

abbrev Above : Option ℕ → ℕ → Type 0
Above none c = Unit
Above (some l) c = l < c

-- Each counter is above the ones before it.
abbrev pub Increasing : List ℕ → Type 0
Increasing [] = Unit
Increasing (c ∷ cs) = All (λ d. c < d) cs × Increasing cs

module _ (p : Primitives) (s : Settings) where
  unfoldable pub step : Security → Event → Security
  step st (logs_in a busy l) = (login p s st a busy l).0
  step st (authorizes a r) = (authorize p s st a r).0
  step st (logs_out t) = logout p s st t
  step st invalidates = invalidate_sessions st

  abbrev login_result : Security → Option Account → Bool → Login → Result String
  login_result st a busy l = (login p s st a busy l).1

  -- the counters of the codes of the logins that were let in, in their order
  unfoldable pub codes : Security → List Event → List ℕ
  unfolding step
  codes st [] = []
  codes st (logs_in a busy l ∷ es) =
      counter_of (login p s st a busy l).1 (matching_counter p s l.epoch l.otp)
      ++ codes (step st (logs_in a busy l)) es
  codes st (authorizes a r ∷ es) = codes (step st (authorizes a r)) es
  codes st (logs_out t ∷ es) = codes (step st (logs_out t)) es
  codes st (invalidates ∷ es) = codes (step st invalidates) es

  session-last :
      (st : Security) (a : Account) (digest : String) (r : AccessRequest) (x : Session)
      → (authorize_session p s st a digest r x).0.last_totp_counter ≡ st.last_totp_counter
  unfolding authorize_session touch touch_unless touch_charged
  session-last st a digest r x = ground arith

  found-last :
      (st : Security) (a : Account) (digest : String) (r : AccessRequest) (x : Option Session)
      → (authorize_found p s st a digest r x).0.last_totp_counter ≡ st.last_totp_counter
  unfolding authorize_found
  found-last st a digest r none = refl
  found-last st a digest r (some x) = session-last st a digest r x

  account-last :
      (st : Security) (a : Option Account) (r : AccessRequest)
      → (authorize_account p s st a r).0.last_totp_counter ≡ st.last_totp_counter
  unfolding authorize_account
  account-last st none r = refl
  account-last st (some a) r = found-last _ a _ r _

  authorize-last :
      (st : Security) (a : Option Account) (r : AccessRequest)
      → (authorize p s st a r).0.last_totp_counter ≡ st.last_totp_counter
  unfolding authorize
  authorize-last st a r = ground (arith, account-last st a r)

  -- A login that is let in has a code whose counter is above the last one, and makes it the last
  -- one; any other login leaves that as it was.
  abbrev Advances : Security → Option ℕ → Security × Result String → Type 0
  Advances st m (st', granted t) =
      (c : ℕ) × (m ≡ some c) × (st'.last_totp_counter ≡ some c) × Above st.last_totp_counter c
  Advances st m (st', denied e) = st'.last_totp_counter ≡ st.last_totp_counter

  fresh-Above : (last : Option ℕ) (c : ℕ) → is_fresh last c ≡ true → Above last c
  unfolding is_fresh
  fresh-Above none c h = tt
  fresh-Above (some l) c h = ltb→lt l c h

  settle-Advances :
      (st : Security) (a : Account) (valid : Bool) (m : Option ℕ) (ip ua : String) (epoch now : ℕ)
      (raw csrf : String)
      → Advances st m (settle_login p s st a valid m ip ua epoch now raw csrf)
  unfolding settle_login create_session
  settle-Advances st a valid none ip ua epoch now raw csrf = refl
  settle-Advances st a false (some c) ip ua epoch now raw csrf = refl
  settle-Advances st a true (some c) ip ua epoch now raw csrf =
      elim (Bool-cases (is_fresh st.last_totp_counter c)) [
        | inl e ↦ rw e (c, refl, refl, fresh-Above st.last_totp_counter c e)
        | inr e ↦ rw e refl
      ]

  check-Advances :
      (st : Security) (a : Option Account) (busy : Bool) (l : Login)
      → Advances st (matching_counter p s l.epoch l.otp) (check_login p s st a busy l)
  unfolding check_login
  check-Advances st none busy l = refl
  check-Advances st (some a) true l = refl
  check-Advances st (some a) false l = settle-Advances st a _ _ _ _ _ _ _ _

  admit-Advances :
      (st : Security) (refusal : Option Denial) (a : Option Account) (busy : Bool) (l : Login)
      → Advances st (matching_counter p s l.epoch l.otp) (admit_login p s st refusal a busy l)
  unfolding admit_login
  admit-Advances st none a busy l = check-Advances st a busy l
  admit-Advances st (some e) a busy l = refl

  if_Advances :
      (b : Bool) (st : Security) (m : Option ℕ) (r : Security × Result String)
      → Advances st m r
      → Advances st m (if not b then (st, denied not_configured) else r)
  if_Advances true st m r h = h
  if_Advances false st m r h = refl

  login-Advances :
      (st : Security) (a : Option Account) (busy : Bool) (l : Login)
      → Advances st (matching_counter p s l.epoch l.otp) (login p s st a busy l)
  unfolding login
  login-Advances st a busy l =
      if_Advances s.configured st (matching_counter p s l.epoch l.otp) _
        (admit-Advances _ _ a busy l)

  All-Above :
      (last : Option ℕ) (c : ℕ) (cs : List ℕ)
      → Above last c
      → All (λ d. c < d) cs
      → All (Above last) cs
  All-Above last c [] h k = tt
  All-Above none c (d ∷ cs) h k = (tt, All-Above none c cs h k.1)
  All-Above (some l) c (d ∷ cs) h k = (omega arith, All-Above (some l) c cs h k.1)

  abbrev Climbs : Option ℕ → List ℕ → Type 0
  Climbs last cs = All (Above last) cs × Increasing cs

  same_last : (a b : Option ℕ) (cs : List ℕ) → a ≡ b → Climbs a cs → Climbs b cs
  same_last a b cs e k = rw e at k

  climb :
      (st : Security) (m : Option ℕ) (r : Security × Result String) (cs : List ℕ)
      → Advances st m r
      → Climbs r.0.last_totp_counter cs
      → Climbs st.last_totp_counter (counter_of r.1 m ++ cs)
  climb st m (st', denied e) cs h k = rw h at k
  climb st none (st', granted t) cs (c, e, f, above) k = absurd (cc e)
  climb st (some d) (st', granted t) cs (c, e, f, above) k =
      let q : d ≡ c = cc e in
      let above' : Above st.last_totp_counter d = rw q above in
      let (k0, k1) = same_last st'.last_totp_counter (some d) cs (f ∙ sym e) k in
      ((above', All-Above st.last_totp_counter d cs above' k0), (k0, k1))

  logout-last :
      (st : Security) (t : Option String)
      → (logout p s st t).last_totp_counter ≡ st.last_totp_counter
  unfolding logout
  logout-last st none = refl
  logout-last st (some t) = refl

  codes-Climbs : (st : Security) (es : List Event) → Climbs st.last_totp_counter (codes st es)
  unfolding codes step
  codes-Climbs st [] = (tt, tt)
  codes-Climbs st (logs_in a busy l ∷ es) =
      climb st (matching_counter p s l.epoch l.otp) (login p s st a busy l) _
        (login-Advances st a busy l) (codes-Climbs (step st (logs_in a busy l)) es)
  codes-Climbs st (authorizes a r ∷ es) =
      same_last _ _ (codes (step st (authorizes a r)) es) (authorize-last st a r)
        (codes-Climbs (step st (authorizes a r)) es)
  codes-Climbs st (logs_out t ∷ es) =
      same_last _ _ (codes (step st (logs_out t)) es) (logout-last st t)
        (codes-Climbs (step st (logs_out t)) es)
  codes-Climbs st (invalidates ∷ es) =
      same_last (step st invalidates).last_totp_counter st.last_totp_counter
        (codes (step st invalidates) es) (unfold step invalidate_sessions in refl)
        (codes-Climbs (step st invalidates) es)

  -- A counter is of a period next to the clock's or of its own, and its code is the one that the
  -- login gives.
  abbrev pub IsCode : ℕ → Login → Type 0
  IsCode c l = (p.totp_code c ≡ l.otp) × (c ≤ l.epoch / 30 + 1) × (l.epoch / 30 ≤ c + 1)

  -- One counter for each login, in their order.
  abbrev pub Coded : List ℕ → List Login → Type 0
  Coded [] [] = Unit
  Coded (c ∷ cs) (l ∷ ls) = IsCode c l × Coded cs ls
  Coded _ _ = ⊥

  abbrev pub if_granted : Result String → Login → List Login
  if_granted (granted t) l = l ∷ []
  if_granted (denied e) l = []

  -- the logins that are let in, in their order
  unfoldable pub admitted : Security → List Event → List Login
  unfolding step
  admitted st [] = []
  admitted st (logs_in a busy l ∷ es) =
      if_granted (login p s st a busy l).1 l ++ admitted (step st (logs_in a busy l)) es
  admitted st (authorizes a r ∷ es) = admitted (step st (authorizes a r)) es
  admitted st (logs_out t ∷ es) = admitted (step st (logs_out t)) es
  admitted st (invalidates ∷ es) = admitted (step st invalidates) es

  module _ (six : (c : ℕ) → p.is_six_digits (p.totp_code c) ≡ true)
      (not_empty : p.is_six_digits "" ≡ false) where
    code-given :
        (c : ℕ) (otp : String)
        → str_eq (p.totp_code c) (if p.is_six_digits otp then otp else "") ≡ true
        → p.totp_code c ≡ otp
    code-given c otp h = elim (Bool-cases (p.is_six_digits otp)) [
      | inl e ↦ (eq_iff (p.totp_code c) otp).0 (rw e at h)
      | inr e ↦
          let empty : p.totp_code c ≡ "" = (eq_iff (p.totp_code c) "").0 (rw e at h) in
          absurd (cc (six c, ap p.is_six_digits empty, not_empty))
    ]

    matching_counter-IsCode :
        (l : Login) (c : ℕ) → matching_counter p s l.epoch l.otp ≡ some c → IsCode c l
    unfolding matching_counter
    matching_counter-IsCode l c h =
        let now : ℕ = l.epoch / 30 in
        let bounded : String = if p.is_six_digits l.otp then l.otp else "" in
        elim (Bool-cases (str_eq (p.totp_code (now + 1)) bounded)) [
          | inl e ↦
              let q : now + 1 ≡ c = cc (rw e at h) in
              subst (λ z. IsCode z l) q (code-given (now + 1) l.otp e, omega arith, omega arith)
          | inr e ↦ elim (Bool-cases (str_eq (p.totp_code now) bounded)) [
            | inl f ↦
                let q : now ≡ c = cc (rw (e, f) at h) in
                subst (λ z. IsCode z l) q (code-given now l.otp f, omega arith, omega arith)
            | inr f ↦ elim (Bool-cases (str_eq (p.totp_code (now - 1)) bounded)) [
              | inl g ↦
                  let q : now - 1 ≡ c = cc (rw (e, f, g) at h) in
                  subst (λ z. IsCode z l) q (code-given (now - 1) l.otp g, omega arith, omega arith)
              | inr g ↦ absurd (cc (rw (e, f, g) at h))
            ]
          ]
        ]

    Coded-login :
        (st : Security) (m : Option ℕ) (l : Login) (r : Security × Result String) (cs : List ℕ)
        (ls : List Login)
        → Advances st m r
        → ((c : ℕ) → m ≡ some c → IsCode c l)
        → Coded cs ls
        → Coded (counter_of r.1 m ++ cs) (if_granted r.1 l ++ ls)
    Coded-login st m l (st', denied e) cs ls h code rest = rest
    Coded-login st none l (st', granted t) cs ls (c, e, f, above) code rest = absurd (cc e)
    Coded-login st (some d) l (st', granted t) cs ls h code rest = (code d refl, rest)

    codes-Coded : (st : Security) (es : List Event) → Coded (codes st es) (admitted st es)
    unfolding codes admitted
    codes-Coded st [] = tt
    codes-Coded st (logs_in a busy l ∷ es) =
        Coded-login st (matching_counter p s l.epoch l.otp) l (login p s st a busy l) _ _
          (login-Advances st a busy l) (matching_counter-IsCode l)
          (codes-Coded (step st (logs_in a busy l)) es)
    codes-Coded st (authorizes a r ∷ es) = codes-Coded (step st (authorizes a r)) es
    codes-Coded st (logs_out t ∷ es) = codes-Coded (step st (logs_out t)) es
    codes-Coded st (invalidates ∷ es) = codes-Coded (step st invalidates) es

    -- If the codes of all periods have six digits and the empty text has not: whatever is called, in
    -- whatever order and with whatever clocks, each login that is let in gives the code of its own
    -- period, at most one period away from its clock's, and these periods are ever later. So no code
    -- of a period lets in two of them.
    pub admitted-Increasing :
        (st : Security) (es : List Event)
        → (cs : List ℕ) × Coded cs (admitted st es) × Increasing cs
    admitted-Increasing st es = (codes st es, codes-Coded st es, (codes-Climbs st es).1)
