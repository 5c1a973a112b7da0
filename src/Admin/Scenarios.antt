-- ===== src/Admin/Scenarios.antt =====
-- An administrator logs in, works and logs out; the primitives are simple stand-ins.
use quick_price.Prelude.{
  Bool-cases, ◌==◌, inl, inr, not, ℕ, ◌≡◌, if◌then◌else◌, refl, arith, true, false, none, some,
  String, List, [], ◌∷◌,
}
use text.Mathlib.Text.{◌==◌ as str_eq}
use quick_price.Prelude.Dict.{get, pop}
use quick_price.Limiter.{consume, charge, refill, find_bucket, drop_stale}
use quick_price.Prelude.Texts.{String-discrete}
use quick_price.Admin.State.{
  Primitives, Settings, Account, Session, Security, Login, AccessRequest, granted,
}
use quick_price.Admin.Sessions.{prune, is_expired}
use quick_price.Admin.Calls.{login, authorize}
use quick_price.Admin.Codes.{
  Event, logs_in, authorizes, step, codes, Increasing, Coded, admitted, admitted-Increasing,
}
use quick_price.Admin.Access.{IsAllowed, IsShown, authorize-granted}
use quick_price.Admin.Bounds.{step-IsBounded}
use quick_price.Admin.Table.{IsBounded}
use quick_price.Admin.Sessions.{agent_digest}
use quick_price.Admin.Change.{AccountChange, Store, change_account}
use quick_price.Admin.Rotation.{IsRotated, change_account-IsRotated}

abbrev simple : Primitives
simple = record {
  len = λ t. 6;
  first_1024 = λ t. t;
  is_six_digits = λ t. not (str_eq t "");
  sha256 = λ t. t;
  totp_code = λ n. if n == 2 then "222222" else if n == 3 then "333333" else "000000";
  verify_password = λ password verifier. str_eq password verifier;
}

abbrev settings : Settings
settings = record { configured = true; idle_seconds = 300; absolute_seconds = 900; ticks = 1 }

abbrev root : Account
root = record {
  username = "root";
  password_verifier = "secret";
  password_change_required = false;
  revision = "r1";
}

abbrev start : Security
start = record {
  sessions = [];
  last_totp_counter = none;
  ip_logins = [];
  all_logins = [];
  mutations = [];
  all_mutations = [];
  account_changes = [];
  all_account_changes = [];
}

abbrev attempt : String → ℕ → String → Login
attempt otp epoch raw = record {
  username = "root";
  password = "secret";
  otp = otp;
  client_ip = "ip";
  user_agent = "browser";
  epoch = epoch;
  now = epoch;
  limiter_now = epoch;
  raw_token = raw;
  csrf_token = "csrf";
}

abbrev events : List Event
events =
    logs_in (some root) false (attempt "222222" 60 "t1")
    ∷ logs_in (some root) false (attempt "222222" 61 "t2")
    ∷ logs_in (some root) false (attempt "333333" 62 "t3")
    ∷ []

-- the second login repeats the code of the first
codes_run : codes simple settings start events ≡ 2 ∷ 3 ∷ []
unfolding codes login consume charge refill find_bucket get drop_stale String-discrete pop
codes_run = refl

six_digits : (c : ℕ) → simple.is_six_digits (simple.totp_code c) ≡ true
six_digits c = elim (Bool-cases (c == 2)) [
  | inl e ↦ rw e refl
  | inr e ↦ elim (Bool-cases (c == 3)) [ inl f ↦ rw (e, f) refl | inr f ↦ rw (e, f) refl ]
]

admitted-Increasing_example :
    (cs : List ℕ) × Coded simple settings cs (admitted simple settings start events) × Increasing cs
admitted-Increasing_example = admitted-Increasing simple settings six_digits refl start events

abbrev session : Session
session = record {
  csrf_token = "csrf";
  user_agent_digest = "browser";
  created = 60;
  last_seen = 60;
  absolute_expires = 960;
  created_at_epoch = 60;
  client_ip = "ip";
  username = "root";
  account_revision = "r1";
  password_change_required = false;
}

abbrev inside : Security
inside = record start { sessions = ("t1", session) ∷ []; last_totp_counter = some 2 }

abbrev change : AccessRequest
change = record {
  session_token = some "t1";
  user_agent = "browser";
  csrf_token = some "csrf";
  mutation = true;
  allow_password_change_required = false;
  now = 100;
  limiter_now = 100;
}

let_through :
    (authorize simple settings inside (some root) change).1
    ≡ granted (record session { last_seen = 100 })
unfolding authorize get prune is_expired String-discrete consume charge refill find_bucket
    drop_stale
let_through = refl

authorize-granted_example :
    (a : Account) × (some root ≡ some a)
    × ((raw : String) × IsShown simple settings change.session_token raw
        × ((x : Session) × (get String-discrete (simple.sha256 raw) inside.sessions ≡ some x)
            × IsAllowed simple settings a change x
            × (record session { last_seen = 100 } ≡ record x { last_seen = 100 })))
authorize-granted_example =
    authorize-granted simple settings inside (some root) change (record session { last_seen = 100 })
      (unfold get in refl, tt) let_through

step-IsBounded_example :
    IsBounded (step simple settings inside (authorizes (some root) change)).sessions
step-IsBounded_example =
    step-IsBounded simple settings inside (authorizes (some root) change)
      (record { unique = (unfold get in refl, tt); few = omega arith })

abbrev new_account : Account
new_account = record {
  username = "root";
  password_verifier = "new";
  password_change_required = false;
  revision = "r2";
}

abbrev store : Store
store = record {
  first = some root;
  second = some root;
  check_busy = false;
  create_busy = false;
  is_username = true;
  is_password = true;
  replacement = some new_account;
}

abbrev account_change : AccountChange
account_change = record {
  session = session;
  session_digest = "t1";
  current_password = "secret";
  new_username = "root";
  new_password = "new";
  client_ip = "ip";
  user_agent = "browser";
  epoch = 100;
  now = 100;
  limiter_now = 100;
  raw_token = "t9";
  csrf_token = "csrf9";
}

changed : (change_account simple settings inside store (λ st. st) account_change).1 ≡ granted "t9"
unfolding change_account get String-discrete consume charge refill find_bucket drop_stale
    agent_digest
changed = refl

change_account-IsRotated_example :
    IsRotated simple settings store account_change
      (change_account simple settings inside store (λ st. st) account_change).0
      "t9"
change_account-IsRotated_example =
    change_account-IsRotated simple settings store account_change inside (λ st. st) "t9" changed
