-- ===== src/Router/Chain.antt =====
-- providers/router.py, `_dispatch`: one request goes down the chain of its providers.
-- The router's dictionaries are keyed by the symbol and the capability, which one dispatch keeps
-- fixed, so `Route` is their part for that pair. A turn holds what the environment decides when a
-- provider's turn comes: the clock when its circuit is asked and when a report is made, what other
-- requests do to the circuit in the `meanwhile`, and the reply of the awaited method, its time limit
-- included. Metrics and log lines are left out.
use text.Mathlib.Text.{◌==◌ as str_eq}
use quick_price.Prelude.{
  ℕ, suc, ◌+◌, max, Bool, true, false, not, ◌&&◌, Option, none, some, String, List, [], ◌∷◌, ◌++◌,
  ◌==◌, if◌then◌else◌, ℕ_discrete,
}
use quick_price.Prelude.Int.{ℤ}
use quick_price.Prelude.Dict.{Dict, get, put}
use quick_price.Prelude.Texts.{String-discrete}
use quick_price.Circuit.{
  Circuit, Settings, fresh, allow_call, record_failure, record_success, release_probe,
}
use quick_price.Router.Segments.{Point, merge_history, history_covers_start}

pub data Capability : Type 0 where
  quote history dividend yield_rate : Capability

-- A `ProviderQuote`, `DividendEvent` or `YieldMetric`, with the fields that routing reads; the
-- rest is an opaque number. A dividend has no `fallback_level`, and its 0 here stays unread.
pub record Item : Type 0 where
  pub symbol : String
  pub fallback_level : ℕ
  pub content : ℕ

-- What an adapter's method may return.
pub data Payload : Type 0 where
  quoted dividend_of yield_of : Item → Payload
  no_dividend other_object : Payload
  points : List Point → Payload

-- The reply of the awaited method.
pub data Reply : Type 0 where
  returns : Payload → Reply
  times_out : Reply
  unsupported busy : String → Reply
  fails : Bool → String → Reply
  crashes : String → Reply

pub record Turn : Type 0 where
  pub provider : ℕ
  pub name : String
  pub prefix_limited : Bool
  pub asked_at : ℕ
  pub meanwhile : Circuit → Circuit
  pub reported_at : ℕ
  pub reply : Reply

-- The arguments of the request: `start`, `interval` and `limit` are those of a history.
pub record Request : Type 0 where
  pub symbol : String
  pub capability : Capability
  pub start : Option ℕ
  pub interval : String
  pub limit : Option ℤ

pub record Route : Type 0 where
  pub circuits : Dict ℕ Circuit
  pub fallbacks : Dict String ℕ
  pub selection : Option (String × ℕ)

pub data Outcome : Type 0 where
  answered : Payload → Outcome
  all_failed : List (String × String) → Outcome
  overflow_error : Outcome

-- `_validate_result_identity`: the items of a result, or none if it is of another type
unfoldable pub all_symbols : String → List Point → Bool
all_symbols symbol [] = true
all_symbols symbol (p ∷ ps) = str_eq p.symbol symbol && all_symbols symbol ps

unfoldable pub identity_error : String → Capability → Payload → Option String
unfolding all_symbols
identity_error symbol quote (quoted i) =
    if str_eq i.symbol symbol then none else some "quote response symbol mismatch"
identity_error symbol quote _ = some "invalid quote response type"
identity_error symbol history (points ps) =
    if all_symbols symbol ps then none else some "history response symbol mismatch"
identity_error symbol history _ = some "invalid history response type"
identity_error symbol dividend no_dividend = none
identity_error symbol dividend (dividend_of i) =
    if str_eq i.symbol symbol then none else some "dividend response symbol mismatch"
identity_error symbol dividend _ = some "invalid dividend response type"
identity_error symbol yield_rate (yield_of i) =
    if str_eq i.symbol symbol then none else some "yield response symbol mismatch"
identity_error symbol yield_rate _ = some "invalid yield response type"

unfoldable pub judge : Payload → Option String → Reply
judge p none = returns p
judge p (some message) = fails false message

-- A result of another instrument is raised as `ProviderUnavailable`.
unfoldable pub checked_reply : String → Capability → Reply → Reply
unfolding judge
checked_reply symbol capability (returns p) = judge p (identity_error symbol capability p)
checked_reply symbol capability r = r

-- `_attach_fallback`: quotes and yields carry a level, points and dividends have no such field
unfoldable pub attach_fallback : ℕ → Payload → Payload
attach_fallback level (quoted i) = quoted (record i { fallback_level = max i.fallback_level level })
attach_fallback level (yield_of i) =
    yield_of (record i { fallback_level = max i.fallback_level level })
attach_fallback level p = p

unfoldable pub circuit_or_fresh : Option Circuit → Circuit
circuit_or_fresh none = fresh
circuit_or_fresh (some c) = c

unfoldable pub count_or_zero : Option ℕ → ℕ
count_or_zero none = 0
count_or_zero (some n) = n

unfoldable pub circuit_of : Route → ℕ → Circuit
unfolding circuit_or_fresh
circuit_of route provider = circuit_or_fresh (get ℕ_discrete provider route.circuits)

abbrev pub set_circuit : Route → ℕ → Circuit → Route
set_circuit route provider c = record route { circuits = put ℕ_discrete provider c route.circuits }

-- `_record_route_selection`
unfoldable pub record_selection : Route → String → ℕ → Route
unfolding count_or_zero
record_selection route name level =
    let chosen : Route = record route { selection = some (name, level) } in
    if level == 0 then chosen else record chosen {
      fallbacks =
          put String-discrete name (count_or_zero (get String-discrete name route.fallbacks) + 1)
            route.fallbacks;
    }

-- How a provider's turn ends: the loop goes on, it ends early, the request is answered, or the
-- exception of `_record_failure` leaves the loop.
pub data Move : Type 0 where
  goes_on : Route → String → List (List Point) → Move
  breaks : Route → String → Move
  answers : Route → Payload → Move
  raises : Route → Move

unfoldable pub after_failure : Route → ℕ → String → Circuit × Bool → List (List Point) → Move
after_failure route provider message (c, true) segments =
    goes_on (set_circuit route provider c) message segments
after_failure route provider message (c, false) segments = raises (set_circuit route provider c)

unfoldable pub select_fallback : Route → String → ℕ → Route
unfolding record_selection
select_fallback route name level = if level == 0 then route else record_selection route name level

-- A history that is not empty, from the test on `history_prefix_limited` on.
unfoldable pub history_answer : Request → ℕ → Turn → Route → List (List Point) → List Point → Move
unfolding select_fallback
history_answer r level t route segments ps =
    if t.prefix_limited && not (history_covers_start ps r.start r.interval)
    then goes_on (select_fallback route t.name level) "incomplete_prefix" (segments ++ ps ∷ [])
    else elim segments [
      | [] ↦ answers (record_selection route t.name level) (points ps)
      | s ∷ ss ↦
          answers (record_selection route t.name level)
            (points (merge_history ((s ∷ ss) ++ ps ∷ []) r.limit))
    ]

-- A result that passed its check, after `_record_success`.
unfoldable pub success : Request → ℕ → Turn → Route → List (List Point) → Payload → Move
success r level t route segments no_dividend = goes_on route "no_data" segments
success r level t route segments (points []) = goes_on route "no_data" segments
success r level t route segments (points (p ∷ ps)) =
    history_answer r level t route segments (p ∷ ps)
success r level t route segments p =
    answers (record_selection route t.name level) (attach_fallback level p)

-- The `try` statement with its handlers.
unfoldable pub conclude :
    Settings → Request → ℕ → Turn → Route → Circuit → List (List Point) → Reply → Move
unfolding after_failure
conclude s r level t route c segments (returns p) =
    success r level t (set_circuit route t.provider (record_success c)) segments p
conclude s r level t route c segments times_out =
    after_failure route t.provider "timeout" (record_failure s c true t.reported_at) segments
conclude s r level t route c segments (unsupported message) =
    goes_on (set_circuit route t.provider (release_probe c)) message segments
conclude s r level t route c segments (busy message) =
    breaks (set_circuit route t.provider (release_probe c)) message
conclude s r level t route c segments (fails network message) =
    after_failure route t.provider message (record_failure s c network t.reported_at) segments
conclude s r level t route c segments (crashes kind) =
    after_failure route t.provider kind (record_failure s c false t.reported_at) segments

-- One round of the loop.
unfoldable pub take_turn : Settings → Request → ℕ → Route → List (List Point) → Turn → Move
take_turn s r level route segments t =
    let (c, allowed) = allow_call (circuit_of route t.provider) t.asked_at in
    if allowed
    then conclude s r level t (set_circuit route t.provider c) (t.meanwhile c) segments
        (checked_reply r.symbol r.capability t.reply)
    else goes_on (set_circuit route t.provider c) "circuit_open" segments

-- After the loop.
unfoldable pub finish : Request → List (String × String) → List (List Point) → Outcome
finish r attempts [] = all_failed attempts
finish r attempts (s ∷ ss) = answered (points (merge_history (s ∷ ss) r.limit))

unfoldable pub dispatch_from :
    Settings
    → Request
    → ℕ
    → Route
    → List (String × String)
    → List (List Point)
    → List Turn
    → Route × Outcome
dispatch_from s r level route attempts segments [] = (route, finish r attempts segments)
dispatch_from s r level route attempts segments (t ∷ ts) =
    elim (take_turn s r level route segments t) [
      | goes_on route' message segments' ↦
          dispatch_from s r (suc level) route' (attempts ++ (t.name, message) ∷ []) segments' ts
      | breaks route' message ↦ (route', finish r (attempts ++ (t.name, message) ∷ []) segments)
      | answers route' p ↦ (route', answered p)
      | raises route' ↦ (route', overflow_error)
    ]

-- `_dispatch` on the chain of a route; a route that is not configured has no turns.
unfoldable pub dispatch : Settings → Request → Route → List Turn → Route × Outcome
unfolding dispatch_from
dispatch s r route [] = (route, all_failed (("router", "not configured") ∷ []))
dispatch s r route (t ∷ ts) = dispatch_from s r 0 route [] [] (t ∷ ts)
