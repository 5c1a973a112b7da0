-- ===== src/Router/Answers.antt =====
-- providers/router.py, `_dispatch`: what a request is answered, and by whom.
use quick_price.Prelude.{
  ℕ, suc, ◌≡◌, ◌≢◌, refl, ap, ◌∙◌, true, false, none, some, All, arith, if◌then◌else◌, String, List,
  [], ◌∷◌, ◌++◌,
}
use quick_price.Circuit.{Settings, allow_call, release_probe}
use quick_price.Router.Segments.{Point}
use quick_price.Router.Chain.{
  Capability, quote, dividend, yield_rate, quoted, dividend_of, yield_of, points, no_dividend,
  other_object, all_symbols,
}
use text.Mathlib.Text.{◌==◌ as str_eq}
use text.Mathlib.TextEquality.{eq_iff}
use quick_price.Router.Chain.{
  history, Payload, Reply, busy, Turn, Request, Route, Outcome, answered, overflow_error,
  identity_error, circuit_of, set_circuit, Move, goes_on, breaks, answers, raises, checked_reply,
  conclude, take_turn, finish, dispatch_from, dispatch,
}
use quick_price.Router.Checks.{
  Checked, MoveChecked, OutcomeChecked, take_turn-Checked, finish-Checked,
}

-- How the loop goes on after a turn.
abbrev pub follow :
    Request
    → List (String × String)
    → List (List Point)
    → Turn
    → (Route → List (String × String) → List (List Point) → Route × Outcome)
    → Move
    → Route × Outcome
follow r attempts ss t next (goes_on route m ss') = next route (attempts ++ (t.name, m) ∷ []) ss'
follow r attempts ss t next (breaks route m) = (route, finish r (attempts ++ (t.name, m) ∷ []) ss)
follow r attempts ss t next (answers route p) = (route, answered p)
follow r attempts ss t next (raises route) = (route, overflow_error)

pub dispatch_from-follow :
    (s : Settings) (r : Request) (level : ℕ) (route : Route) (attempts : List (String × String))
    (ss : List (List Point)) (t : Turn) (ts : List Turn)
    → dispatch_from s r level route attempts ss (t ∷ ts)
      ≡ follow r attempts ss t
          (λ a b c. dispatch_from s r (suc level) a b c ts)
          (take_turn s r level route ss t)
unfolding dispatch_from
dispatch_from-follow s r level route attempts ss t ts =
    by_move (take_turn s r level route ss t) refl
  where
    by_move :
        (m : Move)
        → take_turn s r level route ss t ≡ m
        → dispatch_from s r level route attempts ss (t ∷ ts)
          ≡ follow r attempts ss t (λ a b c. dispatch_from s r (suc level) a b c ts) m
    by_move (goes_on a b c) e = rw (e, dispatch_from)
    by_move (breaks a b) e = rw (e, dispatch_from)
    by_move (answers a b) e = rw (e, dispatch_from)
    by_move (raises a) e = rw (e, dispatch_from)

follow-Checked :
    (r : Request) (attempts : List (String × String)) (ss : List (List Point)) (t : Turn)
    (next : Route → List (String × String) → List (List Point) → Route × Outcome) (m : Move)
    → Checked r ss
    → MoveChecked r m
    → ((a : Route) (b : List (String × String)) (c : List (List Point))
        → Checked r c
        → OutcomeChecked r (next a b c).1)
    → OutcomeChecked r (follow r attempts ss t next m).1
follow-Checked r attempts ss t next (goes_on a b c) k h n = n a _ c h
follow-Checked r attempts ss t next (breaks a b) k h n = finish-Checked r _ ss k
follow-Checked r attempts ss t next (answers a p) k h n = h
follow-Checked r attempts ss t next (raises a) k h n = tt

dispatch_from-Checked :
    (s : Settings) (r : Request) (level : ℕ) (route : Route) (attempts : List (String × String))
    (ss : List (List Point)) (ts : List Turn)
    → Checked r ss
    → OutcomeChecked r (dispatch_from s r level route attempts ss ts).1
dispatch_from-Checked s r level route attempts ss [] k =
    unfold dispatch_from in finish-Checked r attempts ss k
dispatch_from-Checked s r level route attempts ss (t ∷ ts) k = rw dispatch_from-follow (
    follow-Checked r attempts ss t (λ a b c. dispatch_from s r (suc level) a b c ts)
      (take_turn s r level route ss t) k (take_turn-Checked s r level route ss t k)
      (λ a b c h. dispatch_from-Checked s r (suc level) a b c ts h))

-- A quote, a yield or a dividend has the symbol, and so has every point of a history; a dividend may
-- also be none at all. No other payload answers.
abbrev pub Answers : String → Capability → Payload → Type 0
Answers symbol quote (quoted i) = i.symbol ≡ symbol
Answers symbol history (points ps) = All (λ q. q.symbol ≡ symbol) ps
Answers symbol dividend no_dividend = Unit
Answers symbol dividend (dividend_of i) = i.symbol ≡ symbol
Answers symbol yield_rate (yield_of i) = i.symbol ≡ symbol
Answers symbol _ _ = ⊥

all_symbols-each :
    (symbol : String) (ps : List Point)
    → all_symbols symbol ps ≡ true
    → All (λ q. q.symbol ≡ symbol) ps
unfolding all_symbols
all_symbols-each symbol [] h = tt
all_symbols-each symbol (q ∷ ps) h =
    ((eq_iff q.symbol symbol).0 (ground arith), all_symbols-each symbol ps (ground arith))

same_symbol : (a b m : String) → (if str_eq a b then none else some m) ≡ none → a ≡ b
same_symbol a b m h = (eq_iff a b).0 (ground arith)

same_symbols :
    (symbol m : String) (ps : List Point)
    → (if all_symbols symbol ps then none else some m) ≡ none
    → All (λ q. q.symbol ≡ symbol) ps
same_symbols symbol m ps h = all_symbols-each symbol ps (ground arith)

IsOk-Answers :
    (symbol : String) (c : Capability) (p : Payload)
    → identity_error symbol c p ≡ none
    → Answers symbol c p
unfolding identity_error
IsOk-Answers symbol quote (quoted i) h = same_symbol i.symbol symbol _ h
IsOk-Answers symbol quote (dividend_of i) h = absurd (cc h)
IsOk-Answers symbol quote (yield_of i) h = absurd (cc h)
IsOk-Answers symbol quote (points ps) h = absurd (cc h)
IsOk-Answers symbol quote no_dividend h = absurd (cc h)
IsOk-Answers symbol quote other_object h = absurd (cc h)
IsOk-Answers symbol history (points ps) h = same_symbols symbol _ ps h
IsOk-Answers symbol history (quoted i) h = absurd (cc h)
IsOk-Answers symbol history (dividend_of i) h = absurd (cc h)
IsOk-Answers symbol history (yield_of i) h = absurd (cc h)
IsOk-Answers symbol history no_dividend h = absurd (cc h)
IsOk-Answers symbol history other_object h = absurd (cc h)
IsOk-Answers symbol dividend no_dividend h = tt
IsOk-Answers symbol dividend (dividend_of i) h = same_symbol i.symbol symbol _ h
IsOk-Answers symbol dividend (quoted i) h = absurd (cc h)
IsOk-Answers symbol dividend (yield_of i) h = absurd (cc h)
IsOk-Answers symbol dividend (points ps) h = absurd (cc h)
IsOk-Answers symbol dividend other_object h = absurd (cc h)
IsOk-Answers symbol yield_rate (yield_of i) h = same_symbol i.symbol symbol _ h
IsOk-Answers symbol yield_rate (quoted i) h = absurd (cc h)
IsOk-Answers symbol yield_rate (dividend_of i) h = absurd (cc h)
IsOk-Answers symbol yield_rate (points ps) h = absurd (cc h)
IsOk-Answers symbol yield_rate no_dividend h = absurd (cc h)
IsOk-Answers symbol yield_rate other_object h = absurd (cc h)

-- Whatever the providers reply, a request is only ever answered with a payload of the type that
-- its capability asks for, in which every item, a merged history's too, has the symbol that was
-- asked for.
pub dispatch-Answers :
    (s : Settings) (r : Request) (route : Route) (ts : List Turn) (p : Payload)
    → (dispatch s r route ts).1 ≡ answered p
    → Answers r.symbol r.capability p
unfolding dispatch
dispatch-Answers s r route [] p h = absurd (cc h)
dispatch-Answers s r route (t ∷ ts) p h =
    IsOk-Answers r.symbol r.capability p
      (rw h at (dispatch_from-Checked s r 0 route [] [] (t ∷ ts) tt))

-- A turn that the loop goes on from leaves no segment, unless a history was asked for.
no_segments :
    (r : Request) (ss : List (List Point)) → r.capability ≢ history → Checked r ss → ss ≡ []
no_segments r [] n k = refl
no_segments r (s ∷ ss) n k = absurd (n k.0)

answered-append :
    (s : Settings) (r : Request) (level : ℕ) (route route' : Route)
    (attempts : List (String × String)) (ts more : List Turn) (p : Payload)
    → r.capability ≢ history
    → dispatch_from s r level route attempts [] ts ≡ (route', answered p)
    → dispatch_from s r level route attempts [] (ts ++ more) ≡ (route', answered p)
answered-append s r level route route' attempts [] more p n h = unfold dispatch_from finish in cc
answered-append s r level route route' attempts (t ∷ ts) more p n h = rw dispatch_from-follow (
    by_move (take_turn s r level route [] t) (take_turn-Checked s r level route [] t tt)
      (rw dispatch_from-follow at h)
      (λ a b. answered-append s r (suc level) a route' b ts more p n))
  where
    by_move :
        (m : Move)
        → MoveChecked r m
        → follow r attempts [] t (λ a b c. dispatch_from s r (suc level) a b c ts) m
          ≡ (route', answered p)
        → ((a : Route) (b : List (String × String))
            → dispatch_from s r (suc level) a b [] ts ≡ (route', answered p)
            → dispatch_from s r (suc level) a b [] (ts ++ more) ≡ (route', answered p))
        → follow r attempts [] t (λ a b c. dispatch_from s r (suc level) a b c (ts ++ more)) m
          ≡ (route', answered p)
    by_move (goes_on a b c) k e rec =
        let none_yet : c ≡ [] = no_segments r c n k in
        rw none_yet (rec a (attempts ++ (t.name, b) ∷ []) (rw none_yet at e))
    by_move (breaks a b) k e rec = e
    by_move (answers a q) k e rec = e
    by_move (raises a) k e rec = e

-- Once a provider has answered a quote, dividend or yield request, the providers behind it in the
-- chain are neither asked nor reported on: with any others, or none, in their places, the answer
-- and all that the router keeps are the same.
pub dispatch-prefix :
    (s : Settings) (r : Request) (route route' : Route) (ts more : List Turn) (p : Payload)
    → r.capability ≢ history
    → dispatch s r route ts ≡ (route', answered p)
    → dispatch s r route (ts ++ more) ≡ (route', answered p)
unfolding dispatch
dispatch-prefix s r route route' [] more p n h = cc
dispatch-prefix s r route route' (t ∷ ts) more p n h =
    answered-append s r 0 route route' [] (t ∷ ts) more p n h

-- A provider whose circuit refuses the call is not asked: whatever it would reply, and whenever,
-- the request goes the same way.
pub dispatch_from-refused :
    (s : Settings) (r : Request) (level reported_at : ℕ) (route : Route)
    (attempts : List (String × String)) (ss : List (List Point)) (t : Turn) (reply : Reply)
    (ts : List Turn)
    → (allow_call (circuit_of route t.provider) t.asked_at).1 ≡ false
    → dispatch_from s r level route attempts ss
        (record t { reported_at = reported_at; reply = reply } ∷ ts)
      ≡ dispatch_from s r level route attempts ss (t ∷ ts)
unfolding dispatch_from take_turn
dispatch_from-refused s r level reported_at route attempts ss t reply ts h =
    rw (h, dispatch_from, take_turn)

take_turn-busy :
    (s : Settings) (r : Request) (level : ℕ) (route : Route) (ss : List (List Point)) (t : Turn)
    (message : String)
    → (allow_call (circuit_of route t.provider) t.asked_at).1 ≡ true
    → t.reply ≡ busy message
    → take_turn s r level route ss t
      ≡ breaks
          (set_circuit
            (set_circuit route t.provider (allow_call (circuit_of route t.provider) t.asked_at).0)
            t.provider
            (release_probe (t.meanwhile (allow_call (circuit_of route t.provider) t.asked_at).0)))
          message
unfolding take_turn checked_reply conclude
take_turn-busy s r level route ss t message h e = rw h (rw e)

-- A provider that is let through and is busy ends the request: no provider behind it is asked,
-- and its own circuit loses only its probe.
pub dispatch_from-busy :
    (s : Settings) (r : Request) (level : ℕ) (route : Route) (attempts : List (String × String))
    (ss : List (List Point)) (t : Turn) (message : String) (ts : List Turn)
    → (allow_call (circuit_of route t.provider) t.asked_at).1 ≡ true
    → t.reply ≡ busy message
    → dispatch_from s r level route attempts ss (t ∷ ts) ≡ (
      set_circuit
          (set_circuit route t.provider (allow_call (circuit_of route t.provider) t.asked_at).0)
          t.provider
          (release_probe (t.meanwhile (allow_call (circuit_of route t.provider) t.asked_at).0)),
      finish r (attempts ++ (t.name, message) ∷ []) ss,
    )
dispatch_from-busy s r level route attempts ss t message ts h e =
    dispatch_from-follow s r level route attempts ss t ts
    ∙ ap (follow r attempts ss t (λ a b c. dispatch_from s r (suc level) a b c ts))
        (take_turn-busy s r level route ss t message h e)
