-- ===== src/Router/Failures.antt =====
-- providers/router.py, `_dispatch`: what a failed request reports.
use quick_price.Prelude.{
  ℕ, suc, ◌≡◌, ◌∙◌, Bool, true, false, String, List, [], ◌∷◌, ◌++◌, map, All, Bool-cases,
  Option-cases, inl, inr, ◌&&◌, not,
}
use mathlib.Core.List.{append_assoc, append-nil, map-append}
use quick_price.Circuit.{Circuit, Settings, allow_call}
use quick_price.Router.Segments.{Point, history_covers_start}
use quick_price.Router.Chain.{
  Payload, Reply, busy, Turn, Request, Route, all_failed, identity_error, circuit_of, Move, goes_on,
  breaks, answers, raises, checked_reply, conclude, judge, after_failure, history_answer, success,
  returns, times_out, unsupported, fails, crashes, points, take_turn, finish, dispatch_from,
  dispatch,
}
use quick_price.Router.Answers.{follow, dispatch_from-follow}

-- How a turn ends that no busy provider had: the loop does not break.
abbrev NoBreak : Move → Type 0
NoBreak (breaks a m) = ⊥
NoBreak _ = Unit

abbrev pub IsBusy : Reply → Type 0
IsBusy (busy m) = Unit
IsBusy _ = ⊥

after_failure-NoBreak :
    (route : Route) (provider : ℕ) (m : String) (c : Circuit × Bool) (ss : List (List Point))
    → NoBreak (after_failure route provider m c ss)
unfolding after_failure
after_failure-NoBreak route provider m (c, true) ss = tt
after_failure-NoBreak route provider m (c, false) ss = tt

history_answer-NoBreak :
    (r : Request) (level : ℕ) (t : Turn) (route : Route) (ss : List (List Point)) (ps : List Point)
    → NoBreak (history_answer r level t route ss ps)
unfolding history_answer
history_answer-NoBreak r level t route [] ps =
    elim (Bool-cases (t.prefix_limited && not (history_covers_start ps r.start r.interval))) [
      | inl e ↦ rw e tt
      | inr e ↦ rw e tt
    ]
history_answer-NoBreak r level t route (s ∷ ss) ps =
    elim (Bool-cases (t.prefix_limited && not (history_covers_start ps r.start r.interval))) [
      | inl e ↦ rw e tt
      | inr e ↦ rw e tt
    ]

success-NoBreak :
    (r : Request) (level : ℕ) (t : Turn) (route : Route) (ss : List (List Point)) (p : Payload)
    → NoBreak (success r level t route ss p)
unfolding success
success-NoBreak r level t route ss (points (p ∷ ps)) =
    history_answer-NoBreak r level t route ss (p ∷ ps)
success-NoBreak r level t route ss _ = tt

conclude-NoBreak :
    (s : Settings) (r : Request) (level : ℕ) (t : Turn) (route : Route) (c : Circuit)
    (ss : List (List Point)) (y : Reply)
    → ¬ IsBusy y
    → NoBreak (conclude s r level t route c ss y)
unfolding conclude
conclude-NoBreak s r level t route c ss (returns p) h = success-NoBreak r level t _ ss p
conclude-NoBreak s r level t route c ss times_out h = after_failure-NoBreak route t.provider _ _ ss
conclude-NoBreak s r level t route c ss (unsupported m) h = tt
conclude-NoBreak s r level t route c ss (busy m) h = h tt
conclude-NoBreak s r level t route c ss (fails n m) h =
    after_failure-NoBreak route t.provider _ _ ss
conclude-NoBreak s r level t route c ss (crashes m) h =
    after_failure-NoBreak route t.provider _ _ ss

checked_reply-IsBusy :
    (r : Request) (y : Reply) → ¬ IsBusy y → ¬ IsBusy (checked_reply r.symbol r.capability y)
unfolding checked_reply judge
checked_reply-IsBusy r (returns p) h =
    elim (Option-cases (identity_error r.symbol r.capability p)) [
      | inl e ↦ rw (e, judge) (λ x. x)
      | inr (m, e) ↦ rw (e, judge) (λ x. x)
    ]
checked_reply-IsBusy r times_out h = h
checked_reply-IsBusy r (unsupported m) h = h
checked_reply-IsBusy r (busy m) h = h
checked_reply-IsBusy r (fails n m) h = h
checked_reply-IsBusy r (crashes m) h = h

take_turn-NoBreak :
    (s : Settings) (r : Request) (level : ℕ) (route : Route) (ss : List (List Point)) (t : Turn)
    → ¬ IsBusy t.reply
    → NoBreak (take_turn s r level route ss t)
unfolding take_turn
take_turn-NoBreak s r level route ss t h =
    elim (Bool-cases (allow_call (circuit_of route t.provider) t.asked_at).1) [
      | inl e ↦ rw e (
          conclude-NoBreak s r level t _ _ ss (checked_reply r.symbol r.capability t.reply)
            (checked_reply-IsBusy r t.reply h))
      | inr e ↦ rw e tt
    ]

abbrev pub names : List (String × String) → List String
names = map (λ a. a.0)

abbrev pub chain_names : List Turn → List String
chain_names = map (λ t. t.name)

finish-attempts :
    (r : Request) (attempts failed : List (String × String)) (ss : List (List Point))
    → finish r attempts ss ≡ all_failed failed
    → failed ≡ attempts
unfolding finish
finish-attempts r attempts failed [] h = cc
finish-attempts r attempts failed (s ∷ ss) h = cc

names-dispatch_from :
    (s : Settings) (r : Request) (level : ℕ) (route : Route)
    (attempts failed : List (String × String)) (ss : List (List Point)) (ts : List Turn)
    → All (λ t. ¬ IsBusy t.reply) ts
    → (dispatch_from s r level route attempts ss ts).1 ≡ all_failed failed
    → names failed ≡ names attempts ++ chain_names ts
names-dispatch_from s r level route attempts failed ss [] q h =
    rw (finish-attempts r attempts failed ss (unfold dispatch_from in h)) (rw append-nil)
names-dispatch_from s r level route attempts failed ss (t ∷ ts) q h =
    by_move (take_turn s r level route ss t) (take_turn-NoBreak s r level route ss t q.0)
      (rw dispatch_from-follow at h)
      (λ a b c. names-dispatch_from s r (suc level) a b failed c ts q.1)
  where
    by_move :
        (m : Move)
        → NoBreak m
        → (follow r attempts ss t (λ a b c. dispatch_from s r (suc level) a b c ts) m).1
          ≡ all_failed failed
        → ((a : Route) (b : List (String × String)) (c : List (List Point))
            → (dispatch_from s r (suc level) a b c ts).1 ≡ all_failed failed
            → names failed ≡ names b ++ chain_names ts)
        → names failed ≡ names attempts ++ chain_names (t ∷ ts)
    by_move (goes_on a b c) k e rec =
        rec a (attempts ++ (t.name, b) ∷ []) c e ∙ simp (map-append, append_assoc)
    by_move (breaks a b) k e rec = absurd k
    by_move (answers a p) k e rec = cc
    by_move (raises a) k e rec = cc

-- If no provider of a chain that is not empty was busy and all of them failed, the error lists
-- every provider once, in the order of the chain.
pub dispatch-names :
    (s : Settings) (r : Request) (route : Route) (t : Turn) (ts : List Turn)
    (failed : List (String × String))
    → All (λ u. ¬ IsBusy u.reply) (t ∷ ts)
    → (dispatch s r route (t ∷ ts)).1 ≡ all_failed failed
    → names failed ≡ chain_names (t ∷ ts)
unfolding dispatch
dispatch-names s r route t ts failed q h = names-dispatch_from s r 0 route [] failed [] (t ∷ ts) q h
