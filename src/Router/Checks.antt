-- ===== src/Router/Checks.antt =====
-- providers/router.py, `_dispatch`: every answer has passed the check of its type and symbol.
use text.Mathlib.Text.{◌==◌ as str_eq}
use quick_price.Prelude.{
  ℕ, ◌≡◌, refl, inl, inr, Bool, true, false, ◌&&◌, not, none, String, List, [], ◌∷◌, ◌++◌, arith,
  All, All-append, Bool-cases, Option-cases,
}
use quick_price.Router.Every.{All-merge_history}
use quick_price.Circuit.{Circuit, Settings, allow_call, record_failure, record_success}
use quick_price.Router.Segments.{Point, merge_history, history_covers_start}
use quick_price.Router.Chain.{
  history, Payload, quoted, dividend_of, yield_of, no_dividend, other_object, points, Reply,
  returns, times_out, unsupported, busy, fails, crashes, Turn, Request, Route, Outcome, answered,
  all_symbols, identity_error, judge, checked_reply, attach_fallback, circuit_of, set_circuit,
  record_selection, Move, goes_on, breaks, answers, raises, after_failure, history_answer, success,
  conclude, take_turn, finish,
}

abbrev Named : String → Point → Type 0
Named symbol p = str_eq p.symbol symbol ≡ true

all_symbols-Named :
    (symbol : String) (ps : List Point) → all_symbols symbol ps ≡ true → All (Named symbol) ps
unfolding all_symbols
all_symbols-Named symbol [] h = tt
all_symbols-Named symbol (p ∷ ps) h = (ground arith, all_symbols-Named symbol ps (ground arith))

Named-all_symbols :
    (symbol : String) (ps : List Point) → All (Named symbol) ps → all_symbols symbol ps ≡ true
unfolding all_symbols
Named-all_symbols symbol [] h = refl
Named-all_symbols symbol (p ∷ ps) h = rw h.0 (Named-all_symbols symbol ps h.1)

-- Every segment was checked, and only a history has segments.
abbrev pub Checked : Request → List (List Point) → Type 0
Checked r [] = Unit
Checked r (s ∷ ss) = (r.capability ≡ history) × All (λ ps. all_symbols r.symbol ps ≡ true) (s ∷ ss)

abbrev pub IsOk : Request → Payload → Type 0
IsOk r p = identity_error r.symbol r.capability p ≡ none

-- What a turn must leave: checked segments, or an answer of the requested identity.
abbrev pub MoveChecked : Request → Move → Type 0
MoveChecked r (goes_on route m segments) = Checked r segments
MoveChecked r (breaks route m) = Unit
MoveChecked r (answers route p) = IsOk r p
MoveChecked r (raises route) = Unit

Checked-append :
    (r : Request) (ss : List (List Point)) (ps : List Point)
    → r.capability ≡ history
    → all_symbols r.symbol ps ≡ true
    → Checked r ss
    → Checked r (ss ++ ps ∷ [])
Checked-append r [] ps c h k = (c, (h, tt))
Checked-append r (s ∷ ss) ps c h k =
    (c, (k.1.0, All-append (λ qs. all_symbols r.symbol qs ≡ true) ss (ps ∷ []) k.1.1 (h, tt)))

all_symbols-each :
    (symbol : String) (ss : List (List Point))
    → All (λ ps. all_symbols symbol ps ≡ true) ss
    → All (All (Named symbol)) ss
all_symbols-each symbol [] h = tt
all_symbols-each symbol (s ∷ ss) h =
    (all_symbols-Named symbol s h.0, all_symbols-each symbol ss h.1)

history-IsOk :
    (r : Request) (ps : List Point)
    → r.capability ≡ history
    → all_symbols r.symbol ps ≡ true
    → IsOk r (points ps)
history-IsOk r ps c h = rw c (unfold identity_error in rw h)

merged-IsOk :
    (r : Request) (s : List Point) (ss : List (List Point))
    → Checked r (s ∷ ss)
    → IsOk r (points (merge_history (s ∷ ss) r.limit))
merged-IsOk r s ss k = history-IsOk r (merge_history (s ∷ ss) r.limit) k.0 (
    Named-all_symbols r.symbol (merge_history (s ∷ ss) r.limit) (
      All-merge_history (Named r.symbol) (s ∷ ss) r.limit (all_symbols-each r.symbol (s ∷ ss) k.1)))

points-IsOk :
    (r : Request) (ps : List Point)
    → IsOk r (points ps)
    → (r.capability ≡ history) × (all_symbols r.symbol ps ≡ true)
unfolding identity_error
points-IsOk r ps h = ground arith

history_answer-Checked :
    (r : Request) (level : ℕ) (t : Turn) (route : Route) (ss : List (List Point)) (ps : List Point)
    → Checked r ss
    → IsOk r (points ps)
    → MoveChecked r (history_answer r level t route ss ps)
unfolding history_answer
history_answer-Checked r level t route ss ps k h =
    let (c, named) = points-IsOk r ps h in
    elim (Bool-cases (t.prefix_limited && not (history_covers_start ps r.start r.interval))) [
      | inl e ↦ rw e (Checked-append r ss ps c named k)
      | inr e ↦ rw e (by_segments ss c named k)
    ]
  where
    by_segments :
        (qs : List (List Point))
        → r.capability ≡ history
        → all_symbols r.symbol ps ≡ true
        → Checked r qs
        → MoveChecked r (elim qs [
          | [] ↦ answers (record_selection route t.name level) (points ps)
          | s ∷ ss' ↦
              answers
                (record_selection route t.name level)
                (points (merge_history ((s ∷ ss') ++ ps ∷ []) r.limit))
        ])
    by_segments [] c named q = history-IsOk r ps c named
    by_segments (s ∷ rest) c named q =
        merged-IsOk r s (rest ++ ps ∷ []) (Checked-append r (s ∷ rest) ps c named q)

attach-IsOk : (r : Request) (level : ℕ) (p : Payload) → IsOk r p → IsOk r (attach_fallback level p)
unfolding identity_error attach_fallback
attach-IsOk r level p h = ground arith

success-Checked :
    (r : Request) (level : ℕ) (t : Turn) (route : Route) (ss : List (List Point)) (p : Payload)
    → Checked r ss
    → IsOk r p
    → MoveChecked r (success r level t route ss p)
unfolding success
success-Checked r level t route ss no_dividend k h = k
success-Checked r level t route ss (points []) k h = k
success-Checked r level t route ss (points (p ∷ ps)) k h =
    history_answer-Checked r level t route ss (p ∷ ps) k h
success-Checked r level t route ss (quoted i) k h = attach-IsOk r level (quoted i) h
success-Checked r level t route ss (dividend_of i) k h = attach-IsOk r level (dividend_of i) h
success-Checked r level t route ss (yield_of i) k h = attach-IsOk r level (yield_of i) h
success-Checked r level t route ss other_object k h = attach-IsOk r level other_object h

-- A reply that returns a payload returns one of the requested identity.
abbrev ReplyChecked : Request → Reply → Type 0
ReplyChecked r (returns p) = IsOk r p
ReplyChecked r _ = Unit

checked_reply-checked :
    (r : Request) (y : Reply) → ReplyChecked r (checked_reply r.symbol r.capability y)
unfolding checked_reply judge
checked_reply-checked r (returns p) = elim (Option-cases (identity_error r.symbol r.capability p)) [
  | inl e ↦ rw (e, judge) e
  | inr (m, e) ↦ rw (e, judge) tt
]
checked_reply-checked r times_out = tt
checked_reply-checked r (unsupported m) = tt
checked_reply-checked r (busy m) = tt
checked_reply-checked r (fails n m) = tt
checked_reply-checked r (crashes k) = tt

after_failure-Checked :
    (r : Request) (route : Route) (provider : ℕ) (m : String) (c : Circuit × Bool)
    (ss : List (List Point))
    → Checked r ss
    → MoveChecked r (after_failure route provider m c ss)
unfolding after_failure
after_failure-Checked r route provider m (c, true) ss k = k
after_failure-Checked r route provider m (c, false) ss k = tt

conclude-Checked :
    (s : Settings) (r : Request) (level : ℕ) (t : Turn) (route : Route) (c : Circuit)
    (ss : List (List Point)) (y : Reply)
    → Checked r ss
    → ReplyChecked r y
    → MoveChecked r (conclude s r level t route c ss y)
unfolding conclude
conclude-Checked s r level t route c ss (returns p) k h =
    success-Checked r level t (set_circuit route t.provider (record_success c)) ss p k h
conclude-Checked s r level t route c ss times_out k h =
    after_failure-Checked r route t.provider "timeout" (record_failure s c true t.reported_at) ss k
conclude-Checked s r level t route c ss (unsupported m) k h = k
conclude-Checked s r level t route c ss (busy m) k h = tt
conclude-Checked s r level t route c ss (fails n m) k h =
    after_failure-Checked r route t.provider m (record_failure s c n t.reported_at) ss k
conclude-Checked s r level t route c ss (crashes m) k h =
    after_failure-Checked r route t.provider m (record_failure s c false t.reported_at) ss k

pub take_turn-Checked :
    (s : Settings) (r : Request) (level : ℕ) (route : Route) (ss : List (List Point)) (t : Turn)
    → Checked r ss
    → MoveChecked r (take_turn s r level route ss t)
unfolding take_turn
take_turn-Checked s r level route ss t k =
    elim (Bool-cases (allow_call (circuit_of route t.provider) t.asked_at).1) [
      | inl e ↦ rw e (
          conclude-Checked s r level t _ _ ss (checked_reply r.symbol r.capability t.reply) k
            (checked_reply-checked r t.reply))
      | inr e ↦ rw e k
    ]

abbrev pub OutcomeChecked : Request → Outcome → Type 0
OutcomeChecked r (answered p) = IsOk r p
OutcomeChecked r _ = Unit

pub finish-Checked :
    (r : Request) (attempts : List (String × String)) (ss : List (List Point))
    → Checked r ss
    → OutcomeChecked r (finish r attempts ss)
unfolding finish
finish-Checked r attempts [] k = tt
finish-Checked r attempts (s ∷ ss) k = merged-IsOk r s ss k
