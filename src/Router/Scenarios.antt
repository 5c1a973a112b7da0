-- ===== src/Router/Scenarios.antt =====
-- Runs of the router on concrete chains.
use quick_price.Prelude.{
  ℕ, ◌+◌, ◌≡◌, refl, ap, false, none, some, String, List, [], ◌∷◌, ◌++◌, ℕ_discrete,
}
use quick_price.Prelude.Int.{pos}
use quick_price.Prelude.Dict.{Dict, get, put}
use quick_price.Prelude.Texts.{String-discrete}
use quick_price.Circuit.{Settings, allow_call, record_failure, record_success, delay, backoff}
use quick_price.Router.Segments.{
  Point, set_default, merge_segment, merge_segments, sort_keys, limit_to, merge_history,
}
use quick_price.Router.Merged.{point_at, first_at, point_at-merge_history}
use quick_price.Router.Chain.{
  quote, Item, quoted, Reply, returns, times_out, fails, Turn, Request, Route, answered, all_failed,
  identity_error, checked_reply, attach_fallback, circuit_of, record_selection, success, conclude,
  take_turn, finish, dispatch,
}
use quick_price.Router.Answers.{dispatch-Answers, dispatch-prefix}
use quick_price.Router.Failures.{names, chain_names, dispatch-names}

abbrev point : ℕ → ℕ → String → Point
point t price provider = record {
  symbol = "BTC:USDC";
  timestamp = t;
  price = price;
  provider = provider;
}

abbrev segments : List (List Point)
segments =
    (point 120 7 "binance" ∷ point 60 6 "binance" ∷ [])
    ∷ (point 60 9 "okx" ∷ point 30 5 "okx" ∷ [])
    ∷ []

merge_history-segments :
    merge_history segments (some (pos 2)) ≡ point 30 5 "okx" ∷ point 60 6 "binance" ∷ []
unfolding merge_history merge_segments merge_segment set_default sort_keys limit_to get put
    ℕ_discrete
merge_history-segments = refl

point_at-merge_history_example :
    point_at 60 (merge_history segments none) ≡ some (point 60 6 "binance")
unfolding first_at point_at
point_at-merge_history_example = point_at-merge_history 60 segments

abbrev settings : Settings
settings = record {
  failure_threshold = 1;
  half_open_after = 60;
  max_backoff = 900;
  network_retry = 30;
}

abbrev request : Request
request = record {
  symbol = "BTC:USDC";
  capability = quote;
  start = none;
  interval = "1m";
  limit = none;
}

abbrev empty : Route
empty = record { circuits = []; fallbacks = []; selection = none }

abbrev turn : ℕ → String → ℕ → Reply → Turn
turn provider name at reply = record {
  provider = provider;
  name = name;
  prefix_limited = false;
  asked_at = at;
  meanwhile = λ c. c;
  reported_at = at + 1;
  reply = reply;
}

abbrev price : String → Reply
price symbol = returns (quoted (record { symbol = symbol; fallback_level = 0; content = 42 }))

-- the first provider answers for another symbol, the second in time
abbrev chain : List Turn
chain = turn 1 "binance" 10 (price "ETH:USDC") ∷ turn 2 "okx" 12 (price "BTC:USDC") ∷ []

abbrev served : Route
served = record {
  circuits =
      (1, record { consecutive_failures = 1; open_count = 1; open_until = 71; probing = false })
      ∷ (2, record { consecutive_failures = 0; open_count = 0; open_until = 0; probing = false })
      ∷ [];
  fallbacks = ("okx", 1) ∷ [];
  selection = some ("okx", 1);
}

abbrev btc_price : Item
btc_price = record { symbol = "BTC:USDC"; fallback_level = 1; content = 42 }

dispatch-chain : dispatch settings request empty chain ≡ (served, answered (quoted btc_price))
unfolding dispatch take_turn conclude success checked_reply identity_error attach_fallback
    circuit_of record_selection allow_call record_failure record_success delay backoff get put
    ℕ_discrete String-discrete
dispatch-chain = refl

dispatch-Answers_example : btc_price.symbol ≡ request.symbol
dispatch-Answers_example =
    dispatch-Answers settings request empty chain (quoted btc_price) (ap (λ r. r.1) dispatch-chain)

dispatch-prefix_example :
    dispatch settings request empty (chain ++ turn 3 "kraken" 14 times_out ∷ [])
    ≡ (served, answered (quoted btc_price))
dispatch-prefix_example =
    dispatch-prefix settings request empty served chain (turn 3 "kraken" 14 times_out ∷ [])
      (quoted btc_price) (λ e. cc) dispatch-chain

abbrev down : List Turn
down = turn 1 "binance" 10 times_out ∷ turn 2 "okx" 12 (fails false "status 500") ∷ []

dispatch-down :
    (dispatch settings request empty down).1
    ≡ all_failed (("binance", "timeout") ∷ ("okx", "status 500") ∷ [])
unfolding dispatch take_turn conclude success checked_reply identity_error attach_fallback
    circuit_of record_selection allow_call record_failure record_success delay backoff get put
    finish ℕ_discrete String-discrete
dispatch-down = refl

dispatch-names_example :
    names (("binance", "timeout") ∷ ("okx", "status 500") ∷ []) ≡ chain_names down
dispatch-names_example =
    dispatch-names settings request empty (turn 1 "binance" 10 times_out)
      (turn 2 "okx" 12 (fails false "status 500") ∷ [])
      (("binance", "timeout") ∷ ("okx", "status 500") ∷ []) ((λ x. x), ((λ x. x), tt)) dispatch-down

abbrev routes : Dict ℕ (List ℕ)
routes = (5, 1 ∷ 2 ∷ []) ∷ []
