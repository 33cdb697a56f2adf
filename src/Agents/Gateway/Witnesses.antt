-- ===== src/Agents/Gateway/Witnesses.antt =====
-- The theorems about the gateways at concrete inputs. The world is the number of calls seen.
use sep.Base.{
  ℕ, ◌+◌, ◌*◌, leb, ◌≤◌, ◌≡◌, refl, String, true, false, none, some, List, [], ◌∷◌, arith,
}
use sep.Core.Errors.{ok, err, model_error}
use sep.Agents.Gateway.{ModelRequest, ModelResponse, ModelGateway}
use sep.Agents.Gateway.Breaker.{CircuitBreaker, new_breaker, allow, record_call, is_open, IsSound}
use sep.Agents.Gateway.Resilient.{complete}
use sep.Agents.Gateway.Limits.{Counts, Served, complete-within, complete-trips, half_open-once}
use sep.Agents.Gateway.Fallback.{
  try_chain, turn, none_called, one_down, EndedAt, try_chain-first, try_chain-answers,
}
use sep.Agents.Gateway.Caching as Caching

abbrev request : ModelRequest
request = record {
  model_id = "qwen";
  prompt_id = "investigate";
  prompt_version = "1";
  system = "";
  user = "EP-1";
  max_tokens = 100;
}

abbrev reply : String → ModelResponse
reply model = record {
  text = "{}";
  model_id = model;
  cached = false;
  prompt_tokens = none;
  completion_tokens = none;
}

abbrev down_gateway : ModelGateway ℕ
down_gateway = record { model_id = "qwen"; complete = λ _ w. (err model_error, w + 1) }

abbrev up_gateway : ModelGateway ℕ
up_gateway = record { model_id = "spare"; complete = λ r w. (ok (reply r.model_id), w + 1) }

abbrev clock : ℕ → ℕ
clock w = 100 + w

abbrev sleep : ℕ → ℕ → ℕ
sleep time w = w

abbrev counted : Counts sleep down_gateway (λ w. w)
counted = record { once = λ _ _. refl; asleep = λ _ _. refl }

abbrev closed : CircuitBreaker
closed = record { threshold = 3; reset_seconds = 30; failures = 1; opened_at = none }

abbrev opened : CircuitBreaker
opened = record { threshold = 3; reset_seconds = 30; failures = 3; opened_at = some 60 }

closed-IsSound : IsSound closed
unfolding is_open
closed-IsSound = record { positive = omega arith; reached = refl }

-- Two requests behind a new breaker, over an endpoint that is down.
abbrev after_two : CircuitBreaker × ℕ
after_two =
    let (b, w) = (complete clock sleep down_gateway 2 4 request (new_breaker 3 60, 0)).1 in
    (complete clock sleep down_gateway 2 4 request (b, w)).1

two-Served : Served clock sleep down_gateway 2 (λ w. w) counted 3 60 4 0 2 after_two
two-Served = Served.asks request (Served.waits _ (Served.asks request Served.begins) refl)

complete-within_example :
    (after_two.1 ≤ 0 + 2 * (4 + 1))
    × (after_two.0.threshold ≡ 3)
    × (is_open after_two.0 ≡ leb 3 after_two.0.failures)
complete-within_example =
    complete-within clock sleep down_gateway 2 (λ w. w) counted 3 60 4 2 0 after_two.1 after_two.0
      (omega arith) two-Served

-- Three calls opened the circuit, and the second request was not sent.
two_called : after_two ≡ (record (new_breaker 3 60) { failures = 3; opened_at = some 103 }, 3)
unfolding complete allow is_open record_call
two_called = refl

complete-trips_example :
    ((complete clock sleep down_gateway 2 4 request (closed, 0)).0 ≡ err model_error)
    × ((complete clock sleep down_gateway 2 4 request (closed, 0)).1.1 + 1 ≡ 0 + 3)
    × (is_open (complete clock sleep down_gateway 2 4 request (closed, 0)).1.0 ≡ true)
complete-trips_example =
    complete-trips clock sleep down_gateway 2 (λ w. w) counted (λ _ _. refl) 4 request closed 0
      closed-IsSound (unfold is_open in refl) (omega arith)

half_open-once_example :
    ((complete clock sleep down_gateway 2 4 request (opened, 0)).0 ≡ err model_error)
    × ((complete clock sleep down_gateway 2 4 request (opened, 0)).1.1 ≡ 0 + 1)
    × (is_open (complete clock sleep down_gateway 2 4 request (opened, 0)).1.0 ≡ true)
half_open-once_example =
    half_open-once clock sleep down_gateway 2 (λ w. w) counted (λ _ _. refl) 4 60 request opened 0
      (omega arith) refl (omega arith)

abbrev chain : List (ModelGateway ℕ)
chain = down_gateway ∷ up_gateway ∷ []

try_chain-first_example : EndedAt request chain 0 (ok (reply "spare"), 2)
unfolding try_chain turn
try_chain-first_example = try_chain-first chain request 0 (reply "spare") 2 refl

try_chain-answers_example : try_chain chain request 0 ≡ (ok (reply "spare"), 2)
try_chain-answers_example =
    try_chain-answers (down_gateway ∷ []) [] up_gateway request 0 1 2 (reply "spare")
      (one_down refl none_called) refl

complete-replayed_example :
    Caching.complete
      (λ r. r.user)
      up_gateway
      request
      (record { request_hash = "EP-1"; model_id = "qwen"; response = "{}" } ∷ [], 7)
    ≡ (
      ok (Caching.recorded "{}" "qwen"),
      (record { request_hash = "EP-1"; model_id = "qwen"; response = "{}" } ∷ [], 7),
    )
unfolding Caching.complete Caching.insert_ignore
complete-replayed_example =
    Caching.complete-replayed (λ r. r.user) up_gateway request []
      (record { request_hash = "EP-1"; model_id = "qwen"; response = "{}" } ∷ []) 0 1 7
      (reply "qwen") refl
