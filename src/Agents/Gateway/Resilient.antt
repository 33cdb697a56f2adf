-- ===== src/Agents/Gateway/Resilient.antt =====
-- agents/gateway.py: `ResilientGateway`. The breaker's state stands beside the world's. `clock` reads
-- the monotonic clock and `sleep` waits; both are the world's. Metrics and logs are left out.
use sep.Base.{ℕ, zero, suc, ◌+◌, ◌*◌, Bool, true, false, if◌then◌else◌}
use sep.Core.Errors.{Result, ok, err, model_error}
use sep.Agents.Gateway.{ModelRequest, ModelResponse, ModelGateway}
use sep.Agents.Gateway.Breaker.{CircuitBreaker, allow, record_call, is_open}

pub two_to : ℕ → ℕ
two_to zero = 1
two_to (suc n) = 2 * two_to n

module _ {W : Type 0} (clock : W → ℕ) (sleep : ℕ → W → W) (inner : ModelGateway W)
    (backoff : ℕ) where
  -- `if attempt < self._retries: self._sleep(...)`, where `left` attempts are to follow.
  unfoldable pub pause : ℕ → ℕ → W → W
  unfolding two_to
  pause zero attempt w = w
  pause (suc left) attempt w = sleep (backoff * two_to attempt) w

  -- What follows the call of the inner gateway: `rest` is the loop's next pass.
  unfoldable pub settle :
      (CircuitBreaker × W → Result ModelResponse × (CircuitBreaker × W))
      → ℕ
      → ℕ
      → Result ModelResponse
      → CircuitBreaker × W
      → Result ModelResponse × (CircuitBreaker × W)
  unfolding pause
  settle rest left attempt (ok response) (b, w) = (ok response, (record_call (clock w) true b, w))
  settle rest left attempt (err model_error) (b, w) =
      let b' = record_call (clock w) false b in
      if is_open b' then (err model_error, (b', w)) else rest (b', pause left attempt w)
  settle rest left attempt (err e) (b, w) = (err e, (b, w))

  -- for attempt in range(self._retries + 1)
  unfoldable pub attempts :
      ℕ → ℕ → ModelRequest → CircuitBreaker × W → Result ModelResponse × (CircuitBreaker × W)
  unfolding settle
  attempts zero attempt request s = (err model_error, s)
  attempts (suc left) attempt request (b, w) =
      let (r, w') = inner.complete request w in
      settle (attempts left (attempt + 1) request) left attempt r (b, w')

  unfoldable pub admitted :
      ℕ → ModelRequest → Bool → CircuitBreaker × W → Result ModelResponse × (CircuitBreaker × W)
  unfolding attempts
  admitted retries request false s = (err model_error, s)
  admitted retries request true s = attempts (retries + 1) 0 request s

  unfoldable pub complete :
      ℕ → ModelRequest → CircuitBreaker × W → Result ModelResponse × (CircuitBreaker × W)
  unfolding admitted
  complete retries request (b, w) =
      let (go, b') = allow (clock w) b in admitted retries request go (b', w)

  abbrev pub resilient : ℕ → ModelGateway (CircuitBreaker × W)
  resilient retries = record { model_id = inner.model_id; complete = complete retries }
