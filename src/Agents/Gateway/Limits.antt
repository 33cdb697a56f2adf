-- ===== src/Agents/Gateway/Limits.antt =====
-- agents/gateway.py: how often `ResilientGateway` calls its endpoint, and what the breaker is after.
use sep.Base.{
  ℕ, zero, suc, ◌+◌, ◌-◌, ◌*◌, ap, ◌≤◌, ◌<◌, ◌≡◌, refl, Bool, true, false, none, some, leb, inl,
  inr, Bool-cases, leb→le, leb→gt, sym, ◌∙◌, arith,
}
use sep.Core.Errors.{Result, ok, err, model_error}
use sep.Agents.Gateway.{ModelRequest, ModelResponse, ModelGateway}
use sep.Agents.Gateway.Breaker.{
  CircuitBreaker, allow, record_call, is_open, IsSound, allow-IsSound, record_call-IsSound,
  new_breaker, new_breaker-IsSound, allow-threshold, record_call-threshold, allow-closed,
  allow-late,
}
use sep.Agents.Gateway.Resilient.{settle, attempts, admitted, complete, pause}

-- `count` reads off a world how many calls of the endpoint it has seen.
pub record Counts {W : Type 0} (sleep : ℕ → W → W) (inner : ModelGateway W) (count : W → ℕ)
    : Type 0 where
  pub once : (request : ModelRequest) (w : W) → count (inner.complete request w).1 ≡ count w + 1
  pub asleep : (time : ℕ) (w : W) → count (sleep time w) ≡ count w

module _ {W : Type 0} (clock : W → ℕ) (sleep : ℕ → W → W) (inner : ModelGateway W) (backoff : ℕ)
    (count : W → ℕ) (counts : Counts sleep inner count) where
  pause-quiet :
      (left attempt : ℕ) (w : W) → count (pause clock sleep inner backoff left attempt w) ≡ count w
  unfolding pause
  pause-quiet zero attempt w = refl
  pause-quiet (suc left) attempt w = counts.asleep _ w

  -- At most `left` calls of the endpoint, and a sound breaker with the threshold `k`.
  abbrev Sound : ℕ → CircuitBreaker → Type 0
  Sound k b = IsSound b × (b.threshold ≡ k)

  abbrev Within : ℕ → ℕ → W → Result ModelResponse × (CircuitBreaker × W) → Type 0
  Within k left w out = (count out.1.1 ≤ count w + left) × Sound k out.1.0

  recorded :
      (k now : ℕ) (fine : Bool) (b : CircuitBreaker) → Sound k b → Sound k (record_call now fine b)
  recorded k now fine b (v, at) =
      (record_call-IsSound now fine b v, record_call-threshold now fine b ∙ at)

  settle-Within :
      (rest : CircuitBreaker × W → Result ModelResponse × (CircuitBreaker × W)) (k left attempt : ℕ)
      (r : Result ModelResponse) (b : CircuitBreaker) (w : W)
      → ((b : CircuitBreaker) (w : W) → Sound k b → Within k left w (rest (b, w)))
      → Sound k b
      → Within k left w (settle clock sleep inner backoff rest left attempt r (b, w))
  unfolding settle
  settle-Within rest k left attempt (ok r) b w h v = (omega arith, recorded k (clock w) true b v)
  settle-Within rest k left attempt (err model_error) b w h v =
      let b' = record_call (clock w) false b in
      let v' = recorded k (clock w) false b v in
      let w' = pause clock sleep inner backoff left attempt w in
      let (few, sound) = h b' w' v' in
      elim (Bool-cases (is_open b')) [
        | inl shut ↦ rw shut (omega arith, v')
        | inr open_still ↦ rw open_still (omega (arith, few, pause-quiet left attempt w), sound)
      ]
  settle-Within rest k left attempt (err _) b w h v = (omega arith, v)

  attempts-Within :
      (k left attempt : ℕ) (request : ModelRequest) (b : CircuitBreaker) (w : W)
      → Sound k b
      → Within k left w (attempts clock sleep inner backoff left attempt request (b, w))
  unfolding attempts
  attempts-Within k zero attempt request b w v = (omega arith, v)
  attempts-Within k (suc left) attempt request b w v =
      let (r, w') = inner.complete request w in
      let (few, sound) =
        settle-Within (attempts clock sleep inner backoff left (attempt + 1) request) k left attempt
          r b w' (λ b'' w'' v''. attempts-Within k left (attempt + 1) request b'' w'' v'') v in
      (omega (arith, few, counts.once request w), sound)

  admitted-Within :
      (k retries : ℕ) (request : ModelRequest) (go : Bool) (b : CircuitBreaker) (w : W)
      → Sound k b
      → Within k (retries + 1) w (admitted clock sleep inner backoff retries request go (b, w))
  unfolding admitted
  admitted-Within k retries request false b w v = (omega arith, v)
  admitted-Within k retries request true b w v = attempts-Within k (retries + 1) 0 request b w v

  complete-Within :
      (k retries : ℕ) (request : ModelRequest) (b : CircuitBreaker) (w : W)
      → Sound k b
      → Within k (retries + 1) w (complete clock sleep inner backoff retries request (b, w))
  unfolding complete
  complete-Within k retries request b w (v, at) =
      let (go, b') = allow (clock w) b in
      admitted-Within k retries request go b' w
        (allow-IsSound (clock w) b v, allow-threshold (clock w) b ∙ at)

  -- What becomes of a new breaker and of the world it was made in: time passes, or anything else
  -- happens that calls the endpoint not at all, and requests are served, here `n` of them.
  pub data Served (threshold reset_seconds retries : ℕ) (w₀ : W)
      : ℕ → CircuitBreaker × W → Type 0 where
    begins : Served threshold reset_seconds retries w₀ 0 (new_breaker threshold reset_seconds, w₀)
    waits :
        {n : ℕ} {b : CircuitBreaker} {w : W} (w' : W)
        → Served threshold reset_seconds retries w₀ n (b, w)
        → count w' ≡ count w
        → Served threshold reset_seconds retries w₀ n (b, w')
    asks :
        {n : ℕ} {b : CircuitBreaker} {w : W} (request : ModelRequest)
        → Served threshold reset_seconds retries w₀ n (b, w)
        → Served threshold reset_seconds retries w₀
            (suc n)
            (complete clock sleep inner backoff retries request (b, w)).1

  -- A breaker is made with a threshold of at least 1, and `n` requests are served behind it one after
  -- another, whatever the endpoint answers and whatever time passes between them. Then the endpoint
  -- was called at most `n * (retries + 1)` times, the breaker has the threshold that it was made with,
  -- and the circuit is open exactly when the failures counted have reached that threshold.
  pub complete-within :
      (threshold reset_seconds retries n : ℕ) (w₀ w : W) (b : CircuitBreaker)
      → 1 ≤ threshold
      → Served threshold reset_seconds retries w₀ n (b, w)
      → (count w ≤ count w₀ + n * (retries + 1))
        × (b.threshold ≡ threshold)
        × (is_open b ≡ leb threshold b.failures)
  complete-within threshold reset_seconds retries n w₀ w b positive s =
      let (few, (v, at)) = bounded n (b, w) s in
      (few, at, v.reached ∙ ap (λ k. leb k b.failures) at)
    where
      bounded :
          (n : ℕ) (s : CircuitBreaker × W)
          → Served threshold reset_seconds retries w₀ n s
          → (count s.1 ≤ count w₀ + n * (retries + 1)) × Sound threshold s.0
      bounded zero s Served.begins =
          (omega arith, (new_breaker-IsSound threshold reset_seconds positive, refl))
      bounded n s (Served.waits {b = b} {w = w} w' before same) =
          let (few, sound) = bounded n (b, w) before in (omega (arith, few, same), sound)
      bounded (suc n) s (Served.asks {b = b} {w = w} request before) =
          let (few, sound) = bounded n (b, w) before in
          let (more, sound') = complete-Within threshold retries request b w sound in
          (grind (arith, few, more), sound')

  -- What a failed call leaves, at the threshold and below it.
  settle-tripped :
      (rest : CircuitBreaker × W → Result ModelResponse × (CircuitBreaker × W)) (left attempt : ℕ)
      (b : CircuitBreaker) (w : W)
      → leb b.threshold (b.failures + 1) ≡ true
      → settle clock sleep inner backoff rest left attempt (err model_error) (b, w)
        ≡ (err model_error, (record b { failures = b.failures + 1; opened_at = some (clock w) }, w))
  unfolding settle record_call is_open
  settle-tripped rest left attempt b w h = rw h refl

  settle-again :
      (rest : CircuitBreaker × W → Result ModelResponse × (CircuitBreaker × W)) (left attempt : ℕ)
      (b : CircuitBreaker) (w : W)
      → leb b.threshold (b.failures + 1) ≡ false
      → is_open b ≡ false
      → settle clock sleep inner backoff rest left attempt (err model_error) (b, w)
        ≡ rest
            (record b { failures = b.failures + 1 }, pause clock sleep inner backoff left attempt w)
  unfolding settle record_call is_open
  settle-again rest left attempt b w h shut = rw (h, shut) refl

  module _
      (dead : (request : ModelRequest) (w : W)
        → (inner.complete request w).0 ≡ err model_error) where
    -- The failures of `b` were brought to the threshold, one call for each, and the circuit opened.
    abbrev Tripped : CircuitBreaker → W → Result ModelResponse × (CircuitBreaker × W) → Type 0
    Tripped b w out =
        (out.0 ≡ err model_error)
        × (count out.1.1 + b.failures ≡ count w + b.threshold)
        × (is_open out.1.0 ≡ true)

    attempts-Tripped :
        (left attempt : ℕ) (request : ModelRequest) (b : CircuitBreaker) (w : W)
        → IsSound b
        → is_open b ≡ false
        → b.threshold ≤ b.failures + left
        → Tripped b w (attempts clock sleep inner backoff left attempt request (b, w))
    unfolding attempts
    attempts-Tripped zero attempt request b w v shut enough =
        absurd (omega (arith, leb→gt b.threshold b.failures (sym v.reached ∙ shut)))
    attempts-Tripped (suc left) attempt request b w v shut enough =
        let w' = (inner.complete request w).1 in
        let below : b.failures < b.threshold =
          leb→gt b.threshold b.failures (sym v.reached ∙ shut) in
        let next = attempts clock sleep inner backoff left (attempt + 1) request in
        elim (Bool-cases (leb b.threshold (b.failures + 1))) [
          | inl reached ↦
              rw (dead request w, settle-tripped next left attempt b w' reached)
                (
                  refl,
                  omega (
                    arith,
                    below,
                    leb→le b.threshold (b.failures + 1) reached,
                    counts.once request w,
                  ),
                  unfold is_open in refl,
                )
          | inr more ↦
              let b'' : CircuitBreaker = record b { failures = b.failures + 1 } in
              let v'' : IsSound b'' = record {
                positive = v.positive;
                reached = unfold is_open in (shut ∙ sym more);
              } in
              let (failed, called, opened) =
                attempts-Tripped left (attempt + 1) request b''
                  (pause clock sleep inner backoff left attempt w') v'' (unfold is_open in shut)
                  (omega (arith, enough)) in
              rw (dead request w, settle-again next left attempt b w' more shut)
                (
                  failed,
                  omega (arith, called, counts.once request w, pause-quiet left attempt w'),
                  opened,
                )
        ]

    -- An endpoint that fails every call, behind a closed breaker whose failures are below its
    -- threshold, which these attempts can bring it to: the request raises ModelError after exactly as
    -- many calls as failures were missing, and leaves the circuit open.
    pub complete-trips :
        (retries : ℕ) (request : ModelRequest) (b : CircuitBreaker) (w : W)
        → IsSound b
        → is_open b ≡ false
        → b.threshold ≤ b.failures + (retries + 1)
        → ((complete clock sleep inner backoff retries request (b, w)).0 ≡ err model_error)
          × (count (complete clock sleep inner backoff retries request (b, w)).1.1 + b.failures
              ≡ count w + b.threshold)
          × (is_open (complete clock sleep inner backoff retries request (b, w)).1.0 ≡ true)
    unfolding complete
    complete-trips retries request b w v shut enough =
        rw (allow-closed (clock w) b shut, admitted)
          (attempts-Tripped (retries + 1) 0 request b w v shut enough)

    -- An endpoint that fails every call, behind a breaker with a threshold of at least 1 that was
    -- opened at `opened`, with the reset time passed: one call is let through, whatever the retries,
    -- ModelError is raised and the circuit is open again.
    pub half_open-once :
        (retries opened : ℕ) (request : ModelRequest) (b : CircuitBreaker) (w : W)
        → 1 ≤ b.threshold
        → b.opened_at ≡ some opened
        → b.reset_seconds ≤ clock w - opened
        → ((complete clock sleep inner backoff retries request (b, w)).0 ≡ err model_error)
          × (count (complete clock sleep inner backoff retries request (b, w)).1.1 ≡ count w + 1)
          × (is_open (complete clock sleep inner backoff retries request (b, w)).1.0 ≡ true)
    unfolding complete
    half_open-once retries opened request b w positive at late =
        let b' : CircuitBreaker = record b { opened_at = none; failures = b.threshold - 1 } in
        let v' : IsSound b' = record {
          positive = positive;
          reached = unfold is_open in ground arith;
        } in
        let (failed, called, again) =
          attempts-Tripped (retries + 1) 0 request b' w v' (unfold is_open in refl) (omega arith) in
        rw (allow-late (clock w) b opened at late, admitted) (failed, omega (arith, called), again)
