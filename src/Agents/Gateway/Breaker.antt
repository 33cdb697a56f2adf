-- ===== src/Agents/Gateway/Breaker.antt =====
-- agents/gateway.py: `CircuitBreaker`. Times are in the least unit of the monotonic clock, which
-- never goes back. With a threshold of
-- 0 the source would count from -1 after the reset; the next failure opens the circuit there too.
use sep.Base.{
  ℕ, ◌+◌, ◌-◌, ◌≤◌, ◌≡◌, refl, Bool, true, false, Option, none, some, leb, if◌then◌else◌, le→leb,
  arith,
}

pub record CircuitBreaker : Type 0 where
  pub threshold : ℕ
  pub reset_seconds : ℕ
  pub failures : ℕ
  pub opened_at : Option ℕ

-- `__init__`
abbrev pub new_breaker : ℕ → ℕ → CircuitBreaker
new_breaker threshold reset_seconds = record {
  threshold = threshold;
  reset_seconds = reset_seconds;
  failures = 0;
  opened_at = none;
}

allow_open : ℕ → CircuitBreaker → Option ℕ → Bool × CircuitBreaker
allow_open now b none = (true, b)
allow_open now b (some opened) =
    if leb b.reset_seconds (now - opened)
    then (true, record b { opened_at = none; failures = b.threshold - 1 })
    else (false, b)

-- `now` is the reading of the clock.
unfoldable pub allow : ℕ → CircuitBreaker → Bool × CircuitBreaker
unfolding allow_open
allow now b = allow_open now b b.opened_at

-- `record`
unfoldable pub record_call : ℕ → Bool → CircuitBreaker → CircuitBreaker
record_call now true b = record b { failures = 0; opened_at = none }
record_call now false b =
    let failures = b.failures + 1 in
    if leb b.threshold failures
    then record b { failures = failures; opened_at = some now }
    else record b { failures = failures }

unfoldable pub is_open : CircuitBreaker → Bool
is_open b = elim b.opened_at [ none ↦ false | some t ↦ true ]

-- The circuit is open exactly when the failures have reached the threshold.
pub record IsSound (b : CircuitBreaker) : Type 0 where
  pub positive : 1 ≤ b.threshold
  pub reached : is_open b ≡ leb b.threshold b.failures

allow_open-IsSound :
    (now : ℕ) (b : CircuitBreaker) (o : Option ℕ) → IsSound b → IsSound (allow_open now b o).1
unfolding allow_open is_open
allow_open-IsSound now b none v = v
allow_open-IsSound now b (some opened) v = ground arith

pub allow-IsSound : (now : ℕ) (b : CircuitBreaker) → IsSound b → IsSound (allow now b).1
unfolding allow
allow-IsSound now b v = allow_open-IsSound now b b.opened_at v

pub record_call-IsSound :
    (now : ℕ) (ok : Bool) (b : CircuitBreaker) → IsSound b → IsSound (record_call now ok b)
unfolding record_call is_open
record_call-IsSound now true b v = ground arith
record_call-IsSound now false b v = ground arith

pub allow-closed : (now : ℕ) (b : CircuitBreaker) → is_open b ≡ false → allow now b ≡ (true, b)
unfolding allow allow_open is_open
allow-closed now b h = closed b.opened_at h
  where
    closed :
        (o : Option ℕ)
        → (elim o [ none ↦ false | some t ↦ true ]) ≡ false
        → allow_open now b o ≡ (true, b)
    closed none h = refl
    closed (some t) h = ground arith

-- After the reset time one call is let through, one failure short of the threshold.
pub allow-late :
    (now : ℕ) (b : CircuitBreaker) (opened : ℕ)
    → b.opened_at ≡ some opened
    → b.reset_seconds ≤ now - opened
    → allow now b ≡ (true, record b { opened_at = none; failures = b.threshold - 1 })
unfolding allow
allow-late now b opened at late = rw (at, allow_open) (rw (le→leb b.reset_seconds _ late) refl)

pub new_breaker-IsSound :
    (threshold reset_seconds : ℕ) → 1 ≤ threshold → IsSound (new_breaker threshold reset_seconds)
unfolding is_open
new_breaker-IsSound threshold reset_seconds positive = record {
  positive = positive;
  reached = ground arith;
}

-- The settings of a breaker never change.
allow_open-threshold :
    (now : ℕ) (b : CircuitBreaker) (o : Option ℕ) → (allow_open now b o).1.threshold ≡ b.threshold
unfolding allow_open
allow_open-threshold now b none = refl
allow_open-threshold now b (some opened) = ground arith

pub allow-threshold : (now : ℕ) (b : CircuitBreaker) → (allow now b).1.threshold ≡ b.threshold
unfolding allow
allow-threshold now b = allow_open-threshold now b b.opened_at

pub record_call-threshold :
    (now : ℕ) (ok : Bool) (b : CircuitBreaker) → (record_call now ok b).threshold ≡ b.threshold
unfolding record_call
record_call-threshold now true b = refl
record_call-threshold now false b = ground arith
