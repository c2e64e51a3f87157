-- ===== src/Security/Breaker.antt =====
-- packages/security/src/locks.ts: `CircuitBreaker`. The clock is an argument; a time is a number of
-- milliseconds.
pub mod Laws
use universal_agent_protocol.Base.{
  ℕ, ◌+◌, Bool, true, false, Option, none, some, leb, if◌then◌else◌,
}

pub record CircuitBreaker : Type 0 where
  pub threshold : ℕ
  pub cooldown_ms : ℕ
  pub failures : ℕ
  pub opened_at : Option ℕ

-- the constructor; the defaults of the source are 5 and 30 000
unfoldable pub new : ℕ → ℕ → CircuitBreaker
new threshold cooldown_ms = record {
  threshold = threshold;
  cooldown_ms = cooldown_ms;
  failures = 0;
  opened_at = none;
}

-- `isOpen`, which closes a breaker whose cooldown is over; `now - openedAt >= cooldownMs` is written
-- as a sum, so that a clock that went back is read as in the source.
open_at : CircuitBreaker → ℕ → Option ℕ → CircuitBreaker × Bool
open_at b now none = (b, false)
open_at b now (some at) =
    if leb (at + b.cooldown_ms) now
    then (record b { opened_at = none; failures = 0 }, false)
    else (b, true)

unfoldable pub is_open : CircuitBreaker → ℕ → CircuitBreaker × Bool
unfolding open_at
is_open b now = open_at b now b.opened_at

unfoldable pub record_success : CircuitBreaker → CircuitBreaker
record_success b = record b { failures = 0; opened_at = none }

unfoldable pub record_failure : CircuitBreaker → ℕ → CircuitBreaker
record_failure b now =
    let b' = record b { failures = b.failures + 1 } in
    if leb b'.threshold b'.failures then record b' { opened_at = some now } else b'
