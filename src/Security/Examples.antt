-- ===== src/Security/Examples.antt =====
-- Runs of packages/security on concrete inputs.
use universal_agent_protocol.Base.{
  List, ℕ, Option, none, ◌≡◌, refl, ◌≤◌, ◌<◌, ◌↔◌, ◌*◌, ◌+◌, ◌-◌, true, false, some, [], ◌∷◌, Text,
  codes, arith, length, text_eq,
}
use universal_agent_protocol.Security.Breaker.{CircuitBreaker, new, is_open, record_success}
use universal_agent_protocol.Security.Breaker.Laws.{
  IsValid, ask, failure, apply_all, apply_all-new-IsValid, Attempt, asked, failed, after_attempts,
  IsPrompt, trips_exactly,
}
use universal_agent_protocol.Security.RateLimit.{
  RateLimitRule, Buckets, get, capacity, check, sweep,
}
use universal_agent_protocol.Security.RateLimit.Budget.{check_all, check_all_bounded}
use universal_agent_protocol.Security.RateLimit.Sweep.{HasDistinctKeys, check-sweep}
use universal_agent_protocol.Security.IpRules.{
  public_address, classify_ipv4, dotted, classify_groups, Groups,
}
use universal_agent_protocol.Security.IpRules.Octets.{
  IsGlobal, classify_ipv4_iff, mapped, classify_groups-carried_iff,
}

abbrev breaker : CircuitBreaker
breaker = new 2 1000

apply_all-new-IsValid_example :
    IsValid (apply_all (new 2 1000) (failure 10 ∷ ask 20 ∷ failure 30 ∷ ask 500 ∷ ask 2000 ∷ []))
apply_all-new-IsValid_example =
    apply_all-new-IsValid (failure 10 ∷ ask 20 ∷ failure 30 ∷ ask 500 ∷ ask 2000 ∷ []) 2 1000
      (omega arith)

abbrev attempts : List Attempt
attempts = asked 90 ∷ failed 100 ∷ asked 150 ∷ failed 300 ∷ failed 400 ∷ asked 500 ∷ []

trips_exactly_example :
    (3 < breaker.threshold
      → (is_open (after_attempts (record_success breaker) attempts) 600).1 ≡ false)
    × ((at : ℕ)
        → ◌≡◌ {A = Option ℕ} (some 400) (some at)
        → IsPrompt 1000 none attempts
        → ((is_open (after_attempts (record_success breaker) attempts) 600).1 ≡ true)
          ↔ ((breaker.threshold ≤ 3) × (600 < at + breaker.cooldown_ms)))
unfolding new
trips_exactly_example = trips_exactly breaker attempts 600

-- two calls a second, and three at once
abbrev rule : RateLimitRule
rule = record { limit = 2; interval_ms = 1000; burst = some 3 }

abbrev key : Text
key = codes "tenant"

abbrev spent : Buckets
spent = (key, record { tokens = 400; updated_at = 100 }) ∷ []

abbrev mixed : Buckets
mixed =
    (codes "idle", record { tokens = 2500; updated_at = 0 })
    ∷ (key, record { tokens = 400; updated_at = 900 })
    ∷ []

check_all_bounded_example :
    (check_all rule key (0 ∷ 10 ∷ 20 ∷ 30 ∷ 600 ∷ []) []).1 * 1000
    ≤ capacity rule * 1000 + (600 - 0) * 2
unfolding get
check_all_bounded_example =
    check_all_bounded rule key 0 (10 ∷ 20 ∷ 30 ∷ 600 ∷ []) [] (omega arith) refl
      (omega arith, (omega arith, (omega arith, (omega arith, tt))))

check-sweep_example :
    ((check rule 1200 key (sweep rule 1000 mixed).0).1 ≡ (check rule 1200 key mixed).1)
    × HasDistinctKeys (sweep rule 1000 mixed).0
    × (length (sweep rule 1000 mixed).0 + (sweep rule 1000 mixed).1 ≡ length mixed)
unfolding get text_eq
check-sweep_example = check-sweep rule 1000 1200 key mixed (omega arith) (refl, (refl, tt))

classify_ipv4_iff_example :
    (classify_ipv4 (dotted 172 20 0 1) ≡ public_address) ↔ IsGlobal 172 20 0 1
classify_ipv4_iff_example =
    classify_ipv4_iff 172 20 0 1 (omega arith) (omega arith) (omega arith) (omega arith)

-- ::ffff:169.254.1.2
abbrev mapped_link_local : Groups
mapped_link_local = record {
  g0 = 0;
  g1 = 0;
  g2 = 0;
  g3 = 0;
  g4 = 0;
  g5 = 0xffff;
  g6 = 43518;
  g7 = 258;
}

classify_groups-carried_iff_example :
    (classify_groups mapped_link_local ≡ public_address) ↔ IsGlobal 169 254 1 2
classify_groups-carried_iff_example =
    classify_groups-carried_iff 43518 258 mapped_link_local (omega arith) (omega arith) mapped
