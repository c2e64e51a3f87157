-- ===== src/Security/Breaker/Laws.antt =====
-- The breaker opens exactly after enough failures in a row, and for exactly the cooldown.
use universal_agent_protocol.Base.{
  ℕ, suc, leb, map, refl, sym, subst, ◌∙◌, if◌then◌else◌, ◌+◌, ◌≡◌, ◌≤◌, ◌<◌, ◌↔◌, true, false,
  Option, none, some, List, [], ◌∷◌, arith,
}
use universal_agent_protocol.Security.Breaker.{
  CircuitBreaker, new, is_open, record_success, record_failure,
}

-- A breaker that is not tripped has failed fewer times than the threshold.
abbrev pub Counted : Option ℕ → ℕ → ℕ → Type 0
Counted none failures threshold = failures < threshold
Counted (some _) failures threshold = threshold ≤ failures

pub record IsValid (b : CircuitBreaker) : Type 0 where
  pub counted : Counted b.opened_at b.failures b.threshold
  pub positive : 0 < b.threshold

pub data Event : Type 0 where
  ask success failure : ℕ → Event

pub apply : CircuitBreaker → Event → CircuitBreaker
apply b (ask now) = (is_open b now).0
apply b (success now) = record_success b
apply b (failure now) = record_failure b now

pub apply_all : CircuitBreaker → List Event → CircuitBreaker
apply_all b [] = b
apply_all b (e ∷ es) = apply_all (apply b e) es

apply-IsValid : (b : CircuitBreaker) (e : Event) → IsValid b → IsValid (apply b e)
unfolding apply is_open record_success record_failure
apply-IsValid b (ask now) v = ground arith
apply-IsValid b (success now) v = ground arith
apply-IsValid b (failure now) v = ground arith

apply_all-IsValid : (es : List Event) (b : CircuitBreaker) → IsValid b → IsValid (apply_all b es)
unfolding apply_all
apply_all-IsValid [] b v = v
apply_all-IsValid (e ∷ es) b v = apply_all-IsValid es (apply b e) (apply-IsValid b e v)

-- Whatever events a new breaker with a positive threshold has seen, it is tripped exactly if the
-- failures counted since it was last closed reach the threshold.
pub apply_all-new-IsValid :
    (es : List Event) (threshold cooldown_ms : ℕ)
    → 0 < threshold
    → IsValid (apply_all (new threshold cooldown_ms) es)
unfolding new
apply_all-new-IsValid es threshold cooldown_ms h =
    apply_all-IsValid es (new threshold cooldown_ms) (record { counted = h; positive = h })

-- What happens to a breaker between two successes.
pub data Attempt : Type 0 where
  asked failed : ℕ → Attempt

event_of : Attempt → Event
event_of (asked now) = ask now
event_of (failed now) = failure now

pub after_attempts : CircuitBreaker → List Attempt → CircuitBreaker
unfolding event_of
after_attempts b as_ = apply_all b (map event_of as_)

abbrev pub failure_count : List Attempt → ℕ
failure_count [] = 0
failure_count (asked now ∷ rest) = failure_count rest
failure_count (failed now ∷ rest) = suc (failure_count rest)

-- the time of the latest failure, `last` before the attempts
abbrev pub last_failure : Option ℕ → List Attempt → Option ℕ
last_failure last [] = last
last_failure last (asked now ∷ rest) = last_failure last rest
last_failure last (failed now ∷ rest) = last_failure (some now) rest

abbrev pub IsBefore : ℕ → Option ℕ → ℕ → Type 0
IsBefore cooldown none now = Unit
IsBefore cooldown (some at) now = now < at + cooldown

-- Every question comes less than the cooldown after the failure before it.
abbrev pub IsPrompt : ℕ → Option ℕ → List Attempt → Type 0
IsPrompt cooldown last [] = Unit
IsPrompt cooldown last (asked now ∷ rest) = IsBefore cooldown last now × IsPrompt cooldown last rest
IsPrompt cooldown last (failed now ∷ rest) = IsPrompt cooldown (some now) rest

attempts_closed :
    (xs : List Attempt) (b : CircuitBreaker)
    → b.opened_at ≡ none
    → b.failures + failure_count xs < b.threshold
    → (after_attempts b xs).opened_at ≡ none
unfolding after_attempts apply_all apply is_open record_failure
attempts_closed [] b e h = e
attempts_closed (asked now ∷ xs) b e h = ground (arith, attempts_closed xs (is_open b now).0)
attempts_closed (failed now ∷ xs) b e h = ground (arith, attempts_closed xs (record_failure b now))

-- The breaker stands open since the latest failure, once the failures reach the threshold.
abbrev Follows : CircuitBreaker → Option ℕ → Type 0
Follows b last = b.opened_at ≡ (if leb b.threshold b.failures then last else none)

asked-Follows :
    (b : CircuitBreaker) (last : Option ℕ) (now : ℕ)
    → Follows b last
    → IsBefore b.cooldown_ms last now
    → (is_open b now).0 ≡ b
unfolding is_open
asked-Follows b none now f h = ground arith
asked-Follows b (some at) now f h = ground arith

failed-Follows :
    (b : CircuitBreaker) (last : Option ℕ) (now : ℕ)
    → Follows b last
    → ((record_failure b now).failures ≡ b.failures + 1)
      × ((record_failure b now).threshold ≡ b.threshold)
      × ((record_failure b now).cooldown_ms ≡ b.cooldown_ms)
      × Follows (record_failure b now) (some now)
unfolding record_failure
failed-Follows b last now f = (ground arith, ground arith, ground arith, ground arith)

attempts-Follows :
    (xs : List Attempt) (b : CircuitBreaker) (last : Option ℕ)
    → Follows b last
    → IsPrompt b.cooldown_ms last xs
    → Follows (after_attempts b xs) (last_failure last xs)
      × ((after_attempts b xs).failures ≡ b.failures + failure_count xs)
      × ((after_attempts b xs).threshold ≡ b.threshold)
      × ((after_attempts b xs).cooldown_ms ≡ b.cooldown_ms)
unfolding after_attempts apply_all apply
attempts-Follows [] b last f p = (f, omega arith, refl, refl)
attempts-Follows (asked now ∷ xs) b last f (q, p) =
    subst
      (λ b'.
        Follows (after_attempts b' xs) (last_failure last xs)
        × ((after_attempts b' xs).failures ≡ b.failures + failure_count xs)
        × ((after_attempts b' xs).threshold ≡ b.threshold)
        × ((after_attempts b' xs).cooldown_ms ≡ b.cooldown_ms))
      (sym (asked-Follows b last now f q)) (attempts-Follows xs b last f p)
attempts-Follows (failed now ∷ xs) b last f p =
    let b' = record_failure b now in
    let (counted, threshold, cooldown, follows) = failed-Follows b last now f in
    let (f', n, t, c) =
      attempts-Follows xs b' (some now) follows
        (subst (λ ms. IsPrompt ms (some now) xs) (sym cooldown) p) in
    (f', omega arith, t ∙ threshold, c ∙ cooldown)

-- After a success, with questions and failures in any order and at any times: fewer failures than
-- the threshold leave the breaker closed at every later question; and as long as each question comes
-- less than the cooldown after the failure before it, the breaker is reported open at a later time
-- exactly if the failures reach the threshold and less than the cooldown has passed since the latest.
pub trips_exactly :
    (b : CircuitBreaker) (xs : List Attempt) (later : ℕ)
    → (failure_count xs < b.threshold
        → (is_open (after_attempts (record_success b) xs) later).1 ≡ false)
      × ((at : ℕ)
          → last_failure none xs ≡ some at
          → IsPrompt b.cooldown_ms none xs
          → ((is_open (after_attempts (record_success b) xs) later).1 ≡ true)
            ↔ ((b.threshold ≤ failure_count xs) × (later < at + b.cooldown_ms)))
unfolding is_open record_success
trips_exactly b xs later = (
  λ h. ground (arith, attempts_closed xs (record_success b)),
  λ at e p.
      let follows = attempts-Follows xs (record_success b) none (ground arith) p in ground arith,
)
