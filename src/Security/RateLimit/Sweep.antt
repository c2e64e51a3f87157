-- ===== src/Security/RateLimit/Sweep.antt =====
-- Sweeping refilled buckets away changes no later answer.
use native.Mathlib.Decide.{dec_le}
use universal_agent_protocol.Base.{
  ap, min, mul_mono, ℕ, ◌+◌, ◌-◌, ◌*◌, ◌≡◌, refl, ◌≤◌, inl, inr, false, none, some, [], ◌∷◌, arith,
  Text, text_eq, text_eq_sound, subst, Bool-cases, length,
}
use universal_agent_protocol.Security.RateLimit.{
  RateLimitRule, Bucket, Buckets, get, enabled, capacity, or_full, refilled, settle, still_filling,
  take_token, check, sweep,
}

abbrev pub IsAbsent : Text → Buckets → Type 0
IsAbsent key m = get key m ≡ none

-- No key stands twice, as in a `Map`.
abbrev pub HasDistinctKeys : Buckets → Type 0
HasDistinctKeys [] = Unit
HasDistinctKeys ((k, _) ∷ m) = IsAbsent k m × HasDistinctKeys m

sweep-IsAbsent :
    (rule : RateLimitRule) (now : ℕ) (key : Text) (m : Buckets)
    → IsAbsent key m
    → IsAbsent key (sweep rule now m).0
unfolding get sweep
sweep-IsAbsent rule now key [] h = refl
sweep-IsAbsent rule now key ((k, b) ∷ m) h = ground (arith, sweep-IsAbsent rule now key m)

split_mul : (a b l : ℕ) → a ≤ b → b * l ≡ a * l + (b - a) * l
split_mul a b l h = let e : b ≡ a + (b - a) = omega arith in omega (arith, ap (λ (x : ℕ). x * l) e)

-- Full is full, however long ago.
min_full :
    (c tok now later upd l : ℕ)
    → now ≤ later
    → c + upd * l ≤ tok + now * l
    → min c (c + (later - later) * l) ≡ min c (tok + (later - upd) * l)
min_full c tok now later upd l h k = elim (dec_le upd later) [
  | yes p ↦ omega (arith, split_mul upd later l p, mul_mono now later l h)
  | no p ↦ omega (arith, mul_mono now upd l (omega arith))
]

-- A bucket that the sweep drops is worth a new one.
take_token_refilled :
    (rule : RateLimitRule) (now later : ℕ) (b : Bucket)
    → now ≤ later
    → still_filling rule now b ≡ false
    → take_token rule later none ≡ take_token rule later (some b)
unfolding or_full refilled take_token still_filling
take_token_refilled rule now later b h e = ap (settle rule later) (
    min_full (capacity rule * rule.interval_ms) b.tokens now later b.updated_at rule.limit h
      (ground arith))

take_token-sweep :
    (rule : RateLimitRule) (now later : ℕ) (key : Text) (m : Buckets)
    → now ≤ later
    → HasDistinctKeys m
    → take_token rule later (get key (sweep rule now m).0) ≡ take_token rule later (get key m)
unfolding get sweep
take_token-sweep rule now later key [] h d = refl
take_token-sweep rule now later key ((k, b) ∷ m) h (a, d) = elim (Bool-cases (text_eq k key)) [
  | inl same ↦ elim (Bool-cases (still_filling rule now b)) [
    | inl keep ↦ rw (keep, same) refl
    | inr drop ↦
        rw (drop, same)
          (rw
            (sweep-IsAbsent rule now key m
              (subst (λ x. get x m ≡ none) (text_eq_sound k key same) a))
            (take_token_refilled rule now later b h drop))
  ]
  | inr other ↦ elim (Bool-cases (still_filling rule now b)) [
    | inl keep ↦ rw (keep, other) (take_token-sweep rule now later key m h d)
    | inr drop ↦ rw (drop, other) (take_token-sweep rule now later key m h d)
  ]
]

sweep-HasDistinctKeys :
    (rule : RateLimitRule) (now : ℕ) (m : Buckets)
    → HasDistinctKeys m
    → HasDistinctKeys (sweep rule now m).0
unfolding sweep
sweep-HasDistinctKeys rule now [] d = tt
sweep-HasDistinctKeys rule now ((k, b) ∷ m) (a, d) = elim (Bool-cases (still_filling rule now b)) [
  | inl keep ↦ rw keep (sweep-IsAbsent rule now k m a, sweep-HasDistinctKeys rule now m d)
  | inr drop ↦ rw drop (sweep-HasDistinctKeys rule now m d)
]

sweep_count :
    (rule : RateLimitRule) (now : ℕ) (m : Buckets)
    → length (sweep rule now m).0 + (sweep rule now m).1 ≡ length m
unfolding sweep
sweep_count rule now [] = omega arith
sweep_count rule now ((k, b) ∷ m) = ground (arith, sweep_count rule now m)

-- With no key twice in the map, a sweep leaves no key twice, reports exactly the number of buckets
-- that it dropped, and changes no decision at the same time or later, for any key.
pub check-sweep :
    (rule : RateLimitRule) (now later : ℕ) (key : Text) (m : Buckets)
    → now ≤ later
    → HasDistinctKeys m
    → ((check rule later key (sweep rule now m).0).1 ≡ (check rule later key m).1)
      × HasDistinctKeys (sweep rule now m).0
      × (length (sweep rule now m).0 + (sweep rule now m).1 ≡ length m)
unfolding check
check-sweep rule now later key m h d = (
  elim (Bool-cases (enabled rule)) [
    | inl on ↦ rw (on, take_token-sweep rule now later key m h d) refl
    | inr off ↦ rw off refl
  ],
  sweep-HasDistinctKeys rule now m d,
  sweep_count rule now m,
)
