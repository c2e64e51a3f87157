-- ===== src/Security/RateLimit/Budget.antt =====
-- How many calls a key can have admitted.
use universal_agent_protocol.Base.{
  ℕ, suc, ◌+◌, ◌-◌, ◌*◌, ◌≡◌, ◌≤◌, ◌<◌, Bool, true, false, none, some, List, [], ◌∷◌, arith, Text,
  ap, subst, sym, if◌then◌else◌,
}
use universal_agent_protocol.Security.RateLimit.{
  RateLimitRule, Bucket, Buckets, get, put, capacity, take_token, check,
}
use universal_agent_protocol.Security.RateLimit.Buckets.{get-put_self, check_enabled}

-- `check` for one key at each time of a list: the buckets left, and the number of calls allowed.
pub check_all : RateLimitRule → Text → List ℕ → Buckets → Buckets × ℕ
check_all rule key [] m = (m, 0)
check_all rule key (t ∷ ts) m =
    let (m', decision) = check rule t key m in
    let (m'', n) = check_all rule key ts m' in (m'', if decision.allowed then suc n else n)

-- Times that do not go back, from `t` on, and the last of them.
abbrev pub Ascends : ℕ → List ℕ → Type 0
Ascends t [] = Unit
Ascends t (u ∷ us) = (t ≤ u) × Ascends u us

abbrev pub last_time : ℕ → List ℕ → ℕ
last_time t [] = t
last_time t (u ∷ us) = last_time u us

last_time-le : (t : ℕ) (ts : List ℕ) → Ascends t ts → t ≤ last_time t ts
last_time-le t [] h = omega arith
last_time-le t (u ∷ us) (h, hs) = omega (arith, last_time-le u us hs)

abbrev cost : Bool → ℕ → ℕ
cost true i = i
cost false i = 0

-- One call pays for itself: an admitted call takes one token out of what had accrued.
take_token_pays :
    (rule : RateLimitRule) (now : ℕ) (b : Bucket)
    → b.updated_at ≤ now
    → let r = take_token rule now (some b) in
      (r.0.updated_at ≡ now)
      × (r.0.tokens + cost r.1.allowed rule.interval_ms
          ≤ b.tokens + (now - b.updated_at) * rule.limit)
unfolding take_token
take_token_pays rule now b h = ground arith

take_token_first :
    (rule : RateLimitRule) (now : ℕ)
    → let r = take_token rule now none in
      (r.0.updated_at ≡ now)
      × (r.0.tokens + cost r.1.allowed rule.interval_ms ≤ capacity rule * rule.interval_ms)
unfolding take_token
take_token_first rule now = ground arith

elapsed_add : (u t v l : ℕ) → u ≤ t → t ≤ v → (t - u) * l + (v - t) * l ≡ (v - u) * l
elapsed_add u t v l h k =
    let e : (t - u) + (v - t) ≡ v - u = omega arith in omega (arith, ap (λ (x : ℕ). x * l) e)

pays_add :
    (n i tok tok' l u t v c : ℕ)
    → u ≤ t
    → t ≤ v
    → n * i ≤ tok' + (v - t) * l
    → tok' + c ≤ tok + (t - u) * l
    → n * i + c ≤ tok + (v - u) * l
pays_add n i tok tok' l u t v c h k p q = omega (arith, elapsed_add u t v l h k)

cost_count : (a : Bool) (n i : ℕ) → (if a then suc n else n) * i ≡ n * i + cost a i
cost_count true n i = omega arith
cost_count false n i = omega arith

-- What was admitted, and what the bucket still holds, never exceeds what it held and what accrued.
check_all-some :
    (rule : RateLimitRule) (key : Text) (ts : List ℕ) (m : Buckets) (b : Bucket)
    → 0 < rule.limit
    → get key m ≡ some b
    → Ascends b.updated_at ts
    → (check_all rule key ts m).1 * rule.interval_ms
      ≤ b.tokens + (last_time b.updated_at ts - b.updated_at) * rule.limit
unfolding check_all
check_all-some rule key [] m b p g h = omega arith
check_all-some rule key (t ∷ ts) m b p g (h, hs) =
    let (at, pays) = take_token_pays rule t b h in
    let r = take_token rule t (some b) in
    let ih =
      check_all-some rule key ts (put key r.0 m) r.0 p (get-put_self key r.0 m)
        (subst (λ x. Ascends x ts) (sym at) hs) in
    let ih' =
      subst
        (λ x.
          (check_all rule key ts (put key r.0 m)).1 * rule.interval_ms
          ≤ r.0.tokens + (last_time x ts - x) * rule.limit)
        at ih in
    rw (check_enabled rule t key m p, g)
      (rw (cost_count r.1.allowed (check_all rule key ts (put key r.0 m)).1 rule.interval_ms) (
        pays_add _ rule.interval_ms b.tokens r.0.tokens rule.limit b.updated_at t (last_time t ts) _
          h (last_time-le t ts hs) ih' pays))

-- For a key that has no bucket yet, under a positive limit: the calls allowed at any times that do
-- not go back number at most the burst allowance plus what accrues at the sustained rate between
-- the first call and the last.
pub check_all_bounded :
    (rule : RateLimitRule) (key : Text) (t : ℕ) (ts : List ℕ) (m : Buckets)
    → 0 < rule.limit
    → get key m ≡ none
    → Ascends t ts
    → (check_all rule key (t ∷ ts) m).1 * rule.interval_ms
      ≤ capacity rule * rule.interval_ms + (last_time t ts - t) * rule.limit
unfolding check_all
check_all_bounded rule key t ts m p g hs =
    let (at, pays) = take_token_first rule t in
    let r = take_token rule t none in
    let ih =
      check_all-some rule key ts (put key r.0 m) r.0 p (get-put_self key r.0 m)
        (subst (λ x. Ascends x ts) (sym at) hs) in
    let ih' =
      subst
        (λ x.
          (check_all rule key ts (put key r.0 m)).1 * rule.interval_ms
          ≤ r.0.tokens + (last_time x ts - x) * rule.limit)
        at ih in
    rw (check_enabled rule t key m p, g)
      (rw (cost_count r.1.allowed (check_all rule key ts (put key r.0 m)).1 rule.interval_ms)
        (omega arith))
