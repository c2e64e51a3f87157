-- ===== src/Security/RateLimit/Buckets.antt =====
-- The bucket map: what a lookup finds after a write.
use universal_agent_protocol.Base.{
  ℕ, ◌<◌, ◌≡◌, refl, ◌≢◌, some, [], ◌∷◌, arith, Text, text_eq, text_eq_iff, text_eq_refl,
  if◌then◌else◌,
}
use universal_agent_protocol.Security.RateLimit.{
  RateLimitRule, Bucket, Buckets, get, put, enabled, take_token, check,
}

pub get-put :
    (key other : Text) (b : Bucket) (m : Buckets)
    → get other (put key b m) ≡ (if text_eq key other then some b else get other m)
unfolding get put
get-put key other b [] = refl
get-put key other b ((k, c) ∷ m) =
    ground
      (arith, text_eq_iff k key, text_eq_iff key other, text_eq_iff k other, get-put key other b m)

pub get-put_self : (key : Text) (b : Bucket) (m : Buckets) → get key (put key b m) ≡ some b
get-put_self key b m = rw (get-put key key b m, text_eq_refl key)

pub get-put_ne :
    (key other : Text) (b : Bucket) (m : Buckets)
    → key ≢ other
    → get other (put key b m) ≡ get other m
get-put_ne key other b m h = ground (arith, get-put key other b m, text_eq_iff key other)

pub check_enabled :
    (rule : RateLimitRule) (now : ℕ) (key : Text) (m : Buckets)
    → 0 < rule.limit
    → check rule now key m
      ≡ (put key (take_token rule now (get key m)).0 m, (take_token rule now (get key m)).1)
unfolding check enabled
check_enabled rule now key m h = ground arith
