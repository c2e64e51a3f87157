-- ===== src/OAuth/TokenManager/Refresh.antt =====
-- packages/oauth/src/token-manager.ts: the refresh loop and `getValidAccessToken`.
use universal_agent_protocol.Base.{
  ℕ, zero, suc, ◌+◌, max, Bool, true, false, not, Option, none, some, Text, text_eq, codes,
  if◌then◌else◌,
}
use universal_agent_protocol.Core.Domain.{ConnectionStatus}
use universal_agent_protocol.Core.Errors.{
  Result, ok, raise, GatewayError, gateway_error, GatewayErrorCode,
}
use universal_agent_protocol.Security.Breaker
use universal_agent_protocol.Security.Vault.{Envelope, Purpose, decrypt}
use universal_agent_protocol.Storage.Table.{find_one, update_raw}
use universal_agent_protocol.Storage.Connections.{UpstreamConnection, Connections}
use universal_agent_protocol.OAuth.TokenFailure.{
  TokenError, protocol, other, RefreshFailureKind, reauth_required, client_invalid,
  insufficient_scope, transient, classify_token_failure,
}
use universal_agent_protocol.OAuth.TokenManager.{
  ConnectionRef, TokenManagerConfig, Answer, State, M, ◌>>=◌, ◌>>◌, throw, lift, filled, or_empty,
  context, require_connection, assert_usable, is_access_token_usable, patch_connection,
  mark_reauth_required, breaker_for, put_breaker, with_breaker, decrypt_access_token,
  resolve_client_context, Attempt, done, threw, attempt,
}

-- `error instanceof OAuthProtocolError ? error.error : otherwise`
abbrev pub error_code : TokenError → Text → Text
error_code (protocol e status) otherwise = e
error_code other otherwise = otherwise

-- `registrations.update(id, { status: "INVALID" })`, which throws for an unknown id
invalidate : Text → M (Unit {0})
invalidate id s =
    let rows =
      (update_raw (λ r. text_eq r.id id) (λ r. record r { invalid = true }) s.registrations).0 in
    (
      record s { registrations = rows },
      elim (find_one (λ r. text_eq r.id id) rows) [
        | none ↦ raise (gateway_error GatewayErrorCode.not_found)
        | some _ ↦ ok tt
      ],
    )

unfoldable pub invalidate_client : Option Text → M (Unit {0})
unfolding invalidate
invalidate_client id = if filled id then invalidate (or_empty id) else lift (ok tt)

abbrev pub degraded_from : ConnectionStatus → ConnectionStatus
degraded_from ConnectionStatus.connected = ConnectionStatus.degraded
degraded_from st = st

unfoldable pub apply_refresh_failure :
    UpstreamConnection → RefreshFailureKind → TokenError → M (Unit {0})
unfolding invalidate_client
apply_refresh_failure c reauth_required e =
    mark_reauth_required c (error_code e (codes "invalid_grant"))
apply_refresh_failure c insufficient_scope e =
    mark_reauth_required c (error_code e (codes "invalid_grant"))
apply_refresh_failure c client_invalid e = do
  invalidate_client c.oauth_client_registration_id
  mark_reauth_required c (codes "invalid_client")
apply_refresh_failure c transient e = do
  _ ← patch_connection c.id (λ r. record r {
    status = degraded_from c.status;
    last_error_code = some (codes "temporarily_unavailable");
  })
  lift (ok tt)

abbrev retryable_error : GatewayErrorCode → GatewayError
retryable_error code = let e = gateway_error code in record e { retryable = true }

unfoldable pub refresh_error : RefreshFailureKind → GatewayError
refresh_error transient = retryable_error GatewayErrorCode.upstream_unavailable
refresh_error _ = gateway_error GatewayErrorCode.authorization_required

unfoldable pub is_transient : RefreshFailureKind → Bool
is_transient transient = true
is_transient _ = false

-- the end of the `catch` block
unfoldable pub give_up : UpstreamConnection → TokenError → M Text
give_up c e s =
    let kind = classify_token_failure e in
    (do apply_refresh_failure c kind e; lift (raise (refresh_error kind)))
      (with_breaker c.id (λ b. Breaker.record_failure b s.now) s)

-- The turn at the lock: how long it took and what the holders before did. The lock is a parameter;
-- it raises an error of its own where the wait times out.
pub record Turn : Type 0 where
  pub waited_ms : ℕ
  pub before : Connections → Connections

unfoldable pub with_lock : {A : Type 0} → Result Turn → M A → M A
with_lock (raise e) body s = (s, raise e)
with_lock (ok t) body s =
    body (record s { connections = t.before s.connections; now = s.now + t.waited_ms })

-- how a round ends with no retry left, and with `again` for the rounds that a retry would make
unfoldable pub settle_last : UpstreamConnection → State × Attempt → State × Result Text
settle_last c (s, done access) = (s, ok access)
settle_last c (s, threw e) = give_up c e s

unfoldable pub settle_round :
    UpstreamConnection → State × Result Text → State × Attempt → State × Result Text
settle_round c again (s, done access) = (s, ok access)
settle_round c again (s, threw e) =
    if is_transient (classify_token_failure e) then again else give_up c e s

-- `Math.max(options.minRemainingMs ?? 0, accessTokenSafetyWindowMs)`
unfoldable pub headroom_of : TokenManagerConfig → Option ℕ → ℕ
headroom_of config none = max 0 config.access_token_safety_window_ms
headroom_of config (some m) = max m config.access_token_safety_window_ms

module _ (vault : Envelope) (config : TokenManagerConfig) where
  -- the rounds from number `i` on, with `left` retries left
  unfoldable pub refresh_rounds : ℕ → ℕ → UpstreamConnection → Text → (ℕ → Answer) → M Text
  unfolding settle_last settle_round
  refresh_rounds zero i c token answers s =
      settle_last c (attempt vault config c token (answers i) s)
  refresh_rounds (suc left) i c token answers s =
      let again =
        refresh_rounds left (i + 1) c token answers
          (attempt vault config c token (answers i) s).0 in
      settle_round c again (attempt vault config c token (answers i) s)

  unfoldable pub refresh_with : UpstreamConnection → (ℕ → Answer) → Text → M Text
  refresh_with c answers token = do
    resolve_client_context vault config c
    refresh_rounds config.max_refresh_retries 0 c token answers

  unfoldable pub refresh_locked : UpstreamConnection → (ℕ → Answer) → M Text
  refresh_locked c answers s =
      let (b, open_now) = Breaker.is_open (breaker_for c.id s.breakers) s.now in
      let s' = record s { breakers = put_breaker c.id b s.breakers } in
      if open_now
      then (s', raise (retryable_error GatewayErrorCode.upstream_unavailable))
      else (do
        token ←
            lift
              (decrypt vault (context c Purpose.refresh_token) (or_empty c.refresh_token_encrypted))
        refresh_with c answers token)
          s'

  -- the critical section
  unfoldable pub refresh_under_lock : ConnectionRef → ℕ → (ℕ → Answer) → M Text
  refresh_under_lock ref headroom answers = do
    latest ← require_connection ref
    lift (assert_usable latest)
    λ s.
        if is_access_token_usable s.now headroom latest
        then (s, decrypt_access_token vault config latest)
        else refresh_locked latest answers s

  -- without a refresh token
  unfoldable pub without_refresh_token : UpstreamConnection → M Text
  without_refresh_token c s =
      if is_access_token_usable s.now config.access_token_safety_window_ms c
      then (s, decrypt_access_token vault config c)
      else (do
        mark_reauth_required c (codes "access_token_expired")
        throw GatewayErrorCode.authorization_required)
          s

  unfoldable pub get_valid_access_token :
      ConnectionRef → Option ℕ → Result Turn → (ℕ → Answer) → M Text
  get_valid_access_token ref min_remaining_ms turn answers = do
    c ← require_connection ref
    lift (assert_usable c)
    λ s.
        if is_access_token_usable s.now (headroom_of config min_remaining_ms) c
        then (s, decrypt_access_token vault config c)
        else if not (filled c.refresh_token_encrypted)
        then without_refresh_token c s
        else with_lock turn (refresh_under_lock ref (headroom_of config min_remaining_ms) answers) s
