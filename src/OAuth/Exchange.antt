-- ===== src/OAuth/Exchange.antt =====
-- packages/oauth/src/token-manager.ts: `exchangeCode`, which takes the authorization response. The
-- issuer comparison, the issuer's published metadata and the replacement of a rejected client belong
-- to parts that are parameters here; `exchanges` records the codes that the token endpoint was sent.
pub mod Once
use universal_agent_protocol.Base.{
  ℕ, ◌+◌, Bool, true, false, not, ◌&&◌, Option, none, some, List, [], ◌∷◌, ◌++◌, Text, text_eq,
  codes, leb, if◌then◌else◌,
}
use universal_agent_protocol.Core.Errors.{
  Result, ok, raise, GatewayError, gateway_error, GatewayErrorCode,
}
use universal_agent_protocol.Security.Vault.{Envelope, Purpose, decrypt}
use universal_agent_protocol.Storage.Connections.{
  UpstreamConnection, get, OAuthTransaction, Transactions, find_by_state_hash, consume, fail,
}
use universal_agent_protocol.OAuth.TokenFailure.{TokenError, other}
use universal_agent_protocol.OAuth.TokenManager.{
  TokenManagerConfig, NormalizedTokenSet, Answer, granted, refused, State, M, ◌>>=◌, ◌>>◌, lift,
  filled, or_empty, patch_connection, resolve_client_context, persist_tokens, scopes_or,
}
use universal_agent_protocol.OAuth.TokenManager.Refresh.{error_code}

pub record OAuthCallbackInput : Type 0 where
  pub code : Option Text
  pub state : Option Text
  pub iss : Option Text
  pub error : Option Text
  pub acting_user_id : Option Text

pub record CallbackResult : Type 0 where
  pub connection_id : Text
  pub tenant_id : Text
  pub granted_scopes : List Text
  pub refreshable : Bool

pub record ExchangeState : Type 0 where
  pub transactions : Transactions
  pub manager : State
  pub exchanges : List Text

abbrev is_there : Option Text → Bool
is_there none = false
is_there (some _) = true

-- the test on `actingUserId`
unfoldable pub is_foreign : Option Text → OAuthTransaction → Bool
is_foreign none t = false
is_foreign (some user) t = not (text_eq user t.user_id)

is_authorization_required : GatewayErrorCode → Bool
is_authorization_required GatewayErrorCode.authorization_required = true
is_authorization_required _ = false

-- `recordConnectionError`, and the error that ends the outer `catch`
unfoldable pub record_connection_error : UpstreamConnection → TokenError → M CallbackResult
record_connection_error c e = do
  _ ←
      patch_connection c.id
        (λ r. record r { last_error_code = some (error_code e (codes "token_exchange_failed")) })
  lift (raise (gateway_error GatewayErrorCode.token_exchange_failed))

-- both `catch` blocks, after the attempt to replace the client
unfoldable pub not_exchanged :
    UpstreamConnection → TokenError → State × Result Bool → State × Result CallbackResult
unfolding is_authorization_required
not_exchanged c e (s, ok true) = (s, raise (gateway_error GatewayErrorCode.authorization_required))
not_exchanged c e (s, ok false) = record_connection_error c e s
not_exchanged c e (s, raise x) =
    if is_authorization_required x.code then (s, raise x) else record_connection_error c other s

module _ (vault : Envelope) (config : TokenManagerConfig) (sha256_hex : Text → Text)
    (same_issuer : Text → Text → Bool) (requires_iss : Text → Bool)
    (replace_client : UpstreamConnection → TokenError → M Bool) where
  -- the tests of `assertResponseIssuer`
  unfoldable pub is_from_other_issuer : Option Text → OAuthTransaction → Bool
  is_from_other_issuer none t = requires_iss t.issuer
  is_from_other_issuer (some iss) t = not (same_issuer iss t.issuer)

  -- what the token endpoint's answer comes to
  unfoldable pub redeem : OAuthTransaction → UpstreamConnection → Answer → M CallbackResult
  redeem t c a s = elim a.outcome [
    | granted tokens ↦
        let scopes = scopes_or vault config tokens.scopes t.requested_scopes in
        let (s', stored) = persist_tokens vault config c tokens scopes s in
        (
          s',
          ok (record {
            connection_id = c.id;
            tenant_id = c.tenant_id;
            granted_scopes = scopes;
            refreshable = is_there tokens.refresh_token;
          }),
        )
    | refused e ↦ not_exchanged c e (replace_client c e s)
  ]

  -- the code leaves, time passes, other replicas act, and the answer arrives
  unfoldable pub send_code :
      OAuthTransaction
      → UpstreamConnection
      → Text
      → Answer
      → ExchangeState
      → ExchangeState × Result CallbackResult
  send_code t c code a s =
      let (m, r) = redeem t c a (record s.manager {
        connections = a.meanwhile s.manager.connections;
        now = s.manager.now + a.elapsed_ms;
      }) in
      (record s { manager = m; exchanges = s.exchanges ++ code ∷ [] }, r)

  unfoldable pub after_claim :
      OAuthTransaction
      → UpstreamConnection
      → Text
      → Answer
      → ExchangeState
      → ExchangeState × Result CallbackResult
  after_claim t c code a s =
      let (m, r) =
        (do
          resolve_client_context vault config c
          lift (
              decrypt vault (record { tenant_id = t.tenant_id; purpose = Purpose.pkce_verifier })
                t.pkce_verifier_encrypted))
          s.manager in
      elim r [
        | raise e ↦ (record s { manager = m }, raise e)
        | ok verifier ↦ send_code t c code a (record s { manager = m })
      ]

  unfoldable pub claim :
      OAuthTransaction
      → UpstreamConnection
      → Text
      → Answer
      → ExchangeState
      → ExchangeState × Result CallbackResult
  claim t c code a s =
      let (rows, consumed) = consume t.id s.manager.now s.transactions in
      let s' = record s { transactions = rows } in
      let next = after_claim t c code a s' in
      if consumed then next else (s', raise (gateway_error GatewayErrorCode.conflict))

  unfoldable pub check_transaction :
      OAuthTransaction
      → OAuthCallbackInput
      → Answer
      → ExchangeState
      → ExchangeState × Result CallbackResult
  check_transaction t callback a s =
      let failed = record s { transactions = fail t.id s.transactions } in
      if leb t.expires_at s.manager.now
      then (failed, raise (gateway_error GatewayErrorCode.invalid_request))
      else if is_foreign callback.acting_user_id t
      then (s, raise (gateway_error GatewayErrorCode.forbidden))
      else if is_from_other_issuer callback.iss t
      then (s, raise (gateway_error GatewayErrorCode.issuer_mismatch))
      else elim (get t.tenant_id t.connection_id s.manager.connections) [
        | none ↦ (failed, raise (gateway_error GatewayErrorCode.not_found))
        | some c ↦ claim t c (or_empty callback.code) a s
      ]

  unfoldable pub exchange_code :
      OAuthCallbackInput → Answer → ExchangeState → ExchangeState × Result CallbackResult
  exchange_code callback a s =
      if filled callback.error
      then (s, raise (gateway_error GatewayErrorCode.token_exchange_failed))
      else if not (filled callback.state && filled callback.code)
      then (s, raise (gateway_error GatewayErrorCode.invalid_request))
      else elim (find_by_state_hash (sha256_hex (or_empty callback.state)) s.transactions) [
        | none ↦ (s, raise (gateway_error GatewayErrorCode.invalid_request))
        | some t ↦ check_transaction t callback a s
      ]
