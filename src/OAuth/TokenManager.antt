-- ===== src/OAuth/TokenManager.antt =====
-- packages/oauth/src/token-manager.ts: the access tokens of a connection. A method is a function
-- of the state; what it has stored stays stored when it throws. The token endpoint is given as
-- answers, one to an attempt, each with the time that it takes, the pause before a retry included,
-- and with what other replicas do to the connections meanwhile. `requests` records the refresh tokens that the endpoint was sent.
-- Metrics and logging are left out, and so are the DPoP keys that bind a token to its sender.
pub mod Refresh
pub mod Bounded
pub mod Grants
use universal_agent_protocol.Base.{
  ℕ, zero, suc, ◌+◌, max, Bool, true, false, not, ◌&&◌, Option, none, some, List, [], ◌∷◌, ◌++◌,
  Text, text_eq, codes, includes, ltb, if◌then◌else◌,
}
use universal_agent_protocol.Core.Domain.{ConnectionStatus, RegistrationType}
use universal_agent_protocol.Core.Errors.{
  Result, ok, raise, GatewayError, gateway_error, GatewayErrorCode,
}
use universal_agent_protocol.Security.Breaker
use universal_agent_protocol.Security.Breaker.{CircuitBreaker}
use universal_agent_protocol.Security.Vault.{
  Envelope, EncryptionContext, Purpose, encrypt, decrypt, decrypt_optional,
}
use universal_agent_protocol.Storage.Table.{find_one, update_raw}
use universal_agent_protocol.Storage.Connections.{
  UpstreamConnection, Connections, get, update, require_found, TokenUpdate, update_tokens,
}
use universal_agent_protocol.OAuth.TokenFailure.{
  TokenError, protocol, other, RefreshFailureKind, reauth_required, client_invalid,
  insufficient_scope, transient, classify_token_failure,
}

pub record ConnectionRef : Type 0 where
  pub tenant_id : Text
  pub connection_id : Text

pub record TokenManagerConfig : Type 0 where
  pub access_token_safety_window_ms : ℕ
  pub max_refresh_retries : ℕ

-- The parts of a client registration that the token manager reads and writes.
pub record ClientRegistration : Type 0 where
  pub id : Text
  pub encrypted_client_secret : Option Text
  pub invalid : Bool

pub record NormalizedTokenSet : Type 0 where
  pub access_token : Text
  pub refresh_token : Option Text
  pub token_type : Text
  pub expires_at : Option ℕ
  pub refresh_token_expires_at : Option ℕ
  pub scopes : List Text

pub data Outcome : Type 0 where
  granted : NormalizedTokenSet → Outcome
  refused : TokenError → Outcome

-- How the token endpoint answers one refresh. `nonce_demanded`: the first post of a DPoP proof is
-- refused for want of a nonce, and `postToken` posts once more.
pub record Answer : Type 0 where
  pub nonce_demanded : Bool
  pub outcome : Outcome
  pub elapsed_ms : ℕ
  pub meanwhile : Connections → Connections

pub record State : Type 0 where
  pub connections : Connections
  pub issuers : List Text
  pub registrations : List ClientRegistration
  pub breakers : List (Text × CircuitBreaker)
  pub now : ℕ
  pub requests : List Text

abbrev pub M : Type 0 → Type 0
M A = State → State × Result A

infixl 5 ◌>>=◌ ◌>>◌
abbrev pub ◌>>=◌ : {A B : Type 0} → M A → (A → M B) → M B
◌>>=◌ m f s = let (s', r) = m s in elim r [ raise e ↦ (s', raise e) | ok a ↦ f a s' ]

abbrev pub ◌>>◌ : {B : Type 0} → M (Unit {0}) → M B → M B
m >> k = m >>= λ _. k

abbrev pub throw : {A : Type 0} → GatewayErrorCode → M A
throw code s = (s, raise (gateway_error code))

abbrev pub lift : {A : Type 0} → Result A → M A
lift r s = (s, r)

-- a text that is there and not empty, as JavaScript tests it
unfoldable pub filled : Option Text → Bool
filled none = false
filled (some []) = false
filled (some (_ ∷ _)) = true

abbrev pub or_empty : Option Text → Text
or_empty none = []
or_empty (some t) = t

-- `[...new Set(values)]`
unique_from : List Text → List Text → List Text
unique_from seen [] = []
unique_from seen (x ∷ xs) =
    let old = unique_from seen xs in
    let new = x ∷ unique_from (x ∷ seen) xs in if includes seen x then old else new

unfoldable pub unique_strings : List Text → List Text
unfolding unique_from
unique_strings xs = unique_from [] xs

abbrev pub context : UpstreamConnection → Purpose → EncryptionContext
context c purpose = record { tenant_id = c.tenant_id; purpose = purpose }

unfoldable pub require_connection : ConnectionRef → M UpstreamConnection
require_connection ref s = elim (get ref.tenant_id ref.connection_id s.connections) [
  | none ↦ (s, raise (gateway_error GatewayErrorCode.not_found))
  | some c ↦ (s, ok c)
]

unfoldable pub assert_usable : UpstreamConnection → Result (Unit {0})
assert_usable c = elim c.status [
  | ConnectionStatus.reauth_required ↦ raise (gateway_error GatewayErrorCode.authorization_required)
  | ConnectionStatus.disabled ↦ raise (gateway_error GatewayErrorCode.forbidden)
  | _ ↦ ok tt
]

-- `expiresAt - headroom > now`, with the headroom on the other side
beyond : ℕ → Option ℕ → Bool
beyond limit none = true
beyond limit (some at) = ltb limit at

unfoldable pub is_access_token_usable : ℕ → ℕ → UpstreamConnection → Bool
unfolding beyond
is_access_token_usable now headroom c =
    filled c.access_token_encrypted && beyond (now + headroom) c.access_token_expires_at

abbrev pub patch_connection :
    Text → (UpstreamConnection → UpstreamConnection) → M UpstreamConnection
patch_connection id patch s =
    let rows = update s.now id patch s.connections in
    (record s { connections = rows }, require_found id rows)

-- `markReauthRequired`
unfoldable pub mark_reauth_required : UpstreamConnection → Text → M (Unit {0})
mark_reauth_required c code = do
  _ ←
      patch_connection c.id
        (λ r. record r { status = ConnectionStatus.reauth_required; last_error_code = some code })
  lift (ok tt)

-- `breakerFor`, and the map with the breaker put back
unfoldable pub breaker_for : Text → List (Text × CircuitBreaker) → CircuitBreaker
breaker_for id [] = Breaker.new 5 30000
breaker_for id ((k, b) ∷ m) = if text_eq k id then b else breaker_for id m

unfoldable pub put_breaker :
    Text → CircuitBreaker → List (Text × CircuitBreaker) → List (Text × CircuitBreaker)
put_breaker id b [] = (id, b) ∷ []
put_breaker id b ((k, c) ∷ m) = if text_eq k id then (k, b) ∷ m else (k, c) ∷ put_breaker id b m

abbrev with_breaker : Text → (CircuitBreaker → CircuitBreaker) → State → State
with_breaker id f s = record s {
  breakers = put_breaker id (f (breaker_for id s.breakers)) s.breakers;
}

-- how one round of the refresh loop ends
pub data Attempt : Type 0 where
  done : Text → Attempt
  threw : TokenError → Attempt

posts : Text → Bool → List Text
posts token false = token ∷ []
posts token true = token ∷ token ∷ []

-- the request leaves, time passes, other replicas act
sent : Text → Answer → State → State
unfolding posts
sent token a s = record s {
  connections = a.meanwhile s.connections;
  now = s.now + a.elapsed_ms;
  requests = s.requests ++ posts token a.nonce_demanded;
}

-- what an attempt makes of an error that its own body throws: any of them is caught
caught : State × Result Text → State × Attempt
caught (s, ok token) = (s, done token)
caught (s, raise e) = (s, threw other)

module _ (vault : Envelope) (config : TokenManagerConfig) where
  unfoldable pub decrypt_access_token : UpstreamConnection → Result Text
  decrypt_access_token c =
      decrypt vault (context c Purpose.access_token) (or_empty c.access_token_encrypted)

  -- `resolveClientContext`, as far as it can fail
  unfoldable pub resolve_client_context : UpstreamConnection → M (Unit {0})
  resolve_client_context c s =
      if not (filled c.oauth_issuer_id && filled c.oauth_client_registration_id)
      then (s, raise (gateway_error GatewayErrorCode.internal))
      else if not (includes s.issuers (or_empty c.oauth_issuer_id))
      then (s, raise (gateway_error GatewayErrorCode.internal))
      else elim (find_one (λ r. text_eq r.id (or_empty c.oauth_client_registration_id))
          s.registrations) [
            | none ↦ (s, raise (gateway_error GatewayErrorCode.internal))
            | some r ↦
                elim (decrypt_optional vault (context c Purpose.client_secret)
                  r.encrypted_client_secret) [ raise e ↦ (s, raise e) | ok _ ↦ (s, ok tt) ]
          ]

  -- the refresh token to keep: the new one, sealed, or the one that is stored
  unfoldable pub kept_refresh_token : UpstreamConnection → NormalizedTokenSet → Option Text
  kept_refresh_token c tokens =
      if filled tokens.refresh_token
      then some (encrypt vault (context c Purpose.refresh_token) (or_empty tokens.refresh_token))
      else c.refresh_token_encrypted

  unfoldable pub persist_tokens :
      UpstreamConnection → NormalizedTokenSet → List Text → State → State × Bool
  persist_tokens c tokens scopes s =
      let (rows, stored) =
        update_tokens s.now
          (record {
            connection_id = c.id;
            expected_token_version = c.token_version;
            access_token_encrypted =
                some (encrypt vault (context c Purpose.access_token) tokens.access_token);
            refresh_token_encrypted = kept_refresh_token c tokens;
            token_type = some tokens.token_type;
            access_token_expires_at = tokens.expires_at;
            refresh_token_expires_at = tokens.refresh_token_expires_at;
            granted_scopes = unique_strings scopes;
            status =
                if filled (kept_refresh_token c tokens)
                then ConnectionStatus.connected
                else ConnectionStatus.connected_non_refreshable;
            last_refresh_at = s.now;
          })
          s.connections in
      (record s { connections = rows }, stored)

  -- `tokens.scopes.length > 0 ? tokens.scopes : otherwise`
  unfoldable pub scopes_or : List Text → List Text → List Text
  scopes_or [] otherwise = otherwise
  scopes_or (x ∷ xs) otherwise = x ∷ xs

  -- the `try` block of one round
  unfoldable pub attempt : UpstreamConnection → Text → Answer → State → State × Attempt
  unfolding caught sent
  attempt c token a s =
      let s1 = sent token a s in
      elim a.outcome [
        | refused e ↦ (s1, threw e)
        | granted tokens ↦
            let s2 = with_breaker c.id Breaker.record_success s1 in
            let (s3, stored) =
              persist_tokens c tokens (scopes_or tokens.scopes c.granted_scopes) s2 in
            let latest : State × Result Text =
              (do
                now_current ←
                    require_connection (record { tenant_id = c.tenant_id; connection_id = c.id })
                lift (decrypt_access_token now_current))
                s3 in
            if stored then (s3, done tokens.access_token) else caught latest
      ]
