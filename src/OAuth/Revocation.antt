-- ===== src/OAuth/Revocation.antt =====
-- packages/oauth/src/token-manager.ts: revokeConnection and requireIncrementalAuthorization. The
-- revocation endpoint is sent a token and may fail, and other replicas act meanwhile.
pub mod Spent
use universal_agent_protocol.Base.{
  ℕ, ◌+◌, Option, none, some, List, [], ◌∷◌, ◌++◌, Text, codes, if◌then◌else◌,
}
use universal_agent_protocol.Core.Domain.{ConnectionStatus}
use universal_agent_protocol.Core.Errors.{Result, ok, raise, gateway_error, GatewayErrorCode}
use universal_agent_protocol.Security.Vault.{Envelope, Purpose, decrypt_optional}
use universal_agent_protocol.Storage.Connections.{UpstreamConnection, Connections}
use universal_agent_protocol.OAuth.TokenManager.{
  ConnectionRef, TokenManagerConfig, State, M, ◌>>=◌, lift, throw, filled, or_empty, unique_strings,
  context, require_connection, patch_connection, resolve_client_context,
}

pub record Revocation : Type 0 where
  pub elapsed_ms : ℕ
  pub meanwhile : Connections → Connections

waited : Revocation → State → State
waited r s = record s { connections = r.meanwhile s.connections; now = s.now + r.elapsed_ms }

emptied : UpstreamConnection → UpstreamConnection → UpstreamConnection
emptied read c = record c {
  access_token_encrypted = none;
  refresh_token_encrypted = none;
  access_token_expires_at = none;
  refresh_token_expires_at = none;
  status = ConnectionStatus.reauth_required;
  token_version = read.token_version + 1;
}

module _ (vault : Envelope) (config : TokenManagerConfig) where
  -- the `try` block, whose errors are caught: the tokens that the endpoint is sent
  try_revoke : UpstreamConnection → Revocation → State → State × List Text
  unfolding waited
  try_revoke c r s =
      let (s', resolved) = resolve_client_context vault config c s in
      elim resolved [
        | raise e ↦ (s', [])
        | ok _ ↦
            elim (decrypt_optional vault (context c Purpose.refresh_token)
              c.refresh_token_encrypted) [
                | raise e ↦ (s', [])
                | ok token ↦ if filled token then (waited r s', or_empty token ∷ []) else (s', [])
              ]
      ]

  revoke_found : UpstreamConnection → Revocation → M (List Text)
  unfolding try_revoke emptied
  revoke_found c r s =
      let (s', sent) = try_revoke c r s in
      let (s2, done) = patch_connection c.id (emptied c) s' in
      elim done [ raise e ↦ (s2, raise e) | ok _ ↦ (s2, ok sent) ]

  -- `revokeConnection`, with the tokens that the revocation endpoint was sent
  unfoldable pub revoke_connection : ConnectionRef → Revocation → M (List Text)
  unfolding revoke_found
  revoke_connection ref r = require_connection ref >>= λ c.
      if filled c.oauth_issuer_id then revoke_found c r else lift (ok [])

widened : UpstreamConnection → List Text → UpstreamConnection → UpstreamConnection
widened read required c = record c {
  status = ConnectionStatus.reauth_required;
  requested_scopes = unique_strings (read.requested_scopes ++ required);
  last_error_code = some (codes "insufficient_scope");
}

-- `requireIncrementalAuthorization`, which always throws
unfoldable pub require_incremental_authorization : {A : Type 0} → ConnectionRef → List Text → M A
unfolding widened
require_incremental_authorization ref required = require_connection ref >>= λ c.
    patch_connection c.id (widened c required) >>= λ _.
    throw GatewayErrorCode.authorization_required
