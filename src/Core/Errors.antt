-- ===== src/Core/Errors.antt =====
-- packages/core/src/errors.ts: the error taxonomy and its two numeric views. An error carries its
-- code, its HTTP status, its retry flag and the one payload that the modelled code attaches
-- (`retry_after_seconds`); messages and causes are text for people and are left out.
pub mod Laws
use universal_agent_protocol.Base.{ℕ, Bool, false, Option, none, ◌≡◌, refl, ◌⊎◌, inl, inr}

pub data GatewayErrorCode : Type 0 where
  invalid_request not_found unauthenticated forbidden tenant_mismatch conflict : GatewayErrorCode
  authorization_required client_credentials_required policy_denied ssrf_blocked : GatewayErrorCode
  discovery_failed issuer_mismatch resource_mismatch registration_failed : GatewayErrorCode
  token_exchange_failed token_refresh_failed upstream_unavailable : GatewayErrorCode
  upstream_protocol_error not_an_mcp_server payload_too_large rate_limited : GatewayErrorCode
  internal : GatewayErrorCode

-- The magnitudes of the negative JSON-RPC codes: `minus 32603` is -32603.
pub data JsonRpcErrorCode : Type 0 where
  minus : ℕ → JsonRpcErrorCode

pub record GatewayError : Type 0 where
  pub code : GatewayErrorCode
  pub http_status : ℕ
  pub retryable : Bool
  pub retry_after_seconds : Option ℕ

unfoldable pub default_http_status : GatewayErrorCode → ℕ
default_http_status GatewayErrorCode.invalid_request = 400
default_http_status GatewayErrorCode.ssrf_blocked = 400
default_http_status GatewayErrorCode.issuer_mismatch = 400
default_http_status GatewayErrorCode.resource_mismatch = 400
default_http_status GatewayErrorCode.unauthenticated = 401
default_http_status GatewayErrorCode.forbidden = 403
default_http_status GatewayErrorCode.tenant_mismatch = 403
default_http_status GatewayErrorCode.policy_denied = 403
default_http_status GatewayErrorCode.not_found = 404
default_http_status GatewayErrorCode.conflict = 409
default_http_status GatewayErrorCode.payload_too_large = 413
default_http_status GatewayErrorCode.rate_limited = 429
default_http_status GatewayErrorCode.authorization_required = 428
default_http_status GatewayErrorCode.client_credentials_required = 428
default_http_status GatewayErrorCode.upstream_unavailable = 502
default_http_status GatewayErrorCode.discovery_failed = 502
default_http_status GatewayErrorCode.registration_failed = 502
default_http_status GatewayErrorCode.token_exchange_failed = 502
default_http_status GatewayErrorCode.token_refresh_failed = 502
default_http_status GatewayErrorCode.upstream_protocol_error = 502
default_http_status GatewayErrorCode.not_an_mcp_server = 502
default_http_status GatewayErrorCode.internal = 500

-- `new GatewayError(code, message)`, with no options
unfoldable pub gateway_error : GatewayErrorCode → GatewayError
unfolding default_http_status
gateway_error code = record {
  code = code;
  http_status = default_http_status code;
  retryable = false;
  retry_after_seconds = none;
}

to_code : GatewayErrorCode → JsonRpcErrorCode
to_code GatewayErrorCode.authorization_required = minus 32001
to_code GatewayErrorCode.client_credentials_required = minus 32001
to_code GatewayErrorCode.policy_denied = minus 32003
to_code GatewayErrorCode.forbidden = minus 32003
to_code GatewayErrorCode.tenant_mismatch = minus 32003
to_code GatewayErrorCode.upstream_unavailable = minus 32004
to_code GatewayErrorCode.upstream_protocol_error = minus 32004
to_code GatewayErrorCode.not_found = minus 32002
to_code GatewayErrorCode.invalid_request = minus 32602
to_code GatewayErrorCode.payload_too_large = minus 32602
to_code GatewayErrorCode.rate_limited = minus 32005
to_code _ = minus 32603

unfoldable pub to_json_rpc_code : GatewayError → JsonRpcErrorCode
unfolding to_code
to_json_rpc_code e = to_code e.code

-- A result that may be thrown instead of returned.
pub data Result {ℓ} (A : Type ℓ) : Type ℓ where
  ok : A → Result A
  raise : GatewayError → Result A

pub Result-cases {ℓ} :
    {A : Type ℓ} (r : Result A) → ((a : A) × (r ≡ ok a)) ⊎ ((e : GatewayError) × (r ≡ raise e))
Result-cases (ok a) = inl (a, refl)
Result-cases (raise e) = inr (e, refl)
