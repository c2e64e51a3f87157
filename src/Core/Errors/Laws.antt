-- ===== src/Core/Errors/Laws.antt =====
-- How the HTTP status and the JSON-RPC code of an error agree.
use universal_agent_protocol.Base.{◌≡◌, ◌≤◌, ◌<◌, ◌↔◌, arith}
use universal_agent_protocol.Core.Errors.{
  GatewayErrorCode, JsonRpcErrorCode, minus, default_http_status, gateway_error, to_code,
  to_json_rpc_code,
}

-- A JSON-RPC code that the specification reserves, -32768 to -32000.
abbrev pub IsReserved : JsonRpcErrorCode → Type 0
IsReserved (minus m) = (32000 ≤ m) × (m ≤ 32768)

to_code-IsReserved : (c : GatewayErrorCode) → IsReserved (to_code c)
unfolding to_code
to_code-IsReserved GatewayErrorCode.internal = omega arith
to_code-IsReserved _ = omega arith

status_range :
    (c : GatewayErrorCode) → (400 ≤ default_http_status c) × (default_http_status c < 600)
unfolding default_http_status
status_range GatewayErrorCode.internal = omega arith
status_range _ = omega arith

-- An error built from a code alone has an HTTP status from 400 to 599 and a JSON-RPC code in the
-- range that JSON-RPC reserves.
pub gateway_error_bounds :
    (c : GatewayErrorCode)
    → (400 ≤ (gateway_error c).http_status)
      × ((gateway_error c).http_status < 600)
      × IsReserved (to_json_rpc_code (gateway_error c))
unfolding gateway_error to_json_rpc_code
gateway_error_bounds c = let (low, high) = status_range c in (low, high, to_code-IsReserved c)

-- The code for a required authorization and the HTTP status 428 mark the same errors.
pub authorization_iff :
    (c : GatewayErrorCode)
    → (to_json_rpc_code (gateway_error c) ≡ minus 32001) ↔ ((gateway_error c).http_status ≡ 428)
unfolding gateway_error to_json_rpc_code default_http_status to_code
authorization_iff GatewayErrorCode.internal = ground arith
authorization_iff _ = ground arith
