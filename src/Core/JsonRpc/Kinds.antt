-- ===== src/Core/JsonRpc/Kinds.antt =====
-- How the kinds of messages exclude one another.
use universal_agent_protocol.Base.{◌≡◌, true, false, arith}
use universal_agent_protocol.Core.Json.{Json}
use universal_agent_protocol.Core.JsonRpc.{
  is_json_rpc_request, is_json_rpc_notification, is_json_rpc_response, is_json_rpc_failure,
}

-- No value is both a notification and a request or a response: one carries an id and the other
-- does not. A failure is always a response.
pub kinds_exclusive :
    (v : Json)
    → (is_json_rpc_notification v ≡ true → is_json_rpc_request v ≡ false)
      × (is_json_rpc_notification v ≡ true → is_json_rpc_response v ≡ false)
      × (is_json_rpc_failure v ≡ true → is_json_rpc_response v ≡ true)
unfolding is_json_rpc_notification is_json_rpc_request is_json_rpc_response is_json_rpc_failure
kinds_exclusive v = (λ h. ground arith, λ h. ground arith, λ h. ground arith)
