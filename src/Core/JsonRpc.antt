-- ===== src/Core/JsonRpc.antt =====
-- packages/core/src/json-rpc.ts: which values are requests, notifications and responses.
pub mod Kinds
use universal_agent_protocol.Base.{
  Bool, true, false, ◌&&◌, ◌||◌, not, Option, none, some, Text, text_eq, codes,
}
use universal_agent_protocol.Core.Json.{
  Json, null, number, string, array, object, Entries, property,
}

abbrev pub jsonrpc_version : Text
jsonrpc_version = codes "2.0"

abbrev pub present : Option Json → Bool
present none = false
present (some _) = true

is_text : Text → Option Json → Bool
is_text t (some (string s)) = text_eq s t
is_text t _ = false

abbrev pub is_string : Option Json → Bool
is_string (some (string _)) = true
is_string _ = false

abbrev pub is_null : Option Json → Bool
is_null (some null) = true
is_null _ = false

unfoldable pub is_request_id : Option Json → Bool
is_request_id (some (string _)) = true
is_request_id (some (number _)) = true
is_request_id _ = false

-- An array is an object to `typeof`, and has none of the keys.
is_envelope : Json → Bool
unfolding is_text
is_envelope (object o) = is_text jsonrpc_version (property (codes "jsonrpc") o)
is_envelope _ = false

-- `value[key]` and `key in value` of an envelope; the keys asked for are no keys of a prototype
value_at : Text → Json → Option Json
value_at key (object o) = property key o
value_at key _ = none

abbrev has : Text → Json → Bool
has key v = present (value_at key v)

unfoldable pub is_json_rpc_request : Json → Bool
unfolding is_envelope value_at is_request_id
is_json_rpc_request v =
    is_envelope v
    && (is_string (value_at (codes "method") v) && is_request_id (value_at (codes "id") v))

unfoldable pub is_json_rpc_notification : Json → Bool
unfolding is_envelope value_at
is_json_rpc_notification v =
    is_envelope v && (is_string (value_at (codes "method") v) && not (has (codes "id") v))

unfoldable pub is_json_rpc_response : Json → Bool
unfolding is_envelope value_at is_request_id
is_json_rpc_response v =
    is_envelope v
    && ((has (codes "result") v || has (codes "error") v)
        && (is_request_id (value_at (codes "id") v)
            || (has (codes "error") v && is_null (value_at (codes "id") v))))

unfoldable pub is_json_rpc_failure : Json → Bool
unfolding is_json_rpc_response value_at
is_json_rpc_failure v = is_json_rpc_response v && has (codes "error") v
