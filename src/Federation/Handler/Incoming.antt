-- ===== src/Federation/Handler/Incoming.antt =====
-- packages/federation/src/gateway-handler.ts: what upstreams send. A request goes to the one client
-- that the upstream session belongs to, a notification to that client, and an announcement of a
-- changed catalogue starts a rediscovery, one at a time for each connection.
pub mod Resync
pub mod Forwarded
use universal_agent_protocol.Base.{
  Bool, true, false, not, ◌&&◌, ◌||◌, Option, none, some, List, [], ◌∷◌, ◌++◌, Text, text_eq, codes,
  starts_with, includes, any, index_of, ltb, ℕ, suc, zero, if◌then◌else◌,
}
use universal_agent_protocol.Core.Json.{
  Json, string, number, Entries, Decimal, property, set_property,
}
use universal_agent_protocol.Federation.Policy.{ToolPolicy, allows_server_request}
use universal_agent_protocol.Federation.Handler.{Caller, Reply, returned, threw, mcp_log_levels}

-- The upstream session that a message comes from.
pub record UpstreamMessageContext : Type 0 where
  pub tenant_id : Text
  pub connection_id : Text
  pub alias : Text
  pub downstream_session_id : Text

pub data Response : Type 0 where
  policy_denied no_client unsupported failed : Response
  success : Entries → Response

unfoldable pub is_supported : Caller → Text → Bool
is_supported client method =
    starts_with (codes "sampling/") method && client.sampling
    || starts_with (codes "elicitation/") method && client.elicitation
    || starts_with (codes "roots/") method && client.roots

answer_of : Reply Entries → Response
answer_of (returned result) = success result
answer_of (threw e) = failed

-- `routeUpstreamRequest`: the response, and the session that was asked, if one was
unfoldable pub route_upstream_request :
    ToolPolicy → Option Caller → Text → Reply Entries → Response × Option Text
unfolding answer_of
route_upstream_request policy session method answer =
    if allows_server_request policy method
    then (elim session [
      | none ↦ (no_client, none)
      | some client ↦
          if is_supported client method
          then (answer_of answer, some client.session_id)
          else (unsupported, none)
    ])
    else (policy_denied, none)

-- `MCP_LOG_LEVELS.indexOf`, one more than it, and 0 if there is none
position : Text → List Text → ℕ
position t [] = 0
position t (l ∷ ls) =
    let rest = position t ls in
    if text_eq l t then 1 else elim rest [ zero ↦ 0 | suc n ↦ suc (suc n) ]

-- `meetsLogLevel`: a level that is none is let through
unfoldable pub meets_log_level : Option Json → Text → Bool
unfolding mcp_log_levels position
meets_log_level (some (string level)) minimum = not (
    includes mcp_log_levels level
    && ltb (position level mcp_log_levels) (position minimum mcp_log_levels))
meets_log_level _ minimum = true

-- Where a notification goes, with its parameters.
pub data Route : Type 0 where
  resync_and_broadcast dropped : Route
  to_sink to_session : Option Entries → Route

is_list_changed : Text → Bool
is_list_changed = includes (
    codes "notifications/tools/list_changed"
    ∷ codes "notifications/resources/list_changed"
    ∷ codes "notifications/prompts/list_changed"
    ∷ [])

token_text : (Decimal → Text) → Option Json → Text
token_text number_text (some (string t)) = t
token_text number_text (some (number n)) = number_text n
token_text number_text _ = codes "undefined"

param_of : Text → Option Entries → Option Json
param_of key none = none
param_of key (some o) = property key o

with_alias : Text → Option Entries → Option Entries
with_alias alias none = none
with_alias alias (some o) = elim (property (codes "uri") o) [
  | some (string uri) ↦ some (set_property (codes "uri") (string (alias ++ b'+' ∷ uri)) o)
  | _ ↦ some o
]

below_floor : Option Text → Text → Option Entries → Bool
unfolding param_of
below_floor none method params = false
below_floor (some floor) method params =
    text_eq method (codes "notifications/message")
    && not (meets_log_level (param_of (codes "level") params) floor)

-- what the session is sent, if it is there: its log level, if it has set one
to_client : Text → Option (Option Text) → Text → Option Entries → Route
unfolding below_floor with_alias
to_client alias none method params = dropped
to_client alias (some floor) method params =
    if below_floor floor method params
    then dropped
    else if text_eq method (codes "notifications/resources/updated")
    then to_session (with_alias alias params)
    else to_session params

-- `routeUpstreamNotification`; `sinks` are the keys of the calls in flight
unfoldable pub route_upstream_notification :
    (Decimal → Text)
    → UpstreamMessageContext
    → List Text
    → Option (Option Text)
    → Text
    → Option Entries
    → Route
unfolding is_list_changed token_text param_of to_client
route_upstream_notification number_text context sinks session method params =
    let key =
      context.downstream_session_id
      ++ b':' ∷ token_text number_text (param_of (codes "progressToken") params) in
    if is_list_changed method
    then resync_and_broadcast
    else if text_eq method (codes "notifications/progress") && includes sinks key
    then to_sink params
    else to_client context.alias session method params

-- What happens at a connection's rediscovery, latest first.
pub data Event : Type 0 where
  announced started : Text → Event

-- A rediscovery runs in a loop, which repeats it if a change was announced meanwhile; or its loop has
-- ended, and its entry is not yet removed.
pub data Phase : Type 0 where
  looping : Bool → Phase
  leaving : Phase

-- `resyncing`: the connections with an entry.
pub record Resyncing : Type 0 where
  pub running : Text → Option Phase
  pub trace : List Event

unfoldable pub set_running : Text → Option Phase → (Text → Option Phase) → Text → Option Phase
set_running id v running x = if text_eq x id then v else running x

-- `scheduleResync`; the mark on an entry whose loop has ended is never read
unfoldable pub schedule_resync : Text → Resyncing → Resyncing
unfolding set_running
schedule_resync id s = elim (s.running id) [
  | some (looping _) ↦ record {
    running = set_running id (some (looping true)) s.running;
    trace = announced id ∷ s.trace;
  }
  | some leaving ↦ record s { trace = announced id ∷ s.trace }
  | none ↦ record {
    running = set_running id (some (looping false)) s.running;
    trace = started id ∷ announced id ∷ s.trace;
  }
]

-- a rediscovery ends, well or not, and `while (state.repeat)` looks whether to repeat it
unfoldable pub end_round : Text → Resyncing → Resyncing
unfolding set_running
end_round id s = elim (s.running id) [
  | some (looping true) ↦ record {
    running = set_running id (some (looping false)) s.running;
    trace = started id ∷ s.trace;
  }
  | some (looping false) ↦ record s { running = set_running id (some leaving) s.running }
  | _ ↦ s
]

-- `finally`, which runs later than the end of the loop
unfoldable pub remove_entry : Text → Resyncing → Resyncing
unfolding set_running
remove_entry id s = elim (s.running id) [
  | some leaving ↦ record s { running = set_running id none s.running }
  | _ ↦ s
]

unfoldable pub idle : Resyncing
idle = record { running = λ id. none; trace = [] }
