-- ===== src/Federation/Handler.antt =====
-- packages/federation/src/gateway-handler.ts: what the gateway answers to a client's requests. A
-- method is a function of the gateway's state that keeps what it has changed when it throws. What
-- other parties do during a request is given: whether the upstream session opens, what the upstream
-- and the client answer, how long it takes, and what happens to the connections meanwhile. `sent`
-- records the requests that are put to the clients of upstreams; how such a client repeats a message
-- when its own session has run out is left out. Metrics and logs are left out.
pub mod Calls
pub mod Requests
pub mod Incoming
pub mod Served
pub mod Reads
pub mod Levels
pub mod Confined
pub mod Sending
pub mod Gated
pub mod Dispatched
pub mod Audited
mod Examples
use universal_agent_protocol.Base.{
  ℕ, ◌+◌, ◌-◌, Bool, true, false, not, ◌&&◌, ◌||◌, Option, none, some, List, [], ◌∷◌, ◌++◌, map,
  Text, text_eq, codes, includes, select, if◌then◌else◌,
}
use universal_agent_protocol.Core.Domain.{ConnectionStatus}
use universal_agent_protocol.Core.Json.{Json, string, object, Entries, no_entries, entry, property}
use universal_agent_protocol.Core.Errors.{
  Result, ok, raise, GatewayError, gateway_error, GatewayErrorCode,
}
use universal_agent_protocol.Security.RateLimit.{RateLimitRule, Buckets, require}
use universal_agent_protocol.Storage.Connections.{
  UpstreamConnection, Connections, list_visible, find_by_alias,
}
use universal_agent_protocol.Storage.Catalogue.{
  DiscoveredTool, Tools, Resources, DiscoveredResource, Prompts, DiscoveredPrompt, list_tools,
  list_resources, list_prompts, find_resource,
}
use universal_agent_protocol.Storage.Table.{find_one}
use universal_agent_protocol.OAuth.TokenManager as Manager
use universal_agent_protocol.Federation.Policy.{ToolPolicy}
use universal_agent_protocol.Federation.Naming.{split_resource_uri, split_prompt_name}

-- The parts of a downstream session that the handler reads.
pub record Caller : Type 0 where
  pub session_id : Text
  pub tenant_id : Text
  pub user_id : Text
  pub roles : List Text
  pub elicitation : Bool
  pub sampling : Bool
  pub roots : Bool

-- A thrown error: one of the gateway's, or another, by what is read of it.
pub data Thrown : Type 0 where
  gateway : GatewayError → Thrown
  foreign : Option Text → Text → Thrown

pub data Reply (A : Type 0) : Type 0 where
  returned : A → Reply A
  threw : Thrown → Reply A

-- What goes to an upstream, by the connection that it goes through.
pub data UpstreamRequest : Type 0 where
  tool_call : Text → Json → Bool → UpstreamRequest
  resource_read resource_subscribe resource_unsubscribe : Text → UpstreamRequest
  prompt_get : Text → Json → UpstreamRequest
  completion : Entries → UpstreamRequest
  set_level : Text → UpstreamRequest

pub record Sent : Type 0 where
  pub connection_id : Text
  pub request : UpstreamRequest

pub data AuditStatus : Type 0 where
  audit_ok audit_error audit_denied : AuditStatus

pub record AuditEvent : Type 0 where
  pub tenant_id : Text
  pub user_id : Text
  pub downstream_session_id : Text
  pub connection_id : Text
  pub tool_id : Text
  pub operation : Text
  pub input : Json
  pub result_status : AuditStatus
  pub duration_ms : ℕ

-- `manager` holds the connections and the clock, `log_levels` the level that each downstream session
-- has asked for, and `levels_applied` (`logLevelApplied`) what each upstream client was told.
pub record Gateway : Type 0 where
  pub manager : Manager.State
  pub tools : Tools
  pub resources : Resources
  pub prompts : Prompts
  pub tool_calls : Buckets
  pub api_calls : Buckets
  pub progress_sinks : List Text
  pub log_levels : Text → Option Text
  pub levels_applied : Text → Option Text
  pub audits : List AuditEvent
  pub sent : List Sent

-- An upstream session that is open: which object it is, what the upstream can do, and whether it takes
-- a log level.
pub record Client : Type 0 where
  pub key : Text
  pub completions : Bool
  pub logging : Bool
  pub accepts_level : Bool

-- What the other parties of a request do: the client's answer to a confirmation, and the session and
-- the answer of the upstream, each with what it takes and what other requests do to the connections.
-- `open_clients` are the upstream sessions that are open for the caller, with their connections.
pub record World : Type 0 where
  pub confirmation : Reply Entries
  pub confirm_ms : ℕ
  pub while_confirming : Connections → Connections
  pub acquired : Reply Client
  pub acquire_ms : ℕ
  pub while_acquiring : Connections → Connections
  pub open_clients : List (Text × Client)
  pub answer : Reply Entries
  pub upstream_ms : ℕ
  pub while_calling : Connections → Connections

abbrev pub G : Type 0 → Type 0
G A = Gateway → Gateway × Reply A

abbrev pub and_then : {A B : Type 0} → Gateway × Reply A → (A → G B) → Gateway × Reply B
and_then (g, threw e) f = (g, threw e)
and_then (g, returned a) f = f a g

infixl 5 ◌>>=◌
abbrev pub ◌>>=◌ : {A B : Type 0} → G A → (A → G B) → G B
◌>>=◌ m f g = and_then (m g) f

abbrev pub throw : {A : Type 0} → GatewayErrorCode → G A
throw code g = (g, threw (gateway (gateway_error code)))

abbrev pub give : {A : Type 0} → A → G A
give a g = (g, returned a)

text_of : Option Json → G Text
text_of (some (string t)) g = (g, returned t)
text_of _ g = (g, threw (gateway (gateway_error GatewayErrorCode.invalid_request)))

-- `params[key]` as a string, or an error
unfoldable pub text_param : Text → Entries → G Text
unfolding text_of
text_param key params = text_of (property key params)

-- time passes, and others act on the connections
unfoldable pub wait : ℕ → (Connections → Connections) → Gateway → Gateway
wait ms acts g = record g {
  manager = record g.manager { connections = acts g.manager.connections; now = g.manager.now + ms };
}

is_enabled : UpstreamConnection → Bool
is_enabled c = elim c.status [ ConnectionStatus.disabled ↦ false | _ ↦ true ]

-- `visibleConnections`: those that the caller may use, without the disabled ones
unfoldable pub visible_connections : Caller → Gateway → Connections
unfolding is_enabled
visible_connections caller g =
    select is_enabled (list_visible caller.tenant_id caller.user_id g.manager.connections)

unfoldable pub require_visible_connection : Caller → Text → G UpstreamConnection
require_visible_connection caller id g =
    elim (find_one (λ c. text_eq c.id id) (visible_connections caller g)) [
      | none ↦ (g, threw (gateway (gateway_error GatewayErrorCode.forbidden)))
      | some c ↦ (g, returned c)
    ]

-- A connection, and the upstream's own name for what is asked of it.
pub record Routed : Type 0 where
  pub connection_id : Text
  pub upstream_uri : Text

-- `splitResourceUri(uri) ?? splitPromptName(uri)`
split_uri : Text → Option (Text × Text)
split_uri uri = elim (split_resource_uri uri) [ none ↦ split_prompt_name uri | some r ↦ some r ]

unfoldable pub route_by_alias : Caller → Text → G Routed
unfolding split_uri
route_by_alias caller uri g = elim (split_uri uri) [
  | none ↦ throw GatewayErrorCode.not_found g
  | some (alias, rest) ↦ elim (find_by_alias caller.tenant_id alias g.manager.connections) [
    | none ↦ throw GatewayErrorCode.not_found g
    | some c ↦ (g, returned (record { connection_id = c.id; upstream_uri = rest }))
  ]
]

-- `findByGatewayUri`, and the alias of the URI where it was never listed
unfoldable pub route_resource : Caller → Text → G Routed
route_resource caller uri g = elim (find_resource caller.tenant_id uri g.resources) [
  | some r ↦
      (g, returned (record { connection_id = r.connection_id; upstream_uri = r.upstream_uri }))
  | none ↦ route_by_alias caller uri g
]

-- `MCP_LOG_LEVELS`
unfoldable pub mcp_log_levels : List Text
mcp_log_levels =
    codes "debug"
    ∷ codes "info"
    ∷ codes "notice"
    ∷ codes "warning"
    ∷ codes "error"
    ∷ codes "critical"
    ∷ codes "alert"
    ∷ codes "emergency"
    ∷ []

unfoldable pub set_entry : Text → Option Text → (Text → Option Text) → Text → Option Text
set_entry key v m k = if text_eq k key then v else m k

was_told : Text → Option Text → Bool
was_told level none = false
was_told level (some applied) = text_eq applied level

unfoldable pub tell_level : Text → Client → Text → Gateway → Gateway
unfolding set_entry
tell_level id client level g = record g {
  sent = g.sent ++ record { connection_id = id; request = set_level level } ∷ [];
  levels_applied =
      set_entry client.key (if client.accepts_level then some level else none) g.levels_applied;
}

unfoldable pub push_level : Text → Client → Option Text → Gateway → Gateway
unfolding was_told
push_level id client none g = g
push_level id client (some level) g =
    if client.logging && not (was_told level (g.levels_applied client.key))
    then tell_level id client level g
    else g

-- `pushLogLevel`, to a client of the connection
unfoldable pub push_log_level : Caller → Text → Client → Gateway → Gateway
push_log_level caller id client g = push_level id client (g.log_levels caller.session_id) g

-- `upstreamFor`: others act while the session opens
unfoldable pub upstream_for : World → Caller → UpstreamConnection → G Client
upstream_for w caller c g =
    let g' = wait w.acquire_ms w.while_acquiring g in
    elim w.acquired [
      | threw e ↦ (g', threw e)
      | returned client ↦ (push_log_level caller c.id client g', returned client)
    ]

-- one request to an upstream client, for which others act meanwhile
unfoldable pub send : World → UpstreamConnection → UpstreamRequest → G Entries
send w c request g =
    let sent = g.sent ++ record { connection_id = c.id; request = request } ∷ [] in
    (wait w.upstream_ms w.while_calling (record g { sent = sent }), w.answer)

unfoldable pub ask_upstream : World → Caller → UpstreamConnection → UpstreamRequest → G Entries
ask_upstream w caller c request = upstream_for w caller c >>= λ _. send w c request

usable : Connections → List Text
usable connections = map (λ c. c.id) connections

-- The entries of the lists. Optional fields that are empty or missing are left out.
text_field : Text → Option Text → Entries → Entries
text_field key none rest = rest
text_field key (some []) rest = rest
text_field key (some (c ∷ t)) rest = entry key (string (c ∷ t)) rest

object_field : Text → Option Entries → Entries → Entries
object_field key none rest = rest
object_field key (some o) rest = entry key (object o) rest

tool_descriptor : DiscoveredTool → Entries
unfolding text_field object_field
tool_descriptor t = entry (codes "name") (string t.gateway_name) (
    entry (codes "inputSchema") (object t.input_schema) (
      text_field (codes "description") t.description (
        object_field (codes "outputSchema") t.output_schema
          (object_field (codes "annotations") t.annotations no_entries))))

unfoldable pub is_listed : List Text → DiscoveredTool → Bool
is_listed ids t = t.enabled && includes ids t.connection_id

-- the tools behind `listTools`
unfoldable pub listed_tools : Caller → Gateway → Tools
unfolding usable
listed_tools caller g =
    select (is_listed (usable (visible_connections caller g))) (list_tools caller.tenant_id g.tools)

unfoldable pub list_tool_descriptors : Caller → Gateway → List Entries
unfolding tool_descriptor
list_tool_descriptors caller g = map tool_descriptor (listed_tools caller g)

same : Bool → Bool → Bool
same true b = b
same false b = not b

resource_descriptor : Bool → DiscoveredResource → Entries
unfolding text_field
resource_descriptor templates r =
    entry (if templates then codes "uriTemplate" else codes "uri") (string r.gateway_uri) (
      entry (codes "name") (string r.name) (
        text_field (codes "description") r.description
          (text_field (codes "mimeType") r.mime_type no_entries)))

-- `listResources`
unfoldable pub list_resource_descriptors : Caller → Bool → Gateway → List Entries
unfolding usable same resource_descriptor
list_resource_descriptors caller templates g =
    let ids = usable (visible_connections caller g) in
    map (resource_descriptor templates) (
      select (λ r. includes ids r.connection_id && same r.is_template templates)
        (list_resources caller.tenant_id g.resources))

arguments_field : Option Json → Entries
arguments_field (some (Json.array items)) = entry (codes "arguments") (Json.array items) no_entries
arguments_field _ = no_entries

arguments_of : DiscoveredPrompt → Option Json
arguments_of p = elim p.arguments [ none ↦ none | some a ↦ property (codes "arguments") a ]

prompt_descriptor : DiscoveredPrompt → Entries
unfolding text_field arguments_field arguments_of
prompt_descriptor p =
    entry (codes "name") (string p.gateway_name)
      (text_field (codes "description") p.description (arguments_field (arguments_of p)))

-- `listPrompts`
unfoldable pub list_prompt_descriptors : Caller → Gateway → List Entries
unfolding usable prompt_descriptor
list_prompt_descriptors caller g =
    let ids = usable (visible_connections caller g) in
    map prompt_descriptor
      (select (λ p. includes ids p.connection_id) (list_prompts caller.tenant_id g.prompts))

-- `RateLimiter.require` on the tenant's bucket of requests
unfoldable pub meter_api : RateLimitRule → Caller → G (Unit {0})
meter_api rule caller g =
    let (buckets, decision) = require rule g.manager.now caller.tenant_id g.api_calls in
    let g' = record g { api_calls = buckets } in
    elim decision [ raise e ↦ (g', threw (gateway e)) | ok _ ↦ (g', returned tt) ]

unfoldable pub meter_tools : RateLimitRule → Caller → G (Unit {0})
meter_tools rule caller g =
    let (buckets, decision) = require rule g.manager.now caller.tenant_id g.tool_calls in
    let g' = record g { tool_calls = buckets } in
    elim decision [ raise e ↦ (g', threw (gateway e)) | ok _ ↦ (g', returned tt) ]
