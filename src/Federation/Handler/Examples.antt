-- ===== src/Federation/Handler/Examples.antt =====
-- Runs of the gateway handler on concrete inputs.
use universal_agent_protocol.Base.{
  ℕ, ◌≡◌, ◌≢◌, refl, Bool, true, false, Option, none, some, List, [], ◌∷◌, Text, text_eq, codes,
}
use universal_agent_protocol.Core.Domain.{
  ConnectionOwnerType, ConnectionStatus, ToolRiskLevel, level_eq,
}
use universal_agent_protocol.Core.Json.{Json, string, Entries, Decimal, no_entries, entry, property}
use universal_agent_protocol.Core.Errors.{gateway_error, GatewayErrorCode}
use universal_agent_protocol.Security.RateLimit.{RateLimitRule, require, check, enabled}
use universal_agent_protocol.Storage.Connections.{
  UpstreamConnection, list_visible, list_by_tenant, is_visible_to,
}
use universal_agent_protocol.Storage.Catalogue.{DiscoveredTool, find_tool}
use universal_agent_protocol.Federation.Policy.{
  default_tool_policy, evaluate_tool_call, level_in, lacks_role, args_or_empty,
}
use universal_agent_protocol.Federation.Handler.{
  Caller, returned, threw, gateway, Gateway, World, Sent, text_param, meter_tools,
  require_visible_connection, visible_connections, wait, ask_upstream, upstream_for, push_log_level,
  push_level, tell_level, was_told, send, Client,
}
use universal_agent_protocol.Federation.Handler.Calls.{
  Call, call_tool, pass_gates, require_tool, routed_call, by_decision, decide, confirm,
  confirm_and_perform, is_confirmed, perform, progress_token, add_sink, remove_sink, run_tool,
  settle_run, after_failure, by_scopes, scopes_required, audit,
}
use universal_agent_protocol.Federation.JsonSchema.{validate_against_schema}
use universal_agent_protocol.Storage.Table.{find_one, find_many}
use universal_agent_protocol.Federation.Handler.Requests.{logging_set_level, on_request}
use universal_agent_protocol.Federation.Handler.Gated.{IsGated, call_tool-IsGated}
use universal_agent_protocol.Federation.Handler.Sending.{SendsCall}
use universal_agent_protocol.Federation.Handler.Confined.{Goes}
use universal_agent_protocol.Federation.Handler.Dispatched.{on_request-Goes}
use universal_agent_protocol.Federation.Handler.Audited.{
  IsRun, IsDenied, goes_ahead, pass_gates-IsAudited,
}
use universal_agent_protocol.Federation.Handler.Incoming.{
  Resyncing, schedule_resync, set_running, remove_entry, looping, leaving, idle,
}
use universal_agent_protocol.Federation.Handler.Incoming.Resync.{
  here, announces, is_pending, run_out, Reach-settles,
}

-- A stand-in for the platform's functions.
abbrev size : Json → ℕ
size v = 40

abbrev compiles : Text → Text → Option Bool
compiles pattern s = none

abbrev inherited : Text → Bool
inherited key = false

abbrev number_text : Decimal → Text
number_text n = codes "7"

abbrev rule : RateLimitRule
rule = record { limit = 0; interval_ms = 60000; burst = none }

abbrev connection : UpstreamConnection
connection = record {
  id = codes "c1";
  tenant_id = codes "t1";
  owner_type = ConnectionOwnerType.workspace;
  owner_id = codes "u2";
  mcp_server_id = codes "m1";
  alias = codes "files";
  oauth_issuer_id = none;
  oauth_client_registration_id = none;
  granted_scopes = [];
  requested_scopes = [];
  access_token_encrypted = none;
  refresh_token_encrypted = none;
  static_headers_encrypted = none;
  token_type = none;
  access_token_expires_at = none;
  refresh_token_expires_at = none;
  token_version = 0;
  status = ConnectionStatus.connected;
  last_refresh_at = none;
  last_success_at = none;
  last_error_code = none;
  updated_at = 0;
}

abbrev tool : DiscoveredTool
tool = record {
  id = codes "x1";
  tenant_id = codes "t1";
  connection_id = codes "c1";
  upstream_name = codes "rm";
  gateway_name = codes "files_rm";
  description = none;
  input_schema = no_entries;
  output_schema = none;
  annotations = none;
  schema_hash = codes "h";
  enabled = true;
  risk_level = ToolRiskLevel.destructive;
  discovered_at = 0;
  last_seen_at = 0;
}

abbrev caller : Caller
caller = record {
  session_id = codes "s1";
  tenant_id = codes "t1";
  user_id = codes "u1";
  roles = codes "member" ∷ [];
  elicitation = true;
  sampling = false;
  roots = false;
}

abbrev state : Gateway
state = record {
  manager = record {
    connections = connection ∷ [];
    issuers = [];
    registrations = [];
    breakers = [];
    now = 100;
    requests = [];
  };
  tools = tool ∷ [];
  resources = [];
  prompts = [];
  tool_calls = [];
  api_calls = [];
  progress_sinks = [];
  log_levels = λ id. some (codes "error");
  levels_applied = λ key. none;
  audits = [];
  sent = [];
}

abbrev client : Client
client = record { key = codes "k1"; completions = false; logging = true; accepts_level = true }

-- the client confirms, and the upstream fails
abbrev world : World
world = record {
  confirmation = returned (
      entry (codes "action") (string (codes "accept")) (
        entry (codes "content")
          (Json.object (entry (codes "confirm") (Json.boolean true) no_entries)) no_entries));
  confirm_ms = 5000;
  while_confirming = λ rows. rows;
  acquire_ms = 5;
  while_acquiring = λ rows. rows;
  acquired = returned client;
  open_clients = (codes "c1", client) ∷ [];
  answer = threw (gateway (gateway_error GatewayErrorCode.upstream_unavailable));
  upstream_ms = 20;
  while_calling = λ rows. rows;
}

abbrev params : Entries
params = entry (codes "name") (string (codes "files_rm")) no_entries

abbrev run : Gateway
run =
    (call_tool size compiles inherited number_text default_tool_policy rule world caller params
      state).0

sent_ids : List Sent → List Text
sent_ids [] = []
sent_ids (s ∷ ss) = s.connection_id ∷ sent_ids ss

sends : sent_ids run.sent ≡ codes "c1" ∷ codes "c1" ∷ []
unfolding level_eq sent_ids call_tool text_param property text_eq meter_tools require check enabled
    require_tool find_tool find_one require_visible_connection visible_connections list_visible
    find_many list_by_tenant is_visible_to routed_call pass_gates by_decision decide
    evaluate_tool_call level_in lacks_role args_or_empty validate_against_schema confirm
    confirm_and_perform is_confirmed wait perform progress_token add_sink remove_sink run_tool
    ask_upstream upstream_for push_log_level push_level tell_level was_told send settle_run
    after_failure by_scopes scopes_required audit
sends = refl

call_tool-IsGated_example :
    (r : IsGated size compiles inherited number_text default_tool_policy rule world caller params
      state)
    × SendsCall r.tool r.connection params [] run.sent
unfolding sent_ids
call_tool-IsGated_example =
    call_tool-IsGated size compiles inherited number_text default_tool_policy rule world caller
      params state (λ e. let s = sends in cc)

abbrev level_params : Entries
level_params = entry (codes "level") (string (codes "error")) no_entries

on_request-Goes_example :
    Goes world caller state
      (on_request
        (λ t. t)
        (λ t. t)
        2
        rule
        size
        compiles
        inherited
        number_text
        default_tool_policy
        rule
        world
        caller
        logging_set_level
        level_params
        state).0
on_request-Goes_example =
    on_request-Goes (λ t. t) (λ t. t) 2 rule size compiles inherited number_text default_tool_policy
      rule world caller logging_set_level level_params state

abbrev routed : Call
routed = record {
  caller = caller;
  tool = tool;
  connection = connection;
  args = none;
  started = 100;
}

pass_gates-IsAudited_example :
    (goes_ahead world routed
          (decide size compiles inherited number_text default_tool_policy rule routed)
        ≡ true
      → IsRun routed state (
          pass_gates size compiles inherited number_text default_tool_policy rule world params
            routed state))
    × (goes_ahead world routed
            (decide size compiles inherited number_text default_tool_policy rule routed)
          ≡ false
        → IsDenied routed state (
            pass_gates size compiles inherited number_text default_tool_policy rule world params
              routed state))
pass_gates-IsAudited_example =
    pass_gates-IsAudited size compiles inherited number_text default_tool_policy rule world params
      routed state

abbrev twice_announced : Resyncing
twice_announced = schedule_resync (codes "c1") (schedule_resync (codes "c1") idle)

Reach-settles_example :
    (twice_announced.running (codes "c1") ≢ some (looping true)
      → is_pending (codes "c1") twice_announced.trace ≡ false)
    × ((run_out (codes "c1") twice_announced).running (codes "c1") ≡ none)
    × (is_pending (codes "c1") (run_out (codes "c1") twice_announced).trace ≡ false)
    × (twice_announced.running (codes "c1") ≡ some leaving
        → ((remove_entry (codes "c1") (schedule_resync (codes "c1") twice_announced)).running
              (codes "c1")
            ≡ none)
          × (is_pending
                (codes "c1")
                (remove_entry (codes "c1") (schedule_resync (codes "c1") twice_announced)).trace
              ≡ true))
unfolding schedule_resync set_running idle text_eq
Reach-settles_example =
    Reach-settles (codes "c1")
      (announces (codes "c1") (λ e. cc) (announces (codes "c1") (λ e. cc) here))
