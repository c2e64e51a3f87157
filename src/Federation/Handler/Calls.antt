-- ===== src/Federation/Handler/Calls.antt =====
-- packages/federation/src/gateway-handler.ts and audit.ts: tools/call. A tool is run only past its
-- gates, and whatever becomes of a call behind them is written to the audit trail. The trail's
-- hash of the input and its detail are left out; the input stands for its hash.
use universal_agent_protocol.Base.{
  ℕ, ◌-◌, Bool, false, not, ◌&&◌, Option, none, some, List, [], ◌∷◌, ◌++◌, Text, text_eq, codes,
  select, if◌then◌else◌,
}
use universal_agent_protocol.Core.Domain.{ToolRiskLevel, level_eq}
use universal_agent_protocol.Core.Json.{
  Json, boolean, string, number, object, Entries, Decimal, property,
}
use universal_agent_protocol.Core.Errors.{Result, ok, raise, GatewayErrorCode}
use universal_agent_protocol.Security.RateLimit.{RateLimitRule}
use universal_agent_protocol.Storage.Connections.{UpstreamConnection}
use universal_agent_protocol.Storage.Catalogue.{DiscoveredTool, find_tool}
use universal_agent_protocol.OAuth.TokenManager.{unique_strings}
use universal_agent_protocol.OAuth.Revocation.{require_incremental_authorization}
use universal_agent_protocol.OAuth.InsufficientScope.{insufficient_scope_from}
use universal_agent_protocol.Federation.Policy.{
  ToolPolicy, ToolCall, PolicyDecision, allow, require_confirmation, deny, invalid_arguments,
  args_or_empty, evaluate_tool_call, assert_result_within_limits,
}
use universal_agent_protocol.Federation.Naming.Results.{namespace_result_resources}
use universal_agent_protocol.Federation.Handler.{
  Caller, Thrown, gateway, foreign, Reply, returned, threw, tool_call, AuditStatus, audit_ok,
  audit_error, audit_denied, AuditEvent, Gateway, World, G, ◌>>=◌, throw, text_param, wait,
  require_visible_connection, ask_upstream, meter_tools,
}

-- A call that has passed the routing.
pub record Call : Type 0 where
  pub caller : Caller
  pub tool : DiscoveredTool
  pub connection : UpstreamConnection
  pub args : Option Json
  pub started : ℕ

unfoldable pub event_of : Call → AuditStatus → ℕ → AuditEvent
event_of c status now = record {
  tenant_id = c.caller.tenant_id;
  user_id = c.caller.user_id;
  downstream_session_id = c.caller.session_id;
  connection_id = c.connection.id;
  tool_id = c.tool.id;
  operation = codes "tools/call";
  input = args_or_empty c.args;
  result_status = status;
  duration_ms = now - c.started;
}

unfoldable pub audit : Call → AuditStatus → Gateway → Gateway
audit c status g = record g { audits = g.audits ++ event_of c status g.manager.now ∷ [] }

is_accept : Option Json → Bool
is_accept (some (string s)) = text_eq s (codes "accept")
is_accept _ = false

is_true : Option Json → Bool
is_true (some (boolean b)) = b
is_true _ = false

confirms : Option Json → Bool
unfolding is_true
confirms (some (object o)) = is_true (property (codes "confirm") o)
confirms _ = false

-- what the client's answer to the elicitation says
unfoldable pub is_confirmed : Reply Entries → Bool
unfolding is_accept confirms
is_confirmed (threw e) = false
is_confirmed (returned response) =
    is_accept (property (codes "action") response) && confirms (property (codes "content") response)

unfoldable pub confirm : World → Caller → Gateway → Gateway × Bool
confirm w caller g =
    if caller.elicitation
    then (wait w.confirm_ms w.while_confirming g, is_confirmed w.confirmation)
    else (g, false)

-- `readProgressToken`, as the text of its key
unfoldable pub progress_token : (Decimal → Text) → Entries → Option Text
progress_token number_text params = elim (property (codes "_meta") params) [
  | some (object meta) ↦ elim (property (codes "progressToken") meta) [
    | some (string t) ↦ some t
    | some (number n) ↦ some (number_text n)
    | _ ↦ none
  ]
  | _ ↦ none
]

abbrev pub progress_key : Caller → Text → Text
progress_key caller token = caller.session_id ++ b':' ∷ token

without : Text → List Text → List Text
without key = select (λ k. not (text_eq k key))

-- `progressSinks.set` and `progressSinks.delete`
unfoldable pub add_sink : Caller → Option Text → Gateway → Gateway
unfolding without
add_sink caller none g = g
add_sink caller (some token) g = record g {
  progress_sinks = progress_key caller token ∷ without (progress_key caller token) g.progress_sinks;
}

unfoldable pub remove_sink : Caller → Option Text → Gateway → Gateway
unfolding without
remove_sink caller none g = g
remove_sink caller (some token) g = record g {
  progress_sinks = without (progress_key caller token) g.progress_sinks;
}

unfoldable pub scopes_required : Thrown → Option (List Text)
scopes_required (gateway e) = none
scopes_required (foreign header message) = insufficient_scope_from header message

unfoldable pub widen : Call → List Text → G Entries
widen c required g =
    let (m, r) =
      require_incremental_authorization {A = Entries}
        (record { tenant_id = c.connection.tenant_id; connection_id = c.connection.id })
        (unique_strings (c.connection.granted_scopes ++ required)) g.manager in
    let g' = record g { manager = m } in
    elim r [ raise e ↦ (g', threw (gateway e)) | ok a ↦ (g', returned a) ]

unfoldable pub by_scopes : Call → Thrown → Option (List Text) → G Entries
by_scopes c e none g = (g, threw e)
by_scopes c e (some required) g = widen c required g

-- the `catch` block: the failure is audited, and a grant that is too narrow is to be widened
unfoldable pub after_failure : Call → Thrown → G Entries
after_failure c e g = by_scopes c e (scopes_required e) (audit c audit_error g)

-- what the policy is asked about
abbrev pub policy_call : Call → ToolCall
policy_call c = record {
  tool_enabled = c.tool.enabled;
  risk_level = c.tool.risk_level;
  input_schema = some c.tool.input_schema;
  status = c.connection.status;
  args = c.args;
  roles = c.caller.roles;
}

module _ (size : Json → ℕ) (compiles : Text → Text → Option Bool) (inherited : Text → Bool)
    (number_text : Decimal → Text) (policy : ToolPolicy) (rule : RateLimitRule) where
  unfoldable pub by_limits : Call → Entries → Result (Unit {0}) → G Entries
  by_limits c result (raise e) g = after_failure c (gateway e) g
  by_limits c result (ok _) g =
      (audit c audit_ok g, returned (namespace_result_resources c.connection.alias result))

  -- the end of the `try` block
  unfoldable pub accept_result : Call → Entries → G Entries
  accept_result c result =
      by_limits c result
        (assert_result_within_limits size compiles inherited policy (some (object result)))

  unfoldable pub settle_run : Call → Gateway × Reply Entries → Gateway × Reply Entries
  settle_run c (g, threw e) = after_failure c e g
  settle_run c (g, returned result) = accept_result c result g

  -- the `try` statement with its `catch`
  unfoldable pub run_tool : World → Call → G Entries
  run_tool w c g = settle_run c (
      ask_upstream w c.caller c.connection
        (tool_call c.tool.upstream_name (args_or_empty c.args)
          (level_eq c.tool.risk_level ToolRiskLevel.read_only))
        g)

  -- the call behind its gates, with its progress sink
  unfoldable pub perform : World → Entries → Call → G Entries
  perform w params c g =
      let token = progress_token number_text params in
      let (g', reply) = run_tool w c (add_sink c.caller token g) in
      (remove_sink c.caller token g', reply)

  unfoldable pub decide : Call → PolicyDecision
  decide c = evaluate_tool_call size compiles inherited policy (policy_call c)

  unfoldable pub refuse : Call → GatewayErrorCode → G Entries
  refuse c code g = throw code (audit c audit_denied g)

  unfoldable pub confirm_and_perform : World → Entries → Call → G Entries
  confirm_and_perform w params c g =
      let (g', confirmed) = confirm w c.caller g in
      if confirmed then perform w params c g' else refuse c GatewayErrorCode.policy_denied g'

  unfoldable pub by_decision : World → Entries → Call → PolicyDecision → G Entries
  by_decision w params c (deny reason) g = refuse c GatewayErrorCode.policy_denied g
  by_decision w params c (invalid_arguments is) g = refuse c GatewayErrorCode.invalid_request g
  by_decision w params c require_confirmation g = confirm_and_perform w params c g
  by_decision w params c allow g = perform w params c g

  unfoldable pub pass_gates : World → Entries → Call → G Entries
  pass_gates w params c g = by_decision w params c (decide c) g

  unfoldable pub require_tool : Caller → Text → G DiscoveredTool
  require_tool caller name g = elim (find_tool caller.tenant_id name g.tools) [
    | none ↦ throw GatewayErrorCode.not_found g
    | some t ↦ (g, returned t)
  ]

  unfoldable pub routed_call :
      World → Caller → Entries → DiscoveredTool → UpstreamConnection → G Entries
  routed_call w caller params tool connection g =
      pass_gates w params
        (record {
          caller = caller;
          tool = tool;
          connection = connection;
          args = property (codes "arguments") params;
          started = g.manager.now;
        })
        g

  -- `callTool`
  unfoldable pub call_tool : World → Caller → Entries → G Entries
  call_tool w caller params = do
    name ← text_param (codes "name") params
    _ ← meter_tools rule caller
    tool ← require_tool caller name
    connection ← require_visible_connection caller tool.connection_id
    routed_call w caller params tool connection
