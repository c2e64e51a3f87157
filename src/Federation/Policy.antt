-- ===== src/Federation/Policy.antt =====
-- packages/federation/src/policy-engine.ts. `size` stands for
-- `Buffer.byteLength(JSON.stringify(value))`. Reasons are text for people and are left out, except
-- that the refusals are told apart by a constructor each.
pub mod Decides
pub mod Exposure
use universal_agent_protocol.Base.{
  ℕ, Bool, true, false, not, ◌&&◌, ◌||◌, List, [], ◌∷◌, Option, none, some, Text, codes, any,
  includes, ltb, length, starts_with, if◌then◌else◌, take,
}
use universal_agent_protocol.Core.Domain.{ToolRiskLevel, ConnectionStatus, level_eq}
use universal_agent_protocol.Core.Json.{Json, object, Entries, no_entries, property}
use universal_agent_protocol.Core.Errors.{Result, ok, raise, gateway_error, GatewayErrorCode}
use universal_agent_protocol.Federation.JsonSchema.{ValidationIssue, validate_against_schema}

pub record ToolPolicy : Type 0 where
  pub blocked_risk_levels : List ToolRiskLevel
  pub confirmation_risk_levels : List ToolRiskLevel
  pub disable_unknown_destructive : Bool
  pub max_argument_bytes : ℕ
  pub max_result_bytes : ℕ
  pub allow_sampling : Bool
  pub allow_elicitation : Bool
  pub allow_roots : Bool
  pub write_roles : List Text

abbrev pub default_tool_policy : ToolPolicy
default_tool_policy = record {
  blocked_risk_levels = [];
  confirmation_risk_levels = ToolRiskLevel.destructive ∷ ToolRiskLevel.financial ∷ [];
  disable_unknown_destructive = true;
  max_argument_bytes = 262144;
  max_result_bytes = 4194304;
  allow_sampling = true;
  allow_elicitation = true;
  allow_roots = true;
  write_roles = [];
}

pub data DenyReason : Type 0 where
  tool_disabled connection_disabled risk_blocked role_read_only arguments_too_large : DenyReason

-- `INVALID_ARGUMENTS` carries the issues of which its reason shows the first three.
pub data PolicyDecision : Type 0 where
  allow require_confirmation : PolicyDecision
  deny : DenyReason → PolicyDecision
  invalid_arguments : List ValidationIssue → PolicyDecision

-- The parts of the tool and of the connection that the policy reads.
pub record ToolCall : Type 0 where
  pub tool_enabled : Bool
  pub risk_level : ToolRiskLevel
  pub input_schema : Option Entries
  pub status : ConnectionStatus
  pub args : Option Json
  pub roles : List Text

unfoldable pub level_in : ToolRiskLevel → List ToolRiskLevel → Bool
level_in level levels = any (λ l. level_eq l level) levels

abbrev is_disabled : ConnectionStatus → Bool
is_disabled ConnectionStatus.disabled = true
is_disabled _ = false

abbrev is_empty : {A : Type 0} → List A → Bool
is_empty [] = true
is_empty (_ ∷ _) = false

-- `args ?? {}`; `null` stands for a missing value as well
unfoldable pub args_or_empty : Option Json → Json
args_or_empty none = object no_entries
args_or_empty (some Json.null) = object no_entries
args_or_empty (some v) = v

-- the test of the `writeRoles` gate
unfoldable pub lacks_role : ToolPolicy → ToolCall → Bool
lacks_role p c =
    not (is_empty p.write_roles)
    && (not (level_eq c.risk_level ToolRiskLevel.read_only)
        && not (any (includes p.write_roles) c.roles))

abbrev judge : List ValidationIssue → PolicyDecision → PolicyDecision
judge [] d = d
judge (i ∷ is) d = invalid_arguments (i ∷ is)

module _ (size : Json → ℕ) (compiles : Text → Text → Option Bool) (inherited : Text → Bool) where
  unfoldable pub evaluate_tool_call : ToolPolicy → ToolCall → PolicyDecision
  evaluate_tool_call p c =
      if not c.tool_enabled
      then deny tool_disabled
      else if is_disabled c.status
      then deny connection_disabled
      else if level_in c.risk_level p.blocked_risk_levels
      then deny risk_blocked
      else if lacks_role p c
      then deny role_read_only
      else if ltb p.max_argument_bytes (size (args_or_empty c.args))
      then deny arguments_too_large
      else judge (validate_against_schema compiles inherited c.input_schema (args_or_empty c.args))
          (if level_in c.risk_level p.confirmation_risk_levels then require_confirmation else allow)

  unfoldable pub assert_result_within_limits : ToolPolicy → Option Json → Result (Unit {0})
  assert_result_within_limits p result =
      if ltb p.max_result_bytes (size (elim result [ none ↦ Json.null | some v ↦ v ]))
      then raise (gateway_error GatewayErrorCode.payload_too_large)
      else ok tt

unreviewed : Option Entries → Bool
unreviewed none = true
unreviewed (some a) = elim (property (codes "destructiveHint") a) [ none ↦ true | some _ ↦ false ]

unfoldable pub should_expose_tool : ToolPolicy → ToolRiskLevel → Option Entries → Bool
unfolding unreviewed
should_expose_tool p level annotations =
    if level_in level p.blocked_risk_levels
    then false
    else not (
        p.disable_unknown_destructive
        && (level_eq level ToolRiskLevel.destructive && unreviewed annotations))

unfoldable pub allows_server_request : ToolPolicy → Text → Bool
allows_server_request p method =
    if starts_with (codes "sampling/") method
    then p.allow_sampling
    else if starts_with (codes "elicitation/") method
    then p.allow_elicitation
    else if starts_with (codes "roots/") method
    then p.allow_roots
    else false

-- The capabilities that are present; each present `roots` is `{ listChanged: true }`.
pub record ClientCapabilities : Type 0 where
  pub sampling : Bool
  pub elicitation : Bool
  pub roots : Bool

unfoldable pub client_capabilities : ToolPolicy → ClientCapabilities
client_capabilities p = record {
  sampling = p.allow_sampling;
  elicitation = p.allow_elicitation;
  roots = p.allow_roots;
}
