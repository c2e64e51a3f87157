-- ===== src/Federation/Policy/Decides.antt =====
-- The outcome of a call, against the list of gates that it has to pass.
use universal_agent_protocol.Base.{
  ℕ, ◌≡◌, ◌≢◌, ◌≤◌, ◌↔◌, ◌⊎◌, inl, inr, Bool, true, false, [], Option, Text, arith, Bool-cases, ltb,
}
use universal_agent_protocol.Core.Domain.{ConnectionStatus}
use universal_agent_protocol.Core.Json.{Json}
use universal_agent_protocol.Federation.JsonSchema.{validate_against_schema}
use universal_agent_protocol.Federation.Policy.{
  ToolPolicy, ToolCall, PolicyDecision, allow, require_confirmation, deny, invalid_arguments,
  DenyReason, tool_disabled, connection_disabled, risk_blocked, role_read_only, arguments_too_large,
  is_disabled, level_in, lacks_role, args_or_empty, evaluate_tool_call,
}

module _ (size : Json → ℕ) (compiles : Text → Text → Option Bool) (inherited : Text → Bool)
    (p : ToolPolicy) (c : ToolCall) where
  -- What the call has to satisfy before its arguments are looked at.
  pub record IsPermitted : Type 0 where
    pub enabled : c.tool_enabled ≡ true
    pub online : c.status ≢ ConnectionStatus.disabled
    pub not_blocked : level_in c.risk_level p.blocked_risk_levels ≡ false
    pub in_role : lacks_role p c ≡ false
    pub fits : size (args_or_empty c.args) ≤ p.max_argument_bytes

  abbrev pub IsWellFormed : Type 0
  IsWellFormed =
      validate_against_schema compiles inherited c.input_schema (args_or_empty c.args) ≡ []

  abbrev pub NeedsConfirmation : Type 0
  NeedsConfirmation = level_in c.risk_level p.confirmation_risk_levels ≡ true

  abbrev decision : PolicyDecision
  decision = evaluate_tool_call size compiles inherited p c

  gates : IsPermitted ⊎ ((r : DenyReason) × (decision ≡ deny r))
  unfolding evaluate_tool_call
  gates = elim (Bool-cases c.tool_enabled) [
    | inr off ↦ inr (tool_disabled, ground arith)
    | inl on ↦ elim (Bool-cases (is_disabled c.status)) [
      | inl off ↦ inr (connection_disabled, ground arith)
      | inr online ↦ elim (Bool-cases (level_in c.risk_level p.blocked_risk_levels)) [
        | inl off ↦ inr (risk_blocked, ground arith)
        | inr free ↦ elim (Bool-cases (lacks_role p c)) [
          | inl off ↦ inr (role_read_only, ground arith)
          | inr role ↦ elim (Bool-cases (ltb p.max_argument_bytes (size (args_or_empty c.args)))) [
            | inl off ↦ inr (arguments_too_large, ground arith)
            | inr fits ↦ inl (record {
              enabled = on;
              online = λ e. ground arith;
              not_blocked = free;
              in_role = role;
              fits = ground arith;
            })
          ]
        ]
      ]
    ]
  ]

  -- A call is allowed exactly if it passes every gate, its arguments match the schema and its risk
  -- needs no confirmation; confirmation is asked exactly if the same holds of a risk that needs it;
  -- it is denied exactly if a gate fails; and arguments with issues of a call that passes every
  -- gate are refused as invalid, with those issues.
  pub evaluate_tool_call_iff :
      ((decision ≡ allow)
        ↔ (IsPermitted × IsWellFormed × (level_in c.risk_level p.confirmation_risk_levels ≡ false)))
      × ((decision ≡ require_confirmation) ↔ (IsPermitted × IsWellFormed × NeedsConfirmation))
      × (((r : DenyReason) × (decision ≡ deny r)) ↔ (¬ IsPermitted))
      × (IsPermitted
          → ¬ IsWellFormed
          → decision
            ≡ invalid_arguments
                (validate_against_schema compiles inherited c.input_schema (args_or_empty c.args)))
  unfolding evaluate_tool_call
  evaluate_tool_call_iff = (
    (λ h. ground arith, λ (k, w, n). ground arith),
    (λ h. ground arith, λ (k, w, n). ground arith),
    (λ (r, h) k. ground arith, λ n. elim gates [ inl k ↦ absurd (n k) | inr d ↦ d ]),
    λ k w. ground arith,
  )
