-- ===== src/Federation/Handler/Audited.antt =====
-- The audit trail: a call that was routed leaves one entry, which tells what became of it.
use universal_agent_protocol.Base.{
  ◌≡◌, refl, ◌∙◌, ap, ◌⊎◌, inl, inr, Bool, true, false, ◌&&◌, Option, none, some, List, [], ◌∷◌,
  ◌++◌, Text, arith, ℕ,
}
use universal_agent_protocol.Core.Domain.{ToolRiskLevel, level_eq}
use universal_agent_protocol.Core.Json.{Json, object, Entries, Decimal}
use universal_agent_protocol.Core.Errors.{Result, ok, raise, gateway_error, GatewayErrorCode}
use universal_agent_protocol.Security.RateLimit.{RateLimitRule}
use universal_agent_protocol.OAuth.TokenManager.{unique_strings}
use universal_agent_protocol.OAuth.Revocation.Spent.{require_incremental-raises}
use universal_agent_protocol.Federation.Naming.Results.{namespace_result_resources}
use universal_agent_protocol.Federation.Policy.{
  ToolPolicy, PolicyDecision, allow, require_confirmation, deny, invalid_arguments, args_or_empty,
  assert_result_within_limits,
}
use universal_agent_protocol.Storage.Connections.{UpstreamConnection}
use universal_agent_protocol.Federation.Handler.{
  Caller, Thrown, gateway, Reply, returned, threw, tool_call, audit_ok, audit_error, audit_denied,
  Gateway, World, UpstreamRequest, ask_upstream, upstream_for, push_log_level, push_level,
  tell_level, send, wait,
}
use universal_agent_protocol.Federation.Handler.Calls.{
  is_confirmed, Call, event_of, audit, confirm, add_sink, remove_sink, progress_token,
  scopes_required, widen, by_scopes, by_limits, after_failure, accept_result, settle_run, run_tool,
  perform, decide, refuse, confirm_and_perform, by_decision, pass_gates,
}

-- A run leaves an entry of its success, or of its failure.
abbrev pub IsRun : Call → Gateway → Gateway × Reply Entries → Type 0
IsRun c g r =
    ((now : ℕ) × (r.0.audits ≡ g.audits ++ event_of c audit_ok now ∷ [])
      × ((result : Entries) × (r.1 ≡ returned result)))
    ⊎ ((now : ℕ) × (r.0.audits ≡ g.audits ++ event_of c audit_error now ∷ [])
        × ((e : Thrown) × (r.1 ≡ threw e)))

-- A call that is turned away leaves an entry of that, ends in an error and sends nothing.
abbrev pub IsDenied : Call → Gateway → Gateway × Reply Entries → Type 0
IsDenied c g r =
    ((now : ℕ) × (r.0.audits ≡ g.audits ++ event_of c audit_denied now ∷ []))
    × ((e : Thrown) × (r.1 ≡ threw e))
    × (r.0.sent ≡ g.sent)

-- Whether a call runs, by what the policy decides and the client confirms.
abbrev pub goes_ahead : World → Call → PolicyDecision → Bool
goes_ahead w c allow = true
goes_ahead w c require_confirmation = c.caller.elicitation && is_confirmed w.confirmation
goes_ahead w c (deny reason) = false
goes_ahead w c (invalid_arguments is) = false

widen-threw :
    (c : Call) (required : List Text) (g : Gateway)
    → ((widen c required g).0.audits ≡ g.audits)
      × ((e : Thrown) × ((widen c required g).1 ≡ threw e))
unfolding widen
widen-threw c required g =
    let (x, e) =
      require_incremental-raises {A = Entries}
        (record { tenant_id = c.connection.tenant_id; connection_id = c.connection.id })
        (unique_strings (c.connection.granted_scopes ++ required)) g.manager in
    (ground arith, (gateway x, ground arith))

by_scopes-IsRun :
    (c : Call) (e : Thrown) (s : Option (List Text)) (g : Gateway)
    → IsRun c g (by_scopes c e s (audit c audit_error g))
unfolding by_scopes audit
by_scopes-IsRun c e none g = inr (g.manager.now, refl, (e, refl))
by_scopes-IsRun c e (some required) g =
    let (same, (x, threw_x)) = widen-threw c required (audit c audit_error g) in
    inr (g.manager.now, same, (x, threw_x))

after_failure-IsRun : (c : Call) (e : Thrown) (g : Gateway) → IsRun c g (after_failure c e g)
unfolding after_failure
after_failure-IsRun c e g = by_scopes-IsRun c e (scopes_required e) g

module _ (size : Json → ℕ) (compiles : Text → Text → Option Bool) (inherited : Text → Bool)
    (number_text : Decimal → Text) (policy : ToolPolicy) (rule : RateLimitRule) where
  by_limits-IsRun :
      (c : Call) (result : Entries) (r : Result (Unit {0})) (g : Gateway)
      → IsRun c g (by_limits size compiles inherited number_text policy rule c result r g)
  unfolding by_limits audit
  by_limits-IsRun c result (raise e) g = after_failure-IsRun c (gateway e) g
  by_limits-IsRun c result (ok u) g =
      inl (g.manager.now, refl, (namespace_result_resources c.connection.alias result, refl))

  settle_run-IsRun :
      (c : Call) (r : Gateway × Reply Entries)
      → IsRun c r.0 (settle_run size compiles inherited number_text policy rule c r)
  unfolding settle_run accept_result
  settle_run-IsRun c (g, threw e) = after_failure-IsRun c e g
  settle_run-IsRun c (g, returned result) =
      by_limits-IsRun c result
        (assert_result_within_limits size compiles inherited policy (some (object result))) g

  -- What surrounds the run audits nothing.
  around-IsRun :
      (c : Call) (before g : Gateway) (r : Gateway × Reply Entries) (after : Gateway)
      → g.audits ≡ before.audits
      → after.audits ≡ r.0.audits
      → IsRun c g r
      → IsRun c before (after, r.1)
  around-IsRun c before g r after e f (inl (now, a, fits)) =
      inl (now, f ∙ (a ∙ ap (λ x. x ++ event_of c audit_ok now ∷ []) e), fits)
  around-IsRun c before g r after e f (inr (now, a, fits)) =
      inr (now, f ∙ (a ∙ ap (λ x. x ++ event_of c audit_error now ∷ []) e), fits)

  sinks :
      (caller : Caller) (t : Option Text) (g : Gateway)
      → ((add_sink caller t g).audits ≡ g.audits)
        × ((remove_sink caller t g).audits ≡ g.audits)
        × ((remove_sink caller t g).sent ≡ g.sent)
  unfolding add_sink remove_sink
  sinks caller none g = (refl, refl, refl)
  sinks caller (some t) g = (refl, refl, refl)

  ask-audits :
      (w : World) (caller : Caller) (c : UpstreamConnection) (request : UpstreamRequest)
      (g : Gateway)
      → (ask_upstream w caller c request g).0.audits ≡ g.audits
  unfolding ask_upstream upstream_for push_log_level push_level tell_level send wait
  ask-audits w caller c request g = ground arith

  perform-IsRun :
      (w : World) (params : Entries) (c : Call) (before g : Gateway)
      → g.audits ≡ before.audits
      → IsRun c before (perform size compiles inherited number_text policy rule w params c g)
  unfolding perform run_tool
  perform-IsRun w params c before g e =
      let token = progress_token number_text params in
      let start = add_sink c.caller token g in
      let request =
        tool_call c.tool.upstream_name (args_or_empty c.args)
          (level_eq c.tool.risk_level ToolRiskLevel.read_only) in
      let asked = ask_upstream w c.caller c.connection request start in
      let done = settle_run size compiles inherited number_text policy rule c asked in
      let (added, r, r2) = sinks c.caller token g in
      let (s, removed, q) = sinks c.caller token done.0 in
      around-IsRun c before asked.0 done (remove_sink c.caller token done.0)
        (ask-audits w c.caller c.connection request start ∙ (added ∙ e)) removed
        (settle_run-IsRun c asked)

  refuse-IsDenied :
      (c : Call) (code : GatewayErrorCode) (before g : Gateway)
      → g.audits ≡ before.audits
      → g.sent ≡ before.sent
      → IsDenied c before (refuse size compiles inherited number_text policy rule c code g)
  unfolding refuse audit
  refuse-IsDenied c code before g e f = (
    (g.manager.now, ap (λ x. x ++ event_of c audit_denied g.manager.now ∷ []) e),
    (gateway (gateway_error code), refl),
    f,
  )

  confirm-quiet :
      (w : World) (caller : Caller) (g : Gateway)
      → ((confirm w caller g).0.audits ≡ g.audits)
        × ((confirm w caller g).0.sent ≡ g.sent)
        × ((confirm w caller g).1 ≡ caller.elicitation && is_confirmed w.confirmation)
  unfolding confirm wait
  confirm-quiet w caller g = (ground arith, ground arith, ground arith)

  by_decision-runs :
      (w : World) (params : Entries) (c : Call) (d : PolicyDecision) (g : Gateway)
      → goes_ahead w c d ≡ true
      → IsRun c g (by_decision size compiles inherited number_text policy rule w params c d g)
  unfolding by_decision confirm_and_perform
  by_decision-runs w params c (deny reason) g h = absurd (cc)
  by_decision-runs w params c (invalid_arguments is) g h = absurd (cc)
  by_decision-runs w params c allow g h = perform-IsRun w params c g g refl
  by_decision-runs w params c require_confirmation g h =
      let (a, s, e) = confirm-quiet w c.caller g in
      let accepted = e ∙ h in rw accepted (perform-IsRun w params c g (confirm w c.caller g).0 a)

  by_decision-denies :
      (w : World) (params : Entries) (c : Call) (d : PolicyDecision) (g : Gateway)
      → goes_ahead w c d ≡ false
      → IsDenied c g (by_decision size compiles inherited number_text policy rule w params c d g)
  unfolding by_decision confirm_and_perform
  by_decision-denies w params c (deny reason) g h =
      refuse-IsDenied c GatewayErrorCode.policy_denied g g refl refl
  by_decision-denies w params c (invalid_arguments is) g h =
      refuse-IsDenied c GatewayErrorCode.invalid_request g g refl refl
  by_decision-denies w params c allow g h = absurd (cc)
  by_decision-denies w params c require_confirmation g h =
      let (a, s, e) = confirm-quiet w c.caller g in
      let declined = e ∙ h in
      rw declined (refuse-IsDenied c GatewayErrorCode.policy_denied g (confirm w c.caller g).0 a s)

  -- A tool call that has been routed adds exactly one entry to the audit trail, on the caller, the tool
  -- and the connection. If the policy allows it, or asks for a confirmation that the client can be
  -- asked for and gives, the entry is `OK` and the call returns a result, or it is `ERROR` and the call
  -- throws. Otherwise the entry is `DENIED`, the call throws, and no upstream is sent anything.
  pub pass_gates-IsAudited :
      (w : World) (params : Entries) (c : Call) (g : Gateway)
      → (goes_ahead w c (decide size compiles inherited number_text policy rule c) ≡ true
          → IsRun c g (pass_gates size compiles inherited number_text policy rule w params c g))
        × (goes_ahead w c (decide size compiles inherited number_text policy rule c) ≡ false
            → IsDenied c g
                (pass_gates size compiles inherited number_text policy rule w params c g))
  unfolding pass_gates
  pass_gates-IsAudited w params c g =
      let d = decide size compiles inherited number_text policy rule c in
      (by_decision-runs w params c d g, by_decision-denies w params c d g)
