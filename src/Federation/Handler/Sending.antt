-- ===== src/Federation/Handler/Sending.antt =====
-- What a tool call sends behind its gates.
use universal_agent_protocol.Base.{
  codes, ◌≡◌, ◌≢◌, refl, sym, ◌∙◌, subst, ◌⊎◌, inl, inr, Bool, true, Option, none, some, List, Text,
  arith, Bool-cases, ℕ,
}
use universal_agent_protocol.Core.Domain.{ToolRiskLevel, level_eq}
use universal_agent_protocol.Core.Json.{Json, object, Entries, Decimal, property}
use universal_agent_protocol.Core.Errors.{Result, ok, raise}
use universal_agent_protocol.Security.RateLimit.{RateLimitRule}
use universal_agent_protocol.Storage.Connections.{UpstreamConnection}
use universal_agent_protocol.Federation.Policy.{
  ToolPolicy, PolicyDecision, allow, require_confirmation, deny, invalid_arguments, args_or_empty,
  assert_result_within_limits,
}
use universal_agent_protocol.Federation.Handler.{
  Caller, Thrown, gateway, Reply, returned, threw, audit_error, UpstreamRequest, tool_call, Sent,
  Gateway, World, ask_upstream, wait,
}
use universal_agent_protocol.Storage.Catalogue.{DiscoveredTool}
use universal_agent_protocol.Federation.Handler.Levels.{SendsTo, ask-SendsTo}
use universal_agent_protocol.Federation.Handler.Calls.{
  Call, audit, is_confirmed, confirm, by_scopes, by_limits, after_failure, accept_result,
  settle_run, run_tool, perform, refuse, confirm_and_perform, by_decision, widen, add_sink,
  remove_sink, scopes_required, progress_token,
}

-- What a call asks of its upstream.
abbrev pub request_of : DiscoveredTool → Option Json → UpstreamRequest
request_of tool args =
    tool_call tool.upstream_name (args_or_empty args)
      (level_eq tool.risk_level ToolRiskLevel.read_only)

-- The call of a tool, with the arguments of the client's own request, is all that is sent, but for a
-- log level before it.
abbrev pub SendsCall :
    DiscoveredTool → UpstreamConnection → Entries → List Sent → List Sent → Type 0
SendsCall tool connection params =
    SendsTo connection.id (request_of tool (property (codes "arguments") params))

by_scopes-sent :
    (c : Call) (e : Thrown) (s : Option (List Text)) (g : Gateway)
    → (by_scopes c e s g).0.sent ≡ g.sent
unfolding by_scopes widen
by_scopes-sent c e none g = refl
by_scopes-sent c e (some required) g = ground arith

after_failure-sent : (c : Call) (e : Thrown) (g : Gateway) → (after_failure c e g).0.sent ≡ g.sent
unfolding after_failure audit
after_failure-sent c e g = by_scopes-sent c e (scopes_required e) (audit c audit_error g)

module _ (size : Json → ℕ) (compiles : Text → Text → Option Bool) (inherited : Text → Bool)
    (number_text : Decimal → Text) (policy : ToolPolicy) (rule : RateLimitRule) where
  pub by_decision-cleared :
      (w : World) (params : Entries) (c : Call) (d : PolicyDecision) (g : Gateway)
      → (by_decision size compiles inherited number_text policy rule w params c d g).0.sent ≢ g.sent
      → (d ≡ allow)
        ⊎ ((d ≡ require_confirmation)
            × (c.caller.elicitation ≡ true)
            × (is_confirmed w.confirmation ≡ true))
  unfolding by_decision refuse audit confirm_and_perform confirm wait
  by_decision-cleared w params c (deny reason) g sent = absurd (sent refl)
  by_decision-cleared w params c (invalid_arguments is) g sent = absurd (sent refl)
  by_decision-cleared w params c allow g sent = inl refl
  by_decision-cleared w params c require_confirmation g sent =
      elim (Bool-cases c.caller.elicitation) [
        | inr mute ↦ absurd (sent (ground arith))
        | inl able ↦ elim (Bool-cases (is_confirmed w.confirmation)) [
          | inr declined ↦ absurd (sent (ground arith))
          | inl accepted ↦ inr (refl, able, accepted)
        ]
      ]

  by_limits-sent :
      (c : Call) (result : Entries) (r : Result (Unit {0})) (g : Gateway)
      → (by_limits size compiles inherited number_text policy rule c result r g).0.sent ≡ g.sent
  unfolding by_limits audit
  by_limits-sent c result (raise e) g = after_failure-sent c (gateway e) g
  by_limits-sent c result (ok u) g = refl

  accept_result-sent :
      (c : Call) (result : Entries) (g : Gateway)
      → (accept_result size compiles inherited number_text policy rule c result g).0.sent ≡ g.sent
  unfolding accept_result
  accept_result-sent c result g =
      by_limits-sent c result
        (assert_result_within_limits size compiles inherited policy (some (object result))) g

  settle_run-sent :
      (c : Call) (r : Gateway × Reply Entries)
      → (settle_run size compiles inherited number_text policy rule c r).0.sent ≡ r.0.sent
  unfolding settle_run
  settle_run-sent c (g, threw e) = after_failure-sent c e g
  settle_run-sent c (g, returned result) = accept_result-sent c result g

  add_sink-sent :
      (caller : Caller) (t : Option Text) (g : Gateway) → (add_sink caller t g).sent ≡ g.sent
  unfolding add_sink
  add_sink-sent caller none g = refl
  add_sink-sent caller (some t) g = refl

  remove_sink-sent :
      (caller : Caller) (t : Option Text) (g : Gateway) → (remove_sink caller t g).sent ≡ g.sent
  unfolding remove_sink
  remove_sink-sent caller none g = refl
  remove_sink-sent caller (some t) g = refl

  perform-SendsTo :
      (w : World) (params : Entries) (c : Call) (g : Gateway)
      → SendsTo c.connection.id
          (request_of c.tool c.args)
          g.sent
          (perform size compiles inherited number_text policy rule w params c g).0.sent
  unfolding perform run_tool
  perform-SendsTo w params c g =
      let token = progress_token number_text params in
      let start = add_sink c.caller token g in
      let request = request_of c.tool c.args in
      let asked = ask_upstream w c.caller c.connection request start in
      let done = settle_run size compiles inherited number_text policy rule c asked in
      let kept = remove_sink-sent c.caller token done.0 ∙ settle_run-sent c asked in
      subst
        (λ s.
          SendsTo c.connection.id (request_of c.tool c.args) s
            (remove_sink c.caller token done.0).sent)
        (add_sink-sent c.caller token g)
        (subst (SendsTo c.connection.id (request_of c.tool c.args) start.sent) (sym kept)
          (ask-SendsTo w c.caller c.connection request start))

  confirm-sent : (w : World) (caller : Caller) (g : Gateway) → (confirm w caller g).0.sent ≡ g.sent
  unfolding confirm wait
  confirm-sent w caller g = ground arith

  pub by_decision-SendsTo :
      (w : World) (params : Entries) (c : Call) (d : PolicyDecision) (g : Gateway)
      → SendsTo c.connection.id
          (request_of c.tool c.args)
          g.sent
          (by_decision size compiles inherited number_text policy rule w params c d g).0.sent
  unfolding by_decision refuse audit confirm_and_perform
  by_decision-SendsTo w params c (deny reason) g = inl refl
  by_decision-SendsTo w params c (invalid_arguments is) g = inl refl
  by_decision-SendsTo w params c allow g = perform-SendsTo w params c g
  by_decision-SendsTo w params c require_confirmation g =
      let asked = confirm w c.caller g in
      elim (Bool-cases asked.1) [
        | inl accepted ↦ rw accepted (
            subst
              (λ s.
                SendsTo c.connection.id (request_of c.tool c.args) s
                  (perform size compiles inherited number_text policy rule w params c
                    asked.0).0.sent)
              (confirm-sent w c.caller g) (perform-SendsTo w params c asked.0))
        | inr declined ↦ inl (rw declined (confirm-sent w c.caller g))
      ]
