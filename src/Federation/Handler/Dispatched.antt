-- ===== src/Federation/Handler/Dispatched.antt =====
-- Where a request may go, whatever its method.
use universal_agent_protocol.Base.{
  ◌≡◌, refl, sym, ◌∙◌, ap, subst, inl, inr, Bool, true, false, Option, List, ◌++◌, Text, codes,
  arith, Bool-cases, ℕ,
}
use universal_agent_protocol.Core.Json.{Json, Entries, Decimal}
use universal_agent_protocol.Core.Errors.{Result, ok, raise}
use universal_agent_protocol.Security.RateLimit.{RateLimitRule}
use universal_agent_protocol.Storage.Catalogue.{DiscoveredTool}
use universal_agent_protocol.Storage.Connections.{UpstreamConnection}
use universal_agent_protocol.Federation.Pagination.{Page}
use universal_agent_protocol.Federation.Policy.{ToolPolicy, args_or_empty}
use universal_agent_protocol.Federation.Handler.{
  Caller, and_then, Reply, returned, threw, Gateway, World, G, ◌>>=◌, tool_call, text_param,
  require_visible_connection, meter_tools, meter_api,
}
use universal_agent_protocol.Federation.Handler.Calls.{
  routed_call, pass_gates, decide, require_tool, call_tool,
}
use universal_agent_protocol.Federation.Handler.Requests.{
  McpMethod, ping, tools_list, tools_call, resources_list, templates_list, resources_read,
  resources_subscribe, resources_unsubscribe, prompts_list, prompts_get, completion_complete,
  logging_set_level, other_method, as_page, list_page, is_ping, dispatch, on_request,
}
use universal_agent_protocol.Federation.Handler.Served.{IsServed}
use universal_agent_protocol.Federation.Handler.Reads.{after-Reads, text_param-Reads}
use universal_agent_protocol.Federation.Handler.Gated.{
  call_of, require_tool-cases, meter_tools-connections,
}
use universal_agent_protocol.Federation.Handler.Levels.{level_message, request_message}
use universal_agent_protocol.Core.Domain.{ToolRiskLevel, level_eq}
use universal_agent_protocol.Federation.Handler.Sending.{by_decision-SendsTo}
use universal_agent_protocol.Federation.Handler.Confined.{
  Goes, served-Goes, read_resource-Goes, resource_subscription-Goes, get_prompt-Goes, complete-Goes,
  set_log_level-Goes, of_SendsTo,
}

-- A meter stands in front of a step, and touches neither the connections nor what was sent.
metered-Goes :
    {A : Type 0} (w : World) (caller : Caller) (m : Gateway × Reply (Unit {0})) (f : Unit {0} → G A)
    (g : Gateway)
    → m.0.manager ≡ g.manager
    → m.0.sent ≡ g.sent
    → ((u : Unit {0}) (g' : Gateway) → Goes w caller g' (f u g').0)
    → Goes w caller g (and_then m f).0
metered-Goes w caller (g1, threw e) f g same_manager same_sent k = inl same_sent
metered-Goes w caller (g1, returned u) f g same_manager same_sent k = elim (k u g1) [
  | inl quiet ↦ inl (quiet ∙ same_sent)
  | inr (inl (c, level, r, e, s)) ↦ inr (
      inl (
        c,
        level,
        r,
        e ∙ ap (λ x. x ++ (level_message c.id level ++ request_message c.id r)) same_sent,
        subst (λ m. IsServed caller m.connections c) same_manager s,
      ))
  | inr (inr (level, ms, e, known, told)) ↦
      inr (inr (level, ms, e ∙ ap (λ x. x ++ ms) same_sent, known, told))
]

as_page-sent :
    (field : Text) (r : Result (Page Entries)) (g : Gateway) → (as_page field r g).0.sent ≡ g.sent
unfolding as_page
as_page-sent field (raise e) g = refl
as_page-sent field (ok p) g = refl

module _ (encode : Text → Text) (decode : Text → Text) (page_size : ℕ) (api_rule : RateLimitRule)
    (size : Json → ℕ) (compiles : Text → Text → Option Bool) (inherited : Text → Bool)
    (number_text : Decimal → Text) (policy : ToolPolicy) (rule : RateLimitRule) where
  routed_call-Goes :
      (w : World) (caller : Caller) (params : Entries) (t : DiscoveredTool) (c : UpstreamConnection)
      (g : Gateway)
      → IsServed caller g.manager.connections c
      → Goes w caller g
          (routed_call size compiles inherited number_text policy rule w caller params t c g).0
  unfolding routed_call pass_gates
  routed_call-Goes w caller params t c g s =
      let call =
        call_of size compiles inherited number_text policy rule caller params t c g.manager.now in
      let request =
        tool_call t.upstream_name (args_or_empty call.args)
          (level_eq t.risk_level ToolRiskLevel.read_only) in
      of_SendsTo w caller c request g
        (routed_call size compiles inherited number_text policy rule w caller params t c g).0 s
        (by_decision-SendsTo size compiles inherited number_text policy rule w params call
          (decide size compiles inherited number_text policy rule call) g)

  behind_meter-Goes :
      (w : World) (caller : Caller) (params : Entries) (name : Text) (g : Gateway)
      → Goes w caller g
          ((require_tool size compiles inherited number_text policy rule caller name >>= λ tool.
              require_visible_connection caller tool.connection_id >>= λ c.
              routed_call size compiles inherited number_text policy rule w caller params tool c)
            g).0
  behind_meter-Goes w caller params name g =
      let tail = λ (tool : DiscoveredTool).
        require_visible_connection caller tool.connection_id >>= λ c.
        routed_call size compiles inherited number_text policy rule w caller params tool c in
      elim (require_tool-cases size compiles inherited number_text policy rule caller name g) [
        | inr (x, e) ↦ subst (λ r. Goes w caller g (and_then r tail).0) (sym e) (inl refl)
        | inl (t, e, found) ↦
            subst (λ r. Goes w caller g (and_then r tail).0) (sym e)
              (served-Goes w caller t.connection_id
                (routed_call size compiles inherited number_text policy rule w caller params t) g
                (λ c s. routed_call-Goes w caller params t c g s))
      ]

  call_tool-Goes :
      (w : World) (caller : Caller) (params : Entries) (g : Gateway)
      → Goes w caller g
          (call_tool size compiles inherited number_text policy rule w caller params g).0
  unfolding call_tool
  call_tool-Goes w caller params g =
      let tail = λ (name : Text) (u : Unit {0}).
        require_tool size compiles inherited number_text policy rule caller name >>= λ tool.
        require_visible_connection caller tool.connection_id >>= λ c.
        routed_call size compiles inherited number_text policy rule w caller params tool c in
      let (same_manager, same_tools, same_sent) =
        meter_tools-connections size compiles inherited number_text policy rule caller g in
      after-Reads (Goes w caller g) (text_param (codes "name") params)
        (λ name. meter_tools rule caller >>= tail name) g (text_param-Reads (codes "name") params g)
        (inl refl)
        (λ name e.
          metered-Goes w caller (meter_tools rule caller g) (tail name) g same_manager same_sent
            (λ u g'. behind_meter-Goes w caller params name g'))

  list_page-Goes :
      (w : World) (caller : Caller) (field key : Text) (params : Entries) (items : List Entries)
      (g : Gateway)
      → Goes w caller g
          (list_page encode decode page_size api_rule size compiles inherited number_text policy
            rule field key params items g).0
  unfolding list_page
  list_page-Goes w caller field key params items g = inl (as_page-sent field _ g)

  dispatch-Goes :
      (w : World) (caller : Caller) (method : McpMethod) (params : Entries) (g : Gateway)
      → Goes w caller g
          (dispatch encode decode page_size api_rule size compiles inherited number_text policy rule
            w caller method params g).0
  unfolding dispatch
  dispatch-Goes w caller ping params g = inl refl
  dispatch-Goes w caller tools_list params g = list_page-Goes w caller _ _ params _ g
  dispatch-Goes w caller tools_call params g = call_tool-Goes w caller params g
  dispatch-Goes w caller resources_list params g = list_page-Goes w caller _ _ params _ g
  dispatch-Goes w caller templates_list params g = list_page-Goes w caller _ _ params _ g
  dispatch-Goes w caller resources_read params g = read_resource-Goes w caller params g
  dispatch-Goes w caller resources_subscribe params g =
      resource_subscription-Goes w caller params true g
  dispatch-Goes w caller resources_unsubscribe params g =
      resource_subscription-Goes w caller params false g
  dispatch-Goes w caller prompts_list params g = list_page-Goes w caller _ _ params _ g
  dispatch-Goes w caller prompts_get params g = get_prompt-Goes w caller params g
  dispatch-Goes w caller completion_complete params g = complete-Goes w caller params g
  dispatch-Goes w caller logging_set_level params g = set_log_level-Goes w caller params g
  dispatch-Goes w caller other_method params g = inl refl

  meter_api-same :
      (caller : Caller) (g : Gateway)
      → ((meter_api api_rule caller g).0.manager ≡ g.manager)
        × ((meter_api api_rule caller g).0.sent ≡ g.sent)
  unfolding meter_api
  meter_api-same caller g = (ground arith, ground arith)

  -- Whatever a client asks, the clients of the upstreams are asked nothing; or one connection is asked,
  -- at most for one request and before it for a log level, and the client is served from it: it is
  -- stored, of the client's tenant, shared in the workspace or the client's own, and not disabled when
  -- the request arrives; or sessions that are open for the client and can log are told one of the
  -- known log levels, each at most once.
  pub on_request-Goes :
      (w : World) (caller : Caller) (method : McpMethod) (params : Entries) (g : Gateway)
      → Goes w caller g
          (on_request encode decode page_size api_rule size compiles inherited number_text policy
            rule w caller method params g).0
  unfolding on_request
  on_request-Goes w caller method params g =
      let rest = λ (u : Unit {0}).
        dispatch encode decode page_size api_rule size compiles inherited number_text policy rule w
          caller method params in
      let (same_manager, same_sent) = meter_api-same caller g in
      elim (Bool-cases (
        is_ping encode decode page_size api_rule size compiles inherited number_text policy rule
          method)) [
            | inl free ↦ rw free (dispatch-Goes w caller method params g)
            | inr metered ↦ rw metered (
                metered-Goes w caller (meter_api api_rule caller g) rest g same_manager same_sent
                  (λ u g'. dispatch-Goes w caller method params g'))
          ]
