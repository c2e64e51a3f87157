-- ===== src/Federation/Handler/Gated.antt =====
-- A tool runs only past its gates.
use universal_agent_protocol.Base.{
  ◌≡◌, ◌≢◌, refl, sym, ◌∙◌, ap, subst, ◌⊎◌, inl, inr, Bool, true, false, Option, some, Text, codes,
  arith, Option-cases, ℕ,
}
use universal_agent_protocol.Core.Json.{Json, string, Entries, Decimal, property}
use universal_agent_protocol.Core.Errors.{gateway_error, GatewayErrorCode}
use universal_agent_protocol.Security.RateLimit.{RateLimitRule}
use universal_agent_protocol.Storage.Catalogue.{DiscoveredTool, find_tool}
use universal_agent_protocol.Storage.Connections.{UpstreamConnection}
use universal_agent_protocol.Federation.Policy.{ToolPolicy, allow, require_confirmation, level_in}
use universal_agent_protocol.Federation.Policy.Decides.{
  IsPermitted, IsWellFormed, evaluate_tool_call_iff,
}
use universal_agent_protocol.Federation.Handler.{
  Caller, Thrown, gateway, and_then, returned, threw, Gateway, World, G, ◌>>=◌,
  require_visible_connection, meter_tools,
}
use universal_agent_protocol.Federation.Handler.Calls.{
  Call, is_confirmed, policy_call, decide, pass_gates, routed_call, require_tool, call_tool,
}
use universal_agent_protocol.Federation.Handler.Reads.{
  text_param-Reads, text_param-returned, visible-Reads, Reply-cases,
}
use universal_agent_protocol.Federation.Handler.Served.{IsServed}
use universal_agent_protocol.Federation.Handler.Sending.{
  SendsCall, by_decision-cleared, by_decision-SendsTo,
}

module _ (size : Json → ℕ) (compiles : Text → Text → Option Bool) (inherited : Text → Bool)
    (number_text : Decimal → Text) (policy : ToolPolicy) (rule : RateLimitRule) where
  -- The way behind the gates is open: the call is allowed, or it needs a confirmation and the client,
  -- which can be asked, has given it.
  abbrev pub IsCleared : World → Call → Type 0
  IsCleared w c =
      (decide size compiles inherited number_text policy rule c ≡ allow)
      ⊎ ((decide size compiles inherited number_text policy rule c ≡ require_confirmation)
          × (c.caller.elicitation ≡ true)
          × (is_confirmed w.confirmation ≡ true))

  pub meter_tools-connections :
      (caller : Caller) (g : Gateway)
      → ((meter_tools rule caller g).0.manager ≡ g.manager)
        × ((meter_tools rule caller g).0.tools ≡ g.tools)
        × ((meter_tools rule caller g).0.sent ≡ g.sent)
  unfolding meter_tools
  meter_tools-connections caller g = (ground arith, ground arith, ground arith)

  abbrev pub call_of : Caller → Entries → DiscoveredTool → UpstreamConnection → ℕ → Call
  call_of caller params tool c now = record {
    caller = caller;
    tool = tool;
    connection = c;
    args = property (codes "arguments") params;
    started = now;
  }

  -- What holds of a call that reaches an upstream: the name is that of a tool of the tenant, the tool's
  -- connection is one that the caller is served from, and the way behind the gates is open.
  pub record IsRouted (w : World) (caller : Caller) (params : Entries) (name : Text) (g : Gateway)
      : Type 0 where
    pub tool : DiscoveredTool
    pub connection : UpstreamConnection
    pub found : find_tool caller.tenant_id name g.tools ≡ some tool
    pub served : IsServed caller g.manager.connections connection
    pub own : connection.id ≡ tool.connection_id
    pub cleared : IsCleared w (call_of caller params tool connection g.manager.now)

  pub require_tool-cases :
      (caller : Caller) (name : Text) (g : Gateway)
      → ((t : DiscoveredTool) × (require_tool size compiles inherited number_text policy rule caller
              name g
            ≡ (g, returned t))
          × (find_tool caller.tenant_id name g.tools ≡ some t))
        ⊎ ((e : Thrown) × (require_tool size compiles inherited number_text policy rule caller name
                g
              ≡ (g, threw e)))
  unfolding require_tool
  require_tool-cases caller name g = elim (Option-cases (find_tool caller.tenant_id name g.tools)) [
    | inl gone ↦ inr (gateway (gateway_error GatewayErrorCode.not_found), ground arith)
    | inr (t, there) ↦ inl (t, ground arith, there)
  ]

  -- the steps behind the meter
  behind_meter : World → Caller → Entries → Text → G Entries
  behind_meter w caller params name =
      require_tool size compiles inherited number_text policy rule caller name >>= λ tool.
      require_visible_connection caller tool.connection_id
      >>= routed_call size compiles inherited number_text policy rule w caller params tool

  behind_meter-IsRouted :
      (w : World) (caller : Caller) (params : Entries) (name : Text) (g : Gateway)
      → (behind_meter w caller params name g).0.sent ≢ g.sent
      → (r : IsRouted w caller params name g) × SendsCall r.tool r.connection params g.sent
          (behind_meter w caller params name g).0.sent
  unfolding behind_meter routed_call pass_gates
  behind_meter-IsRouted w caller params name g sent = elim (require_tool-cases caller name g) [
    | inr (x, e) ↦ absurd (sent (rw e refl))
    | inl (t, e, found) ↦ elim (visible-Reads caller t.connection_id g) [
      | inr (x, e') ↦ absurd (sent (rw (e, e') refl))
      | inl (c, e', s, own) ↦
          let call = call_of caller params t c g.manager.now in
          let d = decide size compiles inherited number_text policy rule call in
          (
            record {
              tool = t;
              connection = c;
              found = found;
              served = s;
              own = own;
              cleared =
                  by_decision-cleared size compiles inherited number_text policy rule w params call
                    d g (λ h. sent (rw (e, e') h));
            },
            rw (e, e')
                (by_decision-SendsTo size compiles inherited number_text policy rule w params call d
                  g),
          )
    ]
  ]

  after_meter : World → Caller → Entries → Text → G Entries
  after_meter w caller params name =
      meter_tools rule caller >>= λ _. behind_meter w caller params name

  after_meter-IsRouted :
      (w : World) (caller : Caller) (params : Entries) (name : Text) (g : Gateway)
      → (after_meter w caller params name g).0.sent ≢ g.sent
      → (r : IsRouted w caller params name g) × SendsCall r.tool r.connection params g.sent
          (after_meter w caller params name g).0.sent
  unfolding after_meter
  after_meter-IsRouted w caller params name g sent =
      let (same_manager, same_tools, same_sent) = meter_tools-connections caller g in
      let g1 = (meter_tools rule caller g).0 in
      let rest = λ (u : Unit {0}). behind_meter w caller params name in
      elim (Reply-cases (meter_tools rule caller g).1) [
        | inr (x, e) ↦
            let stopped : after_meter w caller params name g ≡ (g1, threw x) =
              λ i. and_then {A = Unit {0}} (g1, e i) rest in
            absurd (sent (ap (λ r. r.0.sent) stopped ∙ same_sent))
        | inl (u, e) ↦
            let goes_on : after_meter w caller params name g
                ≡ behind_meter w caller params name g1 =
              λ i. and_then {A = Unit {0}} (g1, e i) rest in
            let sends = ap (λ r. r.0.sent) goes_on in
            let (r, one) =
              behind_meter-IsRouted w caller params name g1 (λ h. sent (sends ∙ (h ∙ same_sent))) in
            (
              record {
                tool = r.tool;
                connection = r.connection;
                found =
                    subst (λ ts. find_tool caller.tenant_id name ts ≡ some r.tool) same_tools
                      r.found;
                served =
                    subst (λ m. IsServed caller m.connections r.connection) same_manager r.served;
                own = r.own;
                cleared =
                    subst (λ m. IsCleared w (call_of caller params r.tool r.connection m.now))
                      same_manager r.cleared;
              },
              subst
                  (λ s.
                    SendsCall r.tool r.connection params s
                      (after_meter w caller params name g).0.sent)
                  same_sent (subst (SendsCall r.tool r.connection params g1.sent) (sym sends) one),
            )
      ]

  -- What holds of a tool call that reaches an upstream: its name is that of a tool of the tenant, the
  -- tool's own connection is one that the caller is served from, the policy permits the call and its
  -- arguments fit the schema, and a call whose risk needs a confirmation was confirmed by the client.
  pub record IsGated (w : World) (caller : Caller) (params : Entries) (g : Gateway) : Type 0 where
    pub name : Text
    pub tool : DiscoveredTool
    pub connection : UpstreamConnection
    pub named : property (codes "name") params ≡ some (string name)
    pub found : find_tool caller.tenant_id name g.tools ≡ some tool
    pub served : IsServed caller g.manager.connections connection
    pub own : connection.id ≡ tool.connection_id
    pub permitted :
        IsPermitted size compiles inherited policy
          (policy_call (call_of caller params tool connection g.manager.now))
    pub well_formed :
        IsWellFormed size compiles inherited policy
          (policy_call (call_of caller params tool connection g.manager.now))
    pub confirmed :
        (level_in tool.risk_level policy.confirmation_risk_levels ≡ false)
        ⊎ ((caller.elicitation ≡ true) × (is_confirmed w.confirmation ≡ true))

  gated :
      (w : World) (caller : Caller) (params : Entries) (name : Text) (g : Gateway)
      → property (codes "name") params ≡ some (string name)
      → (r : IsRouted w caller params name g)
      → (q : IsGated w caller params g) × (q.tool ≡ r.tool) × (q.connection ≡ r.connection)
  unfolding decide
  gated w caller params name g named r =
      let call = policy_call (call_of caller params r.tool r.connection g.manager.now) in
      let (on_allow, on_confirm, on_deny, on_issues) =
        evaluate_tool_call_iff size compiles inherited policy call in
      elim r.cleared [
        | inl allowed ↦
            let (p, fits, free) = on_allow.0 allowed in
            (
              record {
                name = name;
                tool = r.tool;
                connection = r.connection;
                named = named;
                found = r.found;
                served = r.served;
                own = r.own;
                permitted = p;
                well_formed = fits;
                confirmed = inl free;
              },
              refl,
              refl,
            )
        | inr (asked, able, accepted) ↦
            let (p, fits, needs) = on_confirm.0 asked in
            (
              record {
                name = name;
                tool = r.tool;
                connection = r.connection;
                named = named;
                found = r.found;
                served = r.served;
                own = r.own;
                permitted = p;
                well_formed = fits;
                confirmed = inr (able, accepted);
              },
              refl,
              refl,
            )
      ]

  -- If a tool call asks anything of an upstream client, it has passed every gate, and all that it asks
  -- is the call of that tool, under the upstream's own name and with the arguments of the request, of
  -- the tool's own connection, and before it at most a log level of the same connection.
  pub call_tool-IsGated :
      (w : World) (caller : Caller) (params : Entries) (g : Gateway)
      → (call_tool size compiles inherited number_text policy rule w caller params g).0.sent
        ≢ g.sent
      → (r : IsGated w caller params g) × SendsCall r.tool r.connection params g.sent
          (call_tool size compiles inherited number_text policy rule w caller params g).0.sent
  unfolding call_tool after_meter behind_meter
  call_tool-IsGated w caller params g sent =
      let rest = λ (name : Text). after_meter w caller params name in
      elim (text_param-Reads (codes "name") params g) [
        | inr (x, e) ↦ absurd (sent (ap (λ r. (and_then {A = Text} r rest).0.sent) e))
        | inl (name, e) ↦
            let goes_on = ap (λ r. (and_then {A = Text} r rest).0.sent) e in
            let (r, one) = after_meter-IsRouted w caller params name g (λ h. sent (goes_on ∙ h)) in
            let (q, same_tool, same_connection) =
              gated w caller params name g (text_param-returned (codes "name") params g name e) r in
            let s = (after_meter w caller params name g).0.sent in
            let one' =
              subst (λ c. SendsCall q.tool c params g.sent s) (sym same_connection)
                (subst (λ u. SendsCall u r.connection params g.sent s) (sym same_tool) one) in
            (q, subst (SendsCall q.tool q.connection params g.sent) (sym goes_on) one')
      ]
