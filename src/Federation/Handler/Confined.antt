-- ===== src/Federation/Handler/Confined.antt =====
-- Where requests may go: to connections that the caller is served from, whatever the method.
use universal_agent_protocol.Base.{
  ◌≡◌, refl, sym, subst, ◌⊎◌, inl, inr, Bool, true, ◌++◌, Text, codes, Bool-cases, ◌∙◌, ap,
  append-nil, Option, none, some, List, includes, text_eq_refl, arith, if◌then◌else◌,
}
use universal_agent_protocol.Core.Json.{object, Entries, no_entries, property, set_property}
use universal_agent_protocol.Storage.Catalogue.{DiscoveredPrompt}
use universal_agent_protocol.Storage.Connections.{UpstreamConnection}
use universal_agent_protocol.Federation.Handler.{
  Caller, and_then, Reply, returned, threw, UpstreamRequest, Gateway, World, G, ◌>>=◌, text_param,
  require_visible_connection, Routed, route_resource, ask_upstream, wait, give, resource_read,
  prompt_get, completion, Client, Sent, send, mcp_log_levels, set_entry,
}
use universal_agent_protocol.Federation.Policy.{args_or_empty}
use universal_agent_protocol.Federation.Naming.Results.{namespace_result_resources}
use universal_agent_protocol.Federation.Handler.Requests.{
  read_resource, resource_subscription, subscription, require_prompt, ask_completion, require_ref,
  RoutedRef, get_prompt, route_completion_ref, complete, set_log_level, apply_level, level_param,
  no_completions,
}
use universal_agent_protocol.Federation.Handler.Levels.{
  level_message, request_message, SendsTo, upstream_for-cases, send-sent, ask-SendsTo, Told,
  push_all-Told,
}
use universal_agent_protocol.Federation.Handler.Served.{IsServed}
use universal_agent_protocol.Federation.Handler.Reads.{
  after-Reads, text_param-Reads, route_resource-Reads, require_prompt-Reads, visible-Reads,
  route_completion_ref-Reads, require_ref-Reads,
}

-- What may be sent for a request: nothing; or at most a log level and one request, to one connection
-- that the caller is served from; or one of the known log levels, to clients that are open for the caller.
abbrev pub Goes : World → Caller → Gateway → Gateway → Type 0
Goes w caller g g' =
    (g'.sent ≡ g.sent)
    ⊎ (((c : UpstreamConnection) × (level : Option Text) × (request : Option UpstreamRequest)
          × (g'.sent ≡ g.sent ++ (level_message c.id level ++ request_message c.id request))
          × IsServed caller g.manager.connections c)
        ⊎ ((level : Text) × (ms : List Sent) × (g'.sent ≡ g.sent ++ ms)
            × (includes mcp_log_levels level ≡ true)
            × Told level w.open_clients ms))

pub of_SendsTo :
    (w : World) (caller : Caller) (c : UpstreamConnection) (r : UpstreamRequest) (g g' : Gateway)
    → IsServed caller g.manager.connections c
    → SendsTo c.id r g.sent g'.sent
    → Goes w caller g g'
of_SendsTo w caller c r g g' s (inl quiet) = inl quiet
of_SendsTo w caller c r g g' s (inr (level, e)) = inr (inl (c, level, some r, e, s))

ask-Goes :
    (w : World) (caller : Caller) (c : UpstreamConnection) (request : UpstreamRequest) (g : Gateway)
    → IsServed caller g.manager.connections c
    → Goes w caller g (ask_upstream w caller c request g).0
ask-Goes w caller c request g s =
    of_SendsTo w caller c request g (ask_upstream w caller c request g).0 s
      (ask-SendsTo w caller c request g)

-- A last step that only shapes the answer.
give_after :
    {A B : Type 0} (r : Gateway × Reply A) (h : A → B) → (and_then r (λ a. give (h a))).0 ≡ r.0
give_after (g, threw e) h = refl
give_after (g, returned a) h = refl

-- Behind the routing: the connection is looked up, and asked.
pub served-Goes :
    {B : Type 0} (w : World) (caller : Caller) (id : Text) (f : UpstreamConnection → G B)
    (g : Gateway)
    → ((c : UpstreamConnection)
        → IsServed caller g.manager.connections c
        → Goes w caller g (f c g).0)
    → Goes w caller g ((require_visible_connection caller id >>= f) g).0
served-Goes w caller id f g k = elim (visible-Reads caller id g) [
  | inl (c, e, s, same) ↦ subst (λ r. Goes w caller g (and_then r f).0) (sym e) (k c s)
  | inr (x, e) ↦ subst (λ r. Goes w caller g (and_then r f).0) (sym e) (inl refl)
]

module _ (w : World) (caller : Caller) where
  -- the tail that the methods share
  asked : Text → UpstreamRequest → (UpstreamConnection → Entries → Entries) → G Entries
  asked id request shape = require_visible_connection caller id >>= λ c.
      ask_upstream w caller c request >>= λ r. give (shape c r)

  asked-Goes :
      (id : Text) (request : UpstreamRequest) (shape : UpstreamConnection → Entries → Entries)
      (g : Gateway)
      → Goes w caller g (asked id request shape g).0
  unfolding asked
  asked-Goes id request shape g =
      served-Goes w caller id (λ c. ask_upstream w caller c request >>= λ r. give (shape c r)) g
        (λ c s.
          subst (Goes w caller g) (sym (give_after (ask_upstream w caller c request g) (shape c)))
            (ask-Goes w caller c request g s))

  -- a resource is routed by its URI first
  resource-Goes :
      (params : Entries) (request : Text → UpstreamRequest)
      (shape : UpstreamConnection → Entries → Entries) (g : Gateway)
      → Goes w caller g
          ((text_param (codes "uri") params >>= λ uri. route_resource caller uri >>= λ r.
              asked r.connection_id (request r.upstream_uri) shape)
            g).0
  resource-Goes params request shape g =
      let tail = λ (r : Routed). asked r.connection_id (request r.upstream_uri) shape in
      after-Reads (Goes w caller g) (text_param (codes "uri") params)
        (λ uri. route_resource caller uri >>= tail) g (text_param-Reads (codes "uri") params g)
        (inl refl)
        (λ uri e.
          after-Reads (Goes w caller g) (route_resource caller uri) tail g
            (route_resource-Reads caller uri g) (inl refl)
            (λ r e'. asked-Goes r.connection_id (request r.upstream_uri) shape g))

  pub read_resource-Goes :
      (params : Entries) (g : Gateway) → Goes w caller g (read_resource w caller params g).0
  unfolding read_resource asked
  read_resource-Goes params g =
      resource-Goes params resource_read (λ c r. namespace_result_resources c.alias r) g

  pub resource_subscription-Goes :
      (params : Entries) (subscribe : Bool) (g : Gateway)
      → Goes w caller g (resource_subscription w caller params subscribe g).0
  unfolding resource_subscription asked
  resource_subscription-Goes params subscribe g =
      resource-Goes params (subscription subscribe) (λ c r. no_entries) g

  pub get_prompt-Goes :
      (params : Entries) (g : Gateway) → Goes w caller g (get_prompt w caller params g).0
  unfolding get_prompt asked
  get_prompt-Goes params g =
      let args = args_or_empty (property (codes "arguments") params) in
      let tail = λ (p : DiscoveredPrompt).
        asked p.connection_id (prompt_get p.upstream_name args)
          (λ c r. namespace_result_resources c.alias r) in
      after-Reads (Goes w caller g) (text_param (codes "name") params)
        (λ name. require_prompt caller name >>= tail) g (text_param-Reads (codes "name") params g)
        (inl refl)
        (λ name e.
          after-Reads (Goes w caller g) (require_prompt caller name) tail g
            (require_prompt-Reads caller name g) (inl refl)
            (λ p e'.
              asked-Goes p.connection_id (prompt_get p.upstream_name args)
                (λ c r. namespace_result_resources c.alias r) g))

  ask_completion-Goes :
      (c : UpstreamConnection) (params : Entries) (g : Gateway)
      → IsServed caller g.manager.connections c
      → Goes w caller g (ask_completion w caller c params g).0
  unfolding ask_completion
  ask_completion-Goes c params g s =
      let f = λ (client : Client).
        if client.completions then send w c (completion params) else give no_completions in
      elim (upstream_for-cases w caller c g) [
        | inr (x, g', e, quiet) ↦ subst (λ r. Goes w caller g (and_then r f).0) (sym e) (inl quiet)
        | inl (client, g', level, e, told) ↦
            subst (λ r. Goes w caller g (and_then r f).0) (sym e)
              (elim (Bool-cases client.completions) [
                | inl able ↦ inr (
                    inl (
                      c,
                      level,
                      some (completion params),
                      rw able (
                          send-sent w c (completion params) g' g.sent (level_message c.id level)
                            told),
                      s,
                    ))
                | inr unable ↦ inr (
                    inl (
                      c,
                      level,
                      none,
                      rw unable (
                          told
                          ∙ ap (λ x. g.sent ++ x) (sym (append-nil (level_message c.id level)))),
                      s,
                    ))
              ])
      ]

  -- a change of the log level
  pub set_log_level-Goes :
      (params : Entries) (g : Gateway) → Goes w caller g (set_log_level w caller params g).0
  unfolding set_log_level apply_level wait set_entry
  set_log_level-Goes params g =
      let level = level_param (property (codes "level") params) in
      let levels = set_entry caller.session_id (some level) g.log_levels in
      let (ms, e, told) =
        push_all-Told caller level w.open_clients (record g { log_levels = levels })
          (ground (arith, text_eq_refl caller.session_id)) in
      elim (Bool-cases (includes mcp_log_levels level)) [
        | inl known ↦ inr (inr (level, ms, rw known e, known, told))
        | inr unknown ↦ inl (rw unknown refl)
      ]

  pub complete-Goes :
      (params : Entries) (g : Gateway) → Goes w caller g (complete w caller params g).0
  unfolding complete
  complete-Goes params g =
      let ask = λ (r : RoutedRef) (c : UpstreamConnection).
        ask_completion w caller c (set_property (codes "ref") (object r.ref) params) in
      let tail = λ (r : RoutedRef). require_visible_connection caller r.connection_id >>= ask r in
      after-Reads (Goes w caller g) (require_ref params)
        (λ ref. route_completion_ref caller ref >>= tail) g (require_ref-Reads params g) (inl refl)
        (λ ref e.
          after-Reads (Goes w caller g) (route_completion_ref caller ref) tail g
            (route_completion_ref-Reads caller ref g) (inl refl)
            (λ r e'. served-Goes w caller r.connection_id (ask r) g (λ c s.
              ask_completion-Goes c (set_property (codes "ref") (object r.ref) params) g s)))
