-- ===== src/Federation/Handler/Requests.antt =====
-- packages/federation/src/gateway-handler.ts: onRequest, and the methods behind it that are no
-- tool calls.
use universal_agent_protocol.Base.{
  ℕ, Bool, true, false, Option, none, some, List, [], ◌∷◌, Text, text_eq, codes, includes,
  if◌then◌else◌,
}
use universal_agent_protocol.Core.Json.{
  Json, boolean, number, array, Items, no_items, item, string, object, Entries, no_entries, entry,
  Decimal, from_ℕ, property, set_property,
}
use universal_agent_protocol.Core.Errors.{Result, ok, raise, GatewayErrorCode}
use universal_agent_protocol.Security.RateLimit.{RateLimitRule}
use universal_agent_protocol.Storage.Connections.{UpstreamConnection}
use universal_agent_protocol.Storage.Catalogue.{DiscoveredPrompt, find_prompt}
use universal_agent_protocol.Federation.Policy.{ToolPolicy, args_or_empty}
use universal_agent_protocol.Federation.Naming.Results.{namespace_result_resources}
use universal_agent_protocol.Federation.Pagination.{Page, Cursor, absent, text, other, paginate}
use universal_agent_protocol.Federation.Handler.{
  Caller, gateway, returned, threw, UpstreamRequest, resource_read, resource_subscribe,
  resource_unsubscribe, prompt_get, completion, World, G, ◌>>=◌, throw, give, text_param,
  require_visible_connection, route_resource, ask_upstream, upstream_for, send, push_log_level,
  set_entry, mcp_log_levels, Gateway, Client, list_tool_descriptors, list_resource_descriptors,
  list_prompt_descriptors, meter_api, wait,
}
use universal_agent_protocol.Federation.Handler.Calls.{call_tool}

-- `readResource`
unfoldable pub read_resource : World → Caller → Entries → G Entries
read_resource w caller params = do
  uri ← text_param (codes "uri") params
  routed ← route_resource caller uri
  c ← require_visible_connection caller routed.connection_id
  contents ← ask_upstream w caller c (resource_read routed.upstream_uri)
  give (namespace_result_resources c.alias contents)

unfoldable pub subscription : Bool → Text → UpstreamRequest
subscription true uri = resource_subscribe uri
subscription false uri = resource_unsubscribe uri

-- `resourceSubscription`
unfoldable pub resource_subscription : World → Caller → Entries → Bool → G Entries
resource_subscription w caller params subscribe = do
  uri ← text_param (codes "uri") params
  routed ← route_resource caller uri
  c ← require_visible_connection caller routed.connection_id
  _ ← ask_upstream w caller c (subscription subscribe routed.upstream_uri)
  give no_entries

unfoldable pub require_prompt : Caller → Text → G DiscoveredPrompt
require_prompt caller name g = elim (find_prompt caller.tenant_id name g.prompts) [
  | none ↦ throw GatewayErrorCode.not_found g
  | some p ↦ (g, returned p)
]

-- `getPrompt`
unfoldable pub get_prompt : World → Caller → Entries → G Entries
get_prompt w caller params = do
  name ← text_param (codes "name") params
  record_ ← require_prompt caller name
  c ← require_visible_connection caller record_.connection_id
  result ←
      ask_upstream w caller c
        (prompt_get record_.upstream_name (args_or_empty (property (codes "arguments") params)))
  give (namespace_result_resources c.alias result)

-- A completion's connection, and its reference in the upstream's own names.
pub record RoutedRef : Type 0 where
  pub connection_id : Text
  pub ref : Entries

unfoldable pub is_ref_type : Text → Option Json → Bool
is_ref_type t (some (string s)) = text_eq s t
is_ref_type t _ = false

unfoldable pub route_prompt_ref : Caller → Entries → G RoutedRef
route_prompt_ref caller ref = do
  name ← text_param (codes "name") ref
  p ← require_prompt caller name
  give (record {
    connection_id = p.connection_id;
    ref = set_property (codes "name") (string p.upstream_name) ref;
  })

unfoldable pub route_resource_ref : Caller → Entries → G RoutedRef
route_resource_ref caller ref = do
  uri ← text_param (codes "uri") ref
  r ← route_resource caller uri
  give (record {
    connection_id = r.connection_id;
    ref = set_property (codes "uri") (string r.upstream_uri) ref;
  })

-- `routeCompletionRef`
unfoldable pub route_completion_ref : Caller → Entries → G RoutedRef
route_completion_ref caller ref =
    let kind = property (codes "type") ref in
    if is_ref_type (codes "ref/prompt") kind
    then route_prompt_ref caller ref
    else if is_ref_type (codes "ref/resource") kind
    then route_resource_ref caller ref
    else throw GatewayErrorCode.invalid_request

unfoldable pub ref_of : Option Json → G Entries
ref_of (some (object ref)) g = (g, returned ref)
ref_of _ g = throw GatewayErrorCode.invalid_request g

unfoldable pub require_ref : Entries → G Entries
require_ref params = ref_of (property (codes "ref") params)

abbrev pub no_completions : Entries
no_completions =
    entry (codes "completion")
      (object (
        entry (codes "values") (array no_items) (
          entry (codes "total") (number (from_ℕ 0))
            (entry (codes "hasMore") (boolean false) no_entries))))
      no_entries

-- an upstream that cannot complete is not asked
unfoldable pub ask_completion : World → Caller → UpstreamConnection → Entries → G Entries
ask_completion w caller c params = upstream_for w caller c >>= λ client.
    if client.completions then send w c (completion params) else give no_completions

-- `complete`
unfoldable pub complete : World → Caller → Entries → G Entries
complete w caller params = do
  ref ← require_ref params
  routed ← route_completion_ref caller ref
  c ← require_visible_connection caller routed.connection_id
  ask_completion w caller c (set_property (codes "ref") (object routed.ref) params)

-- the open clients, one after the other
unfoldable pub push_all : Caller → List (Text × Client) → Gateway → Gateway
push_all caller [] g = g
push_all caller ((id, client) ∷ clients) g =
    push_all caller clients (push_log_level caller id client g)

unfoldable pub apply_level : World → Caller → Text → G Entries
apply_level w caller level g =
    let levels = set_entry caller.session_id (some level) g.log_levels in
    let g' = push_all caller w.open_clients (record g { log_levels = levels }) in
    (wait w.upstream_ms w.while_calling g', returned no_entries)

unfoldable pub level_param : Option Json → Text
level_param (some (string t)) = t
level_param _ = []

-- `setLogLevel`
unfoldable pub set_log_level : World → Caller → Entries → G Entries
set_log_level w caller params =
    let level = level_param (property (codes "level") params) in
    if includes mcp_log_levels level
    then apply_level w caller level
    else throw GatewayErrorCode.invalid_request

pub data McpMethod : Type 0 where
  ping tools_list tools_call resources_list templates_list resources_read : McpMethod
  resources_subscribe resources_unsubscribe prompts_list prompts_get : McpMethod
  completion_complete logging_set_level other_method : McpMethod

cursor_of : Option Json → Cursor
cursor_of none = absent
cursor_of (some Json.null) = absent
cursor_of (some (string t)) = text t
cursor_of (some _) = other

items_of : List Entries → Items
items_of [] = no_items
items_of (e ∷ es) = item (object e) (items_of es)

cursor_field : Option Text → Entries
cursor_field none = no_entries
cursor_field (some t) = entry (codes "nextCursor") (string t) no_entries

-- `String(item[key])`, for a key that holds a string
key_field : Text → Entries → Text
key_field key o = elim (property key o) [ some (string t) ↦ t | _ ↦ codes "undefined" ]

unfoldable pub as_page : Text → Result (Page Entries) → G Entries
unfolding items_of cursor_field
as_page field (raise e) g = (g, threw (gateway e))
as_page field (ok p) g =
    (g, returned (entry field (array (items_of p.items)) (cursor_field p.next_cursor)))

module _ (encode : Text → Text) (decode : Text → Text) (page_size : ℕ) (api_rule : RateLimitRule)
    (size : Json → ℕ) (compiles : Text → Text → Option Bool) (inherited : Text → Bool)
    (number_text : Decimal → Text) (policy : ToolPolicy) (rule : RateLimitRule) where
  -- a list, sorted by a field and cut into pages
  unfoldable pub list_page : Text → Text → Entries → List Entries → G Entries
  unfolding cursor_of key_field
  list_page field key params items = as_page field (
      paginate encode decode items (key_field key) (cursor_of (property (codes "cursor") params))
        page_size)

  -- the method behind the meter
  unfoldable pub dispatch : World → Caller → McpMethod → Entries → G Entries
  dispatch w caller ping params g = give no_entries g
  dispatch w caller tools_list params g =
      list_page (codes "tools") (codes "name") params (list_tool_descriptors caller g) g
  dispatch w caller tools_call params g =
      call_tool size compiles inherited number_text policy rule w caller params g
  dispatch w caller resources_list params g =
      list_page (codes "resources") (codes "uri") params (list_resource_descriptors caller false g)
        g
  dispatch w caller templates_list params g =
      list_page (codes "resourceTemplates") (codes "uriTemplate") params
        (list_resource_descriptors caller true g) g
  dispatch w caller resources_read params g = read_resource w caller params g
  dispatch w caller resources_subscribe params g = resource_subscription w caller params true g
  dispatch w caller resources_unsubscribe params g = resource_subscription w caller params false g
  dispatch w caller prompts_list params g =
      list_page (codes "prompts") (codes "name") params (list_prompt_descriptors caller g) g
  dispatch w caller prompts_get params g = get_prompt w caller params g
  dispatch w caller completion_complete params g = complete w caller params g
  dispatch w caller logging_set_level params g = set_log_level w caller params g
  dispatch w caller other_method params g = throw GatewayErrorCode.invalid_request g

  unfoldable pub is_ping : McpMethod → Bool
  is_ping ping = true
  is_ping _ = false

  -- `onRequest`
  unfoldable pub on_request : World → Caller → McpMethod → Entries → G Entries
  on_request w caller method params =
      if is_ping method
      then dispatch w caller method params
      else meter_api api_rule caller >>= λ _. dispatch w caller method params
