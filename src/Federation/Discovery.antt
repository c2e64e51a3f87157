-- ===== src/Federation/Discovery.antt =====
-- packages/federation/src/connection-service.ts: syncCatalogue, the discovery of a connection's tools,
-- resources and prompts, behind the lock of the connection's catalogue. What the upstream lists, or how
-- it fails, is given, with the time it takes and what others do to the connections meanwhile. `new_id`
-- stands for fresh ids and `schema_hash` for the hash of a tool's schemas and description.
-- The redacted message of a failure is left out, as in Storage/Connections.
mod Examples
pub mod Names
pub mod Status
use universal_agent_protocol.Base.{
  ℕ, suc, ◌+◌, Bool, Option, none, some, List, [], ◌∷◌, ◌++◌, map, Text, codes, includes, length,
  ltb, ◌||◌, if◌then◌else◌,
}
use universal_agent_protocol.Core.Domain.{ConnectionStatus}
use universal_agent_protocol.Core.Json.{
  Json, string, object, array, Items, Entries, no_entries, entry,
}
use universal_agent_protocol.Core.Errors.{Result, ok, raise, GatewayError, GatewayErrorCode}
use universal_agent_protocol.Storage.Connections.{UpstreamConnection, Connections, update}
use universal_agent_protocol.Storage.Catalogue.{
  DiscoveredTool, Tools, DiscoveredResource, Resources, DiscoveredPrompt, Prompts, ToolSyncResult,
  sync_tools, sync_resources, sync_prompts,
}
use universal_agent_protocol.Federation.Naming.{
  gateway_tool_name, gateway_resource_uri, gateway_prompt_name,
}
use universal_agent_protocol.Federation.ToolClassifier.{classify_tool}
use universal_agent_protocol.Federation.Policy.{ToolPolicy, should_expose_tool}

-- What an upstream lists.
pub record UpstreamTool : Type 0 where
  pub name : Text
  pub description : Option Text
  pub input_schema : Option Entries
  pub output_schema : Option Entries
  pub annotations : Option Entries

pub record UpstreamResource : Type 0 where
  pub uri : Text
  pub name : Text
  pub description : Option Text
  pub mime_type : Option Text

pub record UpstreamPrompt : Type 0 where
  pub name : Text
  pub description : Option Text
  pub arguments : Option Items

pub record Listing : Type 0 where
  pub tools : List UpstreamTool
  pub resources : List UpstreamResource
  pub templates : List UpstreamResource
  pub prompts : List UpstreamPrompt

pub record Discovered : Type 0 where
  pub listing : Result Listing
  pub elapsed_ms : ℕ
  pub meanwhile : Connections → Connections

-- The tables that a discovery writes, and the clock.
pub record Store : Type 0 where
  pub connections : Connections
  pub tools : Tools
  pub resources : Resources
  pub prompts : Prompts
  pub now : ℕ

-- The parts of the catalogue that clients are told of.
pub record CatalogueChange : Type 0 where
  pub tools : Bool
  pub resources : Bool
  pub prompts : Bool

module _ {T : Type 0} (identity : T → Text) where
  unfoldable pub first_from : List Text → List T → List T
  first_from seen [] = []
  first_from seen (x ∷ xs) =
      let old = first_from seen xs in
      let new = x ∷ first_from (identity x ∷ seen) xs in
      if includes seen (identity x) then old else new

  -- `firstOfEach`
  unfoldable pub first_of_each : List T → List T
  first_of_each xs = first_from [] xs

schema_or_object : Option Entries → Entries
schema_or_object none = entry (codes "type") (string (codes "object")) no_entries
schema_or_object (some s) = s

arguments_json : Option Items → Option Entries
arguments_json none = none
arguments_json (some items) = some (entry (codes "arguments") (array items) no_entries)

unfoldable pub status_after_success : ConnectionStatus → ConnectionStatus
status_after_success ConnectionStatus.connected_non_refreshable =
    ConnectionStatus.connected_non_refreshable
status_after_success _ = ConnectionStatus.connected

unfoldable pub status_after_failure : GatewayErrorCode → ConnectionStatus
status_after_failure GatewayErrorCode.authorization_required = ConnectionStatus.reauth_required
status_after_failure _ = ConnectionStatus.degraded

-- the update behind a discovery that succeeded
unfoldable pub mark_synced : UpstreamConnection → Store → Store
unfolding status_after_success
mark_synced c s = record s {
  connections =
      update s.now c.id
        (λ r. record r {
          status = status_after_success c.status;
          last_success_at = some s.now;
          last_error_code = none;
        })
        s.connections;
}

-- the update behind one that failed
unfoldable pub mark_failed :
    (GatewayErrorCode → Text) → UpstreamConnection → GatewayErrorCode → Store → Store
unfolding status_after_failure
mark_failed code_text c code s = record s {
  connections =
      update s.now c.id
        (λ r. record r {
          status = status_after_failure code;
          last_error_code = some (code_text code);
        })
        s.connections;
}

module _ (digest : Text → Text) (new_id : ℕ → Text)
    (schema_hash : Option Entries → Option Entries → Option Text → Text) (policy : ToolPolicy)
    (stringify : Json → Text) (code_text : GatewayErrorCode → Text) where
  unfoldable pub tool_record : UpstreamConnection → ℕ → ℕ → Text → UpstreamTool → DiscoveredTool
  unfolding schema_or_object
  tool_record c started n gateway_name t =
      let risk = classify_tool t.name t.description t.annotations in
      record {
        id = new_id n;
        tenant_id = c.tenant_id;
        connection_id = c.id;
        upstream_name = t.name;
        gateway_name = gateway_name;
        description = t.description;
        input_schema = schema_or_object t.input_schema;
        output_schema = t.output_schema;
        annotations = t.annotations;
        schema_hash = schema_hash t.input_schema t.output_schema t.description;
        enabled = should_expose_tool policy risk t.annotations;
        risk_level = risk;
        discovered_at = started;
        last_seen_at = started;
      }

  unfoldable pub added : (Tools → Tools) → Option Tools → Option Tools
  added add none = none
  added add (some rows) = some (add rows)

  unfoldable pub named : (Text → Tools → Tools) → Option Text → (Text → Option Tools) → Option Tools
  unfolding added
  named add none rest = none
  named add (some name) rest = added (add name) (rest name)

  -- the records of the tools, each under a name that none before it has taken; none only if the
  -- search for a name runs out of fuel
  unfoldable pub tool_records :
      UpstreamConnection → ℕ → ℕ → List Text → List UpstreamTool → Option Tools
  unfolding named tool_record
  tool_records c started n taken [] = some []
  tool_records c started n taken (t ∷ ts) =
      named (λ name rows. tool_record c started n name t ∷ rows)
        (gateway_tool_name digest (length taken + 2) c.alias t.name taken)
        (λ name. tool_records c started (suc n) (name ∷ taken) ts)

  resource_record : UpstreamConnection → ℕ → Bool → ℕ → UpstreamResource → DiscoveredResource
  resource_record c started is_template n r = record {
    id = new_id n;
    tenant_id = c.tenant_id;
    connection_id = c.id;
    upstream_uri = r.uri;
    gateway_uri = gateway_resource_uri c.alias r.uri;
    name = r.name;
    description = r.description;
    mime_type = r.mime_type;
    is_template = is_template;
    last_seen_at = started;
  }

  prompt_record : UpstreamConnection → ℕ → ℕ → UpstreamPrompt → DiscoveredPrompt
  unfolding arguments_json
  prompt_record c started n p = record {
    id = new_id n;
    tenant_id = c.tenant_id;
    connection_id = c.id;
    upstream_name = p.name;
    gateway_name = gateway_prompt_name c.alias p.name;
    description = p.description;
    arguments = arguments_json p.arguments;
    last_seen_at = started;
  }

  numbered : {A B : Type 0} → (ℕ → A → B) → ℕ → List A → List B
  numbered f n [] = []
  numbered f n (x ∷ xs) = f n x ∷ numbered f (suc n) xs

  resource_records : UpstreamConnection → ℕ → ℕ → Listing → Resources
  unfolding resource_record numbered
  resource_records c started n l =
      first_of_each (λ (r : DiscoveredResource). r.upstream_uri)
        (numbered (resource_record c started Bool.false) n l.resources
          ++ numbered (resource_record c started Bool.true) (n + length l.resources) l.templates)

  prompt_records : UpstreamConnection → ℕ → ℕ → Listing → Prompts
  unfolding prompt_record numbered
  prompt_records c started n l =
      numbered (prompt_record c started) n
        (first_of_each (λ (p : UpstreamPrompt). p.name) l.prompts)

  some_in : List Text → Bool
  some_in names = ltb 0 (length names)

  -- the three tables, and what has changed in them
  unfoldable pub write_catalogue :
      UpstreamConnection → ℕ → Tools → Listing → Store → Store × (ToolSyncResult × CatalogueChange)
  unfolding resource_records prompt_records some_in
  write_catalogue c started tools l s =
      let (tool_rows, result) = sync_tools c.id tools started s.tools in
      let (resource_rows, resources_changed) =
        sync_resources c.id (resource_records c started (length tools) l) s.resources in
      let (prompt_rows, prompts_changed) =
        sync_prompts stringify c.id
          (prompt_records c started (length tools + (length l.resources + length l.templates)) l)
          s.prompts in
      (
        record s { tools = tool_rows; resources = resource_rows; prompts = prompt_rows },
        (
          result,
          record {
            tools = some_in result.added || some_in result.removed || some_in result.changed;
            resources = resources_changed;
            prompts = prompts_changed;
          },
        ),
      )

  unfoldable pub write_found :
      UpstreamConnection
      → ℕ
      → Listing
      → Store
      → Option Tools
      → Store × Option (Result (ToolSyncResult × CatalogueChange))
  unfolding write_catalogue
  write_found c started l s none = (s, none)
  write_found c started l s (some tools) =
      let (s', outcome) = write_catalogue c started tools l s in
      (mark_synced c s', some (ok outcome))

  unfoldable pub write_listing :
      UpstreamConnection
      → ℕ
      → Store
      → Result Listing
      → Store × Option (Result (ToolSyncResult × CatalogueChange))
  write_listing c started s (raise e) = (mark_failed code_text c e.code s, some (raise e))
  write_listing c started s (ok l) =
      write_found c started l s
        (tool_records c started 0 [] (first_of_each (λ (t : UpstreamTool). t.name) l.tools))

  -- `syncCatalogue`
  unfoldable pub sync_catalogue :
      UpstreamConnection
      → Discovered
      → Store
      → Store × Option (Result (ToolSyncResult × CatalogueChange))
  sync_catalogue c d s =
      write_listing c s.now
        (record s { connections = d.meanwhile s.connections; now = s.now + d.elapsed_ms }) d.listing
