-- ===== src/Federation/Discovery/Examples.antt =====
-- A discovery on concrete inputs.
use universal_agent_protocol.Base.{
  ℕ, ◌≡◌, ◌≢◌, refl, Option, none, some, List, [], ◌∷◌, map, Text, codes, arith, All,
}
use universal_agent_protocol.Core.Domain.{ConnectionStatus, ConnectionOwnerType}
use universal_agent_protocol.Core.Json.{Json, Entries}
use universal_agent_protocol.Core.Errors.{ok, GatewayErrorCode}
use universal_agent_protocol.Storage.Connections.{UpstreamConnection}
use universal_agent_protocol.Storage.Catalogue.{DiscoveredTool, Tools}
use universal_agent_protocol.Federation.Policy.{default_tool_policy}
use universal_agent_protocol.Federation.Discovery.{
  UpstreamTool, Discovered, Store, tool_records, sync_catalogue,
}
use universal_agent_protocol.Federation.Discovery.Names.{
  HasFreshNames, tool_records_total, sync_catalogue_total,
}
use universal_agent_protocol.Federation.Discovery.Status.{IsEnabled, sync_catalogue-IsEnabled}

-- Stand-ins for the platform's functions.
abbrev digest : Text → Text
digest t = codes "0a1b2c3d4e"

abbrev new_id : ℕ → Text
new_id n = n ∷ []

abbrev schema_hash : Option Entries → Option Entries → Option Text → Text
schema_hash input output description = codes "h"

abbrev stringify : Json → Text
stringify v = codes "{}"

abbrev code_text : GatewayErrorCode → Text
code_text code = codes "code"

abbrev connection : UpstreamConnection
connection = record {
  id = codes "c1";
  tenant_id = codes "t1";
  owner_type = ConnectionOwnerType.workspace;
  owner_id = codes "u2";
  mcp_server_id = codes "m1";
  alias = codes "files";
  oauth_issuer_id = none;
  oauth_client_registration_id = none;
  granted_scopes = [];
  requested_scopes = [];
  access_token_encrypted = none;
  refresh_token_encrypted = none;
  static_headers_encrypted = none;
  token_type = none;
  access_token_expires_at = none;
  refresh_token_expires_at = none;
  token_version = 0;
  status = ConnectionStatus.disabled;
  last_refresh_at = none;
  last_success_at = none;
  last_error_code = none;
  updated_at = 0;
}

abbrev tool : Text → UpstreamTool
tool n = record {
  name = n;
  description = none;
  input_schema = none;
  output_schema = none;
  annotations = none;
}

-- Two names that normalize to one.
abbrev tools : List UpstreamTool
tools = tool (codes "read file") ∷ tool (codes "read_file") ∷ []

abbrev store : Store
store = record { connections = connection ∷ []; tools = []; resources = []; prompts = []; now = 5 }

abbrev discovered : Discovered
discovered = record {
  listing = ok (record { tools = tools; resources = []; templates = []; prompts = [] });
  elapsed_ms = 30;
  meanwhile = λ rows. rows;
}

tool_records_total_example :
    (rows : Tools) × (tool_records digest new_id schema_hash default_tool_policy stringify code_text
        connection 5 0 [] tools
      ≡ some rows)
    × (map (λ (r : DiscoveredTool). r.upstream_name) rows
        ≡ map (λ (t : UpstreamTool). t.name) tools)
    × HasFreshNames [] rows
tool_records_total_example =
    tool_records_total digest new_id schema_hash default_tool_policy stringify code_text connection
      5 0 [] tools (omega arith)

returns :
    (sync_catalogue digest new_id schema_hash default_tool_policy stringify code_text connection
      discovered store).1
    ≢ none
returns e =
    let (r, found) =
      sync_catalogue_total digest new_id schema_hash default_tool_policy stringify code_text
        connection discovered store _ refl (omega arith) in
    cc

-- A disabled connection is enabled by a discovery.
sync_catalogue-IsEnabled_example :
    All
      (λ row. row.id ≡ codes "c1" → IsEnabled row)
      (sync_catalogue digest new_id schema_hash default_tool_policy stringify code_text connection
        discovered store).0.connections
sync_catalogue-IsEnabled_example =
    sync_catalogue-IsEnabled digest new_id schema_hash default_tool_policy stringify code_text
      connection discovered store returns
