-- ===== src/Storage/Examples.antt =====
-- Runs of packages/storage on concrete inputs.
use mathlib.Core.List.{Perm}
use universal_agent_protocol.Base.{
  not, select, includes, ℕ, ◌+◌, ◌≡◌, ◌↔◌, refl, Bool, true, false, Option, none, some, [], ◌∷◌,
  Text, codes, All, text_eq, text_eq_ne, arith,
}
use universal_agent_protocol.Core.Domain.{ConnectionOwnerType, ConnectionStatus, ToolRiskLevel}
use universal_agent_protocol.Core.Json.{no_entries}
use universal_agent_protocol.Storage.Table.{find_many, find_one, insert}
use universal_agent_protocol.Storage.Catalogue.{DiscoveredTool, Tools, sync_tools, differs}
use universal_agent_protocol.Storage.Catalogue.ByName.{stored}
use universal_agent_protocol.Storage.Catalogue.Accounts.{
  is_new, is_same, is_moved, of_fate, gateway_names, upstream_names, sync_tools-accounts,
}
use universal_agent_protocol.Storage.Catalogue.Kept.{IsKept, sync_tools-keeps_enabled}
use universal_agent_protocol.Storage.Catalogue.Differs.{differs_iff}
use universal_agent_protocol.Storage.LeaseLock.{
  Leases, World, try_acquire, renew, release, Reach, here, next, acquired, tick, assign,
}
use universal_agent_protocol.Storage.LeaseLock.Lock.{Holds, claim, extend, free, operations-Holds}
use universal_agent_protocol.Storage.LeaseLock.Exclusion.{IsIdle, Reach-exclusive, Reach-available}
use universal_agent_protocol.Storage.Connections.{
  UpstreamConnection, TokenUpdate, update_tokens, Transactions, TransactionStatus, consume,
}
use universal_agent_protocol.Storage.Connections.Swap.{update_tokens_once, consume_once}

abbrev connection : ℕ → UpstreamConnection
connection version = record {
  id = codes "c1";
  tenant_id = codes "t1";
  owner_type = ConnectionOwnerType.user;
  owner_id = codes "u1";
  mcp_server_id = codes "m1";
  alias = codes "files";
  oauth_issuer_id = some (codes "i1");
  oauth_client_registration_id = some (codes "r1");
  granted_scopes = [];
  requested_scopes = [];
  access_token_encrypted = some (codes "A1");
  refresh_token_encrypted = some (codes "R1");
  static_headers_encrypted = none;
  token_type = some (codes "Bearer");
  access_token_expires_at = some 1000;
  refresh_token_expires_at = none;
  token_version = version;
  status = ConnectionStatus.connected;
  last_refresh_at = none;
  last_success_at = none;
  last_error_code = none;
  updated_at = 0;
}

abbrev update_of : ConnectionStatus → TokenUpdate
update_of status = record {
  connection_id = codes "c1";
  expected_token_version = 3;
  access_token_encrypted = some (codes "A2");
  refresh_token_encrypted = some (codes "R2");
  token_type = some (codes "Bearer");
  access_token_expires_at = some 9000;
  refresh_token_expires_at = none;
  granted_scopes = [];
  status = status;
  last_refresh_at = 800;
}

-- two refreshes that both read version 3
update_tokens_once_example :
    update_tokens 900
      (update_of ConnectionStatus.connected_non_refreshable)
      (update_tokens 800 (update_of ConnectionStatus.connected) (connection 3 ∷ [])).0
    ≡ ((update_tokens 800 (update_of ConnectionStatus.connected) (connection 3 ∷ [])).0, false)
update_tokens_once_example =
    update_tokens_once 800 900 (update_of ConnectionStatus.connected)
      (update_of ConnectionStatus.connected_non_refreshable) (connection 3 ∷ []) refl refl

abbrev transactions : Transactions
transactions =
    record {
      id = codes "x1";
      tenant_id = codes "t1";
      user_id = codes "u1";
      connection_id = codes "c1";
      issuer = codes "i1";
      state_hash = codes "h1";
      pkce_verifier_encrypted = codes "P1";
      requested_scopes = [];
      expires_at = 600000;
      consumed_at = none;
      status = TransactionStatus.pending;
    }
    ∷ []

consume_once_example :
    consume (codes "x1") 20 (consume (codes "x1") 10 transactions).0
    ≡ ((consume (codes "x1") 10 transactions).0, false)
consume_once_example = consume_once (codes "x1") 10 20 transactions

abbrev tool : Text → Text → Bool → DiscoveredTool
tool id name enabled = record {
  id = id;
  tenant_id = codes "t1";
  connection_id = codes "c1";
  upstream_name = name;
  gateway_name = name;
  description = none;
  input_schema = no_entries;
  output_schema = none;
  annotations = none;
  schema_hash = id;
  enabled = enabled;
  risk_level = ToolRiskLevel.write;
  discovered_at = 0;
  last_seen_at = 0;
}

abbrev stored_tools : Tools
stored_tools = tool (codes "x1") (codes "read") true ∷ tool (codes "x2") (codes "send") false ∷ []

-- "send" has another schema now, "read" is gone and "list" is new
abbrev found_tools : Tools
found_tools = tool (codes "y1") (codes "send") true ∷ tool (codes "y2") (codes "list") true ∷ []

sync_tools-accounts_example :
    let before =
      find_many (λ (t : DiscoveredTool). text_eq t.connection_id (codes "c1")) stored_tools in
    let result = (sync_tools (codes "c1") found_tools 9 stored_tools).1 in
    (result.added ≡ of_fate is_new (stored before) found_tools)
    × (result.changed ≡ of_fate is_moved (stored before) found_tools)
    × (result.unchanged ≡ of_fate is_same (stored before) found_tools)
    × (result.removed
        ≡ gateway_names (
            select
              (λ (p : DiscoveredTool). not (includes (upstream_names found_tools) p.upstream_name))
              before))
unfolding find_many text_eq
sync_tools-accounts_example =
    sync_tools-accounts (codes "c1") found_tools 9 stored_tools
      ((text_eq_ne _ _ refl, tt), (tt, tt)) ((text_eq_ne _ _ refl, tt), (tt, tt))

sync_tools-keeps_enabled_example :
    All (IsKept (codes "x2") false) (sync_tools (codes "c1") found_tools 9 stored_tools).0
unfolding text_eq
sync_tools-keeps_enabled_example =
    sync_tools-keeps_enabled (codes "x2") false (codes "c1") found_tools 9 stored_tools
      (text_eq_ne _ _ refl, (text_eq_ne _ _ refl, tt))
      ((λ e. absurd (text_eq_ne (codes "x1") (codes "x2") refl e)), ((λ e. refl), tt))

differs_iff_example :
    (differs (codes "a" ∷ codes "b" ∷ []) (codes "b" ∷ codes "a" ∷ []) ≡ false)
    ↔ Perm (codes "a" ∷ codes "b" ∷ []) (codes "b" ∷ codes "a" ∷ [])
differs_iff_example = differs_iff (codes "a" ∷ codes "b" ∷ []) (codes "b" ∷ codes "a" ∷ [])

abbrev leases : Leases
leases = record { key = codes "token:c1"; owner = codes "r1"; expires_at = 40 } ∷ []

-- the lease of another replica has run out
operations-Holds_example :
    let key = codes "token:c1" in
    let lock : Option (Text × ℕ) = some (codes "r1", 40) in
    Holds key (try_acquire key (codes "r2") 30 50 leases).0 (claim (codes "r2") 30 50 lock).0
    × ((try_acquire key (codes "r2") 30 50 leases).1 ≡ (claim (codes "r2") 30 50 lock).1)
    × Holds key (renew key (codes "r2") 30 50 leases).0 (extend (codes "r2") 30 50 lock).0
    × ((renew key (codes "r2") 30 50 leases).1 ≡ (extend (codes "r2") 30 50 lock).1)
    × Holds key (release key (codes "r2") leases) (free (codes "r2") lock)
unfolding Holds find_many text_eq
operations-Holds_example =
    operations-Holds (codes "token:c1") (codes "r2") 30 50 leases (some (codes "r1", 40)) refl

abbrev idle_world : World
idle_world = record { rows = []; now = 10; held = λ o. none }

abbrev locked_world : World
locked_world = record {
  rows = record { key = codes "k"; owner = codes "r1"; expires_at = 40 } ∷ [];
  now = 10;
  held = assign (codes "r1") (some 40) (λ o. none);
}

idle_world-IsIdle : IsIdle (codes "k") idle_world
unfolding Holds find_many
idle_world-IsIdle = record { free_lock = refl; quiet = λ o. refl }

locks : Reach (codes "k") idle_world locked_world
unfolding try_acquire find_one insert
locks = next here (acquired idle_world (codes "r1") 30 refl)

Reach-exclusive_example : (codes "r1" ≡ codes "r1") × (◌≡◌ {A = ℕ} 40 40)
unfolding text_eq
Reach-exclusive_example =
    Reach-exclusive (codes "k") (codes "r1") (codes "r1") 40 40 idle_world-IsIdle locks refl refl
      (omega arith) (omega arith)

-- the replica that holds the lock is gone, and its lease has run out
Reach-available_example :
    (try_acquire
      (codes "k")
      (codes "r2")
      30
      (record locked_world { now = 10 + 50 }).now
      (record locked_world { now = 10 + 50 }).rows).1
    ≡ true
unfolding text_eq
Reach-available_example =
    Reach-available (codes "k") (codes "r2") 30 idle_world-IsIdle
      (next locks (tick locked_world 50)) (λ o t h. ground arith)
