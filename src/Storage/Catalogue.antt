-- ===== src/Storage/Catalogue.antt =====
-- packages/core/src/domain.ts and packages/storage/src/sql-store.ts: the tools, resources and
-- prompts that were discovered at the upstreams, and how a discovery is written over the last one.
-- An insert is given an id that no row has, and the database orders texts by code units. `stringify` stands for `JSON.stringify`.
pub mod Kept
pub mod ByName
pub mod Accounts
pub mod Differs
use universal_agent_protocol.Base.{
  ℕ, Bool, true, not, ◌&&◌, Option, none, some, List, [], ◌∷◌, ◌++◌, map, Text, text_eq,
  if◌then◌else◌, codes, length, ◌==◌,
}
use universal_agent_protocol.Core.Domain.{ToolRiskLevel}
use universal_agent_protocol.Core.Json.{Entries, Json, null, object}
use universal_agent_protocol.Storage.Table.{find_one, find_many, update_raw, delete, insert}
use universal_agent_protocol.Federation.Pagination.{sort}

pub record DiscoveredTool : Type 0 where
  pub id : Text
  pub tenant_id : Text
  pub connection_id : Text
  pub upstream_name : Text
  pub gateway_name : Text
  pub description : Option Text
  pub input_schema : Entries
  pub output_schema : Option Entries
  pub annotations : Option Entries
  pub schema_hash : Text
  pub enabled : Bool
  pub risk_level : ToolRiskLevel
  pub discovered_at : ℕ
  pub last_seen_at : ℕ

pub record DiscoveredResource : Type 0 where
  pub id : Text
  pub tenant_id : Text
  pub connection_id : Text
  pub upstream_uri : Text
  pub gateway_uri : Text
  pub name : Text
  pub description : Option Text
  pub mime_type : Option Text
  pub is_template : Bool
  pub last_seen_at : ℕ

pub record DiscoveredPrompt : Type 0 where
  pub id : Text
  pub tenant_id : Text
  pub connection_id : Text
  pub upstream_name : Text
  pub gateway_name : Text
  pub description : Option Text
  pub arguments : Option Entries
  pub last_seen_at : ℕ

abbrev pub Tools : Type 0
Tools = List DiscoveredTool

abbrev pub Resources : Type 0
Resources = List DiscoveredResource

abbrev pub Prompts : Type 0
Prompts = List DiscoveredPrompt

-- The gateway names of a synchronisation, by what became of each tool.
pub record ToolSyncResult : Type 0 where
  pub added : List Text
  pub removed : List Text
  pub changed : List Text
  pub unchanged : List Text

-- `byUpstreamName`, in the order of its keys
abbrev pub ByName : Type 0
ByName = List (Text × DiscoveredTool)

unfoldable pub get : Text → ByName → Option DiscoveredTool
get name [] = none
get name ((k, t) ∷ m) = if text_eq k name then some t else get name m

set : Text → DiscoveredTool → ByName → ByName
set name t [] = (name, t) ∷ []
set name t ((k, u) ∷ m) = if text_eq k name then (k, t) ∷ m else (k, u) ∷ set name t m

unfoldable pub remove : Text → ByName → ByName
remove name [] = []
remove name ((k, t) ∷ m) = if text_eq k name then m else (k, t) ∷ remove name m

pub set_all : Tools → ByName → ByName
unfolding set
set_all [] m = m
set_all (t ∷ ts) m = set_all ts (set t.upstream_name t m)

unfoldable pub by_upstream_name : Tools → ByName
unfolding set_all
by_upstream_name rows = set_all rows []

-- The table, the tools of the last discovery that are not seen again yet, and the result so far.
pub record Sync : Type 0 where
  pub rows : Tools
  pub left : ByName
  pub result : ToolSyncResult

abbrev has_id : Text → DiscoveredTool → Bool
has_id id t = text_eq t.id id

add_tool : ℕ → DiscoveredTool → Sync → Sync
add_tool seen_at tool s = record s {
  rows = insert (record tool { discovered_at = seen_at; last_seen_at = seen_at }) s.rows;
  result = record s.result { added = s.result.added ++ tool.gateway_name ∷ [] };
}

change_tool : ℕ → DiscoveredTool → DiscoveredTool → Sync → Sync
change_tool seen_at tool previous s = record s {
  rows =
      (update_raw (has_id previous.id)
        (λ t. record t {
          gateway_name = tool.gateway_name;
          description = tool.description;
          input_schema = tool.input_schema;
          output_schema = tool.output_schema;
          annotations = tool.annotations;
          schema_hash = tool.schema_hash;
          risk_level = tool.risk_level;
          last_seen_at = seen_at;
        })
        s.rows).0;
  left = remove tool.upstream_name s.left;
  result = record s.result { changed = s.result.changed ++ tool.gateway_name ∷ [] };
}

see_tool : ℕ → DiscoveredTool → DiscoveredTool → Sync → Sync
see_tool seen_at tool previous s = record s {
  rows = (update_raw (has_id previous.id) (λ t. record t { last_seen_at = seen_at }) s.rows).0;
  left = remove tool.upstream_name s.left;
  result = record s.result { unchanged = s.result.unchanged ++ tool.gateway_name ∷ [] };
}

-- the body of the loop over the tools that were discovered
unfoldable pub sync_tool : ℕ → DiscoveredTool → Sync → Sync
unfolding add_tool change_tool see_tool
sync_tool seen_at tool s = elim (get tool.upstream_name s.left) [
  | none ↦ add_tool seen_at tool s
  | some previous ↦
      if text_eq previous.schema_hash tool.schema_hash
        && text_eq previous.gateway_name tool.gateway_name
      then see_tool seen_at tool previous s
      else change_tool seen_at tool previous s
]

unfoldable pub sync_each : ℕ → Tools → Sync → Sync
sync_each seen_at [] s = s
sync_each seen_at (t ∷ ts) s = sync_each seen_at ts (sync_tool seen_at t s)

-- the loop over the tools that were not seen again
unfoldable pub drop_stale : ByName → Tools → Tools
drop_stale [] rows = rows
drop_stale ((k, t) ∷ m) rows = drop_stale m (delete (has_id t.id) rows).0

stale_names : ByName → List Text
stale_names [] = []
stale_names ((k, t) ∷ m) = t.gateway_name ∷ stale_names m

-- `tools.sync`
unfoldable pub sync_tools : Text → Tools → ℕ → Tools → Tools × ToolSyncResult
unfolding stale_names
sync_tools connection_id tools seen_at rows =
    let existing = find_many (λ t. text_eq t.connection_id connection_id) rows in
    let s = sync_each seen_at tools (record {
      rows = rows;
      left = by_upstream_name existing;
      result = record { added = []; removed = []; changed = []; unchanged = [] };
    }) in
    (drop_stale s.left s.rows, record s.result { removed = stale_names s.left })

-- `tools.listByTenant`, in the order of the gateway names
unfoldable pub list_tools : Text → Tools → Tools
list_tools tenant rows =
    sort (λ t. t.gateway_name) (find_many (λ t. text_eq t.tenant_id tenant) rows)

unfoldable pub find_tool : Text → Text → Tools → Option DiscoveredTool
find_tool tenant name = find_one (λ t. text_eq t.tenant_id tenant && text_eq t.gateway_name name)

-- `tools.setEnabled`
unfoldable pub set_enabled : Text → Text → Bool → Tools → Tools
set_enabled tenant id enabled rows =
    (update_raw (λ t. text_eq t.id id && text_eq t.tenant_id tenant)
      (λ t. record t { enabled = enabled }) rows).0

-- `tools.deleteByConnection`
unfoldable pub delete_tools : Text → Tools → Tools
delete_tools connection_id rows = (delete (λ t. text_eq t.connection_id connection_id) rows).0

-- `sortedBefore.some((entry, index) => entry !== sortedAfter[index])`, for lists of one length
some_differ : List Text → List Text → Bool
some_differ [] _ = Bool.false
some_differ (x ∷ xs) [] = true
some_differ (x ∷ xs) (y ∷ ys) = if text_eq x y then some_differ xs ys else true

unfoldable pub differs : List Text → List Text → Bool
unfolding some_differ
differs before after =
    if length before == length after
    then some_differ (sort (λ t. t) before) (sort (λ t. t) after)
    else true

-- texts joined by the character 0
with_zeros : List Text → Text
with_zeros [] = []
with_zeros (t ∷ []) = t
with_zeros (t ∷ u ∷ ts) = t ++ 0 ∷ with_zeros (u ∷ ts)

or_empty : Option Text → Text
or_empty none = []
or_empty (some t) = t

unfoldable pub resource_identity : DiscoveredResource → Text
unfolding with_zeros or_empty
resource_identity r =
    with_zeros (r.gateway_uri ∷ r.name ∷ or_empty r.description ∷ or_empty r.mime_type ∷ [])

-- `resources.sync`: the new rows, and whether a client would notice
unfoldable pub sync_resources : Text → Resources → Resources → Resources × Bool
sync_resources connection_id resources rows =
    let before = find_many (λ r. text_eq r.connection_id connection_id) rows in
    let kept = (delete (λ r. text_eq r.connection_id connection_id) rows).0 in
    (kept ++ resources, differs (map resource_identity before) (map resource_identity resources))

unfoldable pub list_resources : Text → Resources → Resources
list_resources tenant rows =
    sort (λ r. r.gateway_uri) (find_many (λ r. text_eq r.tenant_id tenant) rows)

unfoldable pub find_resource : Text → Text → Resources → Option DiscoveredResource
find_resource tenant uri = find_one (λ r. text_eq r.tenant_id tenant && text_eq r.gateway_uri uri)

unfoldable pub delete_resources : Text → Resources → Resources
delete_resources connection_id rows = (delete (λ r. text_eq r.connection_id connection_id) rows).0

arguments_json : Option Entries → Json
arguments_json none = null
arguments_json (some a) = object a

module _ (stringify : Json → Text) where
  unfoldable pub prompt_identity : DiscoveredPrompt → Text
  unfolding with_zeros or_empty arguments_json
  prompt_identity p =
      with_zeros
        (p.gateway_name ∷ or_empty p.description ∷ stringify (arguments_json p.arguments) ∷ [])

  -- `prompts.sync`
  unfoldable pub sync_prompts : Text → Prompts → Prompts → Prompts × Bool
  sync_prompts connection_id prompts rows =
      let before = find_many (λ p. text_eq p.connection_id connection_id) rows in
      let kept = (delete (λ p. text_eq p.connection_id connection_id) rows).0 in
      (kept ++ prompts, differs (map prompt_identity before) (map prompt_identity prompts))

unfoldable pub list_prompts : Text → Prompts → Prompts
list_prompts tenant rows =
    sort (λ p. p.gateway_name) (find_many (λ p. text_eq p.tenant_id tenant) rows)

unfoldable pub find_prompt : Text → Text → Prompts → Option DiscoveredPrompt
find_prompt tenant name = find_one (λ p. text_eq p.tenant_id tenant && text_eq p.gateway_name name)

unfoldable pub delete_prompts : Text → Prompts → Prompts
delete_prompts connection_id rows = (delete (λ p. text_eq p.connection_id connection_id) rows).0
