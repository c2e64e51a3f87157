-- ===== src/Federation/Naming/Results.antt =====
-- packages/federation/src/naming.ts: the resource URIs inside a result.
pub mod Untouched
use universal_agent_protocol.Base.{
  Bool, true, false, Option, none, some, Text, text_eq, codes, if◌then◌else◌,
}
use universal_agent_protocol.Core.Json.{
  Json, null, string, array, object, Items, no_items, item, Entries, property, set_property,
}
use universal_agent_protocol.Federation.Naming.{gateway_resource_uri}

-- `block["type"] === t`
abbrev has_type : Text → Option Json → Bool
has_type t (some (string s)) = text_eq s t
has_type t _ = false

with_uri : Text → Entries → Option Json → Json
unfolding set_property
with_uri alias o (some (string uri)) =
    object (set_property (codes "uri") (string (gateway_resource_uri alias uri)) o)
with_uri alias o _ = object o

unfoldable pub namespace_contents : Text → Option Json → Json
unfolding with_uri
namespace_contents alias (some (object o)) = with_uri alias o (property (codes "uri") o)
namespace_contents alias (some v) = v
namespace_contents alias none = null

link_uri : Text → Entries → Option Json → Option Json
link_uri alias o (some (string uri)) =
    some (object (set_property (codes "uri") (string (gateway_resource_uri alias uri)) o))
link_uri alias o _ = none

embedded : Text → Entries → Json
unfolding namespace_contents
embedded alias o =
    if has_type (codes "resource") (property (codes "type") o)
    then object (
        set_property (codes "resource") (namespace_contents alias (property (codes "resource") o))
          o)
    else object o

namespace_record : Text → Entries → Json
unfolding link_uri embedded
namespace_record alias o =
    if has_type (codes "resource_link") (property (codes "type") o)
    then elim (link_uri alias o (property (codes "uri") o)) [
      | some linked ↦ linked
      | none ↦ embedded alias o
    ]
    else embedded alias o

unfoldable mutual
  unfolding namespace_record

  pub namespace_block : Text → Json → Json
  namespace_block alias (array bs) = array (namespace_blocks alias bs)
  namespace_block alias (object o) = namespace_record alias o
  namespace_block alias v = v

  pub namespace_blocks : Text → Items → Items
  namespace_blocks alias no_items = no_items
  namespace_blocks alias (item b bs) = item (namespace_block alias b) (namespace_blocks alias bs)

each_contents : Text → Items → Items
each_contents alias no_items = no_items
each_contents alias (item v vs) = item (namespace_contents alias (some v)) (each_contents alias vs)

namespace_message : Text → Json → Json
namespace_message alias (object o) = elim (property (codes "content") o) [
  | some c ↦ object (set_property (codes "content") (namespace_block alias c) o)
  | none ↦ object o
]
namespace_message alias v = v

each_message : Text → Items → Items
unfolding namespace_message
each_message alias no_items = no_items
each_message alias (item v vs) = item (namespace_message alias v) (each_message alias vs)

-- `if (Array.isArray(out[key])) out[key] = out[key].map(f)`
map_array : Text → (Items → Items) → Option Json → Entries → Entries
map_array key f (some (array vs)) o = set_property key (array (f vs)) o
map_array key f _ o = o

abbrev map_at : Text → (Items → Items) → Entries → Entries
map_at key f o = map_array key f (property key o) o

unfoldable pub namespace_result_resources : Text → Entries → Entries
unfolding map_array each_contents each_message
namespace_result_resources alias result = map_at (codes "messages") (each_message alias) (
    map_at (codes "contents") (each_contents alias)
      (map_at (codes "content") (namespace_blocks alias) result))
