-- ===== src/Federation/Naming/Results/Untouched.antt =====
-- What the rewriting of resource URIs leaves alone.
use universal_agent_protocol.Base.{
  ◌≡◌, refl, ◌≢◌, Option, none, some, Text, text_eq, text_eq_iff, codes, arith, ◌∙◌,
}
use universal_agent_protocol.Core.Json.{
  Json, string, array, object, Items, Entries, no_entries, entry, property, set_property,
}
use universal_agent_protocol.Federation.Naming.{gateway_resource_uri}
use universal_agent_protocol.Federation.Naming.Results.{
  namespace_block, link_uri, map_array, namespace_result_resources,
}

property-set_property_ne :
    (key other : Text) (v : Json) (o : Entries)
    → key ≢ other
    → property other (set_property key v o) ≡ property other o
unfolding property set_property
property-set_property_ne key other v no_entries n = ground (arith, text_eq_iff key other)
property-set_property_ne key other v (entry k w o) n = ground (
  arith,
  text_eq_iff key other,
  text_eq_iff k key,
  text_eq_iff k other,
  property-set_property_ne key other v o n,
)

property-set_property_self :
    (key : Text) (v : Json) (o : Entries) → property key (set_property key v o) ≡ some v
unfolding property set_property
property-set_property_self key v no_entries = ground (arith, text_eq_iff key key)
property-set_property_self key v (entry k w o) =
    ground (arith, text_eq_iff key key, text_eq_iff k key, property-set_property_self key v o)

map_array-property_ne :
    (key other : Text) (f : Items → Items) (found : Option Json) (o : Entries)
    → key ≢ other
    → property other (map_array key f found o) ≡ property other o
unfolding map_array
map_array-property_ne key other f (some (array vs)) o n = property-set_property_ne key other _ o n
map_array-property_ne key other f none o n = refl
map_array-property_ne key other f (some _) o n = refl

-- Rewriting a result changes no property but `content`, `contents` and `messages`.
pub untouched_properties :
    (alias key : Text) (result : Entries)
    → codes "content" ≢ key
    → codes "contents" ≢ key
    → codes "messages" ≢ key
    → property key (namespace_result_resources alias result) ≡ property key result
unfolding namespace_result_resources
untouched_properties alias key result a b c =
    map_array-property_ne (codes "messages") key _ _ _ c
    ∙ (map_array-property_ne (codes "contents") key _ _ _ b
        ∙ map_array-property_ne (codes "content") key _ _ _ a)

-- A resource link keeps every property but its URI, which becomes the gateway's URI for it.
pub namespace_block_link :
    (alias uri : Text) (o : Entries)
    → property (codes "type") o ≡ some (string (codes "resource_link"))
    → property (codes "uri") o ≡ some (string uri)
    → (o' : Entries) × (namespace_block alias (object o) ≡ object o')
      × (property (codes "uri") o' ≡ some (string (gateway_resource_uri alias uri)))
      × ((key : Text) → codes "uri" ≢ key → property key o' ≡ property key o)
unfolding namespace_block link_uri text_eq
namespace_block_link alias uri o t u = (
  set_property (codes "uri") (string (gateway_resource_uri alias uri)) o,
  rw (t, namespace_block) (rw (u, link_uri)),
  property-set_property_self (codes "uri") _ o,
  λ key n. property-set_property_ne (codes "uri") key _ o n,
)
