-- ===== src/Federation/Handler/Reads.antt =====
-- The steps of a request that only read the gateway's state.
use universal_agent_protocol.Base.{
  ◌≡◌, refl, sym, ◌∙◌, ap, subst, ◌⊎◌, inl, inr, Option, none, some, Text, text_eq, codes, arith,
  Bool-cases, Option-cases,
}
use universal_agent_protocol.Core.Json.{Json, string, object, Entries, property, set_property}
use universal_agent_protocol.Core.Errors.{gateway_error, GatewayErrorCode}
use universal_agent_protocol.Storage.Table.{find_one}
use universal_agent_protocol.Storage.Catalogue.{DiscoveredPrompt, find_prompt, find_resource}
use universal_agent_protocol.Storage.Connections.{UpstreamConnection, find_by_alias}
use universal_agent_protocol.Federation.Handler.{
  Caller, Thrown, gateway, and_then, text_of, split_uri, Reply, returned, threw, Gateway, G, ◌>>=◌,
  text_param, require_visible_connection, visible_connections, Routed, route_resource,
  route_by_alias, give,
}
use universal_agent_protocol.Federation.Handler.Requests.{
  require_prompt, route_prompt_ref, route_resource_ref, ref_of, require_ref, is_ref_type,
  route_completion_ref,
}
use universal_agent_protocol.Federation.Handler.Served.{IsServed, visible-IsServed}

abbrev not_found : Thrown
not_found = gateway (gateway_error GatewayErrorCode.not_found)

-- A step that only reads: the state is as it was.
abbrev pub Reads : {A : Type 0} → G A → Gateway → Type 0
Reads {A} m g = ((a : A) × (m g ≡ (g, returned a))) ⊎ ((e : Thrown) × (m g ≡ (g, threw e)))

-- The rest behind a step that reads.
pub after-Reads :
    {A B : Type 0} (P : Gateway → Type 0) (m : G A) (f : A → G B) (g : Gateway)
    → Reads m g
    → P g
    → ((a : A) → m g ≡ (g, returned a) → P (f a g).0)
    → P ((m >>= f) g).0
after-Reads P m f g (inl (a, e)) p k = subst (λ r. P (and_then r f).0) (sym e) (k a e)
after-Reads P m f g (inr (x, e)) p k = subst (λ r. P (and_then r f).0) (sym e) p

text_of-Reads : (v : Option Json) (g : Gateway) → Reads (text_of v) g
unfolding text_of
text_of-Reads none g = inr (_, refl)
text_of-Reads (some Json.null) g = inr (_, refl)
text_of-Reads (some (Json.boolean b)) g = inr (_, refl)
text_of-Reads (some (Json.number n)) g = inr (_, refl)
text_of-Reads (some (string t)) g = inl (t, refl)
text_of-Reads (some (Json.array vs)) g = inr (_, refl)
text_of-Reads (some (object o)) g = inr (_, refl)

text_of-returned :
    (v : Option Json) (g : Gateway) (t : Text) → text_of v g ≡ (g, returned t) → v ≡ some (string t)
unfolding text_of
text_of-returned none g t e = absurd (cc)
text_of-returned (some Json.null) g t e = absurd (cc)
text_of-returned (some (Json.boolean b)) g t e = absurd (cc)
text_of-returned (some (Json.number n)) g t e = absurd (cc)
text_of-returned (some (string s)) g t e = cc
text_of-returned (some (Json.array vs)) g t e = absurd (cc)
text_of-returned (some (object o)) g t e = absurd (cc)

pub text_param-Reads :
    (key : Text) (params : Entries) (g : Gateway) → Reads (text_param key params) g
unfolding text_param
text_param-Reads key params g = text_of-Reads (property key params) g

pub text_param-returned :
    (key : Text) (params : Entries) (g : Gateway) (t : Text)
    → text_param key params g ≡ (g, returned t)
    → property key params ≡ some (string t)
unfolding text_param
text_param-returned key params g t e = text_of-returned (property key params) g t e

route_by_alias-Reads :
    (caller : Caller) (uri : Text) (g : Gateway) → Reads (route_by_alias caller uri) g
unfolding route_by_alias
route_by_alias-Reads caller uri g = elim (Option-cases (split_uri uri)) [
  | inl bad ↦ inr (not_found, ground arith)
  | inr ((alias, rest), good) ↦
      elim (Option-cases (find_by_alias caller.tenant_id alias g.manager.connections)) [
        | inl gone ↦ inr (not_found, ground arith)
        | inr (c, there) ↦ inl (record { connection_id = c.id; upstream_uri = rest }, ground arith)
      ]
]

route_resource_unlisted :
    (caller : Caller) (uri : Text) (g : Gateway)
    → find_resource caller.tenant_id uri g.resources ≡ none
    → route_resource caller uri g ≡ route_by_alias caller uri g
unfolding route_resource
route_resource_unlisted caller uri g h = ground arith

same-Reads : {A : Type 0} (m n : G A) (g : Gateway) → m g ≡ n g → Reads n g → Reads m g
same-Reads m n g e (inl (a, h)) = inl (a, e ∙ h)
same-Reads m n g e (inr (x, h)) = inr (x, e ∙ h)

pub route_resource-Reads :
    (caller : Caller) (uri : Text) (g : Gateway) → Reads (route_resource caller uri) g
unfolding route_resource
route_resource-Reads caller uri g =
    elim (Option-cases (find_resource caller.tenant_id uri g.resources)) [
      | inl gone ↦
          same-Reads (route_resource caller uri) (route_by_alias caller uri) g
            (route_resource_unlisted caller uri g gone) (route_by_alias-Reads caller uri g)
      | inr (r, there) ↦
          inl (
            record { connection_id = r.connection_id; upstream_uri = r.upstream_uri },
            ground arith,
          )
    ]

bind-Reads :
    {A B : Type 0} (m : G A) (f : A → G B) (g : Gateway)
    → Reads m g
    → ((a : A) → Reads (f a) g)
    → Reads (m >>= f) g
bind-Reads m f g (inl (a, e)) k = same-Reads (m >>= f) (f a) g (ap (λ r. and_then r f) e) (k a)
bind-Reads m f g (inr (x, e)) k = inr (x, ap (λ r. and_then r f) e)

pub require_prompt-Reads :
    (caller : Caller) (name : Text) (g : Gateway) → Reads (require_prompt caller name) g
unfolding require_prompt
require_prompt-Reads caller name g =
    elim (Option-cases (find_prompt caller.tenant_id name g.prompts)) [
      | inl gone ↦ inr (not_found, ground arith)
      | inr (p, there) ↦ inl (p, ground arith)
    ]

pub visible-Reads :
    (caller : Caller) (id : Text) (g : Gateway)
    → ((c : UpstreamConnection) × (require_visible_connection caller id g ≡ (g, returned c))
        × IsServed caller g.manager.connections c
        × (c.id ≡ id))
      ⊎ ((e : Thrown) × (require_visible_connection caller id g ≡ (g, threw e)))
unfolding require_visible_connection
visible-Reads caller id g =
    elim (Option-cases (find_one (λ r. text_eq r.id id) (visible_connections caller g))) [
      | inl gone ↦ inr (gateway (gateway_error GatewayErrorCode.forbidden), ground arith)
      | inr (c, there) ↦
          let (s, same) = visible-IsServed caller g id c there in inl (c, ground arith, s, same)
    ]

pub Reply-cases :
    {A : Type 0} (r : Reply A) → ((a : A) × (r ≡ returned a)) ⊎ ((e : Thrown) × (r ≡ threw e))
Reply-cases (returned a) = inl (a, refl)
Reply-cases (threw e) = inr (e, refl)

ref_of-Reads : (v : Option Json) (g : Gateway) → Reads (ref_of v) g
unfolding ref_of
ref_of-Reads none g = inr (_, refl)
ref_of-Reads (some Json.null) g = inr (_, refl)
ref_of-Reads (some (Json.boolean b)) g = inr (_, refl)
ref_of-Reads (some (Json.number n)) g = inr (_, refl)
ref_of-Reads (some (string t)) g = inr (_, refl)
ref_of-Reads (some (Json.array vs)) g = inr (_, refl)
ref_of-Reads (some (object o)) g = inl (o, refl)

module _ (caller : Caller) where
  route_prompt_ref-Reads : (ref : Entries) (g : Gateway) → Reads (route_prompt_ref caller ref) g
  unfolding route_prompt_ref
  route_prompt_ref-Reads ref g =
      let shape = λ (p : DiscoveredPrompt). give (record {
        connection_id = p.connection_id;
        ref = set_property (codes "name") (string p.upstream_name) ref;
      }) in
      bind-Reads (text_param (codes "name") ref) (λ name. require_prompt caller name >>= shape) g
        (text_param-Reads (codes "name") ref g)
        (λ name.
          bind-Reads (require_prompt caller name) shape g (require_prompt-Reads caller name g) (λ p.
            inl (
              record {
                connection_id = p.connection_id;
                ref = set_property (codes "name") (string p.upstream_name) ref;
              },
              refl,
            )))

  route_resource_ref-Reads : (ref : Entries) (g : Gateway) → Reads (route_resource_ref caller ref) g
  unfolding route_resource_ref
  route_resource_ref-Reads ref g =
      let shape = λ (r : Routed). give (record {
        connection_id = r.connection_id;
        ref = set_property (codes "uri") (string r.upstream_uri) ref;
      }) in
      bind-Reads (text_param (codes "uri") ref) (λ uri. route_resource caller uri >>= shape) g
        (text_param-Reads (codes "uri") ref g)
        (λ uri.
          bind-Reads (route_resource caller uri) shape g (route_resource-Reads caller uri g) (λ r.
            inl (
              record {
                connection_id = r.connection_id;
                ref = set_property (codes "uri") (string r.upstream_uri) ref;
              },
              refl,
            )))

  pub route_completion_ref-Reads :
      (ref : Entries) (g : Gateway) → Reads (route_completion_ref caller ref) g
  unfolding route_completion_ref
  route_completion_ref-Reads ref g =
      let kind = property (codes "type") ref in
      elim (Bool-cases (is_ref_type (codes "ref/prompt") kind)) [
        | inl prompt ↦
            same-Reads (route_completion_ref caller ref) (route_prompt_ref caller ref) g
              (rw prompt refl) (route_prompt_ref-Reads ref g)
        | inr no_prompt ↦ elim (Bool-cases (is_ref_type (codes "ref/resource") kind)) [
          | inl resource ↦
              same-Reads (route_completion_ref caller ref) (route_resource_ref caller ref) g
                (rw (no_prompt, resource) refl) (route_resource_ref-Reads ref g)
          | inr other ↦
              inr (
                gateway (gateway_error GatewayErrorCode.invalid_request),
                rw (no_prompt, other) refl,
              )
        ]
      ]

pub require_ref-Reads : (params : Entries) (g : Gateway) → Reads (require_ref params) g
unfolding require_ref
require_ref-Reads params g = ref_of-Reads (property (codes "ref") params) g
