-- ===== src/Federation/Discovery/Names.antt =====
-- The gateway names that a discovery gives to tools.
use universal_agent_protocol.Base.{
  ℕ, suc, ◌≡◌, refl, ap, ◌<◌, ◌≤◌, ◌+◌, ◌^◌, false, Bool-cases, inl, inr, Option, some, List, [],
  ◌∷◌, map, Text, includes, length, arith,
}
use universal_agent_protocol.Core.Json.{Json, Entries}
use universal_agent_protocol.Core.Errors.{ok, GatewayErrorCode}
use universal_agent_protocol.Storage.Connections.{UpstreamConnection}
use universal_agent_protocol.Storage.Catalogue.{DiscoveredTool, Tools, ToolSyncResult}
use universal_agent_protocol.Federation.Naming.Tools.{gateway_tool_name_total}
use universal_agent_protocol.Federation.Policy.{ToolPolicy}
use universal_agent_protocol.Federation.Discovery.{
  UpstreamTool, CatalogueChange, Discovered, Listing, Store, first_from, first_of_each, tool_record,
  named, write_found, write_listing, write_catalogue, tool_records, sync_catalogue,
}

-- Each name is short, and differs from the taken ones and from those before it.
abbrev pub HasFreshNames : List Text → Tools → Type 0
HasFreshNames taken [] = Unit
HasFreshNames taken (r ∷ rs) =
    (includes taken r.gateway_name ≡ false)
    × (length r.gateway_name ≤ 128)
    × HasFreshNames (r.gateway_name ∷ taken) rs

module _ {T : Type 0} (identity : T → Text) where
  length-first_from :
      (seen : List Text) (xs : List T) → length (first_from identity seen xs) ≤ length xs
  unfolding first_from
  length-first_from seen [] = omega arith
  length-first_from seen (x ∷ xs) = elim (Bool-cases (includes seen (identity x))) [
    | inl old ↦ rw old (omega (arith, length-first_from seen xs))
    | inr new ↦ rw new (omega (arith, length-first_from (identity x ∷ seen) xs))
  ]

  pub length-first_of_each : (xs : List T) → length (first_of_each identity xs) ≤ length xs
  unfolding first_of_each
  length-first_of_each xs = length-first_from [] xs

module _ (digest : Text → Text) (new_id : ℕ → Text)
    (schema_hash : Option Entries → Option Entries → Option Text → Text) (policy : ToolPolicy)
    (stringify : Json → Text) (code_text : GatewayErrorCode → Text) where
  -- Every list of tools gets records, one for each tool and in the same order, under gateway names
  -- of at most 128 code units, which differ from each other and from the names taken before, as long
  -- as tools and taken names are fewer than 10 ^ 20.
  pub tool_records_total :
      (c : UpstreamConnection) (started n : ℕ) (taken : List Text) (ts : List UpstreamTool)
      → length taken + length ts < 10 ^ 20
      → (rows : Tools) × (tool_records digest new_id schema_hash policy stringify code_text c
            started n taken ts
          ≡ some rows)
        × (map (λ (r : DiscoveredTool). r.upstream_name) rows
            ≡ map (λ (t : UpstreamTool). t.name) ts)
        × HasFreshNames taken rows
  unfolding tool_records named
  tool_records_total c started n taken [] h = ([], refl, refl, tt)
  tool_records_total c started n taken (t ∷ ts) h =
      let (name, e, free, short) =
        gateway_tool_name_total digest c.alias t.name taken (omega arith) in
      let (rows, e', names, fresh) =
        tool_records_total c started (suc n) (name ∷ taken) ts (omega arith) in
      (
        tool_record digest new_id schema_hash policy stringify code_text c started n name t ∷ rows,
        rw (e, e') refl,
        ap (λ ns. t.name ∷ ns) names,
        (free, short, fresh),
      )

  pub sync_catalogue_total :
      (c : UpstreamConnection) (d : Discovered) (s : Store) (l : Listing)
      → d.listing ≡ ok l
      → length l.tools < 10 ^ 20
      → (r : ToolSyncResult × CatalogueChange) × ((sync_catalogue digest new_id schema_hash policy
            stringify code_text c d s).1
          ≡ some (ok r))
  unfolding sync_catalogue write_listing write_found
  sync_catalogue_total c d s l listed h =
      let (rows, e, _, _) =
        tool_records_total c s.now 0 [] (first_of_each (λ (t : UpstreamTool). t.name) l.tools)
          (omega (arith, length-first_of_each (λ (t : UpstreamTool). t.name) l.tools)) in
      (
        (write_catalogue digest new_id schema_hash policy stringify code_text c s.now rows l
            (record s { connections = d.meanwhile s.connections; now = s.now + d.elapsed_ms })).1,
        rw (listed, e) refl,
      )
