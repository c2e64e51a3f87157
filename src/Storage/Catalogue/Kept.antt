-- ===== src/Storage/Catalogue/Kept.antt =====
-- What a synchronisation leaves to the operator: whether a tool is enabled.
use universal_agent_protocol.Base.{
  ℕ, ◌≡◌, ◌≢◌, inl, inr, Bool, [], ◌∷◌, Text, text_eq, Bool-cases, Option-cases, ◌&&◌, All,
  All-append,
}
use universal_agent_protocol.Storage.Table.{update_raw, delete, insert, find_many}
use universal_agent_protocol.Storage.Catalogue.{
  DiscoveredTool, Tools, ByName, Sync, has_id, get, sync_tool, sync_each, add_tool, change_tool,
  see_tool, drop_stale, sync_tools, by_upstream_name,
}

module _ (P : DiscoveredTool → Type 0) where
  All-rewrite :
      (p : DiscoveredTool → Bool) (f : DiscoveredTool → DiscoveredTool) (rows : Tools)
      → ((t : DiscoveredTool) → P t → P (f t))
      → All P rows
      → All P (update_raw p f rows).0
  unfolding update_raw
  All-rewrite p f [] k h = tt
  All-rewrite p f (t ∷ rows) k (q, h) = elim (Bool-cases (p t)) [
    | inl hit ↦ rw hit (k t q, All-rewrite p f rows k h)
    | inr miss ↦ rw miss (q, All-rewrite p f rows k h)
  ]

  All-delete : (p : DiscoveredTool → Bool) (rows : Tools) → All P rows → All P (delete p rows).0
  unfolding delete
  All-delete p [] h = tt
  All-delete p (t ∷ rows) (q, h) = elim (Bool-cases (p t)) [
    | inl hit ↦ rw hit (All-delete p rows h)
    | inr miss ↦ rw miss (q, All-delete p rows h)
  ]

  All-drop_stale : (m : ByName) (rows : Tools) → All P rows → All P (drop_stale m rows)
  unfolding drop_stale
  All-drop_stale [] rows h = h
  All-drop_stale ((k, t) ∷ m) rows h =
      All-drop_stale m (delete (has_id t.id) rows).0 (All-delete (has_id t.id) rows h)

module _ (id : Text) (enabled : Bool) where
  -- A row with the id is enabled as given.
  abbrev pub IsKept : DiscoveredTool → Type 0
  IsKept t = t.id ≡ id → t.enabled ≡ enabled

  sync_tool-IsKept :
      (at : ℕ) (t : DiscoveredTool) (s : Sync)
      → t.id ≢ id
      → All IsKept s.rows
      → All IsKept (sync_tool at t s).rows
  unfolding sync_tool add_tool change_tool see_tool insert
  sync_tool-IsKept at t s new h = elim (Option-cases (get t.upstream_name s.left)) [
    | inl first ↦ rw (first, sync_tool) (All-append IsKept s.rows _ h ((λ e. absurd (new e)), tt))
    | inr (p, old) ↦
        elim (Bool-cases
          (text_eq p.schema_hash t.schema_hash && text_eq p.gateway_name t.gateway_name)) [
            | inl same ↦
                rw (old, same, sync_tool) (All-rewrite IsKept (has_id p.id) _ s.rows (λ u k. k) h)
            | inr moved ↦
                rw (old, moved, sync_tool) (All-rewrite IsKept (has_id p.id) _ s.rows (λ u k. k) h)
          ]
  ]

  sync_each-IsKept :
      (at : ℕ) (ts : Tools) (s : Sync)
      → All (λ t. t.id ≢ id) ts
      → All IsKept s.rows
      → All IsKept (sync_each at ts s).rows
  unfolding sync_each
  sync_each-IsKept at [] s new h = h
  sync_each-IsKept at (t ∷ ts) s (n, ns) h =
      sync_each-IsKept at ts (sync_tool at t s) ns (sync_tool-IsKept at t s n h)

  -- A synchronisation enables and disables no tool: if the rows with an id are enabled, or disabled,
  -- before it, and the tools that were discovered have other ids, so are the rows with that id that
  -- are left, also where the tool's schema or its risk has changed.
  pub sync_tools-keeps_enabled :
      (connection_id : Text) (tools : Tools) (seen_at : ℕ) (rows : Tools)
      → All (λ t. t.id ≢ id) tools
      → All IsKept rows
      → All IsKept (sync_tools connection_id tools seen_at rows).0
  unfolding sync_tools
  sync_tools-keeps_enabled connection_id tools seen_at rows new h =
      let existing =
        find_many (λ (t : DiscoveredTool). text_eq t.connection_id connection_id) rows in
      let start : Sync = record {
        rows = rows;
        left = by_upstream_name existing;
        result = record { added = []; removed = []; changed = []; unchanged = [] };
      } in
      let s = sync_each seen_at tools start in
      All-drop_stale IsKept s.left s.rows (sync_each-IsKept seen_at tools start new h)
