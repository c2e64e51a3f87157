-- ===== src/Federation/Discovery/Status.antt =====
-- The status of a connection after a discovery.
use universal_agent_protocol.Base.{
  ℕ, ◌≡◌, ◌≢◌, refl, none, some, Option, Text, text_eq, text_eq_ne, All, arith, [],
}
use universal_agent_protocol.Core.Domain.{ConnectionStatus}
use universal_agent_protocol.Core.Json.{Json, Entries}
use universal_agent_protocol.Core.Errors.{Result, ok, raise, GatewayErrorCode}
use universal_agent_protocol.Storage.Table.Rows.{All-update_raw}
use universal_agent_protocol.Storage.Connections.{UpstreamConnection, Connections, update}
use universal_agent_protocol.Storage.Catalogue.{Tools}
use universal_agent_protocol.Federation.Policy.{ToolPolicy}
use universal_agent_protocol.Federation.Discovery.{
  UpstreamTool, Listing, write_found, write_listing, Discovered, Store, first_of_each, tool_records,
  mark_synced, mark_failed, status_after_success, status_after_failure, write_catalogue,
  sync_catalogue,
}

abbrev pub IsEnabled : UpstreamConnection → Type 0
IsEnabled c = c.status ≢ ConnectionStatus.disabled

status_after_success-ne :
    (s : ConnectionStatus) → status_after_success s ≢ ConnectionStatus.disabled
unfolding status_after_success
status_after_success-ne s e = ground (arith, e)

status_after_failure-ne :
    (code : GatewayErrorCode) → status_after_failure code ≢ ConnectionStatus.disabled
unfolding status_after_failure
status_after_failure-ne code e = ground (arith, e)

module _ (now : ℕ) (id : Text) (f : UpstreamConnection → UpstreamConnection) where
  update-IsEnabled :
      (rows : Connections)
      → ((c : UpstreamConnection) → IsEnabled (f c))
      → All (λ c. c.id ≡ id → IsEnabled c) (update now id f rows)
  unfolding update
  update-IsEnabled rows k =
      All-update_raw (λ c. c.id ≡ id → IsEnabled c) (λ c. text_eq c.id id)
        (λ c. let c' = f c in record c' { updated_at = now }) rows (λ c hit e. k c)
        (λ c miss e. absurd (text_eq_ne c.id id miss e))

module _ (digest : Text → Text) (new_id : ℕ → Text)
    (schema_hash : Option Entries → Option Entries → Option Text → Text) (policy : ToolPolicy)
    (stringify : Json → Text) (code_text : GatewayErrorCode → Text) where
  write_found-IsEnabled :
      (c : UpstreamConnection) (started : ℕ) (l : Listing) (s : Store) (rows : Option Tools)
      → (write_found digest new_id schema_hash policy stringify code_text c started l s rows).1
        ≢ none
      → All
          (λ row. row.id ≡ c.id → IsEnabled row)
          (write_found digest new_id schema_hash policy stringify code_text c started l s
            rows).0.connections
  unfolding write_found write_catalogue mark_synced
  write_found-IsEnabled c started l s none returns = absurd (returns refl)
  write_found-IsEnabled c started l s (some rows) returns =
      update-IsEnabled s.now c.id _ s.connections (λ row. status_after_success-ne c.status)

  write_listing-IsEnabled :
      (c : UpstreamConnection) (started : ℕ) (s : Store) (r : Result Listing)
      → (write_listing digest new_id schema_hash policy stringify code_text c started s r).1 ≢ none
      → All
          (λ row. row.id ≡ c.id → IsEnabled row)
          (write_listing digest new_id schema_hash policy stringify code_text c started s
            r).0.connections
  unfolding write_listing mark_failed
  write_listing-IsEnabled c started s (ok l) returns =
      write_found-IsEnabled c started l s
        (tool_records digest new_id schema_hash policy stringify code_text c started 0 []
          (first_of_each (λ (t : UpstreamTool). t.name) l.tools))
        returns
  write_listing-IsEnabled c started s (raise e) returns =
      update-IsEnabled s.now c.id _ s.connections (λ row. status_after_failure-ne e.code)

  -- After a discovery that returns or throws, no row with the connection's id is disabled, whatever
  -- the rows were before and whatever others have made of them during the discovery.
  pub sync_catalogue-IsEnabled :
      (c : UpstreamConnection) (d : Discovered) (s : Store)
      → (sync_catalogue digest new_id schema_hash policy stringify code_text c d s).1 ≢ none
      → All
          (λ row. row.id ≡ c.id → IsEnabled row)
          (sync_catalogue digest new_id schema_hash policy stringify code_text c d s).0.connections
  unfolding sync_catalogue
  sync_catalogue-IsEnabled c d s returns = write_listing-IsEnabled c s.now _ d.listing returns
