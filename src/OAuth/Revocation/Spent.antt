-- ===== src/OAuth/Revocation/Spent.antt =====
-- What is left of a connection that was revoked, or whose grant is too narrow.
use universal_agent_protocol.Base.{
  ℕ, ◌≡◌, refl, sym, subst, inl, inr, none, some, List, ◌++◌, Text, text_eq, arith, Option-cases,
  true, All, text_eq_ne,
}
use universal_agent_protocol.Core.Domain.{ConnectionStatus}
use universal_agent_protocol.Core.Errors.{
  raise, GatewayError, Result-cases, gateway_error, GatewayErrorCode,
}
use universal_agent_protocol.Security.Vault.{Envelope}
use universal_agent_protocol.Storage.Table.Rows.{All-update_raw}
use universal_agent_protocol.Storage.Connections.{
  UpstreamConnection, Connections, get, update, require_found,
}
use universal_agent_protocol.OAuth.TokenManager.{
  ConnectionRef, TokenManagerConfig, State, filled, require_connection, unique_strings,
}
use universal_agent_protocol.OAuth.Revocation.{
  Revocation, emptied, widened, try_revoke, revoke_found, revoke_connection,
  require_incremental_authorization,
}

module _ (P : UpstreamConnection → Type 0) where
  -- An update brings about what its patch does, in every row with the id.
  All-update :
      (now : ℕ) (id : Text) (f : UpstreamConnection → UpstreamConnection) (rows : Connections)
      → ((c : UpstreamConnection) → P (record (f c) { updated_at = now }))
      → All (λ c. c.id ≡ id → P c) (update now id f rows)
  unfolding update
  All-update now id f rows k =
      All-update_raw (λ c. c.id ≡ id → P c) (λ c. text_eq c.id id)
        (λ c. let c' = f c in record c' { updated_at = now }) rows (λ c hit e. k c)
        (λ c miss e. absurd (text_eq_ne c.id id miss e))

-- No token is stored, and the owner has to authorize again.
abbrev pub IsSpent : UpstreamConnection → Type 0
IsSpent c =
    (c.access_token_encrypted ≡ none)
    × (c.refresh_token_encrypted ≡ none)
    × (c.status ≡ ConnectionStatus.reauth_required)

module _ (vault : Envelope) (config : TokenManagerConfig) where
  -- Revoking an OAuth connection leaves none of its tokens in the store, and the connection has to
  -- be authorized again, also when the revocation endpoint fails, the client cannot be resolved or
  -- the refresh token cannot be decrypted, and whatever other replicas do meanwhile.
  pub revoke_connection-IsSpent :
      (ref : ConnectionRef) (r : Revocation) (s : State) (c : UpstreamConnection)
      → get ref.tenant_id ref.connection_id s.connections ≡ some c
      → filled c.oauth_issuer_id ≡ true
      → All
          (λ row. row.id ≡ c.id → IsSpent row)
          (revoke_connection vault config ref r s).0.connections
  unfolding revoke_connection revoke_found require_connection emptied
  revoke_connection-IsSpent ref r s c found oauth =
      let after = (try_revoke vault config c r s).0 in
      let spent =
        All-update IsSpent after.now c.id (emptied c) after.connections
          (λ row. (refl, refl, refl)) in
      let rows : (revoke_connection vault config ref r s).0.connections
          ≡ update after.now c.id (emptied c) after.connections =
        ground (
          arith,
          Result-cases (require_found c.id (update after.now c.id (emptied c) after.connections)),
        ) in
      subst (All (λ row. row.id ≡ c.id → IsSpent row)) (sym rows) spent

-- A call whose grant is too narrow ends in an error; of the rows with the connection's id each one
-- has to be authorized again, and asks for the scopes it asked for before and for all that are
-- required.
pub require_incremental-widens :
    (ref : ConnectionRef) (required : List Text) (s : State) (c : UpstreamConnection)
    → get ref.tenant_id ref.connection_id s.connections ≡ some c
    → All
        (λ row.
          row.id ≡ c.id
          → (row.status ≡ ConnectionStatus.reauth_required)
            × (row.requested_scopes ≡ unique_strings (c.requested_scopes ++ required)))
        (require_incremental_authorization {A = Unit {0}} ref required s).0.connections
      × ((e : GatewayError) × ((require_incremental_authorization {A = Unit {0}} ref required s).1
            ≡ raise e))
unfolding require_incremental_authorization require_connection widened
require_incremental-widens ref required s c found =
    let spent =
      All-update
        (λ row.
          (row.status ≡ ConnectionStatus.reauth_required)
          × (row.requested_scopes ≡ unique_strings (c.requested_scopes ++ required)))
        s.now c.id (widened c required) s.connections (λ row. (refl, refl)) in
    let patched = update s.now c.id (widened c required) s.connections in
    let rows : (require_incremental_authorization {A = Unit {0}} ref required s).0.connections
        ≡ patched =
      ground (arith, Result-cases (require_found c.id patched)) in
    (
      subst
          (All (λ row.
            row.id ≡ c.id
            → (row.status ≡ ConnectionStatus.reauth_required)
              × (row.requested_scopes ≡ unique_strings (c.requested_scopes ++ required))))
          (sym rows) spent,
      elim (Result-cases (require_found c.id patched)) [
        | inl (u, e) ↦ (gateway_error GatewayErrorCode.authorization_required, ground arith)
        | inr (x, e) ↦ (x, ground arith)
      ],
    )

-- It throws for a connection that is gone as well.
pub require_incremental-raises :
    {A : Type 0} (ref : ConnectionRef) (required : List Text) (s : State)
    → (e : GatewayError) × ((require_incremental_authorization {A = A} ref required s).1 ≡ raise e)
unfolding require_incremental_authorization require_connection
require_incremental-raises {A} ref required s =
    elim (Option-cases (get ref.tenant_id ref.connection_id s.connections)) [
      | inl gone ↦ (gateway_error GatewayErrorCode.not_found, ground arith)
      | inr (c, there) ↦
          let patched = update s.now c.id (widened c required) s.connections in
          elim (Result-cases (require_found c.id patched)) [
            | inl (u, e) ↦ (gateway_error GatewayErrorCode.authorization_required, ground arith)
            | inr (x, e) ↦ (x, ground arith)
          ]
    ]
