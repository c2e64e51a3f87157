-- ===== src/OAuth/TokenManager/Grants.antt =====
-- A refresh that fails loses no token, and one that is no longer needed is not made.
use universal_agent_protocol.Base.{
  ℕ, zero, suc, ◌+◌, ◌≡◌, refl, ◌∙◌, Option, some, List, map, Text, text_eq, codes, arith,
  Bool-cases, inl, inr,
}
use universal_agent_protocol.Core.Domain.{ConnectionStatus}
use universal_agent_protocol.Core.Errors.{Result, raise, GatewayError, Result-cases}
use universal_agent_protocol.Security.Breaker
use universal_agent_protocol.Security.Vault.{Envelope}
use universal_agent_protocol.Storage.Table.Rows.{map-update_raw}
use universal_agent_protocol.Storage.Connections.{UpstreamConnection, Connections, update}
use universal_agent_protocol.OAuth.TokenFailure.{
  TokenError, RefreshFailureKind, reauth_required, client_invalid, insufficient_scope, transient,
  classify_token_failure,
}
use universal_agent_protocol.OAuth.TokenManager.{
  TokenManagerConfig, Answer, refused, State, mark_reauth_required, attempt, threw, with_breaker,
  sent,
}
use universal_agent_protocol.OAuth.TokenManager.Refresh.{
  apply_refresh_failure, give_up, is_transient, settle_last, settle_round, refresh_rounds,
  invalidate_client, refresh_error, degraded_from,
}

-- What must not be lost of a connection: who it is, its tokens and their version.
abbrev pub Grant : Type 0
Grant = Text × Text × Option Text × Option Text × ℕ

abbrev pub grant : UpstreamConnection → Grant
grant c = (c.id, c.tenant_id, c.access_token_encrypted, c.refresh_token_encrypted, c.token_version)

abbrev pub grants : Connections → List Grant
grants = map grant

-- The endpoint refuses, and other replicas meanwhile leave every token alone.
pub record IsRefusal (a : Answer) : Type 0 where
  pub error : TokenError
  pub refuses : a.outcome ≡ refused error
  pub quiet : (rows : Connections) → grants (a.meanwhile rows) ≡ grants rows

update-grants :
    (now : ℕ) (id : Text) (f : UpstreamConnection → UpstreamConnection) (rows : Connections)
    → ((r : UpstreamConnection) → grant (f r) ≡ grant r)
    → grants (update now id f rows) ≡ grants rows
unfolding update
update-grants now id f rows k =
    map-update_raw grant (λ c. text_eq c.id id)
      (λ c. let c' = f c in record c' { updated_at = now }) rows (λ r. k r)

mark-grants :
    (c : UpstreamConnection) (code : Text) (s : State)
    → grants (mark_reauth_required c code s).0.connections ≡ grants s.connections
unfolding mark_reauth_required
mark-grants c code s = ground (
  arith,
  update-grants s.now c.id
      (λ r. record r { status = ConnectionStatus.reauth_required; last_error_code = some code })
      s.connections (λ r. refl),
)

invalidate-connections :
    (id : Option Text) (s : State) → (invalidate_client id s).0.connections ≡ s.connections
unfolding invalidate_client
invalidate-connections id s = ground arith

failure-grants :
    (c : UpstreamConnection) (kind : RefreshFailureKind) (e : TokenError) (s : State)
    → grants (apply_refresh_failure c kind e s).0.connections ≡ grants s.connections
unfolding apply_refresh_failure
failure-grants c reauth_required e s = mark-grants c _ s
failure-grants c insufficient_scope e s = mark-grants c _ s
failure-grants c client_invalid e s =
    let id = c.oauth_client_registration_id in
    ground (
      arith,
      invalidate-connections id s,
      mark-grants c (codes "invalid_client") (invalidate_client id s).0,
    )
failure-grants c transient e s = ground (
  arith,
  update-grants s.now c.id
      (λ r. record r {
        status = degraded_from c.status;
        last_error_code = some (codes "temporarily_unavailable");
      })
      s.connections (λ r. refl),
)

-- A refresh that is given up raises, and keeps every grant.
give_up-grants :
    (c : UpstreamConnection) (e : TokenError) (s : State)
    → (grants (give_up c e s).0.connections ≡ grants s.connections)
      × (x : GatewayError) × ((give_up c e s).1 ≡ raise x)
unfolding give_up
give_up-grants c e s =
    let s' = with_breaker c.id (λ b. Breaker.record_failure b s.now) s in
    let kind = classify_token_failure e in
    elim (Result-cases (apply_refresh_failure c kind e s').1) [
      | inl (u, r) ↦ (ground (arith, failure-grants c kind e s'), refresh_error kind, ground arith)
      | inr (x, r) ↦ (ground (arith, failure-grants c kind e s'), x, ground arith)
    ]

module _ (c : UpstreamConnection) (rows : List Grant) where
  abbrev Kept : State × Result Text → Type 0
  Kept r = (grants r.0.connections ≡ rows) × (x : GatewayError) × (r.1 ≡ raise x)

  settle_last-Kept :
      (s : State) (e : TokenError) → grants s.connections ≡ rows → Kept (settle_last c (s, threw e))
  unfolding settle_last
  settle_last-Kept s e h = let (k, x, r) = give_up-grants c e s in (k ∙ h, x, r)

  settle_round-Kept :
      (again : State × Result Text) (s : State) (e : TokenError)
      → Kept again
      → grants s.connections ≡ rows
      → Kept (settle_round c again (s, threw e))
  unfolding settle_round
  settle_round-Kept again s e k h = elim (Bool-cases (is_transient (classify_token_failure e))) [
    | inl retry ↦ rw retry k
    | inr final ↦ let (kept, x, r) = give_up-grants c e s in rw final (kept ∙ h, x, r)
  ]

module _ (vault : Envelope) (config : TokenManagerConfig) where
  attempt-refused :
      (c : UpstreamConnection) (token : Text) (a : Answer) (s : State)
      → (r : IsRefusal a)
      → (s' : State) × (attempt vault config c token a s ≡ (s', threw r.error))
        × (grants s'.connections ≡ grants s.connections)
  unfolding attempt
  attempt-refused c token a s r = (sent token a s, ground arith, r.quiet s.connections)

  -- While the token endpoint refuses every attempt, for whatever reasons, and other replicas leave
  -- tokens alone, a refresh ends in an error, and no connection loses a token, whatever the retries:
  -- the access and refresh tokens and their versions of all connections are what they were.
  pub refresh_rounds-keeps_grants :
      (left i : ℕ) (c : UpstreamConnection) (token : Text) (answers : ℕ → Answer) (s : State)
      → ((n : ℕ) → IsRefusal (answers n))
      → (grants (refresh_rounds vault config left i c token answers s).0.connections
          ≡ grants s.connections)
        × (x : GatewayError) × ((refresh_rounds vault config left i c token answers s).1 ≡ raise x)
  unfolding refresh_rounds
  refresh_rounds-keeps_grants zero i c token answers s h =
      let (s', e, k) = attempt-refused c token (answers i) s (h i) in
      rw e (settle_last-Kept c (grants s.connections) s' (h i).error k)
  refresh_rounds-keeps_grants (suc left) i c token answers s h =
      let (s', e, k) = attempt-refused c token (answers i) s (h i) in
      let (k', x, r) = refresh_rounds-keeps_grants left (i + 1) c token answers s' h in
      rw e (
        settle_round-Kept c (grants s.connections)
          (refresh_rounds vault config left (i + 1) c token answers s') s' (h i).error
          (k' ∙ k, x, r) k)
