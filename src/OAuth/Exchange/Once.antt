-- ===== src/OAuth/Exchange/Once.antt =====
-- An authorization response reaches the token endpoint only past every check, and once.
use universal_agent_protocol.Base.{
  ◌≡◌, refl, ◌≢◌, ◌<◌, inl, inr, Bool, true, false, ◌&&◌, none, some, Text, arith, leb, Bool-cases,
  Option-cases,
}
use universal_agent_protocol.Core.Errors.{
  Result, raise, GatewayError, gateway_error, GatewayErrorCode,
}
use universal_agent_protocol.Security.Vault.{Envelope}
use universal_agent_protocol.Storage.Connections.{
  UpstreamConnection, get, OAuthTransaction, find_by_state_hash, consume,
}
use universal_agent_protocol.Storage.Connections.Swap.{consume_once, find-consume}
use universal_agent_protocol.OAuth.TokenFailure.{TokenError}
use universal_agent_protocol.OAuth.TokenManager.{
  TokenManagerConfig, Answer, State, M, filled, or_empty,
}
use universal_agent_protocol.OAuth.Exchange.{
  OAuthCallbackInput, CallbackResult, ExchangeState, is_foreign, is_from_other_issuer, send_code,
  after_claim, claim, check_transaction, exchange_code,
}

module _ (vault : Envelope) (config : TokenManagerConfig) (sha256_hex : Text → Text)
    (same_issuer : Text → Text → Bool) (requires_iss : Text → Bool)
    (replace_client : UpstreamConnection → TokenError → M Bool) where
  -- What has to hold for the code to be sent.
  pub record IsAuthorized (callback : OAuthCallbackInput) (s : ExchangeState) : Type 0 where
    pub transaction : OAuthTransaction
    pub known :
        find_by_state_hash (sha256_hex (or_empty callback.state)) s.transactions ≡ some transaction
    pub unexpired : s.manager.now < transaction.expires_at
    pub own : is_foreign callback.acting_user_id transaction ≡ false
    pub from_issuer :
        is_from_other_issuer vault config sha256_hex same_issuer requires_iss replace_client
          callback.iss transaction
        ≡ false
    pub connected : get transaction.tenant_id transaction.connection_id s.manager.connections ≢ none
    pub claimed : (consume transaction.id s.manager.now s.transactions).1 ≡ true

  abbrev exchange :
      OAuthCallbackInput → Answer → ExchangeState → ExchangeState × Result CallbackResult
  exchange = exchange_code vault config sha256_hex same_issuer requires_iss replace_client

  after_claim-transactions :
      (t : OAuthTransaction) (c : UpstreamConnection) (code : Text) (a : Answer) (s : ExchangeState)
      → (after_claim vault config sha256_hex same_issuer requires_iss replace_client t c code a
          s).0.transactions
        ≡ s.transactions
  unfolding after_claim send_code
  after_claim-transactions t c code a s = ground arith

  claim-sent :
      (t : OAuthTransaction) (c : UpstreamConnection) (code : Text) (a : Answer) (s : ExchangeState)
      → (claim vault config sha256_hex same_issuer requires_iss replace_client t c code a
          s).0.exchanges
        ≢ s.exchanges
      → ((consume t.id s.manager.now s.transactions).1 ≡ true)
        × ((claim vault config sha256_hex same_issuer requires_iss replace_client t c code a
              s).0.transactions
            ≡ (consume t.id s.manager.now s.transactions).0)
  unfolding claim
  claim-sent t c code a s sent =
      let (rows, consumed) = consume t.id s.manager.now s.transactions in
      elim (Bool-cases consumed) [
        | inl won ↦
            (won, rw won (after_claim-transactions t c code a (record s { transactions = rows })))
        | inr lost ↦ absurd (sent (rw lost refl))
      ]

  check_transaction-sent :
      (t : OAuthTransaction) (callback : OAuthCallbackInput) (a : Answer) (s : ExchangeState)
      → find_by_state_hash (sha256_hex (or_empty callback.state)) s.transactions ≡ some t
      → (check_transaction vault config sha256_hex same_issuer requires_iss replace_client t
          callback a s).0.exchanges
        ≢ s.exchanges
      → (w : IsAuthorized callback s) × ((check_transaction vault config sha256_hex same_issuer
            requires_iss replace_client t callback a s).0.transactions
          ≡ (consume w.transaction.id s.manager.now s.transactions).0)
  unfolding check_transaction
  check_transaction-sent t callback a s found sent =
      let foreign =
        is_from_other_issuer vault config sha256_hex same_issuer requires_iss replace_client
          callback.iss t in
      elim (Bool-cases (leb t.expires_at s.manager.now)) [
        | inl expired ↦ absurd (sent (ground arith))
        | inr live ↦ elim (Bool-cases (is_foreign callback.acting_user_id t)) [
          | inl stranger ↦ absurd (sent (ground arith))
          | inr owner ↦ elim (Bool-cases foreign) [
            | inl mixed_up ↦ absurd (sent (ground arith))
            | inr honest ↦
                elim (Option-cases (get t.tenant_id t.connection_id s.manager.connections)) [
                  | inl gone ↦ absurd (sent (ground arith))
                  | inr (c, there) ↦
                      let (claimed, rows) =
                        claim-sent t c (or_empty callback.code) a s
                          (λ e. sent (rw (live, owner, honest, there) e)) in
                      (
                        record {
                          transaction = t;
                          known = found;
                          unexpired = ground arith;
                          own = owner;
                          from_issuer = honest;
                          connected = λ e. cc;
                          claimed = claimed;
                        },
                        rw (live, owner, honest, there) rows,
                      )
                ]
          ]
        ]
      ]

  -- A call that sends a code to the token endpoint has passed every check: the state belongs to a
  -- known transaction that is not expired, not another user's and not from another issuer, its
  -- connection is there, and this call is the one that consumes it; the transaction is left consumed.
  pub exchange_code-IsAuthorized :
      (callback : OAuthCallbackInput) (a : Answer) (s : ExchangeState)
      → (exchange callback a s).0.exchanges ≢ s.exchanges
      → (w : IsAuthorized callback s) × ((exchange callback a s).0.transactions
          ≡ (consume w.transaction.id s.manager.now s.transactions).0)
  unfolding exchange_code
  exchange_code-IsAuthorized callback a s sent = elim (Bool-cases (filled callback.error)) [
    | inl refused ↦ absurd (sent (ground arith))
    | inr clean ↦ elim (Bool-cases (filled callback.state && filled callback.code)) [
      | inr missing ↦ absurd (sent (ground arith))
      | inl both ↦
          elim (Option-cases
            (find_by_state_hash (sha256_hex (or_empty callback.state)) s.transactions)) [
              | inl unknown ↦ absurd (sent (ground arith))
              | inr (t, found) ↦
                  let (w, rows) =
                    check_transaction-sent t callback a s found
                      (λ e. sent (rw (clean, both, found) e)) in
                  (w, rw (clean, both, found) rows)
            ]
    ]
  ]

  -- An error, with no code sent and no token touched.
  abbrev Refuses : ExchangeState × Result CallbackResult → ExchangeState → Type 0
  Refuses r s =
      (r.0.exchanges ≡ s.exchanges)
      × (r.0.manager ≡ s.manager)
      × (x : GatewayError) × (r.1 ≡ raise x)

  check_transaction-Refuses :
      (t : OAuthTransaction) (callback : OAuthCallbackInput) (a : Answer) (s : ExchangeState)
      → (consume t.id s.manager.now s.transactions).1 ≡ false
      → Refuses
          (check_transaction vault config sha256_hex same_issuer requires_iss replace_client t
            callback a s)
          s
  unfolding check_transaction claim
  check_transaction-Refuses t callback a s spent =
      let foreign =
        is_from_other_issuer vault config sha256_hex same_issuer requires_iss replace_client
          callback.iss t in
      elim (Bool-cases (leb t.expires_at s.manager.now)) [
        | inl expired ↦
            rw expired (refl, refl, gateway_error GatewayErrorCode.invalid_request, refl)
        | inr live ↦ elim (Bool-cases (is_foreign callback.acting_user_id t)) [
          | inl stranger ↦
              rw (live, stranger) (refl, refl, gateway_error GatewayErrorCode.forbidden, refl)
          | inr owner ↦ elim (Bool-cases foreign) [
            | inl mixed_up ↦
                rw (live, owner, mixed_up)
                  (refl, refl, gateway_error GatewayErrorCode.issuer_mismatch, refl)
            | inr honest ↦
                elim (Option-cases (get t.tenant_id t.connection_id s.manager.connections)) [
                  | inl gone ↦
                      rw (live, owner, honest, gone)
                        (refl, refl, gateway_error GatewayErrorCode.not_found, refl)
                  | inr (c, there) ↦
                      rw (live, owner, honest, there, spent)
                        (refl, refl, gateway_error GatewayErrorCode.conflict, refl)
                ]
          ]
        ]
      ]

  exchange_code-Refuses :
      (t : OAuthTransaction) (callback : OAuthCallbackInput) (a : Answer) (s : ExchangeState)
      → find_by_state_hash (sha256_hex (or_empty callback.state)) s.transactions ≡ some t
      → (consume t.id s.manager.now s.transactions).1 ≡ false
      → Refuses (exchange callback a s) s
  unfolding exchange_code
  exchange_code-Refuses t callback a s found spent = elim (Bool-cases (filled callback.error)) [
    | inl refused ↦
        rw refused (refl, refl, gateway_error GatewayErrorCode.token_exchange_failed, refl)
    | inr clean ↦ elim (Bool-cases (filled callback.state && filled callback.code)) [
      | inr missing ↦
          rw (clean, missing) (refl, refl, gateway_error GatewayErrorCode.invalid_request, refl)
      | inl both ↦ rw (clean, both, found) (check_transaction-Refuses t callback a s spent)
    ]
  ]

  -- Once a call has sent a code to the token endpoint, no later call with the same state sends one,
  -- whatever happened to the connections and the clock in between: it raises an error, and leaves
  -- the connections as it finds them.
  pub exchange_code_once :
      (callback again : OAuthCallbackInput) (a a' : Answer) (s : ExchangeState) (m : State)
      → (exchange callback a s).0.exchanges ≢ s.exchanges
      → again.state ≡ callback.state
      → let later = record (exchange callback a s).0 { manager = m } in
        ((exchange again a' later).0.exchanges ≡ later.exchanges)
        × ((exchange again a' later).0.manager ≡ m)
        × (x : GatewayError) × ((exchange again a' later).1 ≡ raise x)
  exchange_code_once callback again a a' s m sent same =
      let (w, rows) = exchange_code-IsAuthorized callback a s sent in
      let hash = sha256_hex (or_empty callback.state) in
      let (t', found, same_id) =
        find-consume hash w.transaction.id s.manager.now s.transactions w.transaction w.known in
      let twice = consume_once w.transaction.id s.manager.now m.now s.transactions in
      exchange_code-Refuses t' again a' (record (exchange callback a s).0 { manager = m })
        (rw (same, rows) found) (rw (same_id, rows, twice) refl)
