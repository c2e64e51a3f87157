-- ===== src/Storage/Connections/Swap.antt =====
-- The two compare-and-swaps of the store succeed for one caller at most.
use universal_agent_protocol.Base.{
  ℕ, ◌≡◌, refl, false, ◌&&◌, Text, text_eq, arith, Bool-cases, inl, inr, some, ◌==◌,
}
use universal_agent_protocol.Storage.Table.Rows.{find_one-update_raw, update_raw_twice}
use universal_agent_protocol.Storage.Connections.{
  Connections, TokenUpdate, apply_update, update_tokens, OAuthTransaction, Transactions, is_unset,
  is_pending, mark_consumed, consume, find_by_state_hash,
}

-- Two token updates that expect the same version of the same connection: whatever the first one
-- did, the second stores nothing and reports so.
pub update_tokens_once :
    (now later : ℕ) (u v : TokenUpdate) (rows : Connections)
    → v.connection_id ≡ u.connection_id
    → v.expected_token_version ≡ u.expected_token_version
    → update_tokens later v (update_tokens now u rows).0 ≡ ((update_tokens now u rows).0, false)
unfolding update_tokens
update_tokens_once now later u v rows same_id same_version =
    let twice =
      update_raw_twice
        (λ c. text_eq c.id u.connection_id && c.token_version == u.expected_token_version)
        (λ c. text_eq c.id v.connection_id && c.token_version == v.expected_token_version)
        (apply_update now u) (apply_update later v) rows (λ r. rw (same_id, same_version))
        (λ r. ground arith) in
    rw twice

-- A transaction is consumed once: after one call of `consume`, a second one with the same id
-- changes nothing and reports false.
pub consume_once :
    (id : Text) (at later : ℕ) (rows : Transactions)
    → consume id later (consume id at rows).0 ≡ ((consume id at rows).0, false)
unfolding consume
consume_once id at later rows =
    let p = λ (t : OAuthTransaction).
      text_eq t.id id && (is_unset t.consumed_at && is_pending t.status) in
    let f = λ (n : ℕ) (t : OAuthTransaction). mark_consumed n t in
    rw (update_raw_twice p p (f at) (f later) rows (λ r. refl) (λ r. ground arith))

-- A consumed transaction is still found under its state, with its id.
pub find-consume :
    (hash id : Text) (at : ℕ) (rows : Transactions) (t : OAuthTransaction)
    → find_by_state_hash hash rows ≡ some t
    → (t' : OAuthTransaction) × (find_by_state_hash hash (consume id at rows).0 ≡ some t')
      × (t'.id ≡ t.id)
unfolding find_by_state_hash consume
find-consume hash id at rows t found =
    let p = λ (r : OAuthTransaction).
      text_eq r.id id && (is_unset r.consumed_at && is_pending r.status) in
    let e =
      find_one-update_raw (λ r. text_eq r.state_hash hash) p (mark_consumed at) rows (λ r. refl) in
    elim (Bool-cases (p t)) [
      | inl hit ↦ (mark_consumed at t, rw (e, found, hit) refl, refl)
      | inr miss ↦ (t, rw (e, found, miss) refl, refl)
    ]
