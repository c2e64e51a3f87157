-- ===== src/OAuth/Examples.antt =====
-- Runs of the token manager on concrete inputs.
use universal_agent_protocol.Base.{
  true, ℕ, zero, suc, ◌≡◌, refl, false, Option, none, some, [], ◌∷◌, Text, codes, ◌==◌,
  if◌then◌else◌, text_eq, All,
}
use universal_agent_protocol.Core.Domain.{ConnectionOwnerType, ConnectionStatus}
use universal_agent_protocol.Core.Errors.{GatewayError, Result, raise, ok}
use universal_agent_protocol.Security.Vault.{Envelope, decrypt, decrypt_optional}
use universal_agent_protocol.Storage.Table.{find_one, update_raw}
use universal_agent_protocol.Storage.Connections.{
  UpstreamConnection, get, OAuthTransaction, TransactionStatus, find_by_state_hash, consume,
}
use universal_agent_protocol.OAuth.TokenFailure.{TokenError, protocol}
use universal_agent_protocol.OAuth.TokenManager.{
  ConnectionRef, TokenManagerConfig, Answer, refused, State, filled, resolve_client_context,
}
use universal_agent_protocol.OAuth.TokenManager.Refresh.{refresh_rounds}
use universal_agent_protocol.OAuth.Revocation.{Revocation, revoke_connection}
use universal_agent_protocol.OAuth.Revocation.Spent.{IsSpent, revoke_connection-IsSpent}
use universal_agent_protocol.OAuth.Exchange.{
  OAuthCallbackInput, CallbackResult, ExchangeState, is_foreign, is_from_other_issuer, send_code,
  after_claim, claim, check_transaction, exchange_code,
}
use universal_agent_protocol.OAuth.Exchange.Once.{
  IsAuthorized, exchange_code-IsAuthorized, exchange_code_once,
}
use universal_agent_protocol.OAuth.TokenManager.Grants.{grants, refresh_rounds-keeps_grants}

-- A vault that marks what it seals.
unmark : Text → Option Text
unmark [] = none
unmark (c ∷ s) = if c == b'#' then some s else none

abbrev vault : Envelope
vault = record {
  seal = λ c t. b'#' ∷ t;
  open_sealed = λ c t. unmark t;
  key_id = λ t. some (codes "k1");
  active_key_id = codes "k1";
}

abbrev config : TokenManagerConfig
config = record { access_token_safety_window_ms = 60; max_refresh_retries = 2 }

abbrev ref : ConnectionRef
ref = record { tenant_id = codes "t1"; connection_id = codes "c1" }

-- the connection with an access token that runs out at a time
abbrev connection : Text → ℕ → UpstreamConnection
connection token expires_at = record {
  id = codes "c1";
  tenant_id = codes "t1";
  owner_type = ConnectionOwnerType.user;
  owner_id = codes "u1";
  mcp_server_id = codes "m1";
  alias = codes "files";
  oauth_issuer_id = some (codes "i1");
  oauth_client_registration_id = some (codes "r1");
  granted_scopes = [];
  requested_scopes = [];
  access_token_encrypted = some token;
  refresh_token_encrypted = some (codes "#R1");
  static_headers_encrypted = none;
  token_type = some (codes "Bearer");
  access_token_expires_at = some expires_at;
  refresh_token_expires_at = none;
  token_version = 3;
  status = ConnectionStatus.connected;
  last_refresh_at = none;
  last_success_at = none;
  last_error_code = none;
  updated_at = 0;
}

abbrev state : State
state = record {
  connections = connection (codes "#A1") 1000 ∷ [];
  issuers = codes "i1" ∷ [];
  registrations = record { id = codes "r1"; encrypted_client_secret = none; invalid = false } ∷ [];
  breakers = [];
  now = 990;
  requests = [];
}

-- the endpoint is out of order at first, and then finds the grant revoked
abbrev error_at : ℕ → TokenError
error_at zero = protocol (codes "temporarily_unavailable") 503
error_at (suc n) = protocol (codes "invalid_grant") 400

abbrev refusals : ℕ → Answer
refusals n = record {
  nonce_demanded = false;
  outcome = refused (error_at n);
  elapsed_ms = 40;
  meanwhile = λ rows. rows;
}

refresh_rounds-keeps_grants_example :
    (grants
        (refresh_rounds vault config 2 0
          (connection (codes "#A1") 1000)
          (codes "R1")
          refusals
          state).0.connections
      ≡ grants state.connections)
    × (x : GatewayError) × ((refresh_rounds vault config 2 0
          (connection (codes "#A1") 1000)
          (codes "R1")
          refusals
          state).1
        ≡ raise x)
refresh_rounds-keeps_grants_example =
    refresh_rounds-keeps_grants vault config 2 0 (connection (codes "#A1") 1000) (codes "R1")
      refusals state (λ n. record { error = error_at n; refuses = refl; quiet = λ rows. refl })

abbrev sha256_hex : Text → Text
sha256_hex t = b'h' ∷ t

abbrev callback : OAuthCallbackInput
callback = record {
  code = some (codes "x");
  state = some (codes "s");
  iss = some (codes "i");
  error = none;
  acting_user_id = some (codes "u1");
}

abbrev transaction : OAuthTransaction
transaction = record {
  id = codes "x1";
  tenant_id = codes "t1";
  user_id = codes "u1";
  connection_id = codes "c1";
  issuer = codes "i";
  state_hash = codes "hs";
  pkce_verifier_encrypted = codes "#v";
  requested_scopes = [];
  expires_at = 600000;
  consumed_at = none;
  status = TransactionStatus.pending;
}

abbrev opened : ExchangeState
opened = record { transactions = transaction ∷ []; manager = state; exchanges = [] }

abbrev exchange :
    OAuthCallbackInput → Answer → ExchangeState → ExchangeState × Result CallbackResult
exchange = exchange_code vault config sha256_hex text_eq (λ iss. true) (λ c e s. (s, ok false))

-- the endpoint refuses the code, and the browser sends the response again
sends : (exchange callback (refusals 0) opened).0.exchanges ≡ codes "x" ∷ []
unfolding exchange_code check_transaction claim after_claim send_code find_by_state_hash find_one
    consume update_raw is_foreign is_from_other_issuer get text_eq filled resolve_client_context
    decrypt decrypt_optional unmark
sends = refl

exchange_code-IsAuthorized_example :
    (w : IsAuthorized vault config sha256_hex text_eq
      (λ iss. true)
      (λ c e s. (s, ok false))
      callback
      opened)
    × ((exchange callback (refusals 0) opened).0.transactions
        ≡ (consume w.transaction.id 990 (transaction ∷ [])).0)
exchange_code-IsAuthorized_example =
    exchange_code-IsAuthorized vault config sha256_hex text_eq (λ iss. true)
      (λ c e s. (s, ok false)) callback (refusals 0) opened (λ e. cc sends)

exchange_code_once_example :
    let later = record (exchange callback (refusals 0) opened).0 { manager = state } in
    ((exchange callback (refusals 1) later).0.exchanges ≡ later.exchanges)
    × ((exchange callback (refusals 1) later).0.manager ≡ state)
    × (x : GatewayError) × ((exchange callback (refusals 1) later).1 ≡ raise x)
exchange_code_once_example =
    exchange_code_once vault config sha256_hex text_eq (λ iss. true) (λ c e s. (s, ok false))
      callback callback (refusals 0) (refusals 1) opened state (λ e. cc sends) refl

abbrev revocation : Revocation
revocation = record { elapsed_ms = 30; meanwhile = λ rows. rows }

-- the connection has no client any more
revoke_connection-IsSpent_example :
    All
      (λ row. row.id ≡ codes "c1" → IsSpent row)
      (revoke_connection vault config ref revocation state).0.connections
unfolding get find_one text_eq filled
revoke_connection-IsSpent_example =
    revoke_connection-IsSpent vault config ref revocation state (connection (codes "#A1") 1000) refl
      refl
