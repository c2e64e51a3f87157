-- ===== src/Storage/Connections.antt =====
-- packages/core/src/domain.ts and packages/storage/src/sql-store.ts: connections and authorization
-- transactions, and the store's operations on them. `now` is the store's clock. The redacted
-- error message, which is text for people, is left out of the row.
pub mod Swap
use universal_agent_protocol.Base.{
  ℕ, ◌+◌, Bool, true, false, ◌&&◌, not, Option, none, some, List, Text, text_eq, ltb, ◌==◌,
  if◌then◌else◌, select,
}
use universal_agent_protocol.Core.Domain.{ConnectionStatus, ConnectionOwnerType, user, workspace}
use universal_agent_protocol.Core.Errors.{Result, ok, raise, gateway_error, GatewayErrorCode}
use universal_agent_protocol.Storage.Table.{find_one, find_many, update_raw, delete}

pub record UpstreamConnection : Type 0 where
  pub id : Text
  pub tenant_id : Text
  pub owner_type : ConnectionOwnerType
  pub owner_id : Text
  pub mcp_server_id : Text
  pub alias : Text
  pub oauth_issuer_id : Option Text
  pub oauth_client_registration_id : Option Text
  pub granted_scopes : List Text
  pub requested_scopes : List Text
  pub access_token_encrypted : Option Text
  pub refresh_token_encrypted : Option Text
  pub static_headers_encrypted : Option Text
  pub token_type : Option Text
  pub access_token_expires_at : Option ℕ
  pub refresh_token_expires_at : Option ℕ
  pub token_version : ℕ
  pub status : ConnectionStatus
  pub last_refresh_at : Option ℕ
  pub last_success_at : Option ℕ
  pub last_error_code : Option Text
  pub updated_at : ℕ

abbrev pub Connections : Type 0
Connections = List UpstreamConnection

-- `connections.get`: scoped to the tenant
unfoldable pub get : Text → Text → Connections → Option UpstreamConnection
get tenant id = find_one (λ c. text_eq c.id id && text_eq c.tenant_id tenant)

-- `connections.listByTenant`
unfoldable pub list_by_tenant : Text → Connections → Connections
list_by_tenant tenant = find_many (λ c. text_eq c.tenant_id tenant)

unfoldable pub is_visible_to : Text → UpstreamConnection → Bool
is_visible_to user_id c = elim c.owner_type [ workspace ↦ true | user ↦ text_eq c.owner_id user_id ]

-- `connections.listVisible`: the personal connections of others are left out
unfoldable pub list_visible : Text → Text → Connections → Connections
unfolding list_by_tenant
list_visible tenant user_id rows = select (is_visible_to user_id) (list_by_tenant tenant rows)

unfoldable pub find_visible : Text → Text → Text → Connections → Option UpstreamConnection
find_visible tenant user_id id rows = elim (get tenant id rows) [
  | none ↦ none
  | some c ↦ if is_visible_to user_id c then some c else none
]

unfoldable pub find_by_alias : Text → Text → Connections → Option UpstreamConnection
find_by_alias tenant alias = find_one (λ c. text_eq c.tenant_id tenant && text_eq c.alias alias)

-- `connections.delete`, for which the answer is whether a row went
unfoldable pub delete_connection : Text → Text → Connections → Connections × Bool
delete_connection tenant id rows =
    let (rows', removed) = delete (λ c. text_eq c.id id && text_eq c.tenant_id tenant) rows in
    (rows', ltb 0 removed)

-- `connections.update`: the patch and the time of the update, on the row with the id
unfoldable pub update :
    ℕ → Text → (UpstreamConnection → UpstreamConnection) → Connections → Connections
update now id patch rows =
    (update_raw (λ c. text_eq c.id id) (λ c. let c' = patch c in record c' { updated_at = now })
      rows).0

-- `requireFound` behind the update
unfoldable pub require_found : Text → Connections → Result UpstreamConnection
require_found id rows = elim (find_one (λ c. text_eq c.id id) rows) [
  | none ↦ raise (gateway_error GatewayErrorCode.not_found)
  | some c ↦ ok c
]

pub record TokenUpdate : Type 0 where
  pub connection_id : Text
  pub expected_token_version : ℕ
  pub access_token_encrypted : Option Text
  pub refresh_token_encrypted : Option Text
  pub token_type : Option Text
  pub access_token_expires_at : Option ℕ
  pub refresh_token_expires_at : Option ℕ
  pub granted_scopes : List Text
  pub status : ConnectionStatus
  pub last_refresh_at : ℕ

apply_update : ℕ → TokenUpdate → UpstreamConnection → UpstreamConnection
apply_update now u c = record c {
  access_token_encrypted = u.access_token_encrypted;
  refresh_token_encrypted = u.refresh_token_encrypted;
  token_type = u.token_type;
  access_token_expires_at = u.access_token_expires_at;
  refresh_token_expires_at = u.refresh_token_expires_at;
  granted_scopes = u.granted_scopes;
  status = u.status;
  token_version = u.expected_token_version + 1;
  last_refresh_at = some u.last_refresh_at;
  last_error_code = none;
  updated_at = now;
}

-- `connections.updateTokens`: the compare-and-swap on the token version
unfoldable pub update_tokens : ℕ → TokenUpdate → Connections → Connections × Bool
unfolding apply_update
update_tokens now u rows =
    let (rows', changed) =
      update_raw (λ c. text_eq c.id u.connection_id && c.token_version == u.expected_token_version)
        (apply_update now u) rows in
    (rows', changed == 1)

pub data TransactionStatus : Type 0 where
  pending consumed expired failed : TransactionStatus

pub record OAuthTransaction : Type 0 where
  pub id : Text
  pub tenant_id : Text
  pub user_id : Text
  pub connection_id : Text
  pub issuer : Text
  pub state_hash : Text
  pub pkce_verifier_encrypted : Text
  pub requested_scopes : List Text
  pub expires_at : ℕ
  pub consumed_at : Option ℕ
  pub status : TransactionStatus

abbrev pub Transactions : Type 0
Transactions = List OAuthTransaction

is_pending : TransactionStatus → Bool
is_pending pending = true
is_pending _ = false

is_unset : Option ℕ → Bool
is_unset none = true
is_unset (some _) = false

unfoldable pub find_by_state_hash : Text → Transactions → Option OAuthTransaction
find_by_state_hash hash = find_one (λ t. text_eq t.state_hash hash)

mark_consumed : ℕ → OAuthTransaction → OAuthTransaction
mark_consumed at t = record t { consumed_at = some at; status = consumed }

-- `transactions.consume`: true for the one caller that found it pending
unfoldable pub consume : Text → ℕ → Transactions → Transactions × Bool
unfolding is_pending is_unset mark_consumed
consume id at rows =
    let (rows', changed) =
      update_raw (λ t. text_eq t.id id && (is_unset t.consumed_at && is_pending t.status))
        (mark_consumed at) rows in
    (rows', changed == 1)

unfoldable pub fail : Text → Transactions → Transactions
fail id rows = (update_raw (λ t. text_eq t.id id) (λ t. record t { status = failed }) rows).0

unfoldable pub purge_expired : ℕ → Transactions → Transactions × ℕ
purge_expired now rows = delete (λ t. ltb t.expires_at now) rows
