-- ===== src/OAuth/TokenFailure.antt =====
-- packages/oauth/src/protocol-error.ts: what the gateway makes of a failed token request. Any
-- error that is no OAuth protocol error is `other`.
use universal_agent_protocol.Base.{ℕ, ◌||◌, Text, text_eq, codes, leb, if◌then◌else◌}

pub data TokenError : Type 0 where
  protocol : (error : Text) (status : ℕ) → TokenError
  other : TokenError

pub data RefreshFailureKind : Type 0 where
  reauth_required client_invalid insufficient_scope transient : RefreshFailureKind

unfoldable pub classify_token_failure : TokenError → RefreshFailureKind
classify_token_failure other = transient
classify_token_failure (protocol e status) =
    if text_eq e (codes "invalid_grant")
      || (text_eq e (codes "unauthorized_client") || text_eq e (codes "access_denied"))
    then reauth_required
    else if text_eq e (codes "invalid_client")
    then client_invalid
    else if text_eq e (codes "insufficient_scope") || text_eq e (codes "invalid_scope")
    then insufficient_scope
    else if text_eq e (codes "server_error") || text_eq e (codes "temporarily_unavailable")
    then transient
    else if leb 500 status
    then transient
    else reauth_required
