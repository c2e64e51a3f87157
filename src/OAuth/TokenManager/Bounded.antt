-- ===== src/OAuth/TokenManager/Bounded.antt =====
-- How often the token endpoint is asked.
use universal_agent_protocol.Base.{◌≡◌, arith}
use universal_agent_protocol.OAuth.TokenManager.{ConnectionRef, State, require_connection}

require_connection_requests : (ref : ConnectionRef) (s : State) → (require_connection ref s).0 ≡ s
unfolding require_connection
require_connection_requests ref s = ground arith
