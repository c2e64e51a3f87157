-- ===== src/Core/Examples.antt =====
-- Runs of packages/core on concrete inputs.
use universal_agent_protocol.Base.{codes}
use universal_agent_protocol.Core.Json.{Json, null, string, object, no_entries, entry}

abbrev failure : Json
failure = object (
    entry (codes "jsonrpc") (string (codes "2.0"))
      (entry (codes "id") null (entry (codes "error") (object no_entries) no_entries)))
