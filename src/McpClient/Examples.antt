-- ===== src/McpClient/Examples.antt =====
-- Runs of packages/mcp-client on concrete inputs.
use universal_agent_protocol.Base.{
  ℕ, ltb, if◌then◌else◌, ◌≡◌, refl, ◌≢◌, none, List, [], ◌∷◌, Text, codes, arith,
}
use universal_agent_protocol.McpClient.Sse.{read_sse_events}
use universal_agent_protocol.McpClient.Sse.Chunks.{read_sse_events-chunks}

abbrev whole : List Text
whole = codes "event: ping\ndata: 1\n\ndata: 2\n\n" ∷ []

abbrev pieces : List Text
pieces = codes "event: pi" ∷ codes "ng\ndata: 1\n" ∷ codes "\nda" ∷ codes "ta: 2\n\n" ∷ []

-- ASCII, and a mark for any byte beyond
decode : List ℕ → Text
decode [] = []
decode (b ∷ bs) = (if ltb b 128 then b else 65533) ∷ decode bs

read_sse_events-chunks_example :
    (read_sse_events decode 100 whole ≡ read_sse_events decode 100 pieces)
    × (read_sse_events decode 100 whole ≢ none)
unfolding decode
read_sse_events-chunks_example =
    read_sse_events-chunks decode 100 whole pieces refl refl refl (omega arith)
