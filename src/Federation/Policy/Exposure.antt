-- ===== src/Federation/Policy/Exposure.antt =====
-- What is exposed at discovery and advertised at initialization agrees with what is allowed later.
use universal_agent_protocol.Base.{
  ℕ, ◌≡◌, refl, ◌≢◌, ◌↔◌, ◌⊎◌, true, false, [], ◌∷◌, Text, arith, starts_with, codes,
}
use universal_agent_protocol.Core.Json.{Json}
use universal_agent_protocol.Federation.Policy.{
  ToolPolicy, allows_server_request, client_capabilities,
}

-- Prefixes that begin differently exclude each other.
prefixes_exclusive :
    (a b : ℕ) (s t m : Text) → a ≢ b → starts_with (a ∷ s) m ≡ true → starts_with (b ∷ t) m ≡ false
unfolding starts_with
prefixes_exclusive a b s t [] n h = refl
prefixes_exclusive a b s t (c ∷ m) n h = ground arith

-- A request from an upstream is allowed exactly if it is a sampling, elicitation or roots request
-- and the gateway advertises that capability to upstreams.
pub allows_server_request_iff :
    (p : ToolPolicy) (m : Text)
    → (allows_server_request p m ≡ true) ↔ (
        (starts_with (codes "sampling/") m ≡ true) × ((client_capabilities p).sampling ≡ true)
        ⊎ (starts_with (codes "elicitation/") m ≡ true)
          × ((client_capabilities p).elicitation ≡ true)
        ⊎ (starts_with (codes "roots/") m ≡ true) × ((client_capabilities p).roots ≡ true))
unfolding allows_server_request client_capabilities
allows_server_request_iff p m =
    let se =
      prefixes_exclusive b's' b'e' (codes "ampling/") (codes "licitation/") m (omega arith) in
    let sr = prefixes_exclusive b's' b'r' (codes "ampling/") (codes "oots/") m (omega arith) in
    let er = prefixes_exclusive b'e' b'r' (codes "licitation/") (codes "oots/") m (omega arith) in
    (λ h. ground arith, λ h. ground arith)
