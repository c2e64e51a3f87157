-- ===== src/Core/Domain.antt =====
-- packages/core/src/domain.ts: the enumerations of the data model.
use universal_agent_protocol.Base.{Bool, ◌==◌, ℕ}

pub data ConnectionOwnerType : Type 0 where
  user workspace : ConnectionOwnerType

pub data ConnectionStatus : Type 0 where
  pending authorization_required client_credentials_required connected : ConnectionStatus
  connected_non_refreshable reauth_required degraded disabled : ConnectionStatus

pub data RegistrationType : Type 0 where
  cimd dynamic preconfigured user_supplied : RegistrationType

pub data TransportType : Type 0 where
  streamable_http http_sse unknown : TransportType

pub data ToolRiskLevel : Type 0 where
  read_only write destructive external_communication financial : ToolRiskLevel
  administrative unknown : ToolRiskLevel

pub ToolRiskLevel-discrete : Discrete ToolRiskLevel
ToolRiskLevel-discrete = hlevel

abbrev rank : ToolRiskLevel → ℕ
rank ToolRiskLevel.read_only = 0
rank ToolRiskLevel.write = 1
rank ToolRiskLevel.destructive = 2
rank ToolRiskLevel.external_communication = 3
rank ToolRiskLevel.financial = 4
rank ToolRiskLevel.administrative = 5
rank ToolRiskLevel.unknown = 6

-- `===` on risk levels
unfoldable pub level_eq : ToolRiskLevel → ToolRiskLevel → Bool
level_eq a b = rank a == rank b
