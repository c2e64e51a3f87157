-- ===== src/Security/Vault.antt =====
-- packages/security/src/vault.ts. The envelope encryption of envelope.ts beside it, which is not
-- modelled, is a parameter: `seal` and `open` of a context, which names the tenant and the purpose,
-- and `key_id`, the key that a ciphertext names, or nothing where it does not decode.
use universal_agent_protocol.Base.{Bool, not, Option, none, some, Text, text_eq}
use universal_agent_protocol.Core.Errors.{Result, ok, raise, gateway_error, GatewayErrorCode}

pub data Purpose : Type 0 where
  access_token refresh_token client_secret registration_access_token : Purpose
  pkce_verifier static_headers dpop_key : Purpose

pub record EncryptionContext : Type 0 where
  pub tenant_id : Text
  pub purpose : Purpose

pub record Envelope : Type 0 where
  pub seal : EncryptionContext → Text → Text
  pub open_sealed : EncryptionContext → Text → Option Text
  pub key_id : Text → Option Text
  pub active_key_id : Text

module _ (e : Envelope) where
  unfoldable pub encrypt : EncryptionContext → Text → Text
  encrypt c plaintext = e.seal c plaintext

  unfoldable pub decrypt : EncryptionContext → Text → Result Text
  decrypt c ciphertext = elim (e.open_sealed c ciphertext) [
    | none ↦ raise (gateway_error GatewayErrorCode.internal)
    | some plaintext ↦ ok plaintext
  ]

  unfoldable pub decrypt_optional : EncryptionContext → Option Text → Result (Option Text)
  unfolding decrypt
  decrypt_optional c none = ok none
  decrypt_optional c (some ciphertext) = elim (decrypt c ciphertext) [
    | raise x ↦ raise x
    | ok plaintext ↦ ok (some plaintext)
  ]

  -- Re-encrypts under the active key.
  unfoldable pub rewrap : EncryptionContext → Text → Result Text
  unfolding decrypt encrypt
  rewrap c ciphertext = elim (decrypt c ciphertext) [
    | raise x ↦ raise x
    | ok plaintext ↦ ok (encrypt c plaintext)
  ]

  -- An envelope that does not decode throws.
  unfoldable pub needs_rewrap : Text → Result Bool
  needs_rewrap ciphertext = elim (e.key_id ciphertext) [
    | none ↦ raise (gateway_error GatewayErrorCode.internal)
    | some id ↦ ok (not (text_eq id e.active_key_id))
  ]
