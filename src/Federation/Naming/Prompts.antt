-- ===== src/Federation/Naming/Prompts.antt =====
-- Round trips of gateway names: prompts and resource URIs.
use universal_agent_protocol.Base.{
  ℕ, suc, ◌≡◌, refl, ◌≢◌, true, false, [], ◌∷◌, ◌++◌, some, Text, codes, arith, index_of, take,
  drop, starts_with, all, length, Bool-cases, ap, ◌∙◌, inl, inr,
}
use universal_agent_protocol.Federation.Naming.{
  is_alias_code, is_valid_alias, gateway_prompt_name, split_prompt_name, split_at, strip_opaque,
  no_scheme, gateway_resource_uri, split_resource_uri,
}

-- Units that no alias holds.
abbrev Foreign : ℕ → Type 0
Foreign c = is_alias_code c ≡ false

valid_units : (s : Text) → is_valid_alias s ≡ true → (all is_alias_code s ≡ true) × (s ≢ [])
unfolding is_valid_alias
valid_units [] h = cc
valid_units (c ∷ s) h = (ground arith, λ e. cc)

index_of-append :
    (c : ℕ) (s t : Text)
    → Foreign c
    → all is_alias_code s ≡ true
    → index_of c (s ++ c ∷ t) ≡ some (length s)
unfolding index_of
index_of-append c [] t f h = ground arith
index_of-append c (d ∷ s) t f h = ground (arith, index_of-append c s t f)

take-length : (s t : Text) → take (length s) (s ++ t) ≡ s
take-length [] t = refl
take-length (c ∷ s) t = ap (◌∷◌ c) (take-length s t)

drop-length : (s : Text) (c : ℕ) (t : Text) → drop (suc (length s)) (s ++ c ∷ t) ≡ t
drop-length [] c t = refl
drop-length (d ∷ s) c t = drop-length s c t

split_at-append :
    (c : ℕ) (alias rest : Text)
    → Foreign c
    → is_valid_alias alias ≡ true
    → split_at (alias ++ c ∷ rest) (index_of c (alias ++ c ∷ rest)) ≡ some (alias, rest)
unfolding split_at is_valid_alias
split_at-append c [] rest f v = cc
split_at-append c (d ∷ s) rest f v =
    rw (index_of-append c (d ∷ s) rest f (ground arith), split_at)
      (rw (take-length s (c ∷ rest), drop-length s c rest))

-- The gateway's name of a prompt splits into the alias and the upstream's own name, whatever that
-- name is, if the alias is valid.
pub split-gateway_prompt_name :
    (alias name : Text)
    → is_valid_alias alias ≡ true
    → split_prompt_name (gateway_prompt_name alias name) ≡ some (alias, name)
unfolding split_prompt_name gateway_prompt_name
split-gateway_prompt_name alias name v = split_at-append b'/' alias name refl v

split_uri :
    (alias rest : Text)
    → is_valid_alias alias ≡ true
    → split_resource_uri (alias ++ b'+' ∷ rest) ≡ some (strip_opaque (alias, rest))
unfolding split_resource_uri
split_uri alias rest v = rw (split_at-append b'+' alias rest refl v, split_resource_uri)

strip_marked : (alias uri : Text) → strip_opaque (alias, codes "opaque:" ++ uri) ≡ (alias, uri)
unfolding strip_opaque starts_with
strip_marked alias uri = refl

-- Under a valid alias the gateway's URI of a resource splits into the alias and the upstream's URI,
-- unless that URI itself begins with `opaque:`; such a URI comes back without those seven units.
pub split-gateway_resource_uri :
    (alias uri : Text)
    → is_valid_alias alias ≡ true
    → (starts_with (codes "opaque:") uri ≡ false
        → split_resource_uri (gateway_resource_uri alias uri) ≡ some (alias, uri))
      × ((rest : Text)
          → split_resource_uri (gateway_resource_uri alias (codes "opaque:" ++ rest))
            ≡ some (alias, rest))
unfolding gateway_resource_uri strip_opaque index_of
split-gateway_resource_uri alias uri v = (
  λ h. elim (Bool-cases (no_scheme (index_of b':' uri))) [
    | inl missing ↦
        rw missing (split_uri alias (codes "opaque:" ++ uri) v ∙ ap some (strip_marked alias uri))
    | inr there ↦ rw there (split_uri alias uri v ∙ ap some (rw h))
  ],
  λ rest. split_uri alias (codes "opaque:" ++ rest) v ∙ ap some (strip_marked alias rest),
)
