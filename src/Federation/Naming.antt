-- ===== src/Federation/Naming.antt =====
-- packages/federation/src/naming.ts: aliases, gateway names of tools and prompts, and resource URIs.
-- `digest` stands for `sha256Hex`, which calls the platform's hash.
-- Resources inside results are in Naming/Results.
pub mod Aliases
pub mod Prompts
pub mod Tools
pub mod Results
use universal_agent_protocol.Base.{
  ℕ, zero, suc, ◌+◌, ◌-◌, Bool, true, false, not, ◌&&◌, ◌||◌, List, [], ◌∷◌, ◌++◌, Option, none,
  some, Text, codes, includes, is_digit, is_lower, is_upper, to_lower, trim_start, trim_end,
  index_of, take, drop, length, ltb, leb, ◌==◌, decimal, starts_with, last_code, all, if◌then◌else◌,
}

abbrev pub max_tool_name : ℕ
max_tool_name = 128

abbrev pub max_alias : ℕ
max_alias = 40

-- `[a-z0-9]`
abbrev pub is_alias_edge : ℕ → Bool
is_alias_edge c = is_lower c || is_digit c

-- `[a-z0-9_-]`
abbrev pub is_alias_code : ℕ → Bool
is_alias_code c = is_alias_edge c || (c == b'_' || c == b'-')

-- `replace(/[^class]+/gu, r)`: every run of code units outside the class becomes `r`. `inside`
-- tells that the unit before was replaced too.
replace_runs : (ℕ → Bool) → ℕ → Bool → Text → Text
replace_runs p r inside [] = []
replace_runs p r inside (c ∷ s) =
    let kept = c ∷ replace_runs p r false s in
    let rest = replace_runs p r true s in if p c then kept else if inside then rest else r ∷ rest

or_default : Text → Text → Text
or_default d [] = d
or_default d (c ∷ s) = c ∷ s

unfoldable pub sanitize_alias : Text → Text
unfolding replace_runs or_default
sanitize_alias value = or_default (codes "server") (
    trim_end (λ c. not (is_alias_edge c))
      (take max_alias (
        trim_start (λ c. not (is_alias_edge c))
          (replace_runs is_alias_code b'-' false (to_lower value)))))

abbrev edge_last : Option ℕ → Bool
edge_last none = false
edge_last (some c) = is_alias_edge c

-- `ALIAS_PATTERN`: one unit of the edge class, or two of them round at most 38 of the alias class
unfoldable pub is_valid_alias : Text → Bool
is_valid_alias [] = false
is_valid_alias (c ∷ s) =
    is_alias_edge c && (all is_alias_code s && (edge_last (last_code (c ∷ s)) && leb (length s) 39))

-- `roomFor`
unfoldable pub room_for : Text → Text → Text
unfolding or_default
room_for base suffix =
    or_default (codes "server")
      (trim_end (λ c. not (is_alias_edge c)) (take (max_alias - length suffix) base))

unfoldable pub normalize_tool_segment : Text → Text
unfolding replace_runs or_default
normalize_tool_segment name = or_default (codes "tool") (
    replace_runs
      (λ c. is_lower c || (is_upper c || (is_digit c || (c == b'_' || (c == b'.' || c == b'-')))))
      b'_' false name)

unfoldable pub tool_base : Text → Text → Text
tool_base alias name = take max_tool_name (alias ++ b'.' ∷ normalize_tool_segment name)

module _ (digest : Text → Text) where
  -- the loop of `dedupeAlias` from `suffix` on, with `rounds` rounds left
  unfoldable pub dedupe_from : Text → List Text → ℕ → ℕ → Text
  dedupe_from base taken zero suffix = let d = b'_' ∷ take 6 (digest base) in room_for base d ++ d
  dedupe_from base taken (suc rounds) suffix =
      let rest = dedupe_from base taken rounds (suffix + 1) in
      let tail = b'_' ∷ decimal suffix in
      let candidate = room_for base tail ++ tail in
      if includes taken candidate then rest else candidate

  unfoldable pub dedupe_alias : Text → List Text → Text
  dedupe_alias base taken = if includes taken base then dedupe_from base taken 998 2 else base

  -- the suffix of round `attempt` of `gatewayToolName`
  unfoldable pub tool_suffix : Text → ℕ → Text
  tool_suffix name zero = b'_' ∷ take 8 (digest name)
  tool_suffix name (suc n) = b'_' ∷ (take 8 (digest name) ++ b'_' ∷ decimal (suc n))

  unfoldable pub tool_candidate : Text → Text → ℕ → Text
  unfolding tool_suffix
  tool_candidate base name attempt =
      take (max_tool_name - length (tool_suffix name attempt)) base ++ tool_suffix name attempt

  -- the endless loop of `gatewayToolName`, on fuel
  unfoldable pub tool_loop : Text → Text → List Text → ℕ → ℕ → Option Text
  tool_loop base name taken zero attempt = none
  tool_loop base name taken (suc fuel) attempt =
      let rest = tool_loop base name taken fuel (attempt + 1) in
      if includes taken (tool_candidate base name attempt)
      then rest
      else some (tool_candidate base name attempt)

  unfoldable pub gateway_tool_name : ℕ → Text → Text → List Text → Option Text
  unfolding tool_base tool_loop
  gateway_tool_name fuel alias name taken =
      let rest = tool_loop (tool_base alias name) name taken fuel 0 in
      if includes taken (tool_base alias name) then rest else some (tool_base alias name)

unfoldable pub gateway_prompt_name : Text → Text → Text
gateway_prompt_name alias name = alias ++ b'/' ∷ name

-- `s.slice(0, index)` and `s.slice(index + 1)`, unless the index is -1 or 0
split_at : Text → Option ℕ → Option (Text × Text)
split_at s none = none
split_at s (some zero) = none
split_at s (some (suc i)) = some (take (suc i) s, drop (suc (suc i)) s)

unfoldable pub split_prompt_name : Text → Option (Text × Text)
unfolding split_at
split_prompt_name s = split_at s (index_of b'/' s)

-- `schemeEnd <= 0`
no_scheme : Option ℕ → Bool
no_scheme none = true
no_scheme (some zero) = true
no_scheme (some (suc _)) = false

unfoldable pub gateway_resource_uri : Text → Text → Text
unfolding no_scheme
gateway_resource_uri alias uri =
    if no_scheme (index_of b':' uri)
    then alias ++ (codes "+opaque:" ++ uri)
    else alias ++ b'+' ∷ uri

-- strips the marker that `gatewayResourceUri` adds to a URI with no scheme
strip_opaque : Text × Text → Text × Text
strip_opaque (alias, rest) =
    if starts_with (codes "opaque:") rest then (alias, drop 7 rest) else (alias, rest)

unfoldable pub split_resource_uri : Text → Option (Text × Text)
unfolding split_at strip_opaque
split_resource_uri s = elim (split_at s (index_of b'+' s)) [
  | none ↦ none
  | some r ↦ some (strip_opaque r)
]
