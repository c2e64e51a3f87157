-- ===== src/OAuth/InsufficientScope.antt =====
-- packages/oauth/src/insufficient-scope.ts, and parseScopes of packages/core/src/text.ts: whether a
-- failure means that a grant is too narrow, and for which scopes. A failure is seen by its challenge
-- header, if it has one, and its message.
use universal_agent_protocol.Base.{
  ℕ, Bool, not, ◌||◌, Option, none, some, List, [], ◌∷◌, ◌++◌, Text, codes, text_eq, starts_with,
  select, trim_start, drop, length, any, ◌==◌, if◌then◌else◌,
}
use universal_agent_protocol.OAuth.WwwAuthenticate.{
  is_space, parse_www_authenticate, select_bearer_challenge, Challenge, param,
}

separates : ℕ → Bool
separates c = is_space c || c == b','

-- the word before, if there is one
and_word : Text → List Text → List Text
and_word [] words = words
and_word (c ∷ w) words = (c ∷ w) ∷ words

words_from : Text → Text → List Text
unfolding separates and_word
words_from word [] = and_word word []
words_from word (c ∷ s) =
    let behind = words_from [] s in
    let longer = words_from (word ++ c ∷ []) s in
    if separates c then and_word word behind else longer

-- `parseScopes`
unfoldable pub parse_scopes : Text → List Text
unfolding words_from
parse_scopes value = words_from [] value

-- what stands behind the first occurrence
behind_first : Text → Text → Option Text
behind_first needle [] = none
behind_first needle (c ∷ s) =
    let later = behind_first needle s in
    if starts_with needle (c ∷ s) then some (drop (length needle) (c ∷ s)) else later

-- what stands before the next occurrence
before_next : Text → Text → Text
before_next needle [] = []
before_next needle (c ∷ s) =
    let later = before_next needle s in if starts_with needle (c ∷ s) then [] else c ∷ later

abbrev marker : Text
marker = codes "insufficient_scope"

or_empty : Option Text → Text
or_empty none = []
or_empty (some t) = t

-- the scopes that a message names behind the marker
from_message : Text → Option (List Text)
unfolding separates behind_first before_next
from_message message = elim (behind_first marker message) [
  | none ↦ none
  | some rest ↦
      let trailing = trim_start (λ c. separates c || c == b':') (before_next marker rest) in
      some (parse_scopes (select (λ c. not (any (λ q. q == c) (codes "\"'."))) trailing))
]

challenged : Option Challenge → Option (List Text)
unfolding or_empty
challenged none = none
challenged (some c) =
    if text_eq (or_empty (param (codes "error") c.params)) marker
    then some (parse_scopes (or_empty (param (codes "scope") c.params)))
    else none

-- the bearer challenge of the header
from_header : Option Text → Option (List Text)
unfolding challenged
from_header none = none
from_header (some header) = challenged (select_bearer_challenge (parse_www_authenticate header))

-- `insufficientScopeFrom`: none for some other failure
unfoldable pub insufficient_scope_from : Option Text → Text → Option (List Text)
unfolding from_header from_message
insufficient_scope_from header message = elim (from_header header) [
  | some scopes ↦ some scopes
  | none ↦ from_message message
]
