-- ===== src/OAuth/WwwAuthenticate.antt =====
-- packages/oauth/src/www-authenticate.ts: WWW-Authenticate challenges. The pattern of the source is
-- matched by hand: a name is as long as it can be, a quoted value ends at its closing quote, and a
-- value with no closing quote is read as a bare one. Characters are UTF-16 units.
pub mod Fuel
use universal_agent_protocol.Base.{
  ℕ, zero, suc, Bool, true, false, not, ◌&&◌, ◌||◌, Option, none, some, List, [], ◌∷◌, ◌++◌, Text,
  codes, text_eq, to_lower, trim_start, leb, ◌==◌, any, length, is_digit, is_lower, is_upper,
  if◌then◌else◌,
}

-- the characters of a name
is_token : ℕ → Bool
is_token c = (is_lower c || is_upper c || is_digit c) || any (λ t. t == c) (codes "!#$%&'*+.^_`|~-")

-- `\s`
unfoldable pub is_space : ℕ → Bool
is_space c =
    (leb 9 c && leb c 13)
    || any (λ s. s == c)
        (32 ∷ 160 ∷ 0x1680 ∷ 0x2028 ∷ 0x2029 ∷ 0x202f ∷ 0x205f ∷ 0x3000 ∷ 0xfeff ∷ [])
    || (leb 0x2000 c && leb c 0x200a)

-- what `.` does not match
unfoldable pub ends_line : ℕ → Bool
ends_line c = any (λ s. s == c) (10 ∷ 13 ∷ 0x2028 ∷ 0x2029 ∷ [])

unfoldable pub take_while : (ℕ → Bool) → Text → Text
take_while p [] = []
take_while p (c ∷ s) = if p c then c ∷ take_while p s else []

in_front : Text → Option (Text × Text) → Option (Text × Text)
in_front pre none = none
in_front pre (some (v, rest)) = some (pre ++ v, rest)

-- the characters up to the closing quote, and what follows it
unfoldable pub quoted : Text → Option (Text × Text)
unfolding in_front
quoted [] = none
quoted (c ∷ []) = if c == b'"' then some ([], []) else none
quoted (c ∷ d ∷ s) =
    let escape = in_front (c ∷ d ∷ []) (quoted s) in
    let plain = in_front (c ∷ []) (quoted (d ∷ s)) in
    if c == b'"'
    then some ([], d ∷ s)
    else if c == b'\\'
    then (if ends_line d then none else escape)
    else plain

-- `[^\s,]`
is_bare : ℕ → Bool
is_bare c = not (is_space c || c == b',')

-- a bare value is not empty
unless_empty : Text → Text → Option (Text × Text)
unless_empty [] rest = none
unless_empty (c ∷ v) rest = some (c ∷ v, rest)

bare : Text → Option (Text × Text)
unfolding is_bare unless_empty
bare s = unless_empty (take_while is_bare s) (trim_start is_bare s)

-- the quotes belong to the value
value : Text → Option (Text × Text)
unfolding bare
value [] = none
value (c ∷ s) =
    if c == b'"'
    then elim (quoted s) [
      | some (v, rest) ↦ some (b'"' ∷ (v ++ b'"' ∷ []), rest)
      | none ↦ bare (c ∷ s)
    ]
    else bare (c ∷ s)

after_equals : Text → Option (Text × Text)
unfolding value
after_equals [] = none
after_equals (c ∷ s) = if c == b'=' then value (trim_start is_space s) else none

-- `\s*=\s*` and a value, if they follow
assigned : Text → Option (Text × Text)
unfolding after_equals
assigned s = after_equals (trim_start is_space s)

-- A match: a name, and the value that is assigned to it.
pub record Token : Type 0 where
  pub name : Text
  pub raw_value : Option Text

with_value : Text → Text → Option (Text × Text) → Token × Text
with_value name rest none = (record { name = name; raw_value = none }, rest)
with_value name rest (some (v, rest')) = (record { name = name; raw_value = some v }, rest')

named : ℕ → Text → Token × Text
unfolding is_token assigned with_value
named c s =
    let rest = trim_start is_token s in with_value (c ∷ take_while is_token s) rest (assigned rest)

-- `tokenPattern.exec`: the next match, and what is behind it
next_token : Text → Option (Token × Text)
unfolding named
next_token [] = none
next_token (c ∷ s) = let later = next_token s in if is_token c then some (named c s) else later

-- the loop over the matches, on fuel
unfoldable pub tokens : ℕ → Text → List Token
unfolding next_token
tokens zero s = []
tokens (suc fuel) s = elim (next_token s) [ none ↦ [] | some (t, rest) ↦ t ∷ tokens fuel rest ]

-- `replace(/\\(.)/gu, "$1")`
unfoldable pub unescape : Text → Text
unescape [] = []
unescape (c ∷ []) = c ∷ []
unescape (c ∷ d ∷ s) =
    let plain = c ∷ unescape (d ∷ s) in
    let escape = d ∷ unescape s in if c == b'\\' && not (ends_line d) then escape else plain

ends_with_quote : Text → Bool
ends_with_quote [] = false
ends_with_quote (c ∷ []) = c == b'"'
ends_with_quote (c ∷ d ∷ s) = ends_with_quote (d ∷ s)

but_last : Text → Text
but_last [] = []
but_last (c ∷ []) = []
but_last (c ∷ d ∷ s) = c ∷ but_last (d ∷ s)

unfoldable pub unquote : Text → Text
unfolding ends_with_quote but_last
unquote [] = []
unquote (c ∷ []) = c ∷ []
unquote (c ∷ d ∷ s) =
    if c == b'"' && ends_with_quote (d ∷ s) then unescape (but_last (d ∷ s)) else c ∷ d ∷ s

pub record Challenge : Type 0 where
  pub scheme : Text
  pub params : List (Text × Text)

unfoldable pub param : Text → List (Text × Text) → Option Text
param key [] = none
param key ((k, v) ∷ ps) = if text_eq k key then some v else param key ps

put_param : Text → Text → List (Text × Text) → List (Text × Text)
put_param key v [] = (key, v) ∷ []
put_param key v ((k, w) ∷ ps) = if text_eq k key then (k, v) ∷ ps else (k, w) ∷ put_param key v ps

-- `params[key] = v`; a text that is assigned to `__proto__` is dropped
set_param : Text → Text → Challenge → Challenge
unfolding put_param
set_param key v c =
    if text_eq key (codes "__proto__") then c else record c { params = put_param key v c.params }

or_bearer : Option Challenge → Challenge
or_bearer none = record { scheme = codes "Bearer"; params = [] }
or_bearer (some c) = c

and_current : Option Challenge → List Challenge
and_current none = []
and_current (some c) = c ∷ []

collect : List Token → Option Challenge → List Challenge
unfolding set_param or_bearer and_current
collect [] current = and_current current
collect (t ∷ ts) current = elim t.raw_value [
  | none ↦ and_current current ++ collect ts (some (record { scheme = t.name; params = [] }))
  | some raw ↦ collect ts (some (set_param (to_lower t.name) (unquote raw) (or_bearer current)))
]

unfoldable pub parse_www_authenticate : Text → List Challenge
unfolding collect
parse_www_authenticate header = collect (tokens (length header) header) none

first : List Challenge → Option Challenge
first [] = none
first (c ∷ cs) = some c

bearer_of : List Challenge → Option Challenge
bearer_of [] = none
bearer_of (c ∷ cs) =
    let later = bearer_of cs in
    if text_eq (to_lower c.scheme) (codes "bearer") then some c else later

unfoldable pub select_bearer_challenge : List Challenge → Option Challenge
unfolding first bearer_of
select_bearer_challenge cs = elim (bearer_of cs) [ some c ↦ some c | none ↦ first cs ]
