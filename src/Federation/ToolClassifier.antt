-- ===== src/Federation/ToolClassifier.antt =====
-- packages/federation/src/tool-classifier.ts. `/\b(w1|...|wn)\b/iu` over words of word characters
-- finds a match exactly if a maximal run of word characters is one of the words, in any case; the
-- model tests the runs. Letters outside ASCII, which `iu` folds into ASCII for two letters, are not
-- modelled.
pub mod Ranking
use universal_agent_protocol.Base.{
  ℕ, Bool, true, false, not, ◌&&◌, ◌||◌, List, [], ◌∷◌, ◌++◌, Option, none, some, Text, codes,
  includes, any, is_digit, is_lower, is_upper, to_lower, split_on, join, trim_start, trim_end, ◌==◌,
  if◌then◌else◌,
}
use universal_agent_protocol.Core.Domain.{
  ToolRiskLevel, read_only, write, destructive, external_communication, financial, administrative,
  unknown,
}
use universal_agent_protocol.Core.Json.{Json, boolean, Entries, property}

-- The words of each pattern, in the order of `PATTERNS`.
abbrev pub destructive_words : List Text
destructive_words =
    codes "delete"
    ∷ codes "destroy"
    ∷ codes "drop"
    ∷ codes "purge"
    ∷ codes "remove"
    ∷ codes "erase"
    ∷ codes "wipe"
    ∷ codes "revoke"
    ∷ codes "terminate"
    ∷ codes "uninstall"
    ∷ codes "exec"
    ∷ codes "execute"
    ∷ codes "eval"
    ∷ codes "invoke"
    ∷ codes "shell"
    ∷ codes "spawn"
    ∷ []

abbrev pub financial_words : List Text
financial_words =
    codes "pay"
    ∷ codes "payment"
    ∷ codes "charge"
    ∷ codes "invoice"
    ∷ codes "refund"
    ∷ codes "transfer"
    ∷ codes "billing"
    ∷ []

abbrev pub administrative_words : List Text
administrative_words =
    codes "admin"
    ∷ codes "grant"
    ∷ codes "permission"
    ∷ codes "role"
    ∷ codes "policy"
    ∷ codes "member"
    ∷ codes "owner"
    ∷ codes "acl"
    ∷ codes "scope"
    ∷ []

abbrev pub communication_words : List Text
communication_words =
    codes "send"
    ∷ codes "email"
    ∷ codes "mail"
    ∷ codes "message"
    ∷ codes "notify"
    ∷ codes "sms"
    ∷ codes "call"
    ∷ codes "post_to"
    ∷ codes "publish"
    ∷ codes "broadcast"
    ∷ codes "dm"
    ∷ []

abbrev pub write_words : List Text
write_words =
    codes "create"
    ∷ codes "update"
    ∷ codes "write"
    ∷ codes "edit"
    ∷ codes "set"
    ∷ codes "add"
    ∷ codes "append"
    ∷ codes "upload"
    ∷ codes "merge"
    ∷ codes "patch"
    ∷ codes "rename"
    ∷ codes "move"
    ∷ codes "assign"
    ∷ codes "close"
    ∷ codes "open"
    ∷ codes "comment"
    ∷ []

abbrev pub read_words : List Text
read_words =
    codes "get"
    ∷ codes "list"
    ∷ codes "read"
    ∷ codes "search"
    ∷ codes "find"
    ∷ codes "query"
    ∷ codes "describe"
    ∷ codes "fetch"
    ∷ codes "show"
    ∷ codes "view"
    ∷ codes "inspect"
    ∷ codes "count"
    ∷ []

abbrev pub read_verbs : List Text
read_verbs = read_words ++ codes "lookup" ∷ []

abbrev is_alnum : ℕ → Bool
is_alnum c = is_lower c || (is_upper c || is_digit c)

-- `\w`
abbrev is_word_code : ℕ → Bool
is_word_code c = is_alnum c || c == b'_'

-- the maximal runs of word characters, lower-cased; `cur` is the run that is open
runs_from : Text → Text → List Text
runs_from cur [] = to_lower cur ∷ []
runs_from cur (c ∷ s) =
    let longer = runs_from (cur ++ c ∷ []) s in
    let closed = to_lower cur ∷ runs_from [] s in if is_word_code c then longer else closed

-- `pattern.test(text)`
unfoldable pub test : List Text → Text → Bool
unfolding runs_from
test words text = any (includes words) (runs_from [] text)

-- `replace(/([a-z0-9])([A-Z])/gu, "$1 $2")`
split_camel : Bool → Text → Text
split_camel after [] = []
split_camel after (c ∷ s) =
    let rest = c ∷ split_camel (is_lower c || is_digit c) s in
    if after && is_upper c then b' ' ∷ rest else rest

-- `replace(/[^a-zA-Z0-9]+/gu, " ")`
blank_runs : Bool → Text → Text
blank_runs inside [] = []
blank_runs inside (c ∷ s) =
    let kept = c ∷ blank_runs false s in
    let rest = blank_runs true s in
    if is_alnum c then kept else if inside then rest else b' ' ∷ rest

unfoldable pub tokenize : Text → Text
unfolding split_camel blank_runs
tokenize name =
    trim_end (λ c. c == b' ')
      (trim_start (λ c. c == b' ') (blank_runs false (split_camel false name)))

unfoldable pub words_of : Text → List Text
unfolding tokenize
words_of name = split_on b' ' (tokenize name)

-- `annotations[key] === true`, false where there are no annotations
is_true : Option Json → Bool
is_true (some (boolean true)) = true
is_true _ = false

unfoldable pub hint : Text → Option Entries → Bool
unfolding is_true
hint key none = false
hint key (some a) = is_true (property key a)

or_empty : Option Text → Text
or_empty none = []
or_empty (some t) = t

unfoldable pub haystack : Text → Option Text → Text
unfolding words_of or_empty
haystack name description = join (codes " ") (words_of name) ++ b' ' ∷ or_empty description

unfoldable pub is_read_verb : List Text → Bool
is_read_verb [] = false
is_read_verb (w ∷ ws) = includes read_verbs (to_lower w)

-- the loop over `PATTERNS`
unfoldable pub rank_text : Bool → Bool → Text → ToolRiskLevel
rank_text read_verb open_world text =
    if test destructive_words text
    then destructive
    else if test financial_words text
    then financial
    else if test administrative_words text
    then administrative
    else if test communication_words text
    then external_communication
    else if not read_verb && test write_words text
    then (if open_world then external_communication else write)
    else if test read_words text
    then read_only
    else unknown

unfoldable pub classify_tool : Text → Option Text → Option Entries → ToolRiskLevel
classify_tool name description annotations =
    if hint (codes "destructiveHint") annotations
    then destructive
    else if hint (codes "readOnlyHint") annotations
    then read_only
    else rank_text (is_read_verb (words_of name)) (hint (codes "openWorldHint") annotations)
        (haystack name description)
