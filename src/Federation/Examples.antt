-- ===== src/Federation/Examples.antt =====
-- Runs of packages/federation on concrete inputs.
use universal_agent_protocol.Base.{
  ℕ, ◌≡◌, refl, ◌≤◌, ◌<◌, ◌↔◌, ◌⊎◌, ◌+◌, Bool, true, false, Option, none, some, List, [], ◌∷◌, ◌++◌,
  Text, codes, arith, length, includes, starts_with, text_eq, text_eq_ne, drop, last_code, join,
  split_on, trim_end, trim_start, to_lower,
}
use universal_agent_protocol.Core.Domain.{ToolRiskLevel, ConnectionStatus}
use universal_agent_protocol.Core.Json.{
  Json, boolean, string, array, object, no_items, item, Entries, no_entries, entry,
}
use universal_agent_protocol.Federation.JsonSchema.{validate_against_schema}
use universal_agent_protocol.Federation.Policy.{
  ToolPolicy, default_tool_policy, ToolCall, allow, require_confirmation, deny, invalid_arguments,
  DenyReason, level_in, args_or_empty, evaluate_tool_call,
}
use universal_agent_protocol.Federation.Policy.Decides.{
  IsPermitted, IsWellFormed, NeedsConfirmation, evaluate_tool_call_iff,
}
use universal_agent_protocol.Federation.Naming.{
  is_valid_alias, dedupe_alias, gateway_tool_name, gateway_resource_uri, split_resource_uri,
}
use universal_agent_protocol.Federation.Naming.Aliases.{dedupe_alias-IsValid}
use universal_agent_protocol.Federation.Naming.Prompts.{split-gateway_resource_uri}
use universal_agent_protocol.Federation.Naming.Tools.{gateway_tool_name_total}
use universal_agent_protocol.Federation.Pagination.{absent, sort}
use universal_agent_protocol.Federation.Pagination.Pages.{collect, collect-sort}
use universal_agent_protocol.Federation.ToolClassifier.{
  classify_tool, hint, haystack, test, words_of, is_read_verb, rank_text, destructive_words,
  financial_words, administrative_words, communication_words, write_words,
}
use universal_agent_protocol.Federation.ToolClassifier.Ranking.{destructive_iff, read_only_needs}

-- A stand-in for the platform's functions.
abbrev size : Json → ℕ
size v = 40

abbrev compiles : Text → Text → Option Bool
compiles pattern s = none

abbrev inherited : Text → Bool
inherited key = text_eq key (codes "constructor")

abbrev digest : Text → Text
digest t = codes "0a1b2c3d4e"

abbrev schema : Entries
schema = entry (codes "required") (array (item (string (codes "path")) no_items)) no_entries

abbrev call : ToolCall
call = record {
  tool_enabled = true;
  risk_level = ToolRiskLevel.destructive;
  input_schema = some schema;
  status = ConnectionStatus.connected;
  args = some (object (entry (codes "path") (string (codes "/tmp")) no_entries));
  roles = codes "member" ∷ [];
}

evaluate_tool_call_iff_example :
    let d = evaluate_tool_call size compiles inherited default_tool_policy call in
    ((d ≡ allow) ↔ (
      IsPermitted size compiles inherited default_tool_policy call
      × IsWellFormed size compiles inherited default_tool_policy call
      × (level_in call.risk_level default_tool_policy.confirmation_risk_levels ≡ false)))
    × ((d ≡ require_confirmation) ↔ (
        IsPermitted size compiles inherited default_tool_policy call
        × IsWellFormed size compiles inherited default_tool_policy call
        × NeedsConfirmation size compiles inherited default_tool_policy call))
    × (((r : DenyReason) × (d ≡ deny r))
        ↔ (¬ IsPermitted size compiles inherited default_tool_policy call))
    × (IsPermitted size compiles inherited default_tool_policy call
        → ¬ IsWellFormed size compiles inherited default_tool_policy call
        → d
          ≡ invalid_arguments (
              validate_against_schema compiles inherited call.input_schema
                (args_or_empty call.args)))
evaluate_tool_call_iff_example =
    evaluate_tool_call_iff size compiles inherited default_tool_policy call

abbrev no_roots : ToolPolicy
no_roots = record default_tool_policy { allow_roots = false }

abbrev aliases : List Text
aliases = codes "files" ∷ codes "files_2" ∷ []

dedupe_alias-IsValid_example :
    (is_valid_alias (dedupe_alias digest (codes "files") aliases) ≡ true)
    × (2 < 998 → includes aliases (dedupe_alias digest (codes "files") aliases) ≡ false)
unfolding is_valid_alias last_code
dedupe_alias-IsValid_example =
    dedupe_alias-IsValid digest (codes "files") aliases (λ t. (refl, omega arith)) refl

abbrev names : List Text
names = codes "files.read" ∷ codes "files.read_0a1b2c3d" ∷ []

gateway_tool_name_total_example :
    (r : Text) × (gateway_tool_name digest (2 + 2) (codes "files") (codes "read") names ≡ some r)
    × (includes names r ≡ false)
    × (length r ≤ 128)
gateway_tool_name_total_example =
    gateway_tool_name_total digest (codes "files") (codes "read") names (omega arith)

split-gateway_resource_uri_example :
    (starts_with (codes "opaque:") (codes "note+1") ≡ false
      → split_resource_uri (gateway_resource_uri (codes "files") (codes "note+1"))
        ≡ some (codes "files", codes "note+1"))
    × ((rest : Text)
        → split_resource_uri (gateway_resource_uri (codes "files") (codes "opaque:" ++ rest))
          ≡ some (codes "files", rest))
unfolding is_valid_alias last_code
split-gateway_resource_uri_example =
    split-gateway_resource_uri (codes "files") (codes "note+1") refl

abbrev result : Entries
result =
    entry (codes "isError") (boolean false)
      (entry (codes "content") (array (item (string (codes "done")) no_items)) no_entries)

abbrev link : Entries
link =
    entry (codes "type") (string (codes "resource_link"))
      (entry (codes "uri") (string (codes "file:///a")) no_entries)

destructive_iff_example :
    (classify_tool (codes "dropTable") none none ≡ ToolRiskLevel.destructive) ↔ (
      (hint (codes "destructiveHint") none ≡ true)
      ⊎ (hint (codes "readOnlyHint") none ≡ false)
        × (test destructive_words (haystack (codes "dropTable") none) ≡ true))
destructive_iff_example = destructive_iff (codes "dropTable") none none

abbrev tools : List Text
tools = codes "b" ∷ codes "c" ∷ codes "a" ∷ []

-- three tools in pages of two, under cursors that mark their key
collect-sort_example :
    collect (λ s. b'+' ∷ s) (drop 1) tools (λ t. t) 1 (3 + 1) absent ≡ some (sort (λ t. t) tools)
unfolding text_eq
collect-sort_example =
    collect-sort (λ s. b'+' ∷ s) (drop 1) tools (λ t. t) 1
      ((text_eq_ne _ _ refl, (text_eq_ne _ _ refl, tt)), ((text_eq_ne _ _ refl, tt), (tt, tt)))
      ((refl, λ e. cc), ((refl, λ e. cc), ((refl, λ e. cc), tt)))

abbrev get_file : Text
get_file = codes "getFile"

read_only_needs_example :
    (test destructive_words (haystack get_file none) ≡ false)
    × (test financial_words (haystack get_file none) ≡ false)
    × (test administrative_words (haystack get_file none) ≡ false)
    × (test communication_words (haystack get_file none) ≡ false)
    × ((test write_words (haystack get_file none) ≡ false)
        ⊎ (is_read_verb (words_of get_file) ≡ true))
unfolding classify_tool hint haystack test words_of is_read_verb rank_text join split_on trim_end
    trim_start text_eq to_lower
read_only_needs_example = read_only_needs get_file none none refl refl
