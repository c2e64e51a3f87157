-- ===== src/Federation/JsonSchema.antt =====
-- packages/federation/src/json-schema.ts: the schema subset that arguments are checked against. An
-- issue carries its place as a list of steps and its message as a constructor; the text that the
-- source renders from them is left out. The regular expression engine is a parameter: `compiles`
-- answers for `safeRegExp` on patterns of at most 200 code units and for `expression.test`, and
-- `none` stands for a pattern that neither mode compiles.
use universal_agent_protocol.Base.{
  ℕ, ◌+◌, Bool, true, false, not, ◌||◌, List, [], ◌∷◌, ◌++◌, Option, none, some, Text, text_eq,
  codes, length, ltb, if◌then◌else◌, suc,
}
use universal_agent_protocol.Core.Json.{
  Json, null, boolean, number, string, array, object, Items, no_items, item, Entries, no_entries,
  entry, Decimal, property, less, is_integer, from_ℕ, identical, is_record,
}

-- A place in a value, innermost step last.
pub data Step : Type 0 where
  at_index : ℕ → Step
  at_key : Text → Step

pub data Message : Type 0 where
  expected : Text → Message
  expected_one_of : Message
  not_allowed_option : Message
  longer_than : Decimal → Message
  shorter_than : Decimal → Message
  pattern_mismatch : Message
  below_minimum : Decimal → Message
  above_maximum : Decimal → Message
  too_many_items : Decimal → Message
  is_required : Message
  not_allowed_property : Message

pub record ValidationIssue : Type 0 where
  pub path : List Step
  pub message : Message

unfoldable pub matches_type : Text → Json → Bool
unfolding is_integer
matches_type t v =
    if text_eq t (codes "string")
    then elim v [ string _ ↦ true | _ ↦ false ]
    else if text_eq t (codes "number")
    then elim v [ number _ ↦ true | _ ↦ false ]
    else if text_eq t (codes "integer")
    then elim v [ number d ↦ is_integer d | _ ↦ false ]
    else if text_eq t (codes "boolean")
    then elim v [ boolean _ ↦ true | _ ↦ false ]
    else if text_eq t (codes "object")
    then is_record v
    else if text_eq t (codes "array")
    then elim v [ array _ ↦ true | _ ↦ false ]
    else if text_eq t (codes "null")
    then elim v [ null ↦ true | _ ↦ false ]
    else true

-- `String(candidate)`, where that may be a type name: a text, `null`, or an array of one such text.
-- Every other rendering is no type name, which matches every value.
inner_name : Json → Option Text
inner_name (string t) = some t
inner_name (array (item v no_items)) = inner_name v
inner_name _ = none

type_name : Json → Option Text
unfolding inner_name
type_name null = some (codes "null")
type_name v = inner_name v

-- `type.some((candidate) => matchesType(String(candidate), value))`
any_type : Items → Json → Bool
unfolding type_name
any_type no_items v = false
any_type (item c rest) v =
    elim (type_name c) [ some t ↦ matches_type t v | none ↦ true ] || any_type rest v

any_identical : Items → Json → Bool
any_identical no_items v = false
any_identical (item c rest) v = identical c v || any_identical rest v

abbrev one : Bool → List Step → Message → List ValidationIssue
one bad path message = if bad then record { path = path; message = message } ∷ [] else []

-- the first two returns: the issue of a value of the wrong type
type_issue : Option Json → Json → List Step → Option ValidationIssue
unfolding matches_type any_type
type_issue (some (string t)) v path =
    if matches_type t v then none else some (record { path = path; message = expected t })
type_issue (some (array ts)) v path =
    if any_type ts v then none else some (record { path = path; message = expected_one_of })
type_issue _ v path = none

enum_issues : Option Json → Json → List Step → List ValidationIssue
unfolding any_identical identical
enum_issues (some (array options)) v path =
    one (not (any_identical options v)) path not_allowed_option
enum_issues _ v path = []

-- an issue if the schema's key holds a number `d` for which the test says so
limit_issue :
    Option Json → (Decimal → Bool) → (Decimal → Message) → List Step → List ValidationIssue
limit_issue (some (number d)) bad message path = one (bad d) path (message d)
limit_issue _ bad message path = []

pattern_issues : (Text → Text → Option Bool) → Option Json → Text → List Step → List ValidationIssue
pattern_issues compiles (some (string p)) s path =
    if ltb 200 (length p)
    then []
    else elim (compiles p s) [ some false ↦ one true path pattern_mismatch | _ ↦ [] ]
pattern_issues compiles _ s path = []

-- `key in value`: own, or inherited from `Object.prototype`
in_record : (Text → Bool) → Text → Entries → Bool
in_record inherited key o = elim (property key o) [ some _ ↦ true | none ↦ inherited key ]

required_issues : (Text → Bool) → Items → Entries → List Step → List ValidationIssue
unfolding in_record
required_issues inherited no_items o path = []
required_issues inherited (item (string key) rest) o path =
    one (not (in_record inherited key o)) (path ++ at_key key ∷ []) is_required
    ++ required_issues inherited rest o path
required_issues inherited (item _ rest) o path = required_issues inherited rest o path

required_of : (Text → Bool) → Option Json → Entries → List Step → List ValidationIssue
unfolding required_issues
required_of inherited (some (array keys)) o path = required_issues inherited keys o path
required_of inherited _ o path = []

-- `properties[key]` where that is a record. For `__proto__`, unless it is an own key, it is
-- `Object.prototype`, which has none of the schema's keys.
child_schema : Text → Entries → Option Entries
child_schema key props = elim (property key props) [
  | some (object s) ↦ some s
  | some _ ↦ none
  | none ↦ if text_eq key (codes "__proto__") then some no_entries else none
]

is_false : Option Json → Bool
is_false (some (boolean false)) = true
is_false _ = false

-- the `else if` on `additionalProperties`
extra_issue : Entries → List Step → List ValidationIssue
unfolding is_false
extra_issue schema path =
    one (is_false (property (codes "additionalProperties") schema)) path not_allowed_property

string_issues : (Text → Text → Option Bool) → Entries → Text → List Step → List ValidationIssue
unfolding limit_issue pattern_issues
string_issues compiles schema s path =
    limit_issue (property (codes "maxLength") schema) (λ d. less d (from_ℕ (length s))) longer_than
      path
    ++ (limit_issue (property (codes "minLength") schema) (λ d. less (from_ℕ (length s)) d)
          shorter_than path
        ++ pattern_issues compiles (property (codes "pattern") schema) s path)

number_issues : Entries → Decimal → List Step → List ValidationIssue
unfolding limit_issue
number_issues schema n path =
    limit_issue (property (codes "minimum") schema) (λ d. less n d) below_minimum path
    ++ limit_issue (property (codes "maximum") schema) (λ d. less d n) above_maximum path

abbrev pub count_items : Items → ℕ
count_items no_items = 0
count_items (item _ vs) = suc (count_items vs)

-- `schema["items"]`, if that is a record
items_schema : Option Json → Option Entries
items_schema (some (object s)) = some s
items_schema _ = none

-- `schema["properties"]`, if that is a record
properties_of : Option Json → Option Entries
properties_of (some (object s)) = some s
properties_of _ = none

-- the early returns on the type, and the issues that are collected after them
abbrev report : Option ValidationIssue → List ValidationIssue → List ValidationIssue
report (some issue) rest = issue ∷ []
report none rest = rest

module _ (compiles : Text → Text → Option Bool) (inherited : Text → Bool) where
  unfoldable mutual
    unfolding type_issue enum_issues items_schema properties_of limit_issue string_issues
        number_issues required_of child_schema extra_issue

    pub validate : Json → Entries → List Step → List ValidationIssue
    validate (string s) schema path =
        report (type_issue (property (codes "type") schema) (string s) path) (
          enum_issues (property (codes "enum") schema) (string s) path
          ++ string_issues compiles schema s path)
    validate (number n) schema path =
        report (type_issue (property (codes "type") schema) (number n) path) (
          enum_issues (property (codes "enum") schema) (number n) path
          ++ number_issues schema n path)
    validate (array vs) schema path =
        report (type_issue (property (codes "type") schema) (array vs) path) (
          enum_issues (property (codes "enum") schema) (array vs) path
          ++ (validate_items vs (items_schema (property (codes "items") schema)) 0 path
              ++ limit_issue (property (codes "maxItems") schema)
                  (λ d. less d (from_ℕ (count_items vs))) too_many_items path))
    validate (object o) schema path =
        report (type_issue (property (codes "type") schema) (object o) path) (
          enum_issues (property (codes "enum") schema) (object o) path
          ++ (required_of inherited (property (codes "required") schema) o path
              ++ validate_entries o (properties_of (property (codes "properties") schema)) schema
                  path))
    validate v schema path =
        report (type_issue (property (codes "type") schema) v path)
          (enum_issues (property (codes "enum") schema) v path)

    -- `value.forEach`, if `items` is a record
    pub validate_items : Items → Option Entries → ℕ → List Step → List ValidationIssue
    validate_items no_items _ i path = []
    validate_items (item v vs) none i path = []
    validate_items (item v vs) (some s) i path =
        validate v s (path ++ at_index i ∷ []) ++ validate_items vs (some s) (i + 1) path

    -- the loop over `Object.entries(value)`, if `properties` is a record
    pub validate_entries : Entries → Option Entries → Entries → List Step → List ValidationIssue
    validate_entries no_entries _ schema path = []
    validate_entries (entry k v o) none schema path = []
    validate_entries (entry k v o) (some props) schema path =
        elim (child_schema k props) [
          | none ↦ extra_issue schema (path ++ at_key k ∷ [])
          | some s ↦ validate v s (path ++ at_key k ∷ [])
        ]
        ++ validate_entries o (some props) schema path

  unfoldable pub validate_against_schema : Option Entries → Json → List ValidationIssue
  unfolding validate
  validate_against_schema none v = []
  validate_against_schema (some schema) v = validate v schema []
