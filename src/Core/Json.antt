-- ===== src/Core/Json.antt =====
-- packages/core/src/json-rpc.ts and json.ts: JSON values and JSON-RPC messages. A number is the
-- decimal that the text spells, digits / 10 ^ scale; what a double rounds away is not modelled.
-- The entries of an object stand in the order of `Object.entries`.
use universal_agent_protocol.Base.{
  ℕ, ◌+◌, ◌*◌, ◌%◌, ◌^◌, Bool, true, false, not, Option, none, some, Text, text_eq, ltb, ◌==◌,
  if◌then◌else◌,
}

pub record Decimal : Type 0 where
  pub negative : Bool
  pub digits : ℕ
  pub scale : ℕ

mutual
  pub data Json : Type 0 where
    null : Json
    boolean : Bool → Json
    number : Decimal → Json
    string : Text → Json
    array : Items → Json
    object : Entries → Json

  pub data Items : Type 0 where
    no_items : Items
    item : Json → Items → Items

  pub data Entries : Type 0 where
    no_entries : Entries
    entry : Text → Json → Entries → Entries

-- `o[key]` for an own property; `none` is `undefined`
unfoldable pub property : Text → Entries → Option Json
property key no_entries = none
property key (entry k v o) = if text_eq k key then some v else property key o

-- `{ ...o, [key]: v }` for a key that is there
unfoldable pub set_property : Text → Json → Entries → Entries
set_property key v no_entries = entry key v no_entries
set_property key v (entry k w o) =
    if text_eq k key then entry k v o else entry k w (set_property key v o)

-- `value[key]` of a value that may be no object
unfoldable pub field : Text → Json → Option Json
unfolding property
field key (object o) = property key o
field key _ = none

-- the magnitudes of `a` and `b` over the common denominator, on the side of their sign
abbrev above : Decimal → ℕ
above d = if d.negative then 0 else d.digits

abbrev below : Decimal → ℕ
below d = if d.negative then d.digits else 0

-- `a < b` on numbers
unfoldable pub less : Decimal → Decimal → Bool
less a b =
    ltb (above a * 10 ^ b.scale + below b * 10 ^ a.scale)
      (above b * 10 ^ a.scale + below a * 10 ^ b.scale)

-- `a === b` on numbers
unfoldable pub same_number : Decimal → Decimal → Bool
same_number a b =
    (above a * 10 ^ b.scale + below b * 10 ^ a.scale)
    == (above b * 10 ^ a.scale + below a * 10 ^ b.scale)

-- `Number.isInteger`
unfoldable pub is_integer : Decimal → Bool
is_integer d = d.digits % 10 ^ d.scale == 0

unfoldable pub from_ℕ : ℕ → Decimal
from_ℕ n = record { negative = false; digits = n; scale = 0 }

bool_eq : Bool → Bool → Bool
bool_eq true b = b
bool_eq false b = not b

-- `a === b` between values of two separately parsed documents: arrays and objects are never the
-- same reference
unfoldable pub identical : Json → Json → Bool
unfolding same_number bool_eq
identical null null = true
identical (boolean a) (boolean b) = bool_eq a b
identical (number a) (number b) = same_number a b
identical (string a) (string b) = text_eq a b
identical _ _ = false

-- `isRecord`
abbrev pub is_record : Json → Bool
is_record (object _) = true
is_record _ = false
