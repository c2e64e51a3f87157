-- ===== src/Federation/Pagination.antt =====
-- packages/federation/src/pagination.ts. A key is compared by its code units, as `<` compares
-- strings. `encode` and `decode` stand for the base64url conversions of the platform's buffers.
pub mod Sorting
pub mod Pages
use universal_agent_protocol.Base.{
  ℕ, Bool, true, false, ◌&&◌, ◌||◌, List, [], ◌∷◌, Option, none, some, Text, text_eq, length, take,
  ltb, leb, ◌==◌, if◌then◌else◌,
}
use universal_agent_protocol.Core.Errors.{Result, ok, raise, gateway_error, GatewayErrorCode}

-- `left < right` on strings
unfoldable pub text_lt : Text → Text → Bool
text_lt [] [] = false
text_lt [] (_ ∷ _) = true
text_lt (_ ∷ _) [] = false
text_lt (a ∷ s) (b ∷ t) = ltb a b || a == b && text_lt s t

pub record Page (T : Type 0) : Type 0 where
  pub items : List T
  pub next_cursor : Option Text

-- What the client sent: nothing or null, a string, or something else.
pub data Cursor : Type 0 where
  absent : Cursor
  text : Text → Cursor
  other : Cursor

module _ {T : Type 0} where
  unfoldable pub last : List T → Option T
  last [] = none
  last (x ∷ []) = some x
  last (x ∷ y ∷ xs) = last (y ∷ xs)

  module _ (key_of : T → Text) where
    -- `sort` is stable: an item goes before the later ones with an equal key
    unfoldable pub insert : T → List T → List T
    insert x [] = x ∷ []
    insert x (y ∷ ys) = if text_lt (key_of y) (key_of x) then y ∷ insert x ys else x ∷ y ∷ ys

    unfoldable pub sort : List T → List T
    sort [] = []
    sort (x ∷ xs) = insert x (sort xs)

    -- `sorted.slice(start)` for the first item behind the key, `[]` if there is none
    unfoldable pub behind : Text → List T → List T
    behind key [] = []
    behind key (x ∷ xs) = if text_lt key (key_of x) then x ∷ xs else behind key xs

    unfoldable pub start_from : Option Text → List T → List T
    start_from none xs = xs
    start_from (some key) xs = behind key xs

module _ (encode : Text → Text) (decode : Text → Text) where
  unfoldable pub decode_cursor : Cursor → Result (Option Text)
  decode_cursor absent = ok none
  decode_cursor other = raise (gateway_error GatewayErrorCode.invalid_request)
  decode_cursor (text []) = raise (gateway_error GatewayErrorCode.invalid_request)
  decode_cursor (text (c ∷ s)) =
      if text_eq (encode (decode (c ∷ s))) (c ∷ s)
      then ok (some (decode (c ∷ s)))
      else raise (gateway_error GatewayErrorCode.invalid_request)

  -- the cursor behind a page: none if the page is empty or reaches the end
  next_of : {T : Type 0} → (T → Text) → Option T → Bool → Option Text
  next_of key_of none done = none
  next_of key_of (some x) true = none
  next_of key_of (some x) false = some (encode (key_of x))

  -- what is left from the start on, cut into a page
  unfoldable pub cut : {T : Type 0} → (T → Text) → ℕ → List T → Page T
  unfolding next_of
  cut key_of size rest =
      let page = take size rest in
      record { items = page; next_cursor = next_of key_of (last page) (leb (length rest) size) }

  unfoldable pub paginate : {T : Type 0} → List T → (T → Text) → Cursor → ℕ → Result (Page T)
  paginate items key_of cursor size = elim (decode_cursor cursor) [
    | raise e ↦ raise e
    | ok after ↦ ok (cut key_of size (start_from key_of after (sort key_of items)))
  ]
