-- ===== src/McpClient/Sse.antt =====
-- packages/mcp-client/src/sse.ts: the reader of server-sent events. A chunk is a list of bytes;
-- `decode` stands for `Buffer.toString("utf8")`, which is called on each chunk by itself. The events that a chunk completes are returned with the new state.
pub mod Chunks
use universal_agent_protocol.Base.{
  ℕ, suc, ◌+◌, Bool, true, false, ◌&&◌, Option, none, some, List, [], ◌∷◌, ◌++◌, Text, codes,
  text_eq, index_of, join, length, take, drop, ltb, ◌==◌, if◌then◌else◌, trim_end,
}

pub record SseEvent : Type 0 where
  pub event : Text
  pub payload : Text
  pub id : Option Text

pub record Reader : Type 0 where
  pub buffer : Text
  pub event : Text
  pub lines : List Text
  pub id : Option Text

abbrev pub message : Text
message = codes "message"

unfoldable pub start : Reader
start = record { buffer = []; event = message; lines = []; id = none }

abbrev is_empty : List Text → Bool
is_empty [] = true
is_empty (_ ∷ _) = false

-- `flush`: nothing, and no reset, where there is neither data nor an event name
unfoldable pub flush : Reader → Reader × List SseEvent
flush r = if is_empty r.lines && text_eq r.event message then (r, []) else (
  record r { event = message; lines = []; id = none },
  record { event = r.event; payload = join (codes "\n") r.lines; id = r.id } ∷ [],
)

-- `replace(/\r$/u, "")`
drop_cr : Text → Text
drop_cr [] = []
drop_cr (c ∷ []) = if c == 13 then [] else c ∷ []
drop_cr (c ∷ d ∷ s) = c ∷ drop_cr (d ∷ s)

-- `if (value.startsWith(" ")) value = value.slice(1)`
drop_blank : Text → Text
drop_blank [] = []
drop_blank (c ∷ s) = if c == b' ' then s else c ∷ s

field_of : Text → Option ℕ → Text
field_of line none = line
field_of line (some colon) = take colon line

value_of : Text → Option ℕ → Text
value_of line none = []
value_of line (some colon) = drop_blank (drop (suc colon) line)

-- the `switch` on the field
set_field : Text → Text → Reader → Reader
set_field name value r =
    if text_eq name (codes "event")
    then record r { event = value }
    else if text_eq name (codes "data")
    then record r { lines = r.lines ++ value ∷ [] }
    else if text_eq name (codes "id")
    then record r { id = some value }
    else r

-- the part of the loop's body behind the test for an empty line
unfoldable pub read_field : Text → Reader → Reader
unfolding field_of value_of drop_blank set_field
read_field [] r = r
read_field (c ∷ line) r =
    if c == b':'
    then r
    else set_field (field_of (c ∷ line) (index_of b':' (c ∷ line)))
        (value_of (c ∷ line) (index_of b':' (c ∷ line))) r

-- the loop's body for one raw line
unfoldable pub read_line : Text → Reader → Reader × List SseEvent
unfolding drop_cr
read_line raw r = elim (drop_cr raw) [ [] ↦ flush r | c ∷ line ↦ (read_field (c ∷ line) r, []) ]

-- The `while` loop: the text is cut at each newline, and what is behind the last one stays in the
-- buffer. The buffer of `r` is the part of the line that is already read.
unfoldable pub drain : Text → Reader → Reader × List SseEvent
drain [] r = (r, [])
drain (c ∷ s) r =
    let longer = drain s (record r { buffer = r.buffer ++ c ∷ [] }) in
    let (r', events) = read_line r.buffer r in
    let (r'', more) = drain s (record r' { buffer = [] }) in
    if c == 10 then (r'', events ++ more) else longer

abbrev pub Bytes : Type 0
Bytes = List ℕ

-- One chunk; `none` where the buffer with the chunk exceeds the limit, which throws.
unfoldable pub feed : (Bytes → Text) → ℕ → Reader → Bytes → Option (Reader × List SseEvent)
feed decode max_event_bytes r chunk =
    if ltb max_event_bytes (length (r.buffer ++ decode chunk))
    then none
    else some (drain (decode chunk) r)

-- the `for await` over the chunks
unfoldable pub feed_all : (Bytes → Text) → ℕ → Reader → List Bytes → Option (Reader × List SseEvent)
feed_all decode max_event_bytes r [] = some (r, [])
feed_all decode max_event_bytes r (chunk ∷ chunks) = elim (feed decode max_event_bytes r chunk) [
  | none ↦ none
  | some (r', events) ↦ elim (feed_all decode max_event_bytes r' chunks) [
    | none ↦ none
    | some (r'', more) ↦ some (r'', events ++ more)
  ]
]

-- `readSseEvents` over the whole stream: the events, with the one that the end of the stream
-- completes
unfoldable pub read_sse_events : (Bytes → Text) → ℕ → List Bytes → Option (List SseEvent)
read_sse_events decode max_event_bytes chunks =
    elim (feed_all decode max_event_bytes start chunks) [
      | none ↦ none
      | some (r, events) ↦ some (events ++ (flush r).1)
    ]
