-- ===== src/McpServer/Session.antt =====
-- packages/mcp-server/src/session.ts: one downstream session. A stream is a number; `is_closed`
-- tells which streams the platform has closed. An operation returns the new state and what it
-- wrote, each write with the stream that carried it. Promises and timers are left out: a pending
-- server request is its id, and how it is settled is returned.
pub mod History
pub mod Delivery
use universal_agent_protocol.Base.{
  ℕ, zero, suc, ◌+◌, Bool, true, false, not, ◌&&◌, ◌||◌, Option, none, some, List, [], ◌∷◌, ◌++◌,
  length, ltb, ◌==◌, any, if◌then◌else◌,
}

-- A message and whether it is a request that expects an answer, by the number of its id.
pub data Message : Type 0 where
  notification : ℕ → Message
  server_request : ℕ → ℕ → Message

pub record HistoryEntry : Type 0 where
  pub id : ℕ
  pub message : Message
  pub delivered : Bool

pub record Session : Type 0 where
  pub streams : List ℕ
  pub request_streams : List ℕ
  pub history : List HistoryEntry
  pub next_event_id : ℕ
  pub pending : List ℕ
  pub in_flight : List ℕ
  pub next_request_id : ℕ
  pub closed : Bool

-- A message on a stream, under its event id.
pub record Write : Type 0 where
  pub stream : ℕ
  pub id : ℕ
  pub message : Message

abbrev pub new_entry : ℕ → Message → Bool → HistoryEntry
new_entry id message delivered = record { id = id; message = message; delivered = delivered }

abbrev pub history_limit : ℕ
history_limit = 256

unfoldable pub new : Session
new = record {
  streams = [];
  request_streams = [];
  history = [];
  next_event_id = 1;
  pending = [];
  in_flight = [];
  next_request_id = 1;
  closed = false;
}

abbrev pub has : List ℕ → ℕ → Bool
has xs x = any (λ y. y == x) xs

unfoldable pub without : ℕ → List ℕ → List ℕ
without x [] = []
without x (y ∷ ys) = if y == x then without x ys else y ∷ without x ys

-- `Set.add` and `Map.set`: a key that is there keeps its place
unfoldable pub add : ℕ → List ℕ → List ℕ
add x xs = if has xs x then xs else xs ++ x ∷ []

-- the entries that a stream replays
replays : Option ℕ → HistoryEntry → Bool
replays none e = not e.delivered
replays (some last) e = ltb last e.id

unfoldable pub replay : Option ℕ → ℕ → List HistoryEntry → List HistoryEntry × List Write
unfolding replays
replay last stream [] = ([], [])
replay last stream (e ∷ es) =
    let (es', writes) = replay last stream es in
    if replays last e
    then (
      record e { delivered = true } ∷ es',
      record { stream = stream; id = e.id; message = e.message } ∷ writes,
    )
    else (e ∷ es', writes)

unfoldable pub attach_stream : ℕ → Option ℕ → Session → Session × List Write
attach_stream stream last s =
    let (history, writes) = replay last stream s.history in
    (record s { streams = add stream s.streams; history = history }, writes)

unfoldable pub detach_stream : ℕ → Session → Session
detach_stream stream s = record s { streams = without stream s.streams }

unfoldable pub begin_request_stream : ℕ → Session → Session
begin_request_stream stream s = record s { request_streams = s.request_streams ++ stream ∷ [] }

-- `splice` at `lastIndexOf`: the last occurrence goes
unfoldable pub drop_last : ℕ → List ℕ → List ℕ
drop_last x [] = []
drop_last x (y ∷ ys) = if has ys x then y ∷ drop_last x ys else if y == x then ys else y ∷ ys

unfoldable pub end_request_stream : ℕ → Session → Session
end_request_stream stream s = record s { request_streams = drop_last stream s.request_streams }

-- `history.push`, and `shift` of the oldest beyond the limit
unfoldable pub remember : HistoryEntry → List HistoryEntry → List HistoryEntry
remember e history = elim (history ++ e ∷ []) [
  | [] ↦ []
  | oldest ∷ rest ↦ if ltb history_limit (length (oldest ∷ rest)) then rest else oldest ∷ rest
]

module _ (is_closed : ℕ → Bool) where
  -- the last open stream of a list
  newest_open : List ℕ → Option ℕ
  newest_open [] = none
  newest_open (x ∷ xs) = elim (newest_open xs) [
    | some y ↦ some y
    | none ↦ if is_closed x then none else some x
  ]

  unfoldable pub live_request_stream : Session → Option ℕ
  unfolding newest_open
  live_request_stream s = newest_open s.request_streams

  unfoldable pub live_stream : Session → Option ℕ
  unfolding newest_open
  live_stream s = newest_open s.streams

  unfoldable pub has_stream : Session → Bool
  has_stream s = elim (live_request_stream s) [
    | some _ ↦ true
    | none ↦ elim (live_stream s) [ some _ ↦ true | none ↦ false ]
  ]

  -- `preferred?.isClosed === false ? preferred : this.liveStream()`
  unfoldable pub target_of : Option ℕ → Session → Option ℕ
  target_of none s = live_stream s
  target_of (some p) s = if is_closed p then live_stream s else some p

  unfoldable pub deliver : Message → Option ℕ → Session → Session × List Write
  deliver message preferred s =
      let id = s.next_event_id in
      let target = target_of preferred s in
      elim target [
        | none ↦ (
          record s {
            next_event_id = id + 1;
            history = remember (new_entry id message false) s.history;
          },
          [],
        )
        | some t ↦ (
          record s {
            next_event_id = id + 1;
            history = remember (new_entry id message true) s.history;
          },
          record { stream = t; id = id; message = message } ∷ [],
        )
      ]

  unfoldable pub send_notification : ℕ → Session → Session × List Write
  send_notification body s = deliver (notification body) none s

  -- `sendRequest` up to the wait for the answer: the id it waits under, or `none` where it throws
  unfoldable pub send_request : ℕ → Session → Session × List Write × Option ℕ
  send_request body s =
      if has_stream s
      then (let id = s.next_request_id in
          let s' = record s { next_request_id = id + 1; pending = add id s.pending } in
          let (s'', writes) = deliver (server_request id body) (live_request_stream s') s' in
          (s'', writes, some id))
      else (s, [], none)

unfoldable pub begin_request : ℕ → Session → Session
begin_request id s = record s { in_flight = add id s.in_flight }

unfoldable pub end_request : ℕ → Session → Session
end_request id s = record s { in_flight = without id s.in_flight }

-- true where the request was in flight, and is aborted
unfoldable pub cancel_request : ℕ → Session → Session × Bool
cancel_request id s =
    if has s.in_flight id
    then (record s { in_flight = without id s.in_flight }, true)
    else (s, false)

-- true where a pending request is settled; a response with a null id settles none
unfoldable pub resolve_response : Option ℕ → Session → Session × Bool
resolve_response none s = (s, false)
resolve_response (some id) s =
    if has s.pending id then (record s { pending = without id s.pending }, true) else (s, false)

-- the timer of a pending request
unfoldable pub expire : ℕ → Session → Session
expire id s = record s { pending = without id s.pending }

-- What closing does besides: the requests aborted, those rejected, and the streams ended.
pub record Closed : Type 0 where
  pub aborted : List ℕ
  pub rejected : List ℕ
  pub ended : List ℕ

unfoldable pub close : Session → Session × Closed
close s = (
  record s { closed = true; in_flight = []; pending = []; streams = []; request_streams = [] },
  record { aborted = s.in_flight; rejected = s.pending; ended = s.streams ++ s.request_streams },
)
