-- ===== src/McpServer/Session/Delivery.antt =====
-- Where a message goes, and that it goes there once.
use universal_agent_protocol.Base.{
  ℕ, ◌≡◌, refl, none, some, List, [], ◌∷◌, arith, Bool-cases, inl, inr, ltb, select, map,
}
use universal_agent_protocol.McpServer.Session.{HistoryEntry, Session, Write, replay, attach_stream}

replay_seen :
    (first second : ℕ) (es : List HistoryEntry)
    → replay none second (replay none first es).0 ≡ ((replay none first es).0, [])
unfolding replay
replay_seen first second [] = refl
replay_seen first second (e ∷ es) = elim (Bool-cases e.delivered) [
  | inl seen ↦ ground (arith, replay_seen first second es)
  | inr fresh ↦ ground (arith, replay_seen first second es)
]

-- A stream that opens without an event id takes over every message that no stream has carried: the
-- next stream to open so is shown nothing.
pub attach_stream_once :
    (first second : ℕ) (s : Session)
    → (attach_stream second none (attach_stream first none s).0).1 ≡ []
unfolding attach_stream
attach_stream_once first second s = ground (arith, replay_seen first second s.history)

-- an entry, written to a stream
abbrev pub write_of : ℕ → HistoryEntry → Write
write_of stream e = record { stream = stream; id = e.id; message = e.message }

replay_after :
    (last stream : ℕ) (es : List HistoryEntry)
    → (replay (some last) stream es).1 ≡ map (write_of stream) (select (λ e. ltb last e.id) es)
unfolding replay
replay_after last stream [] = refl
replay_after last stream (e ∷ es) = elim (Bool-cases (ltb last e.id)) [
  | inl later ↦ rw (later, replay_after last stream es) refl
  | inr earlier ↦ rw (earlier, replay_after last stream es) refl
]

-- A stream that reconnects with an event id is replayed, in order, exactly the remembered messages
-- with a later id, each under its own id.
pub attach_stream_replays :
    (stream last : ℕ) (s : Session)
    → (attach_stream stream (some last) s).1
      ≡ map (write_of stream) (select (λ e. ltb last e.id) s.history)
unfolding attach_stream
attach_stream_replays stream last s = replay_after last stream s.history
