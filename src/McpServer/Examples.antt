-- ===== src/McpServer/Examples.antt =====
-- Runs of packages/mcp-server on concrete inputs.
use universal_agent_protocol.Base.{
  ℕ, ◌≡◌, ◌==◌, Bool, true, false, none, some, [], ◌∷◌, map, select, ltb,
}
use universal_agent_protocol.McpServer.Session.{
  notification, Session, new, new_entry, attach_stream,
}
use universal_agent_protocol.McpServer.Session.History.{
  IsValid, attach, begin_stream, notify, ask, respond, cancel, begin_call, shut, run,
  run-new-IsValid,
}
use universal_agent_protocol.McpServer.Session.Delivery.{write_of, attach_stream_replays}

-- stream 9 is closed
abbrev is_closed : ℕ → Bool
is_closed stream = stream == 9

-- two messages wait, a stream is open and one is closed, and a request is under way on each side
abbrev busy : Session
busy = record {
  streams = 1 ∷ 9 ∷ [];
  request_streams = 4 ∷ [];
  history =
      new_entry 1 (notification 70) true
      ∷ new_entry 2 (notification 71) false
      ∷ new_entry 3 (notification 72) false
      ∷ [];
  next_event_id = 4;
  pending = 1 ∷ [];
  in_flight = 33 ∷ [];
  next_request_id = 2;
  closed = false;
}

run-new-IsValid_example : IsValid (
    run is_closed
      (notify 70
        ∷ attach 9 none
        ∷ notify 71
        ∷ attach 1 (some 1)
        ∷ begin_stream 4
        ∷ ask 5
        ∷ respond (some 1)
        ∷ begin_call 33
        ∷ cancel 33
        ∷ shut
        ∷ [])
      new)
run-new-IsValid_example = run-new-IsValid is_closed (
    notify 70
    ∷ attach 9 none
    ∷ notify 71
    ∷ attach 1 (some 1)
    ∷ begin_stream 4
    ∷ ask 5
    ∷ respond (some 1)
    ∷ begin_call 33
    ∷ cancel 33
    ∷ shut
    ∷ [])

attach_stream_replays_example :
    (attach_stream 5 (some 1) busy).1 ≡ map (write_of 5) (select (λ e. ltb 1 e.id) busy.history)
attach_stream_replays_example = attach_stream_replays 5 1 busy
