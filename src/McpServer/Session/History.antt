-- ===== src/McpServer/Session/History.antt =====
-- The history of a session: bounded, and numbered in order.
use universal_agent_protocol.Base.{
  ℕ, suc, ◌+◌, ◌≡◌, refl, ◌≤◌, Bool, true, false, Option, none, some, List, [], ◌∷◌, ◌++◌, arith,
  length, length-append, Bool-cases, Option-cases, inl, inr, ltb, if◌then◌else◌,
}
use universal_agent_protocol.McpServer.Session.{
  Message, notification, server_request, HistoryEntry, new_entry, Session, history_limit, new,
  replays, replay, remember, attach_stream, detach_stream, begin_request_stream, end_request_stream,
  deliver, send_notification, send_request, begin_request, end_request, cancel_request,
  resolve_response, expire, close, target_of, has_stream, live_request_stream, add,
}

-- Ids that rise from entry to entry and stay below a bound.
abbrev pub Rises : ℕ → List HistoryEntry → ℕ → Type 0
Rises low [] bound = low ≤ bound
Rises low (e ∷ es) bound = (low ≤ e.id) × Rises (suc e.id) es bound

pub record IsValid (s : Session) : Type 0 where
  pub first : ℕ
  pub numbered : Rises first s.history s.next_event_id
  pub bounded : length s.history ≤ history_limit

Rises-append :
    (low : ℕ) (es : List HistoryEntry) (bound : ℕ) (m : Message) (d : Bool)
    → Rises low es bound
    → Rises low (es ++ new_entry bound m d ∷ []) (bound + 1)
Rises-append low [] bound m d h = (h, omega arith)
Rises-append low (e ∷ es) bound m d (h, hs) = (h, Rises-append (suc e.id) es bound m d hs)

Rises-tail :
    (low : ℕ) (e : HistoryEntry) (es : List HistoryEntry) (bound : ℕ)
    → Rises low (e ∷ es) bound
    → Rises (suc e.id) es bound
Rises-tail low e es bound (h, hs) = hs

-- Numbering and bound of what `remember` leaves.
abbrev Fits : List HistoryEntry → ℕ → Type 0
Fits es bound = (first : ℕ) × Rises first es bound × (length es ≤ history_limit)

shift-Fits :
    (low : ℕ) (es : List HistoryEntry) (bound : ℕ)
    → Rises low es bound
    → length es ≤ suc history_limit
    → Fits
        (elim es [
          | [] ↦ []
          | oldest ∷ rest ↦
              if ltb history_limit (length (oldest ∷ rest)) then rest else oldest ∷ rest
        ])
        bound
shift-Fits low [] bound h k = (low, h, omega arith)
shift-Fits low (e ∷ es) bound h k = elim (Bool-cases (ltb history_limit (length (e ∷ es)))) [
  | inl long ↦ rw long (suc e.id, Rises-tail low e es bound h, omega arith)
  | inr short ↦ rw short (low, h, ground arith)
]

remember-Fits :
    (s : Session) (m : Message) (d : Bool)
    → IsValid s
    → Fits (remember (new_entry s.next_event_id m d) s.history) (s.next_event_id + 1)
unfolding remember
remember-Fits s m d v =
    shift-Fits v.first (s.history ++ new_entry s.next_event_id m d ∷ []) (s.next_event_id + 1)
      (Rises-append v.first s.history s.next_event_id m d v.numbered)
      (omega (arith, v.bounded, length-append s.history (new_entry s.next_event_id m d ∷ [])))

deliver-IsValid :
    (is_closed : ℕ → Bool) (m : Message) (preferred : Option ℕ) (s : Session)
    → IsValid s
    → IsValid (deliver is_closed m preferred s).0
unfolding deliver
deliver-IsValid is_closed m preferred s v = elim (Option-cases (target_of is_closed preferred s)) [
  | inl missing ↦
      let (first, rises, fits) = remember-Fits s m false v in
      rw (missing, deliver) (record { first = first; numbered = rises; bounded = fits })
  | inr (t, there) ↦
      let (first, rises, fits) = remember-Fits s m true v in
      rw (there, deliver) (record { first = first; numbered = rises; bounded = fits })
]

replay-Rises :
    (last : Option ℕ) (stream low : ℕ) (es : List HistoryEntry) (bound : ℕ)
    → Rises low es bound
    → Rises low (replay last stream es).0 bound × (length (replay last stream es).0 ≡ length es)
unfolding replay
replay-Rises last stream low [] bound h = (h, refl)
replay-Rises last stream low (e ∷ es) bound (h, hs) =
    let (rises, same) = replay-Rises last stream (suc e.id) es bound hs in
    elim (Bool-cases (replays last e)) [
      | inl again ↦ rw again ((h, rises), omega arith)
      | inr seen ↦ rw seen ((h, rises), omega arith)
    ]

pub data Operation : Type 0 where
  attach : ℕ → Option ℕ → Operation
  detach begin_stream end_stream notify ask begin_call end_call cancel time_out : ℕ → Operation
  respond : Option ℕ → Operation
  shut : Operation

module _ (is_closed : ℕ → Bool) where
  unfoldable pub apply : Operation → Session → Session
  apply (attach stream last) s = (attach_stream stream last s).0
  apply (detach stream) s = detach_stream stream s
  apply (begin_stream stream) s = begin_request_stream stream s
  apply (end_stream stream) s = end_request_stream stream s
  apply (notify body) s = (send_notification is_closed body s).0
  apply (ask body) s = (send_request is_closed body s).0
  apply (begin_call id) s = begin_request id s
  apply (end_call id) s = end_request id s
  apply (cancel id) s = (cancel_request id s).0
  apply (time_out id) s = expire id s
  apply (respond id) s = (resolve_response id s).0
  apply shut s = (close s).0

  unfoldable pub run : List Operation → Session → Session
  run [] s = s
  run (o ∷ os) s = run os (apply o s)

  ask-IsValid : (body : ℕ) (s : Session) → IsValid s → IsValid (send_request is_closed body s).0
  unfolding send_request
  ask-IsValid body s v = elim (Bool-cases (has_stream is_closed s)) [
    | inr without_stream ↦ rw (without_stream, send_request) v
    | inl with_stream ↦
        let s' = record s {
          next_request_id = s.next_request_id + 1;
          pending = add s.next_request_id s.pending;
        } in
        rw (with_stream, send_request)
          (deliver-IsValid is_closed (server_request s.next_request_id body)
            (live_request_stream is_closed s') s'
            (record { first = v.first; numbered = v.numbered; bounded = v.bounded }))
  ]

  -- The part of the state that the invariant is about.
  keeps :
      (s s' : Session)
      → s'.history ≡ s.history
      → s'.next_event_id ≡ s.next_event_id
      → IsValid s
      → IsValid s'
  keeps s s' h n v = record {
    first = v.first;
    numbered = rw (h, n) v.numbered;
    bounded = rw h v.bounded;
  }

  apply-IsValid : (o : Operation) (s : Session) → IsValid s → IsValid (apply o s)
  unfolding apply send_notification
  apply-IsValid (attach stream last) s v =
      let (rises, same) = replay-Rises last stream v.first s.history s.next_event_id v.numbered in
      unfold attach_stream in
      record { first = v.first; numbered = rises; bounded = omega (arith, v.bounded) }
  apply-IsValid (notify body) s v = deliver-IsValid is_closed (notification body) none s v
  apply-IsValid (ask body) s v = ask-IsValid body s v
  apply-IsValid (detach stream) s v = unfold detach_stream in keeps s _ refl refl v
  apply-IsValid (begin_stream stream) s v = unfold begin_request_stream in keeps s _ refl refl v
  apply-IsValid (end_stream stream) s v = unfold end_request_stream in keeps s _ refl refl v
  apply-IsValid (begin_call id) s v = unfold begin_request in keeps s _ refl refl v
  apply-IsValid (end_call id) s v = unfold end_request in keeps s _ refl refl v
  apply-IsValid (time_out id) s v = unfold expire in keeps s _ refl refl v
  apply-IsValid (cancel id) s v =
      keeps s _ (unfold cancel_request in ground arith) (unfold cancel_request in ground arith) v
  apply-IsValid (respond none) s v = unfold resolve_response in v
  apply-IsValid (respond (some id)) s v =
      keeps s _ (unfold resolve_response in ground arith) (unfold resolve_response in ground arith)
        v
  apply-IsValid shut s v = unfold close in keeps s _ refl refl v

  run-IsValid : (os : List Operation) (s : Session) → IsValid s → IsValid (run os s)
  unfolding run
  run-IsValid [] s v = v
  run-IsValid (o ∷ os) s v = run-IsValid os (apply o s) (apply-IsValid o s v)

  -- Whatever operations a new session sees, in any order, it keeps at most 256 messages, and their
  -- event ids rise strictly and stay below the next one to be given.
  pub run-new-IsValid : (os : List Operation) → IsValid (run os new)
  unfolding new
  run-new-IsValid os =
      run-IsValid os new (record { first = 0; numbered = omega arith; bounded = omega arith })
