-- ===== src/Federation/Handler/Levels.antt =====
-- The log levels that upstream clients are told, and the messages that go out with a request.
use universal_agent_protocol.Base.{
  ◌≡◌, refl, sym, ◌∙◌, ap, subst, ◌⊎◌, inl, inr, true, not, ◌&&◌, Option, none, some, List, [], ◌∷◌,
  ◌++◌, Text, arith, Bool-cases, append-nil, append_assoc,
}
use universal_agent_protocol.Federation.Handler.{
  Caller, Thrown, wait, and_then, Reply, returned, threw, UpstreamRequest, set_level, Sent, Client,
  Gateway, World, was_told, tell_level, push_level, push_log_level, upstream_for, send,
  ask_upstream,
}
use universal_agent_protocol.Storage.Connections.{UpstreamConnection}
use universal_agent_protocol.Federation.Handler.Requests.{push_all}

abbrev pub level_message : Text → Option Text → List Sent
level_message id none = []
level_message id (some level) = record { connection_id = id; request = set_level level } ∷ []

abbrev pub request_message : Text → Option UpstreamRequest → List Sent
request_message id none = []
request_message id (some r) = record { connection_id = id; request = r } ∷ []

-- Nothing is sent, or one request, before it at most a log level to the same connection.
abbrev pub SendsTo : Text → UpstreamRequest → List Sent → List Sent → Type 0
SendsTo id r s s' =
    (s' ≡ s)
    ⊎ ((level : Option Text) × (s' ≡ s ++ (level_message id level ++ request_message id (some r))))

push_level-sent :
    (id : Text) (client : Client) (o : Option Text) (g : Gateway)
    → (level : Option Text) × ((push_level id client o g).sent ≡ g.sent ++ level_message id level)
unfolding push_level tell_level
push_level-sent id client none g = (none, sym (append-nil g.sent))
push_level-sent id client (some level) g =
    elim (Bool-cases (client.logging && not (was_told level (g.levels_applied client.key)))) [
      | inl due ↦ (some level, rw due refl)
      | inr old ↦ (none, rw old (sym (append-nil g.sent)))
    ]

-- An upstream session opens, and at most a log level goes to it; or it does not open.
pub upstream_for-cases :
    (w : World) (caller : Caller) (c : UpstreamConnection) (g : Gateway)
    → ((client : Client) × (g' : Gateway) × (level : Option Text) × (upstream_for w caller c g
          ≡ (g', returned client))
        × (g'.sent ≡ g.sent ++ level_message c.id level))
      ⊎ ((e : Thrown) × (g' : Gateway) × (upstream_for w caller c g ≡ (g', threw e))
          × (g'.sent ≡ g.sent))
unfolding upstream_for push_log_level wait
upstream_for-cases w caller c g = by_reply w.acquired
  where
    by_reply :
        (r : Reply Client)
        → ((client : Client) × (g' : Gateway) × (level : Option Text) × (upstream_for
                (record w { acquired = r })
                caller
                c
                g
              ≡ (g', returned client))
            × (g'.sent ≡ g.sent ++ level_message c.id level))
          ⊎ ((e : Thrown) × (g' : Gateway) × (upstream_for (record w { acquired = r }) caller c g
                ≡ (g', threw e))
              × (g'.sent ≡ g.sent))
    by_reply (threw e) = inr (e, wait w.acquire_ms w.while_acquiring g, refl, refl)
    by_reply (returned client) =
        let g1 = wait w.acquire_ms w.while_acquiring g in
        let (level, e) = push_level-sent c.id client (g.log_levels caller.session_id) g1 in
        inl (client, push_log_level caller c.id client g1, level, refl, e)

pub send-sent :
    (w : World) (c : UpstreamConnection) (r : UpstreamRequest) (g : Gateway) (s ms : List Sent)
    → g.sent ≡ s ++ ms
    → (send w c r g).0.sent ≡ s ++ (ms ++ request_message c.id (some r))
unfolding send wait
send-sent w c r g s ms e =
    ap (λ x. x ++ request_message c.id (some r)) e
    ∙ append_assoc s ms (request_message c.id (some r))

pub ask-SendsTo :
    (w : World) (caller : Caller) (c : UpstreamConnection) (r : UpstreamRequest) (g : Gateway)
    → SendsTo c.id r g.sent (ask_upstream w caller c r g).0.sent
unfolding ask_upstream
ask-SendsTo w caller c r g =
    let f = λ (client : Client). send w c r in
    elim (upstream_for-cases w caller c g) [
      | inr (x, g', e, quiet) ↦
          subst (λ s. SendsTo c.id r g.sent (and_then s f).0.sent) (sym e) (inl quiet)
      | inl (client, g', level, e, told) ↦
          subst (λ s. SendsTo c.id r g.sent (and_then s f).0.sent) (sym e)
            (inr (level, send-sent w c r g' g.sent (level_message c.id level) told))
    ]

-- What a change of the level sends: the level, to some of the open clients that can log, each at most
-- once and in their order.
abbrev pub Told : Text → List (Text × Client) → List Sent → Type 0
Told level [] ms = ms ≡ []
Told level ((id, client) ∷ clients) ms =
    Told level clients ms
    ⊎ ((rest : List Sent) × (client.logging ≡ true)
        × (ms ≡ record { connection_id = id; request = set_level level } ∷ rest)
        × Told level clients rest)

push_level-cases :
    (id : Text) (client : Client) (level : Text) (g : Gateway)
    → ((push_level id client (some level) g).sent ≡ g.sent)
      ⊎ ((client.logging ≡ true)
          × ((push_level id client (some level) g).sent
              ≡ g.sent ++ record { connection_id = id; request = set_level level } ∷ []))
unfolding push_level tell_level
push_level-cases id client level g = elim (Bool-cases client.logging) [
  | inr mute ↦ inl (rw mute refl)
  | inl able ↦ elim (Bool-cases (not (was_told level (g.levels_applied client.key)))) [
    | inl due ↦ inr (able, rw (able, due) refl)
    | inr old ↦ inl (rw (able, old) refl)
  ]
]

push_level-levels :
    (id : Text) (client : Client) (o : Option Text) (g : Gateway)
    → (push_level id client o g).log_levels ≡ g.log_levels
unfolding push_level tell_level
push_level-levels id client none g = refl
push_level-levels id client (some level) g = ground arith

pub push_all-Told :
    (caller : Caller) (level : Text) (clients : List (Text × Client)) (g : Gateway)
    → g.log_levels caller.session_id ≡ some level
    → (ms : List Sent) × ((push_all caller clients g).sent ≡ g.sent ++ ms) × Told level clients ms
unfolding push_all push_log_level
push_all-Told caller level [] g h = ([], sym (append-nil g.sent), refl)
push_all-Told caller level ((id, client) ∷ clients) g h =
    let o = g.log_levels caller.session_id in
    let kept : (push_level id client o g).log_levels caller.session_id ≡ some level =
      ap (λ m. m caller.session_id) (push_level-levels id client o g) ∙ h in
    let (ms, e, told) = push_all-Told caller level clients (push_level id client o g) kept in
    let cases =
      subst
        (λ v.
          ((push_level id client v g).sent ≡ g.sent)
          ⊎ ((client.logging ≡ true)
              × ((push_level id client v g).sent
                  ≡ g.sent ++ record { connection_id = id; request = set_level level } ∷ [])))
        (sym h) (push_level-cases id client level g) in
    elim cases [
      | inl quiet ↦ (ms, e ∙ ap (λ s. s ++ ms) quiet, inl told)
      | inr (able, sent) ↦ (
        record { connection_id = id; request = set_level level } ∷ ms,
        e
            ∙ (ap (λ s. s ++ ms) sent
                ∙ append_assoc g.sent
                    (record { connection_id = id; request = set_level level } ∷ []) ms),
        inr (ms, able, refl, told),
      )
    ]
