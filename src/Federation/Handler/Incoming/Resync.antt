-- ===== src/Federation/Handler/Incoming/Resync.antt =====
-- When an announcement of a changed catalogue is answered by a rediscovery, and when it is lost.
use universal_agent_protocol.Base.{
  ◌≡◌, ◌≢◌, refl, Bool, true, false, none, some, List, [], ◌∷◌, Text, text_eq, text_eq_refl,
  text_eq_iff, arith, if◌then◌else◌,
}
use universal_agent_protocol.Federation.Handler.Incoming.{
  Event, announced, started, looping, leaving, Resyncing, set_running, schedule_resync, end_round,
  remove_entry, idle,
}

-- What can happen to the rediscoveries, in any order, but for an announcement between the end of a
-- loop and the removal of its entry.
pub data Reach : Resyncing → Type 0 where
  here : Reach idle
  announces :
      {s : Resyncing} (id : Text)
      → s.running id ≢ some leaving
      → Reach s
      → Reach (schedule_resync id s)
  ends : {s : Resyncing} (id : Text) → Reach s → Reach (end_round id s)
  removes : {s : Resyncing} (id : Text) → Reach s → Reach (remove_entry id s)

-- whether the latest event of the connection is an announcement
unfoldable pub is_pending : Text → List Event → Bool
is_pending id [] = false
is_pending id (announced k ∷ events) =
    let rest = is_pending id events in if text_eq k id then true else rest
is_pending id (started k ∷ events) =
    let rest = is_pending id events in if text_eq k id then false else rest

abbrev IsCovered : Resyncing → Type 0
IsCovered s = (id : Text) → s.running id ≢ some (looping true) → is_pending id s.trace ≡ false

schedule-IsCovered :
    (k : Text) (s : Resyncing)
    → s.running k ≢ some leaving
    → IsCovered s
    → IsCovered (schedule_resync k s)
unfolding schedule_resync set_running is_pending
schedule-IsCovered k s open_ h id n = ground (arith, text_eq_iff id k, text_eq_iff k id, h id)

end-IsCovered : (k : Text) (s : Resyncing) → IsCovered s → IsCovered (end_round k s)
unfolding end_round set_running is_pending
end-IsCovered k s h id n = ground (arith, text_eq_iff id k, text_eq_iff k id, h id)

remove-IsCovered : (k : Text) (s : Resyncing) → IsCovered s → IsCovered (remove_entry k s)
unfolding remove_entry set_running is_pending
remove-IsCovered k s h id n = ground (arith, text_eq_iff id k, text_eq_iff k id, h id)

Reach-IsCovered : {s : Resyncing} → Reach s → IsCovered s
unfolding idle is_pending
Reach-IsCovered here id n = refl
Reach-IsCovered (announces {s} k open_ r) id n =
    schedule-IsCovered k s open_ (Reach-IsCovered r) id n
Reach-IsCovered (ends {s} k r) id n = end-IsCovered k s (Reach-IsCovered r) id n
Reach-IsCovered (removes {s} k r) id n = remove-IsCovered k s (Reach-IsCovered r) id n

-- a running rediscovery with one repetition, up to the removal of its entry
abbrev pub run_out : Text → Resyncing → Resyncing
run_out id s = remove_entry id (end_round id (end_round id s))

run_out-none : (id : Text) (s : Resyncing) → (run_out id s).running id ≡ none
unfolding end_round remove_entry set_running
run_out-none id s = ground (arith, text_eq_refl id)

lost :
    (id : Text) (s : Resyncing)
    → s.running id ≡ some leaving
    → ((remove_entry id (schedule_resync id s)).running id ≡ none)
      × (is_pending id (remove_entry id (schedule_resync id s)).trace ≡ true)
unfolding schedule_resync remove_entry set_running is_pending
lost id s e = (ground (arith, text_eq_refl id), ground (arith, text_eq_refl id))

-- However announcements and rediscoveries interleave, as long as no announcement arrives between
-- the end of a loop and the removal of its entry: while no loop of a connection is to be repeated, a
-- rediscovery was started after the last announcement; and once announcements stop, two ends of a
-- rediscovery and the removal of the entry are enough for that. But an announcement that does
-- arrive between the two is lost: then no rediscovery runs, and none was started after it.
pub Reach-settles :
    {s : Resyncing} (id : Text)
    → Reach s
    → (s.running id ≢ some (looping true) → is_pending id s.trace ≡ false)
      × ((run_out id s).running id ≡ none)
      × (is_pending id (run_out id s).trace ≡ false)
      × (s.running id ≡ some leaving
          → ((remove_entry id (schedule_resync id s)).running id ≡ none)
            × (is_pending id (remove_entry id (schedule_resync id s)).trace ≡ true))
Reach-settles {s} id r =
    let later = Reach-IsCovered (removes id (ends id (ends id r))) id in
    let ended = run_out-none id s in
    (Reach-IsCovered r id, ended, later (λ e. cc), λ e. lost id s e)
