-- ===== src/Peer/Moves/Visited.antt =====
-- Which states of a PeerConnection (aiolibdatachannel/peer_connection.py) `wait_for_state` takes
-- for reached.
use Prim.Native.String.{String}
use aiolibdatachannel.Prelude.{
  ℕ, ◌≡◌, refl, ap, ◌∙◌, Bool, false, ◌||◌, List, [], ◌∷◌, ◌==◌, if◌then◌else◌, if_cases, arith,
}
use aiolibdatachannel.Errors.{returns, blocks}
use aiolibdatachannel.Native.{Native, Value, Name}
use aiolibdatachannel.Core.Machine.{Core}
use aiolibdatachannel.Enums.{RtcState, GatheringState, rtc_state_int}
use aiolibdatachannel.Errors.{Result, ok, raises}
use aiolibdatachannel.Channel.{DataChannel}
use aiolibdatachannel.Peer.{
  PeerConnection, created, fresh, set_state_event, accept_channel, add_channel, emit,
  handle_state_change, is_final, resolve_pending, handle_gathering_state, is_complete,
  complete_gathering, handle_local_description, handle_local_candidate, handle_ice_state,
  handle_signaling_state, handle_incoming_dc,
}
use aiolibdatachannel.Peer.Callbacks.{
  described, found, state_changed, ice_changed, gathering_changed, signaling_changed, channel_came,
  run_call,
}
use aiolibdatachannel.Peer.Lifecycle.{close, wait_for_state}
use aiolibdatachannel.Peer.Iterators.{accept_data_channel}
use aiolibdatachannel.Peer.Moves.{Move, runs, next_event, accepts, closes, move, moves}
use aiolibdatachannel.Peer.Moves.Untouched.{quiet-IsUntouched}

abbrev same_state : RtcState → RtcState → Bool
same_state s t = rtc_state_int s == rtc_state_int t

-- The state that a move reports to the connection, if it is `s`.
abbrev pub reports : {S : Type 0} → RtcState → Move S → Bool
reports s (runs (state_changed t)) = same_state t s
reports s m = false

-- The moves report the state at some time.
unfoldable pub reported : {S : Type 0} → RtcState → List (Move S) → Bool
reported s [] = false
reported s (m ∷ ms) = reports s m || reported s ms

abbrev KeepsVisited : PeerConnection → PeerConnection → Type 0
KeepsVisited pc p = p.state_events ≡ pc.state_events

handle_state_change-visited :
    (s : RtcState) (pc : PeerConnection)
    → (handle_state_change s pc).state_events ≡ set_state_event s pc.state_events
unfolding handle_state_change emit resolve_pending
handle_state_change-visited s pc =
    if_cases (λ (p : PeerConnection). p.state_events ≡ set_state_event s pc.state_events)
      (is_final s) _ _ (λ e. refl) (λ e. refl)

handle_gathering_state-visited :
    (s : GatheringState) (pc : PeerConnection) → KeepsVisited pc (handle_gathering_state s pc)
unfolding handle_gathering_state emit complete_gathering
handle_gathering_state-visited s pc =
    if_cases (KeepsVisited pc) (is_complete s) _ _ (λ e. refl) (λ e. refl)

close-visited : (pc : PeerConnection) → KeepsVisited pc (close pc)
unfolding close
close-visited pc = if_cases (KeepsVisited pc) pc.closed _ _ (λ e. refl) (λ e. refl)

module _ (N : Native) {C : Type 0} (to_str : Value → String) (callback : ℕ → Name → C) where
  open N use {World}

  created-visited :
      (r : Result DataChannel × Core World C) (pc : PeerConnection)
      → KeepsVisited pc (created N to_str callback r pc).0
  unfolding created accept_channel add_channel emit
  created-visited (raises e, c) pc = refl
  created-visited (ok dc, c) pc = refl

  move-visited :
      (s : RtcState) (m : Move (Core World C)) (pc : PeerConnection) (c : Core World C)
      → (move N to_str callback m (pc, c)).0.state_events s ≡ reports s m || pc.state_events s
  unfolding move accept_data_channel run_call handle_local_description handle_local_candidate
      handle_ice_state handle_signaling_state emit handle_incoming_dc set_state_event
  move-visited s (runs (described d)) pc c = refl
  move-visited s (runs (found a)) pc c = refl
  move-visited s (runs (state_changed t)) pc c = ap (λ f. f s) (handle_state_change-visited t pc)
  move-visited s (runs (ice_changed t)) pc c = refl
  move-visited s (runs (gathering_changed t)) pc c =
      ap (λ f. f s) (handle_gathering_state-visited t pc)
  move-visited s (runs (signaling_changed t)) pc c = refl
  move-visited s (runs (channel_came h)) pc c = ap (λ f. f s) (created-visited _ pc)
  move-visited s next_event pc c = refl
  move-visited s accepts pc c = refl
  move-visited s closes pc c = ap (λ f. f s) (close-visited pc)
  move-visited s m pc c = ap (λ f. f s) (quiet-IsUntouched N to_str callback m pc c refl).3

  visited_after :
      (s : RtcState) (ms : List (Move (Core World C))) (pc : PeerConnection) (c : Core World C)
      → (moves N to_str callback ms (pc, c)).0.state_events s ≡ reported s ms || pc.state_events s
  unfolding moves reported
  visited_after s [] pc c = refl
  visited_after s (m ∷ ms) pc c =
      let r = move N to_str callback m (pc, c) in
      visited_after s ms r.0 r.1 ∙ ground (arith, move-visited s m pc c)

  -- Whatever happens to a new connection: `wait_for_state` returns at once for NEW and for each
  -- state that has been reported at some time, even if the connection has left it since, and
  -- blocks for the others.
  pub wait_for_state-reported :
      (s : RtcState) (ms : List (Move (Core World C))) (native : ℕ) (c : Core World C)
      → wait_for_state s (moves N to_str callback ms (fresh native, c)).0
        ≡ (if reported s ms || same_state RtcState.new s then returns tt else blocks)
  unfolding wait_for_state fresh set_state_event
  wait_for_state-reported s ms native c = ground (arith, visited_after s ms (fresh native) c)
