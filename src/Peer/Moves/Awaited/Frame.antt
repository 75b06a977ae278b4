-- ===== src/Peer/Moves/Awaited/Frame.antt =====
-- What the moves of a connection (aiolibdatachannel/peer_connection.py) make of the slot of the
-- future that `create_offer` and `create_answer` await.
use Prim.Native.String.{String}
use aiolibdatachannel.Prelude.{
  inl, inr, Bool-cases, ℕ, ◌≡◌, refl, Option, none, some, length, get_elem?, if_cases,
}
use aiolibdatachannel.Errors.{ok, raises, Result}
use aiolibdatachannel.Native.{Native, Value, Name}
use aiolibdatachannel.Core.Machine.{Core}
use aiolibdatachannel.Tasks.{Teardown, scheduled, gathering, releasing, released, numbers}
use aiolibdatachannel.Channel.{DataChannel}
use aiolibdatachannel.Channel.Api.Moves
use aiolibdatachannel.Peer.{
  PeerConnection, emit, is_final, is_complete, resolve_pending, complete_gathering, created,
  handle_incoming_dc, handle_state_change, handle_gathering_state, handle_local_description,
  handle_local_candidate, handle_ice_state, handle_signaling_state, add_channel, accept_channel,
}
use aiolibdatachannel.Peer.Callbacks.{
  Call, described, found, state_changed, ice_changed, gathering_changed, signaling_changed,
  channel_came, run_call,
}
use aiolibdatachannel.Peer.Negotiation.Frame.{
  create_offer-gathering, create_answer-gathering, set_local_description-pc,
}
use aiolibdatachannel.Peer.Remote.{Candidate, take_buffered, add_remote_candidate}
use aiolibdatachannel.Peer.Iterators.{accept_data_channel}
use aiolibdatachannel.Peer.Lifecycle.{
  spawn_task, close, end_teardown, release_channels, execute_destroy,
}
use aiolibdatachannel.Peer.Lifecycle.Made.{create_data_channel-pc, start_teardown-pc}
use aiolibdatachannel.Peer.Moves.{
  Move, runs, offers, answers, describes, candidate, makes, spawns, closes, starts, finishes,
  executes, ends, owned, move, start_if, finish_if, execute_if, end_if, move_channel,
}
use aiolibdatachannel.Channel.Create.{create}
use aiolibdatachannel.Peer.Moves.Awaited.{slot_after}

abbrev Same : PeerConnection → PeerConnection → Type 0
Same pc d = d.gathering_complete ≡ pc.gathering_complete

end_if-Same : (t : Teardown) (pc : PeerConnection) → Same pc (end_if t pc)
unfolding end_if end_teardown
end_if-Same released pc = refl
end_if-Same t pc = refl

module _ (N : Native) {C : Type 0} (to_str : Value → String) where
  open N use {World}

  start_if-Same :
      (t : Teardown) (pc : PeerConnection) (c : Core World C) → Same pc (start_if N to_str t pc c).0
  unfolding start_if release_channels
  start_if-Same scheduled pc c = start_teardown-pc N to_str (Same pc) pc c refl refl
  start_if-Same t pc c = refl

  finish_if-Same :
      (t : Teardown) (pc : PeerConnection) (c : Core World C)
      → Same pc (finish_if N to_str t pc c).0
  unfolding finish_if release_channels
  finish_if-Same (gathering ns) pc c =
      if_cases (λ (r : PeerConnection × Core World C). Same pc r.0)
        (Moves.gathered ns (numbers pc.tasks)) _ _ (λ f. refl) (λ f. refl)
  finish_if-Same t pc c = refl

  execute_if-Same :
      (t : Teardown) (pc : PeerConnection) (c : Core World C)
      → Same pc (execute_if N to_str t pc c).0
  unfolding execute_if execute_destroy
  execute_if-Same releasing pc c = refl
  execute_if-Same t pc c = refl

  channel-Same :
      (i : ℕ) (m : Moves.Move (Core World C)) (o : Option DataChannel) (pc : PeerConnection)
      (c : Core World C)
      → Same pc (move_channel N to_str i m o pc c).0
  unfolding move_channel
  channel-Same i m none pc c = refl
  channel-Same i m (some dc) pc c = refl

module _ (N : Native) {C : Type 0} (to_str : Value → String) (callback : ℕ → Name → C) where
  open N use {World}

  created-Same :
      (r : Result DataChannel × Core World C) (pc : PeerConnection)
      → Same pc (created N to_str callback r pc).0
  unfolding created accept_channel add_channel emit
  created-Same (raises e, c) pc = refl
  created-Same (ok dc, c) pc = refl

  run_call-gathering :
      (call : Call) (pc : PeerConnection) (c : Core World C)
      → (run_call N to_str callback call pc c).0.gathering_complete
        ≡ slot_after {S = Core World C} (runs call) pc.closed pc.gathering_complete
  unfolding run_call slot_after handle_local_description handle_local_candidate handle_ice_state
      handle_signaling_state handle_state_change handle_gathering_state emit resolve_pending
      complete_gathering handle_incoming_dc
  run_call-gathering (described d) pc c = refl
  run_call-gathering (found a) pc c = refl
  run_call-gathering (state_changed s) pc c = elim (Bool-cases (is_final s)) [
    | inl e ↦ rw e refl
    | inr e ↦ rw e refl
  ]
  run_call-gathering (ice_changed s) pc c = refl
  run_call-gathering (gathering_changed s) pc c = elim (Bool-cases (is_complete s)) [
    | inl e ↦ rw e refl
    | inr e ↦ rw e refl
  ]
  run_call-gathering (signaling_changed s) pc c = refl
  run_call-gathering (channel_came h) pc c =
      created-Same (create N to_str (callback (length pc.data_channels)) h 1024 c) pc

  pub move-gathering :
      (m : Move (Core World C)) (pc : PeerConnection) (c : Core World C)
      → (move N to_str callback m (pc, c)).0.gathering_complete
        ≡ slot_after m pc.closed pc.gathering_complete
  unfolding move slot_after take_buffered accept_data_channel add_remote_candidate spawn_task close
      add_channel
  move-gathering (runs call) pc c = unfold slot_after in run_call-gathering call pc c
  move-gathering offers pc c = create_offer-gathering N to_str pc c
  move-gathering answers pc c = create_answer-gathering N to_str pc c
  move-gathering (describes t) pc c = set_local_description-pc N to_str (Same pc) t pc c refl
  move-gathering (candidate cand) pc c =
      if_cases (λ (r : Option Candidate × PeerConnection). Same pc r.1) pc.remote_description_set _
        _ (λ e. refl) (λ e. refl)
  move-gathering (makes label opts) pc c =
      create_data_channel-pc N to_str callback (Same pc) label opts pc c refl (λ dc s. refl)
  move-gathering spawns pc c =
      if_cases (λ (r : Result ℕ × PeerConnection). Same pc r.1) pc.closed _ _ (λ e. refl)
        (λ e. refl)
  move-gathering closes pc c = if_cases (Same pc) pc.closed _ _ (λ e. refl) (λ e. refl)
  move-gathering starts pc c = start_if-Same N to_str pc.teardown pc c
  move-gathering finishes pc c = finish_if-Same N to_str pc.teardown pc c
  move-gathering executes pc c = execute_if-Same N to_str pc.teardown pc c
  move-gathering ends pc c = end_if-Same pc.teardown pc
  move-gathering (owned i m) pc c = channel-Same N to_str i m (get_elem? pc.data_channels i) pc c
  move-gathering m pc c = refl
