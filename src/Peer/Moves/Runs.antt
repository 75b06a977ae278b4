-- ===== src/Peer/Moves/Runs.antt =====
-- What holds of a PeerConnection (aiolibdatachannel/peer_connection.py) after any moves.
use aiolibdatachannel.Tasks.Kept.{discard-All}
use Prim.Native.String.{String}
use aiolibdatachannel.Prelude.{ℕ, ◌≡◌, refl, List, [], ◌∷◌, arith, get_elem?, length}
use aiolibdatachannel.Errors.{Result, ok, raises}
use aiolibdatachannel.Native.{Native, Value, Name}
use aiolibdatachannel.Core.Machine.{Core}
use aiolibdatachannel.Tasks.{discard}
use aiolibdatachannel.Channel.{DataChannel}
use aiolibdatachannel.Channel.Create.{create}
use aiolibdatachannel.Channel.Create.Synced.{create-IsSynced}
use aiolibdatachannel.Channel.Api.Moves.Safety.{IsSafe}
use aiolibdatachannel.Peer.{PeerConnection, created, handle_incoming_dc, fresh}
use aiolibdatachannel.Peer.Callbacks.{
  Call, described, found, state_changed, ice_changed, gathering_changed, signaling_changed,
  channel_came, run_call,
}
use aiolibdatachannel.Peer.Negotiation.{reset_both}
use aiolibdatachannel.Peer.Negotiation.Frame.{
  create_offer-pc, create_answer-pc, set_local_description-pc,
}
use aiolibdatachannel.Peer.Remote.{take_buffered}
use aiolibdatachannel.Peer.Iterators.Shut.{round-IsShut}
use aiolibdatachannel.Peer.Lifecycle.Made.{create_data_channel-pc}
use aiolibdatachannel.Peer.Moves.{
  Move, runs, offers, answers, describes, candidate, described_remotely, next_candidate, next_event,
  accepts, makes, spawns, closes, starts, finishes, executes, ends, task_ends, owned,
  cancels_gathering, cancels_description, changes, move, moves,
}
use aiolibdatachannel.Peer.Moves.Live.{
  IsCancelling, IsLive, fresh-IsLive, slots-IsLive, handle_local_description-IsLive,
  handle_local_candidate-IsLive, handle_state_change-IsLive, handle_ice_state-IsLive,
  handle_gathering_state-IsLive, handle_signaling_state-IsLive, add_channel-IsLive,
  accept_channel-IsLive,
}
use aiolibdatachannel.Peer.Moves.Steps.{
  remote-IsLive, tasks-IsLive, queues-IsLive, add_remote_candidate-IsLive, spawn_task-IsLive,
  close-IsLive, accept-IsLive,
}
use aiolibdatachannel.Peer.Moves.Stages.{
  end_if-IsLive, start-IsLive, finish_if-IsLive, execute_if-IsLive, channel-IsLive,
}

module _ (N : Native) {C : Type 0} (to_str : Value → String) (callback : ℕ → Name → C) where
  open N use {World}

  created-IsLive :
      (r : Result DataChannel × Core World C) (pc : PeerConnection)
      → ((dc : DataChannel) → r.0 ≡ ok dc → IsSafe dc)
      → IsLive pc
      → IsLive (created N to_str callback r pc).0
  unfolding created
  created-IsLive (raises e, c) pc safe v = v
  created-IsLive (ok dc, c) pc safe v = accept_channel-IsLive dc pc (safe dc refl) v

  pub run_call-IsLive :
      (call : Call) (pc : PeerConnection) (c : Core World C)
      → IsLive pc
      → IsLive (run_call N to_str callback call pc c).0
  unfolding run_call handle_incoming_dc
  run_call-IsLive (described d) pc c v = handle_local_description-IsLive d pc v
  run_call-IsLive (found a) pc c v = handle_local_candidate-IsLive a pc v
  run_call-IsLive (state_changed s) pc c v = handle_state_change-IsLive s pc v
  run_call-IsLive (ice_changed s) pc c v = handle_ice_state-IsLive s pc v
  run_call-IsLive (gathering_changed s) pc c v = handle_gathering_state-IsLive s pc v
  run_call-IsLive (signaling_changed s) pc c v = handle_signaling_state-IsLive s pc v
  run_call-IsLive (channel_came h) pc c v =
      let names = callback (length pc.data_channels) in
      created-IsLive (create N to_str names h 1024 c) pc
        (λ dc e. (create-IsSynced N to_str names h 1024 c dc (omega arith) e).3) v

  pub move-IsLive :
      (m : Move (Core World C)) (pc : PeerConnection) (c : Core World C)
      → IsLive pc
      → IsLive (move N to_str callback m (pc, c)).0
  unfolding move take_buffered reset_both
  move-IsLive (runs call) pc c v = run_call-IsLive call pc c v
  move-IsLive offers pc c v = create_offer-pc N to_str IsLive pc c v (slots-IsLive _ _ pc v)
  move-IsLive answers pc c v = create_answer-pc N to_str IsLive pc c (slots-IsLive _ _ pc v)
  move-IsLive (describes t) pc c v =
      set_local_description-pc N to_str IsLive t pc c (slots-IsLive _ _ pc v)
  move-IsLive (candidate cand) pc c v = add_remote_candidate-IsLive cand pc v
  move-IsLive described_remotely pc c v = remote-IsLive _ _ pc v
  move-IsLive next_candidate pc c v =
      queues-IsLive _ _ pc (round-IsShut pc.closed pc.ice_candidates v.candidates) v.events v
  move-IsLive next_event pc c v =
      queues-IsLive _ _ pc v.candidates (round-IsShut pc.closed pc.events_queue v.events) v
  move-IsLive accepts pc c v = accept-IsLive pc v
  move-IsLive (makes label opts) pc c v =
      create_data_channel-pc N to_str callback IsLive label opts pc c v
        (λ dc s. add_channel-IsLive dc pc s v)
  move-IsLive spawns pc c v = spawn_task-IsLive pc v
  move-IsLive closes pc c v = close-IsLive pc v
  move-IsLive starts pc c v = start-IsLive N to_str pc.teardown pc c refl v
  move-IsLive finishes pc c v = finish_if-IsLive N to_str pc.teardown pc c refl v
  move-IsLive executes pc c v = execute_if-IsLive N to_str pc.teardown pc c refl v
  move-IsLive ends pc c v = end_if-IsLive pc.teardown pc refl v
  move-IsLive (task_ends n) pc c v =
      tasks-IsLive (discard n pc.tasks) pc (λ e. discard-All IsCancelling n pc.tasks (v.tasked e)) v
  move-IsLive (owned i m) pc c v =
      channel-IsLive N to_str i m (get_elem? pc.data_channels i) pc c refl v
  move-IsLive cancels_gathering pc c v = slots-IsLive _ _ pc v
  move-IsLive cancels_description pc c v = slots-IsLive _ _ pc v
  move-IsLive (changes d) pc c v = v

  run-IsLive :
      (ms : List (Move (Core World C))) (pc : PeerConnection) (c : Core World C)
      → IsLive pc
      → IsLive (moves N to_str callback ms (pc, c)).0
  unfolding moves
  run-IsLive [] pc c v = v
  run-IsLive (m ∷ ms) pc c v =
      run-IsLive ms (move N to_str callback m (pc, c)).0 (move N to_str callback m (pc, c)).1
        (move-IsLive m pc c v)

  -- Whatever the loop, the callers, the channels and the extension do with a new connection, and in
  -- whatever order: once it is closed, each of its three queues holds a close sentinel, however
  -- often iterators have taken it; the event of the current state is set; the teardown does not
  -- begin before `close`, and the shutdown is not reported before the teardown has finished; every
  -- owned task of a closed connection has been cancelled; and each of its channels is safe.
  pub moves-IsLive :
      (ms : List (Move (Core World C))) (native : ℕ) (c : Core World C)
      → IsLive (moves N to_str callback ms (fresh native, c)).0
  moves-IsLive ms native c = run-IsLive ms (fresh native) c (fresh-IsLive native)
