-- ===== src/Peer/Moves/Untouched.antt =====
-- What the calls of a PeerConnection (aiolibdatachannel/peer_connection.py) leave alone: the queues
-- of events and of incoming channels, and what it knows of its state.
use Prim.Native.String.{String}
use aiolibdatachannel.Prelude.{
  Bool, true, false, get_elem?, ℕ, ◌≡◌, refl, Option, none, some, if_cases,
}
use aiolibdatachannel.Errors.{Result}
use aiolibdatachannel.Native.{Name, Native, Value}
use aiolibdatachannel.Core.Machine.{Core}
use aiolibdatachannel.Channel.{DataChannel}
use aiolibdatachannel.Peer.{add_channel, PeerConnection}
use aiolibdatachannel.Peer.Moves.{
  move, Move, runs, offers, answers, describes, candidate, described_remotely, next_candidate,
  next_event, accepts, makes, spawns, closes, starts, finishes, executes, ends, task_ends, owned,
  cancels_gathering, cancels_description, changes, end_if, start_if, finish_if, execute_if,
  move_channel,
}
use aiolibdatachannel.Peer.Remote.{take_buffered, add_remote_candidate, Candidate}
use aiolibdatachannel.Peer.Lifecycle.{spawn_task, end_teardown, release_channels, execute_destroy}
use aiolibdatachannel.Tasks.{
  Teardown, not_started, scheduled, gathering, releasing, released, finished, numbers,
}
use aiolibdatachannel.Peer.Lifecycle.Made.{create_data_channel-pc, start_teardown-pc}
use aiolibdatachannel.Channel.Api.Moves
use aiolibdatachannel.Peer.Negotiation.Frame.{
  create_offer-pc, create_answer-pc, set_local_description-pc,
}
use aiolibdatachannel.Peer.Negotiation.{reset_both}

-- The queues of events and of incoming channels, the state and the events of the states are as they
-- were.
abbrev pub IsUntouched : PeerConnection → PeerConnection → Type 0
IsUntouched pc p =
    (p.events_queue ≡ pc.events_queue)
    × (p.incoming_dc ≡ pc.incoming_dc)
    × (p.state ≡ pc.state)
    × (p.state_events ≡ pc.state_events)

-- The moves that leave them alone.
abbrev pub is_quiet : {S : Type 0} → Move S → Bool
is_quiet (runs call) = false
is_quiet next_event = false
is_quiet accepts = false
is_quiet closes = false
is_quiet m = true

add_remote_candidate-IsUntouched :
    (cand : Candidate) (pc : PeerConnection) → IsUntouched pc (add_remote_candidate cand pc).1
unfolding add_remote_candidate
add_remote_candidate-IsUntouched cand pc =
    if_cases (λ (r : Option Candidate × PeerConnection). IsUntouched pc r.1)
      pc.remote_description_set _ _ (λ e. (refl, refl, refl, refl)) (λ e. (refl, refl, refl, refl))

spawn_task-IsUntouched : (pc : PeerConnection) → IsUntouched pc (spawn_task pc).1
unfolding spawn_task
spawn_task-IsUntouched pc =
    if_cases (λ (r : Result ℕ × PeerConnection). IsUntouched pc r.1) pc.closed _ _
      (λ e. (refl, refl, refl, refl)) (λ e. (refl, refl, refl, refl))

end_if-IsUntouched : (t : Teardown) (pc : PeerConnection) → IsUntouched pc (end_if t pc)
unfolding end_if end_teardown
end_if-IsUntouched released pc = (refl, refl, refl, refl)
end_if-IsUntouched not_started pc = (refl, refl, refl, refl)
end_if-IsUntouched scheduled pc = (refl, refl, refl, refl)
end_if-IsUntouched (gathering ns) pc = (refl, refl, refl, refl)
end_if-IsUntouched releasing pc = (refl, refl, refl, refl)
end_if-IsUntouched finished pc = (refl, refl, refl, refl)

module _ (N : Native) {C : Type 0} (to_str : Value → String) where
  open N use {World}

  start_if-IsUntouched :
      (t : Teardown) (pc : PeerConnection) (c : Core World C)
      → IsUntouched pc (start_if N to_str t pc c).0
  unfolding start_if release_channels
  start_if-IsUntouched scheduled pc c =
      start_teardown-pc N to_str (IsUntouched pc) pc c (refl, refl, refl, refl)
        (refl, refl, refl, refl)
  start_if-IsUntouched not_started pc c = (refl, refl, refl, refl)
  start_if-IsUntouched releasing pc c = (refl, refl, refl, refl)
  start_if-IsUntouched released pc c = (refl, refl, refl, refl)
  start_if-IsUntouched finished pc c = (refl, refl, refl, refl)
  start_if-IsUntouched (gathering ns) pc c = (refl, refl, refl, refl)

  finish_if-IsUntouched :
      (t : Teardown) (pc : PeerConnection) (c : Core World C)
      → IsUntouched pc (finish_if N to_str t pc c).0
  unfolding finish_if release_channels
  finish_if-IsUntouched (gathering ns) pc c =
      if_cases (λ (r : PeerConnection × Core World C). IsUntouched pc r.0)
        (Moves.gathered ns (numbers pc.tasks)) _ _ (λ f. (refl, refl, refl, refl))
        (λ f. (refl, refl, refl, refl))
  finish_if-IsUntouched not_started pc c = (refl, refl, refl, refl)
  finish_if-IsUntouched releasing pc c = (refl, refl, refl, refl)
  finish_if-IsUntouched released pc c = (refl, refl, refl, refl)
  finish_if-IsUntouched scheduled pc c = (refl, refl, refl, refl)
  finish_if-IsUntouched finished pc c = (refl, refl, refl, refl)

  execute_if-IsUntouched :
      (t : Teardown) (pc : PeerConnection) (c : Core World C)
      → IsUntouched pc (execute_if N to_str t pc c).0
  unfolding execute_if execute_destroy
  execute_if-IsUntouched releasing pc c = (refl, refl, refl, refl)
  execute_if-IsUntouched not_started pc c = (refl, refl, refl, refl)
  execute_if-IsUntouched scheduled pc c = (refl, refl, refl, refl)
  execute_if-IsUntouched (gathering ns) pc c = (refl, refl, refl, refl)
  execute_if-IsUntouched released pc c = (refl, refl, refl, refl)
  execute_if-IsUntouched finished pc c = (refl, refl, refl, refl)

  channel-IsUntouched :
      (i : ℕ) (m : Moves.Move (Core World C)) (o : Option DataChannel) (pc : PeerConnection)
      (c : Core World C)
      → IsUntouched pc (move_channel N to_str i m o pc c).0
  unfolding move_channel
  channel-IsUntouched i m none pc c = (refl, refl, refl, refl)
  channel-IsUntouched i m (some dc) pc c = (refl, refl, refl, refl)

module _ (N : Native) {C : Type 0} (to_str : Value → String) (callback : ℕ → Name → C) where
  open N use {World}

  -- None of these moves changes any of these fields.
  pub quiet-IsUntouched :
      (m : Move (Core World C)) (pc : PeerConnection) (c : Core World C)
      → is_quiet m ≡ true
      → IsUntouched pc (move N to_str callback m (pc, c)).0
  unfolding move take_buffered reset_both add_channel
  quiet-IsUntouched (runs call) pc c q = absurd (cc)
  quiet-IsUntouched next_event pc c q = absurd (cc)
  quiet-IsUntouched accepts pc c q = absurd (cc)
  quiet-IsUntouched closes pc c q = absurd (cc)
  quiet-IsUntouched offers pc c q =
      create_offer-pc N to_str (IsUntouched pc) pc c (refl, refl, refl, refl)
        (refl, refl, refl, refl)
  quiet-IsUntouched answers pc c q =
      create_answer-pc N to_str (IsUntouched pc) pc c (refl, refl, refl, refl)
  quiet-IsUntouched (describes t) pc c q =
      set_local_description-pc N to_str (IsUntouched pc) t pc c (refl, refl, refl, refl)
  quiet-IsUntouched (candidate cand) pc c q = add_remote_candidate-IsUntouched cand pc
  quiet-IsUntouched described_remotely pc c q = (refl, refl, refl, refl)
  quiet-IsUntouched next_candidate pc c q = (refl, refl, refl, refl)
  quiet-IsUntouched (makes label opts) pc c q =
      create_data_channel-pc N to_str callback (IsUntouched pc) label opts pc c
        (refl, refl, refl, refl) (λ dc s. (refl, refl, refl, refl))
  quiet-IsUntouched spawns pc c q = spawn_task-IsUntouched pc
  quiet-IsUntouched starts pc c q = start_if-IsUntouched N to_str pc.teardown pc c
  quiet-IsUntouched finishes pc c q = finish_if-IsUntouched N to_str pc.teardown pc c
  quiet-IsUntouched executes pc c q = execute_if-IsUntouched N to_str pc.teardown pc c
  quiet-IsUntouched ends pc c q = end_if-IsUntouched pc.teardown pc
  quiet-IsUntouched (task_ends n) pc c q = (refl, refl, refl, refl)
  quiet-IsUntouched (owned i m) pc c q =
      channel-IsUntouched N to_str i m (get_elem? pc.data_channels i) pc c
  quiet-IsUntouched cancels_gathering pc c q = (refl, refl, refl, refl)
  quiet-IsUntouched cancels_description pc c q = (refl, refl, refl, refl)
  quiet-IsUntouched (changes d) pc c q = (refl, refl, refl, refl)
