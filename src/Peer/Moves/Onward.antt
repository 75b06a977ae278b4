-- ===== src/Peer/Moves/Onward.antt =====
-- A PeerConnection (aiolibdatachannel/peer_connection.py) on which `close` has been called: what its
-- teardown and its tasks do through any moves.
use Prim.Native.String.{String}
use aiolibdatachannel.Prelude.{
  ℕ, ◌≡◌, refl, sym, ap, ◌∙◌, Bool, List, [], ◌∷◌, Option, none, some, get_elem?, if_cases,
}
use aiolibdatachannel.Errors.{Result, ok, raises}
use aiolibdatachannel.Native.{Native, Value, Name}
use aiolibdatachannel.Core.Machine.{Core}
use aiolibdatachannel.Tasks.{
  Teardown, not_started, scheduled, gathering, releasing, released, finished, numbers,
}
use aiolibdatachannel.Tasks.Kept.{without, discard-numbers, left_after}
use aiolibdatachannel.Channel.{DataChannel}
use aiolibdatachannel.Channel.Api.Moves
use aiolibdatachannel.Enums.{RtcState, GatheringState}
use aiolibdatachannel.Peer.{
  PeerConnection, emit, created, accept_channel, add_channel, handle_incoming_dc,
  handle_state_change, handle_gathering_state, handle_local_description, handle_local_candidate,
  handle_ice_state, handle_signaling_state, is_final, is_complete, resolve_pending,
  complete_gathering,
}
use aiolibdatachannel.Peer.Callbacks.{
  Call, described, found, state_changed, ice_changed, gathering_changed, signaling_changed,
  channel_came, run_call,
}
use aiolibdatachannel.Peer.Negotiation.{reset_both}
use aiolibdatachannel.Peer.Negotiation.Frame.{
  create_offer-pc, create_answer-pc, set_local_description-pc,
}
use aiolibdatachannel.Peer.Remote.{take_buffered, add_remote_candidate, Candidate}
use aiolibdatachannel.Peer.Iterators.{accept_data_channel}
use aiolibdatachannel.Peer.Lifecycle.{
  spawn_task, close, end_teardown, release_channels, execute_destroy,
}
use aiolibdatachannel.Peer.Lifecycle.Made.{create_data_channel-pc, start_teardown-pc}
use aiolibdatachannel.Peer.Moves.Due.{IsUpward, IsDue, left_by}
use aiolibdatachannel.Peer.Moves.{
  Move, runs, offers, answers, describes, candidate, described_remotely, next_candidate, next_event,
  accepts, makes, spawns, closes, starts, finishes, executes, ends, task_ends, owned,
  cancels_gathering, cancels_description, changes, move, moves, start_if, finish_if, execute_if,
  end_if, move_channel,
}

module _ (p : Teardown → Bool → Bool) (ns : List ℕ) where
  handle_state_change-IsDue :
      (s : RtcState) (pc : PeerConnection) → IsDue p ns pc → IsDue p ns (handle_state_change s pc)
  unfolding handle_state_change emit resolve_pending
  handle_state_change-IsDue s pc v = if_cases (IsDue p ns) (is_final s) _ _ (λ e. v) (λ e. v)

  handle_gathering_state-IsDue :
      (s : GatheringState) (pc : PeerConnection)
      → IsDue p ns pc
      → IsDue p ns (handle_gathering_state s pc)
  unfolding handle_gathering_state emit complete_gathering
  handle_gathering_state-IsDue s pc v = if_cases (IsDue p ns) (is_complete s) _ _ (λ e. v) (λ e. v)

  add_remote_candidate-IsDue :
      (cand : Candidate) (pc : PeerConnection)
      → IsDue p ns pc
      → IsDue p ns (add_remote_candidate cand pc).1
  unfolding add_remote_candidate
  add_remote_candidate-IsDue cand pc v =
      if_cases (λ (r : Option Candidate × PeerConnection). IsDue p ns r.1) pc.remote_description_set
        _ _ (λ e. v) (λ e. v)

  module _ (up : IsUpward p) where
    end_if-IsDue :
        (t : Teardown) (pc : PeerConnection)
        → pc.teardown ≡ t
        → IsDue p ns pc
        → IsDue p ns (end_if t pc)
    unfolding end_if end_teardown
    end_if-IsDue released pc e (q, left, at) =
        (q, left, up.ended pc.closed_event (sym (ap (λ t. p t pc.closed_event) e) ∙ at))
    end_if-IsDue not_started pc e v = v
    end_if-IsDue scheduled pc e v = v
    end_if-IsDue (gathering ks) pc e v = v
    end_if-IsDue releasing pc e v = v
    end_if-IsDue finished pc e v = v

    module _ (N : Native) {C : Type 0} (to_str : Value → String) where
      open N use {World}

      start_if-IsDue :
          (t : Teardown) (pc : PeerConnection) (c : Core World C)
          → pc.teardown ≡ t
          → IsDue p ns pc
          → IsDue p ns (start_if N to_str t pc c).0
      unfolding start_if release_channels
      start_if-IsDue scheduled pc c e (q, left, at) =
          let now = sym (ap (λ t. p t pc.closed_event) e) ∙ at in
          start_teardown-pc N to_str (IsDue p ns) pc c (q, left, up.frees pc.closed_event now)
            (q, left, up.gathers pc.closed_event (numbers pc.tasks) now)
      start_if-IsDue not_started pc c e v = v
      start_if-IsDue (gathering ks) pc c e v = v
      start_if-IsDue releasing pc c e v = v
      start_if-IsDue released pc c e v = v
      start_if-IsDue finished pc c e v = v

      finish_if-IsDue :
          (t : Teardown) (pc : PeerConnection) (c : Core World C)
          → pc.teardown ≡ t
          → IsDue p ns pc
          → IsDue p ns (finish_if N to_str t pc c).0
      unfolding finish_if release_channels
      finish_if-IsDue (gathering ks) pc c e (q, left, at) =
          let now = sym (ap (λ t. p t pc.closed_event) e) ∙ at in
          if_cases (λ (r : PeerConnection × Core World C). IsDue p ns r.0)
            (Moves.gathered ks (numbers pc.tasks)) _ _
            (λ f. (q, left, up.gathered pc.closed_event ks now)) (λ f. (q, left, at))
      finish_if-IsDue not_started pc c e v = v
      finish_if-IsDue scheduled pc c e v = v
      finish_if-IsDue releasing pc c e v = v
      finish_if-IsDue released pc c e v = v
      finish_if-IsDue finished pc c e v = v

      execute_if-IsDue :
          (t : Teardown) (pc : PeerConnection) (c : Core World C)
          → pc.teardown ≡ t
          → IsDue p ns pc
          → IsDue p ns (execute_if N to_str t pc c).0
      unfolding execute_if execute_destroy
      execute_if-IsDue releasing pc c e (q, left, at) =
          (q, left, up.executed pc.closed_event (sym (ap (λ t. p t pc.closed_event) e) ∙ at))
      execute_if-IsDue not_started pc c e v = v
      execute_if-IsDue scheduled pc c e v = v
      execute_if-IsDue (gathering ks) pc c e v = v
      execute_if-IsDue released pc c e v = v
      execute_if-IsDue finished pc c e v = v

      move_channel-IsDue :
          (i : ℕ) (m : Moves.Move (Core World C)) (o : Option DataChannel) (pc : PeerConnection)
          (c : Core World C)
          → IsDue p ns pc
          → IsDue p ns (move_channel N to_str i m o pc c).0
      unfolding move_channel
      move_channel-IsDue i m none pc c v = v
      move_channel-IsDue i m (some dc) pc c v = v

module _ (N : Native) {C : Type 0} (to_str : Value → String) (callback : ℕ → Name → C)
    (p : Teardown → Bool → Bool) (up : IsUpward p) where
  open N use {World}

  created-IsDue :
      (ns : List ℕ) (r : Result DataChannel × Core World C) (pc : PeerConnection)
      → IsDue p ns pc
      → IsDue p ns (created N to_str callback r pc).0
  unfolding created accept_channel add_channel emit
  created-IsDue ns (raises e, c) pc v = v
  created-IsDue ns (ok dc, c) pc v = v

  run_call-IsDue :
      (call : Call) (ns : List ℕ) (pc : PeerConnection) (c : Core World C)
      → IsDue p ns pc
      → IsDue p ns (run_call N to_str callback call pc c).0
  unfolding run_call handle_local_description handle_local_candidate handle_ice_state
      handle_signaling_state emit handle_incoming_dc
  run_call-IsDue (described d) ns pc c v = v
  run_call-IsDue (found a) ns pc c v = v
  run_call-IsDue (state_changed s) ns pc c v = handle_state_change-IsDue p ns s pc v
  run_call-IsDue (ice_changed s) ns pc c v = v
  run_call-IsDue (gathering_changed s) ns pc c v = handle_gathering_state-IsDue p ns s pc v
  run_call-IsDue (signaling_changed s) ns pc c v = v
  run_call-IsDue (channel_came h) ns pc c v = created-IsDue ns _ pc v

  pub move-IsDue :
      (m : Move (Core World C)) (ns : List ℕ) (pc : PeerConnection) (c : Core World C)
      → IsDue p ns pc
      → IsDue p (left_by m ns) (move N to_str callback m (pc, c)).0
  unfolding move take_buffered reset_both accept_data_channel spawn_task close add_channel
  move-IsDue (runs call) ns pc c v = run_call-IsDue call ns pc c v
  move-IsDue offers ns pc c v = create_offer-pc N to_str (IsDue p ns) pc c v v
  move-IsDue answers ns pc c v = create_answer-pc N to_str (IsDue p ns) pc c v
  move-IsDue (describes t) ns pc c v = set_local_description-pc N to_str (IsDue p ns) t pc c v
  move-IsDue (candidate cand) ns pc c v = add_remote_candidate-IsDue p ns cand pc v
  move-IsDue described_remotely ns pc c v = v
  move-IsDue next_candidate ns pc c v = v
  move-IsDue next_event ns pc c v = v
  move-IsDue accepts ns pc c v = v
  move-IsDue (makes label opts) ns pc c v =
      create_data_channel-pc N to_str callback (IsDue p ns) label opts pc c v (λ dc s. v)
  move-IsDue spawns ns pc c (q, left, at) = simp q (refl, left, at)
  move-IsDue closes ns pc c (q, left, at) = simp q (refl, left, at)
  move-IsDue starts ns pc c v = start_if-IsDue p ns up N to_str pc.teardown pc c refl v
  move-IsDue finishes ns pc c v = finish_if-IsDue p ns up N to_str pc.teardown pc c refl v
  move-IsDue executes ns pc c v = execute_if-IsDue p ns up N to_str pc.teardown pc c refl v
  move-IsDue ends ns pc c v = end_if-IsDue p ns up pc.teardown pc refl v
  move-IsDue (task_ends n) ns pc c (q, left, at) =
      (q, discard-numbers n pc.tasks ∙ ap (without n) left, at)
  move-IsDue (owned i m) ns pc c v =
      move_channel-IsDue p ns up N to_str i m (get_elem? pc.data_channels i) pc c v
  move-IsDue cancels_gathering ns pc c v = v
  move-IsDue cancels_description ns pc c v = v
  move-IsDue (changes d) ns pc c v = v

  pub moves-IsDue :
      (ms : List (Move (Core World C))) (ns : List ℕ) (pc : PeerConnection) (c : Core World C)
      → IsDue p ns pc
      → IsDue p (left_after left_by ms ns) (moves N to_str callback ms (pc, c)).0
  unfolding moves left_after
  moves-IsDue [] ns pc c v = v
  moves-IsDue (m ∷ ms) ns pc c v =
      let (d, e) = move N to_str callback m (pc, c) in
      moves-IsDue ms (left_by m ns) d e (move-IsDue m ns pc c v)
