-- ===== src/Peer/Moves/Reach/Runs.antt =====
-- How a connection (aiolibdatachannel/peer_connection.py) and its channels can be reached through
-- the registries of aiolibdatachannel/_core.py, through everything that happens to them.
use Prim.Native.String.{String}
use aiolibdatachannel.Prelude.{ℕ, ◌≡◌, refl, none, get_elem?}
use aiolibdatachannel.Prelude.Dict
use aiolibdatachannel.Native.{Native, Value, Name}
use aiolibdatachannel.Core.Machine.{Core, call}
use aiolibdatachannel.Peer.{
  PeerConnection, emit, handle_local_description, handle_local_candidate, handle_ice_state,
  handle_signaling_state,
}
use aiolibdatachannel.Peer.Callbacks.{
  Call, described, found, state_changed, ice_changed, gathering_changed, signaling_changed,
  channel_came, run_call,
}
use aiolibdatachannel.Peer.Negotiation.{reset_both}
use aiolibdatachannel.Peer.Negotiation.Frame.{
  create_offer-both, create_answer-both, set_local_description-both,
}
use aiolibdatachannel.Peer.Remote.{take_buffered}
use aiolibdatachannel.Peer.Iterators.{accept_data_channel}
use aiolibdatachannel.Peer.Lifecycle.{DataChannelOptions}
use aiolibdatachannel.Peer.Lifecycle.Made.{create_data_channel-both}
use aiolibdatachannel.Peer.Moves.{
  Move, runs, offers, answers, describes, candidate, described_remotely, next_candidate, next_event,
  accepts, makes, spawns, closes, starts, finishes, executes, ends, task_ends, owned,
  cancels_gathering, cancels_description, changes, move,
}
use aiolibdatachannel.Peer.Moves.Live.{IsLive}
use aiolibdatachannel.Peer.Moves.Reach.Like.{
  handle_state_change-Like, handle_gathering_state-Like, add_remote_candidate-Like, spawn_task-Like,
  close-Like, end_if-Like,
}
use aiolibdatachannel.Peer.Moves.Reach.State.{
  IsReached, CallIsFair, IsFair, like-IsReached, plain-IsReached, created_others, created_one,
  came-IsReached,
}
use aiolibdatachannel.Peer.Moves.Reach.Stages.{
  start_if-IsReached, finish_if-IsReached, execute_if-IsReached, owned-IsReached,
}

module _ (N : Native) {C : Type 0} (to_str : Value → String) (own : Name → C)
    (callback : ℕ → Name → C) where
  open N use {World}

  abbrev Reached : PeerConnection → Core World C → Type 0
  Reached = IsReached N to_str own callback

  pub run_call-IsReached :
      (call : Call) (pc : PeerConnection) (c : Core World C)
      → CallIsFair N to_str own callback call c
      → Reached pc c
      → let r = run_call N to_str callback call pc c in Reached r.0 r.1
  unfolding run_call handle_local_description handle_local_candidate handle_ice_state
      handle_signaling_state emit
  run_call-IsReached (described d) pc c fair v =
      plain-IsReached N to_str own callback pc _ c (refl, refl, refl) v
  run_call-IsReached (found a) pc c fair v =
      plain-IsReached N to_str own callback pc _ c (refl, refl, refl) v
  run_call-IsReached (state_changed s) pc c fair v =
      plain-IsReached N to_str own callback pc _ c (handle_state_change-Like s pc) v
  run_call-IsReached (ice_changed s) pc c fair v =
      plain-IsReached N to_str own callback pc _ c (refl, refl, refl) v
  run_call-IsReached (gathering_changed s) pc c fair v =
      plain-IsReached N to_str own callback pc _ c (handle_gathering_state-Like s pc) v
  run_call-IsReached (signaling_changed s) pc c fair v =
      plain-IsReached N to_str own callback pc _ c (refl, refl, refl) v
  run_call-IsReached (channel_came h) pc c fair v =
      came-IsReached N to_str own callback pc h c fair v

  made-IsReached :
      (label : String) (opts : DataChannelOptions) (pc : PeerConnection) (c : Core World C)
      → IsFair N to_str own callback (makes label opts) pc c
      → Reached pc c
      → let r = move N to_str callback (makes label opts) (pc, c) in Reached r.0 r.1
  unfolding move
  made-IsReached label opts pc c fair v =
      create_data_channel-both N to_str callback Reached label opts pc c
        (λ e s. like-IsReached N to_str own callback pc pc c e (refl, refl, refl) s v)
        (λ h e was s.
          let free : Dict.get h e.dcs.table ≡ none = rw (s.same_dcs) (fair h was) in
          let w = like-IsReached N to_str own callback pc pc c e (refl, refl, refl) s v in
          (
            created_others N to_str own callback pc h e free w,
            λ dc made. created_one N to_str own callback pc h e free dc made w,
          ))

  pub move-IsReached :
      (m : Move (Core World C)) (pc : PeerConnection) (c : Core World C)
      → IsFair N to_str own callback m pc c
      → IsLive pc
      → Reached pc c
      → let r = move N to_str callback m (pc, c) in Reached r.0 r.1
  unfolding move take_buffered reset_both accept_data_channel
  move-IsReached (runs call) pc c fair l v = run_call-IsReached call pc c fair v
  move-IsReached offers pc c fair l v =
      create_offer-both N to_str Reached pc c v
        (λ e s. like-IsReached N to_str own callback pc _ c e (refl, refl, refl) s v)
  move-IsReached answers pc c fair l v =
      create_answer-both N to_str Reached pc c
        (λ e s. like-IsReached N to_str own callback pc _ c e (refl, refl, refl) s v)
  move-IsReached (describes t) pc c fair l v =
      set_local_description-both N to_str Reached t pc c
        (λ e s. like-IsReached N to_str own callback pc _ c e (refl, refl, refl) s v)
  move-IsReached (candidate cand) pc c fair l v =
      plain-IsReached N to_str own callback pc _ c (add_remote_candidate-Like cand pc) v
  move-IsReached described_remotely pc c fair l v =
      plain-IsReached N to_str own callback pc _ c (refl, refl, refl) v
  move-IsReached next_candidate pc c fair l v =
      plain-IsReached N to_str own callback pc _ c (refl, refl, refl) v
  move-IsReached next_event pc c fair l v =
      plain-IsReached N to_str own callback pc _ c (refl, refl, refl) v
  move-IsReached accepts pc c fair l v =
      plain-IsReached N to_str own callback pc _ c (refl, refl, refl) v
  move-IsReached (makes label opts) pc c fair l v = made-IsReached label opts pc c fair v
  move-IsReached spawns pc c fair l v =
      plain-IsReached N to_str own callback pc _ c (spawn_task-Like pc) v
  move-IsReached closes pc c fair l v =
      plain-IsReached N to_str own callback pc _ c (close-Like pc l.begun) v
  move-IsReached starts pc c fair l v =
      start_if-IsReached N to_str own callback pc.teardown pc c refl v
  move-IsReached finishes pc c fair l v =
      finish_if-IsReached N to_str own callback pc.teardown pc c refl v
  move-IsReached executes pc c fair l v =
      execute_if-IsReached N to_str own callback pc.teardown pc c refl v
  move-IsReached ends pc c fair l v =
      plain-IsReached N to_str own callback pc _ c (end_if-Like pc.teardown pc refl) v
  move-IsReached (task_ends n) pc c fair l v =
      plain-IsReached N to_str own callback pc _ c (refl, refl, refl) v
  move-IsReached (owned i m) pc c fair l v =
      owned-IsReached N to_str own callback i m (get_elem? pc.data_channels i) pc c refl fair v
  move-IsReached cancels_gathering pc c fair l v =
      plain-IsReached N to_str own callback pc _ c (refl, refl, refl) v
  move-IsReached cancels_description pc c fair l v =
      plain-IsReached N to_str own callback pc _ c (refl, refl, refl) v
  move-IsReached (changes d) pc c fair l v =
      like-IsReached N to_str own callback pc pc c d (refl, refl, refl) fair v
