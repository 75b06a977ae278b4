-- ===== src/Peer/Moves.antt =====
-- The life of a PeerConnection (aiolibdatachannel/peer_connection.py) with its channels, as a
-- sequence of moves, in any order that the loop, the callers and the extension choose.
pub mod Live
pub mod Steps
pub mod Stages
pub mod Runs
pub mod Untouched
pub mod Streams
pub mod Events
pub mod Incoming
pub mod Visited
pub mod Late
pub mod Endings
pub mod Awaited
pub mod Due
pub mod Onward
pub mod Completes
pub mod Reach
use Prim.Native.String.{String}
use aiolibdatachannel.Prelude.{
  ℕ, Bool, true, false, List, [], ◌∷◌, Option, none, some, get_elem?, set, if◌then◌else◌,
}
use aiolibdatachannel.Native.{Native, Value, Name}
use aiolibdatachannel.Core.Machine.{Core}
use aiolibdatachannel.Tasks.{
  discard, numbers, Teardown, not_started, scheduled, gathering, releasing, released, finished,
}
use aiolibdatachannel.Channel.{DataChannel}
use aiolibdatachannel.Channel.Api.Moves
use aiolibdatachannel.Loop.{cancel_waiter}
use aiolibdatachannel.Peer.{PeerConnection, SdpType}
use aiolibdatachannel.Peer.Callbacks.{Call, run_call}
use aiolibdatachannel.Peer.Negotiation.{create_offer, create_answer, set_local_description}
use aiolibdatachannel.Peer.Remote.{Candidate, add_remote_candidate, take_buffered}
use aiolibdatachannel.Peer.Iterators.{round, accept_data_channel}
use aiolibdatachannel.Peer.Lifecycle.{
  DataChannelOptions, spawn_task, close, create_data_channel, start_teardown, release_channels,
  execute_destroy, end_teardown,
}

-- The loop runs a scheduled handler or steps the teardown task, whose native part the executor
-- runs; a caller negotiates, gives a remote candidate, lets an iterator do a round, makes a
-- channel, spawns or closes; a coroutine that waits for the gathering or for the local description
-- is cancelled; the executor has applied a remote description; a task ends; a channel makes a move
-- of its own; and the extension's state changes.
pub data Move (S : Type 0) : Type 0 where
  runs : Call → Move S
  offers answers : Move S
  describes : Option SdpType → Move S
  candidate : Candidate → Move S
  described_remotely : Move S
  next_candidate next_event accepts : Move S
  makes : String → DataChannelOptions → Move S
  spawns closes starts finishes executes ends : Move S
  cancels_gathering cancels_description : Move S
  task_ends : ℕ → Move S
  owned : ℕ → Moves.Move S → Move S
  changes : S → Move S

pub end_if : Teardown → PeerConnection → PeerConnection
end_if released pc = end_teardown pc
end_if t pc = pc

module _ (N : Native) {C : Type 0} (to_str : Value → String) where
  open N use {World}

  pub start_if : Teardown → PeerConnection → Core World C → PeerConnection × Core World C
  start_if scheduled pc c = start_teardown N to_str pc c
  start_if t pc c = (pc, c)

  pub finish_if : Teardown → PeerConnection → Core World C → PeerConnection × Core World C
  finish_if (gathering ns) pc c =
      if Moves.gathered ns (numbers pc.tasks) then release_channels N to_str pc c else (pc, c)
  finish_if t pc c = (pc, c)

  pub execute_if : Teardown → PeerConnection → Core World C → PeerConnection × Core World C
  execute_if releasing pc c = execute_destroy N to_str pc c
  execute_if t pc c = (pc, c)

  -- The channel at a place moves.
  pub move_channel :
      ℕ
      → Moves.Move (Core World C)
      → Option DataChannel
      → PeerConnection
      → Core World C
      → PeerConnection × Core World C
  move_channel i m none pc c = (pc, c)
  move_channel i m (some dc) pc c =
      let r = Moves.move N to_str m (dc, c) in
      (record pc { data_channels = set pc.data_channels i r.0 }, r.1)

module _ (N : Native) {C : Type 0} (to_str : Value → String) (callback : ℕ → Name → C) where
  open N use {World}

  unfoldable pub move :
      Move (Core World C) → PeerConnection × Core World C → PeerConnection × Core World C
  unfolding start_if finish_if execute_if end_if move_channel
  move (runs call) (pc, c) = run_call N to_str callback call pc c
  move offers (pc, c) = let r = create_offer N to_str pc c in (r.1, r.2)
  move answers (pc, c) = let r = create_answer N to_str pc c in (r.1, r.2)
  move (describes t) (pc, c) = let r = set_local_description N to_str t pc c in (r.1, r.2)
  move (candidate cand) (pc, c) = ((add_remote_candidate cand pc).1, c)
  move described_remotely (pc, c) = ((take_buffered pc).1, c)
  move next_candidate (pc, c) = (record pc { ice_candidates = (round pc.ice_candidates).1 }, c)
  move next_event (pc, c) = (record pc { events_queue = (round pc.events_queue).1 }, c)
  move accepts (pc, c) = ((accept_data_channel pc).1, c)
  move (makes label opts) (pc, c) =
      let r = create_data_channel N to_str callback label opts pc c in (r.1, r.2)
  move spawns (pc, c) = ((spawn_task pc).1, c)
  move closes (pc, c) = (close pc, c)
  move starts (pc, c) = start_if N to_str pc.teardown pc c
  move finishes (pc, c) = finish_if N to_str pc.teardown pc c
  move executes (pc, c) = execute_if N to_str pc.teardown pc c
  move ends (pc, c) = (end_if pc.teardown pc, c)
  move (task_ends n) (pc, c) = (record pc { tasks = discard n pc.tasks }, c)
  move (owned i m) (pc, c) = move_channel N to_str i m (get_elem? pc.data_channels i) pc c
  move cancels_gathering (pc, c) =
      (record pc { gathering_complete = cancel_waiter pc.gathering_complete }, c)
  move cancels_description (pc, c) =
      (record pc { local_description = cancel_waiter pc.local_description }, c)
  move (changes d) (pc, c) = (pc, d)

  unfoldable pub moves :
      List (Move (Core World C)) → PeerConnection × Core World C → PeerConnection × Core World C
  moves [] s = s
  moves (m ∷ ms) s = moves ms (move m s)
