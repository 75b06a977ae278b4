-- ===== src/Peer/Moves/Stages.antt =====
-- The stages of the teardown task, and the moves of channels, keep the invariant of a PeerConnection
-- (aiolibdatachannel/peer_connection.py).
use Prim.Native.String.{String}
use aiolibdatachannel.Prelude.{
  ◌≢◌, ℕ, ◌≡◌, refl, true, Option, none, some, arith, if_cases, get_elem?,
}
use aiolibdatachannel.Native.{Native, Value}
use aiolibdatachannel.Core.Machine.{Core}
use aiolibdatachannel.Tasks.{
  numbers, Teardown, not_started, scheduled, gathering, releasing, released, finished,
}
use aiolibdatachannel.Channel.{DataChannel}
use aiolibdatachannel.Channel.Api.Moves
use aiolibdatachannel.Channel.Api.Moves.Runs.{move-IsSafe}
use aiolibdatachannel.Peer.{PeerConnection}
use aiolibdatachannel.Peer.Lifecycle.{
  execute_destroy, end_teardown, destroy_channels, release_channels,
}
use aiolibdatachannel.Peer.Lifecycle.Made.{start_teardown-pc, destroy_channels-All}
use aiolibdatachannel.Peer.Moves.{execute_if, end_if, start_if, finish_if, move_channel}
use aiolibdatachannel.Peer.Moves.Live.{IsLive}
use aiolibdatachannel.Peer.Moves.Steps.{All-set, All-get, channels-IsLive, asked_for}

-- A step of the teardown task before its end.
stage-IsLive :
    (t : Teardown) (pc : PeerConnection)
    → pc.closed ≡ true
    → pc.teardown ≢ finished
    → IsLive pc
    → IsLive (record pc { teardown = t })
stage-IsLive t pc shut at v = record {
  candidates = v.candidates;
  incoming = v.incoming;
  events = v.events;
  visited = v.visited;
  begun = λ e. absurd (ground (arith, e, shut));
  reported = λ e. absurd (at (v.reported e));
  tasked = v.tasked;
  channels = v.channels;
}

pub end_if-IsLive :
    (t : Teardown) (pc : PeerConnection) → pc.teardown ≡ t → IsLive pc → IsLive (end_if t pc)
unfolding end_if end_teardown
end_if-IsLive released pc e v = record {
  candidates = v.candidates;
  incoming = v.incoming;
  events = v.events;
  visited = v.visited;
  begun = λ f. absurd (ground (arith, v.begun f, e));
  reported = λ f. refl;
  tasked = v.tasked;
  channels = v.channels;
}
end_if-IsLive not_started pc e v = v
end_if-IsLive scheduled pc e v = v
end_if-IsLive (gathering ns) pc e v = v
end_if-IsLive releasing pc e v = v
end_if-IsLive finished pc e v = v

module _ (N : Native) {C : Type 0} (to_str : Value → String) where
  open N use {World}

  release-IsLive :
      (pc : PeerConnection) (c : Core World C)
      → pc.closed ≡ true
      → pc.teardown ≢ finished
      → IsLive pc
      → IsLive (release_channels N to_str pc c).0
  unfolding release_channels
  release-IsLive pc c shut at v =
      stage-IsLive releasing
        (record pc { data_channels = (destroy_channels N to_str pc.data_channels c).0 }) shut at
        (channels-IsLive _ pc (destroy_channels-All N to_str pc.data_channels c v.channels) v)

  pub start-IsLive :
      (t : Teardown) (pc : PeerConnection) (c : Core World C)
      → pc.teardown ≡ t
      → IsLive pc
      → IsLive (start_if N to_str t pc c).0
  unfolding start_if
  start-IsLive scheduled pc c e v =
      let shut = asked_for pc v (λ f. absurd (cc)) in
      start_teardown-pc N to_str IsLive pc c (release-IsLive pc c shut (λ f. absurd (cc)) v)
        (stage-IsLive (gathering (numbers pc.tasks)) pc shut (λ f. absurd (cc)) v)
  start-IsLive not_started pc c e v = v
  start-IsLive releasing pc c e v = v
  start-IsLive released pc c e v = v
  start-IsLive finished pc c e v = v
  start-IsLive (gathering ns) pc c e v = v

  pub finish_if-IsLive :
      (t : Teardown) (pc : PeerConnection) (c : Core World C)
      → pc.teardown ≡ t
      → IsLive pc
      → IsLive (finish_if N to_str t pc c).0
  unfolding finish_if
  finish_if-IsLive (gathering ns) pc c e v =
      if_cases (λ (r : PeerConnection × Core World C). IsLive r.0)
        (Moves.gathered ns (numbers pc.tasks)) _ _
        (λ f. release-IsLive pc c (asked_for pc v (λ g. absurd (cc))) (λ g. absurd (cc)) v) (λ f. v)
  finish_if-IsLive not_started pc c e v = v
  finish_if-IsLive releasing pc c e v = v
  finish_if-IsLive released pc c e v = v
  finish_if-IsLive scheduled pc c e v = v
  finish_if-IsLive finished pc c e v = v

  pub execute_if-IsLive :
      (t : Teardown) (pc : PeerConnection) (c : Core World C)
      → pc.teardown ≡ t
      → IsLive pc
      → IsLive (execute_if N to_str t pc c).0
  unfolding execute_if execute_destroy
  execute_if-IsLive releasing pc c e v =
      stage-IsLive released pc (asked_for pc v (λ g. absurd (cc))) (λ g. absurd (cc)) v
  execute_if-IsLive not_started pc c e v = v
  execute_if-IsLive scheduled pc c e v = v
  execute_if-IsLive (gathering ns) pc c e v = v
  execute_if-IsLive released pc c e v = v
  execute_if-IsLive finished pc c e v = v

  pub channel-IsLive :
      (i : ℕ) (m : Moves.Move (Core World C)) (o : Option DataChannel) (pc : PeerConnection)
      (c : Core World C)
      → get_elem? pc.data_channels i ≡ o
      → IsLive pc
      → IsLive (move_channel N to_str i m o pc c).0
  unfolding move_channel
  channel-IsLive i m none pc c e v = v
  channel-IsLive i m (some dc) pc c e v =
      let safe = All-get pc.data_channels i dc v.channels e in
      channels-IsLive _ pc
        (All-set pc.data_channels i (Moves.move N to_str m (dc, c)).0 v.channels
          (move-IsSafe N to_str m dc c safe))
        v
