-- ===== src/Peer/Moves/Reach/Stages.antt =====
-- How a connection (aiolibdatachannel/peer_connection.py) and its channels can be reached through
-- the registries, as it is torn down and as its channels move.
use Prim.Native.String.{String}
use aiolibdatachannel.Prelude.{
  ℕ, set, ◌≡◌, refl, ◌∙◌, false, Option, none, some, get_elem?, if_cases,
}
use aiolibdatachannel.Native.{Native, Value, Name}
use aiolibdatachannel.Core.Registry.Stands.{released-Stands}
use aiolibdatachannel.Core.Machine.{Core, call}
use aiolibdatachannel.Core.Machine.Frame.{SameTables-refl}
use aiolibdatachannel.Core.Calls.Soundness.{exec-IsSound, exec, pc_delete, pc_destroy-tables}
use aiolibdatachannel.Tasks.{
  Teardown, not_started, scheduled, gathering, releasing, released, finished, numbers,
}
use aiolibdatachannel.Channel
use aiolibdatachannel.Channel.{DataChannel}
use aiolibdatachannel.Channel.Api.Moves
use aiolibdatachannel.Channel.Api.Moves.Wrapped.{IsAllowed, move-Handles, quietly, run_call-Same}
use aiolibdatachannel.Peer.{PeerConnection}
use aiolibdatachannel.Peer.Lifecycle.{release_channels, execute_destroy}
use aiolibdatachannel.Peer.Lifecycle.Made.{start_teardown-both, destroy_channels-pcs}
use aiolibdatachannel.Peer.Moves.{start_if, finish_if, execute_if, move_channel}
use aiolibdatachannel.Peer.Moves.Reach.Like.{gone}
use aiolibdatachannel.Peer.Moves.Reach.Owns.{handled-Owns}
use aiolibdatachannel.Peer.Moves.Reach.Released.{
  handled-IsSound, destroy_channels-Owns, destroy_channels-IsSound,
}
use aiolibdatachannel.Peer.Moves.Reach.State.{IsReached, plain-IsReached}

module _ (N : Native) {C : Type 0} (to_str : Value → String) (own : Name → C)
    (callback : ℕ → Name → C) where
  open N use {World}

  abbrev Reached : PeerConnection → Core World C → Type 0
  Reached = IsReached N to_str own callback

  pub release-IsReached :
      (pc : PeerConnection) (c : Core World C)
      → gone pc.teardown ≡ false
      → Reached pc c
      → let r = release_channels N to_str pc c in Reached r.0 r.1
  unfolding release_channels
  release-IsReached pc c early v =
      let (same, on) = destroy_channels-pcs N to_str pc.data_channels c in
      record {
        sound = destroy_channels-IsSound N to_str pc.data_channels c v.sound;
        on = on ∙ v.on;
        peer = rw same (rw early at v.peer);
        channels = destroy_channels-Owns N to_str callback pc.data_channels c v.channels;
      }

  pub start_if-IsReached :
      (t : Teardown) (pc : PeerConnection) (c : Core World C)
      → pc.teardown ≡ t
      → Reached pc c
      → let r = start_if N to_str t pc c in Reached r.0 r.1
  unfolding start_if
  start_if-IsReached scheduled pc c at v =
      let early : gone pc.teardown ≡ false = rw at refl in
      start_teardown-both N to_str Reached pc c (release-IsReached pc c early v)
        (plain-IsReached N to_str own callback pc _ c (refl, rw early refl, refl) v)
  start_if-IsReached not_started pc c at v = v
  start_if-IsReached releasing pc c at v = v
  start_if-IsReached released pc c at v = v
  start_if-IsReached finished pc c at v = v
  start_if-IsReached (gathering ns) pc c at v = v

  pub finish_if-IsReached :
      (t : Teardown) (pc : PeerConnection) (c : Core World C)
      → pc.teardown ≡ t
      → Reached pc c
      → let r = finish_if N to_str t pc c in Reached r.0 r.1
  unfolding finish_if
  finish_if-IsReached (gathering ns) pc c at v =
      if_cases (λ (r : PeerConnection × Core World C). Reached r.0 r.1)
        (Moves.gathered ns (numbers pc.tasks)) _ _ (λ e. release-IsReached pc c (rw at refl) v)
        (λ e. v)
  finish_if-IsReached not_started pc c at v = v
  finish_if-IsReached releasing pc c at v = v
  finish_if-IsReached released pc c at v = v
  finish_if-IsReached scheduled pc c at v = v
  finish_if-IsReached finished pc c at v = v

  pub execute_if-IsReached :
      (t : Teardown) (pc : PeerConnection) (c : Core World C)
      → pc.teardown ≡ t
      → Reached pc c
      → let r = execute_if N to_str t pc c in Reached r.0 r.1
  unfolding execute_if execute_destroy exec
  execute_if-IsReached releasing pc c at v =
      let s = pc_destroy-tables N to_str pc.native c in
      record {
        sound = exec-IsSound N to_str (pc_delete pc.native) c tt v.sound;
        on = s.same_installed ∙ v.on;
        peer = rw (s.same_pcs) (released-Stands c.pcs _ (gone pc.teardown) pc.native v.peer);
        channels = rw (s.same_dcs) v.channels;
      }
  execute_if-IsReached not_started pc c at v = v
  execute_if-IsReached scheduled pc c at v = v
  execute_if-IsReached (gathering ns) pc c at v = v
  execute_if-IsReached released pc c at v = v
  execute_if-IsReached finished pc c at v = v

  pub owned-IsReached :
      (i : ℕ) (m : Moves.Move (Core World C)) (o : Option DataChannel) (pc : PeerConnection)
      (c : Core World C)
      → get_elem? pc.data_channels i ≡ o
      → IsAllowed N to_str m c
      → Reached pc c
      → let r = move_channel N to_str i m o pc c in Reached r.0 r.1
  unfolding move_channel
  owned-IsReached i m none pc c at fair v = v
  owned-IsReached i m (some dc) pc c at fair v =
      let r = Moves.move N to_str m (dc, c) in
      let h = move-Handles N to_str m dc c fair in
      record {
        sound = handled-IsSound N to_str dc r.0 c r.1 h v.sound;
        on = h.same_installed ∙ v.on;
        peer = rw (h.same_pcs) v.peer;
        channels = handled-Owns callback pc.data_channels i dc r.0 c r.1 at h v.channels;
      }

  -- The loop runs a handler of a channel.
  pub ran-IsReached :
      (i : ℕ) (call : Channel.Call) (dc : DataChannel) (pc : PeerConnection) (c : Core World C)
      → get_elem? pc.data_channels i ≡ some dc
      → Reached pc c
      → Reached (record pc { data_channels = set pc.data_channels i (Channel.run_call call dc) }) c
  ran-IsReached i call dc pc c at v =
      let d = Channel.run_call call dc in
      let (n, b) = run_call-Same call dc in
      record {
        sound = v.sound;
        on = v.on;
        peer = v.peer;
        channels =
            handled-Owns callback pc.data_channels i dc d c c at
              (quietly dc c d c n b (SameTables-refl c)) v.channels;
      }
