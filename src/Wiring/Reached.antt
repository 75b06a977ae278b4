-- ===== src/Wiring/Reached.antt =====
-- A connection and its channels can be reached through all the layers of aiolibdatachannel/, from
-- the moment at which the connection is made.
pub mod Arrival
pub mod Reported
use Prim.Native.String.{String}
use aiolibdatachannel.Prelude.{ℕ, ap, ◌≡◌, refl, ◌∙◌, List, [], ◌∷◌, Option, none, some, get_elem?}
use aiolibdatachannel.Prelude.Dict
use aiolibdatachannel.Errors.{ok}
use aiolibdatachannel.Native.{Native, Emission, Value}
use aiolibdatachannel.Loop.{EventLoop}
use aiolibdatachannel.Config.{RtcConfiguration}
use aiolibdatachannel.Core.Machine.{Core, start, deliver}
use aiolibdatachannel.Core.Machine.Frame.{SameTables, deliver-SameTables}
use aiolibdatachannel.Core.Calls.Soundness.{IsSound}
use aiolibdatachannel.Channel
use aiolibdatachannel.Channel.{DataChannel}
use aiolibdatachannel.Peer.{PeerConnection, fresh}
use aiolibdatachannel.Peer.Create.{create_peer, pc_names}
use aiolibdatachannel.Peer.Create.Held.{create_peer-IsWired}
use aiolibdatachannel.Peer.Create.Kept.{create_peer-IsSound, create_peer-on}
use aiolibdatachannel.Core.Registry.Invariant.{empty-IsConsistent}
use aiolibdatachannel.Peer.Moves.Reach.Owns.{nothing-Owns}
use aiolibdatachannel.Peer.Moves.{move}
use aiolibdatachannel.Peer.Moves.Live.{IsLive, fresh-IsLive}
use aiolibdatachannel.Peer.Moves.Runs.{run_call-IsLive, move-IsLive}
use aiolibdatachannel.Peer.Moves.Reach.State.{IsReached, CallIsFair, IsFair, like-IsReached}
use aiolibdatachannel.Peer.Moves.Reach.Stages.{ran-IsReached}
use aiolibdatachannel.Peer.Moves.Reach.Runs.{run_call-IsReached, move-IsReached}
use aiolibdatachannel.Wiring.{
  Bound, of_peer, LoopCall, peer_call, channel_call, App, bound, receive, run_channel, run_peer,
  run_loop_call, run_calls, spin, invoke_all,
}
use aiolibdatachannel.Wiring.Steady.{Step, reports, turns, acts, step, steps, run_channel-IsLive}

module _ (N : Native) (to_str : Value → String) where
  open N use {World}

  -- The program around a connection that `__init__` has made: the callbacks that the extension has
  -- fired in its course have put their calls onto the loop.
  abbrev pub opened : PeerConnection → Core World Bound → EventLoop LoopCall → App World
  opened pc c loop = record {
    core = record c { fired = [] };
    loop = invoke_all c.fired loop;
    pc = pc;
  }

  abbrev pub begun : RtcConfiguration → World → EventLoop LoopCall → PeerConnection → App World
  begun cfg w loop pc = opened pc (create_peer N to_str of_peer cfg (start w)).1 loop

  -- Each handle that the extension reports or returns for a new channel is, when it is used, not one
  -- that a live wrapper still has; and what the extension does by itself changes no registry.
  abbrev CallsAreFair : List LoopCall → App World → Type 0
  CallsAreFair [] a = Unit
  CallsAreFair (peer_call call ∷ calls) a =
      CallIsFair N to_str of_peer bound call a.core
      × CallsAreFair calls (run_loop_call N to_str (peer_call call) a)
  CallsAreFair (channel_call i call ∷ calls) a =
      CallsAreFair calls (run_loop_call N to_str (channel_call i call) a)

  abbrev StepIsFair : Step (Core World Bound) → App World → Type 0
  StepIsFair (reports e) a = Unit
  StepIsFair turns a =
      CallsAreFair a.loop.ready (record a { loop = record (a.loop) { ready = [] } })
  StepIsFair (acts m) a = IsFair N to_str of_peer bound m a.pc a.core

  abbrev pub AreFair : List (Step (Core World Bound)) → App World → Type 0
  AreFair [] a = Unit
  AreFair (s ∷ ss) a = StepIsFair s a × AreFair ss (step N to_str s a)

  -- The registries are consistent; the connection and each channel stand for a wrapper object of
  -- their own, which is live and has their callbacks until they are destroyed; and the callbacks that
  -- the dispatcher has called have been made.
  pub record Reaches (a : App World) : Type 0 where
    pub live : IsLive a.pc
    pub reached : IsReached N to_str of_peer bound a.pc a.core
    pub quiet : a.core.fired ≡ []

  cleared :
      (pc : PeerConnection) (c : Core World Bound)
      → IsReached N to_str of_peer bound pc c
      → IsReached N to_str of_peer bound pc (record c { fired = [] })
  cleared pc c v =
      like-IsReached N to_str of_peer bound pc pc c _ (refl, refl, refl)
        (record { same_pcs = refl; same_dcs = refl; same_log = refl; same_installed = refl }) v

  receive-Reaches : (e : Emission) (a : App World) → Reaches a → Reaches (receive to_str e a)
  unfolding receive
  receive-Reaches e a v =
      let c = record (a.core) { fired = [] } in
      let s = deliver-SameTables to_str c e in
      record {
        live = v.live;
        reached =
            like-IsReached N to_str of_peer bound a.pc a.pc a.core _ (refl, refl, refl)
              (record {
                same_pcs = s.same_pcs;
                same_dcs = s.same_dcs;
                same_log = s.same_log;
                same_installed = s.same_installed;
              })
              v.reached;
        quiet = refl;
      }

  run_channel-Reaches :
      (i : ℕ) (call : Channel.Call) (o : Option DataChannel) (a : App World)
      → get_elem? a.pc.data_channels i ≡ o
      → Reaches a
      → Reaches (run_channel N to_str i call o a)
  unfolding run_channel
  run_channel-Reaches i call none a e v = v
  run_channel-Reaches i call (some dc) a e v = record {
    live = run_channel-IsLive N to_str i call (some dc) a e v.live;
    reached = ran-IsReached N to_str of_peer bound i call dc a.pc a.core e v.reached;
    quiet = v.quiet;
  }

  run_calls-Reaches :
      (calls : List LoopCall) (a : App World)
      → CallsAreFair calls a
      → Reaches a
      → Reaches (run_calls N to_str calls a)
  unfolding run_calls run_loop_call run_peer
  run_calls-Reaches [] a fair v = v
  run_calls-Reaches (peer_call call ∷ calls) a (fair, rest) v =
      run_calls-Reaches calls _ rest (record {
        live = run_call-IsLive N to_str bound call a.pc a.core v.live;
        reached =
            cleared _ _ (run_call-IsReached N to_str of_peer bound call a.pc a.core fair v.reached);
        quiet = refl;
      })
  run_calls-Reaches (channel_call i call ∷ calls) a fair v =
      run_calls-Reaches calls _ fair
        (run_channel-Reaches i call (get_elem? a.pc.data_channels i) a refl v)

  pub steps-Reaches :
      (ss : List (Step (Core World Bound))) (a : App World)
      → AreFair ss a
      → Reaches a
      → Reaches (steps N to_str ss a)
  unfolding steps spin run_peer
  steps-Reaches [] a fair v = v
  steps-Reaches (reports e ∷ ss) a (fair, rest) v = steps-Reaches ss _ rest (receive-Reaches e a v)
  steps-Reaches (turns ∷ ss) a (fair, rest) v = steps-Reaches ss _ rest (
      run_calls-Reaches a.loop.ready _ fair
        (record { live = v.live; reached = v.reached; quiet = v.quiet }))
  steps-Reaches (acts m ∷ ss) a (fair, rest) v = steps-Reaches ss _ rest (record {
    live = move-IsLive N to_str bound m a.pc a.core v.live;
    reached =
        cleared _ _ (move-IsReached N to_str of_peer bound m a.pc a.core fair v.live v.reached);
    quiet = refl;
  })

  made-Reaches :
      (cfg : RtcConfiguration) (w : World) (loop : EventLoop LoopCall) (pc : PeerConnection)
      → (create_peer N to_str of_peer cfg (start w)).0 ≡ ok pc
      → Reaches (begun cfg w loop pc)
  unfolding start fresh
  made-Reaches cfg w loop pc e =
      let c = (create_peer N to_str of_peer cfg (start w)).1 in
      let (h, (same, held)) = create_peer-IsWired N to_str of_peer cfg (start w) pc e in
      record {
        live = rw same (fresh-IsLive pc.native);
        reached = cleared pc c (record {
          sound =
              create_peer-IsSound N to_str of_peer cfg (start w)
                (λ args h made. unfold Dict.get in refl)
                (record { pcs_ok = empty-IsConsistent; dcs_ok = empty-IsConsistent });
          on = create_peer-on N to_str of_peer cfg (start w);
          peer = rw (ap (λ (p : PeerConnection). p.teardown) same) (h, held);
          channels =
              rw (ap (λ (p : PeerConnection). p.data_channels) same) (nothing-Owns bound c.dcs);
        });
        quiet = refl;
      }

  -- Whatever happens through all the layers to a connection that `__init__` has made, and in whatever
  -- order, if each handle that the extension gives for a new channel is, when it is used, not one of
  -- a live wrapper: the registries are consistent; the connection and each of its channels has a
  -- wrapper object of its own, which is live and holds just their callbacks until they are destroyed
  -- and which is destroyed then; the connection stays live; and no callback that the dispatcher has
  -- called is left to make.
  pub program-Reaches :
      (cfg : RtcConfiguration) (w : World) (loop : EventLoop LoopCall) (pc : PeerConnection)
      (ss : List (Step (Core World Bound)))
      → (create_peer N to_str of_peer cfg (start w)).0 ≡ ok pc
      → AreFair ss (begun cfg w loop pc)
      → Reaches (steps N to_str ss (begun cfg w loop pc))
  program-Reaches cfg w loop pc ss e fair = steps-Reaches ss _ fair (made-Reaches cfg w loop pc e)
