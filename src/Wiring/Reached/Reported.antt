-- ===== src/Wiring/Reached/Reported.antt =====
-- The whole way of a report of the extension through aiolibdatachannel/: from the constructor of the
-- connection to the call that the loop is to make for it.
use Prim.Native.String.{String}
use aiolibdatachannel.Prelude.{[], ℕ, Bool, true, false, ◌≡◌, refl, List, some, map, get_elem?}
use aiolibdatachannel.Prelude.Dict
use aiolibdatachannel.Errors.{ok}
use aiolibdatachannel.Native.{Native, Value, Name}
use aiolibdatachannel.Loop.{EventLoop}
use aiolibdatachannel.Config.{RtcConfiguration}
use aiolibdatachannel.Core.Registry.{Registry, Wrapper, callback_kind}
use aiolibdatachannel.Core.Registry.Held.{stored}
use aiolibdatachannel.Core.Registry.Stands.{Stands}
use aiolibdatachannel.Core.Dispatch.Routing.{IsHeld}
use aiolibdatachannel.Core.Machine.{Core, start}
use aiolibdatachannel.Channel.{DataChannel}
use aiolibdatachannel.Channel.Create.{names}
use aiolibdatachannel.Peer.{PeerConnection}
use aiolibdatachannel.Peer.Create.{create_peer}
use aiolibdatachannel.Wiring.{Bound, of_peer, of_channel, LoopCall, channel_call, bound, receive}
use aiolibdatachannel.Wiring.Reports.{
  ChannelReport, open_, closed_, error, message, buffered_amount_low, channel_emission,
  channel_calls, channel_name,
}
use aiolibdatachannel.Wiring.Reports.Fires.{scheduled, receive-channel_emission}
use aiolibdatachannel.Wiring.Steady.{Step, steps}
use aiolibdatachannel.Wiring.Reached.{begun, AreFair, program-Reaches}

stored-channel_name :
    (i : ℕ) (r : ChannelReport)
    → Dict.get (callback_kind (channel_name r)) (stored (bound i) names [])
      ≡ some (of_channel i (channel_name r))
unfolding stored Dict.put Dict.get callback_kind
stored-channel_name i open_ = refl
stored-channel_name i closed_ = refl
stored-channel_name i (error m) = refl
stored-channel_name i (message m) = refl
stored-channel_name i buffered_amount_low = refl

-- The wrapper object that stands for what is not destroyed holds the callbacks.
Stands-IsHeld :
    (callbacks : List (ℕ × Bound)) (s : Registry Bound) (name : Name) (c : Bound) (n : ℕ) (b : Bool)
    (w : Wrapper Bound)
    → b ≡ false
    → Dict.get (callback_kind name) callbacks ≡ some c
    → Stands s callbacks b n
    → get_elem? s.objects n ≡ some w
    → IsHeld s w.handle name c
Stands-IsHeld callbacks s name c n true w f has v at = absurd (cc)
Stands-IsHeld callbacks s name c n false w f has (h, e) at =
    let same : record { handle = h; callbacks = callbacks; destroyed = false } ≡ w = cc in
    (n, w, at, refl, rw (← same) refl, rw (← same) has)

module _ (N : Native) (to_str : Value → String) where
  open N use {World}

  -- What the extension reports for the handle of a channel of a connection that `__init__` has made,
  -- at any time in the connection's life and whatever it has gone through, while the channel is not
  -- destroyed and the loop is open: that it is open or closed, an error, a message, or that its
  -- buffer is low. It puts the one call of that channel's handler that is meant for it, with what
  -- was reported, onto the loop, after the calls that are there, and nothing else changes. Each
  -- handle that the extension has given for a new channel must not have been one of a live wrapper
  -- when it was used.
  pub channel_report_arrives :
      (cfg : RtcConfiguration) (w : World) (loop : EventLoop LoopCall) (pc : PeerConnection)
      (ss : List (Step (Core World Bound))) (i : ℕ) (dc : DataChannel) (x : Wrapper Bound)
      (r : ChannelReport)
      → (create_peer N to_str of_peer cfg (start w)).0 ≡ ok pc
      → AreFair N to_str ss (begun N to_str cfg w loop pc)
      → get_elem? (steps N to_str ss (begun N to_str cfg w loop pc)).pc.data_channels i ≡ some dc
      → dc.destroyed ≡ false
      → get_elem? (steps N to_str ss (begun N to_str cfg w loop pc)).core.dcs.objects dc.native
        ≡ some x
      → (steps N to_str ss (begun N to_str cfg w loop pc)).loop.closed ≡ false
      → let a = steps N to_str ss (begun N to_str cfg w loop pc) in
        receive to_str (channel_emission x.handle r) a
        ≡ scheduled (map (channel_call i) (channel_calls r)) a
  channel_report_arrives cfg w loop pc ss i dc x r made fair there alive object up =
      let v = program-Reaches N to_str cfg w loop pc ss made fair in
      let a = steps N to_str ss (begun N to_str cfg w loop pc) in
      receive-channel_emission to_str x.handle i r a v.reached.on up v.reached.sound.dcs_ok (
        Stands-IsHeld _ a.core.dcs (channel_name r) (of_channel i (channel_name r)) dc.native
          dc.destroyed x alive (stored-channel_name i r) (v.reached.channels.stands i dc there)
          object)
