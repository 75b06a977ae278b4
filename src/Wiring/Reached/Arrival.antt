-- ===== src/Wiring/Reached/Arrival.antt =====
-- The whole way of a message through aiolibdatachannel/: from the constructor of the connection to
-- the receive queue of one of its channels.
use Prim.Native.String.{String}
use aiolibdatachannel.Prelude.{[], ℕ, Bool, true, ◌≡◌, refl, false, List, some, map, set, get_elem?}
use aiolibdatachannel.Prelude.Dict
use aiolibdatachannel.Errors.{ok}
use aiolibdatachannel.Native.{Native, Value, Name}
use aiolibdatachannel.Loop.{EventLoop}
use aiolibdatachannel.Config.{RtcConfiguration}
use aiolibdatachannel.Core.Registry.{Registry, Wrapper, callback_kind}
use aiolibdatachannel.Core.Registry.Held.{stored}
use aiolibdatachannel.Core.Registry.Stands.{Stands}
use aiolibdatachannel.Core.Dispatch.Routing.{IsHeld}
use aiolibdatachannel.Core.Machine.{Core, start}
use aiolibdatachannel.Channel.{DataChannel, Message}
use aiolibdatachannel.Channel.Create.{names}
use aiolibdatachannel.Channel.Api.Receive.{handle_all}
use aiolibdatachannel.Peer.{PeerConnection}
use aiolibdatachannel.Peer.Create.{create_peer}
use aiolibdatachannel.Wiring.{Bound, of_peer, of_channel, LoopCall, bound, receive_all, spin}
use aiolibdatachannel.Wiring.Messages.{report, spin-report}
use aiolibdatachannel.Wiring.Steady.{Step, steps}
use aiolibdatachannel.Wiring.Reached.{begun, AreFair, program-Reaches}

-- The object of a channel that is not destroyed holds the message callback of its place.
Stands-IsHeld :
    (r : Registry Bound) (i n : ℕ) (b : Bool) (w : Wrapper Bound)
    → b ≡ false
    → Stands r (stored (bound i) names []) b n
    → get_elem? r.objects n ≡ some w
    → IsHeld r w.handle Name.on_message (of_channel i Name.on_message)
unfolding stored Dict.put Dict.get callback_kind
Stands-IsHeld r i n true w f s at = absurd (cc)
Stands-IsHeld r i n false w f (h, e) at =
    let same : record { handle = h; callbacks = stored (bound i) names []; destroyed = false } ≡ w =
      cc in
    (n, w, at, refl, rw (← same) refl, rw (← same) refl)

module _ (N : Native) (to_str : Value → String) where
  open N use {World}

  -- The messages that the extension reports for the handle of a channel, at any time in the life of a
  -- connection that `__init__` has made and whatever it has gone through, one after the other, while
  -- the channel is not destroyed and the loop is open, are, once the loop has run, all in the receive
  -- queue of that channel the way `_handle_message` puts them there, in the order of the reports and
  -- after what the loop had to do before; nothing else about the connection and its other channels
  -- differs from what the loop would have left without the messages. Each handle that the extension
  -- has given for a new channel must not have been one of a live wrapper when it was used.
  pub messages_arrive :
      (cfg : RtcConfiguration) (w : World) (loop : EventLoop LoopCall) (pc : PeerConnection)
      (ss : List (Step (Core World Bound))) (i : ℕ) (dc d : DataChannel) (x : Wrapper Bound)
      (ms : List Message)
      → (create_peer N to_str of_peer cfg (start w)).0 ≡ ok pc
      → AreFair N to_str ss (begun N to_str cfg w loop pc)
      → get_elem? (steps N to_str ss (begun N to_str cfg w loop pc)).pc.data_channels i ≡ some dc
      → dc.destroyed ≡ false
      → get_elem? (steps N to_str ss (begun N to_str cfg w loop pc)).core.dcs.objects dc.native
        ≡ some x
      → (steps N to_str ss (begun N to_str cfg w loop pc)).loop.closed ≡ false
      → get_elem?
          (spin N to_str (steps N to_str ss (begun N to_str cfg w loop pc))).pc.data_channels
          i
        ≡ some d
      → let a = steps N to_str ss (begun N to_str cfg w loop pc) in
        (spin N to_str (receive_all to_str (map (report x.handle) ms) a)).pc
        ≡ record ((spin N to_str a).pc) {
          data_channels = set (spin N to_str a).pc.data_channels i (handle_all ms d);
        }
  messages_arrive cfg w loop pc ss i dc d x ms made fair there alive object up then_there =
      let v = program-Reaches N to_str cfg w loop pc ss made fair in
      let a = steps N to_str ss (begun N to_str cfg w loop pc) in
      spin-report N to_str x.handle i ms d a v.reached.on v.quiet up v.reached.sound.dcs_ok
        (Stands-IsHeld a.core.dcs i dc.native dc.destroyed x alive
          (v.reached.channels.stands i dc there) object)
        then_there
