-- ===== src/Wiring/Closed.antt =====
-- Callbacks that the extension fires after the event loop of aiolibdatachannel/ has been closed.
use Prim.Native.String.{String}
use mathlib.Core.List.{append-nil}
use aiolibdatachannel.Prelude.{◌≡◌, refl, ap, ◌∙◌, true, List, [], ◌∷◌, ◌++◌, map}
use aiolibdatachannel.Errors.{Result, ok, raises}
use aiolibdatachannel.Native.{Emission, Value, Name, int, str, bytes}
use aiolibdatachannel.Enums.{to_rtc_state, to_ice_state, to_gathering_state, to_signaling_state}
use aiolibdatachannel.Loop.{EventLoop, schedule}
use aiolibdatachannel.Core.Dispatch.{Fired}
use aiolibdatachannel.Core.Machine.{deliver}
use aiolibdatachannel.Channel
use aiolibdatachannel.Peer.Callbacks
use aiolibdatachannel.Peer.Callbacks.{schedule_ok}
use aiolibdatachannel.Wiring.{
  Bound, of_peer, of_channel, LoopCall, peer_call, channel_call, among, channel_callback,
  peer_callback, invoke_bound, invoke, invoke_all, App, receive, receive_all,
}

channel_callback-closed :
    (n : Name) (args : List Value) (loop : EventLoop Channel.Call)
    → loop.closed ≡ true
    → channel_callback n args loop ≡ loop
unfolding channel_callback Channel.cb_open Channel.cb_closed Channel.cb_error Channel.cb_message
    Channel.cb_buffered_low schedule
channel_callback-closed Name.on_open [] loop e = rw e refl
channel_callback-closed Name.on_closed [] loop e = rw e refl
channel_callback-closed Name.on_error (str m ∷ []) loop e = rw e refl
channel_callback-closed Name.on_message (bytes d ∷ []) loop e = rw e refl
channel_callback-closed Name.on_message (str t ∷ []) loop e = rw e refl
channel_callback-closed Name.buffered_amount_low [] loop e = rw e refl
channel_callback-closed n args loop e = refl

schedule_ok-closed :
    {A : Type 0} (handler : A → Callbacks.Call) (r : Result A) (loop : EventLoop Callbacks.Call)
    → loop.closed ≡ true
    → schedule_ok handler r loop ≡ loop
unfolding schedule_ok schedule
schedule_ok-closed handler (ok a) loop e = rw e refl
schedule_ok-closed handler (raises x) loop e = refl

peer_callback-closed :
    (n : Name) (args : List Value) (loop : EventLoop Callbacks.Call)
    → loop.closed ≡ true
    → peer_callback n args loop ≡ loop
unfolding peer_callback Callbacks.cb_local_description Callbacks.cb_local_candidate
    Callbacks.cb_state_change Callbacks.cb_ice_state_change Callbacks.cb_gathering_state_change
    Callbacks.cb_signaling_state_change Callbacks.cb_data_channel schedule
peer_callback-closed Name.local_description (str s ∷ str t ∷ []) loop e = rw e refl
peer_callback-closed Name.local_candidate (str s ∷ str t ∷ []) loop e = rw e refl
peer_callback-closed Name.state_change (int s ∷ []) loop e =
    schedule_ok-closed Callbacks.state_changed (to_rtc_state s) loop e
peer_callback-closed Name.ice_state_change (int s ∷ []) loop e =
    schedule_ok-closed Callbacks.ice_changed (to_ice_state s) loop e
peer_callback-closed Name.gathering_state_change (int s ∷ []) loop e =
    schedule_ok-closed Callbacks.gathering_changed (to_gathering_state s) loop e
peer_callback-closed Name.signaling_state_change (int s ∷ []) loop e =
    schedule_ok-closed Callbacks.signaling_changed (to_signaling_state s) loop e
peer_callback-closed Name.data_channel (int h ∷ []) loop e = rw e refl
peer_callback-closed n args loop e = refl

among-closed :
    {A : Type 0} (g : A → LoopCall) (schedules : EventLoop A → EventLoop A)
    (loop : EventLoop LoopCall)
    → ((own : EventLoop A) → own.closed ≡ true → schedules own ≡ own)
    → loop.closed ≡ true
    → among g schedules loop ≡ loop
among-closed {A = A} g schedules loop h e =
    let own : EventLoop A = record { closed = loop.closed; ready = [] } in
    ap {A = EventLoop A} {B = EventLoop LoopCall}
      (λ o. record loop { ready = loop.ready ++ map g o.ready }) (h own e)
    ∙ rw (append-nil loop.ready) refl

bound-closed :
    (b : Bound) (args : List Value) (loop : EventLoop LoopCall)
    → loop.closed ≡ true
    → invoke_bound b args loop ≡ loop
unfolding invoke_bound
bound-closed (of_peer n) args loop e =
    among-closed peer_call (peer_callback n args) loop (peer_callback-closed n args) e
bound-closed (of_channel i n) args loop e =
    among-closed (channel_call i) (channel_callback n args) loop (channel_callback-closed n args) e

invoke_all-closed :
    (fs : List (Fired Bound)) (loop : EventLoop LoopCall)
    → loop.closed ≡ true
    → invoke_all fs loop ≡ loop
unfolding invoke_all invoke
invoke_all-closed [] loop e = refl
invoke_all-closed (f ∷ fs) loop e =
    ap (invoke_all fs) (bound-closed f.callback f.args loop e) ∙ invoke_all-closed fs loop e

module _ {W : Type 0} (to_str : Value → String) where
  -- Once the loop is closed, whatever the extension still reports, to whatever callbacks, changes
  -- neither the connection, with its channels, nor what the loop has to call.
  pub receive_all-closed :
      (es : List Emission) (a : App W)
      → a.loop.closed ≡ true
      → ((receive_all to_str es a).pc ≡ a.pc) × ((receive_all to_str es a).loop ≡ a.loop)
  unfolding receive_all receive
  receive_all-closed [] a e = (refl, refl)
  receive_all-closed (x ∷ xs) a e =
      let d = deliver to_str (record (a.core) { fired = [] }) x in
      let same = invoke_all-closed d.fired a.loop e in
      let rest = receive_all-closed xs (receive to_str x a) (ap (λ l. l.closed) same ∙ e) in
      (rest.0, rest.1 ∙ same)
