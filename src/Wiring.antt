-- ===== src/Wiring.antt =====
-- How the layers of aiolibdatachannel/ are wired together: a callback of the extension goes through
-- the dispatcher of _core.py to a bound method of peer_connection.py or data_channel.py, which puts
-- a call onto the loop, and the loop makes it.
pub mod Messages
pub mod Closed
pub mod Steady
pub mod Reached
pub mod Reports
use Prim.Native.String.{String}
use aiolibdatachannel.Prelude.{
  ℕ, Bool, false, List, [], ◌∷◌, ◌++◌, map, Option, none, some, get_elem?, set,
}
use aiolibdatachannel.Native.{Native, Emission, Value, Name, int, str, bytes}
use aiolibdatachannel.Loop.{EventLoop}
use aiolibdatachannel.Core.Dispatch.{Fired}
use aiolibdatachannel.Core.Machine.{Core, deliver}
use aiolibdatachannel.Channel
use aiolibdatachannel.Channel.{DataChannel, Message, text}
use aiolibdatachannel.Peer.{PeerConnection}
use aiolibdatachannel.Peer.Callbacks

-- The bound methods that the two classes register: of the connection, or of the channel at a place.
pub data Bound : Type 0 where
  of_peer : Name → Bound
  of_channel : ℕ → Name → Bound

-- The bound methods of a channel's own callbacks.
abbrev pub bound : ℕ → Name → Bound
bound i n = of_channel i n

-- What the loop has to call: a handler of the connection, or one of a channel.
pub data LoopCall : Type 0 where
  peer_call : Callbacks.Call → LoopCall
  channel_call : ℕ → Channel.Call → LoopCall

-- A callback that schedules on the loop, among the calls of other objects.
abbrev pub among {ℓ} :
    {A B : Type ℓ} → (A → B) → (EventLoop A → EventLoop A) → EventLoop B → EventLoop B
among g schedules loop =
    let own = schedules (record { closed = loop.closed; ready = [] }) in
    record loop { ready = loop.ready ++ map g own.ready }

-- Arguments that a method does not take raise TypeError, which `_fire` catches.
pub channel_callback : Name → List Value → EventLoop Channel.Call → EventLoop Channel.Call
channel_callback Name.on_open [] loop = Channel.cb_open loop
channel_callback Name.on_closed [] loop = Channel.cb_closed loop
channel_callback Name.on_error (str message ∷ []) loop = Channel.cb_error message loop
channel_callback Name.on_message (bytes d ∷ []) loop = Channel.cb_message (Message.bytes d) loop
channel_callback Name.on_message (str t ∷ []) loop = Channel.cb_message (text t) loop
channel_callback Name.buffered_amount_low [] loop = Channel.cb_buffered_low loop
channel_callback n args loop = loop

pub peer_callback : Name → List Value → EventLoop Callbacks.Call → EventLoop Callbacks.Call
peer_callback Name.local_description (str sdp ∷ str type ∷ []) loop =
    Callbacks.cb_local_description sdp type loop
peer_callback Name.local_candidate (str candidate ∷ str mid ∷ []) loop =
    Callbacks.cb_local_candidate candidate mid loop
peer_callback Name.state_change (int s ∷ []) loop = Callbacks.cb_state_change s loop
peer_callback Name.ice_state_change (int s ∷ []) loop = Callbacks.cb_ice_state_change s loop
peer_callback Name.gathering_state_change (int s ∷ []) loop =
    Callbacks.cb_gathering_state_change s loop
peer_callback Name.signaling_state_change (int s ∷ []) loop =
    Callbacks.cb_signaling_state_change s loop
peer_callback Name.data_channel (int handle ∷ []) loop = Callbacks.cb_data_channel handle loop
peer_callback n args loop = loop

invoke_bound : Bound → List Value → EventLoop LoopCall → EventLoop LoopCall
unfolding channel_callback peer_callback
invoke_bound (of_peer n) args loop = among peer_call (peer_callback n args) loop
invoke_bound (of_channel i n) args loop = among (channel_call i) (channel_callback n args) loop

-- `cb(*args)`.
unfoldable pub invoke : Fired Bound → EventLoop LoopCall → EventLoop LoopCall
unfolding invoke_bound
invoke f loop = invoke_bound f.callback f.args loop

unfoldable pub invoke_all : List (Fired Bound) → EventLoop LoopCall → EventLoop LoopCall
unfolding invoke
invoke_all [] loop = loop
invoke_all (f ∷ fs) loop = invoke_all fs (invoke f loop)

-- One connection with its channels, over the wrappers of _core.py.
pub record App (W : Type 0) : Type 0 where
  pub core : Core W Bound
  pub loop : EventLoop LoopCall
  pub pc : PeerConnection

module _ {W : Type 0} (to_str : Value → String) where
  -- The extension fires a callback: the dispatcher calls the bound methods at once.
  unfoldable pub receive : Emission → App W → App W
  unfolding invoke_all
  receive e a =
      let c = deliver to_str (record (a.core) { fired = [] }) e in
      record a { core = record c { fired = [] }; loop = invoke_all c.fired a.loop }

  unfoldable pub receive_all : List Emission → App W → App W
  receive_all [] a = a
  receive_all (e ∷ es) a = receive_all es (receive e a)

module _ (N : Native) (to_str : Value → String) where
  open N use {World}

  pub run_channel : ℕ → Channel.Call → Option DataChannel → App World → App World
  run_channel i call none a = a
  run_channel i call (some dc) a = record a {
    pc = record (a.pc) { data_channels = set a.pc.data_channels i (Channel.run_call call dc) };
  }

  -- The callbacks that the extension has fired in a handler's course have put their calls onto the
  -- loop.
  pub run_peer : PeerConnection × Core World Bound → App World → App World
  run_peer (pc, c) a = record a {
    pc = pc;
    core = record c { fired = [] };
    loop = invoke_all c.fired a.loop;
  }

  -- The loop makes a call.
  unfoldable pub run_loop_call : LoopCall → App World → App World
  unfolding run_channel run_peer
  run_loop_call (peer_call call) a = run_peer (Callbacks.run_call N to_str bound call a.pc a.core) a
  run_loop_call (channel_call i call) a = run_channel i call (get_elem? a.pc.data_channels i) a

  unfoldable pub run_calls : List LoopCall → App World → App World
  run_calls [] a = a
  run_calls (call ∷ calls) a = run_calls calls (run_loop_call call a)

  -- One iteration of the loop makes the calls that were ready at its start.
  unfoldable pub spin : App World → App World
  unfolding run_calls
  spin a = run_calls a.loop.ready (record a { loop = record (a.loop) { ready = [] } })
