-- ===== src/Wiring/Reports.antt =====
-- What the reports of the extension put onto the loop, through the dispatcher of
-- aiolibdatachannel/_core.py and the callbacks that peer_connection.py and data_channel.py register.
pub mod Fires
use Prim.Native.String.{String}
use aiolibdatachannel.Prelude.{
  ℕ, zero, suc, ◌≡◌, refl, ap, ◌∙◌, true, false, List, [], ◌∷◌, ◌++◌, map, some, arith, get_elem?,
}
use aiolibdatachannel.Prelude.Dict
use aiolibdatachannel.Errors.{Result, ok, raises}
use aiolibdatachannel.Native.{Native, Emission, Value, Name, int, str, bytes, bool}
use aiolibdatachannel.Asyncio.GivenUp.{entry_at}
use aiolibdatachannel.Enums.{
  RtcState, IceState, GatheringState, SignalingState, to_rtc_state, to_ice_state,
  to_gathering_state, to_signaling_state,
}
use aiolibdatachannel.Loop.{EventLoop, schedule}
use aiolibdatachannel.Core.Registry.{Registry, Wrapper, callback_kind}
use aiolibdatachannel.Core.Registry.Held.{stored}
use aiolibdatachannel.Core.Registry.Stands.{Stands}
use aiolibdatachannel.Core.Registry.Invariant.{IsConsistent}
use aiolibdatachannel.Core.Dispatch.{dispatch}
use aiolibdatachannel.Core.Dispatch.Routing.{IsHeld, dispatch-fires, fits, passed}
use aiolibdatachannel.Core.Machine.Frame.{deliver-fires}
use aiolibdatachannel.Channel
use aiolibdatachannel.Channel.{Message, text}
use aiolibdatachannel.Channel.Create.{names}
use aiolibdatachannel.Peer.{coerce_sdp_type, offer}
use aiolibdatachannel.Peer.Callbacks
use aiolibdatachannel.Peer.Create.{pc_names}
use aiolibdatachannel.Wiring.{
  Bound, of_peer, of_channel, LoopCall, peer_call, channel_call, App, among, bound, invoke,
  invoke_bound, channel_callback, peer_callback, invoke_all, receive,
}

-- What the extension can report of a connection, and of a channel; a state is its number in the C
-- API.
pub data PeerReport : Type 0 where
  description candidate : String → String → PeerReport
  state ice_state gathering_state signaling_state : ℕ → PeerReport
  data_channel : ℕ → PeerReport

pub data ChannelReport : Type 0 where
  open_ closed_ buffered_amount_low : ChannelReport
  error : String → ChannelReport
  message : Message → ChannelReport

-- The callback of the extension that reports it, by its number, with its payload.
abbrev pub peer_emission : ℕ → PeerReport → Emission
peer_emission h (description sdp type) = record {
  kind = 0;
  handle = h;
  payload = str sdp ∷ str type ∷ [];
}
peer_emission h (candidate cand mid) = record {
  kind = 1;
  handle = h;
  payload = str cand ∷ str mid ∷ [];
}
peer_emission h (state n) = record { kind = 2; handle = h; payload = int n ∷ [] }
peer_emission h (ice_state n) = record { kind = 3; handle = h; payload = int n ∷ [] }
peer_emission h (gathering_state n) = record { kind = 4; handle = h; payload = int n ∷ [] }
peer_emission h (signaling_state n) = record { kind = 5; handle = h; payload = int n ∷ [] }
peer_emission h (data_channel dc) = record { kind = 6; handle = h; payload = int dc ∷ [] }

abbrev pub channel_emission : ℕ → ChannelReport → Emission
channel_emission h open_ = record { kind = 7; handle = h; payload = [] }
channel_emission h closed_ = record { kind = 8; handle = h; payload = [] }
channel_emission h (error m) = record { kind = 9; handle = h; payload = str m ∷ [] }
channel_emission h (message (Message.bytes d)) = record {
  kind = 10;
  handle = h;
  payload = bytes d ∷ bool false ∷ [];
}
channel_emission h (message (text t)) = record {
  kind = 10;
  handle = h;
  payload = str t ∷ bool true ∷ [];
}
channel_emission h buffered_amount_low = record { kind = 11; handle = h; payload = [] }

-- The states in the order of the C API.
abbrev pub rtc_states : List RtcState
rtc_states =
    RtcState.new ∷ RtcState.connecting ∷ RtcState.connected ∷ RtcState.disconnected
    ∷ RtcState.failed ∷ RtcState.closed ∷ []

abbrev pub ice_states : List IceState
ice_states =
    IceState.new ∷ IceState.checking ∷ IceState.connected ∷ IceState.completed ∷ IceState.failed
    ∷ IceState.disconnected ∷ IceState.closed ∷ []

abbrev pub gathering_states : List GatheringState
gathering_states = GatheringState.new ∷ GatheringState.in_progress ∷ GatheringState.complete ∷ []

abbrev pub signaling_states : List SignalingState
signaling_states =
    SignalingState.stable ∷ SignalingState.have_local_offer ∷ SignalingState.have_remote_offer
    ∷ SignalingState.have_local_pranswer ∷ SignalingState.have_remote_pranswer ∷ []

-- The calls that the loop is to make for it; none for a number that no state has.
abbrev pub peer_calls : PeerReport → List Callbacks.Call
peer_calls (description sdp type) =
    Callbacks.described (record { sdp = sdp; type = coerce_sdp_type (some type) offer }) ∷ []
peer_calls (candidate cand mid) = Callbacks.found (record { candidate = cand; mid = mid }) ∷ []
peer_calls (state n) = map Callbacks.state_changed (entry_at n rtc_states)
peer_calls (ice_state n) = map Callbacks.ice_changed (entry_at n ice_states)
peer_calls (gathering_state n) = map Callbacks.gathering_changed (entry_at n gathering_states)
peer_calls (signaling_state n) = map Callbacks.signaling_changed (entry_at n signaling_states)
peer_calls (data_channel dc) = Callbacks.channel_came dc ∷ []

abbrev pub channel_calls : ChannelReport → List Channel.Call
channel_calls open_ = Channel.opened ∷ []
channel_calls closed_ = Channel.closed_down ∷ []
channel_calls (error m) = Channel.errored m ∷ []
channel_calls (message m) = Channel.messaged m ∷ []
channel_calls buffered_amount_low = Channel.drained ∷ []

abbrev success : {A : Type 0} → Result A → List A
success (ok a) = a ∷ []
success (raises e) = []

rtc_state-entry : (n : ℕ) → success (to_rtc_state n) ≡ entry_at n rtc_states
unfolding to_rtc_state entry_at
rtc_state-entry zero = refl
rtc_state-entry (suc zero) = refl
rtc_state-entry (suc (suc zero)) = refl
rtc_state-entry (suc (suc (suc zero))) = refl
rtc_state-entry (suc (suc (suc (suc zero)))) = refl
rtc_state-entry (suc (suc (suc (suc (suc zero))))) = refl
rtc_state-entry (suc (suc (suc (suc (suc (suc n)))))) = ground arith

ice_state-entry : (n : ℕ) → success (to_ice_state n) ≡ entry_at n ice_states
unfolding to_ice_state entry_at
ice_state-entry zero = refl
ice_state-entry (suc zero) = refl
ice_state-entry (suc (suc zero)) = refl
ice_state-entry (suc (suc (suc zero))) = refl
ice_state-entry (suc (suc (suc (suc zero)))) = refl
ice_state-entry (suc (suc (suc (suc (suc zero))))) = refl
ice_state-entry (suc (suc (suc (suc (suc (suc zero)))))) = refl
ice_state-entry (suc (suc (suc (suc (suc (suc (suc n))))))) = ground arith

gathering_state-entry : (n : ℕ) → success (to_gathering_state n) ≡ entry_at n gathering_states
unfolding to_gathering_state entry_at
gathering_state-entry zero = refl
gathering_state-entry (suc zero) = refl
gathering_state-entry (suc (suc zero)) = refl
gathering_state-entry (suc (suc (suc n))) = ground arith

signaling_state-entry : (n : ℕ) → success (to_signaling_state n) ≡ entry_at n signaling_states
unfolding to_signaling_state entry_at
signaling_state-entry zero = refl
signaling_state-entry (suc zero) = refl
signaling_state-entry (suc (suc zero)) = refl
signaling_state-entry (suc (suc (suc zero))) = refl
signaling_state-entry (suc (suc (suc (suc zero)))) = refl
signaling_state-entry (suc (suc (suc (suc (suc n))))) = ground arith

abbrev pub empty : {A : Type 0} → EventLoop A
empty = record { closed = false; ready = [] }

schedule_ok-empty :
    {A : Type 0} (handler : A → Callbacks.Call) (r : Result A)
    → (Callbacks.schedule_ok handler r empty).ready ≡ map handler (success r)
unfolding Callbacks.schedule_ok schedule
schedule_ok-empty handler (ok a) = refl
schedule_ok-empty handler (raises e) = refl

-- The callback's name, and its payload.
abbrev pub peer_name : PeerReport → Name
peer_name (description sdp type) = Name.local_description
peer_name (candidate cand mid) = Name.local_candidate
peer_name (state n) = Name.state_change
peer_name (ice_state n) = Name.ice_state_change
peer_name (gathering_state n) = Name.gathering_state_change
peer_name (signaling_state n) = Name.signaling_state_change
peer_name (data_channel dc) = Name.data_channel

abbrev pub channel_name : ChannelReport → Name
channel_name open_ = Name.on_open
channel_name closed_ = Name.on_closed
channel_name (error m) = Name.on_error
channel_name (message m) = Name.on_message
channel_name buffered_amount_low = Name.buffered_amount_low

-- The connection's own callback puts the calls onto the loop.
pub peer_callback-calls :
    (h : ℕ) (r : PeerReport)
    → (peer_callback (peer_name r) (peer_emission h r).payload empty).ready ≡ peer_calls r
unfolding peer_callback Callbacks.cb_local_description Callbacks.cb_local_candidate
    Callbacks.cb_state_change Callbacks.cb_ice_state_change Callbacks.cb_gathering_state_change
    Callbacks.cb_signaling_state_change Callbacks.cb_data_channel schedule
peer_callback-calls h (description sdp type) = refl
peer_callback-calls h (candidate cand mid) = refl
peer_callback-calls h (state n) =
    schedule_ok-empty Callbacks.state_changed (to_rtc_state n)
    ∙ ap (map Callbacks.state_changed) (rtc_state-entry n)
peer_callback-calls h (ice_state n) =
    schedule_ok-empty Callbacks.ice_changed (to_ice_state n)
    ∙ ap (map Callbacks.ice_changed) (ice_state-entry n)
peer_callback-calls h (gathering_state n) =
    schedule_ok-empty Callbacks.gathering_changed (to_gathering_state n)
    ∙ ap (map Callbacks.gathering_changed) (gathering_state-entry n)
peer_callback-calls h (signaling_state n) =
    schedule_ok-empty Callbacks.signaling_changed (to_signaling_state n)
    ∙ ap (map Callbacks.signaling_changed) (signaling_state-entry n)
peer_callback-calls h (data_channel dc) = refl

pub channel_callback-calls :
    (h : ℕ) (r : ChannelReport)
    → (channel_callback
        (channel_name r)
        (passed (channel_name r) (channel_emission h r).payload)
        empty).ready
      ≡ channel_calls r
unfolding channel_callback Channel.cb_open Channel.cb_closed Channel.cb_error Channel.cb_message
    Channel.cb_buffered_low schedule
channel_callback-calls h open_ = refl
channel_callback-calls h closed_ = refl
channel_callback-calls h (error m) = refl
channel_callback-calls h (message (Message.bytes d)) = refl
channel_callback-calls h (message (text t)) = refl
channel_callback-calls h buffered_amount_low = refl
