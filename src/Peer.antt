-- ===== src/Peer.antt =====
-- aiolibdatachannel/peer_connection.py: the data, the state of a PeerConnection, and the handlers
-- that the loop calls for the native callbacks.
pub mod Create
pub mod Callbacks
pub mod Negotiation
pub mod Remote
pub mod Iterators
pub mod Lifecycle
pub mod Moves
use Prim.Native.String.{String}
use text.Mathlib.Text.{◌==◌ as str_eq}
use aiolibdatachannel.Prelude.{
  ℕ, Bool, true, false, ◌||◌, List, [], ◌∷◌, ◌++◌, Option, none, some, ◌==◌, if◌then◌else◌, length,
}
use aiolibdatachannel.Errors.{Exc, closed_error, Result, ok, raises}
use aiolibdatachannel.Native.{Native, Value, Name, PcArgs}
use aiolibdatachannel.Asyncio.{Queue, put_suppressed}
use aiolibdatachannel.Loop.{FutureSlot, init, set_slot, fail_slot}
use aiolibdatachannel.Enums.{RtcState, IceState, GatheringState, SignalingState, rtc_state_int}
use aiolibdatachannel.Core.Machine.{Core}
use aiolibdatachannel.Tasks.{TaskSet, no_tasks, Teardown, not_started}
use aiolibdatachannel.Channel.{DataChannel}
use aiolibdatachannel.Channel.Create.{create}

pub data SdpType : Type 0 where
  offer answer pranswer rollback : SdpType

unfoldable pub sdp_type_str : SdpType → String
sdp_type_str offer = "offer"
sdp_type_str answer = "answer"
sdp_type_str pranswer = "pranswer"
sdp_type_str rollback = "rollback"

unfoldable pub coerce_sdp_type : Option String → SdpType → SdpType
coerce_sdp_type none default = default
coerce_sdp_type (some raw) default =
    if str_eq raw "offer"
    then offer
    else if str_eq raw "answer"
    then answer
    else if str_eq raw "pranswer"
    then pranswer
    else if str_eq raw "rollback"
    then rollback
    else default

pub record LocalDescription : Type 0 where
  pub sdp : String
  pub type : SdpType

pub record IceCandidate : Type 0 where
  pub candidate : String
  pub mid : String

-- A channel is named by its place in the list of the PeerConnection's channels.
pub data PcEvent : Type 0 where
  local_description_event : LocalDescription → PcEvent
  local_candidate_event : IceCandidate → PcEvent
  state_change_event : RtcState → PcEvent
  ice_state_change_event : IceState → PcEvent
  gathering_state_change_event : GatheringState → PcEvent
  signaling_state_change_event : SignalingState → PcEvent
  data_channel_event : ℕ → PcEvent

-- In the queues `none` is the close sentinel. `state_events` says which of the events are set.
pub record PeerConnection : Type 0 where
  pub native : ℕ
  pub state : RtcState
  pub ice_state : IceState
  pub gathering_state : GatheringState
  pub signaling_state : SignalingState
  pub remote_description_set : Bool
  pub buffered_remote_candidates : List (String × String)
  pub local_description : FutureSlot LocalDescription
  pub gathering_complete : FutureSlot (Unit {0})
  pub state_events : RtcState → Bool
  pub ice_candidates : Queue (Option IceCandidate)
  pub incoming_dc : Queue (Option ℕ)
  pub events_queue : Queue (Option PcEvent)
  pub data_channels : List DataChannel
  pub closed : Bool
  pub closed_event : Bool
  pub tasks : TaskSet
  pub teardown : Teardown

-- `self._state_events[state].set()`.
unfoldable pub set_state_event : RtcState → (RtcState → Bool) → RtcState → Bool
set_state_event s events t = (rtc_state_int s == rtc_state_int t) || events t

abbrev pub unbounded {ℓ} : {A : Type ℓ} → Queue A
unbounded = record { maxsize = 0; items = [] }

-- The fields as `__init__` sets them.
unfoldable pub fresh : ℕ → PeerConnection
fresh native = record {
  native = native;
  state = RtcState.new;
  ice_state = IceState.new;
  gathering_state = GatheringState.new;
  signaling_state = SignalingState.stable;
  remote_description_set = false;
  buffered_remote_candidates = [];
  local_description = init;
  gathering_complete = init;
  state_events = set_state_event RtcState.new (λ s. false);
  ice_candidates = unbounded;
  incoming_dc = unbounded;
  events_queue = unbounded;
  data_channels = [];
  closed = false;
  closed_event = false;
  tasks = no_tasks;
  teardown = not_started;
}

unfoldable pub emit : PcEvent → PeerConnection → PeerConnection
emit event pc = record pc { events_queue = put_suppressed pc.events_queue (some event) }

unfoldable pub handle_local_description : LocalDescription → PeerConnection → PeerConnection
unfolding emit
handle_local_description desc pc =
    emit (local_description_event desc)
      (record pc { local_description = set_slot desc pc.local_description })

-- `put_nowait` on a queue with no bound never raises.
unfoldable pub handle_local_candidate : IceCandidate → PeerConnection → PeerConnection
unfolding emit
handle_local_candidate cand pc =
    emit (local_candidate_event cand)
      (record pc { ice_candidates = put_suppressed pc.ice_candidates (some cand) })

-- `state in (RTCState.CLOSED, RTCState.FAILED)`.
unfoldable pub is_final : RtcState → Bool
is_final RtcState.closed = true
is_final RtcState.failed = true
is_final s = false

-- Those who wait are let go.
unfoldable pub resolve_pending : PeerConnection → PeerConnection
resolve_pending pc = record pc {
  local_description = fail_slot (closed_error "peer connection closed") pc.local_description;
  gathering_complete = set_slot tt pc.gathering_complete;
  ice_candidates = put_suppressed pc.ice_candidates none;
}

unfoldable pub handle_state_change : RtcState → PeerConnection → PeerConnection
unfolding emit is_final resolve_pending
handle_state_change state pc =
    let emitted =
      emit (state_change_event state)
        (record pc { state = state; state_events = set_state_event state pc.state_events }) in
    if is_final state then resolve_pending emitted else emitted

unfoldable pub handle_ice_state : IceState → PeerConnection → PeerConnection
unfolding emit
handle_ice_state state pc = emit (ice_state_change_event state) (record pc { ice_state = state })

-- `state is GatheringState.COMPLETE`.
unfoldable pub is_complete : GatheringState → Bool
is_complete GatheringState.complete = true
is_complete s = false

unfoldable pub complete_gathering : PeerConnection → PeerConnection
complete_gathering pc = record pc {
  gathering_complete = set_slot tt pc.gathering_complete;
  ice_candidates = put_suppressed pc.ice_candidates none;
}

unfoldable pub handle_gathering_state : GatheringState → PeerConnection → PeerConnection
unfolding emit is_complete complete_gathering
handle_gathering_state state pc =
    let emitted =
      emit (gathering_state_change_event state) (record pc { gathering_state = state }) in
    if is_complete state then complete_gathering emitted else emitted

unfoldable pub handle_signaling_state : SignalingState → PeerConnection → PeerConnection
unfolding emit
handle_signaling_state state pc =
    emit (signaling_state_change_event state) (record pc { signaling_state = state })

-- `self._data_channels.append(dc)`, and where a channel came from the remote side, the queue and
-- the event.
unfoldable pub add_channel : DataChannel → PeerConnection → PeerConnection
add_channel dc pc = record pc { data_channels = pc.data_channels ++ dc ∷ [] }

unfoldable pub accept_channel : DataChannel → PeerConnection → PeerConnection
unfolding emit add_channel
accept_channel dc pc =
    let i = length pc.data_channels in
    let added = add_channel dc pc in
    emit (data_channel_event i)
      (record added { incoming_dc = put_suppressed pc.incoming_dc (some i) })

module _ (N : Native) {C : Type 0} (to_str : Value → String) (callback : ℕ → Name → C) where
  open N use {World}

  created : Result DataChannel × Core World C → PeerConnection → PeerConnection × Core World C
  created (raises e, c) pc = (pc, c)
  created (ok dc, c) pc = (accept_channel dc pc, c)

  -- What `DataChannel(handle)` raises ends the handler before it has changed anything; the loop
  -- logs it. `callback` gives the callbacks of a channel by its place.
  unfoldable pub handle_incoming_dc :
      ℕ → PeerConnection → Core World C → PeerConnection × Core World C
  unfolding created
  handle_incoming_dc handle pc c =
      created (create N to_str (callback (length pc.data_channels)) handle 1024 c) pc
