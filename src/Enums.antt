-- ===== src/Enums.antt =====
-- aiolibdatachannel/enums.py: the enumerations of states, with the numbers of the C API. Calling
-- the class on a number that is not one of its own raises ValueError.
use aiolibdatachannel.Prelude.{ℕ, ◌==◌, if◌then◌else◌}
use aiolibdatachannel.Errors.{Result, ok, raises, value_error}

pub data RtcState : Type 0 where
  new connecting connected disconnected failed closed : RtcState

pub data IceState : Type 0 where
  new checking connected completed failed disconnected closed : IceState

pub data GatheringState : Type 0 where
  new in_progress complete : GatheringState

pub data SignalingState : Type 0 where
  stable have_local_offer have_remote_offer have_local_pranswer have_remote_pranswer :
      SignalingState

unfoldable pub rtc_state_int : RtcState → ℕ
rtc_state_int RtcState.new = 0
rtc_state_int RtcState.connecting = 1
rtc_state_int RtcState.connected = 2
rtc_state_int RtcState.disconnected = 3
rtc_state_int RtcState.failed = 4
rtc_state_int RtcState.closed = 5

unfoldable pub to_rtc_state : ℕ → Result RtcState
to_rtc_state n =
    if n == 0
    then ok RtcState.new
    else if n == 1
    then ok RtcState.connecting
    else if n == 2
    then ok RtcState.connected
    else if n == 3
    then ok RtcState.disconnected
    else if n == 4
    then ok RtcState.failed
    else if n == 5
    then ok RtcState.closed
    else raises value_error

unfoldable pub to_ice_state : ℕ → Result IceState
to_ice_state n =
    if n == 0
    then ok IceState.new
    else if n == 1
    then ok IceState.checking
    else if n == 2
    then ok IceState.connected
    else if n == 3
    then ok IceState.completed
    else if n == 4
    then ok IceState.failed
    else if n == 5
    then ok IceState.disconnected
    else if n == 6
    then ok IceState.closed
    else raises value_error

unfoldable pub to_gathering_state : ℕ → Result GatheringState
to_gathering_state n =
    if n == 0
    then ok GatheringState.new
    else if n == 1
    then ok GatheringState.in_progress
    else if n == 2
    then ok GatheringState.complete
    else raises value_error

unfoldable pub to_signaling_state : ℕ → Result SignalingState
to_signaling_state n =
    if n == 0
    then ok SignalingState.stable
    else if n == 1
    then ok SignalingState.have_local_offer
    else if n == 2
    then ok SignalingState.have_remote_offer
    else if n == 3
    then ok SignalingState.have_local_pranswer
    else if n == 4
    then ok SignalingState.have_remote_pranswer
    else raises value_error
