-- ===== src/Peer/Callbacks.antt =====
-- The native callbacks of a PeerConnection (aiolibdatachannel/peer_connection.py): they put a call
-- onto the loop, and the loop makes it. A number that no enumeration has raises ValueError in the
-- callback, which `_fire` of _core.py catches, so that nothing is scheduled.
use Prim.Native.String.{String}
use aiolibdatachannel.Prelude.{ℕ, some}
use aiolibdatachannel.Errors.{Result, ok, raises}
use aiolibdatachannel.Native.{Native, Value, Name}
use aiolibdatachannel.Loop.{EventLoop, schedule}
use aiolibdatachannel.Enums.{
  RtcState, IceState, GatheringState, SignalingState, to_rtc_state, to_ice_state,
  to_gathering_state, to_signaling_state,
}
use aiolibdatachannel.Core.Machine.{Core}
use aiolibdatachannel.Peer.{
  PeerConnection, LocalDescription, IceCandidate, offer, coerce_sdp_type, handle_local_description,
  handle_local_candidate, handle_state_change, handle_ice_state, handle_gathering_state,
  handle_signaling_state, handle_incoming_dc,
}

pub data Call : Type 0 where
  described : LocalDescription → Call
  found : IceCandidate → Call
  state_changed : RtcState → Call
  ice_changed : IceState → Call
  gathering_changed : GatheringState → Call
  signaling_changed : SignalingState → Call
  channel_came : ℕ → Call

unfoldable pub cb_local_description : String → String → EventLoop Call → EventLoop Call
cb_local_description sdp type loop =
    schedule loop (described (record { sdp = sdp; type = coerce_sdp_type (some type) offer }))

unfoldable pub cb_local_candidate : String → String → EventLoop Call → EventLoop Call
cb_local_candidate candidate mid loop =
    schedule loop (found (record { candidate = candidate; mid = mid }))

-- `schedule(loop, handler, Enum(state))`.
unfoldable pub schedule_ok {ℓ} :
    {A : Type ℓ} → (A → Call) → Result A → EventLoop Call → EventLoop Call
schedule_ok handler (ok a) loop = schedule loop (handler a)
schedule_ok handler (raises e) loop = loop

unfoldable pub cb_state_change : ℕ → EventLoop Call → EventLoop Call
unfolding schedule_ok
cb_state_change state loop = schedule_ok state_changed (to_rtc_state state) loop

unfoldable pub cb_ice_state_change : ℕ → EventLoop Call → EventLoop Call
unfolding schedule_ok
cb_ice_state_change state loop = schedule_ok ice_changed (to_ice_state state) loop

unfoldable pub cb_gathering_state_change : ℕ → EventLoop Call → EventLoop Call
unfolding schedule_ok
cb_gathering_state_change state loop = schedule_ok gathering_changed (to_gathering_state state) loop

unfoldable pub cb_signaling_state_change : ℕ → EventLoop Call → EventLoop Call
unfolding schedule_ok
cb_signaling_state_change state loop = schedule_ok signaling_changed (to_signaling_state state) loop

unfoldable pub cb_data_channel : ℕ → EventLoop Call → EventLoop Call
cb_data_channel handle loop = schedule loop (channel_came handle)

module _ (N : Native) {C : Type 0} (to_str : Value → String) (callback : ℕ → Name → C) where
  open N use {World}

  -- The loop makes a call.
  unfoldable pub run_call : Call → PeerConnection → Core World C → PeerConnection × Core World C
  run_call (described d) pc c = (handle_local_description d pc, c)
  run_call (found cand) pc c = (handle_local_candidate cand pc, c)
  run_call (state_changed s) pc c = (handle_state_change s pc, c)
  run_call (ice_changed s) pc c = (handle_ice_state s pc, c)
  run_call (gathering_changed s) pc c = (handle_gathering_state s pc, c)
  run_call (signaling_changed s) pc c = (handle_signaling_state s pc, c)
  run_call (channel_came handle) pc c = handle_incoming_dc N to_str callback handle pc c
