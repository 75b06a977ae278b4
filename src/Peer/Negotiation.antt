-- ===== src/Peer/Negotiation.antt =====
-- The offer and answer calls of aiolibdatachannel/peer_connection.py. A coroutine is cut where it
-- awaits a future: the part before, which says whether it got there, and the part after.
pub mod Frame
use Prim.Native.String.{String}
use aiolibdatachannel.Prelude.{Option, none, some, if◌then◌else◌}
use aiolibdatachannel.Errors.{
  rtc_error, closed_error, Result, ok, raises, Outcome, returns, fails, blocks,
}
use aiolibdatachannel.Native.{Native, Value}
use aiolibdatachannel.Loop.{FutureState, reset, wait_for}
use aiolibdatachannel.Core.Machine.{Core}
use aiolibdatachannel.Core.Calls
use aiolibdatachannel.Peer.{
  PeerConnection, LocalDescription, SdpType, offer, answer, sdp_type_str, coerce_sdp_type,
}

-- `None` for no type.
unfoldable pub type_arg : Option SdpType → Option String
type_arg none = none
type_arg (some t) = some (sdp_type_str t)

unfoldable pub reset_both : PeerConnection → PeerConnection
reset_both pc = record pc {
  local_description = reset pc.local_description;
  gathering_complete = reset pc.gathering_complete;
}

described : SdpType → Result (Option String) → Result (Option String) → Result LocalDescription
described default (raises e) type = raises e
described default (ok sdp) (raises e) = raises e
described default (ok none) (ok type) =
    raises (rtc_error "local description not available after gathering" none)
described default (ok (some sdp)) (ok type) =
    ok (record { sdp = sdp; type = coerce_sdp_type type default })

read_after : Outcome (Unit {0}) → Result LocalDescription → Outcome LocalDescription
read_after (returns u) (ok d) = returns d
read_after (returns u) (raises e) = fails e
read_after (fails e) r = fails e
read_after blocks r = blocks

property_of : Result (Option String) → Result (Option String) → Result (Option LocalDescription)
property_of (raises e) type = raises e
property_of (ok none) type = ok none
property_of (ok (some sdp)) (raises e) = raises e
property_of (ok (some sdp)) (ok type) =
    ok (some (record { sdp = sdp; type = coerce_sdp_type type offer }))

module _ (N : Native) {C : Type 0} (to_str : Value → String) where
  open N use {World}

  -- `blocks`: the coroutine awaits a future that is not done.
  awaits :
      Result (Unit {0}) × Core World C
      → PeerConnection
      → Outcome (Unit {0}) × PeerConnection × Core World C
  awaits (ok u, c) pc = (blocks, pc, c)
  awaits (raises e, c) pc = (fails e, pc, c)

  negotiate :
      SdpType → PeerConnection → Core World C → Outcome (Unit {0}) × PeerConnection × Core World C
  unfolding awaits reset_both
  negotiate t pc c =
      awaits (Calls.set_local_description N to_str pc.native (some (sdp_type_str t)) c)
        (reset_both pc)

  -- `create_offer` up to `await self._gathering_complete.future`.
  unfoldable pub create_offer :
      PeerConnection → Core World C → Outcome (Unit {0}) × PeerConnection × Core World C
  unfolding negotiate
  create_offer pc c =
      if pc.closed
      then (fails (closed_error "peer connection is closed"), pc, c)
      else negotiate offer pc c

  -- `create_answer` up to the same; it does not look at `_closed`.
  unfoldable pub create_answer :
      PeerConnection → Core World C → Outcome (Unit {0}) × PeerConnection × Core World C
  unfolding negotiate
  create_answer pc c = negotiate answer pc c

  -- The rest of both, once gathering is complete; `default` is "offer" in one and "answer" in the
  -- other.
  unfoldable pub read_description :
      SdpType → PeerConnection → Core World C → Result LocalDescription
  unfolding described
  read_description default pc c =
      described default (Calls.get_local_description N to_str pc.native c)
        (Calls.get_local_description_type N to_str pc.native c)

  -- What the coroutine does when the future that it awaits is in the state.
  unfoldable pub resume_create :
      SdpType → FutureState (Unit {0}) → PeerConnection → Core World C → Outcome LocalDescription
  unfolding read_after
  resume_create default f pc c = read_after (wait_for f) (read_description default pc c)

  abbrev pub resume_answer :
      FutureState (Unit {0}) → PeerConnection → Core World C → Outcome LocalDescription
  resume_answer f pc c = resume_create answer f pc c

  -- `set_local_description` up to `await self._local_description.future`.
  unfoldable pub set_local_description :
      Option SdpType
      → PeerConnection
      → Core World C
      → Outcome (Unit {0}) × PeerConnection × Core World C
  unfolding awaits type_arg
  set_local_description type pc c =
      awaits (Calls.set_local_description N to_str pc.native (type_arg type) c)
        (record pc { local_description = reset pc.local_description })

  -- The property `local_description`.
  unfoldable pub local_description :
      PeerConnection → Core World C → Result (Option LocalDescription)
  unfolding property_of
  local_description pc c =
      property_of (Calls.get_local_description N to_str pc.native c)
        (Calls.get_local_description_type N to_str pc.native c)
