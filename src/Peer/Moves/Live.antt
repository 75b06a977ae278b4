-- ===== src/Peer/Moves/Live.antt =====
-- The invariant of a PeerConnection (aiolibdatachannel/peer_connection.py), and the handlers that
-- keep it.
use aiolibdatachannel.Prelude.{
  ℕ, ◌≡◌, refl, Bool, true, false, [], ◌∷◌, Option, none, some, arith, if_cases, All, All-append,
  length,
}
use aiolibdatachannel.Asyncio.{Queue, put_suppressed}
use aiolibdatachannel.Enums.{RtcState, IceState, GatheringState, SignalingState, rtc_state_int}
use aiolibdatachannel.Tasks.{Task, not_started, finished}
use aiolibdatachannel.Channel.{DataChannel}
use aiolibdatachannel.Channel.Api.Moves.Safety.{IsSafe}
use aiolibdatachannel.Peer.{
  PeerConnection, LocalDescription, IceCandidate, PcEvent, set_state_event, fresh, emit,
  handle_local_description, handle_local_candidate, is_final, resolve_pending, handle_state_change,
  handle_ice_state, is_complete, complete_gathering, handle_gathering_state, handle_signaling_state,
  add_channel, accept_channel, state_change_event, gathering_state_change_event,
}
use aiolibdatachannel.Peer.Iterators.Shut.{IsShut, put-IsShut}
use aiolibdatachannel.Loop.{FutureSlot}

-- `cancel()` has been called on the task.
abbrev pub IsCancelling : Task → Type 0
IsCancelling t = t.cancelling ≡ true

-- The three queues of iterators; the event of the current state; the stages of the shutdown; the
-- owned tasks; and the channels.
pub record IsLive (pc : PeerConnection) : Type 0 where
  pub candidates : IsShut pc.closed pc.ice_candidates
  pub incoming : IsShut pc.closed pc.incoming_dc
  pub events : IsShut pc.closed pc.events_queue
  pub visited : pc.state_events pc.state ≡ true
  pub begun : pc.closed ≡ false → pc.teardown ≡ not_started
  pub reported : pc.closed_event ≡ true → pc.teardown ≡ finished
  pub tasked : pc.closed ≡ true → All IsCancelling pc.tasks.tasks
  pub channels : All IsSafe pc.data_channels

pub fresh-IsLive : (native : ℕ) → IsLive (fresh native)
unfolding fresh set_state_event rtc_state_int
fresh-IsLive native = record {
  candidates = (refl, λ e. absurd (cc));
  incoming = (refl, λ e. absurd (cc));
  events = (refl, λ e. absurd (cc));
  visited = refl;
  begun = λ e. refl;
  reported = λ e. absurd (cc);
  tasked = λ e. absurd (cc);
  channels = tt;
}

-- What a handler changes of the fields that the invariant is about: items behind those in the
-- queues.
emit-IsLive : (ev : PcEvent) (pc : PeerConnection) → IsLive pc → IsLive (emit ev pc)
unfolding emit
emit-IsLive ev pc v = record {
  candidates = v.candidates;
  incoming = v.incoming;
  events = put-IsShut pc.closed pc.events_queue (some ev) v.events;
  visited = v.visited;
  begun = v.begun;
  reported = v.reported;
  tasked = v.tasked;
  channels = v.channels;
}

candidate-IsLive :
    (a : Option IceCandidate) (pc : PeerConnection)
    → IsLive pc
    → IsLive (record pc { ice_candidates = put_suppressed pc.ice_candidates a })
candidate-IsLive a pc v = record {
  candidates = put-IsShut pc.closed pc.ice_candidates a v.candidates;
  incoming = v.incoming;
  events = v.events;
  visited = v.visited;
  begun = v.begun;
  reported = v.reported;
  tasked = v.tasked;
  channels = v.channels;
}

-- Fields that the invariant is not about.
pub slots-IsLive :
    (l : FutureSlot LocalDescription) (g : FutureSlot (Unit {0})) (pc : PeerConnection)
    → IsLive pc
    → IsLive (record pc { local_description = l; gathering_complete = g })
slots-IsLive l g pc v = record {
  candidates = v.candidates;
  incoming = v.incoming;
  events = v.events;
  visited = v.visited;
  begun = v.begun;
  reported = v.reported;
  tasked = v.tasked;
  channels = v.channels;
}

states-IsLive :
    (i : IceState) (g : GatheringState) (s : SignalingState) (pc : PeerConnection)
    → IsLive pc
    → IsLive (record pc { ice_state = i; gathering_state = g; signaling_state = s })
states-IsLive i g s pc v = record {
  candidates = v.candidates;
  incoming = v.incoming;
  events = v.events;
  visited = v.visited;
  begun = v.begun;
  reported = v.reported;
  tasked = v.tasked;
  channels = v.channels;
}

resolve-IsLive : (pc : PeerConnection) → IsLive pc → IsLive (resolve_pending pc)
unfolding resolve_pending
resolve-IsLive pc v = slots-IsLive _ _ _ (candidate-IsLive none pc v)

complete-IsLive : (pc : PeerConnection) → IsLive pc → IsLive (complete_gathering pc)
unfolding complete_gathering
complete-IsLive pc v = slots-IsLive _ _ _ (candidate-IsLive none pc v)

visit : (s : RtcState) (events : RtcState → Bool) → set_state_event s events s ≡ true
unfolding set_state_event
visit s events = ground arith

state-IsLive :
    (s : RtcState) (pc : PeerConnection)
    → IsLive pc
    → IsLive (record pc { state = s; state_events = set_state_event s pc.state_events })
state-IsLive s pc v = record {
  candidates = v.candidates;
  incoming = v.incoming;
  events = v.events;
  visited = visit s pc.state_events;
  begun = v.begun;
  reported = v.reported;
  tasked = v.tasked;
  channels = v.channels;
}

pub handle_local_description-IsLive :
    (d : LocalDescription) (pc : PeerConnection)
    → IsLive pc
    → IsLive (handle_local_description d pc)
unfolding handle_local_description
handle_local_description-IsLive d pc v = emit-IsLive _ _ (slots-IsLive _ _ pc v)

pub handle_local_candidate-IsLive :
    (a : IceCandidate) (pc : PeerConnection) → IsLive pc → IsLive (handle_local_candidate a pc)
unfolding handle_local_candidate
handle_local_candidate-IsLive a pc v = emit-IsLive _ _ (candidate-IsLive (some a) pc v)

pub handle_state_change-IsLive :
    (s : RtcState) (pc : PeerConnection) → IsLive pc → IsLive (handle_state_change s pc)
unfolding handle_state_change
handle_state_change-IsLive s pc v =
    let emitted = emit-IsLive (state_change_event s) _ (state-IsLive s pc v) in
    if_cases IsLive (is_final s) _ _ (λ e. resolve-IsLive _ emitted) (λ e. emitted)

pub handle_ice_state-IsLive :
    (s : IceState) (pc : PeerConnection) → IsLive pc → IsLive (handle_ice_state s pc)
unfolding handle_ice_state
handle_ice_state-IsLive s pc v = emit-IsLive _ _ (states-IsLive s _ _ pc v)

pub handle_gathering_state-IsLive :
    (s : GatheringState) (pc : PeerConnection) → IsLive pc → IsLive (handle_gathering_state s pc)
unfolding handle_gathering_state
handle_gathering_state-IsLive s pc v =
    let emitted = emit-IsLive (gathering_state_change_event s) _ (states-IsLive _ s _ pc v) in
    if_cases IsLive (is_complete s) _ _ (λ e. complete-IsLive _ emitted) (λ e. emitted)

pub handle_signaling_state-IsLive :
    (s : SignalingState) (pc : PeerConnection) → IsLive pc → IsLive (handle_signaling_state s pc)
unfolding handle_signaling_state
handle_signaling_state-IsLive s pc v = emit-IsLive _ _ (states-IsLive _ _ s pc v)

pub add_channel-IsLive :
    (dc : DataChannel) (pc : PeerConnection) → IsSafe dc → IsLive pc → IsLive (add_channel dc pc)
unfolding add_channel
add_channel-IsLive dc pc s v = record {
  candidates = v.candidates;
  incoming = v.incoming;
  events = v.events;
  visited = v.visited;
  begun = v.begun;
  reported = v.reported;
  tasked = v.tasked;
  channels = All-append IsSafe pc.data_channels (dc ∷ []) v.channels (s, tt);
}

pub incoming-IsLive :
    (q : Queue (Option ℕ)) (pc : PeerConnection)
    → IsShut pc.closed q
    → IsLive pc
    → IsLive (record pc { incoming_dc = q })
incoming-IsLive q pc s v = record {
  candidates = v.candidates;
  incoming = s;
  events = v.events;
  visited = v.visited;
  begun = v.begun;
  reported = v.reported;
  tasked = v.tasked;
  channels = v.channels;
}

pub accept_channel-IsLive :
    (dc : DataChannel) (pc : PeerConnection) → IsSafe dc → IsLive pc → IsLive (accept_channel dc pc)
unfolding accept_channel
accept_channel-IsLive dc pc s v = emit-IsLive _ _ (
    incoming-IsLive _ _
      (put-IsShut pc.closed pc.incoming_dc (some (length pc.data_channels)) v.incoming)
      (add_channel-IsLive dc pc s v))
