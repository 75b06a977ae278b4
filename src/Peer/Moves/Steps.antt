-- ===== src/Peer/Moves/Steps.antt =====
-- The calls of a PeerConnection (aiolibdatachannel/peer_connection.py) keep its invariant.
use aiolibdatachannel.Prelude.{
  refl, map, ℕ, ◌≡◌, inl, inr, Bool, true, List, [], ◌∷◌, Option, some, arith, if_cases, All,
  get_elem?, set, zero, suc, Bool-cases,
}
use aiolibdatachannel.Errors.{Result}
use aiolibdatachannel.Asyncio.{Queue}
use aiolibdatachannel.Tasks.{cancelled, cancel_all, Task, TaskSet, add_task, not_started}
use aiolibdatachannel.Channel.{DataChannel}
use aiolibdatachannel.Channel.Api.Moves.Safety.{IsSafe}
use aiolibdatachannel.Peer.{PeerConnection, IceCandidate, PcEvent}
use aiolibdatachannel.Peer.Remote.{Candidate, add_remote_candidate}
use aiolibdatachannel.Peer.Iterators.{accept_data_channel}
use aiolibdatachannel.Peer.Iterators.Shut.{IsShut, put_none-IsShut, round-IsShut}
use aiolibdatachannel.Peer.Lifecycle.{spawn_task, close}
use aiolibdatachannel.Peer.Moves.Live.{IsCancelling, IsLive, incoming-IsLive}

pub All-set :
    (xs : List DataChannel) (i : ℕ) (d : DataChannel)
    → All IsSafe xs
    → IsSafe d
    → All IsSafe (set xs i d)
All-set [] i d v w = tt
All-set (x ∷ xs) zero d v w = (w, v.1)
All-set (x ∷ xs) (suc i) d v w = (v.0, All-set xs i d v.1 w)

pub All-get :
    (xs : List DataChannel) (i : ℕ) (d : DataChannel)
    → All IsSafe xs
    → get_elem? xs i ≡ some d
    → IsSafe d
All-get [] i d v e = absurd (cc)
All-get (x ∷ xs) zero d v e = let same : x ≡ d = cc in rw (← same) v.0
All-get (x ∷ xs) (suc i) d v e = All-get xs i d v.1 e

-- The fields of the remote description, and the tasks.
pub remote-IsLive :
    (b : Bool) (cands : List Candidate) (pc : PeerConnection)
    → IsLive pc
    → IsLive (record pc { remote_description_set = b; buffered_remote_candidates = cands })
remote-IsLive b cands pc v = record {
  candidates = v.candidates;
  incoming = v.incoming;
  events = v.events;
  visited = v.visited;
  begun = v.begun;
  reported = v.reported;
  tasked = v.tasked;
  channels = v.channels;
}

pub tasks-IsLive :
    (ts : TaskSet) (pc : PeerConnection)
    → (pc.closed ≡ true → All IsCancelling ts.tasks)
    → IsLive pc
    → IsLive (record pc { tasks = ts })
tasks-IsLive ts pc h v = record {
  candidates = v.candidates;
  incoming = v.incoming;
  events = v.events;
  visited = v.visited;
  begun = v.begun;
  reported = v.reported;
  tasked = h;
  channels = v.channels;
}

cancelled-All : (ts : List Task) → All IsCancelling (map cancelled ts)
cancelled-All [] = tt
cancelled-All (t ∷ ts) = (refl, cancelled-All ts)

pub channels-IsLive :
    (dcs : List DataChannel) (pc : PeerConnection)
    → All IsSafe dcs
    → IsLive pc
    → IsLive (record pc { data_channels = dcs })
channels-IsLive dcs pc w v = record {
  candidates = v.candidates;
  incoming = v.incoming;
  events = v.events;
  visited = v.visited;
  begun = v.begun;
  reported = v.reported;
  tasked = v.tasked;
  channels = w;
}

pub queues-IsLive :
    (q : Queue (Option IceCandidate)) (r : Queue (Option PcEvent)) (pc : PeerConnection)
    → IsShut pc.closed q
    → IsShut pc.closed r
    → IsLive pc
    → IsLive (record pc { ice_candidates = q; events_queue = r })
queues-IsLive q r pc hq hr v = record {
  candidates = hq;
  incoming = v.incoming;
  events = hr;
  visited = v.visited;
  begun = v.begun;
  reported = v.reported;
  tasked = v.tasked;
  channels = v.channels;
}

pub add_remote_candidate-IsLive :
    (cand : Candidate) (pc : PeerConnection) → IsLive pc → IsLive (add_remote_candidate cand pc).1
unfolding add_remote_candidate
add_remote_candidate-IsLive cand pc v =
    if_cases (λ (r : Option Candidate × PeerConnection). IsLive r.1) pc.remote_description_set _ _
      (λ e. v) (λ e. remote-IsLive _ _ pc v)

pub spawn_task-IsLive : (pc : PeerConnection) → IsLive pc → IsLive (spawn_task pc).1
unfolding spawn_task
spawn_task-IsLive pc v =
    if_cases (λ (r : Result ℕ × PeerConnection). IsLive r.1) pc.closed _ _ (λ e. v)
      (λ e. tasks-IsLive (add_task pc.tasks).1 pc (λ f. absurd (ground (arith, e, f))) v)

pub close-IsLive : (pc : PeerConnection) → IsLive pc → IsLive (close pc)
unfolding close cancel_all
close-IsLive pc v =
    if_cases IsLive pc.closed _ _ (λ e. v)
      (λ e. record {
        candidates = put_none-IsShut pc.closed pc.ice_candidates v.candidates;
        incoming = put_none-IsShut pc.closed pc.incoming_dc v.incoming;
        events = put_none-IsShut pc.closed pc.events_queue v.events;
        visited = v.visited;
        begun = λ f. absurd (cc);
        reported = λ f. absurd (ground (arith, v.reported f, v.begun e));
        tasked = λ f. cancelled-All pc.tasks.tasks;
        channels = v.channels;
      })

pub accept-IsLive : (pc : PeerConnection) → IsLive pc → IsLive (accept_data_channel pc).1
unfolding accept_data_channel
accept-IsLive pc v = incoming-IsLive _ pc (round-IsShut pc.closed pc.incoming_dc v.incoming) v

pub asked_for :
    (pc : PeerConnection) → IsLive pc → (pc.teardown ≡ not_started → ⊥) → pc.closed ≡ true
asked_for pc v h = elim (Bool-cases pc.closed) [ inl e ↦ e | inr e ↦ absurd (h (v.begun e)) ]
