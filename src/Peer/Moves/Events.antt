-- ===== src/Peer/Moves/Events.antt =====
-- The events of a PeerConnection (aiolibdatachannel/peer_connection.py) on their way from the
-- handlers to the iterator, through a whole life of the connection.
use Prim.Native.String.{String}
use aiolibdatachannel.Prelude.{
  if_cases, Bool-cases, inl, inr, ℕ, ◌≡◌, refl, List, [], ◌∷◌, ◌++◌, none, some, length,
  if◌then◌else◌,
}
use aiolibdatachannel.Errors.{Result, ok, raises}
use aiolibdatachannel.Native.{Native, Value, Name}
use aiolibdatachannel.Core.Machine.{Core}
use aiolibdatachannel.Channel.{DataChannel}
use aiolibdatachannel.Channel.Create.{create}
use aiolibdatachannel.Peer.{
  handle_state_change, handle_gathering_state, resolve_pending, complete_gathering, is_final,
  is_complete, emit, accept_channel, add_channel, handle_local_description, handle_local_candidate,
  handle_ice_state, handle_signaling_state, handle_incoming_dc, PeerConnection, PcEvent,
  local_description_event, local_candidate_event, state_change_event, ice_state_change_event,
  gathering_state_change_event, signaling_state_change_event, data_channel_event, created, fresh,
}
use aiolibdatachannel.Peer.Callbacks.{
  Call, described, found, state_changed, ice_changed, gathering_changed, signaling_changed,
  channel_came, run_call,
}
use aiolibdatachannel.Peer.Iterators.Stream.{new_stream, Label, IsRun, IsRun-order, emitted, yields}
use aiolibdatachannel.Peer.Iterators.Refine.{Op, puts, takes, stream_of, perform, perform_all}
use aiolibdatachannel.Peer.Moves.{Move, runs, next_event, accepts, closes, move, moves}
use aiolibdatachannel.Peer.Remote.{take_buffered}
use aiolibdatachannel.Peer.Lifecycle.{close}
use aiolibdatachannel.Peer.Negotiation.{reset_both}
use aiolibdatachannel.Peer.Iterators.{accept_data_channel}
use aiolibdatachannel.Peer.Moves.Untouched.{quiet-IsUntouched}
use aiolibdatachannel.Enums.{RtcState, GatheringState}
use aiolibdatachannel.Asyncio.{somes, put_suppressed}
use aiolibdatachannel.Peer.Moves.Streams.{stream_labels, moves-IsRun}

module _ (N : Native) {C : Type 0} (to_str : Value → String) (callback : ℕ → Name → C) where
  open N use {World}

  -- The event of a channel that could be made.
  came : Result DataChannel × Core World C → ℕ → List (Op PcEvent)
  came (raises e, c) i = []
  came (ok dc, c) i = puts (some (data_channel_event i)) ∷ []

  -- The event that the loop's call of a handler stands for.
  unfoldable pub call_ops : Call → PeerConnection → Core World C → List (Op PcEvent)
  unfolding came
  call_ops (described d) pc c = puts (some (local_description_event d)) ∷ []
  call_ops (found cand) pc c = puts (some (local_candidate_event cand)) ∷ []
  call_ops (state_changed s) pc c = puts (some (state_change_event s)) ∷ []
  call_ops (ice_changed s) pc c = puts (some (ice_state_change_event s)) ∷ []
  call_ops (gathering_changed s) pc c = puts (some (gathering_state_change_event s)) ∷ []
  call_ops (signaling_changed s) pc c = puts (some (signaling_state_change_event s)) ∷ []
  call_ops (channel_came h) pc c =
      let i = length pc.data_channels in came (create N to_str (callback i) h 1024 c) i

  -- What a move does to the queue of events.
  unfoldable pub move_ops : Move (Core World C) → PeerConnection × Core World C → List (Op PcEvent)
  unfolding call_ops
  move_ops (runs call) (pc, c) = call_ops call pc c
  move_ops next_event s = takes ∷ []
  move_ops closes (pc, c) = if pc.closed then [] else puts none ∷ []
  move_ops m s = []

module _ (N : Native) {C : Type 0} (to_str : Value → String) (callback : ℕ → Name → C) where
  open N use {World}

  -- The run of the event stream that the moves make.
  abbrev pub event_labels :
      List (Move (Core World C)) → PeerConnection × Core World C → List (Label PcEvent)
  event_labels = stream_labels N to_str callback (λ p. p.events_queue) (move_ops N to_str callback)

handle_state_change-events :
    (s : RtcState) (pc : PeerConnection)
    → (handle_state_change s pc).events_queue
      ≡ put_suppressed pc.events_queue (some (state_change_event s))
unfolding handle_state_change emit resolve_pending
handle_state_change-events s pc =
    if_cases
      (λ (p : PeerConnection).
        p.events_queue ≡ put_suppressed pc.events_queue (some (state_change_event s)))
      (is_final s) _ _ (λ e. refl) (λ e. refl)

handle_gathering_state-events :
    (s : GatheringState) (pc : PeerConnection)
    → (handle_gathering_state s pc).events_queue
      ≡ put_suppressed pc.events_queue (some (gathering_state_change_event s))
unfolding handle_gathering_state emit complete_gathering
handle_gathering_state-events s pc =
    if_cases
      (λ (p : PeerConnection).
        p.events_queue ≡ put_suppressed pc.events_queue (some (gathering_state_change_event s)))
      (is_complete s) _ _ (λ e. refl) (λ e. refl)

close-events :
    (pc : PeerConnection)
    → (close pc).events_queue
      ≡ perform_all (if pc.closed then [] else puts none ∷ []) pc.events_queue
unfolding close perform_all perform
close-events pc = elim (Bool-cases pc.closed) [ inl e ↦ rw e refl | inr e ↦ rw e refl ]

module _ (N : Native) {C : Type 0} (to_str : Value → String) (callback : ℕ → Name → C) where
  open N use {World}

  created-events :
      (r : Result DataChannel × Core World C) (pc : PeerConnection)
      → (created N to_str callback r pc).0.events_queue
        ≡ perform_all (came N to_str callback r (length pc.data_channels)) pc.events_queue
  unfolding created came accept_channel add_channel emit perform_all perform
  created-events (raises e, c) pc = refl
  created-events (ok dc, c) pc = refl

  run_call-events :
      (call : Call) (pc : PeerConnection) (c : Core World C)
      → (run_call N to_str callback call pc c).0.events_queue
        ≡ perform_all (call_ops N to_str callback call pc c) pc.events_queue
  unfolding run_call call_ops handle_local_description handle_local_candidate handle_ice_state
      handle_signaling_state emit perform_all perform handle_incoming_dc
  run_call-events (described d) pc c = refl
  run_call-events (found a) pc c = refl
  run_call-events (state_changed s) pc c = handle_state_change-events s pc
  run_call-events (ice_changed s) pc c = refl
  run_call-events (gathering_changed s) pc c = handle_gathering_state-events s pc
  run_call-events (signaling_changed s) pc c = refl
  run_call-events (channel_came h) pc c =
      let names = callback (length pc.data_channels) in
      created-events (create N to_str names h 1024 c) pc

  move-events :
      (m : Move (Core World C)) (pc : PeerConnection) (c : Core World C)
      → (move N to_str callback m (pc, c)).0.events_queue
        ≡ perform_all (move_ops N to_str callback m (pc, c)) pc.events_queue
  unfolding move move_ops perform_all perform take_buffered reset_both accept_data_channel
      add_channel
  move-events (runs call) pc c = run_call-events call pc c
  move-events next_event pc c = refl
  move-events accepts pc c = refl
  move-events closes pc c = close-events pc
  move-events m pc c = (quiet-IsUntouched N to_str callback m pc c refl).0

  -- Whatever the loop, the callers, the channels and the extension do with a new connection, and in
  -- whatever order, its events are a stream: the events of the handlers that have run, the closing,
  -- and what each round of the iterator over the events did are, in this order, a run of the stream
  -- from an empty one to what is left in the queue.
  pub events-IsRun :
      (ms : List (Move (Core World C))) (native : ℕ) (c : Core World C)
      → IsRun new_stream
          (event_labels N to_str callback ms (fresh native, c))
          (stream_of (moves N to_str callback ms (fresh native, c)).0.events_queue)
  unfolding fresh
  events-IsRun ms native c =
      moves-IsRun N to_str callback (λ p. p.events_queue) (move_ops N to_str callback) move-events
        ms (fresh native) c refl

  -- No event is lost, made up or reordered: at any time in the life of a connection the events that
  -- its handlers have emitted are, in their order, those that iterators have yielded and then those
  -- that stand in the queue.
  pub events_in_order :
      (ms : List (Move (Core World C))) (native : ℕ) (c : Core World C)
      → emitted (event_labels N to_str callback ms (fresh native, c))
        ≡ yields (event_labels N to_str callback ms (fresh native, c))
          ++ somes (moves N to_str callback ms (fresh native, c)).0.events_queue.items
  events_in_order ms native c =
      IsRun-order (event_labels N to_str callback ms (fresh native, c)) new_stream _
        (events-IsRun ms native c)
