-- ===== src/Peer/Moves/Incoming.antt =====
-- The channels that the remote side opens, on their way from `_handle_incoming_dc` of
-- aiolibdatachannel/peer_connection.py to `accept_data_channel` and the iterator over them.
use Prim.Native.String.{String}
use aiolibdatachannel.Prelude.{
  ℕ, ◌≡◌, refl, List, [], ◌∷◌, ◌++◌, none, some, length, if◌then◌else◌, if_cases, Bool-cases, inl,
  inr,
}
use aiolibdatachannel.Asyncio.{somes}
use aiolibdatachannel.Errors.{Result, ok, raises}
use aiolibdatachannel.Native.{Native, Value, Name}
use aiolibdatachannel.Core.Machine.{Core}
use aiolibdatachannel.Enums.{RtcState, GatheringState}
use aiolibdatachannel.Channel.{DataChannel}
use aiolibdatachannel.Channel.Create.{create}
use aiolibdatachannel.Peer.{
  PeerConnection, created, fresh, accept_channel, add_channel, emit, handle_state_change, is_final,
  resolve_pending, handle_gathering_state, is_complete, complete_gathering,
  handle_local_description, handle_local_candidate, handle_ice_state, handle_signaling_state,
  handle_incoming_dc,
}
use aiolibdatachannel.Peer.Callbacks.{
  described, found, state_changed, ice_changed, gathering_changed, signaling_changed, channel_came,
  run_call,
}
use aiolibdatachannel.Peer.Lifecycle.{close}
use aiolibdatachannel.Peer.Iterators.{accept_data_channel}
use aiolibdatachannel.Peer.Iterators.Stream.{new_stream, Label, IsRun-order, emitted, yields}
use aiolibdatachannel.Peer.Iterators.Refine.{Op, puts, takes, perform, perform_all}
use aiolibdatachannel.Peer.Moves.{Move, runs, next_event, accepts, closes, move, moves}
use aiolibdatachannel.Peer.Moves.Untouched.{quiet-IsUntouched}
use aiolibdatachannel.Peer.Moves.Streams.{stream_labels, moves-IsRun}

module _ (N : Native) {C : Type 0} (to_str : Value → String) (callback : ℕ → Name → C) where
  open N use {World}

  -- A channel that could be made, by its place.
  offered : Result DataChannel × Core World C → ℕ → List (Op ℕ)
  offered (raises e, c) i = []
  offered (ok dc, c) i = puts (some i) ∷ []

  -- What a move does to the queue of incoming channels.
  unfoldable pub incoming_ops : Move (Core World C) → PeerConnection × Core World C → List (Op ℕ)
  unfolding offered
  incoming_ops (runs (channel_came h)) (pc, c) =
      let i = length pc.data_channels in offered (create N to_str (callback i) h 1024 c) i
  incoming_ops accepts s = takes ∷ []
  incoming_ops closes (pc, c) = if pc.closed then [] else puts none ∷ []
  incoming_ops m s = []

  abbrev pub incoming_labels :
      List (Move (Core World C)) → PeerConnection × Core World C → List (Label ℕ)
  incoming_labels = stream_labels N to_str callback (λ p. p.incoming_dc) incoming_ops

abbrev KeepsIncoming : PeerConnection → PeerConnection → Type 0
KeepsIncoming pc p = p.incoming_dc ≡ pc.incoming_dc

handle_state_change-incoming :
    (s : RtcState) (pc : PeerConnection) → KeepsIncoming pc (handle_state_change s pc)
unfolding handle_state_change emit resolve_pending
handle_state_change-incoming s pc =
    if_cases (KeepsIncoming pc) (is_final s) _ _ (λ e. refl) (λ e. refl)

handle_gathering_state-incoming :
    (s : GatheringState) (pc : PeerConnection) → KeepsIncoming pc (handle_gathering_state s pc)
unfolding handle_gathering_state emit complete_gathering
handle_gathering_state-incoming s pc =
    if_cases (KeepsIncoming pc) (is_complete s) _ _ (λ e. refl) (λ e. refl)

close-incoming :
    (pc : PeerConnection)
    → (close pc).incoming_dc ≡ perform_all (if pc.closed then [] else puts none ∷ []) pc.incoming_dc
unfolding close perform_all perform
close-incoming pc = elim (Bool-cases pc.closed) [ inl e ↦ rw e refl | inr e ↦ rw e refl ]

module _ (N : Native) {C : Type 0} (to_str : Value → String) (callback : ℕ → Name → C) where
  open N use {World}

  created-incoming :
      (r : Result DataChannel × Core World C) (pc : PeerConnection)
      → (created N to_str callback r pc).0.incoming_dc
        ≡ perform_all (offered N to_str callback r (length pc.data_channels)) pc.incoming_dc
  unfolding created offered accept_channel add_channel emit perform_all perform
  created-incoming (raises e, c) pc = refl
  created-incoming (ok dc, c) pc = refl

  move-incoming :
      (m : Move (Core World C)) (pc : PeerConnection) (c : Core World C)
      → (move N to_str callback m (pc, c)).0.incoming_dc
        ≡ perform_all (incoming_ops N to_str callback m (pc, c)) pc.incoming_dc
  unfolding move incoming_ops perform_all perform accept_data_channel run_call
      handle_local_description handle_local_candidate handle_ice_state handle_signaling_state emit
      handle_incoming_dc
  move-incoming (runs (described d)) pc c = refl
  move-incoming (runs (found a)) pc c = refl
  move-incoming (runs (state_changed s)) pc c = handle_state_change-incoming s pc
  move-incoming (runs (ice_changed s)) pc c = refl
  move-incoming (runs (gathering_changed s)) pc c = handle_gathering_state-incoming s pc
  move-incoming (runs (signaling_changed s)) pc c = refl
  move-incoming (runs (channel_came h)) pc c =
      let names = callback (length pc.data_channels) in
      created-incoming (create N to_str names h 1024 c) pc
  move-incoming next_event pc c = refl
  move-incoming accepts pc c = refl
  move-incoming closes pc c = close-incoming pc
  move-incoming m pc c = (quiet-IsUntouched N to_str callback m pc c refl).1

  -- No channel that the remote side has opened is lost, given twice or out of turn: at any time in
  -- the life of a connection the channels that `_handle_incoming_dc` could make are, in their
  -- order, those that `accept_data_channel` and iterators have given, and then those that stand in
  -- the queue.
  pub incoming_in_order :
      (ms : List (Move (Core World C))) (native : ℕ) (c : Core World C)
      → emitted (incoming_labels N to_str callback ms (fresh native, c))
        ≡ yields (incoming_labels N to_str callback ms (fresh native, c))
          ++ somes (moves N to_str callback ms (fresh native, c)).0.incoming_dc.items
  unfolding fresh
  incoming_in_order ms native c =
      IsRun-order (incoming_labels N to_str callback ms (fresh native, c)) new_stream _ (
        moves-IsRun N to_str callback (λ p. p.incoming_dc) (incoming_ops N to_str callback)
          move-incoming ms (fresh native) c refl)
