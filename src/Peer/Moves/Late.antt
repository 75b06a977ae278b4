-- ===== src/Peer/Moves/Late.antt =====
-- A channel that comes while the teardown of its connection
-- (aiolibdatachannel/peer_connection.py) waits for the executor.
use Prim.Native.String.{String}
use aiolibdatachannel.Prelude.{
  ℕ, ◌≡◌, refl, true, false, [], ◌∷◌, some, arith, get_elem?, get_elem?-append_last, length,
}
use aiolibdatachannel.Errors.{Result, ok, raises}
use aiolibdatachannel.Native.{Native, Value, Name}
use aiolibdatachannel.Core.Machine.{Core}
use aiolibdatachannel.Tasks.{releasing, finished}
use aiolibdatachannel.Channel.{DataChannel}
use aiolibdatachannel.Channel.Create.{create}
use aiolibdatachannel.Channel.Create.Synced.{create-IsSynced}
use aiolibdatachannel.Peer.{
  PeerConnection, created, accept_channel, add_channel, emit, handle_incoming_dc,
}
use aiolibdatachannel.Peer.Callbacks.{channel_came, run_call}
use aiolibdatachannel.Peer.Lifecycle.{execute_destroy, end_teardown}
use aiolibdatachannel.Peer.Moves.{runs, executes, ends, move, moves, execute_if, end_if}

module _ (N : Native) {C : Type 0} (to_str : Value → String) (callback : ℕ → Name → C) where
  open N use {World}

  -- The connection reports its shutdown, and the channel stands in it, not destroyed.
  abbrev pub IsLeft : DataChannel → ℕ → PeerConnection → Type 0
  IsLeft dc i pc =
      (pc.closed_event ≡ true)
      × (pc.teardown ≡ finished)
      × (get_elem? pc.data_channels i ≡ some dc)
      × (dc.destroyed ≡ false)

  late_steps :
      (dc : DataChannel) (pc : PeerConnection) (c : Core World C)
      → pc.teardown ≡ releasing
      → dc.destroyed ≡ false
      → IsLeft dc
          (length pc.data_channels)
          (moves N to_str callback (executes ∷ ends ∷ []) (accept_channel dc pc, c)).0
  unfolding moves move execute_if end_if execute_destroy end_teardown accept_channel add_channel
      emit
  late_steps dc pc c at live = rw at (refl, refl, get_elem?-append_last pc.data_channels dc, live)

  late_created :
      (r : Result DataChannel × Core World C) (dc : DataChannel) (pc : PeerConnection)
      → pc.teardown ≡ releasing
      → r.0 ≡ ok dc
      → dc.destroyed ≡ false
      → IsLeft dc
          (length pc.data_channels)
          (moves N to_str callback (executes ∷ ends ∷ []) (created N to_str callback r pc)).0
  unfolding created
  late_created (raises e, c) dc pc at made live = absurd (cc)
  late_created (ok d, c) dc pc at made live =
      let same : d ≡ dc = cc in rw same (late_steps dc pc c at live)

  -- A channel outlives its connection: one that the remote side opens while the teardown waits for
  -- the executor, after the loop over the channels, and that can be made, is not destroyed by the
  -- teardown, which, run with nothing else in between, ends and reports the shutdown with the
  -- channel in the connection.
  pub late_channel_survives :
      (h : ℕ) (dc : DataChannel) (pc : PeerConnection) (c : Core World C)
      → pc.teardown ≡ releasing
      → (create N to_str (callback (length pc.data_channels)) h 1024 c).0 ≡ ok dc
      → IsLeft dc
          (length pc.data_channels)
          (moves N to_str callback (runs (channel_came h) ∷ executes ∷ ends ∷ []) (pc, c)).0
  unfolding moves move run_call handle_incoming_dc
  late_channel_survives h dc pc c at made =
      let names = callback (length pc.data_channels) in
      late_created (create N to_str names h 1024 c) dc pc at made
        (create-IsSynced N to_str names h 1024 c dc (omega arith) made).4
