-- ===== src/Peer/Lifecycle/Made.antt =====
-- What making a channel and starting the teardown do to a connection
-- (aiolibdatachannel/peer_connection.py), as rules for what holds afterwards.
use Prim.Native.String.{String}
use aiolibdatachannel.Prelude.{ℕ, ◌≡◌, refl, ◌∙◌, List, [], ◌∷◌, arith, length, All, get_elem?}
use aiolibdatachannel.Errors.{Result, ok, raises}
use aiolibdatachannel.Native.{Native, Value, Name}
use aiolibdatachannel.Core.Machine.{Core}
use aiolibdatachannel.Core.Machine.Frame.{SameTables, call-SameTables}
use aiolibdatachannel.Core.Calls.Soundness.{with_object-tables}
use aiolibdatachannel.Core.Calls
use aiolibdatachannel.Tasks.{gathering, numbers}
use aiolibdatachannel.Channel.{DataChannel}
use aiolibdatachannel.Channel.Api
use aiolibdatachannel.Channel.Create.{create}
use aiolibdatachannel.Channel.Create.Synced.{create-IsSynced}
use aiolibdatachannel.Channel.Api.Moves.Safety.{IsSafe}
use aiolibdatachannel.Channel.Api.Moves.Runs.{destroy-IsSafe}
use aiolibdatachannel.Channel.Api.Moves.Wrapped.{destroy-Handles}
use aiolibdatachannel.Peer.{PeerConnection, add_channel}
use aiolibdatachannel.Peer.Lifecycle.{
  DataChannelOptions, channel_args, made, with_handle, create_data_channel, destroy_channels,
  release_channels, begin, start_teardown,
}

module _ (N : Native) {C : Type 0} (to_str : Value → String) (callback : ℕ → Name → C) where
  open N use {World}

  made-pc :
      (P : PeerConnection → Type 0) (r : Result DataChannel × Core World C) (pc : PeerConnection)
      → P pc
      → ((dc : DataChannel) → r.0 ≡ ok dc → P (add_channel dc pc))
      → P (made N to_str callback r pc).1
  unfolding made
  made-pc P (raises e, c) pc p q = p
  made-pc P (ok dc, c) pc p q = q dc refl

  with_handle-pc :
      (P : PeerConnection → Type 0) (r : Result ℕ × Core World C) (pc : PeerConnection)
      → P pc
      → ((dc : DataChannel) → IsSafe dc → P (add_channel dc pc))
      → P (with_handle N to_str callback r pc).1
  unfolding with_handle
  with_handle-pc P (raises e, c) pc p q = p
  with_handle-pc P (ok handle, c) pc p q =
      let names = callback (length pc.data_channels) in
      made-pc P (create N to_str names handle 1024 c) pc p
        (λ dc e. q dc (create-IsSynced N to_str names handle 1024 c dc (omega arith) e).3)

  pub create_data_channel-pc :
      (P : PeerConnection → Type 0) (label : String) (opts : DataChannelOptions)
      (pc : PeerConnection) (c : Core World C)
      → P pc
      → ((dc : DataChannel) → IsSafe dc → P (add_channel dc pc))
      → P (create_data_channel N to_str callback label opts pc c).1
  unfolding create_data_channel
  create_data_channel-pc P label opts pc c p q =
      with_handle-pc P (Calls.create_data_channel N to_str pc.native (channel_args label opts) c) pc
        p q

module _ (N : Native) {C : Type 0} (to_str : Value → String) (callback : ℕ → Name → C) where
  open N use {World}

  -- The same with the state of the extension's wrappers.
  made-both :
      (P : PeerConnection → Core World C → Type 0) (r : Result DataChannel × Core World C)
      (pc : PeerConnection)
      → P pc r.1
      → ((dc : DataChannel) → r.0 ≡ ok dc → P (add_channel dc pc) r.1)
      → let s = made N to_str callback r pc in P s.1 s.2
  unfolding made
  made-both P (raises e, c) pc p q = p
  made-both P (ok dc, c) pc p q = q dc refl

  with_handle-both :
      (P : PeerConnection → Core World C → Type 0) (r : Result ℕ × Core World C)
      (pc : PeerConnection)
      → P pc r.1
      → ((h : ℕ)
          → r.0 ≡ ok h
          → let s = create N to_str (callback (length pc.data_channels)) h 1024 r.1 in
            P pc s.1 × ((dc : DataChannel) → s.0 ≡ ok dc → P (add_channel dc pc) s.1))
      → let s = with_handle N to_str callback r pc in P s.1 s.2
  unfolding with_handle
  with_handle-both P (raises e, c) pc p q = p
  with_handle-both P (ok h, c) pc p q =
      let (one, two) = q h refl in
      made-both P (create N to_str (callback (length pc.data_channels)) h 1024 c) pc one two

  pub create_data_channel-both :
      (P : PeerConnection → Core World C → Type 0) (label : String) (opts : DataChannelOptions)
      (pc : PeerConnection) (c : Core World C)
      → ((e : Core World C) → SameTables c e → P pc e)
      → ((h : ℕ) (e : Core World C)
          → (Calls.create_data_channel N to_str pc.native (channel_args label opts) c).0 ≡ ok h
          → SameTables c e
          → let s = create N to_str (callback (length pc.data_channels)) h 1024 e in
            P pc s.1 × ((dc : DataChannel) → s.0 ≡ ok dc → P (add_channel dc pc) s.1))
      → let r = create_data_channel N to_str callback label opts pc c in P r.1 r.2
  unfolding create_data_channel
  create_data_channel-both P label opts pc c p q =
      let r = Calls.create_data_channel N to_str pc.native (channel_args label opts) c in
      let s : SameTables c r.1 =
        unfold Calls.create_data_channel in
        with_object-tables N to_str (get_elem? c.pcs.objects pc.native) _ c (λ w.
          call-SameTables to_str (N.create_data_channel w.handle (channel_args label opts)) c) in
      with_handle-both P r pc (p r.1 s) (λ h e. q h r.1 e s)

module _ (N : Native) {C : Type 0} (to_str : Value → String) where
  open N use {World}

  begin-both :
      (P : PeerConnection → Core World C → Type 0) (ns : List ℕ) (pc : PeerConnection)
      (c : Core World C)
      → (let r = release_channels N to_str pc c in P r.0 r.1)
      → P (record pc { teardown = gathering ns }) c
      → let r = begin N to_str ns pc c in P r.0 r.1
  unfolding begin
  begin-both P [] pc c p q = p
  begin-both P (n ∷ ns) pc c p q = q

  pub start_teardown-both :
      (P : PeerConnection → Core World C → Type 0) (pc : PeerConnection) (c : Core World C)
      → (let r = release_channels N to_str pc c in P r.0 r.1)
      → P (record pc { teardown = gathering (numbers pc.tasks) }) c
      → let r = start_teardown N to_str pc c in P r.0 r.1
  unfolding start_teardown
  start_teardown-both P pc c p q = begin-both P (numbers pc.tasks) pc c p q

  -- The same for what holds of the connection alone.
  pub start_teardown-pc :
      (P : PeerConnection → Type 0) (pc : PeerConnection) (c : Core World C)
      → P (release_channels N to_str pc c).0
      → P (record pc { teardown = gathering (numbers pc.tasks) })
      → P (start_teardown N to_str pc c).0
  start_teardown-pc P pc c p q = start_teardown-both (λ d e. P d) pc c p q

  -- Destroyed channels are safe.
  pub destroy_channels-All :
      (dcs : List DataChannel) (c : Core World C)
      → All IsSafe dcs
      → All IsSafe (destroy_channels N to_str dcs c).0
  unfolding destroy_channels
  destroy_channels-All [] c v = tt
  destroy_channels-All (dc ∷ dcs) c v = (
    (destroy-IsSafe N to_str dc c v.0).0,
    destroy_channels-All dcs (Api.destroy N to_str dc c).1 v.1,
  )

  -- Destroying channels leaves the registry of the connections alone, and the dispatcher.
  pub destroy_channels-pcs :
      (dcs : List DataChannel) (c : Core World C)
      → let e = (destroy_channels N to_str dcs c).1 in (e.pcs ≡ c.pcs) × (e.installed ≡ c.installed)
  unfolding destroy_channels
  destroy_channels-pcs [] c = (refl, refl)
  destroy_channels-pcs (dc ∷ dcs) c =
      let h = destroy-Handles N to_str dc c in
      let (p, q) = destroy_channels-pcs dcs (Api.destroy N to_str dc c).1 in
      (p ∙ h.same_pcs, q ∙ h.same_installed)
