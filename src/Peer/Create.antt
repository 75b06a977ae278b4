-- ===== src/Peer/Create.antt =====
-- `PeerConnection.__init__` of aiolibdatachannel/peer_connection.py, against the wrapper of
-- _core.py.
pub mod Kept
pub mod Held
use Prim.Native.String.{String}
use aiolibdatachannel.Prelude.{ℕ, List, [], ◌∷◌}
use aiolibdatachannel.Errors.{Result, ok, raises}
use aiolibdatachannel.Native.{Native, Value, Name, PcArgs}
use aiolibdatachannel.Config.{RtcConfiguration, peer_args}
use aiolibdatachannel.Core.InTurn.{in_turn}
use aiolibdatachannel.Core.Machine.{Core}
use aiolibdatachannel.Core.Calls
use aiolibdatachannel.Peer.{PeerConnection, fresh}

-- The callbacks, in the order in which they are registered.
abbrev pub pc_names : List Name
pc_names =
    Name.local_description ∷ Name.local_candidate ∷ Name.state_change ∷ Name.ice_state_change
    ∷ Name.gathering_state_change ∷ Name.signaling_state_change ∷ Name.data_channel ∷ []

module _ (N : Native) {C : Type 0} (to_str : Value → String) where
  open N use {World}

  -- `set_on_*` for each name.
  unfoldable pub wire : ℕ → (Name → C) → List Name → Core World C → Result (Unit {0}) × Core World C
  wire i callback = in_turn (λ n. Calls.pc_set_on N to_str i n (callback n))

  wired : ℕ → Result (Unit {0}) × Core World C → Result PeerConnection × Core World C
  wired i (raises e, c) = (raises e, c)
  wired i (ok u, c) = (ok (fresh i), c)

  opened : (Name → C) → Result ℕ × Core World C → Result PeerConnection × Core World C
  unfolding wire wired
  opened callback (raises e, c) = (raises e, c)
  opened callback (ok i, c) = wired i (wire i callback pc_names c)

  with_args : (Name → C) → Result PcArgs → Core World C → Result PeerConnection × Core World C
  unfolding opened
  with_args callback (raises e) c = (raises e, c)
  with_args callback (ok args) c = opened callback (Calls.pc_init N to_str args c)

  unfoldable pub create_peer :
      (Name → C) → RtcConfiguration → Core World C → Result PeerConnection × Core World C
  unfolding with_args
  create_peer callback cfg c = with_args callback (peer_args cfg) c
