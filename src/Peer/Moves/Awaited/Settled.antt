-- ===== src/Peer/Moves/Awaited/Settled.antt =====
-- How the moves of a connection (aiolibdatachannel/peer_connection.py) settle the future that
-- `create_offer` and `create_answer` await.
use Prim.Native.String.{String}
use aiolibdatachannel.Prelude.{ℕ, List, [], ◌∷◌}
use aiolibdatachannel.Native.{Native, Value, Name}
use aiolibdatachannel.Loop.{FutureState, pending}
use aiolibdatachannel.Core.Machine.{Core}
use aiolibdatachannel.Peer.{PeerConnection}
use aiolibdatachannel.Peer.Moves.{Move, move}
use aiolibdatachannel.Peer.Moves.Awaited.{settled_by}

module _ (N : Native) {C : Type 0} (to_str : Value → String) (callback : ℕ → Name → C) where
  open N use {World}

  -- What the first move that settles the future makes of it.
  abbrev pub first : FutureState (Unit {0}) → FutureState (Unit {0}) → FutureState (Unit {0})
  first pending later = later
  first st later = st

  abbrev pub settled :
      List (Move (Core World C)) → PeerConnection × Core World C → FutureState (Unit {0})
  settled [] s = pending
  settled (m ∷ ms) s = first (settled_by m s.0.closed) (settled ms (move N to_str callback m s))
