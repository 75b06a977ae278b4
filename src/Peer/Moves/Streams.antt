-- ===== src/Peer/Moves/Streams.antt =====
-- A queue of a PeerConnection (aiolibdatachannel/peer_connection.py) through a whole life of the
-- connection, as a stream.
use Prim.Native.String.{String}
use aiolibdatachannel.Prelude.{ℕ, ◌≡◌, refl, List, [], ◌∷◌, ◌++◌, Option}
use aiolibdatachannel.Asyncio.{Queue}
use aiolibdatachannel.Native.{Native, Value, Name}
use aiolibdatachannel.Core.Machine.{Core}
use aiolibdatachannel.Peer.{PeerConnection}
use aiolibdatachannel.Peer.Iterators.Stream.{Label, IsRun, IsRun-append}
use aiolibdatachannel.Peer.Iterators.Refine.{
  Op, stream_of, perform_all, labels, perform_all-IsRun, perform_all-maxsize,
}
use aiolibdatachannel.Peer.Moves.{Move, move, moves}

module _ (N : Native) {C : Type 0} (to_str : Value → String) (callback : ℕ → Name → C) {A : Type 0}
    (queue : PeerConnection → Queue (Option A))
    (ops : Move (Core N.World C) → PeerConnection × Core N.World C → List (Op A)) where
  open N use {World}

  -- The run that the moves make, when `ops` is what a move does to the queue.
  unfoldable pub stream_labels :
      List (Move (Core World C)) → PeerConnection × Core World C → List (Label A)
  stream_labels [] s = []
  stream_labels (m ∷ ms) s =
      labels (ops m s) (queue s.0) ++ stream_labels ms (move N to_str callback m s)

  module _
      (follows : (m : Move (Core World C)) (pc : PeerConnection) (c : Core World C)
        → queue (move N to_str callback m (pc, c)).0 ≡ perform_all (ops m (pc, c)) (queue pc)) where
    pub moves-IsRun :
        (ms : List (Move (Core World C))) (pc : PeerConnection) (c : Core World C)
        → (queue pc).maxsize ≡ 0
        → IsRun
            (stream_of (queue pc))
            (stream_labels ms (pc, c))
            (stream_of (queue (moves N to_str callback ms (pc, c)).0))
    unfolding stream_labels moves IsRun
    moves-IsRun [] pc c e = refl
    moves-IsRun (m ∷ ms) pc c e =
        let s = move N to_str callback m (pc, c) in
        let os = ops m (pc, c) in
        let step : queue s.0 ≡ perform_all os (queue pc) = follows m pc c in
        IsRun-append (labels os (queue pc)) (stream_labels ms s) (stream_of (queue pc))
          (stream_of (queue s.0)) _ (rw step (perform_all-IsRun os (queue pc) e))
          (moves-IsRun ms s.0 s.1 (rw step (perform_all-maxsize os (queue pc) e)))
