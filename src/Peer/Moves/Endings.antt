-- ===== src/Peer/Moves/Endings.antt =====
-- The async iterators of a PeerConnection (aiolibdatachannel/peer_connection.py) after `close`.
use Prim.Native.String.{String}
use aiolibdatachannel.Prelude.{ℕ, ◌≤◌, ◌≡◌, ap, ◌∙◌, Bool, true, List, Option, length}
use aiolibdatachannel.Native.{Native, Value, Name}
use aiolibdatachannel.Asyncio.{Queue, before_sentinel}
use aiolibdatachannel.Core.Machine.{Core}
use aiolibdatachannel.Peer.{fresh}
use aiolibdatachannel.Peer.Iterators.{iterate}
use aiolibdatachannel.Peer.Iterators.Ends.{queue, iterate-sentinel}
use aiolibdatachannel.Peer.Iterators.Shut.{IsShut}
use aiolibdatachannel.Peer.Moves.{Move, moves}
use aiolibdatachannel.Peer.Moves.Runs.{moves-IsLive}

-- What an iterator on the queue yields, if it ends by itself.
abbrev pub EndsWith {ℓ} : {A : Type ℓ} → ℕ → Queue (Option A) → Type ℓ
EndsWith n q = iterate n q ≡ record { items = before_sentinel q.items; ended = true }

iterate-EndsWith {ℓ} :
    {A : Type ℓ} (n : ℕ) (b : Bool) (q : Queue (Option A))
    → b ≡ true
    → length q.items ≤ n
    → IsShut b q
    → EndsWith n q
iterate-EndsWith n b q shut enough (e, h) =
    let bounded : q ≡ queue q.items = ap (λ k. record { maxsize = k; items = q.items }) e in
    ap (iterate n) bounded ∙ iterate-sentinel n q.items (h shut) enough

module _ (N : Native) {C : Type 0} (to_str : Value → String) (callback : ℕ → Name → C) where
  open N use {World}

  -- Whatever a connection has gone through since it was made, if it is closed then each of the
  -- three async iterators ends by itself, within one round for each item of its queue, and yields
  -- exactly what stands in front of the close sentinel.
  pub closed_iterators_end :
      (n : ℕ) (ms : List (Move (Core World C))) (native : ℕ) (c : Core World C)
      → let pc = (moves N to_str callback ms (fresh native, c)).0 in
        pc.closed ≡ true
        → length pc.incoming_dc.items ≤ n
        → length pc.ice_candidates.items ≤ n
        → length pc.events_queue.items ≤ n
        → EndsWith n pc.incoming_dc × EndsWith n pc.ice_candidates × EndsWith n pc.events_queue
  closed_iterators_end n ms native c shut enough enough' enough'' =
      let v = moves-IsLive N to_str callback ms native c in
      (
        iterate-EndsWith n _ _ shut enough v.incoming,
        iterate-EndsWith n _ _ shut enough' v.candidates,
        iterate-EndsWith n _ _ shut enough'' v.events,
      )
