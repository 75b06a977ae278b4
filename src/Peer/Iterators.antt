-- ===== src/Peer/Iterators.antt =====
-- The async iterators of aiolibdatachannel/peer_connection.py, `_iter_incoming`,
-- `_iter_ice_candidates` and `_iter_events`. They are the same code over three queues.
pub mod Ends
pub mod Shut
pub mod Stream
pub mod Refine
use Prim.Native.String.{String}
use aiolibdatachannel.Prelude.{ℕ, zero, suc, Bool, true, false, List, [], ◌∷◌, Option, none, some}
use aiolibdatachannel.Errors.{closed_error, Outcome, returns, fails, blocks}
use aiolibdatachannel.Asyncio.{Queue, get_nowait, put_suppressed}
use aiolibdatachannel.Peer.{PeerConnection, IceCandidate, PcEvent}

-- What one round does: yields an item, ends, or waits.
pub data Round {ℓ} (A : Type ℓ) : Type ℓ where
  yields : A → Round A
  ends waits : Round A

module _ {ℓ} {A : Type ℓ} where
  -- The sentinel goes back into the queue.
  got : Option (Option A × Queue (Option A)) → Queue (Option A) → Round A × Queue (Option A)
  got none q = (waits, q)
  got (some (none, q')) q = (ends, put_suppressed q' none)
  got (some (some a, q')) q = (yields a, q')

  unfoldable pub round : Queue (Option A) → Round A × Queue (Option A)
  unfolding got
  round q = got (get_nowait q) q

pub record Iteration {ℓ} (A : Type ℓ) : Type ℓ where
  pub items : List A
  pub ended : Bool

module _ {ℓ} {A : Type ℓ} where
  abbrev pub item_first : A → Iteration A → Iteration A
  item_first a it = record it { items = a ∷ it.items }

  next_round : Round A → Iteration A → Iteration A
  next_round (yields a) rest = item_first a rest
  next_round ends rest = record { items = []; ended = true }
  next_round waits rest = record { items = []; ended = false }

  -- `async for`, for so many rounds at most.
  unfoldable pub iterate : ℕ → Queue (Option A) → Iteration A
  unfolding next_round
  iterate zero q = record { items = []; ended = false }
  iterate (suc n) q = let r = round q in next_round r.0 (iterate n r.1)

abbrev pub iter_incoming : ℕ → PeerConnection → Iteration ℕ
iter_incoming n pc = iterate n pc.incoming_dc

abbrev pub iter_ice_candidates : ℕ → PeerConnection → Iteration IceCandidate
iter_ice_candidates n pc = iterate n pc.ice_candidates

abbrev pub iter_events : ℕ → PeerConnection → Iteration PcEvent
iter_events n pc = iterate n pc.events_queue

-- `accept_data_channel`.
accepted : Round ℕ → Outcome ℕ
accepted (yields i) = returns i
accepted ends = fails (closed_error "peer connection closed before a data channel arrived")
accepted waits = blocks

unfoldable pub accept_data_channel : PeerConnection → Outcome ℕ × PeerConnection
unfolding accepted
accept_data_channel pc =
    let r = round pc.incoming_dc in (accepted r.0, record pc { incoming_dc = r.1 })
