-- ===== src/Peer/Remote.antt =====
-- The remote description and the remote candidates of aiolibdatachannel/peer_connection.py.
-- `set_remote_description` and `add_remote_candidate` are cut where they await the executor, and a
-- Session interleaves any number of these coroutines: the executor may run what it was handed in
-- any order.
pub mod Traced
pub mod Conservation
pub mod Lost
use Prim.Native.String.{String}
use aiolibdatachannel.Prelude.{
  ℕ, zero, suc, Bool, true, false, List, [], ◌∷◌, ◌++◌, Option, none, some, if◌then◌else◌,
}
use aiolibdatachannel.Errors.{Result, ok, raises}
use aiolibdatachannel.Native.{Native, Value}
use aiolibdatachannel.Core.Machine.{Core, suppress}
use aiolibdatachannel.Core.Calls
use aiolibdatachannel.Peer.{PeerConnection, SdpType, sdp_type_str, fresh}

abbrev pub Candidate : Type 0
Candidate = String × String

-- `add_remote_candidate` up to the executor, with the candidate that it hands over, if it does.
unfoldable pub add_remote_candidate : Candidate → PeerConnection → Option Candidate × PeerConnection
add_remote_candidate cand pc = if pc.remote_description_set then (some cand, pc) else (
  none,
  record pc { buffered_remote_candidates = pc.buffered_remote_candidates ++ cand ∷ [] },
)

-- `set_remote_description` from where the executor has applied the description: the flag goes up,
-- and the coroutine goes on with the candidates that were buffered.
unfoldable pub take_buffered : PeerConnection → List Candidate × PeerConnection
take_buffered pc = (
  pc.buffered_remote_candidates,
  record pc { remote_description_set = true; buffered_remote_candidates = [] },
)

-- `applied` counts the coroutines whose description the executor has applied and that have not run
-- since, `drains` has what each coroutine in the loop over its buffer has left, and `in_flight` the
-- candidates that were handed to the executor directly. `added` and `forwarded` record what the
-- callers gave and what the extension got, `cancelled` counts the coroutines that were cancelled, and
-- `lost` has the candidates that they leave behind.
pub record Session (W C : Type 0) : Type 0 where
  pub pc : PeerConnection
  pub core : Core W C
  pub applied : ℕ
  pub drains : List (List Candidate)
  pub in_flight : List Candidate
  pub added : List Candidate
  pub forwarded : List Candidate
  pub cancelled : ℕ
  pub lost : List Candidate

-- A coroutine that is cancelled while it awaits the executor goes no further: CancelledError is no
-- Exception, which is all that the loop over the buffer catches. What the executor has not begun is
-- not run any more.
pub data Move : Type 0 where
  add : Candidate → Move
  apply : String → SdpType → Move
  resume : Move
  drain : ℕ → Move
  forward : ℕ → Move
  cancel_apply : Move
  cancel_drain : ℕ → Move
  cancel_add : ℕ → Move

-- The element at a place, and the others.
unfoldable pub pick {ℓ} : {A : Type ℓ} → ℕ → List A → Option (A × List A)
pick n [] = none
pick zero (x ∷ xs) = some (x, xs)
pick (suc n) (x ∷ xs) = elim (pick n xs) [ none ↦ none | some (y, ys) ↦ some (y, x ∷ ys) ]

module _ {W C : Type 0} where
  abbrev pub begin : ℕ → Core W C → Session W C
  begin native core = record {
    pc = fresh native;
    core = core;
    applied = 0;
    drains = [];
    in_flight = [];
    added = [];
    forwarded = [];
    cancelled = 0;
    lost = [];
  }

  pub handed : Option Candidate × PeerConnection → Session W C → Session W C
  handed (none, pc) s = record s { pc = pc }
  handed (some cand, pc) s = record s { pc = pc; in_flight = s.in_flight ++ cand ∷ [] }

  pub apply_result : Result (Unit {0}) × Core W C → Session W C → Session W C
  apply_result (ok u, core) s = record s { core = core; applied = suc s.applied }
  apply_result (raises e, core) s = record s { core = core }

  resumed : List Candidate × PeerConnection → ℕ → Session W C → Session W C
  resumed (buffered, pc) n s = record s { pc = pc; applied = n; drains = s.drains ++ buffered ∷ [] }

  pub resume_next : ℕ → Session W C → Session W C
  unfolding resumed take_buffered
  resume_next zero s = s
  resume_next (suc n) s = resumed (take_buffered s.pc) n s

  stop_apply : ℕ → Session W C → Session W C
  stop_apply zero s = s
  stop_apply (suc n) s = record s { applied = n; cancelled = suc s.cancelled }

  stop_drain : Option (List Candidate × List (List Candidate)) → Session W C → Session W C
  stop_drain none s = s
  stop_drain (some (cands, rest)) s = record s {
    drains = rest;
    cancelled = suc s.cancelled;
    lost = s.lost ++ cands;
  }

  stop_add : Option (Candidate × List Candidate) → Session W C → Session W C
  stop_add none s = s
  stop_add (some (cand, rest)) s = record s {
    in_flight = rest;
    cancelled = suc s.cancelled;
    lost = s.lost ++ cand ∷ [];
  }

module _ (N : Native) {C : Type 0} (to_str : Value → String) where
  open N use {World}

  -- What the executor runs for one candidate.
  unfoldable pub hand_over : Candidate → PeerConnection → Core World C → Core World C
  hand_over (cand, mid) pc c = suppress (Calls.add_remote_candidate N to_str pc.native cand mid c)

  give : Candidate → Session World C → Session World C
  unfolding hand_over
  give cand s = record s { core = hand_over cand s.pc s.core; forwarded = s.forwarded ++ cand ∷ [] }

  -- A candidate that the extension refuses does not end the loop.
  drain_one : Option (List Candidate × List (List Candidate)) → Session World C → Session World C
  unfolding give
  drain_one none s = s
  drain_one (some ([], rest)) s = record s { drains = rest }
  drain_one (some (cand ∷ cands, rest)) s = give cand (record s { drains = cands ∷ rest })

  forward_one : Option (Candidate × List Candidate) → Session World C → Session World C
  unfolding give
  forward_one none s = s
  forward_one (some (cand, rest)) s = give cand (record s { in_flight = rest })

  unfoldable pub move : Move → Session World C → Session World C
  unfolding handed add_remote_candidate apply_result resume_next drain_one forward_one pick
      stop_apply stop_drain stop_add
  move (add cand) s =
      handed (add_remote_candidate cand s.pc) (record s { added = s.added ++ cand ∷ [] })
  move (apply sdp type) s =
      apply_result
        (Calls.set_remote_description N to_str s.pc.native sdp (sdp_type_str type) s.core) s
  move resume s = resume_next s.applied s
  move (drain i) s = drain_one (pick i s.drains) s
  move (forward i) s = forward_one (pick i s.in_flight) s
  move cancel_apply s = stop_apply s.applied s
  move (cancel_drain i) s = stop_drain (pick i s.drains) s
  move (cancel_add i) s = stop_add (pick i s.in_flight) s

  unfoldable pub moves : List Move → Session World C → Session World C
  unfolding move
  moves [] s = s
  moves (m ∷ ms) s = moves ms (move m s)
