-- ===== src/Peer/Remote/Lost.antt =====
-- What cancelling does to the remote candidates of a connection
-- (aiolibdatachannel/peer_connection.py).
use Prim.Native.String.{String}
use aiolibdatachannel.Prelude.{
  ℕ, zero, suc, ◌+◌, ◌≤◌, ◌≡◌, List, [], ◌∷◌, ◌++◌, Option, none, some, arith,
}
use aiolibdatachannel.Errors.{Result, ok, raises}
use aiolibdatachannel.Native.{Native, Value}
use aiolibdatachannel.Core.Machine.{Core}
use aiolibdatachannel.Core.Calls
use aiolibdatachannel.Peer.{PeerConnection, sdp_type_str}
use aiolibdatachannel.Peer.Remote.{
  Candidate, Session, Move, add, apply, resume, drain, forward, cancel_apply, cancel_drain,
  cancel_add, pick, begin, handed, apply_result, resumed, resume_next, give, drain_one, forward_one,
  stop_apply, stop_drain, stop_add, move, moves, add_remote_candidate,
}
use aiolibdatachannel.Peer.Remote.Traced.{total, total-append}
use aiolibdatachannel.Peer.Remote.Conservation.{moves-IsTraced, run-IsTraced}

module _ (N : Native) {C : Type 0} (to_str : Value → String) (w : Candidate → ℕ) where
  open N use {World}

  -- What is left behind stays behind.
  abbrev Grows : Session World C → Session World C → Type 0
  Grows s t = total w s.lost ≤ total w t.lost

  handed-Grows :
      (r : Option Candidate × PeerConnection) (s : Session World C) → Grows s (handed r s)
  unfolding handed
  handed-Grows (none, pc) s = omega arith
  handed-Grows (some cand, pc) s = omega arith

  apply-Grows :
      (r : Result (Unit {0}) × Core World C) (s : Session World C) → Grows s (apply_result r s)
  unfolding apply_result
  apply-Grows (ok u, core) s = omega arith
  apply-Grows (raises e, core) s = omega arith

  resume-Grows : (n : ℕ) (s : Session World C) → Grows s (resume_next n s)
  unfolding resume_next resumed
  resume-Grows zero s = omega arith
  resume-Grows (suc n) s = omega arith

  drain-Grows :
      (o : Option (List Candidate × List (List Candidate))) (s : Session World C)
      → Grows s (drain_one N to_str o s)
  unfolding drain_one give
  drain-Grows none s = omega arith
  drain-Grows (some ([], rest)) s = omega arith
  drain-Grows (some (cand ∷ cands, rest)) s = omega arith

  forward-Grows :
      (o : Option (Candidate × List Candidate)) (s : Session World C)
      → Grows s (forward_one N to_str o s)
  unfolding forward_one give
  forward-Grows none s = omega arith
  forward-Grows (some (cand, rest)) s = omega arith

  stop_apply-Grows : (n : ℕ) (s : Session World C) → Grows s (stop_apply n s)
  unfolding stop_apply
  stop_apply-Grows zero s = omega arith
  stop_apply-Grows (suc n) s = omega arith

  stop_drain-Grows :
      (o : Option (List Candidate × List (List Candidate))) (s : Session World C)
      → Grows s (stop_drain o s)
  unfolding stop_drain
  stop_drain-Grows none s = omega arith
  stop_drain-Grows (some (cands, rest)) s = omega (arith, total-append w s.lost cands)

  stop_add-Grows :
      (o : Option (Candidate × List Candidate)) (s : Session World C) → Grows s (stop_add o s)
  unfolding stop_add
  stop_add-Grows none s = omega arith
  stop_add-Grows (some (cand, rest)) s = omega (arith, total-append w s.lost (cand ∷ []))

  move-Grows : (m : Move) (s : Session World C) → Grows s (move N to_str m s)
  unfolding move
  move-Grows (add cand) s =
      handed-Grows (add_remote_candidate cand s.pc) (record s { added = s.added ++ cand ∷ [] })
  move-Grows (apply sdp type) s =
      apply-Grows (Calls.set_remote_description N to_str s.pc.native sdp (sdp_type_str type) s.core)
        s
  move-Grows resume s = resume-Grows s.applied s
  move-Grows (drain i) s = drain-Grows (pick i s.drains) s
  move-Grows (forward i) s = forward-Grows (pick i s.in_flight) s
  move-Grows cancel_apply s = stop_apply-Grows s.applied s
  move-Grows (cancel_drain i) s = stop_drain-Grows (pick i s.drains) s
  move-Grows (cancel_add i) s = stop_add-Grows (pick i s.in_flight) s

  moves-Grows : (ms : List Move) (s : Session World C) → Grows s (moves N to_str ms s)
  unfolding moves
  moves-Grows [] s = omega arith
  moves-Grows (m ∷ ms) s = omega (arith, move-Grows m s, moves-Grows ms (move N to_str m s))

  stop_drain-lost :
      (o : Option (List Candidate × List (List Candidate))) (s : Session World C)
      (cands : List Candidate) (rest : List (List Candidate))
      → o ≡ some (cands, rest)
      → total w cands ≤ total w (stop_drain o s).lost
  unfolding stop_drain
  stop_drain-lost o s cands rest e = rw e (omega (arith, total-append w s.lost cands))

  -- Candidates are lost: when the coroutine of `set_remote_description` is cancelled in the loop over
  -- the candidates that it has taken out of the buffer, those that it has not handed over yet are
  -- never handed over, whatever has happened before and happens afterwards. However the candidates
  -- are weighed, the weight of those that the extension ever gets and that of those together is at
  -- most the weight of all that are added.
  pub cancelled_drain_loses :
      (before after : List Move) (i native : ℕ) (core : Core World C) (cands : List Candidate)
      (rest : List (List Candidate))
      → pick i (moves N to_str before (begin native core)).drains ≡ some (cands, rest)
      → total w
            (moves N to_str
              (cancel_drain i ∷ after)
              (moves N to_str before (begin native core))).forwarded
          + total w cands
        ≤ total w
            (moves N to_str
              (cancel_drain i ∷ after)
              (moves N to_str before (begin native core))).added
  unfolding moves move
  cancelled_drain_loses before after i native core cands rest e =
      let s = moves N to_str before (begin native core) in
      let c = stop_drain (pick i s.drains) s in
      let t = moves N to_str after c in
      let traced =
        run-IsTraced N to_str (cancel_drain i ∷ after) s
          (moves-IsTraced N to_str before native core) in
      omega (
        arith,
        traced.conserved w,
        moves-Grows after c,
        stop_drain-lost (pick i s.drains) s cands rest e,
      )
