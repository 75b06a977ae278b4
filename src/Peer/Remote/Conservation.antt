-- ===== src/Peer/Remote/Conservation.antt =====
-- Where the remote candidates are (aiolibdatachannel/peer_connection.py), through any moves.
use Prim.Native.String.{String}
use aiolibdatachannel.Prelude.{ℕ, zero, suc, ◌≡◌, refl, List, [], ◌∷◌, Option, none, some, arith}
use aiolibdatachannel.Native.{Native, Value}
use aiolibdatachannel.Core.Machine.{Core}
use aiolibdatachannel.Core.Calls
use aiolibdatachannel.Peer.{sdp_type_str}
use aiolibdatachannel.Peer.Remote.{
  Candidate, Session, Move, add, apply, resume, drain, forward, pick, begin, give, drain_one,
  forward_one, move, moves, cancel_apply, cancel_drain, cancel_add, stop_apply, stop_drain,
  stop_add,
}
use aiolibdatachannel.Peer.Remote.Traced.{
  total, total-append, total-pick, pick_nil, IsTraced, begin-IsTraced, add-IsTraced,
  resume-IsTraced, apply-IsTraced,
}

module _ (N : Native) {C : Type 0} (to_str : Value → String) where
  open N use {World}

  drain-IsTraced :
      (i : ℕ) (o : Option (List Candidate × List (List Candidate))) (s : Session World C)
      → pick i s.drains ≡ o
      → IsTraced s
      → IsTraced (drain_one N to_str o s)
  unfolding drain_one give total
  drain-IsTraced i none s e v = v
  drain-IsTraced i (some ([], rest)) s e v = record {
    emptied = v.emptied;
    waiting = λ f. absurd (pick_nil i s.drains _ ((v.waiting f).3) e);
    conserved = λ w. ground (arith, v.conserved w, total-pick (total w) i s.drains [] rest e);
    kept = v.kept;
  }
  drain-IsTraced i (some (cand ∷ cands, rest)) s e v = record {
    emptied = v.emptied;
    waiting = λ f. absurd (pick_nil i s.drains _ ((v.waiting f).3) e);
    conserved = λ w. ground (
      arith,
      v.conserved w,
      total-pick (total w) i s.drains (cand ∷ cands) rest e,
      total-append w s.forwarded (cand ∷ []),
    );
    kept = v.kept;
  }

  forward-IsTraced :
      (i : ℕ) (o : Option (Candidate × List Candidate)) (s : Session World C)
      → pick i s.in_flight ≡ o
      → IsTraced s
      → IsTraced (forward_one N to_str o s)
  unfolding forward_one give total
  forward-IsTraced i none s e v = v
  forward-IsTraced i (some (cand, rest)) s e v = record {
    emptied = v.emptied;
    waiting = λ f. absurd (pick_nil i s.in_flight _ ((v.waiting f).2) e);
    conserved = λ w. ground (
      arith,
      v.conserved w,
      total-pick w i s.in_flight cand rest e,
      total-append w s.forwarded (cand ∷ []),
    );
    kept = v.kept;
  }

  drop-IsTraced :
      (i : ℕ) (o : Option (List Candidate × List (List Candidate))) (s : Session World C)
      → pick i s.drains ≡ o
      → IsTraced s
      → IsTraced (stop_drain o s)
  unfolding stop_drain
  drop-IsTraced i none s e v = v
  drop-IsTraced i (some (cands, rest)) s e v = record {
    emptied = v.emptied;
    waiting = λ f. absurd (pick_nil i s.drains _ ((v.waiting f).3) e);
    conserved = λ w. ground (
      arith,
      v.conserved w,
      total-pick (total w) i s.drains cands rest e,
      total-append w s.lost cands,
    );
    kept = λ f. absurd (omega arith);
  }

  drop_add-IsTraced :
      (i : ℕ) (o : Option (Candidate × List Candidate)) (s : Session World C)
      → pick i s.in_flight ≡ o
      → IsTraced s
      → IsTraced (stop_add o s)
  unfolding stop_add total
  drop_add-IsTraced i none s e v = v
  drop_add-IsTraced i (some (cand, rest)) s e v = record {
    emptied = v.emptied;
    waiting = λ f. absurd (pick_nil i s.in_flight _ ((v.waiting f).2) e);
    conserved = λ w. ground (
      arith,
      v.conserved w,
      total-pick w i s.in_flight cand rest e,
      total-append w s.lost (cand ∷ []),
    );
    kept = λ f. absurd (omega arith);
  }

  stop_apply-IsTraced : (n : ℕ) (s : Session World C) → IsTraced s → IsTraced (stop_apply n s)
  unfolding stop_apply
  stop_apply-IsTraced zero s v = v
  stop_apply-IsTraced (suc n) s v = record {
    emptied = v.emptied;
    waiting = v.waiting;
    conserved = v.conserved;
    kept = λ f. absurd (omega arith);
  }

  move-IsTraced : (m : Move) (s : Session World C) → IsTraced s → IsTraced (move N to_str m s)
  unfolding move
  move-IsTraced (add cand) s v = add-IsTraced cand s v
  move-IsTraced (apply sdp type) s v =
      apply-IsTraced
        (Calls.set_remote_description N to_str s.pc.native sdp (sdp_type_str type) s.core) s v
  move-IsTraced resume s v = resume-IsTraced s.applied s v
  move-IsTraced (drain i) s v = drain-IsTraced i (pick i s.drains) s refl v
  move-IsTraced (forward i) s v = forward-IsTraced i (pick i s.in_flight) s refl v
  move-IsTraced cancel_apply s v = stop_apply-IsTraced s.applied s v
  move-IsTraced (cancel_drain i) s v = drop-IsTraced i (pick i s.drains) s refl v
  move-IsTraced (cancel_add i) s v = drop_add-IsTraced i (pick i s.in_flight) s refl v

  pub run-IsTraced :
      (ms : List Move) (s : Session World C) → IsTraced s → IsTraced (moves N to_str ms s)
  unfolding moves
  run-IsTraced [] s v = v
  run-IsTraced (m ∷ ms) s v = run-IsTraced ms (move N to_str m s) (move-IsTraced m s v)

  -- However the coroutines of `set_remote_description` and `add_remote_candidate` interleave on a
  -- fresh connection, and whatever the extension refuses: until a description is applied every
  -- candidate waits in the buffer, in the order of the calls, and the extension has got none;
  -- afterwards the buffer is empty; and at any time the candidates added are those that the
  -- extension got, those in flight, those in a loop over a buffer, those in the buffer and those that
  -- a cancelled coroutine has left behind, each as often as it was added (the two sides agree under
  -- every weight), where nothing is left behind before a description is applied or while no coroutine
  -- has been cancelled.
  pub moves-IsTraced :
      (ms : List Move) (native : ℕ) (core : Core World C)
      → IsTraced (moves N to_str ms (begin native core))
  moves-IsTraced ms native core = run-IsTraced ms (begin native core) (begin-IsTraced native core)
