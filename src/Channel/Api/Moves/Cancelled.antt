-- ===== src/Channel/Api/Moves/Cancelled.antt =====
-- What the cancelling of a coroutine that waits for a DataChannel
-- (aiolibdatachannel/data_channel.py) does to the others.
use Prim.Native.String.{String}
use aiolibdatachannel.Prelude.{◌≡◌, refl, Bool, true, false, List, [], ◌∷◌}
use aiolibdatachannel.Errors.{Exc, cancelled_error, fails}
use aiolibdatachannel.Native.{Native, Value}
use aiolibdatachannel.Core.Machine.{Core}
use aiolibdatachannel.Loop.{
  FutureSlot, pending, cancelled, is_done, set_slot, fail_slot, cancel, cancel_waiter, wait_for,
}
use aiolibdatachannel.Channel.{
  DataChannel, Call, opened, closed_down, drained, errored, messaged, run_call, handle_closed,
  handle_error, handle_message,
}
use aiolibdatachannel.Channel.Api.{wait_open, wait_closed, destroy, finish_teardown}
use aiolibdatachannel.Channel.Api.Moves.{
  Move, runs, sends, resumes, receives, spawns, closes, starts, finishes, destroys, task_ends,
  cancels_open, cancels_closed, cancels_sender, changes, move, moves,
}
use aiolibdatachannel.Channel.Api.Moves.Rules.{
  spawn_task-dc, send-dc, resume_first-dc, destroy-dc, start_if-dc, finish_if-dc, recv-dc, close-dc,
}

abbrev IsCancelled : FutureSlot (Unit {0}) → Type 0
IsCancelled s = s.future.state ≡ cancelled

-- The open slot, the closed slot or both are cancelled.
abbrev Sticks : Bool → Bool → DataChannel → Type 0
Sticks o k dc = (o ≡ true → IsCancelled dc.open_slot) × (k ≡ true → IsCancelled dc.closed_slot)

set-IsCancelled :
    (a : Unit {0}) (s : FutureSlot (Unit {0})) → IsCancelled s → IsCancelled (set_slot a s)
unfolding set_slot is_done
set-IsCancelled a s e = rw e refl

fail-IsCancelled :
    (x : Exc) (s : FutureSlot (Unit {0})) → IsCancelled s → IsCancelled (fail_slot x s)
unfolding fail_slot is_done
fail-IsCancelled x s e = rw e refl

cancel-IsCancelled : (s : FutureSlot (Unit {0})) → IsCancelled s → IsCancelled (cancel_waiter s)
unfolding cancel is_done
cancel-IsCancelled s e = rw e refl

pending-IsCancelled :
    (s : FutureSlot (Unit {0})) → s.future.state ≡ pending → IsCancelled (cancel_waiter s)
unfolding cancel is_done
pending-IsCancelled s e = rw e refl

module _ (o k : Bool) where
  handle_closed-Sticks : (dc : DataChannel) → Sticks o k dc → Sticks o k (handle_closed dc)
  unfolding handle_closed
  handle_closed-Sticks dc (p, q) =
      (λ e. fail-IsCancelled _ dc.open_slot (p e), λ e. set-IsCancelled tt dc.closed_slot (q e))

  run_call-Sticks : (call : Call) (dc : DataChannel) → Sticks o k dc → Sticks o k (run_call call dc)
  unfolding run_call handle_error handle_message
  run_call-Sticks opened dc (p, q) = (λ e. set-IsCancelled tt dc.open_slot (p e), q)
  run_call-Sticks closed_down dc v = handle_closed-Sticks dc v
  run_call-Sticks drained dc v = v
  run_call-Sticks (errored x) dc (p, q) = (λ e. fail-IsCancelled _ dc.open_slot (p e), q)
  run_call-Sticks (messaged m) dc v = v

  module _ (N : Native) {C : Type 0} (to_str : Value → String) where
    open N use {World}

    destroy-Sticks :
        (dc : DataChannel) (c : Core World C) → Sticks o k dc → Sticks o k (destroy N to_str dc c).0
    destroy-Sticks dc c v =
        destroy-dc N to_str (Sticks o k) dc c v
          (handle_closed-Sticks (record dc { destroyed = true }) v)

    finish_teardown-Sticks :
        (dc : DataChannel) (c : Core World C)
        → Sticks o k dc
        → Sticks o k (finish_teardown N to_str dc c).0
    unfolding finish_teardown
    finish_teardown-Sticks dc c v =
        let (p, q) = destroy-Sticks dc c v in
        (p, λ e. set-IsCancelled tt (destroy N to_str dc c).0.closed_slot (q e))

    move-Sticks :
        (m : Move (Core World C)) (dc : DataChannel) (c : Core World C)
        → Sticks o k dc
        → Sticks o k (move N to_str m (dc, c)).0
    unfolding move
    move-Sticks (runs call) dc c v = run_call-Sticks call dc v
    move-Sticks (sends a w) dc c v = send-dc N to_str (Sticks o k) a w dc c (λ e. v)
    move-Sticks resumes dc c v =
        resume_first-dc N to_str (Sticks o k) dc.buffered_low.woken dc c (λ e. v)
    move-Sticks receives dc c v = recv-dc (Sticks o k) dc (λ q. v)
    move-Sticks spawns dc c v = spawn_task-dc (Sticks o k) dc v (λ t. v)
    move-Sticks closes dc c v = close-dc (Sticks o k) dc v v
    move-Sticks starts dc c v =
        start_if-dc N to_str (Sticks o k) dc.teardown dc c v (finish_teardown-Sticks dc c v) v
    move-Sticks finishes dc c v =
        finish_if-dc N to_str (Sticks o k) dc.teardown dc c v (finish_teardown-Sticks dc c v)
    move-Sticks destroys dc c v = destroy-Sticks dc c v
    move-Sticks (task_ends n) dc c v = v
    move-Sticks cancels_open dc c (p, q) = (λ e. cancel-IsCancelled dc.open_slot (p e), q)
    move-Sticks cancels_closed dc c (p, q) = (p, λ e. cancel-IsCancelled dc.closed_slot (q e))
    move-Sticks (cancels_sender n) dc c v = v
    move-Sticks (changes d) dc c v = v

    moves-Sticks :
        (ms : List (Move (Core World C))) (dc : DataChannel) (c : Core World C)
        → Sticks o k dc
        → Sticks o k (moves N to_str ms (dc, c)).0
    unfolding moves
    moves-Sticks [] dc c v = v
    moves-Sticks (m ∷ ms) dc c v =
        moves-Sticks ms (move N to_str m (dc, c)).0 (move N to_str m (dc, c)).1
          (move-Sticks m dc c v)

module _ (N : Native) {C : Type 0} (to_str : Value → String) where
  open N use {World}

  -- One cancelled waiter spoils the slot for all. On a channel whose open and closed slots are both
  -- pending: after the coroutine of a `wait_open` has been cancelled, every later `wait_open` raises
  -- CancelledError, whatever happens to the channel, even if it opens; and after that of a
  -- `wait_closed` or `aclose` has been cancelled, so does every later `wait_closed`.
  pub cancelled_waiter_spoils :
      (ms : List (Move (Core World C))) (dc : DataChannel) (c : Core World C)
      → dc.open_slot.future.state ≡ pending
      → dc.closed_slot.future.state ≡ pending
      → (wait_open (moves N to_str (cancels_open ∷ ms) (dc, c)).0 ≡ fails cancelled_error)
        × (wait_closed (moves N to_str (cancels_closed ∷ ms) (dc, c)).0 ≡ fails cancelled_error)
  unfolding moves move wait_for
  cancelled_waiter_spoils ms dc c o k =
      let spoilt =
        moves-Sticks true false N to_str ms (record dc { open_slot = cancel_waiter dc.open_slot }) c
          (λ e. pending-IsCancelled dc.open_slot o, λ e. absurd (cc)) in
      let ended =
        moves-Sticks false true N to_str ms
          (record dc { closed_slot = cancel_waiter dc.closed_slot }) c
          (λ e. absurd (cc), λ e. pending-IsCancelled dc.closed_slot k) in
      (rw (spoilt.0 refl) refl, rw (ended.1 refl) refl)
