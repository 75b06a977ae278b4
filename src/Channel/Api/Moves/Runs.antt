-- ===== src/Channel/Api/Moves/Runs.antt =====
-- The invariant of a DataChannel (aiolibdatachannel/data_channel.py) through the teardown and
-- whole runs.
use Prim.Native.String.{String}
use aiolibdatachannel.Prelude.{
  Bool-cases, inl, inr, ℕ, ◌<◌, ◌≡◌, refl, true, List, [], ◌∷◌, arith, if_cases,
}
use aiolibdatachannel.Native.{Native, Value}
use aiolibdatachannel.Loop.{FutureSlot, cancel_waiter, cancel, done, is_done}
use aiolibdatachannel.Loop.Latch.{set_slot-done}
use aiolibdatachannel.Asyncio.{give_up}
use aiolibdatachannel.Asyncio.GivenUp.{give_up-nil}
use aiolibdatachannel.Core.Machine.{Core}
use aiolibdatachannel.Tasks.{
  Teardown, not_started, scheduled, gathering, releasing, released, finished, numbers, discard,
}
use aiolibdatachannel.Channel.{DataChannel, SendArg, handle_closed, fresh}
use aiolibdatachannel.Channel.Api.{destroy, start_teardown, finish_teardown, begin}
use aiolibdatachannel.Channel.Api.Moves.{
  Move, runs, sends, resumes, receives, spawns, closes, starts, finishes, destroys, task_ends,
  cancels_open, cancels_closed, cancels_sender, changes, move, moves, resume_first, start_if,
  finish_if, gathered,
}
use aiolibdatachannel.Channel.Api.Moves.Safety.{
  IsSafe, settle-IsSafe, run_call-IsSafe, recv-IsSafe, close-IsSafe,
}
use aiolibdatachannel.Channel.Api.Moves.Sends.{
  event-IsSafe, tasks-IsSafe, spawn-IsSafe, asked_for, send-IsSafe, resume-IsSafe,
}

cancel_waiter-done : {A : Type 0} (s : FutureSlot A) → done (cancel_waiter s) ≡ true
unfolding cancel is_done
cancel_waiter-done s = elim (Bool-cases (is_done s.future.state)) [
  | inl e ↦ simp e
  | inr e ↦ rw e refl
]

-- Slots that are done stay so.
slots-IsSafe :
    (o k : FutureSlot (Unit {0})) (dc : DataChannel)
    → (done dc.open_slot ≡ true → done o ≡ true)
    → (done dc.closed_slot ≡ true → done k ≡ true)
    → IsSafe dc
    → IsSafe (record dc { open_slot = o; closed_slot = k })
slots-IsSafe o k dc ho hk v = record {
  bounded = v.bounded;
  awake = v.awake;
  released = λ d. let (c, p, w) = v.released d in (hk c, ho p, w);
  torn_down = v.torn_down;
  requested = v.requested;
}

module _ (N : Native) {C : Type 0} (to_str : Value → String) where
  open N use {World}

  -- A released channel is safe, and its slots are resolved.
  pub destroy-IsSafe :
      (dc : DataChannel) (c : Core World C)
      → IsSafe dc
      → IsSafe (destroy N to_str dc c).0
        × ((destroy N to_str dc c).0.destroyed ≡ true)
        × ((destroy N to_str dc c).0.close_requested ≡ dc.close_requested)
  unfolding destroy
  destroy-IsSafe dc c v =
      if_cases
        (λ (r : DataChannel × Core World C).
          IsSafe r.0 × (r.0.destroyed ≡ true) × (r.0.close_requested ≡ dc.close_requested))
        dc.destroyed _ _ (λ e. (v, e, refl))
        (λ e. (settle-IsSafe dc true v, closed_fields.0, closed_fields.1))
    where
      closed_fields :
          ((handle_closed (record dc { destroyed = true })).destroyed ≡ true)
          × ((handle_closed (record dc { destroyed = true })).close_requested ≡ dc.close_requested)
      closed_fields = unfold handle_closed in (refl, refl)

  -- The `finally` clause of the teardown.
  finish-IsSafe :
      (dc : DataChannel) (c : Core World C)
      → (dc.close_requested ≡ true)
      → IsSafe dc
      → IsSafe (finish_teardown N to_str dc c).0
  unfolding finish_teardown
  finish-IsSafe dc c asked v =
      let (w, gone, same) = destroy-IsSafe dc c v in
      record {
        bounded = w.bounded;
        awake = w.awake;
        released = λ d. (set_slot-done tt _, (w.released d).1, (w.released d).2);
        torn_down = λ e. gone;
        requested = λ e. absurd (ground (arith, same));
      }

  begin-IsSafe :
      (ns : List ℕ) (dc : DataChannel) (c : Core World C)
      → dc.close_requested ≡ true
      → IsSafe dc
      → IsSafe (begin N to_str ns dc c).0
  unfolding begin
  begin-IsSafe [] dc c asked v = finish-IsSafe dc c asked v
  begin-IsSafe (n ∷ ns) dc c asked v = record {
    bounded = v.bounded;
    awake = v.awake;
    released = v.released;
    torn_down = λ e. absurd (cc);
    requested = λ e. absurd (cc);
  }

  start-IsSafe :
      (t : Teardown) (dc : DataChannel) (c : Core World C)
      → dc.teardown ≡ t
      → IsSafe dc
      → IsSafe (start_if N to_str t dc c).0
  unfolding start_if start_teardown
  start-IsSafe scheduled dc c e v =
      begin-IsSafe (numbers dc.tasks) dc c (asked_for dc v (λ f. absurd (cc))) v
  start-IsSafe not_started dc c e v = v
  start-IsSafe releasing dc c e v = v
  start-IsSafe released dc c e v = v
  start-IsSafe finished dc c e v = v
  start-IsSafe (gathering ns) dc c e v = v

  finish_if-IsSafe :
      (t : Teardown) (dc : DataChannel) (c : Core World C)
      → dc.teardown ≡ t
      → IsSafe dc
      → IsSafe (finish_if N to_str t dc c).0
  unfolding finish_if
  finish_if-IsSafe (gathering ns) dc c e v =
      if_cases (λ (r : DataChannel × Core World C). IsSafe r.0) (gathered ns (numbers dc.tasks)) _ _
        (λ f. finish-IsSafe dc c (asked_for dc v (λ g. absurd (cc))) v) (λ f. v)
  finish_if-IsSafe not_started dc c e v = v
  finish_if-IsSafe releasing dc c e v = v
  finish_if-IsSafe released dc c e v = v
  finish_if-IsSafe scheduled dc c e v = v
  finish_if-IsSafe finished dc c e v = v

  resume_first-IsSafe :
      (woken : List SendArg) (dc : DataChannel) (c : Core World C)
      → IsSafe dc
      → IsSafe (resume_first N to_str woken dc c).0
  unfolding resume_first
  resume_first-IsSafe [] dc c v = v
  resume_first-IsSafe (a ∷ rest) dc c v = resume-IsSafe N to_str a _ c (
      event-IsSafe dc (record (dc.buffered_low) { woken = rest }) v.awake (λ d. (v.released d).2) v)

  pub move-IsSafe :
      (m : Move (Core World C)) (dc : DataChannel) (c : Core World C)
      → IsSafe dc
      → IsSafe (move N to_str m (dc, c)).0
  unfolding move give_up
  move-IsSafe (runs call) dc c v = run_call-IsSafe call dc v
  move-IsSafe (sends a w) dc c v = send-IsSafe N to_str a w dc c v
  move-IsSafe resumes dc c v = resume_first-IsSafe dc.buffered_low.woken dc c v
  move-IsSafe receives dc c v = recv-IsSafe dc v
  move-IsSafe spawns dc c v = spawn-IsSafe dc v
  move-IsSafe closes dc c v = close-IsSafe dc v
  move-IsSafe starts dc c v = start-IsSafe dc.teardown dc c refl v
  move-IsSafe finishes dc c v = finish_if-IsSafe dc.teardown dc c refl v
  move-IsSafe destroys dc c v = (destroy-IsSafe dc c v).0
  move-IsSafe (task_ends n) dc c v = tasks-IsSafe dc (discard n dc.tasks) v
  move-IsSafe cancels_open dc c v =
      slots-IsSafe (cancel_waiter dc.open_slot) dc.closed_slot dc
        (λ e. cancel_waiter-done dc.open_slot) (λ e. e) v
  move-IsSafe cancels_closed dc c v =
      slots-IsSafe dc.open_slot (cancel_waiter dc.closed_slot) dc (λ e. e)
        (λ e. cancel_waiter-done dc.closed_slot) v
  move-IsSafe (cancels_sender n) dc c v =
      event-IsSafe dc (give_up n dc.buffered_low) (λ e. give_up-nil n dc.buffered_low (v.awake e))
        (λ d. give_up-nil n dc.buffered_low (v.released d).2) v
  move-IsSafe (changes d) dc c v = v

  -- Whatever the loop, the callers, the PeerConnection and the extension do with a channel that is
  -- safe, and in whatever order, it stays safe: the receive queue stays within its bound; no sender
  -- waits while the low-water flag is up; once the native handle is released, the open and the
  -- closed slot are resolved and no sender waits; the teardown ends with the handle released, and
  -- it does not begin before `close`.
  pub moves-IsSafe :
      (ms : List (Move (Core World C))) (dc : DataChannel) (c : Core World C)
      → IsSafe dc
      → IsSafe (moves N to_str ms (dc, c)).0
  unfolding moves
  moves-IsSafe [] dc c v = v
  moves-IsSafe (m ∷ ms) dc c v =
      moves-IsSafe ms (move N to_str m (dc, c)).0 (move N to_str m (dc, c)).1 (move-IsSafe m dc c v)

-- A new channel is safe.
pub fresh-IsSafe : (native recv_buffer : ℕ) → 0 < recv_buffer → IsSafe (fresh native recv_buffer)
unfolding fresh
fresh-IsSafe native n h = record {
  bounded = (h, omega arith);
  awake = λ e. refl;
  released = λ e. absurd (cc);
  torn_down = λ e. absurd (cc);
  requested = λ e. refl;
}
