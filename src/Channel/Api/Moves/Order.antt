-- ===== src/Channel/Api/Moves/Order.antt =====
-- The senders that wait for the low-water mark of a DataChannel
-- (aiolibdatachannel/data_channel.py), through its whole life.
use Prim.Native.String.{String}
use mathlib.Core.List.{append-nil}
use aiolibdatachannel.Prelude.{◌≡◌, refl, sym, ap, ◌∙◌, Bool, true, false, List, [], ◌∷◌, ◌++◌}
use aiolibdatachannel.Asyncio.{set_event}
use aiolibdatachannel.Asyncio.GivenUp.{IsLeft, all-IsLeft, give_up-IsLeft, IsLeft-trans}
use aiolibdatachannel.Native.{Native, Value}
use aiolibdatachannel.Core.Machine.{Core}
use aiolibdatachannel.Channel.{
  DataChannel, SendArg, Call, opened, closed_down, drained, errored, messaged, run_call,
  handle_closed, handle_error, handle_message,
}
use aiolibdatachannel.Channel.Api.{destroy, finish_teardown}
use aiolibdatachannel.Channel.Api.Moves.{
  Move, runs, sends, resumes, receives, spawns, closes, starts, finishes, destroys, task_ends,
  cancels_open, cancels_closed, cancels_sender, changes, move, moves, resume_first,
}
use aiolibdatachannel.Channel.Api.Moves.Rules.{
  recv-dc, close-dc, spawn_task-dc, destroy-dc, start_if-dc, finish_if-dc,
}
use aiolibdatachannel.Channel.Api.Moves.Senders.{
  waiters, Advances, Advances-waiters, stays, wakes_all, KeepsWaiters, first_of, parks, goes_on,
  gives_up, parked, gone_on, given_up, resume_send-Ends, send-Queues,
}

handle_closed-waiters : (dc : DataChannel) → KeepsWaiters dc (handle_closed dc)
unfolding handle_closed set_event
handle_closed-waiters dc = wakes_all dc (handle_closed dc) refl refl

run_call-waiters : (call : Call) (dc : DataChannel) → KeepsWaiters dc (run_call call dc)
unfolding run_call handle_error handle_message set_event
run_call-waiters opened dc = stays dc (run_call opened dc) refl refl
run_call-waiters closed_down dc = handle_closed-waiters dc
run_call-waiters drained dc = wakes_all dc (run_call drained dc) refl refl
run_call-waiters (errored e) dc = stays dc (run_call (errored e) dc) refl refl
run_call-waiters (messaged m) dc = stays dc (run_call (messaged m) dc) refl refl

module _ (N : Native) {C : Type 0} (to_str : Value → String) where
  open N use {World}

  destroy-waiters :
      (dc : DataChannel) (c : Core World C) → KeepsWaiters dc (destroy N to_str dc c).0
  destroy-waiters dc c =
      destroy-dc N to_str (KeepsWaiters dc) dc c (stays dc dc refl refl)
        (handle_closed-waiters (record dc { destroyed = true }))

  finish_teardown-waiters :
      (dc : DataChannel) (c : Core World C) → KeepsWaiters dc (finish_teardown N to_str dc c).0
  unfolding finish_teardown
  finish_teardown-waiters dc c = destroy-waiters dc c

  -- The first of the woken ones goes on, and does not wait again.
  pub resume_first-waiters :
      (a : SendArg) (rest : List SendArg) (dc : DataChannel) (c : Core World C)
      → KeepsWaiters
          (record dc { buffered_low = record (dc.buffered_low) { woken = rest } })
          (resume_first N to_str (a ∷ rest) dc c).0
  unfolding resume_first
  resume_first-waiters a rest dc c = (resume_send-Ends N to_str a _ c).1

  -- Neither resumes nor cancels a sender.
  abbrev pub is_plain : Move (Core World C) → Bool
  is_plain resumes = false
  is_plain (cancels_sender n) = false
  is_plain m = true

  pub move-Advances :
      (m : Move (Core World C)) (dc : DataChannel) (c : Core World C)
      → is_plain m ≡ true
      → Advances (parks N to_str m (dc, c)) dc (move N to_str m (dc, c)).0
  unfolding move
  move-Advances resumes dc c q = absurd (cc)
  move-Advances (cancels_sender n) dc c q = absurd (cc)
  move-Advances (sends a w) dc c q = send-Queues N to_str a w dc c
  move-Advances (runs call) dc c q = run_call-waiters call dc
  move-Advances receives dc c q = recv-dc (KeepsWaiters dc) dc (λ q. stays dc dc refl refl)
  move-Advances spawns dc c q =
      spawn_task-dc (KeepsWaiters dc) dc (stays dc dc refl refl) (λ t. stays dc dc refl refl)
  move-Advances closes dc c q =
      close-dc (KeepsWaiters dc) dc (stays dc dc refl refl) (stays dc dc refl refl)
  move-Advances starts dc c q =
      start_if-dc N to_str (KeepsWaiters dc) dc.teardown dc c (stays dc dc refl refl)
        (finish_teardown-waiters dc c) (stays dc dc refl refl)
  move-Advances finishes dc c q =
      finish_if-dc N to_str (KeepsWaiters dc) dc.teardown dc c (stays dc dc refl refl)
        (finish_teardown-waiters dc c)
  move-Advances destroys dc c q = destroy-waiters dc c
  move-Advances (task_ends n) dc c q = stays dc dc refl refl
  move-Advances cancels_open dc c q = stays dc dc refl refl
  move-Advances cancels_closed dc c q = stays dc dc refl refl
  move-Advances (changes d) dc c q = stays dc dc refl refl

  resumed-waiters :
      (as_ : List SendArg) (dc : DataChannel) (c : Core World C)
      → dc.buffered_low.woken ≡ as_
      → waiters dc ≡ first_of as_ ++ waiters (resume_first N to_str as_ dc c).0
  unfolding resume_first
  resumed-waiters [] dc c e = refl
  resumed-waiters (a ∷ rest) dc c e =
      let d = record dc { buffered_low = record (dc.buffered_low) { woken = rest } } in
      ap (λ l. l ++ dc.buffered_low.waiting) e
      ∙ ap (λ l. a ∷ l)
          (sym (append-nil (waiters d))
            ∙ Advances-waiters [] d (resume_first N to_str (a ∷ rest) dc c).0
                (resume_first-waiters a rest dc c))

  -- What waits before a move and what it makes wait goes on in it, waits after it or is cancelled.
  move-IsLeft :
      (m : Move (Core World C)) (dc : DataChannel) (c : Core World C)
      → IsLeft
          (waiters dc ++ parks N to_str m (dc, c))
          (goes_on N to_str m (dc, c) ++ waiters (move N to_str m (dc, c)).0)
          (gives_up N to_str m dc)
  unfolding move
  move-IsLeft (cancels_sender n) dc c =
      rw (append-nil (waiters dc)) (give_up-IsLeft n dc.buffered_low)
  move-IsLeft resumes dc c =
      all-IsLeft _ _ (append-nil (waiters dc) ∙ resumed-waiters dc.buffered_low.woken dc c refl)
  move-IsLeft m dc c = all-IsLeft _ _ (
      Advances-waiters (parks N to_str m (dc, c)) dc (move N to_str m (dc, c)).0
        (move-Advances m dc c refl))

  -- The senders that wait go on in the order in which they have come to wait.
  pub waiters_after :
      (ms : List (Move (Core World C))) (dc : DataChannel) (c : Core World C)
      → IsLeft
          (waiters dc ++ parked N to_str ms (dc, c))
          (gone_on N to_str ms (dc, c) ++ waiters (moves N to_str ms (dc, c)).0)
          (given_up N to_str ms (dc, c))
  unfolding moves parked gone_on given_up
  waiters_after [] dc c = all-IsLeft _ _ (append-nil (waiters dc))
  waiters_after (m ∷ ms) dc c =
      let (d, c') = move N to_str m (dc, c) in
      IsLeft-trans (waiters dc) (parks N to_str m (dc, c)) (goes_on N to_str m (dc, c)) (waiters d)
        (gives_up N to_str m dc) (parked N to_str ms (d, c')) (gone_on N to_str ms (d, c'))
        (waiters (moves N to_str ms (d, c')).0) (given_up N to_str ms (d, c')) (move-IsLeft m dc c)
        (waiters_after ms d c')
