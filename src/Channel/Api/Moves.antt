-- ===== src/Channel/Api/Moves.antt =====
-- The life of a DataChannel (aiolibdatachannel/data_channel.py) as a sequence of moves, in any
-- order that the loop, the callers and the extension choose.
pub mod Safety
pub mod Sends
pub mod Runs
pub mod Senders
pub mod Order
pub mod Served
pub mod Freed
pub mod Rules
pub mod Messages
pub mod Cancelled
pub mod Onward
pub mod Completes
pub mod Wrapped
use Prim.Native.String.{String}
use aiolibdatachannel.Prelude.{
  ℕ, Bool, true, false, List, [], ◌∷◌, Option, none, some, ◌==◌, ◌||◌, if◌then◌else◌,
}
use aiolibdatachannel.Native.{Native, Value}
use aiolibdatachannel.Asyncio.{Event, give_up}
use aiolibdatachannel.Loop.{cancel_waiter}
use aiolibdatachannel.Core.Machine.{Core}
use aiolibdatachannel.Tasks.{
  TaskSet, discard, numbers, Teardown, not_started, scheduled, gathering, finished,
}
use aiolibdatachannel.Channel.{DataChannel, SendArg, Call, run_call}
use aiolibdatachannel.Channel.Api.{
  recv, spawn_task, close, send, resume_send, destroy, start_teardown, finish_teardown,
}

-- The loop runs a scheduled call, resumes the sender that was woken first, or steps the teardown
-- task; a caller sends, receives, spawns or closes; a task ends; the owning PeerConnection
-- destroys; the coroutine of a `wait_open`, of a `wait_closed` or `aclose`, or of a `send` that
-- waits for the low-water mark, is cancelled; and the extension's state changes.
pub data Move (S : Type 0) : Type 0 where
  runs : Call → Move S
  sends : SendArg → Bool → Move S
  resumes receives spawns closes starts finishes destroys : Move S
  cancels_open cancels_closed : Move S
  task_ends cancels_sender : ℕ → Move S
  changes : S → Move S

member : ℕ → List ℕ → Bool
member n [] = false
member n (m ∷ ms) = n == m || member n ms

-- `asyncio.gather` is done when none of its tasks is left in the set.
pub gathered : List ℕ → List ℕ → Bool
unfolding member
gathered [] left = true
gathered (n ∷ ns) left = if member n left then false else gathered ns left

module _ (N : Native) {C : Type 0} (to_str : Value → String) where
  open N use {World}

  pub resume_first : List SendArg → DataChannel → Core World C → DataChannel × Core World C
  resume_first [] dc c = (dc, c)
  resume_first (a ∷ rest) dc c =
      let r =
        resume_send N to_str a
          (record dc { buffered_low = record (dc.buffered_low) { woken = rest } }) c in
      (r.1, r.2)

  pub start_if : Teardown → DataChannel → Core World C → DataChannel × Core World C
  start_if scheduled dc c = start_teardown N to_str dc c
  start_if t dc c = (dc, c)

  pub finish_if : Teardown → DataChannel → Core World C → DataChannel × Core World C
  finish_if (gathering ns) dc c =
      if gathered ns (numbers dc.tasks) then finish_teardown N to_str dc c else (dc, c)
  finish_if t dc c = (dc, c)

  unfoldable pub move :
      Move (Core World C) → DataChannel × Core World C → DataChannel × Core World C
  unfolding resume_first start_if finish_if gathered
  move (runs call) (dc, c) = (run_call call dc, c)
  move (sends a w) (dc, c) = let r = send N to_str a w dc c in (r.1, r.2)
  move resumes (dc, c) = resume_first dc.buffered_low.woken dc c
  move receives (dc, c) = ((recv dc).1, c)
  move spawns (dc, c) = ((spawn_task dc).1, c)
  move closes (dc, c) = (close dc, c)
  move starts (dc, c) = start_if dc.teardown dc c
  move finishes (dc, c) = finish_if dc.teardown dc c
  move destroys (dc, c) = destroy N to_str dc c
  move (task_ends n) (dc, c) = (record dc { tasks = discard n dc.tasks }, c)
  move cancels_open (dc, c) = (record dc { open_slot = cancel_waiter dc.open_slot }, c)
  move cancels_closed (dc, c) = (record dc { closed_slot = cancel_waiter dc.closed_slot }, c)
  move (cancels_sender n) (dc, c) = (record dc { buffered_low = give_up n dc.buffered_low }, c)
  move (changes d) (dc, c) = (dc, d)

  unfoldable pub moves :
      List (Move (Core World C)) → DataChannel × Core World C → DataChannel × Core World C
  moves [] s = s
  moves (m ∷ ms) s = moves ms (move m s)
