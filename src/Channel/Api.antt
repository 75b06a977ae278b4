-- ===== src/Channel/Api.antt =====
-- The methods of DataChannel in aiolibdatachannel/data_channel.py. A coroutine is cut where it
-- waits: the part before the wait, and the part that the loop resumes.
pub mod Receive
pub mod Hang
pub mod Moves
pub mod Closing
pub mod Queueing
use Prim.Native.String.{String}
use aiolibdatachannel.Prelude.{
  ℕ, zero, suc, Bool, true, false, not, ◌&&◌, ◌||◌, List, [], ◌∷◌, ◌++◌, Option, none, some, ltb,
  if◌then◌else◌,
}
use aiolibdatachannel.Errors.{
  Exc, rtc_error, closed_error, type_error, Result, ok, raises, Outcome, returns, fails, blocks,
}
use aiolibdatachannel.Asyncio.{
  Queue, put_nowait, get_nowait, put_suppressed, Event, set_event, clear_event, park,
}
use aiolibdatachannel.Loop.{FutureSlot, set_slot, wait_slot}
use aiolibdatachannel.Native.{Native, Value, Name}
use aiolibdatachannel.Core.Machine.{Core, suppress}
use aiolibdatachannel.Core.Calls
use aiolibdatachannel.Tasks.{
  TaskSet, add_task, cancel_all, numbers, Teardown, not_started, scheduled, gathering, finished,
}
use aiolibdatachannel.Channel.{
  DataChannel, Message, bytes, text, SendArg, as_bytes, as_str, neither, fresh, handle_closed,
}

-- `self._last_error or "channel closed"`.
unfoldable pub or_default : Option String → String → String
or_default none d = d
or_default (some String.[]) d = d
or_default (some (String.◌∷◌ c s)) d = String.◌∷◌ c s

-- Back goes the sentinel, and `recv` raises; a `put` into a full queue would wait.
reinject : DataChannel → Option (Queue (Option Message)) → Outcome Message × DataChannel
reinject dc none = (blocks, dc)
reinject dc (some q) =
    (fails (closed_error (or_default dc.last_error "channel closed")), record dc { recv_queue = q })

took :
    Option (Option Message × Queue (Option Message)) → DataChannel → Outcome Message × DataChannel
unfolding reinject or_default
took none dc = (blocks, dc)
took (some (some m, q)) dc = (returns m, record dc { recv_queue = q })
took (some (none, q)) dc = reinject (record dc { recv_queue = q }) (put_nowait q none)

unfoldable pub recv : DataChannel → Outcome Message × DataChannel
unfolding took
recv dc = took (get_nowait dc.recv_queue) dc

-- `async for`, for so many rounds at most: what it yields, and whether it ended by itself; it has
-- not if it blocks.
pub record Iteration : Type 0 where
  pub yields : List Message
  pub ended : Bool

abbrev pub yield_first : Message → Iteration → Iteration
yield_first m it = record it { yields = m ∷ it.yields }

next_round : Outcome Message → Iteration → Iteration
next_round (returns m) rest = yield_first m rest
next_round (fails e) rest = record { yields = []; ended = true }
next_round blocks rest = record { yields = []; ended = false }

unfoldable pub iterate : ℕ → DataChannel → Iteration
unfolding next_round
iterate zero dc = record { yields = []; ended = false }
iterate (suc n) dc = let r = recv dc in next_round r.0 (iterate n r.1)

-- `spawn_task`.
unfoldable pub spawn_task : DataChannel → Result ℕ × DataChannel
spawn_task dc =
    if dc.close_requested
    then (raises (closed_error "channel is closed"), dc)
    else let r = add_task dc.tasks in (ok r.0, record dc { tasks = r.1 })

unfoldable pub close : DataChannel → DataChannel
close dc = if dc.close_requested then dc else record dc {
  close_requested = true;
  recv_queue = put_suppressed dc.recv_queue none;
  tasks = cancel_all dc.tasks;
  teardown = scheduled;
}

-- `aclose` up to its wait for the closed slot.
unfoldable pub aclose : DataChannel → Outcome (Unit {0}) × DataChannel
unfolding close
aclose dc = let d = close dc in (wait_slot d.closed_slot, d)

abbrev pub wait_open : DataChannel → Outcome (Unit {0})
wait_open dc = wait_slot dc.open_slot

abbrev pub wait_closed : DataChannel → Outcome (Unit {0})
wait_closed dc = wait_slot dc.closed_slot

module _ (N : Native) {C : Type 0} (to_str : Value → String) where
  open N use {World}

  lower_if : Result ℕ → DataChannel → Core World C → Outcome (Unit {0}) × DataChannel × Core World C
  lower_if (raises e) dc c = (fails e, dc, c)
  lower_if (ok amount) dc c = (
    returns tt,
    (if ltb 0 amount then record dc { buffered_low = clear_event dc.buffered_low } else dc),
    c,
  )

  -- The end of `send`: the flag falls if the extension still has bytes to send.
  after_send :
      Result (Unit {0}) × Core World C
      → DataChannel
      → Outcome (Unit {0}) × DataChannel × Core World C
  unfolding lower_if
  after_send (raises e, c) dc = (fails e, dc, c)
  after_send (ok u, c) dc =
      if dc.buffered_low.flag
      then lower_if (Calls.buffered_amount N to_str dc.native c) dc c
      else (returns tt, dc, c)

  send_now : SendArg → DataChannel → Core World C → Outcome (Unit {0}) × DataChannel × Core World C
  unfolding after_send
  send_now (as_bytes d) dc c = after_send (Calls.send_bytes N to_str dc.native d c) dc
  send_now (as_str d) dc c = after_send (Calls.send_text N to_str dc.native d c) dc
  send_now neither dc c = (fails type_error, dc, c)

  abbrev pub is_shut : DataChannel → Core World C → Bool
  is_shut dc c = dc.destroyed || Calls.is_closed N to_str dc.native c

  -- `send` up to its wait for the low-water mark, or to its end.
  unfoldable pub send :
      SendArg → Bool → DataChannel → Core World C → Outcome (Unit {0}) × DataChannel × Core World C
  unfolding send_now
  send arg wait_for_drain dc c =
      if is_shut dc c
      then (fails (closed_error "cannot send on a closed channel"), dc, c)
      else if wait_for_drain && not dc.buffered_low.flag
      then (blocks, record dc { buffered_low = park arg dc.buffered_low }, c)
      else send_now arg dc c

  -- The rest of `send` once the event has woken it.
  unfoldable pub resume_send :
      SendArg → DataChannel → Core World C → Outcome (Unit {0}) × DataChannel × Core World C
  unfolding send_now
  resume_send arg dc c =
      if is_shut dc c
      then (fails (closed_error "channel closed while waiting to send"), dc, c)
      else send_now arg dc c

  -- `_destroy`.
  unfoldable pub destroy : DataChannel → Core World C → DataChannel × Core World C
  destroy dc c = if dc.destroyed then (dc, c) else (
    handle_closed (record dc { destroyed = true }),
    suppress (Calls.dc_destroy N to_str dc.native c),
  )

  -- `_teardown` from the end of its wait; the `finally` clause resolves the slot.
  unfoldable pub finish_teardown : DataChannel → Core World C → DataChannel × Core World C
  unfolding destroy
  finish_teardown dc c =
      let r = destroy dc c in
      (record (r.0) { closed_slot = set_slot tt r.0.closed_slot; teardown = finished }, r.1)

  -- `_teardown` up to the wait for the tasks that are left.
  begin : List ℕ → DataChannel → Core World C → DataChannel × Core World C
  begin [] dc c = finish_teardown dc c
  begin (n ∷ ns) dc c = (record dc { teardown = gathering (n ∷ ns) }, c)

  unfoldable pub start_teardown : DataChannel → Core World C → DataChannel × Core World C
  unfolding begin
  start_teardown dc c = begin (numbers dc.tasks) dc c
