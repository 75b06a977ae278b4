-- ===== src/Channel/Api/Moves/Rules.antt =====
-- What the methods of a DataChannel (aiolibdatachannel/data_channel.py) do to it, as rules for what
-- holds afterwards.
use Prim.Native.String.{String}
use aiolibdatachannel.Prelude.{
  Option, none, some, Option-cases, inl, inr, ℕ, Bool, true, not, ◌&&◌, List, [], ◌∷◌, if_cases,
  ltb,
}
use aiolibdatachannel.Errors.{Result, ok, raises, Outcome}
use aiolibdatachannel.Asyncio.{
  Queue, put_nowait, get_nowait, put_suppressed, Event, clear_event, park,
}
use aiolibdatachannel.Native.{Native, Value}
use aiolibdatachannel.Core.Machine.{Core}
use aiolibdatachannel.Core.Calls
use aiolibdatachannel.Tasks.{cancel_all, TaskSet, add_task, Teardown, scheduled, gathering, numbers}
use aiolibdatachannel.Channel.{
  DataChannel, Message, SendArg, as_bytes, as_str, neither, handle_closed,
}
use aiolibdatachannel.Channel.Api.{
  recv, took, reinject, close, send, resume_send, send_now, after_send, lower_if, is_shut,
  spawn_task, destroy, start_teardown, finish_teardown, begin,
}
use aiolibdatachannel.Channel.Api.Moves.{start_if, finish_if, gathered, resume_first}

took-dc :
    (P : DataChannel → Type 0) (r : Option (Option Message × Queue (Option Message)))
    (dc : DataChannel)
    → ((q : Queue (Option Message)) → P (record dc { recv_queue = q }))
    → P (took r dc).1
unfolding took reinject
took-dc P none dc p = p dc.recv_queue
took-dc P (some (some m, q)) dc p = p q
took-dc P (some (none, q)) dc p = elim (Option-cases (put_nowait q none)) [
  | inl e ↦ rw e (p q)
  | inr (q', e) ↦ rw e (p q')
]

-- Receiving changes only the queue.
pub recv-dc :
    (P : DataChannel → Type 0) (dc : DataChannel)
    → ((q : Queue (Option Message)) → P (record dc { recv_queue = q }))
    → P (recv dc).1
unfolding recv
recv-dc P dc p = took-dc P (get_nowait dc.recv_queue) dc p

pub close-dc :
    (P : DataChannel → Type 0) (dc : DataChannel)
    → P dc
    → P (record dc {
      close_requested = true;
      recv_queue = put_suppressed dc.recv_queue none;
      tasks = cancel_all dc.tasks;
      teardown = scheduled;
    })
    → P (close dc)
unfolding close
close-dc P dc p q = if_cases P dc.close_requested _ _ (λ e. p) (λ e. q)

pub spawn_task-dc :
    (P : DataChannel → Type 0) (dc : DataChannel)
    → P dc
    → ((t : TaskSet) → P (record dc { tasks = t }))
    → P (spawn_task dc).1
unfolding spawn_task
spawn_task-dc P dc p q =
    if_cases (λ (r : Result ℕ × DataChannel). P r.1) dc.close_requested _ _ (λ e. p)
      (λ e. q (add_task dc.tasks).1)

module _ (N : Native) {C : Type 0} (to_str : Value → String) where
  open N use {World}

  lower_if-dc :
      (P : DataChannel → Type 0) (r : Result ℕ) (dc : DataChannel) (c : Core World C)
      → ((e : Event SendArg) → P (record dc { buffered_low = e }))
      → P (lower_if N to_str r dc c).1
  unfolding lower_if
  lower_if-dc P (raises e) dc c p = p dc.buffered_low
  lower_if-dc P (ok amount) dc c p =
      if_cases P (ltb 0 amount) _ _ (λ e. p (clear_event dc.buffered_low)) (λ e. p dc.buffered_low)

  after_send-dc :
      (P : DataChannel → Type 0) (r : Result (Unit {0}) × Core World C) (dc : DataChannel)
      → ((e : Event SendArg) → P (record dc { buffered_low = e }))
      → P (after_send N to_str r dc).1
  unfolding after_send
  after_send-dc P (raises e, c) dc p = p dc.buffered_low
  after_send-dc P (ok u, c) dc p =
      if_cases (λ (r : Outcome (Unit {0}) × DataChannel × Core World C). P r.1) dc.buffered_low.flag
        _ _ (λ e. lower_if-dc P (Calls.buffered_amount N to_str dc.native c) dc c p)
        (λ e. p dc.buffered_low)

  send_now-dc :
      (P : DataChannel → Type 0) (a : SendArg) (dc : DataChannel) (c : Core World C)
      → ((e : Event SendArg) → P (record dc { buffered_low = e }))
      → P (send_now N to_str a dc c).1
  unfolding send_now
  send_now-dc P (as_bytes d) dc c p = after_send-dc P _ dc p
  send_now-dc P (as_str d) dc c p = after_send-dc P _ dc p
  send_now-dc P neither dc c p = p dc.buffered_low

  -- Sending changes only the event.
  pub send-dc :
      (P : DataChannel → Type 0) (a : SendArg) (w : Bool) (dc : DataChannel) (c : Core World C)
      → ((e : Event SendArg) → P (record dc { buffered_low = e }))
      → P (send N to_str a w dc c).1
  unfolding send
  send-dc P a w dc c p =
      if_cases (λ (r : Outcome (Unit {0}) × DataChannel × Core World C). P r.1)
        (is_shut N to_str dc c) _ _ (λ e. p dc.buffered_low)
        (λ e.
          if_cases (λ (r : Outcome (Unit {0}) × DataChannel × Core World C). P r.1)
            (w && not dc.buffered_low.flag) _ _ (λ f. p (park a dc.buffered_low))
            (λ f. send_now-dc P a dc c p))

  pub resume_first-dc :
      (P : DataChannel → Type 0) (senders : List SendArg) (dc : DataChannel) (c : Core World C)
      → ((e : Event SendArg) → P (record dc { buffered_low = e }))
      → P (resume_first N to_str senders dc c).0
  unfolding resume_first resume_send
  resume_first-dc P [] dc c p = p dc.buffered_low
  resume_first-dc P (a ∷ rest) dc c p =
      let d = record dc { buffered_low = record (dc.buffered_low) { woken = rest } } in
      if_cases (λ (r : Outcome (Unit {0}) × DataChannel × Core World C). P r.1)
        (is_shut N to_str d c) _ _ (λ e. p d.buffered_low) (λ e. send_now-dc P a d c p)

  pub destroy-dc :
      (P : DataChannel → Type 0) (dc : DataChannel) (c : Core World C)
      → P dc
      → P (handle_closed (record dc { destroyed = true }))
      → P (destroy N to_str dc c).0
  unfolding destroy
  destroy-dc P dc c p q =
      if_cases (λ (r : DataChannel × Core World C). P r.0) dc.destroyed _ _ (λ e. p) (λ e. q)

  begin-dc :
      (P : DataChannel → Type 0) (ns : List ℕ) (dc : DataChannel) (c : Core World C)
      → P (finish_teardown N to_str dc c).0
      → P (record dc { teardown = gathering ns })
      → P (begin N to_str ns dc c).0
  unfolding begin
  begin-dc P [] dc c p q = p
  begin-dc P (n ∷ ns) dc c p q = q

  pub start_if-dc :
      (P : DataChannel → Type 0) (t : Teardown) (dc : DataChannel) (c : Core World C)
      → P dc
      → P (finish_teardown N to_str dc c).0
      → P (record dc { teardown = gathering (numbers dc.tasks) })
      → P (start_if N to_str t dc c).0
  unfolding start_if start_teardown
  start_if-dc P scheduled dc c p q r = begin-dc P (numbers dc.tasks) dc c q r
  start_if-dc P t dc c p q r = p

  pub finish_if-dc :
      (P : DataChannel → Type 0) (t : Teardown) (dc : DataChannel) (c : Core World C)
      → P dc
      → P (finish_teardown N to_str dc c).0
      → P (finish_if N to_str t dc c).0
  unfolding finish_if
  finish_if-dc P (gathering ns) dc c p q =
      if_cases (λ (r : DataChannel × Core World C). P r.0) (gathered ns (numbers dc.tasks)) _ _
        (λ e. q) (λ e. p)
  finish_if-dc P t dc c p q = p
