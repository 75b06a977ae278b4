-- ===== src/Channel/Api/Moves/Sends.antt =====
-- The invariant of a DataChannel (aiolibdatachannel/data_channel.py) through sending, spawning and
-- the changes of single fields.
use Prim.Native.String.{String}
use aiolibdatachannel.Prelude.{
  ℕ, ◌≡◌, inl, inr, not, ◌&&◌, Bool, true, false, [], arith, Bool-cases, if_cases, ◌||◌, ltb,
}
use aiolibdatachannel.Errors.{Result, ok, raises, Outcome}
use aiolibdatachannel.Native.{Native, Value}
use aiolibdatachannel.Asyncio.{Event, clear_event, park}
use aiolibdatachannel.Core.Machine.{Core}
use aiolibdatachannel.Core.Calls
use aiolibdatachannel.Tasks.{TaskSet, not_started, add_task}
use aiolibdatachannel.Channel.{DataChannel, SendArg, as_bytes, as_str, neither}
use aiolibdatachannel.Channel.Api.{
  spawn_task, send, resume_send, send_now, after_send, lower_if, is_shut,
}
use aiolibdatachannel.Channel.Api.Moves.Safety.{IsSafe}

-- A change of the event alone.
pub event-IsSafe :
    (dc : DataChannel) (e : Event SendArg)
    → (e.flag ≡ true → e.waiting ≡ [])
    → (dc.destroyed ≡ true → e.waiting ≡ [])
    → IsSafe dc
    → IsSafe (record dc { buffered_low = e })
event-IsSafe dc e a r v = record {
  bounded = v.bounded;
  awake = a;
  released = λ d. ((v.released d).0, (v.released d).1, r d);
  torn_down = v.torn_down;
  requested = v.requested;
}

-- A change of the tasks alone.
pub tasks-IsSafe : (dc : DataChannel) (t : TaskSet) → IsSafe dc → IsSafe (record dc { tasks = t })
tasks-IsSafe dc t v = record {
  bounded = v.bounded;
  awake = v.awake;
  released = v.released;
  torn_down = v.torn_down;
  requested = v.requested;
}

pub spawn-IsSafe : (dc : DataChannel) → IsSafe dc → IsSafe (spawn_task dc).1
unfolding spawn_task
spawn-IsSafe dc v =
    if_cases (λ (r : Result ℕ × DataChannel). IsSafe r.1) dc.close_requested _ _ (λ e. v)
      (λ e. tasks-IsSafe dc (add_task dc.tasks).1 v)

park-IsSafe :
    (a : SendArg) (dc : DataChannel)
    → dc.destroyed ≡ false
    → dc.buffered_low.flag ≡ false
    → IsSafe dc
    → IsSafe (record dc { buffered_low = park a dc.buffered_low })
unfolding park
park-IsSafe a dc d f v = event-IsSafe dc _ (λ e. absurd (cc)) (λ e. absurd (cc)) v

or-false : (a b : Bool) → (a || b) ≡ false → a ≡ false
or-false a b e = ground arith

and-not : (a b : Bool) → (a && not b) ≡ true → b ≡ false
and-not a b e = ground arith

clear-IsSafe :
    (dc : DataChannel)
    → IsSafe dc
    → IsSafe (record dc { buffered_low = clear_event dc.buffered_low })
unfolding clear_event
clear-IsSafe dc v = event-IsSafe dc _ (λ e. absurd (cc)) (λ d. (v.released d).2) v

-- A teardown that has begun was asked for.
pub asked_for :
    (dc : DataChannel) → IsSafe dc → (dc.teardown ≡ not_started → ⊥) → dc.close_requested ≡ true
asked_for dc v h = elim (Bool-cases dc.close_requested) [
  | inl e ↦ e
  | inr e ↦ absurd (h (v.requested e))
]

module _ (N : Native) {C : Type 0} (to_str : Value → String) where
  open N use {World}

  lower_if-IsSafe :
      (r : Result ℕ) (dc : DataChannel) (c : Core World C)
      → IsSafe dc
      → IsSafe (lower_if N to_str r dc c).1
  unfolding lower_if
  lower_if-IsSafe (raises e) dc c v = v
  lower_if-IsSafe (ok amount) dc c v = elim (Bool-cases (ltb 0 amount)) [
    | inl e ↦ rw e (clear-IsSafe dc v)
    | inr e ↦ rw e v
  ]

  after_send-IsSafe :
      (r : Result (Unit {0}) × Core World C) (dc : DataChannel)
      → IsSafe dc
      → IsSafe (after_send N to_str r dc).1
  unfolding after_send
  after_send-IsSafe (raises e, c) dc v = v
  after_send-IsSafe (ok u, c) dc v = elim (Bool-cases dc.buffered_low.flag) [
    | inl e ↦ simp e (lower_if-IsSafe (Calls.buffered_amount N to_str dc.native c) dc c v)
    | inr e ↦ simp e v
  ]

  send_now-IsSafe :
      (a : SendArg) (dc : DataChannel) (c : Core World C)
      → IsSafe dc
      → IsSafe (send_now N to_str a dc c).1
  unfolding send_now
  send_now-IsSafe (as_bytes d) dc c v = after_send-IsSafe _ dc v
  send_now-IsSafe (as_str d) dc c v = after_send-IsSafe _ dc v
  send_now-IsSafe neither dc c v = v

  pub send-IsSafe :
      (a : SendArg) (w : Bool) (dc : DataChannel) (c : Core World C)
      → IsSafe dc
      → IsSafe (send N to_str a w dc c).1
  unfolding send
  send-IsSafe a w dc c v =
      if_cases (λ (r : Outcome (Unit {0}) × DataChannel × Core World C). IsSafe r.1)
        (is_shut N to_str dc c) _ _ (λ e. v)
        (λ e.
          if_cases (λ (r : Outcome (Unit {0}) × DataChannel × Core World C). IsSafe r.1)
            (w && not dc.buffered_low.flag) _ _
            (λ f. park-IsSafe a dc (or-false dc.destroyed _ e) (and-not w _ f) v)
            (λ f. send_now-IsSafe a dc c v))

  pub resume-IsSafe :
      (a : SendArg) (dc : DataChannel) (c : Core World C)
      → IsSafe dc
      → IsSafe (resume_send N to_str a dc c).1
  unfolding resume_send
  resume-IsSafe a dc c v =
      if_cases (λ (r : Outcome (Unit {0}) × DataChannel × Core World C). IsSafe r.1)
        (is_shut N to_str dc c) _ _ (λ e. v) (λ e. send_now-IsSafe a dc c v)
