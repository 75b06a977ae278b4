-- ===== src/Channel/Api/Moves/Safety.antt =====
-- The invariant of a DataChannel (aiolibdatachannel/data_channel.py): what holds after any moves.
use aiolibdatachannel.Prelude.{
  ℕ, ◌<◌, ◌≤◌, ◌≡◌, refl, inl, inr, Bool, true, false, List, [], ◌∷◌, ◌++◌, Option, none, some,
  arith, length, length-append, Bool-cases, ◌||◌,
}
use aiolibdatachannel.Asyncio.{
  Queue, full, put_nowait, get_nowait, put_suppressed, Event, set_event,
}
use aiolibdatachannel.Loop.{done}
use aiolibdatachannel.Loop.Latch.{set_slot-done, fail_slot-done}
use aiolibdatachannel.Tasks.{not_started, finished}
use aiolibdatachannel.Channel.{
  DataChannel, Message, SendArg, Call, opened, closed_down, drained, errored, messaged, run_call,
  handle_closed, handle_error, handle_message, put_latest,
}
use aiolibdatachannel.Channel.Api.{recv, close}
use aiolibdatachannel.Channel.Api.Receive.{put_latest-items, latest-length}

abbrev pub IsBounded : Queue (Option Message) → Type 0
IsBounded q = (0 < q.maxsize) × (length q.items ≤ q.maxsize)

-- The bound of the queue; nobody waits for a flag that is up; once the handle is released, both
-- slots are resolved and no sender waits; the teardown ends with the handle released; and it does
-- not begin before `close`.
pub record IsSafe (dc : DataChannel) : Type 0 where
  pub bounded : IsBounded dc.recv_queue
  pub awake : dc.buffered_low.flag ≡ true → dc.buffered_low.waiting ≡ []
  pub released :
      dc.destroyed ≡ true
      → (done dc.closed_slot ≡ true) × (done dc.open_slot ≡ true) × (dc.buffered_low.waiting ≡ [])
  pub torn_down : dc.teardown ≡ finished → dc.destroyed ≡ true
  pub requested : dc.close_requested ≡ false → dc.teardown ≡ not_started

put-IsBounded :
    (q : Queue (Option Message)) (m : Option Message) → IsBounded q → IsBounded (put_suppressed q m)
unfolding put_suppressed put_nowait full
put-IsBounded q m h = ground (arith, length-append q.items (m ∷ []))

latest-IsBounded :
    (m : Message) (q : Queue (Option Message)) → IsBounded q → IsBounded (put_latest m q)
latest-IsBounded m q h =
    rw (put_latest-items q.maxsize q.items m h.0 h.1)
      (h.0, latest-length q.maxsize (q.items ++ some m ∷ []))

set-awake : (e : Event SendArg) → (set_event e).waiting ≡ []
unfolding set_event
set-awake e = refl

-- `_handle_closed` settles what a released channel must have settled.
pub settle-IsSafe :
    (dc : DataChannel) (b : Bool)
    → IsSafe dc
    → IsSafe (handle_closed (record dc { destroyed = b || dc.destroyed }))
unfolding handle_closed
settle-IsSafe dc b v = record {
  bounded = put-IsBounded dc.recv_queue none v.bounded;
  awake = λ e. set-awake dc.buffered_low;
  released = λ e.
      (set_slot-done tt dc.closed_slot, fail_slot-done _ dc.open_slot, set-awake dc.buffered_low);
  torn_down = λ e. ground (arith, v.torn_down e);
  requested = v.requested;
}

-- What a call leaves settled stays settled.
pub run_call-IsSafe : (call : Call) (dc : DataChannel) → IsSafe dc → IsSafe (run_call call dc)
unfolding run_call
run_call-IsSafe opened dc v = record {
  bounded = v.bounded;
  awake = v.awake;
  released = λ e. ((v.released e).0, set_slot-done tt dc.open_slot, (v.released e).2);
  torn_down = v.torn_down;
  requested = v.requested;
}
run_call-IsSafe closed_down dc v = settle-IsSafe dc false v
run_call-IsSafe (errored message) dc v =
    unfold handle_error in
    record {
      bounded = v.bounded;
      awake = v.awake;
      released = λ e. ((v.released e).0, fail_slot-done _ dc.open_slot, (v.released e).2);
      torn_down = v.torn_down;
      requested = v.requested;
    }
run_call-IsSafe (messaged m) dc v =
    unfold handle_message in
    record {
      bounded = latest-IsBounded m dc.recv_queue v.bounded;
      awake = v.awake;
      released = v.released;
      torn_down = v.torn_down;
      requested = v.requested;
    }
run_call-IsSafe drained dc v = record {
  bounded = v.bounded;
  awake = λ e. set-awake dc.buffered_low;
  released = λ e. ((v.released e).0, (v.released e).1, set-awake dc.buffered_low);
  torn_down = v.torn_down;
  requested = v.requested;
}

-- A change of the queue alone.
queue-IsSafe :
    (dc : DataChannel) (q : Queue (Option Message))
    → IsBounded q
    → IsSafe dc
    → IsSafe (record dc { recv_queue = q })
queue-IsSafe dc q b v = record {
  bounded = b;
  awake = v.awake;
  released = v.released;
  torn_down = v.torn_down;
  requested = v.requested;
}

-- What `get_nowait` hands over, and what `recv` makes of it.
recv_items-IsBounded :
    (n : ℕ) (xs : List (Option Message)) (dc : DataChannel)
    → IsBounded (record { maxsize = n; items = xs })
    → IsBounded (recv (record dc { recv_queue = record { maxsize = n; items = xs } })).1.recv_queue
unfolding recv get_nowait put_nowait full
recv_items-IsBounded n [] dc b = b
recv_items-IsBounded n (some m ∷ xs) dc b = (b.0, omega arith)
recv_items-IsBounded n (none ∷ xs) dc b = ground (arith, length-append xs (none ∷ []))

recv-others :
    (n : ℕ) (xs : List (Option Message)) (dc : DataChannel)
    → dc.recv_queue ≡ record { maxsize = n; items = xs }
    → (recv dc).1 ≡ record dc { recv_queue = (recv dc).1.recv_queue }
unfolding recv get_nowait put_nowait full
recv-others n [] dc e = ground arith
recv-others n (some m ∷ xs) dc e = ground arith
recv-others n (none ∷ xs) dc e = ground arith

pub recv-IsSafe : (dc : DataChannel) → IsSafe dc → IsSafe (recv dc).1
recv-IsSafe dc v = rw (recv-others dc.recv_queue.maxsize dc.recv_queue.items dc refl) (
    queue-IsSafe dc _ (recv_items-IsBounded dc.recv_queue.maxsize dc.recv_queue.items dc v.bounded)
      v)

pub close-IsSafe : (dc : DataChannel) → IsSafe dc → IsSafe (close dc)
unfolding close
close-IsSafe dc v = elim (Bool-cases dc.close_requested) [
  | inl e ↦ simp e v
  | inr e ↦ simp e (record {
    bounded = put-IsBounded dc.recv_queue none v.bounded;
    awake = v.awake;
    released = v.released;
    torn_down = λ f. absurd (cc);
    requested = λ f. absurd (cc);
  })
]
