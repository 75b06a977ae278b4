-- ===== src/Channel.antt =====
-- aiolibdatachannel/data_channel.py: the state of a DataChannel, its callbacks and the handlers
-- that the loop calls for them.
pub mod Api
pub mod Create
pub mod Info
use Prim.Native.String.{String}
use aiolibdatachannel.Prelude.{
  ℕ, Bool, true, false, List, [], ◌∷◌, ◌++◌, Option, none, some, if◌then◌else◌,
}
use aiolibdatachannel.Errors.{Exc, rtc_error, closed_error}
use aiolibdatachannel.Asyncio.{Queue, put_nowait, get_nowait, put_suppressed, Event, set_event}
use aiolibdatachannel.Loop.{EventLoop, schedule, FutureSlot, init, set_slot, fail_slot}
use aiolibdatachannel.Tasks.{TaskSet, no_tasks, Teardown, not_started}

pub data Message : Type 0 where
  bytes : List ℕ → Message
  text : String → Message

-- The argument of `send`: bytes, bytearray or memoryview; str; or anything else.
pub data SendArg : Type 0 where
  as_bytes : List ℕ → SendArg
  as_str : String → SendArg
  neither : SendArg

-- `native` is the place of the wrapper in the registry of _core.py. In the queue `none` is
-- `_CLOSED_SENTINEL`. The senders that wait for `_buffered_low_event` go on with their argument.
pub record DataChannel : Type 0 where
  pub native : ℕ
  pub destroyed : Bool
  pub close_requested : Bool
  pub open_slot : FutureSlot (Unit {0})
  pub closed_slot : FutureSlot (Unit {0})
  pub buffered_low : Event SendArg
  pub recv_queue : Queue (Option Message)
  pub last_error : Option String
  pub tasks : TaskSet
  pub teardown : Teardown

-- The fields as `__init__` sets them, before it looks at the extension.
unfoldable pub fresh : ℕ → ℕ → DataChannel
fresh native recv_buffer = record {
  native = native;
  destroyed = false;
  close_requested = false;
  open_slot = init;
  closed_slot = init;
  buffered_low = record { flag = true; waiting = []; woken = [] };
  recv_queue = record { maxsize = recv_buffer; items = [] };
  last_error = none;
  tasks = no_tasks;
  teardown = not_started;
}

-- What the callbacks put onto the loop.
pub data Call : Type 0 where
  opened closed_down drained : Call
  errored : String → Call
  messaged : Message → Call

unfoldable pub cb_open : EventLoop Call → EventLoop Call
cb_open loop = schedule loop opened

unfoldable pub cb_closed : EventLoop Call → EventLoop Call
cb_closed loop = schedule loop closed_down

unfoldable pub cb_error : String → EventLoop Call → EventLoop Call
cb_error message loop = schedule loop (errored message)

unfoldable pub cb_message : Message → EventLoop Call → EventLoop Call
cb_message m loop = schedule loop (messaged m)

unfoldable pub cb_buffered_low : EventLoop Call → EventLoop Call
cb_buffered_low loop = schedule loop drained

-- `fail` and `set` of a slot that is done do nothing, which is the guard `if not …done()` of the
-- source.
unfoldable pub handle_closed : DataChannel → DataChannel
handle_closed dc = record dc {
  closed_slot = set_slot tt dc.closed_slot;
  open_slot = fail_slot (closed_error "channel closed before open") dc.open_slot;
  buffered_low = set_event dc.buffered_low;
  recv_queue = put_suppressed dc.recv_queue none;
}

unfoldable pub handle_error : String → DataChannel → DataChannel
handle_error message dc = record dc {
  last_error = some message;
  open_slot = fail_slot (rtc_error message none) dc.open_slot;
}

-- `with suppress(QueueEmpty): q.get_nowait()`.
dropped :
    Option (Option Message × Queue (Option Message))
    → Queue (Option Message)
    → Queue (Option Message)
dropped none q = q
dropped (some (oldest, q')) q = q'

-- `put_nowait`, and on `QueueFull` the oldest item makes room.
on_full :
    Option (Queue (Option Message)) → Message → Queue (Option Message) → Queue (Option Message)
on_full (some q') m q = q'
on_full none m q = put_suppressed (dropped (get_nowait q) q) (some m)

unfoldable pub put_latest : Message → Queue (Option Message) → Queue (Option Message)
unfolding on_full dropped
put_latest m q = on_full (put_nowait q (some m)) m q

unfoldable pub handle_message : Message → DataChannel → DataChannel
handle_message m dc = record dc { recv_queue = put_latest m dc.recv_queue }

-- The loop makes a call.
unfoldable pub run_call : Call → DataChannel → DataChannel
run_call opened dc = record dc { open_slot = set_slot tt dc.open_slot }
run_call closed_down dc = handle_closed dc
run_call (errored message) dc = handle_error message dc
run_call (messaged m) dc = handle_message m dc
run_call drained dc = record dc { buffered_low = set_event dc.buffered_low }
