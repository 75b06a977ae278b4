-- ===== src/Lib.antt =====
-- A model of aiolibdatachannel, an asyncio wrapper of the WebRTC library libdatachannel, and what
-- is proved of it.
--
-- The program has four layers. `aiolibdatachannel/_loop.py` has `schedule`, which puts a call onto
-- the event loop from any thread, and `FutureSlot`, a future that is resolved at most once.
-- `aiolibdatachannel/_core.py` wraps the handles of the compiled extension `_native`: it keeps a
-- registry of connections and one of channels, forwards calls, and dispatches the extension's
-- callbacks to those that the wrapper of a handle has registered. On it stand `DataChannel`
-- (`aiolibdatachannel/data_channel.py`) and `PeerConnection`
-- (`aiolibdatachannel/peer_connection.py`): their callbacks only schedule handlers, and the
-- handlers, which run on the loop, change queues, events and slots that coroutines wait for. A
-- connection owns its channels, and destroys them when it is torn down.
--
-- The files:
--   Prelude, with Tests, Lists and Dict: the library's names, Boolean tests, lists and the
--     association list that stands for a dict.
--   Errors: aiolibdatachannel/exceptions.py, results of calls and of coroutines. `blocks` is a
--     coroutine that waits.
--   Asyncio, with Queues, Events, GivenUp and Sentinel: asyncio.Queue, asyncio.Event and the close
--     sentinel (`none` in a queue of options), as the documentation of asyncio describes them.
--   Loop: _loop.py. A future's identity is its place among those that a slot has had.
--   Native: the extension, a parameter: a record of its functions over a state of its own. A call
--     returns a value or raises, and gives the callbacks that it fires before it returns.
--   Core, with Registry, Dispatch, Machine, Calls, InTurn and Shutdown: _core.py. The state is
--     the record Core; a wrapper object is its place in its registry. Every method is a function of
--     that state.
--   Config, with Parts, Unquoting and Recovers: aiolibdatachannel/config.py, with the
--     percent-encoding of urllib; a string that it works on is the list of its code points.
--     DataChannelOptions stands in Peer/Lifecycle.
--   Enums: aiolibdatachannel/enums.py.
--   Logging, with Install and Install/Named: the functions of aiolibdatachannel/__init__.py and their levels. The
--     logging module of Python is a parameter.
--   Tasks: spawn_task, the done callback and the cancelling, the same in both classes.
--   Channel, with Create, Info, Api and Api/Moves: data_channel.py. A coroutine is cut where it
--     waits; Moves runs the pieces in any order, with the loop, the callers and the extension;
--     Moves/Served and Moves/Freed follow the senders that wait for the low-water mark.
--   Peer, with Create, Callbacks, Negotiation, Remote, Iterators, Lifecycle and Moves:
--     peer_connection.py. Remote runs the coroutines of set_remote_description and
--     add_remote_candidate in any order, cancelled or not, and Moves everything that happens to a
--     connection and its channels. Moves/Reach follows the wrapper objects of the connection and its
--     channels, Moves/Awaited the future that an offer awaits, and Moves/Onward the stages of the
--     teardown. Iterators/Stream says what a queue with sentinels stands for.
--   Wiring, with Messages, Reports, Steady, Reached and Closed: the layers put together, from a
--     callback of the extension to the handler that the loop runs for it, for one connection with
--     its channels. Reports says what each report of the extension, by its number in the C API, is
--     to put onto the loop. Reached starts where `__init__` of the connection has returned.
--   Examples: runs of the theorems on small inputs, with an extension that accepts every call.
--
-- Correspondence. A method `f` of the source is the function `f` (`_f` without its underscore),
-- from the state to the new state with what it returns. The state of a class is the record of its
-- name. `await` of a future is `wait_for`, of a queue `get_nowait` where an empty queue blocks.
-- What a Python callback raises is caught in `_fire`, so the calls of the dispatcher are the list
-- `fired` of the Core. A theorem on sequences of moves covers the interleavings of the coroutines,
-- since the loop runs one piece at a time.
--
-- Fuel. Only the iterators take fuel, as the number of rounds: the theorems on them show that the
-- length of the queue is enough where a sentinel is in it.
--
-- Not modelled: the extension (C++ over libdatachannel, a submodule); the locks of the registries
-- and the moment of `__del__`, so that a registry operation is one step; `__str__` of the
-- exceptions; the cancelling of a reader that waits for a queue, and of a coroutine that waits for
-- an event of a PeerConnection, which leave nothing behind that the code reads; the cancelling of
-- the private task that runs `_teardown` of a channel or of a connection, which for a channel leaves
-- through `finally` with its closed slot set and its handle not released; a callback's payload of
-- an unexpected type, which is dropped here and which Python would schedule; a channel whose
-- `__init__` has raised as an object of its own, so that the callbacks which it has registered by
-- then are those of the place that the next channel takes; the error of `quote` on a lone
-- surrogate; logging's own formatting; tests, examples and build files.
pub mod Prelude
pub mod Errors
pub mod Asyncio
pub mod Loop
pub mod Native
pub mod Core
pub mod Enums
pub mod Config
pub mod Tasks
pub mod Channel
pub mod Peer
pub mod Wiring
pub mod Logging
pub mod Examples
