-- ===== src/Peer/Lifecycle.antt =====
-- The channels, the owned tasks and the shutdown of a PeerConnection
-- (aiolibdatachannel/peer_connection.py).
pub mod Closing
pub mod Made
use Prim.Native.String.{String}
use aiolibdatachannel.Prelude.{
  ℕ, not, Bool, true, false, ◌||◌, List, [], ◌∷◌, ◌++◌, Option, none, some, if◌then◌else◌, length,
}
use aiolibdatachannel.Errors.{
  Exc, closed_error, Result, ok, raises, Outcome, returns, fails, blocks,
}
use aiolibdatachannel.Native.{Native, Value, Name, DcArgs}
use aiolibdatachannel.Asyncio.{Queue, put_suppressed}
use aiolibdatachannel.Enums.{RtcState}
use aiolibdatachannel.Core.Machine.{Core, suppress}
use aiolibdatachannel.Core.Calls
use aiolibdatachannel.Tasks.{
  TaskSet, add_task, cancel_all, numbers, Teardown, not_started, scheduled, gathering, releasing,
  released, finished,
}
use aiolibdatachannel.Channel.{DataChannel}
use aiolibdatachannel.Channel.Create.{create}
use aiolibdatachannel.Channel.Api
use aiolibdatachannel.Peer.{PeerConnection, add_channel}

-- config.DataChannelOptions.
pub record DataChannelOptions : Type 0 where
  pub ordered : Bool
  pub max_packet_lifetime_ms : Option ℕ
  pub max_retransmits : Option ℕ
  pub protocol : String
  pub negotiated : Bool
  pub stream_id : Option ℕ

-- `opt or 0`, and `opt is not None`.
abbrev pub or_zero : Option ℕ → ℕ
or_zero none = 0
or_zero (some n) = n

abbrev pub given : Option ℕ → Bool
given none = false
given (some n) = true

-- The arguments that `create_data_channel` passes on.
unfoldable pub channel_args : String → DataChannelOptions → DcArgs
channel_args label opts = record {
  label = label;
  unordered = not opts.ordered;
  unreliable = given opts.max_packet_lifetime_ms || given opts.max_retransmits;
  max_packet_lifetime = or_zero opts.max_packet_lifetime_ms;
  max_retransmits = or_zero opts.max_retransmits;
  protocol = opts.protocol;
  negotiated = opts.negotiated;
  manual_stream = given opts.stream_id;
  stream = or_zero opts.stream_id;
}

-- `spawn_task`.
unfoldable pub spawn_task : PeerConnection → Result ℕ × PeerConnection
spawn_task pc =
    if pc.closed
    then (raises (closed_error "peer connection is closed"), pc)
    else let r = add_task pc.tasks in (ok r.0, record pc { tasks = r.1 })

unfoldable pub close : PeerConnection → PeerConnection
close pc = if pc.closed then pc else record pc {
  closed = true;
  ice_candidates = put_suppressed pc.ice_candidates none;
  incoming_dc = put_suppressed pc.incoming_dc none;
  events_queue = put_suppressed pc.events_queue none;
  tasks = cancel_all pc.tasks;
  teardown = scheduled;
}

-- `await self._closed_event.wait()`.
abbrev pub wait_closed : PeerConnection → Outcome (Unit {0})
wait_closed pc = if pc.closed_event then returns tt else blocks

-- `aclose` up to that wait.
unfoldable pub aclose : PeerConnection → Outcome (Unit {0}) × PeerConnection
unfolding close
aclose pc = let d = close pc in (wait_closed d, d)

module _ (N : Native) {C : Type 0} (to_str : Value → String) (callback : ℕ → Name → C) where
  open N use {World}

  made :
      Result DataChannel × Core World C → PeerConnection → Result ℕ × PeerConnection × Core World C
  made (raises e, c) pc = (raises e, pc, c)
  made (ok dc, c) pc = (ok (length pc.data_channels), add_channel dc pc, c)

  with_handle : Result ℕ × Core World C → PeerConnection → Result ℕ × PeerConnection × Core World C
  unfolding made
  with_handle (raises e, c) pc = (raises e, pc, c)
  with_handle (ok handle, c) pc =
      made (create N to_str (callback (length pc.data_channels)) handle 1024 c) pc

  -- The result is the new channel's place.
  unfoldable pub create_data_channel :
      String
      → DataChannelOptions
      → PeerConnection
      → Core World C
      → Result ℕ × PeerConnection × Core World C
  unfolding with_handle channel_args
  create_data_channel label opts pc c =
      with_handle (Calls.create_data_channel N to_str pc.native (channel_args label opts) c) pc

-- The `finally` clause of `_teardown`.
unfoldable pub end_teardown : PeerConnection → PeerConnection
end_teardown pc = record pc { closed_event = true; teardown = finished }

module _ (N : Native) {C : Type 0} (to_str : Value → String) where
  open N use {World}

  -- `for dc in self._data_channels: dc._destroy()`.
  unfoldable pub destroy_channels :
      List DataChannel → Core World C → List DataChannel × Core World C
  destroy_channels [] c = ([], c)
  destroy_channels (dc ∷ dcs) c =
      let (d, c₁) = Api.destroy N to_str dc c in
      let (ds, c₂) = destroy_channels dcs c₁ in (d ∷ ds, c₂)

  -- `_teardown` from the end of its wait for the tasks up to `run_in_executor`.
  unfoldable pub release_channels : PeerConnection → Core World C → PeerConnection × Core World C
  unfolding destroy_channels
  release_channels pc c =
      let (dcs, c₁) = destroy_channels pc.data_channels c in
      (record pc { data_channels = dcs; teardown = releasing }, c₁)

  -- The executor runs the wrapper's `destroy`. What that raises ends the task, after the `finally`
  -- clause.
  unfoldable pub execute_destroy : PeerConnection → Core World C → PeerConnection × Core World C
  execute_destroy pc c =
      (record pc { teardown = released }, suppress (Calls.pc_destroy N to_str pc.native c))

  -- `_teardown` up to the wait for the tasks that are left.
  begin : List ℕ → PeerConnection → Core World C → PeerConnection × Core World C
  begin [] pc c = release_channels pc c
  begin (n ∷ ns) pc c = (record pc { teardown = gathering (n ∷ ns) }, c)

  unfoldable pub start_teardown : PeerConnection → Core World C → PeerConnection × Core World C
  unfolding begin
  start_teardown pc c = begin (numbers pc.tasks) pc c

  -- The rest of `_teardown` with nothing else in between.
  unfoldable pub finish_teardown : PeerConnection → Core World C → PeerConnection × Core World C
  unfolding release_channels execute_destroy end_teardown
  finish_teardown pc c =
      let (pc₁, c₁) = release_channels pc c in
      let (pc₂, c₂) = execute_destroy pc₁ c₁ in (end_teardown pc₂, c₂)

-- `await self._state_events[state].wait()`.
unfoldable pub wait_for_state : RtcState → PeerConnection → Outcome (Unit {0})
wait_for_state s pc = if pc.state_events s then returns tt else blocks

-- `__aexit__`, whatever the block has raised.
abbrev pub aexit : PeerConnection → Outcome (Unit {0}) × PeerConnection
aexit pc = aclose pc

-- `remote_description`.
abbrev pub remote_description :
    (N : Native) {C : Type 0}
    → (Value → String)
    → PeerConnection
    → Core N.World C
    → Result (Option String)
remote_description N to_str pc c = Calls.get_remote_description N to_str pc.native c
