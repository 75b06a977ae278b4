-- ===== src/Channel/Create.antt =====
-- `DataChannel.__init__` of aiolibdatachannel/data_channel.py, against the wrapper of _core.py.
pub mod Synced
pub mod Held
pub mod Numbered
use Prim.Native.String.{String}
use aiolibdatachannel.Prelude.{ℕ, Bool, true, false, List, [], ◌∷◌, Option, none, some}
use aiolibdatachannel.Errors.{other_error, Result, ok, raises}
use aiolibdatachannel.Native.{
  Native, Value, Name, on_open, on_closed, on_error, on_message, buffered_amount_low,
}
use aiolibdatachannel.Asyncio.{Queue, put_nowait}
use aiolibdatachannel.Loop.{set_slot}
use aiolibdatachannel.Core.InTurn.{in_turn}
use aiolibdatachannel.Core.Machine.{Core}
use aiolibdatachannel.Core.Calls
use aiolibdatachannel.Channel.{DataChannel, Message, fresh}

-- The callbacks, in the order in which they are registered.
abbrev pub names : List Name
names = on_open ∷ on_closed ∷ on_error ∷ on_message ∷ buffered_amount_low ∷ []

-- `self._recv_queue.put_nowait(_CLOSED_SENTINEL)`, which may raise `QueueFull`.
put_sentinel : Option (Queue (Option Message)) → DataChannel → Result DataChannel
put_sentinel none dc = raises other_error
put_sentinel (some q) dc = ok (record dc { recv_queue = q })

sync_closed : Bool → DataChannel → Result DataChannel
unfolding put_sentinel
sync_closed false dc = ok dc
sync_closed true dc =
    let d = record dc { closed_slot = set_slot tt dc.closed_slot } in
    put_sentinel (put_nowait d.recv_queue none) d

abbrev sync_open : Bool → DataChannel → DataChannel
sync_open false dc = dc
sync_open true dc = record dc { open_slot = set_slot tt dc.open_slot }

module _ (N : Native) {C : Type 0} (to_str : Value → String) where
  open N use {World}

  -- `set_on_*` for each name.
  unfoldable pub register_all :
      ℕ → (Name → C) → List Name → Core World C → Result (Unit {0}) × Core World C
  register_all i callback = in_turn (λ n. Calls.dc_set_on N to_str i n (callback n))

  sync : DataChannel → Result (Unit {0}) × Core World C → Result DataChannel × Core World C
  unfolding sync_closed
  sync dc (raises e, c) = (raises e, c)
  sync dc (ok u, c) = (
    sync_closed (Calls.is_closed N to_str dc.native c)
        (sync_open (Calls.is_open N to_str dc.native c) dc),
    c,
  )

  unfoldable pub create : (Name → C) → ℕ → ℕ → Core World C → Result DataChannel × Core World C
  unfolding register_all sync
  create callback handle recv_buffer c =
      let (i, c₁) = Calls.dc_init N to_str handle c in
      sync (fresh i recv_buffer) (register_all i callback names c₁)
