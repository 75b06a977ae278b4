-- ===== src/Channel/Info.antt =====
-- The properties of DataChannel in aiolibdatachannel/data_channel.py that ask the extension.
use Prim.Native.String.{String}
use aiolibdatachannel.Prelude.{ℕ, Bool, Option, none, some}
use aiolibdatachannel.Errors.{Result, ok, raises}
use aiolibdatachannel.Native.{Native, Value}
use aiolibdatachannel.Core.Machine.{Core}
use aiolibdatachannel.Core.Calls
use aiolibdatachannel.Channel.{DataChannel}

-- `value or ""`.
or_empty : Result (Option String) → Result String
or_empty (raises e) = raises e
or_empty (ok none) = ok ""
or_empty (ok (some s)) = ok s

-- `closed`.
abbrev pub closed : DataChannel → Bool
closed dc = dc.close_requested

module _ (N : Native) {C : Type 0} (to_str : Value → String) where
  open N use {World}

  unfoldable pub label : DataChannel → Core World C → Result String
  unfolding or_empty
  label dc c = or_empty (Calls.label N to_str dc.native c)

  unfoldable pub protocol : DataChannel → Core World C → Result String
  unfolding or_empty
  protocol dc c = or_empty (Calls.protocol N to_str dc.native c)

  unfoldable pub stream_id : DataChannel → Core World C → Result ℕ
  stream_id dc c = Calls.stream N to_str dc.native c

  unfoldable pub max_message_size : DataChannel → Core World C → Result ℕ
  max_message_size dc c = Calls.max_message_size N to_str dc.native c

  unfoldable pub buffered_amount : DataChannel → Core World C → Result ℕ
  buffered_amount dc c = Calls.buffered_amount N to_str dc.native c

  unfoldable pub is_open : DataChannel → Core World C → Bool
  is_open dc c = Calls.is_open N to_str dc.native c

  unfoldable pub is_closed : DataChannel → Core World C → Bool
  is_closed dc c = Calls.is_closed N to_str dc.native c

  unfoldable pub set_buffered_amount_low_threshold :
      ℕ → DataChannel → Core World C → Result (Unit {0}) × Core World C
  set_buffered_amount_low_threshold amount dc c =
      Calls.set_buffered_amount_low_threshold N to_str dc.native amount c
