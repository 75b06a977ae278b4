-- ===== src/Channel/Api/Closing.antt =====
-- What the closing of a DataChannel (aiolibdatachannel/data_channel.py) means for the coroutines
-- that wait for it.
use aiolibdatachannel.Prelude.{◌≡◌, false, arith}
use aiolibdatachannel.Errors.{returns}
use aiolibdatachannel.Loop.{pending, set_slot, wait_for}
use aiolibdatachannel.Tasks.{scheduled}
use aiolibdatachannel.Channel.{DataChannel, closed_down, run_call, handle_closed}
use aiolibdatachannel.Channel.Api.{aclose, close}

-- A remote close makes a later `aclose` return at once: if the close callback has run on an open
-- channel that nobody has closed yet, then `aclose` does not wait for the teardown that it
-- schedules. It returns while the teardown has not started and the native handle is not released.
pub aclose_early :
    (dc : DataChannel)
    → dc.closed_slot.future.state ≡ pending
    → dc.close_requested ≡ false
    → dc.destroyed ≡ false
    → let r = aclose (run_call closed_down dc) in
      (r.0 ≡ returns tt) × (r.1.teardown ≡ scheduled) × (r.1.destroyed ≡ false)
unfolding aclose close run_call handle_closed set_slot wait_for
aclose_early dc p o d = ground arith
