-- ===== src/Loop.antt =====
-- aiolibdatachannel/_loop.py: `schedule` onto the loop, and `FutureSlot`, a slot whose future is
-- resolved at most once. A future that `reset` replaces lives on for those who await it, so the
-- slot keeps the replaced ones, oldest first; a future's identity is its place.
pub mod Latch
pub mod Settled
use aiolibdatachannel.Prelude.{
  ℕ, ◌+◌, Bool, true, false, ◌&&◌, List, [], ◌∷◌, ◌++◌, map, Option, none, some, ltb, get_elem?,
  if◌then◌else◌,
}
use aiolibdatachannel.Errors.{
  Exc, cancelled_error, invalid_state_error, Result, ok, raises, Outcome, returns, fails, blocks,
}

-- The loop's queue of calls that `call_soon_threadsafe` has taken.
pub record EventLoop {ℓ} (C : Type ℓ) : Type ℓ where
  pub closed : Bool
  pub ready : List C

-- `call_soon_threadsafe` raises `RuntimeError` on a closed loop, which `schedule` suppresses.
unfoldable pub schedule {ℓ} : {C : Type ℓ} → EventLoop C → C → EventLoop C
schedule loop call = if loop.closed then loop else record loop { ready = loop.ready ++ call ∷ [] }

pub data FutureState {ℓ} (A : Type ℓ) : Type ℓ where
  pending cancelled : FutureState A
  result : A → FutureState A
  exception : Exc → FutureState A

-- `callbacks` counts the `_retrieve_exception` callbacks that the loop has still to call, and
-- `log_traceback` is the flag that makes asyncio complain of an exception nobody retrieved.
pub record Future {ℓ} (A : Type ℓ) : Type ℓ where
  pub state : FutureState A
  pub log_traceback : Bool
  pub callbacks : ℕ

pub record FutureSlot {ℓ} (A : Type ℓ) : Type ℓ where
  pub future : Future A
  pub replaced : List (Future A)

module _ {ℓ} {A : Type ℓ} where
  unfoldable pub is_done : FutureState A → Bool
  is_done pending = false
  is_done cancelled = true
  is_done (result a) = true
  is_done (exception e) = true

  abbrev pub done : FutureSlot A → Bool
  done s = is_done s.future.state

  abbrev pub create_future : Future A
  create_future = record { state = pending; log_traceback = false; callbacks = 0 }

  unfoldable pub init : FutureSlot A
  init = record { future = create_future; replaced = [] }

  unfoldable pub set_slot : A → FutureSlot A → FutureSlot A
  unfolding is_done
  set_slot value s =
      if done s then s else record s { future = record (s.future) { state = result value } }

  unfoldable pub fail_slot : Exc → FutureSlot A → FutureSlot A
  unfolding is_done
  fail_slot e s = if done s then s else record s {
    future = record {
      state = exception e;
      log_traceback = true;
      callbacks = s.future.callbacks + 1;
    };
  }

  unfoldable pub cancel : Future A → Future A
  unfolding is_done
  cancel f = if is_done f.state then f else record f { state = cancelled }

  -- `Task.cancel` of a coroutine that awaits the slot's future cancels the future.
  abbrev pub cancel_waiter : FutureSlot A → FutureSlot A
  cancel_waiter s = record s { future = cancel s.future }

  unfoldable pub reset : FutureSlot A → FutureSlot A
  unfolding cancel
  reset s = record { future = create_future; replaced = s.replaced ++ cancel s.future ∷ [] }

  -- `future.exception()` of a done future clears the flag; of a cancelled one it raises
  -- `CancelledError`, which is suppressed; of a pending one it would raise.
  retrieve : FutureState A → Future A → Future A
  retrieve pending f = f
  retrieve cancelled f = f
  retrieve (result a) f = record f { log_traceback = false }
  retrieve (exception e) f = record f { log_traceback = false }

  unfoldable pub retrieve_exception : Future A → Future A
  unfolding retrieve
  retrieve_exception f = retrieve f.state f

  -- The loop calls the callbacks of a future once it is done.
  unfoldable pub run_callbacks : Future A → Future A
  unfolding retrieve_exception is_done
  run_callbacks f =
      if is_done f.state && ltb 0 f.callbacks
      then record (retrieve_exception f) { callbacks = 0 }
      else f

  unfoldable pub turn : FutureSlot A → FutureSlot A
  unfolding run_callbacks
  turn s = record { future = run_callbacks s.future; replaced = map run_callbacks s.replaced }

  -- `await future`.
  unfoldable pub wait_for : FutureState A → Outcome A
  wait_for pending = blocks
  wait_for cancelled = fails cancelled_error
  wait_for (result a) = returns a
  wait_for (exception e) = fails e

  abbrev pub wait_slot : FutureSlot A → Outcome A
  wait_slot s = wait_for s.future.state

  abbrev pub futures : FutureSlot A → List (Future A)
  futures s = s.replaced ++ s.future ∷ []

pub data Op {ℓ} (A : Type ℓ) : Type ℓ where
  set : A → Op A
  fail : Exc → Op A
  renew : Op A
  tick : Op A

module _ {ℓ} {A : Type ℓ} where
  unfoldable pub step : Op A → FutureSlot A → FutureSlot A
  step (set a) s = set_slot a s
  step (fail e) s = fail_slot e s
  step renew s = reset s
  step tick s = turn s

  unfoldable pub run : List (Op A) → FutureSlot A → FutureSlot A
  run [] s = s
  run (o ∷ os) s = run os (step o s)
