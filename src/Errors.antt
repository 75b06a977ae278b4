-- ===== src/Errors.antt =====
-- aiolibdatachannel/exceptions.py, and the exceptions of Python and asyncio that cross the code. A
-- call returns a value or raises; a coroutine may also block.
use Prim.Native.String.{String}
use aiolibdatachannel.Prelude.{ℕ, Option, none}

-- An error code of the C API: `0` or more, or `-(n + 1)`.
pub data Code : Type 0 where
  pos : ℕ → Code
  negsuc : ℕ → Code

-- `RTCError` and its subclass carry a message and an optional code.
pub data Exc : Type 0 where
  rtc_error : String → Option Code → Exc
  connection_closed : String → Option Code → Exc
  type_error value_error cancelled_error invalid_state_error other_error : Exc

-- What `isinstance(exc, RTCError)` says: `ConnectionClosedError` is a subclass.
abbrev pub closed_error : String → Exc
closed_error message = connection_closed message none

pub data Result {ℓ} (A : Type ℓ) : Type ℓ where
  ok : A → Result A
  raises : Exc → Result A

-- A coroutine run up to its next suspension.
pub data Outcome {ℓ} (A : Type ℓ) : Type ℓ where
  returns : A → Outcome A
  fails : Exc → Outcome A
  blocks : Outcome A
