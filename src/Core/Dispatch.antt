-- ===== src/Core/Dispatch.antt =====
-- `_dispatch` and `_fire` of aiolibdatachannel/_core.py: from a callback of the extension to the
-- Python callbacks that it calls. What a callback raises is caught; the callbacks of this library
-- only schedule a call on the loop.
pub mod Routing
pub mod Lines
use Prim.Native.String.{String}
use aiolibdatachannel.Prelude.{ℕ, List, [], ◌∷◌, Option, none, some, ◌==◌, if◌then◌else◌}
use aiolibdatachannel.Prelude.Dict
use aiolibdatachannel.Errors.{Result, ok, raises, other_error}
use aiolibdatachannel.Native.{Name, Value, int, str}
use aiolibdatachannel.Core.Registry.{Registry, Wrapper, lookup, callback_kind}

-- A callback with the arguments that it is called with.
pub record Fired {ℓ} (C : Type ℓ) : Type ℓ where
  pub callback : C
  pub args : List Value

-- The number of the log callback.
abbrev pub cb_log : ℕ
cb_log = 12

module _ {ℓ} {C : Type ℓ} where
  unfoldable pub fire : Option C → List Value → List (Fired C)
  fire none args = []
  fire (some c) args = record { callback = c; args = args } ∷ []

  -- `w = _lookup(handle)`, and `_fire(w._callbacks.get(name), *args)` if there is one.
  fire_found : Option (Wrapper C) → Name → List Value → Result (List (Fired C))
  fire_found none n args = ok []
  fire_found (some w) n args = ok (fire (Dict.get (callback_kind n) w.callbacks) args)

  unfoldable pub fire_on : Registry C → ℕ → Name → List Value → Result (List (Fired C))
  unfolding fire_found
  fire_on r handle n args = fire_found (lookup handle r) n args

  -- `data, _is_text = payload`, once the channel is found.
  unpack_message : Option (Wrapper C) → List Value → Result (List (Fired C))
  unfolding fire_found
  unpack_message none payload = ok []
  unpack_message (some w) (value ∷ is_text ∷ []) = fire_found (some w) Name.on_message (value ∷ [])
  unpack_message (some w) payload = raises other_error

  -- `cb(int(level), str(payload[0]))`; the level stands where a handle would.
  fire_log : (Value → String) → Option C → ℕ → List Value → Result (List (Fired C))
  fire_log to_str none level payload = ok []
  fire_log to_str (some c) level [] = raises other_error
  fire_log to_str (some c) level (message ∷ rest) =
      ok (record { callback = c; args = int level ∷ str (to_str message) ∷ [] } ∷ [])

  -- `to_str` is Python's `str`.
  unfoldable pub dispatch :
      (Value → String)
      → Registry C
      → Registry C
      → Option C
      → ℕ
      → ℕ
      → List Value
      → Result (List (Fired C))
  unfolding fire_on unpack_message fire_log
  dispatch to_str pcs dcs log kind handle payload =
      if kind == callback_kind Name.local_description
      then fire_on pcs handle Name.local_description payload
      else if kind == callback_kind Name.local_candidate
      then fire_on pcs handle Name.local_candidate payload
      else if kind == callback_kind Name.state_change
      then fire_on pcs handle Name.state_change payload
      else if kind == callback_kind Name.ice_state_change
      then fire_on pcs handle Name.ice_state_change payload
      else if kind == callback_kind Name.gathering_state_change
      then fire_on pcs handle Name.gathering_state_change payload
      else if kind == callback_kind Name.signaling_state_change
      then fire_on pcs handle Name.signaling_state_change payload
      else if kind == callback_kind Name.data_channel
      then fire_on pcs handle Name.data_channel payload
      else if kind == callback_kind Name.on_open
      then fire_on dcs handle Name.on_open []
      else if kind == callback_kind Name.on_closed
      then fire_on dcs handle Name.on_closed []
      else if kind == callback_kind Name.on_error
      then fire_on dcs handle Name.on_error payload
      else if kind == callback_kind Name.on_message
      then unpack_message (lookup handle dcs) payload
      else if kind == callback_kind Name.buffered_amount_low
      then fire_on dcs handle Name.buffered_amount_low []
      else if kind == cb_log
      then fire_log to_str log handle payload
      else ok []
