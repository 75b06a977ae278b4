-- ===== src/Core/Registry.antt =====
-- The registries `_pcs` and `_dcs` of aiolibdatachannel/_core.py, and the wrapper objects that they
-- refer to. Both classes have the same slots, so one registry serves both. An object is its place
-- in the list of objects, which a destroyed one keeps; the table maps a handle to an object.
pub mod Invariant
pub mod Held
pub mod Stands
use aiolibdatachannel.Native.{Name}
use aiolibdatachannel.Prelude.{
  ℕ, Bool, true, false, List, [], ◌∷◌, ◌++◌, Option, none, some, length, get_elem?, set,
  if◌then◌else◌,
}
use aiolibdatachannel.Prelude.Dict
use aiolibdatachannel.Prelude.Dict.{Dict}

-- The `CB_*` number of the callback that is stored under a key of `_callbacks`; the model uses it
-- for the key too.
unfoldable pub callback_kind : Name → ℕ
callback_kind Name.local_description = 0
callback_kind Name.local_candidate = 1
callback_kind Name.state_change = 2
callback_kind Name.ice_state_change = 3
callback_kind Name.gathering_state_change = 4
callback_kind Name.signaling_state_change = 5
callback_kind Name.data_channel = 6
callback_kind Name.on_open = 7
callback_kind Name.on_closed = 8
callback_kind Name.on_error = 9
callback_kind Name.on_message = 10
callback_kind Name.buffered_amount_low = 11

pub record Wrapper {ℓ} (C : Type ℓ) : Type ℓ where
  pub handle : ℕ
  pub callbacks : Dict C
  pub destroyed : Bool

pub record Registry {ℓ} (C : Type ℓ) : Type ℓ where
  pub objects : List (Wrapper C)
  pub table : Dict ℕ

module _ {ℓ} {C : Type ℓ} where
  abbrev pub wrapper : ℕ → Wrapper C
  wrapper handle = record { handle = handle; callbacks = []; destroyed = false }

  abbrev pub empty : Registry C
  empty = record { objects = []; table = [] }

  -- The end of `__init__`; the new object is the last one.
  unfoldable pub register : ℕ → Registry C → Registry C
  register handle r = record {
    objects = r.objects ++ wrapper handle ∷ [];
    table = Dict.put handle (length r.objects) r.table;
  }

  object_at : Option ℕ → List (Wrapper C) → Option (Wrapper C)
  object_at none ws = none
  object_at (some i) ws = get_elem? ws i

  -- `_lookup_pc`, `_lookup_dc`.
  unfoldable pub lookup : ℕ → Registry C → Option (Wrapper C)
  unfolding object_at
  lookup handle r = object_at (Dict.get handle r.table) r.objects

  -- `self._callbacks[name] = callback`.
  unfoldable pub set_callback : ℕ → Name → C → Registry C → Registry C
  set_callback i name callback r = elim (get_elem? r.objects i) [
    | none ↦ r
    | some w ↦ record r {
      objects =
          set r.objects i
            (record w { callbacks = Dict.put (callback_kind name) callback w.callbacks });
    }
  ]

  -- What `destroy` does before it calls `_native`; on an object that is destroyed, nothing.
  unfoldable pub release : ℕ → Registry C → Registry C
  release i r = elim (get_elem? r.objects i) [
    | none ↦ r
    | some w ↦ if w.destroyed then r else record {
      objects = set r.objects i (record w { destroyed = true; callbacks = [] });
      table = Dict.pop w.handle r.table;
    }
  ]
