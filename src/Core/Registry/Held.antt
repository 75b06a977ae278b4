-- ===== src/Core/Registry/Held.antt =====
-- The callbacks that an object of a registry (aiolibdatachannel/_core.py) holds, as `set_on_*` is
-- called for one name after another.
use aiolibdatachannel.Native.{Name}
use aiolibdatachannel.Prelude.{
  ℕ, ◌≡◌, false, List, [], ◌∷◌, some, arith, get_elem?, get_elem?-set, get_elem?-append_last,
  length,
}
use aiolibdatachannel.Prelude.Dict
use aiolibdatachannel.Prelude.Dict.{Dict}
use aiolibdatachannel.Core.Registry.{Registry, wrapper, register, set_callback, callback_kind}

module _ {ℓ} {C : Type ℓ} where
  -- The object at the place is live, has the handle, and its callbacks are these.
  abbrev pub Holds : Registry C → ℕ → ℕ → Dict C → Type ℓ
  Holds r i h callbacks =
      get_elem? r.objects i ≡ some (record { handle = h; callbacks = callbacks; destroyed = false })

  -- `_callbacks` after the callbacks of the names have been stored, one after another.
  unfoldable pub stored : (Name → C) → List Name → Dict C → Dict C
  stored callback [] d = d
  stored callback (n ∷ ns) d = stored callback ns (Dict.put (callback_kind n) (callback n) d)

  pub register-Holds : (h : ℕ) (r : Registry C) → Holds (register h r) (length r.objects) h []
  unfolding register
  register-Holds h r = get_elem?-append_last r.objects (wrapper h)

  pub set_callback-Holds :
      (i h : ℕ) (n : Name) (c : C) (r : Registry C) (d : Dict C)
      → Holds r i h d
      → Holds (set_callback i n c r) i h (Dict.put (callback_kind n) c d)
  unfolding set_callback
  set_callback-Holds i h n c r d e =
      rw (e, set_callback)
        (ground (
          arith,
          get_elem?-set r.objects i i _
              (record { handle = h; callbacks = Dict.put (callback_kind n) c d; destroyed = false })
              e,
        ))
