-- ===== src/Core/Machine.antt =====
-- The state of aiolibdatachannel/_core.py as a module: the two registries, the log callback and the
-- dispatcher's registration, beside the extension's state; and a call into the extension, which
-- may call the dispatcher before it returns.
pub mod Frame
use Prim.Native.String.{String}
use aiolibdatachannel.Prelude.{
  ℕ, Bool, true, false, List, [], ◌∷◌, ◌++◌, Option, none, some, if◌then◌else◌,
}
use aiolibdatachannel.Errors.{Exc, Result, ok, raises}
use aiolibdatachannel.Native.{Native, Reply, Emission, Value}
use aiolibdatachannel.Core.Registry.{Registry, empty}
use aiolibdatachannel.Core.Dispatch.{Fired, dispatch}

-- `fired` is what the dispatcher has called so far, oldest first.
pub record Core (W C : Type 0) : Type 0 where
  pub world : W
  pub pcs : Registry C
  pub dcs : Registry C
  pub log_callback : Option C
  pub installed : Bool
  pub fired : List (Fired C)

-- `with suppress(Exception)`.
abbrev pub suppress {ℓ} : {A S : Type ℓ} → Result A × S → S
suppress r = r.1

module _ {W C : Type 0} where
  -- The state after the import of the module, which registers the dispatcher.
  unfoldable pub start : W → Core W C
  start w = record {
    world = w;
    pcs = empty;
    dcs = empty;
    log_callback = none;
    installed = true;
    fired = [];
  }

  -- What the dispatcher raises goes to `sys.unraisablehook`.
  after_dispatch : Core W C → Result (List (Fired C)) → Core W C
  after_dispatch c (ok fs) = record c { fired = c.fired ++ fs }
  after_dispatch c (raises e) = c

  module _ (to_str : Value → String) where
    -- `safe_call_dispatcher` of bindings.cpp: nothing without a dispatcher.
    unfoldable pub deliver : Core W C → Emission → Core W C
    unfolding after_dispatch
    deliver c e =
        if c.installed
        then after_dispatch c (dispatch to_str c.pcs c.dcs c.log_callback e.kind e.handle e.payload)
        else c

    unfoldable pub deliver_all : List Emission → Core W C → Core W C
    unfolding deliver
    deliver_all [] c = c
    deliver_all (e ∷ es) c = deliver_all es (deliver c e)

    -- A call into the extension.
    unfoldable pub call : {A : Type 0} → (W → Reply W A) → Core W C → Result A × Core W C
    unfolding deliver_all
    call f c = let r = f c.world in (r.value, deliver_all r.emits (record c { world = r.world }))
