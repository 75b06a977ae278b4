-- ===== src/Core/Dispatch/Lines.antt =====
-- Where `_dispatch` of aiolibdatachannel/_core.py sends a line of the extension's log.
use Prim.Native.String.{String}
use aiolibdatachannel.Prelude.{ℕ, ◌≡◌, refl, [], ◌∷◌, Option, some}
use aiolibdatachannel.Errors.{ok}
use aiolibdatachannel.Native.{Value, int, str}
use aiolibdatachannel.Core.Registry.{Registry, callback_kind}
use aiolibdatachannel.Core.Dispatch.{dispatch, cb_log, fire_log}

module _ {ℓ} {C : Type ℓ} (to_str : Value → String) (pcs dcs : Registry C) where
  -- The log callback gets the level and the text.
  pub log_fires :
      (log : Option C) (f : C) (n : ℕ) (v : Value)
      → log ≡ some f
      → dispatch to_str pcs dcs log cb_log n (v ∷ [])
        ≡ ok (record { callback = f; args = int n ∷ str (to_str v) ∷ [] } ∷ [])
  unfolding dispatch callback_kind fire_log
  log_fires log f n v there = rw there refl
