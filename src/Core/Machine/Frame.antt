-- ===== src/Core/Machine/Frame.antt =====
-- What a call into the extension leaves alone in the state of aiolibdatachannel/_core.py.
use Prim.Native.String.{String}
use aiolibdatachannel.Prelude.{
  ◌≡◌, refl, ◌∙◌, false, List, [], ◌∷◌, ◌++◌, true, inl, inr, Bool-cases,
}
use aiolibdatachannel.Errors.{Result, ok, raises}
use aiolibdatachannel.Native.{Reply, Emission, Value}
use aiolibdatachannel.Core.Dispatch.{Fired, dispatch}
use aiolibdatachannel.Core.Machine.{Core, deliver, deliver_all, call, after_dispatch}

module _ {W C : Type 0} where
  -- The states differ in the extension's state and in the calls fired, and in nothing else.
  pub record SameTables (c d : Core W C) : Type 0 where
    pub same_pcs : d.pcs ≡ c.pcs
    pub same_dcs : d.dcs ≡ c.dcs
    pub same_log : d.log_callback ≡ c.log_callback
    pub same_installed : d.installed ≡ c.installed

  pub SameTables-refl : (c : Core W C) → SameTables c c
  SameTables-refl c = record {
    same_pcs = refl;
    same_dcs = refl;
    same_log = refl;
    same_installed = refl;
  }

  after_dispatch-SameTables :
      (c : Core W C) (r : Result (List (Fired C))) → SameTables c (after_dispatch c r)
  unfolding after_dispatch
  after_dispatch-SameTables c (ok fs) = record {
    same_pcs = refl;
    same_dcs = refl;
    same_log = refl;
    same_installed = refl;
  }
  after_dispatch-SameTables c (raises e) = record {
    same_pcs = refl;
    same_dcs = refl;
    same_log = refl;
    same_installed = refl;
  }

  SameTables-trans : {a b c : Core W C} → SameTables a b → SameTables b c → SameTables a c
  SameTables-trans p q = record {
    same_pcs = q.same_pcs ∙ p.same_pcs;
    same_dcs = q.same_dcs ∙ p.same_dcs;
    same_log = q.same_log ∙ p.same_log;
    same_installed = q.same_installed ∙ p.same_installed;
  }

  module _ (to_str : Value → String) where
    pub deliver-SameTables : (c : Core W C) (e : Emission) → SameTables c (deliver to_str c e)
    unfolding deliver
    deliver-SameTables c e = elim (Bool-cases c.installed) [
      | inl on ↦ simp on (
          after_dispatch-SameTables c
            (dispatch to_str c.pcs c.dcs c.log_callback e.kind e.handle e.payload))
      | inr off ↦
          rw off
            (record { same_pcs = refl; same_dcs = refl; same_log = refl; same_installed = refl })
    ]

    deliver_all-SameTables :
        (es : List Emission) (c : Core W C) → SameTables c (deliver_all to_str es c)
    unfolding deliver_all
    deliver_all-SameTables [] c = record {
      same_pcs = refl;
      same_dcs = refl;
      same_log = refl;
      same_installed = refl;
    }
    deliver_all-SameTables (e ∷ es) c =
        SameTables-trans (deliver-SameTables c e) (deliver_all-SameTables es (deliver to_str c e))

    -- A call into the extension, with all the callbacks that it fires, changes no registry.
    pub call-SameTables :
        {A : Type 0} (f : W → Reply W A) (c : Core W C) → SameTables c (call to_str f c).1
    unfolding call
    call-SameTables f c =
        let d = deliver_all-SameTables (f c.world).emits (record c { world = (f c.world).world }) in
        record {
          same_pcs = d.same_pcs;
          same_dcs = d.same_dcs;
          same_log = d.same_log;
          same_installed = d.same_installed;
        }

    pub call-value :
        {A : Type 0} (f : W → Reply W A) (c : Core W C) → (call to_str f c).0 ≡ (f c.world).value
    unfolding call
    call-value f c = refl

    -- Without a dispatcher the callbacks of the extension are dropped.
    pub deliver_all_off :
        (es : List Emission) (c : Core W C) → c.installed ≡ false → deliver_all to_str es c ≡ c
    unfolding deliver_all deliver
    deliver_all_off [] c off = refl
    deliver_all_off (e ∷ es) c off = simp off (deliver_all_off es c off)

    -- What the dispatcher calls comes after what it called before.
    pub deliver-fires :
        (c : Core W C) (e : Emission) (fs : List (Fired C))
        → c.installed ≡ true
        → dispatch to_str c.pcs c.dcs c.log_callback e.kind e.handle e.payload ≡ ok fs
        → deliver to_str c e ≡ record c { fired = c.fired ++ fs }
    unfolding deliver after_dispatch
    deliver-fires c e fs on d = rw (on, d) refl
