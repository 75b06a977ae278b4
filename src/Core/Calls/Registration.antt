-- ===== src/Core/Calls/Registration.antt =====
-- What the `set_on_*` methods of aiolibdatachannel/_core.py leave in the registries, whatever the
-- extension returns and fires in their course.
use aiolibdatachannel.Core.Calls.{true}
use Prim.Native.String.{String}
use aiolibdatachannel.Prelude.{[], length, sym, ℕ, ◌≡◌, refl, ◌∙◌, get_elem?}
use aiolibdatachannel.Errors.{Result, ok, raises}
use aiolibdatachannel.Native.{Native, Value, Name, PcArgs}
use aiolibdatachannel.Core.Registry
use aiolibdatachannel.Core.Machine.{Core, call}
use aiolibdatachannel.Core.Machine.Frame.{SameTables, call-SameTables, call-value}
use aiolibdatachannel.Core.Calls
use aiolibdatachannel.Core.Calls.{made_pc}
use aiolibdatachannel.Core.Registry.Held.{Holds, register-Holds}
use aiolibdatachannel.Core.Calls.Soundness.{with_object-tables}

module _ (N : Native) {C : Type 0} (to_str : Value → String) where
  open N use {World}

  pub dc_set_on-tables :
      (i : ℕ) (n : Name) (f : C) (c : Core World C)
      → SameTables
          (record c { dcs = Registry.set_callback i n f c.dcs })
          (Calls.dc_set_on N to_str i n f c).1
  unfolding Calls.dc_set_on
  dc_set_on-tables i n f c =
      let c' = record c { dcs = Registry.set_callback i n f c.dcs } in
      with_object-tables N to_str (get_elem? c'.dcs.objects i) _ c'
        (λ w. call-SameTables to_str (N.set_callback n w.handle true) c')

  pub pc_set_on-tables :
      (i : ℕ) (n : Name) (f : C) (c : Core World C)
      → SameTables
          (record c { pcs = Registry.set_callback i n f c.pcs })
          (Calls.pc_set_on N to_str i n f c).1
  unfolding Calls.pc_set_on
  pc_set_on-tables i n f c =
      let c' = record c { pcs = Registry.set_callback i n f c.pcs } in
      with_object-tables N to_str (get_elem? c'.pcs.objects i) _ c'
        (λ w. call-SameTables to_str (N.set_callback n w.handle true) c')

  made_pc-Holds :
      (r : Result ℕ × Core World C) (i : ℕ)
      → (made_pc N to_str r).0 ≡ ok i
      → (h : ℕ) × (r.0 ≡ ok h) × Holds (made_pc N to_str r).1.pcs i h []
  unfolding made_pc
  made_pc-Holds (raises e, c) i h = absurd (cc)
  made_pc-Holds (ok h, c) i e =
      let same : length c.pcs.objects ≡ i = cc in (h, refl, rw (← same) (register-Holds h c.pcs))

  -- A new wrapper object is live, with the handle that the extension returned and no callback.
  pub pc_init-Holds :
      (args : PcArgs) (c : Core World C) (i : ℕ)
      → (Calls.pc_init N to_str args c).0 ≡ ok i
      → (h : ℕ) × ((N.create_peer_connection args c.world).value ≡ ok h)
        × Holds (Calls.pc_init N to_str args c).1.pcs i h []
  unfolding Calls.pc_init
  pc_init-Holds args c i e =
      let (h, v, at) = made_pc-Holds (call to_str (N.create_peer_connection args) c) i e in
      (h, sym (call-value to_str (N.create_peer_connection args) c) ∙ v, at)

  -- The dispatcher stays as it is.
  made_pc-on : (r : Result ℕ × Core World C) → (made_pc N to_str r).1.installed ≡ r.1.installed
  unfolding made_pc
  made_pc-on (raises e, c) = refl
  made_pc-on (ok h, c) = refl

  pub pc_init-on :
      (args : PcArgs) (c : Core World C) → (Calls.pc_init N to_str args c).1.installed ≡ c.installed
  unfolding Calls.pc_init
  pc_init-on args c =
      made_pc-on (call to_str (N.create_peer_connection args) c)
      ∙ (call-SameTables to_str (N.create_peer_connection args) c).same_installed
