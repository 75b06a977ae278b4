-- ===== src/Core/Calls/Soundness.antt =====
-- The registries of aiolibdatachannel/_core.py stay consistent through every method.
use Prim.Native.String.{String}
use aiolibdatachannel.Prelude.{
  ℕ, ◌≡◌, refl, sym, ◌∙◌, inl, inr, true, List, Option, none, some, Bool-cases, Option-cases,
  get_elem?,
}
use aiolibdatachannel.Prelude.Dict
use aiolibdatachannel.Errors.{Result, ok, raises}
use aiolibdatachannel.Native.{Native, Reply, Value, Name, PcArgs, DcArgs}
use aiolibdatachannel.Core.Registry
use aiolibdatachannel.Core.Registry.{Registry, Wrapper}
use aiolibdatachannel.Core.Registry.Invariant.{
  IsConsistent, register-IsConsistent, set_callback-IsConsistent, release-IsConsistent,
  release_absent, release_destroyed,
}
use aiolibdatachannel.Core.Machine.{Core, call}
use aiolibdatachannel.Core.Machine.Frame.{SameTables, call-SameTables, SameTables-refl, call-value}
use aiolibdatachannel.Core.Calls

-- The methods and functions that change the state, with their arguments.
pub data Method (C : Type 0) : Type 0 where
  new_pc : PcArgs → Method C
  new_dc : ℕ → Method C
  pc_on : ℕ → Name → C → Method C
  dc_on : ℕ → Name → C → Method C
  pc_delete : ℕ → Method C
  dc_delete : ℕ → Method C
  pc_shut : ℕ → Method C
  dc_shut : ℕ → Method C
  local_sdp : ℕ → Option String → Method C
  remote_sdp : ℕ → String → String → Method C
  candidate : ℕ → String → String → Method C
  channel : ℕ → DcArgs → Method C
  bytes_sent : ℕ → List ℕ → Method C
  text_sent : ℕ → String → Method C
  threshold : ℕ → ℕ → Method C
  logger : ℕ → Option C → Method C
  loaded : Method C
  cleaned : Method C
  pool_size : ℕ → Method C

module _ (N : Native) {C : Type 0} (to_str : Value → String) where
  open N use {World}

  pub record IsSound (c : Core World C) : Type 0 where
    pub pcs_ok : IsConsistent c.pcs
    pub dcs_ok : IsConsistent c.dcs

  pub same-IsSound : {c d : Core World C} → SameTables c d → IsSound c → IsSound d
  same-IsSound s v = record { pcs_ok = rw s.same_pcs v.pcs_ok; dcs_ok = rw s.same_dcs v.dcs_ok }

  call-IsSound :
      {A : Type 0} (f : World → Reply World A) (c : Core World C)
      → IsSound c
      → IsSound (call to_str f c).1
  call-IsSound f c = same-IsSound (call-SameTables to_str f c)

  -- `destroy` takes the object out of its registry, whatever the extension does, and is nothing on
  -- an object that is destroyed already.
  pub pc_destroy-tables :
      (i : ℕ) (c : Core World C)
      → SameTables (record c { pcs = Registry.release i c.pcs }) (Calls.pc_destroy N to_str i c).1
  unfolding Calls.pc_destroy
  pc_destroy-tables i c = elim (Option-cases (get_elem? c.pcs.objects i)) [
    | inl e ↦ simp (e, release_absent i c.pcs e) (SameTables-refl c)
    | inr (w, e) ↦ elim (Bool-cases w.destroyed) [
      | inl d ↦ simp (e, d, release_destroyed i c.pcs w e d) (SameTables-refl c)
      | inr d ↦ simp (e, d) (call-SameTables to_str _ _)
    ]
  ]

  pub dc_destroy-tables :
      (i : ℕ) (c : Core World C)
      → SameTables (record c { dcs = Registry.release i c.dcs }) (Calls.dc_destroy N to_str i c).1
  unfolding Calls.dc_destroy
  dc_destroy-tables i c = elim (Option-cases (get_elem? c.dcs.objects i)) [
    | inl e ↦ simp (e, release_absent i c.dcs e) (SameTables-refl c)
    | inr (w, e) ↦ elim (Bool-cases w.destroyed) [
      | inl d ↦ simp (e, d, release_destroyed i c.dcs w e d) (SameTables-refl c)
      | inr d ↦ simp (e, d) (call-SameTables to_str _ _)
    ]
  ]

  -- What a method that goes through an object does to the tables: nothing.
  pub with_object-tables :
      {A : Type 0} (o : Option (Wrapper C)) (f : Wrapper C → Core World C → Result A × Core World C)
      (c : Core World C)
      → ((w : Wrapper C) → SameTables c (f w c).1)
      → SameTables c (Calls.with_object o f c).1
  with_object-tables none f c h = SameTables-refl c
  with_object-tables (some w) f c h = h w

  -- The state after the method, whether it returned or raised.
  unfoldable pub exec : Method C → Core World C → Core World C
  exec (new_pc args) c = (Calls.pc_init N to_str args c).1
  exec (new_dc h) c = (Calls.dc_init N to_str h c).1
  exec (pc_on i n f) c = (Calls.pc_set_on N to_str i n f c).1
  exec (dc_on i n f) c = (Calls.dc_set_on N to_str i n f c).1
  exec (pc_delete i) c = (Calls.pc_destroy N to_str i c).1
  exec (dc_delete i) c = (Calls.dc_destroy N to_str i c).1
  exec (pc_shut i) c = (Calls.pc_close N to_str i c).1
  exec (dc_shut i) c = (Calls.dc_close N to_str i c).1
  exec (local_sdp i t) c = (Calls.set_local_description N to_str i t c).1
  exec (remote_sdp i s t) c = (Calls.set_remote_description N to_str i s t c).1
  exec (candidate i s m) c = (Calls.add_remote_candidate N to_str i s m c).1
  exec (channel i args) c = (Calls.create_data_channel N to_str i args c).1
  exec (bytes_sent i d) c = (Calls.send_bytes N to_str i d c).1
  exec (text_sent i d) c = (Calls.send_text N to_str i d c).1
  exec (threshold i n) c = (Calls.set_buffered_amount_low_threshold N to_str i n c).1
  exec (logger l f) c = (Calls.init_logger N to_str l f c).1
  exec loaded c = (Calls.preload N to_str c).1
  exec cleaned c = (Calls.cleanup N to_str c).1
  exec (pool_size n) c = (Calls.set_thread_pool_size N to_str n c).1

  -- A handle that the extension hands out is not one that a live wrapper still has.
  abbrev pub IsFresh : Method C → Core World C → Type 0
  IsFresh (new_pc args) c =
      (h : ℕ) → (N.create_peer_connection args c.world).value ≡ ok h → Dict.get h c.pcs.table ≡ none
  IsFresh (new_dc h) c = Dict.get h c.dcs.table ≡ none
  IsFresh m c = Unit {0}

  made_pc-IsSound :
      (r : Result ℕ) (c : Core World C)
      → ((h : ℕ) → r ≡ ok h → Dict.get h c.pcs.table ≡ none)
      → IsSound c
      → IsSound (Calls.made_pc N to_str (r, c)).1
  unfolding Calls.made_pc
  made_pc-IsSound (ok h) c fresh v = record {
    pcs_ok = register-IsConsistent h c.pcs v.pcs_ok (fresh h refl);
    dcs_ok = v.dcs_ok;
  }
  made_pc-IsSound (raises e) c fresh v = v

  through-IsSound :
      {A : Type 0} (o : Option (Wrapper C)) (f : ℕ → World → Reply World A) (c : Core World C)
      → IsSound c
      → IsSound (Calls.with_object o (λ w. call to_str (f w.handle)) c).1
  through-IsSound o f c v =
      same-IsSound (with_object-tables o _ c (λ w. call-SameTables to_str (f w.handle) c)) v

  unless_destroyed-IsSound :
      (o : Option (Wrapper C)) (f : ℕ → World → Reply World (Unit {0})) (c : Core World C)
      → IsSound c
      → IsSound (Calls.with_object o (Calls.unless_destroyed N to_str f) c).1
  unfolding Calls.unless_destroyed
  unless_destroyed-IsSound none f c v = v
  unless_destroyed-IsSound (some w) f c v = elim (Bool-cases w.destroyed) [
    | inl d ↦ rw d v
    | inr d ↦ rw d (call-IsSound (f w.handle) c v)
  ]

  -- Every method keeps both registries consistent, the calls of the dispatcher in its course
  -- included, if the extension hands out no handle that a live wrapper still has.
  pub exec-IsSound :
      (m : Method C) (c : Core World C) → IsFresh m c → IsSound c → IsSound (exec m c)
  unfolding exec Calls.pc_init Calls.dc_init Calls.pc_set_on Calls.dc_set_on Calls.pc_close
      Calls.dc_close Calls.set_local_description Calls.set_remote_description
      Calls.add_remote_candidate Calls.create_data_channel Calls.send_bytes Calls.send_text
      Calls.set_buffered_amount_low_threshold Calls.init_logger Calls.preload Calls.cleanup
      Calls.set_thread_pool_size
  exec-IsSound (new_pc args) c fresh v =
      let r = call to_str (N.create_peer_connection args) c in
      made_pc-IsSound r.0 r.1
        (λ h e.
          rw ((call-SameTables to_str (N.create_peer_connection args) c).same_pcs)
            (fresh h (sym (call-value to_str (N.create_peer_connection args) c) ∙ e)))
        (call-IsSound (N.create_peer_connection args) c v)
  exec-IsSound (new_dc h) c fresh v = record {
    pcs_ok = v.pcs_ok;
    dcs_ok = register-IsConsistent h c.dcs v.dcs_ok fresh;
  }
  exec-IsSound (pc_on i n f) c fresh v =
      let c' = record c { pcs = Registry.set_callback i n f c.pcs } in
      through-IsSound (get_elem? c'.pcs.objects i) (λ h. N.set_callback n h true) c'
        (record { pcs_ok = set_callback-IsConsistent i n f c.pcs v.pcs_ok; dcs_ok = v.dcs_ok })
  exec-IsSound (dc_on i n f) c fresh v =
      let c' = record c { dcs = Registry.set_callback i n f c.dcs } in
      through-IsSound (get_elem? c'.dcs.objects i) (λ h. N.set_callback n h true) c'
        (record { pcs_ok = v.pcs_ok; dcs_ok = set_callback-IsConsistent i n f c.dcs v.dcs_ok })
  exec-IsSound (pc_delete i) c fresh v =
      same-IsSound (pc_destroy-tables i c)
        (record { pcs_ok = release-IsConsistent i c.pcs v.pcs_ok; dcs_ok = v.dcs_ok })
  exec-IsSound (dc_delete i) c fresh v =
      same-IsSound (dc_destroy-tables i c)
        (record { pcs_ok = v.pcs_ok; dcs_ok = release-IsConsistent i c.dcs v.dcs_ok })
  exec-IsSound (pc_shut i) c fresh v =
      unless_destroyed-IsSound (get_elem? c.pcs.objects i) N.close_peer_connection c v
  exec-IsSound (dc_shut i) c fresh v =
      unless_destroyed-IsSound (get_elem? c.dcs.objects i) N.close_dc c v
  exec-IsSound (local_sdp i t) c fresh v = through-IsSound (get_elem? c.pcs.objects i) _ c v
  exec-IsSound (remote_sdp i s t) c fresh v = through-IsSound (get_elem? c.pcs.objects i) _ c v
  exec-IsSound (candidate i s m) c fresh v = through-IsSound (get_elem? c.pcs.objects i) _ c v
  exec-IsSound (channel i args) c fresh v = through-IsSound (get_elem? c.pcs.objects i) _ c v
  exec-IsSound (bytes_sent i d) c fresh v = through-IsSound (get_elem? c.dcs.objects i) _ c v
  exec-IsSound (text_sent i d) c fresh v = through-IsSound (get_elem? c.dcs.objects i) _ c v
  exec-IsSound (threshold i n) c fresh v = through-IsSound (get_elem? c.dcs.objects i) _ c v
  exec-IsSound (logger l f) c fresh v =
      call-IsSound _ (record c { log_callback = f })
        (record { pcs_ok = v.pcs_ok; dcs_ok = v.dcs_ok })
  exec-IsSound loaded c fresh v = call-IsSound _ c v
  exec-IsSound cleaned c fresh v = call-IsSound _ c v
  exec-IsSound (pool_size n) c fresh v = call-IsSound _ c v
