-- ===== src/Core/Calls.antt =====
-- The methods of the classes PeerConnection and DataChannel of aiolibdatachannel/_core.py, and its
-- functions. An object is named by its place in its registry.
pub mod Soundness
pub mod Registration
use Prim.Native.String.{String}
use aiolibdatachannel.Prelude.{
  ℕ, Bool, true, false, List, [], ◌∷◌, ◌++◌, Option, none, some, length, get_elem?, if◌then◌else◌,
}
use aiolibdatachannel.Errors.{Exc, other_error, Result, ok, raises}
use aiolibdatachannel.Native.{Native, Reply, Emission, Value, Name, PcArgs, DcArgs}
use aiolibdatachannel.Core.Registry
use aiolibdatachannel.Core.Registry.{Registry, Wrapper}
use aiolibdatachannel.Core.Machine.{Core, call, suppress}

-- `mid if mid else None`.
unfoldable pub or_none : String → Option String
or_none String.[] = none
or_none (String.◌∷◌ c s) = some (String.◌∷◌ c s)

abbrev pub is_some {ℓ} : {A : Type ℓ} → Option A → Bool
is_some none = false
is_some (some a) = true

module _ {C : Type 0} where
  -- The object is one that the registry has made, so the first case does not arise in Python.
  abbrev pub with_object :
      {S A : Type 0} → Option (Wrapper C) → (Wrapper C → S → Result A × S) → S → Result A × S
  with_object none f c = (raises other_error, c)
  with_object (some w) f c = f w c

  abbrev pub handle_of : Option (Wrapper C) → ℕ
  handle_of none = 0
  handle_of (some w) = w.handle

module _ (N : Native) {C : Type 0} (to_str : Value → String) where
  open N use {World}

  -- What a method does with `self._handle`.
  abbrev pub pc :
      {A : Type 0} → ℕ → (ℕ → World → Reply World A) → Core World C → Result A × Core World C
  pc i f c = with_object (get_elem? c.pcs.objects i) (λ w. call to_str (f w.handle)) c

  abbrev pub dc :
      {A : Type 0} → ℕ → (ℕ → World → Reply World A) → Core World C → Result A × Core World C
  dc i f c = with_object (get_elem? c.dcs.objects i) (λ w. call to_str (f w.handle)) c

  -- `PeerConnection.__init__`: the new object's place, unless the extension raises.
  made_pc : Result ℕ × Core World C → Result ℕ × Core World C
  made_pc (raises e, c) = (raises e, c)
  made_pc (ok handle, c) =
      (ok (length c.pcs.objects), record c { pcs = Registry.register handle c.pcs })

  unfoldable pub pc_init : PcArgs → Core World C → Result ℕ × Core World C
  unfolding made_pc
  pc_init args c = made_pc (call to_str (N.create_peer_connection args) c)

  -- `DataChannel.__init__`.
  unfoldable pub dc_init : ℕ → Core World C → ℕ × Core World C
  dc_init handle c = (length c.dcs.objects, record c { dcs = Registry.register handle c.dcs })

  -- The `set_on_*` methods.
  unfoldable pub pc_set_on : ℕ → Name → C → Core World C → Result (Unit {0}) × Core World C
  pc_set_on i n callback c =
      pc i (λ h. N.set_callback n h true)
        (record c { pcs = Registry.set_callback i n callback c.pcs })

  unfoldable pub dc_set_on : ℕ → Name → C → Core World C → Result (Unit {0}) × Core World C
  dc_set_on i n callback c =
      dc i (λ h. N.set_callback n h true)
        (record c { dcs = Registry.set_callback i n callback c.dcs })

  unfoldable pub set_local_description :
      ℕ → Option String → Core World C → Result (Unit {0}) × Core World C
  set_local_description i type = pc i (λ h. N.set_local_description h type)

  unfoldable pub set_remote_description :
      ℕ → String → String → Core World C → Result (Unit {0}) × Core World C
  set_remote_description i sdp type = pc i (λ h. N.set_remote_description h sdp type)

  unfoldable pub add_remote_candidate :
      ℕ → String → String → Core World C → Result (Unit {0}) × Core World C
  unfolding or_none
  add_remote_candidate i candidate mid =
      pc i (λ h. N.add_remote_candidate h candidate (or_none mid))

  unfoldable pub create_data_channel : ℕ → DcArgs → Core World C → Result ℕ × Core World C
  create_data_channel i args = pc i (λ h. N.create_data_channel h args)

  unfoldable pub send_bytes : ℕ → List ℕ → Core World C → Result (Unit {0}) × Core World C
  send_bytes i d = dc i (λ h. N.send_bytes h d)

  unfoldable pub send_text : ℕ → String → Core World C → Result (Unit {0}) × Core World C
  send_text i d = dc i (λ h. N.send_text h d)

  unfoldable pub set_buffered_amount_low_threshold :
      ℕ → ℕ → Core World C → Result (Unit {0}) × Core World C
  set_buffered_amount_low_threshold i amount =
      dc i (λ h. N.set_buffered_amount_low_threshold h amount)

  abbrev pub pc_handle : ℕ → Core World C → ℕ
  pc_handle i c = handle_of (get_elem? c.pcs.objects i)

  abbrev pub dc_handle : ℕ → Core World C → ℕ
  dc_handle i c = handle_of (get_elem? c.dcs.objects i)

  -- The methods that only read.
  unfoldable pub is_open : ℕ → Core World C → Bool
  is_open i c = N.is_open (dc_handle i c) c.world

  unfoldable pub is_closed : ℕ → Core World C → Bool
  is_closed i c = N.is_closed (dc_handle i c) c.world

  unfoldable pub buffered_amount : ℕ → Core World C → Result ℕ
  buffered_amount i c = N.buffered_amount (dc_handle i c) c.world

  unfoldable pub max_message_size : ℕ → Core World C → Result ℕ
  max_message_size i c = N.max_message_size (dc_handle i c) c.world

  unfoldable pub label : ℕ → Core World C → Result (Option String)
  label i c = N.get_dc_label (dc_handle i c) c.world

  unfoldable pub protocol : ℕ → Core World C → Result (Option String)
  protocol i c = N.get_dc_protocol (dc_handle i c) c.world

  unfoldable pub stream : ℕ → Core World C → Result ℕ
  stream i c = N.get_dc_stream (dc_handle i c) c.world

  unfoldable pub get_local_description : ℕ → Core World C → Result (Option String)
  get_local_description i c = N.get_local_description (pc_handle i c) c.world

  unfoldable pub get_local_description_type : ℕ → Core World C → Result (Option String)
  get_local_description_type i c = N.get_local_description_type (pc_handle i c) c.world

  unfoldable pub get_remote_description : ℕ → Core World C → Result (Option String)
  get_remote_description i c = N.get_remote_description (pc_handle i c) c.world

  -- `close` does nothing on a destroyed object.
  unless_destroyed :
      (ℕ → World → Reply World (Unit {0}))
      → Wrapper C
      → Core World C
      → Result (Unit {0}) × Core World C
  unless_destroyed f w c = if w.destroyed then (ok tt, c) else call to_str (f w.handle) c

  unfoldable pub pc_close : ℕ → Core World C → Result (Unit {0}) × Core World C
  unfolding unless_destroyed
  pc_close i c =
      with_object (get_elem? c.pcs.objects i) (unless_destroyed N.close_peer_connection) c

  unfoldable pub dc_close : ℕ → Core World C → Result (Unit {0}) × Core World C
  unfolding unless_destroyed
  dc_close i c = with_object (get_elem? c.dcs.objects i) (unless_destroyed N.close_dc) c

  -- `destroy`: the object leaves its registry and drops its callbacks before the extension deletes
  -- the handle.
  pc_delete : ℕ → Wrapper C → Core World C → Result (Unit {0}) × Core World C
  pc_delete i w c =
      if w.destroyed
      then (ok tt, c)
      else call to_str (N.delete_peer_connection w.handle)
          (record c { pcs = Registry.release i c.pcs })

  unfoldable pub pc_destroy : ℕ → Core World C → Result (Unit {0}) × Core World C
  unfolding pc_delete
  pc_destroy i c = with_object (get_elem? c.pcs.objects i) (pc_delete i) c

  dc_delete : ℕ → Wrapper C → Core World C → Result (Unit {0}) × Core World C
  dc_delete i w c =
      if w.destroyed
      then (ok tt, c)
      else call to_str (N.delete_data_channel w.handle)
          (record c { dcs = Registry.release i c.dcs })

  unfoldable pub dc_destroy : ℕ → Core World C → Result (Unit {0}) × Core World C
  unfolding dc_delete
  dc_destroy i c = with_object (get_elem? c.dcs.objects i) (dc_delete i) c

  -- `__del__`: `destroy`, whatever it raises.
  unfoldable pub pc_del : ℕ → Core World C → Core World C
  pc_del i c = suppress (pc_destroy i c)

  unfoldable pub dc_del : ℕ → Core World C → Core World C
  dc_del i c = suppress (dc_destroy i c)

  -- The module's functions.
  unfoldable pub init_logger : ℕ → Option C → Core World C → Result (Unit {0}) × Core World C
  init_logger level callback c =
      call to_str (N.init_logger level (is_some callback)) (record c { log_callback = callback })

  unfoldable pub preload : Core World C → Result (Unit {0}) × Core World C
  preload = call to_str N.preload

  unfoldable pub cleanup : Core World C → Result (Unit {0}) × Core World C
  cleanup = call to_str N.cleanup

  unfoldable pub set_thread_pool_size : ℕ → Core World C → Result ℕ × Core World C
  set_thread_pool_size count = call to_str (N.set_thread_pool_size count)
