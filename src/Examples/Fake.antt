-- ===== src/Examples/Fake.antt =====
-- An extension that accepts every call, counts the handles that it hands out and reports a state
-- change of the connection 4 whenever a remote description is set; with it, states to run on.
use Prim.Native.String.{String}
use aiolibdatachannel.Prelude.{ℕ, suc, ◌≡◌, refl, true, false, [], ◌∷◌, none, some, get_elem?}
use aiolibdatachannel.Prelude.Dict
use aiolibdatachannel.Errors.{ok}
use aiolibdatachannel.Native.{Native, Reply, Value, int, PcArgs}
use aiolibdatachannel.Core.Registry.{Wrapper, register}
use aiolibdatachannel.Core.Registry.Invariant.{empty-IsConsistent}
use aiolibdatachannel.Core.Machine.{Core, start, call}
use aiolibdatachannel.Core.Calls
use aiolibdatachannel.Core.Calls.Soundness.{IsSound, new_pc, new_dc, exec, exec-IsSound}

abbrev pub accept : {A : Type 0} → A → ℕ → Reply ℕ A
accept a world = record { value = ok a; emits = []; world = world }

abbrev pub hand_out : ℕ → Reply ℕ ℕ
hand_out world = record { value = ok world; emits = []; world = suc world }

abbrev pub fake : Native
fake = record {
  World = ℕ;
  create_peer_connection = λ args. hand_out;
  close_peer_connection = λ h. accept tt;
  delete_peer_connection = λ h. accept tt;
  set_callback = λ n h on. accept tt;
  set_local_description = λ h t. accept tt;
  set_remote_description = λ h s t w. record {
    value = ok tt;
    emits = record { kind = 2; handle = 4; payload = int 1 ∷ [] } ∷ [];
    world = w;
  };
  add_remote_candidate = λ h c m. accept tt;
  get_local_description = λ h w. ok (some "v=0");
  get_local_description_type = λ h w. ok (some "offer");
  get_remote_description = λ h w. ok none;
  create_data_channel = λ h args. hand_out;
  delete_data_channel = λ h. accept tt;
  close_dc = λ h. accept tt;
  send_bytes = λ h d. accept tt;
  send_text = λ h d. accept tt;
  is_open = λ h w. true;
  is_closed = λ h w. false;
  buffered_amount = λ h w. ok 1;
  max_message_size = λ h w. ok 65536;
  set_buffered_amount_low_threshold = λ h n. accept tt;
  get_dc_label = λ h w. ok (some "chat");
  get_dc_protocol = λ h w. ok none;
  get_dc_stream = λ h w. ok 0;
  init_logger = λ l on. accept tt;
  preload = accept tt;
  cleanup = accept tt;
  set_thread_pool_size = λ n. accept n;
}

abbrev pub shown : Value → String
shown v = "message"

abbrev pub pc_args : PcArgs
pc_args = record {
  ice_servers = [];
  port_range_begin = 0;
  port_range_end = 0;
  mtu = 0;
  max_message_size = 0;
  enable_ice_tcp = false;
  disable_auto_negotiation = false;
  certificate_type = 0;
  ice_transport_policy = 0;
}

-- The callbacks are numbers. The next handle is 4.
abbrev pub imported : Core ℕ ℕ
imported = start 4

pub imported-IsSound : IsSound fake shown imported
unfolding start
imported-IsSound = record { pcs_ok = empty-IsConsistent; dcs_ok = empty-IsConsistent }

-- One connection has been made; it is the object 0.
abbrev pub connected : Core ℕ ℕ
connected = exec fake shown (new_pc pc_args) imported

-- The remote side has opened a channel; its wrapper is the object 0 of its registry.
abbrev pub with_channel : Core ℕ ℕ
with_channel = exec fake shown (new_dc 9) connected

pub connected-IsSound : IsSound fake shown connected
unfolding Dict.get start
connected-IsSound = exec-IsSound fake shown (new_pc pc_args) imported (λ h e. refl) imported-IsSound

abbrev pub live : Wrapper ℕ
live = record { handle = 4; callbacks = []; destroyed = false }

pub connected_live : get_elem? connected.pcs.objects 0 ≡ some live
unfolding exec Calls.pc_init register start call
connected_live = refl
