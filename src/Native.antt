-- ===== src/Native.antt =====
-- What the wrapper calls of the compiled extension `_native` (src/_aiolibdatachannel/bindings.cpp
-- over libdatachannel, which is not part of the repository): a parameter of every other module. A
-- call gets the extension's state and returns the new one, its result or exception, and the
-- callbacks that it fires before it returns.
use Prim.Native.String.{String}
use aiolibdatachannel.Prelude.{ℕ, Bool, List, Option}
use aiolibdatachannel.Errors.{Result}

-- What a callback carries.
pub data Value : Type 0 where
  int : ℕ → Value
  str : String → Value
  bytes : List ℕ → Value
  bool : Bool → Value

-- One call of the dispatcher: `(kind, handle, *payload)`.
pub record Emission : Type 0 where
  pub kind : ℕ
  pub handle : ℕ
  pub payload : List Value

pub record Reply (W A : Type 0) : Type 0 where
  pub value : Result A
  pub emits : List Emission
  pub world : W

-- The keys of a wrapper's `_callbacks`.
pub data Name : Type 0 where
  local_description local_candidate state_change ice_state_change : Name
  gathering_state_change signaling_state_change data_channel : Name
  on_open on_closed on_error on_message buffered_amount_low : Name

-- The keyword arguments of `create_peer_connection`.
pub record PcArgs : Type 0 where
  pub ice_servers : List (List ℕ)
  pub port_range_begin : ℕ
  pub port_range_end : ℕ
  pub mtu : ℕ
  pub max_message_size : ℕ
  pub enable_ice_tcp : Bool
  pub disable_auto_negotiation : Bool
  pub certificate_type : ℕ
  pub ice_transport_policy : ℕ

-- The keyword arguments of `create_data_channel`.
pub record DcArgs : Type 0 where
  pub label : String
  pub unordered : Bool
  pub unreliable : Bool
  pub max_packet_lifetime : ℕ
  pub max_retransmits : ℕ
  pub protocol : String
  pub negotiated : Bool
  pub manual_stream : Bool
  pub stream : ℕ

pub record Native : Type 1 where
  pub World : Type 0
  pub create_peer_connection : PcArgs → World → Reply World ℕ
  pub close_peer_connection : ℕ → World → Reply World (Unit {0})
  pub delete_peer_connection : ℕ → World → Reply World (Unit {0})
  -- The twelve `set_*_callback` functions.
  pub set_callback : Name → ℕ → Bool → World → Reply World (Unit {0})
  pub set_local_description : ℕ → Option String → World → Reply World (Unit {0})
  pub set_remote_description : ℕ → String → String → World → Reply World (Unit {0})
  pub add_remote_candidate : ℕ → String → Option String → World → Reply World (Unit {0})
  pub get_local_description : ℕ → World → Result (Option String)
  pub get_local_description_type : ℕ → World → Result (Option String)
  pub get_remote_description : ℕ → World → Result (Option String)
  pub create_data_channel : ℕ → DcArgs → World → Reply World ℕ
  pub delete_data_channel : ℕ → World → Reply World (Unit {0})
  pub close_dc : ℕ → World → Reply World (Unit {0})
  pub send_bytes : ℕ → List ℕ → World → Reply World (Unit {0})
  pub send_text : ℕ → String → World → Reply World (Unit {0})
  pub is_open : ℕ → World → Bool
  pub is_closed : ℕ → World → Bool
  pub buffered_amount : ℕ → World → Result ℕ
  pub max_message_size : ℕ → World → Result ℕ
  pub set_buffered_amount_low_threshold : ℕ → ℕ → World → Reply World (Unit {0})
  pub get_dc_label : ℕ → World → Result (Option String)
  pub get_dc_protocol : ℕ → World → Result (Option String)
  pub get_dc_stream : ℕ → World → Result ℕ
  pub init_logger : ℕ → Bool → World → Reply World (Unit {0})
  pub preload : World → Reply World (Unit {0})
  pub cleanup : World → Reply World (Unit {0})
  pub set_thread_pool_size : ℕ → World → Reply World ℕ
