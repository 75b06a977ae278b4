-- ===== src/Wiring/Messages.antt =====
-- The way of a message through the layers of aiolibdatachannel/, from the extension to the receive
-- queue of its channel.
use Prim.Native.String.{String}
use mathlib.Core.List.{append-nil, append_assoc}
use aiolibdatachannel.Prelude.{
  ℕ, ◌≡◌, refl, ap, ◌∙◌, true, false, List, [], ◌∷◌, ◌++◌, map, some, arith, get_elem?,
  get_elem?-set, set, set-set, set_same,
}
use aiolibdatachannel.Native.{Native, Emission, Value, Name, bool, str, bytes}
use aiolibdatachannel.Loop.{EventLoop, schedule}
use aiolibdatachannel.Core.Registry.{callback_kind}
use aiolibdatachannel.Core.Registry.Invariant.{IsConsistent}
use aiolibdatachannel.Core.Dispatch.Routing.{IsHeld, dispatch-fires, fits, passed}
use aiolibdatachannel.Core.Machine.Frame.{deliver-fires}
use aiolibdatachannel.Channel
use aiolibdatachannel.Channel.{DataChannel, Message, text, messaged, handle_message}
use aiolibdatachannel.Channel.Api.Receive.{handle_all}
use aiolibdatachannel.Wiring.{
  of_channel, LoopCall, channel_call, App, invoke, invoke_bound, channel_callback, invoke_all,
  receive, receive_all, run_loop_call, run_calls, spin, run_channel,
}

-- What the extension reports for a message: the data, and if it is text.
abbrev pub payload : Message → List Value
payload (Message.bytes d) = bytes d ∷ bool false ∷ []
payload (text t) = str t ∷ bool true ∷ []

abbrev pub report : ℕ → Message → Emission
report h m = record { kind = 10; handle = h; payload = payload m }

abbrev arrival : ℕ → Message → LoopCall
arrival i m = channel_call i (messaged m)

module _ (loop : EventLoop LoopCall) where
  -- The call that the channel's own callback puts onto an open loop.
  invoke-payload :
      (i : ℕ) (m : Message)
      → loop.closed ≡ false
      → invoke
          (record {
            callback = of_channel i Name.on_message;
            args = passed Name.on_message (payload m);
          })
          loop
        ≡ record loop { ready = loop.ready ++ arrival i m ∷ [] }
  unfolding invoke invoke_bound channel_callback Channel.cb_message schedule
  invoke-payload i (Message.bytes d) up = rw up refl
  invoke-payload i (text t) up = rw up refl

  fits-payload : (m : Message) → fits Name.on_message (payload m) ≡ true
  fits-payload (Message.bytes d) = refl
  fits-payload (text t) = refl

module _ {W : Type 0} (to_str : Value → String) where
  -- The dispatcher calls the channel's own callback, which puts a call onto the loop.
  receive-report :
      (h i : ℕ) (m : Message) (a : App W)
      → a.core.installed ≡ true
      → a.loop.closed ≡ false
      → IsConsistent a.core.dcs
      → IsHeld a.core.dcs h Name.on_message (of_channel i Name.on_message)
      → receive to_str (report h m) a ≡ record a {
        core = record (a.core) { fired = [] };
        loop = record (a.loop) { ready = a.loop.ready ++ arrival i m ∷ [] };
      }
  unfolding receive callback_kind invoke_all
  receive-report h i m a on up v held =
      rw
        (deliver-fires to_str (record (a.core) { fired = [] }) (report h m) _ on
          (dispatch-fires to_str a.core.pcs a.core.dcs a.core.log_callback Name.on_message h
            (payload m) (of_channel i Name.on_message) v (fits-payload a.loop m) held))
        (rw (invoke-payload a.loop i m up) refl)

  receive_all-report :
      (h i : ℕ) (ms : List Message) (a : App W)
      → a.core.installed ≡ true
      → a.core.fired ≡ []
      → a.loop.closed ≡ false
      → IsConsistent a.core.dcs
      → IsHeld a.core.dcs h Name.on_message (of_channel i Name.on_message)
      → receive_all to_str (map (report h) ms) a
        ≡ record a { loop = record (a.loop) { ready = a.loop.ready ++ map (arrival i) ms } }
  unfolding receive_all
  receive_all-report h i [] a on none_yet up v held = rw (append-nil a.loop.ready) refl
  receive_all-report h i (m ∷ ms) a on none_yet up v held =
      ap (receive_all to_str (map (report h) ms)) (receive-report h i m a on up v held)
      ∙ receive_all-report h i ms _ on refl up v held
      ∙ rw (append_assoc a.loop.ready (arrival i m ∷ []) (map (arrival i) ms), none_yet) refl

module _ (N : Native) (to_str : Value → String) where
  open N use {World}

  abbrev with_channel : ℕ → DataChannel → App World → App World
  with_channel i dc a = record a {
    pc = record (a.pc) { data_channels = set a.pc.data_channels i dc };
  }

  run_calls-arrival :
      (i : ℕ) (ms : List Message) (dc : DataChannel) (a : App World)
      → get_elem? a.pc.data_channels i ≡ some dc
      → run_calls N to_str (map (arrival i) ms) a ≡ with_channel i (handle_all ms dc) a
  unfolding run_calls run_loop_call run_channel Channel.run_call handle_all
  run_calls-arrival i [] dc a there = rw (set_same _ i dc there) refl
  run_calls-arrival i (m ∷ ms) dc a there =
      let d = handle_message m dc in
      let step : run_loop_call N to_str (arrival i m) a ≡ with_channel i d a = rw there refl in
      ap (run_calls N to_str (map (arrival i) ms)) step
      ∙ run_calls-arrival i ms d (with_channel i d a)
          (ground (arith, get_elem?-set a.pc.data_channels i i dc d there))
      ∙ rw (set-set a.pc.data_channels i d (handle_all ms d)) refl

  run_calls-append :
      (xs ys : List LoopCall) (a : App World)
      → run_calls N to_str (xs ++ ys) a ≡ run_calls N to_str ys (run_calls N to_str xs a)
  unfolding run_calls
  run_calls-append [] ys a = refl
  run_calls-append (x ∷ xs) ys a = run_calls-append xs ys (run_loop_call N to_str x a)

  -- The messages that the extension reports for the handle of a live channel, one after the other,
  -- with an open loop and no callback of an earlier call left to make, are, once the loop has run,
  -- all in the receive queue of that channel the way `_handle_message` puts them there, in the order
  -- of the reports and after what the loop had to do before; nothing else about the connection and
  -- its other channels differs from what the loop would have left without the messages.
  pub spin-report :
      (h i : ℕ) (ms : List Message) (dc : DataChannel) (a : App World)
      → a.core.installed ≡ true
      → a.core.fired ≡ []
      → a.loop.closed ≡ false
      → IsConsistent a.core.dcs
      → IsHeld a.core.dcs h Name.on_message (of_channel i Name.on_message)
      → get_elem? (spin N to_str a).pc.data_channels i ≡ some dc
      → (spin N to_str (receive_all to_str (map (report h) ms) a)).pc
        ≡ record ((spin N to_str a).pc) {
          data_channels = set (spin N to_str a).pc.data_channels i (handle_all ms dc);
        }
  unfolding spin
  spin-report h i ms dc a on none_yet up v held there =
      let idle = record a { loop = record (a.loop) { ready = [] } } in
      ap (λ b. (spin N to_str b).pc) (receive_all-report to_str h i ms a on none_yet up v held)
      ∙ ap (λ b. b.pc) (run_calls-append a.loop.ready (map (arrival i) ms) idle)
      ∙ ap (λ b. b.pc) (run_calls-arrival i ms dc (spin N to_str a) there)
