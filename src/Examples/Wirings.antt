-- ===== src/Examples/Wirings.antt =====
-- A message, a log line and the registration of callbacks on small inputs.
use Prim.Native.String.{String}
use aiolibdatachannel.Prelude.{some, ℕ, ◌≡◌, refl, true, false, [], ◌∷◌}
use aiolibdatachannel.Native.{Name}
use aiolibdatachannel.Core.Machine.{start, call}
use aiolibdatachannel.Core.Calls.{pc_init, init_logger}
use aiolibdatachannel.Core.Calls.Soundness.{exec}
use aiolibdatachannel.Core.Registry.{Registry, empty, register, set_callback}
use aiolibdatachannel.Channel
use aiolibdatachannel.Channel.{DataChannel, text}
use aiolibdatachannel.Peer.{fresh}
use aiolibdatachannel.Logging.Install.{
  chosen_level, by_name, derived, chosen_logger, install_python_logger, IsRouted,
}
use aiolibdatachannel.Logging.Install.Named.{IsFilter, install_python_logger-IsNamed}
use aiolibdatachannel.Wiring.{App, Bound, of_channel, receive_all}
use aiolibdatachannel.Wiring.Closed.{receive_all-closed}
use aiolibdatachannel.Wiring.Messages.{report}
use aiolibdatachannel.Examples.Fake.{fake, shown, connected}

-- The logging module: a logger is its name, and its level is INFO.
abbrev logger_named : String → String
logger_named name = name

abbrev info_threshold : String → ℕ
info_threshold log = 20

install_python_logger-IsNamed_example :
    let e =
      (install_python_logger fake shown logger_named info_threshold
        (λ log. 7)
        (by_name "chat")
        derived
        connected).1 in
    ("chat" ≡ logger_named "chat")
    × IsRouted fake shown logger_named info_threshold (λ (log : String). 7) "chat" e
    × (k : ℕ) × (e ≡ (init_logger fake shown k (some 7) connected).1)
    × IsFilter 20 k
unfolding install_python_logger start exec pc_init call chosen_level init_logger chosen_logger
install_python_logger-IsNamed_example =
    install_python_logger-IsNamed fake shown logger_named info_threshold (λ log. 7) (by_name "chat")
      connected "chat" refl refl

abbrev own : ℕ → Name → Bound
own i n = of_channel i n

-- The dispatcher's tables after a channel with the handle 9 has registered for messages.
abbrev tables : Registry Bound
tables = set_callback 0 Name.on_message (own 0 Name.on_message) (register 9 empty)

abbrev app : App ℕ
app = record {
  core = record (start 4) { dcs = tables };
  loop = record { closed = false; ready = [] };
  pc = record (fresh 0) { data_channels = Channel.fresh 0 1 ∷ [] };
}

abbrev closed_app : App ℕ
closed_app = record app { loop = record { closed = true; ready = [] } }

receive_all-closed_example :
    let b = receive_all shown (report 9 (text "a") ∷ []) closed_app in
    (b.pc ≡ closed_app.pc) × (b.loop ≡ closed_app.loop)
receive_all-closed_example = receive_all-closed shown (report 9 (text "a") ∷ []) closed_app refl
