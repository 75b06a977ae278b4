-- ===== src/Examples/Programs.antt =====
-- A whole program on a small input: a connection is made, the remote side opens a channel, and
-- messages come for it.
use aiolibdatachannel.Prelude.{◌+◌, ◌≤◌, ℕ, List, ◌≡◌, refl, false, [], ◌∷◌, map, set}
use aiolibdatachannel.Prelude.Dict
use aiolibdatachannel.Native.{int, Emission}
use aiolibdatachannel.Config.{RtcConfiguration, peer_args, server_urls}
use aiolibdatachannel.Errors.{ok}
use aiolibdatachannel.Loop.{init, set_slot, EventLoop, schedule}
use aiolibdatachannel.Core.Machine.{Core, start, call, deliver}
use aiolibdatachannel.Core.Calls.Soundness.{exec}
use aiolibdatachannel.Core.Calls.{
  set_remote_description, pc_init, pc_set_on, dc_init, dc_set_on, is_open, is_closed,
}
use aiolibdatachannel.Core.InTurn.{in_turn}
use aiolibdatachannel.Core.Registry.{Wrapper, register, set_callback, callback_kind, lookup}
use aiolibdatachannel.Core.Registry.Held.{stored}
use aiolibdatachannel.Core.Dispatch.{dispatch, fire}
use aiolibdatachannel.Channel
use aiolibdatachannel.Channel.{DataChannel, Message, text}
use aiolibdatachannel.Channel.Api.Receive.{handle_all}
use aiolibdatachannel.Channel.Create.{create, names}
use aiolibdatachannel.Peer.{fresh, handle_incoming_dc, accept_channel}
use aiolibdatachannel.Peer.Create.{create_peer}
use aiolibdatachannel.Peer.Callbacks.{cb_data_channel, run_call}
use aiolibdatachannel.Wiring.{
  App, Bound, of_peer, bound, LoopCall, receive, receive_all, invoke, invoke_all, run_loop_call,
  run_calls, spin,
}
use aiolibdatachannel.Wiring.Messages.{report}
use aiolibdatachannel.Wiring.Steady.{Step, reports, turns, step, steps}
use aiolibdatachannel.Wiring.Reached.{begun, AreFair, Reaches, program-Reaches}
use aiolibdatachannel.Wiring.Reached.Arrival.{messages_arrive}
use aiolibdatachannel.Enums.{GatheringState}
use aiolibdatachannel.Peer.Create.{pc_names}
use aiolibdatachannel.Wiring.{channel_call}
use aiolibdatachannel.Wiring.Reports.{closed_}
use aiolibdatachannel.Wiring.Reports.Fires.{scheduled}
use aiolibdatachannel.Wiring.Reached.Reported.{channel_report_arrives}
use aiolibdatachannel.Peer.{offer}
use aiolibdatachannel.Peer.Callbacks.{gathering_changed}
use aiolibdatachannel.Peer.Moves.{Move, closes, starts, runs, offers, moves}
use aiolibdatachannel.Peer.Remote
use aiolibdatachannel.Peer.Remote.{
  Candidate, add, apply, resume, drain, forward, cancel_drain, begin, pick,
}
use aiolibdatachannel.Peer.Remote.Traced.{total}
use aiolibdatachannel.Peer.Remote.Lost.{cancelled_drain_loses}
use aiolibdatachannel.Examples.Fake.{fake, shown, connected}

abbrev pub plain : RtcConfiguration
plain = record {
  ice_servers = [];
  port_range_begin = 0;
  port_range_end = 0;
  mtu = 0;
  max_message_size = 0;
  enable_ice_tcp = false;
  disable_auto_negotiation = false;
  certificate_type = 0;
  ice_transport_policy = 0;
}

abbrev pub idle : EventLoop LoopCall
idle = record { closed = false; ready = [] }

abbrev incoming : Emission
incoming = record { kind = 6; handle = 4; payload = int 9 ∷ [] }

abbrev course : List (Step (Core ℕ Bound))
course = reports incoming ∷ turns ∷ []

abbrev chat : DataChannel
chat = record (Channel.fresh 0 1024) { open_slot = set_slot tt init }

abbrev chat_wrapper : Wrapper Bound
chat_wrapper = record { handle = 9; callbacks = stored (bound 0) names []; destroyed = false }

made : (create_peer fake shown of_peer plain (start 4)).0 ≡ ok (fresh 0)
unfolding create_peer peer_args pc_init pc_set_on set_callback register start call in_turn
    server_urls
made = refl

course-AreFair : AreFair fake shown course (begun fake shown plain 4 idle (fresh 0))
unfolding create_peer peer_args pc_init pc_set_on set_callback register start call in_turn receive
    deliver dispatch fire lookup callback_kind Dict.get Dict.put invoke invoke_all cb_data_channel
    schedule step server_urls
course-AreFair = (tt, ((refl, tt), tt))

program-Reaches_example :
    Reaches fake shown (steps fake shown course (begun fake shown plain 4 idle (fresh 0)))
program-Reaches_example =
    program-Reaches fake shown plain 4 idle (fresh 0) course made course-AreFair

-- The connection with its channel, before the messages.
abbrev running : App ℕ
running = steps fake shown course (begun fake shown plain 4 idle (fresh 0))

messages_arrive_example :
    (spin fake shown (receive_all shown (map (report 9) (text "a" ∷ text "b" ∷ [])) running)).pc
    ≡ record ((spin fake shown running).pc) {
      data_channels =
          set
            (spin fake shown running).pc.data_channels
            0
            (handle_all (text "a" ∷ text "b" ∷ []) chat);
    }
unfolding create_peer peer_args server_urls pc_init pc_set_on set_callback register start call
    in_turn receive deliver dispatch fire lookup callback_kind Dict.get Dict.put invoke invoke_all
    cb_data_channel schedule step steps spin run_calls run_loop_call run_call handle_incoming_dc
    accept_channel create dc_init dc_set_on is_open is_closed Channel.fresh fresh init set_slot
    stored
messages_arrive_example =
    messages_arrive fake shown plain 4 idle (fresh 0) course 0 chat chat chat_wrapper
      (text "a" ∷ text "b" ∷ []) made course-AreFair refl refl refl refl refl

abbrev peer_wrapper : Wrapper Bound
peer_wrapper = record { handle = 4; callbacks = stored of_peer pc_names []; destroyed = false }

channel_report_arrives_example :
    receive shown (record { kind = 8; handle = 9; payload = [] }) running
    ≡ scheduled (channel_call 0 Channel.closed_down ∷ []) running
unfolding create_peer peer_args server_urls pc_init pc_set_on set_callback register start call
    in_turn receive deliver dispatch fire lookup callback_kind Dict.get Dict.put invoke invoke_all
    cb_data_channel schedule step steps spin run_calls run_loop_call run_call handle_incoming_dc
    accept_channel create dc_init dc_set_on is_open is_closed Channel.fresh fresh init set_slot
    stored
channel_report_arrives_example =
    channel_report_arrives fake shown plain 4 idle (fresh 0) course 0 chat chat_wrapper closed_ made
      course-AreFair refl refl refl refl

-- An offer waits; the connection is closed and torn down; and then the extension completes the
-- gathering.
abbrev late_gathering : List (Move (Core ℕ ℕ))
late_gathering = closes ∷ starts ∷ runs (gathering_changed GatheringState.complete) ∷ offers ∷ []

-- Two candidates are buffered, and the coroutine is cancelled after it has handed over the first.
abbrev waiting_candidates : List Remote.Move
waiting_candidates = add ("a", "0") ∷ add ("b", "0") ∷ apply "v=0" offer ∷ resume ∷ drain 0 ∷ []

-- Every candidate counts once.
abbrev once : Candidate → ℕ
once cand = 1

abbrev left_over : List Candidate
left_over = ("b", "0") ∷ []

cancelled_drain_loses_example :
    total once
        (Remote.moves fake shown
          (cancel_drain 0 ∷ forward 0 ∷ [])
          (Remote.moves fake shown waiting_candidates (begin 0 connected))).forwarded
      + total once left_over
    ≤ total once
        (Remote.moves fake shown
          (cancel_drain 0 ∷ forward 0 ∷ [])
          (Remote.moves fake shown waiting_candidates (begin 0 connected))).added
unfolding fresh pick Remote.moves set_remote_description exec pc_init call register start
cancelled_drain_loses_example =
    cancelled_drain_loses fake shown once waiting_candidates (forward 0 ∷ []) 0 0 connected
      left_over [] refl
