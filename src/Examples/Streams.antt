-- ===== src/Examples/Streams.antt =====
-- Queues, senders and messages on small inputs.
use aiolibdatachannel.Prelude.{ℕ, ◌≡◌, refl, List, [], ◌∷◌, ◌++◌, Option, none, some}
use aiolibdatachannel.Native.{Name}
use aiolibdatachannel.Errors.{returns}
use aiolibdatachannel.Asyncio.{somes, Queue}
use aiolibdatachannel.Enums.{rtc_state_int, RtcState}
use aiolibdatachannel.Core.Machine.{Core}
use aiolibdatachannel.Channel
use aiolibdatachannel.Channel.{SendArg, as_str, text}
use aiolibdatachannel.Channel.Api.Moves as ChannelMoves
use aiolibdatachannel.Prelude.Subsequence.{IsSubsequence}
use aiolibdatachannel.Channel.Api.Queueing.{queued}
use aiolibdatachannel.Channel.Api.Moves.Messages.{arrived, given, given-IsSubsequence}
use aiolibdatachannel.Peer.{fresh}
use aiolibdatachannel.Peer.Lifecycle.{wait_for_state}
use aiolibdatachannel.Peer.Callbacks.{state_changed, channel_came}
use aiolibdatachannel.Peer.Iterators.Stream.{IsRun, emitted, yields}
use aiolibdatachannel.Peer.Iterators.Refine.{
  Op, puts, takes, stream_of, labels, perform_all, perform_all-IsRun,
}
use aiolibdatachannel.Peer.Moves.{Move, runs, next_event, accepts, closes, moves}
use aiolibdatachannel.Peer.Moves.Events.{event_labels, events_in_order}
use aiolibdatachannel.Peer.Moves.Incoming.{incoming_labels, incoming_in_order}
use aiolibdatachannel.Peer.Moves.Visited.{reported, wait_for_state-reported}
use aiolibdatachannel.Examples.Fake.{fake, shown, connected}

abbrev registered : ℕ → Name → ℕ
registered i n = i

abbrev queue : Queue (Option ℕ)
queue = record { maxsize = 0; items = some 1 ∷ [] }

-- An item behind a sentinel is not lost.
abbrev ops : List (Op ℕ)
ops = puts none ∷ puts (some 2) ∷ takes ∷ takes ∷ takes ∷ takes ∷ []

perform_all-IsRun_example :
    IsRun (stream_of queue) (labels ops queue) (stream_of (perform_all ops queue))
perform_all-IsRun_example = perform_all-IsRun ops queue refl

abbrev life : List (Move (Core ℕ ℕ))
life =
    runs (state_changed RtcState.connecting)
    ∷ next_event
    ∷ runs (channel_came 9)
    ∷ runs (state_changed RtcState.connected)
    ∷ accepts
    ∷ closes
    ∷ next_event
    ∷ next_event
    ∷ next_event
    ∷ []

events_in_order_example :
    emitted (event_labels fake shown registered life (fresh 0, connected))
    ≡ yields (event_labels fake shown registered life (fresh 0, connected))
      ++ somes (moves fake shown registered life (fresh 0, connected)).0.events_queue.items
events_in_order_example = events_in_order fake shown registered life 0 connected

incoming_in_order_example :
    emitted (incoming_labels fake shown registered life (fresh 0, connected))
    ≡ yields (incoming_labels fake shown registered life (fresh 0, connected))
      ++ somes (moves fake shown registered life (fresh 0, connected)).0.incoming_dc.items
incoming_in_order_example = incoming_in_order fake shown registered life 0 connected

-- The connection has left CONNECTING.
wait_for_state-reported_example :
    wait_for_state RtcState.connecting (moves fake shown registered life (fresh 0, connected)).0
    ≡ returns tt
unfolding reported rtc_state_int
wait_for_state-reported_example =
    wait_for_state-reported fake shown registered RtcState.connecting life 0 connected

-- A queue of two: the third message drops the first, before a reader takes the second.
abbrev receiving : List (ChannelMoves.Move (Core ℕ ℕ))
receiving =
    ChannelMoves.runs (Channel.messaged (text "a"))
    ∷ ChannelMoves.runs (Channel.messaged (text "b"))
    ∷ ChannelMoves.runs (Channel.messaged (text "c"))
    ∷ ChannelMoves.receives
    ∷ ChannelMoves.closes
    ∷ []

given-IsSubsequence_example :
    IsSubsequence
      (given fake shown receiving (Channel.fresh 0 2, connected)
        ++ queued (ChannelMoves.moves fake shown receiving (Channel.fresh 0 2, connected)).0)
      (text "a" ∷ text "b" ∷ text "c" ∷ [])
unfolding Channel.fresh arrived
given-IsSubsequence_example = given-IsSubsequence fake shown receiving (Channel.fresh 0 2) connected
