-- ===== src/Examples/Lives.antt =====
-- Lives of connections and channels on small inputs.
use aiolibdatachannel.Prelude.{◌≡◌, ℕ, refl, true, false, List, [], ◌∷◌, ◌++◌, arith}
use aiolibdatachannel.Native.{Name}
use aiolibdatachannel.Loop.{init, set_slot}
use aiolibdatachannel.Tasks.{TaskSet, numbers, cancel_all, finished}
use aiolibdatachannel.Enums.{RtcState, GatheringState}
use aiolibdatachannel.Channel
use aiolibdatachannel.Channel.{DataChannel, closed_down}
use aiolibdatachannel.Channel.Api.Moves as ChannelMoves
use aiolibdatachannel.Channel.Create.{create}
use aiolibdatachannel.Channel.Create.Synced.{IsSynced, create-IsSynced}
use aiolibdatachannel.Core.InTurn.{in_turn}
use aiolibdatachannel.Core.Registry.{set_callback, register}
use aiolibdatachannel.Core.Machine.{Core, call, start}
use aiolibdatachannel.Peer.{PeerConnection, IceCandidate, fresh, handle_local_candidate}
use aiolibdatachannel.Peer.Lifecycle.{
  close, aclose, wait_closed, start_teardown, release_channels, destroy_channels,
}
use aiolibdatachannel.Asyncio.{put_suppressed}
use aiolibdatachannel.Peer.Moves.Completes.{shutdown_completes}
use aiolibdatachannel.Tasks.Kept.{left_after}
use aiolibdatachannel.Errors.{returns}
use aiolibdatachannel.Core.Calls.{dc_set_on, dc_init, pc_init, is_closed, is_open}
use aiolibdatachannel.Core.Calls.Soundness.{exec}
use aiolibdatachannel.Peer.Callbacks.{
  found, state_changed, gathering_changed, channel_came, run_call,
}
use aiolibdatachannel.Peer.Moves.{
  Move, runs, offers, next_candidate, next_event, accepts, spawns, closes, starts, executes, ends,
  finishes, task_ends, owned, move, moves,
}
use aiolibdatachannel.Peer.Moves.Live.{IsLive}
use aiolibdatachannel.Peer.Moves.Runs.{moves-IsLive}
use aiolibdatachannel.Peer.Moves.Late.{IsLeft, late_channel_survives}
use aiolibdatachannel.Peer.Moves.Endings.{EndsWith, closed_iterators_end}
use aiolibdatachannel.Examples.Fake.{fake, shown, connected}

abbrev registered : ℕ → Name → ℕ
registered i n = i

abbrev first : IceCandidate
first = record { candidate = "a"; mid = "0" }

abbrev whole_life : List (Move (Core ℕ ℕ))
whole_life =
    offers
    ∷ runs (channel_came 9)
    ∷ spawns
    ∷ runs (found first)
    ∷ runs (gathering_changed GatheringState.complete)
    ∷ next_candidate
    ∷ runs (state_changed RtcState.failed)
    ∷ accepts
    ∷ owned 0 (ChannelMoves.runs closed_down)
    ∷ closes
    ∷ starts
    ∷ task_ends 0
    ∷ finishes
    ∷ next_event
    ∷ []

moves-IsLive_example : IsLive (moves fake shown registered whole_life (fresh 0, connected)).0
moves-IsLive_example = moves-IsLive fake shown registered whole_life 0 connected

abbrev short_life : List (Move (Core ℕ ℕ))
short_life = runs (found first) ∷ closes ∷ []

closed_iterators_end_example :
    let pc = (moves fake shown registered short_life (fresh 0, connected)).0 in
    EndsWith 3 pc.incoming_dc × EndsWith 3 pc.ice_candidates × EndsWith 3 pc.events_queue
unfolding moves fresh move close run_call handle_local_candidate put_suppressed
closed_iterators_end_example =
    closed_iterators_end fake shown registered 3 short_life 0 connected refl (omega arith)
      (omega arith) (omega arith)

abbrev opened_channel : DataChannel
opened_channel = record (Channel.fresh 0 4) { open_slot = set_slot tt init }

create-IsSynced_example : IsSynced true false opened_channel
unfolding create dc_set_on set_callback dc_init register exec pc_init call start is_closed is_open
    init Channel.fresh in_turn
create-IsSynced_example =
    create-IsSynced fake shown (registered 0) 9 4 connected opened_channel (omega arith) refl

-- The teardown has destroyed the channels, of which there were none.
abbrev leaving : PeerConnection
leaving = (moves fake shown registered (closes ∷ starts ∷ []) (fresh 0, connected)).0

late_channel_survives_example :
    IsLeft fake shown registered
      (record (Channel.fresh 0 1024) { open_slot = set_slot tt init })
      0
      (moves fake shown registered
        (runs (channel_came 9) ∷ executes ∷ ends ∷ [])
        (leaving, connected)).0
unfolding create dc_set_on set_callback dc_init register exec pc_init call start is_closed is_open
    init Channel.fresh in_turn moves move close start_teardown release_channels destroy_channels
    fresh numbers cancel_all
late_channel_survives_example =
    late_channel_survives fake shown registered 9
      (record (Channel.fresh 0 1024) { open_slot = set_slot tt init }) leaving connected refl refl

-- Two tasks are owned, and a channel.
abbrev two_tasks : TaskSet
two_tasks = record {
  tasks =
      record { number = 0; cancelling = false } ∷ record { number = 1; cancelling = false } ∷ [];
  next = 2;
}

abbrev busy : PeerConnection
busy = record (fresh 0) { tasks = two_tasks; data_channels = opened_channel ∷ [] }

abbrev before_start : List (Move (Core ℕ ℕ))
before_start = runs (state_changed RtcState.closed) ∷ task_ends 1 ∷ []

abbrev before_finish : List (Move (Core ℕ ℕ))
before_finish = spawns ∷ finishes ∷ task_ends 0 ∷ []

abbrev before_execute : List (Move (Core ℕ ℕ))
before_execute = runs (channel_came 9) ∷ next_event ∷ []

abbrev before_end : List (Move (Core ℕ ℕ))
before_end = owned 0 (ChannelMoves.runs closed_down) ∷ closes ∷ []

abbrev over : PeerConnection
over =
    (moves fake shown registered
      (closes
        ∷ (before_start
            ++ (starts
                ∷ (before_finish
                    ++ (finishes
                        ∷ (before_execute
                            ++ (executes ∷ (before_end ++ (ends ∷ (accepts ∷ []))))))))))
      (busy, connected)).0

shutdown_completes_example :
    (over.teardown ≡ finished)
    × (wait_closed over ≡ returns tt)
    × (aclose over ≡ (returns tt, over))
unfolding fresh left_after numbers
shutdown_completes_example =
    shutdown_completes fake shown registered before_start before_finish before_execute before_end
      (accepts ∷ []) busy connected refl refl
