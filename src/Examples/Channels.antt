-- ===== src/Examples/Channels.antt =====
-- Channels on small inputs.
use aiolibdatachannel.Prelude.{
  ℕ, ◌+◌, All, length, ◌≡◌, refl, true, false, List, [], ◌∷◌, ◌++◌, map, some, arith,
}
use aiolibdatachannel.Errors.{cancelled_error, closed_error, returns, fails}
use aiolibdatachannel.Asyncio.{Event, full}
use aiolibdatachannel.Tasks.{TaskSet, numbers, scheduled, finished}
use aiolibdatachannel.Loop.{init, done}
use aiolibdatachannel.Channel.{
  DataChannel, Message, SendArg, text, as_str, fresh, messaged, drained, opened, closed_down,
  run_call,
}
use aiolibdatachannel.Channel.Api.{
  wait_open, wait_closed, iterate, close, aclose, finish_teardown, resume_send, or_default,
}
use aiolibdatachannel.Channel.Api.Receive.{handle_all, handle_all-latest, received, messages_then}
use aiolibdatachannel.Channel.Api.Hang.{close-full_hangs, close_ends_readers}
use aiolibdatachannel.Channel.Api.Moves.{
  Move, runs, sends, receives, spawns, closes, starts, finishes, task_ends, destroys, cancels_open,
  cancels_closed, cancels_sender, resumes, move, moves,
}
use aiolibdatachannel.Channel.Api.Moves.Safety.{IsSafe}
use aiolibdatachannel.Channel.Api.Moves.Sends.{event-IsSafe, tasks-IsSafe}
use aiolibdatachannel.Channel.Api.Moves.Runs.{moves-IsSafe, fresh-IsSafe}
use aiolibdatachannel.Tasks.Kept.{left_after}
use aiolibdatachannel.Prelude.Subsequence.{IsSubsequence}
use aiolibdatachannel.Channel.Api.Moves.Senders.{waiters, parked, gone_on, given_up}
use aiolibdatachannel.Channel.Api.Moves.Served.{resumptions, waiters_served}
use aiolibdatachannel.Channel.Api.Moves.Freed.{resumes_for, destroyed_frees_senders}
use aiolibdatachannel.Channel.Api.Moves.Completes.{close_completes}
use aiolibdatachannel.Channel.Api.Moves.Cancelled.{cancelled_waiter_spoils}
use aiolibdatachannel.Channel.Api.Closing.{aclose_early}
use aiolibdatachannel.Core.Machine.{Core}
use aiolibdatachannel.Examples.Fake.{fake, shown, connected, with_channel}

abbrev empty_channel : DataChannel
empty_channel = fresh 0 2

-- A queue of two that holds one message.
abbrev holding : List Message → DataChannel
holding ms = record (fresh 0 2) { recv_queue = record { maxsize = 2; items = map some ms } }

-- A third message takes the place of the first.
handle_all-latest_example :
    (handle_all (text "b" ∷ text "c" ∷ []) (holding (text "a" ∷ []))).recv_queue.items
    ≡ some (text "b") ∷ some (text "c") ∷ []
unfolding fresh
handle_all-latest_example =
    handle_all-latest (text "b" ∷ text "c" ∷ []) (holding (text "a" ∷ [])) (omega arith)
      (omega arith)

close-full_hangs_example :
    (iterate 9
      (finish_teardown fake shown (close (holding (text "a" ∷ text "b" ∷ []))) connected).0).ended
    ≡ false
unfolding full
close-full_hangs_example =
    close-full_hangs fake shown 9 (holding (text "a" ∷ text "b" ∷ [])) connected refl (λ s. s)

close_ends_readers_example :
    (received 3 (close (holding (text "a" ∷ [])))
      ≡ returns (text "a")
        ∷ fails (closed_error "channel closed")
        ∷ fails (closed_error "channel closed")
        ∷ [])
    × (iterate 2 (close (holding (text "a" ∷ [])))
        ≡ record { yields = text "a" ∷ []; ended = true })
unfolding fresh messages_then or_default
close_ends_readers_example =
    close_ends_readers 2 3 (text "a" ∷ []) (holding (text "a" ∷ [])) refl refl (omega arith)
      (omega arith)

abbrev life : List (Move (Core ℕ ℕ))
life =
    spawns
    ∷ sends (as_str "x") true
    ∷ sends (as_str "y") true
    ∷ sends (as_str "z") true
    ∷ runs drained
    ∷ cancels_sender 1
    ∷ resumes
    ∷ runs (messaged (text "m"))
    ∷ closes
    ∷ starts
    ∷ runs closed_down
    ∷ task_ends 0
    ∷ finishes
    ∷ destroys
    ∷ receives
    ∷ []

moves-IsSafe_example : IsSafe (moves fake shown life (empty_channel, with_channel)).0
moves-IsSafe_example =
    moves-IsSafe fake shown life empty_channel with_channel (fresh-IsSafe 0 2 (omega arith))

aclose_early_example :
    let r = aclose (run_call closed_down empty_channel) in
    (r.0 ≡ returns tt) × (r.1.teardown ≡ scheduled) × (r.1.destroyed ≡ false)
unfolding fresh init
aclose_early_example = aclose_early empty_channel refl refl refl

-- One sender is woken, and another waits.
abbrev awaited : DataChannel
awaited = record (fresh 0 2) {
  buffered_low = record { flag = false; waiting = as_str "y" ∷ []; woken = as_str "x" ∷ [] };
}

destroyed_frees_senders_example :
    let s = move fake shown destroys (awaited, with_channel) in
    let rs = resumes_for fake shown (waiters awaited) in
    (moves fake shown rs s
      ≡ (record (s.0) { buffered_low = record { flag = true; waiting = []; woken = [] } }, s.1))
    × (gone_on fake shown rs s ≡ as_str "x" ∷ as_str "y" ∷ [])
    × All
        (λ (a : SendArg).
          (resume_send fake shown a s.0 s.1).0
          ≡ fails (closed_error "channel closed while waiting to send"))
        (as_str "x" ∷ as_str "y" ∷ [])
unfolding fresh
destroyed_frees_senders_example = destroyed_frees_senders fake shown awaited with_channel refl

-- While the senders go on, one of them is cancelled, and a third comes to wait.
abbrev serving : List (Move (Core ℕ ℕ))
serving =
    sends (as_str "a") true ∷ cancels_sender 1 ∷ sends (as_str "z") true ∷ resumes ∷ resumes ∷ []

waiters_served_example :
    let s = move fake shown (runs drained) (awaited, with_channel) in
    let still = waiters (moves fake shown serving s).0 in
    IsSubsequence still (parked fake shown serving s)
    × IsSubsequence
        (gone_on fake shown serving s ++ still)
        (as_str "x" ∷ as_str "y" ∷ parked fake shown serving s)
    × (length (as_str "x" ∷ as_str "y" ∷ parked fake shown serving s)
        ≡ length (gone_on fake shown serving s ++ still) + length (given_up fake shown serving s))
unfolding resumptions
waiters_served_example =
    waiters_served fake shown (runs drained) serving awaited with_channel refl (omega arith)

-- A `wait_open` is given up, and then the channel opens.
abbrev abandoned : List (Move (Core ℕ ℕ))
abandoned = runs opened ∷ []

cancelled_waiter_spoils_example :
    (wait_open (moves fake shown (cancels_open ∷ abandoned) (fresh 0 2, connected)).0
      ≡ fails cancelled_error)
    × (wait_closed (moves fake shown (cancels_closed ∷ abandoned) (fresh 0 2, connected)).0
        ≡ fails cancelled_error)
unfolding fresh init
cancelled_waiter_spoils_example =
    cancelled_waiter_spoils fake shown abandoned (fresh 0 2) connected refl refl

-- Two tasks are owned, and a sender waits.
abbrev low : Event SendArg
low = record { flag = false; waiting = as_str "x" ∷ []; woken = [] }

abbrev two_tasks : TaskSet
two_tasks = record {
  tasks =
      record { number = 0; cancelling = false } ∷ record { number = 1; cancelling = false } ∷ [];
  next = 2;
}

abbrev busy : DataChannel
busy = record (fresh 0 2) { buffered_low = low; tasks = two_tasks }

busy-IsSafe : IsSafe busy
unfolding fresh
busy-IsSafe =
    tasks-IsSafe (record (fresh 0 2) { buffered_low = low }) two_tasks
      (event-IsSafe (fresh 0 2) low (λ e. absurd (cc)) (λ e. absurd (cc))
        (fresh-IsSafe 0 2 (omega arith)))

-- While the shutdown runs, a message comes, a task ends, a reader takes the message; afterwards the
-- extension reports the close.
abbrev before_start : List (Move (Core ℕ ℕ))
before_start = runs (messaged (text "m")) ∷ spawns ∷ task_ends 1 ∷ []

abbrev before_finish : List (Move (Core ℕ ℕ))
before_finish = receives ∷ finishes ∷ task_ends 0 ∷ []

abbrev shutdown : DataChannel
shutdown =
    (moves fake shown
      (closes ∷ (before_start ++ (starts ∷ (before_finish ++ finishes ∷ runs closed_down ∷ []))))
      (busy, with_channel)).0

close_completes_example :
    (shutdown.teardown ≡ finished)
    × (shutdown.destroyed ≡ true)
    × (done shutdown.closed_slot ≡ true)
    × (done shutdown.open_slot ≡ true)
    × (shutdown.buffered_low.waiting ≡ [])
unfolding fresh left_after numbers
close_completes_example =
    close_completes fake shown before_start before_finish (runs closed_down ∷ []) busy with_channel
      busy-IsSafe refl refl
