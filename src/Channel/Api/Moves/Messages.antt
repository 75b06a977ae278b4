-- ===== src/Channel/Api/Moves/Messages.antt =====
-- The messages of a DataChannel (aiolibdatachannel/data_channel.py) on their way from the callback
-- to a reader, through its whole life.
use Prim.Native.String.{String}
use mathlib.Core.List.{append-nil, append_assoc}
use aiolibdatachannel.Prelude.{◌≡◌, refl, sym, subst, Bool, true, false, List, [], ◌∷◌, ◌++◌}
use aiolibdatachannel.Prelude.Subsequence.{
  IsSubsequence, IsSubsequence-refl, IsSubsequence-append, IsSubsequence-trans,
}
use aiolibdatachannel.Native.{Native, Value}
use aiolibdatachannel.Core.Machine.{Core}
use aiolibdatachannel.Channel.{
  DataChannel, Message, Call, opened, closed_down, drained, errored, messaged, run_call,
  handle_closed, handle_error, handle_message,
}
use aiolibdatachannel.Channel.Api.{recv, finish_teardown}
use aiolibdatachannel.Channel.Api.Moves.Rules.{
  close-dc, spawn_task-dc, send-dc, resume_first-dc, destroy-dc, start_if-dc, finish_if-dc,
}
use aiolibdatachannel.Channel.Api.Queueing.{
  queued, returned, Shrinks, handle_closed-Shrinks, put_none-IsSubsequence,
  put_latest-IsSubsequence, recv-IsSubsequence,
}
use aiolibdatachannel.Channel.Api.Moves.{
  Move, runs, sends, resumes, receives, spawns, closes, starts, finishes, destroys, task_ends,
  cancels_open, cancels_closed, cancels_sender, changes, move, moves,
}

-- The message that a move brings, and the one that it gives to a reader.
abbrev pub arrives : {S : Type 0} → Move S → List Message
arrives (runs (messaged m)) = m ∷ []
arrives m = []

unfoldable pub arrived : {S : Type 0} → List (Move S) → List Message
arrived [] = []
arrived (m ∷ ms) = arrives m ++ arrived ms

-- Neither a call of the loop nor a read.
abbrev is_quiet : {S : Type 0} → Move S → Bool
is_quiet (runs call) = false
is_quiet receives = false
is_quiet m = true

abbrev pub gives : {S : Type 0} → Move S → DataChannel → List Message
gives receives dc = returned (recv dc).0
gives m dc = []

-- What a move gives and leaves queued, of what it finds and brings.
abbrev Passes : {S : Type 0} → Move S → DataChannel → DataChannel → Type 0
Passes m dc d = IsSubsequence (gives m dc ++ queued d) (queued dc ++ arrives m)

brings_nothing : (dc d : DataChannel) → Shrinks dc d → IsSubsequence (queued d) (queued dc ++ [])
brings_nothing dc d s = subst (IsSubsequence (queued d)) (sym (append-nil (queued dc))) s

same-Shrinks : (dc : DataChannel) → Shrinks dc dc
same-Shrinks dc = IsSubsequence-refl (queued dc)

run_call-Passes :
    (S : Type 0) (call : Call) (dc : DataChannel) → Passes {S = S} (runs call) dc (run_call call dc)
unfolding run_call handle_error handle_message
run_call-Passes S opened dc = brings_nothing dc dc (same-Shrinks dc)
run_call-Passes S closed_down dc = brings_nothing dc (handle_closed dc) (handle_closed-Shrinks dc)
run_call-Passes S drained dc = brings_nothing dc dc (same-Shrinks dc)
run_call-Passes S (errored e) dc = brings_nothing dc dc (same-Shrinks dc)
run_call-Passes S (messaged m) dc = put_latest-IsSubsequence m dc.recv_queue

module _ (N : Native) {C : Type 0} (to_str : Value → String) where
  open N use {World}

  finish_teardown-Shrinks :
      (dc : DataChannel) (c : Core World C) → Shrinks dc (finish_teardown N to_str dc c).0
  unfolding finish_teardown
  finish_teardown-Shrinks dc c =
      destroy-dc N to_str (Shrinks dc) dc c (same-Shrinks dc)
        (handle_closed-Shrinks (record dc { destroyed = true }))

  -- A move that brings no message and gives none.
  quiet-Shrinks :
      (m : Move (Core World C)) (dc : DataChannel) (c : Core World C)
      → is_quiet m ≡ true
      → Shrinks dc (move N to_str m (dc, c)).0
  unfolding move
  quiet-Shrinks (runs call) dc c q = absurd (cc)
  quiet-Shrinks receives dc c q = absurd (cc)
  quiet-Shrinks (sends a w) dc c q = send-dc N to_str (Shrinks dc) a w dc c (λ e. same-Shrinks dc)
  quiet-Shrinks resumes dc c q =
      resume_first-dc N to_str (Shrinks dc) dc.buffered_low.woken dc c (λ e. same-Shrinks dc)
  quiet-Shrinks spawns dc c q =
      spawn_task-dc (Shrinks dc) dc (same-Shrinks dc) (λ t. same-Shrinks dc)
  quiet-Shrinks closes dc c q =
      close-dc (Shrinks dc) dc (same-Shrinks dc) (put_none-IsSubsequence dc.recv_queue)
  quiet-Shrinks starts dc c q =
      start_if-dc N to_str (Shrinks dc) dc.teardown dc c (same-Shrinks dc)
        (finish_teardown-Shrinks dc c) (same-Shrinks dc)
  quiet-Shrinks finishes dc c q =
      finish_if-dc N to_str (Shrinks dc) dc.teardown dc c (same-Shrinks dc)
        (finish_teardown-Shrinks dc c)
  quiet-Shrinks destroys dc c q =
      destroy-dc N to_str (Shrinks dc) dc c (same-Shrinks dc)
        (handle_closed-Shrinks (record dc { destroyed = true }))
  quiet-Shrinks (task_ends n) dc c q = same-Shrinks dc
  quiet-Shrinks cancels_open dc c q = same-Shrinks dc
  quiet-Shrinks cancels_closed dc c q = same-Shrinks dc
  quiet-Shrinks (cancels_sender n) dc c q = same-Shrinks dc
  quiet-Shrinks (changes d) dc c q = same-Shrinks dc

  move-Passes :
      (m : Move (Core World C)) (dc : DataChannel) (c : Core World C)
      → Passes m dc (move N to_str m (dc, c)).0
  unfolding move
  move-Passes (runs call) dc c = run_call-Passes (Core World C) call dc
  move-Passes receives dc c =
      subst (IsSubsequence (returned (recv dc).0 ++ queued (recv dc).1))
        (sym (append-nil (queued dc))) (recv-IsSubsequence dc)
  move-Passes m dc c = brings_nothing dc (move N to_str m (dc, c)).0 (quiet-Shrinks m dc c refl)

  -- The messages that readers get in a run of moves.
  unfoldable pub given : List (Move (Core World C)) → DataChannel × Core World C → List Message
  given [] s = []
  given (m ∷ ms) s = gives m s.0 ++ given ms (move N to_str m s)

  -- Whatever happens to a channel, what its readers get, and then what is left in the queue, are
  -- messages that stood in the queue at first and then those that the callback brought, in this
  -- order, some of them perhaps left out: no message is given twice, made up or out of turn.
  pub given-IsSubsequence :
      (ms : List (Move (Core World C))) (dc : DataChannel) (c : Core World C)
      → IsSubsequence
          (given ms (dc, c) ++ queued (moves N to_str ms (dc, c)).0)
          (queued dc ++ arrived ms)
  unfolding given moves arrived
  given-IsSubsequence [] dc c = brings_nothing dc dc (same-Shrinks dc)
  given-IsSubsequence (m ∷ ms) dc c =
      let s = move N to_str m (dc, c) in
      let rest = given ms s ++ queued (moves N to_str ms s).0 in
      let first = gives m dc in
      let later : IsSubsequence (first ++ rest) (first ++ (queued s.0 ++ arrived ms)) =
        IsSubsequence-append first first rest (queued s.0 ++ arrived ms) (IsSubsequence-refl first)
          (given-IsSubsequence ms s.0 s.1) in
      let now : IsSubsequence ((first ++ queued s.0) ++ arrived ms)
          ((queued dc ++ arrives m) ++ arrived ms) =
        IsSubsequence-append (first ++ queued s.0) (queued dc ++ arrives m) (arrived ms)
          (arrived ms) (move-Passes m dc c) (IsSubsequence-refl (arrived ms)) in
      rw (append_assoc first (given ms s) (queued (moves N to_str ms s).0)) (
        IsSubsequence-trans (first ++ rest) (first ++ (queued s.0 ++ arrived ms))
          (queued dc ++ (arrives m ++ arrived ms)) later
          (rw
            (
              ← append_assoc first (queued s.0) (arrived ms),
              ← append_assoc (queued dc) (arrives m) (arrived ms),
            )
            now))
