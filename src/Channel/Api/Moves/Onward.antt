-- ===== src/Channel/Api/Moves/Onward.antt =====
-- A DataChannel (aiolibdatachannel/data_channel.py) on which `close` has been called: what its
-- teardown and its tasks do through any moves.
use Prim.Native.String.{String}
use aiolibdatachannel.Prelude.{ℕ, ◌≡◌, refl, sym, ap, ◌∙◌, Bool, true, false, List, [], ◌∷◌}
use aiolibdatachannel.Native.{Native, Value}
use aiolibdatachannel.Core.Machine.{Core}
use aiolibdatachannel.Tasks.{
  Teardown, not_started, scheduled, gathering, releasing, released, finished, numbers,
}
use aiolibdatachannel.Tasks.Kept.{without, discard-numbers, left_after}
use aiolibdatachannel.Channel.{
  DataChannel, Call, opened, closed_down, drained, errored, messaged, run_call, handle_closed,
  handle_error, handle_message,
}
use aiolibdatachannel.Channel.Api.{
  close, spawn_task, destroy, start_teardown, finish_teardown, begin,
}
use aiolibdatachannel.Channel.Api.Moves.{
  Move, runs, sends, resumes, receives, spawns, closes, starts, finishes, destroys, task_ends,
  cancels_open, cancels_closed, cancels_sender, changes, move, moves, start_if,
}
use aiolibdatachannel.Channel.Api.Moves.Rules.{
  recv-dc, send-dc, resume_first-dc, destroy-dc, finish_if-dc,
}

-- Of these tasks, those that do not end in a move.
abbrev pub left_by : {S : Type 0} → Move S → List ℕ → List ℕ
left_by (task_ends n) ns = without n ns
left_by m ns = ns

-- What holds at a stage of the teardown holds at the later ones.
abbrev pub IsUpward : (Teardown → Bool) → Type 0
IsUpward p =
    ((ns : List ℕ) → p scheduled ≡ true → p (gathering ns) ≡ true)
    × ((t : Teardown) → p t ≡ true → p finished ≡ true)

-- The teardown has been asked for; it has begun; it has ended.
abbrev pub is_asked : Teardown → Bool
is_asked scheduled = true
is_asked (gathering ns) = true
is_asked finished = true
is_asked t = false

abbrev pub has_begun : Teardown → Bool
has_begun (gathering ns) = true
has_begun finished = true
has_begun t = false

abbrev pub has_ended : Teardown → Bool
has_ended finished = true
has_ended t = false

pub is_asked-IsUpward : IsUpward is_asked
is_asked-IsUpward = (λ ns e. refl, λ t e. refl)

pub has_begun-IsUpward : IsUpward has_begun
has_begun-IsUpward = (λ ns e. refl, λ t e. refl)

pub has_ended-IsUpward : IsUpward has_ended
has_ended-IsUpward = (λ ns e. e, λ t e. refl)

-- From one state of a closed channel to a later one: it stays closed, these tasks are left, and the
-- teardown does not go back.
abbrev pub Continues : (Teardown → Bool) → List ℕ → DataChannel → DataChannel → Type 0
Continues p ns dc d =
    (d.close_requested ≡ true)
    × (numbers d.tasks ≡ ns)
    × (p dc.teardown ≡ true → p d.teardown ≡ true)

module _ (p : Teardown → Bool) (up : IsUpward p) where
  -- Nothing that counts here has changed.
  abbrev Stays : DataChannel → DataChannel → Type 0
  Stays dc d = Continues p (numbers dc.tasks) dc d

  run_call-Stays :
      (call : Call) (dc : DataChannel) → dc.close_requested ≡ true → Stays dc (run_call call dc)
  unfolding run_call handle_closed handle_error handle_message
  run_call-Stays opened dc q = (q, refl, λ e. e)
  run_call-Stays closed_down dc q = (q, refl, λ e. e)
  run_call-Stays drained dc q = (q, refl, λ e. e)
  run_call-Stays (errored x) dc q = (q, refl, λ e. e)
  run_call-Stays (messaged m) dc q = (q, refl, λ e. e)

  module _ (N : Native) {C : Type 0} (to_str : Value → String) where
    open N use {World}

    destroy-Stays :
        (dc : DataChannel) (c : Core World C)
        → dc.close_requested ≡ true
        → Stays dc (destroy N to_str dc c).0
    unfolding handle_closed
    destroy-Stays dc c q = destroy-dc N to_str (Stays dc) dc c (q, refl, λ e. e) (q, refl, λ e. e)

    finish-Stays :
        (dc : DataChannel) (c : Core World C)
        → dc.close_requested ≡ true
        → Stays dc (finish_teardown N to_str dc c).0
    unfolding finish_teardown
    finish-Stays dc c q = let (r, s, t) = destroy-Stays dc c q in (r, s, λ e. up.1 dc.teardown e)

    begin-Stays :
        (ns : List ℕ) (dc : DataChannel) (c : Core World C)
        → dc.close_requested ≡ true
        → dc.teardown ≡ scheduled
        → Stays dc (begin N to_str ns dc c).0
    unfolding begin
    begin-Stays [] dc c q s = finish-Stays dc c q
    begin-Stays (n ∷ ns) dc c q s = (q, refl, λ e. up.0 (n ∷ ns) (sym (ap p s) ∙ e))

    start_if-Stays :
        (t : Teardown) (dc : DataChannel) (c : Core World C)
        → dc.close_requested ≡ true
        → dc.teardown ≡ t
        → Stays dc (start_if N to_str t dc c).0
    unfolding start_if start_teardown
    start_if-Stays scheduled dc c q e = begin-Stays (numbers dc.tasks) dc c q e
    start_if-Stays not_started dc c q e = (q, refl, λ f. f)
    start_if-Stays releasing dc c q e = (q, refl, λ f. f)
    start_if-Stays released dc c q e = (q, refl, λ f. f)
    start_if-Stays finished dc c q e = (q, refl, λ f. f)
    start_if-Stays (gathering ns) dc c q e = (q, refl, λ f. f)

    move-Continues :
        (m : Move (Core World C)) (dc : DataChannel) (c : Core World C)
        → dc.close_requested ≡ true
        → Continues p (left_by m (numbers dc.tasks)) dc (move N to_str m (dc, c)).0
    unfolding move spawn_task close
    move-Continues (runs call) dc c q = run_call-Stays call dc q
    move-Continues (sends a w) dc c q =
        send-dc N to_str (Stays dc) a w dc c (λ e. (q, refl, λ f. f))
    move-Continues resumes dc c q =
        resume_first-dc N to_str (Stays dc) dc.buffered_low.woken dc c (λ e. (q, refl, λ f. f))
    move-Continues receives dc c q = recv-dc (Stays dc) dc (λ r. (q, refl, λ f. f))
    move-Continues spawns dc c q = rw q (refl, refl, λ f. f)
    move-Continues closes dc c q = rw q (refl, refl, λ f. f)
    move-Continues starts dc c q = start_if-Stays dc.teardown dc c q refl
    move-Continues finishes dc c q =
        finish_if-dc N to_str (Stays dc) dc.teardown dc c (q, refl, λ f. f) (finish-Stays dc c q)
    move-Continues destroys dc c q = destroy-Stays dc c q
    move-Continues (task_ends n) dc c q = (q, discard-numbers n dc.tasks, λ f. f)
    move-Continues cancels_open dc c q = (q, refl, λ f. f)
    move-Continues cancels_closed dc c q = (q, refl, λ f. f)
    move-Continues (cancels_sender n) dc c q = (q, refl, λ f. f)
    move-Continues (changes d) dc c q = (q, refl, λ f. f)

    pub moves-Continues :
        (ms : List (Move (Core World C))) (dc : DataChannel) (c : Core World C)
        → dc.close_requested ≡ true
        → Continues p (left_after left_by ms (numbers dc.tasks)) dc (moves N to_str ms (dc, c)).0
    unfolding moves left_after
    moves-Continues [] dc c q = (q, refl, λ f. f)
    moves-Continues (m ∷ ms) dc c q =
        let (d, e) = move N to_str m (dc, c) in
        let (r, s, t) = move-Continues m dc c q in
        let (r', s', t') = moves-Continues ms d e r in
        (r', s' ∙ ap (left_after left_by ms) s, λ f. t' (t f))
