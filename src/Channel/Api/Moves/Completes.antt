-- ===== src/Channel/Api/Moves/Completes.antt =====
-- The shutdown of a DataChannel (aiolibdatachannel/data_channel.py) whatever happens while it runs.
use Prim.Native.String.{String}
use aiolibdatachannel.Prelude.{ℕ, ◌≡◌, refl, sym, ap, ◌∙◌, true, false, List, [], ◌∷◌, ◌++◌}
use aiolibdatachannel.Native.{Native, Value}
use aiolibdatachannel.Core.Machine.{Core}
use aiolibdatachannel.Loop.{done}
use aiolibdatachannel.Tasks.{
  Teardown, not_started, scheduled, gathering, releasing, released, finished, numbers,
}
use aiolibdatachannel.Tasks.Kept.{cancel_all-numbers, left_after, left_after-append}
use aiolibdatachannel.Channel.{DataChannel}
use aiolibdatachannel.Channel.Api.{close, start_teardown, finish_teardown, begin}
use aiolibdatachannel.Channel.Api.Moves.{
  Move, closes, starts, finishes, move, moves, start_if, finish_if, gathered,
}
use aiolibdatachannel.Channel.Api.Moves.Safety.{IsSafe}
use aiolibdatachannel.Channel.Api.Moves.Runs.{moves-IsSafe}
use aiolibdatachannel.Channel.Api.Moves.Onward.{
  left_by, is_asked, has_begun, has_ended, is_asked-IsUpward, has_begun-IsUpward,
  has_ended-IsUpward, moves-Continues,
}

-- Nothing is left to wait for.
pub gathered-nil : (ns : List ℕ) → gathered ns [] ≡ true
unfolding gathered
gathered-nil [] = refl
gathered-nil (n ∷ ns) = gathered-nil ns

ended-finished : (t : Teardown) → has_ended t ≡ true → t ≡ finished
ended-finished finished e = refl
ended-finished scheduled e = absurd (cc)
ended-finished (gathering ns) e = absurd (cc)
ended-finished not_started e = absurd (cc)
ended-finished releasing e = absurd (cc)
ended-finished released e = absurd (cc)

close-asked :
    (dc : DataChannel)
    → dc.close_requested ≡ false
    → (is_asked (close dc).teardown ≡ true)
      × ((close dc).close_requested ≡ true)
      × (numbers (close dc).tasks ≡ numbers dc.tasks)
unfolding close
close-asked dc o = rw o (refl, refl, cancel_all-numbers dc.tasks)

module _ (N : Native) {C : Type 0} (to_str : Value → String) where
  open N use {World}

  moves-append :
      (ms ns : List (Move (Core World C))) (s : DataChannel × Core World C)
      → moves N to_str (ms ++ ns) s ≡ moves N to_str ns (moves N to_str ms s)
  unfolding moves
  moves-append [] ns s = refl
  moves-append (m ∷ ms) ns s = moves-append ms ns (move N to_str m s)

  begin-begun :
      (ns : List ℕ) (dc : DataChannel) (c : Core World C)
      → has_begun (begin N to_str ns dc c).0.teardown ≡ true
  unfolding begin finish_teardown
  begin-begun [] dc c = refl
  begin-begun (n ∷ ns) dc c = refl

  start_if-begun :
      (t : Teardown) (dc : DataChannel) (c : Core World C)
      → dc.teardown ≡ t
      → is_asked t ≡ true
      → has_begun (start_if N to_str t dc c).0.teardown ≡ true
  unfolding start_if start_teardown
  start_if-begun scheduled dc c e a = begin-begun (numbers dc.tasks) dc c
  start_if-begun (gathering ns) dc c e a = ap has_begun e
  start_if-begun finished dc c e a = ap has_begun e
  start_if-begun not_started dc c e a = absurd (cc)
  start_if-begun releasing dc c e a = absurd (cc)
  start_if-begun released dc c e a = absurd (cc)

  finish_if-ended :
      (t : Teardown) (dc : DataChannel) (c : Core World C)
      → dc.teardown ≡ t
      → has_begun t ≡ true
      → numbers dc.tasks ≡ []
      → has_ended (finish_if N to_str t dc c).0.teardown ≡ true
  unfolding finish_if finish_teardown
  finish_if-ended (gathering ns) dc c e a none_left = rw (none_left, gathered-nil ns) refl
  finish_if-ended finished dc c e a none_left = ap has_ended e
  finish_if-ended scheduled dc c e a none_left = absurd (cc)
  finish_if-ended not_started dc c e a none_left = absurd (cc)
  finish_if-ended releasing dc c e a none_left = absurd (cc)
  finish_if-ended released dc c e a none_left = absurd (cc)

  -- From a teardown that waits for the tasks.
  ends_from :
      (b d : List (Move (Core World C))) (dc : DataChannel) (c : Core World C)
      → dc.close_requested ≡ true
      → has_begun dc.teardown ≡ true
      → left_after left_by b (numbers dc.tasks) ≡ []
      → has_ended (moves N to_str (b ++ finishes ∷ d) (dc, c)).0.teardown ≡ true
  unfolding moves move
  ends_from b d dc c q begun none_left =
      let s = moves N to_str b (dc, c) in
      let (r, left, on) = moves-Continues has_begun has_begun-IsUpward N to_str b dc c q in
      let e = finish_if-ended s.0.teardown s.0 s.1 refl (on begun) (left ∙ none_left) in
      let (r', left', on') =
        moves-Continues has_ended has_ended-IsUpward N to_str (finishes ∷ []) s.0 s.1 r in
      let z = move N to_str finishes s in
      let (r'', left'', on'') =
        moves-Continues has_ended has_ended-IsUpward N to_str d z.0 z.1 r' in
      rw (moves-append b (finishes ∷ d) (dc, c)) (on'' e)

  -- From a teardown that has been scheduled.
  ends_after_start :
      (a b d : List (Move (Core World C))) (dc : DataChannel) (c : Core World C)
      → dc.close_requested ≡ true
      → is_asked dc.teardown ≡ true
      → left_after left_by (a ++ b) (numbers dc.tasks) ≡ []
      → has_ended (moves N to_str (a ++ (starts ∷ (b ++ finishes ∷ d))) (dc, c)).0.teardown ≡ true
  unfolding moves move left_after
  ends_after_start a b d dc c q asked none_left =
      let s = moves N to_str a (dc, c) in
      let (r, left, on) = moves-Continues is_asked is_asked-IsUpward N to_str a dc c q in
      let (r', left', on') =
        moves-Continues has_begun has_begun-IsUpward N to_str (starts ∷ []) s.0 s.1 r in
      let z = move N to_str starts s in
      rw (moves-append a (starts ∷ (b ++ finishes ∷ d)) (dc, c)) (
        ends_from b d z.0 z.1 r' (start_if-begun s.0.teardown s.0 s.1 refl (on asked)) (
          ap (left_after left_by b) (left' ∙ left)
          ∙ sym (left_after-append left_by a b (numbers dc.tasks))
          ∙ none_left))

  -- A shutdown completes, whatever else happens while it runs and afterwards: once `close` has been
  -- called on a safe channel that was open to calls, and then the task of `_teardown` has been run,
  -- each task that the channel owned at `close` has ended and the task of `_teardown` has been run
  -- again, the teardown has finished, the native handle is released, the open and the closed slot
  -- are resolved and no sender waits.
  pub close_completes :
      (a b d : List (Move (Core World C))) (dc : DataChannel) (c : Core World C)
      → IsSafe dc
      → dc.close_requested ≡ false
      → left_after left_by (a ++ b) (numbers dc.tasks) ≡ []
      → let e = (moves N to_str (closes ∷ (a ++ (starts ∷ (b ++ finishes ∷ d)))) (dc, c)).0 in
        (e.teardown ≡ finished)
        × (e.destroyed ≡ true)
        × (done e.closed_slot ≡ true)
        × (done e.open_slot ≡ true)
        × (e.buffered_low.waiting ≡ [])
  unfolding moves move
  close_completes a b d dc c v o none_left =
      let (asked, closed, kept) = close-asked dc o in
      let run = closes ∷ (a ++ (starts ∷ (b ++ finishes ∷ d))) in
      let safe = moves-IsSafe N to_str run dc c v in
      let ended = ended-finished (moves N to_str run (dc, c)).0.teardown (
        ends_after_start a b d (close dc) c closed asked
          (ap (left_after left_by (a ++ b)) kept ∙ none_left)) in
      let gone = safe.torn_down ended in
      let (shut, open_done, none_wait) = safe.released gone in
      (ended, gone, shut, open_done, none_wait)
