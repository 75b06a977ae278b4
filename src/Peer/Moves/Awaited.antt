-- ===== src/Peer/Moves/Awaited.antt =====
-- Who resolves the future that `create_offer` and `create_answer` await
-- (aiolibdatachannel/peer_connection.py).
pub mod Frame
pub mod Settled
use Prim.Native.String.{String}
use aiolibdatachannel.Prelude.{
  inl, inr, Bool-cases, ℕ, ◌≡◌, refl, ap, ◌∙◌, Bool, true, false, List, [], ◌∷◌, ◌++◌, Option, none,
  some, arith, length, get_elem?, if_cases, if◌then◌else◌, get_elem?-append_last, get_elem?-append,
}
use aiolibdatachannel.Errors.{ok, raises, Result, Outcome}
use aiolibdatachannel.Native.{Native, Value, Name}
use aiolibdatachannel.Loop.{
  renew, set, step, FutureState, pending, cancelled, result, FutureSlot, is_done, set_slot, reset,
  cancel, cancel_waiter, futures,
}
use aiolibdatachannel.Loop.Latch.{IsAt, step-IsAt, resolve-IsAt}
use aiolibdatachannel.Core.Machine.{Core}
use aiolibdatachannel.Tasks.{
  Teardown, not_started, scheduled, gathering, releasing, released, finished, numbers,
}
use aiolibdatachannel.Channel.{DataChannel}
use aiolibdatachannel.Channel.Api.Moves
use aiolibdatachannel.Peer.{
  PeerConnection, SdpType, emit, is_final, is_complete, resolve_pending, complete_gathering,
  created, handle_incoming_dc, handle_state_change, handle_gathering_state,
  handle_local_description, handle_local_candidate, handle_ice_state, handle_signaling_state,
  add_channel, accept_channel,
}
use aiolibdatachannel.Peer.Callbacks.{
  Call, described, found, state_changed, ice_changed, gathering_changed, signaling_changed,
  channel_came, run_call,
}
use aiolibdatachannel.Peer.Negotiation.Frame.{
  create_offer-gathering, create_answer-gathering, set_local_description-pc,
}
use aiolibdatachannel.Peer.Remote.{Candidate, take_buffered, add_remote_candidate}
use aiolibdatachannel.Peer.Iterators.{accept_data_channel}
use aiolibdatachannel.Peer.Lifecycle.{
  spawn_task, close, end_teardown, release_channels, execute_destroy,
}
use aiolibdatachannel.Peer.Lifecycle.Made.{create_data_channel-pc, start_teardown-pc}
use aiolibdatachannel.Peer.Moves.{
  Move, runs, offers, answers, describes, candidate, described_remotely, next_candidate, next_event,
  accepts, makes, spawns, closes, starts, finishes, executes, ends, task_ends, owned,
  cancels_gathering, cancels_description, changes, move, moves, start_if, finish_if, execute_if,
  end_if, move_channel,
}

-- What a move makes of a future that somebody awaits: a result when the extension has completed the
-- gathering or has reported CLOSED or FAILED; cancelled when another offer or answer takes its place,
-- or when its own coroutine is cancelled; and else it is pending as before.
abbrev pub settled_by : {S : Type 0} → Move S → Bool → FutureState (Unit {0})
settled_by (runs (state_changed s)) closed = if is_final s then result tt else pending
settled_by (runs (gathering_changed s)) closed = if is_complete s then result tt else pending
settled_by offers closed = if closed then pending else cancelled
settled_by answers closed = cancelled
settled_by cancels_gathering closed = cancelled
settled_by m closed = pending

-- What it makes of the slot.
unfoldable pub slot_after :
    {S : Type 0} → Move S → Bool → FutureSlot (Unit {0}) → FutureSlot (Unit {0})
slot_after (runs (state_changed s)) closed g = if is_final s then set_slot tt g else g
slot_after (runs (gathering_changed s)) closed g = if is_complete s then set_slot tt g else g
slot_after offers closed g = if closed then g else reset g
slot_after answers closed g = reset g
slot_after cancels_gathering closed g = cancel_waiter g
slot_after m closed g = g

module _ (g : FutureSlot (Unit {0})) where
  abbrev pub last : ℕ
  last = length g.replaced

  set-settles : g.future.state ≡ pending → IsAt (set_slot tt g) last (result tt)
  unfolding set_slot is_done
  set-settles p = rw p (_, get_elem?-append_last g.replaced _, refl)

  reset-settles : g.future.state ≡ pending → IsAt (reset g) last cancelled
  unfolding reset cancel is_done
  reset-settles p = rw p (
    _,
    get_elem?-append (g.replaced ++ _ ∷ []) _ last _ (get_elem?-append_last g.replaced _),
    refl,
  )

  cancel-settles : g.future.state ≡ pending → IsAt (cancel_waiter g) last cancelled
  unfolding cancel is_done
  cancel-settles p = rw p (_, get_elem?-append_last g.replaced _, refl)

  still : g.future.state ≡ pending → IsAt g last pending
  still p = (g.future, get_elem?-append_last g.replaced g.future, p)

cancel_waiter-IsAt :
    (g : FutureSlot (Unit {0})) (i : ℕ) (st : FutureState (Unit {0}))
    → is_done st ≡ true
    → IsAt g i st
    → IsAt (cancel_waiter g) i st
unfolding cancel
cancel_waiter-IsAt g i st d h = resolve-IsAt g (cancel_waiter g) i st refl (λ e. rw e refl) d h

module _ {S : Type 0} where
  pub slot_after-settles :
      (m : Move S) (b : Bool) (g : FutureSlot (Unit {0}))
      → g.future.state ≡ pending
      → IsAt (slot_after m b g) (last g) (settled_by m b)
  unfolding slot_after
  slot_after-settles (runs (state_changed s)) b g p = elim (Bool-cases (is_final s)) [
    | inl e ↦ rw e (set-settles g p)
    | inr e ↦ rw e (still g p)
  ]
  slot_after-settles (runs (gathering_changed s)) b g p = elim (Bool-cases (is_complete s)) [
    | inl e ↦ rw e (set-settles g p)
    | inr e ↦ rw e (still g p)
  ]
  slot_after-settles offers true g p = still g p
  slot_after-settles offers false g p = reset-settles g p
  slot_after-settles answers b g p = reset-settles g p
  slot_after-settles cancels_gathering b g p = cancel-settles g p
  slot_after-settles m b g p = still g p

  pub slot_after-same :
      (m : Move S) (b : Bool) (g : FutureSlot (Unit {0}))
      → settled_by m b ≡ pending
      → slot_after m b g ≡ g
  unfolding slot_after
  slot_after-same (runs (state_changed s)) b g e = elim (Bool-cases (is_final s)) [
    | inl f ↦ absurd (ground (arith, e, f))
    | inr f ↦ rw f refl
  ]
  slot_after-same (runs (gathering_changed s)) b g e = elim (Bool-cases (is_complete s)) [
    | inl f ↦ absurd (ground (arith, e, f))
    | inr f ↦ rw f refl
  ]
  slot_after-same offers true g e = refl
  slot_after-same offers false g e = absurd (cc)
  slot_after-same answers b g e = absurd (cc)
  slot_after-same cancels_gathering b g e = absurd (cc)
  slot_after-same m b g e = refl

  -- A future that is done stays as it is.
  pub slot_after-IsAt :
      (m : Move S) (b : Bool) (g : FutureSlot (Unit {0})) (i : ℕ) (st : FutureState (Unit {0}))
      → is_done st ≡ true
      → IsAt g i st
      → IsAt (slot_after m b g) i st
  unfolding slot_after step
  slot_after-IsAt (runs (state_changed s)) b g i st d h =
      if_cases (λ t. IsAt t i st) (is_final s) _ _ (λ e. step-IsAt (set tt) g i st d h) (λ e. h)
  slot_after-IsAt (runs (gathering_changed s)) b g i st d h =
      if_cases (λ t. IsAt t i st) (is_complete s) _ _ (λ e. step-IsAt (set tt) g i st d h) (λ e. h)
  slot_after-IsAt offers true g i st d h = h
  slot_after-IsAt offers false g i st d h = step-IsAt renew g i st d h
  slot_after-IsAt answers b g i st d h = step-IsAt renew g i st d h
  slot_after-IsAt cancels_gathering b g i st d h = cancel_waiter-IsAt g i st d h
  slot_after-IsAt m b g i st d h = h
