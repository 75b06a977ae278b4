-- ===== src/Channel/Api/Moves/Senders.antt =====
-- `send` of aiolibdatachannel/data_channel.py and the senders that wait for the low-water mark.
use Prim.Native.String.{String}
use mathlib.Core.List.{append-nil, append_assoc}
use aiolibdatachannel.Prelude.{
  ℕ, ◌≡◌, refl, sym, ap, ◌∙◌, Bool, not, ◌&&◌, List, [], ◌∷◌, ◌++◌, if_cases, ltb,
}
use aiolibdatachannel.Errors.{Result, ok, raises, Outcome, returns, fails, blocks}
use aiolibdatachannel.Asyncio.{clear_event, park}
use aiolibdatachannel.Asyncio.GivenUp.{entry_at, waiters_of}
use aiolibdatachannel.Native.{Native, Value}
use aiolibdatachannel.Core.Machine.{Core}
use aiolibdatachannel.Core.Calls
use aiolibdatachannel.Channel.{DataChannel, SendArg, as_bytes, as_str, neither}
use aiolibdatachannel.Channel.Api.{send, resume_send, send_now, after_send, lower_if, is_shut}
use aiolibdatachannel.Channel.Api.Moves.{Move, sends, resumes, cancels_sender, move}

-- The senders that have not gone on yet: first those that are woken.
abbrev pub waiters : DataChannel → List SendArg
waiters dc = waiters_of dc.buffered_low

-- A sender that waits.
abbrev pub parked_if : Outcome (Unit {0}) → SendArg → List SendArg
parked_if blocks a = a ∷ []
parked_if (returns u) a = []
parked_if (fails e) a = []

-- The sender that the loop resumes.
abbrev pub first_of : List SendArg → List SendArg
first_of [] = []
first_of (a ∷ rest) = a ∷ []

-- Senders come to wait behind the others, and some or none of those that wait are woken, behind
-- those woken before.
abbrev pub Advances : List SendArg → DataChannel → DataChannel → Type 0
Advances arrive dc d =
    (moved : List SendArg) × (d.buffered_low.woken ≡ dc.buffered_low.woken ++ moved)
    × (moved ++ d.buffered_low.waiting ≡ dc.buffered_low.waiting ++ arrive)

-- No sender comes to wait.
abbrev pub KeepsWaiters : DataChannel → DataChannel → Type 0
KeepsWaiters dc d = Advances [] dc d

pub stays :
    (dc d : DataChannel)
    → d.buffered_low.woken ≡ dc.buffered_low.woken
    → d.buffered_low.waiting ≡ dc.buffered_low.waiting
    → KeepsWaiters dc d
stays dc d e f =
    ([], e ∙ sym (append-nil dc.buffered_low.woken), f ∙ sym (append-nil dc.buffered_low.waiting))

pub wakes_all :
    (dc d : DataChannel)
    → d.buffered_low.woken ≡ waiters dc
    → d.buffered_low.waiting ≡ []
    → KeepsWaiters dc d
wakes_all dc d e f = (dc.buffered_low.waiting, e, ap (λ l. dc.buffered_low.waiting ++ l) f)

pub Advances-waiters :
    (arrive : List SendArg) (dc d : DataChannel)
    → Advances arrive dc d
    → waiters dc ++ arrive ≡ waiters d
Advances-waiters arrive dc d (moved, e, f) =
    append_assoc dc.buffered_low.woken dc.buffered_low.waiting arrive
    ∙ ap (λ l. dc.buffered_low.woken ++ l) (sym f)
    ∙ sym (append_assoc dc.buffered_low.woken moved d.buffered_low.waiting)
    ∙ ap (λ l. l ++ d.buffered_low.waiting) (sym e)

module _ (N : Native) {C : Type 0} (to_str : Value → String) where
  open N use {World}

  -- The sender that a move makes wait, the one that it lets go on, and the one that it cancels.
  abbrev pub parks : Move (Core World C) → DataChannel × Core World C → List SendArg
  parks (sends a w) (dc, c) = parked_if (send N to_str a w dc c).0 a
  parks m s = []

  abbrev pub goes_on : Move (Core World C) → DataChannel × Core World C → List SendArg
  goes_on resumes (dc, c) = first_of dc.buffered_low.woken
  goes_on m s = []

  abbrev pub gives_up : Move (Core World C) → DataChannel → List SendArg
  gives_up (cancels_sender n) dc = entry_at n (waiters dc)
  gives_up m dc = []

  unfoldable pub parked : List (Move (Core World C)) → DataChannel × Core World C → List SendArg
  parked [] s = []
  parked (m ∷ ms) s = parks m s ++ parked ms (move N to_str m s)

  unfoldable pub gone_on : List (Move (Core World C)) → DataChannel × Core World C → List SendArg
  gone_on [] s = []
  gone_on (m ∷ ms) s = goes_on m s ++ gone_on ms (move N to_str m s)

  unfoldable pub given_up : List (Move (Core World C)) → DataChannel × Core World C → List SendArg
  given_up [] s = []
  given_up (m ∷ ms) s = gives_up m s.0 ++ given_up ms (move N to_str m s)

  -- What a call that sends at once does.
  abbrev pub Ends : SendArg → DataChannel → Outcome (Unit {0}) × DataChannel × Core World C → Type 0
  Ends a dc r = (parked_if r.0 a ≡ []) × KeepsWaiters dc r.1

  lower_if-Ends :
      (a : SendArg) (r : Result ℕ) (dc : DataChannel) (c : Core World C)
      → Ends a dc (lower_if N to_str r dc c)
  unfolding lower_if clear_event
  lower_if-Ends a (raises e) dc c = (refl, stays dc dc refl refl)
  lower_if-Ends a (ok amount) dc c = (
    refl,
    if_cases (KeepsWaiters dc) (ltb 0 amount) _ _
        (λ e. stays dc (record dc { buffered_low = clear_event dc.buffered_low }) refl refl)
        (λ e. stays dc dc refl refl),
  )

  after_send-Ends :
      (a : SendArg) (r : Result (Unit {0}) × Core World C) (dc : DataChannel)
      → Ends a dc (after_send N to_str r dc)
  unfolding after_send
  after_send-Ends a (raises e, c) dc = (refl, stays dc dc refl refl)
  after_send-Ends a (ok u, c) dc =
      if_cases (Ends a dc) dc.buffered_low.flag _ _
        (λ e. lower_if-Ends a (Calls.buffered_amount N to_str dc.native c) dc c)
        (λ e. (refl, stays dc dc refl refl))

  send_now-Ends :
      (a : SendArg) (dc : DataChannel) (c : Core World C) → Ends a dc (send_now N to_str a dc c)
  unfolding send_now
  send_now-Ends (as_bytes d) dc c = after_send-Ends (as_bytes d) _ dc
  send_now-Ends (as_str d) dc c = after_send-Ends (as_str d) _ dc
  send_now-Ends neither dc c = (refl, stays dc dc refl refl)

  pub resume_send-Ends :
      (a : SendArg) (dc : DataChannel) (c : Core World C) → Ends a dc (resume_send N to_str a dc c)
  unfolding resume_send
  resume_send-Ends a dc c =
      if_cases (Ends a dc) (is_shut N to_str dc c) _ _ (λ e. (refl, stays dc dc refl refl))
        (λ e. send_now-Ends a dc c)

  -- One that has ended waits no more; one that waits stands behind the others.
  abbrev pub Queues :
      SendArg → DataChannel → Outcome (Unit {0}) × DataChannel × Core World C → Type 0
  Queues a dc r = Advances (parked_if r.0 a) dc r.1

  Ends-Queues :
      (a : SendArg) (dc : DataChannel) (r : Outcome (Unit {0}) × DataChannel × Core World C)
      → Ends a dc r
      → Queues a dc r
  Ends-Queues a dc r (e, k) = rw e k

  pub send-Queues :
      (a : SendArg) (w : Bool) (dc : DataChannel) (c : Core World C)
      → Queues a dc (send N to_str a w dc c)
  unfolding send park
  send-Queues a w dc c =
      if_cases (Queues a dc) (is_shut N to_str dc c) _ _ (λ e. stays dc dc refl refl)
        (λ e.
          if_cases (Queues a dc) (w && not dc.buffered_low.flag) _ _
            (λ f. ([], sym (append-nil dc.buffered_low.woken), refl))
            (λ f. Ends-Queues a dc (send_now N to_str a dc c) (send_now-Ends a dc c)))
