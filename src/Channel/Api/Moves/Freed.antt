-- ===== src/Channel/Api/Moves/Freed.antt =====
-- What the senders that wait for a DataChannel (aiolibdatachannel/data_channel.py) get when it is
-- destroyed.
use Prim.Native.String.{String}
use aiolibdatachannel.Prelude.{◌≡◌, refl, ap, ◌∙◌, true, false, List, [], ◌∷◌, All}
use aiolibdatachannel.Errors.{closed_error, Outcome, fails}
use aiolibdatachannel.Asyncio.{Event}
use aiolibdatachannel.Native.{Native, Value}
use aiolibdatachannel.Core.Machine.{Core}
use aiolibdatachannel.Channel.{DataChannel, SendArg}
use aiolibdatachannel.Channel.Api.{destroy, resume_send}
use aiolibdatachannel.Channel.Api.Moves.{Move, resumes, destroys, move, moves, resume_first}
use aiolibdatachannel.Channel.Api.Moves.Senders.{waiters, gone_on}
use aiolibdatachannel.Channel.Api.Moves.Served.{destroy-wakes}

module _ (N : Native) {C : Type 0} (to_str : Value → String) where
  open N use {World}

  -- The loop resumes one sender for each of these.
  abbrev pub resumes_for : List SendArg → List (Move (Core World C))
  resumes_for [] = []
  resumes_for (a ∷ as_) = resumes ∷ resumes_for as_

  resume_shut :
      (a : SendArg) (d : DataChannel) (c : Core World C)
      → d.destroyed ≡ true
      → resume_send N to_str a d c
        ≡ (fails (closed_error "channel closed while waiting to send"), d, c)
  unfolding resume_send
  resume_shut a d c gone = rw gone refl

  all_raise :
      (as_ : List SendArg) (d : DataChannel) (c : Core World C)
      → d.destroyed ≡ true
      → All
          (λ (a : SendArg).
            (resume_send N to_str a d c).0
            ≡ fails (closed_error "channel closed while waiting to send"))
          as_
  all_raise [] d c gone = tt
  all_raise (a ∷ as_) d c gone = (
    ap (λ (r : Outcome (Unit {0}) × DataChannel × Core World C). r.0) (resume_shut a d c gone),
    all_raise as_ d c gone,
  )

  all_go_on :
      (as_ : List SendArg) (d : DataChannel) (c : Core World C)
      → d.destroyed ≡ true
      → let s : DataChannel × Core World C =
          (record d { buffered_low = record (d.buffered_low) { woken = as_ } }, c) in
        (moves N to_str (resumes_for as_) s
          ≡ (record d { buffered_low = record (d.buffered_low) { woken = [] } }, c))
        × (gone_on N to_str (resumes_for as_) s ≡ as_)
  unfolding moves move resume_first gone_on
  all_go_on [] d c gone = (refl, refl)
  all_go_on (a ∷ as_) d c gone =
      let now = record d { buffered_low = record (d.buffered_low) { woken = as_ } } in
      let step : move N to_str resumes
            (record d { buffered_low = record (d.buffered_low) { woken = a ∷ as_ } }, c)
          ≡ (now, c) =
        ap (λ (r : Outcome (Unit {0}) × DataChannel × Core World C). (r.1, r.2))
          (resume_shut a now c gone) in
      let (p, q) = all_go_on as_ d c gone in
      (
        ap (moves N to_str (resumes_for as_)) step ∙ p,
        ap (λ s. a ∷ gone_on N to_str (resumes_for as_) s) step ∙ ap (λ l. a ∷ l) q,
      )

  -- Destroying a channel frees its senders: when a channel is destroyed that was not, and the loop
  -- then resumes as many senders as waited, with nothing in between, all that waited go on, in the
  -- order in which they came; each raises ConnectionClosedError; and apart from their leaving the
  -- event neither the channel nor the extension and its wrappers are touched.
  pub destroyed_frees_senders :
      (dc : DataChannel) (c : Core World C)
      → dc.destroyed ≡ false
      → let s = move N to_str destroys (dc, c) in
        let rs = resumes_for (waiters dc) in
        (moves N to_str rs s
          ≡ (record (s.0) { buffered_low = record { flag = true; waiting = []; woken = [] } }, s.1))
        × (gone_on N to_str rs s ≡ waiters dc)
        × All
            (λ (a : SendArg).
              (resume_send N to_str a s.0 s.1).0
              ≡ fails (closed_error "channel closed while waiting to send"))
            (waiters dc)
  unfolding move
  destroyed_frees_senders dc c o =
      let r = destroy N to_str dc c in
      let (all, gone) = destroy-wakes N to_str dc c o in
      let set : Event SendArg = record { flag = true; waiting = []; woken = waiters dc } in
      let same : ◌≡◌ {A = DataChannel × Core World C} (r.0, r.1)
          (record (r.0) { buffered_low = set }, r.1) =
        ap (λ (b : Event SendArg). (record (r.0) { buffered_low = b }, r.1)) all in
      let (p, q) = all_go_on (waiters dc) (record (r.0) { buffered_low = set }) r.1 gone in
      (
        ap (moves N to_str (resumes_for (waiters dc))) same ∙ p,
        ap (gone_on N to_str (resumes_for (waiters dc))) same ∙ q,
        all_raise (waiters dc) r.0 r.1 gone,
      )
