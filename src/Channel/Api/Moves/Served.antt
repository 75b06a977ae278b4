-- ===== src/Channel/Api/Moves/Served.antt =====
-- What wakes the senders that wait for a DataChannel (aiolibdatachannel/data_channel.py), and what
-- becomes of them.
use Prim.Native.String.{String}
use mathlib.Core.List.{append-nil, append_assoc}
use aiolibdatachannel.Prelude.{
  ℕ, ◌+◌, ◌≤◌, ◌≡◌, refl, sym, ap, subst, inl, ◌∙◌, Bool, true, false, not, List, [], ◌∷◌, ◌++◌,
  arith, length,
}
use aiolibdatachannel.Prelude.Subsequence.{
  IsSubsequence, IsSubsequence-refl, IsSubsequence-append, IsSubsequence-trans,
}
use aiolibdatachannel.Asyncio.{Event, set_event, remove_either, give_up}
use aiolibdatachannel.Asyncio.GivenUp.{remove_either-split}
use aiolibdatachannel.Native.{Native, Value}
use aiolibdatachannel.Core.Machine.{Core}
use aiolibdatachannel.Channel.{DataChannel, SendArg, closed_down, drained, run_call, handle_closed}
use aiolibdatachannel.Channel.Api.{destroy}
use aiolibdatachannel.Channel.Api.Moves.{
  Move, runs, resumes, destroys, cancels_sender, move, moves, resume_first,
}
use aiolibdatachannel.Channel.Api.Moves.Senders.{
  waiters, Advances, parks, parked, gone_on, given_up,
}
use aiolibdatachannel.Channel.Api.Moves.Order.{move-Advances, resume_first-waiters, waiters_after}

-- How often the loop resumes the sender that was woken first.
abbrev counts : {S : Type 0} → Move S → ℕ
counts resumes = 1
counts m = 0

unfoldable pub resumptions : {S : Type 0} → List (Move S) → ℕ
resumptions [] = 0
resumptions (m ∷ ms) = counts m + resumptions ms

-- Of the woken senders, a first part is left that is no longer than so many; behind it there are
-- just those that were behind it, some left out, and those that arrive.
abbrev Goes : List SendArg → List SendArg → ℕ → DataChannel → DataChannel → Type 0
Goes back arrive k dc d =
    (first : List SendArg) × (rest : List SendArg) × (d.buffered_low.woken ≡ first ++ rest)
    × (length first ≤ k)
    × IsSubsequence (rest ++ d.buffered_low.waiting) ((back ++ dc.buffered_low.waiting) ++ arrive)

Advances-Goes :
    (first back arrive : List SendArg) (k : ℕ) (dc d : DataChannel)
    → dc.buffered_low.woken ≡ first ++ back
    → length first ≤ k
    → Advances arrive dc d
    → Goes back arrive k dc d
Advances-Goes first back arrive k dc d e h (moved, f, g) =
    let same : (back ++ moved) ++ d.buffered_low.waiting
        ≡ (back ++ dc.buffered_low.waiting) ++ arrive =
      append_assoc back moved d.buffered_low.waiting
      ∙ ap (λ l. back ++ l) g
      ∙ sym (append_assoc back dc.buffered_low.waiting arrive) in
    (
      first,
      back ++ moved,
      f ∙ ap (λ l. l ++ moved) e ∙ append_assoc first back moved,
      h,
      rw same (IsSubsequence-refl ((back ++ dc.buffered_low.waiting) ++ arrive)),
    )

cancelled-Goes :
    (n k : ℕ) (first back woken : List SendArg) (dc : DataChannel)
    → woken ≡ first ++ back
    → length first ≤ k
    → let r = remove_either n woken dc.buffered_low.waiting in
      Goes back [] k dc
        (record dc { buffered_low = record (dc.buffered_low) { woken = r.0; waiting = r.1 } })
cancelled-Goes n k first back woken dc e h =
    let (f, r, g, l, s) = remove_either-split n first back dc.buffered_low.waiting in
    rw e (f, r, g, omega (arith, l, h), rw (append-nil (back ++ dc.buffered_low.waiting)) s)

module _ (N : Native) {C : Type 0} (to_str : Value → String) where
  open N use {World}

  resumed-Goes :
      (first back as_ : List SendArg) (k : ℕ) (dc : DataChannel) (c : Core World C)
      → as_ ≡ first ++ back
      → dc.buffered_low.woken ≡ as_
      → length first ≤ 1 + k
      → Goes back [] k dc (resume_first N to_str as_ dc c).0
  unfolding resume_first
  resumed-Goes [] back [] k dc c e w h =
      ([], [], w, omega arith, rw (← e, append-nil dc.buffered_low.waiting) (IsSubsequence-refl _))
  resumed-Goes (b ∷ first) back [] k dc c e w h = absurd (cc)
  resumed-Goes [] back (a ∷ rest) k dc c e w h =
      let now = record dc { buffered_low = record (dc.buffered_low) { woken = rest } } in
      let (f, r, g, l, s) =
        Advances-Goes [] rest [] k now (resume_first N to_str (a ∷ rest) dc c).0 refl (omega arith)
          (resume_first-waiters N to_str a rest dc c) in
      (f, r, g, l, rw (← e) (inl s))
  resumed-Goes (b ∷ first) back (a ∷ rest) k dc c e w h =
      let now = record dc { buffered_low = record (dc.buffered_low) { woken = rest } } in
      Advances-Goes first back [] k now (resume_first N to_str (a ∷ rest) dc c).0 (cc)
        (omega (arith, h)) (resume_first-waiters N to_str a rest dc c)

  move-Goes :
      (m : Move (Core World C)) (first back : List SendArg) (k : ℕ) (dc : DataChannel)
      (c : Core World C)
      → dc.buffered_low.woken ≡ first ++ back
      → length first ≤ counts m + k
      → Goes back (parks N to_str m (dc, c)) k dc (move N to_str m (dc, c)).0
  unfolding move give_up
  move-Goes resumes first back k dc c e h =
      resumed-Goes first back dc.buffered_low.woken k dc c e refl h
  move-Goes (cancels_sender n) first back k dc c e h =
      cancelled-Goes n k first back dc.buffered_low.woken dc e (omega (arith, h))
  move-Goes m first back k dc c e h =
      Advances-Goes first back (parks N to_str m (dc, c)) k dc (move N to_str m (dc, c)).0 e
        (omega (arith, h)) (move-Advances N to_str m dc c refl)

  moves-Goes :
      (ms : List (Move (Core World C))) (first back : List SendArg) (dc : DataChannel)
      (c : Core World C)
      → dc.buffered_low.woken ≡ first ++ back
      → length first ≤ resumptions ms
      → IsSubsequence
          (waiters (moves N to_str ms (dc, c)).0)
          ((back ++ dc.buffered_low.waiting) ++ parked N to_str ms (dc, c))
  unfolding moves parked resumptions
  moves-Goes [] [] back dc c e h =
      rw (append-nil (back ++ dc.buffered_low.waiting), e) (IsSubsequence-refl _)
  moves-Goes [] (a ∷ first) back dc c e h = absurd (omega (arith, h))
  moves-Goes (m ∷ ms) first back dc c e h =
      let (d, c') = move N to_str m (dc, c) in
      let (first', rest, e', h', s) = move-Goes m first back (resumptions ms) dc c e h in
      let later = parked N to_str ms (d, c') in
      let now =
        IsSubsequence-append (rest ++ d.buffered_low.waiting)
          ((back ++ dc.buffered_low.waiting) ++ parks N to_str m (dc, c)) later later s
          (IsSubsequence-refl later) in
      rw (← append_assoc (back ++ dc.buffered_low.waiting) (parks N to_str m (dc, c)) later)
        (IsSubsequence-trans _ _ _ (moves-Goes ms first' rest d c' e' h') now)

  -- The moves that set the event: the channel closes or is destroyed, or its buffer has drained.
  abbrev pub sets_event : Move (Core World C) → DataChannel → Bool
  sets_event (runs closed_down) dc = true
  sets_event (runs drained) dc = true
  sets_event destroys dc = not dc.destroyed
  sets_event m dc = false

  -- A channel that is destroyed wakes all.
  pub destroy-wakes :
      (dc : DataChannel) (c : Core World C)
      → dc.destroyed ≡ false
      → let d = (destroy N to_str dc c).0 in
        (d.buffered_low ≡ record { flag = true; waiting = []; woken = waiters dc })
        × (d.destroyed ≡ true)
  unfolding destroy handle_closed set_event
  destroy-wakes dc c o = rw o (refl, refl)

  sets_event-woken :
      (m : Move (Core World C)) (dc : DataChannel) (c : Core World C)
      → sets_event m dc ≡ true
      → (move N to_str m (dc, c)).0.buffered_low
        ≡ record { flag = true; waiting = []; woken = waiters dc }
  unfolding move run_call handle_closed set_event
  sets_event-woken (runs closed_down) dc c e = refl
  sets_event-woken (runs drained) dc c e = refl
  sets_event-woken destroys dc c e = (destroy-wakes dc c (ground (arith, e))).0
  sets_event-woken m dc c e = absurd (cc)

  -- Those who wait for the low-water mark are served. Whatever a channel has gone through, and once
  -- it closes, is destroyed or its buffer has drained, and whatever happens then: as soon as the loop
  -- has resumed a sender as often as there were senders that waited, whoever still waits has come
  -- afterwards, so that each of them has gone on or been cancelled. Those that have gone on, each
  -- once, and then those that wait, the woken ones first, stand in the order in which they came to
  -- wait, and those missing among them are as many as have been cancelled. A sender that finds the
  -- flag up does not wait, and is not counted: it may send before one that is woken but not resumed.
  pub waiters_served :
      (m : Move (Core World C)) (ms : List (Move (Core World C))) (dc : DataChannel)
      (c : Core World C)
      → sets_event m dc ≡ true
      → length (waiters dc) ≤ resumptions ms
      → let s = move N to_str m (dc, c) in
        let still = waiters (moves N to_str ms s).0 in
        IsSubsequence still (parked N to_str ms s)
        × IsSubsequence (gone_on N to_str ms s ++ still) (waiters dc ++ parked N to_str ms s)
        × (length (waiters dc ++ parked N to_str ms s)
            ≡ length (gone_on N to_str ms s ++ still) + length (given_up N to_str ms s))
  waiters_served m ms dc c sets enough =
      let (d, e) = move N to_str m (dc, c) in
      let all = sets_event-woken m dc c sets in
      let woken : d.buffered_low.woken ≡ waiters dc = ap (λ (b : Event SendArg). b.woken) all in
      let waiting : d.buffered_low.waiting ≡ [] = ap (λ (b : Event SendArg). b.waiting) all in
      let same : waiters d ≡ waiters dc =
        ap (λ l. d.buffered_low.woken ++ l) waiting ∙ append-nil d.buffered_low.woken ∙ woken in
      let (order, count) = waiters_after N to_str ms d e in
      (
        subst
            (λ (l : List SendArg).
              IsSubsequence (waiters (moves N to_str ms (d, e)).0) (l ++ parked N to_str ms (d, e)))
            waiting
            (moves-Goes ms (waiters dc) [] d e (woken ∙ sym (append-nil (waiters dc))) enough),
        subst
            (λ (l : List SendArg).
              IsSubsequence (gone_on N to_str ms (d, e) ++ waiters (moves N to_str ms (d, e)).0)
                (l ++ parked N to_str ms (d, e)))
            same order,
        ap (λ (l : List SendArg). length (l ++ parked N to_str ms (d, e))) (sym same) ∙ count,
      )
