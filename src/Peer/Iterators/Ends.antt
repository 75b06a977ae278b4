-- ===== src/Peer/Iterators/Ends.antt =====
-- When the iterators of aiolibdatachannel/peer_connection.py end.
use aiolibdatachannel.Prelude.{
  ℕ, zero, suc, ◌≤◌, ◌≡◌, refl, ap, true, List, [], ◌∷◌, ◌++◌, Option, none, some, arith, length,
}
use aiolibdatachannel.Asyncio.{
  Queue, full, get_nowait, put_suppressed, HasSentinel, HasSentinel-append_right, before_sentinel,
}
use aiolibdatachannel.Peer.Iterators.{yields, ends, round, item_first, iterate}

module _ {ℓ} {A : Type ℓ} where
  -- A queue with no bound, with the items.
  abbrev pub queue : List (Option A) → Queue (Option A)
  queue xs = record { maxsize = 0; items = xs }

  round-item : (a : A) (xs : List (Option A)) → round (queue (some a ∷ xs)) ≡ (yields a, queue xs)
  unfolding round get_nowait
  round-item a xs = refl

  round-sentinel :
      (xs : List (Option A)) → round (queue (none ∷ xs)) ≡ (ends, queue (xs ++ none ∷ []))
  unfolding round get_nowait put_suppressed full
  round-sentinel xs = ground arith

  -- With a sentinel in the queue an iterator yields what stands in front of it, in order, and
  -- ends.
  pub iterate-sentinel :
      (n : ℕ) (xs : List (Option A))
      → HasSentinel xs
      → length xs ≤ n
      → iterate n (queue xs) ≡ record { items = before_sentinel xs; ended = true }
  unfolding iterate
  iterate-sentinel n [] s h = absurd s
  iterate-sentinel zero (none ∷ xs) s h = absurd (omega arith)
  iterate-sentinel zero (some a ∷ xs) s h = absurd (omega arith)
  iterate-sentinel (suc n) (none ∷ xs) s h = rw (round-sentinel xs)
  iterate-sentinel (suc n) (some a ∷ xs) s h =
      rw (round-item a xs) (ap (item_first a) (iterate-sentinel n xs s (omega arith)))

  -- A round leaves a sentinel in a queue that has one, for the next iterator.
  pub round-HasSentinel :
      (xs : List (Option A))
      → HasSentinel xs
      → HasSentinel (round (queue xs)).1.items × ((round (queue xs)).1.maxsize ≡ 0)
  round-HasSentinel [] s = absurd s
  round-HasSentinel (none ∷ xs) s =
      rw (round-sentinel xs) (HasSentinel-append_right xs (none ∷ []) tt, refl)
  round-HasSentinel (some a ∷ xs) s = rw (round-item a xs) (s, refl)
