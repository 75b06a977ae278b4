-- ===== src/Peer/Iterators/Refine.antt =====
-- The queues of a PeerConnection (aiolibdatachannel/peer_connection.py), with the sentinels that
-- its methods put into them, as streams.
use mathlib.Core.List.{append-nil}
use aiolibdatachannel.Prelude.{
  ℕ, ◌≡◌, refl, Bool, true, false, List, [], ◌∷◌, ◌++◌, Option, none, some,
}
use aiolibdatachannel.Asyncio.{somes, somes-append, Queue, get_nowait, put_suppressed}
use aiolibdatachannel.Peer.Iterators.{Round, ends, waits, round, got}
use aiolibdatachannel.Peer.Iterators.Shut.{round-IsShut, put_unbounded}
use aiolibdatachannel.Peer.Iterators.Stream.{
  Stream, Label, emits, yielded, shuts, ended, waited, IsStep, IsRun,
}

-- What happens to a queue: a put, of an item or of the sentinel, or a round of an iterator.
pub data Op {ℓ} (A : Type ℓ) : Type ℓ where
  puts : Option A → Op A
  takes : Op A

module _ {ℓ} {A : Type ℓ} where
  abbrev pub any_none : List (Option A) → Bool
  any_none [] = false
  any_none (none ∷ os) = true
  any_none (some a ∷ os) = any_none os

  -- The view forgets how many sentinels there are and where.
  abbrev pub stream_of : Queue (Option A) → Stream A
  stream_of q = record { pending = somes q.items; shut = any_none q.items }

  unfoldable pub perform : Op A → Queue (Option A) → Queue (Option A)
  perform (puts o) q = put_suppressed q o
  perform takes q = (round q).1

  unfoldable pub perform_all : List (Op A) → Queue (Option A) → Queue (Option A)
  unfolding perform
  perform_all [] q = q
  perform_all (o ∷ os) q = perform_all os (perform o q)

  round_label : Round A → Label A
  round_label (Round.yields a) = yielded a
  round_label ends = ended
  round_label waits = waited

  put_label : Option A → Label A
  put_label none = shuts
  put_label (some a) = emits a

  -- What an operation on the queue is for the stream; a round, by what it does.
  unfoldable pub label : Op A → Queue (Option A) → Label A
  unfolding round_label put_label
  label (puts o) q = put_label o
  label takes q = round_label (round q).0

  unfoldable pub labels : List (Op A) → Queue (Option A) → List (Label A)
  unfolding perform label
  labels [] q = []
  labels (o ∷ os) q = label o q ∷ labels os (perform o q)

  any_none-append :
      (xs : List (Option A)) (o : Option A)
      → any_none (xs ++ o ∷ []) ≡ elim o [ none ↦ true | some a ↦ any_none xs ]
  any_none-append [] none = refl
  any_none-append [] (some a) = refl
  any_none-append (none ∷ xs) none = refl
  any_none-append (none ∷ xs) (some a) = refl
  any_none-append (some b ∷ xs) none = any_none-append xs none
  any_none-append (some b ∷ xs) (some a) = any_none-append xs (some a)

  put-IsStep :
      (o : Option A) (q : Queue (Option A))
      → IsStep (stream_of q) (put_label o) (stream_of (record q { items = q.items ++ o ∷ [] }))
  unfolding put_label IsStep
  put-IsStep none q =
      rw
        (somes-append q.items (none ∷ []), any_none-append q.items none, append-nil (somes q.items))
        refl
  put-IsStep (some a) q =
      rw (somes-append q.items (some a ∷ []), any_none-append q.items (some a)) refl

  round-IsStep :
      (n : ℕ) (xs : List (Option A))
      → n ≡ 0
      → let q : Queue (Option A) = record { maxsize = n; items = xs } in
        IsStep (stream_of q) (round_label (round q).0) (stream_of (round q).1)
  unfolding round got get_nowait round_label IsStep
  round-IsStep n [] e = (refl, refl, refl)
  round-IsStep n (some a ∷ xs) e = refl
  round-IsStep n (none ∷ xs) e = rw (put_unbounded (record { maxsize = n; items = xs }) none e) (
      rw (somes-append xs (none ∷ []), any_none-append xs none, append-nil (somes xs)) (refl, refl))

  perform-IsStep :
      (o : Op A) (q : Queue (Option A))
      → q.maxsize ≡ 0
      → IsStep (stream_of q) (label o q) (stream_of (perform o q))
  unfolding perform label
  perform-IsStep (puts o) q e = rw (put_unbounded q o e) (put-IsStep o q)
  perform-IsStep takes q e = round-IsStep q.maxsize q.items e

  perform-maxsize : (o : Op A) (q : Queue (Option A)) → q.maxsize ≡ 0 → (perform o q).maxsize ≡ 0
  unfolding perform
  perform-maxsize (puts o) q e = rw (put_unbounded q o e) e
  perform-maxsize takes q e = (round-IsShut false q (e, λ f. absurd (cc))).0

  -- A queue with no bound runs as a stream: whatever is put into it and however often iterators
  -- take a round, the items that they yield, their ends and their waits are a run of the stream
  -- that the queue stands for, where a reader ends only on a shut stream and waits only on an empty
  -- one that is not shut.
  pub perform_all-IsRun :
      (os : List (Op A)) (q : Queue (Option A))
      → q.maxsize ≡ 0
      → IsRun (stream_of q) (labels os q) (stream_of (perform_all os q))
  unfolding perform_all labels IsRun
  perform_all-IsRun [] q e = refl
  perform_all-IsRun (o ∷ os) q e = (
    stream_of (perform o q),
    perform-IsStep o q e,
    perform_all-IsRun os (perform o q) (perform-maxsize o q e),
  )

  pub perform_all-maxsize :
      (os : List (Op A)) (q : Queue (Option A)) → q.maxsize ≡ 0 → (perform_all os q).maxsize ≡ 0
  unfolding perform_all
  perform_all-maxsize [] q e = e
  perform_all-maxsize (o ∷ os) q e = perform_all-maxsize os (perform o q) (perform-maxsize o q e)
