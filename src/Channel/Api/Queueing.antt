-- ===== src/Channel/Api/Queueing.antt =====
-- What the handlers and readers of a DataChannel (aiolibdatachannel/data_channel.py) do to the
-- messages in its queue.
use mathlib.Core.List.{append-nil}
use aiolibdatachannel.Prelude.{
  ℕ, ◌≡◌, refl, subst, List, [], ◌∷◌, ◌++◌, Option, none, some, Bool-cases, inl, inr,
}
use aiolibdatachannel.Prelude.Subsequence.{
  IsSubsequence, IsSubsequence-refl, IsSubsequence-append, IsSubsequence-trans,
  IsSubsequence-append_right,
}
use aiolibdatachannel.Errors.{Outcome, returns, fails, blocks}
use aiolibdatachannel.Asyncio.{
  Queue, put_nowait, get_nowait, put_suppressed, full, somes, somes-append,
}
use aiolibdatachannel.Channel.{DataChannel, Message, handle_closed, put_latest, on_full, dropped}
use aiolibdatachannel.Channel.Api.{recv, took, reinject}

-- The messages that wait for a reader.
abbrev pub queued : DataChannel → List Message
queued dc = somes dc.recv_queue.items

abbrev pub returned : Outcome Message → List Message
returned (returns m) = m ∷ []
returned (fails e) = []
returned blocks = []

-- Nothing new is in the queue, and the order is kept.
abbrev pub Shrinks : DataChannel → DataChannel → Type 0
Shrinks dc d = IsSubsequence (queued d) (queued dc)

-- A put appends the item, or leaves the queue as it is.
put_cases :
    (P : List (Option Message) → Type 0) (q : Queue (Option Message)) (o : Option Message)
    → P q.items
    → P (q.items ++ o ∷ [])
    → P (put_suppressed q o).items
unfolding put_suppressed put_nowait
put_cases P q o same more = elim (Bool-cases (full q)) [
  | inl e ↦ rw (put_suppressed, e) same
  | inr e ↦ rw (put_suppressed, e) more
]

put-IsSubsequence :
    (q : Queue (Option Message)) (o : Option Message)
    → IsSubsequence (somes (put_suppressed q o).items) (somes q.items ++ somes (o ∷ []))
put-IsSubsequence q o =
    put_cases (λ l. IsSubsequence (somes l) (somes q.items ++ somes (o ∷ []))) q o
      (IsSubsequence-append_right (somes q.items) (somes (o ∷ [])))
      (rw (somes-append q.items (o ∷ [])) (IsSubsequence-refl (somes q.items ++ somes (o ∷ []))))

pub put_none-IsSubsequence :
    (q : Queue (Option Message))
    → IsSubsequence (somes (put_suppressed q none).items) (somes q.items)
put_none-IsSubsequence q =
    subst (IsSubsequence (somes (put_suppressed q none).items)) (append-nil (somes q.items))
      (put-IsSubsequence q none)

pub handle_closed-Shrinks : (dc : DataChannel) → Shrinks dc (handle_closed dc)
unfolding handle_closed
handle_closed-Shrinks dc = put_none-IsSubsequence dc.recv_queue

dropped-IsSubsequence :
    (n : ℕ) (xs : List (Option Message))
    → let q : Queue (Option Message) = record { maxsize = n; items = xs } in
      IsSubsequence (somes (dropped (get_nowait q) q).items) (somes xs)
unfolding dropped get_nowait
dropped-IsSubsequence n [] = refl
dropped-IsSubsequence n (none ∷ xs) = IsSubsequence-refl (somes xs)
dropped-IsSubsequence n (some m ∷ xs) = inl (IsSubsequence-refl (somes xs))

pub put_latest-IsSubsequence :
    (m : Message) (q : Queue (Option Message))
    → IsSubsequence (somes (put_latest m q).items) (somes q.items ++ m ∷ [])
unfolding put_latest put_nowait on_full
put_latest-IsSubsequence m q = elim (Bool-cases (full q)) [
  | inl e ↦
      let q' = dropped (get_nowait q) q in
      rw e (
        IsSubsequence-trans _ (somes q'.items ++ m ∷ []) _ (put-IsSubsequence q' (some m)) (
          IsSubsequence-append (somes q'.items) (somes q.items) (m ∷ []) (m ∷ [])
            (dropped-IsSubsequence q.maxsize q.items) (IsSubsequence-refl (m ∷ []))))
  | inr e ↦
      rw (e, somes-append q.items (some m ∷ [])) (IsSubsequence-refl (somes q.items ++ m ∷ []))
]

took-IsSubsequence :
    (n : ℕ) (xs : List (Option Message)) (dc : DataChannel)
    → let r = took (get_nowait (record { maxsize = n; items = xs })) dc in
      dc.recv_queue ≡ record { maxsize = n; items = xs }
      → IsSubsequence (returned r.0 ++ queued r.1) (somes xs)
unfolding took get_nowait reinject put_nowait
took-IsSubsequence n [] dc e = rw e refl
took-IsSubsequence n (some m ∷ xs) dc e = IsSubsequence-refl (m ∷ somes xs)
took-IsSubsequence n (none ∷ xs) dc e =
    elim (Bool-cases (full (record { maxsize = n; items = xs }))) [
      | inl f ↦ rw f (IsSubsequence-refl (somes xs))
      | inr f ↦
          rw (f, somes-append xs (none ∷ []), append-nil (somes xs)) (IsSubsequence-refl (somes xs))
    ]

-- What a reader gets was the oldest in the queue.
pub recv-IsSubsequence :
    (dc : DataChannel) → IsSubsequence (returned (recv dc).0 ++ queued (recv dc).1) (queued dc)
unfolding recv
recv-IsSubsequence dc = took-IsSubsequence dc.recv_queue.maxsize dc.recv_queue.items dc refl
