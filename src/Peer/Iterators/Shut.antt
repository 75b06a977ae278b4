-- ===== src/Peer/Iterators/Shut.antt =====
-- The queues of a PeerConnection (aiolibdatachannel/peer_connection.py) before and after `close`.
use aiolibdatachannel.Prelude.{ℕ, ◌≡◌, Bool, true, List, [], ◌∷◌, ◌++◌, Option, none, some, arith}
use aiolibdatachannel.Asyncio.{
  Queue, full, put_nowait, get_nowait, put_suppressed, HasSentinel, HasSentinel-append_left,
  HasSentinel-append_right,
}
use aiolibdatachannel.Peer.Iterators.{round, got}

-- A queue with no bound, which has a sentinel once `closed`.
abbrev pub IsShut {ℓ} : {A : Type ℓ} → Bool → Queue (Option A) → Type 0
IsShut closed q = (q.maxsize ≡ 0) × (closed ≡ true → HasSentinel q.items)

module _ {ℓ} {A : Type ℓ} where
  pub put_unbounded :
      (q : Queue (Option A)) (a : Option A)
      → q.maxsize ≡ 0
      → put_suppressed q a ≡ record q { items = q.items ++ a ∷ [] }
  unfolding put_suppressed put_nowait full
  put_unbounded q a e = ground (arith, e)

  pub put-IsShut :
      (b : Bool) (q : Queue (Option A)) (a : Option A) → IsShut b q → IsShut b (put_suppressed q a)
  put-IsShut b q a (e, h) =
      rw (put_unbounded q a e) (e, λ c. HasSentinel-append_left q.items (a ∷ []) (h c))

  pub put_none-IsShut :
      (b : Bool) (q : Queue (Option A)) → IsShut b q → IsShut true (put_suppressed q none)
  put_none-IsShut b q (e, h) =
      rw (put_unbounded q none e) (e, λ c. HasSentinel-append_right q.items (none ∷ []) tt)

  round_items :
      (b : Bool) (n : ℕ) (xs : List (Option A))
      → IsShut b (record { maxsize = n; items = xs })
      → IsShut b (round (record { maxsize = n; items = xs })).1
  unfolding round got get_nowait
  round_items b n [] v = v
  round_items b n (some a ∷ xs) v = v
  round_items b n (none ∷ xs) (e, h) =
      rw (put_unbounded (record { maxsize = n; items = xs }) none e)
        (e, λ c. HasSentinel-append_right xs (none ∷ []) tt)

  pub round-IsShut : (b : Bool) (q : Queue (Option A)) → IsShut b q → IsShut b (round q).1
  round-IsShut b q v = round_items b q.maxsize q.items v
