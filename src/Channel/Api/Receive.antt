-- ===== src/Channel/Api/Receive.antt =====
-- What a reader of a DataChannel (aiolibdatachannel/data_channel.py) gets: which messages the
-- bounded queue keeps, and what `async for` yields.
use mathlib.Core.List.{append_assoc, append-nil}
use aiolibdatachannel.Prelude.{
  ℕ, zero, suc, ◌-◌, ◌<◌, ◌≤◌, ◌≡◌, refl, sym, ap, ◌∙◌, inl, inr, true, false, List, [], ◌∷◌, ◌++◌,
  map, Option, none, some, arith, length, drop, length-append, length-drop, leb, Bool-cases,
  leb_iff,
}
use aiolibdatachannel.Asyncio.{
  full, put_nowait, get_nowait, put_suppressed, HasSentinel, before_sentinel,
}
use aiolibdatachannel.Channel.{DataChannel, Message, handle_message, put_latest}
use aiolibdatachannel.Errors.{Exc, Outcome, closed_error, returns, fails, blocks}
use aiolibdatachannel.Channel.Api.{recv, yield_first, or_default, iterate}

-- The last `n` entries of a list.
abbrev pub latest {ℓ} : {A : Type ℓ} → ℕ → List A → List A
latest n xs = drop (length xs - n) xs

-- The calls that deliver the messages, in their order.
unfoldable pub handle_all : List Message → DataChannel → DataChannel
handle_all [] dc = dc
handle_all (m ∷ ms) dc = handle_all ms (handle_message m dc)

module _ {ℓ} {A : Type ℓ} where
  -- A list that is too long loses its head.
  latest_cons : (n : ℕ) (x : A) (xs : List A) → n ≤ length xs → latest n (x ∷ xs) ≡ latest n xs
  latest_cons n x xs h = let e : suc (length xs) - n ≡ suc (length xs - n) = omega arith in rw e

  latest_short : (n : ℕ) (xs : List A) → length xs ≤ n → latest n xs ≡ xs
  latest_short n xs h = let e : length xs - n ≡ 0 = omega arith in rw e

-- A queue within its bound that takes one message more.
pub put_latest-items :
    (n : ℕ) (xs : List (Option Message)) (m : Message)
    → 0 < n
    → length xs ≤ n
    → put_latest m (record { maxsize = n; items = xs })
      ≡ record { maxsize = n; items = latest n (xs ++ some m ∷ []) }
unfolding put_latest put_nowait full get_nowait put_suppressed
put_latest-items n [] m pos h = ground (arith, latest_short n (some m ∷ []))
put_latest-items n (x ∷ xs) m pos h = ground (
  arith,
  length-append xs (some m ∷ []),
  latest_short n (x ∷ xs ++ some m ∷ []),
  latest_cons n x (xs ++ some m ∷ []),
  latest_short n (xs ++ some m ∷ []),
)

pub latest-length : (n : ℕ) (xs : List (Option Message)) → length (latest n xs) ≤ n
latest-length n xs = omega (arith, length-drop (length xs - n) xs)

latest-append :
    (n : ℕ) (xs ys : List (Option Message)) → latest n (latest n xs ++ ys) ≡ latest n (xs ++ ys)
latest-append n [] ys = rw (latest_short n (◌++◌ {A = Option Message} [] []) (omega arith))
latest-append n (x ∷ xs) ys = elim (Bool-cases (leb n (length xs))) [
  | inl long ↦
      ap (λ l. latest n (l ++ ys)) (latest_cons n x xs ((leb_iff n (length xs)).0 long))
      ∙ latest-append n xs ys
      ∙ sym (latest_cons n x (xs ++ ys) (ground (arith, length-append xs ys)))
  | inr short ↦ ap (λ l. latest n (l ++ ys)) (latest_short n (x ∷ xs) (ground arith))
]

-- Of the messages that arrive at a bounded queue within its bound, with nobody reading, the queue
-- keeps the most recent ones, as many as it has room for, in their order; what it held before
-- counts as older.
pub handle_all-latest :
    (ms : List Message) (dc : DataChannel)
    → 0 < dc.recv_queue.maxsize
    → length dc.recv_queue.items ≤ dc.recv_queue.maxsize
    → (handle_all ms dc).recv_queue.items
      ≡ latest dc.recv_queue.maxsize (dc.recv_queue.items ++ map some ms)
unfolding handle_all handle_message
handle_all-latest [] dc pos h = rw append-nil (sym (latest_short dc.recv_queue.maxsize _ h))
handle_all-latest (m ∷ ms) dc pos h =
    let n = dc.recv_queue.maxsize in
    let xs = dc.recv_queue.items in
    let d = handle_message m dc in
    let step : d.recv_queue ≡ record { maxsize = n; items = latest n (xs ++ some m ∷ []) } =
      put_latest-items n xs m pos h in
    let ih = handle_all-latest ms d (rw step pos) (rw step (latest-length n (xs ++ some m ∷ []))) in
    ih
    ∙ rw step (latest-append n (xs ++ some m ∷ []) (map some ms))
    ∙ ap (latest n) (append_assoc xs (some m ∷ []) (map some ms))

-- The channel with other items in its queue.
abbrev pub with_items : List (Option Message) → DataChannel → DataChannel
with_items xs dc = record dc { recv_queue = record (dc.recv_queue) { items = xs } }

recv-sentinel :
    (dc : DataChannel) (xs : List (Option Message))
    → length xs < dc.recv_queue.maxsize
    → recv (with_items (none ∷ xs) dc) ≡ (
      fails (closed_error (or_default dc.last_error "channel closed")),
      with_items (xs ++ none ∷ []) dc,
    )
unfolding recv get_nowait put_nowait full
recv-sentinel dc xs h = ground arith

recv-message :
    (dc : DataChannel) (m : Message) (xs : List (Option Message))
    → recv (with_items (some m ∷ xs) dc) ≡ (returns m, with_items xs dc)
unfolding recv get_nowait
recv-message dc m xs = refl

recv-empty : (dc : DataChannel) → recv (with_items [] dc) ≡ (blocks, with_items [] dc)
unfolding recv get_nowait
recv-empty dc = refl

-- So many receives, whoever makes them: what each gets.
unfoldable pub received : ℕ → DataChannel → List (Outcome Message)
received zero dc = []
received (suc n) dc = let r = recv dc in r.0 ∷ received n r.1

-- The messages, each to one receive, and an error to each that comes later.
unfoldable pub messages_then : Exc → List Message → ℕ → List (Outcome Message)
messages_then e ms zero = []
messages_then e [] (suc n) = fails e ∷ messages_then e [] n
messages_then e (m ∷ ms) (suc n) = returns m ∷ messages_then e ms n

-- The sentinel stays at the end of the queue.
pub received-messages_then :
    (n : ℕ) (ms : List Message) (dc : DataChannel)
    → length ms < dc.recv_queue.maxsize
    → received n (with_items (map some ms ++ none ∷ []) dc)
      ≡ messages_then (closed_error (or_default dc.last_error "channel closed")) ms n
unfolding received messages_then
received-messages_then zero ms dc h = refl
received-messages_then (suc n) [] dc h = rw (recv-sentinel dc [] (omega arith)) (
    ap (◌∷◌ (fails (closed_error (or_default dc.last_error "channel closed"))))
      (received-messages_then n [] dc h))
received-messages_then (suc n) (m ∷ ms) dc h =
    rw (recv-message dc m (map some ms ++ none ∷ []))
      (ap (◌∷◌ (returns m)) (received-messages_then n ms dc (omega arith)))

iterate_items :
    (n : ℕ) (xs : List (Option Message)) (dc : DataChannel)
    → HasSentinel xs
    → length xs ≤ dc.recv_queue.maxsize
    → length xs ≤ n
    → iterate n (with_items xs dc) ≡ record { yields = before_sentinel xs; ended = true }
unfolding iterate
iterate_items n [] dc s h enough = absurd s
iterate_items zero (none ∷ xs) dc s h enough = absurd (omega arith)
iterate_items zero (some m ∷ xs) dc s h enough = absurd (omega arith)
iterate_items (suc n) (none ∷ xs) dc s h enough = rw (recv-sentinel dc xs h)
iterate_items (suc n) (some m ∷ xs) dc s h enough =
    rw (recv-message dc m xs)
      (ap (yield_first m) (iterate_items n xs dc s (omega arith) (omega arith)))

-- With a close sentinel in a queue within its bound, `async for` ends by itself, within one round
-- for each item, and yields exactly the messages in front of the sentinel, in their order.
pub iterate-before_sentinel :
    (n : ℕ) (dc : DataChannel)
    → HasSentinel dc.recv_queue.items
    → length dc.recv_queue.items ≤ dc.recv_queue.maxsize
    → length dc.recv_queue.items ≤ n
    → iterate n dc ≡ record { yields = before_sentinel dc.recv_queue.items; ended = true }
iterate-before_sentinel n dc s h enough = iterate_items n dc.recv_queue.items dc s h enough

stuck_items :
    (n : ℕ) (xs : List (Option Message)) (dc : DataChannel)
    → ¬ HasSentinel xs
    → (iterate n (with_items xs dc)).ended ≡ false
unfolding iterate
stuck_items zero xs dc s = refl
stuck_items (suc n) [] dc s = rw (recv-empty dc)
stuck_items (suc n) (none ∷ xs) dc s = absurd (s tt)
stuck_items (suc n) (some m ∷ xs) dc s = rw (recv-message dc m xs) (stuck_items n xs dc s)

-- Without a sentinel it does not end.
pub iterate_stuck :
    (n : ℕ) (dc : DataChannel) → ¬ HasSentinel dc.recv_queue.items → (iterate n dc).ended ≡ false
iterate_stuck n dc s = stuck_items n dc.recv_queue.items dc s
