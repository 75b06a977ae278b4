-- ===== src/Channel/Api/Hang.antt =====
-- What `close` of a DataChannel (aiolibdatachannel/data_channel.py) does for its readers.
use Prim.Native.String.{String}
use aiolibdatachannel.Prelude.{
  ℕ, ◌<◌, ◌≡◌, refl, true, false, List, [], ◌∷◌, ◌++◌, Option, none, some, arith, length,
  length-append, if◌then◌else◌, ap, ◌∙◌, map,
}
use aiolibdatachannel.Native.{Native, Value}
use aiolibdatachannel.Asyncio.{
  Queue, full, put_nowait, put_suppressed, HasSentinel, HasSentinel-append_right, before_sentinel,
}
use aiolibdatachannel.Core.Machine.{Core}
use aiolibdatachannel.Channel.{DataChannel, Message, handle_closed}
use aiolibdatachannel.Channel.Api.{close, finish_teardown, iterate, or_default}
use aiolibdatachannel.Channel.Api.Receive.{
  iterate-before_sentinel, iterate_stuck, received, messages_then, received-messages_then,
  with_items,
}
use aiolibdatachannel.Errors.{closed_error}

put_full :
    (q : Queue (Option Message)) (m : Option Message) → full q ≡ true → put_suppressed q m ≡ q
unfolding put_suppressed put_nowait
put_full q m h = ground arith

put_room :
    (q : Queue (Option Message)) (m : Option Message)
    → length q.items < q.maxsize
    → put_suppressed q m ≡ record q { items = q.items ++ m ∷ [] }
unfolding put_suppressed put_nowait full
put_room q m h = ground arith

close-queue :
    (dc : DataChannel)
    → (close dc).recv_queue
      ≡ (if dc.close_requested then dc.recv_queue else put_suppressed dc.recv_queue none)
unfolding close
close-queue dc = ground arith

module _ (N : Native) {C : Type 0} (to_str : Value → String) where
  open N use {World}

  teardown-queue :
      (dc : DataChannel) (c : Core World C)
      → (finish_teardown N to_str dc c).0.recv_queue
        ≡ (if dc.destroyed then dc.recv_queue else put_suppressed dc.recv_queue none)
  unfolding finish_teardown handle_closed
  teardown-queue dc c = ground arith

  full_stays :
      (dc : DataChannel) (c : Core World C)
      → full dc.recv_queue ≡ true
      → (finish_teardown N to_str (close dc) c).0.recv_queue ≡ dc.recv_queue
  full_stays dc c f =
      let kept : (close dc).recv_queue ≡ dc.recv_queue =
        ground (arith, close-queue dc, put_full dc.recv_queue none f) in
      ground (
        arith,
        teardown-queue (close dc) c,
        kept,
        ap put_suppressed kept,
        put_full dc.recv_queue none f,
      )

  -- A reader hangs: if the queue is full of messages when `close` is called, and nobody reads
  -- before its teardown runs to the end, the close sentinel is dropped both times, and `async for`
  -- never ends by itself, however long it reads.
  pub close-full_hangs :
      (n : ℕ) (dc : DataChannel) (c : Core World C)
      → full dc.recv_queue ≡ true
      → ¬ HasSentinel dc.recv_queue.items
      → (iterate n (finish_teardown N to_str (close dc) c).0).ended ≡ false
  close-full_hangs n dc c f s = iterate_stuck n _ (rw (full_stays dc c f) s)

before_sentinel-close : (ms : List Message) → before_sentinel (map some ms ++ none ∷ []) ≡ ms
before_sentinel-close [] = refl
before_sentinel-close (m ∷ ms) = ap (◌∷◌ m) (before_sentinel-close ms)

closed_queue :
    (ms : List Message) (dc : DataChannel)
    → dc.close_requested ≡ false
    → dc.recv_queue.items ≡ map some ms
    → length dc.recv_queue.items < dc.recv_queue.maxsize
    → (close dc).recv_queue ≡ record (dc.recv_queue) {
      items = map {A = Message} {B = Option Message} some ms ++ none ∷ [];
    }
closed_queue ms dc o e room = ground (arith, close-queue dc, put_room dc.recv_queue none room)

close-last_error : (dc : DataChannel) → (close dc).last_error ≡ dc.last_error
unfolding close
close-last_error dc = ground arith

length-map-some : (ms : List Message) → length (map {B = Option Message} some ms) ≡ length ms
length-map-some [] = refl
length-map-some (m ∷ ms) = omega (arith, length-map-some ms)

reads_after_close :
    (k : ℕ) (ms : List Message) (dc : DataChannel)
    → dc.close_requested ≡ false
    → dc.recv_queue.items ≡ map some ms
    → length dc.recv_queue.items < dc.recv_queue.maxsize
    → received k (close dc)
      ≡ messages_then (closed_error (or_default dc.last_error "channel closed")) ms k
reads_after_close k ms dc o e room =
    let q = closed_queue ms dc o e room in
    let fits : length ms < (close dc).recv_queue.maxsize =
      rw q (omega (arith, ap length e, length-map-some ms)) in
    ap (λ (l : List (Option Message)). received k (with_items l (close dc)))
      (ap (λ (r : Queue (Option Message)). r.items) q)
    ∙ received-messages_then k ms (close dc) fits
    ∙ ap (λ x. messages_then (closed_error (or_default x "channel closed")) ms k)
        (close-last_error dc)

iterates_after_close :
    (n : ℕ) (ms : List Message) (dc : DataChannel)
    → dc.close_requested ≡ false
    → dc.recv_queue.items ≡ map some ms
    → length dc.recv_queue.items < dc.recv_queue.maxsize
    → length dc.recv_queue.items < n
    → iterate n (close dc) ≡ record { yields = ms; ended = true }
iterates_after_close n ms dc o e room enough =
    let items = map {A = Message} {B = Option Message} some ms ++ none ∷ [] in
    let q : (close dc).recv_queue ≡ record (dc.recv_queue) { items = items } =
      ground (arith, close-queue dc, put_room dc.recv_queue none room) in
    let size = length-append (map {A = Message} {B = Option Message} some ms) (none ∷ []) in
    iterate-before_sentinel n (close dc)
      (rw q (HasSentinel-append_right (map some ms) (none ∷ []) tt))
      (rw q (omega (arith, size, ap length e))) (rw q (omega (arith, size, ap length e)))
    ∙ rw q (ap (λ ys. record { yields = ys; ended = true }) (before_sentinel-close ms))

-- With room in the queue, after `close` on an open channel whose queue holds just messages, and with
-- nothing but receives in between: however many receives there are, and whichever of any number of
-- readers makes each of them, the messages that are waiting go to the first ones, all of them and in
-- their order, and every later one raises ConnectionClosedError, so that no reader hangs; and a lone
-- `async for` yields these messages and then ends by itself.
pub close_ends_readers :
    (n k : ℕ) (ms : List Message) (dc : DataChannel)
    → dc.close_requested ≡ false
    → dc.recv_queue.items ≡ map some ms
    → length dc.recv_queue.items < dc.recv_queue.maxsize
    → length dc.recv_queue.items < n
    → (received k (close dc)
        ≡ messages_then (closed_error (or_default dc.last_error "channel closed")) ms k)
      × (iterate n (close dc) ≡ record { yields = ms; ended = true })
close_ends_readers n k ms dc o e room enough =
    (reads_after_close k ms dc o e room, iterates_after_close n ms dc o e room enough)
