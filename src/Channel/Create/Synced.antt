-- ===== src/Channel/Create/Synced.antt =====
-- What DataChannel's `__init__` (aiolibdatachannel/data_channel.py) gives to its caller.
use Prim.Native.String.{String}
use aiolibdatachannel.Prelude.{
  ℕ, ◌<◌, ◌≤◌, ◌≡◌, refl, ap, sym, ◌∙◌, Bool, true, false, List, [], ◌∷◌, Option, none, some, arith,
  if◌then◌else◌, length,
}
use aiolibdatachannel.Errors.{Result, ok, raises}
use aiolibdatachannel.Native.{Native, Value, Name}
use aiolibdatachannel.Asyncio.{put_nowait, full}
use aiolibdatachannel.Loop.{FutureSlot, done, init, set_slot, is_done}
use aiolibdatachannel.Core.Machine.{Core}
use aiolibdatachannel.Core.Calls
use aiolibdatachannel.Channel.{DataChannel, Message, fresh}
use aiolibdatachannel.Channel.Create.{
  put_sentinel, sync_closed, sync_open, register_all, sync, names, create,
}
use aiolibdatachannel.Channel.Api.Moves.Safety.{IsSafe}

-- The channel's slots and queue say what the extension says of the stream.
abbrev pub IsSynced : Bool → Bool → DataChannel → Type 0
IsSynced opened closed dc =
    (done dc.open_slot ≡ opened)
    × (done dc.closed_slot ≡ closed)
    × (dc.recv_queue.items ≡ (if closed then none ∷ [] else []))
    × IsSafe dc
    × (dc.destroyed ≡ false)

ok_injective : (a b : DataChannel) → ok a ≡ ok b → a ≡ b
ok_injective a b e = cc

put_first :
    (n : ℕ)
    → 0 < n
    → put_nowait {A = Option Message} (record { maxsize = n; items = [] }) none
      ≡ some (record { maxsize = n; items = none ∷ [] })
unfolding put_nowait full
put_first n h = ground arith

fresh_safe :
    (i n : ℕ) (open_slot closed_slot : FutureSlot (Unit {0})) (items : List (Option Message))
    → 0 < n
    → length items ≤ n
    → IsSafe (record (fresh i n) {
      open_slot = open_slot;
      closed_slot = closed_slot;
      recv_queue = record { maxsize = n; items = items };
    })
unfolding fresh
fresh_safe i n o c items h room = record {
  bounded = (h, room);
  awake = λ e. refl;
  released = λ e. absurd (cc);
  torn_down = λ e. absurd (cc);
  requested = λ e. refl;
}

-- The end of `__init__` raises nothing.
sync-IsSynced :
    (opened closed : Bool) (i n : ℕ)
    → 0 < n
    → (x : DataChannel) × (sync_closed closed (sync_open opened (fresh i n)) ≡ ok x)
      × IsSynced opened closed x
      × (x.native ≡ i)
unfolding sync_closed put_sentinel fresh init set_slot is_done
sync-IsSynced false false i n h =
    (_, refl, (refl, refl, refl, fresh_safe i n _ _ [] h (omega arith), refl), refl)
sync-IsSynced true false i n h =
    (_, refl, (refl, refl, refl, fresh_safe i n _ _ [] h (omega arith), refl), refl)
sync-IsSynced false true i n h =
    let d = record (fresh i n) { closed_slot = set_slot tt init } in
    (
      record d { recv_queue = record { maxsize = n; items = none ∷ [] } },
      ap (λ q. put_sentinel q d) (put_first n h),
      (refl, refl, refl, fresh_safe i n _ _ (none ∷ []) h (omega arith), refl),
      refl,
    )
sync-IsSynced true true i n h =
    let d = record (fresh i n) { open_slot = set_slot tt init; closed_slot = set_slot tt init } in
    (
      record d { recv_queue = record { maxsize = n; items = none ∷ [] } },
      ap (λ q. put_sentinel q d) (put_first n h),
      (refl, refl, refl, fresh_safe i n _ _ (none ∷ []) h (omega arith), refl),
      refl,
    )

module _ (N : Native) {C : Type 0} (to_str : Value → String) where
  open N use {World}

  synced :
      (i n : ℕ) (r : Result (Unit {0}) × Core World C) (dc : DataChannel)
      → 0 < n
      → (sync N to_str (fresh i n) r).0 ≡ ok dc
      → IsSynced
          (Calls.is_open N to_str dc.native (sync N to_str (fresh i n) r).1)
          (Calls.is_closed N to_str dc.native (sync N to_str (fresh i n) r).1)
          dc
  unfolding sync fresh
  synced i n (raises x, c) dc h e = absurd (cc)
  synced i n (ok u, c) dc h e =
      let o = Calls.is_open N to_str i c in
      let k = Calls.is_closed N to_str i c in
      let (x, made, s, at) = sync-IsSynced o k i n h in
      let same = ok_injective x dc (sym made ∙ e) in rw (← same, at) s

  -- A channel that `__init__` makes with a bounded queue, whatever the extension says and fires in
  -- its course, starts as the extension has it at the end: its open slot is resolved exactly if the
  -- stream is open, its closed slot exactly if it is closed, and then, and only then, a close
  -- sentinel is in the queue, which is else empty; and the channel is safe and not destroyed.
  pub create-IsSynced :
      (callback : Name → C) (handle n : ℕ) (c : Core World C) (dc : DataChannel)
      → 0 < n
      → (create N to_str callback handle n c).0 ≡ ok dc
      → let d = (create N to_str callback handle n c).1 in
        IsSynced (Calls.is_open N to_str dc.native d) (Calls.is_closed N to_str dc.native d) dc
  unfolding create
  create-IsSynced callback handle n c dc h e =
      let i = Calls.dc_init N to_str handle c in
      synced i.0 n (register_all N to_str i.0 callback names i.1) dc h e
