-- ===== src/Channel/Create/Numbered.antt =====
-- The wrapper object of a channel that DataChannel's `__init__` (aiolibdatachannel/data_channel.py)
-- makes, whatever the extension says meanwhile.
use Prim.Native.String.{String}
use aiolibdatachannel.Prelude.{ℕ, ◌≡◌, refl, Bool, true, false, Option, none, some, length}
use aiolibdatachannel.Errors.{Result, ok, raises}
use aiolibdatachannel.Native.{Native, Value, Name}
use aiolibdatachannel.Asyncio.{put_nowait, Queue}
use aiolibdatachannel.Loop.{set_slot}
use aiolibdatachannel.Core.Registry.{register}
use aiolibdatachannel.Core.Machine.{Core}
use aiolibdatachannel.Core.Calls
use aiolibdatachannel.Channel.{DataChannel, Message, fresh}
use aiolibdatachannel.Channel.Create.{
  names, create, register_all, sync, sync_closed, sync_open, put_sentinel,
}

-- The fields that name the wrapper object, after `__init__` has looked at the extension.
abbrev pub IsNew : ℕ → Result DataChannel → Type 0
IsNew i r = (x : DataChannel) → r ≡ ok x → (x.native ≡ i) × (x.destroyed ≡ false)

put_sentinel-IsNew :
    (i : ℕ) (q : Option (Queue (Option Message))) (dc : DataChannel)
    → dc.native ≡ i
    → dc.destroyed ≡ false
    → IsNew i (put_sentinel q dc)
unfolding put_sentinel
put_sentinel-IsNew i none dc n d x e = absurd (cc)
put_sentinel-IsNew i (some q) dc n d x e =
    let same : record dc { recv_queue = q } ≡ x = cc in rw (← same) (n, d)

sync_closed-IsNew :
    (i : ℕ) (b : Bool) (dc : DataChannel)
    → dc.native ≡ i
    → dc.destroyed ≡ false
    → IsNew i (sync_closed b dc)
unfolding sync_closed
sync_closed-IsNew i false dc n d x e = let same : dc ≡ x = cc in rw (← same) (n, d)
sync_closed-IsNew i true dc n d x e =
    let d' = record dc { closed_slot = set_slot tt dc.closed_slot } in
    put_sentinel-IsNew i (put_nowait d'.recv_queue none) d' n d x e

sync_open-fields :
    (b : Bool) (dc : DataChannel)
    → ((sync_open b dc).native ≡ dc.native) × ((sync_open b dc).destroyed ≡ dc.destroyed)
sync_open-fields false dc = (refl, refl)
sync_open-fields true dc = (refl, refl)

module _ (N : Native) {C : Type 0} (to_str : Value → String) where
  open N use {World}

  sync-IsNew :
      (i n : ℕ) (r : Result (Unit {0}) × Core World C) → IsNew i (sync N to_str (fresh i n) r).0
  unfolding sync fresh
  sync-IsNew i n (raises e, c) x h = absurd (cc)
  sync-IsNew i n (ok u, c) x h =
      let (p, q) = sync_open-fields (Calls.is_open N to_str i c) (fresh i n) in
      sync_closed-IsNew i (Calls.is_closed N to_str i c) _ p q x h

  sync-core :
      (dc : DataChannel) (r : Result (Unit {0}) × Core World C) → (sync N to_str dc r).1 ≡ r.1
  unfolding sync
  sync-core dc (raises e, c) = refl
  sync-core dc (ok u, c) = refl

  pub create-core :
      (own : Name → C) (h n : ℕ) (c : Core World C)
      → (create N to_str own h n c).1
        ≡ (register_all N to_str
            (length c.dcs.objects)
            own
            names
            (record c { dcs = register h c.dcs })).1
  unfolding create Calls.dc_init
  create-core own h n c = sync-core (fresh (length c.dcs.objects) n) _

  pub create-IsNew :
      (own : Name → C) (h n : ℕ) (c : Core World C)
      → IsNew (length c.dcs.objects) (create N to_str own h n c).0
  unfolding create Calls.dc_init
  create-IsNew own h n c =
      let i = length c.dcs.objects in
      sync-IsNew i n (register_all N to_str i own names (record c { dcs = register h c.dcs }))
