-- ===== src/Channel/Create/Held.antt =====
-- The callbacks that DataChannel's `__init__` (aiolibdatachannel/data_channel.py) leaves registered.
use aiolibdatachannel.Core.InTurn.{in_turn-ok}
use Prim.Native.String.{String}
use aiolibdatachannel.Prelude.{ℕ, ◌≡◌, refl, List, [], length}
use aiolibdatachannel.Prelude.Dict
use aiolibdatachannel.Prelude.Dict.{Dict}
use aiolibdatachannel.Errors.{Result, ok, raises}
use aiolibdatachannel.Native.{Native, Value, Name}
use aiolibdatachannel.Core.Machine.{Core}
use aiolibdatachannel.Core.Registry.{register, callback_kind}
use aiolibdatachannel.Core.Registry.Held.{Holds, stored, register-Holds, set_callback-Holds}
use aiolibdatachannel.Core.Calls
use aiolibdatachannel.Core.Calls.Registration.{dc_set_on-tables}
use aiolibdatachannel.Channel.{DataChannel, fresh}
use aiolibdatachannel.Channel.Create.{register_all, sync, names, create}

module _ (N : Native) {C : Type 0} (to_str : Value → String) where
  open N use {World}

  register_all-Holds :
      (i h : ℕ) (callback : Name → C) (ns : List Name) (c : Core World C) (d : Dict C)
      → Holds c.dcs i h d
      → (register_all N to_str i callback ns c).0 ≡ ok tt
      → Holds (register_all N to_str i callback ns c).1.dcs i h (stored callback ns d)
  unfolding register_all
  register_all-Holds i h callback ns c d v e =
      in_turn-ok (λ d c. Holds c.dcs i h d) (λ n. Dict.put (callback_kind n) (callback n))
        (stored callback) (λ n. Calls.dc_set_on N to_str i n (callback n))
        (λ d. unfold stored in refl) (λ n ns d. unfold stored in refl)
        (λ n d c w.
          rw ((dc_set_on-tables N to_str i n (callback n) c).same_dcs)
            (set_callback-Holds i h n (callback n) c.dcs d w))
        ns d c v e

  -- Where `__init__` ends well, every call has, and the state is the one that they left.
  sync-ok :
      (dc : DataChannel) (r : Result (Unit {0}) × Core World C) (x : DataChannel)
      → (sync N to_str dc r).0 ≡ ok x
      → (r.0 ≡ ok tt) × ((sync N to_str dc r).1 ≡ r.1)
  unfolding sync
  sync-ok dc (raises e, c) x h = absurd (cc)
  sync-ok dc (ok u, c) x h = (refl, refl)

  -- A channel that `__init__` makes is the wrapper object of its handle, live, with its own five
  -- callbacks and no others.
  pub create-Holds :
      (callback : Name → C) (handle n : ℕ) (c : Core World C) (dc : DataChannel)
      → (create N to_str callback handle n c).0 ≡ ok dc
      → Holds
          (create N to_str callback handle n c).1.dcs
          (length c.dcs.objects)
          handle
          (stored callback names [])
  unfolding create Calls.dc_init
  create-Holds callback handle n c dc e =
      let i = length c.dcs.objects in
      let c₁ = record c { dcs = register handle c.dcs } in
      let r = register_all N to_str i callback names c₁ in
      let (fine, same) = sync-ok (fresh i n) r dc e in
      rw same (register_all-Holds i handle callback names c₁ [] (register-Holds handle c.dcs) fine)
