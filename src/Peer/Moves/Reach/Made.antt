-- ===== src/Peer/Moves/Reach/Made.antt =====
-- What the making of a channel (aiolibdatachannel/data_channel.py) does to the registries of
-- aiolibdatachannel/_core.py: the wrapper object of the new channel is a new one, and the others
-- stand as before.
use Prim.Native.String.{String}
use aiolibdatachannel.Prelude.{
  ℕ, ◌<◌, ◌≡◌, refl, ◌∙◌, List, [], none, some, length, arith, get_elem?,
}
use aiolibdatachannel.Prelude.Dict
use aiolibdatachannel.Errors.{ok}
use aiolibdatachannel.Native.{Native, Value, Name}
use aiolibdatachannel.Core.InTurn.{in_turn-inv}
use aiolibdatachannel.Core.Registry.{register, set_callback}
use aiolibdatachannel.Core.Registry.Held.{stored}
use aiolibdatachannel.Core.Registry.Stands.{Stands, register-Stands, set_callback-Stands}
use aiolibdatachannel.Core.Machine.{Core}
use aiolibdatachannel.Core.Calls
use aiolibdatachannel.Core.Calls.Registration.{dc_set_on-tables}
use aiolibdatachannel.Core.Calls.Soundness.{IsSound, exec-IsSound, exec, new_dc, dc_on}
use aiolibdatachannel.Channel.{DataChannel}
use aiolibdatachannel.Channel.Create.{names, create, register_all}
use aiolibdatachannel.Channel.Create.Numbered.{create-IsNew, create-core}
use aiolibdatachannel.Channel.Create.Held.{create-Holds}
use aiolibdatachannel.Peer.Moves.Reach.Owns.{Owns, kept-Owns, Owns-lt}

module _ (N : Native) {C : Type 0} (to_str : Value → String) where
  open N use {World}

  -- Where only channels are concerned.
  abbrev pub Spares : Core World C → Core World C → Type 0
  Spares c e = (e.pcs ≡ c.pcs) × (e.installed ≡ c.installed)

  module _ (callback : ℕ → Name → C) (dcs : List DataChannel) (new : ℕ) where
    abbrev Keeps : Core World C → Core World C → Type 0
    Keeps c e = IsSound N to_str e × Owns callback e.dcs dcs × Spares c e

    -- The channels' objects lie in front of the new one.
    abbrev Before : Type 0
    Before = (i : ℕ) (d : DataChannel) → get_elem? dcs i ≡ some d → d.native < new

    register_all-Keeps :
        (own : Name → C) (ns : List Name) (c e : Core World C)
        → Before
        → Keeps c e
        → Keeps c (register_all N to_str new own ns e).1
    unfolding register_all exec
    register_all-Keeps own ns c e before v =
        in_turn-inv (Keeps c) (λ n. Calls.dc_set_on N to_str new n (own n))
          (λ n d (sound, owns, spared).
            let t = dc_set_on-tables N to_str new n (own n) d in
            (
              exec-IsSound N to_str (dc_on new n (own n)) d tt sound,
              rw (t.same_dcs) (
                  kept-Owns callback d.dcs (set_callback new n (own n) d.dcs) dcs
                    (λ i x at s.
                      set_callback-Stands new n (own n) d.dcs _ x.destroyed x.native
                        (λ q. absurd (omega (arith, before i x at))) s)
                    owns),
              (t.same_pcs ∙ spared.0, t.same_installed ∙ spared.1),
            ))
          ns e v

  -- Whether it succeeds or not, making a channel leaves the others alone.
  pub create-Keeps :
      (callback : ℕ → Name → C) (dcs : List DataChannel) (own : Name → C) (h n : ℕ)
      (c : Core World C)
      → Dict.get h c.dcs.table ≡ none
      → IsSound N to_str c
      → Owns callback c.dcs dcs
      → let e = (create N to_str own h n c).1 in
        IsSound N to_str e × Owns callback e.dcs dcs × Spares c e
  unfolding create Calls.dc_init exec
  create-Keeps callback dcs own h n c free sound owns =
      let i = length c.dcs.objects in
      let c₁ = record c { dcs = register h c.dcs } in
      rw (create-core N to_str own h n c) (
        register_all-Keeps callback dcs i own names c c₁ (Owns-lt callback c.dcs dcs owns) (
          exec-IsSound N to_str (new_dc h) c free sound,
          kept-Owns callback c.dcs (register h c.dcs) dcs
              (λ j x at s. register-Stands h c.dcs _ x.destroyed x.native s) owns,
          (refl, refl),
        ))

  -- The object of a channel that has been made.
  pub create-Stands :
      (own : Name → C) (h n : ℕ) (c : Core World C) (dc : DataChannel)
      → (create N to_str own h n c).0 ≡ ok dc
      → (dc.native ≡ length c.dcs.objects)
        × Stands (create N to_str own h n c).1.dcs (stored own names []) dc.destroyed dc.native
  create-Stands own h n c dc e =
      let (p, q) = create-IsNew N to_str own h n c dc e in
      (p, rw (q, p) (h, create-Holds N to_str own h n c dc e))
