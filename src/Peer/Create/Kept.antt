-- ===== src/Peer/Create/Kept.antt =====
-- `PeerConnection.__init__` (aiolibdatachannel/peer_connection.py) and the registries.
use Prim.Native.String.{String}
use aiolibdatachannel.Prelude.{ℕ, ◌≡◌, ◌∙◌, refl, List, none}
use aiolibdatachannel.Prelude.Dict
use aiolibdatachannel.Errors.{Result, ok, raises}
use aiolibdatachannel.Native.{Native, Value, Name, PcArgs}
use aiolibdatachannel.Config.{RtcConfiguration, peer_args}
use aiolibdatachannel.Core.InTurn.{in_turn-inv}
use aiolibdatachannel.Core.Machine.{Core}
use aiolibdatachannel.Core.Calls
use aiolibdatachannel.Core.Calls.Registration.{pc_set_on-tables, pc_init-on}
use aiolibdatachannel.Core.Calls.Soundness.{IsSound, exec-IsSound, new_pc, pc_on, exec}
use aiolibdatachannel.Peer.Create.{wire, wired, opened, with_args, create_peer, pc_names}

module _ (N : Native) {C : Type 0} (to_str : Value → String) where
  open N use {World}

  -- A rule for what the two methods that `__init__` calls keep.
  module _ (P : Core World C → Type 0)
      (set : (i : ℕ) (n : Name) (f : C) (c : Core World C)
        → P c
        → P (Calls.pc_set_on N to_str i n f c).1) where
    wire-inv :
        (i : ℕ) (callback : Name → C) (ns : List Name) (c : Core World C)
        → P c
        → P (wire N to_str i callback ns c).1
    unfolding wire
    wire-inv i callback ns c p =
        in_turn-inv P (λ n. Calls.pc_set_on N to_str i n (callback n)) (λ n. set i n (callback n))
          ns c p

    wired-inv : (i : ℕ) (r : Result (Unit {0}) × Core World C) → P r.1 → P (wired N to_str i r).1
    unfolding wired
    wired-inv i (raises e, c) p = p
    wired-inv i (ok u, c) p = p

    opened-inv :
        (callback : Name → C) (r : Result ℕ × Core World C)
        → P r.1
        → P (opened N to_str callback r).1
    unfolding opened
    opened-inv callback (raises e, c) p = p
    opened-inv callback (ok i, c) p =
        wired-inv i (wire N to_str i callback pc_names c) (wire-inv i callback pc_names c p)

    with_args-inv :
        (callback : Name → C) (a : Result PcArgs) (c : Core World C)
        → P c
        → ((args : PcArgs) → P (Calls.pc_init N to_str args c).1)
        → P (with_args N to_str callback a c).1
    unfolding with_args
    with_args-inv callback (raises e) c p q = p
    with_args-inv callback (ok args) c p q =
        opened-inv callback (Calls.pc_init N to_str args c) (q args)

    create_peer-inv :
        (callback : Name → C) (cfg : RtcConfiguration) (c : Core World C)
        → P c
        → ((args : PcArgs) → P (Calls.pc_init N to_str args c).1)
        → P (create_peer N to_str callback cfg c).1
    unfolding create_peer
    create_peer-inv callback cfg c p q = with_args-inv callback (peer_args cfg) c p q

  -- Wherever `__init__` of a connection stops, at a server's URL, at the extension or at one of the
  -- callbacks, the registries stay consistent, if the extension hands out no handle that a live
  -- wrapper still has.
  pub create_peer-IsSound :
      (callback : Name → C) (cfg : RtcConfiguration) (c : Core World C)
      → ((args : PcArgs) (h : ℕ)
          → (N.create_peer_connection args c.world).value ≡ ok h
          → Dict.get h c.pcs.table ≡ none)
      → IsSound N to_str c
      → IsSound N to_str (create_peer N to_str callback cfg c).1
  unfolding exec
  create_peer-IsSound callback cfg c new v =
      create_peer-inv (IsSound N to_str) (λ i n f d w. exec-IsSound N to_str (pc_on i n f) d tt w)
        callback cfg c v (λ args. exec-IsSound N to_str (new_pc args) c (new args) v)

  -- What `__init__` leaves of the other registry and of the dispatcher's registration.
  pub create_peer-on :
      (callback : Name → C) (cfg : RtcConfiguration) (c : Core World C)
      → (create_peer N to_str callback cfg c).1.installed ≡ c.installed
  create_peer-on callback cfg c =
      create_peer-inv (λ d. d.installed ≡ c.installed)
        (λ i n f d same. (pc_set_on-tables N to_str i n f d).same_installed ∙ same) callback cfg c
        refl (λ args. pc_init-on N to_str args c)
