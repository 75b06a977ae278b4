-- ===== src/Peer/Create/Held.antt =====
-- The callbacks that the `__init__` of a connection (aiolibdatachannel/peer_connection.py) leaves
-- registered.
use Prim.Native.String.{String}
use aiolibdatachannel.Prelude.{ℕ, ◌≡◌, refl, ap, sym, ◌∙◌, List, []}
use aiolibdatachannel.Prelude.Dict
use aiolibdatachannel.Prelude.Dict.{Dict}
use aiolibdatachannel.Errors.{Result, ok, raises}
use aiolibdatachannel.Native.{Native, Value, Name, PcArgs}
use aiolibdatachannel.Config.{RtcConfiguration, peer_args}
use aiolibdatachannel.Core.InTurn.{in_turn-ok}
use aiolibdatachannel.Core.Machine.{Core}
use aiolibdatachannel.Core.Registry.{callback_kind}
use aiolibdatachannel.Core.Registry.Held.{Holds, stored, set_callback-Holds}
use aiolibdatachannel.Core.Calls
use aiolibdatachannel.Core.Calls.Registration.{pc_set_on-tables, pc_init-Holds}
use aiolibdatachannel.Peer.{PeerConnection, fresh}
use aiolibdatachannel.Peer.Create.{wire, wired, opened, with_args, create_peer, pc_names}

module _ (N : Native) {C : Type 0} (to_str : Value → String) where
  open N use {World}

  wire-Holds :
      (i h : ℕ) (callback : Name → C) (ns : List Name) (c : Core World C) (d : Dict C)
      → Holds c.pcs i h d
      → (wire N to_str i callback ns c).0 ≡ ok tt
      → Holds (wire N to_str i callback ns c).1.pcs i h (stored callback ns d)
  unfolding wire
  wire-Holds i h callback ns c d v e =
      in_turn-ok (λ d c. Holds c.pcs i h d) (λ n. Dict.put (callback_kind n) (callback n))
        (stored callback) (λ n. Calls.pc_set_on N to_str i n (callback n))
        (λ d. unfold stored in refl) (λ n ns d. unfold stored in refl)
        (λ n d c w.
          rw ((pc_set_on-tables N to_str i n (callback n) c).same_pcs)
            (set_callback-Holds i h n (callback n) c.pcs d w))
        ns d c v e

  wired-Holds :
      (i h : ℕ) (d : Dict C) (r : Result (Unit {0}) × Core World C) (pc : PeerConnection)
      → (r.0 ≡ ok tt → Holds r.1.pcs i h d)
      → (wired N to_str i r).0 ≡ ok pc
      → (pc ≡ fresh i) × Holds (wired N to_str i r).1.pcs pc.native h d
  unfolding wired fresh
  wired-Holds i h d (raises x, c) pc held e = absurd (cc)
  wired-Holds i h d (ok u, c) pc held e =
      let same : pc ≡ fresh i = cc in (same, rw same (held refl))

  -- What `__init__` gives: the fields as they are set, and the wrapper object.
  abbrev pub IsWired : (Name → C) → ℕ → PeerConnection → Core World C → Type 0
  IsWired callback h pc c =
      (pc ≡ fresh pc.native) × Holds c.pcs pc.native h (stored callback pc_names [])

  opened-IsWired :
      (callback : Name → C) (r : Result ℕ × Core World C) (pc : PeerConnection)
      → ((i : ℕ) → r.0 ≡ ok i → (h : ℕ) × Holds r.1.pcs i h [])
      → (opened N to_str callback r).0 ≡ ok pc
      → (h : ℕ) × IsWired callback h pc (opened N to_str callback r).1
  unfolding opened
  opened-IsWired callback (raises x, c) pc made e = absurd (cc)
  opened-IsWired callback (ok i, c) pc made e =
      let (h, at) = made i refl in
      let (same, held) =
        wired-Holds i h (stored callback pc_names []) (wire N to_str i callback pc_names c) pc
          (wire-Holds i h callback pc_names c [] at) e in
      (
        h,
        (same ∙ ap fresh (unfold fresh in sym (ap (λ (p : PeerConnection). p.native) same)), held),
      )

  with_args-IsWired :
      (callback : Name → C) (a : Result PcArgs) (c : Core World C) (pc : PeerConnection)
      → (with_args N to_str callback a c).0 ≡ ok pc
      → (h : ℕ) × IsWired callback h pc (with_args N to_str callback a c).1
  unfolding with_args
  with_args-IsWired callback (raises x) c pc e = absurd (cc)
  with_args-IsWired callback (ok args) c pc e =
      opened-IsWired callback (Calls.pc_init N to_str args c) pc
        (λ i f. let (h, _, at) = pc_init-Holds N to_str args c i f in (h, at)) e

  -- A connection that `__init__` returns has its fields as they are set at first, whatever the
  -- extension has fired meanwhile, and stands for a live wrapper object that has its seven callbacks
  -- and no others.
  pub create_peer-IsWired :
      (callback : Name → C) (cfg : RtcConfiguration) (c : Core World C) (pc : PeerConnection)
      → (create_peer N to_str callback cfg c).0 ≡ ok pc
      → (h : ℕ) × IsWired callback h pc (create_peer N to_str callback cfg c).1
  unfolding create_peer
  create_peer-IsWired callback cfg c pc e = with_args-IsWired callback (peer_args cfg) c pc e
