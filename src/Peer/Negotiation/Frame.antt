-- ===== src/Peer/Negotiation/Frame.antt =====
-- What the offer and answer calls of aiolibdatachannel/peer_connection.py change of the connection
-- before they wait: only its two slots, whatever the extension returns.
use Prim.Native.String.{String}
use aiolibdatachannel.Prelude.{
  ap_if, ◌∙◌, if◌then◌else◌, ap, ℕ, get_elem?, ◌≡◌, refl, Option, if_cases,
}
use aiolibdatachannel.Errors.{Result, ok, raises, Outcome}
use aiolibdatachannel.Native.{Native, Value, Reply}
use aiolibdatachannel.Loop.{FutureSlot, reset}
use aiolibdatachannel.Core.Machine.{Core}
use aiolibdatachannel.Core.Machine.Frame.{SameTables, call-SameTables}
use aiolibdatachannel.Core.Calls
use aiolibdatachannel.Core.Calls.Soundness.{with_object-tables}
use aiolibdatachannel.Peer.{PeerConnection, SdpType}
use aiolibdatachannel.Peer.Negotiation.{
  awaits, negotiate, create_offer, create_answer, set_local_description, reset_both,
}

module _ (N : Native) {C : Type 0} (to_str : Value → String) where
  open N use {World}

  awaits-pc :
      (r : Result (Unit {0}) × Core World C) (pc : PeerConnection) → (awaits N to_str r pc).1 ≡ pc
  unfolding awaits
  awaits-pc (ok u, c) pc = refl
  awaits-pc (raises e, c) pc = refl

  -- A rule for each of the three calls, for what holds after it of the connection and of the state
  -- of the extension's wrappers, in which only the extension and the calls that it has fired differ.
  awaits-both :
      (P : PeerConnection → Core World C → Type 0) (r : Result (Unit {0}) × Core World C)
      (pc : PeerConnection)
      → P pc r.1
      → P (awaits N to_str r pc).1 (awaits N to_str r pc).2
  unfolding awaits
  awaits-both P (ok u, c) pc p = p
  awaits-both P (raises e, c) pc p = p

  through :
      {A : Type 0} (i : ℕ) (f : ℕ → World → Reply World A) (c : Core World C)
      → SameTables c (Calls.pc N to_str i f c).1
  through i f c =
      with_object-tables N to_str (get_elem? c.pcs.objects i) _ c
        (λ w. call-SameTables to_str (f w.handle) c)

  pub create_offer-both :
      (P : PeerConnection → Core World C → Type 0) (pc : PeerConnection) (c : Core World C)
      → P pc c
      → ((e : Core World C) → SameTables c e → P (reset_both pc) e)
      → let r = create_offer N to_str pc c in P r.1 r.2
  unfolding create_offer negotiate Calls.set_local_description
  create_offer-both P pc c p q =
      if_cases (λ (r : Outcome (Unit {0}) × PeerConnection × Core World C). P r.1 r.2) pc.closed _ _
        (λ e. p) (λ e. awaits-both P _ (reset_both pc) (q _ (through pc.native _ c)))

  pub create_answer-both :
      (P : PeerConnection → Core World C → Type 0) (pc : PeerConnection) (c : Core World C)
      → ((e : Core World C) → SameTables c e → P (reset_both pc) e)
      → let r = create_answer N to_str pc c in P r.1 r.2
  unfolding create_answer negotiate Calls.set_local_description
  create_answer-both P pc c q = awaits-both P _ (reset_both pc) (q _ (through pc.native _ c))

  pub set_local_description-both :
      (P : PeerConnection → Core World C → Type 0) (t : Option SdpType) (pc : PeerConnection)
      (c : Core World C)
      → ((e : Core World C)
          → SameTables c e
          → P (record pc { local_description = reset pc.local_description }) e)
      → let r = set_local_description N to_str t pc c in P r.1 r.2
  unfolding set_local_description Calls.set_local_description
  set_local_description-both P t pc c q =
      awaits-both P _ (record pc { local_description = reset pc.local_description })
        (q _ (through pc.native _ c))

  -- The same for what holds of the connection alone.
  pub create_offer-pc :
      (P : PeerConnection → Type 0) (pc : PeerConnection) (c : Core World C)
      → P pc
      → P (reset_both pc)
      → P (create_offer N to_str pc c).1
  create_offer-pc P pc c p q = create_offer-both (λ d e. P d) pc c p (λ e s. q)

  pub create_answer-pc :
      (P : PeerConnection → Type 0) (pc : PeerConnection) (c : Core World C)
      → P (reset_both pc)
      → P (create_answer N to_str pc c).1
  create_answer-pc P pc c q = create_answer-both (λ d e. P d) pc c (λ e s. q)

  pub set_local_description-pc :
      (P : PeerConnection → Type 0) (t : Option SdpType) (pc : PeerConnection) (c : Core World C)
      → P (record pc { local_description = reset pc.local_description })
      → P (set_local_description N to_str t pc c).1
  set_local_description-pc P t pc c q = set_local_description-both (λ d e. P d) t pc c (λ e s. q)

  -- The future that is awaited for the gathering.
  pub create_offer-gathering :
      (pc : PeerConnection) (c : Core World C)
      → (create_offer N to_str pc c).1.gathering_complete
        ≡ (if pc.closed then pc.gathering_complete else reset pc.gathering_complete)
  unfolding create_offer negotiate reset_both
  create_offer-gathering pc c =
      ap_if (λ (r : Outcome (Unit {0}) × PeerConnection × Core World C). r.1.gathering_complete)
        pc.closed _ _
      ∙ ap (λ (g : FutureSlot (Unit {0})). if pc.closed then pc.gathering_complete else g)
          (ap (λ (d : PeerConnection). d.gathering_complete) (awaits-pc _ (reset_both pc)))

  pub create_answer-gathering :
      (pc : PeerConnection) (c : Core World C)
      → (create_answer N to_str pc c).1.gathering_complete ≡ reset pc.gathering_complete
  unfolding create_answer negotiate reset_both
  create_answer-gathering pc c =
      ap (λ (d : PeerConnection). d.gathering_complete) (awaits-pc _ (reset_both pc))
