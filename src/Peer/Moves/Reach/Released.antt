-- ===== src/Peer/Moves/Reach/Released.antt =====
-- The wrapper objects of the channels when a connection (aiolibdatachannel/peer_connection.py) is
-- torn down.
use Prim.Native.String.{String}
use aiolibdatachannel.Prelude.{
  ℕ, zero, suc, ap, arith, ◌≡◌, ◌≢◌, inl, inr, refl, sym, ◌∙◌, true, List, [], ◌∷◌, some, if_cases,
  get_elem?,
}
use aiolibdatachannel.Prelude.Dict.{Dict}
use aiolibdatachannel.Native.{Native, Value, Name}
use aiolibdatachannel.Core.Registry.{Registry}
use aiolibdatachannel.Core.Registry.Held.{stored}
use aiolibdatachannel.Core.Registry.Stands.{Stands, release-Stands}
use aiolibdatachannel.Core.Registry.Invariant.{release-IsConsistent}
use aiolibdatachannel.Core.Machine.{Core}
use aiolibdatachannel.Core.Calls.Soundness.{IsSound}
use aiolibdatachannel.Channel.{DataChannel, handle_closed}
use aiolibdatachannel.Channel.Create.{names}
use aiolibdatachannel.Channel.Api
use aiolibdatachannel.Channel.Api.Moves.Wrapped.{Handles, destroy-Handles}
use aiolibdatachannel.Peer.Lifecycle.{destroy_channels}
use aiolibdatachannel.Peer.Moves.Reach.Owns.{Owns, handled-Owns}

module _ {C : Type 0} where
  tail-Owns :
      (callback : ℕ → Name → C) (r : Registry C) (dc : DataChannel) (dcs : List DataChannel)
      → Owns callback r (dc ∷ dcs)
      → Owns (λ i. callback (suc i)) r dcs
  tail-Owns callback r dc dcs v = record {
    stands = λ i d e. v.stands (suc i) d e;
    apart = λ i j d e p q same. omega (arith, v.apart (suc i) (suc j) d e p q same);
  }

  cons-Owns :
      (callback : ℕ → Name → C) (r : Registry C) (dc : DataChannel) (dcs : List DataChannel)
      → Stands r (stored (callback 0) names []) dc.destroyed dc.native
      → ((i : ℕ) (d : DataChannel) → get_elem? dcs i ≡ some d → d.native ≢ dc.native)
      → Owns (λ i. callback (suc i)) r dcs
      → Owns callback r (dc ∷ dcs)
  cons-Owns callback r dc dcs s new v = record { stands = stand; apart = lone }
    where
      stand :
          (i : ℕ) (d : DataChannel)
          → get_elem? (dc ∷ dcs) i ≡ some d
          → Stands r (stored (callback i) names []) d.destroyed d.native
      stand zero d e = let same : dc ≡ d = cc in rw (← same) s
      stand (suc i) d e = v.stands i d e

      lone :
          (i j : ℕ) (d e : DataChannel)
          → get_elem? (dc ∷ dcs) i ≡ some d
          → get_elem? (dc ∷ dcs) j ≡ some e
          → d.native ≡ e.native
          → i ≡ j
      lone zero zero d e p q same = refl
      lone zero (suc j) d e p q same =
          let first : dc ≡ d = cc in absurd (new j e q (rw first (sym same)))
      lone (suc i) zero d e p q same = let first : dc ≡ e = cc in absurd (new i d p (rw first same))
      lone (suc i) (suc j) d e p q same = ap suc (v.apart i j d e p q same)

module _ (N : Native) {C : Type 0} (to_str : Value → String) where
  open N use {World}

  pub handled-IsSound :
      (dc d : DataChannel) (c e : Core World C)
      → Handles dc c d e
      → IsSound N to_str c
      → IsSound N to_str e
  handled-IsSound dc d c e h v = elim h.wrapped [
    | inl (same, _) ↦ record { pcs_ok = rw h.same_pcs v.pcs_ok; dcs_ok = rw same v.dcs_ok }
    | inr (same, _) ↦ record {
      pcs_ok = rw h.same_pcs v.pcs_ok;
      dcs_ok = rw same (release-IsConsistent dc.native c.dcs v.dcs_ok);
    }
  ]

  -- What is destroyed stays so.
  handled-gone :
      (dc d : DataChannel) (c e : Core World C) (x : Dict C) (n : ℕ)
      → Handles dc c d e
      → Stands c.dcs x true n
      → Stands e.dcs x true n
  handled-gone dc d c e x n h s = elim h.wrapped [
    | inl (same, _) ↦ rw same s
    | inr (same, _) ↦ rw same (release-Stands dc.native c.dcs x true n (λ q. refl) s)
  ]

  destroy_channels-gone :
      (dcs : List DataChannel) (c : Core World C) (x : Dict C) (n : ℕ)
      → Stands c.dcs x true n
      → Stands (destroy_channels N to_str dcs c).1.dcs x true n
  unfolding destroy_channels
  destroy_channels-gone [] c x n s = s
  destroy_channels-gone (dc ∷ dcs) c x n s =
      let r = Api.destroy N to_str dc c in
      destroy_channels-gone dcs r.1 x n
        (handled-gone dc r.0 c r.1 x n (destroy-Handles N to_str dc c) s)

  destroy-destroyed :
      (dc : DataChannel) (c : Core World C) → (Api.destroy N to_str dc c).0.destroyed ≡ true
  unfolding Api.destroy handle_closed
  destroy-destroyed dc c =
      if_cases (λ (r : DataChannel × Core World C). r.0.destroyed ≡ true) dc.destroyed _ _ (λ e. e)
        (λ e. refl)

  -- The objects are the same, in the same order.
  destroy_channels-natives :
      (dcs : List DataChannel) (c : Core World C) (i : ℕ) (d : DataChannel)
      → get_elem? (destroy_channels N to_str dcs c).0 i ≡ some d
      → (dc : DataChannel) × (get_elem? dcs i ≡ some dc) × (d.native ≡ dc.native)
  unfolding destroy_channels
  destroy_channels-natives [] c i d e = absurd (cc)
  destroy_channels-natives (dc ∷ dcs) c zero d e =
      let same : (Api.destroy N to_str dc c).0 ≡ d = cc in
      (dc, refl, rw (← same) (destroy-Handles N to_str dc c).same_native)
  destroy_channels-natives (dc ∷ dcs) c (suc i) d e =
      destroy_channels-natives dcs (Api.destroy N to_str dc c).1 i d e

  pub destroy_channels-Owns :
      (callback : ℕ → Name → C) (dcs : List DataChannel) (c : Core World C)
      → Owns callback c.dcs dcs
      → let r = destroy_channels N to_str dcs c in Owns callback r.1.dcs r.0
  unfolding destroy_channels
  destroy_channels-Owns callback [] c v = v
  destroy_channels-Owns callback (dc ∷ dcs) c v =
      let h = destroy-Handles N to_str dc c in
      let r = Api.destroy N to_str dc c in
      let w = handled-Owns callback (dc ∷ dcs) 0 dc r.0 c r.1 refl h v in
      let gone = destroy-destroyed dc c in
      let rest =
        destroy_channels-Owns (λ i. callback (suc i)) dcs r.1
          (tail-Owns callback r.1.dcs r.0 dcs w) in
      cons-Owns callback _ r.0 _
        (rw gone (
          destroy_channels-gone dcs r.1 (stored (callback 0) names []) r.0.native
            (rw gone at (w.stands 0 r.0 refl))))
        (λ i d e same.
          let (x, at, n) = destroy_channels-natives dcs r.1 i d e in
          absurd (omega (arith, w.apart 0 (suc i) r.0 x refl at (sym same ∙ n))))
        rest

  pub destroy_channels-IsSound :
      (dcs : List DataChannel) (c : Core World C)
      → IsSound N to_str c
      → IsSound N to_str (destroy_channels N to_str dcs c).1
  unfolding destroy_channels
  destroy_channels-IsSound [] c v = v
  destroy_channels-IsSound (dc ∷ dcs) c v =
      let r = Api.destroy N to_str dc c in
      destroy_channels-IsSound dcs r.1
        (handled-IsSound dc r.0 c r.1 (destroy-Handles N to_str dc c) v)
