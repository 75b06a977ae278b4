-- ===== src/Peer/Moves/Reach/Owns.antt =====
-- The channels of a connection (aiolibdatachannel/peer_connection.py) and their wrapper objects in
-- the registry of aiolibdatachannel/_core.py.
use aiolibdatachannel.Prelude.{
  ℕ, ◌<◌, ◌≡◌, ◌≢◌, ◌⊎◌, inl, inr, refl, ap, sym, ◌∙◌, List, [], ◌∷◌, ◌++◌, some, arith, length,
  get_elem?, get_elem?-append_inv, get_elem?-set, set, ◌==◌, ==_iff, Bool-cases,
}
use aiolibdatachannel.Native.{Name}
use aiolibdatachannel.Core.Registry.{Registry, release}
use aiolibdatachannel.Core.Registry.Held.{stored}
use aiolibdatachannel.Core.Registry.Stands.{Stands, Stands-lt, release-Stands, released-Stands}
use aiolibdatachannel.Core.Machine.{Core}
use aiolibdatachannel.Channel.{DataChannel}
use aiolibdatachannel.Channel.Create.{names}
use aiolibdatachannel.Channel.Api.Moves.Wrapped.{Handles}

-- An entry after a write: the written one, or an old one of another place.
set_entry :
    (dcs : List DataChannel) (i j : ℕ) (dc d x : DataChannel)
    → get_elem? dcs i ≡ some dc
    → get_elem? (set dcs i d) j ≡ some x
    → ((i ≡ j) × (x ≡ d)) ⊎ ((i ≢ j) × (get_elem? dcs j ≡ some x))
set_entry dcs i j dc d x at e = elim (Bool-cases (i == j)) [
  | inl same ↦ inl ((==_iff i j).0 same, ground (arith, get_elem?-set dcs i j dc d at))
  | inr other ↦
      inr (λ same. ground (arith, ==_iff i j), ground (arith, get_elem?-set dcs i j dc d at))
]

-- An entry that keeps its object: the same objects in the same order.
entry_before :
    (dcs : List DataChannel) (i j : ℕ) (dc d x : DataChannel)
    → get_elem? dcs i ≡ some dc
    → d.native ≡ dc.native
    → get_elem? (set dcs i d) j ≡ some x
    → (y : DataChannel) × (get_elem? dcs j ≡ some y) × (x.native ≡ y.native)
entry_before dcs i j dc d x at n e = elim (set_entry dcs i j dc d x at e) [
  | inl (p, q) ↦ (dc, rw (← p) at, ap (λ (y : DataChannel). y.native) q ∙ n)
  | inr (_, old) ↦ (x, old, refl)
]

module _ {C : Type 0} where
  -- Every channel has a wrapper object of its own, which is live, with the callbacks of the
  -- channel's place, until the channel is destroyed.
  pub record Owns (callback : ℕ → Name → C) (r : Registry C) (dcs : List DataChannel) : Type 0 where
    pub stands :
        (i : ℕ) (dc : DataChannel)
        → get_elem? dcs i ≡ some dc
        → Stands r (stored (callback i) names []) dc.destroyed dc.native
    pub apart :
        (i j : ℕ) (d e : DataChannel)
        → get_elem? dcs i ≡ some d
        → get_elem? dcs j ≡ some e
        → d.native ≡ e.native
        → i ≡ j

  pub nothing-Owns : (callback : ℕ → Name → C) (r : Registry C) → Owns callback r []
  nothing-Owns callback r = record {
    stands = λ i dc e. absurd (cc);
    apart = λ i j d e p q s. absurd (cc);
  }

  -- A registry in which the objects of the channels stand as before.
  pub kept-Owns :
      (callback : ℕ → Name → C) (r s : Registry C) (dcs : List DataChannel)
      → ((i : ℕ) (dc : DataChannel)
          → get_elem? dcs i ≡ some dc
          → Stands r (stored (callback i) names []) dc.destroyed dc.native
          → Stands s (stored (callback i) names []) dc.destroyed dc.native)
      → Owns callback r dcs
      → Owns callback s dcs
  kept-Owns callback r s dcs keep v = record {
    stands = λ i dc e. keep i dc e (v.stands i dc e);
    apart = v.apart;
  }

  pub Owns-lt :
      (callback : ℕ → Name → C) (r : Registry C) (dcs : List DataChannel)
      → Owns callback r dcs
      → (i : ℕ) (dc : DataChannel) → get_elem? dcs i ≡ some dc
      → dc.native < length r.objects
  Owns-lt callback r dcs v i dc e = Stands-lt r _ dc.destroyed dc.native (v.stands i dc e)

  -- One more channel, whose object is none of theirs.
  pub append-Owns :
      (callback : ℕ → Name → C) (r : Registry C) (dcs : List DataChannel) (dc : DataChannel)
      → Stands r (stored (callback (length dcs)) names []) dc.destroyed dc.native
      → ((i : ℕ) (d : DataChannel) → get_elem? dcs i ≡ some d → d.native ≢ dc.native)
      → Owns callback r dcs
      → Owns callback r (dcs ++ dc ∷ [])
  append-Owns callback r dcs dc s new v = record {
    stands = λ i d e. elim (get_elem?-append_inv dcs dc d i e) [
      | inl old ↦ v.stands i d old
      | inr (p, q) ↦ rw (p, ← q) s
    ];
    apart = λ i j d e p q same. elim (get_elem?-append_inv dcs dc d i p) [
      | inl old ↦ elim (get_elem?-append_inv dcs dc e j q) [
        | inl old' ↦ v.apart i j d e old old' same
        | inr (_, last) ↦ absurd (new i d old (rw last same))
      ]
      | inr (at, last) ↦ elim (get_elem?-append_inv dcs dc e j q) [
        | inl old' ↦ absurd (new j e old' (rw last (sym same)))
        | inr (at', last') ↦ at ∙ sym at'
      ]
    ];
  }

  set-Owns :
      (callback : ℕ → Name → C) (r s : Registry C) (dcs : List DataChannel) (i : ℕ)
      (dc d : DataChannel)
      → get_elem? dcs i ≡ some dc
      → d.native ≡ dc.native
      → Stands s (stored (callback i) names []) d.destroyed d.native
      → ((j : ℕ) (x : DataChannel)
          → i ≢ j
          → get_elem? dcs j ≡ some x
          → Stands s (stored (callback j) names []) x.destroyed x.native)
      → Owns callback r dcs
      → Owns callback s (set dcs i d)
  set-Owns callback r s dcs i dc d at n self others v = record {
    stands = λ j x e. elim (set_entry dcs i j dc d x at e) [
      | inl (p, q) ↦ rw (← p, q) self
      | inr (p, old) ↦ others j x p old
    ];
    apart = λ j k x y p q same.
        let (x', p', nx) = entry_before dcs i j dc d x at n p in
        let (y', q', ny) = entry_before dcs i k dc d y at n q in
        v.apart j k x' y' p' q' (sym nx ∙ same ∙ ny);
  }

module _ {W C : Type 0} where
  -- A channel does something to its wrapper object.
  pub handled-Owns :
      (callback : ℕ → Name → C) (dcs : List DataChannel) (i : ℕ) (dc d : DataChannel)
      (c e : Core W C)
      → get_elem? dcs i ≡ some dc
      → Handles dc c d e
      → Owns callback c.dcs dcs
      → Owns callback e.dcs (set dcs i d)
  handled-Owns callback dcs i dc d c e at h v = elim h.wrapped [
    | inl (same, b) ↦ rw same (
        set-Owns callback c.dcs c.dcs dcs i dc d at h.same_native
          (rw (b, h.same_native) (v.stands i dc at)) (λ j x p old. v.stands j x old) v)
    | inr (same, b) ↦ rw same (
        set-Owns callback c.dcs (release dc.native c.dcs) dcs i dc d at h.same_native
          (rw (b, h.same_native)
            (released-Stands c.dcs _ dc.destroyed dc.native (v.stands i dc at)))
          (λ j x p old.
            release-Stands dc.native c.dcs _ x.destroyed x.native
              (λ q. absurd (p (v.apart i j dc x at old (sym q)))) (v.stands j x old))
          v)
  ]
