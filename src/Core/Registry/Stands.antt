-- ===== src/Core/Registry/Stands.antt =====
-- What the wrapper objects of a registry (aiolibdatachannel/_core.py) are to the object that uses
-- them: live, with the callbacks that it has registered, or destroyed.
use aiolibdatachannel.Native.{Name}
use aiolibdatachannel.Prelude.{
  ℕ, zero, suc, ap, refl, ◌≡◌, ◌≢◌, inl, inr, Bool, true, false, List, ◌∷◌, [], some, arith, length,
  get_elem?, get_elem?-append, get_elem?-set, set, ◌==◌, ==_iff, Bool-cases, Option-cases, ◌<◌,
}
use aiolibdatachannel.Prelude.Dict.{Dict}
use aiolibdatachannel.Core.Registry.{Registry, Wrapper, register, release, set_callback}
use aiolibdatachannel.Core.Registry.Held.{Holds}
use aiolibdatachannel.Core.Registry.Invariant.{release_destroyed}

module _ {ℓ} {C : Type ℓ} where
  -- The object at a place: destroyed if the flag says so, and else live with these callbacks.
  abbrev pub Stands : Registry C → Dict C → Bool → ℕ → Type ℓ
  Stands r d false i = (h : ℕ) × Holds r i h d
  Stands r d true i = (w : Wrapper C) × (get_elem? r.objects i ≡ some w) × (w.destroyed ≡ true)

  get_elem?-lt :
      (ws : List (Wrapper C)) (i : ℕ) (w : Wrapper C) → get_elem? ws i ≡ some w → i < length ws
  get_elem?-lt [] i w e = absurd (cc)
  get_elem?-lt (x ∷ ws) zero w e = omega arith
  get_elem?-lt (x ∷ ws) (suc i) w e = omega (arith, get_elem?-lt ws i w e)

  pub Stands-lt :
      (r : Registry C) (d : Dict C) (b : Bool) (i : ℕ) → Stands r d b i → i < length r.objects
  Stands-lt r d false i (h, e) = get_elem?-lt r.objects i _ e
  Stands-lt r d true i (w, e, g) = get_elem?-lt r.objects i w e

  pub register-Stands :
      (h : ℕ) (r : Registry C) (d : Dict C) (b : Bool) (i : ℕ)
      → Stands r d b i
      → Stands (register h r) d b i
  unfolding register
  register-Stands h r d false i (k, e) = (k, get_elem?-append r.objects _ i _ e)
  register-Stands h r d true i (w, e, g) = (w, get_elem?-append r.objects _ i w e, g)

  -- Another object is changed.
  other :
      (r : Registry C) (i j : ℕ) (x v w : Wrapper C)
      → get_elem? r.objects j ≡ some x
      → i ≢ j
      → get_elem? r.objects i ≡ some w
      → get_elem? (set r.objects j v) i ≡ some w
  other r i j x v w at apart e = elim (Bool-cases (j == i)) [
    | inl same ↦ absurd (apart (ground (arith, ==_iff j i)))
    | inr more ↦ ground (arith, get_elem?-set r.objects j i x v at)
  ]

  same_objects-Stands :
      (r s : Registry C) (d : Dict C) (b : Bool) (i : ℕ)
      → ((w : Wrapper C) → get_elem? r.objects i ≡ some w → get_elem? s.objects i ≡ some w)
      → Stands r d b i
      → Stands s d b i
  same_objects-Stands r s d false i keep (h, e) = (h, keep _ e)
  same_objects-Stands r s d true i keep (w, e, g) = (w, keep w e, g)

  pub set_callback-Stands :
      (j : ℕ) (n : Name) (f : C) (r : Registry C) (d : Dict C) (b : Bool) (i : ℕ)
      → i ≢ j
      → Stands r d b i
      → Stands (set_callback j n f r) d b i
  unfolding set_callback
  set_callback-Stands j n f r d b i apart s = elim (Option-cases (get_elem? r.objects j)) [
    | inl e ↦ rw (e, set_callback) s
    | inr (x, at) ↦
        same_objects-Stands r (set_callback j n f r) d b i
          (λ w e. rw (at, set_callback) (other r i j x _ w at apart e)) s
  ]

  released_other :
      (j : ℕ) (r : Registry C) (x : Wrapper C) (callbacks : Dict C)
      → get_elem? r.objects j ≡ some x
      → x.destroyed ≡ false
      → (b : Bool) (i : ℕ) → (i ≡ j → b ≡ true)
      → Stands r callbacks b i
      → Stands (release j r) callbacks b i
  unfolding release
  released_other j r x d at live false i gone (h, e) =
      (h, rw (at, release, live) (other r i j x _ _ at (λ same. cc (gone same)) e))
  released_other j r x d at live true i gone (w, e, g) = (
    w,
    rw (at, release, live) (other r i j x _ w at (λ same. cc (ap (get_elem? r.objects) same)) e),
    g,
  )

  -- `destroy` of another object, or of one that is destroyed already.
  pub release-Stands :
      (j : ℕ) (r : Registry C) (d : Dict C) (b : Bool) (i : ℕ)
      → (i ≡ j → b ≡ true)
      → Stands r d b i
      → Stands (release j r) d b i
  unfolding release
  release-Stands j r d b i gone s = elim (Option-cases (get_elem? r.objects j)) [
    | inl e ↦ rw (e, release) s
    | inr (x, at) ↦ elim (Bool-cases x.destroyed) [
      | inl d ↦ rw (at, release, d) s
      | inr e ↦ released_other j r x d at e b i gone s
    ]
  ]

  -- `destroy` of the object itself.
  pub released-Stands :
      (r : Registry C) (d : Dict C) (b : Bool) (i : ℕ)
      → Stands r d b i
      → Stands (release i r) d true i
  unfolding release
  released-Stands r d false i (h, e) =
      let gone : Wrapper C = record { handle = h; callbacks = []; destroyed = true } in
      (gone, rw (e, release) (ground (arith, get_elem?-set r.objects i i _ gone e)), refl)
  released-Stands r d true i (w, e, g) = rw (release_destroyed i r w e g) (w, e, g)
