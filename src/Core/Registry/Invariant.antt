-- ===== src/Core/Registry/Invariant.antt =====
-- The registries of aiolibdatachannel/_core.py and the objects agree: a handle is in the table
-- exactly while its object is not destroyed.
use aiolibdatachannel.Native.{Name}
use aiolibdatachannel.Prelude.{
  ℕ, ◌≡◌, inl, inr, refl, ap, ◌∙◌, true, false, none, some, arith, length, get_elem?, set, ◌==◌,
  if◌then◌else◌, ==_iff, Bool-cases, Option-cases, get_elem?-append, get_elem?-append_last,
  get_elem?-append_inv, get_elem?-set,
}
use aiolibdatachannel.Prelude.Dict
use aiolibdatachannel.Prelude.Dict.{Dict, get-put, get-pop}
use aiolibdatachannel.Core.Registry.{
  Wrapper, Registry, wrapper, empty, register, lookup, set_callback, release, callback_kind,
}

module _ {ℓ} {C : Type ℓ} where
  -- The object that a call names, and what its handle leads to.
  pub record IsConsistent (r : Registry C) : Type ℓ where
    pub to_live :
        (h i : ℕ)
        → Dict.get h r.table ≡ some i
        → (w : Wrapper C) × (get_elem? r.objects i ≡ some w)
          × (w.handle ≡ h)
          × (w.destroyed ≡ false)
    pub from_live :
        (i : ℕ) (w : Wrapper C)
        → get_elem? r.objects i ≡ some w
        → w.destroyed ≡ false
        → Dict.get w.handle r.table ≡ some i

  pub empty-IsConsistent : IsConsistent empty
  unfolding Dict.get
  empty-IsConsistent = record { to_live = λ h i e. absurd (cc); from_live = λ i w e d. absurd (cc) }

  register_to_live :
      (h : ℕ) (r : Registry C)
      → IsConsistent r
      → (k i : ℕ) → Dict.get k (register h r).table ≡ some i
      → (w : Wrapper C) × (get_elem? (register h r).objects i ≡ some w)
        × (w.handle ≡ k)
        × (w.destroyed ≡ false)
  unfolding register
  register_to_live h r v k i e = elim (Bool-cases (h == k)) [
    | inl same ↦
        let here : length r.objects ≡ i = ground (arith, get-put h k (length r.objects) r.table) in
        (
          wrapper h,
          rw (← here) (get_elem?-append_last r.objects (wrapper h)),
          (==_iff h k).0 same,
          refl,
        )
    | inr other ↦
        let old : Dict.get k r.table ≡ some i =
          ground (arith, get-put h k (length r.objects) r.table) in
        let (w, found, hw, dw) = v.to_live k i old in
        (w, get_elem?-append r.objects _ i w found, hw, dw)
  ]

  register_from_live :
      (h : ℕ) (r : Registry C)
      → IsConsistent r
      → Dict.get h r.table ≡ none
      → (i : ℕ) (w : Wrapper C) → get_elem? (register h r).objects i ≡ some w
      → w.destroyed ≡ false
      → Dict.get w.handle (register h r).table ≡ some i
  unfolding register
  register_from_live h r v fresh i w e d = elim (get_elem?-append_inv r.objects (wrapper h) w i e) [
    | inl old ↦ ground (arith, get-put h w.handle (length r.objects) r.table, v.from_live i w old d)
    | inr (p, q) ↦ ground (arith, get-put h w.handle (length r.objects) r.table)
  ]

  -- A handle that is not in the table keeps the registry consistent.
  pub register-IsConsistent :
      (h : ℕ) (r : Registry C)
      → IsConsistent r
      → Dict.get h r.table ≡ none
      → IsConsistent (register h r)
  register-IsConsistent h r v fresh = record {
    to_live = register_to_live h r v;
    from_live = register_from_live h r v fresh;
  }

  -- A changed object that keeps its handle and its life.
  update_to_live :
      (r : Registry C) (i : ℕ) (w w' : Wrapper C)
      → get_elem? r.objects i ≡ some w
      → w'.handle ≡ w.handle
      → w'.destroyed ≡ w.destroyed
      → (j : ℕ) (x : Wrapper C) → get_elem? r.objects j ≡ some x
      → (y : Wrapper C) × (get_elem? (set r.objects i w') j ≡ some y)
        × (y.handle ≡ x.handle)
        × (y.destroyed ≡ x.destroyed)
  update_to_live r i w w' e h d j x f = elim (Bool-cases (i == j)) [
    | inl same ↦ (
      w',
      ground (arith, get_elem?-set r.objects i j w w' e),
      ground (arith, ap (get_elem? r.objects) ((==_iff i j).0 same)),
      ground (arith, ap (get_elem? r.objects) ((==_iff i j).0 same)),
    )
    | inr other ↦ (x, ground (arith, get_elem?-set r.objects i j w w' e), refl, refl)
  ]

  update_from_live :
      (r : Registry C) (i : ℕ) (w w' : Wrapper C)
      → get_elem? r.objects i ≡ some w
      → w'.handle ≡ w.handle
      → w'.destroyed ≡ w.destroyed
      → IsConsistent r
      → (j : ℕ) (y : Wrapper C) → get_elem? (set r.objects i w') j ≡ some y
      → y.destroyed ≡ false
      → Dict.get y.handle r.table ≡ some j
  update_from_live r i w w' e h d v j y at dy =
      ground (arith, get_elem?-set r.objects i j w w' e, v.from_live i w e, v.from_live j y)

  pub set_callback-IsConsistent :
      (i : ℕ) (n : Name) (c : C) (r : Registry C)
      → IsConsistent r
      → IsConsistent (set_callback i n c r)
  unfolding set_callback
  set_callback-IsConsistent i n c r v = elim (Option-cases (get_elem? r.objects i)) [
    | inl e ↦ rw (e, set_callback) v
    | inr (w, e) ↦
        let w' : Wrapper C = record w { callbacks = Dict.put (callback_kind n) c w.callbacks } in
        rw (e, set_callback)
          (record {
            to_live = λ k j f.
                let (x, at, hx, dx) = v.to_live k j f in
                let (y, at', hy, dy) = update_to_live r i w w' e refl refl j x at in
                (y, at', hy ∙ hx, dy ∙ dx);
            from_live = update_from_live r i w w' e refl refl v;
          })
  ]

  release_to_live :
      (r : Registry C) (i : ℕ) (w w' : Wrapper C)
      → get_elem? r.objects i ≡ some w
      → IsConsistent r
      → (k j : ℕ) → Dict.get k (Dict.pop w.handle r.table) ≡ some j
      → (x : Wrapper C) × (get_elem? (set r.objects i w') j ≡ some x)
        × (x.handle ≡ k)
        × (x.destroyed ≡ false)
  release_to_live r i w w' e v k j f = elim (Bool-cases (w.handle == k)) [
    | inl same ↦ absurd (ground (arith, get-pop w.handle k r.table))
    | inr other ↦
        let old : Dict.get k r.table ≡ some j = ground (arith, get-pop w.handle k r.table) in
        let (x, at, hx, dx) = v.to_live k j old in
        (x, ground (arith, get_elem?-set r.objects i j w w' e), hx, dx)
  ]

  release_from_live :
      (r : Registry C) (i : ℕ) (w w' : Wrapper C)
      → get_elem? r.objects i ≡ some w
      → w.destroyed ≡ false
      → w'.destroyed ≡ true
      → IsConsistent r
      → (j : ℕ) (x : Wrapper C) → get_elem? (set r.objects i w') j ≡ some x
      → x.destroyed ≡ false
      → Dict.get x.handle (Dict.pop w.handle r.table) ≡ some j
  release_from_live r i w w' e d d' v j x at dx = ground (
    arith,
    get_elem?-set r.objects i j w w' e,
    v.from_live i w e d,
    v.from_live j x,
    get-pop w.handle x.handle r.table,
  )

  -- `destroy` keeps the registry consistent.
  pub release-IsConsistent : (i : ℕ) (r : Registry C) → IsConsistent r → IsConsistent (release i r)
  unfolding release
  release-IsConsistent i r v = elim (Option-cases (get_elem? r.objects i)) [
    | inl e ↦ rw (e, release) v
    | inr (w, e) ↦ elim (Bool-cases w.destroyed) [
      | inl d ↦ rw (e, release, d) v
      | inr d ↦
          rw (e, release, d)
            (record {
              to_live = release_to_live r i w _ e v;
              from_live = release_from_live r i w _ e d refl v;
            })
    ]
  ]

  -- There is nothing to release twice.
  pub release_absent : (i : ℕ) (r : Registry C) → get_elem? r.objects i ≡ none → release i r ≡ r
  unfolding release
  release_absent i r e = rw (e, release)

  pub release_destroyed :
      (i : ℕ) (r : Registry C) (w : Wrapper C)
      → get_elem? r.objects i ≡ some w
      → w.destroyed ≡ true
      → release i r ≡ r
  unfolding release
  release_destroyed i r w e d = rw (e, release, d)

  pub release-table :
      (r : Registry C) (h i k : ℕ)
      → IsConsistent r
      → Dict.get h r.table ≡ some i
      → Dict.get k (release i r).table ≡ (if h == k then none else Dict.get k r.table)
  unfolding release
  release-table r h i k v e =
      let (w, at, hw, dw) = v.to_live h i e in rw (at, release, dw, hw) (get-pop h k r.table)

  -- The handle of a released object leads nowhere.
  pub lookup-release :
      (r : Registry C) (i : ℕ) (w : Wrapper C)
      → IsConsistent r
      → get_elem? r.objects i ≡ some w
      → w.destroyed ≡ false
      → lookup w.handle (release i r) ≡ none
  unfolding lookup
  lookup-release r i w v at d =
      let gone : Dict.get w.handle (release i r).table ≡ none =
        ground (arith, release-table r w.handle i w.handle v (v.from_live i w at d)) in
      rw gone
