-- ===== src/Core/Shutdown.antt =====
-- `_atexit_destroy_all` of aiolibdatachannel/_core.py.
use Prim.Native.String.{String}
use aiolibdatachannel.Prelude.{
  ℕ, ◌≡◌, refl, ap, ◌∙◌, inl, inr, Bool, true, false, List, [], ◌∷◌, Option, none, some, arith,
  Bool-cases, Option-cases, if◌then◌else◌, get_elem?, ◌==◌, ◌||◌,
}
use aiolibdatachannel.Prelude.Dict
use aiolibdatachannel.Prelude.Dict.{Dict, get-pop}
use aiolibdatachannel.Native.{Native, Value, Emission}
use aiolibdatachannel.Core.Registry.{Registry, Wrapper, release}
use aiolibdatachannel.Core.Registry.Invariant.{IsConsistent, release-IsConsistent, release-table}
use aiolibdatachannel.Core.Machine.{Core, suppress, deliver_all}
use aiolibdatachannel.Core.Machine.Frame.{call-SameTables, deliver_all_off}
use aiolibdatachannel.Core.Calls
use aiolibdatachannel.Core.Calls.Soundness.{IsSound, pc_destroy-tables, dc_destroy-tables}

module _ (N : Native) {C : Type 0} (to_str : Value → String) where
  open N use {World}

  -- `dc = _lookup_dc(h)`, and `with suppress(Exception): dc.destroy()` if there is one.
  destroy_dc : Option ℕ → Core World C → Core World C
  destroy_dc none c = c
  destroy_dc (some i) c = suppress (Calls.dc_destroy N to_str i c)

  destroy_dcs : List ℕ → Core World C → Core World C
  unfolding destroy_dc
  destroy_dcs [] c = c
  destroy_dcs (h ∷ hs) c = destroy_dcs hs (destroy_dc (Dict.get h c.dcs.table) c)

  destroy_pc : Option ℕ → Core World C → Core World C
  destroy_pc none c = c
  destroy_pc (some i) c = suppress (Calls.pc_destroy N to_str i c)

  destroy_pcs : List ℕ → Core World C → Core World C
  unfolding destroy_pc
  destroy_pcs [] c = c
  destroy_pcs (h ∷ hs) c = destroy_pcs hs (destroy_pc (Dict.get h c.pcs.table) c)

  -- The loops go over snapshots of the keys; the last step drops the dispatcher.
  unfoldable pub atexit_destroy_all : Core World C → Core World C
  unfolding destroy_dcs destroy_pcs
  atexit_destroy_all c =
      let c₁ = destroy_dcs (Dict.keys c.dcs.table) c in
      let c₂ = destroy_pcs (Dict.keys c₁.pcs.table) c₁ in
      record (suppress (Calls.cleanup N to_str c₂)) { installed = false }

member : ℕ → List ℕ → Bool
member k [] = false
member k (j ∷ js) = j == k || member k js

key_of_get : (d : Dict ℕ) (k i : ℕ) → Dict.get k d ≡ some i → member k (Dict.keys d) ≡ true
unfolding Dict.get Dict.keys member
key_of_get [] k i e = absurd (ground arith)
key_of_get ((j, v) ∷ d) k i e = ground (arith, key_of_get d k i)

module _ (N : Native) {C : Type 0} (to_str : Value → String) where
  open N use {World}

  -- The registry of channels has lost the handles of the list, and the other registry nothing.
  record Emptied (hs : List ℕ) (before after : Registry C) : Type 0 where
    consistent : IsConsistent after
    gone :
        (k : ℕ) → Dict.get k after.table ≡ (if member k hs then none else Dict.get k before.table)

  released-Emptied :
      (h i : ℕ) (hs : List ℕ) (before after : Registry C)
      → IsConsistent before
      → Dict.get h before.table ≡ some i
      → Emptied hs (release i before) after
      → Emptied (h ∷ hs) before after
  unfolding member
  released-Emptied h i hs before after v e m = record {
    consistent = m.consistent;
    gone = λ k. m.gone k ∙ ground (arith, release-table before h i k v e);
  }

  absent-Emptied :
      (h : ℕ) (hs : List ℕ) (before after : Registry C)
      → Dict.get h before.table ≡ none
      → Emptied hs before after
      → Emptied (h ∷ hs) before after
  unfolding member
  absent-Emptied h hs before after e m = record {
    consistent = m.consistent;
    gone = λ k. m.gone k ∙ ground (arith, ap (λ j. Dict.get j before.table) {x = h} {y = k});
  }

  destroy_dcs-Emptied :
      (hs : List ℕ) (c : Core World C)
      → IsConsistent c.dcs
      → Emptied hs c.dcs (destroy_dcs N to_str hs c).dcs × ((destroy_dcs N to_str hs c).pcs ≡ c.pcs)
  unfolding destroy_dcs member
  destroy_dcs-Emptied [] c v = (record { consistent = v; gone = λ k. refl }, refl)
  destroy_dcs-Emptied (h ∷ hs) c v = elim (Option-cases (Dict.get h c.dcs.table)) [
    | inl e ↦ let (m, p) = destroy_dcs-Emptied hs c v in simp e (absent-Emptied h hs c.dcs _ e m, p)
    | inr (i, e) ↦
        let t = dc_destroy-tables N to_str i c in
        let d = (Calls.dc_destroy N to_str i c).1 in
        let (m, p) = destroy_dcs-Emptied hs d (rw (t.same_dcs) (release-IsConsistent i c.dcs v)) in
        let m' : Emptied hs (release i c.dcs) (destroy_dcs N to_str hs d).dcs =
          rw (t.same_dcs) at m in
        simp e (released-Emptied h i hs c.dcs _ v e m', p ∙ t.same_pcs)
  ]

  destroy_pcs-Emptied :
      (hs : List ℕ) (c : Core World C)
      → IsConsistent c.pcs
      → Emptied hs c.pcs (destroy_pcs N to_str hs c).pcs × ((destroy_pcs N to_str hs c).dcs ≡ c.dcs)
  unfolding destroy_pcs member
  destroy_pcs-Emptied [] c v = (record { consistent = v; gone = λ k. refl }, refl)
  destroy_pcs-Emptied (h ∷ hs) c v = elim (Option-cases (Dict.get h c.pcs.table)) [
    | inl e ↦ let (m, p) = destroy_pcs-Emptied hs c v in simp e (absent-Emptied h hs c.pcs _ e m, p)
    | inr (i, e) ↦
        let t = pc_destroy-tables N to_str i c in
        let d = (Calls.pc_destroy N to_str i c).1 in
        let (m, p) = destroy_pcs-Emptied hs d (rw (t.same_pcs) (release-IsConsistent i c.pcs v)) in
        let m' : Emptied hs (release i c.pcs) (destroy_pcs N to_str hs d).pcs =
          rw (t.same_pcs) at m in
        simp e (released-Emptied h i hs c.pcs _ v e m', p ∙ t.same_dcs)
  ]

  Emptied-all :
      (before after : Registry C)
      → Emptied (Dict.keys before.table) before after
      → (k : ℕ) → Dict.get k after.table ≡ none
  Emptied-all before after m k = elim (Option-cases (Dict.get k before.table)) [
    | inl e ↦ m.gone k ∙ ground (arith, e)
    | inr (i, e) ↦ m.gone k ∙ rw (key_of_get before.table k i e)
  ]

  all_destroyed :
      (r : Registry C)
      → IsConsistent r
      → ((k : ℕ) → Dict.get k r.table ≡ none)
      → (i : ℕ) (w : Wrapper C) → get_elem? r.objects i ≡ some w
      → w.destroyed ≡ true
  all_destroyed r v e i w at = elim (Bool-cases w.destroyed) [
    | inl d ↦ d
    | inr d ↦ absurd (ground (arith, v.from_live i w at d, e w.handle))
  ]

  -- After the shutdown hook, from any consistent state and whatever the extension's calls raise:
  -- neither registry has a handle, no object of either is live, and a callback that the extension
  -- fires later is dropped.
  pub atexit_destroys_all :
      (c : Core World C)
      → IsSound N to_str c
      → let d = atexit_destroy_all N to_str c in
        ((h : ℕ) → Dict.get h d.pcs.table ≡ none)
        × ((h : ℕ) → Dict.get h d.dcs.table ≡ none)
        × ((i : ℕ) (w : Wrapper C) → get_elem? d.pcs.objects i ≡ some w → w.destroyed ≡ true)
        × ((i : ℕ) (w : Wrapper C) → get_elem? d.dcs.objects i ≡ some w → w.destroyed ≡ true)
        × ((es : List Emission) → deliver_all to_str es d ≡ d)
  unfolding atexit_destroy_all Calls.cleanup
  atexit_destroys_all c v =
      let c₁ = destroy_dcs N to_str (Dict.keys c.dcs.table) c in
      let (m₁, p₁) = destroy_dcs-Emptied (Dict.keys c.dcs.table) c v.dcs_ok in
      let c₂ = destroy_pcs N to_str (Dict.keys c₁.pcs.table) c₁ in
      let (m₂, p₂) = destroy_pcs-Emptied (Dict.keys c₁.pcs.table) c₁ (rw p₁ (v.pcs_ok)) in
      let t = call-SameTables to_str N.cleanup c₂ in
      let no_dcs = Emptied-all c.dcs c₁.dcs m₁ in
      let no_pcs = Emptied-all c₁.pcs c₂.pcs m₂ in
      (
        rw (t.same_pcs) no_pcs,
        rw (t.same_dcs, p₂) no_dcs,
        rw (t.same_pcs) (all_destroyed c₂.pcs m₂.consistent no_pcs),
        rw (t.same_dcs, p₂) (all_destroyed c₁.dcs m₁.consistent no_dcs),
        λ es. deliver_all_off to_str es _ refl,
      )
