-- ===== src/Loop/Latch.antt =====
-- What FutureSlot of aiolibdatachannel/_loop.py promises to those who await its futures.
use aiolibdatachannel.Prelude.{
  ℕ, ◌≡◌, true, List, [], ◌∷◌, ◌++◌, some, arith, ◌∙◌, get_elem?, get_elem?-append,
  get_elem?-append_last, get_elem?-append_inv, get_elem?-map, inl, inr,
}
use mathlib.Core.List.{map-append}
use aiolibdatachannel.Errors.{Exc}
use aiolibdatachannel.Loop.{
  FutureState, Future, FutureSlot, is_done, done, set_slot, fail_slot, cancel, reset,
  retrieve_exception, run_callbacks, turn, futures, Op, set, fail, renew, tick, step, run,
}

module _ {ℓ} {A : Type ℓ} where
  pub run_callbacks-state : (f : Future A) → (run_callbacks f).state ≡ f.state
  unfolding run_callbacks
  run_callbacks-state f = ground (arith, retrieve_exception-state f)
    where
      retrieve_exception-state : (g : Future A) → (retrieve_exception g).state ≡ g.state
      retrieve_exception-state g = ground arith

  -- The future created as number `i` of the slot has the state.
  abbrev pub IsAt : FutureSlot A → ℕ → FutureState A → Type ℓ
  IsAt s i st = (f : Future A) × (get_elem? (futures s) i ≡ some f) × (f.state ≡ st)

  pub resolve-IsAt :
      (s t : FutureSlot A) (i : ℕ) (st : FutureState A)
      → t.replaced ≡ s.replaced
      → (done s ≡ true → t ≡ s)
      → is_done st ≡ true
      → IsAt s i st
      → IsAt t i st
  resolve-IsAt s t i st e keep d (f, g, fs) =
      elim (get_elem?-append_inv s.replaced s.future f i g) [
        | inl h ↦ (f, get_elem?-append t.replaced (t.future ∷ []) i f (rw e h), fs)
        | inr (p, q) ↦ rw (keep (rw (q, fs) d)) (f, g, fs)
      ]

  cancel_done : (f : Future A) → is_done f.state ≡ true → cancel f ≡ f
  unfolding cancel
  cancel_done f d = rw d

  reset-IsAt :
      (s : FutureSlot A) (i : ℕ) (st : FutureState A)
      → is_done st ≡ true
      → IsAt s i st
      → IsAt (reset s) i st
  unfolding reset
  reset-IsAt s i st d (f, g, fs) = (
    f,
    get_elem?-append (s.replaced ++ cancel s.future ∷ []) _ i f
        (elim (get_elem?-append_inv s.replaced s.future f i g) [
          | inl h ↦ get_elem?-append s.replaced _ i f h
          | inr (p, q) ↦
              rw (p, cancel_done s.future (rw (q, fs) d), q) (get_elem?-append_last s.replaced f)
        ]),
    fs,
  )

  turn-IsAt : (s : FutureSlot A) (i : ℕ) (st : FutureState A) → IsAt s i st → IsAt (turn s) i st
  unfolding turn
  turn-IsAt s i st (f, g, fs) = (
    run_callbacks f,
    rw (← map-append run_callbacks s.replaced (s.future ∷ []))
        (get_elem?-map run_callbacks (futures s) i f g),
    run_callbacks-state f ∙ fs,
  )

  pub step-IsAt :
      (o : Op A) (s : FutureSlot A) (i : ℕ) (st : FutureState A)
      → is_done st ≡ true
      → IsAt s i st
      → IsAt (step o s) i st
  unfolding step set_slot fail_slot
  step-IsAt (set a) s i st d h =
      resolve-IsAt s (set_slot a s) i st (ground arith) (λ e. ground arith) d h
  step-IsAt (fail x) s i st d h =
      resolve-IsAt s (fail_slot x s) i st (ground arith) (λ e. ground arith) d h
  step-IsAt renew s i st d h = reset-IsAt s i st d h
  step-IsAt tick s i st d h = turn-IsAt s i st h

  -- A future that is done keeps its state and its place through every call of the slot and every
  -- turn of the loop.
  pub run-IsAt :
      (os : List (Op A)) (s : FutureSlot A) (i : ℕ) (st : FutureState A)
      → is_done st ≡ true
      → IsAt s i st
      → IsAt (run os s) i st
  unfolding run
  run-IsAt [] s i st d h = h
  run-IsAt (o ∷ os) s i st d h = run-IsAt os (step o s) i st d (step-IsAt o s i st d h)

  pub set_slot-done : (a : A) (s : FutureSlot A) → done (set_slot a s) ≡ true
  unfolding set_slot
  set_slot-done a s = ground arith

  pub fail_slot-done : (e : Exc) (s : FutureSlot A) → done (fail_slot e s) ≡ true
  unfolding fail_slot
  fail_slot-done e s = ground arith
