-- ===== src/Loop/Settled.antt =====
-- What becomes of the futures of a FutureSlot of aiolibdatachannel/_loop.py: those that `reset`
-- replaces, and those that fail while nobody awaits them.
use mathlib.Core.List.{map-append}
use aiolibdatachannel.Prelude.{
  ◌<◌, ◌≡◌, sym, refl, ◌⊎◌, inl, inr, Bool, true, false, List, [], ◌∷◌, ◌++◌, map, arith, All,
  All-append, Bool-cases,
}
use aiolibdatachannel.Errors.{Exc}
use aiolibdatachannel.Loop.Latch.{run_callbacks-state}
use aiolibdatachannel.Loop.{
  FutureState, pending, cancelled, result, exception, Future, FutureSlot, is_done, init, set_slot,
  fail_slot, cancel, reset, run_callbacks, turn, futures, Op, set, fail, renew, tick, step, run,
}

module _ {ℓ} {A : Type ℓ} where
  abbrev pub is_failed : FutureState A → Bool
  is_failed (exception e) = true
  is_failed _ = false

  -- A future that asyncio would complain of has its `_retrieve_exception` callback due.
  abbrev pub Retrieved : Future A → Type 0
  Retrieved f =
      (f.log_traceback ≡ false)
      ⊎ ((f.log_traceback ≡ true) × (is_failed f.state ≡ true) × (0 < f.callbacks))

  -- The replaced futures are done, and no failure goes unretrieved.
  pub record IsSettled (s : FutureSlot A) : Type ℓ where
    pub replaced_done : All (λ f. is_done f.state ≡ true) s.replaced
    pub retrieved : All Retrieved (futures s)

  init-IsSettled : IsSettled (init {A = A})
  unfolding init
  init-IsSettled = record { replaced_done = tt; retrieved = (inl refl, tt) }

  run_callbacks_done :
      (fs : List (Future A))
      → All (λ f. is_done f.state ≡ true) fs
      → All (λ f. is_done f.state ≡ true) (map run_callbacks fs)
  run_callbacks_done [] h = tt
  run_callbacks_done (f ∷ fs) h = (rw (run_callbacks-state f) h.0, run_callbacks_done fs h.1)

  run_callbacks_quiet : (f : Future A) → Retrieved f → (run_callbacks f).log_traceback ≡ false
  unfolding run_callbacks is_done
  run_callbacks_quiet f h = helper f.state refl h
    where
      helper :
          (st : FutureState A)
          → f.state ≡ st
          → Retrieved f
          → (run_callbacks f).log_traceback ≡ false
      helper pending e k = ground arith
      helper cancelled e k = ground arith
      helper (result a) e k = ground arith
      helper (exception x) e k = ground arith

  quiet-All :
      (fs : List (Future A))
      → All Retrieved fs
      → All (λ f. f.log_traceback ≡ false) (map run_callbacks fs)
  quiet-All [] h = tt
  quiet-All (f ∷ fs) h = (run_callbacks_quiet f h.0, quiet-All fs h.1)

  quiet-Retrieved :
      (fs : List (Future A)) → All (λ f. f.log_traceback ≡ false) fs → All Retrieved fs
  quiet-Retrieved [] h = tt
  quiet-Retrieved (f ∷ fs) h = (inl h.0, quiet-Retrieved fs h.1)

  -- Only the current future changes.
  All-last :
      (P : Future A → Type 0) (fs : List (Future A)) (f g : Future A)
      → (P f → P g)
      → All P (fs ++ f ∷ [])
      → All P (fs ++ g ∷ [])
  All-last P [] f g k h = (k h.0, tt)
  All-last P (x ∷ fs) f g k h = (h.0, All-last P fs f g k h.1)

  turn-futures : (s : FutureSlot A) → futures (turn s) ≡ map run_callbacks (futures s)
  unfolding turn
  turn-futures s = sym (map-append run_callbacks s.replaced (s.future ∷ []))

  turn_quiet :
      (s : FutureSlot A) → IsSettled s → All (λ f. f.log_traceback ≡ false) (futures (turn s))
  turn_quiet s v = rw (turn-futures s) (quiet-All (futures s) v.retrieved)

  not-failed : (st : FutureState A) → is_done st ≡ false → is_failed st ≡ false
  unfolding is_done
  not-failed pending h = refl
  not-failed cancelled h = refl
  not-failed (result a) h = refl
  not-failed (exception x) h = absurd (ground arith)

  -- A pending future has no failure to retrieve.
  pending_quiet : (f : Future A) → is_done f.state ≡ false → Retrieved f → f.log_traceback ≡ false
  pending_quiet f e h = ground (arith, not-failed f.state e)

  resolve-IsSettled :
      (s t : FutureSlot A)
      → t.replaced ≡ s.replaced
      → (Retrieved s.future → Retrieved t.future)
      → IsSettled s
      → IsSettled t
  resolve-IsSettled s t e k v = record {
    replaced_done = rw e v.replaced_done;
    retrieved = rw e (All-last Retrieved s.replaced s.future t.future k v.retrieved);
  }

  cancel_done : (f : Future A) → is_done (cancel f).state ≡ true
  unfolding cancel is_done
  cancel_done f = ground arith

  cancel-Retrieved : (f : Future A) → Retrieved f → Retrieved (cancel f)
  unfolding cancel
  cancel-Retrieved f h = elim (Bool-cases (is_done f.state)) [
    | inl e ↦ rw e h
    | inr e ↦ rw e (inl (pending_quiet f e h))
  ]

  set-Retrieved : (a : A) (s : FutureSlot A) → Retrieved s.future → Retrieved (set_slot a s).future
  unfolding set_slot
  set-Retrieved a s h = elim (Bool-cases (is_done s.future.state)) [
    | inl e ↦ rw e h
    | inr e ↦ rw e (inl (pending_quiet s.future e h))
  ]

  fail-Retrieved :
      (x : Exc) (s : FutureSlot A) → Retrieved s.future → Retrieved (fail_slot x s).future
  unfolding fail_slot
  fail-Retrieved x s h = elim (Bool-cases (is_done s.future.state)) [
    | inl e ↦ rw e h
    | inr e ↦ rw e (inr (refl, refl, omega arith))
  ]

  reset-IsSettled : (s : FutureSlot A) → IsSettled s → IsSettled (reset s)
  unfolding reset
  reset-IsSettled s v = record {
    replaced_done =
        All-append (λ f. is_done f.state ≡ true) s.replaced _ v.replaced_done
          (cancel_done s.future, tt);
    retrieved =
        All-append Retrieved (s.replaced ++ cancel s.future ∷ []) _
          (All-last Retrieved s.replaced s.future _ (cancel-Retrieved s.future) v.retrieved)
          (inl refl, tt);
  }

  turn-IsSettled : (s : FutureSlot A) → IsSettled s → IsSettled (turn s)
  unfolding turn
  turn-IsSettled s v = record {
    replaced_done = run_callbacks_done s.replaced v.replaced_done;
    retrieved = quiet-Retrieved _ (turn_quiet s v);
  }

  step-IsSettled : (o : Op A) (s : FutureSlot A) → IsSettled s → IsSettled (step o s)
  unfolding step
  step-IsSettled (set a) s v = resolve-IsSettled s _ (set-replaced a) (set-Retrieved a s) v
    where
      set-replaced : (b : A) → (set_slot b s).replaced ≡ s.replaced
      set-replaced b = unfold set_slot in ground arith
  step-IsSettled (fail x) s v = resolve-IsSettled s _ (fail-replaced x) (fail-Retrieved x s) v
    where
      fail-replaced : (y : Exc) → (fail_slot y s).replaced ≡ s.replaced
      fail-replaced y = unfold fail_slot in ground arith
  step-IsSettled renew s v = reset-IsSettled s v
  step-IsSettled tick s v = turn-IsSettled s v

  run-IsSettled : (os : List (Op A)) (s : FutureSlot A) → IsSettled s → IsSettled (run os s)
  unfolding run
  run-IsSettled [] s v = v
  run-IsSettled (o ∷ os) s v = run-IsSettled os (step o s) (step-IsSettled o s v)

  -- After any calls of a fresh slot, every replaced future is done; and one turn of the loop later no future of the slot holds an
  -- exception that asyncio would report as never retrieved.
  pub run_settled :
      (os : List (Op A))
      → All (λ f. is_done f.state ≡ true) (run os init).replaced
        × All (λ f. f.log_traceback ≡ false) (futures (turn (run os init)))
  run_settled os =
      let v = run-IsSettled os init init-IsSettled in (v.replaced_done, turn_quiet (run os init) v)
