-- ===== src/Asyncio/Events.antt =====
-- asyncio.Event: the flag, the coroutines that wait in `wait()`, and those that `set()` has woken
-- and the loop has still to resume. What a coroutine goes on with is `A`.
use aiolibdatachannel.Prelude.{ℕ, zero, suc, Bool, true, false, List, [], ◌∷◌, ◌++◌}

pub record Event {ℓ} (A : Type ℓ) : Type ℓ where
  pub flag : Bool
  pub waiting : List A
  pub woken : List A

module _ {ℓ} {A : Type ℓ} where
  abbrev pub cleared : Event A
  cleared = record { flag = false; waiting = []; woken = [] }

  unfoldable pub set_event : Event A → Event A
  set_event e = record { flag = true; waiting = []; woken = e.woken ++ e.waiting }

  unfoldable pub clear_event : Event A → Event A
  clear_event e = record e { flag = false }

  -- A coroutine that finds the flag down; one that finds it up does not wait.
  unfoldable pub park : A → Event A → Event A
  park a e = record e { waiting = e.waiting ++ a ∷ [] }

  unfoldable pub remove : ℕ → List A → List A
  remove n [] = []
  remove zero (a ∷ as_) = as_
  remove (suc n) (a ∷ as_) = a ∷ remove n as_

  -- Of the two lists, the one behind the other, loses the place.
  unfoldable pub remove_either : ℕ → List A → List A → List A × List A
  remove_either n [] bs = ([], remove n bs)
  remove_either zero (a ∷ as_) bs = (as_, bs)
  remove_either (suc n) (a ∷ as_) bs = let r = remove_either n as_ bs in (a ∷ r.0, r.1)

  -- A coroutine is cancelled, by its place among those that are woken and then those that wait: it
  -- raises CancelledError at its `wait()`, also if `set()` has woken it already.
  unfoldable pub give_up : ℕ → Event A → Event A
  give_up n e = let r = remove_either n e.woken e.waiting in record e { woken = r.0; waiting = r.1 }
