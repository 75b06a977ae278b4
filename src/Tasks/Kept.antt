-- ===== src/Tasks/Kept.antt =====
-- What holds of all owned tasks (aiolibdatachannel/peer_connection.py,
-- aiolibdatachannel/data_channel.py) holds of those that are left when one is done.
use aiolibdatachannel.Prelude.{
  ℕ, ◌≡◌, refl, ap, List, [], ◌∷◌, ◌++◌, map, All, if_cases, ◌==◌, arith, if◌then◌else◌,
}
use aiolibdatachannel.Tasks.{Task, TaskSet, remove_task, discard, cancelled, cancel_all, numbers}

remove_task-All : (P : Task → Type 0) (n : ℕ) (ts : List Task) → All P ts → All P (remove_task n ts)
unfolding remove_task
remove_task-All P n [] h = tt
remove_task-All P n (t ∷ ts) h =
    let rest = remove_task-All P n ts h.1 in
    if_cases (λ (us : List Task). All P us) (t.number == n) _ _ (λ e. rest) (λ e. (h.0, rest))

pub discard-All :
    (P : Task → Type 0) (n : ℕ) (s : TaskSet) → All P s.tasks → All P (discard n s).tasks
unfolding discard
discard-All P n s h = remove_task-All P n s.tasks h

-- The same on the numbers alone.
abbrev pub without : ℕ → List ℕ → List ℕ
without n [] = []
without n (m ∷ ms) = if m == n then without n ms else m ∷ without n ms

numbers_of : List Task → List ℕ
numbers_of ts = map (λ (t : Task). t.number) ts

remove_task-numbers :
    (n : ℕ) (ts : List Task) → numbers_of (remove_task n ts) ≡ without n (numbers_of ts)
unfolding remove_task numbers_of
remove_task-numbers n [] = refl
remove_task-numbers n (t ∷ ts) = let rest = remove_task-numbers n ts in ground (arith, rest)

pub discard-numbers : (n : ℕ) (s : TaskSet) → numbers (discard n s) ≡ without n (numbers s)
unfolding numbers discard numbers_of
discard-numbers n s = remove_task-numbers n s.tasks

cancelled-numbers : (ts : List Task) → numbers_of (map cancelled ts) ≡ numbers_of ts
unfolding numbers_of
cancelled-numbers [] = refl
cancelled-numbers (t ∷ ts) = ap (λ l. t.number ∷ l) (cancelled-numbers ts)

pub cancel_all-numbers : (s : TaskSet) → numbers (cancel_all s) ≡ numbers s
unfolding numbers cancel_all numbers_of
cancel_all-numbers s = cancelled-numbers s.tasks

-- Of these tasks, those that are left after each of a list of moves has ended some.
module _ {M : Type 0} (left_by : M → List ℕ → List ℕ) where
  unfoldable pub left_after : List M → List ℕ → List ℕ
  left_after [] ns = ns
  left_after (m ∷ ms) ns = left_after ms (left_by m ns)

  pub left_after-append :
      (ms ms' : List M) (ns : List ℕ)
      → left_after (ms ++ ms') ns ≡ left_after ms' (left_after ms ns)
  unfolding left_after
  left_after-append [] ms' ns = refl
  left_after-append (m ∷ ms) ms' ns = left_after-append ms ms' (left_by m ns)
