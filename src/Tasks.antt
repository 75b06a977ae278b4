-- ===== src/Tasks.antt =====
-- The tasks that a PeerConnection or a DataChannel owns: `spawn_task`, the done callback that drops
-- a task, and the cancelling in `close` (aiolibdatachannel/peer_connection.py and
-- aiolibdatachannel/data_channel.py have the same code).
pub mod Kept
use aiolibdatachannel.Prelude.{
  ℕ, suc, Bool, true, false, List, [], ◌∷◌, ◌++◌, map, ◌==◌, if◌then◌else◌,
}

-- `cancelling` is set once `cancel()` has been called on the task.
pub record Task : Type 0 where
  pub number : ℕ
  pub cancelling : Bool

-- `next` numbers the tasks of the loop.
pub record TaskSet : Type 0 where
  pub tasks : List Task
  pub next : ℕ

abbrev pub no_tasks : TaskSet
no_tasks = record { tasks = []; next = 0 }

-- `self._tasks.add(task)`, the result being the task's number.
unfoldable pub add_task : TaskSet → ℕ × TaskSet
add_task s = (
  s.next,
  record {
    tasks = s.tasks ++ record { number = s.next; cancelling = false } ∷ [];
    next = suc s.next;
  },
)

-- `self._tasks.discard`, when the task is done.
remove_task : ℕ → List Task → List Task
remove_task n [] = []
remove_task n (t ∷ ts) = if t.number == n then remove_task n ts else t ∷ remove_task n ts

unfoldable pub discard : ℕ → TaskSet → TaskSet
unfolding remove_task
discard n s = record s { tasks = remove_task n s.tasks }

abbrev pub cancelled : Task → Task
cancelled t = record t { cancelling = true }

-- `for task in list(self._tasks): task.cancel()`.
unfoldable pub cancel_all : TaskSet → TaskSet
cancel_all s = record s { tasks = map cancelled s.tasks }

-- The snapshot that `_teardown` gathers.
unfoldable pub numbers : TaskSet → List ℕ
numbers s = map (λ (t : Task). t.number) s.tasks

-- Where the task of `_teardown` is: at the wait for the owned tasks; and, in a PeerConnection only,
-- at the wait for the executor, before and after the executor has run.
pub data Teardown : Type 0 where
  not_started scheduled releasing released finished : Teardown
  gathering : List ℕ → Teardown
