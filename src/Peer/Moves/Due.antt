-- ===== src/Peer/Moves/Due.antt =====
-- A PeerConnection (aiolibdatachannel/peer_connection.py) on which `close` has been called: what its
-- teardown and its tasks do through any moves.
use aiolibdatachannel.Prelude.{ℕ, ◌≡◌, refl, Bool, true, false, List}
use aiolibdatachannel.Tasks.{
  Teardown, not_started, scheduled, gathering, releasing, released, finished, numbers,
}
use aiolibdatachannel.Tasks.Kept.{without}
use aiolibdatachannel.Peer.{PeerConnection}
use aiolibdatachannel.Peer.Moves.{Move, task_ends}

-- Of these tasks, those that do not end in a move.
abbrev pub left_by : {S : Type 0} → Move S → List ℕ → List ℕ
left_by (task_ends n) ns = without n ns
left_by m ns = ns

-- Of the stage of the teardown and of whether the shutdown has been reported: what holds at a stage
-- holds at the later ones, if the end of the teardown reports the shutdown.
pub record IsUpward (p : Teardown → Bool → Bool) : Type 0 where
  pub gathers : (b : Bool) (ns : List ℕ) → p scheduled b ≡ true → p (gathering ns) b ≡ true
  pub frees : (b : Bool) → p scheduled b ≡ true → p releasing b ≡ true
  pub gathered : (b : Bool) (ns : List ℕ) → p (gathering ns) b ≡ true → p releasing b ≡ true
  pub executed : (b : Bool) → p releasing b ≡ true → p released b ≡ true
  pub ended : (b : Bool) → p released b ≡ true → p finished true ≡ true

-- The teardown is scheduled or later; at the wait for the tasks or later; at the wait for the
-- executor or later; the executor has run; the teardown has ended.
abbrev pub is_asked : Teardown → Bool → Bool
is_asked not_started b = false
is_asked finished b = b
is_asked t b = true

abbrev pub has_begun : Teardown → Bool → Bool
has_begun not_started b = false
has_begun scheduled b = false
has_begun finished b = b
has_begun t b = true

abbrev pub has_freed : Teardown → Bool → Bool
has_freed releasing b = true
has_freed released b = true
has_freed finished b = b
has_freed t b = false

abbrev pub has_executed : Teardown → Bool → Bool
has_executed released b = true
has_executed finished b = b
has_executed t b = false

abbrev pub has_ended : Teardown → Bool → Bool
has_ended finished b = b
has_ended t b = false

pub is_asked-IsUpward : IsUpward is_asked
is_asked-IsUpward = record {
  gathers = λ b ns e. refl;
  frees = λ b e. refl;
  gathered = λ b ns e. refl;
  executed = λ b e. refl;
  ended = λ b e. refl;
}

pub has_begun-IsUpward : IsUpward has_begun
has_begun-IsUpward = record {
  gathers = λ b ns e. refl;
  frees = λ b e. refl;
  gathered = λ b ns e. refl;
  executed = λ b e. refl;
  ended = λ b e. refl;
}

pub has_freed-IsUpward : IsUpward has_freed
has_freed-IsUpward = record {
  gathers = λ b ns e. e;
  frees = λ b e. refl;
  gathered = λ b ns e. refl;
  executed = λ b e. refl;
  ended = λ b e. refl;
}

pub has_executed-IsUpward : IsUpward has_executed
has_executed-IsUpward = record {
  gathers = λ b ns e. e;
  frees = λ b e. e;
  gathered = λ b ns e. e;
  executed = λ b e. refl;
  ended = λ b e. refl;
}

pub has_ended-IsUpward : IsUpward has_ended
has_ended-IsUpward = record {
  gathers = λ b ns e. e;
  frees = λ b e. e;
  gathered = λ b ns e. e;
  executed = λ b e. e;
  ended = λ b e. refl;
}

-- `close` has been called, these tasks are left, and the teardown has come so far.
abbrev pub IsDue : (Teardown → Bool → Bool) → List ℕ → PeerConnection → Type 0
IsDue p ns pc =
    (pc.closed ≡ true) × (numbers pc.tasks ≡ ns) × (p pc.teardown pc.closed_event ≡ true)
