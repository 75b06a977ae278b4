-- ===== src/Peer/Moves/Reach/Like.antt =====
-- What the handlers and methods of a connection (aiolibdatachannel/peer_connection.py) leave alone:
-- its wrapper object, its channels, and whether its own handle has been released.
use aiolibdatachannel.Prelude.{ℕ, ◌≡◌, refl, Bool, true, false, Option, if_cases}
use aiolibdatachannel.Enums.{RtcState, GatheringState}
use aiolibdatachannel.Errors.{Result}
use aiolibdatachannel.Tasks.{
  Teardown, not_started, scheduled, gathering, releasing, released, finished,
}
use aiolibdatachannel.Peer.{
  PeerConnection, emit, handle_state_change, handle_gathering_state, is_final, is_complete,
  resolve_pending, complete_gathering,
}
use aiolibdatachannel.Peer.Remote.{Candidate, add_remote_candidate}
use aiolibdatachannel.Peer.Lifecycle.{spawn_task, close, end_teardown}
use aiolibdatachannel.Peer.Moves.{end_if}

-- The executor has run the wrapper's `destroy`.
abbrev pub gone : Teardown → Bool
gone released = true
gone finished = true
gone t = false

abbrev pub Like : PeerConnection → PeerConnection → Type 0
Like pc d =
    (d.native ≡ pc.native)
    × (gone d.teardown ≡ gone pc.teardown)
    × (d.data_channels ≡ pc.data_channels)

pub handle_state_change-Like :
    (s : RtcState) (pc : PeerConnection) → Like pc (handle_state_change s pc)
unfolding handle_state_change emit resolve_pending
handle_state_change-Like s pc =
    if_cases (Like pc) (is_final s) _ _ (λ e. (refl, refl, refl)) (λ e. (refl, refl, refl))

pub handle_gathering_state-Like :
    (s : GatheringState) (pc : PeerConnection) → Like pc (handle_gathering_state s pc)
unfolding handle_gathering_state emit complete_gathering
handle_gathering_state-Like s pc =
    if_cases (Like pc) (is_complete s) _ _ (λ e. (refl, refl, refl)) (λ e. (refl, refl, refl))

pub add_remote_candidate-Like :
    (cand : Candidate) (pc : PeerConnection) → Like pc (add_remote_candidate cand pc).1
unfolding add_remote_candidate
add_remote_candidate-Like cand pc =
    if_cases (λ (r : Option Candidate × PeerConnection). Like pc r.1) pc.remote_description_set _ _
      (λ e. (refl, refl, refl)) (λ e. (refl, refl, refl))

pub spawn_task-Like : (pc : PeerConnection) → Like pc (spawn_task pc).1
unfolding spawn_task
spawn_task-Like pc =
    if_cases (λ (r : Result ℕ × PeerConnection). Like pc r.1) pc.closed _ _
      (λ e. (refl, refl, refl)) (λ e. (refl, refl, refl))

-- A connection that is open has not begun its teardown.
pub close-Like :
    (pc : PeerConnection) → (pc.closed ≡ false → pc.teardown ≡ not_started) → Like pc (close pc)
unfolding close
close-Like pc begun =
    if_cases (Like pc) pc.closed _ _ (λ e. (refl, refl, refl))
      (λ e. (refl, rw (begun e) refl, refl))

pub end_if-Like : (t : Teardown) (pc : PeerConnection) → pc.teardown ≡ t → Like pc (end_if t pc)
unfolding end_if end_teardown
end_if-Like released pc e = (refl, rw e refl, refl)
end_if-Like not_started pc e = (refl, refl, refl)
end_if-Like scheduled pc e = (refl, refl, refl)
end_if-Like (gathering ns) pc e = (refl, refl, refl)
end_if-Like releasing pc e = (refl, refl, refl)
end_if-Like finished pc e = (refl, refl, refl)
