-- ===== src/Wiring/Steady.antt =====
-- The invariant of a connection through everything that the extension of aiolibdatachannel/ reports
-- and the loop runs.
use Prim.Native.String.{String}
use aiolibdatachannel.Prelude.{ℕ, ◌≡◌, List, [], ◌∷◌, Option, none, some, get_elem?}
use aiolibdatachannel.Native.{Native, Emission, Value}
use aiolibdatachannel.Channel
use aiolibdatachannel.Channel.{DataChannel}
use aiolibdatachannel.Channel.Api.Moves.Safety.{run_call-IsSafe}
use aiolibdatachannel.Peer.Moves.Live.{IsLive}
use aiolibdatachannel.Peer.Moves.Steps.{All-set, All-get, channels-IsLive}
use aiolibdatachannel.Peer.Moves.{Move, move}
use aiolibdatachannel.Core.Machine.{Core}
use aiolibdatachannel.Wiring.{Bound, App, bound, receive, run_channel, run_peer, spin}

-- The extension reports something, the loop does an iteration, or anything else happens to the
-- connection.
pub data Step (S : Type 0) : Type 0 where
  reports : Emission → Step S
  turns : Step S
  acts : Move S → Step S

module _ (N : Native) (to_str : Value → String) where
  open N use {World}

  unfoldable pub step : Step (Core World Bound) → App World → App World
  step (reports e) a = receive to_str e a
  step turns a = spin N to_str a
  step (acts m) a = run_peer N to_str (move N to_str bound m (a.pc, a.core)) a

  unfoldable pub steps : List (Step (Core World Bound)) → App World → App World
  unfolding step
  steps [] a = a
  steps (s ∷ ss) a = steps ss (step s a)

  pub run_channel-IsLive :
      (i : ℕ) (call : Channel.Call) (o : Option DataChannel) (a : App World)
      → get_elem? a.pc.data_channels i ≡ o
      → IsLive a.pc
      → IsLive (run_channel N to_str i call o a).pc
  unfolding run_channel
  run_channel-IsLive i call none a e v = v
  run_channel-IsLive i call (some dc) a e v =
      channels-IsLive _ a.pc
        (All-set a.pc.data_channels i (Channel.run_call call dc) v.channels
          (run_call-IsSafe call dc (All-get a.pc.data_channels i dc v.channels e)))
        v
