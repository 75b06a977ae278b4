-- ===== src/Examples/Peers.antt =====
-- Connections on small inputs.
use aiolibdatachannel.Prelude.{◌≡◌, refl, true, List, [], ◌∷◌, none, arith, All}
use aiolibdatachannel.Errors.{blocks, returns}
use aiolibdatachannel.Loop.{init}
use aiolibdatachannel.Core.Registry.{lookup}
use aiolibdatachannel.Channel
use aiolibdatachannel.Channel.{DataChannel}
use aiolibdatachannel.Channel.Api.Moves.Runs.{fresh-IsSafe}
use aiolibdatachannel.Peer.{PeerConnection, fresh, offer, add_channel}
use aiolibdatachannel.Peer.Negotiation.{resume_create}
use aiolibdatachannel.Peer.Lifecycle.{close, finish_teardown, wait_closed}
use aiolibdatachannel.Peer.Lifecycle.Closing.{close_leaves_pending, IsReleased, teardown_releases}
use aiolibdatachannel.Peer.Remote.{Move, add, apply, resume, drain, forward, begin, moves}
use aiolibdatachannel.Peer.Remote.Traced.{IsTraced}
use aiolibdatachannel.Peer.Remote.Conservation.{moves-IsTraced}
use aiolibdatachannel.Examples.Fake.{
  fake, shown, connected, connected-IsSound, live, connected_live,
}

abbrev trickle : List Move
trickle =
    add ("a", "0")
    ∷ add ("b", "0")
    ∷ apply "v=0" offer
    ∷ add ("c", "0")
    ∷ resume
    ∷ add ("d", "1")
    ∷ drain 0
    ∷ forward 0
    ∷ drain 0
    ∷ []

moves-IsTraced_example : IsTraced (moves fake shown trickle (begin 0 connected))
moves-IsTraced_example = moves-IsTraced fake shown trickle 0 connected

close_leaves_pending_example :
    let r = finish_teardown fake shown (close (fresh 0)) connected in
    (resume_create fake shown offer r.0.gathering_complete.future.state r.0 r.1 ≡ blocks)
    × (r.0.closed_event ≡ true)
    × (lookup 4 r.1.pcs ≡ none)
unfolding fresh init
close_leaves_pending_example =
    close_leaves_pending fake shown offer (fresh 0) connected live refl connected-IsSound
      connected_live refl

abbrev owner : PeerConnection
owner = add_channel (Channel.fresh 0 16) (fresh 0)

teardown_releases_example :
    let d = (finish_teardown fake shown owner connected).0 in
    All IsReleased d.data_channels × (wait_closed d ≡ returns tt)
unfolding add_channel fresh
teardown_releases_example =
    teardown_releases fake shown owner connected (fresh-IsSafe 0 16 (omega arith), tt)
