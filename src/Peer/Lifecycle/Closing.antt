-- ===== src/Peer/Lifecycle/Closing.antt =====
-- What the shutdown of a PeerConnection (aiolibdatachannel/peer_connection.py) reaches, and what it
-- does not.
use Prim.Native.String.{String}
use aiolibdatachannel.Prelude.{
  ◌≡◌, refl, true, false, List, [], ◌∷◌, none, some, All, if_cases, get_elem?, ◌∙◌, ap,
}
use aiolibdatachannel.Errors.{returns, blocks}
use aiolibdatachannel.Native.{Native, Value}
use aiolibdatachannel.Loop.{FutureState, pending, wait_for, done}
use aiolibdatachannel.Core.Machine.{Core}
use aiolibdatachannel.Core.Registry.Invariant.{lookup-release}
use aiolibdatachannel.Core.Registry.{Wrapper, lookup, release}
use aiolibdatachannel.Core.Calls.Soundness.{IsSound, pc_destroy-tables}
use aiolibdatachannel.Channel.{DataChannel}
use aiolibdatachannel.Channel.Api
use aiolibdatachannel.Channel.Api.Moves.Safety.{IsSafe}
use aiolibdatachannel.Channel.Api.Moves.Runs.{destroy-IsSafe}
use aiolibdatachannel.Peer.{PeerConnection, SdpType}
use aiolibdatachannel.Peer.Negotiation.{resume_create}
use aiolibdatachannel.Peer.Lifecycle.Made.{destroy_channels-pcs}
use aiolibdatachannel.Peer.Lifecycle.{close, finish_teardown, destroy_channels, wait_closed}

close-futures :
    (pc : PeerConnection)
    → ((close pc).gathering_complete ≡ pc.gathering_complete)
      × ((close pc).local_description ≡ pc.local_description)
      × ((close pc).native ≡ pc.native)
      × ((close pc).data_channels ≡ pc.data_channels)
unfolding close
close-futures pc =
    if_cases
      (λ (d : PeerConnection).
        (d.gathering_complete ≡ pc.gathering_complete)
        × (d.local_description ≡ pc.local_description)
        × (d.native ≡ pc.native)
        × (d.data_channels ≡ pc.data_channels))
      pc.closed _ _ (λ e. (refl, refl, refl, refl)) (λ e. (refl, refl, refl, refl))

-- What one channel of a connection that is torn down is left in.
abbrev pub IsReleased : DataChannel → Type 0
IsReleased d =
    (d.destroyed ≡ true)
    × (done d.closed_slot ≡ true)
    × (done d.open_slot ≡ true)
    × (d.buffered_low.waiting ≡ [])

module _ (N : Native) {C : Type 0} (to_str : Value → String) where
  open N use {World}

  -- The wrapper of a connection that is torn down leaves the registry.
  finish_teardown-lookup :
      (pc : PeerConnection) (c : Core World C) (w : Wrapper C)
      → IsSound N to_str c
      → get_elem? c.pcs.objects pc.native ≡ some w
      → w.destroyed ≡ false
      → lookup w.handle (finish_teardown N to_str pc c).1.pcs ≡ none
  unfolding finish_teardown
  finish_teardown-lookup pc c w v at live =
      let d = (destroy_channels N to_str pc.data_channels c).1 in
      let (same, on) = destroy_channels-pcs N to_str pc.data_channels c in
      ap (lookup w.handle)
        ((pc_destroy-tables N to_str pc.native d).same_pcs ∙ ap (release pc.native) same)
      ∙ lookup-release c.pcs pc.native w v.pcs_ok at live

  waits_on :
      (type : SdpType) (f : FutureState (Unit {0})) (pc : PeerConnection) (c : Core World C)
      → f ≡ pending
      → resume_create N to_str type f pc c ≡ blocks
  unfolding resume_create wait_for
  waits_on type f pc c p = rw p refl

  -- A coroutine that awaits its gathering hangs when its connection is closed: from a consistent
  -- state with the connection's wrapper alive and the gathering future pending, after `close` and
  -- the end of the teardown, run with nothing in between, the coroutine of `create_offer` or
  -- `create_answer` is still blocked, the shutdown is reported as complete, and a lookup of the
  -- connection's handle finds nothing.
  pub close_leaves_pending :
      (type : SdpType) (pc : PeerConnection) (c : Core World C) (w : Wrapper C)
      → pc.gathering_complete.future.state ≡ pending
      → IsSound N to_str c
      → get_elem? c.pcs.objects pc.native ≡ some w
      → w.destroyed ≡ false
      → let r = finish_teardown N to_str (close pc) c in
        (resume_create N to_str type r.0.gathering_complete.future.state r.0 r.1 ≡ blocks)
        × (r.0.closed_event ≡ true)
        × (lookup w.handle r.1.pcs ≡ none)
  unfolding finish_teardown
  close_leaves_pending type pc c w p v at live =
      let (same, _, native, _) = close-futures pc in
      (
        waits_on type _ _ _ (ap (λ s. s.future.state) same ∙ p),
        refl,
        finish_teardown-lookup (close pc) c w v (ap (get_elem? c.pcs.objects) native ∙ at) live,
      )

  channels-IsReleased :
      (dcs : List DataChannel) (c : Core World C)
      → All IsSafe dcs
      → All IsReleased (destroy_channels N to_str dcs c).0
  unfolding destroy_channels
  channels-IsReleased [] c v = tt
  channels-IsReleased (dc ∷ dcs) c v =
      let (safe, gone, _) = destroy-IsSafe N to_str dc c v.0 in
      (
        (gone, (safe.released gone).0, (safe.released gone).1, (safe.released gone).2),
        channels-IsReleased dcs (Api.destroy N to_str dc c).1 v.1,
      )

  -- The end of the teardown of a connection whose channels are safe, run with nothing in between,
  -- leaves nothing of them behind: each is destroyed, its open and its closed slot are resolved, and
  -- no sender waits on it; and those who wait for the connection's own shutdown are let go.
  pub teardown_releases :
      (pc : PeerConnection) (c : Core World C)
      → All IsSafe pc.data_channels
      → let d = (finish_teardown N to_str pc c).0 in
        All IsReleased d.data_channels × (wait_closed d ≡ returns tt)
  unfolding finish_teardown
  teardown_releases pc c v = (channels-IsReleased pc.data_channels c v, refl)
