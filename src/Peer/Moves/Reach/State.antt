-- ===== src/Peer/Moves/Reach/State.antt =====
-- How a connection (aiolibdatachannel/peer_connection.py) and its channels can be reached through
-- the registries of aiolibdatachannel/_core.py, and what a new channel changes of it.
use Prim.Native.String.{String}
use aiolibdatachannel.Prelude.{ℕ, ◌≡◌, refl, ◌∙◌, true, [], none, arith, length}
use aiolibdatachannel.Prelude.Dict
use aiolibdatachannel.Errors.{Result, ok, raises}
use aiolibdatachannel.Native.{Native, Value, Name}
use aiolibdatachannel.Core.Registry.Held.{stored}
use aiolibdatachannel.Core.Registry.Stands.{Stands}
use aiolibdatachannel.Core.Machine.{Core, call}
use aiolibdatachannel.Core.Machine.Frame.{SameTables, SameTables-refl}
use aiolibdatachannel.Core.Calls
use aiolibdatachannel.Core.Calls.Soundness.{IsSound, same-IsSound}
use aiolibdatachannel.Channel.{DataChannel}
use aiolibdatachannel.Channel.Create.{create}
use aiolibdatachannel.Channel.Api.Moves.Wrapped.{IsAllowed}
use aiolibdatachannel.Peer.{
  PeerConnection, created, handle_incoming_dc, add_channel, accept_channel, emit,
}
use aiolibdatachannel.Peer.Create.{pc_names}
use aiolibdatachannel.Peer.Callbacks.{Call, channel_came}
use aiolibdatachannel.Peer.Lifecycle.{channel_args}
use aiolibdatachannel.Peer.Moves.{Move, runs, makes, owned, changes}
use aiolibdatachannel.Peer.Moves.Reach.Like.{gone, Like}
use aiolibdatachannel.Peer.Moves.Reach.Owns.{Owns, append-Owns, Owns-lt}
use aiolibdatachannel.Peer.Moves.Reach.Made.{create-Keeps, create-Stands}

module _ (N : Native) {C : Type 0} (to_str : Value → String) (own : Name → C)
    (callback : ℕ → Name → C) where
  open N use {World}

  -- The registries are consistent; the dispatcher is installed; the connection's wrapper object has
  -- its seven callbacks until it is destroyed; and so it is with the channels.
  pub record IsReached (pc : PeerConnection) (c : Core World C) : Type 0 where
    pub sound : IsSound N to_str c
    pub on : c.installed ≡ true
    pub peer : Stands c.pcs (stored own pc_names []) (gone pc.teardown) pc.native
    pub channels : Owns callback c.dcs pc.data_channels

  -- A handle that comes from the extension is not one that a live wrapper still has, and the
  -- extension changes no registry.
  abbrev pub CallIsFair : Call → Core World C → Type 0
  CallIsFair (channel_came h) c = Dict.get h c.dcs.table ≡ none
  CallIsFair call c = Unit

  abbrev pub IsFair : Move (Core World C) → PeerConnection → Core World C → Type 0
  IsFair (runs call) pc c = CallIsFair call c
  IsFair (makes label opts) pc c =
      (h : ℕ)
      → (Calls.create_data_channel N to_str pc.native (channel_args label opts) c).0 ≡ ok h
      → Dict.get h c.dcs.table ≡ none
  IsFair (owned i m) pc c = IsAllowed N to_str m c
  IsFair (changes d) pc c = SameTables c d
  IsFair m pc c = Unit

  created-both :
      (P : PeerConnection → Core World C → Type 0) (r : Result DataChannel × Core World C)
      (pc : PeerConnection)
      → P pc r.1
      → ((dc : DataChannel) → r.0 ≡ ok dc → P (accept_channel dc pc) r.1)
      → let s = created N to_str callback r pc in P s.0 s.1
  unfolding created
  created-both P (raises e, c) pc p q = p
  created-both P (ok dc, c) pc p q = q dc refl

  pub like-IsReached :
      (pc d : PeerConnection) (c e : Core World C)
      → Like pc d
      → SameTables c e
      → IsReached pc c
      → IsReached d e
  like-IsReached pc d c e l s v = record {
    sound = same-IsSound N to_str s v.sound;
    on = s.same_installed ∙ v.on;
    peer = rw (s.same_pcs, l.1, l.0) v.peer;
    channels = rw (s.same_dcs, l.2) v.channels;
  }

  pub plain-IsReached :
      (pc d : PeerConnection) (c : Core World C) → Like pc d → IsReached pc c → IsReached d c
  plain-IsReached pc d c l v = like-IsReached pc d c c l (SameTables-refl c) v

  -- A channel that is made joins the others, if its handle is not that of a live wrapper.
  module _ (pc : PeerConnection) (h : ℕ) (c : Core World C)
      (free : Dict.get h c.dcs.table ≡ none) where
    abbrev pub new : Result DataChannel × Core World C
    new = create N to_str (callback (length pc.data_channels)) h 1024 c

    pub created_others : IsReached pc c → IsReached pc new.1
    created_others v =
        let (sound, owns, (same, on)) =
          create-Keeps N to_str callback pc.data_channels (callback (length pc.data_channels)) h
            1024 c free v.sound v.channels in
        record { sound = sound; on = on ∙ v.on; peer = rw same v.peer; channels = owns }

    pub created_one :
        (dc : DataChannel) → new.0 ≡ ok dc → IsReached pc c → IsReached (add_channel dc pc) new.1
    unfolding add_channel
    created_one dc e v =
        let w = created_others v in
        let (last, stands) =
          create-Stands N to_str (callback (length pc.data_channels)) h 1024 c dc e in
        record {
          sound = w.sound;
          on = w.on;
          peer = w.peer;
          channels =
              append-Owns callback new.1.dcs pc.data_channels dc stands
                (λ i d at same.
                  absurd (omega (arith, Owns-lt callback c.dcs pc.data_channels v.channels i d at)))
                w.channels;
        }

    pub came-IsReached :
        IsReached pc c → let r = handle_incoming_dc N to_str callback h pc c in IsReached r.0 r.1
    unfolding handle_incoming_dc accept_channel emit add_channel
    came-IsReached v =
        created-both IsReached new pc (created_others v)
          (λ dc e. plain-IsReached (add_channel dc pc) _ _ (refl, refl, refl) (created_one dc e v))
