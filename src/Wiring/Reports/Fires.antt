-- ===== src/Wiring/Reports/Fires.antt =====
-- The way of a report of the extension through the dispatcher of aiolibdatachannel/_core.py to the
-- bound method that is registered for it, and from there onto the loop.
use Prim.Native.String.{String}
use aiolibdatachannel.Prelude.{ℕ, ◌≡◌, refl, ap, ◌∙◌, true, false, List, [], ◌∷◌, ◌++◌, map}
use aiolibdatachannel.Errors.{ok}
use aiolibdatachannel.Native.{Value, Name}
use aiolibdatachannel.Loop.{EventLoop}
use aiolibdatachannel.Core.Registry.{callback_kind}
use aiolibdatachannel.Core.Registry.Invariant.{IsConsistent}
use aiolibdatachannel.Core.Dispatch.{dispatch}
use aiolibdatachannel.Core.Dispatch.Routing.{IsHeld, dispatch-fires, fits, passed}
use aiolibdatachannel.Core.Machine.Frame.{deliver-fires}
use aiolibdatachannel.Channel.{Message, text}
use aiolibdatachannel.Wiring.{
  of_peer, of_channel, LoopCall, peer_call, channel_call, App, invoke, invoke_bound, invoke_all,
  receive,
}
use aiolibdatachannel.Wiring.Reports.{
  PeerReport, description, candidate, state, ice_state, gathering_state, signaling_state,
  data_channel, ChannelReport, open_, closed_, error, message, buffered_amount_low, peer_emission,
  channel_emission, peer_calls, channel_calls, peer_name, channel_name, peer_callback-calls,
  channel_callback-calls,
}

-- The dispatcher reads the number of the callback as its name.
peer_emission-named :
    (h : ℕ) (r : PeerReport)
    → let p = (peer_emission h r).payload in
      (peer_emission h r ≡ record { kind = callback_kind (peer_name r); handle = h; payload = p })
      × (fits (peer_name r) p ≡ true)
      × (passed (peer_name r) p ≡ p)
unfolding callback_kind
peer_emission-named h (description sdp type) = (refl, refl, refl)
peer_emission-named h (candidate cand mid) = (refl, refl, refl)
peer_emission-named h (state n) = (refl, refl, refl)
peer_emission-named h (ice_state n) = (refl, refl, refl)
peer_emission-named h (gathering_state n) = (refl, refl, refl)
peer_emission-named h (signaling_state n) = (refl, refl, refl)
peer_emission-named h (data_channel dc) = (refl, refl, refl)

channel_emission-named :
    (h : ℕ) (r : ChannelReport)
    → let p = (channel_emission h r).payload in
      (channel_emission h r
        ≡ record { kind = callback_kind (channel_name r); handle = h; payload = p })
      × (fits (channel_name r) p ≡ true)
unfolding callback_kind
channel_emission-named h open_ = (refl, refl)
channel_emission-named h closed_ = (refl, refl)
channel_emission-named h (error m) = (refl, refl)
channel_emission-named h (message (Message.bytes d)) = (refl, refl)
channel_emission-named h (message (text t)) = (refl, refl)
channel_emission-named h buffered_amount_low = (refl, refl)

-- Calls put onto the loop.
abbrev pub scheduled : {W : Type 0} → List LoopCall → App W → App W
scheduled calls a = record a {
  core = record (a.core) { fired = [] };
  loop = record (a.loop) { ready = a.loop.ready ++ calls };
}

invoke-of_peer :
    (h : ℕ) (r : PeerReport) (loop : EventLoop LoopCall)
    → loop.closed ≡ false
    → invoke
        (record {
          callback = of_peer (peer_name r);
          args = passed (peer_name r) (peer_emission h r).payload;
        })
        loop
      ≡ record loop { ready = loop.ready ++ map peer_call (peer_calls r) }
unfolding invoke invoke_bound
invoke-of_peer h r loop up =
    let (named, fit, same) = peer_emission-named h r in rw (up, same, peer_callback-calls h r) refl

invoke-of_channel :
    (h i : ℕ) (r : ChannelReport) (loop : EventLoop LoopCall)
    → loop.closed ≡ false
    → invoke
        (record {
          callback = of_channel i (channel_name r);
          args = passed (channel_name r) (channel_emission h r).payload;
        })
        loop
      ≡ record loop { ready = loop.ready ++ map (channel_call i) (channel_calls r) }
unfolding invoke invoke_bound
invoke-of_channel h i r loop up = rw (up, channel_callback-calls h r) refl

module _ {W : Type 0} (to_str : Value → String) where
  fires_peer :
      (h : ℕ) (r : PeerReport) (p : List Value) (a : App W)
      → IsConsistent a.core.pcs
      → fits (peer_name r) p ≡ true
      → IsHeld a.core.pcs h (peer_name r) (of_peer (peer_name r))
      → dispatch to_str a.core.pcs a.core.dcs a.core.log_callback (callback_kind (peer_name r)) h p
        ≡ ok (record { callback = of_peer (peer_name r); args = passed (peer_name r) p } ∷ [])
  unfolding callback_kind
  fires_peer h (description sdp type) p a v fit held =
      dispatch-fires to_str a.core.pcs a.core.dcs a.core.log_callback Name.local_description h p
        (of_peer Name.local_description) v fit held
  fires_peer h (candidate cand mid) p a v fit held =
      dispatch-fires to_str a.core.pcs a.core.dcs a.core.log_callback Name.local_candidate h p
        (of_peer Name.local_candidate) v fit held
  fires_peer h (state n) p a v fit held =
      dispatch-fires to_str a.core.pcs a.core.dcs a.core.log_callback Name.state_change h p
        (of_peer Name.state_change) v fit held
  fires_peer h (ice_state n) p a v fit held =
      dispatch-fires to_str a.core.pcs a.core.dcs a.core.log_callback Name.ice_state_change h p
        (of_peer Name.ice_state_change) v fit held
  fires_peer h (gathering_state n) p a v fit held =
      dispatch-fires to_str a.core.pcs a.core.dcs a.core.log_callback Name.gathering_state_change h
        p (of_peer Name.gathering_state_change) v fit held
  fires_peer h (signaling_state n) p a v fit held =
      dispatch-fires to_str a.core.pcs a.core.dcs a.core.log_callback Name.signaling_state_change h
        p (of_peer Name.signaling_state_change) v fit held
  fires_peer h (data_channel dc) p a v fit held =
      dispatch-fires to_str a.core.pcs a.core.dcs a.core.log_callback Name.data_channel h p
        (of_peer Name.data_channel) v fit held

  fires_channel :
      (h i : ℕ) (r : ChannelReport) (p : List Value) (a : App W)
      → IsConsistent a.core.dcs
      → fits (channel_name r) p ≡ true
      → IsHeld a.core.dcs h (channel_name r) (of_channel i (channel_name r))
      → dispatch to_str a.core.pcs a.core.dcs a.core.log_callback
          (callback_kind (channel_name r))
          h
          p
        ≡ ok (
            record { callback = of_channel i (channel_name r); args = passed (channel_name r) p }
            ∷ [])
  unfolding callback_kind
  fires_channel h i open_ p a v fit held =
      dispatch-fires to_str a.core.pcs a.core.dcs a.core.log_callback Name.on_open h p
        (of_channel i Name.on_open) v fit held
  fires_channel h i closed_ p a v fit held =
      dispatch-fires to_str a.core.pcs a.core.dcs a.core.log_callback Name.on_closed h p
        (of_channel i Name.on_closed) v fit held
  fires_channel h i (error m) p a v fit held =
      dispatch-fires to_str a.core.pcs a.core.dcs a.core.log_callback Name.on_error h p
        (of_channel i Name.on_error) v fit held
  fires_channel h i (message m) p a v fit held =
      dispatch-fires to_str a.core.pcs a.core.dcs a.core.log_callback Name.on_message h p
        (of_channel i Name.on_message) v fit held
  fires_channel h i buffered_amount_low p a v fit held =
      dispatch-fires to_str a.core.pcs a.core.dcs a.core.log_callback Name.buffered_amount_low h p
        (of_channel i Name.buffered_amount_low) v fit held

  pub receive-peer_emission :
      (h : ℕ) (r : PeerReport) (a : App W)
      → a.core.installed ≡ true
      → a.loop.closed ≡ false
      → IsConsistent a.core.pcs
      → IsHeld a.core.pcs h (peer_name r) (of_peer (peer_name r))
      → receive to_str (peer_emission h r) a ≡ scheduled (map peer_call (peer_calls r)) a
  unfolding receive invoke_all
  receive-peer_emission h r a on up v held =
      let (named, fit, same) = peer_emission-named h r in
      let p = (peer_emission h r).payload in
      let fires = fires_peer h r p a v fit held in
      ap (λ e. receive to_str e a) named
      ∙ rw (deliver-fires to_str (record (a.core) { fired = [] }) _ _ on fires)
          (rw (invoke-of_peer h r a.loop up) refl)

  pub receive-channel_emission :
      (h i : ℕ) (r : ChannelReport) (a : App W)
      → a.core.installed ≡ true
      → a.loop.closed ≡ false
      → IsConsistent a.core.dcs
      → IsHeld a.core.dcs h (channel_name r) (of_channel i (channel_name r))
      → receive to_str (channel_emission h r) a
        ≡ scheduled (map (channel_call i) (channel_calls r)) a
  unfolding receive invoke_all
  receive-channel_emission h i r a on up v held =
      let (named, fit) = channel_emission-named h r in
      let p = (channel_emission h r).payload in
      let fires = fires_channel h i r p a v fit held in
      ap (λ e. receive to_str e a) named
      ∙ rw (deliver-fires to_str (record (a.core) { fired = [] }) _ _ on fires)
          (rw (invoke-of_channel h i r a.loop up) refl)
