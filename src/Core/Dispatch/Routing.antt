-- ===== src/Core/Dispatch/Routing.antt =====
-- Where `_dispatch` of aiolibdatachannel/_core.py sends a callback.
use Prim.Native.String.{String}
use aiolibdatachannel.Prelude.{
  ℕ, zero, suc, ◌≡◌, ◌≢◌, inl, inr, refl, Bool, true, false, List, [], ◌∷◌, Option, some, arith,
  get_elem?, if◌then◌else◌, Option-cases, leb,
}
use aiolibdatachannel.Prelude.Dict
use aiolibdatachannel.Errors.{ok}
use aiolibdatachannel.Native.{Name, Value}
use aiolibdatachannel.Core.Registry.{Registry, Wrapper, lookup, callback_kind}
use aiolibdatachannel.Core.Registry.Invariant.{IsConsistent}
use aiolibdatachannel.Core.Dispatch.{Fired, cb_log, dispatch, fire_on, fire}

-- The names that a PeerConnection registers; the others are a DataChannel's.
abbrev pub is_pc_name : Name → Bool
is_pc_name n = leb (callback_kind n) 6

-- What a callback is called with, from the payload.
abbrev pub passed : Name → List Value → List Value
passed Name.on_open payload = []
passed Name.on_closed payload = []
passed Name.buffered_amount_low payload = []
passed Name.on_message [] = []
passed Name.on_message (value ∷ rest) = value ∷ []
passed n payload = payload

-- A message comes with the flag that says if it is text.
abbrev pub fits : Name → List Value → Bool
fits Name.on_message (value ∷ is_text ∷ []) = true
fits Name.on_message payload = false
fits n payload = true

module _ {ℓ} {C : Type ℓ} where
  -- The live object of the registry with the handle holds the callback under the name.
  abbrev pub IsHeld : Registry C → ℕ → Name → C → Type ℓ
  IsHeld r h n c =
      (i : ℕ) × (w : Wrapper C) × (get_elem? r.objects i ≡ some w)
      × (w.handle ≡ h)
      × (w.destroyed ≡ false)
      × (Dict.get (callback_kind n) w.callbacks ≡ some c)

  -- `lookup` finds the live object.
  pub lookup-live :
      (r : Registry C) (h i : ℕ) (w : Wrapper C)
      → IsConsistent r
      → get_elem? r.objects i ≡ some w
      → w.handle ≡ h
      → w.destroyed ≡ false
      → lookup h r ≡ some w
  unfolding lookup
  lookup-live r h i w v at hw dw = rw (← hw, v.from_live i w at dw) at

  -- And nothing else.
  pub live_of_lookup :
      (r : Registry C) (h : ℕ) (w : Wrapper C)
      → IsConsistent r
      → lookup h r ≡ some w
      → (i : ℕ) × (get_elem? r.objects i ≡ some w) × (w.handle ≡ h) × (w.destroyed ≡ false)
  unfolding lookup
  live_of_lookup r h w v e = elim (Option-cases (Dict.get h r.table)) [
    | inl miss ↦ absurd (ground arith)
    | inr (i, hit) ↦
        let (x, at, hx, dx) = v.to_live h i hit in (i, ground arith, ground arith, ground arith)
  ]

  fire_on-IsHeld :
      (r : Registry C) (h : ℕ) (n : Name) (args : List Value) (f : Fired C) (fs : List (Fired C))
      → IsConsistent r
      → fire_on r h n args ≡ ok (f ∷ fs)
      → (fs ≡ []) × (f.args ≡ args) × IsHeld r h n f.callback
  unfolding fire_on fire
  fire_on-IsHeld r h n args f fs v e = elim (Option-cases (lookup h r)) [
    | inl miss ↦ absurd (ground arith)
    | inr (w, hit) ↦ elim (Option-cases (Dict.get (callback_kind n) w.callbacks)) [
      | inl none_there ↦ absurd (ground arith)
      | inr (c, there) ↦
          let (i, at, hw, dw) = live_of_lookup r h w v hit in
          (ground arith, ground arith, (i, w, at, hw, dw, ground arith))
    ]
  ]

module _ {ℓ} {C : Type ℓ} (to_str : Value → String) (pcs dcs : Registry C) (log : Option C) where
  -- The registry of the objects that have a callback of the name.
  abbrev pub registry_of : Name → Registry C
  registry_of n = if is_pc_name n then pcs else dcs

  -- One callback, called with what the name wants.
  abbrev pub IsRouted : ℕ → ℕ → List Value → Fired C → List (Fired C) → Type ℓ
  IsRouted kind h payload f fs =
      (n : Name) × (callback_kind n ≡ kind)
      × (fs ≡ [])
      × (f.args ≡ passed n payload)
      × IsHeld (registry_of n) h n f.callback

  routed :
      (n : Name) (h : ℕ) (payload : List Value) (f : Fired C) (fs : List (Fired C))
      → IsConsistent (registry_of n)
      → fire_on (registry_of n) h n (passed n payload) ≡ ok (f ∷ fs)
      → IsRouted (callback_kind n) h payload f fs
  routed n h payload f fs v e =
      let (one, args, held) = fire_on-IsHeld (registry_of n) h n (passed n payload) f fs v e in
      (n, refl, one, args, held)

  message_routed :
      (h : ℕ) (payload : List Value) (f : Fired C) (fs : List (Fired C))
      → dispatch to_str pcs dcs log 10 h payload ≡ ok (f ∷ fs)
      → fire_on dcs h Name.on_message (passed Name.on_message payload) ≡ ok (f ∷ fs)
  unfolding dispatch callback_kind fire_on
  message_routed h [] f fs e = ground arith
  message_routed h (x ∷ []) f fs e = ground arith
  message_routed h (x ∷ y ∷ []) f fs e = ground arith
  message_routed h (x ∷ y ∷ z ∷ r) f fs e = ground arith

  -- Whatever the dispatcher calls for a callback other than the log's is one callback, with the
  -- arguments of its kind, which the live object of that handle registered under the name of that
  -- kind: never a callback of a destroyed object, of another handle or of another kind.
  pub dispatch-IsRouted :
      (kind h : ℕ) (payload : List Value) (f : Fired C) (fs : List (Fired C))
      → IsConsistent pcs
      → IsConsistent dcs
      → kind ≢ cb_log
      → dispatch to_str pcs dcs log kind h payload ≡ ok (f ∷ fs)
      → IsRouted kind h payload f fs
  unfolding dispatch callback_kind
  dispatch-IsRouted zero h p f fs v v' k e = routed Name.local_description h p f fs v e
  dispatch-IsRouted (suc zero) h p f fs v v' k e = routed Name.local_candidate h p f fs v e
  dispatch-IsRouted (suc (suc zero)) h p f fs v v' k e = routed Name.state_change h p f fs v e
  dispatch-IsRouted (suc (suc (suc zero))) h p f fs v v' k e =
      routed Name.ice_state_change h p f fs v e
  dispatch-IsRouted (suc (suc (suc (suc zero)))) h p f fs v v' k e =
      routed Name.gathering_state_change h p f fs v e
  dispatch-IsRouted (suc (suc (suc (suc (suc zero))))) h p f fs v v' k e =
      routed Name.signaling_state_change h p f fs v e
  dispatch-IsRouted (suc (suc (suc (suc (suc (suc zero)))))) h p f fs v v' k e =
      routed Name.data_channel h p f fs v e
  dispatch-IsRouted (suc (suc (suc (suc (suc (suc (suc zero))))))) h p f fs v v' k e =
      routed Name.on_open h p f fs v' e
  dispatch-IsRouted (suc (suc (suc (suc (suc (suc (suc (suc zero)))))))) h p f fs v v' k e =
      routed Name.on_closed h p f fs v' e
  dispatch-IsRouted (suc (suc (suc (suc (suc (suc (suc (suc (suc zero))))))))) h p f fs v v' k e =
      routed Name.on_error h p f fs v' e
  dispatch-IsRouted (suc (suc (suc (suc (suc (suc (suc (suc (suc (suc zero)))))))))) h p f fs v v' k
        e =
      routed Name.on_message h p f fs v' (message_routed h p f fs e)
  dispatch-IsRouted (suc (suc (suc (suc (suc (suc (suc (suc (suc (suc (suc zero))))))))))) h p f fs
        v v' k e =
      routed Name.buffered_amount_low h p f fs v' e
  dispatch-IsRouted (suc (suc (suc (suc (suc (suc (suc (suc (suc (suc (suc (suc k)))))))))))) h p f
        fs v v' ne e =
      absurd (ground arith)

  held_fires :
      (r : Registry C) (n : Name) (h : ℕ) (args : List Value) (c : C)
      → IsConsistent r
      → IsHeld r h n c
      → fire_on r h n args ≡ ok (record { callback = c; args = args } ∷ [])
  unfolding fire_on fire
  held_fires r n h args c v (i, w, at, hw, dw, held) =
      ground (arith, lookup-live r h i w v at hw dw)

  message_fires :
      (h : ℕ) (x y : Value) (c : C)
      → IsConsistent dcs
      → IsHeld dcs h Name.on_message c
      → dispatch to_str pcs dcs log 10 h (x ∷ y ∷ [])
        ≡ ok (record { callback = c; args = x ∷ [] } ∷ [])
  unfolding dispatch fire callback_kind
  message_fires h x y c v (i, w, at, hw, dw, held) =
      ground (arith, lookup-live dcs h i w v at hw dw)

  -- A callback that the live object of the handle has registered is called, once, when the
  -- extension reports its kind with a payload of the right shape.
  pub dispatch-fires :
      (n : Name) (h : ℕ) (payload : List Value) (c : C)
      → IsConsistent (registry_of n)
      → fits n payload ≡ true
      → IsHeld (registry_of n) h n c
      → dispatch to_str pcs dcs log (callback_kind n) h payload
        ≡ ok (record { callback = c; args = passed n payload } ∷ [])
  unfolding dispatch callback_kind
  dispatch-fires Name.local_description h p c v e held = held_fires pcs _ h p c v held
  dispatch-fires Name.local_candidate h p c v e held = held_fires pcs _ h p c v held
  dispatch-fires Name.state_change h p c v e held = held_fires pcs _ h p c v held
  dispatch-fires Name.ice_state_change h p c v e held = held_fires pcs _ h p c v held
  dispatch-fires Name.gathering_state_change h p c v e held = held_fires pcs _ h p c v held
  dispatch-fires Name.signaling_state_change h p c v e held = held_fires pcs _ h p c v held
  dispatch-fires Name.data_channel h p c v e held = held_fires pcs _ h p c v held
  dispatch-fires Name.on_open h p c v e held = held_fires dcs _ h [] c v held
  dispatch-fires Name.on_closed h p c v e held = held_fires dcs _ h [] c v held
  dispatch-fires Name.on_error h p c v e held = held_fires dcs _ h p c v held
  dispatch-fires Name.buffered_amount_low h p c v e held = held_fires dcs _ h [] c v held
  dispatch-fires Name.on_message h (x ∷ y ∷ []) c v e held = message_fires h x y c v held
  dispatch-fires Name.on_message h p c v e held = absurd (cc)
