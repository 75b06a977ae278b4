-- ===== src/Examples/Bottom.antt =====
-- The slots, the dispatcher and the wrapper calls on small inputs.
use aiolibdatachannel.Prelude.{
  ℕ, ◌≡◌, refl, true, false, List, [], ◌∷◌, none, some, All, arith, get_elem?,
}
use aiolibdatachannel.Prelude.Dict
use aiolibdatachannel.Errors.{closed_error, ok}
use aiolibdatachannel.Native.{Name, int, Emission}
use aiolibdatachannel.Loop.{
  result, FutureSlot, is_done, init, set_slot, futures, turn, Op, set, fail, renew, tick, run,
}
use aiolibdatachannel.Loop.Latch.{IsAt, run-IsAt}
use aiolibdatachannel.Loop.Settled.{run_settled}
use aiolibdatachannel.Core.Registry.{
  Registry, Wrapper, empty, register, set_callback, lookup, callback_kind,
}
use aiolibdatachannel.Core.Registry.Invariant.{
  IsConsistent, empty-IsConsistent, register-IsConsistent, set_callback-IsConsistent,
}
use aiolibdatachannel.Core.Dispatch.{Fired, dispatch, fire}
use aiolibdatachannel.Core.Dispatch.Routing.{IsRouted, dispatch-IsRouted, dispatch-fires}
use aiolibdatachannel.Core.Machine.{deliver_all}
use aiolibdatachannel.Core.Calls.Soundness.{IsSound, pc_delete, exec, exec-IsSound}
use aiolibdatachannel.Core.Shutdown.{atexit_destroy_all, atexit_destroys_all}
use aiolibdatachannel.Examples.Fake.{fake, shown, connected, connected-IsSound}

abbrev ops : List (Op ℕ)
ops = tick ∷ set 7 ∷ renew ∷ fail (closed_error "gone") ∷ renew ∷ tick ∷ []

abbrev answered : FutureSlot ℕ
answered = set_slot 5 init

run-IsAt_example : IsAt (run ops answered) 0 (result 5)
unfolding set_slot init is_done
run-IsAt_example = run-IsAt ops answered 0 (result 5) refl (answered.future, refl, refl)

run_settled_example :
    All (λ f. is_done f.state ≡ true) (run ops init).replaced
    × All (λ f. f.log_traceback ≡ false) (futures (turn (run ops init)))
run_settled_example = run_settled ops

-- The channel 9 with the callback 42 for `on_open`.
abbrev channels : Registry ℕ
channels = set_callback 0 Name.on_open 42 (register 9 empty)

channels-IsConsistent : IsConsistent channels
unfolding Dict.get
channels-IsConsistent =
    set_callback-IsConsistent 0 Name.on_open 42 (register 9 empty)
      (register-IsConsistent 9 empty empty-IsConsistent refl)

abbrev fired : Fired ℕ
fired = record { callback = 42; args = [] }

dispatch-IsRouted_example : IsRouted shown empty channels none 7 9 (int 1 ∷ []) fired []
unfolding dispatch set_callback register Dict.get callback_kind lookup Dict.put fire
dispatch-IsRouted_example =
    dispatch-IsRouted shown empty channels none 7 9 (int 1 ∷ []) fired [] empty-IsConsistent
      channels-IsConsistent (omega arith) refl

dispatch-fires_example : dispatch shown empty channels none 7 9 (int 1 ∷ []) ≡ ok (fired ∷ [])
unfolding dispatch set_callback register Dict.get callback_kind Dict.put
dispatch-fires_example =
    dispatch-fires shown empty channels none Name.on_open 9 (int 1 ∷ []) 42 channels-IsConsistent
      refl
      (
        0,
        record { handle = 9; callbacks = (7, 42) ∷ []; destroyed = false },
        refl,
        refl,
        refl,
        refl,
      )

exec-IsSound_example : IsSound fake shown (exec fake shown (pc_delete 0) connected)
exec-IsSound_example = exec-IsSound fake shown (pc_delete 0) connected tt connected-IsSound

atexit_destroys_all_example :
    let d = atexit_destroy_all fake shown connected in
    ((h : ℕ) → Dict.get h d.pcs.table ≡ none)
    × ((h : ℕ) → Dict.get h d.dcs.table ≡ none)
    × ((i : ℕ) (w : Wrapper ℕ) → get_elem? d.pcs.objects i ≡ some w → w.destroyed ≡ true)
    × ((i : ℕ) (w : Wrapper ℕ) → get_elem? d.dcs.objects i ≡ some w → w.destroyed ≡ true)
    × ((es : List Emission) → deliver_all shown es d ≡ d)
atexit_destroys_all_example = atexit_destroys_all fake shown connected connected-IsSound
