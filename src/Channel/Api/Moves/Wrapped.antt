-- ===== src/Channel/Api/Moves/Wrapped.antt =====
-- What a DataChannel (aiolibdatachannel/data_channel.py) does to its wrapper object in the registry
-- of aiolibdatachannel/_core.py, through any of its moves: nothing, or `destroy`.
use Prim.Native.String.{String}
use aiolibdatachannel.Prelude.{
  ℕ, ◌≡◌, ◌⊎◌, inl, inr, refl, Bool, true, not, ◌&&◌, List, [], ◌∷◌, if_cases, ltb, get_elem?,
}
use aiolibdatachannel.Errors.{Result, ok, raises, Outcome}
use aiolibdatachannel.Native.{Native, Value, Reply}
use aiolibdatachannel.Core.Registry.{release}
use aiolibdatachannel.Core.Machine.{Core, call}
use aiolibdatachannel.Core.Machine.Frame.{SameTables, SameTables-refl, call-SameTables}
use aiolibdatachannel.Core.Calls
use aiolibdatachannel.Core.Calls.Soundness.{with_object-tables, dc_destroy-tables}
use aiolibdatachannel.Tasks.{Teardown, gathering, numbers, scheduled}
use aiolibdatachannel.Channel.{
  DataChannel, SendArg, as_bytes, as_str, neither, handle_closed, Call, run_call, opened,
  closed_down, drained, errored, messaged, handle_error, handle_message,
}
use aiolibdatachannel.Channel.Api.{
  send, resume_send, send_now, after_send, lower_if, is_shut, destroy, start_teardown,
  finish_teardown, begin,
}
use aiolibdatachannel.Channel.Api.Moves.{
  Move, runs, sends, resumes, receives, spawns, closes, starts, finishes, destroys, task_ends,
  cancels_open, cancels_closed, cancels_sender, changes, move, start_if, finish_if, gathered,
  resume_first,
}
use aiolibdatachannel.Channel.Api.Moves.Rules.{recv-dc, close-dc, spawn_task-dc}

module _ {W C : Type 0} where
  -- The two states of a channel stand for the same wrapper object; what happened to it is told by
  -- `destroyed`; and neither the connections nor the dispatcher's registration are touched.
  pub record Handles (dc : DataChannel) (c : Core W C) (d : DataChannel) (e : Core W C)
      : Type 0 where
    pub same_native : d.native ≡ dc.native
    pub same_pcs : e.pcs ≡ c.pcs
    pub same_installed : e.installed ≡ c.installed
    pub wrapped :
        ((e.dcs ≡ c.dcs) × (d.destroyed ≡ dc.destroyed))
        ⊎ ((e.dcs ≡ release dc.native c.dcs) × (d.destroyed ≡ true))

  -- Only other fields change, and only the extension.
  pub quietly :
      (dc : DataChannel) (c : Core W C) (d : DataChannel) (e : Core W C)
      → d.native ≡ dc.native
      → d.destroyed ≡ dc.destroyed
      → SameTables c e
      → Handles dc c d e
  quietly dc c d e n b s = record {
    same_native = n;
    same_pcs = s.same_pcs;
    same_installed = s.same_installed;
    wrapped = inl (s.same_dcs, b);
  }

abbrev Same : DataChannel → DataChannel → Type 0
Same dc d = (d.native ≡ dc.native) × (d.destroyed ≡ dc.destroyed)

pub run_call-Same : (call : Call) (dc : DataChannel) → Same dc (run_call call dc)
unfolding run_call handle_closed handle_error handle_message
run_call-Same opened dc = (refl, refl)
run_call-Same closed_down dc = (refl, refl)
run_call-Same drained dc = (refl, refl)
run_call-Same (errored m) dc = (refl, refl)
run_call-Same (messaged m) dc = (refl, refl)

module _ (N : Native) {C : Type 0} (to_str : Value → String) where
  open N use {World}

  abbrev Sent :
      DataChannel → Core World C → Outcome (Unit {0}) × DataChannel × Core World C → Type 0
  Sent dc c r = Same dc r.1 × SameTables c r.2

  lower_if-Sent :
      (r : Result ℕ) (dc : DataChannel) (c e : Core World C)
      → SameTables c e
      → Sent dc c (lower_if N to_str r dc e)
  unfolding lower_if
  lower_if-Sent (raises x) dc c e s = ((refl, refl), s)
  lower_if-Sent (ok amount) dc c e s =
      (if_cases (Same dc) (ltb 0 amount) _ _ (λ t. (refl, refl)) (λ t. (refl, refl)), s)

  after_send-Sent :
      (r : Result (Unit {0}) × Core World C) (dc : DataChannel) (c : Core World C)
      → SameTables c r.1
      → Sent dc c (after_send N to_str r dc)
  unfolding after_send
  after_send-Sent (raises x, e) dc c s = ((refl, refl), s)
  after_send-Sent (ok u, e) dc c s =
      if_cases (Sent dc c) dc.buffered_low.flag _ _
        (λ t. lower_if-Sent (Calls.buffered_amount N to_str dc.native e) dc c e s)
        (λ t. ((refl, refl), s))

  through :
      {A : Type 0} (i : ℕ) (f : ℕ → World → Reply World A) (c : Core World C)
      → SameTables c (Calls.dc N to_str i f c).1
  through i f c =
      with_object-tables N to_str (get_elem? c.dcs.objects i) _ c
        (λ w. call-SameTables to_str (f w.handle) c)

  send_now-Sent :
      (a : SendArg) (dc : DataChannel) (c : Core World C) → Sent dc c (send_now N to_str a dc c)
  unfolding send_now Calls.send_bytes Calls.send_text
  send_now-Sent (as_bytes d) dc c =
      after_send-Sent (Calls.send_bytes N to_str dc.native d c) dc c (through dc.native _ c)
  send_now-Sent (as_str d) dc c =
      after_send-Sent (Calls.send_text N to_str dc.native d c) dc c (through dc.native _ c)
  send_now-Sent neither dc c = ((refl, refl), SameTables-refl c)

  send-Sent :
      (a : SendArg) (w : Bool) (dc : DataChannel) (c : Core World C)
      → Sent dc c (send N to_str a w dc c)
  unfolding send
  send-Sent a w dc c =
      if_cases (Sent dc c) (is_shut N to_str dc c) _ _ (λ e. ((refl, refl), SameTables-refl c))
        (λ e.
          if_cases (Sent dc c) (w && not dc.buffered_low.flag) _ _
            (λ f. ((refl, refl), SameTables-refl c)) (λ f. send_now-Sent a dc c))

  resume_first-Handles :
      (senders : List SendArg) (dc : DataChannel) (c : Core World C)
      → let r = resume_first N to_str senders dc c in Handles dc c r.0 r.1
  unfolding resume_first resume_send
  resume_first-Handles [] dc c = quietly dc c dc c refl refl (SameTables-refl c)
  resume_first-Handles (a ∷ rest) dc c =
      let d = record dc { buffered_low = record (dc.buffered_low) { woken = rest } } in
      let r : Sent d c (resume_send N to_str a d c) =
        if_cases (Sent d c) (is_shut N to_str d c) _ _ (λ e. ((refl, refl), SameTables-refl c))
          (λ e. send_now-Sent a d c) in
      quietly dc c _ _ r.0.0 r.0.1 r.1

  pub destroy-Handles :
      (dc : DataChannel) (c : Core World C) → let r = destroy N to_str dc c in Handles dc c r.0 r.1
  unfolding destroy handle_closed
  destroy-Handles dc c =
      let t = dc_destroy-tables N to_str dc.native c in
      if_cases (λ (r : DataChannel × Core World C). Handles dc c r.0 r.1) dc.destroyed _ _
        (λ e. quietly dc c dc c refl refl (SameTables-refl c))
        (λ e. record {
          same_native = refl;
          same_pcs = t.same_pcs;
          same_installed = t.same_installed;
          wrapped = inr (t.same_dcs, refl);
        })

  finish_teardown-Handles :
      (dc : DataChannel) (c : Core World C)
      → let r = finish_teardown N to_str dc c in Handles dc c r.0 r.1
  unfolding finish_teardown
  finish_teardown-Handles dc c =
      let h = destroy-Handles dc c in
      record {
        same_native = h.same_native;
        same_pcs = h.same_pcs;
        same_installed = h.same_installed;
        wrapped = h.wrapped;
      }

  begin-Handles :
      (ns : List ℕ) (dc : DataChannel) (c : Core World C)
      → let r = begin N to_str ns dc c in Handles dc c r.0 r.1
  unfolding begin
  begin-Handles [] dc c = finish_teardown-Handles dc c
  begin-Handles (n ∷ ns) dc c = quietly dc c _ c refl refl (SameTables-refl c)

  start_if-Handles :
      (t : Teardown) (dc : DataChannel) (c : Core World C)
      → let r = start_if N to_str t dc c in Handles dc c r.0 r.1
  unfolding start_if start_teardown
  start_if-Handles scheduled dc c = begin-Handles (numbers dc.tasks) dc c
  start_if-Handles t dc c = quietly dc c dc c refl refl (SameTables-refl c)

  finish_if-Handles :
      (t : Teardown) (dc : DataChannel) (c : Core World C)
      → let r = finish_if N to_str t dc c in Handles dc c r.0 r.1
  unfolding finish_if
  finish_if-Handles (gathering ns) dc c =
      if_cases (λ (r : DataChannel × Core World C). Handles dc c r.0 r.1)
        (gathered ns (numbers dc.tasks)) _ _ (λ e. finish_teardown-Handles dc c)
        (λ e. quietly dc c dc c refl refl (SameTables-refl c))
  finish_if-Handles t dc c = quietly dc c dc c refl refl (SameTables-refl c)

  -- What the extension does by itself changes no registry.
  abbrev pub IsAllowed : Move (Core World C) → Core World C → Type 0
  IsAllowed (changes d) c = SameTables c d
  IsAllowed m c = Unit

  pub move-Handles :
      (m : Move (Core World C)) (dc : DataChannel) (c : Core World C)
      → IsAllowed m c
      → let r = move N to_str m (dc, c) in Handles dc c r.0 r.1
  unfolding move
  move-Handles (runs call) dc c free =
      let (n, b) = run_call-Same call dc in quietly dc c _ c n b (SameTables-refl c)
  move-Handles (sends a w) dc c free =
      let r = send-Sent a w dc c in quietly dc c _ _ r.0.0 r.0.1 r.1
  move-Handles resumes dc c free = resume_first-Handles dc.buffered_low.woken dc c
  move-Handles receives dc c free =
      let (n, b) = recv-dc (Same dc) dc (λ q. (refl, refl)) in
      quietly dc c _ c n b (SameTables-refl c)
  move-Handles spawns dc c free =
      let (n, b) = spawn_task-dc (Same dc) dc (refl, refl) (λ t. (refl, refl)) in
      quietly dc c _ c n b (SameTables-refl c)
  move-Handles closes dc c free =
      let (n, b) = close-dc (Same dc) dc (refl, refl) (refl, refl) in
      quietly dc c _ c n b (SameTables-refl c)
  move-Handles starts dc c free = start_if-Handles dc.teardown dc c
  move-Handles finishes dc c free = finish_if-Handles dc.teardown dc c
  move-Handles destroys dc c free = destroy-Handles dc c
  move-Handles (task_ends n) dc c free = quietly dc c _ c refl refl (SameTables-refl c)
  move-Handles cancels_open dc c free = quietly dc c _ c refl refl (SameTables-refl c)
  move-Handles cancels_closed dc c free = quietly dc c _ c refl refl (SameTables-refl c)
  move-Handles (cancels_sender n) dc c free = quietly dc c _ c refl refl (SameTables-refl c)
  move-Handles (changes d) dc c free = quietly dc c dc d refl refl free
