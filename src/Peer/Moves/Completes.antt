-- ===== src/Peer/Moves/Completes.antt =====
-- The shutdown of a PeerConnection (aiolibdatachannel/peer_connection.py) whatever happens while it
-- runs.
use Prim.Native.String.{String}
use aiolibdatachannel.Prelude.{
  ℕ, ◌≡◌, refl, sym, subst, arith, ◌∙◌, Bool, true, false, List, [], ◌∷◌, ◌++◌,
}
use aiolibdatachannel.Errors.{returns}
use aiolibdatachannel.Native.{Native, Value, Name}
use aiolibdatachannel.Core.Machine.{Core}
use aiolibdatachannel.Tasks.{
  Teardown, not_started, scheduled, gathering, releasing, released, finished, numbers,
}
use aiolibdatachannel.Tasks.Kept.{cancel_all-numbers, left_after, left_after-append}
use aiolibdatachannel.Channel.Api.Moves.Completes.{gathered-nil}
use aiolibdatachannel.Peer.{PeerConnection}
use aiolibdatachannel.Peer.Lifecycle.{
  close, end_teardown, release_channels, execute_destroy, wait_closed, aclose,
}
use aiolibdatachannel.Peer.Lifecycle.Made.{start_teardown-pc}
use aiolibdatachannel.Peer.Moves.Due.{
  IsUpward, IsDue, left_by, is_asked, has_begun, has_freed, has_executed, has_ended,
  is_asked-IsUpward, has_begun-IsUpward, has_freed-IsUpward, has_executed-IsUpward,
  has_ended-IsUpward,
}
use aiolibdatachannel.Peer.Moves.Onward.{move-IsDue, moves-IsDue}
use aiolibdatachannel.Peer.Moves.{
  Move, closes, starts, finishes, executes, ends, move, moves, start_if, finish_if, execute_if,
  end_if,
}

ended-finished : (t : Teardown) (b : Bool) → has_ended t b ≡ true → (t ≡ finished) × (b ≡ true)
ended-finished finished b e = (refl, e)
ended-finished scheduled b e = absurd (cc)
ended-finished (gathering ns) b e = absurd (cc)
ended-finished not_started b e = absurd (cc)
ended-finished releasing b e = absurd (cc)
ended-finished released b e = absurd (cc)

close-IsDue :
    (pc : PeerConnection) → pc.closed ≡ false → IsDue is_asked (numbers pc.tasks) (close pc)
unfolding close
close-IsDue pc o = rw o (refl, cancel_all-numbers pc.tasks, refl)

-- The teardown is at this stage, or has ended and the shutdown is reported.
abbrev At : (Teardown → Bool → Bool) → PeerConnection → Type 0
At p pc = p pc.teardown pc.closed_event ≡ true

end_if-At :
    (t : Teardown) (pc : PeerConnection)
    → pc.teardown ≡ t
    → has_executed t pc.closed_event ≡ true
    → At has_ended (end_if t pc)
unfolding end_if end_teardown
end_if-At released pc e a = refl
end_if-At finished pc e a = rw e a
end_if-At not_started pc e a = absurd (cc)
end_if-At scheduled pc e a = absurd (cc)
end_if-At (gathering ns) pc e a = absurd (cc)
end_if-At releasing pc e a = absurd (cc)

module _ (N : Native) {C : Type 0} (to_str : Value → String) where
  open N use {World}

  start_if-At :
      (t : Teardown) (pc : PeerConnection) (c : Core World C)
      → pc.teardown ≡ t
      → is_asked t pc.closed_event ≡ true
      → At has_begun (start_if N to_str t pc c).0
  unfolding start_if release_channels
  start_if-At scheduled pc c e a = start_teardown-pc N to_str (At has_begun) pc c refl refl
  start_if-At (gathering ns) pc c e a = rw e refl
  start_if-At releasing pc c e a = rw e refl
  start_if-At released pc c e a = rw e refl
  start_if-At finished pc c e a = rw e a
  start_if-At not_started pc c e a = absurd (cc)

  finish_if-At :
      (t : Teardown) (pc : PeerConnection) (c : Core World C)
      → pc.teardown ≡ t
      → has_begun t pc.closed_event ≡ true
      → numbers pc.tasks ≡ []
      → At has_freed (finish_if N to_str t pc c).0
  unfolding finish_if release_channels
  finish_if-At (gathering ns) pc c e a none_left = rw (none_left, gathered-nil ns) refl
  finish_if-At releasing pc c e a none_left = rw e refl
  finish_if-At released pc c e a none_left = rw e refl
  finish_if-At finished pc c e a none_left = rw e a
  finish_if-At not_started pc c e a none_left = absurd (cc)
  finish_if-At scheduled pc c e a none_left = absurd (cc)

  execute_if-At :
      (t : Teardown) (pc : PeerConnection) (c : Core World C)
      → pc.teardown ≡ t
      → has_freed t pc.closed_event ≡ true
      → At has_executed (execute_if N to_str t pc c).0
  unfolding execute_if execute_destroy
  execute_if-At releasing pc c e a = refl
  execute_if-At released pc c e a = rw e refl
  execute_if-At finished pc c e a = rw e a
  execute_if-At not_started pc c e a = absurd (cc)
  execute_if-At scheduled pc c e a = absurd (cc)
  execute_if-At (gathering ns) pc c e a = absurd (cc)

-- The teardown has ended, and whoever waits for it is let go.
abbrev IsOver : PeerConnection → Type 0
IsOver pc =
    (pc.teardown ≡ finished) × (wait_closed pc ≡ returns tt) × (aclose pc ≡ (returns tt, pc))

ended-IsOver : (pc : PeerConnection) → pc.closed ≡ true → At has_ended pc → IsOver pc
unfolding aclose close
ended-IsOver pc shut at =
    let (stage, reported) = ended-finished pc.teardown pc.closed_event at in
    (stage, rw reported refl, ground (arith, shut, reported))

module _ (N : Native) {C : Type 0} (to_str : Value → String) (callback : ℕ → Name → C) where
  open N use {World}

  moves-past :
      (ms : List (Move (Core World C))) (m : Move (Core World C))
      (rest : List (Move (Core World C))) (s : PeerConnection × Core World C)
      → moves N to_str callback (ms ++ m ∷ rest) s
        ≡ moves N to_str callback rest (move N to_str callback m (moves N to_str callback ms s))
  unfolding moves
  moves-past [] m rest s = refl
  moves-past (k ∷ ms) m rest s = moves-past ms m rest (move N to_str callback k s)

  -- From one stage over any moves, and then the one that ends it, to the next stage.
  passes :
      (p q : Teardown → Bool → Bool) (ms : List (Move (Core World C))) (m : Move (Core World C))
      (ns : List ℕ) (s : PeerConnection × Core World C)
      → IsUpward p
      → ((d : PeerConnection) (e : Core World C)
          → IsDue p (left_after left_by ms ns) d
          → At q (move N to_str callback m (d, e)).0)
      → IsDue p ns s.0
      → IsDue q
          (left_by m (left_after left_by ms ns))
          (move N to_str callback m (moves N to_str callback ms s)).0
  passes p q ms m ns s up step v =
      let t = moves N to_str callback ms s in
      let w = moves-IsDue N to_str callback p up ms ns s.0 s.1 v in
      let (r, left, at) = move-IsDue N to_str callback p up m _ t.0 t.1 w in
      (r, left, step t.0 t.1 w)

  -- The task of `_teardown` goes on when nothing is left.
  freed :
      (ks : List ℕ) (pc : PeerConnection) (c : Core World C)
      → ks ≡ []
      → IsDue has_begun ks pc
      → At has_freed (move N to_str callback finishes (pc, c)).0
  unfolding move
  freed ks pc c none_left (q, left, at) =
      finish_if-At N to_str pc.teardown pc c refl at (left ∙ none_left)

  ends_after_close :
      (a b x y d : List (Move (Core World C))) (ns : List ℕ) (s : PeerConnection × Core World C)
      → left_after left_by (a ++ b) ns ≡ []
      → IsDue is_asked ns s.0
      → IsOver
          (moves N to_str callback
            (a ++ (starts ∷ (b ++ (finishes ∷ (x ++ (executes ∷ (y ++ (ends ∷ d))))))))
            s).0
  unfolding move
  ends_after_close a b x y d ns s none_left v =
      let go = moves N to_str callback in
      let next = move N to_str callback in
      let s₁ = next starts (go a s) in
      let s₂ = next finishes (go b s₁) in
      let s₃ = next executes (go x s₂) in
      let s₄ = next ends (go y s₃) in
      let ns₁ = left_after left_by a ns in
      let ns₂ = left_after left_by b ns₁ in
      let ns₃ = left_after left_by x ns₂ in
      let ns₄ = left_after left_by y ns₃ in
      let v₁ : IsDue has_begun ns₁ s₁.0 =
        passes is_asked has_begun a starts ns s is_asked-IsUpward
          (λ e f w. start_if-At N to_str e.teardown e f refl w.2) v in
      let v₂ : IsDue has_freed ns₂ s₂.0 =
        passes has_begun has_freed b finishes ns₁ s₁ has_begun-IsUpward
          (λ e f w. freed ns₂ e f (sym (left_after-append left_by a b ns) ∙ none_left) w) v₁ in
      let v₃ : IsDue has_executed ns₃ s₃.0 =
        passes has_freed has_executed x executes ns₂ s₂ has_freed-IsUpward
          (λ e f w. execute_if-At N to_str e.teardown e f refl w.2) v₂ in
      let v₄ : IsDue has_ended ns₄ s₄.0 =
        passes has_executed has_ended y ends ns₃ s₃ has_executed-IsUpward
          (λ e f w. end_if-At e.teardown e refl w.2) v₃ in
      let v₅ = moves-IsDue N to_str callback has_ended has_ended-IsUpward d ns₄ s₄.0 s₄.1 v₄ in
      let same =
        moves-past a starts _ s
        ∙ moves-past b finishes _ s₁
        ∙ moves-past x executes _ s₂
        ∙ moves-past y ends d s₃ in
      subst (λ (r : PeerConnection × Core World C). IsOver r.0) (sym same)
        (ended-IsOver (go d s₄).0 v₅.0 v₅.2)

  -- A shutdown completes, whatever else happens while it runs and afterwards: once `close` has been
  -- called on an open connection, the task of `_teardown` has been run, each task that the
  -- connection owned at `close` has ended, the task of `_teardown` has been run again, the executor
  -- has run what the task gives it and the task has been run to its end, the teardown has finished,
  -- and `aclose` and `wait_closed` return at once.
  pub shutdown_completes :
      (a b x y d : List (Move (Core World C))) (pc : PeerConnection) (c : Core World C)
      → pc.closed ≡ false
      → left_after left_by (a ++ b) (numbers pc.tasks) ≡ []
      → let run =
          closes ∷ (a ++ (starts ∷ (b ++ (finishes ∷ (x ++ (executes ∷ (y ++ (ends ∷ d)))))))) in
        let e = (moves N to_str callback run (pc, c)).0 in
        (e.teardown ≡ finished) × (wait_closed e ≡ returns tt) × (aclose e ≡ (returns tt, e))
  unfolding moves move
  shutdown_completes a b x y d pc c o none_left =
      ends_after_close a b x y d (numbers pc.tasks) (close pc, c) none_left (close-IsDue pc o)
