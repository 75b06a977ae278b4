-- ===== src/Peer/Iterators/Stream.antt =====
-- What the iterators of aiolibdatachannel/peer_connection.py promise, with no queue and no
-- sentinels: a stream of items that may be shut, and the runs that it allows.
use mathlib.Core.List.{append-nil, append_assoc}
use aiolibdatachannel.Prelude.{◌≡◌, sym, ap, ◌∙◌, Bool, true, false, List, [], ◌∷◌, ◌++◌}

-- The items that nobody has taken, oldest first, and whether the stream is shut.
pub record Stream {ℓ} (A : Type ℓ) : Type ℓ where
  pub pending : List A
  pub shut : Bool

-- An item comes, the stream is shut, or a reader asks: it gets an item, ends or waits.
pub data Label {ℓ} (A : Type ℓ) : Type ℓ where
  emits yielded : A → Label A
  shuts ended waited : Label A

module _ {ℓ} {A : Type ℓ} where
  abbrev pub new_stream : Stream A
  new_stream = record { pending = []; shut = false }

  -- A reader gets the oldest item; it may end as soon as the stream is shut; it waits only where
  -- nothing is pending and the stream is not shut.
  unfoldable pub IsStep : Stream A → Label A → Stream A → Type ℓ
  IsStep s (emits a) t = t ≡ record s { pending = s.pending ++ a ∷ [] }
  IsStep s (yielded a) t = s ≡ record t { pending = a ∷ t.pending }
  IsStep s shuts t = t ≡ record s { shut = true }
  IsStep s ended t = (t ≡ s) × (s.shut ≡ true)
  IsStep s waited t = (t ≡ s) × (s.pending ≡ []) × (s.shut ≡ false)

  unfoldable pub IsRun : Stream A → List (Label A) → Stream A → Type ℓ
  unfolding IsStep
  IsRun s [] t = s ≡ t
  IsRun s (l ∷ ls) t = (u : Stream A) × IsStep s l u × IsRun u ls t

  emit_first : Label A → List A → List A
  emit_first (emits a) xs = a ∷ xs
  emit_first l xs = xs

  -- The items that came, and those that readers got, in the order of the run.
  unfoldable pub emitted : List (Label A) → List A
  unfolding emit_first
  emitted [] = []
  emitted (l ∷ ls) = emit_first l (emitted ls)

  yield_first : Label A → List A → List A
  yield_first (yielded a) xs = a ∷ xs
  yield_first l xs = xs

  unfoldable pub yields : List (Label A) → List A
  unfolding yield_first
  yields [] = []
  yields (l ∷ ls) = yield_first l (yields ls)

  step_order :
      (s u : Stream A) (l : Label A) (es ys ps : List A)
      → IsStep s l u
      → u.pending ++ es ≡ ys ++ ps
      → s.pending ++ emit_first l es ≡ yield_first l ys ++ ps
  unfolding IsStep emit_first yield_first
  step_order s u (emits a) es ys ps h e =
      sym (append_assoc s.pending (a ∷ []) es) ∙ ap (λ v. v.pending ++ es) (sym h) ∙ e
  step_order s u (yielded a) es ys ps h e = ap (λ v. v.pending ++ es) h ∙ ap (λ l. a ∷ l) e
  step_order s u shuts es ys ps h e = ap (λ v. v.pending ++ es) (sym h) ∙ e
  step_order s u ended es ys ps h e = ap (λ v. v.pending ++ es) (sym h.0) ∙ e
  step_order s u waited es ys ps h e = ap (λ v. v.pending ++ es) (sym h.0) ∙ e

  -- A run loses no item, makes up none and keeps the order.
  pub IsRun-order :
      (ls : List (Label A)) (s t : Stream A)
      → IsRun s ls t
      → s.pending ++ emitted ls ≡ yields ls ++ t.pending
  unfolding IsRun emitted yields
  IsRun-order [] s t r = append-nil s.pending ∙ ap (λ v. v.pending) r
  IsRun-order (l ∷ ls) s t (u, h, r) =
      step_order s u l (emitted ls) (yields ls) t.pending h (IsRun-order ls u t r)

  pub IsRun-append :
      (ks ls : List (Label A)) (s t u : Stream A)
      → IsRun s ks t
      → IsRun t ls u
      → IsRun s (ks ++ ls) u
  unfolding IsRun
  IsRun-append [] ls s t u p q = rw p q
  IsRun-append (k ∷ ks) ls s t u (v, h, p) q = (v, h, IsRun-append ks ls v t u p q)
