-- ===== src/Peer/Remote/Traced.antt =====
-- Where a remote candidate can be (aiolibdatachannel/peer_connection.py), and the calls that bring
-- one.
use aiolibdatachannel.Prelude.{
  ℕ, zero, suc, ◌+◌, inl, inr, Option-cases, ◌≡◌, refl, ap, true, false, List, [], ◌∷◌, ◌++◌,
  Option, some, arith, if_cases,
}
use aiolibdatachannel.Core.Machine.{Core}
use aiolibdatachannel.Errors.{Result, ok, raises}
use aiolibdatachannel.Peer.{PeerConnection, fresh}
use aiolibdatachannel.Peer.Remote.{
  Candidate, Session, pick, begin, handed, apply_result, resumed, resume_next, add_remote_candidate,
  take_buffered,
}

-- The sum of the weights; two lists hold the same candidates, each as often, if the sums agree for
-- every weight.
unfoldable pub total {ℓ} : {A : Type ℓ} → (A → ℕ) → List A → ℕ
total w [] = 0
total w (x ∷ xs) = w x + total w xs

pub total-append {ℓ} :
    {A : Type ℓ} (w : A → ℕ) (xs ys : List A) → total w (xs ++ ys) ≡ total w xs + total w ys
unfolding total
total-append w [] ys = omega arith
total-append w (x ∷ xs) ys = ground (arith, total-append w xs ys)

pub total-pick {ℓ} :
    {A : Type ℓ} (w : A → ℕ) (n : ℕ) (xs : List A) (y : A) (ys : List A)
    → pick n xs ≡ some (y, ys)
    → total w xs ≡ w y + total w ys
unfolding pick total
total-pick w n [] y ys e = absurd (cc)
total-pick w zero (x ∷ xs) y ys e = ground arith
total-pick w (suc n) (x ∷ xs) y ys e = elim (Option-cases (pick n xs)) [
  | inl f ↦ absurd (ground arith)
  | inr ((z, zs), f) ↦ ground (arith, total-pick w n xs z zs f)
]

pub pick_nil {ℓ} :
    {A : Type ℓ} (n : ℕ) (xs : List A) (r : A × List A) → xs ≡ [] → pick n xs ≡ some r → ⊥
unfolding pick
pick_nil n [] r e f = ground arith
pick_nil n (x ∷ xs) r e f = ground arith

module _ {W C : Type 0} where
  -- Where the candidates that were added are.
  pub record IsTraced (s : Session W C) : Type 0 where
    pub emptied : s.pc.remote_description_set ≡ true → s.pc.buffered_remote_candidates ≡ []
    pub waiting :
        s.pc.remote_description_set ≡ false
        → (s.pc.buffered_remote_candidates ≡ s.added)
          × (s.forwarded ≡ [])
          × (s.in_flight ≡ [])
          × (s.drains ≡ [])
          × (s.lost ≡ [])
    pub conserved :
        (w : Candidate → ℕ)
        → total w s.added
          ≡ total w s.forwarded
            + (total w s.in_flight
                + (total (total w) s.drains
                    + (total w s.pc.buffered_remote_candidates + total w s.lost)))
    pub kept : s.cancelled ≡ 0 → s.lost ≡ []

  pub begin-IsTraced : (native : ℕ) (core : Core W C) → IsTraced (begin native core)
  unfolding fresh total
  begin-IsTraced native core = record {
    emptied = λ e. refl;
    waiting = λ e. (refl, refl, refl, refl, refl);
    conserved = λ w. refl;
    kept = λ e. refl;
  }

  pub add-IsTraced :
      (cand : Candidate) (s : Session W C)
      → IsTraced s
      → IsTraced
          (handed (add_remote_candidate cand s.pc) (record s { added = s.added ++ cand ∷ [] }))
  unfolding add_remote_candidate handed total
  add-IsTraced cand s v =
      let s' : Session W C = record s { added = s.added ++ cand ∷ [] } in
      if_cases (λ (r : Option Candidate × PeerConnection). IsTraced (handed r s'))
        s.pc.remote_description_set _ _
        (λ e. record {
          emptied = v.emptied;
          waiting = λ f. absurd (ground (arith, e, f));
          conserved = λ w. ground (
            arith,
            v.conserved w,
            total-append w s.added (cand ∷ []),
            total-append w s.in_flight (cand ∷ []),
          );
          kept = v.kept;
        })
        (λ e. record {
          emptied = λ f. absurd (ground (arith, e, f));
          waiting = λ f.
              let (same, sent, direct, drains, gone) = v.waiting e in
              (ap (λ b. b ++ cand ∷ []) same, sent, direct, drains, gone);
          conserved = λ w. ground (
            arith,
            v.conserved w,
            total-append w s.added (cand ∷ []),
            total-append w s.pc.buffered_remote_candidates (cand ∷ []),
          );
          kept = v.kept;
        })

  pub resume-IsTraced : (n : ℕ) (s : Session W C) → IsTraced s → IsTraced (resume_next n s)
  unfolding resume_next resumed take_buffered total
  resume-IsTraced zero s v = v
  resume-IsTraced (suc n) s v = record {
    emptied = λ e. refl;
    waiting = λ e. absurd (cc);
    conserved = λ w. ground (
      arith,
      v.conserved w,
      total-append (total w) s.drains (s.pc.buffered_remote_candidates ∷ []),
    );
    kept = v.kept;
  }

  pub apply-IsTraced :
      (r : Result (Unit {0}) × Core W C) (s : Session W C)
      → IsTraced s
      → IsTraced (apply_result r s)
  unfolding apply_result
  apply-IsTraced (ok u, core) s v = record {
    emptied = v.emptied;
    waiting = v.waiting;
    conserved = v.conserved;
    kept = v.kept;
  }
  apply-IsTraced (raises e, core) s v = record {
    emptied = v.emptied;
    waiting = v.waiting;
    conserved = v.conserved;
    kept = v.kept;
  }
