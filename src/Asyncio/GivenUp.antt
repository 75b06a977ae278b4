-- ===== src/Asyncio/GivenUp.antt =====
-- What is left of the coroutines that wait for an asyncio.Event when some are cancelled.
use mathlib.Core.List.{append_assoc}
use aiolibdatachannel.Prelude.{
  inl, inr, ℕ, zero, suc, ◌+◌, ◌≤◌, ◌≡◌, refl, ap, List, [], ◌∷◌, ◌++◌, arith, length,
  length-append,
}
use aiolibdatachannel.Prelude.Subsequence.{
  IsSubsequence, IsSubsequence-refl, IsSubsequence-append, IsSubsequence-trans,
}
use aiolibdatachannel.Asyncio.Events.{Event, remove, remove_either, give_up}

module _ {ℓ} {A : Type ℓ} where
  -- Of a list there remains another, and those that are gone are as many as a third has.
  abbrev pub IsLeft : List A → List A → List A → Type ℓ
  IsLeft before after gone =
      IsSubsequence after before × (length before ≡ length after + length gone)

  -- The entry at a place, if there is one.
  unfoldable pub entry_at : ℕ → List A → List A
  entry_at n [] = []
  entry_at zero (a ∷ as_) = a ∷ []
  entry_at (suc n) (a ∷ as_) = entry_at n as_

  pub all-IsLeft : (as_ bs : List A) → as_ ≡ bs → IsLeft as_ bs []
  all-IsLeft as_ bs e = rw e (IsSubsequence-refl bs, omega arith)

  remove-IsLeft : (n : ℕ) (as_ : List A) → IsLeft as_ (remove n as_) (entry_at n as_)
  unfolding remove entry_at
  remove-IsLeft n [] = (refl, omega arith)
  remove-IsLeft zero (a ∷ as_) = (inl (IsSubsequence-refl as_), omega arith)
  remove-IsLeft (suc n) (a ∷ as_) =
      let (s, e) = remove-IsLeft n as_ in (inr (remove n as_, refl, s), omega (arith, e))

  remove_either-append :
      (n : ℕ) (as_ bs : List A)
      → let r = remove_either n as_ bs in r.0 ++ r.1 ≡ remove n (as_ ++ bs)
  unfolding remove remove_either
  remove_either-append n [] bs = refl
  remove_either-append zero (a ∷ as_) bs = refl
  remove_either-append (suc n) (a ∷ as_) bs = ap (λ l. a ∷ l) (remove_either-append n as_ bs)

  remove_either-nil : (n : ℕ) (as_ bs : List A) → bs ≡ [] → (remove_either n as_ bs).1 ≡ []
  unfolding remove remove_either
  remove_either-nil n [] bs e = rw e refl
  remove_either-nil zero (a ∷ as_) bs e = e
  remove_either-nil (suc n) (a ∷ as_) bs e = remove_either-nil n as_ bs e

  -- Of the first list, a first part becomes no longer, and what is behind it loses at most entries.
  pub remove_either-split :
      (n : ℕ) (first back bs : List A)
      → let r = remove_either n (first ++ back) bs in
        (first' : List A) × (rest : List A) × (r.0 ≡ first' ++ rest)
        × (length first' ≤ length first)
        × IsSubsequence (rest ++ r.1) (back ++ bs)
  unfolding remove_either
  remove_either-split n [] back bs =
      let r = remove_either n back bs in
      ([], r.0, refl, omega arith, rw (remove_either-append n back bs) (remove-IsLeft n _).0)
  remove_either-split zero (a ∷ first) back bs =
      (first, back, refl, omega arith, IsSubsequence-refl (back ++ bs))
  remove_either-split (suc n) (a ∷ first) back bs =
      let (first', rest, e, h, s) = remove_either-split n first back bs in
      (a ∷ first', rest, ap (λ l. a ∷ l) e, omega (arith, h), s)

  -- Those that wait, the woken ones first.
  abbrev pub waiters_of : Event A → List A
  waiters_of e = e.woken ++ e.waiting

  pub give_up-nil : (n : ℕ) (e : Event A) → e.waiting ≡ [] → (give_up n e).waiting ≡ []
  unfolding give_up
  give_up-nil n e none_wait = remove_either-nil n e.woken e.waiting none_wait

  pub give_up-IsLeft :
      (n : ℕ) (e : Event A)
      → IsLeft (waiters_of e) (waiters_of (give_up n e)) (entry_at n (waiters_of e))
  unfolding give_up
  give_up-IsLeft n e =
      rw (remove_either-append n e.woken e.waiting) (remove-IsLeft n (waiters_of e))

  -- First some go on or stay, then those that stay are joined by others, and again.
  pub IsLeft-trans :
      (before arrive on stay gone later on' stay' gone' : List A)
      → IsLeft (before ++ arrive) (on ++ stay) gone
      → IsLeft (stay ++ later) (on' ++ stay') gone'
      → IsLeft (before ++ (arrive ++ later)) ((on ++ on') ++ stay') (gone ++ gone')
  IsLeft-trans before arrive on stay gone later on' stay' gone' (s, e) (t, f) =
      let now : IsSubsequence ((on ++ stay) ++ later) ((before ++ arrive) ++ later) =
        IsSubsequence-append (on ++ stay) (before ++ arrive) later later s
          (IsSubsequence-refl later) in
      let after : IsSubsequence (on ++ (on' ++ stay')) (on ++ (stay ++ later)) =
        IsSubsequence-append on on (on' ++ stay') (stay ++ later) (IsSubsequence-refl on) t in
      (
        rw (append_assoc on on' stay') (
            IsSubsequence-trans (on ++ (on' ++ stay')) (on ++ (stay ++ later))
              (before ++ (arrive ++ later)) after
              (rw (← append_assoc on stay later, ← append_assoc before arrive later) now)),
        omega (
          arith,
          e,
          f,
          length-append before (arrive ++ later),
          length-append arrive later,
          length-append before arrive,
          length-append on stay,
          length-append stay later,
          length-append on' stay',
          length-append (on ++ on') stay',
          length-append on on',
          length-append gone gone',
        ),
      )
