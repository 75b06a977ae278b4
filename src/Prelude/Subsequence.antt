-- ===== src/Prelude/Subsequence.antt =====
-- That a list is what is left of another when some of its entries are dropped.
use mathlib.Core.Path.{subst, ◌≡◌, refl, ap}
use mathlib.Core.Logic.{◌⊎◌, inl, inr}
use mathlib.Core.List.{append-nil, List, [], ◌∷◌, ◌++◌}

module _ {ℓ} {A : Type ℓ} where
  abbrev pub IsSubsequence : List A → List A → Type ℓ
  IsSubsequence xs [] = xs ≡ []
  IsSubsequence xs (y ∷ ys) =
      IsSubsequence xs ys ⊎ ((zs : List A) × (xs ≡ y ∷ zs) × IsSubsequence zs ys)

  pub IsSubsequence-refl : (xs : List A) → IsSubsequence xs xs
  IsSubsequence-refl [] = refl
  IsSubsequence-refl (x ∷ xs) = inr (xs, refl, IsSubsequence-refl xs)

  -- The first entry may be dropped.
  pub IsSubsequence-tail :
      (x : A) (xs ys : List A) → IsSubsequence xs ys → IsSubsequence xs (x ∷ ys)
  IsSubsequence-tail x xs ys s = inl s

  pub IsSubsequence-append :
      (as_ bs cs ds : List A)
      → IsSubsequence as_ bs
      → IsSubsequence cs ds
      → IsSubsequence (as_ ++ cs) (bs ++ ds)
  IsSubsequence-append as_ [] cs ds s t = rw s t
  IsSubsequence-append as_ (b ∷ bs) cs ds (inl s) t = inl (IsSubsequence-append as_ bs cs ds s t)
  IsSubsequence-append as_ (b ∷ bs) cs ds (inr (zs, e, s)) t =
      inr (zs ++ cs, ap (λ l. l ++ cs) e, IsSubsequence-append zs bs cs ds s t)

  pub IsSubsequence-trans :
      (xs ys zs : List A) → IsSubsequence xs ys → IsSubsequence ys zs → IsSubsequence xs zs
  IsSubsequence-trans xs ys [] s t = subst (IsSubsequence xs) t s
  IsSubsequence-trans xs ys (z ∷ zs) s (inl t) = inl (IsSubsequence-trans xs ys zs s t)
  IsSubsequence-trans xs ys (z ∷ zs) s (inr (ws, e, t)) =
      let below : IsSubsequence xs (z ∷ ws) = subst (IsSubsequence xs) e s in
      elim below [
        | inl u ↦ inl (IsSubsequence-trans xs ws zs u t)
        | inr (vs, f, u) ↦ inr (vs, f, IsSubsequence-trans vs ws zs u t)
      ]

  IsSubsequence-nil : (xs : List A) → IsSubsequence [] xs
  IsSubsequence-nil [] = refl
  IsSubsequence-nil (x ∷ xs) = inl (IsSubsequence-nil xs)

  -- The end of a list may be dropped.
  pub IsSubsequence-append_right : (xs ys : List A) → IsSubsequence xs (xs ++ ys)
  IsSubsequence-append_right xs ys =
      subst (λ l. IsSubsequence l (xs ++ ys)) (append-nil xs)
        (IsSubsequence-append xs xs [] ys (IsSubsequence-refl xs) (IsSubsequence-nil ys))
