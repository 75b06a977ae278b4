-- ===== src/Asyncio/Sentinel.antt =====
-- The close sentinel in a queue of options: where it stands, and what keeps it there.
use aiolibdatachannel.Prelude.{ap, ◌≡◌, List, [], ◌∷◌, ◌++◌, refl, Option, none, some}

module _ {ℓ} {A : Type ℓ} where
  -- `none` is among the items.
  abbrev pub HasSentinel : List (Option A) → Type 0
  HasSentinel [] = ⊥
  HasSentinel (none ∷ xs) = Unit {0}
  HasSentinel (some a ∷ xs) = HasSentinel xs

  pub HasSentinel-append_left : (xs ys : List (Option A)) → HasSentinel xs → HasSentinel (xs ++ ys)
  HasSentinel-append_left [] ys h = absurd h
  HasSentinel-append_left (none ∷ xs) ys h = tt
  HasSentinel-append_left (some a ∷ xs) ys h = HasSentinel-append_left xs ys h

  pub HasSentinel-append_right : (xs ys : List (Option A)) → HasSentinel ys → HasSentinel (xs ++ ys)
  HasSentinel-append_right [] ys h = h
  HasSentinel-append_right (none ∷ xs) ys h = tt
  HasSentinel-append_right (some a ∷ xs) ys h = HasSentinel-append_right xs ys h

  -- The items in front of the first sentinel.
  abbrev pub before_sentinel : List (Option A) → List A
  before_sentinel [] = []
  before_sentinel (none ∷ xs) = []
  before_sentinel (some a ∷ xs) = a ∷ before_sentinel xs

  -- The items without the sentinels.
  abbrev pub somes : List (Option A) → List A
  somes [] = []
  somes (none ∷ os) = somes os
  somes (some a ∷ os) = a ∷ somes os

  pub somes-append : (xs ys : List (Option A)) → somes (xs ++ ys) ≡ somes xs ++ somes ys
  somes-append [] ys = refl
  somes-append (none ∷ xs) ys = somes-append xs ys
  somes-append (some a ∷ xs) ys = ap (λ l. a ∷ l) (somes-append xs ys)
