-- ===== src/Asyncio/Queues.antt =====
-- asyncio.Queue: the items, oldest first, and the operations that do not wait. A `maxsize` of 0
-- sets no bound.
use aiolibdatachannel.Prelude.{
  ℕ, Bool, ◌&&◌, List, [], ◌∷◌, ◌++◌, Option, none, some, ltb, leb, length, if◌then◌else◌,
}

pub record Queue {ℓ} (A : Type ℓ) : Type ℓ where
  pub maxsize : ℕ
  pub items : List A

module _ {ℓ} {A : Type ℓ} where
  unfoldable pub full : Queue A → Bool
  full q = ltb 0 q.maxsize && leb q.maxsize (length q.items)

  -- `none` is `QueueFull`.
  unfoldable pub put_nowait : Queue A → A → Option (Queue A)
  unfolding full
  put_nowait q a = if full q then none else some (record q { items = q.items ++ a ∷ [] })

  uncons : ℕ → List A → Option (A × Queue A)
  uncons maxsize [] = none
  uncons maxsize (x ∷ xs) = some (x, record { maxsize = maxsize; items = xs })

  -- `none` is `QueueEmpty`; where a coroutine waits in `get`, it blocks.
  unfoldable pub get_nowait : Queue A → Option (A × Queue A)
  unfolding uncons
  get_nowait q = uncons q.maxsize q.items

  -- `with suppress(QueueFull): q.put_nowait(a)`.
  unfoldable pub put_suppressed : Queue A → A → Queue A
  unfolding put_nowait
  put_suppressed q a = elim (put_nowait q a) [ none ↦ q | some q' ↦ q' ]
