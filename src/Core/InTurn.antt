-- ===== src/Core/InTurn.antt =====
-- A sequence of calls of which the first that raises ends it, as the constructors of
-- aiolibdatachannel/data_channel.py and aiolibdatachannel/peer_connection.py register their
-- callbacks, one name after another.
use aiolibdatachannel.Native.{Name}
use aiolibdatachannel.Prelude.{◌≡◌, List, [], ◌∷◌}
use aiolibdatachannel.Errors.{Result, ok, raises}

module _ {S : Type 0} where
  and_then : Result (Unit {0}) × S → (S → Result (Unit {0}) × S) → Result (Unit {0}) × S
  and_then (raises e, s) next = (raises e, s)
  and_then (ok u, s) next = next s

  unfoldable pub in_turn :
      (Name → S → Result (Unit {0}) × S) → List Name → S → Result (Unit {0}) × S
  unfolding and_then
  in_turn f [] s = (ok tt, s)
  in_turn f (n ∷ ns) s = and_then (f n s) (in_turn f ns)

  and_then-inv :
      (P : S → Type 0) (r : Result (Unit {0}) × S) (next : S → Result (Unit {0}) × S)
      → P r.1
      → ((s : S) → P s → P (next s).1)
      → P (and_then r next).1
  unfolding and_then
  and_then-inv P (raises e, s) next p h = p
  and_then-inv P (ok u, s) next p h = h s p

  -- Wherever the sequence stops, what every call keeps holds.
  pub in_turn-inv :
      (P : S → Type 0) (f : Name → S → Result (Unit {0}) × S)
      → ((n : Name) (s : S) → P s → P (f n s).1)
      → (ns : List Name) (s : S) → P s
      → P (in_turn f ns s).1
  unfolding in_turn
  in_turn-inv P f h [] s p = p
  in_turn-inv P f h (n ∷ ns) s p =
      and_then-inv P (f n s) (in_turn f ns) (h n s p) (in_turn-inv P f h ns)

  and_then-ok :
      (P : S → Type 0) (r : Result (Unit {0}) × S) (next : S → Result (Unit {0}) × S)
      → (and_then r next).0 ≡ ok tt
      → ((next r.1).0 ≡ ok tt → P (next r.1).1)
      → P (and_then r next).1
  unfolding and_then
  and_then-ok P (raises x, s) next e h = absurd (cc)
  and_then-ok P (ok u, s) next e h = h e

  -- If no call raised, each has done its part, in order; `step` is what a call does to a view `D` of
  -- the state.
  pub in_turn-ok :
      {D : Type 0} (Q : D → S → Type 0) (step : Name → D → D) (run : List Name → D → D)
      (f : Name → S → Result (Unit {0}) × S)
      → ((d : D) → run [] d ≡ d)
      → ((n : Name) (ns : List Name) (d : D) → run (n ∷ ns) d ≡ run ns (step n d))
      → ((n : Name) (d : D) (s : S) → Q d s → Q (step n d) (f n s).1)
      → (ns : List Name) (d : D) (s : S) → Q d s
      → (in_turn f ns s).0 ≡ ok tt
      → Q (run ns d) (in_turn f ns s).1
  unfolding in_turn
  in_turn-ok Q step run f nil cons h [] d s q e = rw (nil d) q
  in_turn-ok Q step run f nil cons h (n ∷ ns) d s q e = rw (cons n ns d) (
      and_then-ok (Q (run ns (step n d))) (f n s) (in_turn f ns) e
        (in_turn-ok Q step run f nil cons h ns (step n d) (f n s).1 (h n d s q)))
