-- ===== src/Fifo.antt =====
-- What the lossless rings promise: a first-in first-out queue of at most `cap` records. It is the
-- specification that AnimusCore_v1/animus.hpp and include/animus/spsc_queue.hpp are proved against.
use animus_core_v.Base.{
  ℕ, Bool, true, false, Option, none, some, List, [], ◌∷◌, ◌++◌, length, ltb, if◌then◌else◌,
}

module _ {ℓ} {A : Type ℓ} where
  abbrev pub offer : ℕ → List A → A → Bool × List A
  offer cap q v = if ltb (length q) cap then (true, q ++ (v ∷ [])) else (false, q)

  abbrev pub poll : List A → Bool × Option A × List A
  poll [] = (false, none, [])
  poll (x ∷ q) = (true, some x, q)
