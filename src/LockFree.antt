-- ===== src/LockFree.antt =====
-- `LockFreeRingBuffer<T>` of AnimusCore_v1/animus.hpp: the bounded queue whose cells carry a
-- sequence word, as the engine and the market-data feed use it. A call is run to its end with no
-- other thread in between; in such a run the compare-exchange fails only spuriously, and a spurious
-- failure repeats the round that it stands in, so it is left out.
pub mod Refine
pub mod Create
pub mod Single
use animus_core_v.Base.{
  ℕ, zero, suc, ◌+◌, ◌^◌, Bool, true, false, Option, none, some, List, [], ◌∷◌, ltb, ◌==◌,
  if◌then◌else◌, bit_and, get_elem?, set,
}
use animus_core_v.Base.Words.{add64, sub64}
use animus_core_v.Pow2.{round_up_pow2}

pub record Cell {ℓ} (A : Type ℓ) : Type ℓ where
  pub sequence : ℕ
  pub value : A

pub record Ring {ℓ} (A : Type ℓ) : Type ℓ where
  pub capacity : ℕ
  pub mask : ℕ
  pub cells : List (Cell A)
  pub enqueue_pos : ℕ
  pub dequeue_pos : ℕ

-- The sign of `(intptr_t)a - (intptr_t)b`.
pub data Sign : Type 0 where
  equal behind ahead : Sign

abbrev pub signed_diff : ℕ → ℕ → Sign
signed_diff a b =
    let d = sub64 a b in
    if d == 0 then Sign.equal else if ltb d (2 ^ 63) then Sign.ahead else Sign.behind

-- `spinning` is a loop that has used its fuel, `fault` an access outside the cells.
pub data Outcome {ℓ} (B : Type ℓ) : Type ℓ where
  spinning : Outcome B
  fault : Outcome B
  done : B → Outcome B

module _ {ℓ} {A : Type ℓ} where
  -- `n` cells from index `i`; a cell of the vector begins as `T{}`.
  pub fresh_cells : A → ℕ → ℕ → List (Cell A)
  fresh_cells blank i zero = []
  fresh_cells blank i (suc n) = record { sequence = i; value = blank } ∷ fresh_cells blank (i + 1) n

  -- The constructor; `none` while `round_up_pow2` runs on.
  unfoldable pub create : A → ℕ → ℕ → Option (Ring A)
  unfolding fresh_cells
  create blank fuel requested = elim (round_up_pow2 fuel requested) [
    | none ↦ none
    | some c ↦ some (record {
      capacity = c;
      mask = sub64 c 1;
      cells = fresh_cells blank 0 c;
      enqueue_pos = 0;
      dequeue_pos = 0;
    })
  ]

  abbrev pub publish : Ring A → ℕ → A → Ring A
  publish r pos v = record r {
    cells = set r.cells (bit_and pos r.mask) (record { sequence = add64 pos 1; value = v });
    enqueue_pos = add64 pos 1;
  }

  abbrev pub retire : Ring A → ℕ → A → Ring A
  retire r pos v = record r {
    cells =
        set r.cells (bit_and pos r.mask)
          (record { sequence = add64 (add64 pos r.mask) 1; value = v });
    dequeue_pos = add64 pos 1;
  }

  pub push_from : ℕ → ℕ → Ring A → A → Outcome (Bool × Ring A)
  push_from zero pos r v = Outcome.spinning
  push_from (suc f) pos r v =
      let again = push_from f r.enqueue_pos r v in
      elim (get_elem? r.cells (bit_and pos r.mask)) [
        | none ↦ Outcome.fault
        | some cell ↦ elim (signed_diff cell.sequence pos) [
          | Sign.equal ↦
              if r.enqueue_pos == pos then Outcome.done (true, publish r pos v) else again
          | Sign.behind ↦ Outcome.done (false, r)
          | Sign.ahead ↦ again
        ]
      ]

  unfoldable pub push : ℕ → Ring A → A → Outcome (Bool × Ring A)
  unfolding push_from
  push fuel r v = push_from fuel r.enqueue_pos r v

  -- The option is what is written to `out`.
  pub pop_from : ℕ → ℕ → Ring A → Outcome (Bool × Option A × Ring A)
  pop_from zero pos r = Outcome.spinning
  pop_from (suc f) pos r =
      let again = pop_from f r.dequeue_pos r in
      elim (get_elem? r.cells (bit_and pos r.mask)) [
        | none ↦ Outcome.fault
        | some cell ↦ elim (signed_diff cell.sequence (add64 pos 1)) [
          | Sign.equal ↦
              if r.dequeue_pos == pos
              then Outcome.done (true, some cell.value, retire r pos cell.value)
              else again
          | Sign.behind ↦ Outcome.done (false, none, r)
          | Sign.ahead ↦ again
        ]
      ]

  unfoldable pub pop : ℕ → Ring A → Outcome (Bool × Option A × Ring A)
  unfolding pop_from
  pop fuel r = pop_from fuel r.dequeue_pos r
