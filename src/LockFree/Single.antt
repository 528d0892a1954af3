-- ===== src/LockFree/Single.antt =====
-- A ring of one cell, which the constructor makes of a request for 0 or 1: a full cell and a free
-- cell of the next lap then carry the same sequence word.
use animus_core_v.Base.{ℕ, zero, suc, ◌≤◌, ◌≡◌, refl, true, some, [], ◌∷◌}
use animus_core_v.Pow2.{round_up_pow2}
use animus_core_v.Pow2.Laws.{round_up_from_stop}
use animus_core_v.LockFree.{Ring, Outcome, create, push, pop, pop_from}

module _ {A : Type 0} where
  -- The ring of one cell after `n` pushes and no pop.
  abbrev lone : ℕ → A → Ring A
  lone n v = record {
    capacity = 1;
    mask = 0;
    cells = record { sequence = n; value = v } ∷ [];
    enqueue_pos = n;
    dequeue_pos = 0;
  }

  pop_from-lone : (fuel : ℕ) (v : A) → pop_from fuel 0 (lone 2 v) ≡ Outcome.spinning
  unfolding pop_from
  pop_from-lone zero v = refl
  pop_from-lone (suc f) v = pop_from-lone f v

  create-lone :
      (blank : A) (f requested : ℕ)
      → requested ≤ 1
      → create blank (suc f) requested ≡ some (lone 0 blank)
  unfolding create round_up_pow2
  create-lone blank f requested h = rw (round_up_from_stop f 1 requested h, create) refl

  -- A ring that was requested with capacity 0 or 1 takes two records one after the other: its one
  -- cell first holds the first, and then the second in its place. The next `pop` is then still
  -- looping after any number of rounds.
  pub single_cell_overwrites :
      (blank a b : A) (f g requested : ℕ) {r : Ring A}
      → requested ≤ 1
      → create blank (suc f) requested ≡ some r
      → (r₁ r₂ : Ring A) × (push (suc g) r a ≡ Outcome.done (true, r₁))
        × (push (suc g) r₁ b ≡ Outcome.done (true, r₂))
        × (r₁.cells ≡ record { sequence = 1; value = a } ∷ [])
        × (r₂.cells ≡ record { sequence = 2; value = b } ∷ [])
        × ((fuel : ℕ) → pop fuel r₂ ≡ Outcome.spinning)
  unfolding push pop
  single_cell_overwrites blank a b f g requested {r} h e =
      let e' : r ≡ lone 0 blank = cc (create-lone blank f requested h) in
      (lone 1 a, lone 2 b, rw e' refl, refl, refl, refl, λ fuel. pop_from-lone fuel b)
