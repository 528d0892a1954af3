-- ===== src/LockFree/Create.antt =====
-- The constructor gives an empty ring.
use native.Mathlib.Nat.{mod-eq_of_lt, zero-add}
use animus_core_v.Base.{
  ℕ, zero, suc, ◌+◌, ◌%◌, ◌^◌, ◌≤◌, ◌<◌, ◌≡◌, refl, ap, ◌∙◌, some, [], arith, get_elem?, length,
}
use animus_core_v.Base.Words.{sub64}
use animus_core_v.Base.Bits.{pow_mono}
use animus_core_v.Pow2.Laws.{Rounded, round_up_pow2_total}
use animus_core_v.LockFree.{Ring, fresh_cells, create}
use animus_core_v.LockFree.Refine.{Holds}

module _ {A : Type 0} (blank : A) where
  length-fresh_cells : (i n : ℕ) → length (fresh_cells blank i n) ≡ n
  unfolding fresh_cells
  length-fresh_cells i zero = refl
  length-fresh_cells i (suc n) = ap suc (length-fresh_cells (i + 1) n)

  get_elem?-fresh_cells :
      (i n j : ℕ)
      → j < n
      → get_elem? (fresh_cells blank i n) j ≡ some (record { sequence = i + j; value = blank })
  unfolding fresh_cells
  get_elem?-fresh_cells i zero j h = elim h [ ]
  get_elem?-fresh_cells i (suc n) zero h = ground arith
  get_elem?-fresh_cells i (suc n) (suc j) h =
      ground (arith, get_elem?-fresh_cells (i + 1) n j (omega arith))

  fresh-Holds :
      (k : ℕ)
      → 1 ≤ k
      → k ≤ 63
      → Holds k 0 [] (record {
        capacity = 2 ^ k;
        mask = sub64 (2 ^ k) 1;
        cells = fresh_cells blank 0 (2 ^ k);
        enqueue_pos = 0;
        dequeue_pos = 0;
      })
  fresh-Holds k one few =
      let small : 2 ^ k ≤ 2 ^ 63 = pow_mono k 63 few in
      let two : 2 ≤ 2 ^ k = pow_mono 1 k one in
      record {
        several = one;
        few = few;
        capacity = refl;
        mask = omega arith;
        enqueue = refl;
        dequeue = refl;
        fits = omega arith;
        storage = length-fresh_cells 0 (2 ^ k);
        used = λ i a e. cc;
        free = λ i lo hi. (
          blank,
          ap (get_elem? (fresh_cells blank 0 (2 ^ k)))
                (ap (λ (t : ℕ). t % 2 ^ k) (zero-add i) ∙ mod-eq_of_lt hi)
              ∙ get_elem?-fresh_cells 0 (2 ^ k) i hi
              ∙ ground arith,
        );
      }

  -- For a request between 2 and 2 ^ 63 the constructor returns, with an empty ring whose capacity is
  -- the least power of two that is not below the request.
  pub create-Holds :
      (requested : ℕ)
      → 2 ≤ requested
      → requested ≤ 2 ^ 63
      → (r : Ring A) × (k : ℕ) × (create blank 64 requested ≡ some r)
        × Holds k 0 [] r
        × Rounded requested k
  unfolding create
  create-Holds requested lo hi =
      let (k, run, found) = round_up_pow2_total requested hi in
      (_, k, rw (run, create) refl, fresh-Holds k (several k found.covers) found.fits, found)
    where
      several : (k : ℕ) → requested ≤ 2 ^ k → 1 ≤ k
      several zero h = absurd (omega arith)
      several (suc k) h = omega arith
