-- ===== src/LockFree/Refine.antt =====
-- A ring of at least two cells is the bounded first-in first-out queue, and one round of each loop
-- is enough.
use native.Mathlib.Nat.{add-mod_right, mod-lt}
use animus_core_v.Base.{
  ℕ, suc, ◌+◌, ◌-◌, ◌%◌, ◌^◌, ◌≤◌, ◌<◌, ◌≡◌, ◌≢◌, refl, ap, sym, ◌∙◌, true, false, none, some, List,
  [], ◌∷◌, ◌++◌, bit_and, get_elem?, set, length, arith, dec_lt, length-snoc, length-set,
  get_elem?-set_self, get_elem?-set_ne, get_elem?-snoc_old, get_elem?-snoc_new, get_elem?-lt,
  lt→ltb, le→ltb, get_elem?-some, List-cases, inl, inr, ◌⊎◌,
}
use animus_core_v.Base.Words.{u64, add64}
use animus_core_v.Base.Bits.{masked_count, mod-ne, pow_mono}
use animus_core_v.Fifo
use animus_core_v.LockFree.{Cell, Ring, Sign, signed_diff, Outcome, push, pop, publish, retire}

-- The ring holds the records `q`, oldest first, at the positions from `d` on. A cell in use is one
-- ahead of its position, a free one stands at the position that it will take next.
pub record Holds {A : Type 0} (k d : ℕ) (q : List A) (r : Ring A) : Type 0 where
  pub several : 1 ≤ k
  pub few : k ≤ 63
  pub capacity : r.capacity ≡ 2 ^ k
  pub mask : r.mask ≡ 2 ^ k - 1
  pub enqueue : r.enqueue_pos ≡ u64 (d + length q)
  pub dequeue : r.dequeue_pos ≡ u64 d
  pub fits : length q ≤ 2 ^ k
  pub storage : length r.cells ≡ 2 ^ k
  pub used :
      (i : ℕ) (a : A)
      → get_elem? q i ≡ some a
      → get_elem? r.cells ((d + i) % 2 ^ k)
        ≡ some (record { sequence = u64 (d + i + 1); value = a })
  pub free :
      (i : ℕ)
      → length q ≤ i
      → i < 2 ^ k
      → (a : A) × (get_elem? r.cells ((d + i) % 2 ^ k)
          ≡ some (record { sequence = u64 (d + i); value = a }))

-- The sign of a difference of counts that are kept in words.
signed_diff_self : (x y a : ℕ) → x ≡ u64 a → y ≡ u64 a → signed_diff x y ≡ Sign.equal
signed_diff_self x y a p q = ground arith

signed_diff_lag :
    (x y a b : ℕ) → x ≡ u64 a → y ≡ u64 b → a < b → b ≤ a + 2 ^ 63 → signed_diff x y ≡ Sign.behind
signed_diff_lag x y a b p q h k = ground arith

-- One round of each loop, at a cell whose sequence word is known.
module _ {A : Type 0} (f : ℕ) (r : Ring A) (cell : Cell A) where
  push_equal :
      (v : A)
      → get_elem? r.cells (bit_and r.enqueue_pos r.mask) ≡ some cell
      → signed_diff cell.sequence r.enqueue_pos ≡ Sign.equal
      → push (suc f) r v ≡ Outcome.done (true, publish r r.enqueue_pos v)
  unfolding push
  push_equal v e s = ground arith

  push_behind :
      (v : A)
      → get_elem? r.cells (bit_and r.enqueue_pos r.mask) ≡ some cell
      → signed_diff cell.sequence r.enqueue_pos ≡ Sign.behind
      → push (suc f) r v ≡ Outcome.done (false, r)
  unfolding push
  push_behind v e s = ground arith

  pop_equal :
      get_elem? r.cells (bit_and r.dequeue_pos r.mask) ≡ some cell
      → signed_diff cell.sequence (add64 r.dequeue_pos 1) ≡ Sign.equal
      → pop (suc f) r ≡ Outcome.done (true, some cell.value, retire r r.dequeue_pos cell.value)
  unfolding pop
  pop_equal e s = ground arith

  pop_behind :
      get_elem? r.cells (bit_and r.dequeue_pos r.mask) ≡ some cell
      → signed_diff cell.sequence (add64 r.dequeue_pos 1) ≡ Sign.behind
      → pop (suc f) r ≡ Outcome.done (false, none, r)
  unfolding pop
  pop_behind e s = ground arith

module _ {A : Type 0} {k d : ℕ} {q : List A} {r : Ring A} (h : Holds k d q r) where
  push_slot : bit_and r.enqueue_pos r.mask ≡ (d + length q) % 2 ^ k
  push_slot = rw (h.enqueue, h.mask) (masked_count k (d + length q) (omega arith))

  pop_slot : bit_and r.dequeue_pos r.mask ≡ (d + 0) % 2 ^ k
  pop_slot =
      rw (h.dequeue, h.mask)
        (masked_count k d (omega arith)
          ∙ (let e : d ≡ d + 0 = omega arith in ap (λ (t : ℕ). t % 2 ^ k) e))

  two : 2 ≤ 2 ^ k
  two = omega (arith, pow_mono 1 k h.several)

  word_size : 2 ^ k ≤ 2 ^ 63
  word_size = pow_mono k 63 h.few

  -- A write to one cell of the window leaves another alone.
  other_cell :
      (i j : ℕ) (x : Cell A)
      → i < 2 ^ k
      → j < 2 ^ k
      → i ≢ j
      → get_elem? (set r.cells ((d + i) % 2 ^ k) x) ((d + j) % 2 ^ k)
        ≡ get_elem? r.cells ((d + j) % 2 ^ k)
  other_cell i j x hi hj ne = get_elem?-set_ne r.cells x (elim (dec_lt i j) [
    | yes lt ↦ mod-ne (d + i) (d + j) (2 ^ k) (omega arith) (omega arith)
    | no ge ↦ λ e. mod-ne (d + j) (d + i) (2 ^ k) (omega arith) (omega arith) (sym e)
  ])

  same_cell :
      (i : ℕ) (x : Cell A) → get_elem? (set r.cells ((d + i) % 2 ^ k) x) ((d + i) % 2 ^ k) ≡ some x
  same_cell i x =
      get_elem?-set_self r.cells ((d + i) % 2 ^ k) x
        (rw (h.storage) (mod-lt (d + i) (omega (arith, two))))

  new_used :
      (v : A) (i : ℕ) (a : A)
      → length q < 2 ^ k
      → get_elem? (q ++ (v ∷ [])) i ≡ some a
      → get_elem? (publish r r.enqueue_pos v).cells ((d + i) % 2 ^ k)
        ≡ some (record { sequence = u64 (d + i + 1); value = a })
  new_used v i a room e = elim (dec_lt i (length q)) [
    | yes old ↦ rw push_slot (
        other_cell (length q) i _ room (omega arith) (omega arith)
        ∙ h.used i a (sym (get_elem?-snoc_old q v i old) ∙ e))
    | no new ↦
        let last : i ≡ length q =
          omega (arith, get_elem?-lt (q ++ (v ∷ [])) i e, length-snoc q v) in
        rw (push_slot, last)
          (same_cell (length q) _ ∙ ground (arith, get_elem?-snoc_new q v i last))
  ]

  publish-Holds : (v : A) → length q < 2 ^ k → Holds k d (q ++ (v ∷ [])) (publish r r.enqueue_pos v)
  publish-Holds v room = record {
    several = h.several;
    few = h.few;
    capacity = h.capacity;
    mask = h.mask;
    enqueue = omega (arith, length-snoc q v);
    dequeue = h.dequeue;
    fits = omega (arith, length-snoc q v);
    storage = length-set r.cells _ _ ∙ h.storage;
    used = λ i a e. new_used v i a room e;
    free = λ i lo hi.
        let (x, e) = h.free i (omega (arith, length-snoc q v)) hi in
        (x, rw push_slot (other_cell (length q) i _ room hi (omega (arith, length-snoc q v)) ∙ e));
  }

  freed_used :
      (v : A) (rest : List A) (i : ℕ) (a : A)
      → q ≡ v ∷ rest
      → get_elem? rest i ≡ some a
      → get_elem? (retire r r.dequeue_pos v).cells ((d + 1 + i) % 2 ^ k)
        ≡ some (record { sequence = u64 (d + 1 + i + 1); value = a })
  freed_used v rest i a e g =
      let shift : d + 1 + i ≡ d + suc i = omega arith in
      rw (pop_slot, shift)
        (other_cell 0 (suc i) _ (omega (arith, two))
            (omega (arith, get_elem?-lt rest i g, ap length e)) (omega arith)
          ∙ h.used (suc i) a (rw e g))

  freed_free :
      (v : A) (rest : List A) (i : ℕ)
      → q ≡ v ∷ rest
      → length rest ≤ i
      → i < 2 ^ k
      → (a : A) × (get_elem? (retire r r.dequeue_pos v).cells ((d + 1 + i) % 2 ^ k)
          ≡ some (record { sequence = u64 (d + 1 + i); value = a }))
  freed_free v rest i e lo hi = elim (dec_lt (suc i) (2 ^ k)) [
    | yes inside ↦
        let shift : d + 1 + i ≡ d + suc i = omega arith in
        let (x, g) = h.free (suc i) (omega (arith, ap length e)) inside in
        (
          x,
          rw (pop_slot, shift)
              (other_cell 0 (suc i) _ (omega (arith, two)) inside (omega arith) ∙ g),
        )
    | no last ↦
        let lap : d + 1 + i ≡ d + 2 ^ k = omega arith in
        let start : d ≡ d + 0 = omega arith in
        let slot : (d + 1 + i) % 2 ^ k ≡ (d + 0) % 2 ^ k =
          ap (λ (t : ℕ). t % 2 ^ k) lap
          ∙ add-mod_right d (2 ^ k)
          ∙ ap (λ (t : ℕ). t % 2 ^ k) start in
        (v, rw (pop_slot, slot) (same_cell 0 _ ∙ ground (arith, two)))
  ]

  retire-Holds :
      (v : A) (rest : List A) → q ≡ v ∷ rest → Holds k (d + 1) rest (retire r r.dequeue_pos v)
  retire-Holds v rest e = record {
    several = h.several;
    few = h.few;
    capacity = h.capacity;
    mask = h.mask;
    enqueue = ground arith;
    dequeue = omega arith;
    fits = omega (arith, ap length e);
    storage = length-set r.cells _ _ ∙ h.storage;
    used = λ i a g. freed_used v rest i a e g;
    free = λ i lo hi. freed_free v rest i e lo hi;
  }

  -- `push` on a ring of at least two cells ends in its first round. It returns `true` and stores the
  -- record behind the others where a cell is free, and returns `false` and changes nothing else.
  pub push_refines :
      (f : ℕ) (v : A)
      → (r' : Ring A) × (push (suc f) r v ≡ Outcome.done ((Fifo.offer (2 ^ k) q v).0, r'))
        × Holds k d (Fifo.offer (2 ^ k) q v).1 r'
  push_refines f v = elim (dec_lt (length q) (2 ^ k)) [
    | yes room ↦
        let (x, g) = h.free (length q) (omega arith) room in
        (
          publish r r.enqueue_pos v,
          rw (lt→ltb (length q) (2 ^ k) room) (
              push_equal f r (record { sequence = u64 (d + length q); value = x }) v
                (rw push_slot g) (signed_diff_self _ _ (d + length q) refl h.enqueue)),
          rw (lt→ltb (length q) (2 ^ k) room) (publish-Holds v room),
        )
    | no full ↦
        let filled : length q ≡ 2 ^ k = omega (arith, h.fits) in
        let (x, g) = get_elem?-some q 0 (omega (arith, two)) in
        let slot : (d + length q) % 2 ^ k ≡ (d + 0) % 2 ^ k =
          ap (λ (t : ℕ). (d + t) % 2 ^ k) filled
          ∙ add-mod_right d (2 ^ k)
          ∙ (let e : d ≡ d + 0 = omega arith in ap (λ (t : ℕ). t % 2 ^ k) e) in
        (
          r,
          rw (le→ltb (length q) (2 ^ k) (omega arith)) (
              push_behind f r (record { sequence = u64 (d + 0 + 1); value = x }) v
                (rw (push_slot, slot) (h.used 0 x g))
                (signed_diff_lag _ _ (d + 0 + 1) (d + length q) refl h.enqueue (omega (arith, two))
                  (omega (arith, word_size)))),
          rw (le→ltb (length q) (2 ^ k) (omega arith)) h,
        )
  ]

  -- `pop` on a ring of at least two cells ends in its first round. It returns `true` with the oldest
  -- record and frees its cell, and returns `false` and changes nothing where the ring is empty.
  pub pop_refines :
      (f : ℕ)
      → (r' : Ring A) × (pop (suc f) r ≡ Outcome.done ((Fifo.poll q).0, (Fifo.poll q).1, r'))
        × ((d' : ℕ) × Holds k d' (Fifo.poll q).2 r'
            × (((q ≡ []) × (r' ≡ r)) ⊎ ((q ≢ []) × (d' ≡ d + 1))))
  pop_refines f = elim (List-cases q) [
    | inl empty ↦
        let (x, g) = h.free 0 (omega (arith, ap length empty)) (omega (arith, two)) in
        (
          r,
          rw empty (
              pop_behind f r (record { sequence = u64 (d + 0); value = x }) (rw pop_slot g)
                (signed_diff_lag _ _ (d + 0) (d + 1) refl after (omega arith) (omega arith))),
          (d, rw empty (rw empty at h), inl (empty, refl)),
        )
    | inr (v, rest, e) ↦ (
      retire r r.dequeue_pos v,
      rw e (
          pop_equal f r (record { sequence = u64 (d + 0 + 1); value = v })
            (rw pop_slot (h.used 0 v (rw e refl)))
            (signed_diff_self _ _ (d + 1) (omega arith) after)),
      (d + 1, rw e (retire-Holds v rest e), inr (filled v rest e, refl)),
    )
  ]
    where
      after : add64 r.dequeue_pos 1 ≡ u64 (d + 1)
      after = omega (arith, h.dequeue)

      filled : (v : A) (rest : List A) → q ≡ v ∷ rest → q ≢ []
      filled v rest e nothing = cc
