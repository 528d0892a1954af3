-- ===== src/Local/Refine.antt =====
-- `SpscRingBuffer<T>` is the bounded first-in first-out queue, at every capacity.
use native.Mathlib.Nat.{mod-lt}
use animus_core_v.Base.{
  ℕ, suc, ◌+◌, ◌-◌, ◌%◌, ◌^◌, ◌≤◌, ◌<◌, ◌≡◌, refl, ap, sym, ◌∙◌, true, false, some, List, [], ◌∷◌,
  ◌++◌, bit_and, get_elem?, set, length, replicate, length-replicate, arith, dec_lt, ℕ_discrete,
  length-snoc, length-set, get_elem?-set_self, get_elem?-set_ne, get_elem?-snoc_old,
  get_elem?-snoc_new, get_elem?-lt, lt→ltb, le→ltb, leb, ◌==◌, ◌⊎◌, inl, inr, ◌≢◌,
}
use animus_core_v.Base.Words.{u64, add64, sub64}
use animus_core_v.Base.Bits.{masked_count, mod-ne, pow_mono}
use animus_core_v.Fifo
use animus_core_v.Pow2.Laws.{Rounded, round_up_pow2_total}
use animus_core_v.Local.{Buffer, new_buffer, push_local, pop_local}

-- The buffer holds the records `q`, oldest first, at the positions from `d` on.
pub record Stores {A : Type 0} (k d : ℕ) (q : List A) (r : Buffer A) : Type 0 where
  pub few : k ≤ 63
  pub capacity : r.capacity ≡ 2 ^ k
  pub mask : r.mask ≡ 2 ^ k - 1
  pub head : r.head ≡ u64 (d + length q)
  pub tail : r.tail ≡ u64 d
  pub fits : length q ≤ 2 ^ k
  pub storage : length r.cells ≡ 2 ^ k
  pub used : (i : ℕ) (a : A) → get_elem? q i ≡ some a → get_elem? r.cells ((d + i) % 2 ^ k) ≡ some a

module _ {A : Type 0} {k d : ℕ} {q : List A} {r : Buffer A} (h : Stores k d q r) where
  small : 2 ^ k ≤ 2 ^ 63
  small = pow_mono k 63 h.few

  positive : 1 ≤ 2 ^ k
  positive = pow_mono 0 k (omega arith)

  head_slot : bit_and r.head r.mask ≡ (d + length q) % 2 ^ k
  head_slot = rw (h.head, h.mask) (masked_count k (d + length q) (omega (arith, h.few)))

  tail_slot : bit_and r.tail r.mask ≡ d % 2 ^ k
  tail_slot = rw (h.tail, h.mask) (masked_count k d (omega (arith, h.few)))

  occupied : sub64 r.head r.tail ≡ length q
  occupied = omega (arith, h.head, h.tail, h.fits, small)

  used_after :
      (v : A) (i : ℕ) (a : A)
      → length q < 2 ^ k
      → get_elem? (q ++ (v ∷ [])) i ≡ some a
      → get_elem? (set r.cells ((d + length q) % 2 ^ k) v) ((d + i) % 2 ^ k) ≡ some a
  used_after v i a room e = elim (ℕ_discrete i (length q)) [
    | yes last ↦
        let value : some v ≡ some a = sym (get_elem?-snoc_new q v i last) ∙ e in
        rw last (
          get_elem?-set_self r.cells ((d + length q) % 2 ^ k) v
            (rw (h.storage) (mod-lt (d + length q) (omega (arith, positive))))
          ∙ value)
    | no earlier ↦
        let bound : i < length q + 1 =
          omega (arith, get_elem?-lt (q ++ (v ∷ [])) i e, length-snoc q v) in
        get_elem?-set_ne r.cells v (λ same.
          mod-ne (d + i) (d + length q) (2 ^ k) (omega (arith, earlier)) (omega arith) (sym same))
        ∙ h.used i a (sym (get_elem?-snoc_old q v i (omega (arith, earlier))) ∙ e)
  ]

  pushed :
      (v : A)
      → length q < 2 ^ k
      → Stores k d
          (q ++ (v ∷ []))
          (record r { cells = set r.cells (bit_and r.head r.mask) v; head = add64 r.head 1 })
  pushed v room = record {
    few = h.few;
    capacity = h.capacity;
    mask = h.mask;
    head = omega (arith, h.head, length-snoc q v);
    tail = h.tail;
    fits = omega (arith, length-snoc q v);
    storage = length-set r.cells _ v ∙ h.storage;
    used = λ i a e. rw head_slot (used_after v i a room e);
  }

  -- `push` returns `true` and stores the record behind the others where fewer than `capacity`
  -- records are stored, and returns `false` and changes nothing else.
  pub push_local-offer :
      (v : A)
      → ((push_local r v).0 ≡ (Fifo.offer (2 ^ k) q v).0)
        × Stores k d (Fifo.offer (2 ^ k) q v).1 (push_local r v).1
  unfolding push_local
  push_local-offer v = elim (dec_lt (length q) (2 ^ k)) [
    | yes room ↦
        let open_gate : leb r.capacity (sub64 r.head r.tail) ≡ false =
          ground (arith, occupied, h.capacity) in
        rw (open_gate, lt→ltb (length q) (2 ^ k) room) (refl, pushed v room)
    | no full ↦
        let shut : leb r.capacity (sub64 r.head r.tail) ≡ true =
          ground (arith, occupied, h.capacity) in
        rw (shut, le→ltb (length q) (2 ^ k) (omega arith)) (refl, h)
  ]

-- `pop` returns `true` with the oldest record and removes that one, and returns `false` and changes
-- nothing where no record is stored.
pub pop_local-poll :
    {A : Type 0} {k d : ℕ} {q : List A} {r : Buffer A}
    → Stores k d q r
    → ((pop_local r).0 ≡ (Fifo.poll q).0)
      × ((pop_local r).1 ≡ (Fifo.poll q).1)
      × ((d' : ℕ) × Stores k d' (Fifo.poll q).2 (pop_local r).2
          × (((q ≡ []) × ((pop_local r).2 ≡ r)) ⊎ ((q ≢ []) × (d' ≡ d + 1))))
unfolding pop_local
pop_local-poll {d = d} {q = []} {r = r} h =
    let same : (r.tail == r.head) ≡ true = ground (arith, h.head, h.tail) in
    rw same (refl, refl, (d, h, inl (refl, refl)))
pop_local-poll {k = k} {d = d} {q = v ∷ rest} {r = r} h =
    let differ : (r.tail == r.head) ≡ false = ground (arith, h.head, h.tail, h.fits, small h) in
    rw (differ, tail_slot h)
      (
        refl,
        (let e : d ≡ d + 0 = omega arith in ap (λ (t : ℕ). get_elem? r.cells (t % 2 ^ k)) e)
            ∙ h.used 0 v refl,
        (
          d + 1,
          record {
            few = h.few;
            capacity = h.capacity;
            mask = h.mask;
            head = omega (arith, h.head);
            tail = omega (arith, h.tail);
            fits = omega (arith, h.fits);
            storage = h.storage;
            used = λ i a e.
                let next : d + 1 + i ≡ d + suc i = omega arith in rw next (h.used (suc i) a e);
          },
          inr ((λ e. cc), refl),
        ),
      )

-- For a request of at most 2 ^ 63 the constructor returns, with an empty buffer whose capacity is
-- the least power of two that is not below the request.
pub new_buffer-Stores :
    {A : Type 0} (blank : A) (requested : ℕ)
    → requested ≤ 2 ^ 63
    → (r : Buffer A) × (k : ℕ) × (new_buffer blank 64 requested ≡ some r)
      × Stores k 0 [] r
      × Rounded requested k
unfolding new_buffer
new_buffer-Stores blank requested h =
    let (k, run, found) = round_up_pow2_total requested h in
    let low : 2 ^ k ≤ 2 ^ 63 = pow_mono k 63 found.fits in
    let positive : 1 ≤ 2 ^ k = pow_mono 0 k (omega arith) in
    (
      record {
        capacity = 2 ^ k;
        mask = sub64 (2 ^ k) 1;
        cells = replicate (2 ^ k) blank;
        head = 0;
        tail = 0;
      },
      k,
      rw run refl,
      record {
        few = found.fits;
        capacity = refl;
        mask = omega arith;
        head = omega arith;
        tail = omega arith;
        fits = omega arith;
        storage = length-replicate (2 ^ k) blank;
        used = λ i a e. cc;
      },
      found,
    )
