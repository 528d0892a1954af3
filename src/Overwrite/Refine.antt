-- ===== src/Overwrite/Refine.antt =====
-- `ShmRing<T>` is a first-in first-out queue that refuses a record when it is full, or gives up its
-- oldest one, as the producer chooses. About include/animus/shm_ipc.hpp.
use native.Mathlib.Nat.{mod-lt}
use animus_core_v.Base.{
  ℕ, suc, ◌+◌, ◌-◌, ◌%◌, ◌^◌, ◌≤◌, ◌<◌, ◌≡◌, refl, ap, sym, ◌∙◌, true, false, none, some, List, [],
  ◌∷◌, ◌++◌, bit_and, get_elem?, set, length, drop, arith, dec_lt, ℕ_discrete, length-snoc,
  length-set, get_elem?-set_self, get_elem?-set_ne, get_elem?-snoc_old, get_elem?-snoc_new,
  get_elem?-lt, length-drop, lt→ltb, le→ltb, leb, ltb, ◌==◌, if◌then◌else◌, ◌⊎◌, inl, inr, ◌≢◌,
}
use animus_core_v.Base.Words.{u64, add64, sub64}
use animus_core_v.Base.Bits.{masked_count, mod-ne, pow_mono}
use animus_core_v.Fifo
use animus_core_v.Spmc.{end_value, lapped, oldest_intact}
use animus_core_v.Overwrite.{
  ShmRing, store_next, announce, reclaim, try_push_shm, push_overwrite, pop_validated, try_pop_shm,
}

-- The ring holds the records `q`, oldest first, at the positions from `d` on, and no record from `d`
-- on counts as lapped.
pub record Keeps {A : Type 0} (k d : ℕ) (q : List A) (r : ShmRing A) : Type 0 where
  pub few : k ≤ 62
  pub capacity : r.capacity ≡ 2 ^ k
  pub mask : r.mask ≡ 2 ^ k - 1
  pub head : r.head ≡ d + length q
  pub tail : r.tail ≡ d
  pub fits : length q ≤ 2 ^ k
  pub storage : length r.slots ≡ 2 ^ k
  pub intact : oldest_intact r.write_seq (2 ^ k) ≤ d
  pub used : (i : ℕ) (a : A) → get_elem? q i ≡ some a → get_elem? r.slots ((d + i) % 2 ^ k) ≡ some a

-- A full queue gives up its oldest record.
abbrev pub replace_oldest : {A : Type 0} → ℕ → List A → A → List A
replace_oldest cap q v = if ltb (length q) cap then q ++ (v ∷ []) else drop 1 (q ++ (v ∷ []))

get_elem?-drop_one :
    {A : Type 0} (xs : List A) (i : ℕ) → get_elem? (drop 1 xs) i ≡ get_elem? xs (suc i)
get_elem?-drop_one [] i = refl
get_elem?-drop_one (x ∷ xs) i = refl

module _ {A : Type 0} {k d : ℕ} {q : List A} {r : ShmRing A} (h : Keeps k d q r)
    (bound : d + length q + 1 < 2 ^ 63) where
  small : 2 ^ k ≤ 2 ^ 62
  small = pow_mono k 62 h.few

  positive : 1 ≤ 2 ^ k
  positive = pow_mono 0 k (omega arith)

  slot_at : (i : ℕ) → i < 2 ^ 64 → bit_and i r.mask ≡ i % 2 ^ k
  slot_at i low =
      let word : i ≡ u64 i = omega arith in
      ap (bit_and i) h.mask
      ∙ ap (λ (t : ℕ). bit_and t (2 ^ k - 1)) word
      ∙ masked_count k i (omega (arith, h.few))

  head_slot : bit_and r.head r.mask ≡ (d + length q) % 2 ^ k
  head_slot = ap (λ (t : ℕ). bit_and t r.mask) h.head ∙ slot_at (d + length q) (omega arith)

  tail_slot : bit_and r.tail r.mask ≡ d % 2 ^ k
  tail_slot = ap (λ (t : ℕ). bit_and t r.mask) h.tail ∙ slot_at d (omega arith)

  occupied : sub64 r.head r.tail ≡ length q
  occupied = omega (arith, h.head, h.tail)

  -- The slots after a push, at the records that the new one does not displace.
  used_after :
      (v : A) (i : ℕ) (a : A)
      → length q < i + 2 ^ k
      → get_elem? (q ++ (v ∷ [])) i ≡ some a
      → get_elem? (set r.slots (bit_and r.head r.mask) v) ((d + i) % 2 ^ k) ≡ some a
  used_after v i a room e = elim (ℕ_discrete i (length q)) [
    | yes last ↦
        let value : some v ≡ some a = sym (get_elem?-snoc_new q v i last) ∙ e in
        rw (head_slot, last)
          (get_elem?-set_self r.slots ((d + length q) % 2 ^ k) v
              (rw (h.storage) (mod-lt (d + length q) (omega (arith, positive))))
            ∙ value)
    | no earlier ↦
        let below : i < length q + 1 =
          omega (arith, get_elem?-lt (q ++ (v ∷ [])) i e, length-snoc q v) in
        rw head_slot (
          get_elem?-set_ne r.slots v (λ same.
            mod-ne (d + i) (d + length q) (2 ^ k) (omega (arith, earlier)) (omega arith) (sym same))
          ∙ h.used i a (sym (get_elem?-snoc_old q v i (omega (arith, earlier))) ∙ e))
  ]

  stored : (v : A) → length q < 2 ^ k → Keeps k d (q ++ (v ∷ [])) (store_next r v)
  stored v room = record {
    few = h.few;
    capacity = h.capacity;
    mask = h.mask;
    head = omega (arith, h.head, length-snoc q v);
    tail = h.tail;
    fits = omega (arith, length-snoc q v);
    storage = length-set r.slots _ v ∙ h.storage;
    intact = h.intact;
    used = λ i a e. used_after v i a (omega arith) e;
  }

  -- Before 2 ^ 63 pushes in all: `try_push` returns `true` and stores the record behind the others
  -- where fewer than `capacity` records are stored, and returns `false` and changes nothing else.
  pub try_push_shm-offer :
      (v : A)
      → ((try_push_shm r v).0 ≡ (Fifo.offer (2 ^ k) q v).0)
        × Keeps k d (Fifo.offer (2 ^ k) q v).1 (try_push_shm r v).1
  unfolding try_push_shm
  try_push_shm-offer v = elim (dec_lt (length q) (2 ^ k)) [
    | yes room ↦
        let open_gate : leb r.capacity (sub64 r.head r.tail) ≡ false =
          ground (arith, occupied, h.capacity) in
        rw (open_gate, lt→ltb (length q) (2 ^ k) room) (refl, stored v room)
    | no full ↦
        let shut : leb r.capacity (sub64 r.head r.tail) ≡ true =
          ground (arith, occupied, h.capacity) in
        rw (shut, le→ltb (length q) (2 ^ k) (omega arith)) (refl, h)
  ]

  -- The tail moves to the new oldest record, and the drop is counted.
  reclaimed :
      2 ^ k ≤ length q
      → reclaim (announce r)
        ≡ record (announce r) { tail = d + 1; dropped_count = add64 r.dropped_count 1 }
  reclaimed full =
      let floor : add64 (sub64 r.head r.capacity) 1 ≡ d + 1 =
        omega (arith, h.head, h.capacity, h.fits, small) in
      let behind : ltb r.tail (d + 1) ≡ true = ground (arith, h.tail) in rw (floor, behind) refl

  replaced :
      (v : A)
      → 2 ^ k ≤ length q
      → Keeps k
          (d + 1)
          (drop 1 (q ++ (v ∷ [])))
          (record (store_next
            (record (announce r) { tail = d + 1; dropped_count = add64 r.dropped_count 1 })
            v) { write_seq = end_value r.head })
  replaced v full =
      let filled : length q ≡ 2 ^ k = omega (arith, h.fits) in
      let count : length (drop 1 (q ++ (v ∷ []))) ≡ 2 ^ k =
        omega (arith, length-drop 1 (q ++ (v ∷ [])), length-snoc q v) in
      record {
        few = h.few;
        capacity = h.capacity;
        mask = h.mask;
        head = omega (arith, h.head);
        tail = refl;
        fits = omega (arith, count);
        storage = length-set r.slots _ v ∙ h.storage;
        intact = ground (arith, h.head);
        used = λ i a e.
            let next : d + 1 + i ≡ d + suc i = omega arith in
            rw next (
              used_after v (suc i) a (omega arith)
                (sym (get_elem?-drop_one (q ++ (v ∷ [])) i) ∙ e));
      }

  -- Before 2 ^ 63 pushes in all: `push_overwrite` stores the record behind the others where fewer
  -- than `capacity` records are stored. Otherwise the oldest record gives way to it, and
  -- `dropped_count` goes up by one, modulo 2 ^ 64.
  pub push_overwrite-replaces :
      (v : A)
      → ((d' : ℕ) × Keeps k d' (replace_oldest (2 ^ k) q v) (push_overwrite r v))
        × ((push_overwrite r v).dropped_count
            ≡ (if ltb (length q) (2 ^ k) then r.dropped_count else add64 r.dropped_count 1))
  unfolding push_overwrite
  push_overwrite-replaces v = elim (dec_lt (length q) (2 ^ k)) [
    | yes room ↦
        let free : ltb (sub64 r.head r.tail) r.capacity ≡ true =
          ground (arith, occupied, h.capacity) in
        rw (free, lt→ltb (length q) (2 ^ k) room) ((d, stored v room), refl)
    | no full ↦
        let shut : ltb (sub64 r.head r.tail) r.capacity ≡ false =
          ground (arith, occupied, h.capacity) in
        rw (shut, le→ltb (length q) (2 ^ k) (omega arith), reclaimed (omega arith))
          ((d + 1, replaced v (omega arith)), refl)
  ]

-- Either route of `try_pop` on a ring with a record reads the oldest one at its first attempt.
pop_first :
    {A : Type 0} {k d : ℕ} {v : A} {rest : List A} {r : ShmRing A}
    → Keeps k d (v ∷ rest) r
    → d + length (v ∷ rest) + 1 < 2 ^ 63
    → try_pop_shm r
      ≡ (true, get_elem? r.slots (bit_and r.tail r.mask), record r { tail = add64 r.tail 1 })
unfolding try_pop_shm pop_validated
pop_first {k = k} {r = r} h bound =
    let low : 2 ^ k ≤ 2 ^ 62 = pow_mono k 62 h.few in
    let differ : (r.tail == r.head) ≡ false = ground (arith, h.head, h.tail) in
    let within : ltb r.capacity (sub64 r.head r.tail) ≡ false =
      ground (arith, h.head, h.tail, h.capacity, h.fits) in
    let sound : lapped r.write_seq r.tail r.capacity ≡ false =
      ground (arith, h.intact, h.capacity, h.tail) in
    elim (ℕ_discrete r.overwrite_active 0) [
      | yes e ↦ rw (e, differ) refl
      | no e ↦
          let mode : (r.overwrite_active == 0) ≡ false = ground arith in
          rw (mode, within, differ, sound) refl
    ]

pop_none :
    {A : Type 0} {k d : ℕ} {r : ShmRing A}
    → Keeps k d [] r
    → d + 0 + 1 < 2 ^ 63
    → try_pop_shm r ≡ (false, none, r)
unfolding try_pop_shm pop_validated
pop_none {r = r} h bound =
    let same : (r.tail == r.head) ≡ true = ground (arith, h.head, h.tail) in
    let within : ltb r.capacity (sub64 r.head r.tail) ≡ false = ground (arith, h.head, h.tail) in
    elim (ℕ_discrete r.overwrite_active 0) [
      | yes e ↦ rw (e, same) refl
      | no e ↦
          let mode : (r.overwrite_active == 0) ≡ false = ground arith in
          rw (mode, within, same) refl
    ]

-- Before 2 ^ 63 pushes in all, and in either mode: `try_pop` returns `true` with the oldest record
-- and removes that one, where all that changes is `tail`, and returns `false` and changes nothing
-- at all where no record is stored.
pub try_pop_shm-poll :
    {A : Type 0} {k d : ℕ} {q : List A} {r : ShmRing A}
    → Keeps k d q r
    → d + length q + 1 < 2 ^ 63
    → ((try_pop_shm r).0 ≡ (Fifo.poll q).0)
      × ((try_pop_shm r).1 ≡ (Fifo.poll q).1)
      × ((d' : ℕ) × Keeps k d' (Fifo.poll q).2 (try_pop_shm r).2
          × (((q ≡ []) × ((try_pop_shm r).2 ≡ r))
              ⊎ ((q ≢ []) × (d' ≡ d + 1) × ((try_pop_shm r).2 ≡ record r { tail = d + 1 }))))
try_pop_shm-poll {d = d} {q = []} h bound =
    rw (pop_none h bound) (refl, refl, (d, h, inl (refl, refl)))
try_pop_shm-poll {k = k} {d = d} {q = v ∷ rest} {r = r} h bound = rw (pop_first h bound) (
  refl,
  ap (get_elem? r.slots) (tail_slot h bound)
      ∙ (let e : d ≡ d + 0 = omega arith in ap (λ (t : ℕ). get_elem? r.slots (t % 2 ^ k)) e)
      ∙ h.used 0 v refl,
  (
    d + 1,
    record {
      few = h.few;
      capacity = h.capacity;
      mask = h.mask;
      head = omega (arith, h.head);
      tail = omega (arith, h.tail);
      fits = omega (arith, h.fits);
      storage = h.storage;
      intact = omega (arith, h.intact);
      used =
          λ i a e. let next : d + 1 + i ≡ d + suc i = omega arith in rw next (h.used (suc i) a e);
    },
    inr (
      (λ e. cc),
      refl,
      (let up : add64 r.tail 1 ≡ d + 1 = omega (arith, h.tail) in
          ap (λ (t : ℕ). record r { tail = t }) up),
    ),
  ),
)
