-- ===== src/Spsc/Safety.antt =====
-- What holds in every state that the two sides can reach from a fresh handle.
use native.Mathlib.Nat.{mod-lt}
use animus_core_v.Base.{
  ℕ, ◌+◌, ◌^◌, ◌≤◌, ◌<◌, ◌≡◌, ◌≢◌, refl, sym, ◌∙◌, true, some, List, bit_and, length, take, arith,
  dec_lt,
}
use animus_core_v.Base.Words.{sub64}
use animus_core_v.Base.Bits.{pow_mono, mod-ne}
use animus_core_v.Pow2.{is_pow2}
use animus_core_v.Pow2.Laws.{is_pow2_iff}
use animus_core_v.Spsc.{Header, init}
use animus_core_v.Spsc.System.{Producer, Consumer, System, Step, Reach, here, next, start}
use animus_core_v.Spsc.Invariant.{Inv, read_slot, write_slot}
use animus_core_v.Spsc.Moves.{Reach-Inv}

-- What `init` accepts it writes into the header, whatever the memory is.
init_header :
    (size address bytes capacity : ℕ) {h : Header}
    → init size address bytes capacity ≡ some h
    → (is_pow2 capacity ≡ true)
      × (h.capacity ≡ capacity)
      × (h.mask ≡ sub64 capacity 1)
      × (h.head ≡ 0)
      × (h.tail ≡ 0)
unfolding init
init_header size address bytes capacity e = grind arith

Step-capacity : {A : Type 0} {s t : System A} → Step s t → t.queue.capacity ≡ s.queue.capacity
Step-capacity (Step.push_fast v e lt) = refl
Step-capacity _ = refl

Reach-capacity : {A : Type 0} {s t : System A} → Reach s t → t.queue.capacity ≡ s.queue.capacity
Reach-capacity here = refl
Reach-capacity (next r st) = Step-capacity st ∙ Reach-capacity r

exponent_small : (k : ℕ) → 2 ^ k < 2 ^ 64 → k ≤ 63
exponent_small k h = elim (dec_lt k 64) [
  | yes p ↦ omega arith
  | no p ↦ absurd (omega (arith, pow_mono 64 k (omega arith)))
]

module _ {A : Type 0} (size address bytes capacity : ℕ) {h : Header} (slots : List A)
    (word : capacity < 2 ^ 64) (opened : init size address bytes capacity ≡ some h)
    (storage : length slots ≡ capacity) where
  pub start-Inv : Inv (start h slots)
  start-Inv =
      let facts = init_header size address bytes capacity opened in
      let (k, one, e) = (is_pow2_iff capacity word).0 (facts.0) in
      let few : k ≤ 63 = exponent_small k (omega arith) in
      let small : 2 ^ k ≤ 2 ^ 63 = pow_mono k 63 few in
      let positive : 1 ≤ 2 ^ k = pow_mono 0 k (omega arith) in
      record {
        k = k;
        seen_tail = 0;
        seen_head = 0;
        words = ground arith;
        contents = record {
          storage = storage ∙ e;
          order = refl;
          live = λ i lo hi. absurd (omega arith);
        };
        room = λ e'. cc;
        placed = λ v e'. cc;
        ready = λ e'. cc;
        held = λ v e'. cc;
      }

  -- From a queue that `init` accepted, over memory with `capacity` slots, every interleaving of the
  -- two sides delivers the records in the order in which they were pushed, each once, and never
  -- holds more than `capacity` of them; the cursors may wrap any number of times.
  pub delivery_in_order :
      {s : System A}
      → Reach (start h slots) s
      → (s.popped ≡ take (length s.popped) s.pushed)
        × (length s.popped ≤ length s.pushed)
        × (length s.pushed ≤ length s.popped + capacity)
  delivery_in_order {s = s} r =
      let inv = Reach-Inv start-Inv r in
      (
        inv.contents.order,
        omega arith,
        ground (arith, Reach-capacity r, init_header size address bytes capacity opened),
      )

  -- While the producer is about to write a slot and the consumer is about to read one, the slots
  -- differ, and both lie inside the storage.
  pub slots_disjoint :
      {s : System A} (v : A)
      → Reach (start h slots) s
      → s.producer ≡ Producer.writing v
      → s.consumer ≡ Consumer.reading
      → (bit_and s.queue.head s.queue.mask ≢ bit_and s.queue.tail s.queue.mask)
        × (bit_and s.queue.head s.queue.mask < length s.queue.slots)
        × (bit_and s.queue.tail s.queue.mask < length s.queue.slots)
  slots_disjoint {s = s} v r writing reading =
      let inv = Reach-Inv start-Inv r in
      let room : length s.pushed < inv.seen_tail + 2 ^ inv.k = ground (arith, inv.room) in
      let ready : length s.popped < inv.seen_head = ground (arith, inv.ready) in
      let positive : 1 ≤ 2 ^ inv.k = pow_mono 0 inv.k (omega arith) in
      (
        rw (write_slot inv.words, read_slot inv.words)
            (λ e.
              mod-ne (length s.popped) (length s.pushed) (2 ^ inv.k) (omega arith) (omega arith)
                (sym e)),
        rw (write_slot inv.words, inv.contents.storage) (mod-lt (length s.pushed) (omega arith)),
        rw (read_slot inv.words, inv.contents.storage) (mod-lt (length s.popped) (omega arith)),
      )
