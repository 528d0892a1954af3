-- ===== src/Spsc/Invariant.antt =====
-- What holds between two steps of a `System`: how the wrapping words stand for running counts, and
-- which slots hold which records.
use animus_core_v.Base.{
  ℕ, ◌+◌, ◌-◌, ◌%◌, ◌^◌, ◌≤◌, ◌<◌, ◌≡◌, ◌≢◌, ap, sym, ◌∙◌, Bool, true, false, some, List, bit_and,
  get_elem?, length, take, arith, dec_lt,
}
use animus_core_v.Base.Words.{u64, sub64}
use animus_core_v.Base.Bits.{masked_count}
use animus_core_v.Spsc.{Queue}
use animus_core_v.Spsc.System.{Producer, Consumer, System}

-- The shared words and the two caches, against the histories. `seen_tail` and `seen_head` are the
-- counts that the caches stand for.
pub record Words {A : Type 0} (k seen_tail seen_head : ℕ) (q : Queue A) (pushed popped : List A)
    : Type 0 where
  pub few : k ≤ 63
  pub small : 2 ^ k ≤ 2 ^ 63
  pub capacity : q.capacity ≡ 2 ^ k
  pub mask : q.mask ≡ 2 ^ k - 1
  pub head : q.head ≡ u64 (length pushed)
  pub tail : q.tail ≡ u64 (length popped)
  pub cached_tail : q.cached_tail ≡ u64 seen_tail
  pub cached_head : q.cached_head ≡ u64 seen_head
  pub tail_seen : seen_tail ≤ length popped
  pub head_reached : length popped ≤ seen_head
  pub head_seen : seen_head ≤ length pushed
  pub bounded : length pushed ≤ seen_tail + 2 ^ k

pub record Contents {A : Type 0} (k : ℕ) (slots pushed popped : List A) : Type 0 where
  pub storage : length slots ≡ 2 ^ k
  pub order : popped ≡ take (length popped) pushed
  pub live :
      (i : ℕ)
      → length popped ≤ i
      → i < length pushed
      → get_elem? slots (i % 2 ^ k) ≡ get_elem? pushed i

abbrev pub producing : {A : Type 0} → Producer A → Bool
producing (Producer.writing v) = true
producing (Producer.publishing v) = true
producing _ = false

abbrev pub consuming : {A : Type 0} → Consumer A → Bool
consuming Consumer.reading = true
consuming (Consumer.retiring v) = true
consuming _ = false

pub record Inv {A : Type 0} (s : System A) : Type 0 where
  pub k : ℕ
  pub seen_tail : ℕ
  pub seen_head : ℕ
  pub words : Words k seen_tail seen_head s.queue s.pushed s.popped
  pub contents : Contents k s.queue.slots s.pushed s.popped
  pub room : producing s.producer ≡ true → length s.pushed < seen_tail + 2 ^ k
  pub placed :
      (v : A)
      → s.producer ≡ Producer.publishing v
      → get_elem? s.queue.slots (length s.pushed % 2 ^ k) ≡ some v
  pub ready : consuming s.consumer ≡ true → length s.popped < seen_head
  pub held :
      (v : A) → s.consumer ≡ Consumer.retiring v → get_elem? s.pushed (length s.popped) ≡ some v

module _ {A : Type 0} {k ct ch : ℕ} {q : Queue A} {pushed popped : List A}
    (w : Words k ct ch q pushed popped) where
  pub write_slot : bit_and q.head q.mask ≡ length pushed % 2 ^ k
  write_slot = rw (w.head, w.mask) (masked_count k (length pushed) (omega arith))

  pub read_slot : bit_and q.tail q.mask ≡ length popped % 2 ^ k
  read_slot = rw (w.tail, w.mask) (masked_count k (length popped) (omega arith))

-- Fewer than `capacity` by the word test is fewer by the counts.
pub room_of_test :
    {A : Type 0} {s : System A} (inv : Inv s)
    → sub64 s.queue.head s.queue.cached_tail < s.queue.capacity
    → length s.pushed < inv.seen_tail + 2 ^ inv.k
room_of_test inv h = omega arith

-- Different cursor words are different counts.
pub ready_of_test :
    {A : Type 0} {s : System A} (inv : Inv s)
    → s.queue.tail ≢ s.queue.cached_head
    → length s.popped < inv.seen_head
ready_of_test {s = s} inv h = elim (dec_lt (length s.popped) inv.seen_head) [
  | yes p ↦ p
  | no p ↦
      let e : length s.popped ≡ inv.seen_head = omega arith in
      absurd (h (inv.words.tail ∙ ap u64 e ∙ sym inv.words.cached_head))
]

pub waiting_of_test :
    {A : Type 0} {s : System A} (inv : Inv s)
    → s.queue.tail ≢ s.queue.head
    → length s.popped < length s.pushed
waiting_of_test {s = s} inv h = elim (dec_lt (length s.popped) (length s.pushed)) [
  | yes p ↦ p
  | no p ↦
      let e : length s.popped ≡ length s.pushed = omega arith in
      absurd (h (inv.words.tail ∙ ap u64 e ∙ sym inv.words.head))
]
