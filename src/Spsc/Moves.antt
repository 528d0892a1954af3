-- ===== src/Spsc/Moves.antt =====
-- Every step of `try_push` and `try_pop` keeps the invariant of a `System`.
use native.Mathlib.Nat.{one-le-pow, mod-lt}
use animus_core_v.Base.{
  ℕ, ◌+◌, ◌%◌, ◌^◌, ◌≤◌, ◌<◌, ◌≡◌, ◌≢◌, refl, ap, sym, ◌∙◌, true, some, List, [], ◌∷◌, ◌++◌,
  bit_and, get_elem?, set, length, take, arith, length-snoc, length-set, get_elem?-set_self,
  get_elem?-set_ne, get_elem?-snoc_old, get_elem?-snoc_new, take-append, take-snoc, dec_lt,
}
use animus_core_v.Base.Words.{add64}
use animus_core_v.Base.Bits.{mod-ne}
use animus_core_v.Spsc.System.{
  Producer, Consumer, System, Step, push_fast, push_reload, push_full, push_room, push_write,
  push_publish, pop_fast, pop_reload, pop_empty, pop_some, pop_read, pop_retire, Reach, here, next,
}
use animus_core_v.Spsc.Invariant.{
  Inv, producing, consuming, write_slot, read_slot, room_of_test, ready_of_test,
}

-- A step that moves the producer and touches nothing shared.
move_producer :
    {A : Type 0} {s : System A} (inv : Inv s) (p : Producer A)
    → (producing p ≡ true → length s.pushed < inv.seen_tail + 2 ^ inv.k)
    → ((v : A) → p ≢ Producer.publishing v)
    → Inv (record s { producer = p })
move_producer inv p room unplaced = record {
  k = inv.k;
  seen_tail = inv.seen_tail;
  seen_head = inv.seen_head;
  words = inv.words;
  contents = inv.contents;
  room = room;
  placed = λ v e. absurd (unplaced v e);
  ready = inv.ready;
  held = inv.held;
}

move_consumer :
    {A : Type 0} {s : System A} (inv : Inv s) (c : Consumer A)
    → (consuming c ≡ true → length s.popped < inv.seen_head)
    → ((v : A) → c ≡ Consumer.retiring v → get_elem? s.pushed (length s.popped) ≡ some v)
    → Inv (record s { consumer = c })
move_consumer inv c ready held = record {
  k = inv.k;
  seen_tail = inv.seen_tail;
  seen_head = inv.seen_head;
  words = inv.words;
  contents = inv.contents;
  room = inv.room;
  placed = inv.placed;
  ready = ready;
  held = held;
}

reload_tail :
    {A : Type 0} {s : System A} (inv : Inv s) (v : A)
    → Inv (record s {
      queue = record (s.queue) { cached_tail = s.queue.tail };
      producer = Producer.refreshed v;
    })
reload_tail {s = s} inv v = record {
  k = inv.k;
  seen_tail = length s.popped;
  seen_head = inv.seen_head;
  words = ground arith;
  contents = inv.contents;
  room = λ e. cc;
  placed = λ v' e. cc;
  ready = inv.ready;
  held = inv.held;
}

reload_head :
    {A : Type 0} {s : System A} (inv : Inv s)
    → Inv (record s {
      queue = record (s.queue) { cached_head = s.queue.head };
      consumer = Consumer.refreshed;
    })
reload_head {s = s} inv = record {
  k = inv.k;
  seen_tail = inv.seen_tail;
  seen_head = length s.pushed;
  words = ground arith;
  contents = inv.contents;
  room = inv.room;
  placed = inv.placed;
  ready = λ e. cc;
  held = λ v e. cc;
}

slot_write :
    {A : Type 0} {s : System A} (inv : Inv s) (v : A)
    → length s.pushed < inv.seen_tail + 2 ^ inv.k
    → Inv (record s {
      queue = record (s.queue) { slots = set s.queue.slots (bit_and s.queue.head s.queue.mask) v };
      producer = Producer.publishing v;
    })
slot_write {A} {s = s} inv v room = record {
  k = inv.k;
  seen_tail = inv.seen_tail;
  seen_head = inv.seen_head;
  words = record {
    few = few;
    small = small;
    capacity = capacity;
    mask = mask;
    head = head;
    tail = tail;
    cached_tail = cached_tail;
    cached_head = cached_head;
    tail_seen = tail_seen;
    head_reached = head_reached;
    head_seen = head_seen;
    bounded = bounded;
  };
  contents = record {
    storage = length-set slots (bit_and s.queue.head s.queue.mask) v ∙ inv.contents.storage;
    order = inv.contents.order;
    live = λ i lo hi. rw (write_slot inv.words) (
        get_elem?-set_ne slots v
          (λ e. mod-ne i (length s.pushed) (2 ^ inv.k) hi (omega arith) (sym e))
        ∙ inv.contents.live i lo hi);
  };
  room = λ e. room;
  placed = λ v' e. rw (write_slot inv.words) (
      get_elem?-set_self slots (length s.pushed % 2 ^ inv.k) v
        (omega (arith, one-le-pow inv.k 2, mod-lt (length s.pushed) {m = 2 ^ inv.k}))
      ∙ ground arith);
  ready = inv.ready;
  held = inv.held;
}
  where
    slots : List A
    slots = s.queue.slots

    open (inv.words) use {
      few, small, capacity, mask, head, tail, cached_tail, cached_head, tail_seen, head_reached,
      head_seen, bounded,
    }

publish :
    {A : Type 0} {s : System A} (inv : Inv s) (v : A)
    → s.producer ≡ Producer.publishing v
    → Inv (record s {
      queue = record (s.queue) { header = record (s.queue.header) { head = add64 s.queue.head 1 } };
      producer = Producer.idle;
      pushed = s.pushed ++ (v ∷ []);
    })
publish {s = s} inv v e = record {
  k = inv.k;
  seen_tail = inv.seen_tail;
  seen_head = inv.seen_head;
  words = ground (arith, length-snoc s.pushed v, inv.room);
  contents = record {
    storage = inv.contents.storage;
    order =
        inv.contents.order ∙ sym (take-append (length s.popped) s.pushed (v ∷ []) (omega arith));
    live = λ i lo hi. live i lo hi;
  };
  room = λ e'. cc;
  placed = λ v' e'. cc;
  ready = inv.ready;
  held = λ v' e'.
      get_elem?-snoc_old s.pushed v (length s.popped) (ground (arith, inv.ready)) ∙ inv.held v' e';
}
  where
    live :
        (i : ℕ)
        → length s.popped ≤ i
        → i < length (s.pushed ++ (v ∷ []))
        → get_elem? s.queue.slots (i % 2 ^ inv.k) ≡ get_elem? (s.pushed ++ (v ∷ [])) i
    live i lo hi = elim (dec_lt i (length s.pushed)) [
      | yes old ↦ inv.contents.live i lo old ∙ sym (get_elem?-snoc_old s.pushed v i old)
      | no new ↦
          let last : i ≡ length s.pushed = omega (arith, length-snoc s.pushed v) in
          rw last (inv.placed v e ∙ sym (get_elem?-snoc_new s.pushed v (length s.pushed) refl))
    ]

slot_read :
    {A : Type 0} {s : System A} (inv : Inv s) (v : A)
    → length s.popped < inv.seen_head
    → get_elem? s.queue.slots (bit_and s.queue.tail s.queue.mask) ≡ some v
    → get_elem? s.pushed (length s.popped) ≡ some v
slot_read {s = s} inv v ready e =
    sym (inv.contents.live (length s.popped) (omega arith) (omega arith))
    ∙ (rw (read_slot inv.words) at e)

retired :
    {A : Type 0} {s : System A} (inv : Inv s) (v : A)
    → s.consumer ≡ Consumer.retiring v
    → Inv (record s {
      queue = record (s.queue) { header = record (s.queue.header) { tail = add64 s.queue.tail 1 } };
      consumer = Consumer.idle;
      popped = s.popped ++ (v ∷ []);
    })
retired {A} {s = s} inv v e = record {
  k = inv.k;
  seen_tail = inv.seen_tail;
  seen_head = inv.seen_head;
  words = ground (arith, length-snoc s.popped v, inv.ready);
  contents = record {
    storage = inv.contents.storage;
    order =
        ap (λ (l : List A). l ++ (v ∷ [])) inv.contents.order
        ∙ sym (take-snoc (length s.popped) s.pushed (inv.held v e))
        ∙ ap (λ (n : ℕ). take n s.pushed) (sym (length-snoc s.popped v));
    live = λ i lo hi. inv.contents.live i (omega (arith, length-snoc s.popped v)) hi;
  };
  room = inv.room;
  placed = inv.placed;
  ready = λ e'. cc;
  held = λ v' e'. cc;
}

-- Every step keeps the invariant.
pub Step-Inv : {A : Type 0} {s t : System A} → Step s t → Inv s → Inv t
Step-Inv (push_fast v e lt) inv = move_producer inv _ (λ _. room_of_test inv lt) (λ v' e'. cc)
Step-Inv (push_reload v e ge) inv = reload_tail inv v
Step-Inv (push_full v e ge) inv = move_producer inv _ (λ e'. cc) (λ v' e'. cc)
Step-Inv (push_room v e lt) inv = move_producer inv _ (λ _. room_of_test inv lt) (λ v' e'. cc)
Step-Inv (push_write v e) inv = slot_write inv v (ground (arith, inv.room))
Step-Inv (push_publish v e) inv = publish inv v e
Step-Inv (pop_fast e ne) inv = move_consumer inv _ (λ _. ready_of_test inv ne) (λ v' e'. cc)
Step-Inv (pop_reload e eq) inv = reload_head inv
Step-Inv (pop_empty e eq) inv = move_consumer inv _ (λ e'. cc) (λ v' e'. cc)
Step-Inv (pop_some e ne) inv = move_consumer inv _ (λ _. ready_of_test inv ne) (λ v' e'. cc)
Step-Inv {s = s} (pop_read v e got) inv =
    let ready : length s.popped < inv.seen_head = ground (arith, inv.ready) in
    move_consumer inv _ (λ _. ready) (λ v' e'. slot_read inv v ready got ∙ ground arith)
Step-Inv (pop_retire v e) inv = retired inv v e

pub Reach-Inv : {A : Type 0} {s t : System A} → Inv s → Reach s t → Inv t
Reach-Inv inv here = inv
Reach-Inv inv (next r st) = Step-Inv st (Reach-Inv inv r)
