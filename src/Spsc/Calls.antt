-- ===== src/Spsc/Calls.antt =====
-- A whole call of `try_push` or `try_pop` is a run of steps, wherever the other side stands, and it
-- does to the waiting records what the bounded first-in first-out queue does.
use animus_core_v.Base.{
  ◌+◌, ◌^◌, ◌≤◌, ◌<◌, ◌≡◌, refl, ◌∙◌, Bool, true, false, Option, none, some, List, [], ◌∷◌, ◌++◌,
  bit_and, get_elem?, length, drop, arith, dec_lt, ℕ_discrete, length-drop, get_elem?-some,
  length-snoc, drop-append, drop-eq-cons, drop_all,
}
use animus_core_v.Base.Words.{sub64}
use animus_core_v.Fifo
use animus_core_v.Spsc.{Queue, try_push, try_pop}
use animus_core_v.Spsc.System.{
  Producer, Consumer, System, push_fast, push_reload, push_full, push_room, push_write,
  push_publish, pop_fast, pop_reload, pop_empty, pop_some, pop_read, pop_retire, Reach, here, next,
}
use animus_core_v.Spsc.Invariant.{Inv, read_slot, ready_of_test, waiting_of_test}

-- Pushed and not yet popped, oldest first.
abbrev pub waiting : {A : Type 0} → System A → List A
waiting s = drop (length s.popped) s.pushed

length-waiting :
    {A : Type 0} {s : System A} → Inv s → length (waiting s) + length s.popped ≡ length s.pushed
length-waiting {s = s} inv = omega (arith, length-drop (length s.popped) s.pushed)

-- What a push of `v` that began at `s` with the producer idle has come to.
pub record Pushed {A : Type 0} (s : System A) (v : A) (result : Bool) (after : Queue A)
    : Type 0 where
  pub last : System A
  pub run : Reach s last
  pub queue : last.queue ≡ after
  pub producer : last.producer ≡ Producer.idle
  pub consumer : last.consumer ≡ s.consumer
  pub popped : last.popped ≡ s.popped
  pub outcome : (result, waiting last) ≡ Fifo.offer s.queue.capacity (waiting s) v

offer_room :
    {A : Type 0} {s : System A} (inv : Inv s) (v : A)
    → length s.pushed < length s.popped + 2 ^ inv.k
    → (true, drop (length s.popped) (s.pushed ++ (v ∷ [])))
      ≡ Fifo.offer s.queue.capacity (waiting s) v
offer_room {s = s} inv v h =
    ground (arith, length-waiting inv, drop-append (length s.popped) s.pushed (v ∷ []))

offer_full :
    {A : Type 0} {s : System A} (inv : Inv s) (v : A)
    → length s.popped + 2 ^ inv.k ≤ length s.pushed
    → (false, waiting s) ≡ Fifo.offer s.queue.capacity (waiting s) v
offer_full inv v h = ground (arith, length-waiting inv)

-- `try_push` by an idle producer is a run of steps of the interleaved system that ends with the
-- producer idle and leaves the consumer where it stands. It returns `true` and appends the record
-- where fewer than `capacity` records wait, and returns `false` and changes no waiting record else.
pub try_push_refines :
    {A : Type 0} {s : System A} (v : A)
    → Inv s
    → s.producer ≡ Producer.idle
    → Pushed s v (try_push s.queue v).0 (try_push s.queue v).1
unfolding try_push
try_push_refines {s = s} v inv e =
    elim (dec_lt (sub64 s.queue.head s.queue.cached_tail) s.queue.capacity) [
      | yes lt ↦ record {
        last = _;
        run = next (next (next here (push_fast v e lt)) (push_write v refl)) (push_publish v refl);
        queue = ground arith;
        producer = refl;
        consumer = refl;
        popped = refl;
        outcome = ground (arith, offer_room inv v);
      }
      | no ge ↦ elim (dec_lt (sub64 s.queue.head s.queue.tail) s.queue.capacity) [
        | yes lt ↦ record {
          last = _;
          run =
              next
                (next (next (next here (push_reload v e (omega arith))) (push_room v refl lt))
                  (push_write v refl))
                (push_publish v refl);
          queue = ground arith;
          producer = refl;
          consumer = refl;
          popped = refl;
          outcome = ground (arith, offer_room inv v);
        }
        | no ge' ↦ record {
          last = _;
          run = next (next here (push_reload v e (omega arith))) (push_full v refl (omega arith));
          queue = ground arith;
          producer = refl;
          consumer = refl;
          popped = refl;
          outcome = ground (arith, offer_full inv v);
        }
      ]
    ]

-- What a pop that began at `s` with the consumer idle has come to.
pub record Popped {A : Type 0} (s : System A) (result : Bool) (out : Option A) (after : Queue A)
    : Type 0 where
  pub last : System A
  pub run : Reach s last
  pub queue : last.queue ≡ after
  pub consumer : last.consumer ≡ Consumer.idle
  pub producer : last.producer ≡ s.producer
  pub pushed : last.pushed ≡ s.pushed
  pub outcome : (result, out, waiting last) ≡ Fifo.poll (waiting s)

-- The record under the read cursor, while a record waits.
front :
    {A : Type 0} {s : System A} (inv : Inv s)
    → length s.popped < length s.pushed
    → (v : A) × (get_elem? s.queue.slots (bit_and s.queue.tail s.queue.mask) ≡ some v)
      × (get_elem? s.pushed (length s.popped) ≡ some v)
front {s = s} inv h =
    let (v, e) = get_elem?-some s.pushed (length s.popped) h in
    (v, rw (read_slot inv.words) (inv.contents.live (length s.popped) (omega arith) h ∙ e), e)

poll_front :
    {A : Type 0} (s : System A) (v : A)
    → get_elem? s.pushed (length s.popped) ≡ some v
    → (true, some v, drop (length (s.popped ++ (v ∷ []))) s.pushed) ≡ Fifo.poll (waiting s)
poll_front s v e = rw (length-snoc s.popped v, drop-eq-cons (length s.popped) s.pushed e)

poll-none :
    {A : Type 0} (s : System A)
    → length s.pushed ≤ length s.popped
    → (false, none, waiting s) ≡ Fifo.poll (waiting s)
poll-none s h = rw (drop_all (length s.popped) s.pushed h)

-- `try_pop` by an idle consumer is a run of steps that ends with the consumer idle and leaves the
-- producer where it stands. It returns `true` with the oldest waiting record and removes that one,
-- and returns `false` where none waits.
pub try_pop_refines :
    {A : Type 0} {s : System A}
    → Inv s
    → s.consumer ≡ Consumer.idle
    → Popped s (try_pop s.queue).0 (try_pop s.queue).1 (try_pop s.queue).2
unfolding try_pop
try_pop_refines {s = s} inv e = elim (ℕ_discrete s.queue.tail s.queue.cached_head) [
  | yes eq ↦ elim (ℕ_discrete s.queue.tail s.queue.head) [
    | yes eq' ↦ record {
      last = _;
      run = next (next here (pop_reload e eq)) (pop_empty refl eq');
      queue = ground arith;
      consumer = refl;
      producer = refl;
      pushed = refl;
      outcome = ground (arith, poll-none s (omega arith));
    }
    | no ne' ↦
        let (v, got, e') = front inv (waiting_of_test inv ne') in
        record {
          last = _;
          run =
              next
                (next (next (next here (pop_reload e eq)) (pop_some refl ne'))
                  (pop_read v refl got))
                (pop_retire v refl);
          queue = ground arith;
          consumer = refl;
          producer = refl;
          pushed = refl;
          outcome = ground (arith, poll_front s v e');
        }
  ]
  | no ne ↦
      let (v, got, e') = front inv (omega (arith, ready_of_test inv ne)) in
      record {
        last = _;
        run = next (next (next here (pop_fast e ne)) (pop_read v refl got)) (pop_retire v refl);
        queue = ground arith;
        consumer = refl;
        producer = refl;
        pushed = refl;
        outcome = ground (arith, poll_front s v e');
      }
]
