-- ===== src/Spsc/System.antt =====
-- One producer and one consumer on a `Queue`, interleaved: each shared access of `try_push` and
-- `try_pop` is one step, and what each side has done so far is kept beside the queue.
use animus_core_v.Base.{◌≡◌, ◌≢◌, ◌≤◌, ◌<◌, some, List, [], ◌∷◌, ◌++◌, bit_and, get_elem?, set}
use animus_core_v.Base.Words.{add64, sub64}
use animus_core_v.Spsc.{Header, Queue, handle}

-- Where the producer stands in `try_push(value)`.
pub data Producer (A : Type 0) : Type 0 where
  idle : Producer A
  refreshed : A → Producer A  -- `cached_tail_` was reloaded
  writing : A → Producer A  -- before the slot write
  publishing : A → Producer A  -- before the store of `head`

-- Where the consumer stands in `try_pop(out)`.
pub data Consumer (A : Type 0) : Type 0 where
  idle : Consumer A
  refreshed : Consumer A  -- `cached_head_` was reloaded
  reading : Consumer A  -- before the slot read
  retiring : A → Consumer A  -- before the store of `tail`

pub record System (A : Type 0) : Type 0 where
  pub queue : Queue A
  pub producer : Producer A
  pub consumer : Consumer A
  pub pushed : List A  -- published so far, oldest first
  pub popped : List A  -- delivered so far, oldest first

abbrev pub start : {A : Type 0} → Header → List A → System A
start h slots = record {
  queue = handle h slots;
  producer = Producer.idle;
  consumer = Consumer.idle;
  pushed = [];
  popped = [];
}

module _ {A : Type 0} (s : System A) where
  open s use {queue, producer, consumer, pushed, popped}
  open queue use {header, slots, head, tail, mask, capacity, cached_tail, cached_head}

  pub data Step : System A → Type 0 where
    push_fast :
        (v : A)
        → producer ≡ Producer.idle
        → sub64 head cached_tail < capacity
        → Step (record s { producer = Producer.writing v })
    push_reload :
        (v : A)
        → producer ≡ Producer.idle
        → capacity ≤ sub64 head cached_tail
        → Step (record s {
          queue = record queue { cached_tail = tail };
          producer = Producer.refreshed v;
        })
    push_full :
        (v : A)
        → producer ≡ Producer.refreshed v
        → capacity ≤ sub64 head cached_tail
        → Step (record s { producer = Producer.idle })
    push_room :
        (v : A)
        → producer ≡ Producer.refreshed v
        → sub64 head cached_tail < capacity
        → Step (record s { producer = Producer.writing v })
    push_write :
        (v : A)
        → producer ≡ Producer.writing v
        → Step (record s {
          queue = record queue { slots = set slots (bit_and head mask) v };
          producer = Producer.publishing v;
        })
    push_publish :
        (v : A)
        → producer ≡ Producer.publishing v
        → Step (record s {
          queue = record queue { header = record header { head = add64 head 1 } };
          producer = Producer.idle;
          pushed = pushed ++ (v ∷ []);
        })
    pop_fast :
        consumer ≡ Consumer.idle
        → tail ≢ cached_head
        → Step (record s { consumer = Consumer.reading })
    pop_reload :
        consumer ≡ Consumer.idle
        → tail ≡ cached_head
        → Step (record s {
          queue = record queue { cached_head = head };
          consumer = Consumer.refreshed;
        })
    pop_empty :
        consumer ≡ Consumer.refreshed
        → tail ≡ cached_head
        → Step (record s { consumer = Consumer.idle })
    pop_some :
        consumer ≡ Consumer.refreshed
        → tail ≢ cached_head
        → Step (record s { consumer = Consumer.reading })
    pop_read :
        (v : A)
        → consumer ≡ Consumer.reading
        → get_elem? slots (bit_and tail mask) ≡ some v
        → Step (record s { consumer = Consumer.retiring v })
    pop_retire :
        (v : A)
        → consumer ≡ Consumer.retiring v
        → Step (record s {
          queue = record queue { header = record header { tail = add64 tail 1 } };
          consumer = Consumer.idle;
          popped = popped ++ (v ∷ []);
        })

-- Any number of steps, from the left.
pub data Reach {A : Type 0} (s : System A) : System A → Type 0 where
  here : Reach s s
  next : {t u : System A} → Reach s t → Step t u → Reach s u
