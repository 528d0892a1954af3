-- ===== src/Examples/Queues.antt =====
-- Concrete runs of the rings: include/animus/spsc_queue.hpp, include/animus/shm_ipc.hpp, and
-- `LockFreeRingBuffer` of AnimusCore_v1/animus.hpp.
use animus_core_v.Base.{
  ℕ, ◌+◌, ◌^◌, ◌≤◌, ◌≡◌, ◌≢◌, refl, true, none, some, List, [], ◌∷◌, arith, length, take, ◌⊎◌,
}
use animus_core_v.Fifo
use animus_core_v.Pow2.{round_up_pow2, is_pow2}
use animus_core_v.Pow2.Laws.{Rounded, round_up_pow2_diverges}
use animus_core_v.Spsc.{
  Header, init, attach, required_bytes, aligned, magic_word, header_bytes, try_push, try_pop,
}
use animus_core_v.Spsc.System.{
  System, Reach, here, next, start, push_fast, push_write, push_publish, pop_reload, pop_some,
}
use animus_core_v.Spsc.Invariant.{Inv}
use animus_core_v.Spsc.Moves.{Reach-Inv}
use animus_core_v.Spsc.Safety.{start-Inv, delivery_in_order}
use animus_core_v.Spsc.Calls.{Pushed, Popped, try_push_refines, try_pop_refines}
use animus_core_v.Spsc.Setup.{IsMapped, attach-IsMapped, init_accepts_wrapped}
use animus_core_v.LockFree.{Ring, Outcome, create, push, pop}
use animus_core_v.LockFree.Refine.{Holds, push_refines, pop_refines}
use animus_core_v.LockFree.Create.{create-Holds}
use animus_core_v.LockFree.Single.{single_cell_overwrites}

round_up_pow2_diverges_example : round_up_pow2 100 (2 ^ 63 + 1) ≡ none
round_up_pow2_diverges_example = round_up_pow2_diverges (2 ^ 63 + 1) 100 (omega arith)

-- A queue of two 8-byte records at address 64, and a producer that has pushed 7 and is about to
-- write 8 while the consumer is about to read.
abbrev two_slots : Header
two_slots = record {
  magic = magic_word;
  capacity = 2;
  mask = 1;
  payload_size = 8;
  head = 0;
  tail = 0;
}

opened : init 8 64 208 2 ≡ some two_slots
unfolding init required_bytes aligned is_pow2
opened = refl

abbrev blank_slots : List ℕ
blank_slots = 0 ∷ 0 ∷ []

abbrev pushed_one : (s : System ℕ) × Reach (start two_slots blank_slots) s
pushed_one = (
  _,
  next (next (next here (push_fast 7 refl (omega arith))) (push_write 7 refl))
      (push_publish 7 refl),
)

abbrev both_busy : (s : System ℕ) × Reach (start two_slots blank_slots) s
both_busy = (
  _,
  next (next (next (pushed_one.1) (push_fast 8 refl (omega arith))) (pop_reload refl refl))
      (pop_some refl (λ e. omega arith)),
)

delivery_in_order_example :
    (both_busy.0.popped ≡ take (length both_busy.0.popped) both_busy.0.pushed)
    × (length both_busy.0.popped ≤ length both_busy.0.pushed)
    × (length both_busy.0.pushed ≤ length both_busy.0.popped + 2)
delivery_in_order_example =
    delivery_in_order 8 64 208 2 blank_slots (omega arith) opened refl both_busy.1

pushed_one-Inv : Inv pushed_one.0
pushed_one-Inv = Reach-Inv (start-Inv 8 64 208 2 blank_slots (omega arith) opened refl) pushed_one.1

try_push_refines_example :
    Pushed pushed_one.0 9 (try_push pushed_one.0.queue 9).0 (try_push pushed_one.0.queue 9).1
try_push_refines_example = try_push_refines 9 pushed_one-Inv refl

try_pop_refines_example :
    Popped pushed_one.0
      (try_pop pushed_one.0.queue).0
      (try_pop pushed_one.0.queue).1
      (try_pop pushed_one.0.queue).2
try_pop_refines_example = try_pop_refines pushed_one-Inv refl

accepted_header : attach 8 64 208 two_slots ≡ true
unfolding attach required_bytes aligned is_pow2
accepted_header = refl

attach-IsMapped_example : IsMapped 8 208 two_slots
attach-IsMapped_example =
    attach-IsMapped 8 64 208 two_slots (omega arith) (omega arith) accepted_header

aligned_64 : aligned 64 ≡ true
unfolding aligned
aligned_64 = refl

init_accepts_wrapped_example : init (2 ^ 3) 64 header_bytes (2 ^ 61) ≢ none
init_accepts_wrapped_example =
    init_accepts_wrapped 61 3 64 refl (omega arith) (omega arith) (λ e. omega arith) aligned_64

abbrev fresh_ring : (r : Ring ℕ) × (k : ℕ) × (create 0 64 2 ≡ some r) × Holds k 0 [] r × Rounded 2 k
fresh_ring = create-Holds 0 2 (omega arith) (omega arith)

abbrev one_waiting : List ℕ
one_waiting = (Fifo.offer {A = ℕ} (2 ^ fresh_ring.1) [] 7).1

abbrev loaded_ring :
    (r' : Ring ℕ) × (push 1 fresh_ring.0 7
      ≡ Outcome.done ((Fifo.offer {A = ℕ} (2 ^ fresh_ring.1) [] 7).0, r'))
    × Holds fresh_ring.1 0 one_waiting r'
loaded_ring = push_refines fresh_ring.3 0 7

push_refines_example :
    (r' : Ring ℕ) × (push 1 loaded_ring.0 8
      ≡ Outcome.done ((Fifo.offer (2 ^ fresh_ring.1) one_waiting 8).0, r'))
    × Holds fresh_ring.1 0 (Fifo.offer (2 ^ fresh_ring.1) one_waiting 8).1 r'
push_refines_example = push_refines loaded_ring.2 0 8

pop_refines_example :
    (r' : Ring ℕ) × (pop 1 loaded_ring.0
      ≡ Outcome.done ((Fifo.poll one_waiting).0, (Fifo.poll one_waiting).1, r'))
    × ((d' : ℕ) × Holds fresh_ring.1 d' (Fifo.poll one_waiting).2 r'
        × (((one_waiting ≡ []) × (r' ≡ loaded_ring.0)) ⊎ ((one_waiting ≢ []) × (d' ≡ 1))))
pop_refines_example = pop_refines loaded_ring.2 0

lone_created : (r : Ring ℕ) × (create 0 1 1 ≡ some r)
unfolding create round_up_pow2
lone_created = (_, refl)

single_cell_overwrites_example :
    (a b : Ring ℕ) × (push 1 lone_created.0 7 ≡ Outcome.done (true, a))
    × (push 1 a 8 ≡ Outcome.done (true, b))
    × (a.cells ≡ record { sequence = 1; value = 7 } ∷ [])
    × (b.cells ≡ record { sequence = 2; value = 8 } ∷ [])
    × ((fuel : ℕ) → pop fuel b ≡ Outcome.spinning)
single_cell_overwrites_example = single_cell_overwrites 0 7 8 0 0 1 (omega arith) lone_created.1
