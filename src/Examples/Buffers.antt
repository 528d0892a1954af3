-- ===== src/Examples/Buffers.antt =====
-- A concrete `SpscRingBuffer<T>` of AnimusCore_v1/animus.hpp.
use animus_core_v.Base.{ℕ, ◌^◌, ◌≡◌, some, [], arith, ◌⊎◌, ◌≢◌}
use animus_core_v.Fifo
use animus_core_v.Pow2.Laws.{Rounded}
use animus_core_v.Local.{Buffer, new_buffer, push_local, pop_local}
use animus_core_v.Local.Refine.{Stores, push_local-offer, pop_local-poll, new_buffer-Stores}

abbrev two_cells :
    (r : Buffer ℕ) × (k : ℕ) × (new_buffer 0 64 2 ≡ some r) × Stores k 0 [] r × Rounded 2 k
two_cells = new_buffer-Stores 0 2 (omega arith)

push_local-offer_example :
    ((push_local two_cells.0 7).0 ≡ (Fifo.offer {A = ℕ} (2 ^ two_cells.1) [] 7).0)
    × Stores two_cells.1 0
        (Fifo.offer {A = ℕ} (2 ^ two_cells.1) [] 7).1
        (push_local two_cells.0 7).1
push_local-offer_example = push_local-offer two_cells.3 7

abbrev one_stored :
    ((push_local two_cells.0 7).0 ≡ (Fifo.offer {A = ℕ} (2 ^ two_cells.1) [] 7).0)
    × Stores two_cells.1 0
        (Fifo.offer {A = ℕ} (2 ^ two_cells.1) [] 7).1
        (push_local two_cells.0 7).1
one_stored = push_local-offer two_cells.3 7

pop_local-poll_example :
    ((pop_local (push_local two_cells.0 7).1).0
      ≡ (Fifo.poll (Fifo.offer {A = ℕ} (2 ^ two_cells.1) [] 7).1).0)
    × ((pop_local (push_local two_cells.0 7).1).1
        ≡ (Fifo.poll (Fifo.offer {A = ℕ} (2 ^ two_cells.1) [] 7).1).1)
    × ((d' : ℕ) × Stores two_cells.1 d'
          (Fifo.poll (Fifo.offer {A = ℕ} (2 ^ two_cells.1) [] 7).1).2
          (pop_local (push_local two_cells.0 7).1).2
        × ((((Fifo.offer {A = ℕ} (2 ^ two_cells.1) [] 7).1 ≡ [])
              × ((pop_local (push_local two_cells.0 7).1).2 ≡ (push_local two_cells.0 7).1))
            ⊎ (((Fifo.offer {A = ℕ} (2 ^ two_cells.1) [] 7).1 ≢ []) × (d' ≡ 1))))
pop_local-poll_example = pop_local-poll one_stored.1
