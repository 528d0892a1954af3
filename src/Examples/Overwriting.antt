-- ===== src/Examples/Overwriting.antt =====
-- A concrete `ShmRing<T>` of include/animus/shm_ipc.hpp, full from the start.
use animus_core_v.Base.{
  ℕ, ◌+◌, ◌%◌, ◌^◌, ◌≡◌, refl, zero, suc, some, List, [], ◌∷◌, get_elem?, arith, ltb, if◌then◌else◌,
  ◌⊎◌, ◌≢◌,
}
use animus_core_v.Base.Words.{add64}
use animus_core_v.Fifo
use animus_core_v.Overwrite.{ShmRing, push_overwrite, try_pop_shm}
use animus_core_v.Overwrite.Refine.{
  Keeps, replace_oldest, push_overwrite-replaces, try_pop_shm-poll,
}

abbrev full_ring : ShmRing ℕ
full_ring = record {
  capacity = 2;
  mask = 1;
  slots = 5 ∷ 6 ∷ [];
  head = 2;
  tail = 0;
  dropped_count = 0;
  write_seq = 0;
  overwrite_active = 0;
}

abbrev both : List ℕ
both = 5 ∷ 6 ∷ []

full_used : (i a : ℕ) → get_elem? both i ≡ some a → get_elem? both (i % 2) ≡ some a
full_used zero a e = e
full_used (suc zero) a e = e
full_used (suc (suc i)) a e = absurd (cc)

full_Keeps : Keeps 1 0 both full_ring
full_Keeps = record {
  few = omega arith;
  capacity = refl;
  mask = refl;
  head = refl;
  tail = refl;
  fits = omega arith;
  storage = refl;
  intact = omega arith;
  used = λ i a e. let same : 0 + i ≡ i = omega arith in rw same (full_used i a e);
}

push_overwrite-replaces_example :
    ((d' : ℕ) × Keeps 1 d' (replace_oldest (2 ^ 1) both 7) (push_overwrite full_ring 7))
    × ((push_overwrite full_ring 7).dropped_count ≡ (if ltb 2 (2 ^ 1) then 0 else add64 0 1))
push_overwrite-replaces_example = push_overwrite-replaces full_Keeps (omega arith) 7

try_pop_shm-poll_example :
    ((try_pop_shm full_ring).0 ≡ (Fifo.poll both).0)
    × ((try_pop_shm full_ring).1 ≡ (Fifo.poll both).1)
    × ((d' : ℕ) × Keeps 1 d' (Fifo.poll both).2 (try_pop_shm full_ring).2
        × (((both ≡ []) × ((try_pop_shm full_ring).2 ≡ full_ring))
            ⊎ ((both ≢ [])
                × (d' ≡ 1)
                × ((try_pop_shm full_ring).2 ≡ record full_ring { tail = 1 }))))
try_pop_shm-poll_example = try_pop_shm-poll full_Keeps (omega arith)
