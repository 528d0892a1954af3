-- ===== src/Examples/Segments.antt =====
-- A concrete segment and a concrete peer of include/animus/shm_ipc.hpp.
use animus_core_v.Base.{
  ℕ, ◌+◌, ◌*◌, ◌^◌, ◌≤◌, ◌<◌, ◌≡◌, ◌≢◌, ◌⊎◌, none, refl, true, some, arith, ltb,
}
use animus_core_v.Pow2.Laws.{Rounded}
use animus_core_v.Shm.{
  RingKind, Descriptor, Payload, open_ring, ring_header_bytes, Watch, peer_alive,
}
use animus_core_v.Mpmc.{MpmcRingHeader, create_mpmc, open_mpmc, ready_magic}
use animus_core_v.Mpmc.Segment.{Attached, open_mpmc-Attached, create_mpmc-open}
use animus_core_v.Shm.Segment.{Trusted, open_ring-Trusted}
use animus_core_v.Shm.Liveness.{watching, silent_peer}

abbrev tick : Payload
tick = record { size = 64; version_hash = 12345 }

abbrev four_ticks : Descriptor
four_ticks = record {
  capacity = 4;
  mask = 3;
  ring_kind = 0;
  schema_version_hash = 12345;
  payload_size = 64;
  stride = 64;
}

opened_ticks : open_ring RingKind.spsc ring_header_bytes tick (some (4096, four_ticks)) ≡ true
unfolding open_ring
opened_ticks = refl

open_ring-Trusted_example : Trusted RingKind.spsc ring_header_bytes tick 4096 four_ticks
open_ring-Trusted_example =
    open_ring-Trusted RingKind.spsc ring_header_bytes tick 4096 four_ticks (omega arith)
      (omega arith) opened_ticks

abbrev fresh_watch : Watch
fresh_watch = record { last_seen = 9; stall_count = 0 }

silent_peer_example :
    ((peer_alive true 700 9 3 (watching 2 700 9 3 fresh_watch)).0 ≡ ltb (2 + 1) 3)
    × ((moved : ℕ)
        → moved ≢ 9
        → peer_alive true 700 moved 3 (watching 2 700 9 3 fresh_watch)
          ≡ (true, record { last_seen = moved; stall_count = 0 }))
silent_peer_example =
    silent_peer 2 700 9 3 fresh_watch (omega arith) (omega arith) refl refl (omega arith)

-- A ring of 1000 cells of 64 bytes for records of 24 bytes.
abbrev shared_record : Payload
shared_record = record { size = 24; version_hash = 9 }

create_mpmc-open_example :
    (create_mpmc shared_record 64 64 true 1000 ≡ some none)
    ⊎ ((k : ℕ) × (h : MpmcRingHeader) × (total : ℕ) × (create_mpmc shared_record 64 64 true 1000
          ≡ some (some (h, total)))
        × Rounded 1000 k
        × (h.capacity ≡ 2 ^ k)
        × (total ≡ 256 + 2 ^ k * 64)
        × (total < 2 ^ 63)
        × ((bytes : ℕ) → total ≤ bytes → open_mpmc shared_record 64 (some (bytes, h)) ≡ true))
create_mpmc-open_example = create_mpmc-open shared_record 64 1000 (omega arith)

abbrev two_cells : MpmcRingHeader
two_cells = record {
  capacity = 2;
  mask = 1;
  ring_kind = 2;
  schema_version_hash = 9;
  payload_size = 24;
  stride = 64;
  ready = ready_magic;
}

open_mpmc-Attached_example : Attached shared_record 64 4096 two_cells
unfolding open_mpmc
open_mpmc-Attached_example =
    open_mpmc-Attached shared_record 64 4096 two_cells (omega arith) (omega arith) refl
