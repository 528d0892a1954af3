-- ===== src/Shm.antt =====
-- Segments and peers of include/animus/shm_ipc.hpp: what `create` of `ShmRing<T>` and `SpmcRing<T>`
-- writes into a segment, what `open` checks before it trusts one, and `peer_alive`. The mapping of
-- the segment and the liveness of a process are answers of the operating system: parameters.
pub mod Segment
pub mod Liveness
use animus_core_v.Base.{
  ℕ, ◌+◌, ◌-◌, ◌<◌, Bool, true, false, not, ◌&&◌, ◌||◌, Option, none, some, ltb, ◌==◌,
  if◌then◌else◌, bit_and,
}
use animus_core_v.Base.Words.{add64, sub64, mul64}
use animus_core_v.Pow2.{round_up_pow2}

pub data RingKind : Type 0 where
  spsc spmc_broadcast mpmc : RingKind

abbrev pub kind_word : RingKind → ℕ
kind_word RingKind.spsc = 0
kind_word RingKind.spmc_broadcast = 1
kind_word RingKind.mpmc = 2

-- The prefix that the headers share; the cursors and the format string are left out.
pub record Descriptor : Type 0 where
  pub capacity : ℕ
  pub mask : ℕ
  pub ring_kind : ℕ
  pub schema_version_hash : ℕ
  pub payload_size : ℕ
  pub stride : ℕ

-- What `T` fixes: `sizeof(T)` and the hash of its registered schema.
pub record Payload : Type 0 where
  pub size : ℕ
  pub version_hash : ℕ

-- The descriptor, and the size of the region asked for. `granted` is whether the operating system
-- makes the region; the outer `none` is `round_up_pow2` running on.
abbrev pub describe : RingKind → ℕ → Payload → Bool → Option ℕ → Option (Option (Descriptor × ℕ))
describe kind header_size t granted none = none
describe kind header_size t false (some capacity) = some none
describe kind header_size t true (some capacity) = some (
    some (
      record {
        capacity = capacity;
        mask = sub64 capacity 1;
        ring_kind = kind_word kind;
        schema_version_hash = t.version_hash;
        payload_size = t.size;
        stride = t.size;
      },
      add64 header_size (mul64 capacity t.size),
    ))

unfoldable pub create_ring :
    RingKind → ℕ → Payload → ℕ → Bool → ℕ → Option (Option (Descriptor × ℕ))
create_ring kind header_size t fuel granted requested =
    describe kind header_size t granted
      (round_up_pow2 fuel (if ltb requested 2 then 2 else requested))

-- The checks of `open`, in their order, on a region of `bytes` bytes; `none` is a region that could
-- not be opened.
unfoldable pub open_ring : RingKind → ℕ → Payload → Option (ℕ × Descriptor) → Bool
open_ring kind header_size t none = false
open_ring kind header_size t (some (bytes, d)) =
    if ltb bytes header_size
    then false
    else if not (d.ring_kind == kind_word kind)
    then false
    else if not (not (d.capacity == 0) && (bit_and d.capacity (sub64 d.capacity 1) == 0))
        || not (d.mask == sub64 d.capacity 1)
    then false
    else if not (d.payload_size == t.size)
    then false
    else if not (d.schema_version_hash == t.version_hash)
    then false
    else if ltb bytes (add64 header_size (mul64 d.capacity t.size))
    then false
    else true

-- `sizeof(RingHeader)` and `sizeof(SpmcRingHeader)`.
abbrev pub ring_header_bytes : ℕ
ring_header_bytes = 256

abbrev pub spmc_header_bytes : ℕ
spmc_header_bytes = 192

abbrev pub shm_create : Payload → ℕ → Bool → ℕ → Option (Option (Descriptor × ℕ))
shm_create = create_ring RingKind.spsc ring_header_bytes

abbrev pub shm_open : Payload → Option (ℕ × Descriptor) → Bool
shm_open = open_ring RingKind.spsc ring_header_bytes

abbrev pub spmc_create : Payload → ℕ → Bool → ℕ → Option (Option (Descriptor × ℕ))
spmc_create = create_ring RingKind.spmc_broadcast spmc_header_bytes

abbrev pub spmc_open : Payload → Option (ℕ × Descriptor) → Bool
spmc_open = open_ring RingKind.spmc_broadcast spmc_header_bytes

-- The two members by which one side watches the other.
pub record Watch : Type 0 where
  pub last_seen : ℕ
  pub stall_count : ℕ

-- `running` is the answer of the operating system for the process `pid`.
unfoldable pub peer_alive : Bool → ℕ → ℕ → ℕ → Watch → Bool × Watch
peer_alive running pid heartbeat stale_after w =
    if pid == 0
    then (true, w)
    else if not running
    then (false, w)
    else if stale_after == 0
    then (true, w)
    else if not (heartbeat == w.last_seen)
    then (true, record { last_seen = heartbeat; stall_count = 0 })
    else (ltb (add64 w.stall_count 1) stale_after, record w { stall_count = add64 w.stall_count 1 })
