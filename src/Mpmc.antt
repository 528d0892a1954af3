-- ===== src/Mpmc.antt =====
-- `ShmRingMpmc<T>` of include/animus/shm_ipc.hpp: a bounded queue in shared memory with any number
-- of producers and consumers. `sizeof(Cell)` and `T` are fixed by the compiler, and the mapping of
-- the segment is an answer of the operating system: parameters.
pub mod System
pub mod Invariant
pub mod Frame
pub mod Push
pub mod Publish
pub mod Pop
pub mod Retire
pub mod Steps
pub mod Safety
pub mod Segment
use animus_core_v.Base.{
  ℕ, zero, suc, ◌+◌, ◌-◌, ◌*◌, ◌/◌, ◌^◌, ◌≤◌, Bool, true, false, not, ◌&&◌, ◌||◌, Option, none,
  some, List, ltb, leb, ◌==◌, if◌then◌else◌, bit_and,
}
use animus_core_v.Base.Words.{add64, sub64, mul64}
use animus_core_v.Pow2.{round_up_pow2}
use animus_core_v.Shm.{RingKind, kind_word, Payload}

-- The descriptor at the start of the segment; the cursors and the format string are left out.
pub record MpmcRingHeader : Type 0 where
  pub capacity : ℕ
  pub mask : ℕ
  pub ring_kind : ℕ
  pub schema_version_hash : ℕ
  pub payload_size : ℕ
  pub stride : ℕ
  pub ready : ℕ

-- `sizeof(MpmcRingHeader)`, `kReadyMagic` and the largest `size_t`.
abbrev pub header_bytes : ℕ
header_bytes = 256

abbrev pub ready_magic : ℕ
ready_magic = 5571037690595987015

abbrev pub size_max : ℕ
size_max = 2 ^ 64 - 1

-- The header, the sequence words of the cells being their numbers, and the size asked for.
abbrev pub lay_out : Payload → ℕ → ℕ → MpmcRingHeader × ℕ
lay_out t cell_bytes capacity = (
  record {
    capacity = capacity;
    mask = sub64 capacity 1;
    ring_kind = kind_word RingKind.mpmc;
    schema_version_hash = t.version_hash;
    payload_size = t.size;
    stride = cell_bytes;
    ready = ready_magic;
  },
  add64 header_bytes (mul64 capacity cell_bytes),
)

-- The part of `create` after the rounding; `granted` is whether the region is made.
unfoldable pub create_rounded : Payload → ℕ → ℕ → Bool → ℕ → Option (MpmcRingHeader × ℕ)
create_rounded t cell_bytes max_capacity granted capacity =
    if ltb max_capacity capacity
    then none
    else if granted
    then some (lay_out t cell_bytes capacity)
    else none

-- The outer `none` is `round_up_pow2` running on, the inner one a null pointer.
unfoldable pub create_mpmc : Payload → ℕ → ℕ → Bool → ℕ → Option (Option (MpmcRingHeader × ℕ))
create_mpmc t cell_bytes fuel granted requested =
    let floor = if ltb requested 2 then 2 else requested in
    let max_capacity = (size_max / 2 - header_bytes) / cell_bytes in
    if ltb max_capacity floor then some none else elim (round_up_pow2 fuel floor) [
      | none ↦ none
      | some capacity ↦ some (create_rounded t cell_bytes max_capacity granted capacity)
    ]

-- The checks of `open` on a region of `bytes` bytes; `none` is a region that could not be opened.
unfoldable pub open_mpmc : Payload → ℕ → Option (ℕ × MpmcRingHeader) → Bool
open_mpmc t cell_bytes none = false
open_mpmc t cell_bytes (some (bytes, h)) =
    leb header_bytes bytes
    && ((h.ready == ready_magic)
        && ((h.ring_kind == kind_word RingKind.mpmc)
            && (leb 2 h.capacity
                && ((bit_and h.capacity (sub64 h.capacity 1) == 0)
                    && ((h.mask == sub64 h.capacity 1)
                        && ((h.payload_size == t.size)
                            && ((h.stride == cell_bytes)
                                && ((h.schema_version_hash == t.version_hash)
                                    && (leb h.capacity ((size_max - header_bytes) / cell_bytes)
                                        && leb (add64 header_bytes (mul64 h.capacity cell_bytes))
                                            bytes)))))))))
