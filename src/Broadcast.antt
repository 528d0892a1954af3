-- ===== src/Broadcast.antt =====
-- `BroadcastRing<T>` of include/animus/broadcast_ring.hpp: one writer that overwrites freely, and
-- any number of readers with a cursor of their own that detect what they have missed. A cache line
-- has 64 bytes.
pub mod System
pub mod Invariant
pub mod Writer
pub mod Reader
pub mod Safety
use animus_core_v.Base.{
  ℕ, ◌+◌, ◌-◌, ◌%◌, ◌≤◌, Bool, true, false, not, ◌||◌, Option, none, some, ltb, leb, ◌==◌,
  if◌then◌else◌,
}
use animus_core_v.Base.Words.{add64, sub64, mul64}
use animus_core_v.Pow2.{is_pow2}
use animus_core_v.Spsc.{aligned}

pub record BroadcastHeader : Type 0 where
  pub magic : ℕ
  pub capacity : ℕ
  pub mask : ℕ
  pub payload_size : ℕ
  pub cursor : ℕ

-- `kMagic` and `sizeof(BroadcastHeader)`.
abbrev pub magic_word : ℕ
magic_word = 4778969296330244435

abbrev pub header_bytes : ℕ
header_bytes = 128

unfoldable pub required_bytes : ℕ → ℕ → ℕ
required_bytes size capacity = add64 header_bytes (mul64 capacity size)

-- Address 0 is the null pointer.
unfoldable pub init : ℕ → ℕ → ℕ → ℕ → Option BroadcastHeader
init size address bytes capacity =
    if (address == 0)
      || (not (is_pow2 capacity)
          || (not (aligned address) || ltb bytes (required_bytes size capacity)))
    then none
    else some record {
      magic = magic_word;
      capacity = capacity;
      mask = sub64 capacity 1;
      payload_size = size;
      cursor = 0;
    }

unfoldable pub attach : ℕ → ℕ → ℕ → BroadcastHeader → Bool
attach size address bytes h =
    if (address == 0) || (not (aligned address) || ltb bytes header_bytes)
    then false
    else if not (h.magic == magic_word)
        || (not (h.payload_size == size)
            || (not (is_pow2 h.capacity)
                || (not (h.mask == sub64 h.capacity 1)
                    || ltb bytes (required_bytes size h.capacity))))
    then false
    else true

-- `poll` of a reader at `read` that finds the cursor at `c`: where it goes on to read, and what it
-- then counts as dropped.
unfoldable pub snap : ℕ → ℕ → ℕ → ℕ → ℕ × ℕ
snap capacity c read dropped =
    if ltb (sub64 capacity 1) (sub64 c read)
    then (sub64 c (sub64 capacity 1), add64 dropped (sub64 (sub64 c (sub64 capacity 1)) read))
    else (read, dropped)

unfoldable pub batch : ℕ → ℕ → ℕ → ℕ
batch c read max_count =
    let avail = sub64 c read in if ltb avail max_count then avail else max_count

-- The oldest record that is intact where the cursor is found at `c2` after the copy, and how many
-- of the batch are lost.
abbrev pub oldest_intact : ℕ → ℕ → ℕ
oldest_intact c2 capacity = if leb capacity c2 then add64 (sub64 c2 capacity) 1 else 0

unfoldable pub lost : ℕ → ℕ → ℕ → ℕ → ℕ
lost c2 capacity first n =
    let oldest = oldest_intact c2 capacity in
    if ltb first oldest then (if ltb (sub64 oldest first) n then sub64 oldest first else n) else 0
