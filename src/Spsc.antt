-- ===== src/Spsc.antt =====
-- include/animus/spsc_queue.hpp: the lossless queue of one producer and one consumer in caller
-- memory. A handle is a `Queue`: the header words and the slots are shared, the two cached cursors
-- belong to one side each. `bool` results and the record that a pop copies out are returned.
pub mod System
pub mod Invariant
pub mod Moves
pub mod Calls
pub mod Safety
pub mod Setup
use animus_core_v.Base.{
  ℕ, ◌*◌, ◌%◌, Bool, true, false, not, ◌||◌, Option, none, some, List, leb, ltb, ◌==◌,
  if◌then◌else◌, bit_and, get_elem?, set,
}
use animus_core_v.Base.Words.{add64, mul64, sub64}
use animus_core_v.Pow2.{is_pow2}

pub record Header : Type 0 where
  pub magic : ℕ
  pub capacity : ℕ
  pub mask : ℕ
  pub payload_size : ℕ
  pub head : ℕ
  pub tail : ℕ

pub record Queue {ℓ} (A : Type ℓ) : Type ℓ where
  pub header : Header
  pub open header use *
  pub slots : List A
  pub cached_tail : ℕ
  pub cached_head : ℕ

abbrev pub magic_word : ℕ
magic_word = 0x5350534351554555

-- `sizeof(SpscQueueHeader)` and the alignment, with 64-byte cache lines.
abbrev pub header_bytes : ℕ
header_bytes = 192

-- `size` is `sizeof(T)`. Both operations of `size_t` wrap.
unfoldable pub required_bytes : ℕ → ℕ → ℕ
required_bytes size capacity = add64 header_bytes (mul64 capacity size)

unfoldable pub aligned : ℕ → Bool
aligned address = address % 64 == 0

unfoldable pub init : ℕ → ℕ → ℕ → ℕ → Option Header
init size address bytes capacity =
    if address == 0
      || not (is_pow2 capacity)
      || not (aligned address)
      || ltb bytes (required_bytes size capacity)
    then none
    else some (record {
      magic = magic_word;
      capacity = capacity;
      mask = sub64 capacity 1;
      payload_size = size;
      head = 0;
      tail = 0;
    })

-- The header is what the memory holds at the address.
unfoldable pub attach : ℕ → ℕ → ℕ → Header → Bool
attach size address bytes h =
    if address == 0 || not (aligned address) || ltb bytes header_bytes
    then false
    else if not (h.magic == magic_word)
        || not (h.payload_size == size)
        || not (is_pow2 h.capacity)
        || not (h.mask == sub64 h.capacity 1)
        || ltb bytes (required_bytes size h.capacity)
    then false
    else true

module _ {ℓ} {A : Type ℓ} where
  -- The constructor of a handle.
  abbrev pub handle : Header → List A → Queue A
  handle h slots = record { header = h; slots = slots; cached_tail = 0; cached_head = 0 }

  -- The slot write and the store of `head`.
  abbrev pub append : Queue A → A → Queue A
  append q value = record q {
    header = record (q.header) { head = add64 q.head 1 };
    slots = set q.slots (bit_and q.head q.mask) value;
  }

  unfoldable pub try_push : Queue A → A → Bool × Queue A
  try_push q value =
      if leb q.capacity (sub64 q.head q.cached_tail)
      then (let q' = record q { cached_tail = q.tail } in
          if leb q'.capacity (sub64 q'.head q'.cached_tail)
          then (false, q')
          else (true, append q' value))
      else (true, append q value)

  -- The slot read and the store of `tail`.
  abbrev pub retire : Queue A → Bool × Option A × Queue A
  retire q = (
    true,
    get_elem? q.slots (bit_and q.tail q.mask),
    record q { header = record (q.header) { tail = add64 q.tail 1 } },
  )

  -- The option is what is written to `out`.
  unfoldable pub try_pop : Queue A → Bool × Option A × Queue A
  try_pop q =
      if q.tail == q.cached_head
      then (let q' = record q { cached_head = q.head } in
          if q'.tail == q'.cached_head then (false, none, q') else retire q')
      else retire q
