-- ===== src/Local.antt =====
-- `SpscRingBuffer<T>` of AnimusCore_v1/animus.hpp: the in-process queue of one producer thread and
-- one consumer thread. A call runs to its end with no step of the other side in between.
pub mod Refine
use animus_core_v.Base.{
  ℕ, ◌+◌, Bool, true, false, Option, none, some, List, leb, ◌==◌, if◌then◌else◌, bit_and, get_elem?,
  set, replicate,
}
use animus_core_v.Base.Words.{add64, sub64}
use animus_core_v.Pow2.{round_up_pow2}

pub record Buffer {ℓ} (A : Type ℓ) : Type ℓ where
  pub capacity : ℕ
  pub mask : ℕ
  pub cells : List A
  pub head : ℕ
  pub tail : ℕ

module _ {ℓ} {A : Type ℓ} where
  -- The cells begin as `T{}`.
  abbrev pub allocate : A → Option ℕ → Option (Buffer A)
  allocate blank none = none
  allocate blank (some c) =
      some
        (record { capacity = c; mask = sub64 c 1; cells = replicate c blank; head = 0; tail = 0 })

  unfoldable pub new_buffer : A → ℕ → ℕ → Option (Buffer A)
  new_buffer blank fuel requested = allocate blank (round_up_pow2 fuel requested)

  unfoldable pub push_local : Buffer A → A → Bool × Buffer A
  push_local r value = if leb r.capacity (sub64 r.head r.tail) then (false, r) else (
    true,
    record r { cells = set r.cells (bit_and r.head r.mask) value; head = add64 r.head 1 },
  )

  -- The option is what is written to `out`.
  unfoldable pub pop_local : Buffer A → Bool × Option A × Buffer A
  pop_local r =
      if r.tail == r.head
      then (false, none, r)
      else (true, get_elem? r.cells (bit_and r.tail r.mask), record r { tail = add64 r.tail 1 })
