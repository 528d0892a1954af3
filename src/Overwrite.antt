-- ===== src/Overwrite.antt =====
-- The record transfer of `ShmRing<T>` of include/animus/shm_ipc.hpp: `try_push`, `push_overwrite` and
-- `try_pop` with its two routes. A call runs to its end with no step of the other process in
-- between, so its first compare-exchange succeeds and `tail` does not move under it; a spurious
-- failure of `compare_exchange_weak` is left out.
pub mod Refine
use animus_core_v.Base.{
  ℕ, zero, suc, ◌+◌, Bool, true, false, Option, none, some, List, leb, ltb, ◌==◌, if◌then◌else◌,
  bit_and, get_elem?, set,
}
use animus_core_v.Base.Words.{add64, sub64}
use animus_core_v.Spmc.{begin_value, end_value, lapped}

pub record ShmRing {ℓ} (A : Type ℓ) : Type ℓ where
  pub capacity : ℕ
  pub mask : ℕ
  pub slots : List A
  pub head : ℕ
  pub tail : ℕ
  pub dropped_count : ℕ
  pub write_seq : ℕ
  pub overwrite_active : ℕ

module _ {ℓ} {A : Type ℓ} where
  -- The slot write and the store of `head`.
  abbrev pub store_next : ShmRing A → A → ShmRing A
  store_next r value = record r {
    slots = set r.slots (bit_and r.head r.mask) value;
    head = add64 r.head 1;
  }

  unfoldable pub try_push_shm : ShmRing A → A → Bool × ShmRing A
  try_push_shm r value =
      if leb r.capacity (sub64 r.head r.tail) then (false, r) else (true, store_next r value)

  -- The full branch up to the slot write: the flag of the first reclaim, the begin marker, and the
  -- move of `tail` to the new oldest record.
  abbrev pub announce : ShmRing A → ShmRing A
  announce r = record r {
    overwrite_active = if r.write_seq == 0 then 1 else r.overwrite_active;
    write_seq = begin_value r.head;
  }

  abbrev pub reclaim : ShmRing A → ShmRing A
  reclaim r =
      let floor = add64 (sub64 r.head r.capacity) 1 in
      if ltb r.tail floor
      then record r { tail = floor; dropped_count = add64 r.dropped_count 1 }
      else r

  unfoldable pub push_overwrite : ShmRing A → A → ShmRing A
  push_overwrite r value =
      if ltb (sub64 r.head r.tail) r.capacity
      then store_next r value
      else record (store_next (reclaim (announce r)) value) { write_seq = end_value r.head }

  -- The loop over `kMaxSeqlockAttempts` attempts.
  unfoldable pub pop_validated : ℕ → ℕ → ShmRing A → Bool × Option A × ShmRing A
  pop_validated zero tail r = (false, none, r)
  pop_validated (suc attempts) tail r =
      let oldest = if ltb r.capacity (sub64 r.head tail) then sub64 r.head r.capacity else tail in
      let later = pop_validated attempts (add64 oldest 1) r in
      if oldest == r.head
      then (false, none, r)
      else if lapped r.write_seq oldest r.capacity
      then later
      else (true, get_elem? r.slots (bit_and oldest r.mask), record r { tail = add64 oldest 1 })

  abbrev pub try_pop_seqlock : ShmRing A → Bool × Option A × ShmRing A
  try_pop_seqlock r = pop_validated 64 r.tail r

  -- The option is what is written to `out`.
  unfoldable pub try_pop_shm : ShmRing A → Bool × Option A × ShmRing A
  try_pop_shm r =
      if r.overwrite_active == 0
      then (if r.tail == r.head then (false, none, r) else (
        true,
        get_elem? r.slots (bit_and r.tail r.mask),
        record r { tail = add64 r.tail 1 },
      ))
      else try_pop_seqlock r
