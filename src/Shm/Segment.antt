-- ===== src/Shm/Segment.antt =====
-- What `open` accepts, about include/animus/shm_ipc.hpp.
use animus_core_v.Base.{
  ℕ, ◌+◌, ◌-◌, ◌*◌, ◌^◌, ◌≤◌, ◌<◌, ◌≡◌, refl, true, some, arith, ltb, if◌then◌else◌, bit_and,
}
use animus_core_v.Base.Bits.{single_bit, bit_and_pred-pow, pow_mono}
use animus_core_v.Base.Words.{add64, sub64, mul64}
use animus_core_v.Pow2.Laws.{Rounded, round_up_pow2_total}
use animus_core_v.Shm.{RingKind, kind_word, Descriptor, Payload, create_ring, open_ring}

-- The checks, read off an accepted segment.
pub record Trusted (kind : RingKind) (header_size : ℕ) (t : Payload) (bytes : ℕ) (d : Descriptor)
    : Type 0 where
  pub exponent : ℕ
  pub power : d.capacity ≡ 2 ^ exponent
  pub mask : d.mask ≡ 2 ^ exponent - 1
  pub same_kind : d.ring_kind ≡ kind_word kind
  pub same_size : d.payload_size ≡ t.size
  pub same_schema : d.schema_version_hash ≡ t.version_hash
  pub room : header_size + d.capacity * t.size ≤ bytes

-- A segment that `open` accepts is of the same ring kind, record size and schema, its capacity is a
-- power of two with the matching mask, and it has room for that many slots, provided that the size
-- of the header and the slots is computed without a wrap.
pub open_ring-Trusted :
    (kind : RingKind) (header_size : ℕ) (t : Payload) (bytes : ℕ) (d : Descriptor)
    → d.capacity < 2 ^ 64
    → header_size + d.capacity * t.size < 2 ^ 64
    → open_ring kind header_size t (some (bytes, d)) ≡ true
    → Trusted kind header_size t bytes d
unfolding open_ring
open_ring-Trusted kind header_size t bytes d word exact e =
    let nonzero : 0 < d.capacity = ground arith in
    let pred : sub64 d.capacity 1 ≡ d.capacity - 1 = omega arith in
    let single : bit_and d.capacity (d.capacity - 1) ≡ 0 = ground (arith, pred) in
    let (k, p) = single_bit d.capacity d.capacity (omega arith) nonzero single in
    record {
      exponent = k;
      power = p;
      mask = ground (arith, pred, p);
      same_kind = ground arith;
      same_size = ground arith;
      same_schema = ground arith;
      room = ground arith;
    }

-- For a request of at most 2 ^ 63 and a region that is granted, `create` returns, and `open` of the
-- same kind and type accepts the segment in every region of at least the size asked for, where that
-- size is computed without a wrap. The capacity is the least power of two that is neither below the
-- request nor below 2.
pub create_ring-open :
    (kind : RingKind) (header_size : ℕ) (t : Payload) (requested : ℕ)
    → requested ≤ 2 ^ 63
    → (k : ℕ) × (d : Descriptor) × (total : ℕ) × (create_ring kind header_size t 64 true requested
        ≡ some (some (d, total)))
      × Rounded (if ltb requested 2 then 2 else requested) k
      × (d.capacity ≡ 2 ^ k)
      × ((bytes : ℕ)
          → header_size + 2 ^ k * t.size < 2 ^ 64
          → total ≤ bytes
          → open_ring kind header_size t (some (bytes, d)) ≡ true)
unfolding create_ring open_ring
create_ring-open kind header_size t requested h =
    let small : (if ltb requested 2 then 2 else requested) ≤ 2 ^ 63 = ground arith in
    let (k, run, found) = round_up_pow2_total (if ltb requested 2 then 2 else requested) small in
    let low : 2 ^ k ≤ 2 ^ 63 = pow_mono k 63 found.fits in
    let positive : 1 ≤ 2 ^ k = pow_mono 0 k (omega arith) in
    let pred : sub64 (2 ^ k) 1 ≡ 2 ^ k - 1 = omega arith in
    (
      k,
      record {
        capacity = 2 ^ k;
        mask = sub64 (2 ^ k) 1;
        ring_kind = kind_word kind;
        schema_version_hash = t.version_hash;
        payload_size = t.size;
        stride = t.size;
      },
      add64 header_size (mul64 (2 ^ k) t.size),
      rw run refl,
      found,
      refl,
      λ bytes exact room. ground (arith, pred, bit_and_pred-pow k),
    )
