-- ===== src/Mpmc/Segment.antt =====
-- What `create` of `ShmRingMpmc` (include/animus/shm_ipc.hpp) makes, and what `open` accepts.
use native.Mathlib.Nat.{le-div_iff_mul-le, mul-le-mul_left}
use animus_core_v.Base.{
  ℕ, ◌+◌, ◌-◌, ◌*◌, ◌/◌, ◌^◌, ◌≤◌, ◌<◌, ◌≡◌, ◌⊎◌, inl, inr, refl, true, none, some, arith, ltb,
  if◌then◌else◌, bit_and, dec_lt, lt→ltb, le→ltb,
}
use animus_core_v.Base.Bits.{single_bit, bit_and_pred-pow, pow_mono}
use animus_core_v.Base.Words.{sub64}
use animus_core_v.Pow2.Laws.{Rounded, round_up_pow2_total}
use animus_core_v.Shm.{RingKind, kind_word, Payload}
use animus_core_v.Mpmc.{
  MpmcRingHeader, header_bytes, ready_magic, size_max, lay_out, create_rounded, create_mpmc,
  open_mpmc,
}

-- Under the guard of `create` or of `open` the size is computed without a wrap.
cells_fit :
    (limit capacity cell_bytes : ℕ)
    → 1 ≤ cell_bytes
    → capacity ≤ limit / cell_bytes
    → capacity * cell_bytes ≤ limit
cells_fit limit capacity cell_bytes h l = (le-div_iff_mul-le h).0 l

-- The checks, read off an accepted segment.
pub record Attached (t : Payload) (cell_bytes bytes : ℕ) (h : MpmcRingHeader) : Type 0 where
  pub exponent : ℕ
  pub power : h.capacity ≡ 2 ^ exponent
  pub two : 2 ≤ h.capacity
  pub mask : h.mask ≡ 2 ^ exponent - 1
  pub finished : h.ready ≡ ready_magic
  pub same_kind : h.ring_kind ≡ kind_word RingKind.mpmc
  pub same_size : (h.payload_size ≡ t.size) × (h.stride ≡ cell_bytes)
  pub same_schema : h.schema_version_hash ≡ t.version_hash
  pub room : header_bytes + h.capacity * cell_bytes ≤ bytes

-- A segment that `open` accepts is finished, is of the same record size and schema, its capacity is
-- a power of two from 2 on with the matching mask, and every cell lies inside the region: the guard
-- rules out that the size wraps.
pub open_mpmc-Attached :
    (t : Payload) (cell_bytes bytes : ℕ) (h : MpmcRingHeader)
    → 1 ≤ cell_bytes
    → h.capacity < 2 ^ 64
    → open_mpmc t cell_bytes (some (bytes, h)) ≡ true
    → Attached t cell_bytes bytes h
unfolding open_mpmc
open_mpmc-Attached t cell_bytes bytes h positive word e =
    let two : 2 ≤ h.capacity = ground arith in
    let pred : sub64 h.capacity 1 ≡ h.capacity - 1 = omega arith in
    let single : bit_and h.capacity (h.capacity - 1) ≡ 0 = ground (arith, pred) in
    let (k, p) = single_bit h.capacity h.capacity (omega arith) (omega arith) single in
    let guard : h.capacity ≤ (size_max - header_bytes) / cell_bytes = ground arith in
    let fits = cells_fit (size_max - header_bytes) h.capacity cell_bytes positive guard in
    record {
      exponent = k;
      power = p;
      two = two;
      mask = ground (arith, pred, p);
      finished = ground arith;
      same_kind = ground arith;
      same_size = (ground arith, ground arith);
      same_schema = ground arith;
      room = ground (arith, fits);
    }

at_least_two : (requested : ℕ) → 2 ≤ (if ltb requested 2 then 2 else requested)
at_least_two requested = ground arith

-- A laid out header passes every check.
lay_out-open :
    (t : Payload) (cell_bytes bytes k : ℕ)
    → 2 ≤ 2 ^ k
    → sub64 (2 ^ k) 1 ≡ 2 ^ k - 1
    → 2 ^ k ≤ (size_max - header_bytes) / cell_bytes
    → header_bytes ≤ (lay_out t cell_bytes (2 ^ k)).1
    → (lay_out t cell_bytes (2 ^ k)).1 ≤ bytes
    → open_mpmc t cell_bytes (some (bytes, (lay_out t cell_bytes (2 ^ k)).0)) ≡ true
unfolding open_mpmc
lay_out-open t cell_bytes bytes k two pred guard head room =
    ground (arith, pred, bit_and_pred-pow k)

-- `create` returns for every request. Where it makes a ring, the capacity is the least power of two
-- that is neither below the request nor below 2, the size asked for is that of the header and the
-- cells, with no wrap, and `open` accepts the segment in every region of at least that size.
pub create_mpmc-open :
    (t : Payload) (cell_bytes requested : ℕ)
    → 1 ≤ cell_bytes
    → (create_mpmc t cell_bytes 64 true requested ≡ some none)
      ⊎ ((k : ℕ) × (h : MpmcRingHeader) × (total : ℕ) × (create_mpmc t cell_bytes 64 true requested
            ≡ some (some (h, total)))
          × Rounded (if ltb requested 2 then 2 else requested) k
          × (h.capacity ≡ 2 ^ k)
          × (total ≡ header_bytes + 2 ^ k * cell_bytes)
          × (total < 2 ^ 63)
          × ((bytes : ℕ) → total ≤ bytes → open_mpmc t cell_bytes (some (bytes, h)) ≡ true))
unfolding create_mpmc create_rounded open_mpmc
create_mpmc-open t cell_bytes requested positive =
    let floor = if ltb requested 2 then 2 else requested in
    let max_capacity = (size_max / 2 - header_bytes) / cell_bytes in
    elim (dec_lt max_capacity floor) [
      | yes big ↦ inl (rw (lt→ltb max_capacity floor big) refl)
      | no fit ↦
          let small =
            cells_fit (size_max / 2 - header_bytes) floor cell_bytes positive
              (omega (arith, fit)) in
          let grow = mul-le-mul_left floor positive in
          let low : floor ≤ 2 ^ 63 = omega (arith, small, grow) in
          let (k, run, found) = round_up_pow2_total floor low in
          let two : 2 ≤ 2 ^ k = omega (arith, found.covers, at_least_two requested) in
          elim (dec_lt max_capacity (2 ^ k)) [
            | yes big ↦ inl (
                rw
                  (
                    le→ltb max_capacity floor (omega (arith, fit)),
                    run,
                    lt→ltb max_capacity (2 ^ k) big,
                  )
                  refl)
            | no under ↦
                let bound =
                  cells_fit (size_max / 2 - header_bytes) (2 ^ k) cell_bytes positive
                    (omega (arith, under)) in
                let guard : 2 ^ k ≤ (size_max - header_bytes) / cell_bytes =
                  (le-div_iff_mul-le positive).1 (omega (arith, bound)) in
                let pred : sub64 (2 ^ k) 1 ≡ 2 ^ k - 1 =
                  omega (arith, two, found.fits, pow_mono k 63 found.fits) in
                let exact : (lay_out t cell_bytes (2 ^ k)).1 ≡ header_bytes + 2 ^ k * cell_bytes =
                  omega (arith, bound) in
                inr (
                  k,
                  (lay_out t cell_bytes (2 ^ k)).0,
                  (lay_out t cell_bytes (2 ^ k)).1,
                  rw
                      (
                        le→ltb max_capacity floor (omega (arith, fit)),
                        run,
                        le→ltb max_capacity (2 ^ k) (omega (arith, under)),
                      )
                      refl,
                  found,
                  refl,
                  exact,
                  omega (arith, exact, bound),
                  λ bytes room.
                      lay_out-open t cell_bytes bytes k two pred guard (omega (arith, exact)) room,
                )
          ]
    ]
