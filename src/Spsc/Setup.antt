-- ===== src/Spsc/Setup.antt =====
-- The guards of `init` and `attach`: what they accept, and where their size check can wrap.
use animus_core_v.Base.{
  ℕ, ◌+◌, ◌-◌, ◌*◌, ◌^◌, ◌≤◌, ◌<◌, ◌≡◌, ◌≢◌, ap, sym, ◌∙◌, true, some, none, arith,
}
use animus_core_v.Base.Bits.{pow_mono, two_pow_add}
use animus_core_v.Base.Words.{sub64, mul64}
use animus_core_v.Pow2.{is_pow2}
use animus_core_v.Pow2.Laws.{is_pow2_iff, is_pow2-pow}
use animus_core_v.Spsc.{Header, init, attach, required_bytes, aligned, header_bytes}

-- Both guards, read off an accepted header.
pub record IsMapped (size bytes : ℕ) (h : Header) : Type 0 where
  pub exponent : ℕ
  pub power : h.capacity ≡ 2 ^ exponent
  pub at_least_two : 1 ≤ exponent
  pub mask : h.mask ≡ 2 ^ exponent - 1
  pub room : header_bytes + h.capacity * size ≤ bytes

-- A segment that `attach` accepts has a power of two for its capacity and the matching mask, and
-- room for that many slots, provided that the size of the slots is computed without a wrap.
pub attach-IsMapped :
    (size address bytes : ℕ) (h : Header)
    → h.capacity < 2 ^ 64
    → header_bytes + h.capacity * size < 2 ^ 64
    → attach size address bytes h ≡ true
    → IsMapped size bytes h
unfolding attach required_bytes
attach-IsMapped size address bytes h word exact e =
    let pow2 : is_pow2 h.capacity ≡ true = ground arith in
    let (k, one, p) = (is_pow2_iff h.capacity word).0 pow2 in
    let two : 2 ≤ 2 ^ k = pow_mono 1 k one in
    let mask : h.mask ≡ sub64 h.capacity 1 = ground arith in
    record { exponent = k; power = p; at_least_two = one; mask = omega arith; room = ground arith }

-- What `init` writes `attach` accepts, at any cursor positions, for the same record size and the
-- same memory, where the size of the slots does not wrap.
pub attach-init :
    (size address bytes capacity head tail : ℕ) {h : Header}
    → header_bytes + capacity * size < 2 ^ 64
    → init size address bytes capacity ≡ some h
    → attach size address bytes (record h { head = head; tail = tail }) ≡ true
unfolding init attach required_bytes
attach-init size address bytes capacity head tail exact e = ground arith

-- Where `capacity * sizeof(T)` is exactly 2 ^ 64, the byte count wraps to that of the header alone:
-- `init` accepts a region with no room for a single slot, at every aligned address.
pub init_accepts_wrapped :
    (k j address : ℕ)
    → k + j ≡ 64
    → 1 ≤ k
    → k ≤ 63
    → address ≢ 0
    → aligned address ≡ true
    → init (2 ^ j) address header_bytes (2 ^ k) ≢ none
unfolding init required_bytes
init_accepts_wrapped k j address e one small nonnull al =
    let pow2 : is_pow2 (2 ^ k) ≡ true = is_pow2-pow k one (omega (arith, pow_mono k 63 small)) in
    let product : 2 ^ k * 2 ^ j ≡ 2 ^ 64 = sym (two_pow_add k j) ∙ ap (λ (t : ℕ). 2 ^ t) e in
    let wrapped : mul64 (2 ^ k) (2 ^ j) ≡ 0 = omega (arith, product) in ground arith
