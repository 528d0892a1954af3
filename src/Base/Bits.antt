-- ===== src/Base/Bits.antt =====
-- `x & (2 ^ k - 1)` is the remainder by 2 ^ k, and `v & (v - 1)` is zero for powers of two only.
use Prim.Native.Nat.{
  ℕ, zero, suc, ◌+◌, ◌-◌, ◌*◌, ◌/◌, ◌%◌, ◌^◌, ◌≤◌, ◌<◌, min, bit_and, digits, bit_and-bitwise,
}
use mathlib.Core.Path.{◌≡◌, refl, sym, ap, ◌∙◌}
use mathlib.Core.Logic.{◌⊎◌, ◌≢◌, inl, inr}
use native.Mathlib.Decide.{dec_lt}
use native.Mathlib.Omega.{arith}
use native.Mathlib.Nat.{
  two-pow-succ, one-le-pow, mod-lt, div-add-mod, mul-add-mod_self_left, mod-eq_of_lt, mod_self,
  add-zero, add-suc, mod-mod_of_dvd, dvd_of_mod-eq-zero, mul-mod_right, mod-add-mod, mod-eq-sub-mod,
  pow-le-pow_right,
}

-- Enough fuel for the binary digits of the first operand is as good as any other.
abbrev conj : ℕ → ℕ → ℕ → ℕ
conj fuel x y = digits (λ rest. 0) min fuel x y

zero-conj : (f y : ℕ) → conj f 0 y ≡ 0
zero-conj zero y = refl
zero-conj (suc f) y = refl

conj_enough : (x y f g : ℕ) → x ≤ f → x ≤ g → conj f x y ≡ conj g x y
conj_enough x y f g lo hi = by_fuel f g x y lo hi
  where
    by_fuel : (f g x y : ℕ) → x ≤ f → x ≤ g → conj f x y ≡ conj g x y
    by_fuel f g zero y lo hi = zero-conj f y ∙ sym (zero-conj g y)
    by_fuel zero g (suc x) y lo hi = absurd (omega arith)
    by_fuel (suc f) zero (suc x) y lo hi = absurd (omega arith)
    by_fuel (suc f) (suc g) (suc x) y lo hi =
        let halves = by_fuel f g (suc x / 2) (y / 2) (omega arith) (omega arith) in
        omega (arith, halves)

-- The last digit of a conjunction, and the rest.
pub bit_and_halves : (a b : ℕ) → bit_and a b ≡ 2 * bit_and (a / 2) (b / 2) + min (a % 2) (b % 2)
bit_and_halves zero b = omega (arith, bit_and-bitwise 0 b, bit_and-bitwise 0 (b / 2))
bit_and_halves (suc x) y =
    let whole = bit_and-bitwise (suc x) y in
    let half = bit_and-bitwise (suc x / 2) (y / 2) in
    let fuel = conj_enough (suc x / 2) (y / 2) x (suc x / 2) (omega arith) (omega arith) in
    omega (arith, whole, half, fuel)

pub bit_and_self : (n a : ℕ) → a ≤ n → bit_and a a ≡ a
bit_and_self n zero h = refl
bit_and_self zero (suc a) h = absurd (omega arith)
bit_and_self (suc n) (suc a) h =
    omega (arith, bit_and_halves (suc a) (suc a), bit_and_self n (suc a / 2) (omega arith))

bit_and-zero : (bound x : ℕ) → x ≤ bound → bit_and x 0 ≡ 0
bit_and-zero bound zero h = refl
bit_and-zero zero (suc x) h = absurd (omega arith)
bit_and-zero (suc bound) (suc x) h =
    let rest = bit_and-zero bound (suc x / 2) (omega arith) in
    omega (arith, bit_and_halves (suc x) 0, rest)

parity : (v : ℕ) → (v % 2 ≡ 0) ⊎ (v % 2 ≡ 1)
parity v = omega arith

mod_halves : (x p : ℕ) → 0 < p → x % (p + p) ≡ 2 * (x / 2 % p) + x % 2
mod_halves x p h =
    ap (λ (t : ℕ). t % (p + p)) split
    ∙ mul-add-mod_self_left (p + p) (x / 2 / p) (2 * (x / 2 % p) + x % 2)
    ∙ mod-eq_of_lt (omega (arith, mod-lt (x / 2) h))
  where
    split : x ≡ (p + p) * (x / 2 / p) + (2 * (x / 2 % p) + x % 2)
    split = omega (arith, div-add-mod (x / 2) p)

pub bit_and_mask : (k x : ℕ) → bit_and x (2 ^ k - 1) ≡ x % 2 ^ k
bit_and_mask zero x = omega (arith, bit_and-zero x x (omega arith))
bit_and_mask (suc k) x = ground (
  arith,
  one-le-pow k 2,
  two-pow-succ k,
  bit_and_halves x (2 ^ suc k - 1),
  bit_and_mask k (x / 2),
  mod_halves x (2 ^ k),
)

-- `v & (v - 1)` clears the lowest set bit, so it is zero only where there is a single one.
pub single_bit : (n v : ℕ) → v ≤ n → 0 < v → bit_and v (v - 1) ≡ 0 → (k : ℕ) × (v ≡ 2 ^ k)
single_bit zero v h p e = absurd (omega arith)
single_bit (suc n) v h p e = elim (parity v) [
  | inl even ↦
      let (k, q) =
        single_bit n (v / 2) (omega arith) (omega arith)
          (ground (arith, bit_and_halves v (v - 1))) in
      (suc k, omega (arith, two-pow-succ k))
  | inr odd ↦ (0, ground (arith, bit_and_halves v (v - 1), bit_and_self (v / 2) (v / 2)))
]

pub bit_and_pred-pow : (k : ℕ) → bit_and (2 ^ k) (2 ^ k - 1) ≡ 0
bit_and_pred-pow k = bit_and_mask k (2 ^ k) ∙ mod_self (2 ^ k)

pub two_pow_add : (k j : ℕ) → 2 ^ (k + j) ≡ 2 ^ k * 2 ^ j
two_pow_add k zero = omega (arith, ap (λ (t : ℕ). 2 ^ t) (add-zero k))
two_pow_add k (suc j) = omega (
  arith,
  ap (λ (t : ℕ). 2 ^ t) (add-suc k j),
  two-pow-succ (k + j),
  two-pow-succ j,
  two_pow_add k j,
  ap (λ (t : ℕ). 2 ^ k * t) (two-pow-succ j),
)

-- The slot of a running count that is kept in a word: wrapping does not disturb it.
pub masked_count : (k x : ℕ) → k ≤ 64 → bit_and (x % 2 ^ 64) (2 ^ k - 1) ≡ x % 2 ^ k
masked_count k x h =
    bit_and_mask k (x % 2 ^ 64)
    ∙ mod-mod_of_dvd (2 ^ k) {b = 2 ^ 64} x (dvd_of_mod-eq-zero (2 ^ k) multiple)
  where
    multiple : 2 ^ 64 % 2 ^ k ≡ 0
    multiple =
        (let e : 64 ≡ k + (64 - k) = omega arith in ap (λ (t : ℕ). 2 ^ t % 2 ^ k) e)
        ∙ ap (λ (t : ℕ). t % 2 ^ k) (two_pow_add k (64 - k))
        ∙ mul-mod_right (2 ^ k) (2 ^ (64 - k))

-- Two counts less than `c` apart have different slots.
pub mod-ne : (i j c : ℕ) → i < j → j < i + c → i % c ≢ j % c
mod-ne i j c h k e = elim (dec_lt (i % c + (j - i)) c) [
  | yes p ↦ omega (arith, shift, mod-eq_of_lt p)
  | no p ↦ omega (
    arith,
    shift,
    mod-lt i {m = c} (omega arith),
    mod-eq-sub-mod {n = i % c + (j - i)} {m = c} (omega arith),
    mod-eq_of_lt {n = i % c + (j - i) - c} {m = c} (omega (arith, mod-lt i {m = c} (omega arith))),
  )
]
  where
    shift : j % c ≡ (i % c + (j - i)) % c
    shift =
        (let e : j ≡ i + (j - i) = omega arith in ap (λ (t : ℕ). t % c) e)
        ∙ sym (mod-add-mod i c (j - i))

pub pow_mono : (i j : ℕ) → i ≤ j → 2 ^ i ≤ 2 ^ j
pow_mono i j h = pow-le-pow_right (omega arith) h
