-- ===== src/Pow2/Laws.antt =====
-- The loop of `round_up_pow2` and the test `is_pow2`, against powers of two.
use native.Mathlib.Nat.{two-pow-succ}
use animus_core_v.Base.{
  ◌∙◌, ℕ, zero, suc, ◌+◌, ◌-◌, ◌*◌, ◌^◌, ◌≤◌, ◌<◌, ◌≡◌, ◌↔◌, refl, ap, true, none, some, arith,
  dec_lt, bit_and,
}
use animus_core_v.Base.Words.{u64, sub64}
use animus_core_v.Base.Bits.{pow_mono, single_bit, bit_and_pred-pow}
use animus_core_v.Pow2.{round_up_from, round_up_pow2, is_pow2}

-- What a call that returns 2 ^ k has found.
pub record Rounded (v : ℕ) (k : ℕ) : Type 0 where
  pub fits : k ≤ 63
  pub covers : v ≤ 2 ^ k
  pub least : (j : ℕ) → v ≤ 2 ^ j → k ≤ j

pub round_up_from_stop : (f p v : ℕ) → v ≤ p → round_up_from (suc f) p v ≡ some p
unfolding round_up_from
round_up_from_stop f p v h = ground arith

round_up_from_go : (f p v : ℕ) → p < v → round_up_from (suc f) p v ≡ round_up_from f (u64 (p * 2)) v
unfolding round_up_from
round_up_from_go f p v h = ground arith

doubled : (k : ℕ) → k < 63 → u64 (2 ^ k * 2) ≡ 2 ^ suc k
doubled k h = omega (arith, two-pow-succ k, pow_mono (suc k) 63 h)

above : (k v : ℕ) → 2 ^ k < v → ((j : ℕ) → v ≤ 2 ^ j → k ≤ j) → (j : ℕ) → v ≤ 2 ^ j → suc k ≤ j
above k v lt below j h = elim (dec_lt k j) [
  | yes p ↦ p
  | no p ↦
      let e : k ≡ j = omega (arith, below j h) in absurd (omega (arith, ap (λ (t : ℕ). 2 ^ t) e))
]

-- The loop from 2 ^ k, when no smaller power reaches `v`.
round_up_from_pow :
    (m k v : ℕ)
    → k + m ≡ 63
    → v ≤ 2 ^ 63
    → ((j : ℕ) → v ≤ 2 ^ j → k ≤ j)
    → (n : ℕ) × (round_up_from (suc m) (2 ^ k) v ≡ some (2 ^ n)) × Rounded v n
round_up_from_pow zero k v e h below =
    let e' : k ≡ 63 = omega arith in
    let top : v ≤ 2 ^ k = rw e' h in
    (
      k,
      round_up_from_stop zero (2 ^ k) v top,
      record { fits = omega arith; covers = top; least = below },
    )
round_up_from_pow (suc m) k v e h below = elim (dec_lt (2 ^ k) v) [
  | yes lt ↦
      let (n, run, found) = round_up_from_pow m (suc k) v (omega arith) h (above k v lt below) in
      (
        n,
        round_up_from_go (suc m) (2 ^ k) v lt
            ∙ ap (λ (p : ℕ). round_up_from (suc m) p v) (doubled k (omega arith))
            ∙ run,
        found,
      )
  | no ge ↦ (
    k,
    round_up_from_stop (suc m) (2 ^ k) v (omega arith),
    record { fits = omega arith; covers = omega arith; least = below },
  )
]

-- For a request of at most 2 ^ 63 the loop of `round_up_pow2` ends within 64 tests of its condition,
-- and the capacity that it returns is the least power of two that is not below the request.
pub round_up_pow2_total :
    (v : ℕ) → v ≤ 2 ^ 63 → (k : ℕ) × (round_up_pow2 64 v ≡ some (2 ^ k)) × Rounded v k
unfolding round_up_pow2
round_up_pow2_total v h = round_up_from_pow 63 0 v refl h (λ j p. omega arith)

round_up_from_zero : (f v : ℕ) → 0 < v → round_up_from f 0 v ≡ none
unfolding round_up_from
round_up_from_zero zero v h = refl
round_up_from_zero (suc f) v h = ground (arith, round_up_from_zero f v h)

round_up_from-none : (p v : ℕ) → round_up_from 0 p v ≡ none
unfolding round_up_from
round_up_from-none p v = refl

round_up_from_lost : (f m k v : ℕ) → k + m ≡ 63 → 2 ^ 63 < v → round_up_from f (2 ^ k) v ≡ none
round_up_from_lost zero m k v e h = round_up_from-none (2 ^ k) v
round_up_from_lost (suc f) zero k v e h =
    let e' : k ≡ 63 = omega arith in
    rw e' (round_up_from_go f (2 ^ 63) v h ∙ round_up_from_zero f v (omega arith))
round_up_from_lost (suc f) (suc m) k v e h =
    round_up_from_go f (2 ^ k) v (omega (arith, pow_mono k 63 (omega arith)))
    ∙ ap (λ (p : ℕ). round_up_from f p v) (doubled k (omega arith))
    ∙ round_up_from_lost f m (suc k) v (omega arith) h

-- For a request above 2 ^ 63 the loop of `round_up_pow2` is still running after any number of
-- rounds: the doubled word wraps to 0 and stays there.
pub round_up_pow2_diverges : (v fuel : ℕ) → 2 ^ 63 < v → round_up_pow2 fuel v ≡ none
unfolding round_up_pow2
round_up_pow2_diverges v fuel h = round_up_from_lost fuel 63 0 v refl h

pub is_pow2-pow : (k : ℕ) → 1 ≤ k → 2 ^ k < 2 ^ 64 → is_pow2 (2 ^ k) ≡ true
unfolding is_pow2
is_pow2-pow k one small =
    let big : 2 ≤ 2 ^ k = omega (arith, pow_mono 1 k one) in
    let pred : sub64 (2 ^ k) 1 ≡ 2 ^ k - 1 = omega arith in
    ground (arith, big, pred, bit_and_pred-pow k)

-- For a word, the guard `is_pow2` accepts exactly the powers of two from 2 on.
pub is_pow2_iff : (v : ℕ) → v < 2 ^ 64 → (is_pow2 v ≡ true) ↔ ((k : ℕ) × (1 ≤ k) × (v ≡ 2 ^ k))
unfolding is_pow2
is_pow2_iff v h =
    (accepted, λ p. rw (p.2) (is_pow2-pow p.0 p.1 (let e : v ≡ 2 ^ p.0 = p.2 in omega arith)))
  where
    at_least_one : (k : ℕ) → 2 ≤ v → v ≡ 2 ^ k → 1 ≤ k
    at_least_one zero p e = absurd (omega arith)
    at_least_one (suc k) p e = omega arith

    accepted : is_pow2 v ≡ true → (k : ℕ) × (1 ≤ k) × (v ≡ 2 ^ k)
    accepted e =
        let big : 2 ≤ v = ground arith in
        let pred : sub64 v 1 ≡ v - 1 = omega arith in
        let single : bit_and v (v - 1) ≡ 0 = ground arith in
        let (k, q) = single_bit v v (omega arith) (omega arith) single in
        (k, at_least_one k big q, q)
