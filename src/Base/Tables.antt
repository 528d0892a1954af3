-- ===== src/Base/Tables.antt =====
-- Tables over the native numbers: one entry replaced, and the number of entries with a property.
use Prim.Native.Nat.{ℕ, zero, suc, ◌+◌, ◌≤◌, ◌<◌}
use mathlib.Core.Path.{◌≡◌, refl, sym, ap, ◌∙◌}
use mathlib.Core.Logic.{◌≢◌, inl, inr}
use mathlib.Core.Bool.{Bool, true, false}
use native.Mathlib.Omega.{arith}
use native.Mathlib.Decide.{ℕ_discrete}
use animus_core_v.Base.Tests.{◌==◌, if◌then◌else◌, Bool-cases}

unfoldable pub update {ℓ} : {A : Type ℓ} → (ℕ → A) → ℕ → A → ℕ → A
update f i a j = if j == i then a else f j

pub update_same {ℓ} : {A : Type ℓ} (f : ℕ → A) (i : ℕ) (a : A) → update f i a i ≡ a
unfolding update
update_same f i a = ground arith

pub update_other {ℓ} :
    {A : Type ℓ} (f : ℕ → A) (i : ℕ) (a : A) (j : ℕ) → j ≢ i → update f i a j ≡ f j
unfolding update
update_other f i a j h = ground arith

unfoldable pub tally : ℕ → (ℕ → Bool) → ℕ
tally zero p = 0
tally (suc n) p = tally n p + (if p n then 1 else 0)

pub tally_mono :
    (n : ℕ) (p q : ℕ → Bool) → ((i : ℕ) → i < n → p i ≡ true → q i ≡ true) → tally n p ≤ tally n q
unfolding tally
tally_mono zero p q h = omega arith
tally_mono (suc n) p q h =
    let ih = tally_mono n p q (λ i l e. h i (omega arith) e) in
    elim (Bool-cases (p n)) [
      | inl e ↦ rw (e, h n (omega arith) e) (omega (arith, ih))
      | inr e ↦ rw e (ground (arith, ih))
    ]

-- A number below `n` that only the second property has.
pub tally-lt :
    (n : ℕ) (p q : ℕ → Bool) (k : ℕ)
    → k < n
    → p k ≡ false
    → q k ≡ true
    → ((i : ℕ) → i < n → p i ≡ true → q i ≡ true)
    → tally n p + 1 ≤ tally n q
unfolding tally
tally-lt zero p q k l a b h = absurd (omega arith)
tally-lt (suc n) p q k l a b h = elim (Bool-cases (p n)) [
  | inl e ↦
      let ne : k ≢ n = λ x. absurd (cc) in
      rw (e, h n (omega arith) e)
        (omega (arith, tally-lt n p q k (omega (arith, ne)) a b (λ i g. h i (omega arith))))
  | inr e ↦ elim (ℕ_discrete k n) [
    | yes x ↦ rw (e, sym (ap q x) ∙ b) (omega (arith, tally_mono n p q (λ i g. h i (omega arith))))
    | no x ↦
        rw e (ground (arith, tally-lt n p q k (omega (arith, x)) a b (λ i g. h i (omega arith))))
  ]
]

-- Two properties that together hold more than `n` times share a number.
pub tally-overlap :
    (n : ℕ) (p q : ℕ → Bool)
    → n < tally n p + tally n q
    → (k : ℕ) × (k < n) × (p k ≡ true) × (q k ≡ true)
unfolding tally
tally-overlap zero p q h = absurd (omega arith)
tally-overlap (suc n) p q h =
    let below : n < tally n p + tally n q → (k : ℕ) × (k < suc n) × (p k ≡ true) × (q k ≡ true) =
      λ g. let r = tally-overlap n p q g in (r.0, omega (arith, r.1), r.2, r.3) in
    elim (Bool-cases (p n)) [
      | inl e ↦ elim (Bool-cases (q n)) [
        | inl d ↦ (n, omega arith, e, d)
        | inr d ↦ below (ground (arith, h))
      ]
      | inr e ↦ below (ground arith)
    ]

pub tally-ext : (n : ℕ) (p q : ℕ → Bool) → ((i : ℕ) → i < n → p i ≡ q i) → tally n p ≡ tally n q
unfolding tally
tally-ext zero p q h = refl
tally-ext (suc n) p q h = rw (h n (omega arith), tally-ext n p q (λ i l. h i (omega arith))) refl

-- One more entry with the property.
pub tally-flip :
    (n : ℕ) (p q : ℕ → Bool) (k : ℕ)
    → k < n
    → p k ≡ false
    → q k ≡ true
    → ((i : ℕ) → i ≢ k → q i ≡ p i)
    → tally n q ≡ tally n p + 1
unfolding tally
tally-flip zero p q k l a b h = absurd (omega arith)
tally-flip (suc n) p q k l a b h = elim (ℕ_discrete k n) [
  | yes x ↦
      let same = tally-ext n q p (λ i g. h i (omega arith)) in
      rw (sym (ap p x) ∙ a, sym (ap q x) ∙ b) (omega (arith, same))
  | no x ↦ rw (h n (omega (arith, x))) (omega (arith, tally-flip n p q k (omega (arith, x)) a b h))
]
