-- ===== src/Itch/Bytes.antt =====
-- Byte order, about adapters/itch50/include/itch50_bswap.hpp.
use native.Mathlib.Nat.{pow-succ'}
use mathlib.Core.List.{reverse, reverse-cons, reverse-reverse}
use animus_core_v.Base.{
  ℕ, zero, suc, ◌+◌, ◌*◌, ◌/◌, ◌%◌, ◌^◌, ◌<◌, ◌≡◌, refl, sym, ap, ◌∙◌, List, [], ◌∷◌, ◌++◌, length,
  length-append, arith,
}
use animus_core_v.Itch.{le_bytes, le_value, bswap, shift_six, put_be48_ns}

abbrev pub AreBytes : List ℕ → Type 0
AreBytes [] = Unit
AreBytes (b ∷ rest) = (b < 256) × AreBytes rest

AreBytes-append : (xs ys : List ℕ) → AreBytes xs → AreBytes ys → AreBytes (xs ++ ys)
AreBytes-append [] ys h k = k
AreBytes-append (x ∷ xs) ys h k = (h.0, AreBytes-append xs ys h.1 k)

AreBytes-reverse : (xs : List ℕ) → AreBytes xs → AreBytes (reverse xs)
AreBytes-reverse [] h = tt
AreBytes-reverse (x ∷ xs) h =
    rw (reverse-cons x xs)
      (AreBytes-append (reverse xs) (x ∷ []) (AreBytes-reverse xs h.1) (h.0, tt))

length-reverse : (xs : List ℕ) → length (reverse xs) ≡ length xs
length-reverse [] = refl
length-reverse (x ∷ xs) =
    ap length (reverse-cons x xs)
    ∙ length-append (reverse xs) (x ∷ [])
    ∙ (omega (arith, length-reverse xs))

le_bytes-AreBytes : (n v : ℕ) → AreBytes (le_bytes n v)
unfolding le_bytes
le_bytes-AreBytes zero v = tt
le_bytes-AreBytes (suc n) v = (omega arith, le_bytes-AreBytes n (v / 256))

length-le_bytes : (n v : ℕ) → length (le_bytes n v) ≡ n
unfolding le_bytes
length-le_bytes zero v = refl
length-le_bytes (suc n) v = ap suc (length-le_bytes n (v / 256))

pow_step : (n : ℕ) → 256 ^ suc n ≡ 256 * 256 ^ n
pow_step n = pow-succ' 256 n

le_value-lt : (l : List ℕ) → AreBytes l → le_value l < 256 ^ length l
unfolding le_value
le_value-lt [] h = omega arith
le_value-lt (b ∷ rest) h = omega (arith, le_value-lt rest h.1, pow_step (length rest), h.0)

pub le_value-le_bytes : (n v : ℕ) → v < 256 ^ n → le_value (le_bytes n v) ≡ v
unfolding le_value le_bytes
le_value-le_bytes zero v h = omega arith
le_value-le_bytes (suc n) v h =
    let small : v / 256 < 256 ^ n = omega (arith, pow_step n) in
    omega (arith, le_value-le_bytes n (v / 256) small)

le_bytes-le_value : (l : List ℕ) → AreBytes l → le_bytes (length l) (le_value l) ≡ l
unfolding le_value le_bytes
le_bytes-le_value [] h = refl
le_bytes-le_value (b ∷ rest) h =
    let low : (b + 256 * le_value rest) % 256 ≡ b = omega (arith, h.0) in
    let high : (b + 256 * le_value rest) / 256 ≡ le_value rest = omega (arith, h.0) in
    rw (low, high, le_bytes-le_value rest h.1)

bswap-bytes : (n v : ℕ) → le_bytes n (bswap n v) ≡ reverse (le_bytes n v)
unfolding bswap
bswap-bytes n v =
    ap (λ (t : ℕ). le_bytes t (le_value (reverse (le_bytes n v))))
      (sym (length-reverse (le_bytes n v) ∙ length-le_bytes n v))
    ∙ le_bytes-le_value (reverse (le_bytes n v))
        (AreBytes-reverse (le_bytes n v) (le_bytes-AreBytes n v))

bswap-eq : (n v : ℕ) → bswap n v ≡ le_value (reverse (le_bytes n v))
unfolding bswap
bswap-eq n v = refl

-- Swapping the bytes of an `n`-byte integer twice gives it back.
pub bswap-bswap : (n v : ℕ) → v < 256 ^ n → bswap n (bswap n v) ≡ v
bswap-bswap n v h =
    bswap-eq n (bswap n v)
    ∙ ap (λ (l : List ℕ). le_value (reverse l)) (bswap-bytes n v)
    ∙ ap le_value (reverse-reverse (le_bytes n v))
    ∙ le_value-le_bytes n v h

-- What a writer stores, its reader loads.
pub read_back : (n v : ℕ) → v < 256 ^ n → bswap n (le_value (le_bytes n (bswap n v))) ≡ v
read_back n v h =
    ap (λ (l : List ℕ). bswap n (le_value l)) (bswap-bytes n v)
    ∙ ap (bswap n) (sym (bswap-eq n v))
    ∙ bswap-bswap n v h

pub read_back_48 : (v : ℕ) → v < 2 ^ 48 → shift_six (put_be48_ns v) ≡ v
unfolding shift_six
read_back_48 v h = omega arith
