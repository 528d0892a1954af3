-- ===== src/Itch.antt =====
-- The byte order of the ITCH 5.0 adapter: adapters/itch50/include/itch50_bswap.hpp. A stretch of
-- memory is a list of bytes, lowest address first, on a little-endian host. A read past the end is
-- undefined: `none`.
pub mod Bytes
pub mod Codec
pub mod Bounds
pub mod Messages
pub mod RoundTrip
use mathlib.Core.List.{reverse}
use animus_core_v.Base.{
  ℕ, zero, suc, ◌+◌, ◌*◌, ◌/◌, ◌%◌, ◌^◌, Bool, true, false, Option, none, some, List, [], ◌∷◌, ◌++◌,
  length, take, drop, leb, if◌then◌else◌,
}

-- What `memcpy` stores of an `n`-byte integer, and what it loads.
unfoldable pub le_bytes : ℕ → ℕ → List ℕ
le_bytes zero v = []
le_bytes (suc n) v = (v % 256) ∷ le_bytes n (v / 256)

unfoldable pub le_value : List ℕ → ℕ
le_value [] = 0
le_value (b ∷ rest) = b + 256 * le_value rest

-- The intrinsic: the bytes of an `n`-byte integer in the other order.
unfoldable pub bswap : ℕ → ℕ → ℕ
bswap n v = le_value (reverse (le_bytes n v))

abbrev pub bswap16 : ℕ → ℕ
bswap16 = bswap 2

abbrev pub bswap32 : ℕ → ℕ
bswap32 = bswap 4

abbrev pub bswap64 : ℕ → ℕ
bswap64 = bswap 8

-- The `n` bytes at an offset.
abbrev pub load : ℕ → ℕ → List ℕ → Option (List ℕ)
load n offset wire =
    if leb (offset + n) (length wire) then some (take n (drop offset wire)) else none

infixl 5 ◌>>=◌
abbrev pub ◌>>=◌ {ℓ κ} : {A : Type ℓ} {B : Type κ} → Option A → (A → Option B) → Option B
none >>= f = none
some a >>= f = f a

abbrev pub be16toh_field : ℕ → List ℕ → Option ℕ
be16toh_field offset wire = do v ← load 2 offset wire; some (bswap16 (le_value v))

abbrev pub be32toh_field : ℕ → List ℕ → Option ℕ
be32toh_field offset wire = do v ← load 4 offset wire; some (bswap32 (le_value v))

abbrev pub be64toh_field : ℕ → List ℕ → Option ℕ
be64toh_field offset wire = do v ← load 8 offset wire; some (bswap64 (le_value v))

-- The shifted bytes have no bit in common, so `|` is `+`.
unfoldable pub shift_six : List ℕ → ℕ
shift_six (a ∷ b ∷ c ∷ d ∷ e ∷ f ∷ _) =
    a * 2 ^ 40 + b * 2 ^ 32 + c * 2 ^ 24 + d * 2 ^ 16 + e * 2 ^ 8 + f
shift_six _ = 0

abbrev pub be48toh_ns : ℕ → List ℕ → Option ℕ
be48toh_ns offset wire = do v ← load 6 offset wire; some (shift_six v)

abbrev pub put_be16 : ℕ → List ℕ
put_be16 v = le_bytes 2 (bswap16 v)

abbrev pub put_be32 : ℕ → List ℕ
put_be32 v = le_bytes 4 (bswap32 v)

abbrev pub put_be64 : ℕ → List ℕ
put_be64 v = le_bytes 8 (bswap64 v)

-- `x & 0xFF` is `x % 256`.
abbrev pub put_be48_ns : ℕ → List ℕ
put_be48_ns v =
    (v / 2 ^ 40 % 256)
    ∷ (v / 2 ^ 32 % 256)
    ∷ (v / 2 ^ 24 % 256)
    ∷ (v / 2 ^ 16 % 256)
    ∷ (v / 2 ^ 8 % 256)
    ∷ (v % 256)
    ∷ []
