-- ===== src/Pow2.antt =====
-- Powers of two as every ring uses them: `round_up_pow2` of the ring constructors, and the
-- `is_pow2` guard of include/animus/spsc_queue.hpp and include/animus/broadcast_ring.hpp.
pub mod Laws
use animus_core_v.Base.{
  ℕ, zero, suc, ◌*◌, Bool, ◌&&◌, Option, none, some, ltb, leb, ◌==◌, if◌then◌else◌, bit_and,
}
use animus_core_v.Base.Words.{u64, sub64}

-- `while (p < v) p <<= 1;` with fuel. The shift drops the bit that leaves the word; `none` means
-- that the loop is still running.
unfoldable pub round_up_from : ℕ → ℕ → ℕ → Option ℕ
round_up_from zero p v = none
round_up_from (suc f) p v =
    let rest = round_up_from f (u64 (p * 2)) v in if ltb p v then rest else some p

unfoldable pub round_up_pow2 : ℕ → ℕ → Option ℕ
unfolding round_up_from
round_up_pow2 fuel v = round_up_from fuel 1 v

unfoldable pub is_pow2 : ℕ → Bool
is_pow2 v = leb 2 v && (bit_and v (sub64 v 1) == 0)
