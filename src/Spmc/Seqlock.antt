-- ===== src/Spmc/Seqlock.antt =====
-- The arithmetic of `namespace seqlock` of include/animus/shm_ipc.hpp.
use animus_core_v.Base.{ℕ, ◌+◌, ◌≤◌, ◌<◌, ◌^◌, ◌≡◌, ◌↔◌, true, arith}
use animus_core_v.Spmc.{begin_value, end_value, lapped}

-- For fewer than 2 ^ 63 - 1 broadcasts, record `i` counts as lapped after the begin marker of write
-- `w`, and after its end marker, exactly when one of the writes 0 to `w` went to a slot `capacity`
-- records later than `i` or beyond: `i + capacity ≤ w`.
pub lapped_iff :
    (w i capacity : ℕ)
    → w + 1 < 2 ^ 63
    → ((lapped (begin_value w) i capacity ≡ true) ↔ (i + capacity ≤ w))
      × ((lapped (end_value w) i capacity ≡ true) ↔ (i + capacity ≤ w))
lapped_iff w i capacity h = (ground arith, ground arith)
