-- ===== src/Spmc.antt =====
-- `namespace seqlock` and the calls of `SpmcRing<T>` of include/animus/shm_ipc.hpp: the broadcast
-- ring whose consumers detect that they were lapped.
pub mod Seqlock
pub mod System
pub mod Invariant
pub mod Producer
pub mod Consumer
pub mod Safety
use animus_core_v.Base.{ℕ, ◌+◌, ◌-◌, ◌/◌, ◌<◌, Bool, true, false, ltb, if◌then◌else◌}
use animus_core_v.Base.Words.{add64, sub64, mul64}

-- The low bit of `w << 1` is 0, so `| 1` is `+ 1`.
abbrev pub begin_value : ℕ → ℕ
begin_value write_index = mul64 write_index 2 + 1

abbrev pub end_value : ℕ → ℕ
end_value write_index = mul64 (add64 write_index 1) 2

abbrev pub oldest_intact : ℕ → ℕ → ℕ
oldest_intact seq capacity =
    let begun = add64 seq 1 / 2 in if ltb capacity begun then begun - capacity else 0

abbrev pub lapped : ℕ → ℕ → ℕ → Bool
lapped seq record_index capacity = ltb record_index (oldest_intact seq capacity)

-- The members that a consumer keeps for itself.
pub record Reader : Type 0 where
  pub local_tail : ℕ
  pub overrun_count : ℕ
  pub last_poll_overran : Bool

-- `poll` up to its copy loop: the correction of an overrun.
unfoldable pub catch_up : ℕ → ℕ → Reader → Reader
catch_up capacity head r =
    if ltb capacity (sub64 head r.local_tail)
    then record {
      local_tail = sub64 head capacity;
      overrun_count = add64 r.overrun_count (sub64 (sub64 head capacity) r.local_tail);
      last_poll_overran = true;
    }
    else record r { last_poll_overran = false }

-- The number of records that the copy loop copies.
unfoldable pub batch : ℕ → ℕ → Reader → ℕ
batch head max_count r =
    let available = sub64 head r.local_tail in
    if ltb available max_count then available else max_count

-- The records of the batch that were recycled while it was copied, oldest first.
unfoldable pub gone : ℕ → ℕ → ℕ → ℕ → ℕ
gone seq capacity first n =
    let intact_from = oldest_intact seq capacity in
    if ltb first intact_from
    then (if ltb (sub64 intact_from first) n then sub64 intact_from first else n)
    else 0

-- `poll` after its copy loop; it returns `n` less the lapped records.
unfoldable pub settle : ℕ → ℕ → ℕ → Reader → Reader
settle lapped first n r = record r {
  local_tail = add64 first n;
  overrun_count = if ltb 0 lapped then add64 r.overrun_count lapped else r.overrun_count;
  last_poll_overran = if ltb 0 lapped then true else r.last_poll_overran;
}
