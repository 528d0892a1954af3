-- ===== src/Shm/Liveness.antt =====
-- A peer that stops its heartbeat, about `peer_alive` of include/animus/shm_ipc.hpp.
use animus_core_v.Base.{ℕ, zero, suc, ◌+◌, ◌^◌, ◌<◌, ◌≡◌, ◌≢◌, ap, ◌∙◌, Bool, true, arith, ltb}
use animus_core_v.Shm.{Watch, peer_alive}

-- The watcher after `n` calls on a process that runs but does not move its heartbeat.
abbrev pub watching : ℕ → ℕ → ℕ → ℕ → Watch → Watch
watching zero pid heartbeat stale_after w = w
watching (suc n) pid heartbeat stale_after w =
    watching n pid heartbeat stale_after (peer_alive true pid heartbeat stale_after w).1

stalled :
    (pid heartbeat stale_after : ℕ) (w : Watch)
    → 0 < pid
    → 0 < stale_after
    → w.last_seen ≡ heartbeat
    → w.stall_count + 1 < 2 ^ 64
    → peer_alive true pid heartbeat stale_after w
      ≡ (ltb (w.stall_count + 1) stale_after, record w { stall_count = w.stall_count + 1 })
unfolding peer_alive
stalled pid heartbeat stale_after w p s e b = ground arith

beats :
    (pid heartbeat stale_after : ℕ) (w : Watch)
    → 0 < pid
    → 0 < stale_after
    → heartbeat ≢ w.last_seen
    → peer_alive true pid heartbeat stale_after w
      ≡ (true, record { last_seen = heartbeat; stall_count = 0 })
unfolding peer_alive
beats pid heartbeat stale_after w p s ne = ground arith

watching-count :
    (n pid heartbeat stale_after : ℕ) (w : Watch)
    → 0 < pid
    → 0 < stale_after
    → w.last_seen ≡ heartbeat
    → w.stall_count + n < 2 ^ 64
    → ((watching n pid heartbeat stale_after w).stall_count ≡ w.stall_count + n)
      × ((watching n pid heartbeat stale_after w).last_seen ≡ heartbeat)
watching-count zero pid heartbeat stale_after w p s e b = (omega arith, e)
watching-count (suc n) pid heartbeat stale_after w p s e b =
    let step = stalled pid heartbeat stale_after w p s e (omega arith) in
    let rest =
      watching-count n pid heartbeat stale_after (record w { stall_count = w.stall_count + 1 }) p s
        e (omega arith) in
    rw (watching, step) (rest.0 ∙ omega arith, rest.1)

-- A process that runs and whose heartbeat stays at the value last seen is reported alive by the
-- first `stale_after - 1` calls of `peer_alive` and dead by the next one, and by every later one
-- within 2 ^ 64 calls. A heartbeat that has moved is reported alive at any time, and the count of
-- stalls starts again at 0.
pub silent_peer :
    (n pid heartbeat stale_after : ℕ) (w : Watch)
    → 0 < pid
    → 0 < stale_after
    → w.last_seen ≡ heartbeat
    → w.stall_count ≡ 0
    → n + 1 < 2 ^ 64
    → ((peer_alive true pid heartbeat stale_after (watching n pid heartbeat stale_after w)).0
        ≡ ltb (n + 1) stale_after)
      × ((moved : ℕ)
          → moved ≢ heartbeat
          → peer_alive true pid moved stale_after (watching n pid heartbeat stale_after w)
            ≡ (true, record { last_seen = moved; stall_count = 0 }))
silent_peer n pid heartbeat stale_after w p s e z b =
    let (count, seen) = watching-count n pid heartbeat stale_after w p s e (omega arith) in
    let step =
      stalled pid heartbeat stale_after (watching n pid heartbeat stale_after w) p s seen
        (omega arith) in
    (
      ap (λ (r : Bool × Watch). r.0) step ∙ ap (λ (c : ℕ). ltb c stale_after) (omega arith),
      λ moved ne.
          beats pid moved stale_after (watching n pid heartbeat stale_after w) p s
            (λ q. ne (q ∙ seen)),
    )
