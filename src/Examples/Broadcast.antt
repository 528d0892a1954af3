-- ===== src/Examples/Broadcast.antt =====
-- A concrete run of the broadcast ring of include/animus/shm_ipc.hpp.
use animus_core_v.Base.{◌≡◌, refl, arith, ◌<◌, ◌-◌, ◌+◌}
use animus_core_v.Spmc.{catch_up, batch, gone}
use animus_core_v.Spmc.System.{
  System, Reach, here, next, start, broadcast_begin, broadcast_word, broadcast_end,
  broadcast_publish, poll_head, poll_word, poll_next, settled,
}
use animus_core_v.Spmc.Safety.{no_torn_record}

-- A ring of two one-word records: 7 is broadcast, and the consumer copies it.
abbrev sent_one : (s : System) × Reach 2 1 start s
sent_one = (
  _,
  next
      (next
        (next (next here (broadcast_begin (λ j. 7) refl (omega arith)))
          (broadcast_word (λ j. 7) 0 refl (omega arith)))
        (broadcast_end (λ j. 7) refl))
      (broadcast_publish refl),
)

abbrev copied_one : (s : System) × Reach 2 1 start s
unfolding catch_up batch
copied_one = (
  _,
  next
      (next (next sent_one.1 (poll_head 4 refl (λ e. omega arith)))
        (poll_word 0 1 0 0 refl (omega arith) (omega arith)))
      (poll_next 0 1 0 refl (omega arith)),
)

nothing_gone : 0 < 1 - gone copied_one.0.write_seq 2 0 1
unfolding gone copied_one
nothing_gone = omega arith

no_torn_record_example :
    (settled 2 0 1 copied_one.0).out 0 0
    ≡ copied_one.0.sent (0 + (0 + gone copied_one.0.write_seq 2 0 1)) 0
unfolding catch_up batch
no_torn_record_example =
    no_torn_record {k = 1} {words = 1} (omega arith) copied_one.1 0 1 0 0 refl nothing_gone
      (omega arith)
