-- ===== src/Examples/Readers.antt =====
-- A concrete run of a reader of a `BroadcastRing` of include/animus/broadcast_ring.hpp.
use animus_core_v.Base.{◌+◌, ◌-◌, ◌≤◌, ◌<◌, ◌≡◌, refl, arith}
use animus_core_v.Base.Words.{sub64}
use animus_core_v.Base.Tables.{update}
use animus_core_v.Broadcast.{snap, batch, lost}
use animus_core_v.Broadcast.System.{
  System, Reach, here, next, closed, publish_begin, publish_word, publish_end, poll_open, poll_word,
  poll_next,
}
use animus_core_v.Broadcast.Safety.{poll_returns_published, accounted}

-- A ring of two one-word records: 7 is published, and reader 3 copies it.
abbrev copied_one : (s : System) × Reach 2 1 s
unfolding update snap batch
copied_one = (
  _,
  next
      (next
        (next
          (next
            (next (next here (publish_begin (λ j. 7) refl (omega arith)))
              (publish_word (λ j. 7) 0 refl (omega arith)))
            (publish_end (λ j. 7) refl))
          (poll_open 3 4 refl (λ e. omega arith)))
        (poll_word 3 0 1 0 0 refl (omega arith) (omega arith)))
      (poll_next 3 0 1 0 refl (omega arith)),
)

none_lost : 0 < 1 - lost copied_one.0.cursor 2 0 1
unfolding lost copied_one
none_lost = omega arith

poll_returns_published_example :
    (closed 2 copied_one.0.cursor 0 1 (copied_one.0.views 3)).out 0 0
    ≡ copied_one.0.sent (0 + (0 + lost copied_one.0.cursor 2 0 1)) 0
unfolding update snap batch
poll_returns_published_example =
    poll_returns_published {k = 1} {words = 1} (omega arith) (omega arith) copied_one.1 3 0 1 0 0
      refl none_lost (omega arith)

accounted_example :
    ((copied_one.0.views 3).delivered
        + (copied_one.0.views 3).dropped
        + sub64 copied_one.0.cursor (copied_one.0.views 3).read
      ≡ copied_one.0.cursor)
    × ((copied_one.0.views 3).read ≤ copied_one.0.cursor)
accounted_example = accounted {k = 1} {words = 1} (omega arith) (omega arith) copied_one.1 3
