-- ===== src/Examples/Sharing.antt =====
-- A concrete run of two threads on an `ShmRingMpmc` of include/animus/shm_ipc.hpp.
use animus_core_v.Base.{ℕ, ◌+◌, ◌≡◌, ◌≤◌, ◌<◌, refl, arith, none, ◌⊎◌, some}
use animus_core_v.Base.Tables.{update}
use animus_core_v.Mpmc.System.{
  System, Reach, here, next, push_start, push_look, push_win, push_write, push_publish, pop_start,
  pop_look, pop_win, pop_read,
}
use animus_core_v.Mpmc.Invariant.{Published}
use animus_core_v.Mpmc.Safety.{delivered, loaded_once, exclusive_cell, push_refused, pop_refused}

-- Two cells: thread 0 pushes 7, and thread 1 loads it.
abbrev pushed : (s : System) × Reach 1 s
unfolding update
pushed = (
  _,
  next
      (next
        (next (next (next here (push_start 0 7 refl)) (push_look 0 7 0 refl))
          (push_win 0 7 0 refl refl (omega arith)))
        (push_write 0 7 0 refl))
      (push_publish 0 7 0 refl),
)

abbrev loaded : (s : System) × Reach 1 s
unfolding update
loaded = (
  _,
  next (next (next (next pushed.1 (pop_start 1 refl)) (pop_look 1 0 refl)) (pop_win 1 0 refl refl))
      (pop_read 1 0 refl),
)

delivered_example :
    ((loaded.0.got 0 ≡ none) ⊎ ((loaded.0.got 0 ≡ some 7) × (0 < loaded.0.dequeue_pos)))
    × (loaded.0.dequeue_pos ≤ loaded.0.enqueue_pos)
    × (loaded.0.enqueue_pos ≤ loaded.0.dequeue_pos + 2)
unfolding update loaded
delivered_example = delivered {k = 1} (omega arith) (omega arith) loaded.1 0

-- Thread 1 just before its load.
abbrev taking : (s : System) × Reach 1 s
unfolding update
taking =
    (_, next (next (next pushed.1 (pop_start 1 refl)) (pop_look 1 0 refl)) (pop_win 1 0 refl refl))

loaded_once_example : (taking.0.got 0 ≡ none) × (taking.0.value 0 ≡ taking.0.sent 0)
unfolding update
loaded_once_example = loaded_once {k = 1} (omega arith) (omega arith) taking.1 1 0 refl

-- Thread 0 has won position 0 and not published it; thread 1 has won position 1.
abbrev both_won : (s : System) × Reach 1 s
unfolding update
both_won = (
  _,
  next
      (next
        (next
          (next (next (next here (push_start 0 7 refl)) (push_look 0 7 0 refl))
            (push_win 0 7 0 refl refl (omega arith)))
          (push_start 1 8 refl))
        (push_look 1 8 1 refl))
      (push_win 1 8 1 refl refl (omega arith)),
)

exclusive_cell_example : ◌≡◌ {A = ℕ} 1 1
unfolding update
exclusive_cell_example =
    exclusive_cell {k = 1} (omega arith) (omega arith) both_won.1 1 1 1 1 refl refl refl

-- A second record fills the two cells, and a third push looks at cell 0.
abbrev crowded : (s : System) × Reach 1 s
unfolding update
crowded = (
  _,
  next
      (next
        (next
          (next (next (next pushed.1 (push_start 1 8 refl)) (push_look 1 8 1 refl))
            (push_win 1 8 1 refl refl (omega arith)))
          (push_write 1 8 1 refl))
        (push_publish 1 8 1 refl))
      (push_start 2 9 refl),
)

push_refused_example : (crowded.0.enqueue_pos ≡ 2) × (crowded.0.lap 0 + 2 ≡ 2)
unfolding update
push_refused_example = push_refused {k = 1} (omega arith) (omega arith) crowded.1 2 9 2 refl refl

abbrev starved : (s : System) × Reach 1 s
unfolding update
starved = (_, next here (pop_start 0 refl))

pop_refused_example : (starved.0.dequeue_pos ≡ 0) × (¬ Published 1 starved.0 0)
unfolding update
pop_refused_example = pop_refused {k = 1} (omega arith) (omega arith) starved.1 0 0 refl refl
