-- ===== src/Mpmc/System.antt =====
-- Any number of threads on one `ShmRingMpmc<T>` (include/animus/shm_ipc.hpp), with `try_push` and
-- `try_pop` cut at each access of shared memory. The accesses are taken to be sequentially
-- consistent; a record is one number, stored and loaded by a step of its own.
use animus_core_v.Base.{ℕ, ◌+◌, ◌<◌, ◌≡◌, ◌^◌, Bool, true, false, Option, none, some, bit_and}
use animus_core_v.Base.Words.{add64}
use animus_core_v.Base.Tables.{update}
use animus_core_v.LockFree.{Sign, signed_diff}

-- Where a thread is. A push has loaded `pos`, has found the cell free for `pos`, has won `pos`, or
-- has stored its record; a pop has loaded `pos`, has found it published, has won it, or has loaded
-- the record.
pub data Thread : Type 0 where
  idle : Thread
  push_at : ℕ → ℕ → Thread
  push_claim : ℕ → ℕ → Thread
  push_store : ℕ → ℕ → Thread
  push_release : ℕ → ℕ → Thread
  pop_at : ℕ → Thread
  pop_claim : ℕ → Thread
  pop_load : ℕ → Thread
  pop_release : ℕ → ℕ → Thread

-- `sent`, `got`, `producer` and `consumer` are histories by position: the record of the push that
-- won it, what the pop that won it has loaded, and the threads. `lap` and `full` are histories by
-- cell: the position that it is used for, and whether that is published.
pub record System : Type 0 where
  pub sequence : ℕ → ℕ
  pub value : ℕ → ℕ
  pub enqueue_pos : ℕ
  pub dequeue_pos : ℕ
  pub threads : ℕ → Thread
  pub sent : ℕ → ℕ
  pub got : ℕ → Option ℕ
  pub producer : ℕ → ℕ
  pub consumer : ℕ → ℕ
  pub lap : ℕ → ℕ
  pub full : ℕ → Bool

-- What `create` leaves.
abbrev pub start : System
start = record {
  sequence = λ i. i;
  value = λ i. 0;
  enqueue_pos = 0;
  dequeue_pos = 0;
  threads = λ t. Thread.idle;
  sent = λ p. 0;
  got = λ p. none;
  producer = λ p. 0;
  consumer = λ p. 0;
  lap = λ i. i;
  full = λ i. false;
}

abbrev pub cell : ℕ → ℕ → ℕ
cell mask pos = bit_and pos mask

-- A thread goes on to its next access.
abbrev pub goes : System → ℕ → Thread → System
goes s t th = record s { threads = update s.threads t th }

-- The branch on the sequence word in `try_push`, and in `try_pop`.
abbrev pub push_branch : System → ℕ → ℕ → Sign → Thread
push_branch s v pos Sign.equal = Thread.push_claim v pos
push_branch s v pos Sign.behind = Thread.idle
push_branch s v pos Sign.ahead = Thread.push_at v s.enqueue_pos

abbrev pub pop_branch : System → ℕ → Sign → Thread
pop_branch s pos Sign.equal = Thread.pop_claim pos
pop_branch s pos Sign.behind = Thread.idle
pop_branch s pos Sign.ahead = Thread.pop_at s.dequeue_pos

abbrev pub push_won : System → ℕ → ℕ → ℕ → System
push_won s t v pos = record (goes s t (Thread.push_store v pos)) {
  enqueue_pos = add64 pos 1;
  sent = update s.sent pos v;
  producer = update s.producer pos t;
}

abbrev pub push_stored : ℕ → System → ℕ → ℕ → ℕ → System
push_stored c s t v pos = record (goes s t (Thread.push_release v pos)) {
  value = update s.value c v;
}

abbrev pub push_released : ℕ → System → ℕ → ℕ → System
push_released c s t pos = record (goes s t Thread.idle) {
  sequence = update s.sequence c (add64 pos 1);
  full = update s.full c true;
}

abbrev pub pop_won : System → ℕ → ℕ → System
pop_won s t pos = record (goes s t (Thread.pop_load pos)) {
  dequeue_pos = add64 pos 1;
  consumer = update s.consumer pos t;
}

abbrev pub pop_loaded : ℕ → System → ℕ → ℕ → System
pop_loaded c s t pos =
    let x = s.value c in
    record (goes s t (Thread.pop_release pos x)) { got = update s.got pos (some x) }

abbrev pub pop_released : ℕ → ℕ → System → ℕ → ℕ → System
pop_released c mask s t pos = record (goes s t Thread.idle) {
  sequence = update s.sequence c (add64 (add64 pos mask) 1);
  lap = update s.lap c (add64 (add64 pos mask) 1);
  full = update s.full c false;
}

-- The weak compare-exchange may fail at any time. A run ends before a position would pass
-- 2 ^ 63 less the capacity.
pub data Step (mask : ℕ) (s : System) : System → Type 0 where
  push_start :
      (t v : ℕ)
      → s.threads t ≡ Thread.idle
      → Step mask s (goes s t (Thread.push_at v s.enqueue_pos))
  push_look :
      (t v pos : ℕ)
      → s.threads t ≡ Thread.push_at v pos
      → Step mask s (goes s t (push_branch s v pos (signed_diff (s.sequence (cell mask pos)) pos)))
  push_fail :
      (t v pos : ℕ)
      → s.threads t ≡ Thread.push_claim v pos
      → Step mask s (goes s t (Thread.push_at v s.enqueue_pos))
  push_win :
      (t v pos : ℕ)
      → s.threads t ≡ Thread.push_claim v pos
      → s.enqueue_pos ≡ pos
      → pos + mask + 4 < 2 ^ 63
      → Step mask s (push_won s t v pos)
  push_write :
      (t v pos : ℕ)
      → s.threads t ≡ Thread.push_store v pos
      → Step mask s (push_stored (cell mask pos) s t v pos)
  push_publish :
      (t v pos : ℕ)
      → s.threads t ≡ Thread.push_release v pos
      → Step mask s (push_released (cell mask pos) s t pos)
  pop_start :
      (t : ℕ) → s.threads t ≡ Thread.idle → Step mask s (goes s t (Thread.pop_at s.dequeue_pos))
  pop_look :
      (t pos : ℕ)
      → s.threads t ≡ Thread.pop_at pos
      → Step mask s
          (goes s t (pop_branch s pos (signed_diff (s.sequence (cell mask pos)) (add64 pos 1))))
  pop_fail :
      (t pos : ℕ)
      → s.threads t ≡ Thread.pop_claim pos
      → Step mask s (goes s t (Thread.pop_at s.dequeue_pos))
  pop_win :
      (t pos : ℕ)
      → s.threads t ≡ Thread.pop_claim pos
      → s.dequeue_pos ≡ pos
      → Step mask s (pop_won s t pos)
  pop_read :
      (t pos : ℕ)
      → s.threads t ≡ Thread.pop_load pos
      → Step mask s (pop_loaded (cell mask pos) s t pos)
  pop_retire :
      (t pos x : ℕ)
      → s.threads t ≡ Thread.pop_release pos x
      → Step mask s (pop_released (cell mask pos) mask s t pos)

pub data Reach (mask : ℕ) : System → Type 0 where
  here : Reach mask start
  next : {s t : System} → Reach mask s → Step mask s t → Reach mask t
