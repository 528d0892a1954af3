-- ===== src/Mpmc/Invariant.antt =====
-- What holds between two steps on an `ShmRingMpmc` of include/animus/shm_ipc.hpp.
use animus_core_v.Base.{ℕ, ◌+◌, ◌%◌, ◌^◌, ◌≤◌, ◌<◌, ◌≡◌, ◌⊎◌, Bool, true, false, none, some}
use animus_core_v.Mpmc.System.{Thread, System}

abbrev pub one_if : Bool → ℕ → ℕ
one_if true n = n
one_if false n = 0

-- Position `pos` is published, or was.
abbrev pub Published : ℕ → System → ℕ → Type 0
Published k s pos =
    (pos < s.lap (pos % 2 ^ k)) ⊎ ((pos ≡ s.lap (pos % 2 ^ k)) × (s.full (pos % 2 ^ k) ≡ true))

-- What is known of a thread where it stands.
pub data Stands (k : ℕ) (s : System) (t : ℕ) : Thread → Type 0 where
  idle : Stands k s t Thread.idle
  push_at : {v pos : ℕ} → pos ≤ s.enqueue_pos → Stands k s t (Thread.push_at v pos)
  push_claim :
      {v pos : ℕ}
      → pos ≤ s.enqueue_pos
      → pos ≤ s.lap (pos % 2 ^ k)
      → Stands k s t (Thread.push_claim v pos)
  push_store :
      {v pos : ℕ}
      → pos < s.enqueue_pos
      → s.lap (pos % 2 ^ k) ≡ pos
      → s.full (pos % 2 ^ k) ≡ false
      → s.producer pos ≡ t
      → s.sent pos ≡ v
      → Stands k s t (Thread.push_store v pos)
  push_release :
      {v pos : ℕ}
      → pos < s.enqueue_pos
      → s.lap (pos % 2 ^ k) ≡ pos
      → s.full (pos % 2 ^ k) ≡ false
      → s.producer pos ≡ t
      → s.sent pos ≡ v
      → s.value (pos % 2 ^ k) ≡ v
      → Stands k s t (Thread.push_release v pos)
  pop_at : {pos : ℕ} → pos ≤ s.dequeue_pos → Stands k s t (Thread.pop_at pos)
  pop_claim :
      {pos : ℕ} → pos ≤ s.dequeue_pos → Published k s pos → Stands k s t (Thread.pop_claim pos)
  pop_load :
      {pos : ℕ}
      → pos < s.dequeue_pos
      → s.lap (pos % 2 ^ k) ≡ pos
      → s.full (pos % 2 ^ k) ≡ true
      → s.consumer pos ≡ t
      → s.got pos ≡ none
      → Stands k s t (Thread.pop_load pos)
  pop_release :
      {pos x : ℕ}
      → pos < s.dequeue_pos
      → s.lap (pos % 2 ^ k) ≡ pos
      → s.full (pos % 2 ^ k) ≡ true
      → s.consumer pos ≡ t
      → s.got pos ≡ some x
      → Stands k s t (Thread.pop_release pos x)

-- What holds of a cell.
pub record Slot (k : ℕ) (s : System) (i : ℕ) : Type 0 where
  pub word : s.sequence i ≡ s.lap i + one_if (s.full i) 1
  pub place : s.lap i % 2 ^ k ≡ i
  pub claims : s.enqueue_pos ≤ s.lap i + 2 ^ k
  pub takes : s.dequeue_pos ≤ s.lap i + one_if (s.full i) (2 ^ k)
  pub near : s.lap i < s.dequeue_pos + 2 ^ k
  pub filled : s.full i ≡ true → s.lap i < s.enqueue_pos
  pub content : s.full i ≡ true → s.value i ≡ s.sent (s.lap i)

pub record Inv (k : ℕ) (s : System) : Type 0 where
  pub two : 1 ≤ k
  pub few : k ≤ 61
  pub bound : s.enqueue_pos + 2 ^ k + 2 < 2 ^ 63
  pub order : s.dequeue_pos ≤ s.enqueue_pos
  pub slot : (i : ℕ) → i < 2 ^ k → Slot k s i
  pub stands : (t : ℕ) → Stands k s t (s.threads t)
  pub taken : (p x : ℕ) → s.got p ≡ some x → (p < s.dequeue_pos) × (x ≡ s.sent p)
  pub untaken : (p : ℕ) → s.dequeue_pos ≤ p → s.got p ≡ none
