-- ===== src/Cluster/Committed.antt =====
-- The committed entries of a node of AnimusCore_v1/animus_cluster.hpp, and its engine, over the
-- requests that `handle_append_entries` gets.
use animus_core_v.Base.{ℕ, ◌+◌, ◌-◌, ◌≤◌, ◌<◌, ◌≡◌, ◌⊎◌, List, length, min}
use animus_core_v.Cluster.{LogEntry, Node, AppendEntriesHeader, AppendEntriesResult, term_at}

-- A request that agrees with the committed entries of a node, as those of every leader do in Raft.
pub record Agrees (hdr : AppendEntriesHeader) (entries : List LogEntry) (n : Node) : Type 0 where
  pub before :
      0 < hdr.prev_log_index
      → hdr.prev_log_index ≤ n.commit_index
      → term_at n.log (hdr.prev_log_index - 1) ≡ hdr.prev_log_term
  pub new :
      (k : ℕ)
      → k < length entries
      → hdr.prev_log_index + k < n.commit_index
      → term_at n.log (hdr.prev_log_index + k) ≡ term_at entries k

-- The commit index has followed that of the leader as far as the log goes, and either nothing was
-- committed or applied, or every committed entry is applied.
abbrev pub Followed : ℕ → Node → Node → Type 0
Followed leader_commit n n' =
    (min leader_commit (length n'.log) ≤ n'.commit_index)
    × (((n'.commit_index ≡ n.commit_index) × (n'.last_applied ≡ n.last_applied))
        ⊎ (n'.last_applied ≡ n'.commit_index))

-- A refused request commits and applies nothing, an accepted one what the leader has committed.
abbrev pub Replied : AppendEntriesHeader → Node → Node → AppendEntriesResult → Type 0
Replied hdr n n' r =
    ((r.success ≡ 0) × (n'.commit_index ≡ n.commit_index) × (n'.last_applied ≡ n.last_applied))
    ⊎ ((r.success ≡ 1) × Followed hdr.leader_commit n n')
