-- ===== src/Broadcast/Invariant.antt =====
-- What holds between two steps on a `BroadcastRing` of include/animus/broadcast_ring.hpp.
use animus_core_v.Base.{ℕ, ◌+◌, ◌%◌, ◌^◌, ◌≤◌, ◌<◌, ◌≡◌}
use animus_core_v.Spmc.Invariant.{Copied}
use animus_core_v.Broadcast.System.{Writing, Polling, View, System}

-- Whether a publication is under way, and the words that it has stored.
abbrev pub active : Writing → ℕ
active Writing.idle = 0
active (Writing.storing v j) = 1

abbrev pub stored : Writing → ℕ
stored Writing.idle = 0
stored (Writing.storing v j) = j

abbrev pub word_of : Writing → ℕ → ℕ
word_of (Writing.storing v i) j = v j
word_of _ j = 0

-- The number of publications that have begun.
abbrev pub begun : System → ℕ
begun s = s.cursor + active s.writing

pub record Written (k words : ℕ) (s : System) : Type 0 where
  pub bound : begun s + 1 < 2 ^ 63
  pub kept :
      (i j : ℕ)
      → j < words
      → i < s.cursor
      → begun s ≤ i + 2 ^ k
      → s.slots (i % 2 ^ k) j ≡ s.sent i j
  pub fresh : (j : ℕ) → j < stored s.writing → s.slots (s.cursor % 2 ^ k) j ≡ s.sent s.cursor j
  pub content : (v : ℕ → ℕ) (i j : ℕ) → s.writing ≡ Writing.storing v i → s.sent s.cursor j ≡ v j

pub record Batch (k words : ℕ) (cursor begun : ℕ) (sent : ℕ → ℕ → ℕ) (v : View) (first n i j : ℕ)
    : Type 0 where
  pub from : first ≡ v.read
  pub reaches : first + n ≤ cursor
  pub within : i ≤ n
  pub intact :
      (m x : ℕ)
      → m < n
      → x < words
      → Copied i j m x
      → begun ≤ first + m + 2 ^ k
      → v.out m x ≡ sent (first + m) x

-- A reader depends on the writer through the cursor, the publications begun, and the records.
pub record Reads (k words : ℕ) (cursor begun : ℕ) (sent : ℕ → ℕ → ℕ) (v : View) : Type 0 where
  pub behind : v.read ≤ cursor
  pub counted : v.delivered + v.dropped ≡ v.read
  pub copying :
      (first n i j : ℕ)
      → v.polling ≡ Polling.copying first n i j
      → Batch k words cursor begun sent v first n i j

pub record Inv (k words : ℕ) (s : System) : Type 0 where
  pub few : k ≤ 61
  pub two : 1 ≤ k
  pub written : Written k words s
  pub reads : (r : ℕ) → Reads k words s.cursor (begun s) s.sent (s.views r)
