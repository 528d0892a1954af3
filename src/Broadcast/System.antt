-- ===== src/Broadcast/System.antt =====
-- The writer of a `BroadcastRing<T>` (include/animus/broadcast_ring.hpp) and any number of readers,
-- with `publish` and `poll` cut at each access of shared memory. A record is `words` machine words,
-- each copied by an access of its own. The accesses are taken to be sequentially consistent.
use animus_core_v.Base.{ℕ, suc, ◌+◌, ◌-◌, ◌<◌, ◌≡◌, ◌≢◌, ◌^◌, bit_and, ltb, if◌then◌else◌}
use animus_core_v.Base.Words.{add64, sub64}
use animus_core_v.Base.Tables.{update}
use animus_core_v.Spmc.System.{put, put_row}
use animus_core_v.Broadcast.{snap, batch, lost}

-- Where `publish` is: `storing v j` has stored the first `j` words of `v`.
pub data Writing : Type 0 where
  idle : Writing
  storing : (ℕ → ℕ) → ℕ → Writing

-- Where `poll` is: `copying first n i j` has copied `i` of `n` records, and `j` words of the next.
pub data Polling : Type 0 where
  idle : Polling
  copying : ℕ → ℕ → ℕ → ℕ → Polling

-- What a reader keeps for itself: `read_`, `dropped_`, the buffer, and how many records its polls
-- have returned so far, a history.
pub record View : Type 0 where
  pub read : ℕ
  pub dropped : ℕ
  pub polling : Polling
  pub out : ℕ → ℕ → ℕ
  pub delivered : ℕ

-- `sent` is a history: the words of every published record.
pub record System : Type 0 where
  pub slots : ℕ → ℕ → ℕ
  pub cursor : ℕ
  pub writing : Writing
  pub views : ℕ → View
  pub sent : ℕ → ℕ → ℕ

abbrev pub start : System
start = record {
  slots = λ i j. 0;
  cursor = 0;
  writing = Writing.idle;
  views =
      λ r. record { read = 0; dropped = 0; polling = Polling.idle; out = λ i j. 0; delivered = 0 };
  sent = λ i j. 0;
}

-- `poll` up to its copy loop.
abbrev pub snapped : ℕ → ℕ → View → View
snapped capacity c v = record v {
  read = (snap capacity c v.read v.dropped).0;
  dropped = (snap capacity c v.read v.dropped).1;
}

abbrev pub opened : ℕ → ℕ → ℕ → View → View
opened capacity c max_count v =
    let w = snapped capacity c v in
    record w { polling = Polling.copying w.read (batch c w.read max_count) 0 0 }

-- One word of the copy loop, and the end of a record.
abbrev pub copied : ℕ → (ℕ → ℕ → ℕ) → ℕ → ℕ → ℕ → ℕ → View → View
copied capacity slots first n i j v = record v {
  out = put v.out i j (slots (bit_and (add64 first i) (sub64 capacity 1)) j);
  polling = Polling.copying first n i (suc j);
}

-- The `memmove` that drops the first `gone` records of `n`.
unfoldable pub moved : ℕ → ℕ → (ℕ → ℕ → ℕ) → ℕ → ℕ → ℕ
moved gone n out i j = if ltb i (n - gone) then out (i + gone) j else out i j

abbrev pub closed : ℕ → ℕ → ℕ → ℕ → View → View
closed capacity c2 first n v = record v {
  read = add64 first n;
  dropped = add64 v.dropped (lost c2 capacity first n);
  polling = Polling.idle;
  out = moved (lost c2 capacity first n) n v.out;
  delivered = v.delivered + (n - lost c2 capacity first n);
}

-- A run ends before record number 2 ^ 63 - 2.
pub data Step (capacity words : ℕ) (s : System) : System → Type 0 where
  publish_begin :
      (v : ℕ → ℕ)
      → s.writing ≡ Writing.idle
      → s.cursor + 2 < 2 ^ 63
      → Step capacity words s
          (record s { writing = Writing.storing v 0; sent = put_row s.sent s.cursor v })
  publish_word :
      (v : ℕ → ℕ) (j : ℕ)
      → s.writing ≡ Writing.storing v j
      → j < words
      → Step capacity words s (record s {
        slots = put s.slots (bit_and s.cursor (sub64 capacity 1)) j (v j);
        writing = Writing.storing v (suc j);
      })
  publish_end :
      (v : ℕ → ℕ)
      → s.writing ≡ Writing.storing v words
      → Step capacity words s (record s { cursor = add64 s.cursor 1; writing = Writing.idle })
  poll_empty :
      (r max_count : ℕ)
      → (s.views r).polling ≡ Polling.idle
      → batch s.cursor (snapped capacity s.cursor (s.views r)).read max_count ≡ 0
      → Step capacity words s
          (record s { views = update s.views r (snapped capacity s.cursor (s.views r)) })
  poll_open :
      (r max_count : ℕ)
      → (s.views r).polling ≡ Polling.idle
      → batch s.cursor (snapped capacity s.cursor (s.views r)).read max_count ≢ 0
      → Step capacity words s
          (record s { views = update s.views r (opened capacity s.cursor max_count (s.views r)) })
  poll_word :
      (r first n i j : ℕ)
      → (s.views r).polling ≡ Polling.copying first n i j
      → i < n
      → j < words
      → Step capacity words s
          (record s { views = update s.views r (copied capacity s.slots first n i j (s.views r)) })
  poll_next :
      (r first n i : ℕ)
      → (s.views r).polling ≡ Polling.copying first n i words
      → i < n
      → Step capacity words s (record s {
        views =
            update s.views r (record (s.views r) { polling = Polling.copying first n (suc i) 0 });
      })
  poll_close :
      (r first n : ℕ)
      → (s.views r).polling ≡ Polling.copying first n n 0
      → Step capacity words s
          (record s { views = update s.views r (closed capacity s.cursor first n (s.views r)) })

pub data Reach (capacity words : ℕ) : System → Type 0 where
  here : Reach capacity words start
  next : {s t : System} → Reach capacity words s → Step capacity words s t → Reach capacity words t
