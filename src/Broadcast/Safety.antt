-- ===== src/Broadcast/Safety.antt =====
-- What the readers of a `BroadcastRing` (include/animus/broadcast_ring.hpp) get from a writer that
-- never waits for them.
use native.Mathlib.Nat.{one-le-pow}
use animus_core_v.Base.{ℕ, ◌+◌, ◌-◌, ◌*◌, ◌^◌, ◌≤◌, ◌<◌, ◌≡◌, refl, inl, arith, true, some, lt→ltb}
use animus_core_v.Base.Bits.{pow_mono}
use animus_core_v.Base.Words.{sub64}
use animus_core_v.Broadcast.{BroadcastHeader, header_bytes, required_bytes, init, attach, lost}
use animus_core_v.Broadcast.System.{
  Writing, Polling, System, Step, Reach, start, closed, moved, publish_begin, publish_word,
  publish_end, poll_empty, poll_open, poll_word, poll_next, poll_close, here, next,
}
use animus_core_v.Broadcast.Invariant.{Inv, active}
use animus_core_v.Broadcast.Writer.{after_publish_begin, after_publish_word, after_publish_end}
use animus_core_v.Broadcast.Reader.{
  after_poll_empty, after_poll_open, after_poll_word, after_poll_next, after_poll_close,
}

-- Every step of the writer and of a reader keeps the invariant.
Step-keeps : {k words : ℕ} {s t : System} → Step (2 ^ k) words s t → Inv k words s → Inv k words t
Step-keeps (publish_begin v e b) inv = after_publish_begin inv v e b
Step-keeps (publish_word v j e l) inv = after_publish_word inv v j e l
Step-keeps (publish_end v e) inv = after_publish_end inv v e
Step-keeps (poll_empty r max_count e b) inv = after_poll_empty inv r e
Step-keeps (poll_open r max_count e b) inv = after_poll_open inv r max_count
Step-keeps (poll_word r first n i j e l h) inv = after_poll_word inv r first n i j e l h
Step-keeps (poll_next r first n i e l) inv = after_poll_next inv r first n i e l
Step-keeps (poll_close r first n e) inv = after_poll_close inv r first n e

start-Inv : {k words : ℕ} → 1 ≤ k → k ≤ 61 → Inv k words start
start-Inv two few = record {
  few = few;
  two = two;
  written = record {
    bound = omega arith;
    kept = λ i j h l n. elim l [ ];
    fresh = λ j h. elim h [ ];
    content = λ v i j e. absurd (cc);
  };
  reads =
      λ r. record { behind = omega arith; counted = refl; copying = λ first n i j e. absurd (cc) };
}

Reach-Inv : {k words : ℕ} {s : System} → 1 ≤ k → k ≤ 61 → Reach (2 ^ k) words s → Inv k words s
Reach-Inv two few here = start-Inv two few
Reach-Inv two few (next r st) = Step-keeps st (Reach-Inv two few r)

-- A record that is not lost was not being recycled.
lost-recycled :
    (k c first n m a : ℕ)
    → k ≤ 61
    → c < 2 ^ 63
    → a ≤ 1
    → first + n ≤ c
    → m < n
    → lost c (2 ^ k) first n ≤ m
    → c + a ≤ first + m + 2 ^ k
unfolding lost
lost-recycled k c first n m a few b one l h g =
    ground (arith, pow_mono k 61 few, one-le-pow k 2 (omega arith))

active-le : (w : Writing) → active w ≤ 1
active-le Writing.idle = omega arith
active-le (Writing.storing v j) = omega arith

-- Whatever the interleaving of a writer that overwrites freely with any number of readers, a poll
-- returns the published records from its first intact one on, in order and word for word: no torn
-- and no foreign record is among those that it returns.
pub poll_returns_published :
    {k words : ℕ} {s : System}
    → 1 ≤ k
    → k ≤ 61
    → Reach (2 ^ k) words s
    → (r first n i x : ℕ) → (s.views r).polling ≡ Polling.copying first n n 0
    → i < n - lost s.cursor (2 ^ k) first n
    → x < words
    → (closed (2 ^ k) s.cursor first n (s.views r)).out i x
      ≡ s.sent (first + (i + lost s.cursor (2 ^ k) first n)) x
unfolding moved
poll_returns_published {k} {words} {s} two few run r first n i x e l h =
    let inv = Reach-Inv two few run in
    let gone = lost s.cursor (2 ^ k) first n in
    let b = (inv.reads r).copying first n n 0 e in
    let room =
      lost-recycled k s.cursor first n (i + gone) (active s.writing) few
        (omega (arith, inv.written.bound)) (active-le s.writing) b.reaches (omega arith)
        (omega arith) in
    rw (lt→ltb i (n - gone) l) (b.intact (i + gone) x (omega arith) h (inl (omega arith)) room)

-- At every moment, for every reader, the records that its polls have returned, those counted as
-- dropped and those still to read make up the number of records published, with no wrap.
pub accounted :
    {k words : ℕ} {s : System}
    → 1 ≤ k
    → k ≤ 61
    → Reach (2 ^ k) words s
    → (r : ℕ)
    → ((s.views r).delivered + (s.views r).dropped + sub64 s.cursor (s.views r).read ≡ s.cursor)
      × ((s.views r).read ≤ s.cursor)
accounted two few run r =
    let inv = Reach-Inv two few run in
    let v = inv.reads r in (omega (arith, v.counted, v.behind, inv.written.bound), v.behind)

-- What `init` writes, `attach` accepts for the same record size and memory at any later cursor.
pub attach-init :
    (size address bytes capacity cursor : ℕ) {h : BroadcastHeader}
    → header_bytes + capacity * size < 2 ^ 64
    → init size address bytes capacity ≡ some h
    → attach size address bytes (record h { cursor = cursor }) ≡ true
unfolding init attach required_bytes
attach-init size address bytes capacity cursor exact e = ground arith
