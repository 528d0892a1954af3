-- ===== src/Spmc/Safety.antt =====
-- What a consumer of an `SpmcRing` sees of a producer that never waits for it.
use animus_core_v.Base.{ℕ, ◌+◌, ◌^◌, ◌≤◌, ◌<◌, ◌≡◌, refl, inl, inr, ◌⊎◌, ◌*◌, arith, ◌-◌, lt→ltb}
use animus_core_v.Base.Words.{sub64}
use animus_core_v.Base.Bits.{pow_mono}
use animus_core_v.Spmc.{gone}
use animus_core_v.Spmc.System.{
  Writing, Reading, System, Step, Reach, start, broadcast_begin, broadcast_word, broadcast_end,
  broadcast_publish, poll_empty, poll_head, poll_word, poll_next, poll_settle, here, next, settled,
  compact,
}
use animus_core_v.Spmc.Invariant.{Inv, begun, marker, active}
use animus_core_v.Spmc.Producer.{after_begin, after_word, after_end, after_publish}
use animus_core_v.Spmc.Consumer.{after_empty, after_head, after_copy, after_next, after_settle}

-- An odd marker counts the broadcast in flight.
marker-begun :
    (w : Writing) (n seq : ℕ)
    → seq ≡ marker w n
    → (seq ≡ 2 * (n + active w)) ⊎ (seq + 1 ≡ 2 * (n + active w))
marker-begun Writing.idle n seq e = inl (omega arith)
marker-begun (Writing.storing v j) n seq e = inr (omega arith)
marker-begun Writing.ended n seq e = inl (omega arith)

module _ {k words : ℕ} where
  start-Inv : k ≤ 62 → Inv k words start
  start-Inv few = record {
    few = few;
    producing = record {
      bound = omega arith;
      seq = refl;
      published = refl;
      kept = λ i j h l n. elim l [ ];
      fresh = λ j h. elim h [ ];
      content = λ v i j e. absurd (cc);
    };
    tail = omega arith;
    counted = refl;
    copying = λ first n i j e. absurd (cc);
  }

  -- Every step of the producer and of the consumer keeps the invariant.
  pub Step-keeps : {s t : System} → Step (2 ^ k) words s t → Inv k words s → Inv k words t
  Step-keeps (broadcast_begin v e b) inv = after_begin inv v e b
  Step-keeps (broadcast_word v j e l) inv = after_word inv v j e l
  Step-keeps (broadcast_end v e) inv = after_end inv v e
  Step-keeps (broadcast_publish e) inv = after_publish inv e
  Step-keeps (poll_empty max_count e b) inv = after_empty inv e
  Step-keeps (poll_head max_count e b) inv = after_head inv max_count
  Step-keeps (poll_word first n i j e l h) inv = after_copy inv first n i j e l h
  Step-keeps (poll_next first n i e l) inv = after_next inv first n i e l
  Step-keeps (poll_settle first n e) inv = after_settle inv first n e

  Reach-keeps : {s t : System} → Inv k words s → Reach (2 ^ k) words s t → Inv k words t
  Reach-keeps inv here = inv
  Reach-keeps inv (next r st) = Step-keeps st (Reach-keeps inv r)

  -- A record of the batch that is not among the lapped ones was not recycled before the check.
  not_lapped :
      (s : System) (first n m : ℕ)
      → Inv k words s
      → first + n ≤ s.producer_head
      → m < n
      → gone s.write_seq (2 ^ k) first n ≤ m
      → begun s ≤ first + m + 2 ^ k
  unfolding gone
  not_lapped s first n m inv reach l g =
      let p = inv.producing in
      let seq : (s.write_seq ≡ 2 * begun s) ⊎ (s.write_seq + 1 ≡ 2 * begun s) =
        marker-begun s.writing s.producer_head s.write_seq p.seq in
      ground (arith, p.bound, inv.few, pow_mono k 62 inv.few)

  -- Whatever the interleaving of a producer that overwrites freely with a consumer, a poll returns
  -- at the front of its buffer the broadcast records from its first intact one on, in order and word
  -- for word: no torn and no foreign record is among those that it returns.
  pub no_torn_record :
      k ≤ 62
      → {s : System} → Reach (2 ^ k) words start s
      → (first n i x : ℕ) → s.reading ≡ Reading.copying first n n 0
      → i < n - gone s.write_seq (2 ^ k) first n
      → x < words
      → (settled (2 ^ k) first n s).out i x
        ≡ s.sent (first + (i + gone s.write_seq (2 ^ k) first n)) x
  unfolding compact
  no_torn_record few {s = s} r first n i x e l h =
      let inv = Reach-keeps (start-Inv few) r in
      let b = inv.copying first n n 0 e in
      let lapped = gone s.write_seq (2 ^ k) first n in
      rw (lt→ltb i (n - lapped) l) (
        b.intact (i + lapped) x (omega arith) h (inl (omega arith))
          (not_lapped s first n (i + lapped) inv b.reaches (omega arith) (omega arith)))

  -- At every moment of every run, the records that the consumer has got, those counted as overrun
  -- and those still to read make up the number of records published, with no wrap in the counts.
  pub conservation :
      k ≤ 62
      → {s : System} → Reach (2 ^ k) words start s
      → (s.returned + s.reader.overrun_count + sub64 s.head s.reader.local_tail ≡ s.head)
        × (s.reader.local_tail ≤ s.head)
  conservation few {s = s} r =
      let inv = Reach-keeps (start-Inv few) r in
      let p = inv.producing in
      (
        omega (arith, inv.counted, inv.tail, p.published, p.bound),
        omega (arith, inv.tail, p.published),
      )
