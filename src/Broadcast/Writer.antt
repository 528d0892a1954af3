-- ===== src/Broadcast/Writer.antt =====
-- The steps of `publish` of a `BroadcastRing` (include/animus/broadcast_ring.hpp) keep what holds
-- of it and of its readers.
use animus_core_v.Base.{
  ℕ, suc, ◌+◌, ◌%◌, ◌^◌, ◌≤◌, ◌<◌, ◌≡◌, refl, sym, ap, ◌∙◌, inl, inr, arith, bit_and, ℕ_discrete,
}
use animus_core_v.Base.Words.{add64, sub64}
use animus_core_v.Base.Bits.{mod-ne}
use animus_core_v.Spmc.System.{put, put_row}
use animus_core_v.Spmc.Invariant.{put_same, put_other, put_row_same, put_row_other, slot_of}
use animus_core_v.Broadcast.System.{Writing, View, System}
use animus_core_v.Broadcast.Invariant.{Inv, Reads, active, word_of}

-- A reader is not disturbed by a writer that goes on.
Reads-mono :
    {k words c b c' b' : ℕ} {sent sent' : ℕ → ℕ → ℕ} {v : View}
    → c ≤ c'
    → b ≤ b'
    → ((i x : ℕ) → i < c → sent' i x ≡ sent i x)
    → Reads k words c b sent v
    → Reads k words c' b' sent' v
Reads-mono l g same r = record {
  behind = omega (arith, r.behind);
  counted = r.counted;
  copying = λ first n i j e.
      let p = r.copying first n i j e in
      record {
        from = p.from;
        reaches = omega (arith, p.reaches);
        within = p.within;
        intact = λ m x h w d q.
            p.intact m x h w d (omega arith) ∙ sym (same (first + m) x (omega (arith, p.reaches)));
      };
}

module _ {k words : ℕ} {s : System} (inv : Inv k words s) where
  pub after_publish_begin :
      (v : ℕ → ℕ)
      → s.writing ≡ Writing.idle
      → s.cursor + 2 < 2 ^ 63
      → Inv k words (record s { writing = Writing.storing v 0; sent = put_row s.sent s.cursor v })
  after_publish_begin v e room =
      let p = inv.written in
      let quiet : active s.writing ≡ 0 = ap active e in
      let same : (i x : ℕ) → i < s.cursor → put_row s.sent s.cursor v i x ≡ s.sent i x =
        λ i x l. put_row_other s.sent s.cursor v i x (omega arith) in
      record {
        few = inv.few;
        two = inv.two;
        written = record {
          bound = omega arith;
          kept = λ i j h l g. p.kept i j h l (omega arith) ∙ sym (same i j l);
          fresh = λ j h. elim h [ ];
          content =
              λ w i j q. put_row_same s.sent s.cursor v j ∙ ap (λ (z : Writing). word_of z j) q;
        };
        reads = λ r. Reads-mono (omega arith) (omega (arith, quiet)) same (inv.reads r);
      }

  pub after_publish_word :
      (v : ℕ → ℕ) (j : ℕ)
      → s.writing ≡ Writing.storing v j
      → j < words
      → Inv k words (record s {
        slots = put s.slots (bit_and s.cursor (sub64 (2 ^ k) 1)) j (v j);
        writing = Writing.storing v (suc j);
      })
  after_publish_word v j e room =
      let p = inv.written in
      let going : active s.writing ≡ 1 = ap active e in
      let spot : bit_and s.cursor (sub64 (2 ^ k) 1) ≡ s.cursor % 2 ^ k =
        slot_of k s.cursor (omega (arith, inv.few)) (omega (arith, p.bound)) in
      record {
        few = inv.few;
        two = inv.two;
        written = record {
          bound = omega (arith, p.bound, going);
          kept = λ i x h l g.
              put_other s.slots _ j (v j) (i % 2 ^ k) x
                (inl (λ q. mod-ne i s.cursor (2 ^ k) l (omega arith) (q ∙ spot)))
              ∙ p.kept i x h l (omega (arith, going));
          fresh = λ x h. stored_word spot x h;
          content = λ w i x q. p.content v j x e ∙ ap (λ (z : Writing). word_of z x) q;
        };
        reads = λ r. Reads-mono (omega arith) (omega (arith, going)) (λ i x l. refl) (inv.reads r);
      }
    where
      stored_word :
          bit_and s.cursor (sub64 (2 ^ k) 1) ≡ s.cursor % 2 ^ k
          → (x : ℕ) → x < suc j
          → put s.slots (bit_and s.cursor (sub64 (2 ^ k) 1)) j (v j) (s.cursor % 2 ^ k) x
            ≡ s.sent s.cursor x
      stored_word spot x h = elim (ℕ_discrete x j) [
        | yes q ↦
            rw (spot, q)
              (put_same s.slots (s.cursor % 2 ^ k) j (v j) ∙ sym (inv.written.content v j j e))
        | no q ↦
            put_other s.slots _ j (v j) (s.cursor % 2 ^ k) x (inr q)
            ∙ inv.written.fresh x (rw e (omega (arith, q)))
      ]

  pub after_publish_end :
      (v : ℕ → ℕ)
      → s.writing ≡ Writing.storing v words
      → Inv k words (record s { cursor = add64 s.cursor 1; writing = Writing.idle })
  after_publish_end v e =
      let p = inv.written in
      let going : active s.writing ≡ 1 = ap active e in
      let up : add64 s.cursor 1 ≡ s.cursor + 1 = omega (arith, p.bound) in
      record {
        few = inv.few;
        two = inv.two;
        written = record {
          bound = omega (arith, p.bound, going, up);
          kept = λ i x h l g. newest i x h (omega (arith, up)) (omega (arith, up));
          fresh = λ x h. elim h [ ];
          content = λ w i x q. absurd (cc);
        };
        reads = λ r.
            Reads-mono (omega (arith, up)) (omega (arith, going, up)) (λ i x l. refl) (inv.reads r);
      }
    where
      newest :
          (i x : ℕ)
          → x < words
          → i < s.cursor + 1
          → s.cursor + 1 ≤ i + 2 ^ k
          → s.slots (i % 2 ^ k) x ≡ s.sent i x
      newest i x h l g = elim (ℕ_discrete i s.cursor) [
        | yes q ↦ rw q (inv.written.fresh x (rw e h))
        | no q ↦
            let going : active s.writing ≡ 1 = ap active e in
            inv.written.kept i x h (omega (arith, q)) (omega (arith, going))
      ]
