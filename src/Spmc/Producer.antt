-- ===== src/Spmc/Producer.antt =====
-- The steps of `broadcast` keep the invariant of an `SpmcRing` and its consumer.
use animus_core_v.Base.{
  ℕ, suc, ◌+◌, ◌*◌, ◌%◌, ◌^◌, ◌≤◌, ◌<◌, ◌≡◌, refl, sym, ap, ◌∙◌, inl, inr, arith, bit_and,
  ℕ_discrete,
}
use animus_core_v.Base.Words.{add64, sub64}
use animus_core_v.Base.Bits.{mod-ne}
use animus_core_v.Spmc.{begin_value, end_value}
use animus_core_v.Spmc.System.{Writing, Reading, System, put, put_row}
use animus_core_v.Spmc.Invariant.{
  Inv, Batch, begun, active, marker, word_of, put_same, put_other, put_row_same, put_row_other,
  slot_of,
}

module _ {k words : ℕ} {s : System} (inv : Inv k words s) where
  pub after_begin :
      (v : ℕ → ℕ)
      → s.writing ≡ Writing.idle
      → s.producer_head + 2 < 2 ^ 63
      → Inv k words (record s {
        write_seq = begin_value s.producer_head;
        writing = Writing.storing v 0;
        sent = put_row s.sent s.producer_head v;
      })
  after_begin v e b =
      let p = inv.producing in
      let still : begun s ≡ s.producer_head = omega (arith, ap active e) in
      record {
        few = inv.few;
        producing = record {
          bound = omega arith;
          seq = omega arith;
          published = p.published;
          kept = λ i j h l n.
              p.kept i j h l (omega arith)
              ∙ sym (put_row_other s.sent s.producer_head v i j (omega arith));
          fresh = λ j h. elim h [ ];
          content = λ v' i j e'.
              put_row_same s.sent s.producer_head v j ∙ ap (λ (w : Writing). word_of w j) e';
        };
        tail = inv.tail;
        counted = inv.counted;
        copying = λ first n i j e'.
            let c = inv.copying first n i j e' in
            record {
              from = c.from;
              reaches = c.reaches;
              within = c.within;
              intact = λ m x l h d g.
                  c.intact m x l h d (omega arith)
                  ∙ sym (
                      put_row_other s.sent s.producer_head v (first + m) x
                        (omega (arith, c.reaches)));
            };
      }

  -- A step that stores into the slots or moves the producer leaves the consumer's side as it is.
  kept_copying :
      (slots : ℕ → ℕ → ℕ) (seq head : ℕ) (writing : Writing)
      → active writing ≡ active s.writing
      → (first n i j : ℕ) → s.reading ≡ Reading.copying first n i j
      → Batch k words (record s { slots = slots; write_seq = seq; writing = writing }) first n i j
  kept_copying slots seq head writing same first n i j e =
      let c = inv.copying first n i j e in
      record {
        from = c.from;
        reaches = c.reaches;
        within = c.within;
        intact = λ m x l h d g. c.intact m x l h d (omega arith);
      }

  pub after_word :
      (v : ℕ → ℕ) (j : ℕ)
      → s.writing ≡ Writing.storing v j
      → j < words
      → Inv k words (record s {
        slots = put s.slots (bit_and s.producer_head (sub64 (2 ^ k) 1)) j (v j);
        writing = Writing.storing v (suc j);
      })
  after_word v j e room =
      let p = inv.producing in
      let going : active s.writing ≡ 1 = ap active e in
      let place : bit_and s.producer_head (sub64 (2 ^ k) 1) ≡ s.producer_head % 2 ^ k =
        slot_of k s.producer_head inv.few (omega (arith, p.bound)) in
      record {
        few = inv.few;
        producing = record {
          bound = omega (arith, p.bound);
          seq = p.seq ∙ ap (λ (w : Writing). marker w s.producer_head) e;
          published = p.published;
          kept = λ i x h l n.
              put_other s.slots _ j (v j) (i % 2 ^ k) x
                (inl (λ q. mod-ne i s.producer_head (2 ^ k) l (omega arith) (q ∙ place)))
              ∙ p.kept i x h l (omega arith);
          fresh = λ x h. word_fresh place x h;
          content = λ v' i x e'. p.content v j x e ∙ ap (λ (w : Writing). word_of w x) e';
        };
        tail = inv.tail;
        counted = inv.counted;
        copying = kept_copying _ _ 0 (Writing.storing v (suc j)) (sym going);
      }
    where
      word_fresh :
          bit_and s.producer_head (sub64 (2 ^ k) 1) ≡ s.producer_head % 2 ^ k
          → (x : ℕ) → x < suc j
          → put s.slots
              (bit_and s.producer_head (sub64 (2 ^ k) 1))
              j
              (v j)
              (s.producer_head % 2 ^ k)
              x
            ≡ s.sent s.producer_head x
      word_fresh place x h = elim (ℕ_discrete x j) [
        | yes q ↦
            rw (place, q)
              (put_same s.slots (s.producer_head % 2 ^ k) j (v j)
                ∙ sym (inv.producing.content v j j e))
        | no q ↦
            put_other s.slots _ j (v j) (s.producer_head % 2 ^ k) x (inr q)
            ∙ inv.producing.fresh x (rw e (omega (arith, q)))
      ]

  pub after_end :
      (v : ℕ → ℕ)
      → s.writing ≡ Writing.storing v words
      → Inv k words (record s { write_seq = end_value s.producer_head; writing = Writing.ended })
  after_end v e =
      let p = inv.producing in
      let going : active s.writing ≡ 1 = ap active e in
      record {
        few = inv.few;
        producing = record {
          bound = omega (arith, p.bound);
          seq = omega (arith, p.bound);
          published = p.published;
          kept = λ i x h l n. p.kept i x h l (omega arith);
          fresh = λ x h. p.fresh x (rw e h);
          content = λ v' i x e'. absurd (cc);
        };
        tail = inv.tail;
        counted = inv.counted;
        copying = kept_copying _ _ 0 Writing.ended (sym going);
      }

  pub after_publish :
      s.writing ≡ Writing.ended
      → Inv k words (record s {
        head = add64 s.producer_head 1;
        producer_head = add64 s.producer_head 1;
        writing = Writing.idle;
      })
  after_publish e =
      let p = inv.producing in
      let going : active s.writing ≡ 1 = ap active e in
      let advanced : add64 s.producer_head 1 ≡ s.producer_head + 1 = omega (arith, p.bound) in
      let seq : s.write_seq ≡ 2 * s.producer_head + 2 =
        p.seq ∙ ap (λ (w : Writing). marker w s.producer_head) e in
      record {
        few = inv.few;
        producing = record {
          bound = omega (arith, p.bound);
          seq = omega arith;
          published = refl;
          kept = λ i x h l n. published_kept i x h (omega arith) (omega arith);
          fresh = λ x h. elim h [ ];
          content = λ v' i x e'. absurd (cc);
        };
        tail = omega (arith, inv.tail);
        counted = inv.counted;
        copying = λ first n i j e'.
            let c = inv.copying first n i j e' in
            record {
              from = c.from;
              reaches = omega (arith, c.reaches);
              within = c.within;
              intact = λ m x l h d g. c.intact m x l h d (omega arith);
            };
      }
    where
      published_kept :
          (i x : ℕ)
          → x < words
          → i < s.producer_head + 1
          → s.producer_head + 1 ≤ i + 2 ^ k
          → s.slots (i % 2 ^ k) x ≡ s.sent i x
      published_kept i x h l n = elim (ℕ_discrete i s.producer_head) [
        | yes q ↦ rw q (inv.producing.fresh x (rw e h))
        | no q ↦
            let going : active s.writing ≡ 1 = ap active e in
            inv.producing.kept i x h (omega (arith, q)) (omega arith)
      ]
