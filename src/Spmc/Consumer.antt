-- ===== src/Spmc/Consumer.antt =====
-- The steps of `poll` keep the invariant of an `SpmcRing` and its consumer.
use animus_core_v.Base.{
  ℕ, suc, ◌+◌, ◌-◌, ◌%◌, ◌^◌, ◌≤◌, ◌<◌, ◌≡◌, ◌≢◌, sym, ap, ◌∙◌, ◌⊎◌, inl, inr, arith, bit_and,
  ℕ_discrete,
}
use animus_core_v.Base.Words.{add64, sub64}
use animus_core_v.Spmc.{Reader, catch_up, batch, gone, settle}
use animus_core_v.Spmc.System.{Reading, System, put, settled}
use animus_core_v.Spmc.Invariant.{Inv, Producing, begun, Copied, put_same, put_other, slot_of}

catch_up-counted :
    (capacity head returned : ℕ) (r : Reader)
    → head < 2 ^ 63
    → r.local_tail ≤ head
    → returned + r.overrun_count ≡ r.local_tail
    → (returned + (catch_up capacity head r).overrun_count ≡ (catch_up capacity head r).local_tail)
      × ((catch_up capacity head r).local_tail ≤ head)
unfolding catch_up
catch_up-counted capacity head returned r b h c = (ground arith, ground arith)

batch-le :
    (head max_count : ℕ) (r : Reader)
    → head < 2 ^ 63
    → r.local_tail ≤ head
    → r.local_tail + batch head max_count r ≤ head
unfolding batch
batch-le head max_count r b h = ground arith

gone-le : (seq capacity first n : ℕ) → gone seq capacity first n ≤ n
unfolding gone
gone-le seq capacity first n = ground arith

settle-counted :
    (lapped first n returned : ℕ) (r : Reader)
    → first + n < 2 ^ 63
    → first ≡ r.local_tail
    → lapped ≤ n
    → returned + r.overrun_count ≡ r.local_tail
    → (returned + (n - lapped) + (settle lapped first n r).overrun_count
        ≡ (settle lapped first n r).local_tail)
      × ((settle lapped first n r).local_tail ≡ first + n)
unfolding settle
settle-counted lapped first n returned r b f l c = (ground arith, ground arith)

module _ {k words : ℕ} {s : System} (inv : Inv k words s) where
  abbrev caught : Reader
  caught = catch_up (2 ^ k) s.head s.reader

  caught_up : (s.returned + caught.overrun_count ≡ caught.local_tail) × (caught.local_tail ≤ s.head)
  caught_up =
      catch_up-counted (2 ^ k) s.head s.returned s.reader
        (omega (arith, inv.producing.published, inv.producing.bound))
        (omega (arith, inv.tail, inv.producing.published)) inv.counted

  same_producer :
      (reader : Reader) (reading : Reading) (out : ℕ → ℕ → ℕ) (returned : ℕ)
      → Producing k words
          (record s { reader = reader; reading = reading; out = out; returned = returned })
  same_producer reader reading out returned =
      let p = inv.producing in
      record {
        bound = p.bound;
        seq = p.seq;
        published = p.published;
        kept = p.kept;
        fresh = p.fresh;
        content = p.content;
      }

  pub after_empty : s.reading ≡ Reading.idle → Inv k words (record s { reader = caught })
  after_empty e = record {
    few = inv.few;
    producing = same_producer caught s.reading s.out s.returned;
    tail = omega (arith, caught_up.1, inv.producing.published);
    counted = caught_up.0;
    copying = λ first n i j e'. absurd (cc);
  }

  batch_fields :
      (first n i j f' n' i' j' : ℕ)
      → Reading.copying first n i j ≡ Reading.copying f' n' i' j'
      → (first ≡ f') × (n ≡ n') × (i ≡ i') × (j ≡ j')
  batch_fields first n i j f' n' i' j' e = (cc, cc, cc, cc)

  pub after_head :
      (max_count : ℕ)
      → Inv k words (record s {
        reader = caught;
        reading = Reading.copying caught.local_tail (batch s.head max_count caught) 0 0;
      })
  after_head max_count = record {
    few = inv.few;
    producing = same_producer caught _ s.out s.returned;
    tail = omega (arith, caught_up.1, inv.producing.published);
    counted = caught_up.0;
    copying = λ first n i j e.
        let (f, b, c, d) = batch_fields _ _ 0 0 first n i j e in
        record {
          from = sym f;
          reaches = omega (
            arith,
            batch-le s.head max_count caught
                (omega (arith, inv.producing.published, inv.producing.bound)) caught_up.1,
            inv.producing.published,
          );
          within = omega arith;
          intact = λ m x l h copied g. absurd (nothing m x i j c d copied);
        };
  }
    where
      nothing : (m x i j : ℕ) → 0 ≡ i → 0 ≡ j → Copied i j m x → ⊥
      nothing m x i j c d (inl h) = omega arith
      nothing m x i j c d (inr (h, l)) = omega arith

  pub after_copy :
      (first n i j : ℕ)
      → s.reading ≡ Reading.copying first n i j
      → i < n
      → j < words
      → Inv k words (record s {
        out = put s.out i j (s.slots (bit_and (add64 first i) (sub64 (2 ^ k) 1)) j);
        reading = Reading.copying first n i (suc j);
      })
  after_copy first n i j e room low =
      let c = inv.copying first n i j e in
      record {
        few = inv.few;
        producing = same_producer s.reader _ _ s.returned;
        tail = inv.tail;
        counted = inv.counted;
        copying = λ f' n' i' j' e'.
            let (f, b, p, d) = batch_fields first n i (suc j) f' n' i' j' e' in
            record {
              from = sym f ∙ c.from;
              reaches = omega (arith, c.reaches);
              within = omega (arith, c.within);
              intact = λ m x l h copied g.
                  rw (← f) (word m x (omega arith) h (rw (p, d) copied) (rw f g));
            };
      }
    where
      place : bit_and (add64 first i) (sub64 (2 ^ k) 1) ≡ (first + i) % 2 ^ k
      place =
          let c = inv.copying first n i j e in
          let small : add64 first i ≡ first + i = omega (arith, c.reaches, inv.producing.bound) in
          ap (λ (t : ℕ). bit_and t (sub64 (2 ^ k) 1)) small
          ∙ slot_of k (first + i) inv.few (omega (arith, c.reaches, inv.producing.bound))

      earlier :
          (m x : ℕ)
          → Copied i (suc j) m x
          → ((m ≡ i) × (x ≡ j)) ⊎ (((m ≢ i) ⊎ (x ≢ j)) × Copied i j m x)
      earlier m x (inl h) = inr (inl (omega arith), inl h)
      earlier m x (inr (h, l)) = elim (ℕ_discrete x j) [
        | yes q ↦ inl (h, q)
        | no q ↦ inr (inr q, inr (h, omega (arith, q)))
      ]

      word :
          (m x : ℕ)
          → m < n
          → x < words
          → Copied i (suc j) m x
          → begun s ≤ first + m + 2 ^ k
          → put s.out i j (s.slots (bit_and (add64 first i) (sub64 (2 ^ k) 1)) j) m x
            ≡ s.sent (first + m) x
      word m x l h copied g =
          let c = inv.copying first n i j e in
          elim (earlier m x copied) [
            | inl (q, t) ↦
                rw (q, t)
                  (put_same s.out i j _
                    ∙ ap (λ (a : ℕ). s.slots a j) place
                    ∙ inv.producing.kept (first + i) j low (omega (arith, c.reaches)) (omega arith))
            | inr (ne, before) ↦ put_other s.out i j _ m x ne ∙ c.intact m x l h before g
          ]

  pub after_next :
      (first n i : ℕ)
      → s.reading ≡ Reading.copying first n i words
      → i < n
      → Inv k words (record s { reading = Reading.copying first n (suc i) 0 })
  after_next first n i e room =
      let c = inv.copying first n i words e in
      record {
        few = inv.few;
        producing = same_producer s.reader _ s.out s.returned;
        tail = inv.tail;
        counted = inv.counted;
        copying = λ f' n' i' j' e'.
            let (f, b, p, d) = batch_fields first n (suc i) 0 f' n' i' j' e' in
            record {
              from = sym f ∙ c.from;
              reaches = omega (arith, c.reaches);
              within = omega arith;
              intact = λ m x l h copied g.
                  rw (← f) (c.intact m x (omega arith) h (earlier m x i' j' h p d copied) (rw f g));
            };
      }
    where
      earlier :
          (m x i' j' : ℕ) → x < words → suc i ≡ i' → 0 ≡ j' → Copied i' j' m x → Copied i words m x
      earlier m x i' j' low p d (inl h) = elim (ℕ_discrete m i) [
        | yes q ↦ inr (q, low)
        | no q ↦ inl (omega (arith, q))
      ]
      earlier m x i' j' low p d (inr (h, l)) = absurd (omega arith)

  pub after_settle :
      (first n : ℕ)
      → s.reading ≡ Reading.copying first n n 0
      → Inv k words (settled (2 ^ k) first n s)
  after_settle first n e =
      let c = inv.copying first n n 0 e in
      let (counted, tail) =
        settle-counted (gone s.write_seq (2 ^ k) first n) first n s.returned s.reader
          (omega (arith, c.reaches, inv.producing.bound)) c.from
          (gone-le s.write_seq (2 ^ k) first n) inv.counted in
      record {
        few = inv.few;
        producing = same_producer _ Reading.idle _ _;
        tail = omega (arith, c.reaches);
        counted = counted;
        copying = λ f' n' i j e'. absurd (cc);
      }
