-- ===== src/Broadcast/Reader.antt =====
-- The steps of `poll` of a reader of a `BroadcastRing` (include/animus/broadcast_ring.hpp) keep
-- what holds of the reader.
use native.Mathlib.Nat.{one-le-pow}
use animus_core_v.Base.{
  ℕ, suc, ◌+◌, ◌%◌, ◌^◌, ◌≤◌, ◌<◌, ◌≡◌, ◌≢◌, ◌⊎◌, sym, ap, ◌∙◌, inl, inr, arith, bit_and,
  ℕ_discrete,
}
use animus_core_v.Base.Bits.{pow_mono}
use animus_core_v.Base.Words.{add64, sub64}
use animus_core_v.Base.Tables.{update, update_same, update_other}
use animus_core_v.Spmc.System.{put}
use animus_core_v.Spmc.Invariant.{Copied, put_same, put_other, slot_of}
use animus_core_v.Broadcast.{snap, batch, lost}
use animus_core_v.Broadcast.System.{Polling, View, System, snapped, opened, copied, closed}
use animus_core_v.Broadcast.Invariant.{Inv, Reads, begun}

snap-counted :
    (capacity c read dropped delivered : ℕ)
    → c < 2 ^ 63
    → 1 ≤ capacity
    → capacity ≤ 2 ^ 61
    → read ≤ c
    → delivered + dropped ≡ read
    → (delivered + (snap capacity c read dropped).1 ≡ (snap capacity c read dropped).0)
      × ((snap capacity c read dropped).0 ≤ c)
unfolding snap
snap-counted capacity c read dropped delivered b one few l e = (ground arith, ground arith)

batch-le : (c read max_count : ℕ) → c < 2 ^ 63 → read ≤ c → read + batch c read max_count ≤ c
unfolding batch
batch-le c read max_count b l = ground arith

pub lost-le : (c2 capacity first n : ℕ) → lost c2 capacity first n ≤ n
unfolding lost
lost-le c2 capacity first n = ground arith

module _ {k words : ℕ} {s : System} (inv : Inv k words s) (r : ℕ) where
  abbrev view : View
  view = s.views r

  -- A step of the reader, with what then holds of it.
  pub update-Inv :
      (w : View)
      → Reads k words s.cursor (begun s) s.sent w
      → Inv k words (record s { views = update s.views r w })
  update-Inv w own = record {
    few = inv.few;
    two = inv.two;
    written = record {
      bound = inv.written.bound;
      kept = inv.written.kept;
      fresh = inv.written.fresh;
      content = inv.written.content;
    };
    reads = λ u. elim (ℕ_discrete u r) [
      | yes q ↦ rw (q, update_same s.views r w) own
      | no q ↦ rw (update_other s.views r w u q) (inv.reads u)
    ];
  }

  abbrev now : View
  now = snapped (2 ^ k) s.cursor view

  snapped_counted : (now.delivered + now.dropped ≡ now.read) × (now.read ≤ s.cursor)
  snapped_counted =
      let old = inv.reads r in
      snap-counted (2 ^ k) s.cursor view.read view.dropped view.delivered
        (omega (arith, inv.written.bound)) (one-le-pow k 2 (omega arith)) (pow_mono k 61 inv.few)
        old.behind old.counted

  pub after_poll_empty :
      view.polling ≡ Polling.idle → Inv k words (record s { views = update s.views r now })
  after_poll_empty e = update-Inv now record {
    behind = snapped_counted.1;
    counted = snapped_counted.0;
    copying = λ first n i j q. absurd (cc);
  }

  batch_fields :
      (first n i j f' n' i' j' : ℕ)
      → Polling.copying first n i j ≡ Polling.copying f' n' i' j'
      → (first ≡ f') × (n ≡ n') × (i ≡ i') × (j ≡ j')
  batch_fields first n i j f' n' i' j' e = (cc, cc, cc, cc)

  pub after_poll_open :
      (max_count : ℕ)
      → Inv k words (record s { views = update s.views r (opened (2 ^ k) s.cursor max_count view) })
  after_poll_open max_count = update-Inv (opened (2 ^ k) s.cursor max_count view) record {
    behind = snapped_counted.1;
    counted = snapped_counted.0;
    copying = λ first n i j e.
        let (f, b, c, d) = batch_fields _ _ 0 0 first n i j e in
        let reach =
          batch-le s.cursor now.read max_count (omega (arith, inv.written.bound))
            snapped_counted.1 in
        record {
          from = sym f;
          reaches = omega (arith, reach);
          within = omega arith;
          intact = λ m x l h done g. absurd (nothing m x i j c d done);
        };
  }
    where
      nothing : (m x i j : ℕ) → 0 ≡ i → 0 ≡ j → Copied i j m x → ⊥
      nothing m x i j c d (inl h) = omega arith
      nothing m x i j c d (inr (h, l)) = omega arith

  pub after_poll_word :
      (first n i j : ℕ)
      → view.polling ≡ Polling.copying first n i j
      → i < n
      → j < words
      → Inv k words
          (record s { views = update s.views r (copied (2 ^ k) s.slots first n i j view) })
  after_poll_word first n i j e room low =
      let old = inv.reads r in
      let c = old.copying first n i j e in
      update-Inv (copied (2 ^ k) s.slots first n i j view) record {
        behind = old.behind;
        counted = old.counted;
        copying = λ f' n' i' j' e'.
            let (f, b, p, d) = batch_fields first n i (suc j) f' n' i' j' e' in
            record {
              from = sym f ∙ c.from;
              reaches = omega (arith, c.reaches);
              within = omega (arith, c.within);
              intact =
                  λ m x l h done g. rw (← f) (word m x (omega arith) h (rw (p, d) done) (rw f g));
            };
      }
    where
      spot : bit_and (add64 first i) (sub64 (2 ^ k) 1) ≡ (first + i) % 2 ^ k
      spot =
          let c = (inv.reads r).copying first n i j e in
          let small : add64 first i ≡ first + i = omega (arith, c.reaches, inv.written.bound) in
          ap (λ (t : ℕ). bit_and t (sub64 (2 ^ k) 1)) small
          ∙ slot_of k (first + i) (omega (arith, inv.few))
              (omega (arith, c.reaches, inv.written.bound))

      earlier :
          (m x : ℕ)
          → Copied i (suc j) m x
          → ((m ≡ i) × (x ≡ j)) ⊎ (((m ≢ i) ⊎ (x ≢ j)) × Copied i j m x)
      earlier m x (inl h) = inr (inl (omega arith), inl h)
      earlier m x (inr (h, l)) = elim (ℕ_discrete x j) [
        | yes q ↦ inl (h, q)
        | no q ↦ inr (inr q, inr (h, omega (arith, q)))
      ]

      word :
          (m x : ℕ)
          → m < n
          → x < words
          → Copied i (suc j) m x
          → begun s ≤ first + m + 2 ^ k
          → put view.out i j (s.slots (bit_and (add64 first i) (sub64 (2 ^ k) 1)) j) m x
            ≡ s.sent (first + m) x
      word m x l h done g =
          let c = (inv.reads r).copying first n i j e in
          elim (earlier m x done) [
            | inl (q, t) ↦
                rw (q, t)
                  (put_same view.out i j _
                    ∙ ap (λ (a : ℕ). s.slots a j) spot
                    ∙ inv.written.kept (first + i) j low (omega (arith, c.reaches)) (omega arith))
            | inr (ne, before) ↦ put_other view.out i j _ m x ne ∙ c.intact m x l h before g
          ]

  pub after_poll_next :
      (first n i : ℕ)
      → view.polling ≡ Polling.copying first n i words
      → i < n
      → Inv k words (record s {
        views = update s.views r (record view { polling = Polling.copying first n (suc i) 0 });
      })
  after_poll_next first n i e room =
      let old = inv.reads r in
      let c = old.copying first n i words e in
      update-Inv (record view { polling = Polling.copying first n (suc i) 0 })
        record {
          behind = old.behind;
          counted = old.counted;
          copying = λ f' n' i' j' e'.
              let (f, b, p, d) = batch_fields first n (suc i) 0 f' n' i' j' e' in
              record {
                from = sym f ∙ c.from;
                reaches = omega (arith, c.reaches);
                within = omega arith;
                intact = λ m x l h done g.
                    rw (← f) (c.intact m x (omega arith) h (earlier m x i' j' h p d done) (rw f g));
              };
        }
    where
      earlier :
          (m x i' j' : ℕ) → x < words → suc i ≡ i' → 0 ≡ j' → Copied i' j' m x → Copied i words m x
      earlier m x i' j' low p d (inl h) = elim (ℕ_discrete m i) [
        | yes q ↦ inr (q, low)
        | no q ↦ inl (omega (arith, q))
      ]
      earlier m x i' j' low p d (inr (h, l)) = absurd (omega arith)

  pub after_poll_close :
      (first n : ℕ)
      → view.polling ≡ Polling.copying first n n 0
      → Inv k words (record s { views = update s.views r (closed (2 ^ k) s.cursor first n view) })
  after_poll_close first n e =
      let old = inv.reads r in
      let c = old.copying first n n 0 e in
      let few = lost-le s.cursor (2 ^ k) first n in
      let read : add64 first n ≡ first + n = omega (arith, c.reaches, inv.written.bound) in
      let dropped : add64 view.dropped (lost s.cursor (2 ^ k) first n)
          ≡ view.dropped + lost s.cursor (2 ^ k) first n =
        omega (arith, few, c.reaches, old.counted, c.from, inv.written.bound) in
      update-Inv (closed (2 ^ k) s.cursor first n view) record {
        behind = omega (arith, read, c.reaches);
        counted = omega (arith, read, dropped, few, old.counted, c.from);
        copying = λ f' n' i j e'. absurd (cc);
      }
