-- ===== src/Mpmc/Publish.antt =====
-- The store and the release of `try_push` of `ShmRingMpmc` (include/animus/shm_ipc.hpp): they keep
-- what holds of the ring.
use animus_core_v.Base.{
  ℕ, ◌+◌, ◌%◌, ◌^◌, ◌<◌, ◌≡◌, inl, inr, refl, sym, ap, ◌∙◌, Bool, true, false, arith, ℕ_discrete,
}
use animus_core_v.Base.Words.{add64}
use animus_core_v.Base.Tables.{update, update_same, update_other}
use animus_core_v.Mpmc.System.{Thread, System, push_stored, push_released}
use animus_core_v.Mpmc.Invariant.{Stands, Slot, Inv, Published, one_if}
use animus_core_v.Mpmc.Frame.{Frame, Stands-update, differ, elsewhere}

module _ {k : ℕ} {s : System} (inv : Inv k s) (t v pos : ℕ) where
  stored :
      {x : ℕ}
      → Stands k s t (Thread.push_store x pos)
      → (pos < s.enqueue_pos)
        × (s.lap (pos % 2 ^ k) ≡ pos)
        × (s.full (pos % 2 ^ k) ≡ false)
        × (s.producer pos ≡ t)
        × (s.sent pos ≡ x)
  stored (Stands.push_store l e h p c) = (l, e, h, p, c)

  released :
      {x : ℕ}
      → Stands k s t (Thread.push_release x pos)
      → (pos < s.enqueue_pos)
        × (s.lap (pos % 2 ^ k) ≡ pos)
        × (s.full (pos % 2 ^ k) ≡ false)
        × (s.producer pos ≡ t)
        × (s.sent pos ≡ x)
        × (s.value (pos % 2 ^ k) ≡ x)
  released (Stands.push_release l e h p c x) = (l, e, h, p, c, x)

  pub after_push_stored :
      s.threads t ≡ Thread.push_store v pos → Inv k (push_stored (pos % 2 ^ k) s t v pos)
  after_push_stored th =
      let o = stored (rw th at (inv.stands t)) in
      let f : Frame k s (push_stored (pos % 2 ^ k) s t v pos) t = record {
        enq = omega arith;
        deq = omega arith;
        lap = λ i. omega arith;
        published = λ p h. h;
        writer = λ p l e h n. (
          refl,
          refl,
          refl,
          refl,
          update_other s.value (pos % 2 ^ k) v (p % 2 ^ k)
              (elsewhere k s p pos e o.1 (λ q. n (ap s.producer q ∙ o.3))),
        );
        reader = λ p l q h n. (refl, refl, refl, refl);
      } in
      record {
        two = inv.two;
        few = inv.few;
        bound = inv.bound;
        order = inv.order;
        slot = λ i l.
            let c = inv.slot i l in
            record {
              word = c.word;
              place = c.place;
              claims = c.claims;
              takes = c.takes;
              near = c.near;
              filled = c.filled;
              content = λ h.
                  update_other s.value (pos % 2 ^ k) v i
                    (λ q. absurd (differ (sym h ∙ ap s.full q ∙ o.2)))
                  ∙ c.content h;
            };
        stands =
            Stands-update (Thread.push_release v pos) f inv.stands
              (Stands.push_release o.0 o.1 o.2 o.3 o.4 (update_same s.value (pos % 2 ^ k) v));
        taken = inv.taken;
        untaken = inv.untaken;
      }

  pub after_push_released :
      s.threads t ≡ Thread.push_release v pos → Inv k (push_released (pos % 2 ^ k) s t pos)
  after_push_released th =
      let o = released (rw th at (inv.stands t)) in
      let c = pos % 2 ^ k in
      let up : add64 pos 1 ≡ pos + 1 = omega (arith, o.0, inv.bound) in
      let f : Frame k s (push_released (pos % 2 ^ k) s t pos) t = record {
        enq = omega arith;
        deq = omega arith;
        lap = λ i. omega arith;
        published = λ p h. still p h;
        writer = λ p l e h n. (
          refl,
          update_other s.full c true (p % 2 ^ k)
              (elsewhere k s p pos e o.1 (λ q. n (ap s.producer q ∙ o.3))),
          refl,
          refl,
          refl,
        );
        reader = λ p l e h n. (
          refl,
          update_other s.full c true (p % 2 ^ k) (λ q. absurd (differ (sym h ∙ ap s.full q ∙ o.2))),
          refl,
          refl,
        );
      } in
      record {
        two = inv.two;
        few = inv.few;
        bound = inv.bound;
        order = inv.order;
        slot = λ i l. released_slot o.0 o.1 o.2 (o.5 ∙ sym o.4) up i l;
        stands = Stands-update Thread.idle f inv.stands Stands.idle;
        taken = inv.taken;
        untaken = inv.untaken;
      }
    where
      still : (p : ℕ) → Published k s p → Published k (push_released (pos % 2 ^ k) s t pos) p
      still p (inl l) = inl l
      still p (inr (e, h)) = elim (ℕ_discrete (p % 2 ^ k) (pos % 2 ^ k)) [
        | yes q ↦ inr (e, rw q (update_same s.full (pos % 2 ^ k) true))
        | no q ↦ inr (e, update_other s.full (pos % 2 ^ k) true (p % 2 ^ k) q ∙ h)
      ]

      released_slot :
          pos < s.enqueue_pos
          → s.lap (pos % 2 ^ k) ≡ pos
          → s.full (pos % 2 ^ k) ≡ false
          → s.value (pos % 2 ^ k) ≡ s.sent pos
          → add64 pos 1 ≡ pos + 1
          → (i : ℕ) → i < 2 ^ k
          → Slot k (push_released (pos % 2 ^ k) s t pos) i
      released_slot below e h x up i l =
          let c = inv.slot i l in
          elim (ℕ_discrete i (pos % 2 ^ k)) [
            | no q ↦
                let same = update_other s.full (pos % 2 ^ k) true i q in
                record {
                  word = update_other s.sequence (pos % 2 ^ k) (add64 pos 1) i q ∙ rw same c.word;
                  place = c.place;
                  claims = c.claims;
                  takes = rw same c.takes;
                  near = c.near;
                  filled = rw same c.filled;
                  content = rw same c.content;
                }
            | yes q ↦
                let here = ap s.lap q ∙ e in
                let full : update s.full (pos % 2 ^ k) true i ≡ true =
                  rw q (update_same s.full (pos % 2 ^ k) true) in
                record {
                  word =
                      ap (update s.sequence (pos % 2 ^ k) (add64 pos 1)) q
                      ∙ update_same s.sequence (pos % 2 ^ k) (add64 pos 1)
                      ∙ up
                      ∙ rw (full, here) refl;
                  place = c.place;
                  claims = c.claims;
                  takes = rw full (
                      omega
                        (arith, c.takes, ap (λ (b : Bool). one_if b (2 ^ k)) (ap s.full q ∙ h)));
                  near = c.near;
                  filled = λ g. omega (arith, here);
                  content = λ g. ap s.value q ∙ x ∙ sym (ap s.sent here);
                }
          ]
