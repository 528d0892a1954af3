-- ===== src/Mpmc/Retire.antt =====
-- The load and the release of `try_pop` of `ShmRingMpmc` (include/animus/shm_ipc.hpp): they keep
-- what holds of the ring.
use native.Mathlib.Nat.{one-le-pow, add-mod_right}
use animus_core_v.Base.{
  ℕ, ◌+◌, ◌-◌, ◌%◌, ◌^◌, ◌≤◌, ◌<◌, ◌≡◌, ◌≢◌, inl, inr, refl, sym, ap, ◌∙◌, Bool, true, false, some,
  some_inj, arith, ℕ_discrete,
}
use animus_core_v.Base.Words.{add64}
use animus_core_v.Base.Tables.{update, update_same, update_other}
use animus_core_v.Mpmc.System.{Thread, System, pop_loaded, pop_released}
use animus_core_v.Mpmc.Invariant.{Stands, Slot, Inv, Published, one_if}
use animus_core_v.Mpmc.Frame.{Frame, Stands-update, cell_lt, differ, elsewhere}

module _ {k : ℕ} {s : System} (inv : Inv k s) (t pos : ℕ) where
  reading :
      Stands k s t (Thread.pop_load pos)
      → (pos < s.dequeue_pos)
        × (s.lap (pos % 2 ^ k) ≡ pos)
        × (s.full (pos % 2 ^ k) ≡ true)
        × (s.consumer pos ≡ t)
  reading (Stands.pop_load l e h p g) = (l, e, h, p)

  retiring :
      {x : ℕ}
      → Stands k s t (Thread.pop_release pos x)
      → (pos < s.dequeue_pos)
        × (s.lap (pos % 2 ^ k) ≡ pos)
        × (s.full (pos % 2 ^ k) ≡ true)
        × (s.consumer pos ≡ t)
  retiring (Stands.pop_release l e h p g) = (l, e, h, p)

  pub after_pop_loaded :
      s.threads t ≡ Thread.pop_load pos → Inv k (pop_loaded (pos % 2 ^ k) s t pos)
  after_pop_loaded th =
      let o = reading (rw th at (inv.stands t)) in
      let x = s.value (pos % 2 ^ k) in
      let c = inv.slot (pos % 2 ^ k) (cell_lt k pos) in
      let right : x ≡ s.sent pos = c.content o.2 ∙ ap s.sent o.1 in
      let f : Frame k s (pop_loaded (pos % 2 ^ k) s t pos) t = record {
        enq = omega arith;
        deq = omega arith;
        lap = λ i. omega arith;
        published = λ p h. h;
        writer = λ p l e h n. (refl, refl, refl, refl, refl);
        reader = λ p l e h n.
            (refl, refl, refl, update_other s.got pos (some x) p (λ q. n (ap s.consumer q ∙ o.3)));
      } in
      record {
        two = inv.two;
        few = inv.few;
        bound = inv.bound;
        order = inv.order;
        slot = λ i l.
            let d = inv.slot i l in
            record {
              word = d.word;
              place = d.place;
              claims = d.claims;
              takes = d.takes;
              near = d.near;
              filled = d.filled;
              content = d.content;
            };
        stands =
            Stands-update (Thread.pop_release pos x) f inv.stands
              (Stands.pop_release o.0 o.1 o.2 o.3 (update_same s.got pos (some x)));
        taken = λ p y g. elim (ℕ_discrete p pos) [
          | yes q ↦
              let y' : y ≡ x =
                sym (some_inj (sym (update_same s.got pos (some x)) ∙ (rw q at g))) in
              (omega (arith, q, o.0), y' ∙ right ∙ ap s.sent (sym q))
          | no q ↦ inv.taken p y (sym (update_other s.got pos (some x) p q) ∙ g)
        ];
        untaken = λ p l. update_other s.got pos (some x) p (omega (arith, o.0)) ∙ inv.untaken p l;
      }

  pub after_pop_released :
      (x : ℕ)
      → s.threads t ≡ Thread.pop_release pos x
      → Inv k (pop_released (pos % 2 ^ k) (2 ^ k - 1) s t pos)
  after_pop_released x th =
      let o = retiring (rw th at (inv.stands t)) in
      let c = pos % 2 ^ k in
      let n = add64 (add64 pos (2 ^ k - 1)) 1 in
      let up : n ≡ pos + 2 ^ k =
        omega (arith, o.0, inv.order, inv.bound, one-le-pow k 2 (omega arith)) in
      let f : Frame k s (pop_released (pos % 2 ^ k) (2 ^ k - 1) s t pos) t = record {
        enq = omega arith;
        deq = omega arith;
        lap = λ i. grows o.1 up i;
        published = λ p h. still o.1 up p h;
        writer = λ p l e h m.
            let away : p % 2 ^ k ≢ pos % 2 ^ k = λ q. differ (sym o.2 ∙ sym (ap s.full q) ∙ h) in
            (
              update_other s.lap c n (p % 2 ^ k) away,
              update_other s.full c false (p % 2 ^ k) away,
              refl,
              refl,
              refl,
            );
        reader = λ p l e h m.
            let away = elsewhere k s p pos e o.1 (λ q. m (ap s.consumer q ∙ o.3)) in
            (
              update_other s.lap c n (p % 2 ^ k) away,
              update_other s.full c false (p % 2 ^ k) away,
              refl,
              refl,
            );
      } in
      record {
        two = inv.two;
        few = inv.few;
        bound = inv.bound;
        order = inv.order;
        slot = released_slot o.0 o.1 o.2 up;
        stands = Stands-update Thread.idle f inv.stands Stands.idle;
        taken = inv.taken;
        untaken = inv.untaken;
      }
    where
      grows :
          s.lap (pos % 2 ^ k) ≡ pos
          → add64 (add64 pos (2 ^ k - 1)) 1 ≡ pos + 2 ^ k
          → (i : ℕ) → s.lap i ≤ update s.lap (pos % 2 ^ k) (add64 (add64 pos (2 ^ k - 1)) 1) i
      grows e up i = elim (ℕ_discrete i (pos % 2 ^ k)) [
        | yes q ↦
            rw (q, update_same s.lap (pos % 2 ^ k) (add64 (add64 pos (2 ^ k - 1)) 1))
              (omega (arith, e, up))
        | no q ↦
            rw (update_other s.lap (pos % 2 ^ k) (add64 (add64 pos (2 ^ k - 1)) 1) i q)
              (omega arith)
      ]

      still :
          s.lap (pos % 2 ^ k) ≡ pos
          → add64 (add64 pos (2 ^ k - 1)) 1 ≡ pos + 2 ^ k
          → (p : ℕ) → Published k s p
          → Published k (pop_released (pos % 2 ^ k) (2 ^ k - 1) s t pos) p
      still e up p (inl l) = inl (omega (arith, grows e up (p % 2 ^ k)))
      still e up p (inr (h, g)) = elim (ℕ_discrete (p % 2 ^ k) (pos % 2 ^ k)) [
        | yes q ↦ inl (
            rw (q, update_same s.lap (pos % 2 ^ k) (add64 (add64 pos (2 ^ k - 1)) 1))
              (omega (arith, h, ap s.lap q, e, up, one-le-pow k 2 (omega arith))))
        | no q ↦ inr (
          h
              ∙ sym (
                  update_other s.lap (pos % 2 ^ k) (add64 (add64 pos (2 ^ k - 1)) 1) (p % 2 ^ k) q),
          update_other s.full (pos % 2 ^ k) false (p % 2 ^ k) q ∙ g,
        )
      ]

      released_slot :
          pos < s.dequeue_pos
          → s.lap (pos % 2 ^ k) ≡ pos
          → s.full (pos % 2 ^ k) ≡ true
          → add64 (add64 pos (2 ^ k - 1)) 1 ≡ pos + 2 ^ k
          → (i : ℕ) → i < 2 ^ k
          → Slot k (pop_released (pos % 2 ^ k) (2 ^ k - 1) s t pos) i
      released_slot below e h up i l =
          let c = inv.slot i l in
          let n = add64 (add64 pos (2 ^ k - 1)) 1 in
          elim (ℕ_discrete i (pos % 2 ^ k)) [
            | no q ↦
                let lap = update_other s.lap (pos % 2 ^ k) n i q in
                let full = update_other s.full (pos % 2 ^ k) false i q in
                record {
                  word = update_other s.sequence (pos % 2 ^ k) n i q ∙ rw (lap, full) c.word;
                  place = rw lap c.place;
                  claims = rw lap c.claims;
                  takes = rw (lap, full) c.takes;
                  near = rw lap c.near;
                  filled = rw (lap, full) c.filled;
                  content = rw (lap, full) c.content;
                }
            | yes q ↦
                let here = ap s.lap q ∙ e in
                let lap : update s.lap (pos % 2 ^ k) n i ≡ pos + 2 ^ k =
                  ap (update s.lap (pos % 2 ^ k) n) q ∙ update_same s.lap (pos % 2 ^ k) n ∙ up in
                let full : update s.full (pos % 2 ^ k) false i ≡ false =
                  ap (update s.full (pos % 2 ^ k) false) q
                  ∙ update_same s.full (pos % 2 ^ k) false in
                let was = ap (λ (b : Bool). one_if b (2 ^ k)) (ap s.full q ∙ h) in
                record {
                  word =
                      ap (update s.sequence (pos % 2 ^ k) n) q
                      ∙ update_same s.sequence (pos % 2 ^ k) n
                      ∙ up
                      ∙ rw (lap, full) (omega arith);
                  place = rw lap (add-mod_right pos (2 ^ k) ∙ sym q);
                  claims = rw lap (omega (arith, c.claims, here));
                  takes = rw (lap, full) (omega (arith, c.takes, here, was));
                  near = rw lap (omega arith);
                  filled = λ g. absurd (differ (sym g ∙ full));
                  content = λ g. absurd (differ (sym g ∙ full));
                }
          ]
