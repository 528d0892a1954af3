-- ===== src/Mpmc/Push.antt =====
-- The search and the claim of `try_push` of `ShmRingMpmc` (include/animus/shm_ipc.hpp): they keep
-- what holds of the ring.
use native.Mathlib.Nat.{one-le-pow, add-mod_right}
use animus_core_v.Base.{
  ℕ, ◌+◌, ◌%◌, ◌^◌, ◌≤◌, ◌<◌, ◌≡◌, inl, inr, refl, sym, ap, ◌∙◌, Bool, false, arith, ℕ_discrete,
  Bool-cases,
}
use animus_core_v.Base.Words.{add64}
use animus_core_v.Base.Bits.{mod-ne, pow_mono}
use animus_core_v.Base.Tables.{update_same, update_other}
use animus_core_v.LockFree.{signed_diff}
use animus_core_v.Mpmc.System.{Thread, System, goes, push_branch, push_won}
use animus_core_v.Mpmc.Invariant.{Stands, Slot, Inv, one_if}
use animus_core_v.Mpmc.Frame.{
  Frame, Stands-update, goes-Inv, lap_apart, other_cell, cell_lt, signed_diff-cases, word_small,
}

module _ {k : ℕ} {s : System} (inv : Inv k s) (t v pos : ℕ) where
  loaded : Stands k s t (Thread.push_at v pos) → pos ≤ s.enqueue_pos
  loaded (Stands.push_at l) = l

  -- A cell whose word is `pos` is used for `pos`, and that is not published.
  free_cell : s.sequence (pos % 2 ^ k) ≡ pos → s.lap (pos % 2 ^ k) ≡ pos
  free_cell e =
      let c = inv.slot (pos % 2 ^ k) (cell_lt k pos) in
      let two : 2 ^ 1 ≤ 2 ^ k = pow_mono 1 k inv.two in
      elim (Bool-cases (s.full (pos % 2 ^ k))) [
        | inr f ↦ omega (arith, c.word, e, ap (λ (b : Bool). one_if b 1) f)
        | inl f ↦ absurd (
            mod-ne (s.lap (pos % 2 ^ k)) pos (2 ^ k)
              (omega (arith, c.word, e, ap (λ (b : Bool). one_if b 1) f))
              (omega (arith, c.word, e, two, ap (λ (b : Bool). one_if b 1) f)) c.place)
      ]

  pub after_push_look :
      s.threads t ≡ Thread.push_at v pos
      → Inv k (goes s t (push_branch s v pos (signed_diff (s.sequence (pos % 2 ^ k)) pos)))
  after_push_look th =
      let low : pos ≤ s.enqueue_pos = loaded (rw th at (inv.stands t)) in
      elim (signed_diff-cases (s.sequence (pos % 2 ^ k)) pos (word_small inv _ (cell_lt k pos))
        (omega (arith, low, inv.bound))) [
          | inl (q, e) ↦
              rw q (goes-Inv t _ inv (Stands.push_claim low (omega (arith, free_cell e))))
          | inr (inl (q, e)) ↦ rw q (goes-Inv t _ inv Stands.idle)
          | inr (inr (q, e)) ↦ rw q (goes-Inv t _ inv (Stands.push_at (omega arith)))
        ]

  claimed :
      Stands k s t (Thread.push_claim v pos)
      → s.enqueue_pos ≡ pos
      → (s.lap (pos % 2 ^ k) ≡ pos) × (s.full (pos % 2 ^ k) ≡ false)
  claimed (Stands.push_claim l h) e =
      let c = inv.slot (pos % 2 ^ k) (cell_lt k pos) in
      let same : s.lap (pos % 2 ^ k) ≡ pos = elim (ℕ_discrete (s.lap (pos % 2 ^ k)) pos) [
        | yes q ↦ q
        | no q ↦
            let far = lap_apart k pos (s.lap (pos % 2 ^ k)) (sym c.place) (omega (arith, h, q)) in
            absurd (omega (arith, far, c.near, inv.order))
      ] in
      (
        same,
        elim (Bool-cases (s.full (pos % 2 ^ k))) [
          | inl f ↦ absurd (omega (arith, c.filled f, same))
          | inr f ↦ f
        ],
      )

  pub after_push_won :
      s.threads t ≡ Thread.push_claim v pos
      → s.enqueue_pos ≡ pos
      → pos + 2 ^ k + 3 < 2 ^ 63
      → Inv k (push_won s t v pos)
  after_push_won th e room =
      let own = claimed (rw th at (inv.stands t)) e in
      let up : add64 pos 1 ≡ pos + 1 = omega arith in
      let f : Frame k s (push_won s t v pos) t = record {
        enq = omega (arith, up);
        deq = omega arith;
        lap = λ i. omega arith;
        published = λ p h. h;
        writer = λ p l q h n. (
          refl,
          refl,
          update_other s.producer pos t p (omega arith),
          update_other s.sent pos v p (omega arith),
          refl,
        );
        reader = λ p l q h n. (refl, refl, refl, refl);
      } in
      record {
        two = inv.two;
        few = inv.few;
        bound = omega (arith, up);
        order = omega (arith, inv.order, up);
        slot = won_slot own.0 up;
        stands = Stands-update (Thread.push_store v pos) f inv.stands (
            Stands.push_store (omega (arith, up)) own.0 own.1 (update_same s.producer pos t)
              (update_same s.sent pos v));
        taken = λ p x g.
            let old = inv.taken p x g in
            (old.0, old.1 ∙ sym (update_other s.sent pos v p (omega (arith, old.0, inv.order))));
        untaken = inv.untaken;
      }
    where
      won_slot :
          s.lap (pos % 2 ^ k) ≡ pos
          → add64 pos 1 ≡ pos + 1
          → (i : ℕ) → i < 2 ^ k
          → Slot k (push_won s t v pos) i
      won_slot own up i l =
          let c = inv.slot i l in
          record {
            word = c.word;
            place = c.place;
            claims = elim (ℕ_discrete i (pos % 2 ^ k)) [
              | yes q ↦ omega (arith, up, ap s.lap q, own, one-le-pow k 2)
              | no q ↦
                  let fits =
                    other_cell k pos (s.lap i + 2 ^ k) (omega (arith, c.claims))
                      (λ x. q (sym (x ∙ add-mod_right (s.lap i) (2 ^ k) ∙ c.place))) in
                  omega (arith, up, fits)
            ];
            takes = c.takes;
            near = c.near;
            filled = λ h. omega (arith, up, c.filled h);
            content = λ h.
                c.content h ∙ sym (update_other s.sent pos v (s.lap i) (omega (arith, c.filled h)));
          }
