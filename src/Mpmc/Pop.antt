-- ===== src/Mpmc/Pop.antt =====
-- The search and the claim of `try_pop` of `ShmRingMpmc` (include/animus/shm_ipc.hpp): they keep
-- what holds of the ring.
use native.Mathlib.Nat.{one-le-pow, add-mod_right}
use animus_core_v.Base.{
  ℕ, ◌+◌, ◌%◌, ◌^◌, ◌≤◌, ◌<◌, ◌≡◌, inl, inr, refl, sym, ap, ◌∙◌, Bool, true, false, arith,
  ℕ_discrete, Bool-cases,
}
use animus_core_v.Base.Words.{add64}
use animus_core_v.Base.Bits.{mod-ne, pow_mono}
use animus_core_v.Base.Tables.{update_same, update_other}
use animus_core_v.LockFree.{signed_diff}
use animus_core_v.Mpmc.System.{Thread, System, goes, pop_branch, pop_won}
use animus_core_v.Mpmc.Invariant.{Stands, Slot, Inv, Published, one_if}
use animus_core_v.Mpmc.Frame.{
  Frame, Stands-update, goes-Inv, lap_apart, other_cell, cell_lt, signed_diff-cases, word_small,
}

module _ {k : ℕ} {s : System} (inv : Inv k s) (t pos : ℕ) where
  loaded : Stands k s t (Thread.pop_at pos) → pos ≤ s.dequeue_pos
  loaded (Stands.pop_at l) = l

  -- A cell whose word is one more than `pos` holds the record of `pos`.
  full_cell : s.sequence (pos % 2 ^ k) ≡ pos + 1 → Published k s pos
  full_cell e =
      let c = inv.slot (pos % 2 ^ k) (cell_lt k pos) in
      let two : 2 ^ 1 ≤ 2 ^ k = pow_mono 1 k inv.two in
      elim (Bool-cases (s.full (pos % 2 ^ k))) [
        | inl f ↦ inr (omega (arith, c.word, e, ap (λ (b : Bool). one_if b 1) f), f)
        | inr f ↦ absurd (
            mod-ne pos (s.lap (pos % 2 ^ k)) (2 ^ k)
              (omega (arith, c.word, e, ap (λ (b : Bool). one_if b 1) f))
              (omega (arith, c.word, e, two, ap (λ (b : Bool). one_if b 1) f)) (sym c.place))
      ]

  pub after_pop_look :
      s.threads t ≡ Thread.pop_at pos
      → Inv k (goes s t (pop_branch s pos (signed_diff (s.sequence (pos % 2 ^ k)) (add64 pos 1))))
  after_pop_look th =
      let low : pos ≤ s.dequeue_pos = loaded (rw th at (inv.stands t)) in
      let up : add64 pos 1 ≡ pos + 1 = omega (arith, low, inv.order, inv.bound) in
      elim (signed_diff-cases (s.sequence (pos % 2 ^ k)) (add64 pos 1)
        (word_small inv _ (cell_lt k pos)) (omega (arith, up, low, inv.order, inv.bound))) [
          | inl (q, e) ↦ rw q (goes-Inv t _ inv (Stands.pop_claim low (full_cell (e ∙ up))))
          | inr (inl (q, e)) ↦ rw q (goes-Inv t _ inv Stands.idle)
          | inr (inr (q, e)) ↦ rw q (goes-Inv t _ inv (Stands.pop_at (omega arith)))
        ]

  claimed :
      Stands k s t (Thread.pop_claim pos)
      → s.dequeue_pos ≡ pos
      → (s.lap (pos % 2 ^ k) ≡ pos) × (s.full (pos % 2 ^ k) ≡ true)
  claimed (Stands.pop_claim l (inr (e, f))) h = (sym e, f)
  claimed (Stands.pop_claim l (inl b)) h =
      let c = inv.slot (pos % 2 ^ k) (cell_lt k pos) in
      let far = lap_apart k pos (s.lap (pos % 2 ^ k)) (sym c.place) b in
      absurd (omega (arith, far, c.near))

  pub after_pop_won :
      s.threads t ≡ Thread.pop_claim pos → s.dequeue_pos ≡ pos → Inv k (pop_won s t pos)
  after_pop_won th e =
      let own = claimed (rw th at (inv.stands t)) e in
      let c = inv.slot (pos % 2 ^ k) (cell_lt k pos) in
      let below : pos < s.enqueue_pos = omega (arith, c.filled own.1, own.0) in
      let up : add64 pos 1 ≡ pos + 1 = omega (arith, below, inv.bound) in
      let f : Frame k s (pop_won s t pos) t = record {
        enq = omega arith;
        deq = omega (arith, up);
        lap = λ i. omega arith;
        published = λ p h. h;
        writer = λ p l q h n. (refl, refl, refl, refl, refl);
        reader = λ p l q h n. (refl, refl, update_other s.consumer pos t p (omega arith), refl);
      } in
      record {
        two = inv.two;
        few = inv.few;
        bound = inv.bound;
        order = omega (arith, below, up);
        slot = won_slot own up;
        stands = Stands-update (Thread.pop_load pos) f inv.stands (
            Stands.pop_load (omega (arith, up)) own.0 own.1 (update_same s.consumer pos t)
              (inv.untaken pos (omega (arith, e))));
        taken = λ p x g. let old = inv.taken p x g in (omega (arith, old.0, up), old.1);
        untaken = λ p l. inv.untaken p (omega (arith, up));
      }
    where
      one_if-mod : (b : Bool) (a : ℕ) → (a + one_if b (2 ^ k)) % 2 ^ k ≡ a % 2 ^ k
      one_if-mod true a = add-mod_right a (2 ^ k)
      one_if-mod false a = ap (λ (x : ℕ). x % 2 ^ k) (omega arith)

      won_slot :
          (s.lap (pos % 2 ^ k) ≡ pos) × (s.full (pos % 2 ^ k) ≡ true)
          → add64 pos 1 ≡ pos + 1
          → (i : ℕ) → i < 2 ^ k
          → Slot k (pop_won s t pos) i
      won_slot own up i l =
          let c = inv.slot i l in
          record {
            word = c.word;
            place = c.place;
            claims = c.claims;
            takes = elim (ℕ_discrete i (pos % 2 ^ k)) [
              | yes q ↦ omega (
                arith,
                up,
                ap s.lap q,
                own.0,
                ap (λ (b : Bool). one_if b (2 ^ k)) (ap s.full q ∙ own.1),
                one-le-pow k 2 (omega arith),
              )
              | no q ↦
                  let fits =
                    other_cell k pos (s.lap i + one_if (s.full i) (2 ^ k)) (omega (arith, c.takes))
                      (λ x. q (sym (x ∙ one_if-mod (s.full i) (s.lap i) ∙ c.place))) in
                  omega (arith, up, fits)
            ];
            near = omega (arith, up, c.near);
            filled = c.filled;
            content = c.content;
          }
