-- ===== src/Mpmc/Steps.antt =====
-- Every step of every thread on an `ShmRingMpmc` (include/animus/shm_ipc.hpp) keeps what holds of
-- the ring.
use native.Mathlib.Nat.{one-le-pow, mod-eq_of_lt}
use animus_core_v.Base.{ℕ, ◌-◌, ◌%◌, ◌^◌, ◌≤◌, ◌≡◌, refl, arith}
use animus_core_v.Base.Bits.{pow_mono}
use animus_core_v.Mpmc.System.{
  Thread, System, Step, Reach, start, cell, push_start, push_look, push_fail, push_win, push_write,
  push_publish, pop_start, pop_look, pop_fail, pop_win, pop_read, pop_retire, here, next,
}
use animus_core_v.Mpmc.Invariant.{Stands, Inv}
use animus_core_v.Mpmc.Frame.{goes-Inv, cell_of}
use animus_core_v.Mpmc.Push.{after_push_look, after_push_won}
use animus_core_v.Mpmc.Publish.{after_push_stored, after_push_released}
use animus_core_v.Mpmc.Pop.{after_pop_look, after_pop_won}
use animus_core_v.Mpmc.Retire.{after_pop_loaded, after_pop_released}

-- The position that a thread has in hand.
abbrev pub position : Thread → ℕ
position Thread.idle = 0
position (Thread.push_at v p) = p
position (Thread.push_claim v p) = p
position (Thread.push_store v p) = p
position (Thread.push_release v p) = p
position (Thread.pop_at p) = p
position (Thread.pop_claim p) = p
position (Thread.pop_load p) = p
position (Thread.pop_release p x) = p

module _ {k : ℕ} {s : System} (inv : Inv k s) where
  pub Stands-small : {t : ℕ} {th : Thread} → Stands k s t th → position th ≤ s.enqueue_pos
  Stands-small Stands.idle = omega arith
  Stands-small (Stands.push_at l) = l
  Stands-small (Stands.push_claim l h) = l
  Stands-small (Stands.push_store l e h p c) = omega arith
  Stands-small (Stands.push_release l e h p c x) = omega arith
  Stands-small (Stands.pop_at l) = omega (arith, inv.order)
  Stands-small (Stands.pop_claim l h) = omega (arith, inv.order)
  Stands-small (Stands.pop_load l e h p g) = omega (arith, inv.order)
  Stands-small (Stands.pop_release l e h p g) = omega (arith, inv.order)

  pub at_cell :
      (t : ℕ) (th : Thread)
      → s.threads t ≡ th
      → cell (2 ^ k - 1) (position th) ≡ position th % 2 ^ k
  at_cell t th e =
      let l = Stands-small (rw e at (inv.stands t)) in
      cell_of k (position th) (omega (arith, inv.few)) (omega (arith, l, inv.bound))

-- Every step of every thread keeps the invariant.
Step-keeps : {k : ℕ} {s r : System} → Step (2 ^ k - 1) s r → Inv k s → Inv k r
Step-keeps (push_start t v th) inv = goes-Inv t _ inv (Stands.push_at (omega arith))
Step-keeps (push_look t v pos th) inv =
    rw (at_cell inv t (Thread.push_at v pos) th) (after_push_look inv t v pos th)
Step-keeps (push_fail t v pos th) inv = goes-Inv t _ inv (Stands.push_at (omega arith))
Step-keeps {k} (push_win t v pos th e room) inv =
    after_push_won inv t v pos th e (omega (arith, one-le-pow k 2 (omega arith)))
Step-keeps (push_write t v pos th) inv =
    rw (at_cell inv t (Thread.push_store v pos) th) (after_push_stored inv t v pos th)
Step-keeps (push_publish t v pos th) inv =
    rw (at_cell inv t (Thread.push_release v pos) th) (after_push_released inv t v pos th)
Step-keeps (pop_start t th) inv = goes-Inv t _ inv (Stands.pop_at (omega arith))
Step-keeps (pop_look t pos th) inv =
    rw (at_cell inv t (Thread.pop_at pos) th) (after_pop_look inv t pos th)
Step-keeps (pop_fail t pos th) inv = goes-Inv t _ inv (Stands.pop_at (omega arith))
Step-keeps (pop_win t pos th e) inv = after_pop_won inv t pos th e
Step-keeps (pop_read t pos th) inv =
    rw (at_cell inv t (Thread.pop_load pos) th) (after_pop_loaded inv t pos th)
Step-keeps (pop_retire t pos x th) inv =
    rw (at_cell inv t (Thread.pop_release pos x) th) (after_pop_released inv t pos x th)

start-Inv : (k : ℕ) → 1 ≤ k → k ≤ 61 → Inv k start
start-Inv k two few = record {
  two = two;
  few = few;
  bound = omega (arith, pow_mono k 61 few);
  order = omega arith;
  slot = λ i l. record {
    word = omega arith;
    place = mod-eq_of_lt l;
    claims = omega arith;
    takes = omega arith;
    near = omega arith;
    filled = λ h. absurd (cc);
    content = λ h. absurd (cc);
  };
  stands = λ t. Stands.idle;
  taken = λ p x g. absurd (cc);
  untaken = λ p l. refl;
}

pub Reach-Inv : {k : ℕ} {s : System} → 1 ≤ k → k ≤ 61 → Reach (2 ^ k - 1) s → Inv k s
Reach-Inv {k} two few here = start-Inv k two few
Reach-Inv two few (next r st) = Step-keeps st (Reach-Inv two few r)
