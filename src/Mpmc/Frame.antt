-- ===== src/Mpmc/Frame.antt =====
-- What a step of one thread on an `ShmRingMpmc` of include/animus/shm_ipc.hpp leaves to the others.
use native.Mathlib.Nat.{one-le-pow, mod-lt}
use animus_core_v.Base.{
  ℕ, ◌+◌, ◌-◌, ◌%◌, ◌^◌, ◌≤◌, ◌<◌, ◌≡◌, ◌≢◌, ◌⊎◌, inl, inr, refl, sym, ap, ◌∙◌, Bool, true, false,
  arith, dec_lt, ℕ_discrete, Bool-cases, bit_and,
}
use animus_core_v.Base.Bits.{masked_count, mod-ne}
use animus_core_v.Base.Tables.{update, update_same, update_other}
use animus_core_v.LockFree.{Sign, signed_diff}
use animus_core_v.Mpmc.System.{Thread, System, goes, cell}
use animus_core_v.Mpmc.Invariant.{Stands, Slot, Inv, Published, one_if}

-- Two positions of one cell are equal or a lap apart.
pub lap_apart : (k p q : ℕ) → p % 2 ^ k ≡ q % 2 ^ k → p < q → p + 2 ^ k ≤ q
lap_apart k p q e l = elim (dec_lt q (p + 2 ^ k)) [
  | yes h ↦ absurd (mod-ne p q (2 ^ k) l h e)
  | no h ↦ omega (arith, h)
]

-- A bound that is of another cell is not met yet.
pub other_cell : (k p q : ℕ) → p ≤ q → p % 2 ^ k ≢ q % 2 ^ k → p + 1 ≤ q
other_cell k p q l n = elim (ℕ_discrete p q) [
  | yes e ↦ absurd (n (ap (λ (x : ℕ). x % 2 ^ k) e))
  | no e ↦ omega (arith, e)
]

pub cell_lt : (k p : ℕ) → p % 2 ^ k < 2 ^ k
cell_lt k p = mod-lt p (one-le-pow k 2 (omega arith))

-- The sign of a difference of words that have not wrapped.
pub signed_diff-cases :
    (a b : ℕ)
    → a < 2 ^ 63
    → b < 2 ^ 63
    → ((signed_diff a b ≡ Sign.equal) × (a ≡ b))
      ⊎ ((signed_diff a b ≡ Sign.behind) × (a < b))
      ⊎ ((signed_diff a b ≡ Sign.ahead) × (b < a))
signed_diff-cases a b l h = elim (dec_lt a b) [
  | yes d ↦ inr (inl (ground arith, d))
  | no d ↦ elim (ℕ_discrete a b) [
    | yes e ↦ inl (ground arith, e)
    | no e ↦ inr (inr (ground arith, omega (arith, d, e)))
  ]
]

-- From `s` to `r` by a step of thread `t`.
pub record Frame (k : ℕ) (s r : System) (t : ℕ) : Type 0 where
  pub enq : s.enqueue_pos ≤ r.enqueue_pos
  pub deq : s.dequeue_pos ≤ r.dequeue_pos
  pub lap : (i : ℕ) → s.lap i ≤ r.lap i
  pub published : (p : ℕ) → Published k s p → Published k r p
  pub writer :
      (p : ℕ)
      → p < s.enqueue_pos
      → s.lap (p % 2 ^ k) ≡ p
      → s.full (p % 2 ^ k) ≡ false
      → s.producer p ≢ t
      → (r.lap (p % 2 ^ k) ≡ s.lap (p % 2 ^ k))
        × (r.full (p % 2 ^ k) ≡ s.full (p % 2 ^ k))
        × (r.producer p ≡ s.producer p)
        × (r.sent p ≡ s.sent p)
        × (r.value (p % 2 ^ k) ≡ s.value (p % 2 ^ k))
  pub reader :
      (p : ℕ)
      → p < s.dequeue_pos
      → s.lap (p % 2 ^ k) ≡ p
      → s.full (p % 2 ^ k) ≡ true
      → s.consumer p ≢ t
      → (r.lap (p % 2 ^ k) ≡ s.lap (p % 2 ^ k))
        × (r.full (p % 2 ^ k) ≡ s.full (p % 2 ^ k))
        × (r.consumer p ≡ s.consumer p)
        × (r.got p ≡ s.got p)

pub Frame-Stands :
    {k : ℕ} {s r : System} {t : ℕ}
    → Frame k s r t
    → (u : ℕ) (th : Thread) → u ≢ t
    → Stands k s u th
    → Stands k r u th
Frame-Stands f u _ ne Stands.idle = Stands.idle
Frame-Stands f u _ ne (Stands.push_at l) = Stands.push_at (omega (arith, f.enq))
Frame-Stands f u _ ne (Stands.push_claim l e) =
    Stands.push_claim (omega (arith, f.enq)) (omega (arith, f.lap _))
Frame-Stands f u _ ne (Stands.push_store {v} {pos} l e h p c) =
    let w = f.writer pos l e h (λ q. ne (sym p ∙ q)) in
    Stands.push_store (omega (arith, f.enq)) (w.0 ∙ e) (w.1 ∙ h) (w.2 ∙ p) (w.3 ∙ c)
Frame-Stands f u _ ne (Stands.push_release {v} {pos} l e h p c x) =
    let w = f.writer pos l e h (λ q. ne (sym p ∙ q)) in
    Stands.push_release (omega (arith, f.enq)) (w.0 ∙ e) (w.1 ∙ h) (w.2 ∙ p) (w.3 ∙ c) (w.4 ∙ x)
Frame-Stands f u _ ne (Stands.pop_at l) = Stands.pop_at (omega (arith, f.deq))
Frame-Stands f u _ ne (Stands.pop_claim {pos} l p) =
    Stands.pop_claim (omega (arith, f.deq)) (f.published pos p)
Frame-Stands f u _ ne (Stands.pop_load {pos} l e h p g) =
    let w = f.reader pos l e h (λ q. ne (sym p ∙ q)) in
    Stands.pop_load (omega (arith, f.deq)) (w.0 ∙ e) (w.1 ∙ h) (w.2 ∙ p) (w.3 ∙ g)
Frame-Stands f u _ ne (Stands.pop_release {pos} l e h p g) =
    let w = f.reader pos l e h (λ q. ne (sym p ∙ q)) in
    Stands.pop_release (omega (arith, f.deq)) (w.0 ∙ e) (w.1 ∙ h) (w.2 ∙ p) (w.3 ∙ g)

-- All threads after a step of one, which goes to `th`.
pub Stands-update :
    {k : ℕ} {s r : System} {t : ℕ} (th : Thread)
    → Frame k s r t
    → ((u : ℕ) → Stands k s u (s.threads u))
    → Stands k r t th
    → (u : ℕ) → Stands k r u (update s.threads t th u)
Stands-update {k} {s} {r} {t} th f all own u = elim (ℕ_discrete u t) [
  | yes q ↦ rw (q, update_same s.threads t th) own
  | no q ↦ rw (update_other s.threads t th u q) (Frame-Stands f u (s.threads u) q (all u))
]

Slot-goes : {k : ℕ} {s : System} {i : ℕ} (t : ℕ) (th : Thread) → Slot k s i → Slot k (goes s t th) i
Slot-goes t th c = record {
  word = c.word;
  place = c.place;
  claims = c.claims;
  takes = c.takes;
  near = c.near;
  filled = c.filled;
  content = c.content;
}

-- A step that only moves the thread.
pub goes-Inv :
    {k : ℕ} {s : System} (t : ℕ) (th : Thread)
    → Inv k s
    → Stands k (goes s t th) t th
    → Inv k (goes s t th)
goes-Inv {k} {s} t th inv own =
    let f : Frame k s (goes s t th) t = record {
      enq = omega arith;
      deq = omega arith;
      lap = λ i. omega arith;
      published = λ p h. h;
      writer = λ p l e h n. (refl, refl, refl, refl, refl);
      reader = λ p l e h n. (refl, refl, refl, refl);
    } in
    record {
      two = inv.two;
      few = inv.few;
      bound = inv.bound;
      order = inv.order;
      slot = λ i l. Slot-goes t th (inv.slot i l);
      stands = Stands-update th f inv.stands own;
      taken = inv.taken;
      untaken = inv.untaken;
    }

-- The cell of a position.
pub cell_of : (k pos : ℕ) → k ≤ 64 → pos < 2 ^ 64 → cell (2 ^ k - 1) pos ≡ pos % 2 ^ k
cell_of k pos few h =
    let word : pos ≡ pos % 2 ^ 64 = omega arith in
    ap (λ (t : ℕ). bit_and t (2 ^ k - 1)) word ∙ masked_count k pos few

-- Other positions that are in use are of other cells.
pub elsewhere :
    (k : ℕ) (s : System) (p q : ℕ)
    → s.lap (p % 2 ^ k) ≡ p
    → s.lap (q % 2 ^ k) ≡ q
    → p ≢ q
    → p % 2 ^ k ≢ q % 2 ^ k
elsewhere k s p q e h n x = n (sym e ∙ ap s.lap x ∙ h)

pub differ : true ≡ false → ⊥
differ e = absurd (cc)

module _ {k : ℕ} {s : System} (inv : Inv k s) where
  pub word_small : (i : ℕ) → i < 2 ^ k → s.sequence i < 2 ^ 63
  word_small i l =
      let c = inv.slot i l in
      elim (Bool-cases (s.full i)) [
        | inl f ↦
            omega (arith, c.word, c.near, inv.order, inv.bound, ap (λ (b : Bool). one_if b 1) f)
        | inr f ↦
            omega (arith, c.word, c.near, inv.order, inv.bound, ap (λ (b : Bool). one_if b 1) f)
      ]
