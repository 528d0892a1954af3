-- ===== src/Mpmc/Safety.antt =====
-- What any number of producers and consumers of an `ShmRingMpmc` (include/animus/shm_ipc.hpp) see
-- of each other.
use native.Mathlib.Nat.{one-le-pow}
use mathlib.Core.Path.{subst}
use animus_core_v.Base.{
  ℕ, ◌+◌, ◌-◌, ◌%◌, ◌^◌, ◌≤◌, ◌<◌, ◌≡◌, ◌⊎◌, inl, inr, sym, ap, ◌∙◌, Bool, true, false, Option,
  none, some, some_inj, arith, dec_lt, Bool-cases, refl, Option-cases,
}
use animus_core_v.Base.Words.{add64}
use animus_core_v.LockFree.{Sign, signed_diff}
use animus_core_v.Mpmc.System.{Thread, System, Reach, cell, push_branch, pop_branch}
use animus_core_v.Mpmc.Invariant.{Stands, Inv, Published, one_if}
use animus_core_v.Mpmc.Frame.{cell_of, cell_lt, lap_apart, signed_diff-cases, differ, word_small}
use animus_core_v.Mpmc.Steps.{Stands-small, at_cell, Reach-Inv}

-- The position that a thread has won and not yet given back.
abbrev pub holds : Thread → Option ℕ
holds (Thread.push_store v p) = some p
holds (Thread.push_release v p) = some p
holds (Thread.pop_load p) = some p
holds (Thread.pop_release p x) = some p
holds _ = none

-- The cell of such a position is used for it, and the history names the thread, by the side that
-- the cell is on.
record Owner (k : ℕ) (s : System) (t p : ℕ) : Type 0 where
  used : s.lap (p % 2 ^ k) ≡ p
  small : p ≤ s.enqueue_pos
  side :
      ((s.full (p % 2 ^ k) ≡ false) × (s.producer p ≡ t))
      ⊎ ((s.full (p % 2 ^ k) ≡ true) × (s.consumer p ≡ t))

Stands-Owner :
    {k : ℕ} {s : System} {t p : ℕ} {th : Thread}
    → Inv k s
    → Stands k s t th
    → holds th ≡ some p
    → Owner k s t p
Stands-Owner inv Stands.idle e = absurd (cc)
Stands-Owner inv (Stands.push_at l) e = absurd (cc)
Stands-Owner inv (Stands.push_claim l h) e = absurd (cc)
Stands-Owner {k} {s} {t} inv (Stands.push_store {v} {pos} l u f o c) e =
    subst (λ (x : ℕ). Owner k s t x) (some_inj e)
      record { used = u; small = omega arith; side = inl (f, o) }
Stands-Owner {k} {s} {t} inv (Stands.push_release {v} {pos} l u f o c x) e =
    subst (λ (x : ℕ). Owner k s t x) (some_inj e)
      record { used = u; small = omega arith; side = inl (f, o) }
Stands-Owner inv (Stands.pop_at l) e = absurd (cc)
Stands-Owner inv (Stands.pop_claim l h) e = absurd (cc)
Stands-Owner {k} {s} {t} inv (Stands.pop_load {pos} l u f o g) e =
    subst (λ (x : ℕ). Owner k s t x) (some_inj e)
      record { used = u; small = omega (arith, inv.order); side = inr (f, o) }
Stands-Owner {k} {s} {t} inv (Stands.pop_release {pos} l u f o g) e =
    subst (λ (x : ℕ). Owner k s t x) (some_inj e)
      record { used = u; small = omega (arith, inv.order); side = inr (f, o) }

-- Two threads that have each won a position and not given it back never have the same cell: what a
-- thread stores into a record, or loads from it, no other thread touches meanwhile.
pub exclusive_cell :
    {k : ℕ} {s : System}
    → 1 ≤ k
    → k ≤ 61
    → Reach (2 ^ k - 1) s
    → (t u p q : ℕ) → holds (s.threads t) ≡ some p
    → holds (s.threads u) ≡ some q
    → cell (2 ^ k - 1) p ≡ cell (2 ^ k - 1) q
    → t ≡ u
exclusive_cell {k} {s} two few r t u p q a b e =
    let inv = Reach-Inv two few r in
    let x = Stands-Owner inv (inv.stands t) a in
    let y = Stands-Owner inv (inv.stands u) b in
    let at : (z : ℕ) → z ≤ s.enqueue_pos → cell (2 ^ k - 1) z ≡ z % 2 ^ k =
      λ z l. cell_of k z (omega (arith, few)) (omega (arith, l, inv.bound)) in
    let same : p % 2 ^ k ≡ q % 2 ^ k = sym (at p x.small) ∙ e ∙ at q y.small in
    let pos : p ≡ q = sym x.used ∙ ap s.lap same ∙ y.used in owner pos x.side y.side
  where
    owner :
        p ≡ q
        → ((s.full (p % 2 ^ k) ≡ false) × (s.producer p ≡ t))
          ⊎ ((s.full (p % 2 ^ k) ≡ true) × (s.consumer p ≡ t))
        → ((s.full (q % 2 ^ k) ≡ false) × (s.producer q ≡ u))
          ⊎ ((s.full (q % 2 ^ k) ≡ true) × (s.consumer q ≡ u))
        → t ≡ u
    owner h (inl (f, o)) (inl (g, w)) = sym o ∙ ap s.producer h ∙ w
    owner h (inr (f, o)) (inr (g, w)) = sym o ∙ ap s.consumer h ∙ w
    owner h (inl (f, o)) (inr (g, w)) =
        absurd (differ (sym g ∙ ap (λ (z : ℕ). s.full (z % 2 ^ k)) (sym h) ∙ f))
    owner h (inr (f, o)) (inl (g, w)) =
        absurd (differ (sym f ∙ ap (λ (z : ℕ). s.full (z % 2 ^ k)) h ∙ g))

-- In every run of any number of producers and consumers, for every position: either no pop has
-- loaded a record there, or a pop has won it and what it loaded is the record of the push that won
-- it. Never have pops won more positions than pushes, nor are pushes more than the capacity ahead.
pub delivered :
    {k : ℕ} {s : System}
    → 1 ≤ k
    → k ≤ 61
    → Reach (2 ^ k - 1) s
    → (p : ℕ)
    → ((s.got p ≡ none) ⊎ ((s.got p ≡ some (s.sent p)) × (p < s.dequeue_pos)))
      × (s.dequeue_pos ≤ s.enqueue_pos)
      × (s.enqueue_pos ≤ s.dequeue_pos + 2 ^ k)
delivered {k} {s} two few r p =
    let inv = Reach-Inv two few r in
    let c = inv.slot (s.dequeue_pos % 2 ^ k) (cell_lt k s.dequeue_pos) in
    (
      elim (Option-cases (s.got p)) [
        | inl g ↦ inl g
        | inr (x, g) ↦ inr (g ∙ ap some (inv.taken p x g).1, (inv.taken p x g).0)
      ],
      inv.order,
      elim (dec_lt s.dequeue_pos (s.lap (s.dequeue_pos % 2 ^ k))) [
        | yes l ↦
            let far = lap_apart k s.dequeue_pos (s.lap (s.dequeue_pos % 2 ^ k)) (sym c.place) l in
            absurd (omega (arith, far, c.near))
        | no l ↦ omega (arith, c.claims, l)
      ],
    )

-- A thread that is about to load the record of a position is the first to do so, and what it is
-- about to load is the record that the push of that position has stored: each is got once.
pub loaded_once :
    {k : ℕ} {s : System}
    → 1 ≤ k
    → k ≤ 61
    → Reach (2 ^ k - 1) s
    → (t p : ℕ) → s.threads t ≡ Thread.pop_load p
    → (s.got p ≡ none) × (s.value (cell (2 ^ k - 1) p) ≡ s.sent p)
loaded_once {k} {s} two few r t p e =
    let inv = Reach-Inv two few r in
    let c = inv.slot (p % 2 ^ k) (cell_lt k p) in
    let o = unread (rw e at (inv.stands t)) in
    (o.0, rw (at_cell inv t (Thread.pop_load p) e) (c.content o.2 ∙ ap s.sent o.1))
  where
    unread :
        Stands k s t (Thread.pop_load p)
        → (s.got p ≡ none) × (s.lap (p % 2 ^ k) ≡ p) × (s.full (p % 2 ^ k) ≡ true)
    unread (Stands.pop_load l e h o g) = (g, e, h)

-- A look refuses only where the word of the cell is behind.
push_branch-behind :
    (s : System) (v pos : ℕ) (x : Sign) → push_branch s v pos x ≡ Thread.idle → x ≡ Sign.behind
push_branch-behind s v pos Sign.equal e = absurd (cc)
push_branch-behind s v pos Sign.behind e = refl
push_branch-behind s v pos Sign.ahead e = absurd (cc)

pop_branch-behind :
    (s : System) (pos : ℕ) (x : Sign) → pop_branch s pos x ≡ Thread.idle → x ≡ Sign.behind
pop_branch-behind s pos Sign.equal e = absurd (cc)
pop_branch-behind s pos Sign.behind e = refl
pop_branch-behind s pos Sign.ahead e = absurd (cc)

behind-lt : (a b : ℕ) → a < 2 ^ 63 → b < 2 ^ 63 → signed_diff a b ≡ Sign.behind → a < b
behind-lt a b l h e = elim (signed_diff-cases a b l h) [
  | inl (q, x) ↦ absurd (cc)
  | inr (inl (q, x)) ↦ x
  | inr (inr (q, x)) ↦ absurd (cc)
]

-- The look of a push at its cell refuses it only while the ring is full: its position is the next
-- one to win, and is a whole capacity ahead of the one that its cell is still used for.
pub push_refused :
    {k : ℕ} {s : System}
    → 1 ≤ k
    → k ≤ 61
    → Reach (2 ^ k - 1) s
    → (t v pos : ℕ) → s.threads t ≡ Thread.push_at v pos
    → push_branch s v pos (signed_diff (s.sequence (cell (2 ^ k - 1) pos)) pos) ≡ Thread.idle
    → (s.enqueue_pos ≡ pos) × (s.lap (cell (2 ^ k - 1) pos) + 2 ^ k ≡ pos)
push_refused {k} {s} two few r t v pos th refused =
    let b = push_branch-behind s v pos _ refused in
    let inv = Reach-Inv two few r in
    let c = inv.slot (pos % 2 ^ k) (cell_lt k pos) in
    let here = at_cell inv t (Thread.push_at v pos) th in
    let low : pos ≤ s.enqueue_pos = Stands-small inv (rw th at (inv.stands t)) in
    let behind =
      behind-lt (s.sequence (pos % 2 ^ k)) pos (word_small inv _ (cell_lt k pos))
        (omega (arith, low, inv.bound)) (rw here at b) in
    let far = lap_apart k (s.lap (pos % 2 ^ k)) pos c.place (omega (arith, c.word, behind)) in
    (omega (arith, far, low, c.claims), rw here (omega (arith, far, low, c.claims)))

-- The look of a pop at its cell refuses it only where no record is there: its position is the next
-- one to win, and is not published.
pub pop_refused :
    {k : ℕ} {s : System}
    → 1 ≤ k
    → k ≤ 61
    → Reach (2 ^ k - 1) s
    → (t pos : ℕ) → s.threads t ≡ Thread.pop_at pos
    → pop_branch s pos (signed_diff (s.sequence (cell (2 ^ k - 1) pos)) (add64 pos 1)) ≡ Thread.idle
    → (s.dequeue_pos ≡ pos) × (¬ Published k s pos)
pop_refused {k} {s} two few r t pos th refused =
    let b = pop_branch-behind s pos _ refused in
    let inv = Reach-Inv two few r in
    let c = inv.slot (pos % 2 ^ k) (cell_lt k pos) in
    let here = at_cell inv t (Thread.pop_at pos) th in
    let low : pos ≤ s.dequeue_pos = popping (rw th at (inv.stands t)) in
    let up : add64 pos 1 ≡ pos + 1 = omega (arith, low, inv.order, inv.bound) in
    let behind =
      behind-lt (s.sequence (pos % 2 ^ k)) (add64 pos 1) (word_small inv _ (cell_lt k pos))
        (omega (arith, up, low, inv.order, inv.bound)) (rw here at b) in
    elim (Bool-cases (s.full (pos % 2 ^ k))) [
      | inl f ↦
          let one = ap (λ (x : Bool). one_if x 1) f in
          let lap = ap (λ (x : Bool). one_if x (2 ^ k)) f in
          let far =
            lap_apart k (s.lap (pos % 2 ^ k)) pos c.place
              (omega (arith, c.word, behind, up, one)) in
          (omega (arith, low, far, c.takes, lap), λ p. not_ahead p far)
      | inr f ↦
          let none = ap (λ (x : Bool). one_if x 1) f in
          let lap = ap (λ (x : Bool). one_if x (2 ^ k)) f in
          let low' : s.lap (pos % 2 ^ k) ≤ pos = omega (arith, c.word, behind, up, none) in
          (omega (arith, low, low', c.takes, lap), λ p. not_full p low' f)
    ]
  where
    popping : Stands k s t (Thread.pop_at pos) → pos ≤ s.dequeue_pos
    popping (Stands.pop_at l) = l

    not_ahead : Published k s pos → s.lap (pos % 2 ^ k) + 2 ^ k ≤ pos → ⊥
    not_ahead (inl l) far = omega (arith, one-le-pow k 2 (omega arith))
    not_ahead (inr (e, f)) far = omega (arith, one-le-pow k 2 (omega arith))

    not_full : Published k s pos → s.lap (pos % 2 ^ k) ≤ pos → s.full (pos % 2 ^ k) ≡ false → ⊥
    not_full (inl l) low f = omega arith
    not_full (inr (e, g)) low f = differ (sym g ∙ f)
