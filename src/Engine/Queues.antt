-- ===== src/Engine/Queues.antt =====
-- The loops of `EngineImpl` over a ring (AnimusCore_v1/animus.hpp), against the list that it holds.
use animus_core_v.Base.{
  ℕ, zero, suc, ◌+◌, ◌-◌, ◌^◌, ◌≤◌, ◌<◌, ◌≡◌, refl, sym, ap, ◌∙◌, Bool, true, some, List, [], ◌∷◌,
  ◌++◌, append-nil, append_assoc, arith, length, take, drop, if◌then◌else◌, min, length-snoc,
  lt→ltb, le→ltb, dec_lt, Bool-cases, inl, inr,
}
use animus_core_v.Fifo.{offer}
use animus_core_v.LockFree.{Ring, Outcome}
use animus_core_v.LockFree.Refine.{Holds, push_refines, pop_refines}
use animus_core_v.Engine.{
  TelemetryPayload, ThreatSignal, RawEvent, RuleThreshold, signal, matches, evaluate_rules, stamp,
  record_batch_from, record_batch, pop_upto,
}

-- What a queue of at most `cap` records holds after records are offered one after the other.
abbrev pub filled {ℓ} : {A : Type ℓ} → ℕ → List A → List A → List A
filled cap q xs = q ++ take (cap - length q) xs

filled_room :
    {A : Type 0} (cap : ℕ) (q : List A) (x : A) (xs : List A)
    → length q < cap
    → filled cap (q ++ (x ∷ [])) xs ≡ filled cap q (x ∷ xs)
filled_room cap q x xs h =
    let more : cap - length q ≡ suc (cap - length (q ++ (x ∷ []))) =
      omega (arith, length-snoc q x) in
    rw more (append_assoc q (x ∷ []) _)

filled_full : {A : Type 0} (cap : ℕ) (q xs : List A) → cap ≤ length q → filled cap q xs ≡ q
filled_full cap q xs h =
    let none_left : cap - length q ≡ 0 = omega arith in rw none_left (append-nil q)

filled_nil : {A : Type 0} (cap : ℕ) (q : List A) → filled cap q [] ≡ q
filled_nil cap q = rw (take-nil (cap - length q)) (append-nil q)
  where
    take-nil : {A : Type 0} (n : ℕ) → take {A = A} n [] ≡ []
    take-nil zero = refl
    take-nil (suc n) = refl

-- The signals of one event, in the order of the rules.
abbrev pub signals_of : TelemetryPayload → List RuleThreshold → List ThreatSignal
signals_of p [] = []
signals_of p (rule ∷ rules) =
    if matches p rule then signal p rule ∷ signals_of p rules else signals_of p rules

-- The payloads of a batch.
abbrev pub stamped : (ℕ → ℕ) → ℕ → List RawEvent → List TelemetryPayload
stamped cycles i [] = []
stamped cycles i (e ∷ events) = stamp (cycles i) e ∷ stamped cycles (i + 1) events

filled-offer :
    {A : Type 0} (cap : ℕ) (q : List A) (x : A) (xs : List A)
    → filled cap (offer cap q x).1 xs ≡ filled cap q (x ∷ xs)
filled-offer cap q x xs = elim (dec_lt (length q) cap) [
  | yes room ↦ rw (lt→ltb (length q) cap room) (filled_room cap q x xs room)
  | no full ↦
      rw (le→ltb (length q) cap (omega arith))
        (filled_full cap q xs (omega arith) ∙ sym (filled_full cap q (x ∷ xs) (omega arith)))
]

-- One event against the rules, on a signal ring of at least two cells: the call ends, and the ring
-- then holds its signals followed by those of the matching rules, in the order of the rules, as
-- far as there is room; the others are dropped.
pub evaluate_rules-signals :
    (f : ℕ) (p : TelemetryPayload) (rules : List RuleThreshold) {k d : ℕ} {q : List ThreatSignal}
    {r : Ring ThreatSignal}
    → Holds k d q r
    → (r' : Ring ThreatSignal) × (evaluate_rules (suc f) p rules r ≡ Outcome.done r')
      × Holds k d (filled (2 ^ k) q (signals_of p rules)) r'
unfolding evaluate_rules
evaluate_rules-signals f p [] {k = k} {q = q} {r = r} h = (r, refl, rw (filled_nil (2 ^ k) q) h)
evaluate_rules-signals f p (rule ∷ rules) {k = k} {q = q} h = elim (Bool-cases (matches p rule)) [
  | inl yes_match ↦
      let (after, e, g) = push_refines h f (signal p rule) in
      let (last, e', g') = evaluate_rules-signals f p rules g in
      (
        last,
        rw (yes_match, e, e') refl,
        rw (yes_match, ← filled-offer (2 ^ k) q (signal p rule) (signals_of p rules)) g',
      )
  | inr no_match ↦
      let (last, e', g') = evaluate_rules-signals f p rules h in
      (last, rw (no_match, e') refl, rw no_match g')
]

-- A batch of events on an event ring of at least two cells: the call ends, it returns how many
-- leading events found room, and the ring then holds their payloads, stamped with the readings of
-- the cycle counter, behind the records it held.
pub record_batch-prefix :
    {k d : ℕ} {q : List TelemetryPayload} {r : Ring TelemetryPayload}
    → Holds k d q r
    → (f : ℕ) (cycles : ℕ → ℕ) (events : List RawEvent)
    → (r' : Ring TelemetryPayload) × (record_batch (suc f) cycles (some events) r
        ≡ Outcome.done (min (length events) (2 ^ k - length q), r'))
      × Holds k d (filled (2 ^ k) q (stamped cycles 0 events)) r'
unfolding record_batch
record_batch-prefix h f cycles events = from 0 events h
  where
    from :
        (i : ℕ) (events : List RawEvent) {k d : ℕ} {q : List TelemetryPayload}
        {r : Ring TelemetryPayload}
        → Holds k d q r
        → (r' : Ring TelemetryPayload) × (record_batch_from (suc f) cycles i events r
            ≡ Outcome.done (min (length events) (2 ^ k - length q), r'))
          × Holds k d (filled (2 ^ k) q (stamped cycles i events)) r'
    from i [] {k = k} {q = q} {r = r} h =
        let none_left : min 0 (2 ^ k - length q) ≡ 0 = omega arith in
        (r, rw none_left refl, rw (filled_nil (2 ^ k) q) h)
    from i (e ∷ events) {k = k} {q = q} h =
        let (after, run, g) = push_refines h f (stamp (cycles i) e) in
        elim (dec_lt (length q) (2 ^ k)) [
          | yes room ↦
              let offered : offer (2 ^ k) q (stamp (cycles i) e)
                  ≡ (true, q ++ (stamp (cycles i) e ∷ [])) =
                rw (lt→ltb (length q) (2 ^ k) room) refl in
              let (last, run', g') =
                from (i + 1) events
                  (rw (ap (λ (t : Bool × List TelemetryPayload). t.1) offered) at g) in
              let counted : suc
                    (min (length events) (2 ^ k - length (q ++ (stamp (cycles i) e ∷ []))))
                  ≡ min (suc (length events)) (2 ^ k - length q) =
                omega (arith, length-snoc q (stamp (cycles i) e)) in
              (
                last,
                rw (run, lt→ltb (length q) (2 ^ k) room, run', counted) refl,
                rw
                    (← filled_room (2 ^ k) q (stamp (cycles i) e) (stamped cycles (i + 1) events)
                      room)
                    g',
              )
          | no full ↦
              let filled_up : min (suc (length events)) (2 ^ k - length q) ≡ 0 = omega arith in
              (
                after,
                rw (run, le→ltb (length q) (2 ^ k) (omega arith), filled_up) refl,
                rw (filled_full (2 ^ k) q (stamped cycles i (e ∷ events)) (omega arith))
                    (rw (le→ltb (length q) (2 ^ k) (omega arith)) at g),
              )
        ]

-- Popping up to `n` records from a ring of at least two cells: the call ends, it returns the oldest
-- `n` records, or all of them where there are fewer, in order, and the ring keeps the others.
pub pop_upto-take :
    {A : Type 0} {k d : ℕ} {q : List A} {r : Ring A}
    → Holds k d q r
    → (f n : ℕ)
    → (r' : Ring A) × (pop_upto (suc f) n r ≡ Outcome.done (take n q, r'))
      × ((d' : ℕ) × Holds k d' (drop n q) r')
unfolding pop_upto
pop_upto-take {A = A} h f n = taking f n _ h
  where
    taking :
        (f n : ℕ) (q : List A) {k d : ℕ} {r : Ring A}
        → Holds k d q r
        → (r' : Ring A) × (pop_upto (suc f) n r ≡ Outcome.done (take n q, r'))
          × ((d' : ℕ) × Holds k d' (drop n q) r')
    taking f zero q {d = d} {r = r} h = (r, refl, (d, h))
    taking f (suc n) [] h =
        let (after, e, (d', g, kept)) = pop_refines h f in (after, rw e refl, (d', g))
    taking f (suc n) (v ∷ rest) h =
        let (after, e, (d', g, kept)) = pop_refines h f in
        let (last, e', held) = taking f n rest g in (last, rw (e, e') refl, held)
