-- ===== src/Cluster/Logs.antt =====
-- How `handle_append_entries` of AnimusCore_v1/animus_cluster.hpp merges the entries of a leader
-- into the log.
use animus_core_v.Base.{
  ℕ, zero, suc, ◌+◌, ◌≤◌, ◌<◌, ◌≡◌, ◌⊎◌, inl, inr, refl, sym, ap, ◌∙◌, List, [], ◌∷◌, ◌++◌, length,
  take, arith, le→ltb, dec_lt, ℕ_discrete, length-append, length-take, take-append,
}
use animus_core_v.Cluster.{LogEntry, term_at, place, merge}

pub term_at-append_old :
    (xs ys : List LogEntry) (i : ℕ) → i < length xs → term_at (xs ++ ys) i ≡ term_at xs i
term_at-append_old [] ys i h = elim h [ ]
term_at-append_old (x ∷ xs) ys zero h = refl
term_at-append_old (x ∷ xs) ys (suc i) h = term_at-append_old xs ys i (omega arith)

pub term_at-append_new :
    (xs : List LogEntry) (y : LogEntry) (ys : List LogEntry) (i : ℕ)
    → i ≡ length xs
    → term_at (xs ++ (y ∷ ys)) i ≡ y.term
term_at-append_new [] y ys zero h = refl
term_at-append_new [] y ys (suc i) h = absurd (omega arith)
term_at-append_new (x ∷ xs) y ys zero h = absurd (omega arith)
term_at-append_new (x ∷ xs) y ys (suc i) h = term_at-append_new xs y ys i (omega arith)

pub take-length : (xs : List LogEntry) → take (length xs) xs ≡ xs
take-length [] = refl
take-length (x ∷ xs) = ap (λ (t : List LogEntry). x ∷ t) (take-length xs)

pub take-take : (m n : ℕ) (xs : List LogEntry) → m ≤ n → take m (take n xs) ≡ take m xs
take-take zero n xs h = refl
take-take (suc m) zero xs h = elim h [ ]
take-take (suc m) (suc n) [] h = refl
take-take (suc m) (suc n) (x ∷ xs) h =
    ap (λ (t : List LogEntry). x ∷ t) (take-take m n xs (omega arith))

term_at-take : (m : ℕ) (xs : List LogEntry) (i : ℕ) → i < m → term_at (take m xs) i ≡ term_at xs i
term_at-take zero xs i h = elim h [ ]
term_at-take (suc m) [] i h = refl
term_at-take (suc m) (x ∷ xs) zero h = refl
term_at-take (suc m) (x ∷ xs) (suc i) h = term_at-take m xs i (omega arith)

-- Logs that agree up to `m` have the same terms there.
pub term_at-prefix :
    (m : ℕ) (xs ys : List LogEntry) (i : ℕ)
    → take m xs ≡ take m ys
    → i < m
    → term_at xs i ≡ term_at ys i
term_at-prefix m xs ys i e h =
    sym (term_at-take m xs i h) ∙ ap (λ (t : List LogEntry). term_at t i) e ∙ term_at-take m ys i h

-- An entry is there already, or the log is cut in front of it and ends with it.
place-cases :
    (e : LogEntry) (idx : ℕ) (log : List LogEntry)
    → idx ≤ length log
    → ((place e idx log ≡ log) × (idx < length log) × (term_at log idx ≡ e.term))
      ⊎ (place e idx log ≡ take idx log ++ (e ∷ []))
unfolding place
place-cases e idx log h = elim (dec_lt idx (length log)) [
  | yes l ↦ elim (ℕ_discrete (term_at log idx) e.term) [
    | yes t ↦ inl (ground arith, l, t)
    | no t ↦ inr (ground arith)
  ]
  | no l ↦
      let end : idx ≡ length log = omega (arith, l) in
      inr (rw (end, le→ltb (length log) (length log) (omega arith), take-length log) refl)
]

length-cut : (idx : ℕ) (log : List LogEntry) → idx ≤ length log → length (take idx log) ≡ idx
length-cut idx log h = omega (arith, length-take idx log)

-- The log that one entry leaves: the entry's term in its place.
place-term :
    (e : LogEntry) (idx : ℕ) (log : List LogEntry)
    → idx ≤ length log
    → (term_at (place e idx log) idx ≡ e.term) × (idx + 1 ≤ length (place e idx log))
place-term e idx log h = elim (place-cases e idx log h) [
  | inl (p, l, t) ↦ rw p (t, omega arith)
  | inr p ↦ rw p (
    term_at-append_new (take idx log) e [] idx (omega (arith, length-cut idx log h)),
    omega (arith, length-append (take idx log) (e ∷ []), length-cut idx log h),
  )
]

place-same :
    (e : LogEntry) (idx : ℕ) (log : List LogEntry)
    → idx < length log
    → term_at log idx ≡ e.term
    → place e idx log ≡ log
unfolding place
place-same e idx log h t = ground arith

-- A prefix with which the entry agrees stays.
place-keeps :
    (e : LogEntry) (idx : ℕ) (log : List LogEntry) (m : ℕ)
    → idx ≤ length log
    → m ≤ length log
    → (idx < m → term_at log idx ≡ e.term)
    → (take m (place e idx log) ≡ take m log) × (m ≤ length (place e idx log))
place-keeps e idx log m h l agree = elim (place-cases e idx log h) [
  | inl (p, b, t) ↦ rw p (refl, l)
  | inr p ↦ elim (dec_lt idx m) [
    | yes b ↦ rw (place-same e idx log (omega arith) (agree b)) (refl, l)
    | no b ↦ rw p (
      take-append m (take idx log) (e ∷ []) (omega (arith, length-cut idx log h, b))
          ∙ take-take m idx log (omega (arith, b)),
      omega (arith, length-append (take idx log) (e ∷ []), length-cut idx log h, b),
    )
  ]
]

-- A prefix with which all the entries agree stays.
pub merge-keeps :
    (es : List LogEntry) (idx : ℕ) (log : List LogEntry) (m : ℕ)
    → idx ≤ length log
    → m ≤ length log
    → ((k : ℕ) → k < length es → idx + k < m → term_at log (idx + k) ≡ term_at es k)
    → (take m (merge es idx log) ≡ take m log) × (m ≤ length (merge es idx log))
unfolding merge
merge-keeps [] idx log m h l agree = (refl, l)
merge-keeps (e ∷ es) idx log m h l agree =
    let first =
      place-keeps e idx log m h l
        (λ b. ap (term_at log) (omega arith) ∙ agree 0 (omega arith) (omega arith)) in
    let rest =
      merge-keeps es (idx + 1) (place e idx log) m (place-term e idx log h).1 first.1 (λ k b c.
        term_at-prefix m (place e idx log) log (idx + 1 + k) first.0 c
        ∙ ap (term_at log) (omega arith)
        ∙ agree (suc k) (omega arith) (omega arith)) in
    (rest.0 ∙ first.0, rest.1)

-- Afterwards the log holds a term of each entry in its place.
pub merge-terms :
    (es : List LogEntry) (idx : ℕ) (log : List LogEntry)
    → idx ≤ length log
    → (idx + length es ≤ length (merge es idx log))
      × ((k : ℕ) → k < length es → term_at (merge es idx log) (idx + k) ≡ term_at es k)
unfolding merge
merge-terms [] idx log h = (omega arith, λ k l. elim l [ ])
merge-terms (e ∷ es) idx log h =
    let first = place-term e idx log h in
    let rest = merge-terms es (idx + 1) (place e idx log) first.1 in
    (omega (arith, rest.0), terms first rest)
  where
    terms :
        (term_at (place e idx log) idx ≡ e.term) × (idx + 1 ≤ length (place e idx log))
        → (idx + 1 + length es ≤ length (merge es (idx + 1) (place e idx log)))
          × ((k : ℕ)
              → k < length es
              → term_at (merge es (idx + 1) (place e idx log)) (idx + 1 + k) ≡ term_at es k)
        → (k : ℕ) → k < suc (length es)
        → term_at (merge es (idx + 1) (place e idx log)) (idx + k) ≡ term_at (e ∷ es) k
    terms first rest zero l =
        let kept =
          merge-keeps es (idx + 1) (place e idx log) (idx + 1) first.1 first.1
            (λ k b c. absurd (omega arith)) in
        ap (term_at (merge es (idx + 1) (place e idx log))) (omega arith)
        ∙ term_at-prefix (idx + 1) (merge es (idx + 1) (place e idx log)) (place e idx log) idx
            kept.0 (omega arith)
        ∙ first.0
    terms first rest (suc k) l =
        ap (term_at (merge es (idx + 1) (place e idx log))) (omega arith) ∙ rest.1 k (omega arith)

-- Entries that are all there already change nothing.
pub merge-same :
    (es : List LogEntry) (idx : ℕ) (log : List LogEntry)
    → idx + length es ≤ length log
    → ((k : ℕ) → k < length es → term_at log (idx + k) ≡ term_at es k)
    → merge es idx log ≡ log
unfolding merge
merge-same [] idx log h agree = refl
merge-same (e ∷ es) idx log h agree =
    ap (merge es (idx + 1))
      (place-same e idx log (omega arith) (ap (term_at log) (omega arith) ∙ agree 0 (omega arith)))
    ∙ merge-same es (idx + 1) log (omega arith)
        (λ k l. ap (term_at log) (omega arith) ∙ agree (suc k) (omega arith))
