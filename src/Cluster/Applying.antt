-- ===== src/Cluster/Applying.antt =====
-- Committed entries on the engine: `apply_committed_entries_locked` and its callers in
-- AnimusCore_v1/animus_cluster.hpp.
use animus_core_v.Base.{
  ℕ, zero, suc, ◌+◌, ◌-◌, ◌*◌, ◌≤◌, ◌<◌, ◌≡◌, ◌⊎◌, inl, inr, refl, sym, ap, ◌∙◌, true, false, not,
  ◌||◌, Option, none, some, Option-cases, Bool-cases, List, [], ◌∷◌, ◌++◌, length, take, ◌==◌,
  arith, dec_lt, ℕ_discrete, le→leb, lt→leb, get_elem?-some, take-snoc,
}
use animus_core_v.Engine.{RuleThreshold}
use animus_core_v.Cluster.{
  LogEntry, Node, apply_entry, apply_rounds, apply_committed_entries, term_at, is_leader, Role,
}
use animus_core_v.Cluster.Leading.{advance_commit, find_commit, committable, holders}

-- The rules of an engine that has been given the entries of a log, each once and in order.
unfoldable pub replay : List LogEntry → List RuleThreshold → List RuleThreshold
replay [] rules = rules
replay (e ∷ es) rules = replay es (apply_entry e rules)

replay-append :
    (xs ys : List LogEntry) (rules : List RuleThreshold)
    → replay (xs ++ ys) rules ≡ replay ys (replay xs rules)
unfolding replay
replay-append [] ys rules = refl
replay-append (x ∷ xs) ys rules = replay-append xs ys (apply_entry x rules)

replay-snoc :
    (xs : List LogEntry) (e : LogEntry) (rules : List RuleThreshold)
    → replay (xs ++ (e ∷ [])) rules ≡ apply_entry e (replay xs rules)
unfolding replay
replay-snoc xs e rules = replay-append xs (e ∷ []) rules

-- The engine holds what the applied entries make of an empty one, and no entry beyond the log is
-- committed.
pub record Applied (n : Node) : Type 0 where
  pub holds : n.rules ≡ replay (take n.last_applied n.log) []
  pub behind : n.last_applied ≤ n.commit_index
  pub within : n.commit_index ≤ length n.log

-- What the loop leaves: all that is committed is applied, and nothing else has changed.
pub record CaughtUp (n n' : Node) : Type 0 where
  pub applied : n'.last_applied ≡ n.commit_index
  pub rules : n'.rules ≡ replay (take n.commit_index n.log) []
  pub log : n'.log ≡ n.log
  pub commit : n'.commit_index ≡ n.commit_index
  pub term : n'.current_term ≡ n.current_term

rounds :
    (k : ℕ) (n : Node)
    → n.last_applied + k ≡ n.commit_index
    → n.commit_index ≤ length n.log
    → n.rules ≡ replay (take n.last_applied n.log) []
    → (n' : Node) × (apply_rounds k n ≡ some n') × CaughtUp n n'
unfolding apply_rounds
rounds zero n e w h =
    let same : n.last_applied ≡ n.commit_index = omega arith in
    (
      n,
      refl,
      record {
        applied = same;
        rules = h ∙ ap (λ (c : ℕ). replay (take c n.log) []) same;
        log = refl;
        commit = refl;
        term = refl;
      },
    )
rounds (suc k) n e w h =
    let entry = get_elem?-some n.log n.last_applied (omega arith) in
    let step : Node = record n {
      rules = apply_entry entry.0 n.rules;
      last_applied = n.last_applied + 1;
    } in
    let ih = rounds k step (omega arith) w (
      sym (
        ap (λ (t : List LogEntry). replay t [])
          (take-snoc n.last_applied n.log {a = entry.0} entry.1)
        ∙ replay-snoc (take n.last_applied n.log) entry.0 []
        ∙ ap (apply_entry entry.0) (sym h))) in
    (
      ih.0,
      rw (entry.1, apply_rounds) ih.1,
      record {
        applied = ih.2.applied;
        rules = ih.2.rules;
        log = ih.2.log;
        commit = ih.2.commit;
        term = ih.2.term;
      },
    )

-- The loop ends with every committed entry applied.
pub caught_up :
    (n : Node)
    → n.rules ≡ replay (take n.last_applied n.log) []
    → n.last_applied ≤ n.commit_index
    → n.commit_index ≤ length n.log
    → (n' : Node) × (apply_committed_entries n ≡ some n') × CaughtUp n n'
unfolding apply_committed_entries
caught_up n h b w = rounds (n.commit_index - n.last_applied) n (omega arith) w h

pub CaughtUp-Applied : {n n' : Node} → n.commit_index ≤ length n.log → CaughtUp n n' → Applied n'
CaughtUp-Applied {n} {n'} w c = record {
  holds =
      c.rules
      ∙ ap (λ (t : List LogEntry). replay (take n.commit_index t) []) (sym c.log)
      ∙ ap (λ (i : ℕ). replay (take i n'.log) []) (sym c.applied);
  behind = omega (arith, c.applied, c.commit);
  within = omega (arith, c.commit, ap (length {A = LogEntry}) c.log);
}

-- Whether the search for the entry to commit finds one, it is the last that may be committed.
Found : List ℕ → Node → ℕ → Option ℕ → Type 0
Found peers n top none = (i : ℕ) → n.commit_index < i → i ≤ top → committable peers n i ≡ false
Found peers n top (some c) =
    (n.commit_index < c)
    × (c ≤ top)
    × (committable peers n c ≡ true)
    × ((i : ℕ) → c < i → i ≤ top → committable peers n i ≡ false)

wider :
    (peers : List ℕ) (n : Node) (top : ℕ) (o : Option ℕ)
    → committable peers n (suc top) ≡ false
    → Found peers n top o
    → Found peers n (suc top) o
unfolding Found
wider peers n top none c f = λ i l h. elim (ℕ_discrete i (suc top)) [
  | yes q ↦ ap (committable peers n) q ∙ c
  | no q ↦ f i l (omega (arith, q))
]
wider peers n top (some x) c (a, b, d, f) = (
  a,
  omega arith,
  d,
  λ i l h. elim (ℕ_discrete i (suc top)) [
    | yes q ↦ ap (committable peers n) q ∙ c
    | no q ↦ f i l (omega (arith, q))
  ],
)

find_commit-Found :
    (peers : List ℕ) (n : Node) (top : ℕ) → Found peers n top (find_commit peers n top)
unfolding find_commit Found
find_commit-Found peers n zero = λ i l h. absurd (omega arith)
find_commit-Found peers n (suc top) = elim (dec_lt n.commit_index (suc top)) [
  | no l ↦
      rw (le→leb (suc top) n.commit_index (omega (arith, l))) (λ i a b. absurd (omega (arith, l)))
  | yes l ↦ elim (Bool-cases (committable peers n (suc top))) [
    | inl c ↦
        rw (lt→leb (suc top) n.commit_index l, c) (l, omega arith, c, λ i a b. absurd (omega arith))
    | inr c ↦
        rw (lt→leb (suc top) n.commit_index l, c)
          (wider peers n top (find_commit peers n top) c (find_commit-Found peers n top))
  ]
]

-- An entry of the node's own term that more than half of the cluster holds.
abbrev pub Replicated : List ℕ → Node → ℕ → Type 0
Replicated peers n i =
    (term_at n.log (i - 1) ≡ n.current_term)
    × (length peers + 1 < 2 * holders peers n.match_index i)

committable-Replicated :
    (peers : List ℕ) (n : Node) (i : ℕ) → committable peers n i ≡ true → Replicated peers n i
committable-Replicated peers n i e = (ground arith, ground arith)

uncommittable :
    (peers : List ℕ) (n : Node) (i : ℕ) → committable peers n i ≡ false → ¬ Replicated peers n i
uncommittable peers n i e (t, h) = ground arith

-- `advance_commit` of a leader in the term of the call reads nothing out of bounds and leaves the
-- log as it is. Either it commits nothing, and then no later entry is of the leader's term and
-- held by a majority; or it commits up to the last entry that is, and applies each newly committed
-- entry once and in order. So the engine stays the one that the committed entries make.
pub advance_commit-Applied :
    (peers : List ℕ) (n : Node)
    → Applied n
    → n.role ≡ Role.leader
    → (n' : Node) × (advance_commit peers n.current_term n ≡ some n')
      × Applied n'
      × (n'.log ≡ n.log)
      × (((n' ≡ n) × ((i : ℕ) → n.commit_index < i → i ≤ length n.log → ¬ Replicated peers n i))
          ⊎ ((n.commit_index < n'.commit_index)
              × (n'.last_applied ≡ n'.commit_index)
              × Replicated peers n n'.commit_index
              × ((i : ℕ) → n'.commit_index < i → i ≤ length n.log → ¬ Replicated peers n i)))
unfolding advance_commit Found
advance_commit-Applied peers n a r =
    let found = find_commit-Found peers n (length n.log) in
    let leading : (not (is_leader n.role) || not (n.current_term == n.current_term)) ≡ false =
      rw r (ground arith) in
    elim (Option-cases (find_commit peers n (length n.log))) [
      | inl q ↦
          let f : Found peers n (length n.log) none = rw q at found in
          rw (leading, q) (n, refl, a, refl, inl (refl, λ i l h. uncommittable peers n i (f i l h)))
      | inr (c, q) ↦
          let f : Found peers n (length n.log) (some c) = rw q at found in
          let up =
            caught_up (record n { commit_index = c }) a.holds (omega (arith, a.behind, f.0)) f.1 in
          let n' = up.0 in
          let u = up.2 in
          rw (leading, q)
            (
              n',
              up.1,
              CaughtUp-Applied f.1 u,
              u.log,
              inr (
                omega (arith, u.commit, f.0),
                u.applied ∙ sym u.commit,
                committable-Replicated peers n n'.commit_index
                    (ap (committable peers n) u.commit ∙ f.2),
                λ i l h. uncommittable peers n i (f.3 i (omega (arith, u.commit)) h),
              ),
            )
    ]
