-- ===== src/Cluster/Appends.antt =====
-- `handle_append_entries` of AnimusCore_v1/animus_cluster.hpp on each of its branches.
use animus_core_v.Base.{
  ℕ, zero, suc, ◌+◌, ◌-◌, ◌≤◌, ◌<◌, ◌≡◌, ◌≢◌, ◌⊎◌, inl, inr, refl, ap, ◌∙◌, some, List, length,
  take, min, ltb, Bool-cases, arith, le→ltb, lt→ltb, ==_iff, ne→==, dec_lt, ℕ_discrete,
  get_elem?-some,
}
use animus_core_v.Cluster.{
  LogEntry, Role, Node, AppendEntriesHeader, apply_rounds, apply_entry, apply_committed_entries,
  term_at, observe_term, accept_leader, refusal, accepted, follow_commit, append_after,
  handle_append_entries, merge,
}
use animus_core_v.Cluster.Logs.{take-length, merge-keeps, merge-terms, merge-same, term_at-prefix}

-- The fields that neither the term nor the name of the leader touches.
pub record Same (m n : Node) : Type 0 where
  pub log : n.log ≡ m.log
  pub commit : n.commit_index ≡ m.commit_index
  pub last : n.last_applied ≡ m.last_applied
  pub rules : n.rules ≡ m.rules

pub accept_leader-Same : (id t : ℕ) (n : Node) → Same n (accept_leader id t n)
unfolding accept_leader observe_term
accept_leader-Same id t n = elim (Bool-cases (ltb n.current_term t)) [
  | inl e ↦ rw e record { log = refl; commit = refl; last = refl; rules = refl }
  | inr e ↦ rw e record { log = refl; commit = refl; last = refl; rules = refl }
]

accept_leader-term :
    (id t : ℕ) (n : Node) → n.current_term ≤ t → (accept_leader id t n).current_term ≡ t
unfolding accept_leader observe_term
accept_leader-term id t n h = ground arith

-- The entry before the new ones is in the log.
abbrev pub Matches : AppendEntriesHeader → List LogEntry → Type 0
Matches hdr log =
    0 < hdr.prev_log_index
    → (hdr.prev_log_index ≤ length log) × (term_at log (hdr.prev_log_index - 1) ≡ hdr.prev_log_term)

pub Matches-le :
    (hdr : AppendEntriesHeader) (log : List LogEntry)
    → Matches hdr log
    → hdr.prev_log_index ≤ length log
Matches-le hdr log m = elim (dec_lt 0 hdr.prev_log_index) [
  | yes l ↦ (m l).0
  | no l ↦ omega (arith, l)
]

-- The loop reads no entry that is not there.
rounds_in_bounds :
    (k : ℕ) (n : Node)
    → (0 < k → n.last_applied + k ≤ length n.log)
    → (n' : Node) × (apply_rounds k n ≡ some n')
      × (n'.log ≡ n.log)
      × (n'.current_term ≡ n.current_term)
      × (n'.role ≡ n.role)
unfolding apply_rounds
rounds_in_bounds zero n h = (n, refl, refl, refl, refl)
rounds_in_bounds (suc k) n h =
    let entry = get_elem?-some n.log n.last_applied (omega (arith, h (omega arith))) in
    let step : Node = record n {
      rules = apply_entry entry.0 n.rules;
      last_applied = n.last_applied + 1;
    } in
    let ih = rounds_in_bounds k step (λ l. omega (arith, h (omega arith))) in
    (ih.0, rw (entry.1, apply_rounds) ih.1, ih.2, ih.3, ih.4)

follow_commit-total :
    (leader_commit : ℕ) (n : Node)
    → (n' : Node) × (follow_commit leader_commit n ≡ some (accepted n'))
      × (n'.log ≡ n.log)
      × (n'.current_term ≡ n.current_term)
      × (n'.role ≡ n.role)
unfolding follow_commit apply_committed_entries
follow_commit-total leader_commit n = elim (Bool-cases (ltb n.commit_index leader_commit)) [
  | inr e ↦ (n, rw e refl, refl, refl, refl)
  | inl e ↦
      let m : Node = record n { commit_index = min leader_commit (length n.log) } in
      let up = rounds_in_bounds (m.commit_index - m.last_applied) m (λ l. omega arith) in
      (up.0, rw (e, up.1) refl, up.2, up.3, up.4)
]

accept_leader-role : (id t : ℕ) (n : Node) → (accept_leader id t n).role ≡ Role.follower
unfolding accept_leader
accept_leader-role id t n = refl

-- Past both checks, and at each of them.
pub append_after-merges :
    (hdr : AppendEntriesHeader) (entries : List LogEntry) (n : Node)
    → Matches hdr n.log
    → append_after hdr entries n
      ≡ follow_commit hdr.leader_commit (record n { log = merge entries hdr.prev_log_index n.log })
unfolding append_after
append_after-merges hdr entries n m = elim (dec_lt 0 hdr.prev_log_index) [
  | no l ↦ rw (le→ltb 0 hdr.prev_log_index (omega (arith, l))) refl
  | yes l ↦
      rw
        (
          lt→ltb 0 hdr.prev_log_index l,
          le→ltb (length n.log) hdr.prev_log_index (m l).0,
          (==_iff (term_at n.log (hdr.prev_log_index - 1)) hdr.prev_log_term).1 (m l).1,
        )
        refl
]

pub append_after-refuses :
    (hdr : AppendEntriesHeader) (entries : List LogEntry) (n : Node)
    → Matches hdr n.log
      ⊎ ((keep : ℕ) × (append_after hdr entries n ≡ refusal (record n { log = take keep n.log }))
          × (0 < hdr.prev_log_index)
          × ((hdr.prev_log_index ≤ keep + 1) ⊎ (length n.log ≤ keep))
          × (hdr.prev_log_index ≤ length n.log
              → term_at n.log (hdr.prev_log_index - 1) ≢ hdr.prev_log_term))
unfolding append_after
append_after-refuses hdr entries n = elim (dec_lt 0 hdr.prev_log_index) [
  | no l ↦ inl (λ p. absurd (l p))
  | yes l ↦ elim (dec_lt (length n.log) hdr.prev_log_index) [
    | yes h ↦ inr (
      length n.log,
      rw
          (
            lt→ltb 0 hdr.prev_log_index l,
            lt→ltb (length n.log) hdr.prev_log_index h,
            take-length n.log,
          )
          refl,
      l,
      inr (omega arith),
      λ p. absurd (omega arith),
    )
    | no h ↦ elim (ℕ_discrete (term_at n.log (hdr.prev_log_index - 1)) hdr.prev_log_term) [
      | yes t ↦ inl (λ p. (omega (arith, h), t))
      | no t ↦ inr (
        hdr.prev_log_index - 1,
        rw
            (
              lt→ltb 0 hdr.prev_log_index l,
              le→ltb (length n.log) hdr.prev_log_index (omega (arith, h)),
              ne→== (term_at n.log (hdr.prev_log_index - 1)) hdr.prev_log_term t,
            )
            refl,
        l,
        inl (omega arith),
        λ p. t,
      )
    ]
  ]
]

pub handle-later :
    (leader_id : ℕ) (hdr : AppendEntriesHeader) (entries : List LogEntry) (n : Node)
    → n.current_term ≤ hdr.term
    → handle_append_entries leader_id hdr entries n
      ≡ append_after hdr entries (accept_leader leader_id hdr.term n)
unfolding handle_append_entries
handle-later leader_id hdr entries n h = rw (le→ltb hdr.term n.current_term h) refl

-- A request of the node's term or a later one, whose preceding entry is in the log, is accepted:
-- the handler reads nothing out of bounds, answers with success in the request's term, follows the
-- sender, and its log is the merged one.
append-accepts :
    (leader_id : ℕ) (hdr : AppendEntriesHeader) (entries : List LogEntry) (n : Node)
    → n.current_term ≤ hdr.term
    → Matches hdr n.log
    → (n' : Node) × (handle_append_entries leader_id hdr entries n ≡ some (accepted n'))
      × (n'.log ≡ merge entries hdr.prev_log_index n.log)
      × (n'.current_term ≡ hdr.term)
      × (n'.role ≡ Role.follower)
append-accepts leader_id hdr entries n h m =
    let same = accept_leader-Same leader_id hdr.term n in
    let x = accept_leader leader_id hdr.term n in
    let m' : Matches hdr x.log = rw same.log m in
    let go =
      follow_commit-total hdr.leader_commit
        (record x { log = merge entries hdr.prev_log_index x.log }) in
    (
      go.0,
      handle-later leader_id hdr entries n h ∙ append_after-merges hdr entries x m' ∙ go.1,
      go.2 ∙ ap (merge entries hdr.prev_log_index) same.log,
      go.3 ∙ accept_leader-term leader_id hdr.term n h,
      go.4 ∙ accept_leader-role leader_id hdr.term n,
    )

-- The same request handled again, as when its answer was lost, is accepted again and leaves the log
-- as it is; and the log then holds the terms of its entries from `prev_log_index` on, behind the
-- part that it had in front of them.
pub append-twice :
    (leader_id : ℕ) (hdr : AppendEntriesHeader) (entries : List LogEntry) (n : Node)
    → n.current_term ≤ hdr.term
    → Matches hdr n.log
    → (n' n'' : Node) × (handle_append_entries leader_id hdr entries n ≡ some (accepted n'))
      × (handle_append_entries leader_id hdr entries n' ≡ some (accepted n''))
      × (n''.log ≡ n'.log)
      × (take hdr.prev_log_index n'.log ≡ take hdr.prev_log_index n.log)
      × (hdr.prev_log_index + length entries ≤ length n'.log)
      × ((k : ℕ) → k < length entries → term_at n'.log (hdr.prev_log_index + k) ≡ term_at entries k)
append-twice leader_id hdr entries n h m =
    let prev = hdr.prev_log_index in
    let bound = Matches-le hdr n.log m in
    let a = append-accepts leader_id hdr entries n h m in
    let n' = a.0 in
    let kept = merge-keeps entries prev n.log prev bound bound (λ k l c. absurd (omega arith)) in
    let terms = merge-terms entries prev n.log bound in
    let m' : Matches hdr n'.log = λ l. (
      omega (arith, ap (length {A = LogEntry}) a.2, kept.1),
      ap (λ (t : List LogEntry). term_at t (prev - 1)) a.2
          ∙ term_at-prefix prev (merge entries prev n.log) n.log (prev - 1) kept.0 (omega arith)
          ∙ (m l).1,
    ) in
    let b = append-accepts leader_id hdr entries n' (omega (arith, a.3)) m' in
    let held : (k : ℕ) → k < length entries → term_at n'.log (prev + k) ≡ term_at entries k =
      λ k l. ap (λ (t : List LogEntry). term_at t (prev + k)) a.2 ∙ terms.1 k l in
    let long : prev + length entries ≤ length n'.log =
      omega (arith, ap (length {A = LogEntry}) a.2, terms.0) in
    (
      n',
      b.0,
      a.1,
      b.1,
      b.2 ∙ merge-same entries prev n'.log long held,
      ap (take prev) a.2 ∙ kept.0,
      long,
      held,
    )
