-- ===== src/Cluster/Votes.antt =====
-- What every step of a `RaftNode` does to its term, its vote and its role.
use mathlib.Core.Path.{subst}
use animus_core_v.Base.{
  ℕ, zero, suc, ◌+◌, ◌-◌, ◌≤◌, ◌<◌, ◌^◌, ◌≡◌, refl, Bool, true, false, not, ◌&&◌, ◌||◌, Option,
  none, some, Option-cases, some_inj, List, length, get_elem?, take, ltb, ◌==◌, if◌then◌else◌,
  Bool-cases, inl, inr, arith,
}
use animus_core_v.Base.Words.{add64}
use animus_core_v.Cluster.{
  AddRuleCommand, LogEntry, RequestVoteResult, AppendEntriesHeader, AppendEntriesResult, Node,
  is_leader, accepted, apply_rounds, apply_committed_entries, refusal, follow_commit, append_after,
  accept_leader, handle_append_entries, merge, term_at,
}
use animus_core_v.Cluster.Leading.{
  begin_election, count_vote, finish_election, become_leader, wins, majority, append_answer,
  advance_commit, find_commit, propose_begin, Proposed, assign,
}
use animus_core_v.Cluster.Terms.{
  Keeps, Polls, Keeps-refl, Keeps-trans, Keeps-same, Keeps-if, observe_term-Keeps,
}

apply_rounds-Keeps : (k : ℕ) (n n' : Node) → apply_rounds k n ≡ some n' → Keeps n n'
unfolding apply_rounds
apply_rounds-Keeps zero n n' e = subst (λ (x : Node). Keeps n x) (some_inj e) (Keeps-refl n)
apply_rounds-Keeps (suc k) n n' e = elim (Option-cases (get_elem? n.log n.last_applied)) [
  | inl q ↦ absurd (cc)
  | inr (a, q) ↦
      let one : Keeps n _ = Keeps-same refl refl refl (λ l. l) in
      Keeps-trans one (apply_rounds-Keeps k _ n' (rw (q, apply_rounds) at e))
]

apply_committed_entries-Keeps : (n n' : Node) → apply_committed_entries n ≡ some n' → Keeps n n'
unfolding apply_committed_entries
apply_committed_entries-Keeps n n' e = apply_rounds-Keeps (n.commit_index - n.last_applied) n n' e

-- The state that a handler leaves, where it returns.
abbrev After : Node → Option (Node × AppendEntriesResult) → Type 0
After m o = (n : Node) (r : AppendEntriesResult) → o ≡ some (n, r) → Keeps m n

After-some : (m n : Node) (r : AppendEntriesResult) → Keeps m n → After m (some (n, r))
After-some m n r k n' r' e = subst (λ (x : Node × AppendEntriesResult). Keeps m x.0) (some_inj e) k

After-if :
    {m : Node} {x y : Option (Node × AppendEntriesResult)} (b : Bool)
    → After m x
    → After m y
    → After m (if b then x else y)
After-if true h k = h
After-if false h k = k

-- A step that leaves the fields of the election.
After-log : (m n : Node) (log : List LogEntry) → Keeps m n → Keeps m (record n { log = log })
After-log m n log k = Keeps-trans k (Keeps-same refl refl refl (λ l. l))

committed-After :
    (m n : Node)
    → Keeps m n
    → After m (elim (apply_committed_entries n) [ none ↦ none | some n' ↦ some (accepted n') ])
committed-After m n k = elim (Option-cases (apply_committed_entries n)) [
  | inl q ↦ λ n' r e. absurd (cc)
  | inr (a, q) ↦ rw q (After-some m a _ (Keeps-trans k (apply_committed_entries-Keeps n a q)))
]

follow_commit-After :
    (leader_commit : ℕ) (m n : Node) → Keeps m n → After m (follow_commit leader_commit n)
unfolding follow_commit
follow_commit-After leader_commit m n k =
    After-if (ltb n.commit_index leader_commit)
      (committed-After m _ (Keeps-trans k (Keeps-same refl refl refl (λ l. l))))
      (After-some m n _ k)

append_after-After :
    (hdr : AppendEntriesHeader) (entries : List LogEntry) (m n : Node)
    → Keeps m n
    → After m (append_after hdr entries n)
unfolding append_after refusal
append_after-After hdr entries m n k =
    let cut = take (hdr.prev_log_index - 1) n.log in
    let no : AppendEntriesResult = record { term = n.current_term; success = 0; match_index = 0 } in
    After-if (ltb 0 hdr.prev_log_index && ltb (length n.log) hdr.prev_log_index)
      (After-some m n no k)
      (After-if
        (ltb 0 hdr.prev_log_index
          && not (term_at n.log (hdr.prev_log_index - 1) == hdr.prev_log_term))
        (After-some m (record n { log = cut }) no (After-log m n cut k))
        (follow_commit-After hdr.leader_commit m
          (record n { log = merge entries hdr.prev_log_index n.log })
          (After-log m n (merge entries hdr.prev_log_index n.log) k)))

accept_leader-Keeps : (leader_id term : ℕ) (n : Node) → Keeps n (accept_leader leader_id term n)
unfolding accept_leader
accept_leader-Keeps leader_id term n =
    Keeps-trans (observe_term-Keeps term n) (Keeps-same refl refl refl (λ l. absurd (cc)))

pub handle_append_entries-Keeps :
    (leader_id : ℕ) (hdr : AppendEntriesHeader) (entries : List LogEntry) (n : Node)
    → After n (handle_append_entries leader_id hdr entries n)
unfolding handle_append_entries refusal
handle_append_entries-Keeps leader_id hdr entries n =
    After-if _ (After-some n n _ (Keeps-refl n))
      (append_after-After hdr entries n _ (accept_leader-Keeps leader_id hdr.term n))

pub begin_election-Keeps :
    (id : ℕ) (n : Node) → n.current_term + 1 < 2 ^ 64 → Keeps n (begin_election id n)
unfolding begin_election
begin_election-Keeps id n h = record {
  later = omega arith;
  vote = λ q v. absurd (omega arith);
  lead = λ l. absurd (cc);
}

pub count_vote-Keeps : (t : ℕ) (r : RequestVoteResult) (n : Node) → Keeps n (count_vote t r n).0
unfolding count_vote
count_vote-Keeps t r n = elim (Bool-cases (ltb n.current_term r.term)) [
  | inl e ↦ rw e (observe_term-Keeps r.term n)
  | inr e ↦ rw e (Keeps-refl n)
]

pub append_answer-Keeps :
    (peer t last : ℕ) (r : AppendEntriesResult) (n : Node) → Keeps n (append_answer peer t last r n)
unfolding append_answer
append_answer-Keeps peer t last r n =
    let moved : (f g : ℕ → ℕ) → Keeps n (record n { next_index = f; match_index = g }) =
      λ f g. Keeps-same refl refl refl (λ l. l) in
    Keeps-if (ltb n.current_term r.term) (observe_term-Keeps r.term n) (
      Keeps-if (not (is_leader n.role) || not (n.current_term == t)) (Keeps-refl n) (
        Keeps-if (not (r.success == 0))
          (moved (assign n.next_index peer (add64 last 1)) (assign n.match_index peer last))
          (Keeps-if (ltb 1 (n.next_index peer))
            (moved (assign n.next_index peer (n.next_index peer - 1)) n.match_index)
            (Keeps-refl n))))

pub advance_commit-Keeps :
    (peers : List ℕ) (t : ℕ) (n n' : Node) → advance_commit peers t n ≡ some n' → Keeps n n'
unfolding advance_commit
advance_commit-Keeps peers t n n' e =
    elim (Bool-cases (not (is_leader n.role) || not (n.current_term == t))) [
      | inl b ↦ subst (λ (x : Node). Keeps n x) (some_inj (rw b at e)) (Keeps-refl n)
      | inr b ↦ elim (Option-cases (find_commit peers n (length n.log))) [
        | inl q ↦ subst (λ (x : Node). Keeps n x) (some_inj (rw (b, q) at e)) (Keeps-refl n)
        | inr (i, q) ↦
            Keeps-trans (Keeps-same refl refl refl (λ l. l))
              (apply_committed_entries-Keeps (record n { commit_index = i }) n' (rw (b, q) at e))
      ]
    ]

pub propose_begin-Keeps :
    (cmd : AddRuleCommand) (n n' : Node) (i : ℕ)
    → propose_begin cmd n ≡ Proposed.appended n' i
    → Keeps n n'
unfolding propose_begin
propose_begin-Keeps cmd n n' i e = elim (Bool-cases (is_leader n.role)) [
  | inl b ↦ subst (λ (x : Node). Keeps n x) (proposed (rw b at e)) (After-log n n _ (Keeps-refl n))
  | inr b ↦ absurd (cc)
]
  where
    proposed : {x y : Node} {a b : ℕ} → Proposed.appended x a ≡ Proposed.appended y b → x ≡ y
    proposed e = cc

-- Where an election ends, the term and the vote stay.
pub finish_election-Polls :
    (id : ℕ) (peers : List ℕ) (t votes : ℕ) (n : Node)
    → Polls n (finish_election id peers t votes n)
unfolding finish_election become_leader
finish_election-Polls id peers t votes n = elim (Bool-cases (wins (majority peers) t votes n)) [
  | inl e ↦ rw e (Keeps-same refl refl refl (λ l. absurd (cc)))
  | inr e ↦ rw e (Keeps-same refl refl refl (λ l. absurd (cc)))
]

-- A win is in the term of the election and with a majority, and there is no leader without one.
pub wins-majority :
    (quorum t votes : ℕ) (n : Node)
    → wins quorum t votes n ≡ true
    → (n.current_term ≡ t) × (quorum ≤ votes)
unfolding wins
wins-majority quorum t votes n e = (ground arith, ground arith)

pub finish_election-lost :
    (id : ℕ) (peers : List ℕ) (t votes : ℕ) (n : Node)
    → wins (majority peers) t votes n ≡ false
    → finish_election id peers t votes n ≡ n
unfolding finish_election
finish_election-lost id peers t votes n e = rw e refl

pub finish_election-term :
    (id : ℕ) (peers : List ℕ) (t votes : ℕ) (n : Node)
    → (finish_election id peers t votes n).current_term ≡ n.current_term
unfolding finish_election become_leader
finish_election-term id peers t votes n = elim (Bool-cases (wins (majority peers) t votes n)) [
  | inl e ↦ rw e refl
  | inr e ↦ rw e refl
]
