-- ===== src/Cluster.antt =====
-- `RaftNode` of AnimusCore_v1/animus_cluster.hpp: its state, and what it does with a request of
-- another node. A handler holds `state_mutex_` from its start to its end, so it is one function.
-- The election deadline, which only says when an election may start, is left out.
pub mod Leading
pub mod Wire
pub mod Framing
pub mod Terms
pub mod Votes
pub mod Ballots
pub mod Appends
pub mod Committed
pub mod Applying
pub mod Logs
pub mod Workers
pub mod Standing
pub mod Election
pub mod Runs
pub mod Safety
use animus_core_v.Base.{
  ℕ, zero, suc, ◌+◌, ◌-◌, ◌≤◌, ◌<◌, Bool, true, false, not, ◌&&◌, ◌||◌, Option, none, some, List,
  [], ◌∷◌, ◌++◌, length, get_elem?, take, min, ltb, leb, ◌==◌, if◌then◌else◌,
}
use animus_core_v.Engine.{RuleThreshold, add_rule}

pub record AddRuleCommand : Type 0 where
  pub rule_id : ℕ
  pub event_id : ℕ
  pub threshold : ℕ
  pub comparator : ℕ
  pub severity : ℕ

pub record LogEntry : Type 0 where
  pub term : ℕ
  pub is_noop : ℕ
  pub command : AddRuleCommand

pub data Role : Type 0 where
  follower : Role
  candidate : Role
  leader : Role

pub record RequestVoteArgs : Type 0 where
  pub term : ℕ
  pub candidate_id : ℕ
  pub last_log_index : ℕ
  pub last_log_term : ℕ

pub record RequestVoteResult : Type 0 where
  pub term : ℕ
  pub vote_granted : ℕ

pub record AppendEntriesHeader : Type 0 where
  pub term : ℕ
  pub leader_id : ℕ
  pub prev_log_index : ℕ
  pub prev_log_term : ℕ
  pub leader_commit : ℕ
  pub entry_count : ℕ

pub record AppendEntriesResult : Type 0 where
  pub term : ℕ
  pub success : ℕ
  pub match_index : ℕ

-- The members behind `state_mutex_`, and the rules of the engine that the node owns. A map from
-- node ids that has no entry yields 0, as `operator[]` does.
pub record Node : Type 0 where
  pub role : Role
  pub current_term : ℕ
  pub voted_for : ℕ
  pub has_voted_this_term : Bool
  pub log : List LogEntry
  pub commit_index : ℕ
  pub last_applied : ℕ
  pub current_leader : ℕ
  pub has_leader : Bool
  pub next_index : ℕ → ℕ
  pub match_index : ℕ → ℕ
  pub rules : List RuleThreshold

abbrev pub new_node : Node
new_node = record {
  role = Role.follower;
  current_term = 0;
  voted_for = 0;
  has_voted_this_term = false;
  log = [];
  commit_index = 0;
  last_applied = 0;
  current_leader = 0;
  has_leader = false;
  next_index = λ p. 0;
  match_index = λ p. 0;
  rules = [];
}

-- `role_.load() == Role::Leader`.
abbrev pub is_leader : Role → Bool
is_leader Role.leader = true
is_leader _ = false

abbrev pub is_candidate : Role → Bool
is_candidate Role.candidate = true
is_candidate _ = false

-- The term of entry `i` of a log. It is 0 where there is none; every use of it stands behind a test
-- of the length.
abbrev pub term_at : List LogEntry → ℕ → ℕ
term_at [] i = 0
term_at (e ∷ es) zero = e.term
term_at (e ∷ es) (suc i) = term_at es i

abbrev pub last_log_term : List LogEntry → ℕ
last_log_term log = if length log == 0 then 0 else term_at log (length log - 1)

-- A later term in a message makes a follower of the node, with its vote not yet given.
unfoldable pub observe_term : ℕ → Node → Node
observe_term term n =
    if ltb n.current_term term
    then record n { current_term = term; role = Role.follower; has_voted_this_term = false }
    else n

-- The conditions of `handle_request_vote` for a vote, once the terms have been compared.
abbrev pub log_ok : RequestVoteArgs → Node → Bool
log_ok args n =
    ltb (last_log_term n.log) args.last_log_term
    || ((args.last_log_term == last_log_term n.log) && leb (length n.log) args.last_log_index)

unfoldable pub grants : ℕ → RequestVoteArgs → Node → Bool
grants candidate_id args n =
    leb n.current_term args.term
    && ((not n.has_voted_this_term || (n.voted_for == candidate_id)) && log_ok args n)

unfoldable pub cast : ℕ → RequestVoteArgs → Node → Node × RequestVoteResult
cast candidate_id args n =
    if grants candidate_id args n
    then (
      record n { has_voted_this_term = true; voted_for = candidate_id },
      record { term = n.current_term; vote_granted = 1 },
    )
    else (n, record { term = n.current_term; vote_granted = 0 })

unfoldable pub handle_request_vote : ℕ → RequestVoteArgs → Node → Node × RequestVoteResult
handle_request_vote candidate_id args n = cast candidate_id args (observe_term args.term n)

-- One command on the engine, whose answer the node does not look at.
unfoldable pub apply_entry : LogEntry → List RuleThreshold → List RuleThreshold
apply_entry e rules =
    if e.is_noop == 0
    then (add_rule e.command.rule_id e.command.event_id e.command.threshold e.command.comparator
        e.command.severity rules).1
    else rules

-- The loop of `apply_committed_entries_locked`, for the rounds that are left. `none` is a read
-- past the end of the log.
unfoldable pub apply_rounds : ℕ → Node → Option Node
apply_rounds zero n = some n
apply_rounds (suc k) n = elim (get_elem? n.log n.last_applied) [
  | none ↦ none
  | some e ↦
      apply_rounds k (record n { rules = apply_entry e n.rules; last_applied = n.last_applied + 1 })
]

unfoldable pub apply_committed_entries : Node → Option Node
apply_committed_entries n = apply_rounds (n.commit_index - n.last_applied) n

-- One round of the loop of `handle_append_entries` over the entries.
unfoldable pub place : LogEntry → ℕ → List LogEntry → List LogEntry
place e idx log =
    if ltb idx (length log)
    then (if term_at log idx == e.term then log else take idx log ++ (e ∷ []))
    else log ++ (e ∷ [])

unfoldable pub merge : List LogEntry → ℕ → List LogEntry → List LogEntry
merge [] idx log = log
merge (e ∷ es) idx log = merge es (idx + 1) (place e idx log)

unfoldable pub refusal : Node → Option (Node × AppendEntriesResult)
refusal n = some (n, record { term = n.current_term; success = 0; match_index = 0 })

abbrev pub accepted : Node → Node × AppendEntriesResult
accepted n = (n, record { term = n.current_term; success = 1; match_index = length n.log })

-- The part of `handle_append_entries` after the log has been merged.
unfoldable pub follow_commit : ℕ → Node → Option (Node × AppendEntriesResult)
follow_commit leader_commit n =
    if ltb n.commit_index leader_commit
    then elim (apply_committed_entries
        (record n { commit_index = min leader_commit (length n.log) })) [
          | none ↦ none
          | some n' ↦ some (accepted n')
        ]
    else some (accepted n)

-- The checks on the entry before the new ones, and the rest.
unfoldable pub append_after :
    AppendEntriesHeader → List LogEntry → Node → Option (Node × AppendEntriesResult)
append_after hdr entries n =
    if ltb 0 hdr.prev_log_index && ltb (length n.log) hdr.prev_log_index
    then refusal n
    else if ltb 0 hdr.prev_log_index
        && not (term_at n.log (hdr.prev_log_index - 1) == hdr.prev_log_term)
    then refusal (record n { log = take (hdr.prev_log_index - 1) n.log })
    else follow_commit hdr.leader_commit (record n { log = merge entries hdr.prev_log_index n.log })

-- The node once it takes the sender for the leader of its term.
unfoldable pub accept_leader : ℕ → ℕ → Node → Node
accept_leader leader_id term n = record (observe_term term n) {
  role = Role.follower;
  current_leader = leader_id;
  has_leader = true;
}

unfoldable pub handle_append_entries :
    ℕ → AppendEntriesHeader → List LogEntry → Node → Option (Node × AppendEntriesResult)
handle_append_entries leader_id hdr entries n =
    if ltb hdr.term n.current_term
    then refusal n
    else append_after hdr entries (accept_leader leader_id hdr.term n)
