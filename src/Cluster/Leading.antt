-- ===== src/Cluster/Leading.antt =====
-- The calls that a `RaftNode` of AnimusCore_v1/animus_cluster.hpp starts itself, cut where
-- `state_mutex_` is released around a remote call: elections, replication and `propose`.
use animus_core_v.Base.{
  ℕ, zero, suc, ◌+◌, ◌-◌, ◌/◌, ◌%◌, ◌^◌, Bool, true, false, not, ◌&&◌, ◌||◌, Option, none, some,
  List, [], ◌∷◌, ◌++◌, length, get_elem?, ltb, leb, ◌==◌, if◌then◌else◌,
}
use animus_core_v.Base.Words.{add64}
use animus_core_v.Cluster.{
  AddRuleCommand, LogEntry, Role, RequestVoteArgs, RequestVoteResult, AppendEntriesHeader,
  AppendEntriesResult, Node, is_leader, is_candidate, term_at, last_log_term, observe_term,
  apply_committed_entries,
}

-- The first block of `start_election`, and the request that it sends to every peer.
unfoldable pub begin_election : ℕ → Node → Node
begin_election id n = record n {
  current_term = add64 n.current_term 1;
  role = Role.candidate;
  voted_for = id;
  has_voted_this_term = true;
  has_leader = false;
}

unfoldable pub vote_request : ℕ → Node → RequestVoteArgs
vote_request id n = record {
  term = n.current_term;
  candidate_id = id;
  last_log_index = length n.log;
  last_log_term = last_log_term n.log;
}

-- What the worker for one peer does with the answer: the node, and whether the vote counts.
unfoldable pub count_vote : ℕ → RequestVoteResult → Node → Node × Bool
count_vote term_at_election result n =
    if ltb n.current_term result.term
    then (observe_term result.term n, false)
    else (n, not (result.vote_granted == 0) && (result.term == term_at_election))

abbrev pub majority : List ℕ → ℕ
majority peers = (length peers + 1) / 2 + 1

-- An entry of a map of node ids, and one entry for every peer.
unfoldable pub assign : (ℕ → ℕ) → ℕ → ℕ → ℕ → ℕ
assign f p v q = if q == p then v else f q

unfoldable pub assign_all : List ℕ → ℕ → (ℕ → ℕ) → ℕ → ℕ
assign_all [] v f = f
assign_all (p ∷ ps) v f = assign_all ps v (assign f p v)

abbrev pub noop : ℕ → LogEntry
noop term = record {
  term = term;
  is_noop = 1;
  command = record { rule_id = 0; event_id = 0; threshold = 0; comparator = 0; severity = 0 };
}

unfoldable pub wins : ℕ → ℕ → ℕ → Node → Bool
wins quorum term_at_election votes n =
    is_candidate n.role && ((n.current_term == term_at_election) && leb quorum votes)

unfoldable pub become_leader : ℕ → List ℕ → Node → Node
become_leader id peers n = record n {
  role = Role.leader;
  current_leader = id;
  has_leader = true;
  next_index = assign_all peers (length n.log + 1) n.next_index;
  match_index = assign_all peers 0 n.match_index;
  log = n.log ++ (noop n.current_term ∷ []);
}

-- The last block of `start_election`, after the workers have been joined.
unfoldable pub finish_election : ℕ → List ℕ → ℕ → ℕ → Node → Node
finish_election id peers term_at_election votes n =
    if wins (majority peers) term_at_election votes n then become_leader id peers n else n

abbrev pub max_entries_per_rpc : ℕ
max_entries_per_rpc = 64

-- The loop that collects the entries from number `i` on, counted from 1, with room for `room`.
unfoldable pub collect : ℕ → ℕ → List LogEntry → List LogEntry
collect zero i log = []
collect (suc room) i log = elim (get_elem? log (i - 1)) [
  | none ↦ []
  | some e ↦ e ∷ collect room (i + 1) log
]

-- The first block of `replicate_to_peer`: nothing is sent, entry 0 is read before the start of
-- the log, or a request goes out.
pub data Outgoing : Type 0 where
  quiet : Outgoing
  fault : Outgoing
  append : AppendEntriesHeader → List LogEntry → Outgoing

unfoldable pub prev_term : ℕ → List LogEntry → ℕ
prev_term prev log = if ltb 0 prev && leb prev (length log) then term_at log (prev - 1) else 0

unfoldable pub append_request : ℕ → ℕ → ℕ → ℕ → Node → Outgoing
append_request id peer term_snapshot commit_snapshot n =
    let next_idx = n.next_index peer in
    let prev = if ltb 0 next_idx then next_idx - 1 else 0 in
    let entries = collect max_entries_per_rpc next_idx n.log in
    if not (is_leader n.role) || not (n.current_term == term_snapshot)
    then Outgoing.quiet
    else if next_idx == 0
    then Outgoing.fault
    else Outgoing.append
        (record {
          term = term_snapshot;
          leader_id = id;
          prev_log_index = prev;
          prev_log_term = prev_term prev n.log;
          leader_commit = commit_snapshot;
          entry_count = length entries % 2 ^ 32;
        })
        entries

-- The last block of `replicate_to_peer`, for an answer to a request whose last entry is number
-- `last`.
unfoldable pub append_answer : ℕ → ℕ → ℕ → AppendEntriesResult → Node → Node
append_answer peer term_snapshot last result n =
    if ltb n.current_term result.term
    then observe_term result.term n
    else if not (is_leader n.role) || not (n.current_term == term_snapshot)
    then n
    else if not (result.success == 0)
    then record n {
      next_index = assign n.next_index peer (add64 last 1);
      match_index = assign n.match_index peer last;
    }
    else if ltb 1 (n.next_index peer)
    then record n { next_index = assign n.next_index peer (n.next_index peer - 1) }
    else n

-- The nodes that hold entry number `i`, the leader among them.
unfoldable pub holders : List ℕ → (ℕ → ℕ) → ℕ → ℕ
holders [] match_index i = 1
holders (p ∷ ps) match_index i = holders ps match_index i + (if leb i (match_index p) then 1 else 0)

abbrev pub committable : List ℕ → Node → ℕ → Bool
committable peers n i =
    (term_at n.log (i - 1) == n.current_term)
    && leb (majority peers) (holders peers n.match_index i)

-- The loop that looks for the entry to commit, from number `i` down.
unfoldable pub find_commit : List ℕ → Node → ℕ → Option ℕ
find_commit peers n zero = none
find_commit peers n (suc i) =
    let rest = find_commit peers n i in
    if leb (suc i) n.commit_index
    then none
    else if committable peers n (suc i)
    then some (suc i)
    else rest

-- The last block of `replicate_to_all_peers`.
unfoldable pub advance_commit : List ℕ → ℕ → Node → Option Node
advance_commit peers term_snapshot n =
    if not (is_leader n.role) || not (n.current_term == term_snapshot)
    then some n
    else elim (find_commit peers n (length n.log)) [
      | none ↦ some n
      | some i ↦ apply_committed_entries (record n { commit_index = i })
    ]

pub data ProposeResult : Type 0 where
  ok : ProposeResult
  not_leader : ProposeResult
  failed : ProposeResult

abbrev pub leader_hint : Node → ℕ
leader_hint n = if n.has_leader then n.current_leader else 0

-- The first block of `propose`: a redirection, or the node and the number of the new entry.
pub data Proposed : Type 0 where
  redirected : ℕ → Proposed
  appended : Node → ℕ → Proposed

unfoldable pub propose_begin : AddRuleCommand → Node → Proposed
propose_begin cmd n =
    if not (is_leader n.role)
    then Proposed.redirected (leader_hint n)
    else Proposed.appended
        (record n {
          log = n.log ++ (record { term = n.current_term; is_noop = 0; command = cmd } ∷ []);
        })
        (length n.log + 1)

-- One round of the waiting loop of `propose`: `none` where it goes on to wait.
unfoldable pub propose_round : ℕ → Node → Option ProposeResult
propose_round my_index n =
    if leb my_index n.commit_index
    then some ProposeResult.ok
    else if not (is_leader n.role)
    then some ProposeResult.not_leader
    else none

-- The loop, with the states that it finds until its deadline.
unfoldable pub propose_wait : ℕ → List Node → ProposeResult
propose_wait my_index [] = ProposeResult.failed
propose_wait my_index (n ∷ ns) =
    let rest = propose_wait my_index ns in
    elim (propose_round my_index n) [ none ↦ rest | some r ↦ r ]
