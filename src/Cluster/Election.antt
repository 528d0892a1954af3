-- ===== src/Cluster/Election.antt =====
-- A cluster of `n` nodes of AnimusCore_v1/animus_cluster.hpp that hold elections. Every node has
-- all the others as its peers. A remote call may fail before or after the peer has handled it, and
-- a request may reach a peer late, or never. An answer reaches the worker that made the call, and
-- the name of the caller is the one of its certificate, as `call_rpc` and `handle_inbound` see to.
use animus_core_v.Base.{
  ℕ, zero, suc, ◌+◌, ◌<◌, ◌≡◌, ◌^◌, Bool, true, false, Option, none, some, List, [], ◌∷◌, ◌==◌,
  if◌then◌else◌,
}
use animus_core_v.Base.Tables.{update}
use animus_core_v.Cluster.{
  AddRuleCommand, LogEntry, RequestVoteArgs, RequestVoteResult, AppendEntriesHeader,
  AppendEntriesResult, Node, new_node, handle_request_vote, handle_append_entries,
}
use animus_core_v.Cluster.Leading.{
  begin_election, vote_request, count_vote, finish_election, wins, majority, append_answer,
  advance_commit, propose_begin, Proposed,
}

-- The worker of an election for one peer: not started, in its call, with the answer, or done, and
-- then whether the vote was counted.
pub data Worker : Type 0 where
  idle : Worker
  calling : RequestVoteArgs → Worker
  answered : RequestVoteResult → Worker
  joined : Bool → Worker

abbrev pub is_joined : Worker → Bool
is_joined (Worker.joined b) = true
is_joined _ = false

abbrev pub is_pending : Worker → Bool
is_pending (Worker.calling args) = true
is_pending (Worker.answered r) = true
is_pending _ = false

abbrev pub is_counted : Worker → Bool
is_counted (Worker.joined true) = true
is_counted _ = false

-- `peers_` of node `i`.
unfoldable pub others : ℕ → ℕ → List ℕ
others zero i = []
others (suc n) i = if n == i then others n i else n ∷ others n i

-- For each node its state and its election: whether one is under way, `term_at_election`, `votes`
-- and the workers. `ballot j t` is the vote that node `j` has given in term `t`, and
-- `elected t i` whether `i` has become the leader of term `t`: both are histories.
pub record System : Type 0 where
  pub nodes : ℕ → Node
  pub electing : ℕ → Bool
  pub at_election : ℕ → ℕ
  pub votes : ℕ → ℕ
  pub workers : ℕ → ℕ → Worker
  pub ballot : ℕ → ℕ → Option ℕ
  pub elected : ℕ → ℕ → Bool

abbrev pub start : System
start = record {
  nodes = λ i. new_node;
  electing = λ i. false;
  at_election = λ i. 0;
  votes = λ i. 0;
  workers = λ i j. Worker.idle;
  ballot = λ j t. none;
  elected = λ t i. false;
}

-- The vote of a node in its term, written into its ballots.
unfoldable pub note_vote : Node → (ℕ → Option ℕ) → ℕ → Option ℕ
note_vote m b = if m.has_voted_this_term then update b m.current_term (some m.voted_for) else b

-- Node `j` goes to state `m`.
abbrev pub moved : System → ℕ → Node → System
moved s j m = record s {
  nodes = update s.nodes j m;
  ballot = update s.ballot j (note_vote m (s.ballot j));
}

abbrev pub set_worker : System → ℕ → ℕ → Worker → System
set_worker s i j w = record s { workers = update s.workers i (update (s.workers i) j w) }

-- The workers that `start_election` starts.
unfoldable pub launched : ℕ → RequestVoteArgs → ℕ → Worker
launched i args j = if j == i then Worker.idle else Worker.calling args

abbrev pub after_begin : System → ℕ → System
after_begin s i =
    let m = begin_election i (s.nodes i) in
    record (moved s i m) {
      electing = update s.electing i true;
      at_election = update s.at_election i m.current_term;
      votes = update s.votes i 1;
      workers = update s.workers i (launched i (vote_request i m));
    }

-- A worker has its answer: the vote is counted or not.
abbrev pub after_count : System → ℕ → ℕ → RequestVoteResult → System
after_count s i j r =
    let c = count_vote (s.at_election i) r (s.nodes i) in
    record (set_worker (moved s i c.0) i j (Worker.joined c.1)) {
      votes = if c.1 then update s.votes i (s.votes i + 1) else s.votes;
    }

-- Node `i` is the leader of term `t`.
unfoldable pub crown : (ℕ → ℕ → Bool) → ℕ → ℕ → ℕ → ℕ → Bool
crown f t i = update f t (update (f t) i true)

abbrev pub after_finish : ℕ → System → ℕ → System
after_finish n s i =
    let peers = others n i in
    record (moved s i (finish_election i peers (s.at_election i) (s.votes i) (s.nodes i))) {
      electing = update s.electing i false;
      elected =
          if wins (majority peers) (s.at_election i) (s.votes i) (s.nodes i)
          then crown s.elected (s.nodes i).current_term i
          else s.elected;
    }

-- A run ends before a node's term would wrap, and no node restarts in it. Messages may hold anything: those of `stray`,
-- `append` and `append_reply` are arbitrary.
pub data Step (n : ℕ) (s : System) : System → Type 0 where
  begin :
      (i : ℕ)
      → i < n
      → s.electing i ≡ false
      → (s.nodes i).current_term + 1 < 2 ^ 64
      → Step n s (after_begin s i)
  vote :
      (i j : ℕ) (args : RequestVoteArgs)
      → j < n
      → s.workers i j ≡ Worker.calling args
      → Step n s (
          set_worker
            (moved s j (handle_request_vote i args (s.nodes j)).0)
            i
            j
            (Worker.answered (handle_request_vote i args (s.nodes j)).1))
  lose :
      (i j : ℕ)
      → is_pending (s.workers i j) ≡ true
      → Step n s (set_worker s i j (Worker.joined false))
  stray :
      (i j : ℕ) (args : RequestVoteArgs)
      → j < n
      → Step n s (moved s j (handle_request_vote i args (s.nodes j)).0)
  count :
      (i j : ℕ) (r : RequestVoteResult)
      → i < n
      → j < n
      → s.workers i j ≡ Worker.answered r
      → Step n s (after_count s i j r)
  finish :
      (i : ℕ)
      → i < n
      → s.electing i ≡ true
      → ((j : ℕ) → j < n → is_pending (s.workers i j) ≡ false)
      → Step n s (after_finish n s i)
  append :
      (j leader_id : ℕ) (hdr : AppendEntriesHeader) (entries : List LogEntry) (m : Node)
      (r : AppendEntriesResult)
      → handle_append_entries leader_id hdr entries (s.nodes j) ≡ some (m, r)
      → Step n s (moved s j m)
  append_reply :
      (i peer term_snapshot last : ℕ) (r : AppendEntriesResult)
      → Step n s (moved s i (append_answer peer term_snapshot last r (s.nodes i)))
  commit :
      (i term_snapshot : ℕ) (m : Node)
      → advance_commit (others n i) term_snapshot (s.nodes i) ≡ some m
      → Step n s (moved s i m)
  propose :
      (i index : ℕ) (cmd : AddRuleCommand) (m : Node)
      → propose_begin cmd (s.nodes i) ≡ Proposed.appended m index
      → Step n s (moved s i m)

pub data Reach (n : ℕ) : System → Type 0 where
  here : Reach n start
  next : {s t : System} → Reach n s → Step n s t → Reach n t
