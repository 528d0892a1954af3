-- ===== src/Cluster/Terms.antt =====
-- Terms, votes and roles of a `RaftNode` over its steps, and what the step on a vote request does.
use animus_core_v.Base.{
  ℕ, ◌≤◌, ◌≡◌, ◌≢◌, refl, ◌∙◌, Bool, true, false, ltb, if◌then◌else◌, Bool-cases, inl, inr, arith,
}
use animus_core_v.Cluster.{
  Role, RequestVoteArgs, RequestVoteResult, Node, observe_term, grants, cast, handle_request_vote,
}

-- From one state of a node to a later one: its term does not go back, within a term its vote stays
-- what it was, and it leads afterwards only where it led that very term before.
pub record Keeps (m n : Node) : Type 0 where
  pub later : m.current_term ≤ n.current_term
  pub vote :
      m.current_term ≡ n.current_term
      → m.has_voted_this_term ≡ true
      → (n.has_voted_this_term ≡ true) × (n.voted_for ≡ m.voted_for)
  pub lead : n.role ≡ Role.leader → (m.role ≡ Role.leader) × (n.current_term ≡ m.current_term)

-- The same without the role: a node that an election makes the leader also keeps its vote.
abbrev pub Polls : Node → Node → Type 0
Polls m n = Keeps m (record n { role = Role.follower })

pub Keeps-Polls : {m n : Node} → Keeps m n → Polls m n
Keeps-Polls k = record { later = k.later; vote = k.vote; lead = λ l. absurd (cc) }

pub Keeps-refl : (m : Node) → Keeps m m
Keeps-refl m = record { later = omega arith; vote = λ e v. (v, refl); lead = λ l. (l, refl) }

pub Keeps-trans : {l m n : Node} → Keeps l m → Keeps m n → Keeps l n
Keeps-trans {l} {m} {n} a b = record {
  later = omega (arith, a.later, b.later);
  vote = λ e v.
      let same : l.current_term ≡ m.current_term = omega (arith, a.later, b.later, e) in
      let v' = a.vote same v in
      let v'' = b.vote (omega (arith, same, e)) v'.0 in (v''.0, v''.1 ∙ v'.1);
  lead = λ r. let r' = b.lead r in let r'' = a.lead r'.0 in (r''.0, r'.1 ∙ r''.1);
}

-- A step that leaves the term and the vote, and does not make a leader.
pub Keeps-same :
    {m n : Node}
    → n.current_term ≡ m.current_term
    → n.has_voted_this_term ≡ m.has_voted_this_term
    → n.voted_for ≡ m.voted_for
    → (n.role ≡ Role.leader → m.role ≡ Role.leader)
    → Keeps m n
Keeps-same t h v r = record {
  later = omega (arith, t);
  vote = λ e w. (h ∙ w, v);
  lead = λ l. (r l, t);
}

-- Both branches of a test.
pub Keeps-if : {m x y : Node} (b : Bool) → Keeps m x → Keeps m y → Keeps m (if b then x else y)
Keeps-if true h k = h
Keeps-if false h k = k

pub observe_term-Keeps : (t : ℕ) (n : Node) → Keeps n (observe_term t n)
unfolding observe_term
observe_term-Keeps t n = elim (Bool-cases (ltb n.current_term t)) [
  | inl e ↦
      rw e record {
        later = ground arith;
        vote = λ q v. absurd (ground arith);
        lead = λ l. absurd (cc);
      }
  | inr e ↦ rw e (Keeps-refl n)
]

pub observe_term-le : (t : ℕ) (n : Node) → t ≤ (observe_term t n).current_term
unfolding observe_term
observe_term-le t n = ground arith

-- A vote that is given is on record afterwards, and the answer names the node's term.
pub record Answered (candidate_id : ℕ) (r : RequestVoteResult) (n : Node) : Type 0 where
  pub in_term : r.term ≡ n.current_term
  pub for_candidate :
      r.vote_granted ≢ 0 → (n.has_voted_this_term ≡ true) × (n.voted_for ≡ candidate_id)

-- A node that has voted grants only the candidate of its vote.
given :
    (c : ℕ) (args : RequestVoteArgs) (n : Node)
    → grants c args n ≡ true
    → n.has_voted_this_term ≡ true
    → c ≡ n.voted_for
unfolding grants
given c args n e v = ground arith

cast-Keeps : (c : ℕ) (args : RequestVoteArgs) (n : Node) → Keeps n (cast c args n).0
unfolding cast grants
cast-Keeps c args n = elim (Bool-cases (grants c args n)) [
  | inl e ↦ rw e record {
    later = omega arith;
    vote = λ q v. (refl, given c args n e v);
    lead = λ l. (l, refl);
  }
  | inr e ↦ rw e (Keeps-refl n)
]

cast-Answered :
    (c : ℕ) (args : RequestVoteArgs) (n : Node) → Answered c (cast c args n).1 (cast c args n).0
unfolding cast
cast-Answered c args n = elim (Bool-cases (grants c args n)) [
  | inl e ↦ rw e record { in_term = refl; for_candidate = λ h. (refl, refl) }
  | inr e ↦ rw e record { in_term = refl; for_candidate = λ h. absurd (h refl) }
]

pub handle_request_vote-Keeps :
    (c : ℕ) (args : RequestVoteArgs) (n : Node) → Keeps n (handle_request_vote c args n).0
unfolding handle_request_vote
handle_request_vote-Keeps c args n =
    Keeps-trans (observe_term-Keeps args.term n) (cast-Keeps c args (observe_term args.term n))

pub handle_request_vote-Answered :
    (c : ℕ) (args : RequestVoteArgs) (n : Node)
    → Answered c (handle_request_vote c args n).1 (handle_request_vote c args n).0
unfolding handle_request_vote
handle_request_vote-Answered c args n = cast-Answered c args (observe_term args.term n)
