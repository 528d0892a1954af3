-- ===== src/Cluster/Safety.antt =====
-- Election Safety of the cluster of AnimusCore_v1/animus_cluster.hpp: in a term, one leader at most.
use animus_core_v.Base.{ℕ, ◌≡◌, sym, ap, ◌∙◌, true, some_inj, arith}
use animus_core_v.Base.Tables.{tally-overlap}
use animus_core_v.Cluster.{Role}
use animus_core_v.Cluster.Election.{System, Reach}
use animus_core_v.Cluster.Ballots.{is_for, is_for-some}
use animus_core_v.Cluster.Runs.{Reach-Inv}

-- In every run in which no node restarts, whatever requests and answers are lost or late, and
-- whatever the other messages hold: two nodes that have won an election of the same term, then or at any earlier time, are the
-- same node.
pub one_leader_per_term :
    {n : ℕ} {s : System}
    → Reach n s
    → (t i j : ℕ) → s.elected t i ≡ true
    → s.elected t j ≡ true
    → i ≡ j
one_leader_per_term {n} {s} r t i j a b =
    let inv = Reach-Inv r in
    let k =
      tally-overlap n (λ v. is_for i (s.ballot v t)) (λ v. is_for j (s.ballot v t))
        (omega (arith, inv.quorum t i a, inv.quorum t j b)) in
    some_inj (sym (is_for-some i _ k.2) ∙ is_for-some j _ k.3)

-- A node that is leader has won the election of its term, so at no moment of any run in
-- which no node restarts are two different nodes both leader in the same term.
pub leaders_of_one_term :
    {n : ℕ} {s : System}
    → Reach n s
    → (i j : ℕ) → (s.nodes i).role ≡ Role.leader
    → (s.nodes j).role ≡ Role.leader
    → (s.nodes i).current_term ≡ (s.nodes j).current_term
    → (i ≡ j) × (s.elected (s.nodes i).current_term i ≡ true)
leaders_of_one_term {s = s} r i j a b e =
    let inv = Reach-Inv r in
    (
      one_leader_per_term r (s.nodes i).current_term i j (inv.leads i a)
          (ap (λ (t : ℕ). s.elected t j) e ∙ inv.leads j b),
      inv.leads i a,
    )
