-- ===== src/Examples/Ballots.antt =====
-- A concrete election of AnimusCore_v1/animus_cluster.hpp.
use animus_core_v.Base.{ℕ, zero, suc, ◌<◌, ◌≡◌, refl, true, false, arith}
use animus_core_v.Base.Tables.{update}
use animus_core_v.Cluster.{handle_request_vote, observe_term, cast, grants}
use animus_core_v.Cluster.Leading.{
  begin_election, vote_request, count_vote, wins, finish_election, become_leader,
}
use animus_core_v.Cluster.Election.{
  System, Reach, here, next, begin, vote, count, lose, finish, launched, is_pending, note_vote,
  others, crown,
}
use animus_core_v.Cluster.Safety.{one_leader_per_term, leaders_of_one_term}

-- Of three nodes node 0 stands, node 1 votes for it, and node 2 is out of reach.
abbrev counted : (s : System) × Reach 3 s
unfolding update launched begin_election vote_request handle_request_vote observe_term cast grants
    count_vote note_vote
counted = (
  _,
  next
      (next
        (next (next here (begin 0 (omega arith) refl (omega arith)))
          (vote 0 1 _ (omega arith) refl))
        (count 0 1 _ (omega arith) (omega arith) refl))
      (lose 0 2 refl),
)

abbrev settled : (j : ℕ) → j < 3 → is_pending (counted.0.workers 0 j) ≡ false
unfolding update launched begin_election vote_request handle_request_vote observe_term cast grants
    count_vote note_vote
settled zero l = refl
settled (suc zero) l = refl
settled (suc (suc zero)) l = refl
settled (suc (suc (suc j))) l = absurd (omega arith)

abbrev won_one : (s : System) × Reach 3 s
unfolding update counted
won_one = (_, next counted.1 (finish 0 (omega arith) refl settled))

one_leader_per_term_example : ◌≡◌ {A = ℕ} 0 0
unfolding update launched begin_election vote_request handle_request_vote observe_term cast grants
    count_vote note_vote counted won_one wins others crown
one_leader_per_term_example = one_leader_per_term {n = 3} won_one.1 1 0 0 refl refl

leaders_of_one_term_example : (◌≡◌ {A = ℕ} 0 0) × (won_one.0.elected 1 0 ≡ true)
unfolding update launched begin_election vote_request handle_request_vote observe_term cast grants
    count_vote note_vote counted won_one wins others crown finish_election become_leader
leaders_of_one_term_example = leaders_of_one_term {n = 3} won_one.1 0 0 refl refl refl
