-- ===== src/Cluster/Runs.antt =====
-- Every step of a cluster of AnimusCore_v1/animus_cluster.hpp keeps what holds of its votes.
use animus_core_v.Base.{
  ℕ, zero, suc, ◌+◌, ◌*◌, ◌≤◌, ◌<◌, ◌^◌, ◌≡◌, ◌≢◌, refl, sym, ap, ◌∙◌, true, false, Bool, Option,
  some, length, Bool-cases, ◌⊎◌, inl, inr, arith, ℕ_discrete,
}
use animus_core_v.Base.Tables.{update, update_same, update_other, tally-lt}
use animus_core_v.Cluster.{Node, Role, RequestVoteArgs, RequestVoteResult, handle_request_vote}
use animus_core_v.Cluster.Leading.{
  begin_election, vote_request, count_vote, finish_election, wins, majority,
}
use animus_core_v.Cluster.Terms.{
  Keeps-Polls, Keeps-refl, handle_request_vote-Keeps, handle_request_vote-Answered,
}
use animus_core_v.Cluster.Votes.{
  handle_append_entries-Keeps, begin_election-Keeps, count_vote-Keeps, append_answer-Keeps,
  advance_commit-Keeps, propose_begin-Keeps, finish_election-Polls, wins-majority,
  finish_election-lost, finish_election-term,
}
use animus_core_v.Cluster.Election.{
  Worker, System, Step, Reach, others, crown, note_vote, moved, set_worker, is_counted, is_pending,
  after_begin, after_count, after_finish, begin, vote, lose, stray, count, finish, append,
  append_reply, commit, propose, here, next,
}
use animus_core_v.Cluster.Ballots.{is_for, some-is_for, votes_for, votes_for_mono}
use animus_core_v.Cluster.Standing.{
  Inv, Vouched, start-Inv, moved-Inv, crowned-Inv, stopped-Inv, moved-extends, moved-quorum,
}
use animus_core_v.Cluster.Workers.{launched-Inv, pending-Inv, counted-Inv}

length-others_of_le : (n i : ℕ) → n ≤ i → length (others n i) ≡ n
unfolding others
length-others_of_le zero i l = refl
length-others_of_le (suc n) i l = ground (arith, length-others_of_le n i (omega arith))

length-others : (n i : ℕ) → i < n → length (others n i) + 1 ≡ n
unfolding others
length-others zero i l = elim l [ ]
length-others (suc n) i l = elim (ℕ_discrete n i) [
  | yes q ↦ ground (arith, length-others_of_le n i (omega (arith, q)))
  | no q ↦ ground (arith, length-others n i (omega (arith, q)))
]

-- What a vote that is counted says.
counts :
    (t : ℕ) (r : RequestVoteResult) (m : Node)
    → (count_vote t r m).1 ≡ true
    → (r.vote_granted ≢ 0) × (r.term ≡ t)
unfolding count_vote
counts t r m e = (ground arith, ground arith)

crown-cases :
    (f : ℕ → ℕ → Bool) (t i a b : ℕ) → crown f t i a b ≡ true → ((a ≡ t) × (b ≡ i)) ⊎ (f a b ≡ true)
unfolding crown update
crown-cases f t i a b e = ground arith

crown-keeps : (f : ℕ → ℕ → Bool) (t i a b : ℕ) → f a b ≡ true → crown f t i a b ≡ true
unfolding crown update
crown-keeps f t i a b e = ground arith

crown_self : (f : ℕ → ℕ → Bool) (t i : ℕ) → crown f t i t i ≡ true
unfolding crown update
crown_self f t i = ground arith

-- A vote that is noted is on record.
noted :
    (s : System) (j : ℕ) (m : Node) (c : ℕ)
    → (m.has_voted_this_term ≡ true) × (m.voted_for ≡ c)
    → (moved s j m).ballot j m.current_term ≡ some c
unfolding note_vote
noted s j m c v =
    ap (λ (f : ℕ → Option ℕ). f m.current_term) (update_same s.ballot j (note_vote m (s.ballot j)))
    ∙ rw v.0 (update_same (s.ballot j) m.current_term (some m.voted_for) ∙ ap some v.1)

module _ {n : ℕ} {s : System} (inv : Inv n s) where
  begin-Inv : (i : ℕ) → (s.nodes i).current_term + 1 < 2 ^ 64 → Inv n (after_begin s i)
  begin-Inv i h =
      let m = begin_election i (s.nodes i) in
      launched-Inv (moved-Inv inv i m (begin_election-Keeps i (s.nodes i) h)) i m.current_term
        (vote_request i m) (noted s i m i (unfold begin_election in (refl, refl)))

  busy : (i j : ℕ) → is_pending (s.workers i j) ≡ true → i ≢ j
  busy i j p q =
      let still : is_pending (s.workers i j) ≡ false = rw (sym q) (ap is_pending (inv.alone i)) in
      absurd (cc)

  vote-Inv :
      (i j : ℕ) (args : RequestVoteArgs)
      → s.workers i j ≡ Worker.calling args
      → Inv n (
          set_worker
            (moved s j (handle_request_vote i args (s.nodes j)).0)
            i
            j
            (Worker.answered (handle_request_vote i args (s.nodes j)).1))
  vote-Inv i j args e =
      let m = (handle_request_vote i args (s.nodes j)).0 in
      let r = handle_request_vote-Answered i args (s.nodes j) in
      pending-Inv (moved-Inv inv j m (handle_request_vote-Keeps i args (s.nodes j))) i j _
        (busy i j (ap is_pending e)) (ap is_counted e) refl
        (Vouched.is_answered
          (λ g. ap ((moved s j m).ballot j) r.in_term ∙ noted s j m i (r.for_candidate g)))

  count-Inv :
      (i j : ℕ) (r : RequestVoteResult)
      → j < n
      → s.workers i j ≡ Worker.answered r
      → Inv n (after_count s i j r)
  count-Inv i j r l e =
      let c = count_vote (s.at_election i) r (s.nodes i) in
      let inv' = moved-Inv inv i c.0 (count_vote-Keeps (s.at_election i) r (s.nodes i)) in
      let apart = busy i j (ap is_pending e) in
      elim (Bool-cases c.1) [
        | inl b ↦
            let given = counts (s.at_election i) r (s.nodes i) b in
            rw b (
              counted-Inv inv' i j (Worker.joined true) apart l (ap is_counted e) refl (
                Vouched.is_vote (
                  moved-extends inv i c.0
                    (Keeps-Polls (count_vote-Keeps (s.at_election i) r (s.nodes i))) j _ i
                    (rw (sym given.1) (answer (rw e at (inv.vouched i j)) given.0)))))
        | inr b ↦ rw b (
            pending-Inv inv' i j (Worker.joined false) apart (ap is_counted e) refl
              Vouched.is_refused)
      ]
    where
      answer :
          {b : ℕ → Option ℕ} {t : ℕ}
          → Vouched b i t (Worker.answered r)
          → r.vote_granted ≢ 0
          → b r.term ≡ some i
      answer (Vouched.is_answered f) g = f g

  -- A won election has the votes of more than half of the nodes.
  won :
      (i : ℕ)
      → i < n
      → s.electing i ≡ true
      → wins (majority (others n i)) (s.at_election i) (s.votes i) (s.nodes i) ≡ true
      → n < 2 * votes_for n s.ballot (s.nodes i).current_term i
  won i l e w =
      let m = wins-majority (majority (others n i)) (s.at_election i) (s.votes i) (s.nodes i) w in
      let most =
        tally-lt n (λ j. is_counted (s.workers i j)) (λ j. is_for i (s.ballot j (s.at_election i)))
          i l (ap is_counted (inv.alone i)) (some-is_for i _ (inv.own i e))
          (λ j g c. some-is_for i _ (vote_of j c)) in
      rw m.0 (omega (arith, m.1, length-others n i l, inv.sum i l e, most))
    where
      voter :
          {b : ℕ → Option ℕ} {t : ℕ} {x : Worker}
          → Vouched b i t x
          → is_counted x ≡ true
          → b t ≡ some i
      voter Vouched.is_idle c = absurd (cc)
      voter Vouched.is_calling c = absurd (cc)
      voter (Vouched.is_answered f) c = absurd (cc)
      voter Vouched.is_refused c = absurd (cc)
      voter (Vouched.is_vote v) c = v

      vote_of : (j : ℕ) → is_counted (s.workers i j) ≡ true → s.ballot j (s.at_election i) ≡ some i
      vote_of j c = voter (inv.vouched i j) c

  finish-Inv : (i : ℕ) → i < n → s.electing i ≡ true → Inv n (after_finish n s i)
  finish-Inv i l e =
      let term = (s.nodes i).current_term in
      let peers = others n i in
      let m = finish_election i peers (s.at_election i) (s.votes i) (s.nodes i) in
      let polls = finish_election-Polls i peers (s.at_election i) (s.votes i) (s.nodes i) in
      let more = moved-extends inv i m polls in
      elim (Bool-cases (wins (majority peers) (s.at_election i) (s.votes i) (s.nodes i))) [
        | inl w ↦
            let grown = votes_for_mono n s.ballot (moved s i m).ballot term i more in
            let quorum : (t a : ℕ)
                → crown s.elected term i t a ≡ true
                → n < 2 * votes_for n (moved s i m).ballot t a =
              λ t a h. elim (crown-cases s.elected term i t a h) [
                | inl (p, q) ↦ rw (p, q) (omega (arith, won i l e w, grown))
                | inr h' ↦ moved-quorum inv i m polls t a h'
              ] in
            let leads : (a : ℕ)
                → ((moved s i m).nodes a).role ≡ Role.leader
                → crown s.elected term i ((moved s i m).nodes a).current_term a ≡ true =
              λ a h. elim (ℕ_discrete a i) [
                | yes q ↦
                    rw
                      (
                        q,
                        update_same s.nodes i m,
                        finish_election-term i peers (s.at_election i) (s.votes i) (s.nodes i),
                      )
                      (crown_self s.elected term i)
                | no q ↦ rw (update_other s.nodes i m a q) (
                    crown-keeps s.elected term i (s.nodes a).current_term a
                      (inv.leads a (rw (update_other s.nodes i m a q) at h)))
              ] in
            rw w (stopped-Inv (crowned-Inv inv i m (crown s.elected term i) polls quorum leads) i)
        | inr w ↦
            rw (w, finish_election-lost i peers (s.at_election i) (s.votes i) (s.nodes i) w)
              (stopped-Inv (moved-Inv inv i (s.nodes i) (Keeps-refl (s.nodes i))) i)
      ]

-- Every step of every node keeps the invariant.
Step-keeps : {n : ℕ} {s t : System} → Step n s t → Inv n s → Inv n t
Step-keeps (begin i l e h) inv = begin-Inv inv i h
Step-keeps (vote i j args l e) inv = vote-Inv inv i j args e
Step-keeps {s = s} (lose i j p) inv =
    pending-Inv inv i j (Worker.joined false) (busy inv i j p) (uncounted (s.workers i j) p) refl
      Vouched.is_refused
  where
    uncounted : (w : Worker) → is_pending w ≡ true → is_counted w ≡ false
    uncounted Worker.idle p = refl
    uncounted (Worker.calling args) p = refl
    uncounted (Worker.answered r) p = refl
    uncounted (Worker.joined b) p = absurd (cc)
Step-keeps {s = s} (stray i j args l) inv =
    moved-Inv inv j _ (handle_request_vote-Keeps i args (s.nodes j))
Step-keeps (count i j r k l e) inv = count-Inv inv i j r l e
Step-keeps (finish i l e d) inv = finish-Inv inv i l e
Step-keeps {s = s} (append j leader_id hdr entries m r e) inv =
    moved-Inv inv j m (handle_append_entries-Keeps leader_id hdr entries (s.nodes j) m r e)
Step-keeps {s = s} (append_reply i peer term_snapshot last r) inv =
    moved-Inv inv i _ (append_answer-Keeps peer term_snapshot last r (s.nodes i))
Step-keeps {n} {s = s} (commit i term_snapshot m e) inv =
    moved-Inv inv i m (advance_commit-Keeps (others n i) term_snapshot (s.nodes i) m e)
Step-keeps {s = s} (propose i index cmd m e) inv =
    moved-Inv inv i m (propose_begin-Keeps cmd (s.nodes i) m index e)

pub Reach-Inv : {n : ℕ} {s : System} → Reach n s → Inv n s
Reach-Inv {n} here = start-Inv n
Reach-Inv (next r st) = Step-keeps st (Reach-Inv r)
