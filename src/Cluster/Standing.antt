-- ===== src/Cluster/Standing.antt =====
-- What holds between two steps of the elections of a cluster, and how a step of one node, and of
-- one worker, keeps it.
use animus_core_v.Base.{
  ℕ, ◌+◌, ◌*◌, ◌<◌, ◌≡◌, ◌≢◌, refl, sym, ap, ◌∙◌, true, false, Bool, Option, some, arith,
  ℕ_discrete,
}
use animus_core_v.Base.Tables.{update, update_same, update_other, tally}
use animus_core_v.Cluster.{Node, Role, RequestVoteArgs, RequestVoteResult}
use animus_core_v.Cluster.Terms.{Keeps, Polls, Keeps-Polls}
use animus_core_v.Cluster.Election.{Worker, System, note_vote, moved, is_counted, start}
use animus_core_v.Cluster.Ballots.{
  Recorded, note_vote-extends, note_vote-Recorded, votes_for, votes_for_mono,
}

-- What the answer and the count of a worker of node `i` say of the ballots of peer `j`.
pub data Vouched (b : ℕ → Option ℕ) (i term : ℕ) : Worker → Type 0 where
  is_idle : Vouched b i term Worker.idle
  is_calling : {args : RequestVoteArgs} → Vouched b i term (Worker.calling args)
  is_answered :
      {r : RequestVoteResult}
      → (r.vote_granted ≢ 0 → b r.term ≡ some i)
      → Vouched b i term (Worker.answered r)
  is_refused : Vouched b i term (Worker.joined false)
  is_vote : b term ≡ some i → Vouched b i term (Worker.joined true)

pub record Inv (n : ℕ) (s : System) : Type 0 where
  pub recorded : (j : ℕ) → Recorded (s.nodes j) (s.ballot j)
  pub vouched : (i j : ℕ) → Vouched (s.ballot j) i (s.at_election i) (s.workers i j)
  pub own : (i : ℕ) → s.electing i ≡ true → s.ballot i (s.at_election i) ≡ some i
  pub alone : (i : ℕ) → s.workers i i ≡ Worker.idle
  pub sum :
      (i : ℕ)
      → i < n
      → s.electing i ≡ true
      → s.votes i ≡ tally n (λ j. is_counted (s.workers i j)) + 1
  pub quorum : (t i : ℕ) → s.elected t i ≡ true → n < 2 * votes_for n s.ballot t i
  pub leads : (i : ℕ) → (s.nodes i).role ≡ Role.leader → s.elected (s.nodes i).current_term i ≡ true

pub start-Inv : (n : ℕ) → Inv n start
start-Inv n = record {
  recorded = λ j. record { future = λ t l. refl; voted = λ v. absurd (cc); unvoted = λ v. refl };
  vouched = λ i j. Vouched.is_idle;
  own = λ i e. absurd (cc);
  alone = λ i. refl;
  sum = λ i l e. absurd (cc);
  quorum = λ t i e. absurd (cc);
  leads = λ i e. absurd (cc);
}

Vouched-mono :
    {b c : ℕ → Option ℕ} {i term : ℕ} {w : Worker}
    → ((t x : ℕ) → b t ≡ some x → c t ≡ some x)
    → Vouched b i term w
    → Vouched c i term w
Vouched-mono h Vouched.is_idle = Vouched.is_idle
Vouched-mono h Vouched.is_calling = Vouched.is_calling
Vouched-mono h (Vouched.is_answered f) = Vouched.is_answered (λ g. h _ _ (f g))
Vouched-mono h Vouched.is_refused = Vouched.is_refused
Vouched-mono h (Vouched.is_vote e) = Vouched.is_vote (h _ _ e)

module _ {n : ℕ} {s : System} (inv : Inv n s) where
  -- The votes on record stay when a node moves on.
  pub moved-extends :
      (j : ℕ) (m : Node)
      → Polls (s.nodes j) m
      → (k t c : ℕ) → s.ballot k t ≡ some c
      → (moved s j m).ballot k t ≡ some c
  moved-extends j m keeps k t c e = elim (ℕ_discrete k j) [
    | yes q ↦
        let old : s.ballot j t ≡ some c = rw q at e in
        rw (q, update_same s.ballot j (note_vote m (s.ballot j)))
          (note_vote-extends (s.nodes j) m (s.ballot j) (inv.recorded j) keeps t c old)
    | no q ↦ ap (λ (f : ℕ → Option ℕ). f t) (update_other s.ballot j _ k q) ∙ e
  ]

  moved-recorded :
      (j : ℕ) (m : Node)
      → Polls (s.nodes j) m
      → (k : ℕ) → Recorded ((moved s j m).nodes k) ((moved s j m).ballot k)
  moved-recorded j m keeps k = elim (ℕ_discrete k j) [
    | yes q ↦
        rw (q, update_same s.nodes j m, update_same s.ballot j (note_vote m (s.ballot j)))
          (note_vote-Recorded (s.nodes j) m (s.ballot j) (inv.recorded j) keeps)
    | no q ↦
        rw (update_other s.nodes j m k q, update_other s.ballot j (note_vote m (s.ballot j)) k q)
          (inv.recorded k)
  ]

  -- A node moves on, and a leader may be entered into the history.
  pub crowned-Inv :
      (j : ℕ) (m : Node) (elected : ℕ → ℕ → Bool)
      → Polls (s.nodes j) m
      → ((t i : ℕ) → elected t i ≡ true → n < 2 * votes_for n (moved s j m).ballot t i)
      → ((i : ℕ)
          → ((moved s j m).nodes i).role ≡ Role.leader
          → elected ((moved s j m).nodes i).current_term i ≡ true)
      → Inv n (record (moved s j m) { elected = elected })
  crowned-Inv j m elected keeps quorum leads =
      let more = moved-extends j m keeps in
      record {
        recorded = moved-recorded j m keeps;
        vouched = λ i k. Vouched-mono (more k) (inv.vouched i k);
        own = λ i e. more i _ _ (inv.own i e);
        alone = inv.alone;
        sum = inv.sum;
        quorum = quorum;
        leads = leads;
      }

  pub moved-quorum :
      (j : ℕ) (m : Node)
      → Polls (s.nodes j) m
      → (t i : ℕ) → s.elected t i ≡ true
      → n < 2 * votes_for n (moved s j m).ballot t i
  moved-quorum j m keeps t i e =
      let grown = votes_for_mono n s.ballot (moved s j m).ballot t i (moved-extends j m keeps) in
      omega (arith, inv.quorum t i e)

  pub moved-Inv : (j : ℕ) (m : Node) → Keeps (s.nodes j) m → Inv n (moved s j m)
  moved-Inv j m keeps =
      crowned-Inv j m s.elected (Keeps-Polls keeps) (moved-quorum j m (Keeps-Polls keeps)) leads
    where
      leads :
          (i : ℕ)
          → ((moved s j m).nodes i).role ≡ Role.leader
          → s.elected ((moved s j m).nodes i).current_term i ≡ true
      leads i e = elim (ℕ_discrete i j) [
        | yes q ↦
            let r = keeps.lead (rw (q, update_same s.nodes j m) at e) in
            rw (q, update_same s.nodes j m, r.1) (inv.leads j r.0)
        | no q ↦
            rw (update_other s.nodes j m i q) (inv.leads i (rw (update_other s.nodes j m i q) at e))
      ]

  -- An election ends.
  pub stopped-Inv : (i : ℕ) → Inv n (record s { electing = update s.electing i false })
  stopped-Inv i = record {
    recorded = inv.recorded;
    vouched = inv.vouched;
    own = λ k e. inv.own k (running k e);
    alone = inv.alone;
    sum = λ k l e. inv.sum k l (running k e);
    quorum = inv.quorum;
    leads = inv.leads;
  }
    where
      running : (k : ℕ) → update s.electing i false k ≡ true → s.electing k ≡ true
      running k e = elim (ℕ_discrete k i) [
        | yes q ↦
            let off : update s.electing i false i ≡ false = update_same s.electing i false in
            absurd (cc)
        | no q ↦ sym (update_other s.electing i false k q) ∙ e
      ]
