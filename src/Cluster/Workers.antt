-- ===== src/Cluster/Workers.antt =====
-- How the workers of an election of AnimusCore_v1/animus_cluster.hpp keep what holds of it.
use animus_core_v.Base.{
  ℕ, zero, suc, ◌+◌, ◌<◌, ◌≡◌, ◌≢◌, refl, sym, ap, ◌∙◌, true, false, Bool, Option, some, Bool-cases,
  inl, inr, arith, ℕ_discrete, ◌==◌,
}
use animus_core_v.Base.Tables.{update, update_same, update_other, tally, tally-ext, tally-flip}
use animus_core_v.Cluster.{RequestVoteArgs}
use animus_core_v.Cluster.Election.{Worker, System, set_worker, launched, is_counted}
use animus_core_v.Cluster.Standing.{Inv, Vouched}

-- The worker table after one worker has moved on.
abbrev cell : (ℕ → ℕ → Worker) → ℕ → ℕ → Worker → ℕ → ℕ → Worker
cell f i j w = update f i (update (f i) j w)

cell_same : (f : ℕ → ℕ → Worker) (i j : ℕ) (w : Worker) → cell f i j w i j ≡ w
cell_same f i j w =
    ap (λ (g : ℕ → Worker). g j) (update_same f i (update (f i) j w)) ∙ update_same (f i) j w

cell_row : (f : ℕ → ℕ → Worker) (i j : ℕ) (w : Worker) (k : ℕ) → k ≢ j → cell f i j w i k ≡ f i k
cell_row f i j w k q =
    ap (λ (g : ℕ → Worker). g k) (update_same f i (update (f i) j w)) ∙ update_other (f i) j w k q

cell_other :
    (f : ℕ → ℕ → Worker) (i j : ℕ) (w : Worker) (a b : ℕ) → a ≢ i → cell f i j w a b ≡ f a b
cell_other f i j w a b q = ap (λ (g : ℕ → Worker). g b) (update_other f i (update (f i) j w) a q)

launched_self : (i : ℕ) (args : RequestVoteArgs) → launched i args i ≡ Worker.idle
unfolding launched
launched_self i args = ground arith

launched_uncounted :
    (i : ℕ) (args : RequestVoteArgs) (j : ℕ) → is_counted (launched i args j) ≡ false
unfolding launched
launched_uncounted i args j = elim (Bool-cases (j == i)) [ inl e ↦ rw e refl | inr e ↦ rw e refl ]

launched-Vouched :
    (b : ℕ → Option ℕ) (i term : ℕ) (args : RequestVoteArgs) (j : ℕ)
    → Vouched b i term (launched i args j)
unfolding launched
launched-Vouched b i term args j = elim (Bool-cases (j == i)) [
  | inl e ↦ rw e Vouched.is_idle
  | inr e ↦ rw e Vouched.is_calling
]

tally_none : (n : ℕ) (p : ℕ → Bool) → ((i : ℕ) → p i ≡ false) → tally n p ≡ 0
unfolding tally
tally_none zero p h = refl
tally_none (suc n) p h = rw (h n, tally_none n p h) refl

module _ {n : ℕ} {s : System} (inv : Inv n s) (i : ℕ) where
  -- An election starts.
  pub launched-Inv :
      (t : ℕ) (args : RequestVoteArgs)
      → s.ballot i t ≡ some i
      → Inv n (record s {
        electing = update s.electing i true;
        at_election = update s.at_election i t;
        votes = update s.votes i 1;
        workers = update s.workers i (launched i args);
      })
  launched-Inv t args e = record {
    recorded = inv.recorded;
    vouched = λ a b. elim (ℕ_discrete a i) [
      | yes q ↦
          rw (q, update_same s.workers i (launched i args), update_same s.at_election i t)
            (launched-Vouched (s.ballot b) i t args b)
      | no q ↦
          rw (update_other s.workers i (launched i args) a q, update_other s.at_election i t a q)
            (inv.vouched a b)
    ];
    own = λ a r. elim (ℕ_discrete a i) [
      | yes q ↦ rw (q, update_same s.at_election i t) e
      | no q ↦
          rw (update_other s.at_election i t a q)
            (inv.own a (sym (update_other s.electing i true a q) ∙ r))
    ];
    alone = λ a. elim (ℕ_discrete a i) [
      | yes q ↦ rw (q, update_same s.workers i (launched i args)) (launched_self i args)
      | no q ↦ rw (update_other s.workers i (launched i args) a q) (inv.alone a)
    ];
    sum = λ a l r. elim (ℕ_discrete a i) [
      | yes q ↦
          rw
            (
              q,
              update_same s.workers i (launched i args),
              update_same s.votes i 1,
              tally_none n _ (launched_uncounted i args),
            )
            refl
      | no q ↦
          rw (update_other s.workers i (launched i args) a q, update_other s.votes i 1 a q)
            (inv.sum a l (sym (update_other s.electing i true a q) ∙ r))
    ];
    quorum = inv.quorum;
    leads = inv.leads;
  }

  module _ (j : ℕ) (w : Worker) (apart : i ≢ j) where
    cell-Vouched :
        Vouched (s.ballot j) i (s.at_election i) w
        → (a b : ℕ) → Vouched (s.ballot b) a (s.at_election a) (cell s.workers i j w a b)
    cell-Vouched v a b = elim (ℕ_discrete a i) [
      | no q ↦ rw (cell_other s.workers i j w a b q) (inv.vouched a b)
      | yes q ↦ elim (ℕ_discrete b j) [
        | no r ↦ rw (q, cell_row s.workers i j w b r) (inv.vouched i b)
        | yes r ↦ rw (q, r, cell_same s.workers i j w) v
      ]
    ]

    cell_alone : (a : ℕ) → cell s.workers i j w a a ≡ Worker.idle
    cell_alone a = elim (ℕ_discrete a i) [
      | no q ↦ cell_other s.workers i j w a a q ∙ inv.alone a
      | yes q ↦
          ap (λ (x : ℕ). cell s.workers i j w x x) q
          ∙ cell_row s.workers i j w i apart
          ∙ inv.alone i
    ]

    -- A worker whose vote is not counted before or after.
    pub pending-Inv :
        is_counted (s.workers i j) ≡ false
        → is_counted w ≡ false
        → Vouched (s.ballot j) i (s.at_election i) w
        → Inv n (set_worker s i j w)
    pending-Inv before after v = record {
      recorded = inv.recorded;
      vouched = cell-Vouched v;
      own = inv.own;
      alone = cell_alone;
      sum =
          λ a l r. inv.sum a l r ∙ ap (λ (x : ℕ). x + 1) (tally-ext n _ _ (λ b g. sym (same a b)));
      quorum = inv.quorum;
      leads = inv.leads;
    }
      where
        same : (a b : ℕ) → is_counted (cell s.workers i j w a b) ≡ is_counted (s.workers a b)
        same a b = elim (ℕ_discrete a i) [
          | no q ↦ ap is_counted (cell_other s.workers i j w a b q)
          | yes q ↦ elim (ℕ_discrete b j) [
            | no r ↦ rw q (ap is_counted (cell_row s.workers i j w b r))
            | yes r ↦ rw (q, r) (ap is_counted (cell_same s.workers i j w) ∙ after ∙ sym before)
          ]
        ]

    -- A worker whose vote is counted.
    pub counted-Inv :
        j < n
        → is_counted (s.workers i j) ≡ false
        → is_counted w ≡ true
        → Vouched (s.ballot j) i (s.at_election i) w
        → Inv n (record (set_worker s i j w) { votes = update s.votes i (s.votes i + 1) })
    counted-Inv l before after v = record {
      recorded = inv.recorded;
      vouched = cell-Vouched v;
      own = inv.own;
      alone = cell_alone;
      sum = λ a g r. elim (ℕ_discrete a i) [
        | no q ↦
            update_other s.votes i (s.votes i + 1) a q
            ∙ inv.sum a g r
            ∙ ap (λ (x : ℕ). x + 1)
                (tally-ext n _ _ (λ b k. sym (ap is_counted (cell_other s.workers i j w a b q))))
        | yes q ↦
            let old = inv.sum i (rw q at g) (rw q at r) in
            let more =
              tally-flip n (λ b. is_counted (s.workers i b))
                (λ b. is_counted (cell s.workers i j w i b)) j l before
                (ap is_counted (cell_same s.workers i j w) ∙ after)
                (λ b k. ap is_counted (cell_row s.workers i j w b k)) in
            rw (q, update_same s.votes i (s.votes i + 1)) (omega (arith, old, more))
      ];
      quorum = inv.quorum;
      leads = inv.leads;
    }
