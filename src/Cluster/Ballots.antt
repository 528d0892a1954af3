-- ===== src/Cluster/Ballots.antt =====
-- The history of a node's votes in an election of AnimusCore_v1/animus_cluster.hpp: a vote that is
-- on record stays.
use animus_core_v.Base.{
  ℕ, ◌≤◌, ◌<◌, ◌≡◌, sym, ap, ◌∙◌, true, false, Bool, Option, none, some, Option-cases, Bool-cases,
  inl, inr, arith, ℕ_discrete, dec_lt, ◌==◌,
}
use animus_core_v.Base.Tables.{update, update_same, update_other, tally, tally_mono}
use animus_core_v.Cluster.{Node}
use animus_core_v.Cluster.Terms.{Polls}
use animus_core_v.Cluster.Election.{note_vote}

-- The ballots of a node that is in state `m`.
pub record Recorded (m : Node) (b : ℕ → Option ℕ) : Type 0 where
  pub future : (t : ℕ) → m.current_term < t → b t ≡ none
  pub voted : m.has_voted_this_term ≡ true → b m.current_term ≡ some m.voted_for
  pub unvoted : m.has_voted_this_term ≡ false → b m.current_term ≡ none

-- The only vote on record in the term that the node is in afterwards is its own last one.
current_vote :
    (m m' : Node) (b : ℕ → Option ℕ)
    → Recorded m b
    → Polls m m'
    → (c : ℕ) → b m'.current_term ≡ some c
    → (m'.has_voted_this_term ≡ true) × (some m'.voted_for ≡ some c)
current_vote m m' b rec k c e = elim (dec_lt m.current_term m'.current_term) [
  | yes l ↦ absurd (none-some (sym (rec.future m'.current_term l) ∙ e))
  | no l ↦
      let same : m.current_term ≡ m'.current_term = omega (arith, k.later) in
      let now : b m.current_term ≡ some c = ap b same ∙ e in
      elim (Bool-cases m.has_voted_this_term) [
        | inr w ↦ absurd (none-some (sym (rec.unvoted w) ∙ now))
        | inl w ↦ let v = k.vote same w in (v.0, ap some v.1 ∙ sym (rec.voted w) ∙ now)
      ]
]
  where
    none-some : {c : ℕ} → none ≡ some c → ⊥
    none-some e = absurd (cc)

pub note_vote-extends :
    (m m' : Node) (b : ℕ → Option ℕ)
    → Recorded m b
    → Polls m m'
    → (t c : ℕ) → b t ≡ some c
    → note_vote m' b t ≡ some c
unfolding note_vote
note_vote-extends m m' b rec k t c e = elim (Bool-cases m'.has_voted_this_term) [
  | inr v ↦ rw v e
  | inl v ↦ rw v (elim (ℕ_discrete t m'.current_term) [
    | no d ↦ update_other b m'.current_term (some m'.voted_for) t d ∙ e
    | yes d ↦
        ap (update b m'.current_term (some m'.voted_for)) d
        ∙ update_same b m'.current_term (some m'.voted_for)
        ∙ (current_vote m m' b rec k c (ap b (sym d) ∙ e)).1
  ])
]

pub note_vote-Recorded :
    (m m' : Node) (b : ℕ → Option ℕ) → Recorded m b → Polls m m' → Recorded m' (note_vote m' b)
unfolding note_vote
note_vote-Recorded m m' b rec k = elim (Bool-cases m'.has_voted_this_term) [
  | inr v ↦ rw v record {
    future = λ t l. rec.future t (omega (arith, k.later));
    voted = λ w. absurd (cc);
    unvoted = λ w. no_vote v;
  }
  | inl v ↦ rw v record {
    future = λ t l.
        update_other b m'.current_term (some m'.voted_for) t (omega arith)
        ∙ rec.future t (omega (arith, k.later));
    voted = λ w. update_same b m'.current_term (some m'.voted_for);
    unvoted = λ w. absurd (cc);
  }
]
  where
    no_vote : m'.has_voted_this_term ≡ false → b m'.current_term ≡ none
    no_vote v = elim (Option-cases (b m'.current_term)) [
      | inl e ↦ e
      | inr (c, e) ↦ let w = (current_vote m m' b rec k c e).0 in absurd (cc)
    ]

-- A vote for node `i`.
abbrev pub is_for : ℕ → Option ℕ → Bool
is_for i none = false
is_for i (some c) = c == i

pub is_for-some : (i : ℕ) (o : Option ℕ) → is_for i o ≡ true → o ≡ some i
is_for-some i none e = absurd (cc)
is_for-some i (some c) e = ap some (ground arith)

pub some-is_for : (i : ℕ) (o : Option ℕ) → o ≡ some i → is_for i o ≡ true
some-is_for i o e = rw e (ground arith)

-- The votes of the first `n` nodes for `i` in term `t`.
abbrev pub votes_for : ℕ → (ℕ → ℕ → Option ℕ) → ℕ → ℕ → ℕ
votes_for n b t i = tally n (λ j. is_for i (b j t))

pub votes_for_mono :
    (n : ℕ) (b c : ℕ → ℕ → Option ℕ) (t i : ℕ)
    → ((j t x : ℕ) → b j t ≡ some x → c j t ≡ some x)
    → votes_for n b t i ≤ votes_for n c t i
votes_for_mono n b c t i h =
    tally_mono n _ _ (λ j l e. some-is_for i (c j t) (h j t i (is_for-some i (b j t) e)))
