-- ===== src/Cep/Extremes.antt =====
-- MIN and MAX over a count window, against the last events themselves.
use animus_core_v.Base.{
  ℕ, ◌+◌, ◌-◌, ◌≤◌, ◌<◌, ◌^◌, ◌≡◌, refl, sym, ap₂, ◌∙◌, Bool, true, false, some, List, [], ◌∷◌,
  ◌++◌, arith, length, leb, leb→le, length-snoc, length-drop,
}
use animus_core_v.Base.Words.{add64}
use animus_core_v.Cep.{
  Entry, RuleState, WindowType, Aggregation, compare_value, fed_deque, front_value, on_event, feed,
  extreme_result,
}
use animus_core_v.Cep.Window.{Has, Every, candidates, candidates_front}
use animus_core_v.Cep.Count.{Numbered, Numbered-snoc, recent, fed_deque-count}

-- The history that a count rule has been fed.
pub record Follows (r : RuleState) (hist : List Entry) : Type 0 where
  pub kind : r.window_type ≡ WindowType.count
  pub positive : 1 ≤ r.window_size
  pub numbered : Numbered 1 hist
  pub counter : r.sequence_counter ≡ length hist

abbrev pub geb : ℕ → ℕ → Bool
geb a b = leb b a

pub record FollowsMax (r : RuleState) (hist : List Entry) : Type 0 where
  pub base : Follows r hist
  pub open base use *
  pub agg : r.agg ≡ Aggregation.max
  pub deque : r.max_monotonic ≡ candidates leb (recent r.window_size hist)

pub record FollowsMin (r : RuleState) (hist : List Entry) : Type 0 where
  pub base : Follows r hist
  pub open base use *
  pub agg : r.agg ≡ Aggregation.min
  pub deque : r.min_monotonic ≡ candidates geb (recent r.window_size hist)

-- The event that a call of `on_event` records.
abbrev pub next_entry : List Entry → ℕ → ℕ → Entry
next_entry hist value now = record { sequence = length hist + 1; timestamp_ms = now; value = value }

leb_trans : (a b c : ℕ) → leb a b ≡ true → leb b c ≡ true → leb a c ≡ true
leb_trans a b c p q = ground arith

leb-total : (a b : ℕ) → leb a b ≡ false → leb b a ≡ true
leb-total a b p = ground arith

geb_trans : (a b c : ℕ) → geb a b ≡ true → geb b c ≡ true → geb a c ≡ true
geb_trans a b c p q = ground arith

geb-total : (a b : ℕ) → geb a b ≡ false → geb b a ≡ true
geb-total a b p = ground arith

Every-leb : (m : ℕ) (l : List Entry) → Every (λ v. leb v m ≡ true) l → Every (λ v. v ≤ m) l
Every-leb m [] h = tt
Every-leb m (x ∷ xs) h = (leb→le x.value m h.0, Every-leb m xs h.1)

Every-geb : (m : ℕ) (l : List Entry) → Every (λ v. geb v m ≡ true) l → Every (λ v. m ≤ v) l
Every-geb m [] h = tt
Every-geb m (x ∷ xs) h = (leb→le m x.value h.0, Every-geb m xs h.1)

-- The window after an event is not empty, so the deque has a front, an extreme of the window.
module _ (worse : ℕ → ℕ → Bool)
    (trans : (a b c : ℕ) → worse a b ≡ true → worse b c ≡ true → worse a c ≡ true)
    (total : (a b : ℕ) → worse a b ≡ false → worse b a ≡ true) where
  front_of :
      (l : List Entry)
      → 0 < length l
      → (m : ℕ) × (front_value (candidates worse l) ≡ some m)
        × Has m l
        × Every (λ v. worse v m ≡ true) l
  front_of [] h = elim h [ ]
  front_of (x ∷ xs) h = candidates_front worse trans total x xs

pub recent_nonempty :
    (size : ℕ) (hist : List Entry) (e : Entry)
    → 1 ≤ size
    → 0 < length (recent size (hist ++ (e ∷ [])))
recent_nonempty size hist e h =
    omega
      (arith, length-snoc hist e, length-drop (length (hist ++ (e ∷ [])) - size) (hist ++ (e ∷ [])))

on_event-feed :
    (value now : ℕ) (r : RuleState)
    → on_event value now r
      ≡ feed r.agg
          (record { sequence = add64 r.sequence_counter 1; timestamp_ms = now; value = value })
          r
unfolding on_event
on_event-feed value now r = refl

feed-max :
    (e : Entry) (r : RuleState) (deque : List Entry) (m : ℕ)
    → fed_deque (λ y. leb y.value e.value) e r r.max_monotonic ≡ deque
    → front_value deque ≡ some m
    → feed Aggregation.max e r
      ≡ some (
        compare_value m r.threshold r.comparator,
        m,
        record r { sequence_counter = e.sequence; max_monotonic = deque },
      )
unfolding feed extreme_result
feed-max e r deque m step front = rw (step, front) refl

feed-min :
    (e : Entry) (r : RuleState) (deque : List Entry) (m : ℕ)
    → fed_deque (λ y. leb e.value y.value) e r r.min_monotonic ≡ deque
    → front_value deque ≡ some m
    → feed Aggregation.min e r
      ≡ some (
        compare_value m r.threshold r.comparator,
        m,
        record r { sequence_counter = e.sequence; min_monotonic = deque },
      )
unfolding feed extreme_result
feed-min e r deque m step front = rw (step, front) refl

-- While the event counter and the window size add up without a wrap, a MAX rule over a count window
-- of `window_size` events returns the greatest value among the last `window_size` events, the new
-- one included, with the verdict of its comparator on it, and goes on to follow the history.
pub max_of_recent :
    (r : RuleState) (hist : List Entry) (value now : ℕ)
    → FollowsMax r hist
    → length hist + 1 + r.window_size < 2 ^ 64
    → (m : ℕ) × (r' : RuleState) × (on_event value now r
        ≡ some (compare_value m r.threshold r.comparator, m, r'))
      × Has m (recent r.window_size (hist ++ (next_entry hist value now ∷ [])))
      × Every (λ v. v ≤ m) (recent r.window_size (hist ++ (next_entry hist value now ∷ [])))
      × FollowsMax r' (hist ++ (next_entry hist value now ∷ []))
max_of_recent r hist value now f fits =
    let step =
      fed_deque-count leb leb_trans leb-total r hist e r.max_monotonic f.kind f.numbered refl fits
        f.deque in
    let (m, front, has, every) =
      front_of leb leb_trans leb-total (recent r.window_size (hist ++ (e ∷ [])))
        (recent_nonempty r.window_size hist e f.positive) in
    (
      m,
      record r {
        sequence_counter = e.sequence;
        max_monotonic = candidates leb (recent r.window_size (hist ++ (e ∷ [])));
      },
      run m step front,
      has,
      Every-leb m _ every,
      record {
        base = record {
          kind = f.kind;
          positive = f.positive;
          numbered = Numbered-snoc 1 hist e f.numbered (omega arith);
          counter = sym (length-snoc hist e);
        };
        agg = f.agg;
        deque = refl;
      },
    )
  where
    e : Entry
    e = next_entry hist value now

    run :
        (m : ℕ)
        → fed_deque (λ y. leb y.value e.value) e r r.max_monotonic
          ≡ candidates leb (recent r.window_size (hist ++ (e ∷ [])))
        → front_value (candidates leb (recent r.window_size (hist ++ (e ∷ [])))) ≡ some m
        → on_event value now r
          ≡ some (
            compare_value m r.threshold r.comparator,
            m,
            record r {
              sequence_counter = e.sequence;
              max_monotonic = candidates leb (recent r.window_size (hist ++ (e ∷ [])));
            },
          )
    run m step front =
        let counted : add64 r.sequence_counter 1 ≡ length hist + 1 = omega (arith, f.counter) in
        on_event-feed value now r
        ∙ ap₂
            (λ (a : Aggregation) (n : ℕ).
              feed a (record { sequence = n; timestamp_ms = now; value = value }) r)
            f.agg counted
        ∙ feed-max e r (candidates leb (recent r.window_size (hist ++ (e ∷ [])))) m step front

-- While the event counter and the window size add up without a wrap, a MIN rule over a count window
-- of `window_size` events returns the least value among the last `window_size` events, the new
-- one included, with the verdict of its comparator on it, and goes on to follow the history.
pub min_of_recent :
    (r : RuleState) (hist : List Entry) (value now : ℕ)
    → FollowsMin r hist
    → length hist + 1 + r.window_size < 2 ^ 64
    → (m : ℕ) × (r' : RuleState) × (on_event value now r
        ≡ some (compare_value m r.threshold r.comparator, m, r'))
      × Has m (recent r.window_size (hist ++ (next_entry hist value now ∷ [])))
      × Every (λ v. m ≤ v) (recent r.window_size (hist ++ (next_entry hist value now ∷ [])))
      × FollowsMin r' (hist ++ (next_entry hist value now ∷ []))
min_of_recent r hist value now f fits =
    let step =
      fed_deque-count geb geb_trans geb-total r hist e r.min_monotonic f.kind f.numbered refl fits
        f.deque in
    let (m, front, has, every) =
      front_of geb geb_trans geb-total (recent r.window_size (hist ++ (e ∷ [])))
        (recent_nonempty r.window_size hist e f.positive) in
    (
      m,
      record r {
        sequence_counter = e.sequence;
        min_monotonic = candidates geb (recent r.window_size (hist ++ (e ∷ [])));
      },
      run m step front,
      has,
      Every-geb m _ every,
      record {
        base = record {
          kind = f.kind;
          positive = f.positive;
          numbered = Numbered-snoc 1 hist e f.numbered (omega arith);
          counter = sym (length-snoc hist e);
        };
        agg = f.agg;
        deque = refl;
      },
    )
  where
    e : Entry
    e = next_entry hist value now

    run :
        (m : ℕ)
        → fed_deque (λ y. leb e.value y.value) e r r.min_monotonic
          ≡ candidates geb (recent r.window_size (hist ++ (e ∷ [])))
        → front_value (candidates geb (recent r.window_size (hist ++ (e ∷ [])))) ≡ some m
        → on_event value now r
          ≡ some (
            compare_value m r.threshold r.comparator,
            m,
            record r {
              sequence_counter = e.sequence;
              min_monotonic = candidates geb (recent r.window_size (hist ++ (e ∷ [])));
            },
          )
    run m step front =
        let counted : add64 r.sequence_counter 1 ≡ length hist + 1 = omega (arith, f.counter) in
        on_event-feed value now r
        ∙ ap₂
            (λ (a : Aggregation) (n : ℕ).
              feed a (record { sequence = n; timestamp_ms = now; value = value }) r)
            f.agg counted
        ∙ feed-min e r (candidates geb (recent r.window_size (hist ++ (e ∷ [])))) m step front
