-- ===== src/Cep/Sums.antt =====
-- SUM and AVG over a count window, against the last events themselves, and the extreme rules whose
-- window is so wide that the expiry test wraps.
use animus_core_v.Base.{
  ℕ, zero, suc, ◌+◌, ◌-◌, ◌/◌, ◌≤◌, ◌<◌, ◌^◌, ◌≡◌, refl, sym, ap, ◌∙◌, true, false, none, some,
  List, [], ◌∷◌, ◌++◌, arith, length, drop, leb, ◌==◌, dec_lt, length-snoc, lt→ltb, le→ltb,
}
use animus_core_v.Base.Words.{u64, add64, sub64, mul64}
use animus_core_v.Cep.{
  Entry, RuleState, WindowType, Aggregation, compare_value, on_event, feed, feed_sum, evict_fifo,
  evict_counted, expired, evict_monotonic, fed_deque, extreme_result,
}
use animus_core_v.Cep.Window.{Every}
use animus_core_v.Cep.Count.{recent, recent_step}
use animus_core_v.Cep.Extremes.{Follows, next_entry, recent_nonempty}
use animus_core_v.Cep.Count.{Numbered-snoc}

abbrev pub total : List Entry → ℕ
total [] = 0
total (e ∷ rest) = e.value + total rest

abbrev pub IsWord : ℕ → Type 0
IsWord v = v < 2 ^ 64

Every-drop : (n : ℕ) (l : List Entry) → Every IsWord l → Every IsWord (drop n l)
Every-drop zero l h = h
Every-drop (suc n) [] h = tt
Every-drop (suc n) (x ∷ xs) h = Every-drop n xs h.1

Every-snoc :
    (l : List Entry) (e : Entry) → Every IsWord l → IsWord e.value → Every IsWord (l ++ (e ∷ []))
Every-snoc [] e h k = (k, tt)
Every-snoc (x ∷ xs) e h k = (h.0, Every-snoc xs e h.1 k)

total-snoc : (l : List Entry) (e : Entry) → total (l ++ (e ∷ [])) ≡ total l + e.value
total-snoc [] e = omega arith
total-snoc (x ∷ xs) e = omega (arith, total-snoc xs e)

sub64-head : (v t : ℕ) → IsWord v → sub64 (u64 (v + t)) v ≡ u64 t
sub64-head v t h = omega arith

evict_counted-recent :
    (size : ℕ) (l : List Entry)
    → Every IsWord l
    → evict_counted size l (u64 (total l)) ≡ (recent size l, u64 (total (recent size l)))
unfolding evict_counted
evict_counted-recent size [] h = ground arith
evict_counted-recent size (x ∷ xs) h = elim (dec_lt size (suc (length xs))) [
  | yes over ↦
      let cut : suc (length xs) - size ≡ suc (length xs - size) = omega arith in
      rw (lt→ltb size (suc (length xs)) over, cut, sub64-head x.value (total xs) h.0)
        (evict_counted-recent size xs h.1)
  | no fits ↦
      let none_over : suc (length xs) - size ≡ 0 = omega arith in
      rw (le→ltb size (suc (length xs)) (omega arith), none_over) refl
]

-- The history that a SUM or AVG rule over a count window has been fed.
pub record Sums (r : RuleState) (hist : List Entry) : Type 0 where
  pub base : Follows r hist
  pub open base use *
  pub words : Every IsWord hist
  pub window : r.sum_window ≡ recent r.window_size hist
  pub running : r.running_sum ≡ u64 (total (recent r.window_size hist))

-- The sum of the last values of a history, as a word.
abbrev pub recent_sum : ℕ → List Entry → ℕ
recent_sum size hist = u64 (total (recent size hist))

abbrev pub summed : RuleState → List Entry → Entry → RuleState
summed r hist e = record r {
  sequence_counter = e.sequence;
  sum_window = recent r.window_size (hist ++ (e ∷ []));
  running_sum = recent_sum r.window_size (hist ++ (e ∷ []));
}

module _ (r : RuleState) (hist : List Entry) (value now : ℕ) (s : Sums r hist) (word : IsWord value)
    (counted : length hist + 1 < 2 ^ 64) where
  abbrev e : Entry
  e = next_entry hist value now

  abbrev longer : List Entry
  longer = recent r.window_size hist ++ (e ∷ [])

  longer_words : Every IsWord longer
  longer_words =
      Every-snoc (recent r.window_size hist) e
        (Every-drop (length hist - r.window_size) hist s.words) word

  added : add64 r.running_sum value ≡ u64 (total longer)
  added = omega (arith, s.running, total-snoc (recent r.window_size hist) e)

  evicted :
      evict_fifo WindowType.count r.window_size now longer (u64 (total longer))
      ≡ (recent r.window_size (hist ++ (e ∷ [])), recent_sum r.window_size (hist ++ (e ∷ [])))
  unfolding evict_fifo
  evicted =
      evict_counted-recent r.window_size longer longer_words
      ∙ ap (λ (l : List Entry). (l, u64 (total l))) (recent_step r.window_size hist e)

  feed_sum-recent :
      feed_sum e r ≡ (summed r hist e, length (recent r.window_size (hist ++ (e ∷ []))))
  unfolding feed_sum
  feed_sum-recent = rw (s.kind, s.window, added, evicted) refl

  summed-Sums : Sums (summed r hist e) (hist ++ (e ∷ []))
  summed-Sums = record {
    base = record {
      kind = s.kind;
      positive = s.positive;
      numbered = Numbered-snoc 1 hist e s.numbered (omega arith);
      counter = sym (length-snoc hist e);
    };
    words = Every-snoc hist e s.words word;
    window = refl;
    running = refl;
  }

  on_event-entry : (agg : Aggregation) → r.agg ≡ agg → on_event value now r ≡ feed agg e r
  unfolding on_event
  on_event-entry agg a =
      let number : add64 r.sequence_counter 1 ≡ length hist + 1 = omega (arith, s.counter) in
      rw (a, number) refl

  -- Fewer than 2 ^ 64 events in all, every value a word: a SUM rule over a count window returns the
  -- sum of the last `window_size` values, the new one included, reduced to a word, with the verdict
  -- of its comparator on it, and the rule afterwards satisfies the same invariant on the longer
  -- history.
  pub sum_of_recent :
      r.agg ≡ Aggregation.sum
      → (on_event value now r
          ≡ some (
            compare_value (recent_sum r.window_size (hist ++ (e ∷ []))) r.threshold r.comparator,
            recent_sum r.window_size (hist ++ (e ∷ [])),
            summed r hist e,
          ))
        × Sums (summed r hist e) (hist ++ (e ∷ []))
  unfolding feed
  sum_of_recent a = (on_event-entry Aggregation.sum a ∙ rw feed_sum-recent refl, summed-Sums)

  -- Under the same conditions an AVG rule returns that sum divided by the number `n` of events in
  -- the window, rounded down, with the verdict of its comparator on the sum and on the word
  -- `threshold * n`.
  pub avg_of_recent :
      r.agg ≡ Aggregation.avg
      → (n : ℕ) × (n ≡ length (recent r.window_size (hist ++ (e ∷ []))))
        × (0 < n)
        × (on_event value now r
            ≡ some (
              compare_value
                  (recent_sum r.window_size (hist ++ (e ∷ [])))
                  (mul64 r.threshold n)
                  r.comparator,
              recent_sum r.window_size (hist ++ (e ∷ [])) / n,
              summed r hist e,
            ))
        × Sums (summed r hist e) (hist ++ (e ∷ []))
  unfolding feed
  avg_of_recent a =
      let some_left = recent_nonempty r.window_size hist e s.positive in
      let n_ne : (length (recent r.window_size (hist ++ (e ∷ []))) == 0) ≡ false = ground arith in
      (
        length (recent r.window_size (hist ++ (e ∷ []))),
        refl,
        some_left,
        on_event-entry Aggregation.avg a ∙ rw (feed_sum-recent, n_ne) refl,
        summed-Sums,
      )

-- A time rule for MAX or MIN with an empty deque whose window reaches past the last millisecond
-- that a word counts, `2 ^ 64 ≤ now + window_size`: the expiry test wraps, the new entry is removed
-- at once, and `on_event` reads the front of an empty deque, which is undefined.
pub wide_window_faults :
    (value now : ℕ) (r : RuleState)
    → r.window_type ≡ WindowType.time
    → now < 2 ^ 64
    → r.window_size < 2 ^ 64
    → 2 ^ 64 ≤ now + r.window_size
    → (r.agg ≡ Aggregation.max → r.max_monotonic ≡ [] → on_event value now r ≡ none)
      × (r.agg ≡ Aggregation.min → r.min_monotonic ≡ [] → on_event value now r ≡ none)
unfolding on_event feed fed_deque evict_monotonic expired extreme_result
wide_window_faults value now r kind late small wide =
    let gone : leb (add64 now r.window_size) now ≡ true = ground arith in
    (λ a d. rw (a, d, kind, gone) refl, λ a d. rw (a, d, kind, gone) refl)
