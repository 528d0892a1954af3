-- ===== src/Cep.antt =====
-- `CepRuleState` of AnimusCore_v1/animus.hpp: one sliding-window rule. A deque is a list with its
-- front first. The window size is a word and the counters wrap.
pub mod Window
pub mod Count
pub mod Extremes
pub mod Sums
use animus_core_v.Base.{
  ℕ, ◌+◌, ◌/◌, Bool, true, false, Option, none, some, List, [], ◌∷◌, ◌++◌, ltb, leb, ◌==◌,
  if◌then◌else◌, length,
}
use animus_core_v.Base.Words.{add64, sub64, mul64}

pub data Comparator : Type 0 where
  greater_than less_than equal : Comparator

unfoldable pub compare_value : ℕ → ℕ → Comparator → Bool
compare_value lhs rhs Comparator.greater_than = ltb rhs lhs
compare_value lhs rhs Comparator.less_than = ltb lhs rhs
compare_value lhs rhs Comparator.equal = lhs == rhs

pub data WindowType : Type 0 where
  count time : WindowType

pub data Aggregation : Type 0 where
  sum avg min max : Aggregation

pub record Entry : Type 0 where
  pub sequence : ℕ
  pub timestamp_ms : ℕ
  pub value : ℕ

pub record RuleState : Type 0 where
  pub rule_id : ℕ
  pub event_id : ℕ
  pub window_type : WindowType
  pub window_size : ℕ
  pub agg : Aggregation
  pub comparator : Comparator
  pub threshold : ℕ
  pub severity : ℕ
  pub sequence_counter : ℕ
  pub sum_window : List Entry
  pub running_sum : ℕ
  pub min_monotonic : List Entry
  pub max_monotonic : List Entry

-- The constructor of a rule.
unfoldable pub new_rule : ℕ → ℕ → WindowType → ℕ → Aggregation → Comparator → ℕ → ℕ → RuleState
new_rule rule_id event_id window_type window_size agg comparator threshold severity = record {
  rule_id = rule_id;
  event_id = event_id;
  window_type = window_type;
  window_size = if window_size == 0 then 1 else window_size;
  agg = agg;
  comparator = comparator;
  threshold = threshold;
  severity = severity;
  sequence_counter = 0;
  sum_window = [];
  running_sum = 0;
  min_monotonic = [];
  max_monotonic = [];
}

-- The two loops of `evict_fifo`, over the window and its running sum.
unfoldable pub evict_counted : ℕ → List Entry → ℕ → List Entry × ℕ
evict_counted size [] total = ([], total)
evict_counted size (e ∷ rest) total =
    if ltb size (length (e ∷ rest))
    then evict_counted size rest (sub64 total e.value)
    else (e ∷ rest, total)

unfoldable pub evict_timed : ℕ → ℕ → List Entry → ℕ → List Entry × ℕ
evict_timed size now [] total = ([], total)
evict_timed size now (e ∷ rest) total =
    if leb (add64 e.timestamp_ms size) now
    then evict_timed size now rest (sub64 total e.value)
    else (e ∷ rest, total)

unfoldable pub evict_fifo : WindowType → ℕ → ℕ → List Entry → ℕ → List Entry × ℕ
evict_fifo WindowType.count size now window total = evict_counted size window total
evict_fifo WindowType.time size now window total = evict_timed size now window total

-- `while (!q.empty() && test(q.front())) q.pop_front();`
abbrev pub pop_front_while : (Entry → Bool) → List Entry → List Entry
pop_front_while test [] = []
pop_front_while test (e ∷ rest) = if test e then pop_front_while test rest else e ∷ rest

-- `while (!q.empty() && test(q.back())) q.pop_back();`
abbrev pub keep_front : Bool → Entry → List Entry → List Entry
keep_front drop e (f ∷ rest) = e ∷ f ∷ rest
keep_front true e [] = []
keep_front false e [] = e ∷ []

abbrev pub pop_back_while : (Entry → Bool) → List Entry → List Entry
pop_back_while test [] = []
pop_back_while test (e ∷ rest) = keep_front (test e) e (pop_back_while test rest)

-- The test of `evict_monotonic`.
unfoldable pub expired : WindowType → ℕ → ℕ → ℕ → Entry → Bool
expired WindowType.count size counter now e = leb (add64 e.sequence size) counter
expired WindowType.time size counter now e = leb (add64 e.timestamp_ms size) now

unfoldable pub evict_monotonic : WindowType → ℕ → ℕ → ℕ → List Entry → List Entry
evict_monotonic kind size counter now = pop_front_while (expired kind size counter now)

-- `front()` of an empty deque is undefined: `none`.
abbrev pub front_value : List Entry → Option ℕ
front_value [] = none
front_value (e ∷ rest) = some e.value

-- What a matching event does: whether the rule fires, the aggregate, and the rule afterwards.
abbrev pub Fed : Type 0
Fed = Option (Bool × ℕ × RuleState)

unfoldable pub feed_sum : Entry → RuleState → RuleState × ℕ
feed_sum entry r =
    let (window, total) =
      evict_fifo r.window_type r.window_size entry.timestamp_ms (r.sum_window ++ (entry ∷ []))
        (add64 r.running_sum entry.value) in
    (
      record r { sequence_counter = entry.sequence; sum_window = window; running_sum = total },
      length window,
    )

unfoldable pub fed_deque : (Entry → Bool) → Entry → RuleState → List Entry → List Entry
fed_deque worse entry r deque =
    evict_monotonic r.window_type r.window_size entry.sequence entry.timestamp_ms
      (pop_back_while worse deque ++ (entry ∷ []))

unfoldable pub extreme_result : RuleState → Option ℕ → Fed
extreme_result r none = none
extreme_result r (some a) = some (compare_value a r.threshold r.comparator, a, r)

unfoldable pub feed : Aggregation → Entry → RuleState → Fed
feed Aggregation.sum entry r =
    let (s, n) = feed_sum entry r in
    some (compare_value s.running_sum s.threshold s.comparator, s.running_sum, s)
feed Aggregation.avg entry r =
    let (s, n) = feed_sum entry r in
    some (
      compare_value s.running_sum (mul64 s.threshold n) s.comparator,
      if n == 0 then 0 else s.running_sum / n,
      s,
    )
feed Aggregation.max entry r =
    let deque = fed_deque (λ e. leb e.value entry.value) entry r r.max_monotonic in
    extreme_result (record r { sequence_counter = entry.sequence; max_monotonic = deque })
      (front_value deque)
feed Aggregation.min entry r =
    let deque = fed_deque (λ e. leb entry.value e.value) entry r r.min_monotonic in
    extreme_result (record r { sequence_counter = entry.sequence; min_monotonic = deque })
      (front_value deque)

unfoldable pub on_event : ℕ → ℕ → RuleState → Fed
on_event value now r =
    feed r.agg (record { sequence = add64 r.sequence_counter 1; timestamp_ms = now; value = value })
      r
