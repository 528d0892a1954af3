-- ===== src/Examples/Events.antt =====
-- Concrete rules and events of AnimusCore_v1/animus.hpp.
use animus_core_v.Base.{ℕ, ◌-◌, ◌^◌, ◌≤◌, ◌≡◌, refl, none, some, List, [], ◌∷◌, ◌++◌, arith, min}
use animus_core_v.LockFree.{Ring, Outcome, create}
use animus_core_v.LockFree.Refine.{Holds}
use animus_core_v.LockFree.Create.{create-Holds}
use animus_core_v.Pow2.Laws.{Rounded}
use animus_core_v.Cep.{
  Comparator, WindowType, Aggregation, Entry, RuleState, compare_value, on_event,
}
use animus_core_v.Cep.Window.{Has, Every}
use animus_core_v.Cep.Count.{recent}
use animus_core_v.Cep.Extremes.{
  Follows, FollowsMax, FollowsMin, next_entry, max_of_recent, min_of_recent,
}
use animus_core_v.Cep.Sums.{Sums, recent_sum, summed, sum_of_recent, wide_window_faults}
use animus_core_v.Engine.{
  TelemetryPayload, ThreatSignal, RawEvent, RuleThreshold, evaluate_rules, record_batch,
}
use animus_core_v.Engine.Queues.{
  filled, signals_of, stamped, evaluate_rules-signals, record_batch-prefix,
}

-- A rule over the last two events, fed one event with the value 5.
abbrev fed_one : List Entry
fed_one = record { sequence = 1; timestamp_ms = 10; value = 5 } ∷ []

abbrev fed_rule : WindowType → ℕ → Aggregation → RuleState
fed_rule kind size agg = record {
  rule_id = 1;
  event_id = 2;
  window_type = kind;
  window_size = size;
  agg = agg;
  comparator = Comparator.greater_than;
  threshold = 6;
  severity = 3;
  sequence_counter = 1;
  sum_window = fed_one;
  running_sum = 5;
  min_monotonic = fed_one;
  max_monotonic = fed_one;
}

abbrev two_events : Aggregation → RuleState
two_events = fed_rule WindowType.count 2

followed : (agg : Aggregation) → Follows (two_events agg) fed_one
followed agg = record { kind = refl; positive = omega arith; numbered = (refl, tt); counter = refl }

summed_one : (agg : Aggregation) → Sums (two_events agg) fed_one
summed_one agg = record {
  base = followed agg;
  words = (omega arith, tt);
  window = refl;
  running = refl;
}

max_of_recent_example :
    (m : ℕ) × (r' : RuleState) × (on_event 9 20 (two_events Aggregation.max)
      ≡ some (compare_value m 6 Comparator.greater_than, m, r'))
    × Has m (recent 2 (fed_one ++ (next_entry fed_one 9 20 ∷ [])))
    × Every (λ v. v ≤ m) (recent 2 (fed_one ++ (next_entry fed_one 9 20 ∷ [])))
    × FollowsMax r' (fed_one ++ (next_entry fed_one 9 20 ∷ []))
max_of_recent_example =
    max_of_recent (two_events Aggregation.max) fed_one 9 20
      (record { base = followed Aggregation.max; agg = refl; deque = refl }) (omega arith)

min_of_recent_example :
    (m : ℕ) × (r' : RuleState) × (on_event 9 20 (two_events Aggregation.min)
      ≡ some (compare_value m 6 Comparator.greater_than, m, r'))
    × Has m (recent 2 (fed_one ++ (next_entry fed_one 9 20 ∷ [])))
    × Every (λ v. m ≤ v) (recent 2 (fed_one ++ (next_entry fed_one 9 20 ∷ [])))
    × FollowsMin r' (fed_one ++ (next_entry fed_one 9 20 ∷ []))
min_of_recent_example =
    min_of_recent (two_events Aggregation.min) fed_one 9 20
      (record { base = followed Aggregation.min; agg = refl; deque = refl }) (omega arith)

sum_of_recent_example :
    (on_event 9 20 (two_events Aggregation.sum)
      ≡ some (
        compare_value
            (recent_sum 2 (fed_one ++ (next_entry fed_one 9 20 ∷ [])))
            6
            Comparator.greater_than,
        recent_sum 2 (fed_one ++ (next_entry fed_one 9 20 ∷ [])),
        summed (two_events Aggregation.sum) fed_one (next_entry fed_one 9 20),
      ))
    × Sums
        (summed (two_events Aggregation.sum) fed_one (next_entry fed_one 9 20))
        (fed_one ++ (next_entry fed_one 9 20 ∷ []))
sum_of_recent_example =
    sum_of_recent (two_events Aggregation.sum) fed_one 9 20 (summed_one Aggregation.sum)
      (omega arith) (omega arith) refl

abbrev endless : RuleState
endless = record (fed_rule WindowType.time (2 ^ 64 - 1) Aggregation.max) { max_monotonic = [] }

wide_window_faults_example :
    (endless.agg ≡ Aggregation.max → endless.max_monotonic ≡ [] → on_event 5 1000 endless ≡ none)
    × (endless.agg ≡ Aggregation.min → endless.min_monotonic ≡ [] → on_event 5 1000 endless ≡ none)
wide_window_faults_example =
    wide_window_faults 5 1000 endless refl (omega arith) (omega arith) (omega arith)

abbrev blank_signal : ThreatSignal
blank_signal = record {
  timestamp_cycles = 0;
  event_id = 0;
  trace_id = 0;
  metric_value = 0;
  rule_id = 0;
  severity = 0;
}

abbrev blank_payload : TelemetryPayload
blank_payload = record { timestamp_cycles = 0; event_id = 0; trace_id = 0; metric_value = 0 }

abbrev signal_ring :
    (r : Ring ThreatSignal) × (k : ℕ) × (create blank_signal 64 2 ≡ some r)
    × Holds k 0 [] r
    × Rounded 2 k
signal_ring = create-Holds blank_signal 2 (omega arith) (omega arith)

abbrev event_ring :
    (r : Ring TelemetryPayload) × (k : ℕ) × (create blank_payload 64 2 ≡ some r)
    × Holds k 0 [] r
    × Rounded 2 k
event_ring = create-Holds blank_payload 2 (omega arith) (omega arith)

abbrev payload : TelemetryPayload
payload = record { timestamp_cycles = 100; event_id = 2; trace_id = 3; metric_value = 50 }

abbrev spike : RuleThreshold
spike = record {
  rule_id = 1;
  event_id = 2;
  threshold = 40;
  comparator = Comparator.greater_than;
  severity = 3;
}

evaluate_rules-signals_example :
    (r' : Ring ThreatSignal) × (evaluate_rules 1 payload (spike ∷ []) signal_ring.0
      ≡ Outcome.done r')
    × Holds signal_ring.1 0 (filled (2 ^ signal_ring.1) [] (signals_of payload (spike ∷ []))) r'
evaluate_rules-signals_example = evaluate_rules-signals 0 payload (spike ∷ []) signal_ring.3

abbrev events : List RawEvent
events =
    record { event_id = 1; trace_id = 1; metric_value = 1 }
    ∷ record { event_id = 2; trace_id = 2; metric_value = 2 }
    ∷ record { event_id = 3; trace_id = 3; metric_value = 3 }
    ∷ []

record_batch-prefix_example :
    (r' : Ring TelemetryPayload) × (record_batch 1 (λ i. i) (some events) event_ring.0
      ≡ Outcome.done (min 3 (2 ^ event_ring.1 - 0), r'))
    × Holds event_ring.1 0 (filled (2 ^ event_ring.1) [] (stamped (λ i. i) 0 events)) r'
record_batch-prefix_example = record_batch-prefix event_ring.3 0 (λ i. i) events

abbrev recorded :
    (r' : Ring TelemetryPayload) × (record_batch 1 (λ i. i) (some events) event_ring.0
      ≡ Outcome.done (min 3 (2 ^ event_ring.1 - 0), r'))
    × Holds event_ring.1 0 (filled (2 ^ event_ring.1) [] (stamped (λ i. i) 0 events)) r'
recorded = record_batch-prefix event_ring.3 0 (λ i. i) events
