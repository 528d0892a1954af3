-- ===== src/Engine.antt =====
-- `EngineImpl` of AnimusCore_v1/animus.hpp: ingestion, the rules, and the signals. A call runs to its
-- end with no other thread in between. The cycle counter is a parameter: its reading for the `i`-th
-- event of a call.
pub mod Queues
pub mod Rules
use animus_core_v.Base.{
  ℕ, zero, suc, ◌+◌, ◌<◌, Bool, true, false, Option, none, some, List, [], ◌∷◌, ◌++◌, ltb, ◌==◌,
  if◌then◌else◌,
}
use animus_core_v.LockFree.{Ring, Outcome, push, pop}
use animus_core_v.Cep.{
  Comparator, WindowType, Aggregation, RuleState, compare_value, new_rule, on_event,
}

pub record TelemetryPayload : Type 0 where
  pub timestamp_cycles : ℕ
  pub event_id : ℕ
  pub trace_id : ℕ
  pub metric_value : ℕ

pub record ThreatSignal : Type 0 where
  pub timestamp_cycles : ℕ
  pub event_id : ℕ
  pub trace_id : ℕ
  pub metric_value : ℕ
  pub rule_id : ℕ
  pub severity : ℕ

pub record RawEvent : Type 0 where
  pub event_id : ℕ
  pub trace_id : ℕ
  pub metric_value : ℕ

pub record RuleThreshold : Type 0 where
  pub rule_id : ℕ
  pub event_id : ℕ
  pub threshold : ℕ
  pub comparator : Comparator
  pub severity : ℕ

infixl 5 ◌>>=◌
abbrev pub ◌>>=◌ {ℓ κ} : {A : Type ℓ} {B : Type κ} → Outcome A → (A → Outcome B) → Outcome B
Outcome.spinning >>= f = Outcome.spinning
Outcome.fault >>= f = Outcome.fault
Outcome.done a >>= f = f a

-- What `evaluate_rules` builds for a match.
abbrev pub signal : TelemetryPayload → RuleThreshold → ThreatSignal
signal p rule = record {
  timestamp_cycles = p.timestamp_cycles;
  event_id = p.event_id;
  trace_id = p.trace_id;
  metric_value = p.metric_value;
  rule_id = rule.rule_id;
  severity = rule.severity;
}

abbrev pub matches : TelemetryPayload → RuleThreshold → Bool
matches p rule =
    if rule.event_id == p.event_id
    then compare_value p.metric_value rule.threshold rule.comparator
    else false

-- The result of `push` is not looked at.
pub evaluate_rules :
    ℕ → TelemetryPayload → List RuleThreshold → Ring ThreatSignal → Outcome (Ring ThreatSignal)
evaluate_rules fuel p [] signals = Outcome.done signals
evaluate_rules fuel p (rule ∷ rules) signals =
    if matches p rule
    then (do (ok, after) ← push fuel signals (signal p rule); evaluate_rules fuel p rules after)
    else evaluate_rules fuel p rules signals

-- `record`, with the reading of the cycle counter.
abbrev pub stamp : ℕ → RawEvent → TelemetryPayload
stamp cycles e = record {
  timestamp_cycles = cycles;
  event_id = e.event_id;
  trace_id = e.trace_id;
  metric_value = e.metric_value;
}

abbrev pub record_event :
    ℕ → ℕ → RawEvent → Ring TelemetryPayload → Outcome (Bool × Ring TelemetryPayload)
record_event fuel cycles e ring = push fuel ring (stamp cycles e)

abbrev pub count_pushed :
    Bool
    → Ring TelemetryPayload
    → Outcome (ℕ × Ring TelemetryPayload)
    → Outcome (ℕ × Ring TelemetryPayload)
count_pushed true after more = more >>= λ (pushed, last). Outcome.done (suc pushed, last)
count_pushed false after more = Outcome.done (0, after)

-- The loop of `record_batch` from index `i`: it stops at the first push that fails.
pub record_batch_from :
    ℕ → (ℕ → ℕ) → ℕ → List RawEvent → Ring TelemetryPayload → Outcome (ℕ × Ring TelemetryPayload)
record_batch_from fuel cycles i [] ring = Outcome.done (0, ring)
record_batch_from fuel cycles i (e ∷ events) ring = do
  (ok, after) ← push fuel ring (stamp (cycles i) e)
  count_pushed ok after (record_batch_from fuel cycles (i + 1) events after)

-- A null array (`none`) is refused.
unfoldable pub record_batch :
    ℕ
    → (ℕ → ℕ)
    → Option (List RawEvent)
    → Ring TelemetryPayload
    → Outcome (ℕ × Ring TelemetryPayload)
unfolding record_batch_from
record_batch fuel cycles none ring = Outcome.done (0, ring)
record_batch fuel cycles (some events) ring = record_batch_from fuel cycles 0 events ring

-- `while (count < max && pop(out[count])) ++count;`: the loop of `poll_signals`, and the one by which
-- the persistence worker takes its batch.
abbrev pub keep_popped {ℓ} :
    {A : Type ℓ} → Bool → Option A → Ring A → Outcome (List A × Ring A) → Outcome (List A × Ring A)
keep_popped true (some v) after more = more >>= λ (rest, last). Outcome.done (v ∷ rest, last)
keep_popped _ _ after more = Outcome.done ([], after)

pub pop_upto {ℓ} : {A : Type ℓ} → ℕ → ℕ → Ring A → Outcome (List A × Ring A)
pop_upto fuel zero ring = Outcome.done ([], ring)
pop_upto fuel (suc n) ring = do
  (ok, v, after) ← pop fuel ring
  keep_popped ok v after (pop_upto fuel n after)

-- The bytes of an enumeration that come over the C interface.
abbrev pub comparator_of : ℕ → Option Comparator
comparator_of zero = some Comparator.greater_than
comparator_of (suc zero) = some Comparator.less_than
comparator_of (suc (suc zero)) = some Comparator.equal
comparator_of _ = none

abbrev pub window_type_of : ℕ → Option WindowType
window_type_of zero = some WindowType.count
window_type_of (suc zero) = some WindowType.time
window_type_of _ = none

abbrev pub aggregation_of : ℕ → Option Aggregation
aggregation_of zero = some Aggregation.sum
aggregation_of (suc zero) = some Aggregation.avg
aggregation_of (suc (suc zero)) = some Aggregation.min
aggregation_of (suc (suc (suc zero))) = some Aggregation.max
aggregation_of _ = none

abbrev pub append_rule :
    ℕ → ℕ → ℕ → ℕ → Option Comparator → List RuleThreshold → Bool × List RuleThreshold
append_rule rule_id event_id threshold severity none rules = (false, rules)
append_rule rule_id event_id threshold severity (some c) rules = (
  true,
  rules
      ++ (record {
        rule_id = rule_id;
        event_id = event_id;
        threshold = threshold;
        comparator = c;
        severity = severity;
      }
          ∷ []),
)

-- Allocation is taken to succeed.
unfoldable pub add_rule : ℕ → ℕ → ℕ → ℕ → ℕ → List RuleThreshold → Bool × List RuleThreshold
add_rule rule_id event_id threshold comparator severity =
    append_rule rule_id event_id threshold severity (comparator_of comparator)

abbrev pub append_cep_rule :
    ℕ
    → ℕ
    → ℕ
    → ℕ
    → ℕ
    → Option WindowType
    → Option Aggregation
    → Option Comparator
    → List RuleState
    → Bool × List RuleState
append_cep_rule rule_id event_id size threshold severity (some w) (some a) (some c) rules =
    (true, rules ++ (new_rule rule_id event_id w size a c threshold severity ∷ []))
append_cep_rule rule_id event_id size threshold severity _ _ _ rules = (false, rules)

unfoldable pub add_cep_rule : ℕ → ℕ → ℕ → ℕ → ℕ → ℕ → ℕ → ℕ → List RuleState → Bool × List RuleState
add_cep_rule rule_id event_id window_type window_size aggregation comparator threshold severity =
    append_cep_rule rule_id event_id window_size threshold severity (window_type_of window_type)
      (aggregation_of aggregation) (comparator_of comparator)
