-- ===== src/Engine/Rules.antt =====
-- Registering rules: `add_rule` and `add_cep_rule` of AnimusCore_v1/animus.hpp, whose arguments come
-- over the C interface unchecked.
use animus_core_v.Base.{
  ℕ, zero, suc, ◌≤◌, ◌<◌, ◌≡◌, refl, ap, true, false, Option, none, some, List, [], ◌∷◌, ◌++◌,
  arith, ◌==◌, if◌then◌else◌, Bool-cases, inl, inr,
}
use animus_core_v.Cep.{Comparator, WindowType, Aggregation, RuleState, new_rule}
use animus_core_v.Engine.{
  TelemetryPayload, ThreatSignal, RuleThreshold, signal, matches, comparator_of, window_type_of,
  aggregation_of, add_rule, append_cep_rule, add_cep_rule,
}
use animus_core_v.Engine.Queues.{signals_of}

signals_of-append :
    (p : TelemetryPayload) (xs ys : List RuleThreshold)
    → signals_of p (xs ++ ys) ≡ signals_of p xs ++ signals_of p ys
signals_of-append p [] ys = refl
signals_of-append p (x ∷ xs) ys = elim (Bool-cases (matches p x)) [
  | inl e ↦ rw e (ap (λ (t : List ThreatSignal). signal p x ∷ t) (signals_of-append p xs ys))
  | inr e ↦ rw e (signals_of-append p xs ys)
]

-- A comparator byte above 2 is refused and changes no rule. Any other is accepted, and from then on
-- every event has the signals that it had before, followed by that of the new rule where it matches.
pub add_rule-signals :
    (rule_id event_id threshold comparator severity : ℕ) (rules : List RuleThreshold)
    (p : TelemetryPayload)
    → (2 < comparator
        → add_rule rule_id event_id threshold comparator severity rules ≡ (false, rules))
      × (comparator ≤ 2
          → (rule : RuleThreshold) × ((add_rule rule_id event_id threshold comparator severity
                rules).0
              ≡ true)
            × (rule.event_id ≡ event_id)
            × (signals_of p (add_rule rule_id event_id threshold comparator severity rules).1
                ≡ signals_of p rules ++ (if matches p rule then signal p rule ∷ [] else [])))
unfolding add_rule
add_rule-signals rule_id event_id threshold zero severity rules p =
    (λ h. absurd (omega arith), λ h. (_, refl, refl, signals_of-append p rules (_ ∷ [])))
add_rule-signals rule_id event_id threshold (suc zero) severity rules p =
    (λ h. absurd (omega arith), λ h. (_, refl, refl, signals_of-append p rules (_ ∷ [])))
add_rule-signals rule_id event_id threshold (suc (suc zero)) severity rules p =
    (λ h. absurd (omega arith), λ h. (_, refl, refl, signals_of-append p rules (_ ∷ [])))
add_rule-signals rule_id event_id threshold (suc (suc (suc n))) severity rules p =
    (λ h. refl, λ h. absurd (omega arith))

window_type_of-some : (n : ℕ) → n ≤ 1 → (w : WindowType) × (window_type_of n ≡ some w)
window_type_of-some zero h = (_, refl)
window_type_of-some (suc zero) h = (_, refl)
window_type_of-some (suc (suc n)) h = absurd (omega arith)

aggregation_of-some : (n : ℕ) → n ≤ 3 → (a : Aggregation) × (aggregation_of n ≡ some a)
aggregation_of-some zero h = (_, refl)
aggregation_of-some (suc zero) h = (_, refl)
aggregation_of-some (suc (suc zero)) h = (_, refl)
aggregation_of-some (suc (suc (suc zero))) h = (_, refl)
aggregation_of-some (suc (suc (suc (suc n)))) h = absurd (omega arith)

comparator_of-some : (n : ℕ) → n ≤ 2 → (c : Comparator) × (comparator_of n ≡ some c)
comparator_of-some zero h = (_, refl)
comparator_of-some (suc zero) h = (_, refl)
comparator_of-some (suc (suc zero)) h = (_, refl)
comparator_of-some (suc (suc (suc n))) h = absurd (omega arith)

positive_window : (size : ℕ) → 1 ≤ (if size == 0 then 1 else size)
positive_window size = ground arith

-- Bytes in the range of their enumerations register a rule, last in the list, that has seen nothing
-- and whose window is the one asked for, or 1 where 0 was asked for.
pub add_cep_rule-registers :
    (rule_id event_id window_type window_size aggregation comparator threshold severity : ℕ)
    (rules : List RuleState)
    → window_type ≤ 1
    → aggregation ≤ 3
    → comparator ≤ 2
    → (rule : RuleState) × (add_cep_rule rule_id event_id window_type window_size aggregation
          comparator threshold severity rules
        ≡ (true, rules ++ (rule ∷ [])))
      × (1 ≤ rule.window_size)
      × (1 ≤ window_size → rule.window_size ≡ window_size)
      × (rule.sequence_counter ≡ 0)
      × (rule.sum_window ≡ [])
      × (rule.min_monotonic ≡ [])
      × (rule.max_monotonic ≡ [])
unfolding add_cep_rule new_rule
add_cep_rule-registers rule_id event_id window_type window_size aggregation comparator threshold
      severity rules hw ha hc =
    let (w, ew) = window_type_of-some window_type hw in
    let (a, ea) = aggregation_of-some aggregation ha in
    let (c, ec) = comparator_of-some comparator hc in
    (
      new_rule rule_id event_id w window_size a c threshold severity,
      rw (ew, ea, ec) refl,
      positive_window window_size,
      λ h. ground arith,
      refl,
      refl,
      refl,
      refl,
    )

-- A window type above 1, an aggregation above 3 or a comparator above 2 is refused, and the rules
-- stay as they are.
pub add_cep_rule-refuses :
    (rule_id event_id window_type window_size aggregation comparator threshold severity : ℕ)
    (rules : List RuleState)
    → ((1 < window_type)
        → add_cep_rule rule_id event_id window_type window_size aggregation comparator threshold
            severity rules
          ≡ (false, rules))
      × ((3 < aggregation)
          → add_cep_rule rule_id event_id window_type window_size aggregation comparator threshold
              severity rules
            ≡ (false, rules))
      × ((2 < comparator)
          → add_cep_rule rule_id event_id window_type window_size aggregation comparator threshold
              severity rules
            ≡ (false, rules))
unfolding add_cep_rule
add_cep_rule-refuses rule_id event_id window_type window_size aggregation comparator threshold
      severity rules =
    (
      λ h.
          rw (no_window window_type h)
            (refused_window (aggregation_of aggregation) (comparator_of comparator)),
      λ h.
          rw (no_aggregation aggregation h)
            (refused_aggregation (window_type_of window_type) (comparator_of comparator)),
      λ h.
          rw (no_comparator comparator h)
            (refused_comparator (window_type_of window_type) (aggregation_of aggregation)),
    )
  where
    no_window : (n : ℕ) → 1 < n → window_type_of n ≡ none
    no_window zero h = absurd (omega arith)
    no_window (suc zero) h = absurd (omega arith)
    no_window (suc (suc n)) h = refl

    no_aggregation : (n : ℕ) → 3 < n → aggregation_of n ≡ none
    no_aggregation zero h = absurd (omega arith)
    no_aggregation (suc zero) h = absurd (omega arith)
    no_aggregation (suc (suc zero)) h = absurd (omega arith)
    no_aggregation (suc (suc (suc zero))) h = absurd (omega arith)
    no_aggregation (suc (suc (suc (suc n)))) h = refl

    no_comparator : (n : ℕ) → 2 < n → comparator_of n ≡ none
    no_comparator zero h = absurd (omega arith)
    no_comparator (suc zero) h = absurd (omega arith)
    no_comparator (suc (suc zero)) h = absurd (omega arith)
    no_comparator (suc (suc (suc n))) h = refl

    refused_window :
        (a : Option Aggregation) (c : Option Comparator)
        → append_cep_rule rule_id event_id window_size threshold severity none a c rules
          ≡ (false, rules)
    refused_window a c = refl

    refused_aggregation :
        (w : Option WindowType) (c : Option Comparator)
        → append_cep_rule rule_id event_id window_size threshold severity w none c rules
          ≡ (false, rules)
    refused_aggregation none c = refl
    refused_aggregation (some w) c = refl

    refused_comparator :
        (w : Option WindowType) (a : Option Aggregation)
        → append_cep_rule rule_id event_id window_size threshold severity w a none rules
          ≡ (false, rules)
    refused_comparator none a = refl
    refused_comparator (some w) none = refl
    refused_comparator (some w) (some a) = refl
