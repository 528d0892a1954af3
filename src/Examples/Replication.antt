-- ===== src/Examples/Replication.antt =====
-- Concrete logs of AnimusCore_v1/animus_cluster.hpp.
use animus_core_v.Base.{ℕ, ◌+◌, ◌≤◌, ◌<◌, ◌≡◌, ◌⊎◌, refl, arith, some, List, [], ◌∷◌, length, take}
use animus_core_v.Cluster.{
  Role, Node, LogEntry, AppendEntriesHeader, new_node, handle_append_entries, accepted, term_at,
  apply_entry,
}
use animus_core_v.Cluster.Leading.{noop, advance_commit}
use animus_core_v.Cluster.Applying.{Applied, Replicated, advance_commit-Applied, replay}
use animus_core_v.Cluster.Wire.{dispatch_request, pack_append_entries, answer_append}
use animus_core_v.Cluster.Framing.{
  FitsEntry, FitsAll, dispatch_request-append, dispatch_request-refuses,
}
use animus_core_v.Cluster.Appends.{append-twice}

abbrev command : LogEntry
command = record {
  term = 1;
  is_noop = 0;
  command = record { rule_id = 5; event_id = 6; threshold = 7; comparator = 0; severity = 2 };
}

abbrev entries : List LogEntry
entries = noop 1 ∷ (command ∷ [])

abbrev header : AppendEntriesHeader
header = record {
  term = 1;
  leader_id = 0;
  prev_log_index = 0;
  prev_log_term = 0;
  leader_commit = 2;
  entry_count = 2;
}

append-twice_example :
    (n' n'' : Node) × (handle_append_entries 0 header entries new_node ≡ some (accepted n'))
    × (handle_append_entries 0 header entries n' ≡ some (accepted n''))
    × (n''.log ≡ n'.log)
    × (take 0 n'.log ≡ take 0 new_node.log)
    × (0 + length entries ≤ length n'.log)
    × ((k : ℕ) → k < length entries → term_at n'.log (0 + k) ≡ term_at entries k)
append-twice_example =
    append-twice 0 header entries new_node (omega arith) (λ l. absurd (omega arith))

-- A follower that has committed the no-op entry and then hears from its leader again.
abbrev behind : Node
behind = record new_node { current_term = 1; log = noop 1 ∷ []; commit_index = 1; last_applied = 1 }

-- A leader of three whose entries one peer holds.
abbrev leading : Node
leading = record behind { role = Role.leader; log = entries; match_index = λ p. 2 }

leading-Applied : Applied leading
unfolding replay apply_entry
leading-Applied = record { holds = refl; behind = omega arith; within = omega arith }

advance_commit-Applied_example :
    (n' : Node) × (advance_commit (1 ∷ (2 ∷ [])) 1 leading ≡ some n')
    × Applied n'
    × (n'.log ≡ entries)
    × (((n' ≡ leading) × ((i : ℕ) → 1 < i → i ≤ 2 → ¬ Replicated (1 ∷ (2 ∷ [])) leading i))
        ⊎ ((1 < n'.commit_index)
            × (n'.last_applied ≡ n'.commit_index)
            × Replicated (1 ∷ (2 ∷ [])) leading n'.commit_index
            × ((i : ℕ) → n'.commit_index < i → i ≤ 2 → ¬ Replicated (1 ∷ (2 ∷ [])) leading i)))
advance_commit-Applied_example = advance_commit-Applied (1 ∷ (2 ∷ [])) leading leading-Applied refl

noop_fits : FitsEntry (noop 1)
noop_fits = record {
  term = omega arith;
  is_noop = omega arith;
  rule_id = omega arith;
  event_id = omega arith;
  threshold = omega arith;
  comparator = omega arith;
  severity = omega arith;
}

command_fits : FitsEntry command
command_fits = record {
  term = omega arith;
  is_noop = omega arith;
  rule_id = omega arith;
  event_id = omega arith;
  threshold = omega arith;
  comparator = omega arith;
  severity = omega arith;
}

dispatch_request-append_example :
    dispatch_request 2 (pack_append_entries header entries) new_node
    ≡ answer_append (handle_append_entries 2 header entries new_node)
dispatch_request-append_example =
    dispatch_request-append 2 new_node header entries
      record {
        term = omega arith;
        leader_id = omega arith;
        prev_log_index = omega arith;
        prev_log_term = omega arith;
        leader_commit = omega arith;
        entry_count = omega arith;
      }
      (FitsAll.one_more noop_fits (FitsAll.one_more command_fits FitsAll.none_left)) refl

-- An append request cut off in its header.
dispatch_request-refuses_example : dispatch_request 2 (3 ∷ (1 ∷ [])) new_node ≡ some (new_node, [])
dispatch_request-refuses_example =
    dispatch_request-refuses 2 3 (1 ∷ []) new_node (λ e. absurd (omega arith))
      (λ e l. absurd (omega arith))
