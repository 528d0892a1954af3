-- ===== src/Cluster/Wire.antt =====
-- The messages of AnimusCore_v1/animus_cluster.hpp as bytes, and `dispatch_request`. The structures
-- are packed, and a word is stored least significant byte first, as on the supported targets.
use animus_core_v.Base.{
  ℕ, zero, suc, ◌+◌, ◌*◌, ◌/◌, ◌%◌, not, ◌&&◌, Option, none, some, List, [], ◌∷◌, length, leb, ◌==◌,
  if◌then◌else◌,
}
use animus_core_v.Cluster.{
  LogEntry, RequestVoteArgs, RequestVoteResult, AppendEntriesHeader, AppendEntriesResult, Node,
  handle_request_vote, handle_append_entries,
}

-- `sizeof` of the packed structures.
abbrev pub vote_args_bytes : ℕ
vote_args_bytes = 28

abbrev pub append_header_bytes : ℕ
append_header_bytes = 40

abbrev pub log_entry_bytes : ℕ
log_entry_bytes = 30

-- `MsgType`.
abbrev pub request_vote_req : ℕ
request_vote_req = 1

abbrev pub request_vote_resp : ℕ
request_vote_resp = 2

abbrev pub append_entries_req : ℕ
append_entries_req = 3

abbrev pub append_entries_resp : ℕ
append_entries_resp = 4

-- The copy of a word of `n` bytes into a message, and out of one, with the bytes behind it.
unfoldable pub put_word : ℕ → ℕ → List ℕ → List ℕ
put_word zero v rest = rest
put_word (suc n) v rest = v % 256 ∷ put_word n (v / 256) rest

unfoldable pub get_word : ℕ → List ℕ → ℕ × List ℕ
get_word zero bytes = (0, bytes)
get_word (suc n) [] = (0, [])
get_word (suc n) (b ∷ bytes) = let (v, rest) = get_word n bytes in (b + 256 * v, rest)

unfoldable pub pack_vote_args : RequestVoteArgs → List ℕ
pack_vote_args a =
    request_vote_req
    ∷ put_word 8 a.term
        (put_word 4 a.candidate_id (put_word 8 a.last_log_index (put_word 8 a.last_log_term [])))

unfoldable pub pack_vote_result : RequestVoteResult → List ℕ
pack_vote_result r = request_vote_resp ∷ put_word 8 r.term (put_word 1 r.vote_granted [])

unfoldable pub pack_append_result : AppendEntriesResult → List ℕ
pack_append_result r =
    append_entries_resp ∷ put_word 8 r.term (put_word 1 r.success (put_word 8 r.match_index []))

unfoldable pub put_entries : List LogEntry → List ℕ
put_entries [] = []
put_entries (e ∷ es) = put_word 8 e.term (
    put_word 1 e.is_noop (
      put_word 4 e.command.rule_id (
        put_word 4 e.command.event_id (
          put_word 8 e.command.threshold
            (put_word 1 e.command.comparator (put_word 4 e.command.severity (put_entries es)))))))

unfoldable pub pack_append_entries : AppendEntriesHeader → List LogEntry → List ℕ
pack_append_entries h es =
    append_entries_req
    ∷ put_word 8 h.term (
        put_word 4 h.leader_id (
          put_word 8 h.prev_log_index (
            put_word 8 h.prev_log_term
              (put_word 8 h.leader_commit (put_word 4 h.entry_count (put_entries es))))))

unfoldable pub read_vote_args : List ℕ → RequestVoteArgs
read_vote_args bytes =
    let (term, b1) = get_word 8 bytes in
    let (candidate_id, b2) = get_word 4 b1 in
    let (last_log_index, b3) = get_word 8 b2 in
    let (last_log_term, b4) = get_word 8 b3 in
    record {
      term = term;
      candidate_id = candidate_id;
      last_log_index = last_log_index;
      last_log_term = last_log_term;
    }

unfoldable pub read_header : List ℕ → AppendEntriesHeader × List ℕ
read_header bytes =
    let (term, b1) = get_word 8 bytes in
    let (leader_id, b2) = get_word 4 b1 in
    let (prev_log_index, b3) = get_word 8 b2 in
    let (prev_log_term, b4) = get_word 8 b3 in
    let (leader_commit, b5) = get_word 8 b4 in
    let (entry_count, b6) = get_word 4 b5 in
    (
      record {
        term = term;
        leader_id = leader_id;
        prev_log_index = prev_log_index;
        prev_log_term = prev_log_term;
        leader_commit = leader_commit;
        entry_count = entry_count;
      },
      b6,
    )

unfoldable pub read_entry : List ℕ → LogEntry × List ℕ
read_entry bytes =
    let (term, b1) = get_word 8 bytes in
    let (is_noop, b2) = get_word 1 b1 in
    let (rule_id, b3) = get_word 4 b2 in
    let (event_id, b4) = get_word 4 b3 in
    let (threshold, b5) = get_word 8 b4 in
    let (comparator, b6) = get_word 1 b5 in
    let (severity, b7) = get_word 4 b6 in
    (
      record {
        term = term;
        is_noop = is_noop;
        command = record {
          rule_id = rule_id;
          event_id = event_id;
          threshold = threshold;
          comparator = comparator;
          severity = severity;
        };
      },
      b7,
    )

unfoldable pub read_entries : ℕ → List ℕ → List LogEntry
read_entries zero bytes = []
read_entries (suc n) bytes = (read_entry bytes).0 ∷ read_entries n (read_entry bytes).1

unfoldable pub answer_append : Option (Node × AppendEntriesResult) → Option (Node × List ℕ)
answer_append none = none
answer_append (some (n, r)) = some (n, pack_append_result r)

-- The branch for an append request, past the check that the header is there.
unfoldable pub dispatch_append : ℕ → ℕ → List ℕ → Node → Option (Node × List ℕ)
dispatch_append from size body n =
    let (hdr, rest) = read_header body in
    if not (size == 1 + append_header_bytes + hdr.entry_count * log_entry_bytes)
    then some (n, [])
    else answer_append (handle_append_entries from hdr (read_entries hdr.entry_count rest) n)

-- The node afterwards and the response, an empty one being no answer. `none` is a read past the end
-- of the log, or of an empty message.
unfoldable pub dispatch_request : ℕ → List ℕ → Node → Option (Node × List ℕ)
dispatch_request from [] n = none
dispatch_request from (kind ∷ body) n =
    let size = suc (length body) in
    if (kind == request_vote_req) && (size == 1 + vote_args_bytes)
    then (let (n', r) = handle_request_vote from (read_vote_args body) n in
        some (n', pack_vote_result r))
    else if (kind == append_entries_req) && leb (1 + append_header_bytes) size
    then dispatch_append from size body n
    else some (n, [])
