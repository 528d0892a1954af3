-- ===== src/Cluster/Framing.antt =====
-- Requests of AnimusCore_v1/animus_cluster.hpp through their bytes: what a node sends, and what
-- `dispatch_request` makes of it.
use native.Mathlib.Nat.{pow-suc}
use animus_core_v.Base.{
  ℕ, zero, suc, ◌+◌, ◌*◌, ◌/◌, ◌%◌, ◌^◌, ◌≤◌, ◌<◌, ◌≡◌, ◌≢◌, refl, ap, ◌∙◌, some, List, [], ◌∷◌,
  length, arith, ==_iff, le→leb,
}
use animus_core_v.Cluster.{
  LogEntry, RequestVoteArgs, AppendEntriesHeader, Node, handle_request_vote, handle_append_entries,
}
use animus_core_v.Cluster.Wire.{
  put_word, get_word, pack_vote_args, pack_vote_result, put_entries, pack_append_entries,
  read_vote_args, read_header, read_entry, read_entries, answer_append, dispatch_append,
  dispatch_request, log_entry_bytes, append_entries_req, request_vote_req,
}

get_word-put_word :
    (n v : ℕ) (rest : List ℕ) → v < 256 ^ n → get_word n (put_word n v rest) ≡ (v, rest)
unfolding get_word put_word
get_word-put_word zero v rest h = ap (λ (x : ℕ). (x, rest)) (omega arith)
get_word-put_word (suc n) v rest h =
    let ih = get_word-put_word n (v / 256) rest (omega (arith, pow-suc 256 n)) in
    let whole : v % 256 + 256 * (v / 256) ≡ v = omega arith in rw (ih, whole) refl

length-put_word : (n v : ℕ) (rest : List ℕ) → length (put_word n v rest) ≡ n + length rest
unfolding put_word
length-put_word zero v rest = omega arith
length-put_word (suc n) v rest = omega (arith, length-put_word n (v / 256) rest)

-- Fields in the range of their types.
pub record FitsVote (a : RequestVoteArgs) : Type 0 where
  pub term : a.term < 2 ^ 64
  pub candidate_id : a.candidate_id < 2 ^ 32
  pub last_log_index : a.last_log_index < 2 ^ 64
  pub last_log_term : a.last_log_term < 2 ^ 64

read_vote_args-pack :
    (a : RequestVoteArgs)
    → FitsVote a
    → read_vote_args (
        put_word 8 a.term
          (put_word 4 a.candidate_id (put_word 8 a.last_log_index (put_word 8 a.last_log_term []))))
      ≡ a
unfolding read_vote_args
read_vote_args-pack a f =
    rw
      (
        get_word-put_word 8 a.term _ f.term,
        get_word-put_word 4 a.candidate_id _ f.candidate_id,
        get_word-put_word 8 a.last_log_index _ f.last_log_index,
        get_word-put_word 8 a.last_log_term [] f.last_log_term,
      )
      refl

pub record FitsHeader (h : AppendEntriesHeader) : Type 0 where
  pub term : h.term < 2 ^ 64
  pub leader_id : h.leader_id < 2 ^ 32
  pub prev_log_index : h.prev_log_index < 2 ^ 64
  pub prev_log_term : h.prev_log_term < 2 ^ 64
  pub leader_commit : h.leader_commit < 2 ^ 64
  pub entry_count : h.entry_count < 2 ^ 32

pub record FitsEntry (e : LogEntry) : Type 0 where
  pub term : e.term < 2 ^ 64
  pub is_noop : e.is_noop < 2 ^ 8
  pub rule_id : e.command.rule_id < 2 ^ 32
  pub event_id : e.command.event_id < 2 ^ 32
  pub threshold : e.command.threshold < 2 ^ 64
  pub comparator : e.command.comparator < 2 ^ 8
  pub severity : e.command.severity < 2 ^ 32

pub data FitsAll : List LogEntry → Type 0 where
  none_left : FitsAll []
  one_more : {e : LogEntry} {es : List LogEntry} → FitsEntry e → FitsAll es → FitsAll (e ∷ es)

put_header : AppendEntriesHeader → List ℕ → List ℕ
put_header h rest = put_word 8 h.term (
    put_word 4 h.leader_id (
      put_word 8 h.prev_log_index
        (put_word 8 h.prev_log_term (put_word 8 h.leader_commit (put_word 4 h.entry_count rest)))))

read_header-put :
    (h : AppendEntriesHeader) (rest : List ℕ)
    → FitsHeader h
    → read_header (put_header h rest) ≡ (h, rest)
unfolding read_header put_header
read_header-put h rest f =
    rw
      (
        get_word-put_word 8 h.term _ f.term,
        get_word-put_word 4 h.leader_id _ f.leader_id,
        get_word-put_word 8 h.prev_log_index _ f.prev_log_index,
        get_word-put_word 8 h.prev_log_term _ f.prev_log_term,
        get_word-put_word 8 h.leader_commit _ f.leader_commit,
        get_word-put_word 4 h.entry_count _ f.entry_count,
      )
      refl

put_entry : LogEntry → List ℕ → List ℕ
put_entry e rest = put_word 8 e.term (
    put_word 1 e.is_noop (
      put_word 4 e.command.rule_id (
        put_word 4 e.command.event_id (
          put_word 8 e.command.threshold
            (put_word 1 e.command.comparator (put_word 4 e.command.severity rest))))))

read_entry-put :
    (e : LogEntry) (rest : List ℕ) → FitsEntry e → read_entry (put_entry e rest) ≡ (e, rest)
unfolding read_entry put_entry
read_entry-put e rest f =
    rw
      (
        get_word-put_word 8 e.term _ f.term,
        get_word-put_word 1 e.is_noop _ f.is_noop,
        get_word-put_word 4 e.command.rule_id _ f.rule_id,
        get_word-put_word 4 e.command.event_id _ f.event_id,
        get_word-put_word 8 e.command.threshold _ f.threshold,
        get_word-put_word 1 e.command.comparator _ f.comparator,
        get_word-put_word 4 e.command.severity _ f.severity,
      )
      refl

read_entries-put :
    (es : List LogEntry) → FitsAll es → read_entries (length es) (put_entries es) ≡ es
unfolding read_entries put_entries put_entry
read_entries-put [] f = refl
read_entries-put (e ∷ es) (FitsAll.one_more f fs) =
    rw (read_entry-put e (put_entries es) f, read_entries-put es fs) refl

length-put_entries : (es : List LogEntry) → length (put_entries es) ≡ length es * log_entry_bytes
unfolding put_entries
length-put_entries [] = refl
length-put_entries (e ∷ es) =
    rw
      (
        length-put_word 8 e.term _,
        length-put_word 1 e.is_noop _,
        length-put_word 4 e.command.rule_id _,
        length-put_word 4 e.command.event_id _,
        length-put_word 8 e.command.threshold _,
        length-put_word 1 e.command.comparator _,
        length-put_word 4 e.command.severity _,
      )
      (omega (arith, length-put_entries es))

length-put_header :
    (h : AppendEntriesHeader) (rest : List ℕ) → length (put_header h rest) ≡ 40 + length rest
unfolding put_header
length-put_header h rest =
    rw
      (
        length-put_word 8 h.term _,
        length-put_word 4 h.leader_id _,
        length-put_word 8 h.prev_log_index _,
        length-put_word 8 h.prev_log_term _,
        length-put_word 8 h.leader_commit _,
        length-put_word 4 h.entry_count _,
      )
      (omega arith)

length-vote : (a : RequestVoteArgs) → length (pack_vote_args a) ≡ 29
unfolding pack_vote_args
length-vote a =
    rw
      (
        length-put_word 8 a.term _,
        length-put_word 4 a.candidate_id _,
        length-put_word 8 a.last_log_index _,
        length-put_word 8 a.last_log_term _,
      )
      refl

-- A body of the right length, by what it is read as.
dispatch_vote :
    (from : ℕ) (n : Node) (body : List ℕ) (a : RequestVoteArgs)
    → length body ≡ 28
    → read_vote_args body ≡ a
    → dispatch_request from (request_vote_req ∷ body) n
      ≡ some ((handle_request_vote from a n).0, pack_vote_result (handle_request_vote from a n).1)
unfolding dispatch_request
dispatch_vote from n body a len is = rw (len, is) refl

dispatch_entries :
    (from : ℕ) (n : Node) (body rest : List ℕ) (h : AppendEntriesHeader) (es : List LogEntry)
    → length body ≡ 40 + h.entry_count * 30
    → read_header body ≡ (h, rest)
    → read_entries h.entry_count rest ≡ es
    → dispatch_request from (append_entries_req ∷ body) n
      ≡ answer_append (handle_append_entries from h es n)
unfolding dispatch_request dispatch_append
dispatch_entries from n body rest h es len is all =
    rw
      (
        is,
        all,
        le→leb 41 (suc (length body)) (omega (arith, len)),
        (==_iff (suc (length body)) (41 + h.entry_count * 30)).1 (omega (arith, len)),
      )
      refl

-- A vote request that a node packs, with fields in the range of their types, reaches the handler of
-- the peer as it was sent.
pub dispatch_request-vote :
    (from : ℕ) (n : Node) (a : RequestVoteArgs)
    → FitsVote a
    → dispatch_request from (pack_vote_args a) n
      ≡ some ((handle_request_vote from a n).0, pack_vote_result (handle_request_vote from a n).1)
unfolding pack_vote_args
dispatch_request-vote from n a f =
    let len = length-vote a in
    dispatch_vote from n _ a (omega (arith, len)) (read_vote_args-pack a f)

-- An append request that a node packs, with fields in the range of their types and the count that
-- its entries have, reaches the handler of the peer as it was sent: the peer's state and the
-- response are those of the handler on the very header and entries.
pub dispatch_request-append :
    (from : ℕ) (n : Node) (h : AppendEntriesHeader) (es : List LogEntry)
    → FitsHeader h
    → FitsAll es
    → h.entry_count ≡ length es
    → dispatch_request from (pack_append_entries h es) n
      ≡ answer_append (handle_append_entries from h es n)
unfolding pack_append_entries put_header
dispatch_request-append from n h es f fs c =
    dispatch_entries from n (put_header h (put_entries es)) (put_entries es) h es
      (omega (
        arith,
        length-put_header h (put_entries es),
        length-put_entries es,
        ap (λ (x : ℕ). x * 30) c,
      ))
      (read_header-put h (put_entries es) f)
      (ap (λ (x : ℕ). read_entries x (put_entries es)) c ∙ read_entries-put es fs)

-- A message whose length is not the one that its kind and its entry count call for changes nothing,
-- and has no answer.
pub dispatch_request-refuses :
    (from kind : ℕ) (body : List ℕ) (n : Node)
    → (kind ≡ request_vote_req → length body ≢ 28)
    → (kind ≡ append_entries_req
        → 40 ≤ length body
        → length body ≢ 40 + (read_header body).0.entry_count * 30)
    → dispatch_request from (kind ∷ body) n ≡ some (n, [])
unfolding dispatch_request dispatch_append
dispatch_request-refuses from kind body n v a = ground arith
