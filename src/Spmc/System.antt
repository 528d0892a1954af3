-- ===== src/Spmc/System.antt =====
-- One producer and one consumer of an `SpmcRing<T>` (include/animus/shm_ipc.hpp), with `broadcast`
-- and `poll` cut at each access of shared memory. A record is `words` machine words, and each is
-- copied by an access of its own, so a copy can meet a write half done. The accesses are taken to
-- be sequentially consistent.
use animus_core_v.Base.{
  ℕ, suc, ◌+◌, ◌-◌, ◌<◌, ◌≡◌, ◌≢◌, ◌^◌, false, ◌&&◌, ◌==◌, bit_and, if◌then◌else◌, ltb,
}
use animus_core_v.Base.Words.{add64, sub64}
use animus_core_v.Spmc.{Reader, begin_value, end_value, catch_up, batch, gone, settle}

-- Where `broadcast` is: `storing v j` has stored the first `j` words of `v`.
pub data Writing : Type 0 where
  idle : Writing
  storing : (ℕ → ℕ) → ℕ → Writing
  ended : Writing

-- Where `poll` is: `copying first n i j` has copied `i` of `n` records, and `j` words of the next.
pub data Reading : Type 0 where
  idle : Reading
  copying : ℕ → ℕ → ℕ → ℕ → Reading

-- `sent` and `returned` are histories: the words of every broadcast record, and the number of
-- records that `poll` has returned.
pub record System : Type 0 where
  pub slots : ℕ → ℕ → ℕ
  pub write_seq : ℕ
  pub head : ℕ
  pub producer_head : ℕ
  pub writing : Writing
  pub reader : Reader
  pub reading : Reading
  pub out : ℕ → ℕ → ℕ
  pub sent : ℕ → ℕ → ℕ
  pub returned : ℕ

-- One word of a table replaced, and one row.
unfoldable pub put : (ℕ → ℕ → ℕ) → ℕ → ℕ → ℕ → ℕ → ℕ → ℕ
put t i j x a b = if (a == i) && (b == j) then x else t a b

unfoldable pub put_row : (ℕ → ℕ → ℕ) → ℕ → (ℕ → ℕ) → ℕ → ℕ → ℕ
put_row t i v a b = if a == i then v b else t a b

-- The `memmove` that drops the first `lapped` records of `n`; past those that stay, the buffer is
-- as it was.
unfoldable pub compact : ℕ → ℕ → (ℕ → ℕ → ℕ) → ℕ → ℕ → ℕ
compact lapped n out i j = if ltb i (n - lapped) then out (i + lapped) j else out i j

-- The end of `poll`, from the load of `write_seq` on.
abbrev pub settled : ℕ → ℕ → ℕ → System → System
settled capacity first n s =
    let lapped = gone s.write_seq capacity first n in
    record s {
      reader = settle lapped first n s.reader;
      reading = Reading.idle;
      out = compact lapped n s.out;
      returned = s.returned + (n - lapped);
    }

-- A fresh segment and a consumer that has just attached.
abbrev pub start : System
start = record {
  slots = λ i j. 0;
  write_seq = 0;
  head = 0;
  producer_head = 0;
  writing = Writing.idle;
  reader = record { local_tail = 0; overrun_count = 0; last_poll_overran = false };
  reading = Reading.idle;
  out = λ i j. 0;
  sent = λ i j. 0;
  returned = 0;
}

-- A run ends before its broadcast number 2 ^ 63 - 2, which is where `write_seq` would come to wrap.
pub data Step (capacity words : ℕ) (s : System) : System → Type 0 where
  broadcast_begin :
      (v : ℕ → ℕ)
      → s.writing ≡ Writing.idle
      → s.producer_head + 2 < 2 ^ 63
      → Step capacity words s (record s {
        write_seq = begin_value s.producer_head;
        writing = Writing.storing v 0;
        sent = put_row s.sent s.producer_head v;
      })
  broadcast_word :
      (v : ℕ → ℕ) (j : ℕ)
      → s.writing ≡ Writing.storing v j
      → j < words
      → Step capacity words s (record s {
        slots = put s.slots (bit_and s.producer_head (sub64 capacity 1)) j (v j);
        writing = Writing.storing v (suc j);
      })
  broadcast_end :
      (v : ℕ → ℕ)
      → s.writing ≡ Writing.storing v words
      → Step capacity words s
          (record s { write_seq = end_value s.producer_head; writing = Writing.ended })
  broadcast_publish :
      s.writing ≡ Writing.ended
      → Step capacity words s (record s {
        head = add64 s.producer_head 1;
        producer_head = add64 s.producer_head 1;
        writing = Writing.idle;
      })
  poll_empty :
      (max_count : ℕ)
      → s.reading ≡ Reading.idle
      → batch s.head max_count (catch_up capacity s.head s.reader) ≡ 0
      → Step capacity words s (record s { reader = catch_up capacity s.head s.reader })
  poll_head :
      (max_count : ℕ)
      → s.reading ≡ Reading.idle
      → batch s.head max_count (catch_up capacity s.head s.reader) ≢ 0
      → Step capacity words s (record s {
        reader = catch_up capacity s.head s.reader;
        reading =
            Reading.copying
              (catch_up capacity s.head s.reader).local_tail
              (batch s.head max_count (catch_up capacity s.head s.reader))
              0
              0;
      })
  poll_word :
      (first n i j : ℕ)
      → s.reading ≡ Reading.copying first n i j
      → i < n
      → j < words
      → Step capacity words s (record s {
        out = put s.out i j (s.slots (bit_and (add64 first i) (sub64 capacity 1)) j);
        reading = Reading.copying first n i (suc j);
      })
  poll_next :
      (first n i : ℕ)
      → s.reading ≡ Reading.copying first n i words
      → i < n
      → Step capacity words s (record s { reading = Reading.copying first n (suc i) 0 })
  poll_settle :
      (first n : ℕ)
      → s.reading ≡ Reading.copying first n n 0
      → Step capacity words s (settled capacity first n s)

-- Any number of steps, from the left.
pub data Reach (capacity words : ℕ) (s : System) : System → Type 0 where
  here : Reach capacity words s s
  next :
      {t u : System} → Reach capacity words s t → Step capacity words t u → Reach capacity words s u
