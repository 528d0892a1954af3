-- ===== src/Spmc/Invariant.antt =====
-- What holds between two steps of an `SpmcRing` and its consumer.
use native.Mathlib.Nat.{one-le-pow}
use animus_core_v.Base.{
  ℕ, ◌+◌, ◌-◌, ◌*◌, ◌%◌, ◌^◌, ◌≤◌, ◌<◌, ◌≡◌, ◌≢◌, ap, ◌∙◌, ◌⊎◌, arith, bit_and,
}
use animus_core_v.Base.Words.{sub64}
use animus_core_v.Base.Bits.{masked_count, pow_mono}
use animus_core_v.Spmc.System.{Writing, Reading, System, put, put_row}

pub put_same : (t : ℕ → ℕ → ℕ) (i j x : ℕ) → put t i j x i j ≡ x
unfolding put
put_same t i j x = ground arith

pub put_other : (t : ℕ → ℕ → ℕ) (i j x a b : ℕ) → (a ≢ i) ⊎ (b ≢ j) → put t i j x a b ≡ t a b
unfolding put
put_other t i j x a b h = ground arith

pub put_row_same : (t : ℕ → ℕ → ℕ) (i : ℕ) (v : ℕ → ℕ) (b : ℕ) → put_row t i v i b ≡ v b
unfolding put_row
put_row_same t i v b = ground arith

pub put_row_other :
    (t : ℕ → ℕ → ℕ) (i : ℕ) (v : ℕ → ℕ) (a b : ℕ) → a ≢ i → put_row t i v a b ≡ t a b
unfolding put_row
put_row_other t i v a b h = ground arith

-- Whether a broadcast is under way, the words that it has stored, and what `write_seq` then is.
abbrev pub active : Writing → ℕ
active Writing.idle = 0
active (Writing.storing v j) = 1
active Writing.ended = 1

abbrev pub stored : ℕ → Writing → ℕ
stored words Writing.idle = 0
stored words (Writing.storing v j) = j
stored words Writing.ended = words

abbrev pub marker : Writing → ℕ → ℕ
marker Writing.idle w = 2 * w
marker (Writing.storing v j) w = 2 * w + 1
marker Writing.ended w = 2 * w + 2

abbrev pub word_of : Writing → ℕ → ℕ
word_of (Writing.storing v i) j = v j
word_of _ j = 0

-- The number of broadcasts that have begun.
abbrev pub begun : System → ℕ
begun s = s.producer_head + active s.writing

pub record Producing (k words : ℕ) (s : System) : Type 0 where
  pub bound : begun s + 1 < 2 ^ 63
  pub seq : s.write_seq ≡ marker s.writing s.producer_head
  pub published : s.head ≡ s.producer_head
  pub kept :
      (i j : ℕ)
      → j < words
      → i < s.producer_head
      → begun s ≤ i + 2 ^ k
      → s.slots (i % 2 ^ k) j ≡ s.sent i j
  pub fresh :
      (j : ℕ)
      → j < stored words s.writing
      → s.slots (s.producer_head % 2 ^ k) j ≡ s.sent s.producer_head j
  pub content :
      (v : ℕ → ℕ) (i j : ℕ) → s.writing ≡ Writing.storing v i → s.sent s.producer_head j ≡ v j

-- Word `x` of record `m` of the batch is copied.
abbrev pub Copied : ℕ → ℕ → ℕ → ℕ → Type 0
Copied i j m x = (m < i) ⊎ ((m ≡ i) × (x < j))

pub record Batch (k words : ℕ) (s : System) (first n i j : ℕ) : Type 0 where
  pub from : first ≡ s.reader.local_tail
  pub reaches : first + n ≤ s.producer_head
  pub within : i ≤ n
  pub intact :
      (m x : ℕ)
      → m < n
      → x < words
      → Copied i j m x
      → begun s ≤ first + m + 2 ^ k
      → s.out m x ≡ s.sent (first + m) x

pub record Inv (k words : ℕ) (s : System) : Type 0 where
  pub few : k ≤ 62
  pub producing : Producing k words s
  pub tail : s.reader.local_tail ≤ s.producer_head
  pub counted : s.returned + s.reader.overrun_count ≡ s.reader.local_tail
  pub copying :
      (first n i j : ℕ) → s.reading ≡ Reading.copying first n i j → Batch k words s first n i j

-- The slot of a record.
pub slot_of : (k i : ℕ) → k ≤ 62 → i < 2 ^ 64 → bit_and i (sub64 (2 ^ k) 1) ≡ i % 2 ^ k
slot_of k i few small =
    let low : 2 ^ k ≤ 2 ^ 62 = pow_mono k 62 few in
    let mask : sub64 (2 ^ k) 1 ≡ 2 ^ k - 1 = omega (arith, one-le-pow k 2) in
    let word : i ≡ i % 2 ^ 64 = omega arith in
    ap (bit_and i) mask
    ∙ ap (λ (t : ℕ). bit_and t (2 ^ k - 1)) word
    ∙ masked_count k i (omega arith)
