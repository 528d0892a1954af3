-- ===== src/Cep/Count.antt =====
-- Count windows: which entries expire, and the deques after one event.
use animus_core_v.Base.{
  ℕ, zero, suc, ◌+◌, ◌-◌, ◌≤◌, ◌<◌, ◌^◌, ◌≡◌, refl, sym, ap, ◌∙◌, Bool, true, false, List, [], ◌∷◌,
  ◌++◌, arith, length, drop, leb, length-snoc, length-drop, drop-append, dec_lt,
}
use animus_core_v.Cep.{
  Entry, RuleState, WindowType, pop_front_while, expired, evict_monotonic, fed_deque,
}
use animus_core_v.Cep.Window.{AllLive, OldFirst, candidates, candidates_push, candidates_evict}

-- Events are numbered one after the other from `n`.
abbrev pub Numbered : ℕ → List Entry → Type 0
Numbered n [] = Unit
Numbered n (e ∷ rest) = (e.sequence ≡ n) × Numbered (suc n) rest

-- The last `size` events.
abbrev pub recent : ℕ → List Entry → List Entry
recent size hist = drop (length hist - size) hist

Numbered-drop : (n k : ℕ) (l : List Entry) → Numbered n l → Numbered (k + n) (drop k l)
Numbered-drop n zero l h = let e : n ≡ 0 + n = omega arith in rw (← e) h
Numbered-drop n (suc k) [] h = tt
Numbered-drop n (suc k) (x ∷ xs) h =
    let e : suc k + n ≡ k + suc n = omega arith in rw e (Numbered-drop (suc n) k xs h.1)

pub Numbered-snoc :
    (n : ℕ) (l : List Entry) (e : Entry)
    → Numbered n l
    → e.sequence ≡ n + length l
    → Numbered n (l ++ (e ∷ []))
Numbered-snoc n [] e h p = (omega arith, tt)
Numbered-snoc n (x ∷ xs) e h p = (h.0, Numbered-snoc (suc n) xs e h.1 (omega arith))

module _ (size c now : ℕ) (fits : c + size < 2 ^ 64) where
  abbrev old : Entry → Bool
  old = expired WindowType.count size c now

  old_test : (e : Entry) → e.sequence ≤ c → old e ≡ leb (e.sequence + size) c
  unfolding expired
  old_test e h = ground arith

  AllLive-count :
      (n : ℕ) (l : List Entry) → Numbered n l → n + length l ≤ suc c → c < n + size → AllLive old l
  AllLive-count n [] h b p = tt
  AllLive-count n (x ∷ xs) h b p =
      (ground (arith, old_test x, h.0), AllLive-count (suc n) xs h.1 (omega arith) (omega arith))

  OldFirst-count : (n : ℕ) (l : List Entry) → Numbered n l → n + length l ≤ suc c → OldFirst old l
  OldFirst-count n [] h b = tt
  OldFirst-count n (x ∷ xs) h b = (
    λ live. AllLive-count (suc n) xs h.1 (omega arith) (ground (arith, old_test x, h.0, live)),
    OldFirst-count (suc n) xs h.1 (omega arith),
  )

  pop_front_while-old :
      (n : ℕ) (l : List Entry)
      → Numbered n l
      → n + length l ≡ suc c
      → pop_front_while old l ≡ recent size l
  pop_front_while-old n [] h b = ground arith
  pop_front_while-old n (x ∷ xs) h b = elim (dec_lt (length xs) size) [
    | yes few ↦
        let none_over : suc (length xs) - size ≡ 0 = omega arith in
        let live : old x ≡ false = ground (arith, old_test x, h.0) in rw (live, none_over)
    | no many ↦
        let one_over : suc (length xs) - size ≡ suc (length xs - size) = omega arith in
        let gone : old x ≡ true = ground (arith, old_test x, h.0) in
        rw (gone, one_over) (pop_front_while-old (suc n) xs h.1 (omega arith))
  ]

drop-nil : (n : ℕ) → drop {A = Entry} n [] ≡ []
drop-nil zero = refl
drop-nil (suc n) = refl

drop-drop : (i j : ℕ) (l : List Entry) → drop i (drop j l) ≡ drop (j + i) l
drop-drop i zero l = let e : 0 + i ≡ i = omega arith in rw e
drop-drop i (suc j) [] = drop-nil i ∙ sym (drop-nil (suc j + i))
drop-drop i (suc j) (x ∷ xs) =
    let e : suc j + i ≡ suc (j + i) = omega arith in rw e (drop-drop i j xs)

-- The window after one more event, from the window before it.
pub recent_step :
    (size : ℕ) (hist : List Entry) (e : Entry)
    → recent size (recent size hist ++ (e ∷ [])) ≡ recent size (hist ++ (e ∷ []))
recent_step size hist e =
    ap (recent size) (sym (drop-append skipped hist (e ∷ []) (omega arith)))
    ∙ drop-drop (length (drop skipped (hist ++ (e ∷ []))) - size) skipped (hist ++ (e ∷ []))
    ∙ ap (λ (n : ℕ). drop n (hist ++ (e ∷ [])))
        (omega (arith, length-drop skipped (hist ++ (e ∷ [])), length-snoc hist e))
  where
    skipped : ℕ
    skipped = length hist - size

-- One event through either deque, which keeps the candidates of the last `size` events.
module _ (worse : ℕ → ℕ → Bool)
    (trans : (a b c : ℕ) → worse a b ≡ true → worse b c ≡ true → worse a c ≡ true)
    (total : (a b : ℕ) → worse a b ≡ false → worse b a ≡ true) where
  pub fed_deque-count :
      (r : RuleState) (hist : List Entry) (e : Entry) (deque : List Entry)
      → r.window_type ≡ WindowType.count
      → Numbered 1 hist
      → e.sequence ≡ length hist + 1
      → length hist + 1 + r.window_size < 2 ^ 64
      → deque ≡ candidates worse (recent r.window_size hist)
      → fed_deque (λ y. worse y.value e.value) e r deque
        ≡ candidates worse (recent r.window_size (hist ++ (e ∷ [])))
  unfolding fed_deque evict_monotonic
  fed_deque-count r hist e deque kind numbered seq fits d =
      rw (kind, d)
        (ap (pop_front_while old') (candidates_push worse trans total e (recent size hist))
          ∙ candidates_evict worse trans total old' (recent size hist ++ (e ∷ [])) (
              OldFirst-count size e.sequence e.timestamp_ms (omega arith) (skipped + 1) longer
                ordered (omega (arith, lengths)))
          ∙ ap (candidates worse) (
              pop_front_while-old size e.sequence e.timestamp_ms (omega arith) (skipped + 1) longer
                ordered (omega (arith, lengths))
              ∙ recent_step size hist e))
    where
      size : ℕ
      size = r.window_size

      old' : Entry → Bool
      old' = expired WindowType.count size e.sequence e.timestamp_ms

      skipped : ℕ
      skipped = length hist - size

      longer : List Entry
      longer = recent size hist ++ (e ∷ [])

      lengths : length longer + skipped ≡ length hist + 1
      lengths = omega (arith, length-snoc (recent size hist) e, length-drop skipped hist)

      ordered : Numbered (skipped + 1) longer
      ordered =
          Numbered-snoc (skipped + 1) (recent size hist) e (Numbered-drop 1 skipped hist numbered)
            (omega (arith, length-drop skipped hist))
