-- ===== src/Cep/Window.antt =====
-- Expiry from the front of a window, and the candidates that the monotonic deque keeps.
use animus_core_v.Base.{
  ℕ, ◌≡◌, refl, ap, ◌∙◌, Bool, true, false, some, List, [], ◌∷◌, ◌++◌, arith, Bool-cases, inl, inr,
  ◌⊎◌, List-cases, if◌then◌else◌,
}
use animus_core_v.Cep.{Entry, pop_front_while, pop_back_while, front_value}

abbrev pub AllLive : (Entry → Bool) → List Entry → Type 0
AllLive old [] = Unit
AllLive old (e ∷ rest) = (old e ≡ false) × AllLive old rest

-- What follows a live entry is live.
abbrev pub OldFirst : (Entry → Bool) → List Entry → Type 0
OldFirst old [] = Unit
OldFirst old (e ∷ rest) = (old e ≡ false → AllLive old rest) × OldFirst old rest

-- Some entry of the window has the value `v`.
abbrev pub Has : ℕ → List Entry → Type 0
Has v [] = ⊥
Has v (e ∷ rest) = (e.value ≡ v) ⊎ Has v rest

abbrev pub Every : (ℕ → Type 0) → List Entry → Type 0
Every P [] = Unit
Every P (e ∷ rest) = P e.value × Every P rest

-- `worse a b` is the test by which the entry with value `b` drives out one with value `a`.
module _ (worse : ℕ → ℕ → Bool) where
  abbrev pub climb : Entry → List Entry → List Entry
  climb e [] = e ∷ []
  climb e (f ∷ rest) = if worse e.value f.value then f ∷ rest else e ∷ f ∷ rest

  -- The entries that no later entry drives out, from the oldest.
  abbrev pub candidates : List Entry → List Entry
  candidates [] = []
  candidates (e ∷ rest) = climb e (candidates rest)

module _ (worse : ℕ → ℕ → Bool)
    (trans : (a b c : ℕ) → worse a b ≡ true → worse b c ≡ true → worse a c ≡ true)
    (total : (a b : ℕ) → worse a b ≡ false → worse b a ≡ true) where
  -- One entry in front of the candidates, and one behind them.
  climb_push :
      (e x : Entry) (l : List Entry)
      → pop_back_while (λ y. worse y.value e.value) (climb worse x l) ++ (e ∷ [])
        ≡ climb worse x (pop_back_while (λ y. worse y.value e.value) l ++ (e ∷ []))
  climb_push e x [] = ground arith
  climb_push e x (f ∷ r) = elim (List-cases (pop_back_while (λ y. worse y.value e.value) r)) [
    | inl none_left ↦ ground (arith, none_left, trans x.value f.value e.value)
    | inr (g, rest, some_left) ↦ ground (arith, some_left)
  ]

  -- Pushing an entry on the deque keeps it the candidates of the longer window.
  pub candidates_push :
      (e : Entry) (window : List Entry)
      → pop_back_while (λ y. worse y.value e.value) (candidates worse window) ++ (e ∷ [])
        ≡ candidates worse (window ++ (e ∷ []))
  candidates_push e [] = refl
  candidates_push e (x ∷ xs) =
      climb_push e x (candidates worse xs) ∙ ap (climb worse x) (candidates_push e xs)

  AllLive-climb :
      (old : Entry → Bool) (x : Entry) (l : List Entry)
      → old x ≡ false
      → AllLive old l
      → AllLive old (climb worse x l)
  AllLive-climb old x [] h t = (h, tt)
  AllLive-climb old x (f ∷ r) h t = elim (Bool-cases (worse x.value f.value)) [
    | inl e ↦ rw e t
    | inr e ↦ rw e (h, t)
  ]

  AllLive-candidates :
      (old : Entry → Bool) (window : List Entry)
      → AllLive old window
      → AllLive old (candidates worse window)
  AllLive-candidates old [] h = tt
  AllLive-candidates old (x ∷ xs) h =
      AllLive-climb old x (candidates worse xs) h.0 (AllLive-candidates old xs h.1)

  pop_front_live : (old : Entry → Bool) (l : List Entry) → AllLive old l → pop_front_while old l ≡ l
  pop_front_live old [] h = refl
  pop_front_live old (x ∷ xs) h = rw (h.0)

  pop_front_old :
      (old : Entry → Bool) (x : Entry) (l : List Entry)
      → old x ≡ true
      → pop_front_while old (climb worse x l) ≡ pop_front_while old l
  pop_front_old old x [] h = rw h
  pop_front_old old x (f ∷ r) h = elim (Bool-cases (worse x.value f.value)) [
    | inl e ↦ rw e
    | inr e ↦ rw (e, h)
  ]

  -- Expiry commutes with the choice of candidates.
  pub candidates_evict :
      (old : Entry → Bool) (window : List Entry)
      → OldFirst old window
      → pop_front_while old (candidates worse window)
        ≡ candidates worse (pop_front_while old window)
  candidates_evict old [] h = refl
  candidates_evict old (x ∷ xs) h = elim (Bool-cases (old x)) [
    | inl e ↦ rw e (pop_front_old old x (candidates worse xs) e ∙ candidates_evict old xs h.1)
    | inr e ↦ rw e (
        pop_front_live old (climb worse x (candidates worse xs))
          (AllLive-climb old x (candidates worse xs) e (AllLive-candidates old xs (h.0 e))))
  ]

  Every-trans :
      (a b : ℕ) (l : List Entry)
      → worse a b ≡ true
      → Every (λ v. worse v a ≡ true) l
      → Every (λ v. worse v b ≡ true) l
  Every-trans a b [] h t = tt
  Every-trans a b (x ∷ xs) h t = (trans x.value a b t.0 h, Every-trans a b xs h t.1)

  reflexive : (a : ℕ) → worse a a ≡ true
  reflexive a = elim (Bool-cases (worse a a)) [ inl e ↦ e | inr e ↦ total a a e ]

  front_low :
      (x : Entry) (m : ℕ) (l : List Entry)
      → front_value l ≡ some m
      → worse x.value m ≡ true
      → front_value (climb worse x l) ≡ some m
  front_low x m [] f e = cc
  front_low x m (y ∷ ys) f e = ground arith

  front_high :
      (x : Entry) (m : ℕ) (l : List Entry)
      → front_value l ≡ some m
      → worse x.value m ≡ false
      → front_value (climb worse x l) ≡ some x.value
  front_high x m [] f e = cc
  front_high x m (y ∷ ys) f e = ground arith

  -- The front candidate is an extreme of the whole window.
  pub candidates_front :
      (x : Entry) (xs : List Entry)
      → (m : ℕ) × (front_value (candidates worse (x ∷ xs)) ≡ some m)
        × Has m (x ∷ xs)
        × Every (λ v. worse v m ≡ true) (x ∷ xs)
  candidates_front x [] = (x.value, refl, inl refl, (reflexive x.value, tt))
  candidates_front x (y ∷ ys) =
      let (m, front, has, every) = candidates_front y ys in lead m front has every
    where
      lead :
          (m : ℕ)
          → front_value (candidates worse (y ∷ ys)) ≡ some m
          → Has m (y ∷ ys)
          → Every (λ v. worse v m ≡ true) (y ∷ ys)
          → (m' : ℕ) × (front_value (candidates worse (x ∷ y ∷ ys)) ≡ some m')
            × Has m' (x ∷ y ∷ ys)
            × Every (λ v. worse v m' ≡ true) (x ∷ y ∷ ys)
      lead m front has every = elim (Bool-cases (worse x.value m)) [
        | inl e ↦ (m, front_low x m (candidates worse (y ∷ ys)) front e, inr has, (e, every))
        | inr e ↦ (
          x.value,
          front_high x m (candidates worse (y ∷ ys)) front e,
          inl refl,
          (reflexive x.value, Every-trans m x.value (y ∷ ys) (total x.value m e) every),
        )
      ]
