-- ===== src/Itch/Bounds.antt =====
-- The decoder on any buffer: adapters/itch50/include/itch50_codec.hpp.
use animus_core_v.Base.{
  ℕ, suc, ◌+◌, ◌≤◌, ◌≡◌, refl, Bool, false, not, Option, none, some, List, [], ◌∷◌, length, take,
  drop, get_elem?, get_elem?-some, ltb, arith, dec_lt, le→ltb, lt→ltb,
}
use animus_core_v.Itch.{load, ◌>>=◌}
use animus_core_v.Itch.Codec.{
  MessageType, message_type, wire_size, ItchFrame, decode, decode_case, decode_common_header,
  cleared, dispatch, decode_message,
}

-- Whether a buffer is one message: a known type, and as many bytes as its struct.
abbrev pub known : Option MessageType → List ℕ → Bool
known none wire = false
known (some kind) wire = not (ltb (length wire) (wire_size kind))

abbrev pub accepted : List ℕ → Bool
accepted [] = false
accepted (first ∷ rest) = known (message_type first) (first ∷ rest)

abbrev Present {ℓ} : {A : Type ℓ} → Option A → Type ℓ
Present {A = A} m = (a : A) × (m ≡ some a)

-- One step of a chain.
then-Present {ℓ} :
    {A B : Type ℓ} (m : Option A) (f : A → Option B)
    → Present m
    → ((a : A) → Present (f a))
    → Present (m >>= f)
then-Present none f (a, e) k = absurd (cc)
then-Present (some b) f h k = k b

module _ (wire : List ℕ) where
  load-some :
      (n offset : ℕ)
      → offset + n ≤ length wire
      → load n offset wire ≡ some (take n (drop offset wire))
  load-some n offset h = ground arith

  loaded : (n offset : ℕ) → offset + n ≤ length wire → Present (load n offset wire)
  loaded n offset h = (take n (drop offset wire), load-some n offset h)

  field-Present :
      (n offset : ℕ) (g : List ℕ → ℕ)
      → offset + n ≤ length wire
      → Present (load n offset wire >>= λ v. some (g v))
  field-Present n offset g h =
      then-Present (load n offset wire) (λ v. some (g v)) (loaded n offset h) (λ v. (g v, refl))

  -- A field of the message, and what is decoded after it.
  field :
      (n offset : ℕ) (g : List ℕ → ℕ) (f : ℕ → Option ItchFrame)
      → offset + n ≤ length wire
      → ((v : ℕ) → Present (f v))
      → Present ((load n offset wire >>= λ v. some (g v)) >>= f)
  field n offset g f h k =
      then-Present (load n offset wire >>= λ v. some (g v)) f (field-Present n offset g h) k

  byte :
      (i : ℕ) (f : ℕ → Option ItchFrame)
      → suc i ≤ length wire
      → ((v : ℕ) → Present (f v))
      → Present (get_elem? wire i >>= f)
  byte i f h k = then-Present (get_elem? wire i) f (get_elem?-some wire i (omega arith)) k

  header_some : (out : ItchFrame) → 11 ≤ length wire → Present (decode_common_header wire out)
  header_some out h =
      field 2 1 _ _ (omega arith) (λ l. field 6 5 _ _ (omega arith) (λ t. (_, refl)))

  -- No case reads past the size of its struct.
  case_some :
      (kind : MessageType) (out : ItchFrame)
      → wire_size kind ≤ length wire
      → Present (decode_case kind wire out)
  unfolding decode_case
  case_some MessageType.system_event out h = byte 11 _ (omega arith) (λ b. (_, refl))
  case_some MessageType.add_order_no_mpid out h = field 8 11 _ _ (omega arith) (λ o.
      byte 19 _ (omega arith) (λ b. field 4 20 _ _ (omega arith) (λ s.
        then-Present _ _ (loaded 8 24 (omega arith))
          (λ k. field 4 32 _ _ (omega arith) (λ p. (_, refl))))))
  case_some MessageType.add_order_with_mpid out h = field 8 11 _ _ (omega arith) (λ o.
      byte 19 _ (omega arith) (λ b. field 4 20 _ _ (omega arith) (λ s.
        then-Present _ _ (loaded 8 24 (omega arith))
          (λ k. field 4 32 _ _ (omega arith) (λ p. (_, refl))))))
  case_some MessageType.order_executed out h =
      field 8 11 _ _ (omega arith)
        (λ o. field 4 19 _ _ (omega arith) (λ s. field 8 23 _ _ (omega arith) (λ m. (_, refl))))
  case_some MessageType.order_executed_with_price out h = field 8 11 _ _ (omega arith) (λ o.
      field 4 19 _ _ (omega arith) (λ s.
        field 8 23 _ _ (omega arith)
          (λ m. byte 31 _ (omega arith) (λ b. field 4 32 _ _ (omega arith) (λ p. (_, refl))))))
  case_some MessageType.order_cancel out h =
      field 8 11 _ _ (omega arith) (λ o. field 4 19 _ _ (omega arith) (λ s. (_, refl)))
  case_some MessageType.order_delete out h = field 8 11 _ _ (omega arith) (λ o. (_, refl))
  case_some MessageType.order_replace out h = field 8 11 _ _ (omega arith) (λ o.
      field 8 19 _ _ (omega arith)
        (λ r. field 4 27 _ _ (omega arith) (λ s. field 4 31 _ _ (omega arith) (λ p. (_, refl)))))

  sizes : (kind : MessageType) → wire_size kind ≤ length wire → 11 ≤ length wire
  sizes _ h = ground arith

  message_some :
      (kind : MessageType) (out : ItchFrame)
      → (out' : ItchFrame) × (decode_message kind wire out ≡ some (known (some kind) wire, out'))
  message_some kind out = elim (dec_lt (length wire) (wire_size kind)) [
    | yes short ↦ (out, rw (lt→ltb (length wire) (wire_size kind) short) refl)
    | no long ↦ fits (omega arith)
  ]
    where
      fits :
          wire_size kind ≤ length wire
          → (out' : ItchFrame) × (decode_message kind wire out
              ≡ some (known (some kind) wire, out'))
      fits h =
          let (headed, e) = header_some out (sizes kind h) in
          let (decoded, f) = case_some kind headed h in
          (decoded, rw (le→ltb (length wire) (wire_size kind) h, e, f) refl)

dispatch-some :
    (kind : Option MessageType) (wire : List ℕ) (out : ItchFrame)
    → (out' : ItchFrame) × (dispatch kind wire out ≡ some (known kind wire, out'))
dispatch-some none wire out = (out, refl)
dispatch-some (some kind) wire out = message_some wire kind out

-- On every buffer `decode` reads inside the buffer only, and returns `true` exactly when the first
-- byte is one of the eight types and the buffer holds at least the bytes of that type's struct.
pub decode_verdict :
    (wire : List ℕ) (out : ItchFrame)
    → (out' : ItchFrame) × (decode (some wire) out ≡ some (accepted wire, out'))
unfolding decode
decode_verdict [] out = (out, refl)
decode_verdict (first ∷ rest) out =
    dispatch-some (message_type first) (first ∷ rest) (cleared first out)
