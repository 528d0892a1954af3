-- ===== src/Examples/Messages.antt =====
-- Concrete messages of the ITCH adapter: adapters/itch50/include/.
use animus_core_v.Base.{◌≡◌, some, [], ◌∷◌}
use animus_core_v.Itch.Codec.{ItchFrame, decode}
use animus_core_v.Itch.Bounds.{accepted, decode_verdict}
use animus_core_v.Itch.Messages.{Message}

abbrev unset : ItchFrame
unset = record {
  sequence_id = 9;
  recv_timestamp_ns = 8;
  itch_timestamp_ns = 7;
  order_ref_number = 6;
  secondary_ref_number = 5;
  stock_ticker_raw = 4;
  price_ticks = 3;
  shares = 2;
  stock_locate = 1;
  msg_type = 0;
  side_or_flag = 1;
}

-- Order 42 is replaced by order 43, for 100 shares at 1.5000.
abbrev replacement : Message
replacement = Message.order_replace 1 2 34200000000000 42 43 100 15000

decode_verdict_example :
    (out' : ItchFrame) × (decode (some (88 ∷ 0 ∷ 1 ∷ [])) unset
      ≡ some (accepted (88 ∷ 0 ∷ 1 ∷ []), out'))
decode_verdict_example = decode_verdict (88 ∷ 0 ∷ 1 ∷ []) unset
