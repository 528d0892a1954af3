-- ===== src/Itch/Codec.antt =====
-- The message layouts and the decoder of the ITCH 5.0 adapter:
-- adapters/itch50/include/itch50_messages.hpp, itch50_ring_frame.hpp and itch50_codec.hpp.
use animus_core_v.Base.{
  ℕ, Bool, true, false, Option, none, some, List, [], ◌∷◌, length, get_elem?, ltb, ◌==◌,
  if◌then◌else◌,
}
use animus_core_v.Itch.{
  ◌>>=◌, load, le_value, be16toh_field, be32toh_field, be64toh_field, be48toh_ns,
}

pub data MessageType : Type 0 where
  system_event add_order_no_mpid add_order_with_mpid order_executed order_executed_with_price :
      MessageType
  order_cancel order_delete order_replace : MessageType

-- The enumerators' values.
abbrev pub tag : MessageType → ℕ
tag MessageType.system_event = 83
tag MessageType.add_order_no_mpid = 65
tag MessageType.add_order_with_mpid = 70
tag MessageType.order_executed = 69
tag MessageType.order_executed_with_price = 67
tag MessageType.order_cancel = 88
tag MessageType.order_delete = 68
tag MessageType.order_replace = 85

-- The case that a byte selects; `none` is the default.
abbrev pub message_type : ℕ → Option MessageType
message_type b =
    if b == 83
    then some MessageType.system_event
    else if b == 65
    then some MessageType.add_order_no_mpid
    else if b == 70
    then some MessageType.add_order_with_mpid
    else if b == 69
    then some MessageType.order_executed
    else if b == 67
    then some MessageType.order_executed_with_price
    else if b == 88
    then some MessageType.order_cancel
    else if b == 68
    then some MessageType.order_delete
    else if b == 85
    then some MessageType.order_replace
    else none

-- `sizeof` of the packed structs.
abbrev pub wire_size : MessageType → ℕ
wire_size MessageType.system_event = 12
wire_size MessageType.add_order_no_mpid = 36
wire_size MessageType.add_order_with_mpid = 40
wire_size MessageType.order_executed = 31
wire_size MessageType.order_executed_with_price = 36
wire_size MessageType.order_cancel = 23
wire_size MessageType.order_delete = 19
wire_size MessageType.order_replace = 35

-- A price is decoded from 32 unsigned bits, so it is not negative.
pub record ItchFrame : Type 0 where
  pub sequence_id : ℕ
  pub recv_timestamp_ns : ℕ
  pub itch_timestamp_ns : ℕ
  pub order_ref_number : ℕ
  pub secondary_ref_number : ℕ
  pub stock_ticker_raw : ℕ
  pub price_ticks : ℕ
  pub shares : ℕ
  pub stock_locate : ℕ
  pub msg_type : ℕ
  pub side_or_flag : ℕ

abbrev pub decode_common_header : List ℕ → ItchFrame → Option ItchFrame
decode_common_header wire out = do
  stock_locate ← be16toh_field 1 wire
  timestamp ← be48toh_ns 5 wire
  some (record out { stock_locate = stock_locate; itch_timestamp_ns = timestamp })

-- The body of each case after its length test.
unfoldable pub decode_case : MessageType → List ℕ → ItchFrame → Option ItchFrame
decode_case MessageType.system_event wire out = do
  event ← get_elem? wire 11
  some (record out { side_or_flag = event })
decode_case MessageType.add_order_no_mpid wire out = do
  order ← be64toh_field 11 wire
  side ← get_elem? wire 19
  shares ← be32toh_field 20 wire
  stock ← load 8 24 wire
  price ← be32toh_field 32 wire
  some (record out {
    order_ref_number = order;
    side_or_flag = side;
    shares = shares;
    stock_ticker_raw = le_value stock;
    price_ticks = price;
  })
decode_case MessageType.add_order_with_mpid wire out = do
  order ← be64toh_field 11 wire
  side ← get_elem? wire 19
  shares ← be32toh_field 20 wire
  stock ← load 8 24 wire
  price ← be32toh_field 32 wire
  some (record out {
    order_ref_number = order;
    side_or_flag = side;
    shares = shares;
    stock_ticker_raw = le_value stock;
    price_ticks = price;
  })
decode_case MessageType.order_executed wire out = do
  order ← be64toh_field 11 wire
  shares ← be32toh_field 19 wire
  match_number ← be64toh_field 23 wire
  some (record out {
    order_ref_number = order;
    shares = shares;
    secondary_ref_number = match_number;
  })
decode_case MessageType.order_executed_with_price wire out = do
  order ← be64toh_field 11 wire
  shares ← be32toh_field 19 wire
  match_number ← be64toh_field 23 wire
  printable ← get_elem? wire 31
  price ← be32toh_field 32 wire
  some (record out {
    order_ref_number = order;
    shares = shares;
    secondary_ref_number = match_number;
    side_or_flag = printable;
    price_ticks = price;
  })
decode_case MessageType.order_cancel wire out = do
  order ← be64toh_field 11 wire
  shares ← be32toh_field 19 wire
  some (record out { order_ref_number = order; shares = shares })
decode_case MessageType.order_delete wire out = do
  order ← be64toh_field 11 wire
  some (record out { order_ref_number = order })
decode_case MessageType.order_replace wire out = do
  order ← be64toh_field 11 wire
  replacement ← be64toh_field 19 wire
  shares ← be32toh_field 27 wire
  price ← be32toh_field 31 wire
  some (record out {
    order_ref_number = order;
    secondary_ref_number = replacement;
    shares = shares;
    price_ticks = price;
  })

-- Every case tests the length, decodes the header and then its own fields.
abbrev pub decode_message : MessageType → List ℕ → ItchFrame → Option (Bool × ItchFrame)
decode_message kind wire out = if ltb (length wire) (wire_size kind) then some (false, out) else do
  headed ← decode_common_header wire out
  decoded ← decode_case kind wire headed
  some (true, decoded)

abbrev pub cleared : ℕ → ItchFrame → ItchFrame
cleared first out = record out {
  order_ref_number = 0;
  secondary_ref_number = 0;
  stock_ticker_raw = 0;
  price_ticks = 0;
  shares = 0;
  side_or_flag = 0;
  msg_type = first;
}

abbrev pub dispatch : Option MessageType → List ℕ → ItchFrame → Option (Bool × ItchFrame)
dispatch none wire out = some (false, out)
dispatch (some kind) wire out = decode_message kind wire out

-- The buffer is null (`none`) or the bytes that the length counts. The result is `none` when a read
-- leaves the buffer.
unfoldable pub decode : Option (List ℕ) → ItchFrame → Option (Bool × ItchFrame)
decode none out = some (false, out)
decode (some []) out = some (false, out)
decode (some (first ∷ rest)) out = dispatch (message_type first) (first ∷ rest) (cleared first out)
