-- ===== src/Itch/Messages.antt =====
-- The packed message structs of adapters/itch50/include/itch50_messages.hpp, their bytes, and the frame
-- that each of them is.
use animus_core_v.Base.{ℕ, ◌^◌, ◌<◌, List, [], ◌∷◌, ◌++◌}
use animus_core_v.Itch.{le_bytes, put_be16, put_be32, put_be64, put_be48_ns}
use animus_core_v.Itch.Codec.{MessageType, tag, ItchFrame, cleared}

-- The fields of each packed struct. `stock` and `attribution` are the eight and four characters as
-- they lie in memory.
pub data Message : Type 0 where
  system_event : ℕ → ℕ → ℕ → ℕ → Message
  add_order : ℕ → ℕ → ℕ → ℕ → ℕ → ℕ → ℕ → ℕ → Message
  add_order_mpid : ℕ → ℕ → ℕ → ℕ → ℕ → ℕ → ℕ → ℕ → ℕ → Message
  order_executed : ℕ → ℕ → ℕ → ℕ → ℕ → ℕ → Message
  order_executed_with_price : ℕ → ℕ → ℕ → ℕ → ℕ → ℕ → ℕ → ℕ → Message
  order_cancel : ℕ → ℕ → ℕ → ℕ → ℕ → Message
  order_delete : ℕ → ℕ → ℕ → ℕ → Message
  order_replace : ℕ → ℕ → ℕ → ℕ → ℕ → ℕ → ℕ → Message

abbrev pub header_bytes : MessageType → ℕ → ℕ → ℕ → List ℕ
header_bytes kind locate tracking timestamp =
    (tag kind ∷ put_be16 locate) ++ put_be16 tracking ++ put_be48_ns timestamp

-- The bytes of a message on the wire.
abbrev pub wire : Message → List ℕ
wire (Message.system_event locate tracking ts event) =
    header_bytes MessageType.system_event locate tracking ts ++ (event ∷ [])
wire (Message.add_order locate tracking ts order side shares stock price) =
    header_bytes MessageType.add_order_no_mpid locate tracking ts
    ++ put_be64 order
    ++ (side ∷ [])
    ++ put_be32 shares
    ++ le_bytes 8 stock
    ++ put_be32 price
wire (Message.add_order_mpid locate tracking ts order side shares stock price attribution) =
    header_bytes MessageType.add_order_with_mpid locate tracking ts
    ++ put_be64 order
    ++ (side ∷ [])
    ++ put_be32 shares
    ++ le_bytes 8 stock
    ++ put_be32 price
    ++ le_bytes 4 attribution
wire (Message.order_executed locate tracking ts order shares match_number) =
    header_bytes MessageType.order_executed locate tracking ts
    ++ put_be64 order
    ++ put_be32 shares
    ++ put_be64 match_number
wire
      (Message.order_executed_with_price locate tracking ts order shares match_number printable
        price) =
    header_bytes MessageType.order_executed_with_price locate tracking ts
    ++ put_be64 order
    ++ put_be32 shares
    ++ put_be64 match_number
    ++ (printable ∷ [])
    ++ put_be32 price
wire (Message.order_cancel locate tracking ts order shares) =
    header_bytes MessageType.order_cancel locate tracking ts ++ put_be64 order ++ put_be32 shares
wire (Message.order_delete locate tracking ts order) =
    header_bytes MessageType.order_delete locate tracking ts ++ put_be64 order
wire (Message.order_replace locate tracking ts order replacement shares price) =
    header_bytes MessageType.order_replace locate tracking ts
    ++ put_be64 order
    ++ put_be64 replacement
    ++ put_be32 shares
    ++ put_be32 price

abbrev pub Fits : ℕ → ℕ → ℕ → ℕ → Type 0
Fits locate tracking ts order = (locate < 256 ^ 2) × (ts < 2 ^ 48) × (order < 256 ^ 8)

-- The fields that the frame carries are no wider than their bytes.
abbrev pub InRange : Message → Type 0
InRange (Message.system_event locate tracking ts event) = (locate < 256 ^ 2) × (ts < 2 ^ 48)
InRange (Message.add_order locate tracking ts order side shares stock price) =
    Fits locate tracking ts order × (shares < 256 ^ 4) × (stock < 256 ^ 8) × (price < 256 ^ 4)
InRange (Message.add_order_mpid locate tracking ts order side shares stock price attribution) =
    Fits locate tracking ts order × (shares < 256 ^ 4) × (stock < 256 ^ 8) × (price < 256 ^ 4)
InRange (Message.order_executed locate tracking ts order shares match_number) =
    Fits locate tracking ts order × (shares < 256 ^ 4) × (match_number < 256 ^ 8)
InRange
      (Message.order_executed_with_price locate tracking ts order shares match_number printable
        price) =
    Fits locate tracking ts order
    × (shares < 256 ^ 4)
    × (match_number < 256 ^ 8)
    × (price < 256 ^ 4)
InRange (Message.order_cancel locate tracking ts order shares) =
    Fits locate tracking ts order × (shares < 256 ^ 4)
InRange (Message.order_delete locate tracking ts order) = Fits locate tracking ts order
InRange (Message.order_replace locate tracking ts order replacement shares price) =
    Fits locate tracking ts order × (replacement < 256 ^ 8) × (shares < 256 ^ 4) × (price < 256 ^ 4)

-- The frame that a message is: its type, its common header, and its own fields over zeros. The two
-- fields of the ingest pipeline stay as they were.
abbrev pub blank : MessageType → ℕ → ℕ → ItchFrame → ItchFrame
blank kind locate ts out = record (cleared (tag kind) out) {
  stock_locate = locate;
  itch_timestamp_ns = ts;
}

abbrev pub frame : Message → ItchFrame → ItchFrame
frame (Message.system_event locate tracking ts event) out =
    record (blank MessageType.system_event locate ts out) { side_or_flag = event }
frame (Message.add_order locate tracking ts order side shares stock price) out =
    record (blank MessageType.add_order_no_mpid locate ts out) {
      order_ref_number = order;
      side_or_flag = side;
      shares = shares;
      stock_ticker_raw = stock;
      price_ticks = price;
    }
frame (Message.add_order_mpid locate tracking ts order side shares stock price attribution) out =
    record (blank MessageType.add_order_with_mpid locate ts out) {
      order_ref_number = order;
      side_or_flag = side;
      shares = shares;
      stock_ticker_raw = stock;
      price_ticks = price;
    }
frame (Message.order_executed locate tracking ts order shares match_number) out =
    record (blank MessageType.order_executed locate ts out) {
      order_ref_number = order;
      shares = shares;
      secondary_ref_number = match_number;
    }
frame
      (Message.order_executed_with_price locate tracking ts order shares match_number printable
        price)
      out =
    record (blank MessageType.order_executed_with_price locate ts out) {
      order_ref_number = order;
      shares = shares;
      secondary_ref_number = match_number;
      side_or_flag = printable;
      price_ticks = price;
    }
frame (Message.order_cancel locate tracking ts order shares) out =
    record (blank MessageType.order_cancel locate ts out) {
      order_ref_number = order;
      shares = shares;
    }
frame (Message.order_delete locate tracking ts order) out =
    record (blank MessageType.order_delete locate ts out) { order_ref_number = order }
frame (Message.order_replace locate tracking ts order replacement shares price) out =
    record (blank MessageType.order_replace locate ts out) {
      order_ref_number = order;
      secondary_ref_number = replacement;
      shares = shares;
      price_ticks = price;
    }
