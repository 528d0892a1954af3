-- ===== src/Itch/RoundTrip.antt =====
-- The decoder against the message layouts: adapters/itch50/include/itch50_codec.hpp.
use animus_core_v.Base.{ℕ}
use animus_core_v.Itch.{bswap, le_bytes, le_value, shift_six, put_be48_ns}
use animus_core_v.Itch.Messages.{Message}

-- A field after its bytes are written and read.
unfoldable got : ℕ → ℕ → ℕ
got n v = bswap n (le_value (le_bytes n (bswap n v)))

unfoldable got_48 : ℕ → ℕ
got_48 v = shift_six (put_be48_ns v)

unfoldable got_le : ℕ → ℕ
got_le v = le_value (le_bytes 8 v)

unfoldable received : Message → Message
received (Message.system_event locate tracking ts event) =
    Message.system_event (got 2 locate) tracking (got_48 ts) event
received (Message.add_order locate tracking ts order side shares stock price) =
    Message.add_order (got 2 locate) tracking (got_48 ts) (got 8 order) side (got 4 shares)
      (got_le stock) (got 4 price)
received (Message.add_order_mpid locate tracking ts order side shares stock price attribution) =
    Message.add_order_mpid (got 2 locate) tracking (got_48 ts) (got 8 order) side (got 4 shares)
      (got_le stock) (got 4 price) attribution
received (Message.order_executed locate tracking ts order shares match_number) =
    Message.order_executed (got 2 locate) tracking (got_48 ts) (got 8 order) (got 4 shares)
      (got 8 match_number)
received
      (Message.order_executed_with_price locate tracking ts order shares match_number printable
        price) =
    Message.order_executed_with_price (got 2 locate) tracking (got_48 ts) (got 8 order)
      (got 4 shares) (got 8 match_number) printable (got 4 price)
received (Message.order_cancel locate tracking ts order shares) =
    Message.order_cancel (got 2 locate) tracking (got_48 ts) (got 8 order) (got 4 shares)
received (Message.order_delete locate tracking ts order) =
    Message.order_delete (got 2 locate) tracking (got_48 ts) (got 8 order)
received (Message.order_replace locate tracking ts order replacement shares price) =
    Message.order_replace (got 2 locate) tracking (got_48 ts) (got 8 order) (got 8 replacement)
      (got 4 shares) (got 4 price)
