-- ===== src/MarketSpread.antt =====
-- The example application examples/python/market_spread/market_spread.py: the decoders of its two
-- streams, the encoder of its results, and the state computation on a symbol's market data. The
-- floats of the standard library, with their eight bytes, are a parameter.
pub mod Latest
mod Tests
use wallaroo.Base.{
  ℕ, Bool, true, false, Option, none, some, List, [], ◌∷◌, ◌++◌, take, drop, length,
}
use wallaroo.Base.{if◌then◌else◌, ◌==◌, Result, ok, err, ◌>>=◌, struct_error, market_spread_error}
use wallaroo.Struct.{Bytes, pack_be, unpack_be, pack_s, unpack_s}

-- A division by zero raises.
pub record Floats (F : Type 0) : Type 0 where
  pub zero_float : F
  pub two : F
  pub limit : F
  pub add : F → F → F
  pub subtract : F → F → F
  pub divide : F → F → Result F
  pub at_least : F → F → Bool
  pub of_bytes : Bytes → F
  pub to_bytes : F → Bytes

pub record Order (F : Type 0) : Type 0 where
  pub side : ℕ
  pub account : ℕ
  pub order_id : Bytes
  pub symbol : Bytes
  pub qty : F
  pub price : F
  pub transact_time : Bytes

pub record MarketDataMessage (F : Type 0) : Type 0 where
  pub symbol : Bytes
  pub transact_time : Bytes
  pub bid : F
  pub offer : F
  pub mid : F

-- What `is_order` tells apart.
pub data Message (F : Type 0) : Type 0 where
  order : Order F → Message F
  market_data : MarketDataMessage F → Message F

pub record SymbolData (F : Type 0) : Type 0 where
  pub last_bid : F
  pub last_offer : F
  pub should_reject_trades : Bool

pub record OrderResult (F : Type 0) : Type 0 where
  pub order_of : Order F
  pub bid : F
  pub offer : F
  pub timestamp : ℕ

-- `bs[a:a + n]`
abbrev slice : ℕ → ℕ → Bytes → Bytes
slice a n bs = take n (drop a bs)

module _ {F : Type 0} (fl : Floats F) where
  -- `struct.unpack(">d", bs)`
  unfoldable unpack_d : Bytes → Result F
  unpack_d bs = if length bs == 8 then ok (fl.of_bytes bs) else err struct_error

  unfoldable pub order_decoder : Bytes → Result (Order F)
  unfolding unpack_d
  order_decoder bs = do
    order_type ← unpack_be 1 (slice 0 1 bs)
    if order_type == 1
        then (do
          side ← unpack_be 1 (slice 1 1 bs)
          account ← unpack_be 4 (slice 2 4 bs)
          order_id ← unpack_s 6 (slice 6 6 bs)
          symbol ← unpack_s 4 (slice 12 4 bs)
          qty ← unpack_d (slice 16 8 bs)
          price ← unpack_d (slice 24 8 bs)
          transact_time ← unpack_s 21 (slice 32 21 bs)
          ok (record {
            side = side;
            account = account;
            order_id = order_id;
            symbol = symbol;
            qty = qty;
            price = price;
            transact_time = transact_time;
          }))
        else err market_spread_error

  -- `MarketDataMessage`, with the mid of its prices; a division by 2.0 does not raise.
  unfoldable pub new_market_data : Bytes → Bytes → F → F → Result (MarketDataMessage F)
  new_market_data symbol transact_time bid offer = do
    mid ← fl.divide (fl.add bid offer) fl.two
    ok (record {
      symbol = symbol;
      transact_time = transact_time;
      bid = bid;
      offer = offer;
      mid = mid;
    })

  unfoldable pub market_data_decoder : Bytes → Result (MarketDataMessage F)
  unfolding unpack_d new_market_data
  market_data_decoder bs = do
    order_type ← unpack_be 1 (slice 0 1 bs)
    if order_type == 2
        then (do
          symbol ← unpack_s 4 (slice 1 4 bs)
          transact_time ← unpack_s 21 (slice 5 21 bs)
          bid ← unpack_d (slice 26 8 bs)
          offer ← unpack_d (slice 34 8 bs)
          new_market_data symbol transact_time bid offer)
        else err market_spread_error

  -- `SymbolData()`
  unfoldable pub new_symbol_data : SymbolData F
  new_symbol_data = record {
    last_bid = fl.zero_float;
    last_offer = fl.zero_float;
    should_reject_trades = true;
  }

  -- `offer_bid_difference >= 0.05 or offer_bid_difference / data.mid >= 0.05`
  unfoldable pub is_wide : MarketDataMessage F → Result Bool
  is_wide m =
      let difference = fl.subtract m.offer m.bid in
      if fl.at_least difference fl.limit
      then ok true
      else (do ratio ← fl.divide difference m.mid; ok (fl.at_least ratio fl.limit))

  abbrev pub update_prices :
      MarketDataMessage F
      → SymbolData F
      → Result Bool
      → Result (Option (OrderResult F)) × SymbolData F
  update_prices m state (err e) = (err e, state)
  update_prices m state (ok wide) =
      (ok none, record { last_bid = m.bid; last_offer = m.offer; should_reject_trades = wide })

  -- `check_market_data` at a time `ts`.
  unfoldable pub check_market_data :
      ℕ → Message F → SymbolData F → Result (Option (OrderResult F)) × SymbolData F
  unfolding is_wide
  check_market_data ts (order o) state = (
    if state.should_reject_trades
        then ok (
            some (record {
              order_of = o;
              bid = state.last_bid;
              offer = state.last_offer;
              timestamp = ts;
            }))
        else ok none,
    state,
  )
  check_market_data ts (market_data m) state = update_prices m state (is_wide m)

  -- `struct.pack(">BI6s4sddddQ", …)`, behind its length.
  unfoldable pub order_result_encoder : OrderResult F → Result Bytes
  order_result_encoder r = do
    side ← pack_be 1 r.order_of.side
    account ← pack_be 4 r.order_of.account
    ts ← pack_be 8 r.timestamp
    let names = pack_s 6 r.order_of.order_id ++ pack_s 4 r.order_of.symbol
    let prices =
        fl.to_bytes r.order_of.qty
        ++ fl.to_bytes r.order_of.price
        ++ fl.to_bytes r.bid
        ++ fl.to_bytes r.offer
    let p = side ++ account ++ names ++ prices ++ ts
    size ← pack_be 4 (length p)
    ok (size ++ pack_s (length p) p)
