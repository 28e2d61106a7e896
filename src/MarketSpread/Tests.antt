-- ===== src/MarketSpread/Tests.antt =====
-- The market spread application at concrete inputs, with numbers of one byte for floats, a limit of
-- five, and the ratio of 100 of one to the other for their division.
use wallaroo.Base.{ℕ, ◌+◌, ◌-◌, ◌*◌, ◌/◌, ◌==◌, ◌≡◌, refl, true, false, leb, [], ◌∷◌, ok, err, some}
use wallaroo.Base.{value_error, Result, if◌then◌else◌}
use wallaroo.Struct.{Bytes}
use wallaroo.MarketSpread.{
  Floats, Order, MarketDataMessage, order, market_data, new_symbol_data, is_wide, check_market_data,
}
use wallaroo.MarketSpread.Latest.{after, check_market_data-latest}

abbrev quotient : ℕ → ℕ → Result ℕ
quotient a b = if b == 0 then err value_error else ok (a * 100 / b)

abbrev first_byte : Bytes → ℕ
first_byte [] = 0
first_byte (b ∷ bs) = b

abbrev hundredths : Floats ℕ
hundredths = record {
  zero_float = 0;
  two = 200;
  limit = 5;
  add = λ a b. a + b;
  subtract = λ a b. a - b;
  divide = quotient;
  at_least = λ a b. leb b a;
  of_bytes = first_byte;
  to_bytes = λ a. a ∷ [];
}

abbrev an_order : Order ℕ
an_order = record {
  side = 1;
  account = 7;
  order_id = b'i' ∷ [];
  symbol = b's' ∷ [];
  qty = 10;
  price = 20;
  transact_time = [];
}

abbrev narrow : MarketDataMessage ℕ
narrow = record { symbol = b's' ∷ []; transact_time = []; bid = 100; offer = 101; mid = 100 }

abbrev spread : MarketDataMessage ℕ
spread = record { symbol = b's' ∷ []; transact_time = []; bid = 100; offer = 108; mid = 104 }

check_market_data-latest_example :
    (check_market_data hundredths 5 (order an_order) (
      after hundredths
        ((1, market_data narrow) ∷ (2, order an_order) ∷ (3, market_data spread) ∷ [])
        (new_symbol_data hundredths))).0
    ≡ ok (some (record { order_of = an_order; bid = 100; offer = 108; timestamp = 5 }))
unfolding is_wide
check_market_data-latest_example =
    check_market_data-latest hundredths
      ((1, market_data narrow) ∷ (2, order an_order) ∷ (3, market_data spread) ∷ []) 5 an_order
      ((false, refl), (tt, ((true, refl), tt)))
