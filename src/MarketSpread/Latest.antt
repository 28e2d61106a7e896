-- ===== src/MarketSpread/Latest.antt =====
-- What an order is answered by the market data that came before it.
use wallaroo.Base.{ℕ, ◌≡◌, refl, Bool, Option, none, some, List, [], ◌∷◌}
use wallaroo.Base.{All, Result, ok, err, if◌then◌else◌}
use wallaroo.MarketSpread.{
  Floats, Order, MarketDataMessage, Message, order, market_data, SymbolData, OrderResult,
  new_symbol_data, is_wide, check_market_data,
}

module _ {F : Type 0} (fl : Floats F) where
  -- The state after the messages, the first one first.
  unfoldable pub after : List (ℕ × Message F) → SymbolData F → SymbolData F
  unfolding check_market_data
  after [] s = s
  after ((ts, m) ∷ ms) s = after ms (check_market_data fl ts m s).1

  -- The last market data among the messages, or else what was there before.
  abbrev pub latest :
      List (ℕ × Message F) → Option (MarketDataMessage F) → Option (MarketDataMessage F)
  latest [] before = before
  latest ((ts, order o) ∷ ms) before = latest ms before
  latest ((ts, market_data m) ∷ ms) before = latest ms (some m)

  -- The comparison of the prices does not raise.
  abbrev pub IsJudged : ℕ × Message F → Type 0
  IsJudged (ts, order o) = Unit
  IsJudged (ts, market_data m) = (wide : Bool) × (is_wide fl m ≡ ok wide)

  abbrev answer_of :
      ℕ → Order F → MarketDataMessage F → Result Bool → Result (Option (OrderResult F))
  answer_of ts o m (err e) = err e
  answer_of ts o m (ok wide) =
      if wide
      then ok (some (record { order_of = o; bid = m.bid; offer = m.offer; timestamp = ts }))
      else ok none

  -- The answer to an order: its rejection, with the prices, or nothing.
  abbrev pub answer : ℕ → Order F → Option (MarketDataMessage F) → Result (Option (OrderResult F))
  answer ts o none =
      ok
        (some (record { order_of = o; bid = fl.zero_float; offer = fl.zero_float; timestamp = ts }))
  answer ts o (some m) = answer_of ts o m (is_wide fl m)

  -- A state that answers as the market data does.
  abbrev Answers : Option (MarketDataMessage F) → SymbolData F → Type 0
  Answers before s =
      (ts : ℕ) (o : Order F) → (check_market_data fl ts (order o) s).0 ≡ answer ts o before

  after-Answers :
      (ms : List (ℕ × Message F)) (before : Option (MarketDataMessage F)) (s : SymbolData F)
      → All IsJudged ms
      → Answers before s
      → Answers (latest ms before) (after ms s)
  unfolding after check_market_data
  after-Answers [] before s j h = h
  after-Answers ((ts, order o) ∷ ms) before s (_, j) h = after-Answers ms before s j h
  after-Answers ((ts, market_data m) ∷ ms) before s ((wide, w), j) h =
      after-Answers ms (some m) (check_market_data fl ts (market_data m) s).1 j (λ ts' o. rw w refl)

  -- An order is answered by the last market data before it, whatever else came before: rejected
  -- with its prices where they are wide, and else not answered; before any market data it is
  -- rejected with zero prices. The market data's comparisons must not raise.
  pub check_market_data-latest :
      (ms : List (ℕ × Message F)) (ts : ℕ) (o : Order F)
      → All IsJudged ms
      → (check_market_data fl ts (order o) (after ms (new_symbol_data fl))).0
        ≡ answer ts o (latest ms none)
  unfolding check_market_data new_symbol_data
  check_market_data-latest ms ts o j =
      after-Answers ms none (new_symbol_data fl) j (λ ts' o'. refl) ts o
