-- ===== src/Positions/Service.antt =====
-- engine/application/position_service.py: `PositionService`, for the bot `bot`.
use cryptoaibot.Common.{
  String, ℕ, ◌+◌, Option, some, List, [], ◌∷◌, ◌++◌, str_eq, opt_str_eq, if◌then◌else◌,
}
use cryptoaibot.Exec.{Result, ok, bind_result, lift, gets, pure, ◌>>=◌}
use cryptoaibot.Decimal.{Decimal, zero_dec, ◌+ᵈ◌, ◌-ᵈ◌, ◌*ᵈ◌, lt_dec}
use cryptoaibot.Domain.Rules.{SymbolRules}
use cryptoaibot.Domain.Position.{Fill, Position, flat_position, is_open}
use cryptoaibot.Domain.Position
use cryptoaibot.Positions.Accounting.{ApplyResult, apply_fill_to_position, assets, gross}
use cryptoaibot.Store.Tables.{Database, Action}
use cryptoaibot.Store.Fills.{fills}
use cryptoaibot.Store.Positions.{get_position, save_position, positions}
use cryptoaibot.Store.Transaction.{transaction}

-- The loop of `rebuild`: every recorded fill in turn, with the anomalies so far.
unfoldable pub replay : List Fill → Position → List String → Result (Position × List String)
replay [] p notes = ok (p, notes)
replay (f ∷ fs) p notes =
    bind_result (apply_fill_to_position p f) (λ r. replay fs r.position (notes ++ r.anomalies))

unfoldable pub keep_stop : Position → Position → Position
keep_stop existing p =
    if lt_dec zero_dec p.quantity then record p { stop_price = existing.stop_price } else p

-- The cash that a fill moves: a sale's proceeds less its fee, a purchase's cost and fee.
unfoldable pub cash_after : String → Fill → Decimal → Decimal
cash_after quote f cash =
    let fee = if opt_str_eq f.commission_asset (some quote) then f.commission else zero_dec in
    if str_eq f.side "SELL"
    then cash +ᵈ (gross f -ᵈ fee)
    else cash +ᵈ (zero_dec -ᵈ (gross f +ᵈ fee))

unfoldable pub cash_from : String → List Fill → Decimal → Decimal
cash_from quote [] cash = cash
cash_from quote (f ∷ fs) cash = cash_from quote fs (cash_after quote f cash)

unfoldable pub count_open : (String → Option SymbolRules) → List Position → ℕ
count_open rules [] = 0
count_open rules (p ∷ ps) = (if is_open (rules p.symbol) p then 1 else 0) + count_open rules ps

module _ (bot : String) where
  -- `apply_fill`, in the transaction that inserted the fill
  unfoldable pub apply_fill : Fill → Action ApplyResult
  apply_fill f = do
    p ← gets (λ w. get_position bot f.symbol w.db)
    res ← lift (apply_fill_to_position p f)
    saved ← save_position res.position
    pure (record res { position = saved })

  -- `Position(..., last_mark_price=existing.last_mark_price)`
  abbrev pub start_of : String → Position → Position
  start_of symbol existing = record (flat_position bot symbol) {
    last_mark_price = existing.last_mark_price;
  }

  -- `rebuild(symbol, persist=True)`
  unfoldable pub rebuild : String → Action (Position × List String)
  rebuild symbol = do
    existing ← gets (λ w. get_position bot symbol w.db)
    recorded ← gets (λ w. fills bot symbol w.db)
    result ← lift (replay recorded (start_of symbol existing) [])
    saved ← save_position (keep_stop existing result.0)
    pure (saved, result.1)

  unfoldable pub set_stop : String → Decimal → Action Position
  set_stop symbol stop = transaction do
    p ← gets (λ w. get_position bot symbol w.db)
    save_position (record p { stop_price = some stop })

  unfoldable pub mark : String → Decimal → Action Position
  mark symbol price =
      transaction
        do p ← gets (λ w. get_position bot symbol w.db); save_position (Position.mark price p)

  unfoldable pub open_position_count : (String → Option SymbolRules) → Database → ℕ
  open_position_count rules d = count_open rules (positions bot d)

  unfoldable pub paper_cash : Decimal → String → Database → Result Decimal
  paper_cash starting symbol d =
      bind_result (assets symbol) (λ a. ok (cash_from a.1 (fills bot symbol d) starting))

  -- `paper_balances`: quote asset, cash, base asset, position
  unfoldable pub paper_balances :
      Decimal → String → Database → Result (String × Decimal × String × Decimal)
  paper_balances starting symbol d = bind_result (assets symbol) (λ a.
      bind_result (paper_cash starting symbol d)
        (λ cash. ok (a.1, cash, a.0, (get_position bot symbol d).quantity)))

  unfoldable pub equity : String → Decimal → Decimal → Database → Decimal
  equity symbol quote_total price d = quote_total +ᵈ (get_position bot symbol d).quantity *ᵈ price
